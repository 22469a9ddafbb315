-- ===== src/Needle/Write.antt =====
-- goblob/storage/needle/needle_write.go: the binary layout of a needle.
use go_blob.Base.{
  ℕ, ◌+◌, ◌/◌, ◌%◌, Bool, true, false, Option, none, some, List, [], ◌∷◌, ◌++◌, leb, ltb, ◌==◌,
  if◌then◌else◌, length, take, drop, replicate, u8, u16, u32,
}
use go_blob.Bytes.{put_be}
use go_blob.Types.{ttl_bytes}
use go_blob.Needle.{
  Needle, has_name, has_mime, has_last_modified, has_ttl, has_pairs, needle_align_padding,
  new_crc32,
}

-- `v >> k & 0xFF` for k = 32, 24, 16, 8, 0.
unfoldable pub write_uint40 : ℕ → List ℕ
write_uint40 v =
    v / 0x1_0000_0000 % u8 ∷ v / 0x100_0000 % u8 ∷ v / 0x1_0000 % u8 ∷ v / 0x100 % u8 ∷ v % u8 ∷ []

-- bodyBytes: the body by appending.
unfoldable pub body_bytes : Needle → List ℕ
unfolding write_uint40 ttl_bytes
body_bytes n =
    put_be 4 n.data_size
    ++ (n.payload
        ++ (n.flags
            ∷ ((if has_name n then length n.name % u8 ∷ n.name else [])
                ++ ((if has_mime n then length n.mime % u8 ∷ n.mime else [])
                    ++ ((if has_pairs n then put_be 2 (length n.pairs % u16) ++ n.pairs else [])
                        ++ ((if has_last_modified n then write_uint40 n.last_modified else [])
                            ++ (if has_ttl n then ttl_bytes n.ttl else [])))))))

-- A slice and the index at which it is written next.
pub record Buffer : Type 0 where
  pub bytes : List ℕ
  pub offset : ℕ

-- copy(bytes[offset:offset+n], src); offset += n. A slice out of range panics: `none`.
unfoldable pub emit : ℕ → List ℕ → Buffer → Option Buffer
emit n src b =
    if ltb (length b.bytes) (b.offset + n)
    then none
    else some (record {
      bytes =
          take b.offset b.bytes
          ++ (take n src ++ drop (length (take n src)) (drop b.offset b.bytes));
      offset = b.offset + n;
    })

unfoldable pub emit_if : Bool → ℕ → List ℕ → Buffer → Option Buffer
unfolding emit
emit_if true n src b = emit n src b
emit_if false n src b = some b

infixl 5 ◌>>=◌
abbrev pub ◌>>=◌ : {A B : Type 0} → Option A → (A → Option B) → Option B
none >>= f = none
some a >>= f = f a

-- The size that buildBodyBytes allocates, in uint32.
unfoldable pub alloc_size : Needle → ℕ
alloc_size n =
    (4
      + n.data_size
      + 1
      + (if has_name n then 1 + length n.name else 0)
      + (if has_mime n then 1 + length n.mime else 0)
      + (if has_pairs n then 2 + length n.pairs else 0)
      + (if has_last_modified n then 5 else 0)
      + (if has_ttl n then 2 else 0))
    % u32

-- buildBodyBytes: the body in a buffer of zeros of the computed size.
unfoldable pub build_body_bytes : Needle → Option (List ℕ)
unfolding alloc_size emit_if write_uint40 ttl_bytes
build_body_bytes n = do
  b ← emit 4 (put_be 4 n.data_size) (record { bytes = replicate (alloc_size n) 0; offset = 0 })
  b ← emit n.data_size n.payload b
  b ← emit 1 (n.flags ∷ []) b
  b ← emit_if (has_name n) 1 (length n.name % u8 ∷ []) b
  b ← emit_if (has_name n) (length n.name) n.name b
  b ← emit_if (has_mime n) 1 (length n.mime % u8 ∷ []) b
  b ← emit_if (has_mime n) (length n.mime) n.mime b
  b ← emit_if (has_pairs n) 2 (put_be 2 (length n.pairs % u16)) b
  b ← emit_if (has_pairs n) (length n.pairs) n.pairs b
  b ← emit_if (has_last_modified n) 5 (write_uint40 n.last_modified) b
  b ← emit_if (has_ttl n) 2 (ttl_bytes n.ttl) b
  some b.bytes

-- buildFooterBytes
unfoldable pub build_footer_bytes : ℕ → Needle → List ℕ
build_footer_bytes version n =
    if leb 3 version then put_be 4 n.checksum ++ put_be 8 n.append_at_ns else put_be 4 n.checksum

-- The four writes of WriteTo, in order, with what each leaves out on an error.
pub record Frame : Type 0 where
  pub header : List ℕ
  pub body : List ℕ
  pub footer : List ℕ
  pub padding : List ℕ

unfoldable pub header_bytes : ℕ → ℕ → ℕ → List ℕ
header_bytes cookie id size = put_be 4 cookie ++ (put_be 8 id ++ put_be 4 size)

-- Steps 1 to 4 of WriteTo; `none` is the panic of buildBodyBytes.
unfoldable pub with_checksum : Needle → List ℕ → Needle
with_checksum n body = record n { checksum = new_crc32 n.cookie n.id body }

unfoldable pub frame : Needle → ℕ → Option (Needle × Frame)
unfolding with_checksum header_bytes
frame n version = do
  body ← build_body_bytes n
  let n' = with_checksum n body
  let footer = build_footer_bytes version n'
  let total = 16 + length body + length footer
  some (
    n',
    record {
      header = header_bytes n.cookie n.id ((length body + length footer) % u32);
      body = body;
      footer = footer;
      padding = replicate (needle_align_padding total) 0;
    },
  )

pub data WriteError : Type 0 where
  header_failed body_failed footer_failed padding_failed : WriteError

-- What WriteTo leaves behind: the writer, the needle, and the count or the error.
pub record Written (S : Type 0) : Type 0 where
  pub sink : S
  pub needle : Needle
  pub count : ℕ
  pub error : Option WriteError

-- io.Writer is outside the program: `write` hands bytes to a writer and says if it took them.
module _ {S : Type 0} (write : S → List ℕ → S × Bool) where
  -- The count of step 7, before the padding.
  unfoldable pub write_padding : Needle → Frame → S → Written S
  write_padding n f s =
      let total = 16 + length f.body + length f.footer in
      let (s', done) = write s f.padding in
      if length f.padding == 0
      then record {
        sink = s;
        needle = record n { size = total % u32 };
        count = total;
        error = none;
      }
      else if done
      then record {
        sink = s';
        needle = record n { size = (total + length f.padding) % u32 };
        count = total + length f.padding;
        error = none;
      }
      else record { sink = s'; needle = n; count = 0; error = some padding_failed }

  -- One write, and what follows it when it is taken.
  write_part : List ℕ → WriteError → Needle → S → (S → Written S) → Written S
  write_part bytes failure n s next =
      let (s', done) = write s bytes in
      if done then next s' else record { sink = s'; needle = n; count = 0; error = some failure }

  -- Steps 5 to 8 of WriteTo.
  write_frame : Needle → Frame → S → Written S
  unfolding write_part
  write_frame n f s = write_part f.header header_failed n s λ s.
      write_part f.body body_failed n s
        λ s. write_part f.footer footer_failed n s λ s. write_padding n f s

  -- WriteTo; `none` is a panic.
  unfoldable pub write_to : Needle → ℕ → S → Option (Written S)
  unfolding write_frame
  write_to n version s = do (n', f) ← frame n version; some (write_frame n' f s)
