-- ===== src/Needle/Read.antt =====
-- goblob/storage/needle/needle_read.go: parsing a needle, its checksum and its expiry. The cursor
-- `pos` into the body is kept as the bytes from `pos` on.
use go_blob.Base.{
  ℕ, ◌+◌, ◌*◌, ◌%◌, Bool, false, ◌||◌, not, Option, none, some, List, [], ◌∷◌, leb, ltb, ◌==◌,
  if◌then◌else◌, length, take, drop, u32, u64,
}
use go_blob.Bytes.{get_be}
use go_blob.Types.{Ttl}
use go_blob.Needle.{
  Needle, has_name, has_mime, has_last_modified, has_ttl, has_pairs, needle_align_padding,
  new_crc32,
}
use go_blob.Needle.Write.{body_bytes}

-- One constructor for each error of ReadFrom, named for what its message says.
pub data ReadError : Type 0 where
  short_header short_body body_too_small data_exceeds_body end_at_flags : ReadError
  end_at_name_size end_at_name end_at_mime_size end_at_mime : ReadError
  end_at_pairs_size end_at_pairs end_at_last_modified end_at_ttl : ReadError
  short_footer checksum_mismatch : ReadError

-- `panic` is an index or a slice out of range.
pub data Read (A : Type 0) : Type 0 where
  ok : A → Read A
  err : ReadError → Read A
  panic : Read A

infixl 5 ◌>>=◌
abbrev pub ◌>>=◌ : {A B : Type 0} → Read A → (A → Read B) → Read B
ok a >>= f = f a
err e >>= f = err e
panic >>= f = panic

-- A needle being filled, and the body from `pos` on.
abbrev pub Cursor : Type 0
Cursor = Needle × List ℕ

-- `k` bytes, if that many are left.
unfoldable pub next_bytes : ReadError → ℕ → List ℕ → Read (List ℕ × List ℕ)
next_bytes e k rest = if ltb (length rest) k then err e else ok (take k rest, drop k rest)

-- One byte, if one is left.
unfoldable pub next_byte : ReadError → List ℕ → Read (ℕ × List ℕ)
next_byte e [] = err e
next_byte e (b ∷ rest) = ok (b, rest)

-- readUint40BigEndian, of five bytes; the shifted bytes do not overlap, so `|` adds them.
unfoldable pub read_uint40 : List ℕ → ℕ
read_uint40 (a ∷ b ∷ c ∷ d ∷ e ∷ _) =
    a * 0x1_0000_0000 + b * 0x100_0000 + c * 0x1_0000 + d * 0x100 + e
read_uint40 _ = 0

unfoldable pub read_data : Cursor → Read Cursor
unfolding next_bytes next_byte
read_data (n, body) = do
  (len, rest) ← next_bytes body_too_small 4 body
  (payload, rest) ← next_bytes data_exceeds_body (get_be len) rest
  (flags, rest) ← next_byte end_at_flags rest
  ok (record n { data_size = get_be len; payload = payload; flags = flags }, rest)

unfoldable pub read_name : Cursor → Read Cursor
unfolding next_bytes next_byte
read_name (n, rest) =
    if has_name n
    then (do
      (len, rest) ← next_byte end_at_name_size rest
      (name, rest) ← next_bytes end_at_name len rest
      ok (record n { name = name }, rest))
    else ok (n, rest)

unfoldable pub read_mime : Cursor → Read Cursor
unfolding next_bytes next_byte
read_mime (n, rest) =
    if has_mime n
    then (do
      (len, rest) ← next_byte end_at_mime_size rest
      (mime, rest) ← next_bytes end_at_mime len rest
      ok (record n { mime = mime }, rest))
    else ok (n, rest)

unfoldable pub read_pairs : Cursor → Read Cursor
unfolding next_bytes
read_pairs (n, rest) =
    if has_pairs n
    then (do
      (len, rest) ← next_bytes end_at_pairs_size 2 rest
      (pairs, rest) ← next_bytes end_at_pairs (get_be len) rest
      ok (record n { pairs = pairs }, rest))
    else ok (n, rest)

unfoldable pub read_last_modified : Cursor → Read Cursor
unfolding next_bytes read_uint40
read_last_modified (n, rest) =
    if has_last_modified n
    then (do
      (bytes, rest) ← next_bytes end_at_last_modified 5 rest
      ok (record n { last_modified = read_uint40 bytes }, rest))
    else ok (n, rest)

-- `body[pos]` and `body[pos+1]`.
ttl_of : List ℕ → Ttl
ttl_of (count ∷ unit ∷ _) = record { count = count; unit = unit }
ttl_of _ = record { count = 0; unit = 0 }

unfoldable pub read_ttl : Cursor → Read Cursor
unfolding next_bytes ttl_of
read_ttl (n, rest) =
    if has_ttl n
    then (do
      (bytes, rest) ← next_bytes end_at_ttl 2 rest
      ok (record n { ttl = ttl_of bytes }, rest))
    else ok (n, rest)

unfoldable pub read_footer : ℕ → Cursor → Read Needle
unfolding next_bytes
read_footer version (n, rest) = do
  (footer, _) ← next_bytes short_footer (if leb 3 version then 12 else 4) rest
  let n' = record n { checksum = get_be (take 4 footer) }
  ok (if leb 3 version then record n' { append_at_ns = get_be (take 8 (drop 4 footer)) } else n')

unfoldable pub verify_checksum : Needle → Read Needle
verify_checksum n =
    if new_crc32 n.cookie n.id (body_bytes n) == n.checksum then ok n else err checksum_mismatch

-- The body slice, from DataSize to the checksum test.
unfoldable pub read_body : ℕ → Needle → List ℕ → Read Needle
unfolding read_data read_name read_mime read_pairs read_last_modified read_ttl read_footer
    verify_checksum
read_body version n body = do
  c ← read_data (n, body)
  c ← read_name c
  c ← read_mime c
  c ← read_pairs c
  c ← read_last_modified c
  c ← read_ttl c
  n ← read_footer version c
  verify_checksum n

-- The header fields of ReadFrom.
unfoldable pub read_header : Needle → List ℕ → Needle
read_header n bytes = record n {
  cookie = get_be (take 4 bytes);
  id = get_be (take 8 (drop 4 bytes));
}

-- The tests on BodySize, the slice data[16:16+bodySize] and what follows. The first test is in
-- uint32. The slices are made at their length, so a bound past the length panics.
unfoldable pub read_sized : ℕ → Needle → ℕ → List ℕ → Read Needle
read_sized version n size input =
    let body = take size (drop 16 input) in
    let rest = read_body version n body in
    if ltb (length input % u32) ((16 + size) % u32)
    then err short_body
    else if ltb size 5
    then err body_too_small
    else if ltb (length input) (16 + size)
    then panic
    else (do
      n ← rest
      ok (record n { size = (16 + size + needle_align_padding (16 + size)) % u32 }))

-- ReadFrom. The offset and the index's size are not used by it.
unfoldable pub read_from : Needle → List ℕ → ℕ → Read Needle
unfolding read_header
read_from n input version =
    let n' = read_header n input in
    let size = get_be (take 4 (drop 12 input)) in
    if length input == 0
    then ok n
    else if ltb (length input) 16
    then err short_header
    else if size == 0
    then ok (record n' { data_size = 0; size = 16 })
    else read_sized version n' size input

-- The map secondsPerUnit.
unfoldable pub seconds_per_unit : ℕ → Option ℕ
seconds_per_unit u =
    if u == b'm'
    then some 60
    else if u == b'h'
    then some 3600
    else if u == b'd'
    then some 86400
    else if u == b'w'
    then some 604800
    else if u == b'M'
    then some 2592000
    else if u == b'y'
    then some 31536000
    else none

-- IsExpired, at the clock `now` in unix seconds; the sum is in uint64.
unfoldable pub is_expired : ℕ → Needle → ℕ → Bool
unfolding seconds_per_unit
is_expired now n write_time =
    if not (has_ttl n) || n.ttl.count == 0 then false else elim (seconds_per_unit n.ttl.unit) [
      | none ↦ false
      | some s ↦ ltb ((write_time + n.ttl.count * s) % u64) now
    ]
