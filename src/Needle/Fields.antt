-- ===== src/Needle/Fields.antt =====
-- Each part of a body, as it was written, is read back.
use go_blob.Base.{
  take_len, drop_len, ℕ, ◌%◌, ◌^◌, ◌<◌, ◌≡◌, refl, sym, ap, Bool-cases, inl, inr, List, [], ◌∷◌,
  ◌++◌, arith, if◌then◌else◌, leb, le→not-ltb, length, length-append, take, take_of_length-le,
  append_assoc, u8, u16, u32, u64,
}
use go_blob.Bytes.{put_be, get_be}
use go_blob.Bytes.Laws.{length-put_be, get_be-put_be}
use go_blob.Types.{Ttl, ttl_bytes}
use go_blob.Needle.{Needle, has_name, has_mime, has_last_modified, has_ttl, has_pairs}
use go_blob.Needle.Write.{write_uint40, build_footer_bytes}
use go_blob.Needle.Read.{
  ok, ReadError, next_bytes, next_byte, read_uint40, read_data, read_name, read_mime, read_pairs,
  read_last_modified, read_ttl, read_footer,
}

next_bytes-append :
    (e : ReadError) (k : ℕ) (s rest : List ℕ)
    → length s ≡ k
    → next_bytes e k (s ++ rest) ≡ ok (s, rest)
unfolding next_bytes
next_bytes-append e k s rest h = rw (
  le→not-ltb (length (s ++ rest)) k (omega (arith, length-append s rest)),
  take_len k s rest h,
  drop_len k s rest h,
)

pub get_u32 : (v : ℕ) → v < u32 → get_be (put_be 4 v) ≡ v
get_u32 v h = get_be-put_be 4 v h

pub get_u64 : (v : ℕ) → v < u64 → get_be (put_be 8 v) ≡ v
get_u64 v h = get_be-put_be 8 v h

pub read_data-body :
    (m : Needle) (size flags : ℕ) (payload rest : List ℕ)
    → size ≡ length payload
    → size < u32
    → read_data (m, put_be 4 size ++ (payload ++ flags ∷ rest))
      ≡ ok (record m { data_size = size; payload = payload; flags = flags }, rest)
unfolding read_data next_byte
read_data-body m size flags payload rest e h =
    rw (next_bytes-append _ 4 (put_be 4 size) (payload ++ flags ∷ rest) (length-put_be 4 size))
      (rw (get_u32 size h, next_bytes-append _ size payload (flags ∷ rest) (sym e)))

pub read_name-body :
    (m : Needle) (s rest : List ℕ)
    → length s < 256
    → read_name (m, (if has_name m then length s % u8 ∷ s else []) ++ rest)
      ≡ ok (record m { name = if has_name m then s else m.name }, rest)
unfolding read_name next_byte
read_name-body m s rest h = elim (Bool-cases (has_name m)) [
  | inl e ↦ rw e (rw (next_bytes-append _ (length s % u8) s rest (omega arith)))
  | inr e ↦ rw e
]

pub read_mime-body :
    (m : Needle) (s rest : List ℕ)
    → length s < 256
    → read_mime (m, (if has_mime m then length s % u8 ∷ s else []) ++ rest)
      ≡ ok (record m { mime = if has_mime m then s else m.mime }, rest)
unfolding read_mime next_byte
read_mime-body m s rest h = elim (Bool-cases (has_mime m)) [
  | inl e ↦ rw e (rw (next_bytes-append _ (length s % u8) s rest (omega arith)))
  | inr e ↦ rw e
]

pub read_pairs-body :
    (m : Needle) (s rest : List ℕ)
    → length s < 65536
    → read_pairs (m, (if has_pairs m then put_be 2 (length s % u16) ++ s else []) ++ rest)
      ≡ ok (record m { pairs = if has_pairs m then s else m.pairs }, rest)
unfolding read_pairs
read_pairs-body m s rest h = elim (Bool-cases (has_pairs m)) [
  | inl e ↦
      let len : get_be (put_be 2 (length s % u16)) ≡ length s % u16 =
        get_be-put_be 2 (length s % u16) (omega arith) in
      rw (e, append_assoc)
        (rw (next_bytes-append _ 2 (put_be 2 (length s % u16)) (s ++ rest) (length-put_be 2 _))
          (rw (len, next_bytes-append _ (length s % u16) s rest (omega arith))))
  | inr e ↦ rw e
]

read_uint40-write_uint40 : (v : ℕ) → v < 2 ^ 40 → read_uint40 (write_uint40 v) ≡ v
unfolding read_uint40 write_uint40
read_uint40-write_uint40 v h = omega arith

pub read_last_modified-body :
    (m : Needle) (v : ℕ) (rest : List ℕ)
    → v < 2 ^ 40
    → read_last_modified (m, (if has_last_modified m then write_uint40 v else []) ++ rest)
      ≡ ok (record m { last_modified = if has_last_modified m then v else m.last_modified }, rest)
unfolding read_last_modified write_uint40
read_last_modified-body m v rest h = elim (Bool-cases (has_last_modified m)) [
  | inl e ↦ rw e (
      rw (next_bytes-append _ 5 (write_uint40 v) rest refl)
        (ap (λ (x : ℕ). ok (record m { last_modified = x }, rest)) (read_uint40-write_uint40 v h)))
  | inr e ↦ rw e
]

pub read_ttl-body :
    (m : Needle) (t : Ttl) (rest : List ℕ)
    → read_ttl (m, (if has_ttl m then ttl_bytes t else []) ++ rest)
      ≡ ok (record m { ttl = if has_ttl m then t else m.ttl }, rest)
unfolding read_ttl ttl_bytes
read_ttl-body m t rest = elim (Bool-cases (has_ttl m)) [
  | inl e ↦ rw e (rw (next_bytes-append _ 2 (ttl_bytes t) rest refl))
  | inr e ↦ rw e
]

pub read_footer-bytes :
    (m n : Needle) (version : ℕ) (rest : List ℕ)
    → n.checksum < u32
    → n.append_at_ns < u64
    → read_footer version (m, build_footer_bytes version n ++ rest)
      ≡ ok (record m {
        checksum = n.checksum;
        append_at_ns = if leb 3 version then n.append_at_ns else m.append_at_ns;
      })
unfolding read_footer build_footer_bytes
read_footer-bytes m n version rest hc ha = elim (Bool-cases (leb 3 version)) [
  | inl e ↦
      let sum = put_be 4 n.checksum in
      let time = put_be 8 n.append_at_ns in
      let len : length (sum ++ time) ≡ 12 = omega (
        arith,
        length-append sum time,
        length-put_be 4 n.checksum,
        length-put_be 8 n.append_at_ns,
      ) in
      let whole : take 8 time ≡ time =
        take_of_length-le 8 time (omega (arith, length-put_be 8 n.append_at_ns)) in
      rw e (
        rw (next_bytes-append _ 12 (sum ++ time) rest len) (
          rw (
            take_len 4 sum time (length-put_be 4 _),
            drop_len 4 sum time (length-put_be 4 _),
            whole,
            get_u32 n.checksum hc,
            get_u64 n.append_at_ns ha,
          )))
  | inr e ↦
      let sum = put_be 4 n.checksum in
      let whole : take 4 sum ≡ sum =
        take_of_length-le 4 sum (omega (arith, length-put_be 4 n.checksum)) in
      rw e (
        rw (next_bytes-append _ 4 sum rest (length-put_be 4 _)) (rw (whole, get_u32 n.checksum hc)))
]
