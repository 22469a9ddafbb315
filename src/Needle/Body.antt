-- ===== src/Needle/Body.antt =====
-- A whole body with its footer is read back.
use go_blob.Base.{
  ℕ, ◌%◌, ◌^◌, ◌<◌, ◌≡◌, refl, Bool, true, false, Bool-cases, inl, inr, List, [], ◌∷◌, ◌++◌, arith,
  if◌then◌else◌, leb, ==_self, length, length-append, append_assoc, u8, u16, u32, u64,
}
use native.Mathlib.Nat.{mod-lt}
use go_blob.Bytes.{put_be}
use go_blob.Bytes.Laws.{length-put_be}
use go_blob.Types.{no_ttl, ttl_bytes}
use go_blob.Needle.{
  Needle, blank, has_name, has_mime, has_last_modified, has_ttl, has_pairs, new_crc32,
}
use go_blob.Needle.Write.{write_uint40, body_bytes, build_footer_bytes}
use go_blob.Needle.Read.{ok, read_body, verify_checksum}
use go_blob.Needle.Layout.{FitsBody}
use go_blob.Needle.Fields.{
  read_data-body, read_name-body, read_mime-body, read_pairs-body, read_last_modified-body,
  read_ttl-body, read_footer-bytes,
}

-- The needle that a reader gets back: the fields that the flags announce, the checksum of the body,
-- and the time stamp from version 3 on.
abbrev pub stored : ℕ → Needle → Needle
stored version n = record {
  cookie = n.cookie;
  id = n.id;
  size = 0;
  data_size = n.data_size;
  payload = n.payload;
  flags = n.flags;
  name = if has_name n then n.name else [];
  mime = if has_mime n then n.mime else [];
  pairs = if has_pairs n then n.pairs else [];
  last_modified = if has_last_modified n then n.last_modified else 0;
  ttl = if has_ttl n then n.ttl else no_ttl;
  checksum = new_crc32 n.cookie n.id (body_bytes n);
  append_at_ns = if leb 3 version then n.append_at_ns else 0;
}

-- The ranges of the Go types, and the limits that the setters of the fields keep to.
pub record IsWritable (n : Needle) : Type 0 where
  pub fits : FitsBody n
  pub cookie : n.cookie < u32
  pub id : n.id < u64
  pub name : length n.name < 256
  pub mime : length n.mime < 256
  pub pairs : length n.pairs < 65536
  pub last_modified : n.last_modified < 2 ^ 40
  pub append_at_ns : n.append_at_ns < u64

if_nested {ℓ κ} :
    {A : Type ℓ} {B : Type κ} (b : Bool) (f : A → B) (x y : A) (d : B)
    → (if b then f (if b then x else y) else d) ≡ (if b then f x else d)
if_nested true f x y d = refl
if_nested false f x y d = refl

pub body_bytes-stored : (version : ℕ) (n : Needle) → body_bytes (stored version n) ≡ body_bytes n
unfolding body_bytes
body_bytes-stored version n = rw (
  if_nested (has_name n) (λ s. length s % u8 ∷ s) n.name [] [],
  if_nested (has_mime n) (λ s. length s % u8 ∷ s) n.mime [] [],
  if_nested (has_pairs n) (λ s. put_be 2 (length s % u16) ++ s) n.pairs [] [],
  if_nested (has_last_modified n) write_uint40 n.last_modified 0 [],
  if_nested (has_ttl n) ttl_bytes n.ttl no_ttl [],
)

body_bytes-append :
    (n : Needle) (rest : List ℕ)
    → body_bytes n ++ rest
      ≡ put_be 4 n.data_size
        ++ (n.payload
            ++ n.flags
              ∷ ((if has_name n then length n.name % u8 ∷ n.name else [])
                  ++ ((if has_mime n then length n.mime % u8 ∷ n.mime else [])
                      ++ ((if has_pairs n then put_be 2 (length n.pairs % u16) ++ n.pairs else [])
                          ++ ((if has_last_modified n then write_uint40 n.last_modified else [])
                              ++ ((if has_ttl n then ttl_bytes n.ttl else []) ++ rest))))))
unfolding body_bytes
body_bytes-append n rest = simp append_assoc

new_crc32-lt : (cookie id : ℕ) (body : List ℕ) → new_crc32 cookie id body < u32
unfolding new_crc32
new_crc32-lt cookie id body = mod-lt _ (omega arith)

verify-stored :
    (version : ℕ) (n : Needle) → verify_checksum (stored version n) ≡ ok (stored version n)
unfolding verify_checksum
verify-stored version n =
    rw (body_bytes-stored version n, ==_self (new_crc32 n.cookie n.id (body_bytes n)))

unfoldable pub summed : Needle → Needle
summed n = record n { checksum = new_crc32 n.cookie n.id (body_bytes n) }

pub read_body-body_bytes :
    (version : ℕ) (n : Needle) (rest : List ℕ)
    → IsWritable n
    → read_body version
        (record blank { cookie = n.cookie; id = n.id })
        (body_bytes n ++ (build_footer_bytes version (summed n) ++ rest))
      ≡ ok (stored version n)
unfolding read_body summed
read_body-body_bytes version n rest h =
    let m0 : Needle = record blank { cookie = n.cookie; id = n.id } in
    let m : Needle = record m0 { data_size = n.data_size; payload = n.payload; flags = n.flags } in
    let m1 : Needle = record m { name = if has_name n then n.name else [] } in
    let m2 : Needle = record m1 { mime = if has_mime n then n.mime else [] } in
    let m3 : Needle = record m2 { pairs = if has_pairs n then n.pairs else [] } in
    let m4 : Needle = record m3 {
      last_modified = if has_last_modified n then n.last_modified else 0;
    } in
    let m5 : Needle = record m4 { ttl = if has_ttl n then n.ttl else no_ttl } in
    rw
      (
        body_bytes-append n (build_footer_bytes version (summed n) ++ rest),
        read_data-body m0 n.data_size n.flags n.payload _ h.fits.counted (omega arith),
        read_name-body m n.name _ h.name,
        read_mime-body m1 n.mime _ h.mime,
        read_pairs-body m2 n.pairs _ h.pairs,
        read_last_modified-body m3 n.last_modified _ h.last_modified,
        read_ttl-body m4 n.ttl _,
        read_footer-bytes m5 (summed n) version rest (new_crc32-lt n.cookie n.id (body_bytes n))
            h.append_at_ns,
      )
      (verify-stored version n)

pub length-footer :
    (version : ℕ) (n : Needle)
    → length (build_footer_bytes version n) ≡ (if leb 3 version then 12 else 4)
unfolding build_footer_bytes
length-footer version n = elim (Bool-cases (leb 3 version)) [
  | inl e ↦ rw e (
      omega (
        arith,
        length-append (put_be 4 n.checksum) (put_be 8 n.append_at_ns),
        length-put_be 4 n.checksum,
        length-put_be 8 n.append_at_ns,
      ))
  | inr e ↦ rw e (length-put_be 4 n.checksum)
]
