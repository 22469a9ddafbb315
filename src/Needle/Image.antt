-- ===== src/Needle/Image.antt =====
-- The bytes of a needle in a volume file, and how ReadFrom takes them apart.
use go_blob.Base.{
  take_len, drop_len, ℕ, ◌+◌, ◌%◌, ◌≤◌, ◌<◌, ◌≡◌, ◌∙◌, some, List, [], ◌++◌, arith, if◌then◌else◌,
  leb, length, length-append, take, replicate, append_assoc, append-nil, u32,
}
use native.Mathlib.Nat.{mod-eq_of_lt, add_assoc}
use go_blob.Bytes.{put_be}
use go_blob.Bytes.Laws.{length-put_be}
use go_blob.Needle.{Needle, blank, needle_align_padding}
use go_blob.Needle.Write.{body_bytes, build_footer_bytes, frame, header_bytes}
use go_blob.Needle.Read.{ok, read_sized}
use go_blob.Needle.Layout.{build_body_bytes-body_bytes}
use go_blob.Needle.Body.{stored, IsWritable, summed, read_body-body_bytes, length-footer}

-- The size of the footer and of the body together.
abbrev pub part_size : ℕ → Needle → ℕ
part_size version n = length (body_bytes n) + (if leb 3 version then 12 else 4)

-- The total size of the padded record.
abbrev pub disk_size : ℕ → Needle → ℕ
disk_size version n = 16 + part_size version n + needle_align_padding (16 + part_size version n)

abbrev pub header : ℕ → Needle → List ℕ
header version n = put_be 4 n.cookie ++ (put_be 8 n.id ++ put_be 4 (part_size version n))

-- The bytes of a needle in a volume file.
unfoldable pub image : ℕ → Needle → List ℕ
image version n =
    header version n
    ++ (body_bytes n
        ++ (build_footer_bytes version (summed n)
            ++ replicate (needle_align_padding (16 + part_size version n)) 0))

pub length-part :
    (version : ℕ) (n : Needle)
    → length (body_bytes n) + length (build_footer_bytes version (summed n)) ≡ part_size version n
length-part version n = omega (arith, length-footer version (summed n))

pub frame-image :
    (version : ℕ) (n : Needle)
    → IsWritable n
    → part_size version n < u32
    → frame n version
      ≡ some (
        summed n,
        record {
          header = header version n;
          body = body_bytes n;
          footer = build_footer_bytes version (summed n);
          padding = replicate (needle_align_padding (16 + part_size version n)) 0;
        },
      )
unfolding frame header_bytes summed
frame-image version n h small =
    rw (build_body_bytes-body_bytes n h.fits)
      (simp (add_assoc, length-part version n, mod-eq_of_lt small))

pub length-header : (version : ℕ) (n : Needle) → length (header version n) ≡ 16
length-header version n = omega (
  arith,
  length-append (put_be 4 n.cookie) (put_be 8 n.id ++ put_be 4 (part_size version n)),
  length-append (put_be 8 n.id) (put_be 4 (part_size version n)),
  length-put_be 4 n.cookie,
  length-put_be 8 n.id,
  length-put_be 4 (part_size version n),
)

abbrev pub tail_of : ℕ → Needle → List ℕ → List ℕ
tail_of version n rest = body_bytes n ++ (build_footer_bytes version (summed n) ++ rest)

pub length-tail_of :
    (version : ℕ) (n : Needle) (rest : List ℕ)
    → length (tail_of version n rest) ≡ part_size version n + length rest
length-tail_of version n rest = omega (
  arith,
  length-append (body_bytes n) (build_footer_bytes version (summed n) ++ rest),
  length-append (build_footer_bytes version (summed n)) rest,
  length-part version n,
)

body_bytes_min : (n : Needle) → 4 ≤ length (body_bytes n)
unfolding body_bytes
body_bytes_min n = omega (arith, length-append (put_be 4 n.data_size), length-put_be 4 n.data_size)

pub part_size_min : (version : ℕ) (n : Needle) → 5 ≤ part_size version n
part_size_min version n = ground (arith, body_bytes_min n)

take-tail_of :
    (version : ℕ) (n : Needle) (rest : List ℕ)
    → take (part_size version n) (tail_of version n rest) ≡ tail_of version n []
take-tail_of version n rest =
    rw (← append_assoc (body_bytes n) (build_footer_bytes version (summed n)) rest, append-nil)
      (take_len (part_size version n) (body_bytes n ++ build_footer_bytes version (summed n)) rest (
        length-append (body_bytes n) (build_footer_bytes version (summed n))
        ∙ length-part version n))

pub read_sized-image :
    (version : ℕ) (n : Needle) (rest : List ℕ)
    → IsWritable n
    → 16 + part_size version n + length rest < u32
    → read_sized version
        (record blank { cookie = n.cookie; id = n.id })
        (part_size version n)
        (header version n ++ tail_of version n rest)
      ≡ ok (record (stored version n) { size = disk_size version n % u32 })
unfolding read_sized
read_sized-image version n rest h room =
    rw
      (
        drop_len 16 (header version n) (tail_of version n rest) (length-header version n),
        take-tail_of version n rest,
        read_body-body_bytes version n [] h,
      )
      (ground (arith, len, part_size_min version n))
  where
    len :
        length (header version n ++ tail_of version n rest) ≡ 16 + part_size version n + length rest
    len = omega (
      arith,
      length-append (header version n) (tail_of version n rest),
      length-header version n,
      length-tail_of version n rest,
    )
