-- ===== src/Needle/Tests.antt =====
-- goblob/storage/needle: writing and reading at concrete needles.
use go_blob.Base.{
  ℕ, ◌+◌, ◌%◌, ◌<◌, ◌≤◌, ◌≡◌, ◌↔◌, refl, none, some, List, [], ◌∷◌, ◌++◌, length, drop, arith, u32,
}
use go_blob.Bytes.{get_be, put_be}
use go_blob.Needle.{Needle, blank, has_flag, new_crc32, needle_align_padding}
use go_blob.Needle.Write.{body_bytes, build_body_bytes, Written, write_to}
use go_blob.Needle.Read.{ok, panic, read_from, read_sized, read_body}
use go_blob.Needle.Layout.{FitsBody, build_body_bytes-body_bytes}
use go_blob.Needle.Body.{stored, IsWritable}
use go_blob.Needle.Image.{disk_size}
use go_blob.Needle.RoundTrip.{append, read_from-write_to}
use go_blob.Needle.Corrupt.{body_length, read_from-panic_iff, read_from-verified}

-- A needle with a name and a TTL.
abbrev some_needle : Needle
some_needle = record blank {
  cookie = 0x1234;
  id = 99;
  data_size = 2;
  payload = 104 ∷ 105 ∷ [];
  flags = 9;
  name = 97 ∷ [];
  ttl = record { count = 3; unit = 100 };
  append_at_ns = 77;
}

some_needle-FitsBody : FitsBody some_needle
some_needle-FitsBody = record { counted = refl; small = omega arith }

some_needle-IsWritable : IsWritable some_needle
some_needle-IsWritable = record {
  fits = some_needle-FitsBody;
  cookie = omega arith;
  id = omega arith;
  name = omega arith;
  mime = omega arith;
  pairs = omega arith;
  last_modified = omega arith;
  append_at_ns = omega arith;
}

build_body_bytes-body_bytes_example : build_body_bytes some_needle ≡ some (body_bytes some_needle)
build_body_bytes-body_bytes_example = build_body_bytes-body_bytes some_needle some_needle-FitsBody

some_needle_40 : disk_size 3 some_needle ≡ 40
unfolding has_flag body_bytes put_be needle_align_padding
some_needle_40 = refl

some_needle_size : disk_size 3 some_needle + 1 < u32
some_needle_size = let size : disk_size 3 some_needle ≡ 40 = some_needle_40 in omega (arith, size)

abbrev old_file : List ℕ
old_file = 1 ∷ 2 ∷ 3 ∷ []

read_from-write_to_example :
    (w : Written (List ℕ)) × (write_to append some_needle 3 old_file ≡ some w)
    × (w.error ≡ none)
    × (w.count % 8 ≡ 0)
    × (length w.sink ≡ 3 + w.count)
    × (read_from blank (drop 3 w.sink ++ 5 ∷ []) 3
        ≡ ok (record (stored 3 some_needle) { size = w.count }))
read_from-write_to_example =
    read_from-write_to 3 some_needle old_file (5 ∷ []) some_needle-IsWritable some_needle_size

-- A header with the body size 0xFFFFFFF8.
abbrev wrapping_header : List ℕ
wrapping_header = 0 ∷ 0 ∷ 0 ∷ 1 ∷ 0 ∷ 0 ∷ 0 ∷ 0 ∷ 0 ∷ 0 ∷ 0 ∷ 2 ∷ 255 ∷ 255 ∷ 255 ∷ 248 ∷ []

wrapping_size : body_length wrapping_header ≡ 0xfffffff8
unfolding get_be
wrapping_size = refl

read_from-panic_iff_example :
    (read_from blank wrapping_header 3 ≡ panic) ↔ (u32 ≤ 16 + body_length wrapping_header)
read_from-panic_iff_example =
    read_from-panic_iff 3 blank wrapping_header (omega arith) (omega arith)
      (omega (arith, wrapping_size))

-- ReadFrom does panic on it.
wrapping_header_panics : read_from blank wrapping_header 3 ≡ panic
wrapping_header_panics = read_from-panic_iff_example.1 (omega (arith, wrapping_size))

-- A record of version 2 with the data byte 65.
abbrev some_record : List ℕ
some_record =
    0 ∷ 0 ∷ 0 ∷ 1 ∷ 0 ∷ 0 ∷ 0 ∷ 0 ∷ 0 ∷ 0 ∷ 0 ∷ 2 ∷ 0 ∷ 0 ∷ 0 ∷ 10 ∷ 0 ∷ 0 ∷ 0 ∷ 1 ∷ 65 ∷ 0 ∷ 161
    ∷ 223 ∷ 17 ∷ 255 ∷ []

abbrev some_record_needle : Needle
some_record_needle = record blank {
  cookie = 1;
  id = 2;
  size = 32;
  data_size = 1;
  payload = 65 ∷ [];
  checksum = 2715750911;
}

some_record_reads : read_from blank some_record 2 ≡ ok some_record_needle
unfolding read_from read_sized read_body get_be has_flag new_crc32 put_be body_bytes
    needle_align_padding
some_record_reads = refl

some_record_length : body_length some_record ≡ 10
unfolding get_be
some_record_length = refl

read_from-verified_example :
    (new_crc32 1 2 (body_bytes some_record_needle) ≡ 2715750911)
    × (32
        ≡ (16 + body_length some_record + needle_align_padding (16 + body_length some_record))
          % u32)
read_from-verified_example =
    read_from-verified 2 blank some_record_needle some_record (omega arith)
      (omega (arith, some_record_length)) some_record_reads
