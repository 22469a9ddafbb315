-- ===== src/Needle/RoundTrip.antt =====
-- What WriteTo puts at the end of a file, ReadFrom reads back.
use go_blob.Base.{
  take_len, drop_len, ℕ, ◌+◌, ◌%◌, ◌<◌, ◌≡◌, refl, Bool, true, none, some, List, [], ◌∷◌, ◌++◌,
  arith, length, length-append, take, drop, replicate, length-replicate, drop-append_length,
  append_assoc, append-nil, u32, u64,
}
use native.Mathlib.Nat.{mod-eq_of_lt, add-zero}
use go_blob.Bytes.{put_be, get_be}
use go_blob.Bytes.Laws.{length-put_be}
use go_blob.Needle.{Needle, blank, needle_align_padding}
use go_blob.Needle.Write.{body_bytes, build_footer_bytes}
use go_blob.Needle.Read.{ok, read_from, read_header}
use go_blob.Needle.Fields.{get_u32, get_u64}
use go_blob.Needle.Write.{Written, write_padding, write_to}
use go_blob.Needle.Body.{stored, IsWritable, summed}
use go_blob.Needle.Image.{
  part_size, disk_size, header, image, tail_of, frame-image, length-header, read_sized-image,
  length-tail_of, part_size_min, length-part,
}

-- A file that takes every write.
abbrev pub append : List ℕ → List ℕ → List ℕ × Bool
append file bytes = (file ++ bytes, true)

write_padding-append :
    (n : Needle) (h b f padding file : List ℕ)
    → write_padding append n (record { header = h; body = b; footer = f; padding = padding }) file
      ≡ record {
        sink = file ++ padding;
        needle = record n { size = (16 + length b + length f + length padding) % u32 };
        count = 16 + length b + length f + length padding;
        error = none;
      }
unfolding write_padding
write_padding-append n h b f [] file = rw (append-nil, add-zero)
write_padding-append n h b f (x ∷ xs) file = ground arith

module _ (version : ℕ) (n : Needle) where
  padding : List ℕ
  padding = replicate (needle_align_padding (16 + part_size version n)) 0

  image_split :
      (rest : List ℕ)
      → image version n ++ rest ≡ header version n ++ tail_of version n (padding ++ rest)
  unfolding image padding
  image_split rest = simp append_assoc

  cookie_field :
      (rest : List ℕ) → n.cookie < u32 → get_be (take 4 (header version n ++ rest)) ≡ n.cookie
  cookie_field rest h =
      rw (append_assoc (put_be 4 n.cookie), take_len 4 (put_be 4 n.cookie) _ (length-put_be 4 _))
        (get_u32 n.cookie h)

  id_field :
      (rest : List ℕ) → n.id < u64 → get_be (take 8 (drop 4 (header version n ++ rest))) ≡ n.id
  id_field rest h =
      rw
        (
          append_assoc (put_be 4 n.cookie),
          drop_len 4 (put_be 4 n.cookie) _ (length-put_be 4 _),
          append_assoc (put_be 8 n.id),
          take_len 8 (put_be 8 n.id) _ (length-put_be 8 _),
        )
        (get_u64 n.id h)

  size_field :
      (rest : List ℕ)
      → part_size version n < u32
      → get_be (take 4 (drop 12 (header version n ++ rest))) ≡ part_size version n
  size_field rest h =
      rw
        (
          regroup,
          drop_len 12 (put_be 4 n.cookie ++ put_be 8 n.id) _ len,
          take_len 4 (put_be 4 (part_size version n)) _ (length-put_be 4 _),
        )
        (get_u32 (part_size version n) h)
    where
      regroup :
          header version n ++ rest
          ≡ (put_be 4 n.cookie ++ put_be 8 n.id) ++ (put_be 4 (part_size version n) ++ rest)
      regroup = simp append_assoc

      len : length (put_be 4 n.cookie ++ put_be 8 n.id) ≡ 12
      len = omega (
        arith,
        length-append (put_be 4 n.cookie) (put_be 8 n.id),
        length-put_be 4 n.cookie,
        length-put_be 8 n.id,
      )

  -- The parts of `disk_size` as numbers.
  read_from-header :
      (rest : List ℕ)
      → IsWritable n
      → 16 + part_size version n + length rest < u32
      → read_from blank (header version n ++ tail_of version n rest) version
        ≡ ok (record (stored version n) { size = disk_size version n % u32 })
  unfolding read_from read_header
  read_from-header rest h room =
      rw
        (
          cookie_field (tail_of version n rest) h.cookie,
          id_field (tail_of version n rest) h.id,
          size_field (tail_of version n rest) (omega arith),
        )
        (ground (
          arith,
          length-append (header version n) (tail_of version n rest),
          length-header version n,
          part_size_min version n,
          read_sized-image version n rest h room,
        ))

  length-padding : length padding ≡ needle_align_padding (16 + part_size version n)
  unfolding padding
  length-padding = length-replicate _ _

  pub length-image : length (image version n) ≡ disk_size version n
  unfolding image padding
  length-image = omega (
    arith,
    length-append (header version n) (tail_of version n padding),
    length-header version n,
    length-tail_of version n padding,
    length-padding,
  )

  pub write_to-image :
      (file : List ℕ)
      → IsWritable n
      → disk_size version n < u32
      → write_to append n version file
        ≡ some (record {
          sink = file ++ image version n;
          needle = record (summed n) { size = disk_size version n };
          count = disk_size version n;
          error = none;
        })
  unfolding write_to image padding
  write_to-image file h room =
      rw
        (
          frame-image version n h (omega arith),
          write_padding-append (summed n) (header version n) (body_bytes n)
              (build_footer_bytes version (summed n)) padding,
          length-padding,
          sum,
          mod-eq_of_lt {n = disk_size version n} {m = u32} room,
        )
        (simp append_assoc)
    where
      sum :
          16 + length (body_bytes n) + length (build_footer_bytes version (summed n))
          ≡ 16 + part_size version n
      sum = omega (arith, length-part version n)

pub padding_aligns : (m : ℕ) → (m + needle_align_padding m) % 8 ≡ 0
unfolding needle_align_padding
padding_aligns m = ground arith

-- ReadFrom on the bytes of a needle, and on whatever follows them.
pub read_from-image :
    (version : ℕ) (n : Needle) (rest : List ℕ)
    → IsWritable n
    → disk_size version n + length rest < u32
    → read_from blank (image version n ++ rest) version
      ≡ ok (record (stored version n) { size = disk_size version n })
read_from-image version n rest h room = rw (image_split version n rest) (
    rw (
      read_from-header version n (padding version n ++ rest) h
          (omega (arith, length-append (padding version n) rest, length-padding version n)),
      mod-eq_of_lt {n = disk_size version n} {m = u32} (omega arith),
    ))

-- For every needle whose fields are in the ranges of their types and limits, and every file that
-- takes writes, while the record stays below 4 GiB: WriteTo succeeds, grows the file by exactly the
-- count that it reports, a multiple of 8, and ReadFrom, on the bytes that it appended and on
-- whatever follows them, returns the needle with the fields that its flags announce, the checksum,
-- the time stamp from version 3 on, and that count as its size.
pub read_from-write_to :
    (version : ℕ) (n : Needle) (file rest : List ℕ)
    → IsWritable n
    → disk_size version n + length rest < u32
    → (w : Written (List ℕ)) × (write_to append n version file ≡ some w)
      × (w.error ≡ none)
      × (w.count % 8 ≡ 0)
      × (length w.sink ≡ length file + w.count)
      × (read_from blank (drop (length file) w.sink ++ rest) version
          ≡ ok (record (stored version n) { size = w.count }))
read_from-write_to version n file rest h room = (
  record {
    sink = file ++ image version n;
    needle = record (summed n) { size = disk_size version n };
    count = disk_size version n;
    error = none;
  },
  write_to-image version n file h (omega arith),
  refl,
  padding_aligns (16 + part_size version n),
  omega (arith, length-append file (image version n), length-image version n),
  rw (drop-append_length file (image version n)) (read_from-image version n rest h room),
)
