-- ===== src/Volume/Tests.antt =====
-- goblob/storage/volume/volume.go: tests of the model, and the theorems at concrete inputs.
use go_blob.Base.{ℕ, ◌<◌, ◌≡◌, refl, true, none, List, [], ◌∷◌, arith, length}
use go_blob.Needle.{Needle, blank, has_flag, needle_align_padding}
use go_blob.Needle.Write.{body_bytes}
use go_blob.Bytes.{put_be}
use go_blob.Needle.Body.{IsWritable}
use go_blob.Needle.Image.{disk_size}
use go_blob.SuperBlock.{super_block_bytes}
use go_blob.Volume.{ok, get_needle, new_volume}
use go_blob.Volume.Steps.{
  Request, write_request, delete_request, serve_all, assign_all, Answers, tombstone, Fits,
}
use go_blob.Volume.Refine.{first_volume, new_volume-empty, new_volume-Answers}
use go_blob.Volume.Reopen.{disk_of, forgetful, new_volume-serve_all}

abbrev pub small_needle : Needle
small_needle = record blank { cookie = 7; id = 5; data_size = 2; payload = 104 ∷ 105 ∷ [] }

pub small_needle-IsWritable : IsWritable small_needle
small_needle-IsWritable = record {
  fits = record { counted = refl; small = omega arith };
  cookie = omega arith;
  id = omega arith;
  name = omega arith;
  mime = omega arith;
  pairs = omega arith;
  last_modified = omega arith;
  append_at_ns = omega arith;
}

tombstone-IsWritable : IsWritable (tombstone 5)
tombstone-IsWritable = record {
  fits = record { counted = refl; small = omega arith };
  cookie = omega arith;
  id = omega arith;
  name = omega arith;
  mime = omega arith;
  pairs = omega arith;
  last_modified = omega arith;
  append_at_ns = omega arith;
}

abbrev some_requests : List Request
some_requests = write_request true small_needle ∷ delete_request true 5 ∷ []

pub small_size : disk_size 3 small_needle < 100
unfolding has_flag body_bytes put_be needle_align_padding
small_size = omega arith

tombstone_size : disk_size 3 (tombstone 5) < 100
unfolding has_flag body_bytes put_be needle_align_padding
tombstone_size = omega arith

pub first_length : length (first_volume 3).dat ≡ 8
unfolding first_volume super_block_bytes put_be
first_length = refl

some_requests-Fits : Fits 3 (length (first_volume 3).dat) some_requests
some_requests-Fits = (
  small_needle-IsWritable,
  omega (arith, small_size),
  omega (arith, first_length),
  (
    tombstone-IsWritable,
    omega (arith, tombstone_size),
    omega (arith, first_length, small_size),
    tt,
  ),
)

new_volume-Answers_example :
    Answers
      (assign_all 3 (λ i. none) some_requests 5)
      (get_needle (serve_all (first_volume 3) some_requests) 5)
new_volume-Answers_example =
    new_volume-Answers 3 (first_volume 3) some_requests (new_volume-empty 3) some_requests-Fits 5

new_volume-serve_all_example :
    (new_volume (disk_of (serve_all (first_volume 3) some_requests)) 2
      ≡ ok (forgetful (serve_all (first_volume 3) some_requests)))
    × ((id : ℕ)
        → get_needle (forgetful (serve_all (first_volume 3) some_requests)) id
          ≡ get_needle (serve_all (first_volume 3) some_requests) id)
new_volume-serve_all_example =
    new_volume-serve_all 3 2 (first_volume 3) some_requests (new_volume-empty 3) (refl, (refl, tt))
      some_requests-Fits
