-- ===== src/Volume/Compact/Tests.antt =====
-- goblob/storage/volume/compact.go: a compaction at a concrete volume.
use go_blob.Base.{◌≡◌, refl, true, false, none, List, [], ◌∷◌, arith, length, ap, ◌∙◌, ◌<◌}
use go_blob.NeedleMap.{Entries, lookup, put, load_needle_map}
use go_blob.Bytes.{put_be}
use go_blob.Types.{to_encoded}
use go_blob.Needle.{has_flag, needle_align_padding}
use go_blob.Needle.Write.{
  write_to, frame, build_body_bytes, body_bytes, write_padding, build_footer_bytes,
}
use go_blob.SuperBlock.{super_block_bytes}
use go_blob.Volume.{Volume, write_needle}
use go_blob.Volume.Steps.{
  Request, write_request, delete_request, serve, serve_all, assign_all, Fits,
}
use go_blob.Volume.Refine.{first_volume, new_volume-empty}
use go_blob.Volume.Tests.{small_needle, small_needle-IsWritable, small_size, first_length}
use go_blob.Volume.Compact.Copied.{room}
use go_blob.Volume.Compact.Commit.{IsOrder, Compacts, compact-Answers}

abbrev one_write : List Request
one_write = write_request true small_needle ∷ []

abbrev written_volume : Volume
written_volume = serve_all (first_volume 3) one_write

abbrev one_entry : Entries
one_entry = (5, record { offset = 1; size = 40 }) ∷ []

written_entries : written_volume.nm.entries ≡ one_entry
unfolding serve_all serve first_volume write_needle super_block_bytes put_be write_to frame
    build_body_bytes has_flag write_padding needle_align_padding build_footer_bytes put
    load_needle_map to_encoded
written_entries = refl

one_write-Fits : Fits 3 (length (first_volume 3).dat) one_write
one_write-Fits =
    (small_needle-IsWritable, omega (arith, small_size), omega (arith, first_length), tt)

one_entry-IsOrder : IsOrder written_volume one_entry
unfolding lookup
one_entry-IsOrder = record {
  listed = (ap (lookup 5) written_entries, refl, omega arith, tt);
  complete = λ id e. ap (lookup id) written_entries ∙ e;
}

one_entry-room : room 3 (assign_all 3 (λ id. none) one_write) one_entry < 1000
unfolding assign_all has_flag body_bytes put_be needle_align_padding
one_entry-room = omega arith

compact-Answers_example :
    Compacts
      (λ id. true)
      (λ id. 2000000000)
      (λ gone live. false)
      one_entry
      (assign_all 3 (λ id. none) one_write)
      written_volume
      (serve_all written_volume (delete_request true 5 ∷ []))
      3
compact-Answers_example =
    compact-Answers 3 (first_volume 3) one_write (delete_request true 5 ∷ []) one_entry (λ id. true)
      (λ id. 2000000000) (λ gone live. false) (new_volume-empty 3) one_write-Fits one_entry-IsOrder
      (λ id. refl) refl (omega (arith, one_entry-room))
