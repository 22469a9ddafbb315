-- ===== src/NeedleMap/Tests.antt =====
-- goblob/storage/volume/needle_map.go: runs of calls at concrete values.
use go_blob.Base.{ℕ, ◌≡◌, refl, true, false, some, List, [], ◌∷◌, arith}
use go_blob.NeedleMap.{
  Call, put_call, delete_call, load_call, open_call, close_call, run, step, new_mem_db,
  load_needle_map,
}
use go_blob.NeedleMap.{MemDb}
use go_blob.NeedleMap.Stats.{IsCounted, run-IsCounted}
use go_blob.NeedleMap.Durable.{started, load_needle_map-run}

-- Two needles are put, one is put again, one is deleted.
abbrev some_calls : List Call
some_calls =
    put_call true 7 1 100 ∷ put_call true 8 20 40 ∷ put_call true 7 30 60 ∷ delete_call true 8 ∷ []

-- A write fails, the index is closed, loaded and opened.
abbrev mixed_calls : List Call
mixed_calls =
    open_call []
    ∷ put_call true 7 1 100
    ∷ put_call false 8 20 40
    ∷ delete_call true 7
    ∷ close_call
    ∷ load_call (0 ∷ 1 ∷ 2 ∷ [])
    ∷ delete_call true 8
    ∷ []

run-IsCounted_example : IsCounted (run new_mem_db mixed_calls)
run-IsCounted_example = run-IsCounted mixed_calls

load_needle_map-run_example :
    (bytes : List ℕ) × ((run started some_calls).file ≡ some bytes)
    × (load_needle_map bytes ≡ record (run started some_calls) { deleted_size = 0 })
load_needle_map-run_example = load_needle_map-run some_calls (
  (refl, omega arith, omega arith, omega arith),
  (
    (refl, omega arith, omega arith, omega arith),
    ((refl, omega arith, omega arith, omega arith), ((refl, omega arith), _)),
  ),
)

-- A map with one live needle.
abbrev one_needle : MemDb
one_needle = record new_mem_db {
  entries = (7, record { offset = 1; size = 100 }) ∷ [];
  file_count = 1;
  content_size = 100;
}

-- The deleted bytes are counted before the restart.
some_calls_deleted : (run started some_calls).deleted_size ≡ 40
unfolding run step
some_calls_deleted = refl
