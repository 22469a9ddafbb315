-- ===== src/LogBuffer/Tests.antt =====
-- goblob/log_buffer/log_buffer.go: tests of the model, and the theorems at concrete inputs.
use go_blob.Base.{ℕ, ◌≤◌, ◌≡◌, true, some, List, [], ◌∷◌, ◌++◌, arith, length}
use go_blob.LogBuffer.{new_log_buffer, read_from_buffer}
use go_blob.LogBuffer.Frames.{frames}
use go_blob.LogBuffer.Stream.{append_all, payloads}
use go_blob.LogBuffer.Delivery.{read_from_buffer-append_all}
use go_blob.LogBuffer.Marks.{LogStep, append_step, flush_step}
use go_blob.LogBuffer.Bounds.{append_all-new_log_buffer}

-- Three events that need a segment each, in a ring of two segments.
abbrev some_entries : List (ℕ × List ℕ)
some_entries = (11, 1 ∷ 2 ∷ []) ∷ (12, 3 ∷ []) ∷ (13, []) ∷ []

read_from_buffer-append_all_example :
    let (after, given) = append_all some_entries (new_log_buffer 2 6 true) in
    (older later : List (List ℕ)) × (next_ts : ℕ) × (payloads some_entries ≡ older ++ later)
    × (given ≡ frames older)
    × (read_from_buffer after 10 ≡ some (record { events = later; next_ts = next_ts }))
read_from_buffer-append_all_example =
    read_from_buffer-append_all 10 2 6 some_entries
      ((omega arith, omega arith), ((omega arith, omega arith), ((omega arith, omega arith), tt)))

-- The same with a flush of the first segment by the daemon.
abbrev some_steps : List LogStep
some_steps =
    append_step 11 (1 ∷ 2 ∷ [])
    ∷ append_step 12 (3 ∷ [])
    ∷ flush_step (λ seg. true)
    ∷ append_step 13 []
    ∷ []

small_buffer : (new_log_buffer 2 6 true).max_segment_bytes ≤ 6
unfolding new_log_buffer
small_buffer = omega arith

append_all-new_log_buffer_example :
    length ((append_all some_entries (new_log_buffer 2 6 true)).0.segments 1).buf ≤ 6
append_all-new_log_buffer_example =
    append_all-new_log_buffer 6 2 6 true some_entries small_buffer
      (omega arith, (omega arith, (omega arith, tt))) 1
