-- ===== src/LogBuffer.antt =====
-- goblob/log_buffer/log_buffer.go: the ring of segments that keeps the latest events. Times are
-- nanoseconds; each method but flushOldSegments holds the lock throughout.
pub mod Ring
pub mod Frames
pub mod Slots
pub mod Stream
pub mod Delivery
pub mod Bounds
pub mod Marks
pub mod Daemon
mod Tests
use go_blob.Base.{
  ℕ, zero, suc, ◌+◌, ◌-◌, ◌%◌, Bool, true, false, not, ◌&&◌, ◌||◌, Option, none, some, List, [],
  ◌∷◌, ◌++◌, ltb, leb, ◌==◌, if◌then◌else◌, length, take, drop, u32,
}
use go_blob.Bytes.{put_be, get_be}

pub record LogSegment : Type 0 where
  pub buf : List ℕ
  pub start_ts_ns : ℕ
  pub stop_ts_ns : ℕ
  pub is_flushed : Bool

abbrev pub empty_segment : LogSegment
empty_segment = record { buf = []; start_ts_ns = 0; stop_ts_ns = 0; is_flushed = false }

-- `segments` gives the segment of each slot below `max_segment_count`; `has_flush` is whether there
-- is a flush function.
pub record LogBuffer : Type 0 where
  pub segments : ℕ → LogSegment
  pub last_segment_idx : ℕ
  pub max_segment_count : ℕ
  pub max_segment_bytes : ℕ
  pub has_flush : Bool

abbrev pub set_slot {ℓ} : {A : Type ℓ} → ℕ → A → (ℕ → A) → ℕ → A
set_slot idx seg slots j = if idx == j then seg else slots j

-- NewLogBuffer; 0 stands for every number that is not positive.
unfoldable pub new_log_buffer : ℕ → ℕ → Bool → LogBuffer
new_log_buffer max_segment_count max_segment_bytes has_flush = record {
  segments = λ idx. empty_segment;
  last_segment_idx = 0;
  max_segment_count = if max_segment_count == 0 then 3 else max_segment_count;
  max_segment_bytes = if max_segment_bytes == 0 then 0x200000 else max_segment_bytes;
  has_flush = has_flush;
}

-- The frame of AppendEntry.
unfoldable pub frame : List ℕ → List ℕ
frame payload = put_be 4 (length payload % u32) ++ payload

-- The test of rotate and flushOldSegments.
abbrev pub wants_flush : LogSegment → Bool
wants_flush seg = not seg.is_flushed && not (length seg.buf == 0)

-- rotate, and the segment for which it starts a goroutine. The goroutine calls the flush function
-- with it at some later time, in no order with other goroutines, and only logs a failure.
unfoldable pub rotate : LogBuffer → LogBuffer × Option LogSegment
rotate lb =
    let idx = (lb.last_segment_idx + 1) % lb.max_segment_count in
    let old = lb.segments idx in
    (
      record lb { last_segment_idx = idx; segments = set_slot idx empty_segment lb.segments },
      if lb.has_flush && wants_flush old then some old else none,
    )

-- The last part of AppendEntry.
unfoldable pub append_frame : ℕ → List ℕ → LogSegment → LogSegment
append_frame now bytes seg = record seg {
  buf = seg.buf ++ bytes;
  start_ts_ns = if seg.start_ts_ns == 0 then now else seg.start_ts_ns;
  stop_ts_ns = now;
}

unfoldable pub put_frame : ℕ → List ℕ → LogBuffer → LogBuffer
unfolding append_frame
put_frame now bytes lb = record lb {
  segments =
      set_slot lb.last_segment_idx (append_frame now bytes (lb.segments lb.last_segment_idx))
        lb.segments;
}

-- AppendEntry at the time `now`, and the segment for which a goroutine is started.
unfoldable pub append_entry : ℕ → List ℕ → LogBuffer → LogBuffer × Option LogSegment
unfolding frame rotate put_frame
append_entry now payload lb =
    let bytes = frame payload in
    let full =
      ltb lb.max_segment_bytes (length (lb.segments lb.last_segment_idx).buf + length bytes) in
    let (ready, evicted) = if full then rotate lb else (lb, none) in
    (put_frame now bytes ready, evicted)

-- The inner loop of ReadFromBuffer; `4 + size` is a uint32, and `none` is the panic of a slice
-- whose end lies before its start.
unfoldable pub parse_frames : ℕ → List ℕ → Option (List (List ℕ))
parse_frames zero buf = some []
parse_frames (suc fuel) buf =
    let size = get_be (take 4 buf) in
    let end = (4 + size) % u32 in
    let rest = parse_frames fuel (drop end buf) in
    if ltb (length buf) 4
    then some []
    else if ltb (length buf - 4) size
    then some []
    else if ltb end 4
    then none
    else elim rest [ none ↦ none | some events ↦ some (take (end - 4) (drop 4 buf) ∷ events) ]

pub record ReadResult : Type 0 where
  pub events : List (List ℕ)
  pub next_ts : ℕ

-- The loop of ReadFromBuffer over the slots from number `i` on, oldest first.
unfoldable pub read_loop : LogBuffer → ℕ → ℕ → ℕ → ReadResult → Option ReadResult
unfolding parse_frames
read_loop lb since_ns zero i result = some result
read_loop lb since_ns (suc n) i result =
    let seg = lb.segments ((lb.last_segment_idx + 1 + i) % lb.max_segment_count) in
    if length seg.buf == 0
    then read_loop lb since_ns n (i + 1) result
    else if leb seg.stop_ts_ns since_ns
    then read_loop lb since_ns n (i + 1) result
    else elim (parse_frames (length seg.buf) seg.buf) [
      | none ↦ none
      | some more ↦
          read_loop lb since_ns n (i + 1)
            (record { events = result.events ++ more; next_ts = seg.stop_ts_ns + 1 })
    ]

-- ReadFromBuffer
unfoldable pub read_from_buffer : LogBuffer → ℕ → Option ReadResult
unfolding read_loop
read_from_buffer lb since_ns =
    read_loop lb since_ns lb.max_segment_count 0 (record { events = []; next_ts = 0 })

-- IsInBuffer
unfoldable pub in_buffer_loop : LogBuffer → ℕ → ℕ → ℕ → Bool
in_buffer_loop lb since_ns zero i = false
in_buffer_loop lb since_ns (suc n) i =
    let seg = lb.segments ((lb.last_segment_idx + 1 + i) % lb.max_segment_count) in
    if length seg.buf == 0
    then in_buffer_loop lb since_ns n (i + 1)
    else leb seg.start_ts_ns since_ns

unfoldable pub is_in_buffer : LogBuffer → ℕ → Bool
unfolding in_buffer_loop
is_in_buffer lb since_ns = in_buffer_loop lb since_ns lb.max_segment_count 0

-- flushOldSegments with nothing in between, for one slot: the segment that is given to the flush
-- function, and the mark, which stays where the function takes it. `flush` is whether it does.
unfoldable pub flush_slot : (LogSegment → Bool) → ℕ → LogBuffer → LogBuffer × List LogSegment
flush_slot flush i lb =
    let seg = lb.segments i in
    if i == lb.last_segment_idx || not (wants_flush seg) then (lb, []) else (
      record lb { segments = set_slot i (record seg { is_flushed = flush seg }) lb.segments },
      seg ∷ [],
    )

-- The same for `n` slots from slot `i` on.
unfoldable pub flush_loop : (LogSegment → Bool) → ℕ → ℕ → LogBuffer → LogBuffer × List LogSegment
unfolding flush_slot
flush_loop flush zero i lb = (lb, [])
flush_loop flush (suc n) i lb =
    let (marked, mine) = flush_slot flush i lb in
    let (after, given) = flush_loop flush n (i + 1) marked in (after, mine ++ given)

unfoldable pub flush_old_segments : (LogSegment → Bool) → LogBuffer → LogBuffer × List LogSegment
unfolding flush_loop
flush_old_segments flush lb =
    if lb.has_flush then flush_loop flush lb.max_segment_count 0 lb else (lb, [])
