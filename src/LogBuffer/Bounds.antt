-- ===== src/LogBuffer/Bounds.antt =====
-- goblob/log_buffer/log_buffer.go: the size of the segments.
use go_blob.Base.{
  ℕ, ◌+◌, ◌%◌, ◌≤◌, ◌≡◌, refl, ap, Bool, List, [], ◌∷◌, ◌++◌, All, ltb, ◌==◌, arith, length,
  length-append, Bool-cases, inl, inr,
}
use go_blob.LogBuffer.{
  LogSegment, empty_segment, LogBuffer, set_slot, new_log_buffer, frame, rotate, append_frame,
  put_frame, append_entry,
}
use go_blob.LogBuffer.Frames.{length-frame}
use go_blob.LogBuffer.Slots.{set_slot-same}
use go_blob.LogBuffer.Stream.{append_all}

-- The bytes that a segment may hold: those of the configuration, or one larger frame.
abbrev pub IsBounded : ℕ → LogBuffer → Type 0
IsBounded bound lb = (j : ℕ) → length (lb.segments j).buf ≤ bound

set_slot-IsBounded :
    (bound idx : ℕ) (seg : LogSegment) (segs : ℕ → LogSegment)
    → length seg.buf ≤ bound
    → ((j : ℕ) → length (segs j).buf ≤ bound)
    → (j : ℕ) → length (set_slot idx seg segs j).buf ≤ bound
set_slot-IsBounded bound idx seg segs now h j = elim (Bool-cases (idx == j)) [
  | inl same ↦ rw same now
  | inr other ↦ rw other (h j)
]

append_entry-IsBounded :
    (bound now : ℕ) (payload : List ℕ) (lb : LogBuffer)
    → lb.max_segment_bytes ≤ bound
    → 4 + length payload ≤ bound
    → IsBounded bound lb
    → IsBounded bound (append_entry now payload lb).0
      × ((append_entry now payload lb).0.max_segment_bytes ≡ lb.max_segment_bytes)
unfolding append_entry put_frame append_frame rotate
append_entry-IsBounded bound now payload lb bytes small h =
    elim (Bool-cases (
      ltb lb.max_segment_bytes
        (length (lb.segments lb.last_segment_idx).buf + length (frame payload)))) [
          | inl full ↦
              let idx = (lb.last_segment_idx + 1) % lb.max_segment_count in
              let cleared = set_slot idx empty_segment lb.segments in
              let one =
                ap (λ s. length (s.buf ++ frame payload))
                  (set_slot-same idx empty_segment lb.segments) in
              rw full (
                set_slot-IsBounded bound idx (append_frame now (frame payload) (cleared idx))
                    cleared (omega (arith, one, length-frame payload))
                    (set_slot-IsBounded bound idx empty_segment lb.segments (omega arith) h),
                refl,
              )
          | inr room ↦
              let two = length-append (lb.segments lb.last_segment_idx).buf (frame payload) in
              let fits : length (lb.segments lb.last_segment_idx).buf + length (frame payload)
                  ≤ lb.max_segment_bytes =
                ground arith in
              rw room (
                set_slot-IsBounded bound lb.last_segment_idx
                    (append_frame now (frame payload) (lb.segments lb.last_segment_idx)) lb.segments
                    (omega (arith, two, fits)) h,
                refl,
              )
        ]

abbrev pub IsFramed : ℕ → ℕ × List ℕ → Type 0
IsFramed bound (now, payload) = 4 + length payload ≤ bound

append_all-IsBounded :
    (bound : ℕ) (entries : List (ℕ × List ℕ)) (lb : LogBuffer)
    → lb.max_segment_bytes ≤ bound
    → All (IsFramed bound) entries
    → IsBounded bound lb
    → IsBounded bound (append_all entries lb).0
unfolding append_all
append_all-IsBounded bound [] lb bytes fits h = h
append_all-IsBounded bound ((now, payload) ∷ entries) lb bytes fits h =
    let (next, same) = append_entry-IsBounded bound now payload lb bytes fits.0 h in
    append_all-IsBounded bound entries (append_entry now payload lb).0 (omega (arith, same)) fits.1
      next

-- Whatever is appended to a new buffer, a segment holds no more bytes than the size that was
-- configured, or than the longest frame where that is larger.
pub append_all-new_log_buffer :
    (bound count bytes : ℕ) (flushes : Bool) (entries : List (ℕ × List ℕ))
    → (new_log_buffer count bytes flushes).max_segment_bytes ≤ bound
    → All (IsFramed bound) entries
    → (j : ℕ)
    → length ((append_all entries (new_log_buffer count bytes flushes)).0.segments j).buf ≤ bound
unfolding new_log_buffer
append_all-new_log_buffer bound count bytes flushes entries small fits =
    append_all-IsBounded bound entries (new_log_buffer count bytes flushes) small fits
      (blank count bytes flushes)
  where
    blank : (c b : ℕ) (f : Bool) → IsBounded bound (new_log_buffer c b f)
    blank c b f j = omega arith
