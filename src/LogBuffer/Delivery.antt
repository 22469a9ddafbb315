-- ===== src/LogBuffer/Delivery.antt =====
-- goblob/log_buffer/log_buffer.go: what ReadFromBuffer returns of the events that were appended.
use go_blob.Base.{
  ℕ, zero, suc, ◌+◌, ◌-◌, ◌%◌, ◌≡◌, ◌∙◌, refl, sym, ap, true, false, Option, some, List, [], ◌∷◌,
  ◌++◌, All, leb, ◌==◌, arith, length, length-append, append_assoc, append-nil, Bool-cases, inl,
  inr,
}
use go_blob.LogBuffer.{
  frame, LogBuffer, new_log_buffer, parse_frames, ReadResult, read_loop, read_from_buffer,
}
use go_blob.LogBuffer.Ring.{gather}
use go_blob.LogBuffer.Frames.{frames, length-frame, parse_frames-frames}
use go_blob.LogBuffer.Slots.{IsSlot, IsLive}
use go_blob.LogBuffer.Stream.{append_all, payloads, IsEntry, NoMarks, append_all-IsLive}

pub no_frames : (es : List (List ℕ)) → length (frames es) ≡ 0 → es ≡ []
no_frames [] h = refl
no_frames (e ∷ es) h =
    absurd (omega (arith, h, length-append (frame e) (frames es), length-frame e))

-- What the loop does at the slot of some events.
read_slot :
    (lb : LogBuffer) (since n i : ℕ) (result : ReadResult) (es : List (List ℕ))
    → IsSlot since (lb.segments ((lb.last_segment_idx + 1 + i) % lb.max_segment_count)) es
    → (ts : ℕ) × (read_loop lb since (suc n) i result
        ≡ read_loop lb since n (i + 1) (record { events = result.events ++ es; next_ts = ts }))
unfolding read_loop
read_slot lb since n i result es slot =
    let seg = lb.segments ((lb.last_segment_idx + 1 + i) % lb.max_segment_count) in
    elim (Bool-cases (length seg.buf == 0)) [
      | inl blank ↦
          let none_here = no_frames es (ap length (sym slot.framed) ∙ ground arith) in
          (result.next_ts, rw (read_loop, blank, none_here, append-nil) refl)
      | inr some_bytes ↦ elim slot.recent [
        | inl empty ↦ absurd (ground arith)
        | inr later ↦
            let unseen : leb seg.stop_ts_ns since ≡ false = ground arith in
            let parsed : parse_frames (length seg.buf) seg.buf ≡ some es =
              ap (λ b. parse_frames (length b) b) slot.framed
              ∙ parse_frames-frames (length (frames es)) es slot.small (omega arith) in
            (seg.stop_ts_ns + 1, rw (read_loop, some_bytes, unseen, parsed) refl)
      ]
    ]

abbrev pub answered : List (List ℕ) → ℕ → Option ReadResult
answered events ts = some (record { events = events; next_ts = ts })

pub read_loop-gather :
    (since k n i : ℕ) (lb : LogBuffer) (es : ℕ → List (List ℕ)) (result : ReadResult)
    → IsLive since k lb es
    → (ts : ℕ) × (read_loop lb since n i result
        ≡ some (record {
          events = result.events ++ gather (suc k) es (lb.last_segment_idx + 1 + i) n;
          next_ts = ts;
        }))
unfolding read_loop gather
read_loop-gather since k zero i lb es result h =
    (result.next_ts, ap (λ t. answered t result.next_ts) (sym (append-nil result.events)))
read_loop-gather since k (suc n) i lb es result h =
    let here = es ((lb.last_segment_idx + 1 + i) % lb.max_segment_count) in
    let (ts, first) =
      read_slot lb since n i result here
        (h.slots ((lb.last_segment_idx + 1 + i) % lb.max_segment_count)) in
    let (end, rest) =
      read_loop-gather since k n (i + 1) lb es
        (record { events = result.events ++ here; next_ts = ts }) h in
    (
      end,
      first
          ∙ rest
          ∙ ap (λ t. answered t end)
              (append_assoc result.events here
                  (gather (suc k) es (lb.last_segment_idx + 1 + (i + 1)) n)
                ∙ ap (λ t. result.events ++ t)
                    (ap
                        (λ c.
                          es ((lb.last_segment_idx + 1 + i) % c)
                          ++ gather (suc k) es (lb.last_segment_idx + 1 + (i + 1)) n)
                        h.round
                      ∙ ap
                          (λ st.
                            es ((lb.last_segment_idx + 1 + i) % suc k) ++ gather (suc k) es st n)
                          (sum lb.last_segment_idx i))),
    )
  where
    sum : (a b : ℕ) → a + 1 + (b + 1) ≡ a + 1 + b + 1
    sum a b = omega arith

pub new_log_buffer-IsLive :
    (since count bytes : ℕ)
    → IsLive since
        ((new_log_buffer count bytes true).max_segment_count - 1)
        (new_log_buffer count bytes true)
        (λ j. [])
unfolding new_log_buffer
new_log_buffer-IsLive since count bytes = record {
  round = ground arith;
  inside = omega arith;
  flushes = refl;
  current = refl;
  slots = λ j. record { framed = refl; small = tt; recent = inl refl };
}

new_log_buffer-NoMarks : (count bytes : ℕ) → NoMarks (new_log_buffer count bytes true)
unfolding new_log_buffer
new_log_buffer-NoMarks count bytes j = refl

pub gather-nothing : (c start n : ℕ) → gather {A = List ℕ} c (λ j. []) start n ≡ []
unfolding gather
gather-nothing c start zero = refl
gather-nothing c start (suc n) = gather-nothing c (start + 1) n

-- Events are appended to a new buffer with a flush function and no flushOldSegments between them,
-- each of them small enough for its frame and later than `since`. Then they fall into older and
-- later ones: the goroutines that the calls start for the flush function are given, in the order in
-- which they are started, exactly the frames of the older ones, and ReadFromBuffer since `since`
-- returns exactly the later ones, in order. The order in which the goroutines run is not said.
pub read_from_buffer-append_all :
    (since count bytes : ℕ) (entries : List (ℕ × List ℕ))
    → All (IsEntry since) entries
    → let (after, given) = append_all entries (new_log_buffer count bytes true) in
      (older later : List (List ℕ)) × (next_ts : ℕ) × (payloads entries ≡ older ++ later)
      × (given ≡ frames older)
      × (read_from_buffer after since ≡ some (record { events = later; next_ts = next_ts }))
unfolding read_from_buffer
read_from_buffer-append_all since count bytes entries fits =
    let fresh = new_log_buffer count bytes true in
    let k = fresh.max_segment_count - 1 in
    let (es, older, live, given, split) =
      append_all-IsLive since k entries fresh (λ j. []) (new_log_buffer-IsLive since count bytes)
        (new_log_buffer-NoMarks count bytes) fits in
    let after = (append_all entries fresh).0 in
    let later = gather (suc k) es (after.last_segment_idx + 1) (suc k) in
    let (ts, read) =
      read_loop-gather since k (suc k) 0 after es (record { events = []; next_ts = 0 }) live in
    let from_start : after.last_segment_idx + 1 + 0 ≡ after.last_segment_idx + 1 = omega arith in
    (
      older,
      later,
      ts,
      ap (λ t. t ++ payloads entries)
            (sym (gather-nothing (suc k) (fresh.last_segment_idx + 1) (suc k)))
          ∙ split,
      given,
      ap (λ n. read_loop after since n 0 (record { events = []; next_ts = 0 })) live.round
          ∙ read
          ∙ ap (λ st. answered (gather (suc k) es st (suc k)) ts) from_start,
    )
