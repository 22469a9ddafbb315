-- ===== src/LogBuffer/Stream.antt =====
-- goblob/log_buffer/log_buffer.go: what AppendEntry does to the events that the ring holds.
use go_blob.Base.{
  ℕ, ◌+◌, ◌%◌, ◌<◌, ◌≡◌, ◌∙◌, refl, sym, ap, Bool, true, false, ◌&&◌, Option, none, some, List, [],
  ◌∷◌, ◌++◌, All, ltb, ◌==◌, arith, length, append_assoc, append-nil, if◌then◌else◌, Bool-cases,
  inl, inr, ◌⊎◌,
}
use go_blob.LogBuffer.{
  LogSegment, empty_segment, LogBuffer, set_slot, frame, wants_flush, rotate, append_frame,
  put_frame, append_entry,
}
use go_blob.LogBuffer.Frames.{IsSmall, frames, frames-append}
use go_blob.LogBuffer.Slots.{
  IsLive, events_of, handed, handed-rotated, rotate-IsLive, put_frame-IsLive,
}

-- A slot that is marked as flushed after a step was so before it, with the same events.
abbrev pub KeepsMarks : LogBuffer → (ℕ → List (List ℕ)) → LogBuffer → (ℕ → List (List ℕ)) → Type 0
KeepsMarks lb es lb' es' =
    (j : ℕ)
    → (lb'.segments j).is_flushed ≡ true
    → ((lb.segments j).is_flushed ≡ true) × (es' j ≡ es j)

set_slot-marks :
    (idx : ℕ) (seg : LogSegment) (here : List (List ℕ)) (lb : LogBuffer) (es : ℕ → List (List ℕ))
    → seg.is_flushed ≡ false
    → (j : ℕ) → (set_slot idx seg lb.segments j).is_flushed ≡ true
    → ((lb.segments j).is_flushed ≡ true) × (set_slot idx here es j ≡ es j)
set_slot-marks idx seg here lb es unmarked j marked = elim (Bool-cases (idx == j)) [
  | inl same ↦
      let now : seg.is_flushed ≡ true =
        sym (ap (λ b. (if b then seg else lb.segments j).is_flushed) same) ∙ marked in
      absurd (ground (arith, now, unmarked))
  | inr other ↦ (
    sym (ap (λ b. (if b then seg else lb.segments j).is_flushed) other) ∙ marked,
    ap (λ b. if b then here else es j) other,
  )
]

rotate-marks :
    (lb : LogBuffer) (es : ℕ → List (List ℕ))
    → KeepsMarks lb es
        (rotate lb).0
        (set_slot ((lb.last_segment_idx + 1) % lb.max_segment_count) [] es)
unfolding rotate
rotate-marks lb es =
    set_slot-marks ((lb.last_segment_idx + 1) % lb.max_segment_count) empty_segment [] lb es refl

put_frame-marks :
    (since k now : ℕ) (payload : List ℕ) (lb : LogBuffer) (es : ℕ → List (List ℕ))
    → IsLive since k lb es
    → KeepsMarks lb es
        (put_frame now (frame payload) lb)
        (set_slot lb.last_segment_idx (es lb.last_segment_idx ++ payload ∷ []) es)
unfolding put_frame append_frame
put_frame-marks since k now payload lb es h =
    set_slot-marks lb.last_segment_idx
      (append_frame now (frame payload) (lb.segments lb.last_segment_idx))
      (es lb.last_segment_idx ++ payload ∷ []) lb es h.current

-- What a step that takes the events `old` off the ring does with them: a goroutine is given them,
-- or their slot was marked as flushed.
abbrev pub Evicts : LogBuffer → (ℕ → List (List ℕ)) → Option LogSegment → List (List ℕ) → Type 0
Evicts lb es given old =
    (handed given ≡ frames old)
    ⊎ ((j : ℕ) × ((lb.segments j).is_flushed ≡ true) × (es j ≡ old) × (handed given ≡ []))

handed-marked :
    (flushes : Bool) (seg : LogSegment)
    → seg.is_flushed ≡ true
    → handed (if flushes && wants_flush seg then some seg else none) ≡ []
handed-marked flushes seg marked = ground (arith, marked)

rotate-Evicts :
    (since k : ℕ) (lb : LogBuffer) (es : ℕ → List (List ℕ))
    → IsLive since k lb es
    → Evicts lb es (rotate lb).1 (es ((lb.last_segment_idx + 1) % lb.max_segment_count))
unfolding rotate
rotate-Evicts since k lb es h =
    let idx = (lb.last_segment_idx + 1) % lb.max_segment_count in
    elim (Bool-cases ((lb.segments idx).is_flushed)) [
      | inl marked ↦ inr (idx, marked, refl, handed-marked lb.has_flush (lb.segments idx) marked)
      | inr unmarked ↦
          inl (
            handed-rotated lb.has_flush (lb.segments idx) h.flushes unmarked ∙ (h.slots idx).framed)
    ]

-- AppendEntry keeps the events: what leaves the ring is given to a goroutine or was flushed.
pub append_entry-IsLive :
    (since k now : ℕ) (payload : List ℕ) (lb : LogBuffer) (es : ℕ → List (List ℕ))
    → IsLive since k lb es
    → IsSmall payload
    → since < now
    → (es' : ℕ → List (List ℕ)) × (old : List (List ℕ)) × IsLive since k
        (append_entry now payload lb).0
        es'
      × Evicts lb es (append_entry now payload lb).1 old
      × (events_of k lb es ++ payload ∷ [] ≡ old ++ events_of k (append_entry now payload lb).0 es')
      × KeepsMarks lb es (append_entry now payload lb).0 es'
unfolding append_entry
append_entry-IsLive since k now payload lb es h small later =
    elim (Bool-cases (
      ltb lb.max_segment_bytes
        (length (lb.segments lb.last_segment_idx).buf + length (frame payload)))) [
          | inl full ↦
              let idx = (lb.last_segment_idx + 1) % lb.max_segment_count in
              let turned = set_slot idx [] es in
              let last = (rotate lb).0.last_segment_idx in
              let (live, split) = rotate-IsLive since k lb es h in
              let (live', more) =
                put_frame-IsLive since k now payload (rotate lb).0 turned live small later in
              let marks = rotate-marks lb es in
              let marks' = put_frame-marks since k now payload (rotate lb).0 turned live in
              (
                set_slot last (turned last ++ payload ∷ []) turned,
                es idx,
                rw full live',
                rw full (rotate-Evicts since k lb es h),
                rw full (
                    ap (λ t. t ++ payload ∷ []) split
                    ∙ append_assoc (es idx) (events_of k (rotate lb).0 turned) (payload ∷ [])
                    ∙ ap (λ t. es idx ++ t) (sym more)),
                rw full (λ j marked.
                    let (before, same) = marks' j marked in
                    let (first, same') = marks j before in (first, same ∙ same')),
              )
          | inr room ↦
              let last = lb.last_segment_idx in
              let (live, more) = put_frame-IsLive since k now payload lb es h small later in
              (
                set_slot last (es last ++ payload ∷ []) es,
                [],
                rw room live,
                rw room (inl refl),
                rw room (sym more),
                rw room (put_frame-marks since k now payload lb es h),
              )
        ]

-- AppendEntry for each entry, at its time, and the bytes that goroutines are started with, in that
-- order.
unfoldable pub append_all : List (ℕ × List ℕ) → LogBuffer → LogBuffer × List ℕ
unfolding append_entry
append_all [] lb = (lb, [])
append_all ((now, payload) ∷ entries) lb =
    let (after, evicted) = append_entry now payload lb in
    let (end, more) = append_all entries after in (end, handed evicted ++ more)

abbrev pub payloads : List (ℕ × List ℕ) → List (List ℕ)
payloads [] = []
payloads ((now, payload) ∷ entries) = payload ∷ payloads entries

-- The entries fit into frames, and come after `since`.
abbrev pub IsEntry : ℕ → ℕ × List ℕ → Type 0
IsEntry since (now, payload) = IsSmall payload × (since < now)

-- No slot is marked as flushed, as where flushOldSegments has not run.
abbrev pub NoMarks : LogBuffer → Type 0
NoMarks lb = (j : ℕ) → (lb.segments j).is_flushed ≡ false

unmarked-Evicts :
    (lb : LogBuffer) (es : ℕ → List (List ℕ)) (given : Option LogSegment) (old : List (List ℕ))
    → NoMarks lb
    → Evicts lb es given old
    → handed given ≡ frames old
unmarked-Evicts lb es given old unmarked (inl g) = g
unmarked-Evicts lb es given old unmarked (inr (j, marked, same, none_given)) =
    absurd (ground (arith, unmarked j, marked))

NoMarks-kept :
    (lb lb' : LogBuffer) (es es' : ℕ → List (List ℕ))
    → NoMarks lb
    → KeepsMarks lb es lb' es'
    → NoMarks lb'
NoMarks-kept lb lb' es es' unmarked keeps j = elim (Bool-cases ((lb'.segments j).is_flushed)) [
  | inl marked ↦ absurd (ground (arith, unmarked j, (keeps j marked).0))
  | inr clear ↦ clear
]

pub append_all-IsLive :
    (since k : ℕ) (entries : List (ℕ × List ℕ)) (lb : LogBuffer) (es : ℕ → List (List ℕ))
    → IsLive since k lb es
    → NoMarks lb
    → All (IsEntry since) entries
    → (es' : ℕ → List (List ℕ)) × (old : List (List ℕ)) × IsLive since k
        (append_all entries lb).0
        es'
      × ((append_all entries lb).1 ≡ frames old)
      × (events_of k lb es ++ payloads entries ≡ old ++ events_of k (append_all entries lb).0 es')
unfolding append_all
append_all-IsLive since k [] lb es h unmarked fits =
    (es, [], h, refl, append-nil (events_of k lb es))
append_all-IsLive since k ((now, payload) ∷ entries) lb es h unmarked fits =
    let (es1, old1, h1, evicts, split1, keeps) =
      append_entry-IsLive since k now payload lb es h fits.0.0 fits.0.1 in
    let after = (append_entry now payload lb).0 in
    let given1 = unmarked-Evicts lb es (append_entry now payload lb).1 old1 unmarked evicts in
    let (es2, old2, h2, given2, split2) =
      append_all-IsLive since k entries after es1 h1 (NoMarks-kept lb after es es1 unmarked keeps)
        fits.1 in
    (
      es2,
      old1 ++ old2,
      h2,
      ap (λ t. t ++ (append_all entries after).1) given1
          ∙ ap (λ t. frames old1 ++ t) given2
          ∙ sym (frames-append old1 old2),
      sym (append_assoc (events_of k lb es) (payload ∷ []) (payloads entries))
          ∙ ap (λ t. t ++ payloads entries) split1
          ∙ append_assoc old1 (events_of k after es1) (payloads entries)
          ∙ ap (λ t. old1 ++ t) split2
          ∙ sym (append_assoc old1 old2 (events_of k (append_all entries after).0 es2)),
    )
