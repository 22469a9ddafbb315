-- ===== src/LogBuffer/Slots.antt =====
-- goblob/log_buffer/log_buffer.go: the events that the slots of the ring hold.
use go_blob.Base.{
  ℕ, suc, ◌+◌, ◌%◌, ◌<◌, ◌≡◌, ◌≢◌, ◌∙◌, refl, sym, ap, Bool, true, false, ◌&&◌, Option, none, some,
  List, [], ◌∷◌, ◌++◌, All, All-append, ◌==◌, ==_self, ==_ne, arith, length, append_assoc,
  append-nil, if◌then◌else◌, Bool-cases, inl, inr, ◌⊎◌,
}
use native.Mathlib.Nat.{mod-lt}
use go_blob.LogBuffer.{
  LogSegment, empty_segment, LogBuffer, set_slot, frame, wants_flush, rotate, append_frame,
  put_frame,
}
use go_blob.LogBuffer.Ring.{gather, gather-snoc, gather-congr, slot_newest, slot_ne, slot_turned}
use go_blob.LogBuffer.Frames.{IsSmall, frames, frames-append}

-- A segment of the events `es`, later than `since`.
pub record IsSlot (since : ℕ) (seg : LogSegment) (es : List (List ℕ)) : Type 0 where
  pub framed : seg.buf ≡ frames es
  pub small : All IsSmall es
  pub recent : (seg.buf ≡ []) ⊎ (since < seg.stop_ts_ns)

-- `es` gives the events of each slot of a ring of `suc k` slots.
pub record IsLive (since k : ℕ) (lb : LogBuffer) (es : ℕ → List (List ℕ)) : Type 0 where
  pub round : lb.max_segment_count ≡ suc k
  pub inside : lb.last_segment_idx < suc k
  pub flushes : lb.has_flush ≡ true
  pub current : (lb.segments lb.last_segment_idx).is_flushed ≡ false
  pub slots : (j : ℕ) → IsSlot since (lb.segments j) (es j)

-- The events of the ring, oldest first.
abbrev pub events_of : ℕ → LogBuffer → (ℕ → List (List ℕ)) → List (List ℕ)
events_of k lb es = gather (suc k) es (lb.last_segment_idx + 1) (suc k)

-- The bytes that a goroutine is started with.
abbrev pub handed : Option LogSegment → List ℕ
handed none = []
handed (some seg) = seg.buf

set_slot-IsSlot :
    (since idx : ℕ) (seg : LogSegment) (here : List (List ℕ)) (segs : ℕ → LogSegment)
    (es : ℕ → List (List ℕ))
    → IsSlot since seg here
    → ((j : ℕ) → IsSlot since (segs j) (es j))
    → (j : ℕ) → IsSlot since (set_slot idx seg segs j) (set_slot idx here es j)
set_slot-IsSlot since idx seg here segs es now h j = elim (Bool-cases (idx == j)) [
  | inl same ↦ rw same now
  | inr other ↦ rw other (h j)
]

pub set_slot-same {ℓ} : {A : Type ℓ} (idx : ℕ) (x : A) (f : ℕ → A) → set_slot idx x f idx ≡ x
set_slot-same idx x f = rw (==_self idx) refl

set_slot-other {ℓ} :
    {A : Type ℓ} (idx : ℕ) (x : A) (f : ℕ → A) (j : ℕ) → j ≢ idx → set_slot idx x f j ≡ f j
set_slot-other idx x f j h = rw (==_ne idx j (λ e. h (sym e))) refl

-- A turn of the ring drops the oldest slot.
rotated_events :
    (k last : ℕ) (es : ℕ → List (List ℕ))
    → let idx = (last + 1) % suc k in
      gather (suc k) es (last + 1) (suc k)
      ≡ es idx ++ gather (suc k) (set_slot idx [] es) (idx + 1) (suc k)
unfolding gather
rotated_events k last es =
    let idx = (last + 1) % suc k in
    let turned = mod-lt (last + 1) {m = suc k} (omega arith) in
    let rest : gather (suc k) (set_slot idx [] es) (idx + 1) k
        ≡ gather (suc k) es (last + 1 + 1) k =
      gather-congr (suc k) (set_slot idx [] es) es (idx + 1) (last + 1 + 1) k (λ i below.
        set_slot-other idx [] es ((idx + 1 + i) % suc k) (slot_ne k idx i turned below)
        ∙ ap es (slot_turned (suc k) last i)) in
    let newest : set_slot idx [] es ((idx + 1 + k) % suc k) ≡ [] =
      ap (set_slot idx [] es) (slot_newest k idx turned) ∙ set_slot-same idx [] es in
    ap (λ t. es idx ++ t)
      (sym (
        gather-snoc (suc k) (set_slot idx [] es) (idx + 1) k
        ∙ ap (λ t. gather (suc k) (set_slot idx [] es) (idx + 1) k ++ t) newest
        ∙ append-nil (gather (suc k) (set_slot idx [] es) (idx + 1) k)
        ∙ rest))

-- What is appended to the newest slot comes last.
appended_events :
    (k last : ℕ) (more : List (List ℕ)) (es : ℕ → List (List ℕ))
    → last < suc k
    → gather (suc k) (set_slot last (es last ++ more) es) (last + 1) (suc k)
      ≡ gather (suc k) es (last + 1) (suc k) ++ more
appended_events k last more es inside =
    let es' = set_slot last (es last ++ more) es in
    let rest : gather (suc k) es' (last + 1) k ≡ gather (suc k) es (last + 1) k =
      gather-congr (suc k) es' es (last + 1) (last + 1) k (λ i below.
        set_slot-other last (es last ++ more) es ((last + 1 + i) % suc k)
          (slot_ne k last i inside below)) in
    gather-snoc (suc k) es' (last + 1) k
    ∙ ap (λ t. t ++ es' ((last + 1 + k) % suc k)) rest
    ∙ ap (λ i. gather (suc k) es (last + 1) k ++ es' i) (slot_newest k last inside)
    ∙ ap (λ t. gather (suc k) es (last + 1) k ++ t) (set_slot-same last (es last ++ more) es)
    ∙ sym (append_assoc (gather (suc k) es (last + 1) k) (es last) more)
    ∙ ap (λ i. (gather (suc k) es (last + 1) k ++ es i) ++ more) (sym (slot_newest k last inside))
    ∙ ap (λ t. t ++ more) (sym (gather-snoc (suc k) es (last + 1) k))

pub handed-rotated :
    (flushes : Bool) (seg : LogSegment)
    → flushes ≡ true
    → seg.is_flushed ≡ false
    → handed (if flushes && wants_flush seg then some seg else none) ≡ seg.buf
handed-rotated flushes seg all f = elim (Bool-cases (length seg.buf == 0)) [
  | inl blank ↦ rw (all, f, blank) (length-blank seg.buf blank)
  | inr some_bytes ↦ rw (all, f, some_bytes) refl
]
  where
    length-blank : (buf : List ℕ) → (length buf == 0) ≡ true → [] ≡ buf
    length-blank [] e = refl
    length-blank (b ∷ bs) e = absurd (ground arith)

pub rotate-IsLive :
    (since k : ℕ) (lb : LogBuffer) (es : ℕ → List (List ℕ))
    → IsLive since k lb es
    → let idx = (lb.last_segment_idx + 1) % lb.max_segment_count in
      IsLive since k (rotate lb).0 (set_slot idx [] es)
      × (events_of k lb es ≡ es idx ++ events_of k (rotate lb).0 (set_slot idx [] es))
unfolding rotate
rotate-IsLive since k lb es h =
    let idx = (lb.last_segment_idx + 1) % lb.max_segment_count in
    (
      record {
        round = h.round;
        inside = turned_inside;
        flushes = h.flushes;
        current = ap (λ seg. seg.is_flushed) (set_slot-same idx empty_segment lb.segments);
        slots =
            set_slot-IsSlot since idx empty_segment [] lb.segments es
              (record { framed = refl; small = tt; recent = inl refl }) h.slots;
      },
      rw h.round (rotated_events k lb.last_segment_idx es),
    )
  where
    turned_inside : (lb.last_segment_idx + 1) % lb.max_segment_count < suc k
    turned_inside = rw h.round (mod-lt (lb.last_segment_idx + 1) {m = suc k} (omega arith))

pub put_frame-IsLive :
    (since k now : ℕ) (payload : List ℕ) (lb : LogBuffer) (es : ℕ → List (List ℕ))
    → IsLive since k lb es
    → IsSmall payload
    → since < now
    → let es' = set_slot lb.last_segment_idx (es lb.last_segment_idx ++ payload ∷ []) es in
      IsLive since k (put_frame now (frame payload) lb) es'
      × (events_of k (put_frame now (frame payload) lb) es' ≡ events_of k lb es ++ payload ∷ [])
unfolding put_frame append_frame
put_frame-IsLive since k now payload lb es h small later =
    let last = lb.last_segment_idx in
    let old = h.slots last in
    (
      record {
        round = h.round;
        inside = h.inside;
        flushes = h.flushes;
        current =
            ap (λ seg. seg.is_flushed)
              (set_slot-same last (append_frame now (frame payload) (lb.segments last)) lb.segments)
            ∙ h.current;
        slots =
            set_slot-IsSlot since last (append_frame now (frame payload) (lb.segments last))
              (es last ++ payload ∷ []) lb.segments es
              (record {
                framed =
                    ap (λ b. b ++ frame payload) old.framed
                    ∙ ap (λ b. frames (es last) ++ b) (sym (append-nil (frame payload)))
                    ∙ sym (frames-append (es last) (payload ∷ []));
                small = All-append IsSmall (es last) (payload ∷ []) old.small (small, tt);
                recent = inr later;
              })
              h.slots;
      },
      appended_events k last (payload ∷ []) es h.inside,
    )
