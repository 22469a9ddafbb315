-- ===== src/LogBuffer/Marks.antt =====
-- goblob/log_buffer/log_buffer.go: the marks that flushOldSegments sets, and the segments that it
-- hands over. Each call of it is one step, so that no AppendEntry comes between its marks and its
-- calls of the flush function.
use go_blob.Base.{
  ℕ, zero, suc, ◌+◌, ◌≡◌, ◌∙◌, refl, sym, ap, subst, Bool, true, false, not, ◌||◌, Option, none,
  some, List, [], ◌∷◌, ◌++◌, All, ◌==◌, ==_iff, arith, length, if◌then◌else◌, Bool-cases, inl, inr,
  ◌⊎◌, ◌<◌,
}
use go_blob.LogBuffer.{
  LogSegment, LogBuffer, set_slot, wants_flush, append_entry, flush_slot, flush_loop,
  flush_old_segments,
}
use go_blob.LogBuffer.Frames.{IsSmall, frames}
use go_blob.LogBuffer.Slots.{IsSlot, IsLive}
use go_blob.LogBuffer.Stream.{Evicts}
use go_blob.LogBuffer.Delivery.{no_frames}

-- The calls, with their times and what the flush function answers to the daemon.
pub data LogStep : Type 0 where
  append_step : ℕ → List ℕ → LogStep
  flush_step : (LogSegment → Bool) → LogStep

abbrev pub given_list : Option LogSegment → List LogSegment
given_list none = []
given_list (some seg) = seg ∷ []

-- The segments that the flush function takes.
unfoldable pub taken : (LogSegment → Bool) → List LogSegment → List LogSegment
taken flush [] = []
taken flush (seg ∷ segs) = let rest = taken flush segs in if flush seg then seg ∷ rest else rest

-- A call, and the segments that it hands over: those that a goroutine is started with, and those
-- that the flush function takes from the daemon.
unfoldable pub log_step : LogStep → LogBuffer → LogBuffer × List LogSegment
unfolding append_entry flush_old_segments taken
log_step (append_step now payload) lb =
    let (after, evicted) = append_entry now payload lb in (after, given_list evicted)
log_step (flush_step flush) lb =
    let (after, given) = flush_old_segments flush lb in (after, taken flush given)

unfoldable pub log_run : List LogStep → LogBuffer → LogBuffer × List LogSegment
unfolding log_step
log_run [] lb = (lb, [])
log_run (step ∷ steps) lb =
    let (next, now) = log_step step lb in
    let (after, more) = log_run steps next in (after, now ++ more)

abbrev pub appended : List LogStep → List (List ℕ)
appended [] = []
appended (append_step now payload ∷ steps) = payload ∷ appended steps
appended (flush_step flush ∷ steps) = appended steps

-- The events fit into frames, and come after `since`.
abbrev pub IsStep : ℕ → LogStep → Type 0
IsStep since (append_step now payload) = IsSmall payload × (since < now)
IsStep since (flush_step flush) = Unit

abbrev pub Occurs : List ℕ → List (List ℕ) → Type 0
Occurs e [] = ⊥
Occurs e (x ∷ xs) = (x ≡ e) ⊎ Occurs e xs

-- One of the segments is made of the frames of events of which this is one.
abbrev pub HandedIn : List LogSegment → List ℕ → Type 0
HandedIn [] e = ⊥
HandedIn (seg ∷ segs) e =
    ((inside : List (List ℕ)) × (seg.buf ≡ frames inside) × Occurs e inside) ⊎ HandedIn segs e

pub all_map :
    (P Q : List ℕ → Type 0) (xs : List (List ℕ)) → ((x : List ℕ) → P x → Q x) → All P xs → All Q xs
all_map P Q [] f h = h
all_map P Q (x ∷ xs) f h = (f x h.0, all_map P Q xs f h.1)

pub all_occur : (xs : List (List ℕ)) → All (λ e. Occurs e xs) xs
all_occur [] = tt
all_occur (x ∷ xs) =
    (inl refl, all_map (λ e. Occurs e xs) (λ e. Occurs e (x ∷ xs)) xs (λ e h. inr h) (all_occur xs))

pub HandedIn-before : (a b : List LogSegment) (e : List ℕ) → HandedIn a e → HandedIn (a ++ b) e
HandedIn-before [] b e h = absurd h
HandedIn-before (seg ∷ a) b e (inl here) = inl here
HandedIn-before (seg ∷ a) b e (inr later) = inr (HandedIn-before a b e later)

pub HandedIn-behind : (a b : List LogSegment) (e : List ℕ) → HandedIn b e → HandedIn (a ++ b) e
HandedIn-behind [] b e h = h
HandedIn-behind (seg ∷ a) b e h = inr (HandedIn-behind a b e h)

-- All events of a segment that is handed over.
pub handed_here :
    (seg : LogSegment) (segs : List LogSegment) (es : List (List ℕ))
    → seg.buf ≡ frames es
    → All (HandedIn (seg ∷ segs)) es
handed_here seg segs es framed =
    all_map (λ e. Occurs e es) (HandedIn (seg ∷ segs)) es (λ e h. inl (es, framed, h))
      (all_occur es)

-- Every slot that is marked as flushed holds events that were handed over.
abbrev pub MarksHanded : List LogSegment → LogBuffer → (ℕ → List (List ℕ)) → Type 0
MarksHanded gone lb es = (j : ℕ) → (lb.segments j).is_flushed ≡ true → All (HandedIn gone) (es j)

pub evicted_handed :
    (gone : List LogSegment) (lb : LogBuffer) (es : ℕ → List (List ℕ)) (given : Option LogSegment)
    (old : List (List ℕ))
    → MarksHanded gone lb es
    → Evicts lb es given old
    → All (HandedIn (gone ++ given_list given)) old
evicted_handed gone lb es none old marks (inl g) =
    subst (All (HandedIn (gone ++ []))) (sym (no_frames old (ap length (sym g)))) tt
evicted_handed gone lb es (some seg) old marks (inl g) =
    all_map (HandedIn (seg ∷ [])) (HandedIn (gone ++ seg ∷ [])) old
      (λ e h. HandedIn-behind gone (seg ∷ []) e h) (handed_here seg [] old g)
evicted_handed gone lb es given old marks (inr (j, marked, same, none_given)) =
    subst (All (HandedIn (gone ++ given_list given))) same (
      all_map (HandedIn gone) (HandedIn (gone ++ given_list given)) (es j)
        (λ e h. HandedIn-before gone (given_list given) e h) (marks j marked))

-- What flushOldSegments keeps, and marks.
pub record IsFlushed (since k : ℕ) (lb lb' : LogBuffer) (es : ℕ → List (List ℕ))
    (given : List LogSegment) : Type 0 where
  pub live : IsLive since k lb' es
  pub last : lb'.last_segment_idx ≡ lb.last_segment_idx
  pub marks :
      (j : ℕ)
      → (lb'.segments j).is_flushed ≡ true
      → ((lb.segments j).is_flushed ≡ true) ⊎ All (HandedIn given) (es j)

pub marked_slot :
    (since k : ℕ) (flush : LogSegment → Bool) (i : ℕ) (lb : LogBuffer) (es : ℕ → List (List ℕ))
    → (i == lb.last_segment_idx) ≡ false
    → IsLive since k lb es
    → IsFlushed since k lb
        (record lb {
          segments =
              set_slot i
                (record (lb.segments i) { is_flushed = flush (lb.segments i) })
                lb.segments;
        })
        es
        (taken flush (lb.segments i ∷ []))
unfolding taken
marked_slot since k flush i lb es other h =
    let seg = lb.segments i in
    let new : LogSegment = record seg { is_flushed = flush seg } in
    let moved : IsSlot since new (es i) = record {
      framed = (h.slots i).framed;
      small = (h.slots i).small;
      recent = (h.slots i).recent;
    } in
    record {
      live = record {
        round = h.round;
        inside = h.inside;
        flushes = h.flushes;
        current =
            ap (λ b. (if b then new else lb.segments lb.last_segment_idx).is_flushed) other
            ∙ h.current;
        slots = λ j. elim (Bool-cases (i == j)) [
          | inl same ↦
              subst (λ b. IsSlot since (if b then new else lb.segments j) (es j)) (sym same)
                (subst (λ x. IsSlot since new (es x)) ((==_iff i j).0 same) moved)
          | inr apart ↦
              subst (λ b. IsSlot since (if b then new else lb.segments j) (es j)) (sym apart)
                (h.slots j)
        ];
      };
      last = refl;
      marks = λ j marked. elim (Bool-cases (i == j)) [
        | inl same ↦
            let took : flush seg ≡ true =
              sym (ap (λ b. (if b then new else lb.segments j).is_flushed) same) ∙ marked in
            inr (
              subst (λ x. All (HandedIn (taken flush (seg ∷ []))) (es x)) ((==_iff i j).0 same)
                (subst (λ b. All (HandedIn (if b then seg ∷ [] else [])) (es i)) (sym took)
                  (handed_here seg [] (es i) (h.slots i).framed)))
        | inr apart ↦
            inl (sym (ap (λ b. (if b then new else lb.segments j).is_flushed) apart) ∙ marked)
      ];
    }

pub idle-IsFlushed :
    (since k : ℕ) (lb : LogBuffer) (es : ℕ → List (List ℕ)) (given : List LogSegment)
    → IsLive since k lb es
    → IsFlushed since k lb lb es given
idle-IsFlushed since k lb es given h = record {
  live = h;
  last = refl;
  marks = λ j marked. inl marked;
}

pub flush_slot-IsFlushed :
    (since k : ℕ) (flush : LogSegment → Bool) (i : ℕ) (lb : LogBuffer) (es : ℕ → List (List ℕ))
    → IsLive since k lb es
    → IsFlushed since k lb (flush_slot flush i lb).0 es (taken flush (flush_slot flush i lb).1)
unfolding flush_slot
flush_slot-IsFlushed since k flush i lb es h =
    elim (Bool-cases (i == lb.last_segment_idx || not (wants_flush (lb.segments i)))) [
      | inl idle ↦ rw idle (idle-IsFlushed since k lb es (taken flush []) h)
      | inr busy ↦ rw busy (marked_slot since k flush i lb es (first_false _ _ busy) h)
    ]
  where
    first_false : (a b : Bool) → (a || b) ≡ false → a ≡ false
    first_false a b q = ground arith

pub taken-append :
    (flush : LogSegment → Bool) (a b : List LogSegment)
    → taken flush (a ++ b) ≡ taken flush a ++ taken flush b
unfolding taken
taken-append flush [] b = refl
taken-append flush (seg ∷ a) b = elim (Bool-cases (flush seg)) [
  | inl took ↦ rw took (ap (λ t. seg ∷ t) (taken-append flush a b))
  | inr failed ↦ rw failed (taken-append flush a b)
]

pub flush_loop-IsFlushed :
    (since k : ℕ) (flush : LogSegment → Bool) (n i : ℕ) (lb : LogBuffer) (es : ℕ → List (List ℕ))
    → IsLive since k lb es
    → IsFlushed since k lb (flush_loop flush n i lb).0 es (taken flush (flush_loop flush n i lb).1)
unfolding flush_loop
flush_loop-IsFlushed since k flush zero i lb es h = idle-IsFlushed since k lb es (taken flush []) h
flush_loop-IsFlushed since k flush (suc n) i lb es h =
    let one = flush_slot-IsFlushed since k flush i lb es h in
    let next = (flush_slot flush i lb).0 in
    let mine = (flush_slot flush i lb).1 in
    let more = (flush_loop flush n (i + 1) next).1 in
    let rest = flush_loop-IsFlushed since k flush n (i + 1) next es one.live in
    record {
      live = rest.live;
      last = rest.last ∙ one.last;
      marks = λ j marked.
          subst (λ gone. ((lb.segments j).is_flushed ≡ true) ⊎ All (HandedIn gone) (es j))
            (sym (taken-append flush mine more))
            (elim (rest.marks j marked) [
              | inl before ↦ elim (one.marks j before) [
                | inl first ↦ inl first
                | inr now ↦ inr (
                    all_map (HandedIn (taken flush mine))
                      (HandedIn (taken flush mine ++ taken flush more)) (es j)
                      (HandedIn-before (taken flush mine) (taken flush more)) now)
              ]
              | inr later ↦ inr (
                  all_map (HandedIn (taken flush more))
                    (HandedIn (taken flush mine ++ taken flush more)) (es j)
                    (HandedIn-behind (taken flush mine) (taken flush more)) later)
            ]);
    }

pub flush_old-IsFlushed :
    (since k : ℕ) (flush : LogSegment → Bool) (lb : LogBuffer) (es : ℕ → List (List ℕ))
    → IsLive since k lb es
    → IsFlushed since k lb
        (flush_old_segments flush lb).0
        es
        (taken flush (flush_old_segments flush lb).1)
unfolding flush_old_segments
flush_old-IsFlushed since k flush lb es h =
    subst
      (λ b.
        let (after, given) = if b then flush_loop flush lb.max_segment_count 0 lb else (lb, []) in
        IsFlushed since k lb after es (taken flush given))
      (sym h.flushes) (flush_loop-IsFlushed since k flush lb.max_segment_count 0 lb es h)
