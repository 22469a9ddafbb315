-- ===== src/Raft/Match.antt =====
-- goblob/consensus/native/engine.go: which requests handleAppendEntries takes, told by the entries
-- of the log.
use go_blob.Base.{
  ℕ, ◌+◌, ◌≤◌, ◌<◌, ◌≡◌, ◌⊎◌, ◌↔◌, inl, inr, refl, ◌∙◌, sym, true, none, some, List, [], ◌∷◌,
  length, arith, ◌==◌, Bool-cases, Option, ==_iff, false, ltb,
}
use go_blob.Raft.{LogEntry, Machine, Engine, find_entry, last_index, term_at}
use go_blob.Raft.Messages.{AppendRequest}
use go_blob.Raft.Append.{handle_append_entries}
use go_blob.Raft.Chain.{Chain, find_entry-below}
use go_blob.Raft.Take.{IsLog, IsLog-last}
use go_blob.Raft.Follow.{handle_append_entries_success}

module _ {C : Type 0} where
  -- A log has an entry with an index and a term.
  unfoldable pub HasEntry : ℕ → ℕ → List (LogEntry C) → Type 0
  HasEntry i t [] = ⊥
  HasEntry i t (x ∷ xs) = ((x.index ≡ i) × (x.term ≡ t)) ⊎ HasEntry i t xs

  HasEntry-within :
      (s i t : ℕ) (xs : List (LogEntry C))
      → Chain s xs
      → HasEntry i t xs
      → (s < i) × (i ≤ s + length xs)
  unfolding Chain HasEntry
  HasEntry-within s i t [] c h = absurd h
  HasEntry-within s i t (x ∷ xs) c (inl (at, term)) =
      (omega (arith, c.0, at), omega (arith, c.0, at))
  HasEntry-within s i t (x ∷ xs) c (inr later) =
      let (low, high) = HasEntry-within (s + 1) i t xs c.1 later in
      (omega (arith, low), omega (arith, high))

  abbrev found_term : Option (LogEntry C) → ℕ
  found_term none = 0
  found_term (some x) = x.term

  found-HasEntry :
      (s i t : ℕ) (xs : List (LogEntry C))
      → Chain s xs
      → s < i
      → i ≤ s + length xs
      → (found_term (find_entry i xs) ≡ t) ↔ HasEntry i t xs
  unfolding Chain HasEntry find_entry
  found-HasEntry s i t [] c low high = absurd (omega arith)
  found-HasEntry s i t (x ∷ xs) c low high = elim (Bool-cases (x.index == i)) [
    | inl here ↦
        let at : x.index ≡ i = (==_iff x.index i).0 here in
        rw here (
          (λ q. inl (at, q)),
          (λ h. elim h [
            | inl p ↦ p.1
            | inr later ↦
                absurd (omega (arith, (HasEntry-within (s + 1) i t xs c.1 later).0, c.0, at))
          ]),
        )
    | inr other ↦
        let rest = found-HasEntry (s + 1) i t xs c.1 (ground (arith, c.0, other)) (omega arith) in
        rw other (
          (λ q. inr (rest.0 q)),
          (λ h. elim h [ inl p ↦ absurd (ground (arith, p.0, other)) | inr later ↦ rest.1 later ]),
        )
  ]

module _ {C F : Type 0} where
  -- The previous entry of a request, by its index and term, is one that the node takes: 0, the
  -- snapshot's, one of the log, or one of term 0 below the snapshot.
  abbrev pub IsTaken : Engine C F → ℕ → ℕ → Type 0
  IsTaken e i t =
      (i ≡ 0)
      ⊎ (((i ≡ e.snapshot.index) × (t ≡ e.snapshot.term))
          ⊎ (HasEntry i t e.log ⊎ ((i < e.snapshot.index) × (t ≡ 0))))

  pub stale_term : (e : Engine C F) (i : ℕ) → IsLog e → i < e.snapshot.index → term_at e i ≡ 0
  unfolding IsLog term_at
  stale_term e i c h = rw (find_entry-below e.snapshot.index i e.log c (omega arith)) (ground arith)

  term_at-log :
      (e : Engine C F) (i : ℕ)
      → (i == 0) ≡ false
      → (i == e.snapshot.index) ≡ false
      → term_at e i ≡ found_term (find_entry i e.log)
  unfolding term_at
  term_at-log e i a b =
      rw (a, b)
        (elim (find_entry i e.log)
          as (λ o. elim o as (λ _. ℕ) [ none ↦ 0 | some x ↦ x.term ] ≡ found_term o) [
            | none ↦ refl
            | some x ↦ refl
          ])

  term_at-snapshot :
      (e : Engine C F) (i : ℕ)
      → (i == 0) ≡ false
      → i ≡ e.snapshot.index
      → term_at e i ≡ e.snapshot.term
  unfolding term_at
  term_at-snapshot e i a b = ground arith

  -- The four places of an index above 0.
  at_snapshot :
      (e : Engine C F) (i t : ℕ)
      → IsLog e
      → (i == 0) ≡ false
      → i ≡ e.snapshot.index
      → ((i ≤ last_index e) × ((i ≡ 0) ⊎ (term_at e i ≡ t))) ↔ IsTaken e i t
  unfolding IsLog
  at_snapshot e i t c above at = (
    (λ h. elim (h.1) [
      | inl zero_index ↦ inl zero_index
      | inr q ↦ inr (inl (at, sym q ∙ term_at-snapshot e i above at))
    ]),
    (λ h. (
      omega (arith, IsLog-last e c),
      elim h [
        | inl zero_index ↦ inl zero_index
        | inr (inl p) ↦ inr (term_at-snapshot e i above at ∙ sym p.1)
        | inr (inr (inl has)) ↦
            absurd (omega (arith, (HasEntry-within e.snapshot.index i t e.log c has).0))
        | inr (inr (inr p)) ↦ absurd (omega (arith, p.0))
      ],
    )),
  )

  at_stale :
      (e : Engine C F) (i t : ℕ)
      → IsLog e
      → i < e.snapshot.index
      → ((i ≤ last_index e) × ((i ≡ 0) ⊎ (term_at e i ≡ t))) ↔ IsTaken e i t
  unfolding IsLog
  at_stale e i t c below = (
    (λ h. elim (h.1) [
      | inl zero_index ↦ inl zero_index
      | inr q ↦ inr (inr (inr (below, sym q ∙ stale_term e i c below)))
    ]),
    (λ h. (
      omega (arith, IsLog-last e c),
      elim h [
        | inl zero_index ↦ inl zero_index
        | inr (inl p) ↦ absurd (omega (arith, p.0))
        | inr (inr (inl has)) ↦
            absurd (omega (arith, (HasEntry-within e.snapshot.index i t e.log c has).0))
        | inr (inr (inr p)) ↦ inr (stale_term e i c below ∙ sym p.1)
      ],
    )),
  )

  at_entry :
      (e : Engine C F) (i t : ℕ)
      → IsLog e
      → (i == 0) ≡ false
      → e.snapshot.index < i
      → ((i ≤ last_index e) × ((i ≡ 0) ⊎ (term_at e i ≡ t))) ↔ IsTaken e i t
  unfolding IsLog
  at_entry e i t c above behind =
      let read = term_at-log e i above (ground (arith, behind)) in
      (
        (λ h. elim (h.1) [
          | inl zero_index ↦ inl zero_index
          | inr q ↦ inr (
              inr (
                inl (
                  (found-HasEntry e.snapshot.index i t e.log c behind
                      (omega (arith, IsLog-last e c, h.0))).0
                    (sym read ∙ q))))
        ]),
        (λ h. elim h [
          | inl zero_index ↦ (omega arith, inl zero_index)
          | inr (inl p) ↦ absurd (omega (arith, p.0))
          | inr (inr (inl has)) ↦
              let high = (HasEntry-within e.snapshot.index i t e.log c has).1 in
              (
                omega (arith, high, IsLog-last e c),
                inr (read ∙ (found-HasEntry e.snapshot.index i t e.log c behind high).1 has),
              )
          | inr (inr (inr p)) ↦ absurd (omega (arith, p.0))
        ]),
      )

  within-IsTaken :
      (e : Engine C F) (i t : ℕ)
      → IsLog e
      → ((i ≤ last_index e) × ((i ≡ 0) ⊎ (term_at e i ≡ t))) ↔ IsTaken e i t
  within-IsTaken e i t c = elim (Bool-cases (i == 0)) [
    | inl zero_index ↦
        let at : i ≡ 0 = (==_iff i 0).0 zero_index in ((λ h. inl at), (λ h. (omega arith, inl at)))
    | inr above ↦ elim (Bool-cases (i == e.snapshot.index)) [
      | inl at ↦ at_snapshot e i t c above ((==_iff i e.snapshot.index).0 at)
      | inr other ↦ elim (Bool-cases (ltb i e.snapshot.index)) [
        | inl below ↦ at_stale e i t c (ground (arith, below))
        | inr not_below ↦ at_entry e i t c above (ground (arith, other, not_below))
      ]
    ]
  ]

module _ {C F : Type 0} (k : Machine C F) where
  -- To a node whose log has no gap, handleAppendEntries succeeds exactly for a request whose term
  -- is not below the node's and whose previous entry is 0, the last one of the snapshot, an entry
  -- of the log, each with the request's index and term for it, or has term 0 and an index below the
  -- snapshot's.
  pub handle_append_entries-IsTaken :
      (e : Engine C F) (req : AppendRequest C)
      → IsLog e
      → ((handle_append_entries k e req).1.success ≡ true)
        ↔ ((e.current_term ≤ req.term) × IsTaken e req.prev_log_index req.prev_log_term)
  handle_append_entries-IsTaken e req c =
      let s = handle_append_entries_success k e req in
      let w = within-IsTaken e req.prev_log_index req.prev_log_term c in
      (λ h. ((s.0 h).0, w.0 ((s.0 h).1, (s.0 h).2)), λ h. s.1 (h.0, (w.1 h.1).0, (w.1 h.1).1))
