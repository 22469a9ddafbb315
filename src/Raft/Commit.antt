-- ===== src/Raft/Commit.antt =====
-- goblob/consensus/native/engine.go: what advanceCommitLocked commits.
use go_blob.Base.{
  ℕ, zero, suc, ◌+◌, ◌-◌, ◌≤◌, ◌<◌, ◌≡◌, ◌⊎◌, inl, inr, refl, ap, ◌∙◌, sym, subst, Bool, true,
  false, ◌&&◌, leb, ◌==◌, ==_iff, arith, Bool-cases,
}
use go_blob.Raft.{
  Machine, Engine, is_leader_state, persist, quorum, last_index, term_at, match_count,
  apply_committed, maybe_snapshot,
}
use go_blob.Raft.Leader.{advance_rounds, advance_commit, apply_round}
use go_blob.Raft.Effects.{apply_committed-SameButFsm, maybe_snapshot-commit}

module _ {C F : Type 0} where
  -- An index that a leader may commit: an entry of its own term above the commit index that a
  -- quorum of matchCountLocked holds.
  pub record Eligible (e : Engine C F) (i : ℕ) : Type 0 where
    pub above : e.commit_index < i
    pub in_log : i ≤ last_index e
    pub own_term : term_at e i ≡ e.current_term
    pub held : quorum e ≤ match_count e i

  -- The test of the loop.
  abbrev eligible : Engine C F → ℕ → Bool
  eligible e i = term_at e i == e.current_term && leb (quorum e) (match_count e i)

  eligible_test :
      (e : Engine C F) (i : ℕ)
      → eligible e i ≡ true
      → (term_at e i ≡ e.current_term) × (quorum e ≤ match_count e i)
  eligible_test e i h = ground arith

  ineligible :
      (e : Engine C F) (i : ℕ)
      → eligible e i ≡ false
      → term_at e i ≡ e.current_term
      → match_count e i < quorum e
  ineligible e i h own = ground arith

module _ {C F : Type 0} (k : Machine C F) where
  commit_at :
      (e : Engine C F) (i : ℕ)
      → (maybe_snapshot k
          (apply_committed k (persist (record e { commit_index = i })))).0.commit_index
        ≡ i
  unfolding persist
  commit_at e i =
      maybe_snapshot-commit k (apply_committed k (persist (record e { commit_index = i })))
      ∙ (apply_committed-SameButFsm k (persist (record e { commit_index = i }))).commit

  advance_rounds_commits :
      (n : ℕ) (e : Engine C F)
      → eligible e (e.commit_index + suc n) ≡ true
      → (advance_rounds k (suc n) e).commit_index ≡ e.commit_index + suc n
  unfolding advance_rounds
  advance_rounds_commits n e holds = rw holds (commit_at e (e.commit_index + suc n))

  advance_rounds_skips :
      (n : ℕ) (e : Engine C F)
      → eligible e (e.commit_index + suc n) ≡ false
      → advance_rounds k (suc n) e ≡ advance_rounds k n e
  unfolding advance_rounds
  advance_rounds_skips n e fails = rw fails refl

  below :
      (i top : ℕ) (e : Engine C F)
      → term_at e i ≡ e.current_term
      → quorum e ≤ match_count e i
      → eligible e top ≡ false
      → i ≤ top
      → i < top
  below i top e own held fails le = elim (Bool-cases (i == top)) [
    | inl h ↦
        let same = (==_iff i top).0 h in
        omega (
          arith,
          ineligible e top fails (subst (λ j. term_at e j ≡ e.current_term) same own),
          subst (λ j. quorum e ≤ match_count e j) same held,
        )
    | inr h ↦ ground arith
  ]

  advance_rounds_max :
      (n : ℕ) (e : Engine C F) (i : ℕ)
      → e.commit_index < i
      → i ≤ e.commit_index + n
      → term_at e i ≡ e.current_term
      → quorum e ≤ match_count e i
      → i ≤ (advance_rounds k n e).commit_index
  advance_rounds_max zero e i a b own held = omega arith
  advance_rounds_max (suc n) e i a b own held =
      elim (Bool-cases (eligible e (e.commit_index + suc n))) [
        | inl holds ↦ rw (advance_rounds_commits n e holds) b
        | inr fails ↦ rw (advance_rounds_skips n e fails) (
            advance_rounds_max n e i a
              (omega (arith, below i (e.commit_index + suc n) e own held fails b)) own held)
      ]

  advance_rounds-Eligible :
      (n : ℕ) (e : Engine C F)
      → e.commit_index + n ≤ last_index e
      → (advance_rounds k n e ≡ e) ⊎ Eligible e (advance_rounds k n e).commit_index
  unfolding advance_rounds
  advance_rounds-Eligible zero e h = inl refl
  advance_rounds-Eligible (suc n) e h = elim (Bool-cases (eligible e (e.commit_index + suc n))) [
    | inl holds ↦
        let t = eligible_test e (e.commit_index + suc n) holds in
        inr (
          subst (Eligible e) (sym (advance_rounds_commits n e holds))
            (record { above = omega arith; in_log = h; own_term = t.0; held = t.1 }))
    | inr fails ↦ rw (advance_rounds_skips n e fails) (advance_rounds-Eligible n e (omega arith))
  ]

  advance_idle : (e : Engine C F) → last_index e < e.commit_index → advance_commit k e ≡ e
  unfolding advance_commit advance_rounds
  advance_idle e h =
      let none_left : last_index e - e.commit_index ≡ 0 = omega arith in
      ap (λ n. advance_rounds k n e) none_left

  -- advanceCommitLocked changes nothing, or it commits an index of the log above the commit index
  -- whose entry has the leader's own term and that matchCountLocked finds on a quorum; either way,
  -- no such index is above the commit index then.
  pub advance_commit_max :
      (e : Engine C F)
      → ((advance_commit k e ≡ e) ⊎ Eligible e (advance_commit k e).commit_index)
        × ((i : ℕ) → Eligible e i → i ≤ (advance_commit k e).commit_index)
  unfolding advance_commit
  advance_commit_max e = elim (Bool-cases (leb e.commit_index (last_index e))) [
    | inl h ↦ (
      advance_rounds-Eligible (last_index e - e.commit_index) e (ground arith),
      λ i x.
          advance_rounds_max (last_index e - e.commit_index) e i x.above (ground arith) x.own_term
            x.held,
    )
    | inr h ↦ (inl (advance_idle e (ground arith)), λ i x. ground (arith, x.above, x.in_log))
  ]

  -- Where every entry above the commit index is of an older term, advanceCommitLocked changes
  -- nothing; but a round of Apply for such an index of the log commits it all the same, on an open
  -- node that is leader and finds copies of that index on a quorum.
  pub apply_round-old_term :
      (e : Engine C F) (i : ℕ)
      → ((j : ℕ) → e.commit_index < j → j ≤ last_index e → term_at e j < e.current_term)
      → e.closed ≡ false
      → is_leader_state e.state ≡ true
      → quorum e ≤ match_count e i
      → e.commit_index < i
      → i ≤ last_index e
      → (advance_commit k e ≡ e)
        × (term_at e i < e.current_term)
        × ((apply_round k e i).0.commit_index ≡ i)
  unfolding apply_round
  apply_round-old_term e i old running leads held above in_log = (
    elim ((advance_commit_max e).0) [
      | inl same ↦ same
      | inr x ↦
          absurd (omega (arith, old (advance_commit k e).commit_index x.above x.in_log, x.own_term))
    ],
    old i above in_log,
    ground (arith, commit_at e i),
  )
