-- ===== src/Raft/Take.antt =====
-- goblob/consensus/native/engine.go: what the loop of handleAppendEntries over a request's entries
-- makes of the log of a follower.
use go_blob.Base.{
  ℕ, ◌+◌, ◌-◌, ◌%◌, ◌≤◌, ◌<◌, ◌≡◌, ◌≢◌, inl, inr, refl, ap, ◌∙◌, subst, List, [], ◌∷◌, ◌++◌, leb,
  ◌==◌, length, u64, arith, Bool-cases, All, length-append,
}
use go_blob.Raft.{LogEntry, Engine, last_index, term_at, cut_at, truncate_after}
use go_blob.Raft.Append.{take_entry, take_entries}
use go_blob.Raft.Chain.{
  Chain, Chain-last, Chain-append, Chain-up_to, length-up_to, find_entry-append, find_entry-new,
  find_entry-up_to,
}

module _ {C F : Type 0} where
  -- The indices of the log go on from the snapshot's without a gap.
  unfoldable pub IsLog : Engine C F → Type 0
  IsLog e = Chain e.snapshot.index e.log

  pub IsLog-last : (e : Engine C F) → IsLog e → last_index e ≡ e.snapshot.index + length e.log
  unfolding IsLog last_index
  IsLog-last e c = Chain-last e.snapshot.index e.log c

  -- What taking the entries `xs` behind the index `m` makes of a state.
  pub record Took (m : ℕ) (xs : List (LogEntry C)) (e e' : Engine C F) : Type 0 where
    pub chain : IsLog e'
    pub snapshot : e'.snapshot ≡ e.snapshot
    pub reach : m + length xs ≤ last_index e'
    pub kept : (j : ℕ) → j ≤ m → term_at e' j ≡ term_at e j
    pub held : All (λ x. term_at e' x.index ≡ x.term) xs

  -- truncateAfterLocked keeps the terms up to its index.
  pub truncate_after_keeps :
      (e : Engine C F) (m j : ℕ) → IsLog e → j ≤ m → term_at (truncate_after m e) j ≡ term_at e j
  unfolding truncate_after term_at IsLog
  truncate_after_keeps e m j c h =
      rw (find_entry-up_to e.snapshot.index j (cut_at e m) e.log c (ground arith)) refl

  cut_chain : (e : Engine C F) (m : ℕ) → IsLog e → IsLog (truncate_after m e)
  unfolding truncate_after IsLog
  cut_chain e m c = Chain-up_to e.snapshot.index (cut_at e m) e.log c

  cut_length :
      (e : Engine C F) (m : ℕ)
      → IsLog e
      → e.snapshot.index ≤ m
      → m ≤ last_index e
      → length (truncate_after m e).log ≡ m - e.snapshot.index
  unfolding truncate_after IsLog
  cut_length e m c a b =
      let same_cut : cut_at e m ≡ m = ground arith in
      rw same_cut (length-up_to e.snapshot.index m e.log c a (omega (arith, IsLog-last e c)))

  cut_snapshot : (e : Engine C F) (m : ℕ) → (truncate_after m e).snapshot.index ≡ e.snapshot.index
  unfolding truncate_after
  cut_snapshot e m = refl

  truncate_after-IsLog :
      (e : Engine C F) (m : ℕ)
      → IsLog e
      → e.snapshot.index ≤ m
      → m ≤ last_index e
      → IsLog (truncate_after m e) × (last_index (truncate_after m e) ≡ m)
  truncate_after-IsLog e m c a b =
      let chain : IsLog (truncate_after m e) = cut_chain e m c in
      (
        chain,
        omega
            (arith, IsLog-last (truncate_after m e) chain, cut_length e m c a b, cut_snapshot e m),
      )

  append_entry-IsLog :
      (e : Engine C F) (x : LogEntry C)
      → IsLog e
      → x.index ≡ last_index e + 1
      → IsLog (record e { log = e.log ++ x ∷ [] })
  unfolding IsLog
  append_entry-IsLog e x c h =
      Chain-append e.snapshot.index e.log x c (h ∙ ap (λ n. n + 1) (IsLog-last e c))

  append_entry-kept :
      (e : Engine C F) (x : LogEntry C) (j : ℕ)
      → x.index ≢ j
      → term_at (record e { log = e.log ++ x ∷ [] }) j ≡ term_at e j
  unfolding term_at
  append_entry-kept e x j h = rw (find_entry-append j e.log x h) refl

  append_entry-held :
      (e : Engine C F) (x : LogEntry C)
      → IsLog e
      → x.index ≡ last_index e + 1
      → term_at (record e { log = e.log ++ x ∷ [] }) x.index ≡ x.term
  unfolding IsLog term_at
  append_entry-held e x c h =
      rw (find_entry-new e.snapshot.index e.log x c (h ∙ ap (λ n. n + 1) (IsLog-last e c)))
        (ground (arith, IsLog-last e c))

  append_entry-Took :
      (e : Engine C F) (x : LogEntry C)
      → IsLog e
      → x.index ≡ last_index e + 1
      → Took (last_index e) (x ∷ []) e (record e { log = e.log ++ x ∷ [] })
  append_entry-Took e x c h =
      let chain : IsLog (record e { log = e.log ++ x ∷ [] }) = append_entry-IsLog e x c h in
      record {
        chain = chain;
        snapshot = refl;
        reach = omega (
          arith,
          IsLog-last (record e { log = e.log ++ x ∷ [] }) chain,
          IsLog-last e c,
          length-append e.log (x ∷ []),
        );
        kept = λ j b. append_entry-kept e x j (ground (arith, h));
        held = (append_entry-held e x c h, _);
      }

  pub cut_same : (e : Engine C F) (m : ℕ) → ((truncate_after m e).snapshot ≡ e.snapshot)
  unfolding truncate_after
  cut_same e m = refl

  conflict-Took :
      (e : Engine C F) (m : ℕ) (x : LogEntry C)
      → IsLog e
      → e.snapshot.index ≤ m
      → m ≤ last_index e
      → x.index ≡ m + 1
      → Took m (x ∷ []) e (record (truncate_after m e) { log = (truncate_after m e).log ++ x ∷ [] })
  conflict-Took e m x c a b h =
      let cut = truncate_after-IsLog e m c a b in
      let same = cut_same e m in
      let after = record (truncate_after m e) { log = (truncate_after m e).log ++ x ∷ [] } in
      let t : Took m (x ∷ []) (truncate_after m e) after =
        subst (λ n. Took n (x ∷ []) (truncate_after m e) after) cut.1
          (append_entry-Took (truncate_after m e) x cut.0 (omega (arith, h, cut.1))) in
      record {
        chain = t.chain;
        snapshot = t.snapshot ∙ same;
        reach = t.reach;
        kept = λ j le. t.kept j le ∙ truncate_after_keeps e m j c le;
        held = t.held;
      }

  -- One round of the loop, for an entry that goes on from an index of the log.
  take_entry-Took :
      (e : Engine C F) (m : ℕ) (x : LogEntry C)
      → IsLog e
      → e.snapshot.index ≤ m
      → m ≤ last_index e
      → x.index ≡ m + 1
      → x.index < u64
      → Took m (x ∷ []) e (take_entry e x)
  unfolding take_entry
  take_entry-Took e m x c a b h small =
      let back : m ≡ (x.index + (u64 - 1)) % u64 = omega arith in
      elim (Bool-cases (leb x.index (last_index e))) [
        | inl inside ↦ elim (Bool-cases (term_at e x.index == x.term)) [
          | inl same ↦
              rw (inside, same)
                (record {
                  chain = c;
                  snapshot = refl;
                  reach = ground arith;
                  kept = λ j _. refl;
                  held = (ground arith, _);
                })
          | inr other ↦
              rw (inside, other)
                (subst
                  (λ n.
                    Took m (x ∷ []) e
                      (record (truncate_after n e) { log = (truncate_after n e).log ++ x ∷ [] }))
                  back (conflict-Took e m x c a b h))
        ]
        | inr outside ↦
            let top : last_index e ≡ m = ground arith in
            rw outside (
              subst (λ n. Took n (x ∷ []) e (record e { log = e.log ++ x ∷ [] })) top
                (append_entry-Took e x c (ground arith)))
      ]

  Took-next :
      (m : ℕ) (x : LogEntry C) (xs : List (LogEntry C)) (e e' e'' : Engine C F)
      → x.index ≡ m + 1
      → Took m (x ∷ []) e e'
      → Took (m + 1) xs e' e''
      → Took m (x ∷ xs) e e''
  Took-next m x xs e e' e'' h s t = record {
    chain = t.chain;
    snapshot = t.snapshot ∙ s.snapshot;
    reach = ground (arith, t.reach);
    kept = λ j le. t.kept j (omega arith) ∙ s.kept j le;
    held = (t.kept x.index (omega arith) ∙ s.held.0, t.held);
  }

  pub take_entries-term :
      (e : Engine C F) (xs : List (LogEntry C)) → (take_entries e xs).current_term ≡ e.current_term
  unfolding take_entries take_entry truncate_after
  take_entries-term e [] = refl
  take_entries-term e (x ∷ xs) = ground (arith, take_entries-term (take_entry e x) xs)

  pub take_entries-vote :
      (e : Engine C F) (xs : List (LogEntry C)) → (take_entries e xs).voted_for ≡ e.voted_for
  unfolding take_entries take_entry truncate_after
  take_entries-vote e [] = refl
  take_entries-vote e (x ∷ xs) = ground (arith, take_entries-vote (take_entry e x) xs)

  pub take_entries-Took :
      (e : Engine C F) (m : ℕ) (xs : List (LogEntry C))
      → IsLog e
      → e.snapshot.index ≤ m
      → m ≤ last_index e
      → Chain m xs
      → m + length xs < u64
      → Took m xs e (take_entries e xs)
  unfolding take_entries Chain
  take_entries-Took e m [] c a b ch small = record {
    chain = c;
    snapshot = refl;
    reach = ground arith;
    kept = λ j _. refl;
    held = _;
  }
  take_entries-Took e m (x ∷ xs) c a b ch small =
      let s = take_entry-Took e m x c a b ch.0 (ground arith) in
      Took-next m x xs e (take_entry e x) (take_entries e (x ∷ xs)) ch.0 s (
        take_entries-Took (take_entry e x) (m + 1) xs s.chain
          (ground (arith, ap (λ r. r.index) s.snapshot)) (ground (arith, s.reach)) ch.1
          (ground arith))
