-- ===== src/Raft/Applied.antt =====
-- goblob/consensus/native/engine.go: what applyCommittedLocked applies.
use go_blob.Base.{
  ℕ, zero, suc, ◌+◌, ◌-◌, ◌≤◌, ◌<◌, ◌≡◌, ◌∙◌, refl, sym, ap, true, false, none, some, List, [], ◌∷◌,
  ◌++◌, append_assoc, length, length-append, ltb, ==_ne, arith, if◌then◌else◌, subst,
}
use go_blob.Raft.{
  LogEntry, Machine, Engine, find_entry, entry_at, apply_next, apply_rounds, apply_committed,
}
use go_blob.Raft.Chain.{Chain}
use go_blob.Raft.Take.{IsLog}

module _ {C : Type 0} where
  -- The commands of entries, in order; an entry without a command is passed over.
  unfoldable pub commands : List (LogEntry C) → List C
  commands [] = []
  commands (x ∷ xs) = elim (x.command) [ none ↦ commands xs | some c ↦ c ∷ commands xs ]

  find_entry-at :
      (s : ℕ) (xs : List (LogEntry C)) (y : LogEntry C) (ys : List (LogEntry C))
      → Chain s (xs ++ y ∷ ys)
      → find_entry (s + length xs + 1) (xs ++ y ∷ ys) ≡ some y
  unfolding Chain find_entry
  find_entry-at s [] y ys c = ground arith
  find_entry-at s (x ∷ xs) y ys c = rw (==_ne x.index (s + length (x ∷ xs) + 1) (ground arith)) (
      ap (λ i. find_entry i (xs ++ y ∷ ys)) (turn s (length xs))
      ∙ find_entry-at (s + 1) xs y ys c.1)
    where
      turn : (a b : ℕ) → a + suc b + 1 ≡ a + 1 + b + 1
      turn a b = omega arith

module _ {C F : Type 0} (k : Machine C F) where
  -- A state machine that is given commands in order.
  unfoldable pub apply_all : List C → F → F
  apply_all [] f = f
  apply_all (c ∷ cs) f = apply_all cs (k.apply c f)

  apply_next-entry :
      (e : Engine C F) (x : LogEntry C)
      → entry_at e (e.last_applied + 1) ≡ some x
      → apply_next k e
        ≡ record e { last_applied = e.last_applied + 1; fsm = apply_all (commands (x ∷ [])) e.fsm }
  unfolding apply_next apply_all commands
  apply_next-entry e x found = ground (arith, found)

  apply_all-first :
      (x : LogEntry C) (xs : List (LogEntry C)) (f : F)
      → apply_all (commands xs) (apply_all (commands (x ∷ [])) f) ≡ apply_all (commands (x ∷ xs)) f
  unfolding apply_all commands
  apply_all-first x xs f =
      elim (x.command)
        as (λ o.
          apply_all (commands xs)
            (apply_all (elim o as (λ _. List C) [ none ↦ [] | some c ↦ c ∷ [] ]) f)
          ≡ apply_all (elim o as (λ _. List C) [ none ↦ commands xs | some c ↦ c ∷ commands xs ])
              f) [ none ↦ refl | some c ↦ refl ]

  not_below : (a b : ℕ) → b ≤ a → ltb a b ≡ false
  not_below a b h = ground arith

  is_below : (a b : ℕ) → a < b → ltb a b ≡ true
  is_below a b h = ground arith

  found_due :
      (e : Engine C F) (applied : List (LogEntry C)) (x : LogEntry C) (more : List (LogEntry C))
      → IsLog e
      → e.log ≡ applied ++ x ∷ more
      → e.last_applied ≡ e.snapshot.index + length applied
      → entry_at e (e.last_applied + 1) ≡ some x
  unfolding entry_at IsLog
  found_due e applied x more c log at =
      ap (λ i. find_entry (i + 1) e.log) at
      ∙ ap (find_entry (e.snapshot.index + length applied + 1)) log
      ∙ find_entry-at e.snapshot.index applied x more (subst (Chain e.snapshot.index) log c)

  -- The loop over the entries that are due.
  rounds_apply :
      (fuel : ℕ) (e : Engine C F) (applied due later : List (LogEntry C))
      → IsLog e
      → e.log ≡ applied ++ (due ++ later)
      → e.last_applied ≡ e.snapshot.index + length applied
      → e.commit_index ≡ e.last_applied + length due
      → length due ≤ fuel
      → apply_rounds k fuel e
        ≡ record e { last_applied = e.commit_index; fsm = apply_all (commands due) e.fsm }
  unfolding apply_rounds commands apply_all IsLog
  rounds_apply zero e applied [] later c log at commit enough =
      ap (λ i. record e { last_applied = i }) (omega (arith, commit))
  rounds_apply (suc fuel) e applied [] later c log at commit enough =
      ap (λ b. if b then apply_rounds k fuel (apply_next k e) else e)
        (not_below e.last_applied e.commit_index (omega (arith, commit)))
      ∙ ap (λ i. record e { last_applied = i }) (omega (arith, commit))
  rounds_apply zero e applied (x ∷ due) later c log at commit enough = absurd (omega arith)
  rounds_apply (suc fuel) e applied (x ∷ due) later c log at commit enough =
      let next = record e {
        last_applied = e.last_applied + 1;
        fsm = apply_all (commands (x ∷ [])) e.fsm;
      } in
      ap (λ b. if b then apply_rounds k fuel (apply_next k e) else e)
        (is_below e.last_applied e.commit_index (omega (arith, commit)))
      ∙ ap (apply_rounds k fuel)
          (apply_next-entry e x (found_due e applied x (due ++ later) c log at))
      ∙ rounds_apply fuel next (applied ++ x ∷ []) due later c
          (log ∙ sym (append_assoc applied (x ∷ []) (due ++ later)))
          (omega (arith, at, length-append applied (x ∷ []))) (omega (arith, commit))
          (omega (arith, enough))
      ∙ ap (λ f. record e { last_applied = e.commit_index; fsm = f }) (apply_all-first x due e.fsm)

  -- Where the log has no gap and is made of entries up to lastApplied, those that are due up to the
  -- commit index and later ones, applyCommittedLocked gives the state machine the commands of the
  -- entries that are due, each once and in order, raises lastApplied to the commit index and
  -- changes nothing else; and its loop ends within as many rounds as entries are due, since more
  -- fuel changes nothing.
  pub apply_committed-commands :
      (e : Engine C F) (applied due later : List (LogEntry C))
      → IsLog e
      → e.log ≡ applied ++ (due ++ later)
      → e.last_applied ≡ e.snapshot.index + length applied
      → e.commit_index ≡ e.last_applied + length due
      → (apply_committed k e
          ≡ record e { last_applied = e.commit_index; fsm = apply_all (commands due) e.fsm })
        × ((fuel : ℕ) → length due ≤ fuel → apply_rounds k fuel e ≡ apply_committed k e)
  unfolding apply_committed
  apply_committed-commands e applied due later c log at commit =
      let done =
        rounds_apply (e.commit_index - e.last_applied) e applied due later c log at commit
          (omega (arith, commit)) in
      (done, λ fuel enough. rounds_apply fuel e applied due later c log at commit enough ∙ sym done)
