-- ===== src/Raft/Follow.antt =====
-- goblob/consensus/native/engine.go: when handleAppendEntries succeeds, and what it then leaves in
-- the log of the follower.
use go_blob.Base.{
  ℕ, ◌+◌, ◌≤◌, ◌<◌, ◌≡◌, ◌⊎◌, ◌↔◌, refl, ap, ◌∙◌, true, List, [], ◌∷◌, length, u64, arith, All,
}
use go_blob.Raft.{Machine, LogEntry, Engine, persist, last_index, term_at, step_down}
use go_blob.Raft.Messages.{AppendRequest}
use go_blob.Raft.Append.{
  take_entries, follow, follow_commit, accept_entries, match_entries, handle_append_entries,
}
use go_blob.Raft.Effects.{apply_committed-SameButFsm}
use go_blob.Raft.Chain.{Chain}
use go_blob.Raft.Take.{IsLog, Took, take_entries-Took, take_entries-term}

module _ {C F : Type 0} where
  pub follow_same :
      (term leader_id : ℕ) (e : Engine C F)
      → ((follow term leader_id e).log ≡ e.log) × ((follow term leader_id e).snapshot ≡ e.snapshot)
  unfolding follow step_down persist
  follow_same term leader_id e = ground arith

  pub follow-term :
      (term leader_id : ℕ) (e : Engine C F)
      → e.current_term ≤ term
      → (follow term leader_id e).current_term ≡ term
  unfolding follow step_down persist
  follow-term term leader_id e h = ground arith

  term_at-same :
      (e e' : Engine C F) (j : ℕ)
      → e'.log ≡ e.log
      → e'.snapshot ≡ e.snapshot
      → term_at e' j ≡ term_at e j
  unfolding term_at
  term_at-same e e' j l s = rw (l, s) refl

  pub last_index-same :
      (e e' : Engine C F) → e'.log ≡ e.log → e'.snapshot ≡ e.snapshot → last_index e' ≡ last_index e
  unfolding last_index
  last_index-same e e' l s = rw (l, s) refl

  IsLog-same : (e e' : Engine C F) → e'.log ≡ e.log → e'.snapshot ≡ e.snapshot → IsLog e → IsLog e'
  unfolding IsLog
  IsLog-same e e' l s c = rw (l, s) c

  All-term :
      (e e' : Engine C F) (xs : List (LogEntry C))
      → e'.log ≡ e.log
      → e'.snapshot ≡ e.snapshot
      → All (λ x. term_at e x.index ≡ x.term) xs
      → All (λ x. term_at e' x.index ≡ x.term) xs
  All-term e e' [] l s h = h
  All-term e e' (x ∷ xs) l s h = (term_at-same e e' x.index l s ∙ h.0, All-term e e' xs l s h.1)

module _ {C F : Type 0} (k : Machine C F) where
  pub accept_same :
      (e : Engine C F) (req : AppendRequest C)
      → ((accept_entries k e req).0.log ≡ (take_entries e req.entries).log)
        × ((accept_entries k e req).0.snapshot ≡ (take_entries e req.entries).snapshot)
        × ((accept_entries k e req).0.current_term ≡ (take_entries e req.entries).current_term)
  unfolding accept_entries follow_commit persist
  accept_same e req =
      let e' = persist (follow_commit req.leader_commit (take_entries e req.entries)) in
      let s = apply_committed-SameButFsm k e' in ground (arith, s.log, s.snapshot, s.term)

  accept-Took :
      (e e' : Engine C F) (req : AppendRequest C)
      → e'.log ≡ e.log
      → e'.snapshot ≡ e.snapshot
      → IsLog e
      → e.snapshot.index ≤ req.prev_log_index
      → req.prev_log_index ≤ last_index e'
      → Chain req.prev_log_index req.entries
      → req.prev_log_index + length req.entries < u64
      → Took req.prev_log_index req.entries e (accept_entries k e' req).0
  accept-Took e e' req l s c a b ch small =
      let t =
        take_entries-Took e' req.prev_log_index req.entries (IsLog-same e e' l s c)
          (ground (arith, a, ap (λ r. r.index) s)) b ch small in
      let t0 = take_entries e' req.entries in
      let e'' = (accept_entries k e' req).0 in
      let z = accept_same e' req in
      record {
        chain = IsLog-same t0 e'' z.0 z.1 t.chain;
        snapshot = z.1 ∙ t.snapshot ∙ s;
        reach = ground (arith, t.reach, last_index-same t0 e'' z.0 z.1);
        kept = λ j le. term_at-same t0 e'' j z.0 z.1 ∙ t.kept j le ∙ term_at-same e e' j l s;
        held = All-term t0 e'' req.entries z.0 z.1 t.held;
      }

  pub match_entries_success :
      (e : Engine C F) (req : AppendRequest C)
      → ((match_entries k e req).1.success ≡ true) ↔ (
          (req.prev_log_index ≤ last_index e)
          × ((req.prev_log_index ≡ 0) ⊎ (term_at e req.prev_log_index ≡ req.prev_log_term)))
  unfolding match_entries accept_entries
  match_entries_success e req = ground arith

  pub match_entries-accepts :
      (e : Engine C F) (req : AppendRequest C)
      → (match_entries k e req).1.success ≡ true
      → match_entries k e req ≡ accept_entries k e req
  unfolding match_entries
  match_entries-accepts e req h = ground arith

  pub handle_follows :
      (e : Engine C F) (req : AppendRequest C)
      → (handle_append_entries k e req).1.success ≡ true
      → (e.current_term ≤ req.term)
        × (handle_append_entries k e req ≡ match_entries k (follow req.term req.leader_id e) req)
  unfolding handle_append_entries
  handle_follows e req h = ground arith

  -- handleAppendEntries succeeds exactly for a request whose term is not stale and whose previous
  -- entry is 0 or has, by termAtLocked, the request's term.
  pub handle_append_entries_success :
      (e : Engine C F) (req : AppendRequest C)
      → ((handle_append_entries k e req).1.success ≡ true) ↔ (
          (e.current_term ≤ req.term)
          × (req.prev_log_index ≤ last_index e)
          × ((req.prev_log_index ≡ 0) ⊎ (term_at e req.prev_log_index ≡ req.prev_log_term)))
  unfolding handle_append_entries
  handle_append_entries_success e req =
      let e' = follow req.term req.leader_id e in
      let same = follow_same req.term req.leader_id e in
      let at = term_at-same e e' req.prev_log_index same.0 same.1 in
      let last = last_index-same e e' same.0 same.1 in
      ground (arith, match_entries_success e' req, at, last)

  -- Where the log has no gap, the request's entries go on from its previous entry, which is not
  -- below the follower's snapshot, and their indices fit 64 bits, a request that succeeds puts the
  -- node in the request's term and leaves a log without a gap that holds every entry of the request
  -- with its term, and the terms that the entries up to the previous one had.
  pub handle_append_entries_holds :
      (e : Engine C F) (req : AppendRequest C)
      → IsLog e
      → e.snapshot.index ≤ req.prev_log_index
      → Chain req.prev_log_index req.entries
      → req.prev_log_index + length req.entries < u64
      → (handle_append_entries k e req).1.success ≡ true
      → Took req.prev_log_index req.entries e (handle_append_entries k e req).0
        × ((handle_append_entries k e req).0.current_term ≡ req.term)
  handle_append_entries_holds e req c a ch small h =
      let e' = follow req.term req.leader_id e in
      let f = handle_follows e req h in
      let same = follow_same req.term req.leader_id e in
      let m = match_entries_success e' req in
      rw (f.1, match_entries-accepts e' req (ground (arith, h, ap (λ r. r.1.success) f.1)))
        (
          accept-Took e e' req same.0 same.1 c a
              (m.0 (ground (arith, h, ap (λ r. r.1.success) f.1))).0 ch small,
          (accept_same e' req).2
              ∙ take_entries-term e' req.entries
              ∙ follow-term req.term req.leader_id e f.0,
        )
