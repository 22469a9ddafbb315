-- ===== src/Raft/Append.antt =====
-- goblob/consensus/native/engine.go: what a node does with the entries and snapshots of a leader.
use go_blob.Base.{
  ℕ, ◌+◌, ◌-◌, ◌%◌, Bool, true, false, ◌&&◌, ◌||◌, not, none, some, List, [], ◌∷◌, ◌++◌, ltb, leb,
  ◌==◌, if◌then◌else◌, u64,
}
use go_blob.Raft.{
  Machine, LogEntry, Engine, is_follower_state, persist, last_index, term_at, truncate_after,
  compact_through, step_down, apply_committed,
}
use go_blob.Raft.Messages.{AppendRequest, AppendResponse, SnapshotRequest, SnapshotResponse}

module _ {C F : Type 0} where
  -- One round of the loop over the entries of an append request.
  unfoldable pub take_entry : Engine C F → LogEntry C → Engine C F
  unfolding truncate_after term_at last_index
  take_entry e x =
      let cut = truncate_after ((x.index + (u64 - 1)) % u64) e in
      if leb x.index (last_index e)
      then (if term_at e x.index == x.term then e else record cut { log = cut.log ++ x ∷ [] })
      else record e { log = e.log ++ x ∷ [] }

  unfoldable pub take_entries : Engine C F → List (LogEntry C) → Engine C F
  unfolding take_entry
  take_entries e [] = e
  take_entries e (x ∷ xs) = take_entries (take_entry e x) xs

  -- The entry of a leader's term: stepDownLocked where it is needed, then leaderID.
  unfoldable pub follow : ℕ → ℕ → Engine C F → Engine C F
  unfolding step_down
  follow term leader_id e =
      if ltb e.current_term term || not (is_follower_state e.state)
      then record (step_down term leader_id e) { leader_id = leader_id }
      else record e { leader_id = leader_id }

  -- The commit index after an append request.
  unfoldable pub follow_commit : ℕ → Engine C F → Engine C F
  unfolding last_index
  follow_commit leader_commit e =
      if ltb e.commit_index leader_commit
      then record e {
        commit_index = if ltb leader_commit (last_index e) then leader_commit else last_index e;
      }
      else e

  -- The answer of handleAppendEntries.
  abbrev pub answer : Engine C F → Bool → AppendResponse
  answer e success = record { term = e.current_term; success = success; match_index = last_index e }

module _ {C F : Type 0} (k : Machine C F) where
  -- handleAppendEntries from its loop on.
  unfoldable pub accept_entries : Engine C F → AppendRequest C → Engine C F × AppendResponse
  unfolding take_entries follow_commit persist apply_committed
  accept_entries e req =
      let e' =
        apply_committed k
          (persist (follow_commit req.leader_commit (take_entries e req.entries))) in
      (e', answer e' true)

  -- handleAppendEntries behind its test for a stale term.
  unfoldable pub match_entries : Engine C F → AppendRequest C → Engine C F × AppendResponse
  unfolding accept_entries term_at last_index persist truncate_after
  match_entries e req =
      let cut = persist (truncate_after (req.prev_log_index - 1) e) in
      if ltb (last_index e) req.prev_log_index
      then (e, answer e false)
      else if ltb 0 req.prev_log_index && not (term_at e req.prev_log_index == req.prev_log_term)
      then (cut, answer cut false)
      else accept_entries e req

  -- handleAppendEntries
  unfoldable pub handle_append_entries : Engine C F → AppendRequest C → Engine C F × AppendResponse
  unfolding match_entries follow
  handle_append_entries e req =
      if ltb req.term e.current_term
      then (e, answer e false)
      else match_entries (follow req.term req.leader_id e) req

  -- What handleInstallSnapshot does when the state machine has restored the data.
  unfoldable pub adopt_snapshot : Engine C F → SnapshotRequest → F → Engine C F
  unfolding compact_through persist
  adopt_snapshot e req fsm =
      let i = req.last_included_index in
      let e' = compact_through i (record e {
        fsm = fsm;
        snapshot = record { index = i; term = req.last_included_term; bytes = req.bytes };
      }) in
      persist (record e' {
        commit_index = if ltb e.commit_index i then i else e.commit_index;
        last_applied = if ltb e.last_applied i then i else e.last_applied;
      })

  -- handleInstallSnapshot
  unfoldable pub handle_install_snapshot :
      Engine C F → SnapshotRequest → Engine C F × SnapshotResponse
  unfolding follow adopt_snapshot
  handle_install_snapshot e req =
      let e' = follow req.term req.leader_id e in
      let refused : SnapshotResponse = record { term = e'.current_term; success = false } in
      if ltb req.term e.current_term
      then (e, record { term = e.current_term; success = false })
      else if k.can_snapshot
      then elim (k.restore req.bytes e'.fsm) [
        | none ↦ (e', refused)
        | some fsm ↦ (adopt_snapshot e' req fsm, record { term = e'.current_term; success = true })
      ]
      else (e', refused)
