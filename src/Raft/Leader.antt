-- ===== src/Raft/Leader.antt =====
-- goblob/consensus/native/engine.go: replication, commitment and Apply on a leader. A method that
-- gives up the lock around a call of the transport is one step before the call and one for its
-- answer; other steps may come between them. Clocks are left out.
use go_blob.Base.{
  ℕ, zero, suc, ◌+◌, ◌-◌, ◌%◌, ◌&&◌, ◌||◌, not, Option, none, some, [], ◌∷◌, ◌++◌, ltb, leb, ◌==◌,
  if◌then◌else◌, length, u64,
}
use go_blob.Raft.{
  Machine, Engine, is_leader_state, update, persist, quorum, last_index, term_at, entries_from,
  match_count, step_down, apply_committed, maybe_snapshot,
}
use go_blob.Raft.Messages.{AppendRequest, AppendResponse, SnapshotRequest, SnapshotResponse}

module _ {C F : Type 0} (k : Machine C F) where
  -- The loop of advanceCommitLocked: `rounds` indices are left above commitIndex.
  unfoldable pub advance_rounds : ℕ → Engine C F → Engine C F
  unfolding term_at match_count quorum persist apply_committed maybe_snapshot
  advance_rounds zero e = e
  advance_rounds (suc rounds) e =
      let i = e.commit_index + suc rounds in
      let rest = advance_rounds rounds e in
      if term_at e i == e.current_term && leb (quorum e) (match_count e i)
      then (maybe_snapshot k (apply_committed k (persist (record e { commit_index = i })))).0
      else rest

  -- advanceCommitLocked
  unfoldable pub advance_commit : Engine C F → Engine C F
  unfolding advance_rounds last_index
  advance_commit e = advance_rounds (last_index e - e.commit_index) e

  -- replicateTo, the answer to an append request of term `term`.
  unfoldable pub on_append_response : Engine C F → ℕ → ℕ → AppendResponse → Engine C F
  unfolding step_down advance_commit
  on_append_response e peer term resp =
      if e.closed || (not (e.current_term == term) || not (is_leader_state e.state))
      then e
      else if ltb e.current_term resp.term
      then step_down resp.term 0 e
      else if resp.success
      then advance_commit (record e {
        match_index = update e.match_index peer resp.match_index;
        next_index = update e.next_index peer ((resp.match_index + 1) % u64);
      })
      else if ltb 1 (e.next_index peer)
      then record e { next_index = update e.next_index peer (e.next_index peer - 1) }
      else e

  -- replicateTo, the answer to a snapshot with the last index `last` of term `term`.
  unfoldable pub on_snapshot_response : Engine C F → ℕ → ℕ → ℕ → SnapshotResponse → Engine C F
  unfolding step_down
  on_snapshot_response e peer term last resp =
      if e.closed || (not (e.current_term == term) || not (is_leader_state e.state))
      then e
      else if ltb e.current_term resp.term
      then step_down resp.term 0 e
      else if resp.success
      then record e {
        match_index = update e.match_index peer last;
        next_index = update e.next_index peer ((last + 1) % u64);
      }
      else e

-- What replicateTo sends.
pub data Replication (C : Type 0) : Type 0 where
  nothing : Replication C
  send_snapshot : SnapshotRequest → Replication C
  send_entries : AppendRequest C → Replication C

module _ {C F : Type 0} where
  -- The index that replicateTo sends from.
  abbrev pub next_of : Engine C F → ℕ → ℕ
  next_of e peer = if e.next_index peer == 0 then (last_index e + 1) % u64 else e.next_index peer

  -- replicateTo up to its call of the transport.
  unfoldable pub replicate_to : Engine C F → ℕ → Replication C
  unfolding last_index term_at entries_from
  replicate_to e peer =
      let next = next_of e peer in
      let prev = (next + (u64 - 1)) % u64 in
      if e.closed || not (is_leader_state e.state)
      then nothing
      else if leb next e.snapshot.index && ltb 0 (length e.snapshot.bytes)
      then send_snapshot (record {
        term = e.current_term;
        leader_id = e.id;
        last_included_index = e.snapshot.index;
        last_included_term = e.snapshot.term;
        bytes = e.snapshot.bytes;
      })
      else send_entries (record {
        term = e.current_term;
        leader_id = e.id;
        prev_log_index = prev;
        prev_log_term = term_at e prev;
        entries = entries_from e next;
        leader_commit = e.commit_index;
      })

module _ {C F : Type 0} where
  -- Apply up to its loop: the new entry, or the early return.
  unfoldable pub begin_apply : Engine C F → C → Option (Engine C F × ℕ)
  unfolding persist last_index
  begin_apply e command =
      let i = (last_index e + 1) % u64 in
      if e.closed || not (is_leader_state e.state)
      then none
      else some (
        persist (record e {
          log = e.log ++ record { index = i; term = e.current_term; command = some command } ∷ [];
          match_index = update e.match_index e.id i;
        }),
        i,
      )

-- The outcome of one round of the loop of Apply.
pub data Round : Type 0 where
  retry done refused snapshot_error : Round

module _ {C F : Type 0} (k : Machine C F) where
  -- One round of the loop of Apply, after its replicateAll.
  unfoldable pub apply_round : Engine C F → ℕ → Engine C F × Round
  unfolding match_count quorum persist apply_committed maybe_snapshot
  apply_round e i =
      let committed = apply_committed k (persist (record e { commit_index = i })) in
      let (e', failed) = maybe_snapshot k committed in
      if e.closed || not (is_leader_state e.state)
      then (e, refused)
      else if ltb (match_count e i) (quorum e)
      then (e, retry)
      else if ltb e.commit_index i
      then (e', if failed then snapshot_error else done)
      else (e, done)
