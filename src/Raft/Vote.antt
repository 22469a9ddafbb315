-- ===== src/Raft/Vote.antt =====
-- goblob/consensus/native/engine.go: votes and elections. A method that gives up the lock around a
-- call of the transport is one step before the call and one for its answer; other steps may come
-- between them. Clocks are left out.
use go_blob.Base.{
  ℕ, ◌+◌, ◌%◌, Bool, true, false, ◌&&◌, ◌||◌, not, Option, none, some, List, [], ◌∷◌, ltb, leb,
  ◌==◌, if◌then◌else◌, u64,
}
use go_blob.Raft.{
  candidate, Machine, Engine, is_leader_state, is_candidate_state, persist, quorum, last_index,
  term_at, step_down, become_leader,
}
use go_blob.Raft.Messages.{VoteRequest, VoteResponse}

module _ {C F : Type 0} where
  -- The comparison of logs in handleRequestVote.
  unfoldable pub up_to_date : Engine C F → VoteRequest → Bool
  up_to_date e req =
      let last_term = term_at e (last_index e) in
      ltb last_term req.last_log_term
      || (req.last_log_term == last_term && leb (last_index e) req.last_log_index)

  -- handleRequestVote behind its test for a stale term.
  unfoldable pub decide_vote : Engine C F → VoteRequest → Engine C F × VoteResponse
  unfolding up_to_date persist
  decide_vote e req =
      if (e.voted_for == 0 || e.voted_for == req.candidate_id) && up_to_date e req
      then (
        persist (record e { voted_for = req.candidate_id }),
        record { term = e.current_term; vote_granted = true },
      )
      else (e, record { term = e.current_term; vote_granted = false })

  -- handleRequestVote
  unfoldable pub handle_request_vote : Engine C F → VoteRequest → Engine C F × VoteResponse
  unfolding decide_vote step_down
  handle_request_vote e req =
      if ltb req.term e.current_term
      then (e, record { term = e.current_term; vote_granted = false })
      else decide_vote (if ltb e.current_term req.term then step_down req.term 0 e else e) req

module _ {C F : Type 0} where
  -- startElection up to its first call of the transport; `none` is the early return.
  unfoldable pub begin_election : Engine C F → Option (Engine C F × VoteRequest)
  unfolding persist last_index term_at
  begin_election e =
      let term = (e.current_term + 1) % u64 in
      if e.closed || is_leader_state e.state
      then none
      else some (
        persist
            (record e { state = candidate; current_term = term; voted_for = e.id; leader_id = 0 }),
        record {
          term = term;
          candidate_id = e.id;
          last_log_index = last_index e;
          last_log_term = term_at e (last_index e);
        },
      )

-- The answers to the vote requests of an election in `term`, up to the first newer term. A peer
-- that gives no answer is `none`. The result is the votes, or the newer term.
unfoldable pub count_votes : ℕ → ℕ → List (Option VoteResponse) → Option ℕ × ℕ
count_votes term votes [] = (none, votes)
count_votes term votes (none ∷ rs) = count_votes term votes rs
count_votes term votes (some r ∷ rs) =
    let more = count_votes term (if r.vote_granted then votes + 1 else votes) rs in
    if ltb term r.term then (some r.term, votes) else more

module _ {C F : Type 0} (k : Machine C F) where
  -- The end of startElection, on the state that other steps may have left.
  unfoldable pub finish_election : Engine C F → ℕ → List (Option VoteResponse) → Engine C F
  unfolding count_votes step_down quorum become_leader
  finish_election e term answers =
      let (newer, votes) = count_votes term 1 answers in
      elim newer [
        | some t ↦ step_down t 0 e
        | none ↦
            if e.closed || (not (is_candidate_state e.state) || not (e.current_term == term))
            then e
            else if leb (quorum e) votes
            then become_leader k e
            else e
      ]
