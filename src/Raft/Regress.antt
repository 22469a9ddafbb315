-- ===== src/Raft/Regress.antt =====
-- goblob/consensus/native/engine.go: steps of a node that take back what it promised before.
use go_blob.Base.{
  ℕ, ◌-◌, ◌≤◌, ◌<◌, ◌≡◌, refl, ap, ◌∙◌, sym, subst, true, false, Option, some, List, [], ◌∷◌, arith,
}
use go_blob.Raft.{
  follower, Machine, Engine, is_follower_state, persist, last_index, cut_at, truncate_after,
  step_down,
}
use go_blob.Raft.Messages.{VoteRequest, VoteResponse, AppendRequest}
use go_blob.Raft.Vote.{up_to_date, decide_vote, handle_request_vote, count_votes, finish_election}
use go_blob.Raft.Append.{
  take_entries, follow, follow_commit, accept_entries, match_entries, handle_append_entries,
}
use go_blob.Raft.Effects.{apply_committed-SameButFsm}
use go_blob.Raft.Chain.{up_to-none}
use go_blob.Raft.Take.{IsLog, take_entries-vote, take_entries-term, IsLog-last}
use go_blob.Raft.Match.{stale_term}
use go_blob.Raft.Follow.{
  follow-term, handle_follows, match_entries-accepts, accept_same, follow_same, last_index-same,
}

module _ {C F : Type 0} (k : Machine C F) where
  accept-vote :
      (e : Engine C F) (req : AppendRequest C)
      → ((accept_entries k e req).0.voted_for ≡ e.voted_for)
        × ((accept_entries k e req).0.current_term ≡ e.current_term)
  unfolding accept_entries follow_commit persist
  accept-vote e req =
      let s =
        apply_committed-SameButFsm k
          (persist (follow_commit req.leader_commit (take_entries e req.entries))) in
      let t = take_entries-vote e req.entries in
      ground (arith, s.vote, s.term, t, take_entries-term e req.entries)

  match-vote :
      (e : Engine C F) (req : AppendRequest C)
      → ((match_entries k e req).0.voted_for ≡ e.voted_for)
        × ((match_entries k e req).0.current_term ≡ e.current_term)
  unfolding match_entries persist truncate_after
  match-vote e req = ground (arith, accept-vote e req)

  -- A node that is no follower and hears from the leader of its own term forgets the vote that it
  -- gave in that term: it grants the next request of the term from any candidate with an up-to-date
  -- log.
  pub second_vote :
      (e : Engine C F) (req : AppendRequest C) (r : VoteRequest)
      → is_follower_state e.state ≡ false
      → req.term ≡ e.current_term
      → r.term ≡ e.current_term
      → up_to_date (handle_append_entries k e req).0 r ≡ true
      → (handle_request_vote (handle_append_entries k e req).0 r).1.vote_granted ≡ true
  unfolding handle_append_entries follow step_down persist handle_request_vote decide_vote
  second_vote e req r role same same' fresh =
      ground (arith, match-vote (follow req.term req.leader_id e) req)

  answered :
      (e : Engine C F) (req : AppendRequest C)
      → (accept_entries k e req).1.match_index ≡ last_index (accept_entries k e req).0
  unfolding accept_entries
  answered e req = refl

  take_none : (e : Engine C F) → last_index (take_entries e []) ≡ last_index e
  unfolding take_entries
  take_none e = refl

  accept_empty :
      (e : Engine C F) (req : AppendRequest C)
      → req.entries ≡ []
      → (accept_entries k e req).1.match_index ≡ last_index e
  accept_empty e req none_sent =
      let z = accept_same k e req in
      answered e req
      ∙ last_index-same (take_entries e req.entries) (accept_entries k e req).0 z.0 z.1
      ∙ subst (λ xs. last_index (take_entries e xs) ≡ last_index e) (sym none_sent) (take_none e)

  -- A heartbeat that succeeds answers with the last index of the follower's log, also where that is
  -- above the previous entry, which is all that the request compared.
  pub heartbeat_overclaims :
      (e : Engine C F) (req : AppendRequest C)
      → req.entries ≡ []
      → (handle_append_entries k e req).1.success ≡ true
      → (handle_append_entries k e req).1.match_index ≡ last_index e
  heartbeat_overclaims e req none_sent h =
      let e' = follow req.term req.leader_id e in
      let f = handle_follows k e req h in
      let m = match_entries-accepts k e' req (ground (arith, h, ap (λ r. r.1.success) f.1)) in
      let same = follow_same req.term req.leader_id e in
      rw (f.1, m) (accept_empty e' req none_sent ∙ last_index-same e e' same.0 same.1)

  cut_below :
      (e : Engine C F) (i : ℕ)
      → IsLog e
      → i < e.snapshot.index
      → ((truncate_after i e).log ≡ [])
        × ((truncate_after i e).commit_index ≤ e.snapshot.index)
        × ((truncate_after i e).last_applied ≤ e.snapshot.index)
  unfolding IsLog truncate_after
  cut_below e i c h =
      ground (arith, up_to-none e.snapshot.index (cut_at e i) e.log c (ground arith))

  match_stale :
      (e : Engine C F) (req : AppendRequest C)
      → IsLog e
      → 0 < req.prev_log_index
      → req.prev_log_index < e.snapshot.index
      → 0 < req.prev_log_term
      → ((match_entries k e req).0 ≡ persist (truncate_after (req.prev_log_index - 1) e))
        × ((match_entries k e req).1.success ≡ false)
  unfolding match_entries
  match_stale e req c a b p = ground (arith, stale_term e req.prev_log_index c b, IsLog-last e c)

  follow_quiet :
      (e : Engine C F) (req : AppendRequest C)
      → e.state ≡ follower
      → req.term ≡ e.current_term
      → handle_append_entries k e req ≡ match_entries k (record e { leader_id = req.leader_id }) req
  unfolding handle_append_entries follow
  follow_quiet e req f t = ground arith

  -- To a follower whose log has no gap, a request of its own term with a previous entry above 0, of
  -- a term above 0 and below the follower's snapshot, is refused, and the follower's log behind the
  -- snapshot is cut off, entries that it had committed and applied included: its commit index and
  -- lastApplied are at most the snapshot's index then.
  pub stale_request_cuts :
      (e : Engine C F) (req : AppendRequest C)
      → IsLog e
      → e.state ≡ follower
      → req.term ≡ e.current_term
      → 0 < req.prev_log_index
      → req.prev_log_index < e.snapshot.index
      → 0 < req.prev_log_term
      → ((handle_append_entries k e req).0.log ≡ [])
        × ((handle_append_entries k e req).0.commit_index ≤ e.snapshot.index)
        × ((handle_append_entries k e req).0.last_applied ≤ e.snapshot.index)
        × ((handle_append_entries k e req).1.success ≡ false)
  unfolding IsLog persist
  stale_request_cuts e req c f t a b p =
      let e' = record e { leader_id = req.leader_id } in
      let m = match_stale e' req c a b p in
      let cut = cut_below e' (req.prev_log_index - 1) c (omega arith) in
      rw (follow_quiet e req f t, m.0) (cut.0, cut.1, cut.2, m.1)

  led_term :
      (e : Engine C F) (req : AppendRequest C)
      → e.current_term ≤ req.term
      → (handle_append_entries k e req).0.current_term ≡ req.term
  unfolding handle_append_entries
  led_term e req known =
      let e' = follow req.term req.leader_id e in
      ground (arith, (match-vote e' req).1, follow-term req.term req.leader_id e known)

  falls_back :
      (e : Engine C F) (term : ℕ) (r : VoteResponse) (rest : List (Option VoteResponse))
      → term < r.term
      → finish_election k e term (some r ∷ rest) ≡ step_down r.term 0 e
  unfolding finish_election count_votes
  falls_back e term r rest newer = ground (arith, newer)

  stepped_down :
      (e : Engine C F) (term : ℕ)
      → ((step_down term 0 e).current_term ≡ term) × ((step_down term 0 e).voted_for ≡ 0)
  unfolding step_down persist
  stepped_down e term = (refl, refl)

  unvoted_grants :
      (e : Engine C F) (v : VoteRequest)
      → v.term ≡ e.current_term
      → e.voted_for ≡ 0
      → up_to_date e v ≡ true
      → (handle_request_vote e v).1.vote_granted ≡ true
  unfolding handle_request_vote decide_vote
  unvoted_grants e v same free fresh = ground arith

  -- A node whose election is still collecting answers hears from the leader of a newer term and
  -- follows it. If the election's next answer is then of a term between the two, the node falls
  -- back to that term and forgets its vote: it grants a vote of that older term to any candidate
  -- with an up-to-date log.
  pub late_answer_regress :
      (e : Engine C F) (term : ℕ) (req : AppendRequest C) (r : VoteResponse)
      (rest : List (Option VoteResponse)) (v : VoteRequest)
      → e.current_term ≤ req.term
      → term < r.term
      → r.term < req.term
      → v.term ≡ r.term
      → let led = (handle_append_entries k e req).0 in
        let back = finish_election k led term (some r ∷ rest) in
        up_to_date back v ≡ true
        → (led.current_term ≡ req.term)
          × (back.current_term < led.current_term)
          × ((handle_request_vote back v).1.vote_granted ≡ true)
  late_answer_regress e term req r rest v known newer older same fresh =
      let led = (handle_append_entries k e req).0 in
      let back = finish_election k led term (some r ∷ rest) in
      let fell = falls_back led term r rest newer in
      let down = stepped_down led r.term in
      let low : back.current_term ≡ r.term = ap (λ x. x.current_term) fell ∙ down.0 in
      let free : back.voted_for ≡ 0 = ap (λ x. x.voted_for) fell ∙ down.1 in
      let at = led_term e req known in
      (at, omega (arith, low, older, at), unvoted_grants back v (same ∙ sym low) free fresh)
