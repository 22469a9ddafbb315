-- ===== src/Raft/Ballot.antt =====
-- Votes: what a grant means, one vote a term, and what an election needs.
use go_blob.Base.{
  ℕ, ◌+◌, ◌≤◌, ◌<◌, ◌≡◌, ◌≢◌, ◌⊎◌, inl, inr, refl, sym, true, false, Option, none, some, List, [],
  ◌∷◌, if◌then◌else◌, arith,
}
use go_blob.Raft.{
  candidate, Machine, Engine, is_leader_state, persist, quorum, last_index, term_at, step_down,
  become_leader,
}
use go_blob.Raft.Messages.{VoteRequest, VoteResponse}
use go_blob.Raft.Vote.{up_to_date, decide_vote, handle_request_vote, count_votes, finish_election}

module _ {C F : Type 0} where
  up_to_date-step_down :
      (e : Engine C F) (term : ℕ) (req : VoteRequest)
      → up_to_date (step_down term 0 e) req ≡ up_to_date e req
  unfolding up_to_date step_down last_index term_at
  up_to_date-step_down e term req = refl

  -- handleRequestVote never lowers the term and never touches the log. When it grants the vote, the
  -- candidate's log is up to date against its own, the vote is for the candidate in the request's
  -- term, and both are saved in the store before the answer.
  pub handle_request_vote_grants :
      (e : Engine C F) (req : VoteRequest)
      → (e.current_term ≤ (handle_request_vote e req).0.current_term)
        × ((handle_request_vote e req).0.log ≡ e.log)
        × ((handle_request_vote e req).1.vote_granted ≡ true
            → (up_to_date e req ≡ true)
              × ((handle_request_vote e req).0.voted_for ≡ req.candidate_id)
              × ((handle_request_vote e req).0.current_term ≡ req.term)
              × ((handle_request_vote e req).0.stored.voted_for ≡ req.candidate_id)
              × ((handle_request_vote e req).0.stored.current_term ≡ req.term))
  unfolding handle_request_vote decide_vote step_down persist
  handle_request_vote_grants e req = ground (arith, up_to_date-step_down e req.term req)

  -- A state that has voted for `c` in the term `t`, or has gone on to a newer term.
  abbrev Bound : ℕ → ℕ → Engine C F → Type 0
  Bound t c e = (t < e.current_term) ⊎ ((e.current_term ≡ t) × (e.voted_for ≡ c))

  handle-Bound :
      (t c : ℕ) (e : Engine C F) (req : VoteRequest)
      → c ≢ 0
      → Bound t c e
      → Bound t c (handle_request_vote e req).0
  unfolding handle_request_vote decide_vote step_down persist
  handle-Bound t c e req nz b = ground arith

  -- The state after a list of vote requests.
  unfoldable pub after_votes : Engine C F → List VoteRequest → Engine C F
  after_votes e [] = e
  after_votes e (r ∷ rs) = after_votes (handle_request_vote e r).0 rs

  after_votes-Bound :
      (t c : ℕ) (e : Engine C F) (rs : List VoteRequest)
      → c ≢ 0
      → Bound t c e
      → Bound t c (after_votes e rs)
  unfolding after_votes
  after_votes-Bound t c e [] nz b = b
  after_votes-Bound t c e (r ∷ rs) nz b =
      after_votes-Bound t c (handle_request_vote e r).0 rs nz (handle-Bound t c e r nz b)

  Bound-vote :
      (t c : ℕ) (e : Engine C F) (req : VoteRequest)
      → c ≢ 0
      → Bound t c e
      → req.term ≡ t
      → (handle_request_vote e req).1.vote_granted ≡ true
      → req.candidate_id ≡ c
  unfolding handle_request_vote decide_vote
  Bound-vote t c e req nz (inl newer) same granted = ground arith
  Bound-vote t c e req nz (inr (at, voted)) same granted = ground arith

  -- While a node only handles vote requests, it votes once a term: of two requests of one term that
  -- it grants, whatever requests come between them, both name the same candidate. Candidates have
  -- ids that are not empty.
  pub one_vote_a_term :
      (e : Engine C F) (r s : VoteRequest) (between : List VoteRequest)
      → r.candidate_id ≢ 0
      → r.term ≡ s.term
      → (handle_request_vote e r).1.vote_granted ≡ true
      → (handle_request_vote (after_votes (handle_request_vote e r).0 between) s).1.vote_granted
        ≡ true
      → s.candidate_id ≡ r.candidate_id
  one_vote_a_term e r s between nz same first second =
      let g = (handle_request_vote_grants e r).2 first in
      Bound-vote r.term r.candidate_id (after_votes (handle_request_vote e r).0 between) s nz
        (after_votes-Bound r.term r.candidate_id (handle_request_vote e r).0 between nz
          (inr (g.2, g.1)))
        (sym same) second

-- The number of granted answers.
unfoldable pub granted : List (Option VoteResponse) → ℕ
granted [] = 0
granted (none ∷ rs) = granted rs
granted (some r ∷ rs) = (if r.vote_granted then 1 else 0) + granted rs

count_votes-granted :
    (term votes : ℕ) (rs : List (Option VoteResponse))
    → (count_votes term votes rs).1 ≤ votes + granted rs
unfolding count_votes granted
count_votes-granted term votes [] = omega arith
count_votes-granted term votes (none ∷ rs) = count_votes-granted term votes rs
count_votes-granted term votes (some r ∷ rs) =
    ground (arith, count_votes-granted term (if r.vote_granted then votes + 1 else votes) rs)

module _ {C F : Type 0} (k : Machine C F) where
  -- A node that is no leader is leader after an election only if it was still a candidate in the
  -- term of the election, and its own vote and the granted answers make a quorum of its peers.
  pub finish_election_leads :
      (e : Engine C F) (term : ℕ) (answers : List (Option VoteResponse))
      → is_leader_state e.state ≡ false
      → is_leader_state (finish_election k e term answers).state ≡ true
      → (e.state ≡ candidate) × (e.current_term ≡ term) × (quorum e ≤ 1 + granted answers)
  unfolding finish_election step_down persist become_leader
  finish_election_leads e term answers old new = ground (arith, count_votes-granted term 1 answers)
