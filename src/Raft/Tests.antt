-- ===== src/Raft/Tests.antt =====
-- goblob/consensus/native/engine.go: a node of a cluster of three at concrete values.
use go_blob.Base.{
  ℕ, ◌+◌, ◌≤◌, ◌<◌, ◌≡◌, ◌⊎◌, ◌↔◌, inr, refl, Bool, true, false, Option, none, some, [], ◌∷◌, arith,
  ◌==◌, if◌then◌else◌,
}
use go_blob.Raft.{
  follower, candidate, leader, Machine, LogEntry, SnapshotRecord, Engine, is_leader_state, quorum,
  last_index, term_at, match_count, apply_committed, apply_rounds, count_matches, last_index_of,
  find_entry, step_down, persist, become_leader,
}
use go_blob.Raft.Messages.{VoteRequest, VoteResponse, AppendRequest}
use go_blob.Raft.Vote.{up_to_date, decide_vote, handle_request_vote, count_votes, finish_election}
use go_blob.Raft.Append.{
  handle_append_entries, take_entries, follow, match_entries, accept_entries, follow_commit,
}
use go_blob.Raft.Leader.{advance_commit, advance_rounds, apply_round}
use go_blob.Raft.Applied.{commands, apply_all, apply_committed-commands}
use go_blob.Raft.Match.{IsTaken, handle_append_entries-IsTaken}
use go_blob.Raft.Ballot.{
  after_votes, granted, handle_request_vote_grants, one_vote_a_term, finish_election_leads,
}
use go_blob.Raft.Chain.{Chain}
use go_blob.Raft.Take.{IsLog, Took}
use go_blob.Raft.Follow.{handle_append_entries_success, handle_append_entries_holds}
use go_blob.Raft.Commit.{Eligible, advance_commit_max, apply_round-old_term}
use go_blob.Raft.Regress.{
  second_vote, heartbeat_overclaims, stale_request_cuts, late_answer_regress,
}

-- Commands are numbers, and the state is their sum.
abbrev adder : Machine ℕ ℕ
adder = record {
  apply = λ c f. c + f;
  can_snapshot = true;
  snapshot = λ f. some (f ∷ []);
  restore = λ bytes f. some 0;
}

abbrev entry : ℕ → ℕ → LogEntry ℕ
entry i t = record { index = i; term = t; command = some 5 }

abbrev no_snapshot : SnapshotRecord
no_snapshot = record { index = 0; term = 0; bytes = [] }

-- A follower in term 2 with two entries, the first one committed.
abbrev node : Engine ℕ ℕ
node = record {
  id = 1;
  peers = 1 ∷ 2 ∷ 3 ∷ [];
  state = follower;
  current_term = 2;
  voted_for = 0;
  log = entry 1 1 ∷ entry 2 2 ∷ [];
  commit_index = 1;
  last_applied = 1;
  snapshot = no_snapshot;
  leader_id = 0;
  next_index = λ _. 0;
  match_index = λ _. 0;
  snapshot_threshold = 0;
  closed = false;
  fsm = 5;
  stored = record {
    current_term = 2;
    voted_for = 0;
    log = [];
    commit_index = 0;
    snapshot = no_snapshot;
  };
  published = [];
}

abbrev vote_of : ℕ → ℕ → VoteRequest
vote_of term id = record { term = term; candidate_id = id; last_log_index = 2; last_log_term = 2 }

handle_request_vote_grants_example :
    (2 ≤ (handle_request_vote node (vote_of 3 2)).0.current_term)
    × ((handle_request_vote node (vote_of 3 2)).0.log ≡ node.log)
    × ((handle_request_vote node (vote_of 3 2)).1.vote_granted ≡ true
        → (up_to_date node (vote_of 3 2) ≡ true)
          × ((handle_request_vote node (vote_of 3 2)).0.voted_for ≡ 2)
          × ((handle_request_vote node (vote_of 3 2)).0.current_term ≡ 3)
          × ((handle_request_vote node (vote_of 3 2)).0.stored.voted_for ≡ 2)
          × ((handle_request_vote node (vote_of 3 2)).0.stored.current_term ≡ 3))
handle_request_vote_grants_example = handle_request_vote_grants node (vote_of 3 2)

abbrev after_first : Engine ℕ ℕ
after_first = (handle_request_vote node (vote_of 3 2)).0

first_granted : (handle_request_vote node (vote_of 3 2)).1.vote_granted ≡ true
unfolding handle_request_vote decide_vote step_down up_to_date last_index term_at
first_granted = refl

again_granted :
    (handle_request_vote (after_votes after_first (vote_of 3 3 ∷ [])) (vote_of 3 2)).1.vote_granted
    ≡ true
unfolding after_votes handle_request_vote decide_vote step_down up_to_date last_index term_at
    persist
again_granted = refl

one_vote_a_term_example : (vote_of 3 2).candidate_id ≡ (vote_of 3 2).candidate_id
one_vote_a_term_example =
    one_vote_a_term node (vote_of 3 2) (vote_of 3 2) (vote_of 3 3 ∷ []) (omega arith) refl
      first_granted again_granted

abbrev vote_answer : ℕ → Bool → Option VoteResponse
vote_answer term given = some (record { term = term; vote_granted = given })

abbrev running : Engine ℕ ℕ
running = record node { state = candidate; current_term = 3; voted_for = 1 }

elected :
    is_leader_state (finish_election adder running 3 (none ∷ vote_answer 3 true ∷ [])).state ≡ true
unfolding finish_election count_votes quorum become_leader
elected = refl

finish_election_leads_example :
    (running.state ≡ candidate)
    × (running.current_term ≡ 3)
    × (quorum running ≤ 1 + granted (none ∷ vote_answer 3 true ∷ []))
finish_election_leads_example =
    finish_election_leads adder running 3 (none ∷ vote_answer 3 true ∷ []) refl elected

-- A leader of term 2 whose second entry is on a second node.
abbrev leading : Engine ℕ ℕ
leading = record node { state = leader; match_index = λ p. if p == 2 then 2 else 0 }

advance_commit_max_example :
    ((advance_commit adder leading ≡ leading)
      ⊎ Eligible leading (advance_commit adder leading).commit_index)
    × ((i : ℕ) → Eligible leading i → i ≤ (advance_commit adder leading).commit_index)
advance_commit_max_example = advance_commit_max adder leading

-- The same node in term 3, with no entry of that term.
abbrev elected_later : Engine ℕ ℕ
elected_later = record leading { current_term = 3 }

old_terms : (j : ℕ) → 1 < j → j ≤ last_index elected_later → term_at elected_later j < 3
unfolding last_index last_index_of term_at find_entry
old_terms j above in_log = ground (arith, above, in_log)

apply_round-old_term_example :
    (advance_commit adder elected_later ≡ elected_later)
    × (term_at elected_later 2 < 3)
    × ((apply_round adder elected_later 2).0.commit_index ≡ 2)
unfolding match_count count_matches last_index last_index_of quorum
apply_round-old_term_example =
    apply_round-old_term adder elected_later 2 old_terms refl refl (omega arith) (omega arith)
      (omega arith)

leading_commits : (advance_commit adder leading).commit_index ≡ 2
unfolding advance_commit advance_rounds last_index term_at match_count quorum persist
    apply_committed
leading_commits = refl

abbrev one_entry : AppendRequest ℕ
one_entry = record {
  term = 3;
  leader_id = 2;
  prev_log_index = 1;
  prev_log_term = 1;
  entries = entry 2 3 ∷ entry 3 3 ∷ [];
  leader_commit = 2;
}

node-last : last_index node ≡ 2
unfolding last_index
node-last = refl

node-term : term_at node 1 ≡ 1
unfolding term_at
node-term = refl

one_entry_taken : (handle_append_entries adder node one_entry).1.success ≡ true
one_entry_taken =
    (handle_append_entries_success adder node one_entry).1
      (omega arith, omega (arith, node-last), inr node-term)

node-IsLog : IsLog node
unfolding IsLog Chain
node-IsLog = (refl, (refl, refl))

handle_append_entries-IsTaken_example :
    ((handle_append_entries adder node one_entry).1.success ≡ true) ↔ ((2 ≤ 3) × IsTaken node 1 1)
handle_append_entries-IsTaken_example =
    handle_append_entries-IsTaken adder node one_entry node-IsLog

one_entry-Chain : Chain 1 (entry 2 3 ∷ entry 3 3 ∷ [])
unfolding Chain
one_entry-Chain = (refl, (refl, refl))

handle_append_entries_holds_example :
    Took 1 (entry 2 3 ∷ entry 3 3 ∷ []) node (handle_append_entries adder node one_entry).0
    × ((handle_append_entries adder node one_entry).0.current_term ≡ 3)
handle_append_entries_holds_example =
    handle_append_entries_holds adder node one_entry node-IsLog (omega arith) one_entry-Chain
      (omega arith) one_entry_taken

-- A candidate that voted for itself in term 3 hears from the leader 2 of term 3, then from 3.
abbrev heartbeat : AppendRequest ℕ
heartbeat = record one_entry { entries = []; leader_commit = 0 }

fresh_log : up_to_date (handle_append_entries adder running heartbeat).0 (vote_of 3 3) ≡ true
unfolding up_to_date handle_append_entries follow match_entries accept_entries take_entries
fresh_log = refl

second_vote_example :
    (handle_request_vote
      (handle_append_entries adder running heartbeat).0
      (vote_of 3 3)).1.vote_granted
    ≡ true
second_vote_example = second_vote adder running heartbeat (vote_of 3 3) refl refl refl fresh_log

heartbeat_taken : (handle_append_entries adder node heartbeat).1.success ≡ true
heartbeat_taken =
    (handle_append_entries_success adder node heartbeat).1
      (omega arith, omega (arith, node-last), inr node-term)

heartbeat_overclaims_example :
    (handle_append_entries adder node heartbeat).1.match_index ≡ last_index node
heartbeat_overclaims_example = heartbeat_overclaims adder node heartbeat refl heartbeat_taken

-- A follower with a snapshot at 4 and two entries behind it, all of them applied.
abbrev compacted : Engine ℕ ℕ
compacted = record node {
  log = entry 5 2 ∷ entry 6 2 ∷ [];
  commit_index = 6;
  last_applied = 6;
  snapshot = record { index = 4; term = 2; bytes = 5 ∷ [] };
}

compacted-IsLog : IsLog compacted
unfolding IsLog Chain
compacted-IsLog = (refl, (refl, refl))

abbrev late_request : AppendRequest ℕ
late_request = record heartbeat { term = 2; prev_log_index = 3; prev_log_term = 2 }

stale_request_cuts_example :
    ((handle_append_entries adder compacted late_request).0.log ≡ [])
    × ((handle_append_entries adder compacted late_request).0.commit_index ≤ 4)
    × ((handle_append_entries adder compacted late_request).0.last_applied ≤ 4)
    × ((handle_append_entries adder compacted late_request).1.success ≡ false)
stale_request_cuts_example =
    stale_request_cuts adder compacted late_request compacted-IsLog refl refl (omega arith)
      (omega arith) (omega arith)

apply_committed-commands_example :
    (apply_committed adder (record node { commit_index = 2 }) ≡ record node {
      commit_index = 2;
      last_applied = 2;
      fsm = apply_all adder (commands (entry 2 2 ∷ [])) 5;
    })
    × ((fuel : ℕ)
        → 1 ≤ fuel
        → apply_rounds adder fuel (record node { commit_index = 2 })
          ≡ apply_committed adder (record node { commit_index = 2 }))
unfolding IsLog
apply_committed-commands_example =
    apply_committed-commands adder (record node { commit_index = 2 }) (entry 1 1 ∷ [])
      (entry 2 2 ∷ []) [] node-IsLog refl refl refl

-- The candidate of term 3 follows the leader of term 9, and then hears of term 5.
abbrev leader_of_9 : AppendRequest ℕ
leader_of_9 = record heartbeat { term = 9 }

abbrev fallen : Engine ℕ ℕ
fallen =
    finish_election adder (handle_append_entries adder running leader_of_9).0 3
      (vote_answer 5 false ∷ [])

fallen_fresh : up_to_date fallen (vote_of 5 3) ≡ true
unfolding finish_election count_votes up_to_date handle_append_entries follow match_entries
    accept_entries take_entries follow_commit apply_committed apply_rounds step_down persist
    last_index last_index_of term_at find_entry
fallen_fresh = refl

late_answer_regress_example :
    ((handle_append_entries adder running leader_of_9).0.current_term ≡ 9)
    × (fallen.current_term < (handle_append_entries adder running leader_of_9).0.current_term)
    × ((handle_request_vote fallen (vote_of 5 3)).1.vote_granted ≡ true)
late_answer_regress_example =
    late_answer_regress adder running 3 leader_of_9 (record { term = 5; vote_granted = false }) []
      (vote_of 5 3) (omega arith) (omega arith) (omega arith) refl fallen_fresh
