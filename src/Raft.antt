-- ===== src/Raft.antt =====
-- goblob/consensus/native/engine.go: the state of a Raft node, its log, and the helpers that run
-- under its lock. Node ids are numbers, 0 for the empty string; a missing key of a Go map reads 0.
-- The replicated state machine is a parameter, and the store is the MemoryStore of store.go.
pub mod Messages
pub mod Vote
pub mod Append
pub mod Leader
pub mod Effects
pub mod Ballot
pub mod Chain
pub mod Take
pub mod Follow
pub mod Regress
pub mod Applied
pub mod Match
pub mod Commit
mod Tests
use go_blob.Base.{
  ℕ, zero, suc, ◌+◌, ◌-◌, ◌%◌, ◌/◌, Bool, true, false, ◌&&◌, ◌||◌, not, Option, none, some, List,
  [], ◌∷◌, ◌++◌, ltb, leb, ◌==◌, if◌then◌else◌, length, map, min, u64,
}

pub data State : Type 0 where
  follower candidate leader : State

-- The state machine that commands are applied to. `can_snapshot` is the type assertion to
-- SnapshotStateMachine; `none` is an error of Snapshot or Restore.
pub record Machine (C F : Type 0) : Type 0 where
  pub apply : C → F → F
  pub can_snapshot : Bool
  pub snapshot : F → Option (List ℕ)
  pub restore : List ℕ → F → Option F

-- A nil command is `none`.
pub record LogEntry (C : Type 0) : Type 0 where
  pub index : ℕ
  pub term : ℕ
  pub command : Option C

pub record SnapshotRecord : Type 0 where
  pub index : ℕ
  pub term : ℕ
  pub bytes : List ℕ

pub record PersistedState (C : Type 0) : Type 0 where
  pub current_term : ℕ
  pub voted_for : ℕ
  pub log : List (LogEntry C)
  pub commit_index : ℕ
  pub snapshot : SnapshotRecord

-- `fsm` is the state machine's state, `stored` what the store last saved, and `published` the
-- leader changes that were published, latest first.
pub record Engine (C F : Type 0) : Type 0 where
  pub id : ℕ
  pub peers : List ℕ
  pub state : State
  pub current_term : ℕ
  pub voted_for : ℕ
  pub log : List (LogEntry C)
  pub commit_index : ℕ
  pub last_applied : ℕ
  pub snapshot : SnapshotRecord
  pub leader_id : ℕ
  pub next_index : ℕ → ℕ
  pub match_index : ℕ → ℕ
  pub snapshot_threshold : ℕ
  pub closed : Bool
  pub fsm : F
  pub stored : PersistedState C
  pub published : List Bool

abbrev pub is_leader_state : State → Bool
is_leader_state leader = true
is_leader_state _ = false

abbrev pub is_follower_state : State → Bool
is_follower_state follower = true
is_follower_state _ = false

abbrev pub is_candidate_state : State → Bool
is_candidate_state candidate = true
is_candidate_state _ = false

-- m[key] = v
abbrev pub update : (ℕ → ℕ) → ℕ → ℕ → ℕ → ℕ
update f key v q = if key == q then v else f q

-- The loop of becomeLeaderLocked over one of the maps.
unfoldable pub set_all : List ℕ → ℕ → (ℕ → ℕ) → ℕ → ℕ
set_all [] v f = f
set_all (p ∷ ps) v f = set_all ps v (update f p v)

module _ {C F : Type 0} where
  -- persistLocked, with MemoryStore.save
  unfoldable pub persist : Engine C F → Engine C F
  persist e = record e {
    stored = record {
      current_term = e.current_term;
      voted_for = e.voted_for;
      log = e.log;
      commit_index = e.commit_index;
      snapshot = e.snapshot;
    };
  }

  -- quorumLocked
  unfoldable pub quorum : Engine C F → ℕ
  quorum e = length e.peers / 2 + 1

module _ {C : Type 0} where
  -- The index of the last entry of a log, or that of the snapshot.
  unfoldable pub last_index_of : ℕ → List (LogEntry C) → ℕ
  last_index_of s [] = s
  last_index_of s (x ∷ []) = x.index
  last_index_of s (x ∷ y ∷ log) = last_index_of s (y ∷ log)

  -- The loop of termAtLocked and entryAtLocked: the first entry with the index.
  unfoldable pub find_entry : ℕ → List (LogEntry C) → Option (LogEntry C)
  find_entry i [] = none
  find_entry i (x ∷ log) = if x.index == i then some x else find_entry i log

  -- The entries up to an index: the loop of truncateAfterLocked.
  unfoldable pub up_to : ℕ → List (LogEntry C) → List (LogEntry C)
  up_to i [] = []
  up_to i (x ∷ log) = let rest = up_to i log in if leb x.index i then x ∷ rest else rest

  -- The entries behind an index: the loop of compactThroughLocked.
  unfoldable pub behind : ℕ → List (LogEntry C) → List (LogEntry C)
  behind i [] = []
  behind i (x ∷ log) = let rest = behind i log in if ltb i x.index then x ∷ rest else rest

  -- The entries from an index on: the loop of entriesFromLocked.
  unfoldable pub from : ℕ → List (LogEntry C) → List (LogEntry C)
  from i [] = []
  from i (x ∷ log) = let rest = from i log in if leb i x.index then x ∷ rest else rest

module _ {C F : Type 0} where
  -- lastIndexLocked
  unfoldable pub last_index : Engine C F → ℕ
  unfolding last_index_of
  last_index e = last_index_of e.snapshot.index e.log

  -- entryAtLocked
  unfoldable pub entry_at : Engine C F → ℕ → Option (LogEntry C)
  unfolding find_entry
  entry_at e i = find_entry i e.log

  -- termAtLocked
  unfoldable pub term_at : Engine C F → ℕ → ℕ
  unfolding find_entry
  term_at e i =
      if i == 0
      then 0
      else if i == e.snapshot.index
      then e.snapshot.term
      else elim (find_entry i e.log) [ none ↦ 0 | some x ↦ x.term ]

  -- entriesFromLocked
  unfoldable pub entries_from : Engine C F → ℕ → List (LogEntry C)
  unfolding from
  entries_from e i = from (if i == 0 then 1 else i) e.log

  -- The loop of matchCountLocked.
  unfoldable pub count_matches : Engine C F → ℕ → List ℕ → ℕ
  unfolding last_index
  count_matches e i [] = 0
  count_matches e i (p ∷ ps) =
      (if p == e.id
        then (if leb i (last_index e) then 1 else 0)
        else (if leb i (e.match_index p) then 1 else 0))
      + count_matches e i ps

  -- matchCountLocked
  unfoldable pub match_count : Engine C F → ℕ → ℕ
  unfolding count_matches
  match_count e i = count_matches e i e.peers

  -- The index that truncateAfterLocked cuts at: never below the snapshot.
  abbrev pub cut_at : Engine C F → ℕ → ℕ
  cut_at e i = if ltb i e.snapshot.index then e.snapshot.index else i

  -- truncateAfterLocked
  unfoldable pub truncate_after : ℕ → Engine C F → Engine C F
  unfolding up_to
  truncate_after i e = record e {
    log = up_to (cut_at e i) e.log;
    commit_index = if ltb (cut_at e i) e.commit_index then cut_at e i else e.commit_index;
    last_applied = if ltb (cut_at e i) e.last_applied then cut_at e i else e.last_applied;
  }

  -- compactThroughLocked
  unfoldable pub compact_through : ℕ → Engine C F → Engine C F
  unfolding behind
  compact_through i e = record e { log = behind i e.log }

  -- stepDownLocked
  unfoldable pub step_down : ℕ → ℕ → Engine C F → Engine C F
  unfolding persist
  step_down term leader_id e =
      record (persist (record e {
        state = follower;
        current_term = term;
        voted_for = 0;
        leader_id = leader_id;
      })) { published = if is_leader_state e.state then false ∷ e.published else e.published }

module _ {C F : Type 0} (k : Machine C F) where
  -- One round of applyCommittedLocked.
  unfoldable pub apply_next : Engine C F → Engine C F
  unfolding entry_at
  apply_next e =
      let i = e.last_applied + 1 in
      elim (entry_at e i) [
        | none ↦ record e { last_applied = i }
        | some x ↦ elim x.command [
          | none ↦ record e { last_applied = i }
          | some c ↦ record e { last_applied = i; fsm = k.apply c e.fsm }
        ]
      ]

  -- The loop of applyCommittedLocked, for at most `fuel` rounds.
  unfoldable pub apply_rounds : ℕ → Engine C F → Engine C F
  unfolding apply_next
  apply_rounds zero e = e
  apply_rounds (suc fuel) e =
      let rest = apply_rounds fuel (apply_next e) in
      if ltb e.last_applied e.commit_index then rest else e

  -- applyCommittedLocked; each round takes lastApplied nearer to commitIndex by one.
  unfoldable pub apply_committed : Engine C F → Engine C F
  unfolding apply_rounds
  apply_committed e = apply_rounds (e.commit_index - e.last_applied) e

  -- maybeSnapshotLocked past its guards; the flag says that Snapshot failed.
  unfoldable pub take_snapshot : Engine C F → Engine C F × Bool
  unfolding compact_through persist term_at
  take_snapshot e = elim (k.snapshot e.fsm) [
    | none ↦ (e, true)
    | some bytes ↦ (
      persist (
          compact_through e.commit_index (record e {
            snapshot = record {
              index = e.commit_index;
              term = term_at e e.commit_index;
              bytes = bytes;
            };
          })),
      false,
    )
  ]

  -- maybeSnapshotLocked; the difference is in uint64.
  unfoldable pub maybe_snapshot : Engine C F → Engine C F × Bool
  unfolding take_snapshot
  maybe_snapshot e =
      if e.snapshot_threshold == 0 || e.commit_index == 0
      then (e, false)
      else if ltb ((e.commit_index + (u64 - e.snapshot.index)) % u64) e.snapshot_threshold
      then (e, false)
      else if k.can_snapshot
      then take_snapshot e
      else (e, false)

  -- becomeLeaderLocked
  unfoldable pub become_leader : Engine C F → Engine C F
  unfolding set_all last_index
  become_leader e = record e {
    state = leader;
    leader_id = e.id;
    next_index = set_all e.peers ((last_index e + 1) % u64) e.next_index;
    match_index = update (set_all e.peers 0 e.match_index) e.id (last_index e);
    published = true ∷ e.published;
  }
