-- ===== src/Raft/Messages.antt =====
-- goblob/consensus/native/network.go: the requests and responses between the nodes.
use go_blob.Base.{ℕ, Bool, List}
use go_blob.Raft.{LogEntry}

pub record VoteRequest : Type 0 where
  pub term : ℕ
  pub candidate_id : ℕ
  pub last_log_index : ℕ
  pub last_log_term : ℕ

pub record VoteResponse : Type 0 where
  pub term : ℕ
  pub vote_granted : Bool

pub record AppendRequest (C : Type 0) : Type 0 where
  pub term : ℕ
  pub leader_id : ℕ
  pub prev_log_index : ℕ
  pub prev_log_term : ℕ
  pub entries : List (LogEntry C)
  pub leader_commit : ℕ

pub record AppendResponse : Type 0 where
  pub term : ℕ
  pub success : Bool
  pub match_index : ℕ

pub record SnapshotRequest : Type 0 where
  pub term : ℕ
  pub leader_id : ℕ
  pub last_included_index : ℕ
  pub last_included_term : ℕ
  pub bytes : List ℕ

pub record SnapshotResponse : Type 0 where
  pub term : ℕ
  pub success : Bool
