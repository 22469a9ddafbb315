-- ===== src/Raft/Effects.antt =====
-- What applying, cutting and snapshotting leave alone.
use go_blob.Base.{ℕ, zero, suc, ◌-◌, ◌≡◌, arith}
use go_blob.Raft.{
  Machine, Engine, apply_next, apply_rounds, apply_committed, take_snapshot, maybe_snapshot,
}

module _ {C F : Type 0} (k : Machine C F) where
  -- Two states that differ at most in the state machine and in lastApplied.
  pub record SameButFsm (e e' : Engine C F) : Type 0 where
    pub id : e'.id ≡ e.id
    pub state : e'.state ≡ e.state
    pub term : e'.current_term ≡ e.current_term
    pub vote : e'.voted_for ≡ e.voted_for
    pub log : e'.log ≡ e.log
    pub commit : e'.commit_index ≡ e.commit_index
    pub snapshot : e'.snapshot ≡ e.snapshot
    pub stored : e'.stored ≡ e.stored

  apply_next-SameButFsm : (e : Engine C F) → SameButFsm e (apply_next k e)
  unfolding apply_next
  apply_next-SameButFsm e = ground arith

  apply_rounds-SameButFsm : (n : ℕ) (e : Engine C F) → SameButFsm e (apply_rounds k n e)
  unfolding apply_rounds
  apply_rounds-SameButFsm zero e = ground arith
  apply_rounds-SameButFsm (suc n) e =
      ground (arith, apply_next-SameButFsm e, apply_rounds-SameButFsm n (apply_next k e))

  pub apply_committed-SameButFsm : (e : Engine C F) → SameButFsm e (apply_committed k e)
  unfolding apply_committed
  apply_committed-SameButFsm e = apply_rounds-SameButFsm (e.commit_index - e.last_applied) e

  pub maybe_snapshot-commit :
      (e : Engine C F) → (maybe_snapshot k e).0.commit_index ≡ e.commit_index
  unfolding maybe_snapshot take_snapshot
  maybe_snapshot-commit e = ground arith
