-- ===== src/Sequence/Tests.antt =====
-- goblob/sequence: tests of the model, and the theorems at concrete inputs.
use go_blob.Base.{ℕ, ◌+◌, ◌<◌, ◌≡◌, refl, true, false, none, some, List, [], ◌∷◌, arith, inl, inr}
use go_blob.Sequence.{
  FileSequencer, Call, next_call, set_max_call, close_call, crash_call, Batch, run, RaftSequencer,
  raft_next_file_id, SnowflakeSequencer, snowflake_next, snowflake_get_max, new_file_sequencer,
  load_max_file_id, next_file_id, save_max_file_id, serve,
}
use go_blob.Sequence.Issue.{Ascending, new_file_sequencer-Ascending}
use go_blob.Sequence.Replicated.{IsSynced, raft_next_file_id-late, raft_next_file_id-early}
use go_blob.Sequence.Clock.{IsSnowflake, snowflake_next-above, snowflake_next-backward}

abbrev fresh : FileSequencer
fresh = record { step = 10; current = 0; saved = 0; file = none }

abbrev some_calls : List Call
some_calls =
    next_call true 15
    ∷ crash_call 10
    ∷ set_max_call true 90
    ∷ next_call true 0
    ∷ close_call false 10
    ∷ next_call true 2
    ∷ []

fresh_opened : new_file_sequencer 10 none ≡ some fresh
unfolding new_file_sequencer load_max_file_id
fresh_opened = refl

no_file : load_max_file_id none ≡ some 0
unfolding load_max_file_id
no_file = refl

new_file_sequencer-Ascending_example :
    (bs : List Batch) × (run some_calls fresh ≡ some bs) × Ascending 0 bs
new_file_sequencer-Ascending_example =
    new_file_sequencer-Ascending 10 0 none fresh some_calls no_file fresh_opened
      (refl, (tt, (refl, (refl, (tt, (refl, tt))))))
      (omega arith, (omega arith, (omega arith, (omega arith, (omega arith, (omega arith, tt))))))

-- Where a save fails, a crash makes the sequencer hand out the same id again.
unsaved_repeats :
    run (next_call false 1 ∷ crash_call 10 ∷ next_call true 1 ∷ []) fresh
    ≡ some ((1, 1) ∷ (1, 1) ∷ [])
unfolding run serve next_file_id save_max_file_id new_file_sequencer load_max_file_id
unsaved_repeats = refl

abbrev synced : RaftSequencer
synced = record { wrapped = record fresh { current = 7; saved = 20 }; last_synced_id = 7 }

synced-IsSynced : IsSynced synced 7
synced-IsSynced = record { covered = omega arith; replicated = omega arith }

raft_next_file_id-late_example :
    let (start, after, held') = raft_next_file_id false true true 3 (synced, 7) in
    (start ≡ 8) × (after.wrapped.current ≡ 7 + 3) × IsSynced after held'
raft_next_file_id-late_example =
    raft_next_file_id-late true true 3 7 synced synced-IsSynced (omega arith)

raft_next_file_id-early_example :
    let (start, after, held') = raft_next_file_id true true true 3 (synced, 7) in
    (held' ≡ 7 + 3) × (start ≡ held' + 1)
raft_next_file_id-early_example =
    raft_next_file_id-early true true 3 7 synced synced-IsSynced refl (omega arith)

abbrev busy : SnowflakeSequencer
busy = record { node_id = 5; last_time = 100; sequence = 4095 }

busy-IsSnowflake : IsSnowflake busy
busy-IsSnowflake = record { node = omega arith; numbered = omega arith; timed = omega arith }

snowflake_next-above_example :
    (id : ℕ) × (rest : List ℕ) × (after : SnowflakeSequencer) × (snowflake_next
        (100 ∷ 100 ∷ 101 ∷ [])
        busy
      ≡ some (id, rest, after))
    × (snowflake_get_max busy < id)
    × (id ≡ snowflake_get_max after)
    × IsSnowflake after
snowflake_next-above_example =
    snowflake_next-above busy 100 (100 ∷ 101 ∷ []) busy-IsSnowflake (omega arith) (omega arith)
      (omega arith, (omega arith, tt)) (inr (inl (omega arith)))

snowflake_next-backward_example :
    (id : ℕ) × (after : SnowflakeSequencer) × (snowflake_next (102 ∷ 101 ∷ 102 ∷ []) busy
      ≡ some (id, 101 ∷ 102 ∷ [], after))
    × (snowflake_next (101 ∷ 102 ∷ []) after ≡ some (id, [], after))
snowflake_next-backward_example =
    snowflake_next-backward busy 102 101 [] (omega arith) (omega arith)
