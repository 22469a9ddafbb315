-- ===== src/Sequence/Replicated.antt =====
-- goblob/sequence/raft_sequencer.go, goblob/raft/fsm.go and goblob/server/master_server.go: the ids
-- of a RaftSequencer and the replicated maximum.
use go_blob.Base.{
  ℕ, ◌+◌, ◌%◌, ◌≤◌, ◌<◌, ◌≡◌, refl, Bool, true, false, some, none, arith, u64, ltb, ◌==◌,
  if◌then◌else◌, Bool-cases, inl, inr, max, ap, ◌∙◌, sym, subst, ◌⊎◌,
}
use go_blob.Sequence.{
  FileSequencer, save_max_file_id, next_file_id, set_max, RaftSequencer, raft_set_max, sync_wanted,
  note_synced, allocate, apply_max_file_id, handle_event, take_ids, raft_next_file_id,
}

-- The replicated maximum has reached the last synced id, which covers the ids handed out.
pub record IsSynced (rs : RaftSequencer) (held : ℕ) : Type 0 where
  pub covered : rs.wrapped.current ≤ rs.last_synced_id
  pub replicated : rs.last_synced_id ≤ held

next_file_id-current :
    (written : Bool) (count : ℕ) (fs : FileSequencer)
    → 0 < count
    → fs.current + count < u64
    → ((next_file_id written count fs).0 ≡ fs.current + 1)
      × ((next_file_id written count fs).1.current ≡ fs.current + count)
unfolding next_file_id save_max_file_id
next_file_id-current written count fs p h = ground arith

allocate-current :
    (written : Bool) (count : ℕ) (rs : RaftSequencer)
    → 0 < count
    → rs.wrapped.current + count < u64
    → ((allocate written count rs).0 ≡ rs.wrapped.current + 1)
      × ((allocate written count rs).1.wrapped.current ≡ rs.wrapped.current + count)
      × ((allocate written count rs).1.last_synced_id ≡ rs.last_synced_id)
unfolding allocate
allocate-current written count rs p h =
    let n = next_file_id-current written count rs.wrapped p h in (n.0, n.1, refl)

-- What a NextFileId that is followed by its event does.
abbrev Late : RaftSequencer → ℕ → ℕ × RaftSequencer × ℕ → Type 0
Late rs count out =
    (out.0 ≡ rs.wrapped.current + 1)
    × (out.1.wrapped.current ≡ rs.wrapped.current + count)
    × IsSynced out.1 out.2

raft_set_max-idle :
    (stored : Bool) (max_id : ℕ) (rs : RaftSequencer)
    → max_id ≤ rs.wrapped.current
    → max_id ≤ rs.last_synced_id
    → raft_set_max stored max_id rs ≡ rs
unfolding raft_set_max set_max
raft_set_max-idle stored max_id rs low synced = ground arith

handle_event-idle :
    (stored : Bool) (new_max held : ℕ) (rs : RaftSequencer)
    → new_max ≤ rs.wrapped.current
    → new_max ≤ rs.last_synced_id
    → handle_event stored (apply_max_file_id new_max held).1 rs ≡ rs
unfolding handle_event apply_max_file_id
handle_event-idle stored new_max held rs low synced = elim (Bool-cases (ltb held new_max)) [
  | inl more ↦ rw more (raft_set_max-idle stored new_max rs low synced)
  | inr same ↦ rw same refl
]

note_synced-fields :
    (new_max : ℕ) (rs : RaftSequencer)
    → ((note_synced new_max rs).wrapped ≡ rs.wrapped)
      × ((note_synced new_max rs).last_synced_id ≡ max rs.last_synced_id new_max)
unfolding note_synced
note_synced-fields new_max rs = ground arith

apply_max_file_id-held : (new_max held : ℕ) → (apply_max_file_id new_max held).0 ≡ max held new_max
unfolding apply_max_file_id
apply_max_file_id-held new_max held = ground arith

sync_wanted-cases :
    (count : ℕ) (rs : RaftSequencer)
    → rs.wrapped.current + count < u64
    → ((sync_wanted count rs ≡ some (rs.wrapped.current + count))
        × (rs.last_synced_id < rs.wrapped.current + count))
      ⊎ ((sync_wanted count rs ≡ none) × (rs.wrapped.current + count ≤ rs.last_synced_id))
unfolding sync_wanted
sync_wanted-cases count rs room =
    let small : (rs.wrapped.current + count) % u64 ≡ rs.wrapped.current + count = omega arith in
    elim (Bool-cases (ltb rs.last_synced_id (rs.wrapped.current + count))) [
      | inl wanted ↦ inl (rw (small, wanted) refl, ground arith)
      | inr quiet ↦ inr (rw (small, quiet) refl, ground arith)
    ]

take_ids-none :
    (early stored written : Bool) (count held : ℕ) (rs : RaftSequencer)
    → sync_wanted count rs ≡ none
    → take_ids early stored written count (rs, held)
      ≡ ((allocate written count rs).0, (allocate written count rs).1, held)
unfolding take_ids
take_ids-none early stored written count held rs e = rw (e, take_ids) refl

take_ids-some :
    (early stored written : Bool) (count held new_max : ℕ) (rs : RaftSequencer)
    → sync_wanted count rs ≡ some new_max
    → let before =
        note_synced new_max
          (if early then handle_event stored (apply_max_file_id new_max held).1 rs else rs) in
      take_ids early stored written count (rs, held) ≡ (
        (allocate written count before).0,
        if early
            then (allocate written count before).1
            else handle_event stored
                (apply_max_file_id new_max held).1
                (allocate written count before).1,
        (apply_max_file_id new_max held).0,
      )
unfolding take_ids
take_ids-some early stored written count held new_max rs e = rw (e, take_ids) refl

synced-Late :
    (stored written : Bool) (count held : ℕ) (rs : RaftSequencer)
    → 0 < count
    → IsSynced rs held
    → rs.wrapped.current + count < u64
    → rs.last_synced_id < rs.wrapped.current + count
    → let new_max = rs.wrapped.current + count in
      let after = (allocate written count (note_synced new_max rs)).1 in
      Late rs count (
        (allocate written count (note_synced new_max rs)).0,
        handle_event stored (apply_max_file_id new_max held).1 after,
        (apply_max_file_id new_max held).0,
      )
synced-Late stored written count held rs p h room wanted =
    let new_max = rs.wrapped.current + count in
    let noted = note_synced new_max rs in
    let fields = note_synced-fields new_max rs in
    let current : noted.wrapped.current ≡ rs.wrapped.current = ap (λ w. w.current) fields.0 in
    let a = allocate-current written count noted p (omega (arith, current)) in
    let idle =
      handle_event-idle stored new_max held (allocate written count noted).1
        (omega (arith, a.1, current)) (omega (arith, a.2, fields.1)) in
    rw idle (
      omega (arith, a.0, current),
      omega (arith, a.1, current),
      record {
        covered = omega (arith, a.1, a.2, current, fields.1, wanted);
        replicated =
            omega
              (arith, a.2, fields.1, apply_max_file_id-held new_max held, h.replicated, h.covered);
      },
    )

take_ids-Late :
    (stored written : Bool) (count held : ℕ) (rs : RaftSequencer)
    → 0 < count
    → IsSynced rs held
    → rs.wrapped.current + count < u64
    → Late rs count (take_ids false stored written count (rs, held))
take_ids-Late stored written count held rs p h room = elim (sync_wanted-cases count rs room) [
  | inl (e, wanted) ↦
      subst (Late rs count)
        (sym (take_ids-some false stored written count held (rs.wrapped.current + count) rs e))
        (synced-Late stored written count held rs p h room wanted)
  | inr (e, quiet) ↦
      let a = allocate-current written count rs p room in
      subst (Late rs count) (sym (take_ids-none false stored written count held rs e)) (
        a.0,
        a.1,
        record {
          covered = omega (arith, a.1, a.2, quiet);
          replicated = omega (arith, a.2, h.replicated);
        },
      )
]

-- Where the event of its own command comes after the last locked part, and no id reaches 2^64,
-- NextFileId with an Apply that succeeds hands out the ids next above the ones before, and the
-- replicated maximum covers all ids handed out, as it did before.
pub raft_next_file_id-late :
    (stored written : Bool) (asked held : ℕ) (rs : RaftSequencer)
    → IsSynced rs held
    → rs.wrapped.current + asked + 1 < u64
    → let (start, after, held') = raft_next_file_id false stored written asked (rs, held) in
      (start ≡ rs.wrapped.current + 1)
      × (after.wrapped.current ≡ rs.wrapped.current + (if asked == 0 then 1 else asked))
      × IsSynced after held'
unfolding raft_next_file_id
raft_next_file_id-late stored written asked held rs h room =
    take_ids-Late stored written (if asked == 0 then 1 else asked) held rs (ground arith) h
      (ground arith)

raised :
    (stored : Bool) (new_max held : ℕ) (rs : RaftSequencer)
    → held < new_max
    → rs.wrapped.current < new_max
    → (handle_event stored (apply_max_file_id new_max held).1 rs).wrapped.current ≡ new_max
unfolding handle_event apply_max_file_id raft_set_max set_max save_max_file_id
raised stored new_max held rs more above = ground arith

abbrev Early : RaftSequencer → ℕ → ℕ × RaftSequencer × ℕ → Type 0
Early rs count out = (out.2 ≡ rs.wrapped.current + count) × (out.0 ≡ out.2 + 1)

take_ids-Early :
    (stored written : Bool) (count held : ℕ) (rs : RaftSequencer)
    → 0 < count
    → IsSynced rs held
    → held ≡ rs.wrapped.current
    → rs.wrapped.current + count + count < u64
    → Early rs count (take_ids true stored written count (rs, held))
take_ids-Early stored written count held rs p h latest room =
    elim (sync_wanted-cases count rs (omega arith)) [
      | inr (e, quiet) ↦ absurd (omega (arith, h.replicated))
      | inl (e, wanted) ↦
          let new_max = rs.wrapped.current + count in
          let told = handle_event stored (apply_max_file_id new_max held).1 rs in
          let now : (note_synced new_max told).wrapped.current ≡ new_max =
            ap (λ w. w.current) (note_synced-fields new_max told).0
            ∙ raised stored new_max held rs (omega arith) (omega arith) in
          let a =
            allocate-current written count (note_synced new_max told) p (omega (arith, now)) in
          let top = apply_max_file_id-held new_max held in
          subst (Early rs count) (sym (take_ids-some true stored written count held new_max rs e))
            (omega (arith, top), omega (arith, a.0, now, top))
    ]

-- Where the replicated maximum is the last id handed out and the event of its own command comes
-- before the last locked part, all the ids that NextFileId hands out lie above the maximum that it
-- has just replicated, which stands at its count above the last id: the master that takes over from
-- that maximum hands them out again.
pub raft_next_file_id-early :
    (stored written : Bool) (asked held : ℕ) (rs : RaftSequencer)
    → IsSynced rs held
    → held ≡ rs.wrapped.current
    → rs.wrapped.current + asked + asked + 2 < u64
    → let (start, after, held') = raft_next_file_id true stored written asked (rs, held) in
      (held' ≡ rs.wrapped.current + (if asked == 0 then 1 else asked)) × (start ≡ held' + 1)
unfolding raft_next_file_id
raft_next_file_id-early stored written asked held rs h latest room =
    take_ids-Early stored written (if asked == 0 then 1 else asked) held rs (ground arith) h latest
      (ground arith)
