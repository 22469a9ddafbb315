-- ===== src/Sequence/Issue.antt =====
-- goblob/sequence/file_sequencer.go: the ids of a FileSequencer over crashes and restarts.
use go_blob.Base.{
  ℕ, ◌+◌, ◌-◌, ◌%◌, ◌≤◌, ◌<◌, ◌≡◌, ◌∙◌, refl, sym, ap, true, false, Option, some, List, [], ◌∷◌,
  ◌++◌, All, arith, u64, ltb, leb, ◌==◌, if◌then◌else◌, Bool-cases, inl, inr, max,
}
use go_blob.Sequence.{
  FileSequencer, load_max_file_id, max_file_id_text, save_max_file_id, new_file_sequencer,
  next_file_id, set_max, close, Call, next_call, set_max_call, close_call, crash_call, Batch,
  restarted, serve, run,
}
use go_blob.Sequence.Text.{load_max_file_id-max_file_id_text}

-- The save that a call may need succeeds; that of a Close may fail.
abbrev pub IsSaved : Call → Type 0
IsSaved (next_call written asked) = written ≡ true
IsSaved (set_max_call written max_id) = written ≡ true
IsSaved (close_call written step) = Unit
IsSaved (crash_call step) = Unit

-- A bound on all saved numbers and steps after a call.
abbrev pub grown : Call → ℕ × ℕ → ℕ × ℕ
grown (next_call written asked) (bound, step) = (bound + step + asked + 1, step)
grown (set_max_call written max_id) (bound, step) = (max bound max_id + step, step)
grown (close_call written step') (bound, step) = (bound, max step (step' + 10000))
grown (crash_call step') (bound, step) = (bound, max step (step' + 10000))

-- No number of the life reaches 2^64.
abbrev pub Fits : ℕ × ℕ → List Call → Type 0
Fits p [] = Unit
Fits p (c ∷ cs) = ((grown c p).0 < u64) × Fits (grown c p) cs

-- The batches follow one another: each starts above `low` and above all ids before it, and is not
-- empty.
abbrev pub Ascending : ℕ → List Batch → Type 0
Ascending low [] = Unit
Ascending low ((start, count) ∷ bs) = (low < start) × (0 < count) × Ascending (start + count - 1) bs

Ascending-mono :
    (low low' : ℕ) (bs : List Batch) → low' ≤ low → Ascending low bs → Ascending low' bs
Ascending-mono low low' [] h a = tt
Ascending-mono low low' ((start, count) ∷ bs) h (above, some_ids, rest) =
    (omega arith, some_ids, rest)

-- What the file promises for the next start.
pub record IsKept (bound step : ℕ) (fs : FileSequencer) : Type 0 where
  covered : fs.current ≤ fs.saved
  on_disk : load_max_file_id fs.file ≡ some fs.saved
  bounded : fs.saved ≤ bound
  steps : fs.step ≤ step

-- What a call does to a sequencer that is kept.
record Progress (c : Call) (bound step : ℕ) (fs : FileSequencer) : Type 0 where
  batches : List Batch
  after : FileSequencer
  served : serve c fs ≡ some (batches, after)
  kept : IsKept (grown c (bound, step)).0 (grown c (bound, step)).1 after
  joined :
      (more : List Batch) → Ascending after.current more → Ascending fs.current (batches ++ more)

reopened :
    (bound step asked : ℕ) (file : Option (List ℕ)) (v : ℕ)
    → load_max_file_id file ≡ some v
    → new_file_sequencer asked file
      ≡ some (record {
        step = if asked == 0 then 10000 else asked;
        current = v;
        saved = v;
        file = file;
      })
unfolding new_file_sequencer
reopened bound step asked file v h = rw (h, new_file_sequencer) refl

next-Progress :
    (asked bound step : ℕ) (fs : FileSequencer)
    → bound + step + asked + 1 < u64
    → IsKept bound step fs
    → Progress (next_call true asked) bound step fs
unfolding serve next_file_id save_max_file_id
next-Progress asked bound step fs room h =
    let count = if asked == 0 then 1 else asked in
    let few : (0 < count) × (count ≤ asked + 1) = ground arith in
    let start : (fs.current + 1) % u64 ≡ fs.current + 1 = omega (arith, h.covered, h.bounded) in
    let last : (fs.current + count) % u64 ≡ fs.current + count =
      omega (arith, h.covered, h.bounded, few) in
    let next : (fs.current + fs.step + count) % u64 ≡ fs.current + fs.step + count =
      omega (arith, h.covered, h.bounded, h.steps, few) in
    let joined : (more : List Batch)
        → Ascending (fs.current + count) more
        → Ascending fs.current ((fs.current + 1, count) ∷ more) =
      λ more a. (
        omega arith,
        few.0,
        Ascending-mono (fs.current + count) (fs.current + 1 + count - 1) more (omega arith) a,
      ) in
    elim (Bool-cases (ltb fs.saved (fs.current + count))) [
      | inl over ↦ record {
        batches = (fs.current + 1, count) ∷ [];
        after = record {
          step = fs.step;
          current = fs.current + count;
          saved = fs.current + fs.step + count;
          file = some (max_file_id_text (fs.current + fs.step + count));
        };
        served = rw (last, over, start, next) (rw last refl);
        kept = record {
          covered = omega arith;
          on_disk =
              load_max_file_id-max_file_id_text (fs.current + fs.step + count)
                (omega (arith, h.covered, h.bounded, h.steps, few));
          bounded = omega (arith, h.covered, h.bounded, h.steps, few);
          steps = h.steps;
        };
        joined = joined;
      }
      | inr under ↦ record {
        batches = (fs.current + 1, count) ∷ [];
        after = record fs { current = fs.current + count };
        served = rw (last, under, start) (rw last refl);
        kept = record {
          covered = ground arith;
          on_disk = h.on_disk;
          bounded = omega (arith, h.bounded);
          steps = h.steps;
        };
        joined = joined;
      }
    ]

set_max-Progress :
    (max_id bound step : ℕ) (fs : FileSequencer)
    → max bound max_id + step < u64
    → IsKept bound step fs
    → Progress (set_max_call true max_id) bound step fs
unfolding serve set_max save_max_file_id
set_max-Progress max_id bound step fs room h =
    let next : (max_id + fs.step) % u64 ≡ max_id + fs.step = omega (arith, h.steps) in
    elim (Bool-cases (leb max_id fs.current)) [
      | inl low ↦ record {
        batches = [];
        after = fs;
        served = rw low refl;
        kept = record {
          covered = h.covered;
          on_disk = h.on_disk;
          bounded = omega (arith, h.bounded);
          steps = h.steps;
        };
        joined = λ more a. a;
      }
      | inr high ↦ record {
        batches = [];
        after = record {
          step = fs.step;
          current = max_id;
          saved = max_id + fs.step;
          file = some (max_file_id_text (max_id + fs.step));
        };
        served = rw (high, next) refl;
        kept = record {
          covered = omega arith;
          on_disk = load_max_file_id-max_file_id_text (max_id + fs.step) (omega (arith, h.steps));
          bounded = omega (arith, h.steps);
          steps = h.steps;
        };
        joined = λ more a. Ascending-mono max_id fs.current more (ground arith) a;
      }
    ]

restart-Progress :
    (c : Call) (asked bound step : ℕ) (fs : FileSequencer) (file : Option (List ℕ)) (v : ℕ)
    → serve c fs ≡ restarted (new_file_sequencer asked file)
    → grown c (bound, step) ≡ (bound, max step (asked + 10000))
    → load_max_file_id file ≡ some v
    → fs.current ≤ v
    → v ≤ bound
    → Progress c bound step fs
unfolding restarted
restart-Progress c asked bound step fs file v e g l le b = record {
  batches = [];
  after = record {
    step = if asked == 0 then 10000 else asked;
    current = v;
    saved = v;
    file = file;
  };
  served = e ∙ ap restarted (reopened bound step asked file v l);
  kept = rw g (record { covered = omega arith; on_disk = l; bounded = b; steps = ground arith });
  joined = λ more a. Ascending-mono v fs.current more le a;
}

serve-Progress :
    (c : Call) (bound step : ℕ) (fs : FileSequencer)
    → IsSaved c
    → (grown c (bound, step)).0 < u64
    → IsKept bound step fs
    → Progress c bound step fs
unfolding serve close
serve-Progress (next_call written asked) bound step fs w room h =
    rw w (next-Progress asked bound step fs room h)
serve-Progress (set_max_call written max_id) bound step fs w room h =
    rw w (set_max-Progress max_id bound step fs room h)
serve-Progress (close_call true asked) bound step fs w room h =
    restart-Progress (close_call true asked) asked bound step fs
      (some (max_file_id_text fs.current)) fs.current refl refl
      (load_max_file_id-max_file_id_text fs.current (omega (arith, h.covered, h.bounded)))
      (omega arith) (omega (arith, h.covered, h.bounded))
serve-Progress (close_call false asked) bound step fs w room h =
    restart-Progress (close_call false asked) asked bound step fs fs.file fs.saved refl refl
      h.on_disk h.covered h.bounded
serve-Progress (crash_call asked) bound step fs w room h =
    restart-Progress (crash_call asked) asked bound step fs fs.file fs.saved refl refl h.on_disk
      h.covered h.bounded

run-Ascending :
    (cs : List Call) (bound step : ℕ) (fs : FileSequencer)
    → IsKept bound step fs
    → All IsSaved cs
    → Fits (bound, step) cs
    → (bs : List Batch) × (run cs fs ≡ some bs) × Ascending fs.current bs
unfolding run
run-Ascending [] bound step fs h w f = ([], refl, tt)
run-Ascending (c ∷ cs) bound step fs h w f =
    let p = serve-Progress c bound step fs w.0 f.0 h in
    let (more, e, a) =
      run-Ascending cs (grown c (bound, step)).0 (grown c (bound, step)).1 p.after p.kept w.1 f.1 in
    (p.batches ++ more, rw (run, p.served, e) refl, p.joined more a)

-- A FileSequencer is opened in a directory and lives through any sequence of NextFileId, SetMax,
-- Close and crashes, where it is opened again after a Close and after a crash. Where the saves of
-- NextFileId and SetMax succeed and no number reaches 2^64, every start succeeds, and every batch
-- that is handed out starts above the number that was on the disk and above all ids of the batches
-- before it: no id is handed out twice.
pub new_file_sequencer-Ascending :
    (step v : ℕ) (file : Option (List ℕ)) (fs : FileSequencer) (cs : List Call)
    → load_max_file_id file ≡ some v
    → new_file_sequencer step file ≡ some fs
    → All IsSaved cs
    → Fits (v, step + 10000) cs
    → (bs : List Batch) × (run cs fs ≡ some bs) × Ascending v bs
new_file_sequencer-Ascending step v file fs cs l e w f =
    let opened : FileSequencer = record {
      step = if step == 0 then 10000 else step;
      current = v;
      saved = v;
      file = file;
    } in
    let same : opened ≡ fs = some-injective (sym (reopened v step step file v l) ∙ e) in
    let (bs, done, a) =
      run-Ascending cs v (step + 10000) opened
        (record { covered = omega arith; on_disk = l; bounded = omega arith; steps = ground arith })
        w f in
    (bs, ap (run cs) (sym same) ∙ done, a)
  where
    some-injective :
        {a b : FileSequencer} → ◌≡◌ {A = Option FileSequencer} (some a) (some b) → a ≡ b
    some-injective e = cc
