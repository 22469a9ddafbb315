-- ===== src/Sequence/Clock.antt =====
-- goblob/sequence/snowflake_sequencer.go: the ids of a SnowflakeSequencer and its clock.
use go_blob.Base.{
  ℕ, ◌+◌, ◌^◌, ◌≤◌, ◌<◌, ◌≡◌, refl, sym, ap, subst, true, some, List, [], ◌∷◌, All, arith, ltb, leb,
  ◌==◌, Bool-cases, inl, inr, ◌⊎◌,
}
use go_blob.Sequence.{
  SnowflakeSequencer, snowflake_id, wait_until, tick, snowflake_next, snowflake_get_max,
}

-- Some reading has reached `least`.
abbrev pub Reaches : ℕ → List ℕ → Type 0
Reaches least [] = ⊥
Reaches least (now ∷ later) = (least ≤ now) ⊎ Reaches least later

wait_until-Reaches :
    (least bound : ℕ) (later : List ℕ)
    → Reaches least later
    → All (λ now. now < bound) later
    → (at : ℕ) × (rest : List ℕ) × (wait_until least later ≡ some (at, rest))
      × (least ≤ at)
      × (at < bound)
unfolding wait_until
wait_until-Reaches least bound [] r h = elim r [ ]
wait_until-Reaches least bound (now ∷ later) r h = elim (Bool-cases (leb least now)) [
  | inl reached ↦ (now, later, rw reached refl, ground arith, h.0)
  | inr waits ↦ elim r [
    | inl here ↦ absurd (ground arith)
    | inr there ↦
        let (at, rest, e, above, below) = wait_until-Reaches least bound later there h.1 in
        (at, rest, rw waits e, above, below)
  ]
]

pub record IsSnowflake (s : SnowflakeSequencer) : Type 0 where
  pub node : s.node_id < 1024
  pub numbered : s.sequence < 4096
  pub timed : s.last_time < 2 ^ 42

-- One step of the switch: it leaves a later time, or the next number of the same time.
record Ticked (s : SnowflakeSequencer) (now : ℕ) (later : List ℕ) : Type 0 where
  at : ℕ
  rest : List ℕ
  after : SnowflakeSequencer
  ticked : tick now later s ≡ some (at, rest, after)
  same_node : after.node_id ≡ s.node_id
  same_time : after.last_time ≡ at
  well : IsSnowflake after
  later_id :
      (s.last_time < after.last_time)
      ⊎ ((s.last_time ≡ after.last_time) × (s.sequence < after.sequence))

tick-Ticked :
    (s : SnowflakeSequencer) (now : ℕ) (later : List ℕ)
    → IsSnowflake s
    → s.last_time ≤ now
    → now < 2 ^ 42
    → All (λ r. r < 2 ^ 42) later
    → Reaches (s.last_time + 1) later
    → Ticked s now later
unfolding tick
tick-Ticked s now later h mono fits fit reaches = elim (Bool-cases (now == s.last_time)) [
  | inl same ↦ elim (Bool-cases (ltb 4095 (s.sequence + 1))) [
    | inl full ↦
        let (at, rest, e, above, below) =
          wait_until-Reaches (s.last_time + 1) (2 ^ 42) later reaches fit in
        record {
          at = at;
          rest = rest;
          after = record s { last_time = at; sequence = 0 };
          ticked = rw (same, full, e) refl;
          same_node = refl;
          same_time = refl;
          well = record { node = h.node; numbered = omega arith; timed = below };
          later_id = inl (omega arith);
        }
    | inr free ↦ record {
      at = now;
      rest = later;
      after = record s { sequence = s.sequence + 1 };
      ticked = rw (same, free) refl;
      same_node = refl;
      same_time = ground arith;
      well = record { node = h.node; numbered = ground arith; timed = h.timed };
      later_id = inr (refl, omega arith);
    }
  ]
  | inr differs ↦
      let newer : ltb s.last_time now ≡ true = ground arith in
      record {
        at = now;
        rest = later;
        after = record s { last_time = now; sequence = 0 };
        ticked = rw (differs, newer) refl;
        same_node = refl;
        same_time = refl;
        well = record { node = h.node; numbered = omega arith; timed = fits };
        later_id = inl (ground arith);
      }
]

get_max-lt :
    (s s' : SnowflakeSequencer)
    → IsSnowflake s
    → IsSnowflake s'
    → s'.node_id ≡ s.node_id
    → (s.last_time < s'.last_time) ⊎ ((s.last_time ≡ s'.last_time) × (s.sequence < s'.sequence))
    → snowflake_get_max s < snowflake_get_max s'
unfolding snowflake_get_max snowflake_id
get_max-lt s s' h h' same (inl above) =
    omega (arith, h.node, h.numbered, h.timed, h'.node, h'.numbered, h'.timed)
get_max-lt s s' h h' same (inr (level, above)) =
    omega (arith, h.node, h.numbered, h.timed, h'.node, h'.numbered, h'.timed)

-- Where the clock reads below 2^42 milliseconds and never behind the last time, and goes on past
-- it, NextFileId ends; its id is above GetMax before the call, and is GetMax after it. The
-- sequencer stays well-formed.
pub snowflake_next-above :
    (s : SnowflakeSequencer) (now : ℕ) (later : List ℕ)
    → IsSnowflake s
    → s.last_time ≤ now
    → now < 2 ^ 42
    → All (λ r. r < 2 ^ 42) later
    → Reaches (s.last_time + 1) later
    → (id : ℕ) × (rest : List ℕ) × (after : SnowflakeSequencer) × (snowflake_next (now ∷ later) s
        ≡ some (id, rest, after))
      × (snowflake_get_max s < id)
      × (id ≡ snowflake_get_max after)
      × IsSnowflake after
unfolding snowflake_next snowflake_get_max
snowflake_next-above s now later h mono fits fit reaches =
    let t = tick-Ticked s now later h mono fits fit reaches in
    let same : snowflake_id t.at t.after.node_id t.after.sequence ≡ snowflake_get_max t.after =
      latest t.after t.at t.same_time in
    (
      snowflake_id t.at t.after.node_id t.after.sequence,
      t.rest,
      t.after,
      rw (snowflake_next, t.ticked) refl,
      subst (λ k. snowflake_get_max s < k) (sym same)
          (get_max-lt s t.after h t.well t.same_node t.later_id),
      same,
      t.well,
    )
  where
    latest :
        (x : SnowflakeSequencer) (at : ℕ)
        → x.last_time ≡ at
        → snowflake_id at x.node_id x.sequence ≡ snowflake_get_max x
    latest x at e = ap (λ t. snowflake_id t x.node_id x.sequence) (sym e)

-- Where the clock moves on to a new millisecond, then reads behind it, then reads it again, two
-- calls of NextFileId return the same id, and leave the same sequencer.
pub snowflake_next-backward :
    (s : SnowflakeSequencer) (now behind : ℕ) (later : List ℕ)
    → s.last_time < now
    → behind < now
    → (id : ℕ) × (after : SnowflakeSequencer) × (snowflake_next (now ∷ behind ∷ now ∷ later) s
        ≡ some (id, behind ∷ now ∷ later, after))
      × (snowflake_next (behind ∷ now ∷ later) after ≡ some (id, later, after))
unfolding snowflake_next tick wait_until
snowflake_next-backward s now behind later new back = (
  snowflake_id now s.node_id 0,
  record s { last_time = now; sequence = 0 },
  ground arith,
  ground arith,
)
