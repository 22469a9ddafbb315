-- ===== src/Sequence.antt =====
-- goblob/sequence: the sequencers that hand out needle ids. Numbers are uint64 and wrap around.
-- Each method holds the mutex throughout, but for RaftSequencer.NextFileId.
pub mod Text
pub mod Issue
pub mod Replicated
pub mod Clock
mod Tests
use go_blob.Base.{
  ℕ, ◌+◌, ◌*◌, ◌%◌, Bool, true, false, ◌&&◌, ◌||◌, Option, none, some, List, [], ◌∷◌, ◌++◌, ltb,
  leb, ◌==◌, if◌then◌else◌, u64,
}
use go_blob.Strconv.{format_dec, parse_uint}

-- `file` is the content of the file max_needle_id, `none` where there is none.
pub record FileSequencer : Type 0 where
  pub step : ℕ
  pub current : ℕ
  pub saved : ℕ
  pub file : Option (List ℕ)

-- strings.TrimSpace on ASCII text.
abbrev pub is_space : ℕ → Bool
is_space c = (leb 9 c && leb c 13) || c == 32

unfoldable pub trim_left : List ℕ → List ℕ
trim_left [] = []
trim_left (c ∷ cs) = if is_space c then trim_left cs else c ∷ cs

abbrev keep_unless_blank : ℕ → List ℕ → List ℕ
keep_unless_blank c [] = if is_space c then [] else c ∷ []
keep_unless_blank c (d ∷ ds) = c ∷ d ∷ ds

unfoldable pub trim_right : List ℕ → List ℕ
trim_right [] = []
trim_right (c ∷ cs) = keep_unless_blank c (trim_right cs)

-- What loadMaxFileId reads from text that is there.
unfoldable pub load_text : List ℕ → Option ℕ
load_text [] = some 0
load_text (c ∷ cs) = parse_uint 10 0xffffffffffffffff (c ∷ cs)

-- loadMaxFileId, on a file that can be read or is not there.
unfoldable pub load_max_file_id : Option (List ℕ) → Option ℕ
unfolding load_text trim_left trim_right
load_max_file_id none = some 0
load_max_file_id (some bytes) = load_text (trim_right (trim_left bytes))

-- The text that saveMaxFileId writes.
unfoldable pub max_file_id_text : ℕ → List ℕ
max_file_id_text v = format_dec 19 v ++ 10 ∷ []

-- saveMaxFileId with the assignment to `saved`; the file is renamed into place only when all of the
-- text is written, so that it stays as it was on an error.
unfoldable pub save_max_file_id : Bool → ℕ → FileSequencer → FileSequencer
save_max_file_id written v fs =
    if written then record fs { saved = v; file = some (max_file_id_text v) } else fs

-- NewFileSequencer, for a directory that is there; `none` is its error.
unfoldable pub new_file_sequencer : ℕ → Option (List ℕ) → Option FileSequencer
unfolding load_max_file_id
new_file_sequencer step file = elim (load_max_file_id file) [
  | none ↦ none
  | some saved ↦ some (record {
    step = if step == 0 then 10000 else step;
    current = saved;
    saved = saved;
    file = file;
  })
]

-- FileSequencer.NextFileId; `written` is whether saveMaxFileId succeeds where it is called.
unfoldable pub next_file_id : Bool → ℕ → FileSequencer → ℕ × FileSequencer
unfolding save_max_file_id
next_file_id written asked fs =
    let count = if asked == 0 then 1 else asked in
    let ready =
      if ltb fs.saved ((fs.current + count) % u64)
      then save_max_file_id written ((fs.current + fs.step + count) % u64) fs
      else fs in
    ((ready.current + 1) % u64, record ready { current = (ready.current + count) % u64 })

-- FileSequencer.SetMax
unfoldable pub set_max : Bool → ℕ → FileSequencer → FileSequencer
unfolding save_max_file_id
set_max written max_id fs =
    if leb max_id fs.current
    then fs
    else save_max_file_id written ((max_id + fs.step) % u64) (record fs { current = max_id })

-- FileSequencer.Close, which leaves `saved` as it is.
unfoldable pub close : Bool → FileSequencer → FileSequencer
close written fs = if written then record fs { file = some (max_file_id_text fs.current) } else fs

-- The life of a sequencer. A crash and a Close are followed by NewFileSequencer in the same
-- directory with the given step; a flag is whether the file is written.
pub data Call : Type 0 where
  next_call set_max_call : Bool → ℕ → Call
  close_call : Bool → ℕ → Call
  crash_call : ℕ → Call

-- The batches that a call hands out, as the first id and the number of ids, and the sequencer after
-- it.
abbrev pub Batch : Type 0
Batch = ℕ × ℕ

unfoldable pub restarted : Option FileSequencer → Option (List Batch × FileSequencer)
restarted none = none
restarted (some fs) = some ([], fs)

unfoldable pub serve : Call → FileSequencer → Option (List Batch × FileSequencer)
unfolding next_file_id set_max close restarted new_file_sequencer
serve (next_call written asked) fs =
    let (start, after) = next_file_id written asked fs in
    some ((start, if asked == 0 then 1 else asked) ∷ [], after)
serve (set_max_call written max_id) fs = some ([], set_max written max_id fs)
serve (close_call written step) fs = restarted (new_file_sequencer step (close written fs).file)
serve (crash_call step) fs = restarted (new_file_sequencer step fs.file)

-- All the batches of a life, in order; `none` where a NewFileSequencer fails.
unfoldable pub run : List Call → FileSequencer → Option (List Batch)
unfolding serve
run [] fs = some []
run (c ∷ cs) fs = elim (serve c fs) [
  | none ↦ none
  | some (batches, after) ↦ elim (run cs after) [ none ↦ none | some more ↦ some (batches ++ more) ]
]

-- RaftSequencer, without its logger.
pub record RaftSequencer : Type 0 where
  pub wrapped : FileSequencer
  pub last_synced_id : ℕ

-- RaftSequencer.SetMax
unfoldable pub raft_set_max : Bool → ℕ → RaftSequencer → RaftSequencer
unfolding set_max
raft_set_max written max_id rs = record {
  wrapped = set_max written max_id rs.wrapped;
  last_synced_id = if ltb rs.last_synced_id max_id then max_id else rs.last_synced_id;
}

-- NextFileId, with a count that is not 0, up to its first Unlock: the command that it gives to
-- Apply, where one is needed.
unfoldable pub sync_wanted : ℕ → RaftSequencer → Option ℕ
sync_wanted count rs =
    let new_max = (rs.wrapped.current + count) % u64 in
    if ltb rs.last_synced_id new_max then some new_max else none

-- The second locked part of NextFileId, after an Apply that succeeded.
unfoldable pub note_synced : ℕ → RaftSequencer → RaftSequencer
note_synced new_max rs =
    if ltb rs.last_synced_id new_max then record rs { last_synced_id = new_max } else rs

-- The last locked part of NextFileId.
unfoldable pub allocate : Bool → ℕ → RaftSequencer → ℕ × RaftSequencer
unfolding next_file_id
allocate written count rs =
    let (start, after) = next_file_id written count rs.wrapped in
    (start, record rs { wrapped = after })

-- SyncToRaft: the command that it gives to Apply, and the state where Apply succeeds.
unfoldable pub sync_to_raft : RaftSequencer → Option (ℕ × RaftSequencer)
sync_to_raft rs =
    if rs.wrapped.current == 0
    then none
    else some (rs.wrapped.current, record rs { last_synced_id = rs.wrapped.current })

-- applyEntry of goblob/raft/fsm.go for a MaxFileIdCommand, on the replicated maximum; the event
-- says whether SetMax is called on every master.
unfoldable pub apply_max_file_id : ℕ → ℕ → ℕ × Option ℕ
apply_max_file_id new_max held = if ltb held new_max then (new_max, some new_max) else (held, none)

-- handleFSMEvents of goblob/server/master_server.go for the event.
unfoldable pub handle_event : Bool → Option ℕ → RaftSequencer → RaftSequencer
unfolding raft_set_max
handle_event written none rs = rs
handle_event written (some max_id) rs = raft_set_max written max_id rs

-- A whole NextFileId with an Apply that succeeds, over the replicated maximum: the first id, the
-- sequencer and the maximum. The master's goroutine takes the event after Apply: `early` is whether
-- it comes before the last locked part. `stored` and `written` are for the saves of SetMax and of
-- the wrapped NextFileId.
unfoldable pub take_ids : Bool → Bool → Bool → ℕ → RaftSequencer × ℕ → ℕ × RaftSequencer × ℕ
unfolding sync_wanted note_synced allocate apply_max_file_id handle_event
take_ids early stored written count (rs, held) = elim (sync_wanted count rs) [
  | none ↦ let (start, after) = allocate written count rs in (start, after, held)
  | some new_max ↦
      let (held', event) = apply_max_file_id new_max held in
      let before = if early then handle_event stored event rs else rs in
      let (start, after) = allocate written count (note_synced new_max before) in
      (start, if early then after else handle_event stored event after, held')
]

unfoldable pub raft_next_file_id :
    Bool → Bool → Bool → ℕ → RaftSequencer × ℕ → ℕ × RaftSequencer × ℕ
unfolding take_ids
raft_next_file_id early stored written asked =
    take_ids early stored written (if asked == 0 then 1 else asked)

-- SnowflakeSequencer: the fields that its methods change, and the node id.
pub record SnowflakeSequencer : Type 0 where
  pub node_id : ℕ
  pub last_time : ℕ
  pub sequence : ℕ

-- NewSnowflakeSequencer
unfoldable pub new_snowflake_sequencer : ℕ → Option SnowflakeSequencer
new_snowflake_sequencer node_id =
    if ltb 1023 node_id
    then none
    else some (record { node_id = node_id; last_time = 0; sequence = 0 })

-- The id of a time, a node and a sequence number: the fields do not overlap where the node id is
-- below 2^10 and the number below 2^12, so that `|` adds them.
unfoldable pub snowflake_id : ℕ → ℕ → ℕ → ℕ
snowflake_id now node_id sequence = (now * 0x400000 + node_id * 0x1000 + sequence) % u64

-- The loops that wait for the clock: the first reading that has reached `least`, of those that
-- follow, and the readings behind it. `none` is a loop that has not ended.
unfoldable pub wait_until : ℕ → List ℕ → Option (ℕ × List ℕ)
wait_until least [] = none
wait_until least (now ∷ later) =
    let rest = wait_until least later in if leb least now then some (now, later) else rest

-- The switch of SnowflakeSequencer.NextFileId at a reading of the clock.
unfoldable pub tick : ℕ → List ℕ → SnowflakeSequencer → Option (ℕ × List ℕ × SnowflakeSequencer)
unfolding wait_until
tick now later s =
    if now == s.last_time
    then if ltb 4095 (s.sequence + 1)
      then elim (wait_until (s.last_time + 1) later) [
        | none ↦ none
        | some (then_, rest) ↦ some (then_, rest, record s { last_time = then_; sequence = 0 })
      ]
      else some (now, later, record s { sequence = s.sequence + 1 })
    else if ltb s.last_time now
    then some (now, later, record s { last_time = now; sequence = 0 })
    else elim (wait_until s.last_time later) [
      | none ↦ none
      | some (then_, rest) ↦ some (then_, rest, record s { last_time = then_; sequence = 0 })
    ]

-- SnowflakeSequencer.NextFileId, on the readings of the clock that are to come.
unfoldable pub snowflake_next :
    List ℕ → SnowflakeSequencer → Option (ℕ × List ℕ × SnowflakeSequencer)
unfolding tick snowflake_id
snowflake_next [] s = none
snowflake_next (now ∷ later) s = elim (tick now later s) [
  | none ↦ none
  | some (at, rest, after) ↦ some (snowflake_id at after.node_id after.sequence, rest, after)
]

-- SnowflakeSequencer.GetMax
unfoldable pub snowflake_get_max : SnowflakeSequencer → ℕ
unfolding snowflake_id
snowflake_get_max s = snowflake_id s.last_time s.node_id s.sequence
