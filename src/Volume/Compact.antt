-- ===== src/Volume/Compact.antt =====
-- goblob/storage/volume/compact.go: the two halves of a compaction. The volume may change between
-- them, since Compact takes the lock only around single reads.
pub mod Kept
pub mod Copied
pub mod Copy
pub mod Commit
mod Tests
use go_blob.Base.{
  ℕ, ◌+◌, ◌/◌, ◌%◌, Bool, true, false, not, ◌||◌, Option, none, some, List, [], ◌∷◌, if◌then◌else◌,
  length, take, u16, u32,
}
use go_blob.Types.{to_actual_offset, to_encoded}
use go_blob.Needle.{Needle}
use go_blob.Needle.Write.{write_to}
use go_blob.Needle.Read.{is_expired}
use go_blob.NeedleMap.{
  NeedleValue, Entries, MemDb, new_mem_db, put, is_deleted, add64, open_index_file,
}
use go_blob.SuperBlock.{SuperBlock, super_block_bytes, parse_super_block}
use go_blob.Volume.{
  Volume, VolumeError, record_failed, index_failed, bad_super_block, low_garbage, create_failed,
  block_failed, seek_failed, sync_failed, rename_failed, reopen_failed, reload_failed, Outcome, ok,
  err, panic, ◌>>=◌, load_index, read_needle_from_file,
}

-- What Compact has written so far, and its counters: `cpd` and `cpx` are the temporary files with
-- the index over the second one; `state` is `ok` while compactErr is nil.
pub record Copying : Type 0 where
  pub cpd : List ℕ
  pub cpx : MemDb
  pub current_offset : ℕ
  pub needles_read : ℕ
  pub needles_written : ℕ
  pub needles_deleted : ℕ
  pub needles_expired : ℕ
  pub state : Outcome (Unit {0})

-- CompactionResult, with the contents of the temporary files for their names.
pub record CompactionResult : Type 0 where
  pub original_size : ℕ
  pub compacted_size : ℕ
  pub copied : Copying

-- The superblock of the compacted file.
abbrev pub next_block : SuperBlock → SuperBlock
next_block sb = record sb { compaction_revision = (sb.compaction_revision + 1) % u16 }

-- How the calls for the temporary files go in a run of Compact. The temporary files that a run
-- leaves are removed or made anew by the next one.
pub record CompactDisk : Type 0 where
  pub create_data : Bool
  pub write_block : Bool
  pub seek : Bool
  pub create_index : Bool
  pub sync : Bool

-- The early returns of Compact before its Iterate.
unfoldable pub make_files : CompactDisk → Outcome (Unit {0})
make_files disk =
    if not disk.create_data
    then err create_failed
    else if not disk.write_block
    then err block_failed
    else if not disk.seek
    then err seek_failed
    else if not disk.create_index
    then err create_failed
    else ok tt

-- The temporary files before the Iterate of Compact, and its counters.
unfoldable pub start_copy : Volume → Copying
unfolding open_index_file
start_copy v = record {
  cpd = super_block_bytes (next_block v.super_block);
  cpx = open_index_file [] new_mem_db;
  current_offset = 8;
  needles_read = 0;
  needles_written = 0;
  needles_deleted = 0;
  needles_expired = 0;
  state = ok tt;
}

-- The test of compactErr; a panic ends the visits too.
unfoldable pub unless_stopped : Outcome (Unit {0}) → Copying → Copying → Copying
unless_stopped (ok running) s next = next
unless_stopped (err e) s next = s
unless_stopped panic s next = s

-- `write` is the Write of the temporary data file, `logged` whether the temporary index file takes
-- the entry of an id, and `now` the clock in unix seconds when the needle of an id is tested.
module _ (write : List ℕ → List ℕ → List ℕ × Bool) (logged : ℕ → Bool) (now : ℕ → ℕ) where
  -- The write of a needle into the temporary files.
  unfoldable pub copy_needle : ℕ → ℕ → Needle → Copying → Copying
  copy_needle version id n s = elim (write_to write n version s.cpd) [
    | none ↦ record s { state = panic }
    | some w ↦ elim w.error [
      | some e ↦ record s { cpd = w.sink; state = err record_failed }
      | none ↦
          let (cpx, failed) =
            put (logged id) s.cpx id (to_encoded s.current_offset) (w.count % u32) in
          elim failed [
            | some e ↦ record s { cpd = w.sink; cpx = cpx; state = err (index_failed e) }
            | none ↦ record s {
              cpd = w.sink;
              cpx = cpx;
              current_offset = s.current_offset + w.count;
              needles_written = add64 s.needles_written 1;
            }
          ]
    ]
  ]

  -- The function that Compact gives to Iterate, while compactErr is nil.
  unfoldable pub visit_live : Volume → ℕ × NeedleValue → Copying → Copying
  unfolding copy_needle is_deleted
  visit_live v (id, nv) s =
      let seen = record s { needles_read = add64 s.needles_read 1 } in
      if is_deleted nv
      then record seen { needles_deleted = add64 s.needles_deleted 1 }
      else elim (read_needle_from_file v.dat (to_actual_offset nv.offset) nv.size
          v.super_block.version) [
            | err e ↦ record seen { state = err e }
            | panic ↦ record seen { state = panic }
            | ok n ↦
                if is_expired (now id) n (n.append_at_ns / 1000000000)
                then record seen { needles_expired = add64 s.needles_expired 1 }
                else copy_needle v.super_block.version id n seen
          ]

  unfoldable pub visit : Volume → ℕ × NeedleValue → Copying → Copying
  unfolding unless_stopped visit_live
  visit v entry s = unless_stopped s.state s (visit_live v entry s)

  -- Iterate, whose order is the one of a Go map: `order` lists its entries.
  unfoldable pub visit_all : Volume → Entries → Copying → Copying
  unfolding visit
  visit_all v [] s = s
  visit_all v (entry ∷ order) s = visit_all v order (visit v entry s)

  -- The end of Compact.
  unfoldable pub finish_copy : CompactDisk → Volume → Copying → Outcome CompactionResult
  finish_copy disk v s = s.state >>= λ done.
      if disk.sync
      then ok
          (record { original_size = length v.dat; compacted_size = s.current_offset; copied = s })
      else err sync_failed

  -- Compact. `low` is the test of the garbage level, a floating-point quotient, on the deleted size
  -- and the content size.
  unfoldable pub compact :
      CompactDisk → (ℕ → ℕ → Bool) → Entries → Volume → Outcome CompactionResult
  unfolding make_files finish_copy visit_all start_copy
  compact disk low order v =
      if low v.nm.deleted_size v.nm.content_size
      then err low_garbage
      else make_files disk >>= λ made. finish_copy disk v (visit_all v order (start_copy v))

-- How the renames and the calls on the swapped files go in a run of CommitCompact.
pub record CommitDisk : Type 0 where
  pub rename_data : Bool
  pub rename_index : Bool
  pub rename_back : Bool
  pub reopen : Bool
  pub read_block : Bool
  pub load : Bool
  pub open_index : Bool

-- What CommitCompact leaves where it fails: the files, none of them where there is no file of the
-- name, whether the data file is open, and the superblock. The needle map is nil then.
pub record Halted : Type 0 where
  pub dat_file : Option (List ℕ)
  pub idx_file : Option (List ℕ)
  pub cpd_file : Option (List ℕ)
  pub cpx_file : Option (List ℕ)
  pub data_open : Bool
  pub super_block : SuperBlock

pub data Committed : Type 0 where
  swapped : Volume → Committed
  halted : VolumeError → Halted → Committed

-- CommitCompact behind its renames.
unfoldable pub reload : CommitDisk → Volume → CompactionResult → Committed
unfolding load_index
reload disk v result =
    let left : Halted = record {
      dat_file = some result.copied.cpd;
      idx_file = result.copied.cpx.file;
      cpd_file = none;
      cpx_file = none;
      data_open = true;
      super_block = v.super_block;
    } in
    if not disk.reopen
    then halted reopen_failed (record left { data_open = false })
    else if not disk.read_block
    then halted bad_super_block left
    else elim (parse_super_block (take 8 result.copied.cpd)) [
      | none ↦ halted bad_super_block left
      | some sb ↦
          if not disk.load || not disk.open_index
          then halted reload_failed (record left { super_block = sb })
          else swapped (record {
            dat = result.copied.cpd;
            nm = load_index result.copied.cpx.file;
            super_block = sb;
            read_only = v.read_only;
            no_write_or_delete = false;
          })
    ]

-- CommitCompact; the first rename replaces the data file, and where the second one fails, the data
-- file is renamed back to the temporary one.
unfoldable pub commit_compact : CommitDisk → Volume → CompactionResult → Committed
unfolding reload
commit_compact disk v result =
    let left : Halted = record {
      dat_file = some v.dat;
      idx_file = v.nm.file;
      cpd_file = some result.copied.cpd;
      cpx_file = result.copied.cpx.file;
      data_open = false;
      super_block = v.super_block;
    } in
    if not disk.rename_data
    then halted rename_failed left
    else if not disk.rename_index
    then halted rename_failed (
        if disk.rename_back
        then record left { dat_file = none }
        else record left { dat_file = some result.copied.cpd; cpd_file = none })
    else reload disk v result

-- CompactVolume, with nothing between the two halves.
unfoldable pub compact_volume :
    (List ℕ → List ℕ → List ℕ × Bool)
    → (ℕ → Bool)
    → (ℕ → ℕ)
    → CompactDisk
    → CommitDisk
    → (ℕ → ℕ → Bool)
    → Entries
    → Volume
    → Outcome Committed
unfolding compact commit_compact
compact_volume write logged now disk swaps low order v = do
  result ← compact write logged now disk low order v
  ok (commit_compact swaps v result)
