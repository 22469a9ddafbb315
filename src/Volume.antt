-- ===== src/Volume.antt =====
-- goblob/storage/volume/volume.go: a volume, one .dat file and its index. The data file is the list
-- of its bytes; the locks are left out, since each method holds one throughout.
pub mod Reads
pub mod Steps
pub mod Refine
pub mod Reopen
pub mod Compact
mod Tests
use go_blob.Base.{
  ℕ, ◌+◌, ◌-◌, ◌%◌, ◌≤◌, Bool, true, false, not, Option, none, some, List, [], ◌++◌, ltb, leb, ◌==◌,
  if◌then◌else◌, length, take, drop, replicate, u32,
}
use go_blob.Types.{FileId, to_actual_offset, to_encoded, no_ttl}
use go_blob.Needle.{Needle, blank}
use go_blob.Needle.Write.{Written, write_to}
use go_blob.Needle.Read
use go_blob.Needle.Read.{Read, ReadError, read_from}
use go_blob.NeedleMap.{
  NeedleValue, Entries, MemDb, IndexError, get, put, delete, load_needle_map, is_deleted,
}
use go_blob.SuperBlock.{SuperBlock, super_block_bytes, parse_super_block}

pub data VolumeError : Type 0 where
  read_only_volume frozen_volume padding_failed record_failed : VolumeError
  index_failed lookup_failed : IndexError → VolumeError
  short_file cookie_mismatch bad_super_block low_garbage : VolumeError
  create_failed block_failed seek_failed sync_failed : VolumeError
  rename_failed reopen_failed reload_failed : VolumeError
  bad_record : ReadError → VolumeError

pub data Outcome (A : Type 0) : Type 0 where
  ok : A → Outcome A
  err : VolumeError → Outcome A
  panic : Outcome A

infixl 5 ◌>>=◌
abbrev pub ◌>>=◌ : {A B : Type 0} → Outcome A → (A → Outcome B) → Outcome B
ok a >>= f = f a
err e >>= f = err e
panic >>= f = panic

-- `dat` is the data file and `nm` the needle map.
pub record Volume : Type 0 where
  pub dat : List ℕ
  pub nm : MemDb
  pub super_block : SuperBlock
  pub read_only : Bool
  pub no_write_or_delete : Bool

-- What WriteNeedle and writeNeedleUnlocked return.
pub record Placed : Type 0 where
  pub offset : ℕ
  pub size : ℕ

-- The bytes that bring a length to a multiple of 8.
abbrev pub pad_of : ℕ → ℕ
pad_of n = if n % 8 == 0 then 0 else 8 - n % 8

-- The guards of WriteNeedle and DeleteNeedle.
abbrev pub guarded {ℓ} : {A : Type ℓ} → Volume → (VolumeError → A) → A → A
guarded v refuse go =
    if v.read_only
    then refuse read_only_volume
    else if v.no_write_or_delete
    then refuse frozen_volume
    else go

-- The index part of WriteNeedle.
unfoldable pub index_needle :
    Bool → Volume → Needle → List ℕ × Outcome Placed → Volume × Outcome Placed
index_needle logged v n (dat, err e) = (record v { dat = dat }, err e)
index_needle logged v n (dat, panic) = (record v { dat = dat }, panic)
index_needle logged v n (dat, ok p) =
    let (nm, failed) = put logged v.nm n.id p.offset (p.size % u32) in
    elim failed [
      | none ↦ (record v { dat = dat; nm = nm }, ok (record p { size = p.size % u32 }))
      | some e ↦ (record v { dat = dat; nm = nm }, err (index_failed e))
    ]

-- The index part of DeleteNeedle, after the record of the tombstone.
unfoldable pub bury_needle :
    Bool → Volume → ℕ → List ℕ × Outcome Placed → Volume × Outcome (Unit {0})
bury_needle logged v id (dat, err e) = (record v { dat = dat }, err e)
bury_needle logged v id (dat, panic) = (record v { dat = dat }, panic)
bury_needle logged v id (dat, ok p) =
    let (nm, failed) = delete logged v.nm id in
    (record v { dat = dat; nm = nm }, elim failed [ none ↦ ok tt | some e ↦ err (index_failed e) ])

-- `write` is the Write of the data file: it takes some of the bytes, and says if it took them all.
module _ (write : List ℕ → List ℕ → List ℕ × Bool) where
  -- The alignment of writeNeedleUnlocked.
  unfoldable pub align_file : List ℕ → List ℕ × Bool
  align_file dat =
      if length dat % 8 == 0 then (dat, true) else write dat (replicate (8 - length dat % 8) 0)

  -- writeNeedleUnlocked, which WriteNeedle repeats: the data file after it, and the place.
  unfoldable pub write_needle_unlocked : ℕ → Needle → List ℕ → List ℕ × Outcome Placed
  unfolding align_file
  write_needle_unlocked version n dat =
      let (dat', aligned) = align_file dat in
      let start = length dat + pad_of (length dat) in
      if aligned
      then elim (write_to write n version dat') [
        | none ↦ (dat', panic)
        | some w ↦ elim w.error [
          | none ↦ (w.sink, ok (record { offset = to_encoded start; size = w.count }))
          | some e ↦ (w.sink, err record_failed)
        ]
      ]
      else (dat', err padding_failed)

  -- WriteNeedle; `logged` is whether the index file takes the entry.
  unfoldable pub write_needle : Bool → Volume → Needle → Volume × Outcome Placed
  unfolding write_needle_unlocked index_needle
  write_needle logged v n =
      guarded v (λ e. (v, err e))
        (index_needle logged v n (write_needle_unlocked v.super_block.version n v.dat))

  -- DeleteNeedle
  unfoldable pub delete_needle : Bool → Volume → ℕ → Volume × Outcome (Unit {0})
  unfolding write_needle_unlocked bury_needle
  delete_needle logged v id =
      let tombstone = record blank { id = id } in
      guarded v (λ e. (v, err e))
        (elim (get v.nm id).1 [
          | some e ↦ (v, err (lookup_failed e))
          | none ↦
              bury_needle logged v id (write_needle_unlocked v.super_block.version tombstone v.dat)
        ])

-- The outcome of ReadFrom behind the other errors of ReadNeedleFromFile.
unfoldable pub recorded : Read Needle → Outcome Needle
recorded (Read.ok n) = ok n
recorded (Read.err e) = err (bad_record e)
recorded Read.panic = panic

-- ReadNeedleFromFile: ReadAt fails where the file ends before the record does.
unfoldable pub read_needle_from_file : List ℕ → ℕ → ℕ → ℕ → Outcome Needle
unfolding recorded
read_needle_from_file dat offset size version =
    if ltb (length dat) (offset + size)
    then err short_file
    else recorded (read_from blank (take size (drop offset dat)) version)

-- The answer of Get and its test for an error; with neither a value nor an error, offset and size
-- are 0.
unfoldable pub placed_at : Option NeedleValue × Option IndexError → Outcome NeedleValue
placed_at (v, some e) = err (lookup_failed e)
placed_at (some v, none) = ok v
placed_at (none, none) = ok (record { offset = 0; size = 0 })

-- GetNeedle
unfoldable pub get_needle : Volume → ℕ → Outcome Needle
unfolding placed_at read_needle_from_file
get_needle v id = do
  nv ← placed_at (get v.nm id)
  read_needle_from_file v.dat (to_actual_offset nv.offset) nv.size v.super_block.version

-- ReadNeedleByFileId
unfoldable pub read_needle_by_file_id : Volume → FileId → Outcome Needle
unfolding get_needle
read_needle_by_file_id v fid = do
  n ← get_needle v fid.needle_id
  if n.cookie == fid.cookie then ok n else err cookie_mismatch

-- The files of a volume; `none` is a file that is not there.
pub record Disk : Type 0 where
  pub dat : Option (List ℕ)
  pub idx : Option (List ℕ)

-- Load and OpenIndexFile, which makes the index file where it is not there.
unfoldable pub load_index : Option (List ℕ) → MemDb
load_index none = load_needle_map []
load_index (some bytes) = load_needle_map bytes

-- The superblock that NewVolume gives a new volume.
abbrev pub first_block : ℕ → SuperBlock
first_block version = record {
  version = version;
  replica_placement = record {
    different_data_center_count = 0;
    different_rack_count = 0;
    same_rack_count = 0;
  };
  ttl = no_ttl;
  compaction_revision = 0;
}

-- NewVolume, on files that can be opened and written.
unfoldable pub new_volume : Disk → ℕ → Outcome Volume
unfolding load_index
new_volume disk version = elim disk.dat [
  | none ↦ ok (record {
    dat = super_block_bytes (first_block version);
    nm = load_index disk.idx;
    super_block = first_block version;
    read_only = false;
    no_write_or_delete = false;
  })
  | some dat ↦ elim (parse_super_block (take 8 dat)) [
    | none ↦ err bad_super_block
    | some sb ↦ ok (record {
      dat = dat;
      nm = load_index disk.idx;
      super_block = sb;
      read_only = false;
      no_write_or_delete = false;
    })
  ]
]

-- UsedSize and IsEmpty
unfoldable pub used_size : Volume → ℕ
used_size v = length v.dat

unfoldable pub is_empty : Volume → Bool
is_empty v = leb (used_size v) 8
