-- ===== src/NeedleMap.antt =====
-- goblob/storage/volume/needle_map.go: MemDb, the index of a volume. The Go map is an association
-- list in order of first insertion; the locks are left out, since each method holds one throughout.
-- The uint64 and int64 statistics are kept as 64-bit patterns.
pub mod Assoc
pub mod Stats
pub mod Replay
pub mod Durable
pub mod Reads
mod Tests
use go_blob.Base.{
  ℕ, zero, suc, ◌+◌, ◌-◌, ◌%◌, Bool, true, false, Option, none, some, List, [], ◌∷◌, ◌++◌, ltb,
  ◌==◌, if◌then◌else◌, length, take, drop, u64, map,
}
use go_blob.Bytes.{put_be, get_be}

pub record NeedleValue : Type 0 where
  pub offset : ℕ
  pub size : ℕ

unfoldable pub is_deleted : NeedleValue → Bool
is_deleted v = v.size == 0

abbrev pub Entries : Type 0
Entries = List (ℕ × NeedleValue)

pub record MemDb : Type 0 where
  pub entries : Entries
  pub file : Option (List ℕ)
  pub content_size : ℕ
  pub deleted_size : ℕ
  pub file_count : ℕ
  pub deleted_count : ℕ

-- NewMemDb
abbrev pub new_mem_db : MemDb
new_mem_db = record {
  entries = [];
  file = none;
  content_size = 0;
  deleted_size = 0;
  file_count = 0;
  deleted_count = 0;
}

-- m.m[key]
unfoldable pub lookup : ℕ → Entries → Option NeedleValue
lookup k [] = none
lookup k ((j, v) ∷ es) = if j == k then some v else lookup k es

-- m.m[key] = v
unfoldable pub insert : ℕ → NeedleValue → Entries → Entries
insert k v [] = (k, v) ∷ []
insert k v ((j, w) ∷ es) = if j == k then (j, v) ∷ es else (j, w) ∷ insert k v es

abbrev pub add64 : ℕ → ℕ → ℕ
add64 a b = (a + b) % u64

abbrev pub sub64 : ℕ → ℕ → ℕ
sub64 a b = (a + (u64 - b % u64)) % u64

pub data IndexError : Type 0 where
  not_found deleted write_failed : IndexError

-- Get
unfoldable pub get : MemDb → ℕ → Option NeedleValue × Option IndexError
unfolding lookup is_deleted
get m id = elim (lookup id m.entries) [
  | none ↦ (none, some not_found)
  | some v ↦ if is_deleted v then (none, some deleted) else (some v, none)
]

-- The statistics of an entry that is about to be replaced, taken off. Put and Load share it.
unfoldable pub release : Option NeedleValue → MemDb → MemDb
unfolding is_deleted
release none m = m
release (some old) m =
    if is_deleted old
    then record m {
      deleted_count = sub64 m.deleted_count 1;
      deleted_size = sub64 m.deleted_size old.size;
    }
    else record m {
      file_count = sub64 m.file_count 1;
      content_size = sub64 m.content_size old.size;
    }

-- The statistics of a new entry, added. Put and Load share it.
unfoldable pub count_in : ℕ → MemDb → MemDb
count_in size m =
    if size == 0
    then record m { deleted_count = add64 m.deleted_count 1 }
    else record m { file_count = add64 m.file_count 1; content_size = add64 m.content_size size }

-- The 16 bytes of appendEntry.
unfoldable pub entry_bytes : ℕ → NeedleValue → List ℕ
entry_bytes key v = put_be 8 key ++ (put_be 4 v.offset ++ put_be 4 v.size)

-- The file part of Put and Delete, with appendEntry. `written` is whether the file takes the write.
unfoldable pub append_entry : Bool → ℕ → NeedleValue → MemDb → MemDb × Option IndexError
unfolding entry_bytes
append_entry written key v m = elim m.file [
  | none ↦ (m, none)
  | some bytes ↦
      if written
      then (record m { file = some (bytes ++ entry_bytes key v) }, none)
      else (m, some write_failed)
]

-- The map and the statistics after Put, before the write.
unfoldable pub put_entry : ℕ → NeedleValue → MemDb → MemDb
unfolding release count_in lookup insert
put_entry key v m =
    let counted = count_in v.size (release (lookup key m.entries) m) in
    record counted { entries = insert key v m.entries }

-- Put
unfoldable pub put : Bool → MemDb → ℕ → ℕ → ℕ → MemDb × Option IndexError
unfolding put_entry append_entry
put written m key offset size =
    append_entry written key (record { offset = offset; size = size })
      (put_entry key (record { offset = offset; size = size }) m)

-- The map and the statistics after a Delete of a live entry, before the write.
unfoldable pub bury : ℕ → NeedleValue → MemDb → MemDb
unfolding insert
bury key old m = record m {
  file_count = sub64 m.file_count 1;
  content_size = sub64 m.content_size old.size;
  deleted_count = add64 m.deleted_count 1;
  deleted_size = add64 m.deleted_size old.size;
  entries = insert key (record { offset = old.offset; size = 0 }) m.entries;
}

-- Delete
unfoldable pub delete : Bool → MemDb → ℕ → MemDb × Option IndexError
unfolding lookup is_deleted bury append_entry
delete written m key = elim (lookup key m.entries) [
  | none ↦ (m, some not_found)
  | some old ↦
      if is_deleted old
      then (m, none)
      else append_entry written key (record { offset = old.offset; size = 0 }) (bury key old m)
]

-- One record of Load: its three fields, then the statistics and the map.
unfoldable pub load_entry : List ℕ → MemDb → MemDb
unfolding release count_in lookup insert
load_entry buf m =
    let key = get_be (take 8 buf) in
    let v : NeedleValue = record {
      offset = get_be (take 4 (drop 8 buf));
      size = get_be (take 4 (drop 12 buf));
    } in
    count_in v.size (record (release (lookup key m.entries) m) { entries = insert key v m.entries })

-- The loop of Load: a rest of fewer than 16 bytes ends it.
unfoldable pub load_loop : ℕ → List ℕ → MemDb → MemDb
load_loop zero bytes m = m
load_loop (suc fuel) bytes m =
    let rest = load_loop fuel (drop 16 bytes) (load_entry (take 16 bytes) m) in
    if ltb (length bytes) 16 then m else rest

-- Load, on the bytes of a file that is there and readable. One round for each byte is enough.
unfoldable pub load : List ℕ → MemDb → MemDb
unfolding load_loop load_entry
load bytes m = load_loop (length bytes) bytes m

-- Close
unfoldable pub close : MemDb → MemDb
close m = record m { file = none }

-- OpenIndexFile, where the file can be opened: appending to what it holds.
unfoldable pub open_index_file : List ℕ → MemDb → MemDb
open_index_file bytes m = record m { file = some bytes }

-- LoadNeedleMap on the bytes of the index file.
unfoldable pub load_needle_map : List ℕ → MemDb
unfolding load open_index_file
load_needle_map bytes = open_index_file bytes (load bytes new_mem_db)

-- The loop of CompactIndex: the records of the live entries.
unfoldable pub live_records : Entries → List ℕ
unfolding is_deleted entry_bytes
live_records [] = []
live_records ((k, v) ∷ es) =
    if is_deleted v then live_records es else entry_bytes k v ++ live_records es

-- CompactIndex, from the bytes of the input file to those of the output file.
unfoldable pub compact_index : List ℕ → List ℕ
unfolding load live_records
compact_index bytes = live_records (load bytes new_mem_db).entries

-- The calls that change a MemDb; the flag of a write is whether the index file takes it.
pub data Call : Type 0 where
  put_call : Bool → ℕ → ℕ → ℕ → Call
  delete_call : Bool → ℕ → Call
  load_call : List ℕ → Call
  open_call : List ℕ → Call
  close_call : Call

unfoldable pub step : MemDb → Call → MemDb
unfolding put delete load open_index_file close
step m (put_call written key offset size) = (put written m key offset size).0
step m (delete_call written key) = (delete written m key).0
step m (load_call bytes) = load bytes m
step m (open_call bytes) = open_index_file bytes m
step m close_call = close m

unfoldable pub run : MemDb → List Call → MemDb
run m [] = m
run m (c ∷ cs) = run (step m c) cs
