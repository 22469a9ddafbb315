-- ===== src/NeedleMap/Stats.antt =====
-- The statistics of MemDb are those of its entries.
use go_blob.Base.{
  ℕ, ◌+◌, ◌%◌, ◌≡◌, Bool, false, Option, some, List, [], ◌∷◌, arith, ◌==◌, if◌then◌else◌, u64,
  Option-cases, Bool-cases, inl, inr, zero, suc, ltb, take, drop, length,
}
use go_blob.Bytes.{get_be}
use go_blob.NeedleMap.{
  NeedleValue, Entries, MemDb, lookup, insert, is_deleted, release, count_in, put_entry, put, bury,
  delete, append_entry, load_entry, load_loop, load, new_mem_db, Call, put_call, delete_call,
  load_call, open_call, close_call, step, run,
}
use go_blob.NeedleMap.Assoc.{total, measure, total-insert}

abbrev pub live_bytes : NeedleValue → ℕ
live_bytes v = if v.size == 0 then 0 else v.size

abbrev pub is_live : NeedleValue → ℕ
is_live v = if v.size == 0 then 0 else 1

abbrev pub is_dead : NeedleValue → ℕ
is_dead v = if v.size == 0 then 1 else 0

-- The counters agree with the entries, in 64 bits, and the sizes are those of a uint32.
pub record IsCounted (m : MemDb) : Type 0 where
  pub content : m.content_size ≡ total live_bytes m.entries % u64
  pub files : m.file_count ≡ total is_live m.entries % u64
  pub deletions : m.deleted_count ≡ total is_dead m.entries % u64

-- What `release` and `count_in` do to a counter that counts by `f`.
module _ (m : MemDb) (o : Option NeedleValue) (v : NeedleValue) (es : Entries) where
  content_moves :
      m.content_size ≡ total live_bytes m.entries % u64
      → total live_bytes es + measure live_bytes o ≡ total live_bytes m.entries + live_bytes v
      → (count_in v.size (release o m)).content_size ≡ total live_bytes es % u64
  unfolding count_in release
  content_moves h e = ground arith

  files_moves :
      m.file_count ≡ total is_live m.entries % u64
      → total is_live es + measure is_live o ≡ total is_live m.entries + is_live v
      → (count_in v.size (release o m)).file_count ≡ total is_live es % u64
  unfolding count_in release
  files_moves h e = ground arith

  deletions_moves :
      m.deleted_count ≡ total is_dead m.entries % u64
      → total is_dead es + measure is_dead o ≡ total is_dead m.entries + is_dead v
      → (count_in v.size (release o m)).deleted_count ≡ total is_dead es % u64
  unfolding count_in release
  deletions_moves h e = ground arith

pub put_entry-IsCounted :
    (m : MemDb) (key : ℕ) (v : NeedleValue) → IsCounted m → IsCounted (put_entry key v m)
unfolding put_entry
put_entry-IsCounted m key v h =
    let es = insert key v m.entries in
    let o = lookup key m.entries in
    record {
      content = content_moves m o v es h.content (total-insert live_bytes key v m.entries);
      files = files_moves m o v es h.files (total-insert is_live key v m.entries);
      deletions = deletions_moves m o v es h.deletions (total-insert is_dead key v m.entries);
    }

append_entry-IsCounted :
    (written : Bool) (key : ℕ) (v : NeedleValue) (m : MemDb)
    → IsCounted m
    → IsCounted (append_entry written key v m).0
unfolding append_entry
append_entry-IsCounted written key v m h = ground arith

pub put-IsCounted :
    (written : Bool) (m : MemDb) (key offset size : ℕ)
    → IsCounted m
    → IsCounted (put written m key offset size).0
unfolding put
put-IsCounted written m key offset size h =
    append_entry-IsCounted written key _ _ (put_entry-IsCounted m key _ h)

bury-IsCounted :
    (m : MemDb) (key : ℕ) (old : NeedleValue)
    → lookup key m.entries ≡ some old
    → is_deleted old ≡ false
    → IsCounted m
    → IsCounted (bury key old m)
unfolding bury is_deleted
bury-IsCounted m key old found live h =
    let v : NeedleValue = record { offset = old.offset; size = 0 } in
    ground (
      arith,
      total-insert live_bytes key v m.entries,
      total-insert is_live key v m.entries,
      total-insert is_dead key v m.entries,
    )

pub delete-IsCounted :
    (written : Bool) (m : MemDb) (key : ℕ) → IsCounted m → IsCounted (delete written m key).0
unfolding delete
delete-IsCounted written m key h = elim (Option-cases (lookup key m.entries)) [
  | inl e ↦ rw (e, delete) h
  | inr (old, e) ↦ elim (Bool-cases (is_deleted old)) [
    | inl dead ↦ rw (e, dead, delete) h
    | inr live ↦
        rw (e, live, delete)
          (append_entry-IsCounted written key _ _ (bury-IsCounted m key old e live h))
  ]
]

entries_last :
    (size : ℕ) (o : Option NeedleValue) (es : Entries) (m : MemDb)
    → count_in size (record (release o m) { entries = es })
      ≡ record (count_in size (release o m)) { entries = es }
unfolding count_in release
entries_last size o es m = ground arith

-- The value that a record of the index file holds.
abbrev pub value_of : List ℕ → NeedleValue
value_of buf = record {
  offset = get_be (take 4 (drop 8 buf));
  size = get_be (take 4 (drop 12 buf));
}

-- A record of the index file counts like a Put.
pub load_entry-put_entry :
    (buf : List ℕ) (m : MemDb) → load_entry buf m ≡ put_entry (get_be (take 8 buf)) (value_of buf) m
unfolding load_entry put_entry
load_entry-put_entry buf m =
    let key = get_be (take 8 buf) in
    entries_last (value_of buf).size (lookup key m.entries) (insert key (value_of buf) m.entries) m

load_loop-IsCounted :
    (fuel : ℕ) (bytes : List ℕ) (m : MemDb) → IsCounted m → IsCounted (load_loop fuel bytes m)
unfolding load_loop
load_loop-IsCounted zero bytes m h = h
load_loop-IsCounted (suc fuel) bytes m h =
    let first : IsCounted (load_entry (take 16 bytes) m) =
      rw (load_entry-put_entry (take 16 bytes) m) (put_entry-IsCounted m _ _ h) in
    elim (Bool-cases (ltb (length bytes) 16)) [
      | inl done ↦ rw done h
      | inr more ↦ rw more (load_loop-IsCounted fuel (drop 16 bytes) _ first)
    ]

pub load-IsCounted : (bytes : List ℕ) (m : MemDb) → IsCounted m → IsCounted (load bytes m)
unfolding load
load-IsCounted bytes m h = load_loop-IsCounted (length bytes) bytes m h

pub new_mem_db-IsCounted : IsCounted new_mem_db
new_mem_db-IsCounted = omega arith

step-IsCounted : (m : MemDb) (c : Call) → IsCounted m → IsCounted (step m c)
unfolding step
step-IsCounted m (put_call written key offset size) h = put-IsCounted written m key offset size h
step-IsCounted m (delete_call written key) h = delete-IsCounted written m key h
step-IsCounted m (load_call bytes) h = load-IsCounted bytes m h
step-IsCounted m (open_call bytes) h = record {
  content = h.content;
  files = h.files;
  deletions = h.deletions;
}
step-IsCounted m close_call h = record {
  content = h.content;
  files = h.files;
  deletions = h.deletions;
}

run_counts : (m : MemDb) (cs : List Call) → IsCounted m → IsCounted (run m cs)
unfolding run
run_counts m [] h = h
run_counts m (c ∷ cs) h = run_counts (step m c) cs (step-IsCounted m c h)

-- After any calls of Put, Delete, Load, OpenIndexFile and Close on a new MemDb, in any order and
-- whichever of their writes fail, contentSize is the sum of the sizes of the live entries,
-- fileCount their number and deletedCount the number of the tombstones, each in 64 bits.
pub run-IsCounted : (cs : List Call) → IsCounted (run new_mem_db cs)
run-IsCounted cs = run_counts new_mem_db cs new_mem_db-IsCounted
