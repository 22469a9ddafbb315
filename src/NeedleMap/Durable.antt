-- ===== src/NeedleMap/Durable.antt =====
-- A MemDb that is reopened from its index file is the one that was closed, but for `deletedSize`.
use go_blob.Base.{
  ℕ, suc, ◌*◌, ◌<◌, ◌≡◌, ◌∙◌, refl, ap, true, false, Option, none, some, List, [], ◌∷◌, ◌++◌, arith,
  u64, u32, Option-cases, Bool-cases, inl, inr, length, length-append, All,
}
use go_blob.NeedleMap.{
  NeedleValue, MemDb, lookup, insert, is_deleted, release, count_in, put_entry, put, bury, delete,
  append_entry, entry_bytes, load, new_mem_db, load_needle_map, open_index_file, Call, put_call,
  delete_call, load_call, open_call, close_call, step, run,
}
use go_blob.NeedleMap.Assoc.{lookup-insert}
use go_blob.NeedleMap.Replay.{InRange, load-snoc, length-entry_bytes}

-- What a load rebuilds of a MemDb: all but the file and `deletedSize`.
abbrev pub scrub : MemDb → MemDb
scrub m = record m { file = none; deleted_size = 0 }

put_entry-scrub :
    (key : ℕ) (v : NeedleValue) (m : MemDb) → put_entry key v (scrub m) ≡ scrub (put_entry key v m)
unfolding put_entry
put_entry-scrub key v m = swap (lookup key m.entries)
  where
    swap :
        (o : Option NeedleValue)
        → record (count_in v.size (release o (scrub m))) { entries = insert key v m.entries }
          ≡ scrub (record (count_in v.size (release o m)) { entries = insert key v m.entries })
    swap o = ground arith

put_entry-bury :
    (key : ℕ) (old : NeedleValue) (m : MemDb)
    → lookup key m.entries ≡ some old
    → is_deleted old ≡ false
    → put_entry key (record { offset = old.offset; size = 0 }) (scrub m) ≡ scrub (bury key old m)
unfolding put_entry bury release count_in
put_entry-bury key old m e live = rw (e, live)

pub record IsDurable (m : MemDb) : Type 0 where
  pub records : ℕ
  pub bytes : List ℕ
  pub opened : m.file ≡ some bytes
  pub whole : length bytes ≡ 16 * records
  pub replays : load bytes new_mem_db ≡ scrub m
  pub ranged : (k : ℕ) (v : NeedleValue) → lookup k m.entries ≡ some v → v.offset < u32

file-put_entry : (key : ℕ) (v : NeedleValue) (m : MemDb) → (put_entry key v m).file ≡ m.file
unfolding put_entry release count_in
file-put_entry key v m = ground arith

entries-put_entry :
    (key : ℕ) (v : NeedleValue) (m : MemDb) → (put_entry key v m).entries ≡ insert key v m.entries
unfolding put_entry
entries-put_entry key v m = refl

append_entry-open :
    (key : ℕ) (v : NeedleValue) (m : MemDb) (bytes : List ℕ)
    → m.file ≡ some bytes
    → append_entry true key v m ≡ (record m { file = some (bytes ++ entry_bytes key v) }, none)
unfolding append_entry
append_entry-open key v m bytes e = ground arith

-- The step that Put and Delete share: the map takes the entry that the file takes.
log-IsDurable :
    (m m' : MemDb) (key : ℕ) (v : NeedleValue)
    → InRange key v
    → IsDurable m
    → put_entry key v (scrub m) ≡ scrub m'
    → m'.file ≡ m.file
    → m'.entries ≡ insert key v m.entries
    → IsDurable (append_entry true key v m').0
log-IsDurable m m' key v r h rebuilt file entries =
    rw (append_entry-open key v m' h.bytes (file ∙ h.opened)) (record {
      records = suc h.records;
      bytes = h.bytes ++ entry_bytes key v;
      opened = refl;
      whole =
          omega
            (arith, length-append h.bytes (entry_bytes key v), length-entry_bytes key v, h.whole);
      replays =
          load-snoc h.records h.bytes key v h.whole r ∙ ap (put_entry key v) h.replays ∙ rebuilt;
      ranged = λ k w p. ground (arith, entries, lookup-insert key k v m.entries, h.ranged k w);
    })

pub put-IsDurable :
    (m : MemDb) (key offset size : ℕ)
    → key < u64
    → offset < u32
    → size < u32
    → IsDurable m
    → IsDurable (put true m key offset size).0
unfolding put
put-IsDurable m key offset size hk ho hs h =
    let v : NeedleValue = record { offset = offset; size = size } in
    log-IsDurable m (put_entry key v m) key v (hk, ho, hs) h (put_entry-scrub key v m)
      (file-put_entry key v m) (entries-put_entry key v m)

file-bury : (key : ℕ) (old : NeedleValue) (m : MemDb) → (bury key old m).file ≡ m.file
unfolding bury
file-bury key old m = refl

entries-bury :
    (key : ℕ) (old : NeedleValue) (m : MemDb)
    → (bury key old m).entries ≡ insert key (record { offset = old.offset; size = 0 }) m.entries
unfolding bury
entries-bury key old m = refl

pub delete-IsDurable :
    (m : MemDb) (key : ℕ) → key < u64 → IsDurable m → IsDurable (delete true m key).0
unfolding delete
delete-IsDurable m key hk h = elim (Option-cases (lookup key m.entries)) [
  | inl e ↦ rw (e, delete) h
  | inr (old, e) ↦ elim (Bool-cases (is_deleted old)) [
    | inl dead ↦ rw (e, dead, delete) h
    | inr live ↦
        rw (e, live, delete)
          (log-IsDurable m (bury key old m) key (record { offset = old.offset; size = 0 })
            (hk, h.ranged key old e, omega arith) h (put_entry-bury key old m e live)
            (file-bury key old m) (entries-bury key old m))
  ]
]

-- A Put or a Delete whose write succeeds, with arguments in the ranges of their types.
abbrev pub IsLogged : Call → Type 0
IsLogged (put_call written key offset size) =
    (written ≡ true) × (key < u64) × (offset < u32) × (size < u32)
IsLogged (delete_call written key) = (written ≡ true) × (key < u64)
IsLogged (load_call bytes) = ⊥
IsLogged (open_call bytes) = ⊥
IsLogged close_call = ⊥

step-IsDurable : (m : MemDb) (c : Call) → IsLogged c → IsDurable m → IsDurable (step m c)
unfolding step
step-IsDurable m (put_call written key offset size) (w, k, o, s) h =
    rw w (put-IsDurable m key offset size k o s h)
step-IsDurable m (delete_call written key) (w, k) h = rw w (delete-IsDurable m key k h)
step-IsDurable m (load_call bytes) l h = elim l [ ]
step-IsDurable m (open_call bytes) l h = elim l [ ]
step-IsDurable m close_call l h = elim l [ ]

run-IsDurable : (m : MemDb) (cs : List Call) → All IsLogged cs → IsDurable m → IsDurable (run m cs)
unfolding run
run-IsDurable m [] l h = h
run-IsDurable m (c ∷ cs) l h = run-IsDurable (step m c) cs l.1 (step-IsDurable m c l.0 h)

abbrev pub started : MemDb
started = record new_mem_db { file = some [] }

pub started-IsDurable : IsDurable started
unfolding load lookup
started-IsDurable = record {
  records = 0;
  bytes = [];
  opened = refl;
  whole = refl;
  replays = refl;
  ranged = λ k v p. cc;
}

-- After any Puts and Deletes on a new MemDb over an empty index file, with arguments in range and
-- all writes taken, LoadNeedleMap on the file that they left returns a MemDb over the same file
-- that has the same entries and the same statistics, except that its deletedSize is 0.
pub load_needle_map-run :
    (cs : List Call)
    → All IsLogged cs
    → (bytes : List ℕ) × ((run started cs).file ≡ some bytes)
      × (load_needle_map bytes ≡ record (run started cs) { deleted_size = 0 })
unfolding load_needle_map open_index_file
load_needle_map-run cs l =
    let h = run-IsDurable started cs l started-IsDurable in
    (h.bytes, h.opened, ground (arith, h.replays, h.opened))
