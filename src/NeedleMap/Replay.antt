-- ===== src/NeedleMap/Replay.antt =====
-- The index file replays to the map that it was written from.
use go_blob.Base.{
  take_len, drop_len, ℕ, zero, suc, ◌+◌, ◌*◌, ◌<◌, ◌≤◌, ◌≡◌, ◌∙◌, refl, sym, ap, List, [], ◌∷◌,
  ◌++◌, arith, u64, u32, take, drop, length, append_assoc, append-nil, length-append,
  take-append_le, drop-append_le, length-drop, drop-append_length, take_of_length-le, le→not-ltb,
}
use native.Mathlib.Nat.{suc-add}
use go_blob.Bytes.{put_be, get_be}
use go_blob.Bytes.Laws.{length-put_be, get_be-put_be}
use go_blob.NeedleMap.{
  NeedleValue, MemDb, put_entry, entry_bytes, load_entry, load_loop, load, new_mem_db,
}
use go_blob.NeedleMap.Stats.{value_of, load_entry-put_entry}

load_loop-nil : (fuel : ℕ) (m : MemDb) → load_loop fuel [] m ≡ m
unfolding load_loop
load_loop-nil zero m = refl
load_loop-nil (suc fuel) m = refl

load_loop_step :
    (fuel : ℕ) (bytes : List ℕ) (m : MemDb)
    → 16 ≤ length bytes
    → load_loop (suc fuel) bytes m ≡ load_loop fuel (drop 16 bytes) (load_entry (take 16 bytes) m)
unfolding load_loop
load_loop_step fuel bytes m h = rw (le→not-ltb (length bytes) 16 h)

-- A file of `n` whole records takes `n` rounds, and one more record is one more load_entry.
load_loop-append :
    (n extra : ℕ) (bytes last : List ℕ) (m : MemDb)
    → length bytes ≡ 16 * n
    → length last ≡ 16
    → load_loop (suc (n + extra)) (bytes ++ last) m
      ≡ load_entry last (load_loop (n + extra) bytes m)
load_loop-append zero extra [] last m h l = rw (
  load_loop_step (zero + extra) last m (omega arith),
  take_of_length-le 16 last (omega arith),
  ends,
  load_loop-nil (zero + extra) m,
  load_loop-nil (zero + extra) (load_entry last m),
)
  where
    ends : drop 16 last ≡ []
    ends = rw (append-nil, l) at (drop-append_length last [])
load_loop-append zero extra (b ∷ bytes) last m h l = absurd (omega arith)
load_loop-append (suc n) extra bytes last m h l =
    rw
      (
        suc-add n extra,
        load_loop_step (suc (n + extra)) (bytes ++ last) m
            (omega (arith, length-append bytes last)),
        load_loop_step (n + extra) bytes m (omega arith),
        take-append_le 16 bytes last (omega arith),
        drop-append_le 16 bytes last (omega arith),
      )
      (load_loop-append n extra (drop 16 bytes) last (load_entry (take 16 bytes) m)
        (omega (arith, length-drop 16 bytes)) l)

-- More fuel than records changes nothing.
load_loop_fuel :
    (n a b : ℕ) (bytes : List ℕ) (m : MemDb)
    → length bytes ≡ 16 * n
    → load_loop (n + a) bytes m ≡ load_loop (n + b) bytes m
load_loop_fuel zero a b [] m h = load_loop-nil (zero + a) m ∙ sym (load_loop-nil (zero + b) m)
load_loop_fuel zero a b (x ∷ bytes) m h = absurd (omega arith)
load_loop_fuel (suc n) a b bytes m h =
    rw
      (
        suc-add n a,
        suc-add n b,
        load_loop_step (n + a) bytes m (omega arith),
        load_loop_step (n + b) bytes m (omega arith),
      )
      (load_loop_fuel n a b (drop 16 bytes) _ (omega (arith, length-drop 16 bytes)))

load-append :
    (n : ℕ) (bytes last : List ℕ) (m : MemDb)
    → length bytes ≡ 16 * n
    → length last ≡ 16
    → load (bytes ++ last) m ≡ load_entry last (load bytes m)
unfolding load
load-append n bytes last m h l =
    rw (long, short)
      (load_loop-append n (15 * n + 15) bytes last m h l
        ∙ ap (load_entry last) (load_loop_fuel n (15 * n + 15) (15 * n) bytes m h))
  where
    long : length (bytes ++ last) ≡ suc (n + (15 * n + 15))
    long = omega (arith, length-append bytes last)

    short : length bytes ≡ n + 15 * n
    short = omega arith

abbrev pub InRange : ℕ → NeedleValue → Type 0
InRange key v = (key < u64) × (v.offset < u32) × (v.size < u32)

pub length-entry_bytes : (key : ℕ) (v : NeedleValue) → length (entry_bytes key v) ≡ 16
unfolding entry_bytes
length-entry_bytes key v = omega (
  arith,
  length-append (put_be 8 key) (put_be 4 v.offset ++ put_be 4 v.size),
  length-append (put_be 4 v.offset) (put_be 4 v.size),
  length-put_be 8 key,
  length-put_be 4 v.offset,
  length-put_be 4 v.size,
)

-- A record of the index file is read back.
key-entry_bytes :
    (key : ℕ) (v : NeedleValue) → key < u64 → get_be (take 8 (entry_bytes key v)) ≡ key
unfolding entry_bytes
key-entry_bytes key v h =
    rw (take_len 8 (put_be 8 key) _ (length-put_be 8 key)) (get_be-put_be 8 key h)

value_of-entry_bytes :
    (key : ℕ) (v : NeedleValue) → InRange key v → value_of (entry_bytes key v) ≡ v
unfolding entry_bytes
value_of-entry_bytes key v (k, o, s) = rw (
  drop_len 8 (put_be 8 key) _ (length-put_be 8 key),
  take_len 4 (put_be 4 v.offset) _ (length-put_be 4 v.offset),
  get_be-put_be 4 v.offset o,
  last,
)
  where
    last :
        get_be (take 4 (drop 12 (put_be 8 key ++ (put_be 4 v.offset ++ put_be 4 v.size)))) ≡ v.size
    last =
        rw
          (
            ← append_assoc (put_be 8 key) (put_be 4 v.offset) (put_be 4 v.size),
            drop_len 12 (put_be 8 key ++ put_be 4 v.offset) (put_be 4 v.size) (
                omega (
                  arith,
                  length-append (put_be 8 key) (put_be 4 v.offset),
                  length-put_be 8 key,
                  length-put_be 4 v.offset,
                )),
            take_of_length-le 4 (put_be 4 v.size) (omega (arith, length-put_be 4 v.size)),
          )
          (get_be-put_be 4 v.size s)

pub load-snoc :
    (n : ℕ) (bytes : List ℕ) (key : ℕ) (v : NeedleValue)
    → length bytes ≡ 16 * n
    → InRange key v
    → load (bytes ++ entry_bytes key v) new_mem_db ≡ put_entry key v (load bytes new_mem_db)
load-snoc n bytes key v h r =
    load-append n bytes (entry_bytes key v) new_mem_db h (length-entry_bytes key v)
    ∙ rw (load_entry-put_entry, key-entry_bytes key v r.0, value_of-entry_bytes key v r)
