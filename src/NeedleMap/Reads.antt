-- ===== src/NeedleMap/Reads.antt =====
-- goblob/storage/volume/needle_map.go: what Get answers after Put and Delete.
use go_blob.Base.{
  ℕ, ◌≡◌, ◌≢◌, ◌⊎◌, refl, ap, sym, ◌∙◌, Bool, true, Option, none, some, ◌==◌, ==_self, ==_ne,
  if◌then◌else◌, arith, Option-cases, Bool-cases, inl, inr,
}
use go_blob.NeedleMap.{
  NeedleValue, MemDb, IndexError, deleted, not_found, lookup, insert, is_deleted, get, put,
  put_entry, delete, bury, append_entry,
}
use go_blob.NeedleMap.Assoc.{lookup-insert}

append_entry-entries :
    (written : Bool) (key : ℕ) (v : NeedleValue) (m : MemDb)
    → (append_entry written key v m).0.entries ≡ m.entries
unfolding append_entry
append_entry-entries written key v m = ground arith

put-entries :
    (written : Bool) (m : MemDb) (key offset size : ℕ)
    → (put written m key offset size).0.entries
      ≡ insert key (record { offset = offset; size = size }) m.entries
unfolding put put_entry
put-entries written m key offset size =
    append_entry-entries written key (record { offset = offset; size = size })
      (put_entry key (record { offset = offset; size = size }) m)

-- The answer of Get to what the map holds for the key.
abbrev answer_of : Option NeedleValue → Option NeedleValue × Option IndexError
answer_of none = (none, some not_found)
answer_of (some v) = if is_deleted v then (none, some deleted) else (some v, none)

get-answer_of : (m : MemDb) (k : ℕ) → get m k ≡ answer_of (lookup k m.entries)
unfolding get
get-answer_of m k = elim (Option-cases (lookup k m.entries)) [
  | inl gone ↦ rw (gone, get) refl
  | inr (v, e) ↦ rw (e, get) refl
]

get-insert :
    (m m' : MemDb) (key : ℕ) (v : NeedleValue)
    → m'.entries ≡ insert key v m.entries
    → (get m' key ≡ answer_of (some v)) × ((j : ℕ) → j ≢ key → get m' j ≡ get m j)
get-insert m m' key v e = (
  get-answer_of m' key ∙ ap answer_of (at key ∙ hit),
  λ j other. get-answer_of m' j ∙ ap answer_of (at j ∙ missed j other) ∙ sym (get-answer_of m j),
)
  where
    at : (j : ℕ) → lookup j m'.entries ≡ (if key == j then some v else lookup j m.entries)
    at j = ap (lookup j) e ∙ lookup-insert key j v m.entries

    hit : (if key == key then some v else lookup key m.entries) ≡ some v
    hit = rw (==_self key) refl

    missed :
        (j : ℕ) → j ≢ key → (if key == j then some v else lookup j m.entries) ≡ lookup j m.entries
    missed j other = rw (==_ne key j (λ same. other (sym same))) refl

-- After a Put, whether or not its write was taken, Get answers with the offset and the size that
-- were put, or that the needle is deleted where the size is 0; for every other key it answers as
-- before.
pub get-put :
    (written : Bool) (m : MemDb) (key offset size : ℕ)
    → (get (put written m key offset size).0 key ≡ (
        if size == 0
        then (none, some deleted)
        else (some (record { offset = offset; size = size }), none)))
      × ((j : ℕ) → j ≢ key → get (put written m key offset size).0 j ≡ get m j)
unfolding is_deleted
get-put written m key offset size =
    get-insert m (put written m key offset size).0 key (record { offset = offset; size = size })
      (put-entries written m key offset size)

dead_answer : (v : NeedleValue) → is_deleted v ≡ true → (answer_of (some v)).0 ≡ none
dead_answer v dead = rw dead refl

delete-cases :
    (written : Bool) (m : MemDb) (key : ℕ)
    → (((delete written m key).0 ≡ m) × ((get m key).0 ≡ none))
      ⊎ ((v : NeedleValue) × (is_deleted v ≡ true)
          × ((delete written m key).0.entries ≡ insert key v m.entries))
unfolding delete bury is_deleted get
delete-cases written m key = elim (Option-cases (lookup key m.entries)) [
  | inl gone ↦ inl (rw (gone, delete) refl, rw (gone, get) refl)
  | inr (old, e) ↦ elim (Bool-cases (is_deleted old)) [
    | inl dead ↦ inl (rw (e, dead, delete) refl, rw (e, dead, get) refl)
    | inr live ↦ inr (
      record { offset = old.offset; size = 0 },
      refl,
      rw (e, live, delete)
          (append_entry-entries written key (record { offset = old.offset; size = 0 })
            (bury key old m)),
    )
  ]
]

-- After a Delete, whether or not its write was taken, Get finds no value for the key; for every
-- other key it answers as before.
pub get-delete :
    (written : Bool) (m : MemDb) (key : ℕ)
    → ((get (delete written m key).0 key).0 ≡ none)
      × ((j : ℕ) → j ≢ key → get (delete written m key).0 j ≡ get m j)
get-delete written m key = elim (delete-cases written m key) [
  | inl (same, none_left) ↦
      (ap (λ d. (get d key).0) same ∙ none_left, λ j other. ap (λ d. get d j) same)
  | inr (v, dead, e) ↦
      let g = get-insert m (delete written m key).0 key v e in
      (ap (λ r. r.0) g.0 ∙ dead_answer v dead, g.1)
]

answer_of-absent :
    (o : Option NeedleValue)
    → (answer_of o).0 ≡ none
    → (e : IndexError) × ((answer_of o).1 ≡ some e)
answer_of-absent none h = (not_found, refl)
answer_of-absent (some v) h = elim (Bool-cases (is_deleted v)) [
  | inl dead ↦ (deleted, rw dead refl)
  | inr live ↦ absurd (some-ne-none (sym (rw live refl) ∙ h))
]
  where
    some-ne-none : ◌≡◌ {A = Option NeedleValue} (some v) none → ⊥
    some-ne-none e = cc

-- Where Get finds no value it has an error.
pub get-absent :
    (m : MemDb) (k : ℕ) → (get m k).0 ≡ none → (e : IndexError) × ((get m k).1 ≡ some e)
get-absent m k h =
    let (e, g) =
      answer_of-absent (lookup k m.entries) (ap (λ r. r.0) (sym (get-answer_of m k)) ∙ h) in
    (e, ap (λ r. r.1) (get-answer_of m k) ∙ g)
