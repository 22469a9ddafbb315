-- ===== src/Volume/Compact/Copied.antt =====
-- goblob/storage/volume/compact.go: what Compact has copied when it has visited some of the index.
use go_blob.Base.{
  ℕ, ◌+◌, ◌/◌, ◌%◌, ◌<◌, ◌≡◌, ◌∙◌, refl, sym, ap, subst, Bool, true, false, Option, none, some,
  List, [], ◌∷◌, arith, if◌then◌else◌, ◌==◌, ==_self, ==_iff, length, append-nil, u64, Bool-cases,
  inl, inr,
}
use go_blob.Types.{to_actual_offset}
use go_blob.Needle.{Needle}
use go_blob.Needle.Read.{is_expired}
use go_blob.Needle.Image.{disk_size, part_size}
use go_blob.Needle.RoundTrip.{padding_aligns}
use go_blob.NeedleMap.{
  NeedleValue, Entries, MemDb, IndexError, deleted, lookup, get, put, append_entry, is_deleted,
}
use go_blob.Volume.{Volume, ok, err, lookup_failed, placed_at, read_needle_from_file}
use go_blob.Volume.Reads.{aligned}
use go_blob.Volume.Steps.{Store, assign, Holds, Represents}
use go_blob.Volume.Reopen.{IsOpenable}
use go_blob.Volume.Compact.{Copying, next_block}

-- The map without the needles that have expired.
abbrev pub survivor : ℕ → Option Needle → Option Needle
survivor now none = none
survivor now (some n) = if is_expired now n (n.append_at_ns / 1000000000) then none else some n

abbrev pub survivors : (ℕ → ℕ) → Store → Store
survivors now m id = survivor (now id) (m id)

abbrev pub unless_listed : Option NeedleValue → Option Needle → Option Needle
unless_listed none o = o
unless_listed (some nv) o = none

-- The part of the map whose entries have been visited.
abbrev pub pending : (ℕ → ℕ) → Store → Entries → Store
pending now m todo id = unless_listed (lookup id todo) (survivors now m id)

-- The bytes of the records that are copied.
abbrev pub weight : ℕ → Option Needle → ℕ
weight version none = 0
weight version (some n) = disk_size version n

abbrev pub room : ℕ → Store → Entries → ℕ
room version m [] = 0
room version m ((id, nv) ∷ todo) = weight version (m id) + room version m todo

-- The entries that are listed stand in the index, each listed once, under uint64 keys.
abbrev pub IsListed : Entries → Entries → Type 0
IsListed index [] = Unit
IsListed index ((k, nv) ∷ todo) =
    (lookup k index ≡ some nv) × (lookup k todo ≡ none) × (k < u64) × IsListed index todo

-- The temporary files as a volume.
abbrev pub volume_of : Volume → Copying → Volume
volume_of v s = record {
  dat = s.cpd;
  nm = s.cpx;
  super_block = next_block v.super_block;
  read_only = false;
  no_write_or_delete = false;
}

pub record IsCopied (v : Volume) (m : Store) (s : Copying) : Type 0 where
  pub running : s.state ≡ ok tt
  pub at_end : s.current_offset ≡ length s.cpd
  pub even : length s.cpd % 8 ≡ 0
  pub openable : IsOpenable (volume_of v s)
  pub represents : Represents (volume_of v s) m

pub Represents-congr :
    (v : Volume) (m m' : Store) → ((id : ℕ) → m id ≡ m' id) → Represents v m → Represents v m'
Represents-congr v m m' same h = record {
  writable = h.writable;
  thawed = h.thawed;
  holds = λ id. subst (Holds v id) (same id) (h.holds id);
}

pub put-taken :
    (taken : Bool) (m : MemDb) (key offset size : ℕ)
    → taken ≡ true
    → (put taken m key offset size).1 ≡ none
unfolding put append_entry
put-taken taken m key offset size e = ground arith

pub aligned-even : (dat : List ℕ) → length dat % 8 ≡ 0 → aligned dat ≡ dat
aligned-even dat even = rw even (append-nil dat)

pub unlisted :
    (k : ℕ) (nv : NeedleValue) (todo : Entries)
    → unless_listed (lookup k ((k, nv) ∷ todo)) ≡ λ o. none
unfolding lookup
unlisted k nv todo = rw (==_self k)

-- A visit changes the pending map at its id alone.
pub pending-cons :
    (now : ℕ → ℕ) (m : Store) (k : ℕ) (nv : NeedleValue) (todo : Entries) (o : Option Needle)
    → lookup k todo ≡ none
    → survivors now m k ≡ o
    → (id : ℕ) → assign k o (pending now m ((k, nv) ∷ todo)) id ≡ pending now m todo id
unfolding lookup
pending-cons now m k nv todo o fresh here id = elim (Bool-cases (k == id)) [
  | inl same ↦ ground (arith, ==_iff k id, fresh)
  | inr other ↦ rw other
]

pub pending-skip :
    (now : ℕ → ℕ) (m : Store) (k : ℕ) (nv : NeedleValue) (todo : Entries)
    → lookup k todo ≡ none
    → survivors now m k ≡ none
    → (id : ℕ) → pending now m ((k, nv) ∷ todo) id ≡ pending now m todo id
unfolding lookup
pending-skip now m k nv todo fresh here id = elim (Bool-cases (k == id)) [
  | inl same ↦
      let at : k ≡ id = (==_iff k id).0 same in
      rw same
        (sym (ap (λ i. unless_listed (lookup i todo) (survivors now m i)) (sym at) ∙ rw fresh here))
  | inr other ↦ rw other
]

pub assign_fresh : (p : Store) (k : ℕ) → p k ≡ none → (id : ℕ) → p id ≡ assign k none p id
assign_fresh p k fresh id = elim (Bool-cases (k == id)) [
  | inl same ↦ rw same (ap p (sym ((==_iff k id).0 same)) ∙ fresh)
  | inr other ↦ rw other
]

-- The counters do not matter.
unfoldable pub recounted : ℕ → ℕ → ℕ → Copying → Copying
recounted read gone expired s = record s {
  needles_read = read;
  needles_deleted = gone;
  needles_expired = expired;
}

pub recounted-cpd :
    (read gone expired : ℕ) (s : Copying) → (recounted read gone expired s).cpd ≡ s.cpd
unfolding recounted
recounted-cpd read gone expired s = refl

pub recounted-IsCopied :
    (v : Volume) (p : Store) (read gone expired : ℕ) (s : Copying)
    → IsCopied v p s
    → IsCopied v p (recounted read gone expired s)
unfolding recounted
recounted-IsCopied v p read gone expired s h = record {
  running = h.running;
  at_end = h.at_end;
  even = h.even;
  openable = h.openable;
  represents = h.represents;
}

pub IsCopied-congr :
    (v : Volume) (p p' : Store) (s : Copying)
    → ((id : ℕ) → p id ≡ p' id)
    → IsCopied v p s
    → IsCopied v p' s
IsCopied-congr v p p' s same h = record {
  running = h.running;
  at_end = h.at_end;
  even = h.even;
  openable = h.openable;
  represents = Represents-congr (volume_of v s) p p' same h.represents;
}

-- What a volume holds for an id that the index lists.
pub placed-dead :
    (m : MemDb) (k : ℕ) (nv : NeedleValue)
    → lookup k m.entries ≡ some nv
    → is_deleted nv ≡ true
    → placed_at (get m k) ≡ err (lookup_failed deleted)
unfolding get placed_at
placed-dead m k nv found dead = rw (found, get) (rw dead refl)

pub placed-live :
    (m : MemDb) (k : ℕ) (nv : NeedleValue)
    → lookup k m.entries ≡ some nv
    → is_deleted nv ≡ false
    → placed_at (get m k) ≡ ok nv
unfolding get placed_at
placed-live m k nv found live = rw (found, get) (rw live refl)

pub dead-Holds :
    (v : Volume) (k : ℕ) (o : Option Needle) (e : IndexError)
    → Holds v k o
    → placed_at (get v.nm k) ≡ err (lookup_failed e)
    → o ≡ none
dead-Holds v k none e h gone = refl
dead-Holds v k (some n) e (nv, placed, r) gone = cc

pub live-Holds :
    (v : Volume) (k : ℕ) (o : Option Needle) (nv : NeedleValue)
    → Holds v k o
    → placed_at (get v.nm k) ≡ ok nv
    → (n : Needle) × (o ≡ some n)
      × (read_needle_from_file v.dat (to_actual_offset nv.offset) nv.size v.super_block.version
          ≡ ok n)
live-Holds v k none nv (e, gone) placed = absurd (cc)
live-Holds v k (some n) nv (nv', placed', r) placed =
    let same : nv' ≡ nv = cc in
    (
      n,
      refl,
      ap (λ x. read_needle_from_file v.dat (to_actual_offset x.offset) x.size v.super_block.version)
            (sym same)
          ∙ r,
    )

pub disk_size-even : (version : ℕ) (n : Needle) → disk_size version n % 8 ≡ 0
disk_size-even version n = padding_aligns (16 + part_size version n)
