-- ===== src/Volume/Compact/Commit.antt =====
-- goblob/storage/volume/compact.go: the answers of a volume after a compaction.
use go_blob.Base.{
  ℕ, ◌+◌, ◌*◌, ◌<◌, ◌≤◌, ◌≡◌, ◌∙◌, refl, sym, ap, subst, Bool, true, false, none, List, [], ◌∷◌,
  arith, if◌then◌else◌, length, take_of_length-le, append-nil, u32, Option-cases, inl, inr,
}
use go_blob.Needle.{Needle}
use go_blob.Needle.RoundTrip.{append}
use go_blob.NeedleMap.{Entries, MemDb, not_found, lookup, get, open_index_file}
use go_blob.NeedleMap.Durable.{started-IsDurable}
use go_blob.SuperBlock.{super_block_bytes, parse_super_block}
use go_blob.SuperBlock.Laws.{parse_super_block-super_block_bytes}
use go_blob.Types.Placement.{Fits as FitsPlacement}
use go_blob.Volume.{
  Volume, low_garbage, ◌>>=◌, Outcome, ok, err, panic, lookup_failed, Placed, placed_at,
  index_needle, bury_needle, write_needle, write_needle_unlocked, delete_needle, get_needle,
  new_volume, first_block,
}
use go_blob.Volume.Steps.{
  Request, write_request, delete_request, serve, serve_all, tombstone, Store, assign_all, Fits,
  Answers, Holds, Represents, Holds-Answers,
}
use go_blob.Volume.Refine.{
  serve_all-Represents, new_volume-Represents, new_volume-empty, first_volume, ok-injective,
}
use go_blob.Volume.Reopen.{load_needle_map-IsDurable, forgetful}
use go_blob.Volume.Compact.{
  Copying, CompactionResult, next_block, start_copy, visit_all, finish_copy, compact,
  commit_compact, make_files, CompactDisk, CommitDisk, reload, swapped,
}
use go_blob.Volume.Compact.Kept.{IsKeptStore, assign_all-IsKeptStore, nothing-IsKeptStore}
use go_blob.Volume.Compact.Copied.{
  survivors, pending, room, volume_of, IsCopied, IsListed, dead-Holds,
}
use go_blob.Volume.Compact.Copy.{visit_all-Visited}

-- The entries of the index in some order, as a Go map is ranged over: each once, with a uint64 key.
pub record IsOrder (v : Volume) (order : Entries) : Type 0 where
  pub listed : IsListed v.nm.entries order
  pub complete : (id : ℕ) → lookup id order ≡ none → lookup id v.nm.entries ≡ none

absent-placed :
    (m : MemDb) (id : ℕ)
    → lookup id m.entries ≡ none
    → placed_at (get m id) ≡ err (lookup_failed not_found)
unfolding get placed_at
absent-placed m id e = rw (e, get)

-- Before the first visit.
pending-none :
    (now : ℕ → ℕ) (v : Volume) (m : Store) (order : Entries)
    → Represents v m
    → IsOrder v order
    → (id : ℕ) → pending now m order id ≡ none
pending-none now v m order h o id = elim (Option-cases (lookup id order)) [
  | inl fresh ↦
      let gone =
        dead-Holds v id (m id) not_found (h.holds id)
          (absent-placed v.nm id (o.complete id fresh)) in
      rw (fresh, gone)
  | inr (nv, listed) ↦ rw listed
]

start_copy-IsCopied :
    (v : Volume) (p : Store)
    → FitsPlacement v.super_block.replica_placement
    → ((id : ℕ) → p id ≡ none)
    → IsCopied v p (start_copy v) × (length (start_copy v).cpd ≡ 8)
unfolding start_copy open_index_file placed_at get
start_copy-IsCopied v p fits nothing =
    let sb = next_block v.super_block in
    let reads = parse_super_block-super_block_bytes sb [] fits (omega arith) in
    (
      record {
        running = refl;
        at_end = sym reads.0;
        even = omega (arith, reads.0);
        openable = record {
          durable = started-IsDurable;
          headed =
              ap parse_super_block (
                take_of_length-le 8 (super_block_bytes sb) (omega (arith, reads.0))
                ∙ sym (append-nil (super_block_bytes sb)))
              ∙ reads.1;
          block = omega (arith, reads.0);
        };
        represents = record {
          writable = refl;
          thawed = refl;
          holds = λ id.
              subst (Holds (volume_of v (start_copy v)) id) (sym (nothing id)) (not_found, refl);
        };
      },
      reads.0,
    )

-- A disk that takes every call.
abbrev pub willing_compact : CompactDisk
willing_compact = record {
  create_data = true;
  write_block = true;
  seek = true;
  create_index = true;
  sync = true;
}

abbrev pub willing_commit : CommitDisk
willing_commit = record {
  rename_data = true;
  rename_index = true;
  rename_back = true;
  reopen = true;
  read_block = true;
  load = true;
  open_index = true;
}

-- The end of Compact and CommitCompact, where the temporary files stand for a map.
module _ (now : ℕ → ℕ) (logged : ℕ → Bool) (low : ℕ → ℕ → Bool) where
  finished : Volume → Copying → CompactionResult
  finished v s = record {
    original_size = length v.dat;
    compacted_size = s.current_offset;
    copied = s;
  }

  compact-finished :
      (v : Volume) (m : Store) (order : Entries)
      → low v.nm.deleted_size v.nm.content_size ≡ false
      → IsCopied v m (visit_all append logged now v order (start_copy v))
      → compact append logged now willing_compact low order v
        ≡ ok (finished v (visit_all append logged now v order (start_copy v)))
  unfolding compact finish_copy finished make_files
  compact-finished v m order enough c =
      let s = visit_all append logged now v order (start_copy v) in
      ap (λ b. if b then err low_garbage else finish_copy append logged now willing_compact v s)
        enough
      ∙ ap (λ st. st >>= λ d. ok (finished v s)) c.running

swapped_volume : Volume → Volume → Copying → Volume
swapped_volume later v s = record (forgetful (volume_of v s)) { read_only = later.read_only }

commit_compact-swapped :
    (later v : Volume) (m : Store) (result : CompactionResult)
    → IsCopied v m result.copied
    → commit_compact willing_commit later result ≡ swapped (swapped_volume later v result.copied)
unfolding commit_compact reload swapped_volume
commit_compact-swapped later v m result c =
    rw (reload, c.openable.headed)
      (rw (load_needle_map-IsDurable (volume_of v result.copied) c.openable.durable) refl)

get_needle-swapped :
    (later v : Volume) (s : Copying) (id : ℕ)
    → get_needle (swapped_volume later v s) id ≡ get_needle (volume_of v s) id
unfolding swapped_volume get_needle get
get_needle-swapped later v s id = refl

made_block :
    (version : ℕ) (v : Volume)
    → new_volume (record { dat = none; idx = none }) version ≡ ok v
    → v.super_block ≡ first_block version
unfolding first_volume
made_block version v e =
    ap (λ x. x.super_block) (sym (ok-injective (sym (new_volume-empty version) ∙ e)))

-- WriteNeedle and DeleteNeedle leave the superblock.
index_needle-block :
    (logged : Bool) (v : Volume) (n : Needle) (o : List ℕ × Outcome Placed)
    → (index_needle logged v n o).0.super_block ≡ v.super_block
unfolding index_needle
index_needle-block logged v n (dat, ok p) = ground arith
index_needle-block logged v n (dat, err e) = refl
index_needle-block logged v n (dat, panic) = refl

bury_needle-block :
    (logged : Bool) (v : Volume) (id : ℕ) (o : List ℕ × Outcome Placed)
    → (bury_needle logged v id o).0.super_block ≡ v.super_block
unfolding bury_needle
bury_needle-block logged v id (dat, ok p) = refl
bury_needle-block logged v id (dat, err e) = refl
bury_needle-block logged v id (dat, panic) = refl

serve-block : (v : Volume) (r : Request) → (serve v r).super_block ≡ v.super_block
unfolding serve write_needle delete_needle
serve-block v (write_request logged n) = ground (
  arith,
  index_needle-block logged v n (write_needle_unlocked append v.super_block.version n v.dat),
)
serve-block v (delete_request logged id) = ground (
  arith,
  bury_needle-block logged v id
      (write_needle_unlocked append v.super_block.version (tombstone id) v.dat),
)

serve_all-block : (v : Volume) (rs : List Request) → (serve_all v rs).super_block ≡ v.super_block
unfolding serve_all
serve_all-block v [] = refl
serve_all-block v (r ∷ rs) = serve_all-block (serve v r) rs ∙ serve-block v r

-- The two halves of a compaction succeed, and keep the map but for what has expired.
abbrev pub Compacts :
    (ℕ → Bool) → (ℕ → ℕ) → (ℕ → ℕ → Bool) → Entries → Store → Volume → Volume → ℕ → Type 0
Compacts logged now low order m v later version =
    (result : CompactionResult) × (v' : Volume) × (compact append logged now willing_compact low
        order v
      ≡ ok result)
    × (commit_compact willing_commit later result ≡ swapped v')
    × ((id : ℕ) → Answers (survivors now m id) (get_needle v' id))
    × (length v'.dat ≤ 8 + room version m order)

-- One compaction of a volume that stands for a map.
compact-Represents :
    (logged : ℕ → Bool) (now : ℕ → ℕ) (low : ℕ → ℕ → Bool) (v later : Volume) (m : Store)
    (order : Entries)
    → Represents v m
    → IsKeptStore v.super_block.version m
    → FitsPlacement v.super_block.replica_placement
    → IsOrder v order
    → ((id : ℕ) → logged id ≡ true)
    → low v.nm.deleted_size v.nm.content_size ≡ false
    → 15 + room v.super_block.version m order < 8 * u32
    → Compacts logged now low order m v later v.super_block.version
unfolding finished swapped_volume
compact-Represents logged now low v later m order h all fits o taken enough below =
    let (c0, eight) =
      start_copy-IsCopied v (pending now m order) fits (pending-none now v m order h o) in
    let s = visit_all append logged now v order (start_copy v) in
    let done =
      visit_all-Visited logged now taken v m h all order (start_copy v) o.listed
        (omega (arith, eight)) c0 in
    (
      finished now logged low v s,
      swapped_volume later v s,
      compact-finished now logged low v (survivors now m) order enough done.copied,
      commit_compact-swapped later v (survivors now m) (finished now logged low v s) done.copied,
      λ id.
          subst (Answers (survivors now m id)) (sym (get_needle-swapped later v s id)) (
            Holds-Answers (volume_of v s) id (survivors now m id)
              (done.copied.represents.holds id)),
      omega (arith, done.bounded, eight),
    )

-- A volume that was made on an empty disk is given calls of WriteNeedle and DeleteNeedle whose
-- records fit into the first 32 GiB, and Compact runs, with its garbage test passed, all writes and
-- file calls taken and room for the live records in the first 32 GiB, whatever the order in which
-- it visits the index. Then Compact succeeds, and CommitCompact too, where its renames and file
-- calls succeed, on the volume after any later calls. The volume is then of at most the size of a
-- superblock and the records that were live before Compact, and GetNeedle answers for every id as
-- the map before Compact does without the needles that had expired when they were visited: what the
-- later calls wrote or deleted is lost.
pub compact-Answers :
    (version : ℕ) (v : Volume) (rs later : List Request) (order : Entries) (logged : ℕ → Bool)
    (now : ℕ → ℕ) (low : ℕ → ℕ → Bool)
    → new_volume (record { dat = none; idx = none }) version ≡ ok v
    → Fits version (length v.dat) rs
    → let before = serve_all v rs in
      let m = assign_all version (λ id. none) rs in
      IsOrder before order
      → ((id : ℕ) → logged id ≡ true)
      → low before.nm.deleted_size before.nm.content_size ≡ false
      → 15 + room version m order < 8 * u32
      → Compacts logged now low order m before (serve_all before later) version
compact-Answers version v rs later order logged now low e f o taken enough below =
    let before = serve_all v rs in
    let m = assign_all version (λ id. none) rs in
    let block : before.super_block ≡ first_block version =
      serve_all-block v rs ∙ made_block version v e in
    let h =
      serve_all-Represents version v (λ id. none) rs (ap (λ b. b.version) (made_block version v e))
        (new_volume-Represents version v e) f in
    subst
      (λ k.
        IsKeptStore k m
        → 15 + room k m order < 8 * u32
        → Compacts logged now low order m before (serve_all before later) k)
      (ap (λ b. b.version) block)
      (λ all room_left.
        compact-Represents logged now low before (serve_all before later) m order h all
          (subst (λ b. FitsPlacement b.replica_placement) (sym block) (omega arith)) o taken enough
          room_left)
      (assign_all-IsKeptStore version (length v.dat) (λ id. none) rs f
        (nothing-IsKeptStore version))
      below
