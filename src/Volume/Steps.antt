-- ===== src/Volume/Steps.antt =====
-- goblob/storage/volume/volume.go: the map of needles that a volume stands for, and what one call
-- of WriteNeedle or DeleteNeedle does to the parts of the volume.
use go_blob.Base.{
  zero, ℕ, ◌+◌, ◌*◌, ◌%◌, ◌≤◌, ◌<◌, ◌≡◌, ◌≢◌, ◌∙◌, refl, ap, Bool, false, Option, none, some, List,
  [], ◌∷◌, ◌++◌, arith, ◌==◌, ==_ne, if◌then◌else◌, length, u32, Option-cases, inl, inr,
}
use go_blob.Types.{to_actual_offset, to_encoded}
use go_blob.Needle.{Needle, blank}
use go_blob.Needle.Body.{stored, IsWritable}
use go_blob.Needle.Image.{disk_size, image}
use go_blob.Needle.RoundTrip.{append}
use go_blob.NeedleMap.{NeedleValue, MemDb, IndexError, get, put, delete}
use go_blob.NeedleMap.Reads.{get-put}
use go_blob.Volume.{
  Volume, VolumeError, lookup_failed, Outcome, ok, err, Placed, write_needle, write_needle_unlocked,
  index_needle, bury_needle, delete_needle, get_needle, placed_at, read_needle_from_file, guarded,
}
use go_blob.Volume.Reads.{
  aligned, length-aligned, read_needle_from_file-append, read_needle_from_file-image,
  write_needle_unlocked-append,
}

-- WriteNeedle and DeleteNeedle calls; the flag is whether the index file takes the entry.
pub data Request : Type 0 where
  write_request : Bool → Needle → Request
  delete_request : Bool → ℕ → Request

-- The data file takes every write.
unfoldable pub serve : Volume → Request → Volume
serve v (write_request logged n) = (write_needle append logged v n).0
serve v (delete_request logged id) = (delete_needle append logged v id).0

unfoldable pub serve_all : Volume → List Request → Volume
serve_all v [] = v
serve_all v (r ∷ rs) = serve_all (serve v r) rs

-- The map that a volume stands for.
abbrev pub Store : Type 0
Store = ℕ → Option Needle

abbrev pub assign : ℕ → Option Needle → Store → Store
assign id o m j = if id == j then o else m j

-- A needle as it is read back: with the fields of its flags, and the size of its record.
abbrev pub kept : ℕ → Needle → Needle
kept version n = record (stored version n) { size = disk_size version n }

abbrev pub assign_request : ℕ → Request → Store → Store
assign_request version (write_request logged n) m = assign n.id (some (kept version n)) m
assign_request version (delete_request logged id) m = assign id none m

unfoldable pub assign_all : ℕ → Store → List Request → Store
assign_all version m [] = m
assign_all version m (r ∷ rs) = assign_all version (assign_request version r m) rs

-- GetNeedle answers with the needle of the map, or that it is not found or deleted.
abbrev pub Answers : Option Needle → Outcome Needle → Type 0
Answers none out = (e : IndexError) × (out ≡ err (lookup_failed e))
Answers (some n) out = out ≡ ok n

abbrev pub tombstone : ℕ → Needle
tombstone id = record blank { id = id }

-- The needle that a request appends.
abbrev pub record_of : Request → Needle
record_of (write_request logged n) = n
record_of (delete_request logged id) = tombstone id

-- The needles are writable, and all records start below 32 GiB, in a file of at most `len` bytes.
abbrev pub Fits : ℕ → ℕ → List Request → Type 0
Fits version len [] = Unit
Fits version len (r ∷ rs) =
    IsWritable (record_of r)
    × (disk_size version (record_of r) < u32)
    × (len + 7 < 8 * u32)
    × Fits version (len + 7 + disk_size version (record_of r)) rs

-- What the index and the data file hold for an id.
abbrev pub Holds : Volume → ℕ → Option Needle → Type 0
Holds v id none = (e : IndexError) × (placed_at (get v.nm id) ≡ err (lookup_failed e))
Holds v id (some n) =
    (nv : NeedleValue) × (placed_at (get v.nm id) ≡ ok nv)
    × (read_needle_from_file v.dat (to_actual_offset nv.offset) nv.size v.super_block.version
        ≡ ok n)

pub record Represents (v : Volume) (m : Store) : Type 0 where
  pub writable : v.read_only ≡ false
  pub thawed : v.no_write_or_delete ≡ false
  pub holds : (id : ℕ) → Holds v id (m id)

pub Holds-Answers :
    (v : Volume) (id : ℕ) (o : Option Needle) → Holds v id o → Answers o (get_needle v id)
unfolding get_needle
Holds-Answers v id none (e, h) = (e, rw h refl)
Holds-Answers v id (some n) (nv, h, r) = rw h r

-- The file grows, and the index keeps its answer for the id.
pub Holds-grown :
    (v v' : Volume) (id : ℕ) (o : Option Needle) (more : List ℕ)
    → v'.dat ≡ v.dat ++ more
    → v'.super_block ≡ v.super_block
    → get v'.nm id ≡ get v.nm id
    → Holds v id o
    → Holds v' id o
Holds-grown v v' id none more d s g (e, h) = (e, rw g h)
Holds-grown v v' id (some n) more d s g (nv, h, r) = (
  nv,
  rw g h,
  rw (d, s)
      (read_needle_from_file-append v.dat more (to_actual_offset nv.offset) nv.size
        v.super_block.version n r),
)

-- An aligned offset below 32 GiB survives its encoding.
pub to_actual_offset-to_encoded :
    (offset : ℕ) → offset % 8 ≡ 0 → offset < 8 * u32 → to_actual_offset (to_encoded offset) ≡ offset
unfolding to_actual_offset to_encoded
to_actual_offset-to_encoded offset a b = omega arith

guarded-open {ℓ} :
    {A : Type ℓ} (v : Volume) (refuse : VolumeError → A) (go : A)
    → v.read_only ≡ false
    → v.no_write_or_delete ≡ false
    → guarded v refuse go ≡ go
guarded-open v refuse go r f = rw (r, f) refl

index_needle-ok :
    (logged : Bool) (v : Volume) (n : Needle) (dat : List ℕ) (p : Placed)
    → (index_needle logged v n (dat, ok p)).0
      ≡ record v { dat = dat; nm = (put logged v.nm n.id p.offset (p.size % u32)).0 }
unfolding index_needle
index_needle-ok logged v n dat p =
    elim (Option-cases (put logged v.nm n.id p.offset (p.size % u32)).1) [
      | inl done ↦ rw (done, index_needle) refl
      | inr (e, h) ↦ rw (h, index_needle) refl
    ]

-- What a WriteNeedle makes of the parts of a volume that takes it.
pub write_needle-append :
    (logged : Bool) (v : Volume) (n : Needle)
    → v.read_only ≡ false
    → v.no_write_or_delete ≡ false
    → IsWritable n
    → disk_size v.super_block.version n < u32
    → (write_needle append logged v n).0 ≡ record v {
      dat = aligned v.dat ++ image v.super_block.version n;
      nm =
          (put logged v.nm n.id
            (to_encoded (length (aligned v.dat)))
            (disk_size v.super_block.version n % u32)).0;
    }
unfolding write_needle
write_needle-append logged v n r f h room =
    ap (λ o. o.0)
      (guarded-open v (λ e. (v, err e))
        (index_needle logged v n (write_needle_unlocked append v.super_block.version n v.dat)) r f)
    ∙ ap (λ o. (index_needle logged v n o).0)
        (write_needle_unlocked-append v.super_block.version n v.dat h room)
    ∙ index_needle-ok logged v n (aligned v.dat ++ image v.super_block.version n) (record {
      offset = to_encoded (length (aligned v.dat));
      size = disk_size v.super_block.version n;
    })

bury_needle-ok :
    (logged : Bool) (v : Volume) (id : ℕ) (dat : List ℕ) (p : Placed)
    → (bury_needle logged v id (dat, ok p)).0
      ≡ record v { dat = dat; nm = (delete logged v.nm id).0 }
unfolding bury_needle
bury_needle-ok logged v id dat p = refl

pub delete_needle-append :
    (logged : Bool) (v : Volume) (id : ℕ)
    → v.read_only ≡ false
    → v.no_write_or_delete ≡ false
    → IsWritable (tombstone id)
    → disk_size v.super_block.version (tombstone id) < u32
    → (get v.nm id).1 ≡ none
    → (delete_needle append logged v id).0 ≡ record v {
      dat = aligned v.dat ++ image v.super_block.version (tombstone id);
      nm = (delete logged v.nm id).0;
    }
unfolding delete_needle
delete_needle-append logged v id r f h room e =
    let looked : Option IndexError → Volume × Outcome (Unit {0}) = λ o. elim o [
      | some e ↦ (v, err (lookup_failed e))
      | none ↦
          bury_needle logged v id
            (write_needle_unlocked append v.super_block.version (tombstone id) v.dat)
    ] in
    ap (λ o. o.0) (guarded-open v (λ e. (v, err e)) (looked (get v.nm id).1) r f)
    ∙ ap (λ o. (looked o).0) e
    ∙ ap (λ o. (bury_needle logged v id o).0)
        (write_needle_unlocked-append v.super_block.version (tombstone id) v.dat h room)

pub delete_needle-absent :
    (logged : Bool) (v : Volume) (id : ℕ) (e : IndexError)
    → (get v.nm id).1 ≡ some e
    → (delete_needle append logged v id).0 ≡ v
unfolding delete_needle
delete_needle-absent logged v id e h = rw h (ground arith)

-- A record is at least a header.
disk_size_pos : (version : ℕ) (n : Needle) → 16 ≤ disk_size version n
disk_size_pos version n = omega arith

put-placed_at :
    (written : Bool) (m : MemDb) (key offset size : ℕ)
    → size ≢ 0
    → placed_at (get (put written m key offset size).0 key)
      ≡ ok (record { offset = offset; size = size })
unfolding placed_at
put-placed_at written m key offset size some_bytes =
    rw ((get-put written m key offset size).0, ==_ne size zero some_bytes) refl

pub written-Holds :
    (logged : Bool) (v v' : Volume) (n : Needle)
    → IsWritable n
    → disk_size v.super_block.version n < u32
    → length v.dat + 7 < 8 * u32
    → v'.dat ≡ aligned v.dat ++ image v.super_block.version n
    → v'.super_block ≡ v.super_block
    → v'.nm
      ≡ (put logged v.nm n.id
          (to_encoded (length (aligned v.dat)))
          (disk_size v.super_block.version n % u32)).0
    → Holds v' n.id (some (kept v.super_block.version n))
written-Holds logged v v' n h room below d s g =
    let at = to_encoded (length (aligned v.dat)) in
    let size = disk_size v.super_block.version n in
    let fits : size % u32 ≡ size = omega (arith, room) in
    let found : placed_at (get (put logged v.nm n.id at (size % u32)).0 n.id)
        ≡ ok (record { offset = at; size = size }) =
      ap (λ k. placed_at (get (put logged v.nm n.id at k).0 n.id)) fits
      ∙ put-placed_at logged v.nm n.id at size
          (omega (arith, disk_size_pos v.super_block.version n)) in
    let back =
      to_actual_offset-to_encoded (length (aligned v.dat)) (length-aligned v.dat).0
        (omega (arith, length-aligned v.dat)) in
    (
      record { offset = at; size = size },
      rw g found,
      rw (d, s, back) (read_needle_from_file-image (aligned v.dat) v.super_block.version n h room),
    )
