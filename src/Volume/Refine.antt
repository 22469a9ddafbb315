-- ===== src/Volume/Refine.antt =====
-- goblob/storage/volume/volume.go: a volume answers as a map from ids to needles does.
use go_blob.Base.{
  ℕ, ◌+◌, ◌*◌, ◌≤◌, ◌<◌, ◌≡◌, ◌≢◌, ◌∙◌, refl, sym, ap, subst, Bool, false, Option, none, some, List,
  [], ◌∷◌, ◌++◌, arith, ◌==◌, ==_iff, zero, length, length-append, u32, Bool-cases, Option-cases,
  inl, inr, append_assoc, ◌%◌, replicate,
}
use go_blob.Types.{to_encoded}
use go_blob.Needle.{Needle}
use go_blob.Needle.Body.{IsWritable}
use go_blob.Needle.Image.{disk_size, image}
use go_blob.Needle.RoundTrip.{length-image}
use go_blob.SuperBlock.{super_block_bytes}
use go_blob.NeedleMap.{IndexError, not_found, load_needle_map, get, put, delete}
use go_blob.NeedleMap.Reads.{get-put, get-delete, get-absent}
use go_blob.Volume.{
  Volume, Outcome, lookup_failed, ok, err, placed_at, get_needle, new_volume, first_block,
  load_index, pad_of,
}
use go_blob.Volume.Reads.{aligned, length-aligned}
use go_blob.Volume.Steps.{
  Request, write_request, delete_request, serve, serve_all, Store, assign_request, assign_all,
  Answers, tombstone, record_of, Fits, Holds, Represents, Holds-Answers, Holds-grown,
  write_needle-append, delete_needle-append, delete_needle-absent, written-Holds, kept, assign,
}

-- The volume after an operation on the needle `id` that the volume takes.
pub record Follows (v v' : Volume) (id : ℕ) (more : List ℕ) : Type 0 where
  pub longer : v'.dat ≡ v.dat ++ more
  pub same_block : v'.super_block ≡ v.super_block
  pub same_read_only : v'.read_only ≡ v.read_only
  pub same_frozen : v'.no_write_or_delete ≡ v.no_write_or_delete
  pub others : (j : ℕ) → j ≢ id → get v'.nm j ≡ get v.nm j

pub different : (id j : ℕ) → (id == j) ≡ false → j ≢ id
different id j other = ground arith

pub Follows-Represents :
    (v v' : Volume) (m : Store) (id : ℕ) (more : List ℕ) (o : Option Needle)
    → Represents v m
    → Follows v v' id more
    → Holds v' id o
    → Represents v' (assign id o m)
Follows-Represents v v' m id more o h f now = record {
  writable = f.same_read_only ∙ h.writable;
  thawed = f.same_frozen ∙ h.thawed;
  holds = λ j. elim (Bool-cases (id == j)) [
    | inl here ↦ rw here (subst (λ k. Holds v' k o) ((==_iff id j).0 here) now)
    | inr other ↦ rw other (
        Holds-grown v v' j (m j) more f.longer f.same_block (f.others j (different id j other))
          (h.holds j))
  ];
}

absent-placed_at :
    (v : Volume) (id : ℕ) (e : IndexError)
    → (get v.nm id).1 ≡ some e
    → placed_at (get v.nm id) ≡ err (lookup_failed e)
unfolding placed_at
absent-placed_at v id e h = rw h refl

-- One call leaves a volume that stands for the changed map, of at most one more record.
pub record Served (v v' : Volume) (n : Needle) (m : Store) : Type 0 where
  pub represents : Represents v' m
  pub same_version : v'.super_block ≡ v.super_block
  pub bounded : length v'.dat ≤ length v.dat + 7 + disk_size v.super_block.version n

appended_length :
    (version : ℕ) (n : Needle) (dat : List ℕ)
    → length (aligned dat ++ image version n) ≤ length dat + 7 + disk_size version n
appended_length version n dat = omega (
  arith,
  length-append (aligned dat) (image version n),
  length-image version n,
  length-aligned dat,
)

-- A record is appended, and the index answers as before for the other ids.
appended-Served :
    (v v' : Volume) (n : Needle) (m : Store) (id : ℕ) (o : Option Needle)
    → Represents v m
    → v' ≡ record v { dat = aligned v.dat ++ image v.super_block.version n; nm = v'.nm }
    → ((j : ℕ) → j ≢ id → get v'.nm j ≡ get v.nm j)
    → Holds v' id o
    → Served v v' n (assign id o m)
appended-Served v v' n m id o h e others now =
    let zeros = replicate (pad_of (length v.dat)) zero in
    let pieces = ap (λ x. x.dat) e ∙ append_assoc v.dat zeros (image v.super_block.version n) in
    record {
      represents =
          Follows-Represents v v' m id (zeros ++ image v.super_block.version n) o h
            (record {
              longer = pieces;
              same_block = ap (λ x. x.super_block) e;
              same_read_only = ap (λ x. x.read_only) e;
              same_frozen = ap (λ x. x.no_write_or_delete) e;
              others = others;
            })
            now;
      same_version = ap (λ x. x.super_block) e;
      bounded =
          subst (λ d. length d ≤ length v.dat + 7 + disk_size v.super_block.version n)
            (sym (ap (λ x. x.dat) e)) (appended_length v.super_block.version n v.dat);
    }

write-Served :
    (v : Volume) (m : Store) (logged : Bool) (n : Needle)
    → Represents v m
    → IsWritable n
    → disk_size v.super_block.version n < u32
    → length v.dat + 7 < 8 * u32
    → Served v
        (serve v (write_request logged n))
        n
        (assign_request v.super_block.version (write_request logged n) m)
unfolding serve
write-Served v m logged n h w room below =
    let e = write_needle-append logged v n h.writable h.thawed w room in
    let at = to_encoded (length (aligned v.dat)) in
    let size = disk_size v.super_block.version n % u32 in
    let v' : Volume = record v {
      dat = aligned v.dat ++ image v.super_block.version n;
      nm = (put logged v.nm n.id at size).0;
    } in
    subst (λ x. Served v x n (assign n.id (some (kept v.super_block.version n)) m)) (sym e)
      (appended-Served v v' n m n.id (some (kept v.super_block.version n)) h refl
        (get-put logged v.nm n.id at size).1
        (written-Holds logged v v' n w room below refl refl refl))

delete_present-Served :
    (v : Volume) (m : Store) (logged : Bool) (id : ℕ)
    → Represents v m
    → IsWritable (tombstone id)
    → disk_size v.super_block.version (tombstone id) < u32
    → (get v.nm id).1 ≡ none
    → Served v (serve v (delete_request logged id)) (tombstone id) (assign id none m)
unfolding serve
delete_present-Served v m logged id h w room found =
    let e = delete_needle-append logged v id h.writable h.thawed w room found in
    let v' : Volume = record v {
      dat = aligned v.dat ++ image v.super_block.version (tombstone id);
      nm = (delete logged v.nm id).0;
    } in
    let (gone, others) = get-delete logged v.nm id in
    let (failure, absent) = get-absent v'.nm id gone in
    subst (λ x. Served v x (tombstone id) (assign id none m)) (sym e)
      (appended-Served v v' (tombstone id) m id none h refl others
        (failure, absent-placed_at v' id failure absent))

delete_absent-Represents :
    (v : Volume) (m : Store) (id : ℕ) (e : IndexError)
    → Represents v m
    → (get v.nm id).1 ≡ some e
    → Represents v (assign id none m)
delete_absent-Represents v m id e h missing = record {
  writable = h.writable;
  thawed = h.thawed;
  holds = λ j. elim (Bool-cases (id == j)) [
    | inl here ↦
        rw here
          (subst (λ k. Holds v k none) ((==_iff id j).0 here) (e, absent-placed_at v id e missing))
    | inr other ↦ rw other (h.holds j)
  ];
}

delete-Served :
    (v : Volume) (m : Store) (logged : Bool) (id : ℕ)
    → Represents v m
    → IsWritable (tombstone id)
    → disk_size v.super_block.version (tombstone id) < u32
    → Served v (serve v (delete_request logged id)) (tombstone id) (assign id none m)
unfolding serve
delete-Served v m logged id h w room = elim (Option-cases (get v.nm id).1) [
  | inl found ↦ delete_present-Served v m logged id h w room found
  | inr (e, missing) ↦
      subst (λ x. Served v x (tombstone id) (assign id none m))
        (sym (delete_needle-absent logged v id e missing))
        (record {
          represents = delete_absent-Represents v m id e h missing;
          same_version = refl;
          bounded = omega arith;
        })
]

pub serve-Served :
    (v : Volume) (m : Store) (r : Request)
    → Represents v m
    → IsWritable (record_of r)
    → disk_size v.super_block.version (record_of r) < u32
    → length v.dat + 7 < 8 * u32
    → Served v (serve v r) (record_of r) (assign_request v.super_block.version r m)
serve-Served v m (write_request logged n) h w room below = write-Served v m logged n h w room below
serve-Served v m (delete_request logged id) h w room below = delete-Served v m logged id h w room

-- A shorter file leaves more room.
pub Fits-mono :
    (version len shorter : ℕ) (rs : List Request)
    → shorter ≤ len
    → Fits version len rs
    → Fits version shorter rs
Fits-mono version len shorter [] h f = tt
Fits-mono version len shorter (r ∷ rs) h (w, room, below, rest) = (
  w,
  room,
  omega arith,
  Fits-mono version (len + 7 + disk_size version (record_of r))
      (shorter + 7 + disk_size version (record_of r)) rs (omega arith) rest,
)

-- One request of a sequence that fits.
pub serve-step :
    (version : ℕ) (v : Volume) (m : Store) (r : Request) (rs : List Request)
    → v.super_block.version ≡ version
    → Represents v m
    → Fits version (length v.dat) (r ∷ rs)
    → ((serve v r).super_block.version ≡ version)
      × Represents (serve v r) (assign_request version r m)
      × Fits version (length (serve v r).dat) rs
serve-step version v m r rs e h (w, room, below, rest) =
    let at_version : (k : ℕ) → Type 0 = λ k.
      disk_size k (record_of r) < u32
      → (Represents (serve v r) (assign_request k r m))
        × (length (serve v r).dat ≤ length v.dat + 7 + disk_size k (record_of r)) in
    let served = serve-Served v m r h w in
    let both =
      subst at_version e
        (λ room'. (((served room' below).represents), ((served room' below).bounded))) room in
    (
      ap (λ b. b.version)
            (served (subst (λ k. disk_size k (record_of r) < u32) (sym e) room) below).same_version
          ∙ e,
      both.0,
      Fits-mono version (length v.dat + 7 + disk_size version (record_of r))
          (length (serve v r).dat) rs both.1 rest,
    )

-- From a volume that takes writes and stands for a map, any sequence of calls leaves one that
-- stands for the map after the same calls.
pub serve_all-Represents :
    (version : ℕ) (v : Volume) (m : Store) (rs : List Request)
    → v.super_block.version ≡ version
    → Represents v m
    → Fits version (length v.dat) rs
    → Represents (serve_all v rs) (assign_all version m rs)
unfolding serve_all assign_all
serve_all-Represents version v m [] e h f = h
serve_all-Represents version v m (r ∷ rs) e h f =
    let (e', h', f') = serve-step version v m r rs e h f in
    serve_all-Represents version (serve v r) (assign_request version r m) rs e' h' f'

-- The volume that NewVolume makes where there are no files.
unfoldable pub first_volume : ℕ → Volume
unfolding load_index
first_volume version = record {
  dat = super_block_bytes (first_block version);
  nm = load_index none;
  super_block = first_block version;
  read_only = false;
  no_write_or_delete = false;
}

pub new_volume-empty :
    (version : ℕ)
    → new_volume (record { dat = none; idx = none }) version ≡ ok (first_volume version)
unfolding new_volume first_volume
new_volume-empty version = refl

pub ok-injective : {a b : Volume} → ◌≡◌ {A = Outcome Volume} (ok a) (ok b) → a ≡ b
ok-injective e = cc

-- A volume made on an empty disk stands for the empty map.
pub new_volume-Represents :
    (version : ℕ) (v : Volume)
    → new_volume (record { dat = none; idx = none }) version ≡ ok v
    → Represents v (λ id. none)
unfolding first_volume placed_at get load_needle_map
new_volume-Represents version v e =
    subst (λ x. Represents x (λ id. none)) (ok-injective (sym (new_volume-empty version) ∙ e))
      (record { writable = refl; thawed = refl; holds = λ id. (not_found, refl) })

-- A volume made on an empty disk, whose data file takes every write, is given any sequence of calls
-- of WriteNeedle and DeleteNeedle whose records fit into the first 32 GiB, whether or not each index
-- entry reaches its file. Then GetNeedle answers for every id as a map does after the same
-- assignments and removals: with the needle written last, with the fields of its flags and the size
-- of its record, or with an error of the index where there is none or it was deleted.
pub new_volume-Answers :
    (version : ℕ) (v : Volume) (rs : List Request)
    → new_volume (record { dat = none; idx = none }) version ≡ ok v
    → Fits version (length v.dat) rs
    → (id : ℕ) → Answers (assign_all version (λ i. none) rs id) (get_needle (serve_all v rs) id)
unfolding first_volume
new_volume-Answers version v rs e f id =
    let made = ap (λ x. x.super_block.version) (ok-injective (sym e ∙ new_volume-empty version)) in
    let after =
      serve_all-Represents version v (λ i. none) rs made (new_volume-Represents version v e) f in
    Holds-Answers (serve_all v rs) id (assign_all version (λ i. none) rs id) (after.holds id)
