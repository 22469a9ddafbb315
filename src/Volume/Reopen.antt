-- ===== src/Volume/Reopen.antt =====
-- goblob/storage/volume/volume.go: a volume that is opened again from its two files.
use go_blob.Base.{
  ℕ, ◌%◌, ◌≤◌, ◌<◌, ◌≡◌, ◌∙◌, refl, sym, ap, subst, true, false, none, some, List, [], ◌∷◌, ◌++◌,
  arith, length, length-append, u32, Option-cases, inl, inr, take, take-append_le,
  take_of_length-le, append-nil, All,
}
use go_blob.Types.{to_encoded}
use go_blob.Needle.{Needle}
use go_blob.Needle.Body.{IsWritable}
use go_blob.Needle.Image.{disk_size, image}
use go_blob.NeedleMap.{get, put, delete, load_needle_map, open_index_file}
use go_blob.NeedleMap.Durable.{IsDurable, put-IsDurable, delete-IsDurable, started-IsDurable}
use go_blob.SuperBlock.{super_block_bytes, parse_super_block}
use go_blob.SuperBlock.Laws.{parse_super_block-super_block_bytes}
use go_blob.Volume.{Volume, Disk, ok, new_volume, load_index, get_needle, first_block}
use go_blob.Volume.Reads.{aligned, length-aligned}
use go_blob.Volume.Steps.{
  Request, write_request, delete_request, serve, serve_all, Store, assign_request, tombstone,
  record_of, Fits, Represents, write_needle-append, delete_needle-append, delete_needle-absent,
}
use go_blob.Volume.Refine.{
  serve_all-Represents, serve-step, new_volume-Represents, first_volume, new_volume-empty,
  ok-injective,
}

-- The index file takes the entry.
abbrev pub IsLogged : Request → Type 0
IsLogged (write_request logged n) = logged ≡ true
IsLogged (delete_request logged id) = logged ≡ true

-- What the files hold lets the volume be opened again.
pub record IsOpenable (v : Volume) : Type 0 where
  pub durable : IsDurable v.nm
  pub headed : parse_super_block (take 8 v.dat) ≡ some v.super_block
  pub block : 8 ≤ length v.dat

-- The files of an open volume.
abbrev pub disk_of : Volume → Disk
disk_of v = record { dat = some v.dat; idx = v.nm.file }

-- The volume after `deletedSize` has been forgotten.
abbrev pub forgetful : Volume → Volume
forgetful v = record v { nm = record v.nm { deleted_size = 0 } }

headed-append : (dat more : List ℕ) → 8 ≤ length dat → take 8 (dat ++ more) ≡ take 8 dat
headed-append dat more h = take-append_le 8 dat more h

pub appended-IsOpenable :
    (v v' : Volume) (n : Needle)
    → IsOpenable v
    → v' ≡ record v { dat = aligned v.dat ++ image v.super_block.version n; nm = v'.nm }
    → IsDurable v'.nm
    → IsOpenable v'
appended-IsOpenable v v' n h e d =
    let long : 8 ≤ length (aligned v.dat) = omega (arith, h.block, length-aligned v.dat) in
    subst IsOpenable (sym e) (record {
      durable = d;
      headed =
          ap parse_super_block (
            headed-append (aligned v.dat) (image v.super_block.version n) long
            ∙ headed-append v.dat _ h.block)
          ∙ h.headed;
      block = omega (arith, length-append (aligned v.dat) (image v.super_block.version n), long);
    })

pub to_encoded_lt : (offset : ℕ) → to_encoded offset < u32
unfolding to_encoded
to_encoded_lt offset = omega arith

serve-IsOpenable :
    (v : Volume) (m : Store) (r : Request)
    → Represents v m
    → IsLogged r
    → IsWritable (record_of r)
    → disk_size v.super_block.version (record_of r) < u32
    → IsOpenable v
    → IsOpenable (serve v r)
unfolding serve
serve-IsOpenable v m (write_request logged n) h l w room o =
    let at = to_encoded (length (aligned v.dat)) in
    let size = disk_size v.super_block.version n % u32 in
    let v' : Volume = record v {
      dat = aligned v.dat ++ image v.super_block.version n;
      nm = (put logged v.nm n.id at size).0;
    } in
    subst IsOpenable (sym (write_needle-append logged v n h.writable h.thawed w room)) (
      appended-IsOpenable v v' n o refl (
        rw l (
          put-IsDurable v.nm n.id at size w.id (to_encoded_lt (length (aligned v.dat)))
            (omega arith) o.durable)))
serve-IsOpenable v m (delete_request logged id) h l w room o = elim (Option-cases (get v.nm id).1) [
  | inl found ↦
      let v' : Volume = record v {
        dat = aligned v.dat ++ image v.super_block.version (tombstone id);
        nm = (delete logged v.nm id).0;
      } in
      subst IsOpenable (sym (delete_needle-append logged v id h.writable h.thawed w room found)) (
        appended-IsOpenable v v' (tombstone id) o refl
          (rw l (delete-IsDurable v.nm id w.id o.durable)))
  | inr (e, missing) ↦ subst IsOpenable (sym (delete_needle-absent logged v id e missing)) o
]

pub serve_all-IsOpenable :
    (version : ℕ) (v : Volume) (m : Store) (rs : List Request)
    → v.super_block.version ≡ version
    → Represents v m
    → All IsLogged rs
    → Fits version (length v.dat) rs
    → IsOpenable v
    → IsOpenable (serve_all v rs)
unfolding serve_all
serve_all-IsOpenable version v m [] e h l f o = o
serve_all-IsOpenable version v m (r ∷ rs) e h l f o =
    let (e', h', f') = serve-step version v m r rs e h f in
    serve_all-IsOpenable version (serve v r) (assign_request version r m) rs e' h' l.1 f' (
      serve-IsOpenable v m r h l.0 f.0 (subst (λ k. disk_size k (record_of r) < u32) (sym e) f.1) o)

pub load_needle_map-IsDurable :
    (v : Volume) (d : IsDurable v.nm) → load_index v.nm.file ≡ record v.nm { deleted_size = 0 }
unfolding load_index load_needle_map open_index_file
load_needle_map-IsDurable v d = rw d.opened (ground (arith, d.replays, d.opened))

reopened :
    (v : Volume) (version : ℕ)
    → IsOpenable v
    → v.read_only ≡ false
    → v.no_write_or_delete ≡ false
    → new_volume (disk_of v) version ≡ ok (forgetful v)
unfolding new_volume
reopened v version o r f =
    rw (new_volume, o.headed, load_needle_map-IsDurable v o.durable, r, f) refl

first_volume-IsOpenable : (version : ℕ) → IsOpenable (first_volume version)
unfolding first_volume load_needle_map
first_volume-IsOpenable version = record {
  durable = started-IsDurable;
  headed = headed;
  block = block;
}
  where
    reads :
        (length (super_block_bytes (first_block version)) ≡ 8)
        × (parse_super_block (super_block_bytes (first_block version) ++ [])
            ≡ some (first_block version))
    reads =
        parse_super_block-super_block_bytes (first_block version) [] (ground arith) (omega arith)

    block : 8 ≤ length (super_block_bytes (first_block version))
    block = omega (arith, reads.0)

    headed :
        parse_super_block (take 8 (super_block_bytes (first_block version)))
        ≡ some (first_block version)
    headed =
        ap parse_super_block
          (take_of_length-le 8 (super_block_bytes (first_block version)) (omega (arith, reads.0)))
        ∙ ap parse_super_block (sym (append-nil (super_block_bytes (first_block version))))
        ∙ reads.1

pub get_needle-forgetful : (v : Volume) (id : ℕ) → get_needle (forgetful v) id ≡ get_needle v id
unfolding get_needle get
get_needle-forgetful v id = refl

-- A volume made on an empty disk is given calls of WriteNeedle and DeleteNeedle whose records fit
-- into the first 32 GiB and whose index entries all reach their file. NewVolume on the two files
-- that they leave returns a volume that differs from the one that wrote them in deletedSize alone,
-- where it has 0, and whose GetNeedle gives the same answer for every id.
pub new_volume-serve_all :
    (version later : ℕ) (v : Volume) (rs : List Request)
    → new_volume (record { dat = none; idx = none }) version ≡ ok v
    → All IsLogged rs
    → Fits version (length v.dat) rs
    → (new_volume (disk_of (serve_all v rs)) later ≡ ok (forgetful (serve_all v rs)))
      × ((id : ℕ) → get_needle (forgetful (serve_all v rs)) id ≡ get_needle (serve_all v rs) id)
unfolding first_volume
new_volume-serve_all version later v rs e l f =
    let same = ok-injective (sym (new_volume-empty version) ∙ e) in
    let h = new_volume-Represents version v e in
    let at_version = ap (λ x. x.super_block.version) (sym same) ∙ first_version version in
    let after = serve_all-Represents version v (λ id. none) rs at_version h f in
    (
      reopened (serve_all v rs) later
          (serve_all-IsOpenable version v (λ id. none) rs at_version h l f
            (subst IsOpenable same (first_volume-IsOpenable version)))
          after.writable after.thawed,
      get_needle-forgetful (serve_all v rs),
    )
  where
    first_version : (k : ℕ) → (first_volume k).super_block.version ≡ k
    first_version k = refl
