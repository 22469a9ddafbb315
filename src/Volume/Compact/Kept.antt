-- ===== src/Volume/Compact/Kept.antt =====
-- goblob/storage/volume/compact.go: a needle that was read from a volume is written back unchanged.
use go_blob.Base.{
  ℕ, ◌+◌, ◌<◌, ◌≤◌, ◌≡◌, refl, subst, Bool, true, false, Option, none, some, List, [], ◌∷◌, arith,
  if◌then◌else◌, leb, length, u32, Bool-cases, inl, inr, ◌==◌, ==_iff,
}
use go_blob.Types.{no_ttl}
use go_blob.Needle.{Needle, has_name, has_mime, has_last_modified, has_ttl, has_pairs}
use go_blob.Needle.Write.{body_bytes}
use go_blob.Needle.Body.{IsWritable, body_bytes-stored}
use go_blob.Needle.Image.{disk_size}
use go_blob.Volume.Steps.{
  Request, write_request, delete_request, Store, assign_request, assign_all, Fits, kept, record_of,
}

if_twice {ℓ} :
    {A : Type ℓ} (b : Bool) (x d : A)
    → (if b then (if b then x else d) else d) ≡ (if b then x else d)
if_twice true x d = refl
if_twice false x d = refl

-- A needle as the volume gives it out, which can be written.
pub record IsKept (version : ℕ) (n : Needle) : Type 0 where
  pub writable : IsWritable n
  pub small : disk_size version n < u32
  pub same : kept version n ≡ n

body_bytes-kept : (version : ℕ) (n : Needle) → body_bytes (kept version n) ≡ body_bytes n
unfolding body_bytes
body_bytes-kept version n = body_bytes-stored version n

disk_size-kept :
    (version : ℕ) (n : Needle) → disk_size version (kept version n) ≡ disk_size version n
disk_size-kept version n = rw (body_bytes-kept version n)

kept-kept : (version : ℕ) (n : Needle) → kept version (kept version n) ≡ kept version n
kept-kept version n = rw (
  body_bytes-kept version n,
  if_twice (has_name n) n.name [],
  if_twice (has_mime n) n.mime [],
  if_twice (has_pairs n) n.pairs [],
  if_twice (has_last_modified n) n.last_modified 0,
  if_twice (has_ttl n) n.ttl no_ttl,
  if_twice (leb 3 version) n.append_at_ns 0,
)

short_or_none :
    (b : Bool) (s : List ℕ) (top : ℕ) → length s ≤ top → length (if b then s else []) ≤ length s
short_or_none true s top h = omega arith
short_or_none false s top h = omega arith

less_or_none : (b : Bool) (k : ℕ) → (if b then k else 0) ≤ k
less_or_none true k = omega arith
less_or_none false k = omega arith

kept-IsWritable : (version : ℕ) (n : Needle) → IsWritable n → IsWritable (kept version n)
kept-IsWritable version n h =
    let name = short_or_none (has_name n) n.name 256 (omega (arith, h.name)) in
    let mime = short_or_none (has_mime n) n.mime 256 (omega (arith, h.mime)) in
    let pairs = short_or_none (has_pairs n) n.pairs 65536 (omega (arith, h.pairs)) in
    record {
      fits = record {
        counted = h.fits.counted;
        small = omega (arith, h.fits.small, name, mime, pairs);
      };
      cookie = h.cookie;
      id = h.id;
      name = omega (arith, name, h.name);
      mime = omega (arith, mime, h.mime);
      pairs = omega (arith, pairs, h.pairs);
      last_modified =
          omega (arith, less_or_none (has_last_modified n) n.last_modified, h.last_modified);
      append_at_ns = omega (arith, less_or_none (leb 3 version) n.append_at_ns, h.append_at_ns);
    }

pub kept-IsKept :
    (version : ℕ) (n : Needle)
    → IsWritable n
    → disk_size version n < u32
    → IsKept version (kept version n)
kept-IsKept version n h room = record {
  writable = kept-IsWritable version n h;
  small = omega (arith, disk_size-kept version n);
  same = kept-kept version n;
}

-- A needle that a map may hold for an id.
abbrev pub IsKeptAt : ℕ → ℕ → Needle → Type 0
IsKeptAt version id n = IsKept version n × (n.id ≡ id)

abbrev pub IsKeptStore : ℕ → Store → Type 0
IsKeptStore version m = (id : ℕ) (n : Needle) → m id ≡ some n → IsKeptAt version id n

pub nothing-IsKeptStore : (version : ℕ) → IsKeptStore version (λ id. none)
nothing-IsKeptStore version id n e = cc

some-IsKeptAt :
    (version id : ℕ) (n k : Needle)
    → IsKeptAt version id n
    → ◌≡◌ {A = Option Needle} (some n) (some k)
    → IsKeptAt version id k
some-IsKeptAt version id n k h e = let same : n ≡ k = cc in subst (IsKeptAt version id) same h

assign_request-IsKeptStore :
    (version : ℕ) (r : Request) (m : Store)
    → IsWritable (record_of r)
    → disk_size version (record_of r) < u32
    → IsKeptStore version m
    → IsKeptStore version (assign_request version r m)
assign_request-IsKeptStore version (write_request logged w) m h room all id n =
    elim (Bool-cases (w.id == id)) [
      | inl here ↦ rw here (
          some-IsKeptAt version id (kept version w) n
            (kept-IsKept version w h room, (==_iff w.id id).0 here))
      | inr other ↦ rw other (all id n)
    ]
assign_request-IsKeptStore version (delete_request logged gone) m h room all id n =
    elim (Bool-cases (gone == id)) [
      | inl here ↦ rw here (nothing-IsKeptStore version id n)
      | inr other ↦ rw other (all id n)
    ]

-- The map that requests make holds needles that can be written back.
pub assign_all-IsKeptStore :
    (version len : ℕ) (m : Store) (rs : List Request)
    → Fits version len rs
    → IsKeptStore version m
    → IsKeptStore version (assign_all version m rs)
unfolding assign_all
assign_all-IsKeptStore version len m [] f all = all
assign_all-IsKeptStore version len m (r ∷ rs) (w, room, below, rest) all =
    assign_all-IsKeptStore version (len + 7 + disk_size version (record_of r))
      (assign_request version r m) rs rest (assign_request-IsKeptStore version r m w room all)
