-- ===== src/Layout/Map.antt =====
-- goblob/util/concurrent_read_map.go and the updates of goblob/topology/volume_layout.go: the
-- locations of a volume in a map after each update of the map.
use go_blob.Base.{ℕ, ◌≡◌, ◌≢◌, refl, sym, ap, Bool, Option, none, some, List, [], ◌∷◌, arith}
use go_blob.Layout.{
  VolumeLocation, VolumeMap, map_get, map_set, map_delete, locations_or_none, upsert_in,
  upsert_location, filter_out, set_filtered, filter_found, filter_map,
}

get-set : (m : VolumeMap) (v : ℕ) (x : List VolumeLocation) → map_get (map_set m v x) v ≡ some x
unfolding map_get map_set
get-set [] v x = ground arith
get-set ((w, locs) ∷ m) v x = ground (arith, get-set m v x)

pub get-set_other :
    (m : VolumeMap) (v w : ℕ) (x : List VolumeLocation)
    → v ≢ w
    → map_get (map_set m v x) w ≡ map_get m w
unfolding map_get map_set
get-set_other [] v w x ne = ground arith
get-set_other ((u, locs) ∷ m) v w x ne = ground (arith, get-set_other m v w x ne)

pub get-delete : (m : VolumeMap) (v : ℕ) → map_get (map_delete m v) v ≡ none
unfolding map_get map_delete
get-delete [] v = refl
get-delete ((w, locs) ∷ m) v = ground (arith, get-delete m v)

get-delete_other : (m : VolumeMap) (v w : ℕ) → v ≢ w → map_get (map_delete m v) w ≡ map_get m w
unfolding map_get map_delete
get-delete_other [] v w ne = refl
get-delete_other ((u, locs) ∷ m) v w ne = ground (arith, get-delete_other m v w ne)

-- The locations of a volume in a map, none if it has no entry.
abbrev pub locations_at : VolumeMap → ℕ → List VolumeLocation
locations_at m v = locations_or_none (map_get m v)

pub at-set : (m : VolumeMap) (v : ℕ) (x : List VolumeLocation) → locations_at (map_set m v x) v ≡ x
at-set m v x = ap locations_or_none (get-set m v x)

pub at-set_other :
    (m : VolumeMap) (v w : ℕ) (x : List VolumeLocation)
    → v ≢ w
    → locations_at (map_set m v x) w ≡ locations_at m w
at-set_other m v w x ne = ap locations_or_none (get-set_other m v w x ne)

pub at-delete : (m : VolumeMap) (v : ℕ) → locations_at (map_delete m v) v ≡ []
at-delete m v = ap locations_or_none (get-delete m v)

pub at-delete_other :
    (m : VolumeMap) (v w : ℕ) → v ≢ w → locations_at (map_delete m v) w ≡ locations_at m w
at-delete_other m v w ne = ap locations_or_none (get-delete_other m v w ne)

at-set_filtered :
    (m : VolumeMap) (v : ℕ) (xs : List VolumeLocation) → locations_at (set_filtered m v xs) v ≡ xs
at-set_filtered m v [] = at-delete m v
at-set_filtered m v (x ∷ xs) = at-set m v (x ∷ xs)

at-set_filtered_other :
    (m : VolumeMap) (v w : ℕ) (xs : List VolumeLocation)
    → v ≢ w
    → locations_at (set_filtered m v xs) w ≡ locations_at m w
at-set_filtered_other m v w [] ne = at-delete_other m v w ne
at-set_filtered_other m v w (x ∷ xs) ne = at-set_other m v w (x ∷ xs) ne

at-filter_found :
    (m : VolumeMap) (v : ℕ) (drops : VolumeLocation → Bool) (found : Option (List VolumeLocation))
    → found ≡ map_get m v
    → locations_at (filter_found m v drops found) v ≡ filter_out drops (locations_or_none found)
unfolding filter_out
at-filter_found m v drops none same = sym (ap locations_or_none same)
at-filter_found m v drops (some locs) same = at-set_filtered m v (filter_out drops locs)

pub at-filter :
    (m : VolumeMap) (v : ℕ) (drops : VolumeLocation → Bool)
    → locations_at (filter_map m v drops) v ≡ filter_out drops (locations_at m v)
unfolding filter_map
at-filter m v drops = at-filter_found m v drops (map_get m v) refl

at-filter_found_other :
    (m : VolumeMap) (v w : ℕ) (drops : VolumeLocation → Bool) (found : Option (List VolumeLocation))
    → v ≢ w
    → locations_at (filter_found m v drops found) w ≡ locations_at m w
at-filter_found_other m v w drops none ne = refl
at-filter_found_other m v w drops (some locs) ne =
    at-set_filtered_other m v w (filter_out drops locs) ne

pub at-filter_other :
    (m : VolumeMap) (v w : ℕ) (drops : VolumeLocation → Bool)
    → v ≢ w
    → locations_at (filter_map m v drops) w ≡ locations_at m w
unfolding filter_map
at-filter_other m v w drops ne = at-filter_found_other m v w drops (map_get m v) ne

pub at-upsert :
    (m : VolumeMap) (v : ℕ) (loc : VolumeLocation)
    → locations_at (upsert_location m v loc) v ≡ upsert_in (locations_at m v) loc
unfolding upsert_location
at-upsert m v loc = at-set m v _

pub at-upsert_other :
    (m : VolumeMap) (v w : ℕ) (loc : VolumeLocation)
    → v ≢ w
    → locations_at (upsert_location m v loc) w ≡ locations_at m w
unfolding upsert_location
at-upsert_other m v w loc ne = at-set_other m v w _ ne
