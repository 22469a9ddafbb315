-- ===== src/Layout/Numbered.antt =====
-- goblob/topology/volume_layout.go: no volume of a layout has the id 0.
use go_blob.Base.{
  ℕ, ◌≡◌, ◌≢◌, ◌∙◌, refl, ap, Bool, true, false, Option, none, some, List, [], ◌∷◌, arith,
  if◌then◌else◌, ◌==◌,
}
use go_blob.Layout.Map.{get-set_other}
use go_blob.Layout.{
  VolumeLocation, VolumeMap, VolumeLayout, map_get, map_set, map_delete, filter_map, filter_found,
  set_filtered, filter_out, upsert_location, remove_location_from_map, add_location,
  add_volume_layout, remove_volume_location, remove_data_node_location, writable_found,
  read_only_found, set_volume_writable, set_volume_read_only, LayoutCall, add_call, remove_call,
  new_volume_layout, remove_node_call, writable_call, read_only_call, layout_step, layout_run,
}

-- No volume has the id 0 in a map.
abbrev pub HasNoZero : VolumeMap → Type 0
HasNoZero m = map_get m 0 ≡ none

set-HasNoZero :
    (m : VolumeMap) (v : ℕ) (x : List VolumeLocation)
    → v ≢ 0
    → HasNoZero m
    → HasNoZero (map_set m v x)
set-HasNoZero m v x ne h = get-set_other m v 0 x ne ∙ h

delete-HasNoZero : (m : VolumeMap) (v : ℕ) → HasNoZero m → HasNoZero (map_delete m v)
unfolding map_get map_delete
delete-HasNoZero [] v h = h
delete-HasNoZero ((w, locs) ∷ m) v h = ground (arith, delete-HasNoZero m v)

-- A volume that is found has an id other than 0.
found_not_zero :
    (m : VolumeMap) (v : ℕ) (locs : List VolumeLocation)
    → some locs ≡ map_get m v
    → HasNoZero m
    → v ≢ 0
found_not_zero m v locs found h =
    λ q. let same : some locs ≡ none = found ∙ ap (map_get m) q ∙ h in ground (arith, same)

set_filtered-HasNoZero :
    (m : VolumeMap) (v : ℕ) (xs : List VolumeLocation)
    → v ≢ 0
    → HasNoZero m
    → HasNoZero (set_filtered m v xs)
set_filtered-HasNoZero m v [] ne h = delete-HasNoZero m v h
set_filtered-HasNoZero m v (x ∷ xs) ne h = set-HasNoZero m v (x ∷ xs) ne h

filter_found-HasNoZero :
    (m : VolumeMap) (v : ℕ) (drops : VolumeLocation → Bool) (found : Option (List VolumeLocation))
    → found ≡ map_get m v
    → HasNoZero m
    → HasNoZero (filter_found m v drops found)
filter_found-HasNoZero m v drops none same h = h
filter_found-HasNoZero m v drops (some locs) same h =
    set_filtered-HasNoZero m v (filter_out drops locs) (found_not_zero m v locs same h) h

filter-HasNoZero :
    (m : VolumeMap) (v : ℕ) (drops : VolumeLocation → Bool)
    → HasNoZero m
    → HasNoZero (filter_map m v drops)
unfolding filter_map
filter-HasNoZero m v drops h = filter_found-HasNoZero m v drops (map_get m v) refl h

-- No map of a layout has the id 0.
pub record IsNumbered (vl : VolumeLayout) : Type 0 where
  pub writable : HasNoZero vl.writable_volumes
  pub readonly : HasNoZero vl.readonly_volumes
  pub crowded : HasNoZero vl.crowded_volumes

if-IsNumbered :
    (b : Bool) (x y : VolumeLayout) → IsNumbered x → IsNumbered y → IsNumbered (if b then x else y)
if-IsNumbered true x y hx hy = hx
if-IsNumbered false x y hx hy = hy

unless-IsNumbered :
    (b : Bool) (x y : VolumeLayout)
    → IsNumbered x
    → (b ≡ false → IsNumbered y)
    → IsNumbered (if b then x else y)
unless-IsNumbered true x y hx hy = hx
unless-IsNumbered false x y hx hy = hy refl

add_location-IsNumbered :
    (loc : VolumeLocation) (vl : VolumeLayout) → IsNumbered vl → IsNumbered (add_location loc vl)
unfolding add_location remove_location_from_map upsert_location
add_location-IsNumbered loc vl h = unless-IsNumbered (loc.volume_id == 0) vl _ h (λ eq.
    let ne : loc.volume_id ≢ 0 = λ q. ground (arith, eq, q) in
    if-IsNumbered loc.is_read_only _ _
      (record {
        writable = filter-HasNoZero vl.writable_volumes loc.volume_id _ h.writable;
        readonly = set-HasNoZero vl.readonly_volumes loc.volume_id _ ne h.readonly;
        crowded = filter-HasNoZero vl.crowded_volumes loc.volume_id _ h.crowded;
      })
      (record {
        writable = set-HasNoZero vl.writable_volumes loc.volume_id _ ne h.writable;
        readonly = filter-HasNoZero vl.readonly_volumes loc.volume_id _ h.readonly;
        crowded = filter-HasNoZero vl.crowded_volumes loc.volume_id _ h.crowded;
      }))

add-IsNumbered :
    (loc : Option VolumeLocation) (vl : VolumeLayout)
    → IsNumbered vl
    → IsNumbered (add_volume_layout loc vl)
unfolding add_volume_layout
add-IsNumbered none vl h = h
add-IsNumbered (some loc) vl h = add_location-IsNumbered loc vl h

writable-IsNumbered :
    (v : ℕ) (r c : Option (List VolumeLocation)) (vl : VolumeLayout)
    → r ≡ map_get vl.readonly_volumes v
    → c ≡ map_get vl.crowded_volumes v
    → IsNumbered vl
    → IsNumbered (writable_found v r c vl)
writable-IsNumbered v none none vl at_r at_c h = h
writable-IsNumbered v (some locs) c vl at_r at_c h = record {
  writable =
      set-HasNoZero vl.writable_volumes v locs
        (found_not_zero vl.readonly_volumes v locs at_r h.readonly) h.writable;
  readonly = delete-HasNoZero vl.readonly_volumes v h.readonly;
  crowded = h.crowded;
}
writable-IsNumbered v none (some locs) vl at_r at_c h = record {
  writable =
      set-HasNoZero vl.writable_volumes v locs
        (found_not_zero vl.crowded_volumes v locs at_c h.crowded) h.writable;
  readonly = h.readonly;
  crowded = delete-HasNoZero vl.crowded_volumes v h.crowded;
}

read_only-IsNumbered :
    (v : ℕ) (w c : Option (List VolumeLocation)) (vl : VolumeLayout)
    → w ≡ map_get vl.writable_volumes v
    → c ≡ map_get vl.crowded_volumes v
    → IsNumbered vl
    → IsNumbered (read_only_found v w c vl)
read_only-IsNumbered v none none vl at_w at_c h = h
read_only-IsNumbered v (some locs) c vl at_w at_c h = record {
  writable = delete-HasNoZero vl.writable_volumes v h.writable;
  readonly =
      set-HasNoZero vl.readonly_volumes v locs
        (found_not_zero vl.writable_volumes v locs at_w h.writable) h.readonly;
  crowded = h.crowded;
}
read_only-IsNumbered v none (some locs) vl at_w at_c h = record {
  writable = h.writable;
  readonly =
      set-HasNoZero vl.readonly_volumes v locs
        (found_not_zero vl.crowded_volumes v locs at_c h.crowded) h.readonly;
  crowded = delete-HasNoZero vl.crowded_volumes v h.crowded;
}

step-IsNumbered :
    (c : LayoutCall) (vl : VolumeLayout) → IsNumbered vl → IsNumbered (layout_step c vl)
unfolding layout_step set_volume_writable set_volume_read_only remove_volume_location
    remove_data_node_location
step-IsNumbered (add_call loc) vl h = add-IsNumbered loc vl h
step-IsNumbered (remove_call v) vl h = record {
  writable = delete-HasNoZero vl.writable_volumes v h.writable;
  readonly = delete-HasNoZero vl.readonly_volumes v h.readonly;
  crowded = delete-HasNoZero vl.crowded_volumes v h.crowded;
}
step-IsNumbered (remove_node_call v node) vl h = record {
  writable = filter-HasNoZero vl.writable_volumes v _ h.writable;
  readonly = filter-HasNoZero vl.readonly_volumes v _ h.readonly;
  crowded = filter-HasNoZero vl.crowded_volumes v _ h.crowded;
}
step-IsNumbered (writable_call v) vl h = writable-IsNumbered v _ _ vl refl refl h
step-IsNumbered (read_only_call v) vl h = read_only-IsNumbered v _ _ vl refl refl h

pub run-IsNumbered :
    (cs : List LayoutCall) (vl : VolumeLayout) → IsNumbered vl → IsNumbered (layout_run cs vl)
unfolding layout_run
run-IsNumbered [] vl h = h
run-IsNumbered (c ∷ cs) vl h = run-IsNumbered cs (layout_step c vl) (step-IsNumbered c vl h)

pub new-IsNumbered : IsNumbered new_volume_layout
unfolding map_get
new-IsNumbered = record { writable = refl; readonly = refl; crowded = refl }
