-- ===== src/Layout.antt =====
-- goblob/topology/volume_layout.go: the locations of the volumes of one collection, replication and
-- TTL, and goblob/util, whose map holds them. A slice is its elements, so a list that was handed
-- out does not change when the code later filters its slice in place; a map is its entries, in an
-- order that is whatever the map has. `is_alive` is the heartbeat test of a node at the time of the
-- call.
pub mod Map
pub mod Hosts
mod Moved
pub mod Once
pub mod Remove
pub mod Pick
mod Numbered
mod Tests
use go_blob.Base.{
  ℕ, suc, Bool, true, false, not, ◌&&◌, ◌||◌, Option, none, some, List, [], ◌∷◌, ◌++◌, ◌==◌,
  if◌then◌else◌,
}
use go_blob.Bytes.{bytes_equal}

-- A DataNode; `at` is its address, which a comparison of pointers compares.
pub record DataNode : Type 0 where
  pub at : ℕ
  pub id : List ℕ
  pub data_center : List ℕ
  pub rack : List ℕ

pub record VolumeLocation : Type 0 where
  pub data_node : Option DataNode
  pub volume_id : ℕ
  pub is_read_only : Bool

-- ConcurrentReadMap of locations by volume id.
abbrev pub VolumeMap : Type 0
VolumeMap = List (ℕ × List VolumeLocation)

unfoldable pub map_get : VolumeMap → ℕ → Option (List VolumeLocation)
map_get [] vid = none
map_get ((v, locs) ∷ m) vid = if v == vid then some locs else map_get m vid

unfoldable pub map_delete : VolumeMap → ℕ → VolumeMap
map_delete [] vid = []
map_delete ((v, locs) ∷ m) vid =
    let rest = map_delete m vid in if v == vid then rest else (v, locs) ∷ rest

unfoldable pub map_set : VolumeMap → ℕ → List VolumeLocation → VolumeMap
map_set [] vid value = (vid, value) ∷ []
map_set ((v, locs) ∷ m) vid value =
    let rest = map_set m vid value in if v == vid then (v, value) ∷ m else (v, locs) ∷ rest

abbrev pub id_of_node : Option DataNode → List ℕ
id_of_node none = []
id_of_node (some node) = node.id

-- Whether two pointers to nodes, the first one not nil, are the same.
abbrev pub node_is : Option DataNode → Option DataNode → Bool
node_is none other = false
node_is (some node) none = false
node_is (some node) (some other) = other.at == node.at

unfoldable pub same_data_node : Option DataNode → List ℕ → Option DataNode → Bool
same_data_node none id node = node_is node none
same_data_node (some held) id node =
    if not (bytes_equal id []) then bytes_equal held.id id else node_is node (some held)

-- The loop of upsertLocation: the first location of the node is replaced, or the location appended.
unfoldable pub upsert_in : List VolumeLocation → VolumeLocation → List VolumeLocation
unfolding same_data_node
upsert_in [] loc = loc ∷ []
upsert_in (e ∷ existing) loc =
    let rest = upsert_in existing loc in
    if same_data_node e.data_node (id_of_node loc.data_node) loc.data_node
    then loc ∷ existing
    else e ∷ rest

abbrev pub locations_or_none : Option (List VolumeLocation) → List VolumeLocation
locations_or_none none = []
locations_or_none (some locs) = locs

unfoldable pub upsert_location : VolumeMap → ℕ → VolumeLocation → VolumeMap
unfolding map_get map_set upsert_in
upsert_location m vid loc = map_set m vid (upsert_in (locations_or_none (map_get m vid)) loc)

-- The loops that keep the locations that fail a test.
unfoldable pub filter_out : (VolumeLocation → Bool) → List VolumeLocation → List VolumeLocation
filter_out drops [] = []
filter_out drops (loc ∷ locs) =
    let rest = filter_out drops locs in if drops loc then rest else loc ∷ rest

abbrev pub set_filtered : VolumeMap → ℕ → List VolumeLocation → VolumeMap
set_filtered m vid [] = map_delete m vid
set_filtered m vid (loc ∷ locs) = map_set m vid (loc ∷ locs)

abbrev pub filter_found :
    VolumeMap → ℕ → (VolumeLocation → Bool) → Option (List VolumeLocation) → VolumeMap
filter_found m vid drops none = m
filter_found m vid drops (some locs) = set_filtered m vid (filter_out drops locs)

unfoldable pub filter_map : VolumeMap → ℕ → (VolumeLocation → Bool) → VolumeMap
unfolding map_get map_set map_delete filter_out
filter_map m vid drops = filter_found m vid drops (map_get m vid)

unfoldable pub remove_location_from_map : VolumeMap → ℕ → Option DataNode → VolumeMap
unfolding filter_map same_data_node
remove_location_from_map m vid node =
    filter_map m vid (λ loc. same_data_node loc.data_node (id_of_node node) node)

abbrev pub is_node : List ℕ → Option DataNode → Bool
is_node id none = false
is_node id (some node) = bytes_equal node.id id

-- VolumeLayout; its maps.
pub record VolumeLayout : Type 0 where
  pub writable_volumes : VolumeMap
  pub readonly_volumes : VolumeMap
  pub crowded_volumes : VolumeMap

abbrev pub new_volume_layout : VolumeLayout
new_volume_layout = record { writable_volumes = []; readonly_volumes = []; crowded_volumes = [] }

unfoldable pub add_location : VolumeLocation → VolumeLayout → VolumeLayout
unfolding remove_location_from_map upsert_location
add_location loc vl =
    let vid = loc.volume_id in
    if vid == 0
    then vl
    else if loc.is_read_only
    then record {
      writable_volumes = remove_location_from_map vl.writable_volumes vid loc.data_node;
      readonly_volumes = upsert_location vl.readonly_volumes vid loc;
      crowded_volumes = remove_location_from_map vl.crowded_volumes vid loc.data_node;
    }
    else record {
      writable_volumes = upsert_location vl.writable_volumes vid loc;
      readonly_volumes = remove_location_from_map vl.readonly_volumes vid loc.data_node;
      crowded_volumes = remove_location_from_map vl.crowded_volumes vid loc.data_node;
    }

-- AddVolumeLayout; `none` is nil.
unfoldable pub add_volume_layout : Option VolumeLocation → VolumeLayout → VolumeLayout
unfolding add_location
add_volume_layout none vl = vl
add_volume_layout (some loc) vl = add_location loc vl

unfoldable pub remove_volume_location : ℕ → VolumeLayout → VolumeLayout
unfolding map_delete
remove_volume_location vid vl = record {
  writable_volumes = map_delete vl.writable_volumes vid;
  readonly_volumes = map_delete vl.readonly_volumes vid;
  crowded_volumes = map_delete vl.crowded_volumes vid;
}

unfoldable pub remove_data_node_location : ℕ → List ℕ → VolumeLayout → VolumeLayout
unfolding filter_map
remove_data_node_location vid id vl = record {
  writable_volumes = filter_map vl.writable_volumes vid (λ loc. is_node id loc.data_node);
  readonly_volumes = filter_map vl.readonly_volumes vid (λ loc. is_node id loc.data_node);
  crowded_volumes = filter_map vl.crowded_volumes vid (λ loc. is_node id loc.data_node);
}

abbrev pub first_found :
    Option (List VolumeLocation) → Option (List VolumeLocation) → Option (List VolumeLocation)
first_found none other = other
first_found (some locs) other = some locs

unfoldable pub lookup_volume : ℕ → VolumeLayout → Option (List VolumeLocation)
unfolding map_get
lookup_volume vid vl =
    first_found (map_get vl.writable_volumes vid)
      (first_found (map_get vl.readonly_volumes vid) (map_get vl.crowded_volumes vid))

-- SetVolumeWritable, behind the two lookups.
abbrev pub writable_found :
    ℕ → Option (List VolumeLocation) → Option (List VolumeLocation) → VolumeLayout → VolumeLayout
writable_found vid none none vl = vl
writable_found vid (some locs) crowded vl = record {
  writable_volumes = map_set vl.writable_volumes vid locs;
  readonly_volumes = map_delete vl.readonly_volumes vid;
  crowded_volumes = vl.crowded_volumes;
}
writable_found vid none (some locs) vl = record {
  writable_volumes = map_set vl.writable_volumes vid locs;
  readonly_volumes = vl.readonly_volumes;
  crowded_volumes = map_delete vl.crowded_volumes vid;
}

unfoldable pub set_volume_writable : ℕ → VolumeLayout → VolumeLayout
unfolding map_get map_set map_delete
set_volume_writable vid vl =
    writable_found vid (map_get vl.readonly_volumes vid) (map_get vl.crowded_volumes vid) vl

-- SetVolumeReadOnly, behind the two lookups.
abbrev pub read_only_found :
    ℕ → Option (List VolumeLocation) → Option (List VolumeLocation) → VolumeLayout → VolumeLayout
read_only_found vid none none vl = vl
read_only_found vid (some locs) crowded vl = record {
  writable_volumes = map_delete vl.writable_volumes vid;
  readonly_volumes = map_set vl.readonly_volumes vid locs;
  crowded_volumes = vl.crowded_volumes;
}
read_only_found vid none (some locs) vl = record {
  writable_volumes = vl.writable_volumes;
  readonly_volumes = map_set vl.readonly_volumes vid locs;
  crowded_volumes = map_delete vl.crowded_volumes vid;
}

unfoldable pub set_volume_read_only : ℕ → VolumeLayout → VolumeLayout
unfolding map_get map_set map_delete
set_volume_read_only vid vl =
    read_only_found vid (map_get vl.writable_volumes vid) (map_get vl.crowded_volumes vid) vl

-- The calls that change a layout.
pub data LayoutCall : Type 0 where
  add_call : Option VolumeLocation → LayoutCall
  remove_call : ℕ → LayoutCall
  remove_node_call : ℕ → List ℕ → LayoutCall
  writable_call : ℕ → LayoutCall
  read_only_call : ℕ → LayoutCall

unfoldable pub layout_step : LayoutCall → VolumeLayout → VolumeLayout
unfolding add_volume_layout remove_volume_location remove_data_node_location set_volume_writable
    set_volume_read_only
layout_step (add_call loc) vl = add_volume_layout loc vl
layout_step (remove_call vid) vl = remove_volume_location vid vl
layout_step (remove_node_call vid id) vl = remove_data_node_location vid id vl
layout_step (writable_call vid) vl = set_volume_writable vid vl
layout_step (read_only_call vid) vl = set_volume_read_only vid vl

unfoldable pub layout_run : List LayoutCall → VolumeLayout → VolumeLayout
unfolding layout_step
layout_run [] vl = vl
layout_run (c ∷ cs) vl = layout_run cs (layout_step c vl)

-- VolumeGrowOption: the filters of PickForWrite.
pub record VolumeGrowOption : Type 0 where
  pub data_center : List ℕ
  pub rack : List ℕ

abbrev pub matches_node : VolumeGrowOption → Option DataNode → Bool
matches_node opt none = false
matches_node opt (some node) =
    bytes_equal node.data_center opt.data_center
    && (bytes_equal opt.rack [] || bytes_equal node.rack opt.rack)

abbrev pub matches_any : VolumeGrowOption → List VolumeLocation → Bool
matches_any opt [] = false
matches_any opt (loc ∷ locs) = matches_node opt loc.data_node || matches_any opt locs

abbrev pub is_matched : Option VolumeGrowOption → List VolumeLocation → Bool
is_matched none locs = true
is_matched (some opt) locs = bytes_equal opt.data_center [] || matches_any opt locs

abbrev pub picked : Option (ℕ × List VolumeLocation) → Option (ℕ × List VolumeLocation)
picked none = none
picked (some (v, locs)) = if v == 0 then none else some (v, locs)

module _ (is_alive : DataNode → Bool) where
  -- Whether the first replica is on no node or on a live one; no replica at all fails.
  abbrev pub is_fresh : List VolumeLocation → Bool
  is_fresh [] = false
  is_fresh (loc ∷ locs) = elim (loc.data_node) [ none ↦ true | some node ↦ is_alive node ]

  -- The Range of PickForWrite.
  unfoldable pub pick_in : Option VolumeGrowOption → VolumeMap → Option (ℕ × List VolumeLocation)
  pick_in opt [] = none
  pick_in opt ((v, locs) ∷ m) =
      let rest = pick_in opt m in
      if is_fresh locs && is_matched opt locs then some (v, locs) else rest

  -- PickForWrite; `none` is its error.
  unfoldable pub pick_for_write :
      Option VolumeGrowOption → VolumeLayout → Option (ℕ × List VolumeLocation)
  unfolding pick_in
  pick_for_write opt vl = picked (pick_in opt vl.writable_volumes)
