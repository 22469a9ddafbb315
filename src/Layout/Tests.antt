-- ===== src/Layout/Tests.antt =====
-- goblob/topology/volume_layout.go on concrete layouts.
use go_blob.Base.{ℕ, ◌≡◌, ◌≢◌, ◌≤◌, refl, Bool, true, false, Option, some, List, [], ◌∷◌}
use go_blob.Bytes.{bytes_equal}
use go_blob.Layout.{
  DataNode, VolumeLocation, VolumeLayout, VolumeGrowOption, new_volume_layout, LayoutCall, add_call,
  remove_data_node_location, pick_for_write, layout_run, lookup_volume, layout_step,
  add_volume_layout, add_location, upsert_location, upsert_in, remove_location_from_map, filter_map,
  filter_out, same_data_node, map_get, map_set, map_delete, set_volume_read_only,
}
use go_blob.Layout.Hosts.{replicas}
use go_blob.Layout.Once.{layout_run-once}
use go_blob.Layout.Remove.{remove_data_node_location-exact}
use go_blob.Layout.Pick.{PickIsRight, pick_for_write-right}

abbrev first_node : DataNode
first_node = record { at = 1; id = 65 ∷ []; data_center = 100 ∷ []; rack = 114 ∷ [] }

abbrev second_node : DataNode
second_node = record { at = 2; id = 66 ∷ []; data_center = 101 ∷ []; rack = 114 ∷ [] }

abbrev on : DataNode → ℕ → Bool → VolumeLocation
on node vid read_only = record { data_node = some node; volume_id = vid; is_read_only = read_only }

-- Two replicas of volume 3, of which one turns read-only, and one of volume 4.
abbrev some_calls : List LayoutCall
some_calls =
    add_call (some (on first_node 3 false))
    ∷ add_call (some (on second_node 3 false))
    ∷ add_call (some (on first_node 4 false))
    ∷ add_call (some (on second_node 3 true))
    ∷ []

layout_run-once_example : replicas 3 (66 ∷ []) (layout_run some_calls new_volume_layout) ≤ 1
unfolding bytes_equal
layout_run-once_example = layout_run-once some_calls 3 (66 ∷ []) refl

abbrev some_layout : VolumeLayout
some_layout = layout_run some_calls new_volume_layout

remove_data_node_location-exact_example :
    (replicas 3 (66 ∷ []) (remove_data_node_location 3 (66 ∷ []) some_layout) ≡ 0)
    × ((other : List ℕ)
        → other ≢ 66 ∷ []
        → replicas 3 other (remove_data_node_location 3 (66 ∷ []) some_layout)
          ≡ replicas 3 other some_layout)
    × ((v : ℕ) (other : List ℕ)
        → 3 ≢ v
        → replicas v other (remove_data_node_location 3 (66 ∷ []) some_layout)
          ≡ replicas v other some_layout)
remove_data_node_location-exact_example = remove_data_node_location-exact 3 (66 ∷ []) some_layout

abbrev all_alive : DataNode → Bool
all_alive node = true

abbrev in_first_center : Option VolumeGrowOption
in_first_center = some (record { data_center = 100 ∷ []; rack = [] })

pick_for_write-right_example :
    PickIsRight all_alive in_first_center some_layout.writable_volumes
      (pick_for_write all_alive in_first_center some_layout)
pick_for_write-right_example = pick_for_write-right all_alive in_first_center some_calls

-- With a replica in each of two maps the lookup answers the writable one only.
split_lookup : lookup_volume 3 some_layout ≡ some (on first_node 3 false ∷ [])
unfolding lookup_volume layout_run layout_step add_volume_layout add_location upsert_location
    upsert_in remove_location_from_map filter_map filter_out same_data_node map_get map_set
    map_delete bytes_equal
split_lookup = refl

-- Turning the volume read-only then loses the replica that was read-only already.
lost_replica :
    lookup_volume 3 (set_volume_read_only 3 some_layout) ≡ some (on first_node 3 false ∷ [])
unfolding lookup_volume layout_run layout_step add_volume_layout add_location upsert_location
    upsert_in set_volume_read_only remove_location_from_map filter_map filter_out same_data_node
    map_get map_set map_delete bytes_equal
lost_replica = refl

lost_count : replicas 3 (66 ∷ []) (set_volume_read_only 3 some_layout) ≡ 0
unfolding replicas lookup_volume layout_run layout_step add_volume_layout add_location
    upsert_location upsert_in set_volume_read_only remove_location_from_map filter_map filter_out
    same_data_node map_get map_set map_delete bytes_equal
lost_count = refl
