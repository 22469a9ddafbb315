-- ===== src/Layout/Once.antt =====
-- goblob/topology/volume_layout.go: a node holds a volume at most once over the three maps of a
-- layout.
use go_blob.Base.{
  ℕ, ◌+◌, ◌≤◌, ◌≡◌, refl, subst, Bool, true, false, Option, none, some, List, [], ◌∷◌, arith,
  if◌then◌else◌, ◌==◌,
}
use go_blob.Bytes.{bytes_equal}
use go_blob.Layout.{
  VolumeLocation, VolumeLayout, new_volume_layout, is_node, map_get, upsert_location, filter_out,
  remove_location_from_map, add_location, add_volume_layout, remove_volume_location,
  remove_data_node_location, set_volume_writable, set_volume_read_only, LayoutCall, add_call,
  remove_call, remove_node_call, writable_call, read_only_call, layout_step, layout_run,
}
use go_blob.Layout.Map.{
  at-delete, at-delete_other, at-filter, at-filter_other, at-upsert, at-upsert_other,
}
use go_blob.Layout.Hosts.{
  hosts, replicas, placed, at_volume, replicas-at, replicas_elsewhere, le_one, turn,
  hosts-filter_le,
}
use go_blob.Layout.Moved.{moved_writable, moved_read_only}

write_once :
    (id : List ℕ) (loc : VolumeLocation) (vl : VolumeLayout) (vid : ℕ)
    → bytes_equal id [] ≡ false
    → replicas vid id vl ≤ 1
    → replicas vid id (record {
      writable_volumes = upsert_location vl.writable_volumes loc.volume_id loc;
      readonly_volumes = remove_location_from_map vl.readonly_volumes loc.volume_id loc.data_node;
      crowded_volumes = remove_location_from_map vl.crowded_volumes loc.volume_id loc.data_node;
    })
      ≤ 1
unfolding remove_location_from_map
write_once id loc vl vid ne =
    at_volume loc.volume_id vid
      (λ v.
        replicas v id vl ≤ 1
        → replicas v id (record {
          writable_volumes = upsert_location vl.writable_volumes loc.volume_id loc;
          readonly_volumes =
              remove_location_from_map vl.readonly_volumes loc.volume_id loc.data_node;
          crowded_volumes = remove_location_from_map vl.crowded_volumes loc.volume_id loc.data_node;
        })
          ≤ 1)
      (λ le.
        le_one _ _
          (replicas-at loc.volume_id id _ _ _ _ (at-upsert vl.writable_volumes loc.volume_id loc)
            (at-filter vl.readonly_volumes loc.volume_id _)
            (at-filter vl.crowded_volumes loc.volume_id _))
          (placed id loc _ _ _ ne
            (subst (λ k. k ≤ 1) (replicas-at loc.volume_id id vl _ _ _ refl refl refl) le)))
      (λ other le.
        le_one _ _
          (replicas_elsewhere vid id _ vl
            (at-upsert_other vl.writable_volumes loc.volume_id vid loc other)
            (at-filter_other vl.readonly_volumes loc.volume_id vid _ other)
            (at-filter_other vl.crowded_volumes loc.volume_id vid _ other))
          le)

read_only_once :
    (id : List ℕ) (loc : VolumeLocation) (vl : VolumeLayout) (vid : ℕ)
    → bytes_equal id [] ≡ false
    → replicas vid id vl ≤ 1
    → replicas vid id (record {
      writable_volumes = remove_location_from_map vl.writable_volumes loc.volume_id loc.data_node;
      readonly_volumes = upsert_location vl.readonly_volumes loc.volume_id loc;
      crowded_volumes = remove_location_from_map vl.crowded_volumes loc.volume_id loc.data_node;
    })
      ≤ 1
unfolding remove_location_from_map
read_only_once id loc vl vid ne =
    at_volume loc.volume_id vid
      (λ v.
        replicas v id vl ≤ 1
        → replicas v id (record {
          writable_volumes =
              remove_location_from_map vl.writable_volumes loc.volume_id loc.data_node;
          readonly_volumes = upsert_location vl.readonly_volumes loc.volume_id loc;
          crowded_volumes = remove_location_from_map vl.crowded_volumes loc.volume_id loc.data_node;
        })
          ≤ 1)
      (λ le.
        le_one _ _
          (replicas-at loc.volume_id id _ _ _ _ (at-filter vl.writable_volumes loc.volume_id _)
            (at-upsert vl.readonly_volumes loc.volume_id loc)
            (at-filter vl.crowded_volumes loc.volume_id _))
          (turn _ _ _ (
            placed id loc _ _ _ ne (
              turn _ _ _
                (subst (λ k. k ≤ 1) (replicas-at loc.volume_id id vl _ _ _ refl refl refl) le)))))
      (λ other le.
        le_one _ _
          (replicas_elsewhere vid id _ vl
            (at-filter_other vl.writable_volumes loc.volume_id vid _ other)
            (at-upsert_other vl.readonly_volumes loc.volume_id vid loc other)
            (at-filter_other vl.crowded_volumes loc.volume_id vid _ other))
          le)

if_once :
    (vid : ℕ) (id : List ℕ) (b : Bool) (x y : VolumeLayout)
    → replicas vid id x ≤ 1
    → replicas vid id y ≤ 1
    → replicas vid id (if b then x else y) ≤ 1
if_once vid id true x y hx hy = hx
if_once vid id false x y hx hy = hy

add-once :
    (id : List ℕ) (loc : Option VolumeLocation) (vl : VolumeLayout) (vid : ℕ)
    → bytes_equal id [] ≡ false
    → replicas vid id vl ≤ 1
    → replicas vid id (add_volume_layout loc vl) ≤ 1
unfolding add_volume_layout add_location
add-once id none vl vid ne le = le
add-once id (some loc) vl vid ne le = if_once vid id (loc.volume_id == 0) vl _ le (
    if_once vid id loc.is_read_only _ _ (read_only_once id loc vl vid ne le)
      (write_once id loc vl vid ne le))

none_new : (vid : ℕ) (id : List ℕ) → replicas vid id new_volume_layout ≤ 1
unfolding replicas map_get hosts
none_new vid id = omega arith

none_once : (id : List ℕ) → hosts id [] + hosts id [] + hosts id [] ≤ 1
unfolding hosts
none_once id = omega arith

remove-once :
    (id : List ℕ) (v : ℕ) (vl : VolumeLayout) (vid : ℕ)
    → replicas vid id vl ≤ 1
    → replicas vid id (remove_volume_location v vl) ≤ 1
unfolding remove_volume_location
remove-once id v vl vid =
    at_volume v vid (λ k. replicas k id vl ≤ 1 → replicas k id (remove_volume_location v vl) ≤ 1)
      (λ le.
        le_one _ _
          (replicas-at v id (remove_volume_location v vl) [] [] [] (at-delete vl.writable_volumes v)
            (at-delete vl.readonly_volumes v) (at-delete vl.crowded_volumes v))
          (none_once id))
      (λ other le.
        le_one _ _
          (replicas_elsewhere vid id (remove_volume_location v vl) vl
            (at-delete_other vl.writable_volumes v vid other)
            (at-delete_other vl.readonly_volumes v vid other)
            (at-delete_other vl.crowded_volumes v vid other))
          le)

filter_once :
    (id : List ℕ) (drops : VolumeLocation → Bool) (w r c : List VolumeLocation)
    → hosts id w + hosts id r + hosts id c ≤ 1
    → hosts id (filter_out drops w) + hosts id (filter_out drops r) + hosts id (filter_out drops c)
      ≤ 1
filter_once id drops w r c le =
    omega
      (arith, hosts-filter_le id drops w, hosts-filter_le id drops r, hosts-filter_le id drops c)

remove_node-once :
    (id : List ℕ) (v : ℕ) (node : List ℕ) (vl : VolumeLayout) (vid : ℕ)
    → replicas vid id vl ≤ 1
    → replicas vid id (remove_data_node_location v node vl) ≤ 1
unfolding remove_data_node_location
remove_node-once id v node vl vid =
    at_volume v vid
      (λ k. replicas k id vl ≤ 1 → replicas k id (remove_data_node_location v node vl) ≤ 1)
      (λ le.
        le_one _ _
          (replicas-at v id (remove_data_node_location v node vl) _ _ _
            (at-filter vl.writable_volumes v _) (at-filter vl.readonly_volumes v _)
            (at-filter vl.crowded_volumes v _))
          (filter_once id (λ loc. is_node node loc.data_node) _ _ _
            (subst (λ k. k ≤ 1) (replicas-at v id vl _ _ _ refl refl refl) le)))
      (λ other le.
        le_one _ _
          (replicas_elsewhere vid id (remove_data_node_location v node vl) vl
            (at-filter_other vl.writable_volumes v vid _ other)
            (at-filter_other vl.readonly_volumes v vid _ other)
            (at-filter_other vl.crowded_volumes v vid _ other))
          le)

step-once :
    (id : List ℕ) (c : LayoutCall) (vl : VolumeLayout) (vid : ℕ)
    → bytes_equal id [] ≡ false
    → replicas vid id vl ≤ 1
    → replicas vid id (layout_step c vl) ≤ 1
unfolding layout_step set_volume_writable set_volume_read_only
step-once id (add_call loc) vl vid ne le = add-once id loc vl vid ne le
step-once id (remove_call v) vl vid ne le = remove-once id v vl vid le
step-once id (remove_node_call v node) vl vid ne le = remove_node-once id v node vl vid le
step-once id (writable_call v) vl vid ne le = moved_writable id v _ _ vl vid refl refl le
step-once id (read_only_call v) vl vid ne le = moved_read_only id v _ _ vl vid refl refl le

run_from-once :
    (cs : List LayoutCall) (vl : VolumeLayout) (vid : ℕ) (id : List ℕ)
    → bytes_equal id [] ≡ false
    → replicas vid id vl ≤ 1
    → replicas vid id (layout_run cs vl) ≤ 1
unfolding layout_run
run_from-once [] vl vid id ne le = le
run_from-once (c ∷ cs) vl vid id ne le =
    run_from-once cs (layout_step c vl) vid id ne (step-once id c vl vid ne le)

-- After any calls on a new layout, a node whose id is not empty has a volume at most once
-- over the writable, the read-only and the crowded locations together.
pub layout_run-once :
    (cs : List LayoutCall) (vid : ℕ) (id : List ℕ)
    → bytes_equal id [] ≡ false
    → replicas vid id (layout_run cs new_volume_layout) ≤ 1
layout_run-once cs vid id ne = run_from-once cs new_volume_layout vid id ne (none_new vid id)
