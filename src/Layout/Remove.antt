-- ===== src/Layout/Remove.antt =====
-- goblob/topology/volume_layout.go: RemoveDataNodeLocation takes out the locations of one node and
-- no other.
use go_blob.Base.{ℕ, ◌≡◌, ◌≢◌, ◌∙◌, refl, sym, true, false, Option, none, some, List}
use go_blob.Bytes.Laws.{bytes_equal_iff, bytes_equal_ne}
use go_blob.Layout.{
  DataNode, VolumeLocation, VolumeLayout, is_node, remove_data_node_location, filter_out,
}
use go_blob.Layout.Map.{locations_at, at-filter, at-filter_other}
use go_blob.Layout.Hosts.{
  hosts, replicas, replicas-at, replicas_elsewhere, hosts-filter_none, hosts-filter_all,
}

is_node-once :
    (id other : List ℕ) (node : Option DataNode)
    → other ≢ id
    → is_node other node ≡ true
    → is_node id node ≡ false
is_node-once id other none ne h = refl
is_node-once id other (some node) ne h =
    bytes_equal_ne node.id id (λ q. ne (sym ((bytes_equal_iff node.id other).0 h) ∙ q))

removed_none :
    (vid : ℕ) (id : List ℕ) (vl : VolumeLayout)
    → replicas vid id (remove_data_node_location vid id vl) ≡ 0
unfolding remove_data_node_location
removed_none vid id vl =
    replicas-at vid id (remove_data_node_location vid id vl) _ _ _
      (at-filter vl.writable_volumes vid _) (at-filter vl.readonly_volumes vid _)
      (at-filter vl.crowded_volumes vid _)
    ∙ rw (
      hosts-filter_none id (λ loc. is_node id loc.data_node) (locations_at vl.writable_volumes vid)
          (λ loc h. h),
      hosts-filter_none id (λ loc. is_node id loc.data_node) (locations_at vl.readonly_volumes vid)
          (λ loc h. h),
      hosts-filter_none id (λ loc. is_node id loc.data_node) (locations_at vl.crowded_volumes vid)
          (λ loc h. h),
    )

kept_other :
    (id other : List ℕ) (locs : List VolumeLocation)
    → other ≢ id
    → hosts other (filter_out (λ loc. is_node id loc.data_node) locs) ≡ hosts other locs
kept_other id other locs ne =
    hosts-filter_all other (λ loc. is_node id loc.data_node) locs
      (λ loc. is_node-once id other loc.data_node ne)

removed_other :
    (vid : ℕ) (id other : List ℕ) (vl : VolumeLayout)
    → other ≢ id
    → replicas vid other (remove_data_node_location vid id vl) ≡ replicas vid other vl
unfolding remove_data_node_location
removed_other vid id other vl ne =
    replicas-at vid other (remove_data_node_location vid id vl) _ _ _
      (at-filter vl.writable_volumes vid _) (at-filter vl.readonly_volumes vid _)
      (at-filter vl.crowded_volumes vid _)
    ∙ (rw (
      kept_other id other (locations_at vl.writable_volumes vid) ne,
      kept_other id other (locations_at vl.readonly_volumes vid) ne,
      kept_other id other (locations_at vl.crowded_volumes vid) ne,
    ))
    ∙ sym (replicas-at vid other vl _ _ _ refl refl refl)

-- RemoveDataNodeLocation leaves no location of the node for the volume, and leaves alone how often
-- another node has that volume and how often any node has another volume.
pub remove_data_node_location-exact :
    (vid : ℕ) (id : List ℕ) (vl : VolumeLayout)
    → (replicas vid id (remove_data_node_location vid id vl) ≡ 0)
      × ((other : List ℕ)
          → other ≢ id
          → replicas vid other (remove_data_node_location vid id vl) ≡ replicas vid other vl)
      × ((v : ℕ) (other : List ℕ)
          → vid ≢ v
          → replicas v other (remove_data_node_location vid id vl) ≡ replicas v other vl)
unfolding remove_data_node_location
remove_data_node_location-exact vid id vl = (
  removed_none vid id vl,
  (λ other ne. removed_other vid id other vl ne),
  (λ v other ne.
      replicas_elsewhere v other (remove_data_node_location vid id vl) vl
        (at-filter_other vl.writable_volumes vid v _ ne)
        (at-filter_other vl.readonly_volumes vid v _ ne)
        (at-filter_other vl.crowded_volumes vid v _ ne)),
)
