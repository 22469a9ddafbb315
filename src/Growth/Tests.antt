-- ===== src/Growth/Tests.antt =====
-- goblob/topology/volume_growth.go on concrete candidates.
use go_blob.Base.{ℕ, ◌≡◌, refl, List, [], ◌∷◌}
use go_blob.Bytes.{bytes_equal}
use go_blob.Types.{ReplicaPlacement, total_copies}
use go_blob.Layout.{DataNode}
use go_blob.Growth.{
  select_nodes_for_replica, select_loop, select_centers, select_racks, select_same_rack,
  select_rest, select_placed,
}
use go_blob.Growth.Select.{IsChoice, select_nodes_for_replica-IsChoice}

abbrev node_in : ℕ → ℕ → ℕ → DataNode
node_in id center rack = record {
  at = id;
  id = id ∷ [];
  data_center = center ∷ [];
  rack = rack ∷ [];
}

-- Two racks of one data center and one node of another one.
abbrev some_nodes : List DataNode
some_nodes = node_in 1 1 1 ∷ node_in 2 1 1 ∷ node_in 3 1 2 ∷ node_in 4 2 1 ∷ node_in 5 1 1 ∷ []

abbrev one_of_each : ReplicaPlacement
one_of_each = record {
  different_data_center_count = 1;
  different_rack_count = 1;
  same_rack_count = 1;
}

select_nodes_for_replica-IsChoice_example :
    IsChoice (total_copies one_of_each) some_nodes (select_nodes_for_replica some_nodes one_of_each)
select_nodes_for_replica-IsChoice_example = select_nodes_for_replica-IsChoice some_nodes one_of_each

placed_example :
    select_nodes_for_replica some_nodes one_of_each
    ≡ node_in 1 1 1 ∷ node_in 4 2 1 ∷ node_in 3 1 2 ∷ node_in 2 1 1 ∷ []
unfolding select_nodes_for_replica select_loop select_centers select_racks select_same_rack
    select_rest select_placed total_copies bytes_equal
placed_example = refl
