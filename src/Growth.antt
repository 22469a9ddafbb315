-- ===== src/Growth.antt =====
-- goblob/topology/volume_growth.go: the choice of the nodes for the replicas of a new volume. The
-- candidates are data nodes in the order in which selectNodesForReplica gets them; a Go map with
-- the value true is the list of its keys.
pub mod Sound
pub mod Select
mod Tests
use go_blob.Base.{
  ℕ, ◌+◌, ◌-◌, Bool, true, false, not, ◌&&◌, ◌||◌, List, [], ◌∷◌, ◌++◌, length, take, ◌==◌, leb,
  if◌then◌else◌,
}
use go_blob.Bytes.{bytes_equal}
use go_blob.Types.{ReplicaPlacement, total_copies}
use go_blob.Layout.{DataNode}

-- The variables of selectNodesForReplica; `left` is the target of the loop that runs.
pub record Selection : Type 0 where
  pub selected : List DataNode
  pub used_nodes : List (List ℕ)
  pub used_racks : List (List ℕ)
  pub left : ℕ

abbrev pub is_used : List ℕ → List (List ℕ) → Bool
is_used id [] = false
is_used id (used ∷ more) = bytes_equal used id || is_used id more

-- A loop over the candidates: it breaks on `stops`, continues on `skips`, and else takes the node.
unfoldable pub select_loop :
    (Selection → Bool)
    → (Selection → DataNode → Bool)
    → (DataNode → Selection → Selection)
    → List DataNode
    → Selection
    → Selection
select_loop stops skips takes [] s = s
select_loop stops skips takes (node ∷ nodes) s =
    let rest = select_loop stops skips takes nodes (if skips s node then s else takes node s) in
    if stops s then s else rest

abbrev pub take_node : DataNode → Selection → Selection
take_node node s = record s {
  selected = s.selected ++ node ∷ [];
  used_nodes = node.id ∷ s.used_nodes;
}

abbrev pub take_rack : DataNode → Selection → Selection
take_rack node s = record {
  selected = s.selected ++ node ∷ [];
  used_nodes = node.id ∷ s.used_nodes;
  used_racks = node.rack ∷ s.used_racks;
  left = s.left - 1;
}

abbrev pub take_same_rack : DataNode → Selection → Selection
take_same_rack node s = record {
  selected = s.selected ++ node ∷ [];
  used_nodes = node.id ∷ s.used_nodes;
  used_racks = s.used_racks;
  left = s.left - 1;
}

-- The tests on which the loops break and continue.
abbrev pub has_enough : ℕ → Selection → Bool
has_enough n t = leb n (length t.selected)

abbrev pub has_none_left : Selection → Bool
has_none_left t = t.left == 0

abbrev pub skips_center : DataNode → Selection → DataNode → Bool
skips_center primary t node =
    is_used node.id t.used_nodes || bytes_equal node.data_center primary.data_center

abbrev pub skips_rack : DataNode → Selection → DataNode → Bool
skips_rack primary t node =
    is_used node.id t.used_nodes
    || (not (bytes_equal node.data_center primary.data_center) || is_used node.rack t.used_racks)

abbrev pub skips_same_rack : DataNode → Selection → DataNode → Bool
skips_same_rack primary t node =
    is_used node.id t.used_nodes
    || not (bytes_equal node.data_center primary.data_center && bytes_equal node.rack primary.rack)

abbrev pub skips_used : Selection → DataNode → Bool
skips_used t node = is_used node.id t.used_nodes

-- The replicas in other data centers.
unfoldable pub select_centers : ℕ → DataNode → List DataNode → Selection → Selection
unfolding select_loop
select_centers count primary nodes s =
    select_loop (has_enough (1 + count)) (skips_center primary) take_node nodes s

-- The racks of the selected nodes in the data center of the primary.
abbrev pub racks_of : DataNode → List DataNode → List (List ℕ)
racks_of primary [] = primary.rack ∷ []
racks_of primary (node ∷ nodes) =
    let rest = racks_of primary nodes in
    if bytes_equal node.data_center primary.data_center then node.rack ∷ rest else rest

-- The replicas in other racks of that data center.
unfoldable pub select_racks : ℕ → DataNode → List DataNode → Selection → Selection
unfolding select_loop
select_racks count primary nodes s =
    select_loop has_none_left (skips_rack primary) take_rack nodes
      (record s { used_racks = racks_of primary s.selected; left = count })

-- The replicas in the rack of the primary.
unfoldable pub select_same_rack : ℕ → DataNode → List DataNode → Selection → Selection
unfolding select_loop
select_same_rack count primary nodes s =
    select_loop has_none_left (skips_same_rack primary) take_same_rack nodes
      (record s { left = count })

-- Any other candidates, up to the number of copies.
unfoldable pub select_rest : ℕ → List DataNode → Selection → Selection
unfolding select_loop
select_rest total nodes s = select_loop (has_enough total) skips_used take_node nodes s

-- The selection with the primary alone.
abbrev pub select_primary : DataNode → Selection
select_primary primary = record {
  selected = primary ∷ [];
  used_nodes = primary.id ∷ [];
  used_racks = [];
  left = 0;
}

-- The first three loops.
unfoldable pub select_placed : ReplicaPlacement → DataNode → List DataNode → Selection
unfolding select_centers select_racks select_same_rack
select_placed rp primary nodes =
    let centers =
      select_centers rp.different_data_center_count primary nodes (select_primary primary) in
    let racks = select_racks rp.different_rack_count primary (primary ∷ nodes) centers in
    select_same_rack rp.same_rack_count primary (primary ∷ nodes) racks

-- selectNodesForReplica; a placement always has a copy, so its early return is the one without
-- candidates.
unfoldable pub select_nodes_for_replica : List DataNode → ReplicaPlacement → List DataNode
unfolding select_placed select_rest total_copies
select_nodes_for_replica [] rp = []
select_nodes_for_replica (primary ∷ nodes) rp =
    let all = select_rest (total_copies rp) (primary ∷ nodes) (select_placed rp primary nodes) in
    if leb (1 + total_copies rp) (length all.selected)
    then take (total_copies rp) all.selected
    else all.selected
