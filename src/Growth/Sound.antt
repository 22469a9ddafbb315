-- ===== src/Growth/Sound.antt =====
-- goblob/topology/volume_growth.go: the loops of selectNodesForReplica select distinct candidates.
use go_blob.Base.{
  ℕ, ◌+◌, ◌≤◌, ◌≡◌, ◌∙◌, refl, sym, ap, subst, Bool, true, false, ◌||◌, List, [], ◌∷◌, ◌++◌, leb,
  if◌then◌else◌, arith,
}
use go_blob.Bytes.{bytes_equal}
use go_blob.Bytes.Laws.{bytes_equal_self, bytes_equal_iff}
use go_blob.Types.{ReplicaPlacement}
use go_blob.Layout.{DataNode}
use go_blob.Growth.{
  has_enough, has_none_left, skips_center, skips_rack, skips_same_rack, skips_used, Selection,
  is_used, select_loop, take_node, take_rack, take_same_rack, select_centers, racks_of,
  select_racks, select_same_rack, select_rest, select_primary, select_placed,
}

-- How many nodes of a list have an id.
unfoldable pub copies : List ℕ → List DataNode → ℕ
copies id [] = 0
copies id (node ∷ nodes) =
    let rest = copies id nodes in if bytes_equal node.id id then 1 + rest else rest

pub copies-append :
    (id : List ℕ) (xs ys : List DataNode) → copies id (xs ++ ys) ≡ copies id xs + copies id ys
unfolding copies
copies-append id [] ys = omega arith
copies-append id (x ∷ xs) ys = ground (arith, copies-append id xs ys)

pub copies-one :
    (id : List ℕ) (node : DataNode)
    → copies id (node ∷ []) ≡ (if bytes_equal node.id id then 1 else 0)
unfolding copies
copies-one id node = ground arith

-- What holds through the loops: the used ids are those of the selected nodes, which are distinct
-- candidates.
pub record IsSound (nodes : List DataNode) (s : Selection) : Type 0 where
  pub once : (id : List ℕ) → copies id s.selected ≤ 1
  pub used : (id : List ℕ) → is_used id s.used_nodes ≡ leb 1 (copies id s.selected)
  pub known : (id : List ℕ) → 1 ≤ copies id s.selected → 1 ≤ copies id nodes

pub none_yet : (n : ℕ) → leb 1 n ≡ false → n ≡ 0
none_yet n h = ground arith

-- A step that appends an unused candidate.
pub appended :
    (nodes : List DataNode) (s t : Selection) (node : DataNode)
    → t.selected ≡ s.selected ++ node ∷ []
    → t.used_nodes ≡ node.id ∷ s.used_nodes
    → is_used node.id s.used_nodes ≡ false
    → 1 ≤ copies node.id nodes
    → IsSound nodes s
    → IsSound nodes t
appended nodes s t node at_selected at_used fresh here h = record {
  once = λ id.
      let (count, marks, alone, known) = facts id in
      let old = h.once id in ground (arith, count, alone, old);
  used = λ id.
      let (count, marks, alone, known) = facts id in
      let old = h.used id in ground (arith, count, marks, alone, old);
  known = λ id le.
      let (count, marks, alone, known) = facts id in
      let old = h.known id in ground (arith, count, known, old, le);
}
  where
    facts :
        (id : List ℕ)
        → (copies id t.selected ≡ copies id s.selected + (if bytes_equal node.id id then 1 else 0))
          × (is_used id t.used_nodes ≡ (bytes_equal node.id id || is_used id s.used_nodes))
          × (bytes_equal node.id id ≡ true → copies id s.selected ≡ 0)
          × (bytes_equal node.id id ≡ true → 1 ≤ copies id nodes)
    facts id = (
      ap (copies id) at_selected
          ∙ copies-append id s.selected (node ∷ [])
          ∙ ap (◌+◌ (copies id s.selected)) (copies-one id node),
      ap (is_used id) at_used,
      (λ q. none_yet (copies id s.selected) (
          sym (h.used id)
          ∙ subst (λ k. is_used k s.used_nodes ≡ false) ((bytes_equal_iff node.id id).0 q) fresh)),
      (λ q. subst (λ k. 1 ≤ copies k nodes) ((bytes_equal_iff node.id id).0 q) here),
    )

-- The nodes of a part of the candidates are candidates.
abbrev pub Among : List DataNode → List DataNode → Type 0
Among nodes [] = Unit
Among nodes (node ∷ more) = (1 ≤ copies node.id nodes) × Among nodes more

pub Among-behind :
    (node : DataNode) (nodes more : List DataNode) → Among nodes more → Among (node ∷ nodes) more
unfolding copies
Among-behind node nodes [] a = tt
Among-behind node nodes (m ∷ more) (le, a) = (ground (arith, le), Among-behind node nodes more a)

pub Among-self : (nodes : List DataNode) → Among nodes nodes
unfolding copies
Among-self [] = tt
Among-self (node ∷ nodes) =
    (ground (arith, bytes_equal_self node.id), Among-behind node nodes nodes (Among-self nodes))

-- A step of a loop, which takes an unused node or skips it.
abbrev pub Takes : (Selection → DataNode → Bool) → (DataNode → Selection → Selection) → Type 0
Takes skips takes =
    (s : Selection) (node : DataNode)
    → ((takes node s).selected ≡ s.selected ++ node ∷ [])
      × ((takes node s).used_nodes ≡ node.id ∷ s.used_nodes)
      × (skips s node ≡ false → is_used node.id s.used_nodes ≡ false)

pub step-IsSound :
    (nodes : List DataNode) (skips : Bool) (s t : Selection) (node : DataNode)
    → t.selected ≡ s.selected ++ node ∷ []
    → t.used_nodes ≡ node.id ∷ s.used_nodes
    → (skips ≡ false → is_used node.id s.used_nodes ≡ false)
    → 1 ≤ copies node.id nodes
    → IsSound nodes s
    → IsSound nodes (if skips then s else t)
step-IsSound nodes true s t node a b c here h = h
step-IsSound nodes false s t node a b c here h = appended nodes s t node a b (c refl) here h

pub either-IsSound :
    (nodes : List DataNode) (b : Bool) (s t : Selection)
    → IsSound nodes s
    → IsSound nodes t
    → IsSound nodes (if b then s else t)
either-IsSound nodes true s t h k = h
either-IsSound nodes false s t h k = k

pub loop-IsSound :
    (nodes : List DataNode) (stops : Selection → Bool) (skips : Selection → DataNode → Bool)
    (takes : DataNode → Selection → Selection) (more : List DataNode) (s : Selection)
    → Takes skips takes
    → Among nodes more
    → IsSound nodes s
    → IsSound nodes (select_loop stops skips takes more s)
unfolding select_loop
loop-IsSound nodes stops skips takes [] s rule a h = h
loop-IsSound nodes stops skips takes (node ∷ more) s rule (here, a) h =
    let (at_selected, at_used, fresh) = rule s node in
    either-IsSound nodes (stops s) s _ h (
      loop-IsSound nodes stops skips takes more _ rule a
        (step-IsSound nodes (skips s node) s (takes node s) node at_selected at_used fresh here h))

-- A test that also skips the used nodes.
pub unless_used : (u b : Bool) → (u || b) ≡ false → u ≡ false
unless_used u b h = ground arith

pub primary-IsSound :
    (primary : DataNode) (nodes : List DataNode)
    → IsSound (primary ∷ nodes) (select_primary primary)
unfolding copies
primary-IsSound primary nodes = record {
  once = λ id. ground arith;
  used = λ id. ground arith;
  known = λ id le. ground arith;
}

pub same-IsSound :
    (nodes : List DataNode) (s t : Selection)
    → t.selected ≡ s.selected
    → t.used_nodes ≡ s.used_nodes
    → IsSound nodes s
    → IsSound nodes t
same-IsSound nodes s t a b h = record {
  once = λ id. subst (λ k. copies id k ≤ 1) (sym a) (h.once id);
  used = λ id. ap (is_used id) b ∙ h.used id ∙ ap (λ k. leb 1 (copies id k)) (sym a);
  known = λ id le. h.known id (subst (λ k. 1 ≤ copies id k) a le);
}

pub centers-IsSound :
    (all nodes : List DataNode) (count : ℕ) (primary : DataNode) (s : Selection)
    → Among all nodes
    → IsSound all s
    → IsSound all (select_centers count primary nodes s)
unfolding select_centers
centers-IsSound all nodes count primary s a h =
    loop-IsSound all (has_enough (1 + count)) (skips_center primary) take_node nodes s
      (λ t node. (refl, refl, unless_used (is_used node.id t.used_nodes) _)) a h

pub racks-IsSound :
    (nodes : List DataNode) (count : ℕ) (primary : DataNode) (s : Selection)
    → IsSound nodes s
    → IsSound nodes (select_racks count primary nodes s)
unfolding select_racks
racks-IsSound nodes count primary s h =
    loop-IsSound nodes has_none_left (skips_rack primary) take_rack nodes
      (record s { used_racks = racks_of primary s.selected; left = count })
      (λ t node. (refl, refl, unless_used (is_used node.id t.used_nodes) _)) (Among-self nodes)
      (same-IsSound nodes s _ refl refl h)

pub same_rack-IsSound :
    (nodes : List DataNode) (count : ℕ) (primary : DataNode) (s : Selection)
    → IsSound nodes s
    → IsSound nodes (select_same_rack count primary nodes s)
unfolding select_same_rack
same_rack-IsSound nodes count primary s h =
    loop-IsSound nodes has_none_left (skips_same_rack primary) take_same_rack nodes
      (record s { left = count })
      (λ t node. (refl, refl, unless_used (is_used node.id t.used_nodes) _)) (Among-self nodes)
      (same-IsSound nodes s _ refl refl h)

pub rest-IsSound :
    (nodes : List DataNode) (total : ℕ) (s : Selection)
    → IsSound nodes s
    → IsSound nodes (select_rest total nodes s)
unfolding select_rest
rest-IsSound nodes total s h =
    loop-IsSound nodes (has_enough total) skips_used take_node nodes s
      (λ t node. (refl, refl, (λ q. q))) (Among-self nodes) h

pub placed-IsSound :
    (rp : ReplicaPlacement) (primary : DataNode) (nodes : List DataNode)
    → IsSound (primary ∷ nodes) (select_placed rp primary nodes)
unfolding select_placed
placed-IsSound rp primary nodes = same_rack-IsSound (primary ∷ nodes) rp.same_rack_count primary _ (
    racks-IsSound (primary ∷ nodes) rp.different_rack_count primary _ (
      centers-IsSound (primary ∷ nodes) nodes rp.different_data_center_count primary
        (select_primary primary) ((Among-self (primary ∷ nodes)).1)
        (primary-IsSound primary nodes)))
