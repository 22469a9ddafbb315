-- ===== src/Growth/Select.antt =====
-- goblob/topology/volume_growth.go: the nodes that are selected are distinct candidates, and as
-- many as there can be.
use go_blob.Base.{
  ℕ, ◌+◌, ◌≤◌, ◌≡◌, ◌∙◌, refl, sym, ap, subst, Bool, true, false, ◌||◌, List, [], ◌∷◌, length, zero,
  suc, take, leb, if◌then◌else◌, arith, ◌⊎◌, inl, inr, length-take, Bool-cases,
}
use go_blob.Bytes.{bytes_equal}
use go_blob.Bytes.Laws.{bytes_equal_self, bytes_equal_iff}
use go_blob.Types.{ReplicaPlacement, total_copies}
use go_blob.Layout.{DataNode}
use go_blob.Growth.{
  has_enough, skips_used, Selection, is_used, select_loop, take_node, select_rest, select_placed,
  select_nodes_for_replica,
}
use go_blob.Growth.Sound.{copies, IsSound, rest-IsSound, placed-IsSound}

-- The ids that are used stay used through a loop of takes.
step-used :
    (skips : Bool) (s t : Selection) (node : DataNode) (id : List ℕ)
    → t.used_nodes ≡ node.id ∷ s.used_nodes
    → is_used id s.used_nodes ≡ true
    → is_used id (if skips then s else t).used_nodes ≡ true
step-used true s t node id at h = h
step-used false s t node id at h =
    ap (is_used id) at ∙ or_true (bytes_equal node.id id) (is_used id s.used_nodes) h
  where
    or_true : (a b : Bool) → b ≡ true → (a || b) ≡ true
    or_true a b q = ground arith

rest-used :
    (total : ℕ) (more : List DataNode) (s : Selection) (id : List ℕ)
    → is_used id s.used_nodes ≡ true
    → is_used id (select_rest total more s).used_nodes ≡ true
unfolding select_rest select_loop
rest-used total [] s id h = h
rest-used total (node ∷ more) s id h =
    elim (has_enough total s)
      as (λ b.
        is_used id
          (if b
            then s
            else select_rest total more
                (if skips_used s node then s else take_node node s)).used_nodes
        ≡ true) [
          | true ↦ h
          | false ↦
              rest-used total more _ id
                (step-used (skips_used s node) s (take_node node s) node id refl h)
        ]

-- Behind a step of the last loop its candidate is used.
step-used_node :
    (s : Selection) (node : DataNode) (used : Bool)
    → is_used node.id s.used_nodes ≡ used
    → is_used node.id (if used then s else take_node node s).used_nodes ≡ true
step-used_node s node true q = q
step-used_node s node false q = rw (bytes_equal_self node.id)

-- The nodes that the last loop ends with behind one more candidate.
abbrev rest_behind : ℕ → DataNode → List DataNode → Selection → Bool → Selection
rest_behind total node more s b =
    let rest = select_rest total more (if skips_used s node then s else take_node node s) in
    if b then s else rest

abbrev Covers : ℕ → List DataNode → Selection → Type 0
Covers total nodes s =
    (total ≤ length s.selected)
    ⊎ ((id : List ℕ) → 1 ≤ copies id nodes → is_used id s.used_nodes ≡ true)

Covers-step :
    (total : ℕ) (node : DataNode) (more : List DataNode) (s : Selection) (b : Bool)
    → has_enough total s ≡ b
    → Covers total more (select_rest total more (if skips_used s node then s else take_node node s))
    → Covers total (node ∷ more) (rest_behind total node more s b)
unfolding copies
Covers-step total node more s true q rest = inl (ground (arith, q))
Covers-step total node more s false q (inl le) = inl le
Covers-step total node more s false q (inr all) = inr (λ id le.
    elim (Bool-cases (bytes_equal node.id id)) [
      | inl same ↦
          subst (λ k. is_used k (rest_behind total node more s false).used_nodes ≡ true)
            ((bytes_equal_iff node.id id).0 same)
            (rest-used total more _ node.id (step-used_node s node _ refl))
      | inr other ↦ all id (ground (arith, le, other))
    ])

-- The last loop ends with enough nodes, or has used every candidate.
rest-Covers :
    (total : ℕ) (more : List DataNode) (s : Selection)
    → Covers total more (select_rest total more s)
unfolding select_rest select_loop copies
rest-Covers total [] s = inr (λ id le. absurd (omega arith))
rest-Covers total (node ∷ more) s =
    Covers-step total node more s (has_enough total s) refl
      (rest-Covers total more (if skips_used s node then s else take_node node s))

copies-take_le : (id : List ℕ) (n : ℕ) (xs : List DataNode) → copies id (take n xs) ≤ copies id xs
unfolding copies
copies-take_le id zero xs = omega arith
copies-take_le id (suc n) [] = omega arith
copies-take_le id (suc n) (x ∷ xs) = ground (arith, copies-take_le id n xs)

-- What a choice of nodes among candidates is, for a number of copies.
pub record IsChoice (total : ℕ) (nodes chosen : List DataNode) : Type 0 where
  pub bounded : length chosen ≤ total
  pub distinct : (id : List ℕ) → copies id chosen ≤ 1
  pub candidate : (id : List ℕ) → 1 ≤ copies id chosen → 1 ≤ copies id nodes
  pub complete :
      (length chosen ≡ total) ⊎ ((id : List ℕ) → 1 ≤ copies id nodes → 1 ≤ copies id chosen)

one_or_more : (n : ℕ) → leb 1 n ≡ true → 1 ≤ n
one_or_more n h = ground arith

cut-IsChoice :
    (total : ℕ) (nodes : List DataNode) (s : Selection) (b : Bool)
    → leb (1 + total) (length s.selected) ≡ b
    → IsSound nodes s
    → Covers total nodes s
    → IsChoice total nodes (if b then take total s.selected else s.selected)
cut-IsChoice total nodes s true q h covered = record {
  bounded = let len = length-take total s.selected in omega (arith, len);
  distinct = λ id.
      let le = copies-take_le id total s.selected in let old = h.once id in omega (arith, le, old);
  candidate =
      λ id one. h.known id (let le = copies-take_le id total s.selected in omega (arith, le, one));
  complete = inl (let len = length-take total s.selected in ground (arith, len, q));
}
cut-IsChoice total nodes s false q h covered = record {
  bounded = ground (arith, q);
  distinct = h.once;
  candidate = h.known;
  complete = elim covered [
    | inl le ↦ inl (ground (arith, q, le))
    | inr all ↦ inr (λ id one. one_or_more (copies id s.selected) (sym (h.used id) ∙ all id one))
  ];
}

-- The nodes that are chosen for a placement are at most as many as the copies of the placement,
-- have distinct ids and have ids of candidates; and they are exactly as many, unless every
-- candidate's id is among them.
pub select_nodes_for_replica-IsChoice :
    (nodes : List DataNode) (rp : ReplicaPlacement)
    → IsChoice (total_copies rp) nodes (select_nodes_for_replica nodes rp)
unfolding select_nodes_for_replica copies
select_nodes_for_replica-IsChoice [] rp = record {
  bounded = omega arith;
  distinct = λ id. omega arith;
  candidate = λ id one. one;
  complete = inr (λ id one. one);
}
select_nodes_for_replica-IsChoice (primary ∷ nodes) rp =
    cut-IsChoice (total_copies rp) (primary ∷ nodes)
      (select_rest (total_copies rp) (primary ∷ nodes) (select_placed rp primary nodes)) _ refl
      (rest-IsSound (primary ∷ nodes) (total_copies rp) _ (placed-IsSound rp primary nodes))
      (rest-Covers (total_copies rp) (primary ∷ nodes) (select_placed rp primary nodes))
