-- ===== src/Layout/Hosts.antt =====
-- goblob/topology/volume_layout.go: how often a node stands among the locations of a volume.
use go_blob.Base.{
  ℕ, ◌+◌, ◌≤◌, ◌≡◌, ◌≢◌, ◌∙◌, refl, ap, subst, Bool, true, false, Option, none, some, List, [], ◌∷◌,
  arith, if◌then◌else◌, ◌==◌, Bool-cases, inl, inr, suc,
}
use go_blob.Bytes.{bytes_equal}
use go_blob.Bytes.Laws.{bytes_equal_iff}
use go_blob.Layout.{
  DataNode, VolumeLocation, VolumeLayout, id_of_node, is_node, same_data_node, upsert_in,
  filter_out,
}
use go_blob.Layout.Map.{locations_at}

-- How many of the locations are on the node with an id.
unfoldable pub hosts : List ℕ → List VolumeLocation → ℕ
hosts id [] = 0
hosts id (loc ∷ locs) =
    let rest = hosts id locs in if is_node id loc.data_node then suc rest else rest

unfoldable pub replicas : ℕ → List ℕ → VolumeLayout → ℕ
unfolding hosts
replicas vid id vl =
    hosts id (locations_at vl.writable_volumes vid)
    + hosts id (locations_at vl.readonly_volumes vid)
    + hosts id (locations_at vl.crowded_volumes vid)

pub hosts-filter_le :
    (id : List ℕ) (drops : VolumeLocation → Bool) (xs : List VolumeLocation)
    → hosts id (filter_out drops xs) ≤ hosts id xs
unfolding hosts filter_out
hosts-filter_le id drops [] = omega arith
hosts-filter_le id drops (x ∷ xs) = ground (arith, hosts-filter_le id drops xs)

pub hosts-filter_none :
    (id : List ℕ) (drops : VolumeLocation → Bool) (xs : List VolumeLocation)
    → ((loc : VolumeLocation) → is_node id loc.data_node ≡ true → drops loc ≡ true)
    → hosts id (filter_out drops xs) ≡ 0
unfolding hosts filter_out
hosts-filter_none id drops [] h = refl
hosts-filter_none id drops (x ∷ xs) h =
    let here = h x in ground (arith, here, hosts-filter_none id drops xs h)

pub hosts-filter_all :
    (id : List ℕ) (drops : VolumeLocation → Bool) (xs : List VolumeLocation)
    → ((loc : VolumeLocation) → is_node id loc.data_node ≡ true → drops loc ≡ false)
    → hosts id (filter_out drops xs) ≡ hosts id xs
unfolding hosts filter_out
hosts-filter_all id drops [] h = refl
hosts-filter_all id drops (x ∷ xs) h =
    let here = h x in ground (arith, here, hosts-filter_all id drops xs h)

pub same-is_node :
    (held node : Option DataNode) (id : List ℕ)
    → bytes_equal id [] ≡ false
    → same_data_node held id node ≡ is_node id held
unfolding same_data_node
same-is_node none none id h = refl
same-is_node none (some other) id h = refl
same-is_node (some held) target id h = rw (h)

pub is_node-id :
    (node : Option DataNode) (id : List ℕ) → is_node id node ≡ true → id_of_node node ≡ id
is_node-id none id h = ground (arith, h)
is_node-id (some node) id h = (bytes_equal_iff node.id id).0 h

-- The location of a node replaces the one that the node has.
pub hosts-upsert_self :
    (id : List ℕ) (loc : VolumeLocation) (xs : List VolumeLocation)
    → bytes_equal id [] ≡ false
    → id_of_node loc.data_node ≡ id
    → is_node id loc.data_node ≡ true
    → hosts id xs ≤ 1
    → hosts id (upsert_in xs loc) ≤ 1
unfolding hosts upsert_in
hosts-upsert_self id loc [] ne is on le = ground arith
hosts-upsert_self id loc (x ∷ xs) ne is on le =
    let same =
      ap (λ k. same_data_node x.data_node k loc.data_node) is
      ∙ same-is_node x.data_node loc.data_node id ne in
    ground (arith, same, hosts-upsert_self id loc xs ne is on)

pub hosts-upsert_other :
    (id : List ℕ) (loc : VolumeLocation) (xs : List VolumeLocation)
    → is_node id loc.data_node ≡ false
    → hosts id (upsert_in xs loc) ≤ hosts id xs
unfolding hosts upsert_in
hosts-upsert_other id loc [] off = ground arith
hosts-upsert_other id loc (x ∷ xs) off = ground (arith, hosts-upsert_other id loc xs off)

-- What AddVolumeLayout does to the locations of the volume: one list takes the location, two lose
-- the node.
pub placed :
    (id : List ℕ) (loc : VolumeLocation) (kept gone also_gone : List VolumeLocation)
    → bytes_equal id [] ≡ false
    → hosts id kept + hosts id gone + hosts id also_gone ≤ 1
    → hosts id (upsert_in kept loc)
        + hosts id (
            filter_out
              (λ e. same_data_node e.data_node (id_of_node loc.data_node) loc.data_node)
              gone)
        + hosts id (
            filter_out
              (λ e. same_data_node e.data_node (id_of_node loc.data_node) loc.data_node)
              also_gone)
      ≤ 1
placed id loc kept gone also_gone ne le = elim (Bool-cases (is_node id loc.data_node)) [
  | inl on ↦
      let is = is_node-id loc.data_node id on in
      let dropped : (e : VolumeLocation)
          → is_node id e.data_node ≡ true
          → same_data_node e.data_node (id_of_node loc.data_node) loc.data_node ≡ true =
        λ e h.
          ap (λ k. same_data_node e.data_node k loc.data_node) is
          ∙ same-is_node e.data_node loc.data_node id ne
          ∙ h in
      let one = hosts-upsert_self id loc kept ne is on in
      let none_here = hosts-filter_none id _ gone dropped in
      let none_there = hosts-filter_none id _ also_gone dropped in
      ground (arith, one, none_here, none_there)
  | inr off ↦
      let a = hosts-upsert_other id loc kept off in
      let b =
        hosts-filter_le id
          (λ e. same_data_node e.data_node (id_of_node loc.data_node) loc.data_node) gone in
      let c =
        hosts-filter_le id
          (λ e. same_data_node e.data_node (id_of_node loc.data_node) loc.data_node) also_gone in
      omega (arith, a, b, c)
]

pub at_volume : (v vid : ℕ) (P : ℕ → Type 0) → P v → (v ≢ vid → P vid) → P vid
at_volume v vid P here elsewhere = elim (Bool-cases (v == vid)) [
  | inl same ↦ subst P (ground arith) here
  | inr other ↦ elsewhere (λ q. ground arith)
]

-- A layout whose three lists for the volume are the ones given.
pub replicas-at :
    (vid : ℕ) (id : List ℕ) (vl : VolumeLayout) (w r c : List VolumeLocation)
    → locations_at vl.writable_volumes vid ≡ w
    → locations_at vl.readonly_volumes vid ≡ r
    → locations_at vl.crowded_volumes vid ≡ c
    → replicas vid id vl ≡ hosts id w + hosts id r + hosts id c
unfolding replicas
replicas-at vid id vl w r c at_w at_r at_c = rw (at_w, at_r, at_c)

-- The three maps of a layout that has lost a volume, or the locations of a node, or has got a
-- location.
pub replicas_elsewhere :
    (vid : ℕ) (id : List ℕ) (after before : VolumeLayout)
    → locations_at after.writable_volumes vid ≡ locations_at before.writable_volumes vid
    → locations_at after.readonly_volumes vid ≡ locations_at before.readonly_volumes vid
    → locations_at after.crowded_volumes vid ≡ locations_at before.crowded_volumes vid
    → replicas vid id after ≡ replicas vid id before
unfolding replicas
replicas_elsewhere vid id after before w r c = replicas-at vid id after _ _ _ w r c

pub le_one : (a b : ℕ) → a ≡ b → b ≤ 1 → a ≤ 1
le_one a b same le = omega arith

pub turn : (a b c : ℕ) → b + a + c ≤ 1 → a + b + c ≤ 1
turn a b c le = omega arith
