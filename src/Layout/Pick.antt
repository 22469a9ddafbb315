-- ===== src/Layout/Pick.antt =====
-- goblob/topology/volume_layout.go: what PickForWrite picks.
use go_blob.Base.{
  ==_iff, ℕ, ◌≡◌, ◌≢◌, refl, subst, Bool, true, false, ◌&&◌, Option, none, some, List, [], ◌∷◌,
  arith, if◌then◌else◌, ◌==◌, inl, inr, ◌⊎◌,
}
use go_blob.Layout.{
  DataNode, VolumeLocation, VolumeMap, VolumeGrowOption, is_fresh, is_matched, pick_in, picked,
  map_get, pick_for_write, LayoutCall, new_volume_layout, layout_run,
}
use go_blob.Layout.Numbered.{run-IsNumbered, new-IsNumbered}

-- A volume that a write with the option may use.
abbrev pub is_eligible : (DataNode → Bool) → Option VolumeGrowOption → List VolumeLocation → Bool
is_eligible is_alive opt locs = is_fresh is_alive locs && is_matched opt locs

-- A volume stands in a map with its locations.
abbrev pub Holds : VolumeMap → ℕ → List VolumeLocation → Type 0
Holds [] vid locs = ⊥
Holds ((v, here) ∷ m) vid locs = ((v ≡ vid) × (here ≡ locs)) ⊎ Holds m vid locs

-- No volume of a map may be used.
abbrev pub NoneEligible : (DataNode → Bool) → Option VolumeGrowOption → VolumeMap → Type 0
NoneEligible is_alive opt m =
    (vid : ℕ) (locs : List VolumeLocation)
    → Holds m vid locs
    → is_eligible is_alive opt locs ≡ false

abbrev pub PickIsRight :
    (DataNode → Bool)
    → Option VolumeGrowOption
    → VolumeMap
    → Option (ℕ × List VolumeLocation)
    → Type 0
PickIsRight is_alive opt m none = NoneEligible is_alive opt m
PickIsRight is_alive opt m (some (vid, locs)) =
    Holds m vid locs × (is_eligible is_alive opt locs ≡ true)

pick_step :
    (is_alive : DataNode → Bool) (opt : Option VolumeGrowOption) (m : VolumeMap) (v : ℕ)
    (locs : List VolumeLocation) (b : Bool) (rest : Option (ℕ × List VolumeLocation))
    → is_eligible is_alive opt locs ≡ b
    → PickIsRight is_alive opt m rest
    → PickIsRight is_alive opt ((v, locs) ∷ m) (if b then some (v, locs) else rest)
pick_step is_alive opt m v locs true rest eq right = (inl (refl, refl), eq)
pick_step is_alive opt m v locs false none eq right = λ vid l h. elim h [
  | inl (a, b) ↦ subst (λ x. is_eligible is_alive opt x ≡ false) b eq
  | inr later ↦ right vid l later
]
pick_step is_alive opt m v locs false (some (w, l)) eq (held, good) = (inr held, good)

pick_in-right :
    (is_alive : DataNode → Bool) (opt : Option VolumeGrowOption) (m : VolumeMap)
    → PickIsRight is_alive opt m (pick_in is_alive opt m)
unfolding pick_in
pick_in-right is_alive opt [] = λ vid locs h. absurd h
pick_in-right is_alive opt ((v, locs) ∷ m) =
    pick_step is_alive opt m v locs _ _ refl (pick_in-right is_alive opt m)

zero_not_held :
    (m : VolumeMap) (locs : List VolumeLocation) → map_get m 0 ≡ none → Holds m 0 locs → ⊥
unfolding map_get
zero_not_held [] locs h held = absurd held
zero_not_held ((v, here) ∷ m) locs h (inl (a, b)) = ground arith
zero_not_held ((v, here) ∷ m) locs h (inr later) = zero_not_held m locs (ground arith) later

unless-right :
    (is_alive : DataNode → Bool) (opt : Option VolumeGrowOption) (m : VolumeMap) (b : Bool)
    (found : Option (ℕ × List VolumeLocation))
    → b ≢ true
    → PickIsRight is_alive opt m found
    → PickIsRight is_alive opt m (if b then none else found)
unless-right is_alive opt m true found ne right = absurd (ne refl)
unless-right is_alive opt m false found ne right = right

picked-right :
    (is_alive : DataNode → Bool) (opt : Option VolumeGrowOption) (m : VolumeMap)
    (found : Option (ℕ × List VolumeLocation))
    → map_get m 0 ≡ none
    → PickIsRight is_alive opt m found
    → PickIsRight is_alive opt m (picked found)
picked-right is_alive opt m none h right = right
picked-right is_alive opt m (some (v, locs)) h (held, good) =
    unless-right is_alive opt m (v == 0) (some (v, locs))
      (λ q. zero_not_held m locs h (subst (λ k. Holds m k locs) ((==_iff v 0).0 q) held))
      (held, good)

-- After any calls on a new layout, PickForWrite answers a writable volume with its locations that
-- is eligible: the first location is on no node or on a live one, and under an option with a data
-- center some location is in that data center and, if the option has a rack, in that rack. It fails
-- only if no writable volume is eligible.
pub pick_for_write-right :
    (is_alive : DataNode → Bool) (opt : Option VolumeGrowOption) (cs : List LayoutCall)
    → PickIsRight is_alive opt
        (layout_run cs new_volume_layout).writable_volumes
        (pick_for_write is_alive opt (layout_run cs new_volume_layout))
unfolding pick_for_write
pick_for_write-right is_alive opt cs =
    let vl = layout_run cs new_volume_layout in
    picked-right is_alive opt vl.writable_volumes _
      ((run-IsNumbered cs new_volume_layout new-IsNumbered).writable)
      (pick_in-right is_alive opt vl.writable_volumes)
