-- ===== src/Layout/Moved.antt =====
-- goblob/topology/volume_layout.go: a volume moved out of one map over its entry in another.
use go_blob.Base.{ℕ, ◌+◌, ◌≤◌, ◌≡◌, refl, sym, ap, subst, Option, none, some, List, [], arith}
use go_blob.Layout.{
  VolumeLocation, VolumeLayout, map_get, locations_or_none, writable_found, read_only_found,
}
use go_blob.Layout.Map.{at-set, at-set_other, at-delete, at-delete_other}
use go_blob.Layout.Hosts.{hosts, replicas, at_volume, replicas-at, replicas_elsewhere, le_one, turn}

moved_first :
    (id : List ℕ) (w r c : List VolumeLocation)
    → hosts id w + hosts id r + hosts id c ≤ 1
    → hosts id r + hosts id [] + hosts id c ≤ 1
unfolding hosts
moved_first id w r c le = omega arith

moved_last :
    (id : List ℕ) (w r c : List VolumeLocation)
    → hosts id w + hosts id r + hosts id c ≤ 1
    → hosts id c + hosts id r + hosts id [] ≤ 1
unfolding hosts
moved_last id w r c le = omega arith

-- A volume moved out of one map over the entry of another.
pub moved_writable :
    (id : List ℕ) (v : ℕ) (r c : Option (List VolumeLocation)) (vl : VolumeLayout) (vid : ℕ)
    → r ≡ map_get vl.readonly_volumes v
    → c ≡ map_get vl.crowded_volumes v
    → replicas vid id vl ≤ 1
    → replicas vid id (writable_found v r c vl) ≤ 1
moved_writable id v none none vl vid at_r at_c = λ le. le
moved_writable id v (some locs) c vl vid at_r at_c =
    at_volume v vid
      (λ k. replicas k id vl ≤ 1 → replicas k id (writable_found v (some locs) c vl) ≤ 1)
      (λ le.
        le_one _ _
          (replicas-at v id (writable_found v (some locs) c vl) locs [] _
            (at-set vl.writable_volumes v locs) (at-delete vl.readonly_volumes v) refl)
          (moved_first id _ locs _ (
            subst (λ k. k ≤ 1)
              (replicas-at v id vl _ _ _ refl (sym (ap locations_or_none at_r)) refl) le)))
      (λ other le.
        le_one _ _
          (replicas_elsewhere vid id (writable_found v (some locs) c vl) vl
            (at-set_other vl.writable_volumes v vid locs other)
            (at-delete_other vl.readonly_volumes v vid other) refl)
          le)
moved_writable id v none (some locs) vl vid at_r at_c =
    at_volume v vid
      (λ k. replicas k id vl ≤ 1 → replicas k id (writable_found v none (some locs) vl) ≤ 1)
      (λ le.
        le_one _ _
          (replicas-at v id (writable_found v none (some locs) vl) locs _ []
            (at-set vl.writable_volumes v locs) refl (at-delete vl.crowded_volumes v))
          (moved_last id _ _ locs (
            subst (λ k. k ≤ 1)
              (replicas-at v id vl _ _ _ refl refl (sym (ap locations_or_none at_c))) le)))
      (λ other le.
        le_one _ _
          (replicas_elsewhere vid id (writable_found v none (some locs) vl) vl
            (at-set_other vl.writable_volumes v vid locs other) refl
            (at-delete_other vl.crowded_volumes v vid other))
          le)

pub moved_read_only :
    (id : List ℕ) (v : ℕ) (w c : Option (List VolumeLocation)) (vl : VolumeLayout) (vid : ℕ)
    → w ≡ map_get vl.writable_volumes v
    → c ≡ map_get vl.crowded_volumes v
    → replicas vid id vl ≤ 1
    → replicas vid id (read_only_found v w c vl) ≤ 1
moved_read_only id v none none vl vid at_w at_c = λ le. le
moved_read_only id v (some locs) c vl vid at_w at_c =
    at_volume v vid
      (λ k. replicas k id vl ≤ 1 → replicas k id (read_only_found v (some locs) c vl) ≤ 1)
      (λ le.
        le_one _ _
          (replicas-at v id (read_only_found v (some locs) c vl) [] locs _
            (at-delete vl.writable_volumes v) (at-set vl.readonly_volumes v locs) refl)
          (turn _ _ _ (
            moved_first id _ locs _ (
              turn _ _ _ (
                subst (λ k. k ≤ 1)
                  (replicas-at v id vl _ _ _ (sym (ap locations_or_none at_w)) refl refl) le)))))
      (λ other le.
        le_one _ _
          (replicas_elsewhere vid id (read_only_found v (some locs) c vl) vl
            (at-delete_other vl.writable_volumes v vid other)
            (at-set_other vl.readonly_volumes v vid locs other) refl)
          le)
moved_read_only id v none (some locs) vl vid at_w at_c =
    at_volume v vid
      (λ k. replicas k id vl ≤ 1 → replicas k id (read_only_found v none (some locs) vl) ≤ 1)
      (λ le.
        le_one _ _
          (replicas-at v id (read_only_found v none (some locs) vl) _ locs [] refl
            (at-set vl.readonly_volumes v locs) (at-delete vl.crowded_volumes v))
          (turn _ _ _ (
            moved_last id _ _ locs (
              turn _ _ _ (
                subst (λ k. k ≤ 1)
                  (replicas-at v id vl _ _ _ refl refl (sym (ap locations_or_none at_c))) le)))))
      (λ other le.
        le_one _ _
          (replicas_elsewhere vid id (read_only_found v none (some locs) vl) vl refl
            (at-set_other vl.readonly_volumes v vid locs other)
            (at-delete_other vl.crowded_volumes v vid other))
          le)
