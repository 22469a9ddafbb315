-- ===== src/Volume/Compact/Copy.antt =====
-- goblob/storage/volume/compact.go: a visit of Compact copies the entry that it visits, and drops
-- nothing else.
use go_blob.Base.{
  ℕ, ◌+◌, ◌*◌, ◌/◌, ◌%◌, ◌<◌, ◌≤◌, ◌≡◌, ◌∙◌, refl, sym, ap, subst, Bool, true, false, none, some,
  [], ◌∷◌, ◌++◌, arith, if◌then◌else◌, length, length-append, u32, u64, Bool-cases, inl, inr,
}
use go_blob.Types.{to_actual_offset, to_encoded}
use go_blob.Needle.{Needle}
use go_blob.Needle.Read.{is_expired}
use go_blob.Needle.Body.{IsWritable}
use go_blob.Needle.Image.{disk_size, image}
use go_blob.Needle.RoundTrip.{append, write_to-image, length-image}
use go_blob.NeedleMap.{NeedleValue, Entries, deleted, lookup, put, is_deleted, add64}
use go_blob.NeedleMap.Reads.{get-put}
use go_blob.NeedleMap.Durable.{put-IsDurable}
use go_blob.Volume.{Volume, ok, read_needle_from_file}
use go_blob.Volume.Reads.{aligned}
use go_blob.Volume.Steps.{Store, assign, Holds, Represents, written-Holds}
use go_blob.Volume.Refine.{Follows-Represents}
use go_blob.Volume.Reopen.{appended-IsOpenable, to_encoded_lt}
use go_blob.Volume.Compact.{Copying, unless_stopped, copy_needle, visit_live, visit, visit_all}
use go_blob.Volume.Compact.Kept.{IsKept, IsKeptStore}
use go_blob.Volume.Compact.Copied.{
  survivor, survivors, pending, weight, room, IsListed, volume_of, IsCopied, put-taken,
  aligned-even, unlisted, pending-cons, pending-skip, assign_fresh, recounted, recounted-cpd,
  recounted-IsCopied, IsCopied-congr, placed-dead, placed-live, dead-Holds, live-Holds,
  disk_size-even,
}

module _ (logged : ℕ → Bool) (now : ℕ → ℕ) (taken : (id : ℕ) → logged id ≡ true) where
  -- The write of a needle, where all writes are taken.
  abbrev copied : ℕ → ℕ → Needle → Copying → Copying
  copied version id n s = record s {
    cpd = s.cpd ++ image version n;
    cpx = (put (logged id) s.cpx id (to_encoded s.current_offset) (disk_size version n % u32)).0;
    current_offset = s.current_offset + disk_size version n;
    needles_written = add64 s.needles_written 1;
  }

  copy_needle-append :
      (version id : ℕ) (n : Needle) (s : Copying)
      → IsWritable n
      → disk_size version n < u32
      → copy_needle append logged now version id n s ≡ copied version id n s
  unfolding copy_needle
  copy_needle-append version id n s h small =
      rw
        (
          write_to-image version n s.cpd h small,
          copy_needle,
          put-taken (logged id) s.cpx id (to_encoded s.current_offset) (disk_size version n % u32)
              (taken id),
        )
        refl

  -- The temporary files after a record more hold its needle too.
  copied-IsCopied :
      (v : Volume) (p : Store) (id : ℕ) (n : Needle) (s : Copying)
      → IsKept v.super_block.version n
      → n.id ≡ id
      → id < u64
      → length s.cpd + 7 < 8 * u32
      → IsCopied v p s
      → IsCopied v (assign id (some n) p) (copied v.super_block.version id n s)
  copied-IsCopied v p id n s k same small below h =
      let version = v.super_block.version in
      let s' = copied version id n s in
      let size = disk_size version n in
      let long = length-append s.cpd (image version n) in
      let grown : (volume_of v s').dat ≡ aligned s.cpd ++ image version n =
        ap (λ d. d ++ image version n) (sym (aligned-even s.cpd h.even)) in
      let at : s.current_offset ≡ length (aligned s.cpd) =
        h.at_end ∙ ap length (sym (aligned-even s.cpd h.even)) in
      let index : s'.cpx
          ≡ (put (logged id) s.cpx n.id (to_encoded (length (aligned s.cpd))) (size % u32)).0 =
        ap (λ o. (put (logged id) s.cpx id (to_encoded o) (size % u32)).0) at
        ∙ ap (λ i. (put (logged id) s.cpx i (to_encoded (length (aligned s.cpd))) (size % u32)).0)
            (sym same) in
      record {
        running = h.running;
        at_end = omega (arith, h.at_end, long, length-image version n);
        even = omega (arith, h.even, long, length-image version n, disk_size-even version n);
        openable =
            appended-IsOpenable (volume_of v s) (volume_of v s') n h.openable
              (ap (λ d. record (volume_of v s') { dat = d }) grown)
              (rw (taken id) (
                put-IsDurable s.cpx id (to_encoded s.current_offset) (size % u32) small
                  (to_encoded_lt s.current_offset) (omega arith) h.openable.durable));
        represents =
            Follows-Represents (volume_of v s) (volume_of v s') p id (image version n) (some n)
              h.represents
              (record {
                longer = refl;
                same_block = refl;
                same_read_only = refl;
                same_frozen = refl;
                others =
                    (get-put (logged id) s.cpx id (to_encoded s.current_offset) (size % u32)).1;
              })
              (subst (λ i. Holds (volume_of v s') i (some n)) same
                (subst (λ x. Holds (volume_of v s') n.id (some x)) k.same
                  (written-Holds (logged id) (volume_of v s) (volume_of v s') n k.writable k.small
                    below grown refl index)));
      }

  visit_running :
      (v : Volume) (entry : ℕ × NeedleValue) (s : Copying)
      → s.state ≡ ok tt
      → visit append logged now v entry s ≡ visit_live append logged now v entry s
  unfolding visit
  visit_running v entry s running =
      ap (λ st. unless_stopped st s (visit_live append logged now v entry s)) running

  visit_dead :
      (v : Volume) (k : ℕ) (nv : NeedleValue) (s : Copying)
      → s.state ≡ ok tt
      → is_deleted nv ≡ true
      → visit append logged now v (k, nv) s
        ≡ recounted (add64 s.needles_read 1) (add64 s.needles_deleted 1) s.needles_expired s
  unfolding visit_live recounted
  visit_dead v k nv s running dead = visit_running v (k, nv) s running ∙ rw dead refl

  abbrev visited : Volume → ℕ → Needle → Copying → Copying
  visited v k n s =
      if is_expired (now k) n (n.append_at_ns / 1000000000)
      then recounted (add64 s.needles_read 1) s.needles_deleted (add64 s.needles_expired 1) s
      else copy_needle append logged now v.super_block.version k n
          (recounted (add64 s.needles_read 1) s.needles_deleted s.needles_expired s)

  visit_read :
      (v : Volume) (k : ℕ) (nv : NeedleValue) (n : Needle) (s : Copying)
      → s.state ≡ ok tt
      → is_deleted nv ≡ false
      → read_needle_from_file v.dat (to_actual_offset nv.offset) nv.size v.super_block.version
        ≡ ok n
      → visit append logged now v (k, nv) s ≡ visited v k n s
  unfolding visit_live recounted
  visit_read v k nv n s running live read = visit_running v (k, nv) s running ∙ rw (live, read) refl

  -- What one visit leaves, and by how much the file has grown.
  pub record Visited (v : Volume) (p : Store) (s s' : Copying) (bytes : ℕ) : Type 0 where
    pub copied : IsCopied v p s'
    pub bounded : length s'.cpd ≤ length s.cpd + bytes

  visited-Visited :
      (v : Volume) (p : Store) (k : ℕ) (n : Needle) (s : Copying)
      → IsKept v.super_block.version n
      → n.id ≡ k
      → k < u64
      → length s.cpd + 7 < 8 * u32
      → p k ≡ none
      → IsCopied v p s
      → Visited v
          (assign k (survivor (now k) (some n)) p)
          s
          (visited v k n s)
          (disk_size v.super_block.version n)
  unfolding recounted
  visited-Visited v p k n s kept_n same small below fresh h =
      elim (Bool-cases (is_expired (now k) n (n.append_at_ns / 1000000000))) [
        | inl old ↦ rw old (record {
          copied =
              recounted-IsCopied v (assign k none p) (add64 s.needles_read 1) s.needles_deleted
                (add64 s.needles_expired 1) s
                (IsCopied-congr v p (assign k none p) s (assign_fresh p k fresh) h);
          bounded = omega arith;
        })
        | inr young ↦
            let seen = recounted (add64 s.needles_read 1) s.needles_deleted s.needles_expired s in
            let e =
              copy_needle-append v.super_block.version k n seen kept_n.writable kept_n.small in
            let after = copied-IsCopied v p k n seen kept_n same small below (
              recounted-IsCopied v p (add64 s.needles_read 1) s.needles_deleted s.needles_expired s
                h) in
            rw young (
              subst (λ t. Visited v (assign k (some n) p) s t (disk_size v.super_block.version n))
                (sym e)
                (record {
                  copied = after;
                  bounded = omega (
                    arith,
                    length-append s.cpd (image v.super_block.version n),
                    length-image v.super_block.version n,
                  );
                }))
      ]

  module _ (v : Volume) (m : Store) (h : Represents v m)
      (all : IsKeptStore v.super_block.version m) where
    -- A visit, for an id that is listed once.
    visit-Visited :
        (k : ℕ) (nv : NeedleValue) (todo : Entries) (s : Copying)
        → lookup k v.nm.entries ≡ some nv
        → lookup k todo ≡ none
        → k < u64
        → length s.cpd + 7 < 8 * u32
        → IsCopied v (pending now m ((k, nv) ∷ todo)) s
        → Visited v
            (pending now m todo)
            s
            (visit append logged now v (k, nv) s)
            (weight v.super_block.version (m k))
    visit-Visited k nv todo s found fresh small below c = elim (Bool-cases (is_deleted nv)) [
      | inl dead ↦
          let gone = dead-Holds v k (m k) deleted (h.holds k) (placed-dead v.nm k nv found dead) in
          let next =
            recounted (add64 s.needles_read 1) (add64 s.needles_deleted 1) s.needles_expired s in
          subst (λ t. Visited v (pending now m todo) s t (weight v.super_block.version (m k)))
            (sym (visit_dead v k nv s c.running dead))
            (record {
              copied =
                  recounted-IsCopied v (pending now m todo) (add64 s.needles_read 1)
                    (add64 s.needles_deleted 1) s.needles_expired s
                    (IsCopied-congr v (pending now m ((k, nv) ∷ todo)) (pending now m todo) s
                      (pending-skip now m k nv todo fresh (ap (survivor (now k)) gone)) c);
              bounded = omega (
                arith,
                ap length (
                    recounted-cpd (add64 s.needles_read 1) (add64 s.needles_deleted 1)
                      s.needles_expired s),
              );
            })
      | inr live ↦
          let (n, here, read) =
            live-Holds v k (m k) nv (h.holds k) (placed-live v.nm k nv found live) in
          let kept_n = all k n here in
          let next =
            visited-Visited v (pending now m ((k, nv) ∷ todo)) k n s kept_n.0 kept_n.1 small below
              (ap (λ f. f (survivors now m k)) (unlisted k nv todo)) c in
          subst (λ t. Visited v (pending now m todo) s t (weight v.super_block.version (m k)))
            (sym (visit_read v k nv n s c.running live read))
            (record {
              copied =
                  IsCopied-congr v
                    (assign k (survivor (now k) (some n)) (pending now m ((k, nv) ∷ todo)))
                    (pending now m todo) (visited v k n s)
                    (pending-cons now m k nv todo (survivor (now k) (some n)) fresh
                      (ap (survivor (now k)) here))
                    next.copied;
              bounded = omega (arith, next.bounded, ap (weight v.super_block.version) here);
            })
    ]

    -- All visits.
    pub visit_all-Visited :
        (todo : Entries) (s : Copying)
        → IsListed v.nm.entries todo
        → length s.cpd + room v.super_block.version m todo + 7 < 8 * u32
        → IsCopied v (pending now m todo) s
        → Visited v
            (survivors now m)
            s
            (visit_all append logged now v todo s)
            (room v.super_block.version m todo)
    unfolding visit_all lookup
    visit_all-Visited [] s l below c = record { copied = c; bounded = omega arith }
    visit_all-Visited ((k, nv) ∷ todo) s (found, fresh, small, rest) below c =
        let next = visit-Visited k nv todo s found fresh small (omega arith) c in
        let after =
          visit_all-Visited todo (visit append logged now v (k, nv) s) rest
            (omega (arith, next.bounded)) next.copied in
        record { copied = after.copied; bounded = omega (arith, next.bounded, after.bounded) }
