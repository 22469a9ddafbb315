-- ===== src/Volume/Reads.antt =====
-- goblob/storage/volume/volume.go: reading records from a data file that has grown.
use go_blob.Base.{
  ℕ, ◌+◌, ◌%◌, ◌≤◌, ◌<◌, ◌≡◌, ◌∙◌, refl, sym, ap, true, List, [], ◌++◌, arith, ◌==◌, zero, length,
  take, drop, replicate, length-append, length-replicate, take-append_le, drop-append_le,
  drop-append_length, length-drop, le→not-ltb, lt→ltb, leb, leb→le, take_of_length-le, append-nil,
  u32, Bool-cases, inl, inr,
}
use go_blob.Types.{to_encoded}
use go_blob.Needle.{Needle, blank}
use go_blob.Needle.Read.{read_from}
use go_blob.Needle.Body.{stored, IsWritable}
use go_blob.Needle.Image.{disk_size, image}
use go_blob.Needle.RoundTrip.{append, length-image, read_from-image, write_to-image}
use go_blob.Volume.{
  Outcome, ok, err, pad_of, align_file, write_needle_unlocked, read_needle_from_file, recorded,
  short_file,
}

slice-append :
    (dat more : List ℕ) (offset size : ℕ)
    → offset + size ≤ length dat
    → take size (drop offset (dat ++ more)) ≡ take size (drop offset dat)
slice-append dat more offset size h =
    rw (drop-append_le offset dat more (omega arith))
      (take-append_le size (drop offset dat) more (omega (arith, length-drop offset dat)))

read_in_file :
    (dat : List ℕ) (offset size version : ℕ)
    → offset + size ≤ length dat
    → read_needle_from_file dat offset size version
      ≡ recorded (read_from blank (take size (drop offset dat)) version)
unfolding read_needle_from_file
read_in_file dat offset size version h = rw (le→not-ltb (length dat) (offset + size) h) refl

read_past_file :
    (dat : List ℕ) (offset size version : ℕ)
    → length dat < offset + size
    → read_needle_from_file dat offset size version ≡ err short_file
unfolding read_needle_from_file
read_past_file dat offset size version h = rw (lt→ltb (length dat) (offset + size) h) refl

short-ne-ok : {n : Needle} → ◌≡◌ {A = Outcome Needle} (err short_file) (ok n) → ⊥
short-ne-ok e = cc

-- A record that could be read is read in the same way after the file has grown.
pub read_needle_from_file-append :
    (dat more : List ℕ) (offset size version : ℕ) (n : Needle)
    → read_needle_from_file dat offset size version ≡ ok n
    → read_needle_from_file (dat ++ more) offset size version ≡ ok n
read_needle_from_file-append dat more offset size version n h =
    elim (Bool-cases (leb (offset + size) (length dat))) [
      | inl inside ↦
          let room = leb→le (offset + size) (length dat) inside in
          read_in_file (dat ++ more) offset size version
            (omega (arith, room, length-append dat more))
          ∙ ap (λ b. recorded (read_from blank b version)) (slice-append dat more offset size room)
          ∙ sym (read_in_file dat offset size version room)
          ∙ h
      | inr outside ↦
          let e = read_past_file dat offset size version (ground arith) in
          absurd (short-ne-ok (sym e ∙ h))
    ]

abbrev pub aligned : List ℕ → List ℕ
aligned dat = dat ++ replicate (pad_of (length dat)) 0

last_record :
    (dat : List ℕ) (version : ℕ) (n : Needle)
    → take (disk_size version n) (drop (length dat) (dat ++ image version n))
      ≡ image version n ++ []
last_record dat version n =
    rw (drop-append_length dat (image version n), append-nil)
      (take_of_length-le (disk_size version n) (image version n)
        (omega (arith, length-image version n)))

recorded-image :
    (version : ℕ) (n : Needle)
    → IsWritable n
    → disk_size version n < u32
    → recorded (read_from blank (image version n ++ []) version)
      ≡ ok (record (stored version n) { size = disk_size version n })
unfolding recorded
recorded-image version n h room = rw (read_from-image version n [] h (omega arith)) refl

-- The record that stands at the end of a file.
pub read_needle_from_file-image :
    (dat : List ℕ) (version : ℕ) (n : Needle)
    → IsWritable n
    → disk_size version n < u32
    → read_needle_from_file (dat ++ image version n) (length dat) (disk_size version n) version
      ≡ ok (record (stored version n) { size = disk_size version n })
read_needle_from_file-image dat version n h room =
    let long : length dat + disk_size version n ≤ length (dat ++ image version n) =
      omega (arith, length-append dat (image version n), length-image version n) in
    read_in_file (dat ++ image version n) (length dat) (disk_size version n) version long
    ∙ ap (λ b. recorded (read_from blank b version)) (last_record dat version n)
    ∙ recorded-image version n h room

length-aligned_sum : (dat : List ℕ) → length (aligned dat) ≡ length dat + pad_of (length dat)
length-aligned_sum dat =
    length-append dat (zeros dat)
    ∙ ap (λ k. length dat + k) (length-replicate (pad_of (length dat)) zero)
  where
    zeros : List ℕ → List ℕ
    zeros d = replicate (pad_of (length d)) 0

-- The next multiple of 8.
pub length-aligned :
    (dat : List ℕ)
    → (length (aligned dat) % 8 ≡ 0)
      × (length dat ≤ length (aligned dat))
      × (length (aligned dat) ≤ length dat + 7)
length-aligned dat = ground (arith, length-aligned_sum dat)

align_file-append : (dat : List ℕ) → align_file append dat ≡ (aligned dat, true)
unfolding align_file
align_file-append dat = elim (Bool-cases (length dat % 8 == 0)) [
  | inl even ↦ rw (even, append-nil) refl
  | inr odd ↦ rw odd refl
]

-- A record is appended at the next multiple of 8.
pub write_needle_unlocked-append :
    (version : ℕ) (n : Needle) (dat : List ℕ)
    → IsWritable n
    → disk_size version n < u32
    → write_needle_unlocked append version n dat ≡ (
      aligned dat ++ image version n,
      ok (record { offset = to_encoded (length (aligned dat)); size = disk_size version n }),
    )
unfolding write_needle_unlocked
write_needle_unlocked-append version n dat h room =
    rw (align_file-append dat, write_to-image version n (aligned dat) h room)
      (ap
        (λ k. (
          aligned dat ++ image version n,
          ok (record { offset = to_encoded k; size = disk_size version n }),
        ))
        (sym (length-aligned_sum dat)))
