-- ===== src/Bytes/Laws.antt =====
-- What is written in big-endian order is read back, up to the width.
use go_blob.Base.{
  ℕ, zero, suc, ◌+◌, ◌*◌, ◌/◌, ◌%◌, ◌^◌, ◌<◌, ◌≡◌, refl, List, [], ◌∷◌, ◌++◌, arith, length,
  length-append, All, All-append, true, false, ◌↔◌, ◌≢◌, Bool-cases, inl, inr,
}
use go_blob.Bytes.{IsByte, put_be, get_be, get_be_from, bytes_equal}
use native.Mathlib.Nat.{pow-suc}

pub length-put_be : (k v : ℕ) → length (put_be k v) ≡ k
unfolding put_be
length-put_be zero v = refl
length-put_be (suc k) v =
    omega (arith, length-append (put_be k (v / 256)) (v % 256 ∷ []), length-put_be k (v / 256))

pub put_be-IsByte : (k v : ℕ) → All IsByte (put_be k v)
unfolding put_be
put_be-IsByte zero v = tt
put_be-IsByte (suc k) v =
    All-append IsByte (put_be k (v / 256)) (v % 256 ∷ []) (put_be-IsByte k (v / 256))
      (omega arith, tt)

get_be_from-append :
    (acc : ℕ) (xs ys : List ℕ) → get_be_from acc (xs ++ ys) ≡ get_be_from (get_be_from acc xs) ys
unfolding get_be_from
get_be_from-append acc [] ys = refl
get_be_from-append acc (x ∷ xs) ys = get_be_from-append (acc * 256 + x) xs ys

get_be_snoc : (xs : List ℕ) (b : ℕ) → get_be (xs ++ b ∷ []) ≡ get_be xs * 256 + b
unfolding get_be
get_be_snoc xs b = get_be_from-append 0 xs (b ∷ [])

div_lt : (v p : ℕ) → v < p * 256 → v / 256 < p
div_lt v p h = omega arith

pub get_be-put_be : (k v : ℕ) → v < 256 ^ k → get_be (put_be k v) ≡ v
unfolding put_be
get_be-put_be zero v h = unfold get_be in omega arith
get_be-put_be (suc k) v h =
    let small : v / 256 < 256 ^ k = div_lt v (256 ^ k) (omega (arith, pow-suc 256 k)) in
    omega (arith, get_be_snoc (put_be k (v / 256)) (v % 256), get_be-put_be k (v / 256) small)

get_be_bound_from :
    (xs : List ℕ) (acc p : ℕ) → acc < p → All IsByte xs → get_be_from acc xs < p * 256 ^ length xs
unfolding get_be_from
get_be_bound_from [] acc p h b = omega arith
get_be_bound_from (x ∷ xs) acc p h (hx, hxs) =
    rw (pow-suc 256 (length xs))
      (omega (arith, get_be_bound_from xs (acc * 256 + x) (p * 256) (omega arith) hxs))

-- A read of `k` bytes is below 256 ^ k.
pub get_be_bound : (xs : List ℕ) → All IsByte xs → get_be xs < 256 ^ length xs
unfolding get_be
get_be_bound xs h = omega (arith, get_be_bound_from xs 0 1 (omega arith) h)

pub bytes_equal_iff : (xs ys : List ℕ) → (bytes_equal xs ys ≡ true) ↔ (xs ≡ ys)
unfolding bytes_equal
bytes_equal_iff [] [] = ground arith
bytes_equal_iff [] (y ∷ ys) = ground arith
bytes_equal_iff (x ∷ xs) [] = ground arith
bytes_equal_iff (x ∷ xs) (y ∷ ys) = ground (arith, bytes_equal_iff xs ys)

-- To split on a comparison and keep what it says.
pub bytes_equal_self : (xs : List ℕ) → bytes_equal xs xs ≡ true
bytes_equal_self xs = (bytes_equal_iff xs xs).1 refl

pub bytes_equal_ne : (xs ys : List ℕ) → xs ≢ ys → bytes_equal xs ys ≡ false
bytes_equal_ne xs ys h = elim (Bool-cases (bytes_equal xs ys)) [
  | inl same ↦ absurd (h ((bytes_equal_iff xs ys).0 same))
  | inr differ ↦ differ
]
