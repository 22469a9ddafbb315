-- ===== src/LogBuffer/Ring.antt =====
-- goblob/log_buffer/log_buffer.go: the slots of the ring, taken from the oldest to the newest.
use go_blob.Base.{
  ℕ, zero, suc, ◌+◌, ◌-◌, ◌%◌, ◌≤◌, ◌<◌, ◌≡◌, ◌≢◌, ◌∙◌, refl, sym, ap, List, [], ◌++◌, arith,
  append_assoc, append-nil, inl, inr, Bool-cases, ltb,
}
use native.Mathlib.Nat.{mod-eq_of_lt, add-mod_right, mod-add-mod, mod-eq-sub-mod}

-- What `n` slots hold, from slot `start` on around a ring of `c` slots.
module _ {ℓ} {A : Type ℓ} (c : ℕ) where
  unfoldable pub gather : (ℕ → List A) → ℕ → ℕ → List A
  gather f start zero = []
  gather f start (suc n) = f (start % c) ++ gather f (start + 1) n

  -- A slot may be named by any form of its number.
  at : (f : ℕ → List A) {i j : ℕ} → i ≡ j → f (i % c) ≡ f (j % c)
  at f e = ap (λ i. f (i % c)) e

  pub gather-snoc :
      (f : ℕ → List A) (start n : ℕ)
      → gather f start (suc n) ≡ gather f start n ++ f ((start + n) % c)
  unfolding gather
  gather-snoc f start zero = append-nil (f (start % c)) ∙ at f (omega arith)
  gather-snoc f start (suc n) =
      let moved : start + 1 + n ≡ start + suc n = omega arith in
      ap (λ t. f (start % c) ++ t) (gather-snoc f (start + 1) n)
      ∙ sym (append_assoc (f (start % c)) (gather f (start + 1) n) (f ((start + 1 + n) % c)))
      ∙ ap (λ i. (f (start % c) ++ gather f (start + 1) n) ++ f (i % c)) moved

  -- The slots count, and only modulo the ring.
  pub gather-congr :
      (f g : ℕ → List A) (start other n : ℕ)
      → ((i : ℕ) → i < n → f ((start + i) % c) ≡ g ((other + i) % c))
      → gather f start n ≡ gather g other n
  unfolding gather
  gather-congr f g start other zero h = refl
  gather-congr f g start other (suc n) h =
      let now : f (start % c) ≡ g (other % c) =
        at f (omega arith) ∙ h 0 (omega arith) ∙ at g (omega arith) in
      let later : gather f (start + 1) n ≡ gather g (other + 1) n =
        gather-congr f g (start + 1) (other + 1) n
          (λ i below. at f (omega arith) ∙ h (i + 1) (omega arith) ∙ at g (omega arith)) in
      ap (λ t. t ++ gather f (start + 1) n) now ∙ ap (λ t. g (other % c) ++ t) later

-- The last of a round is the newest slot, and the others are not.
pub slot_newest : (k last : ℕ) → last < suc k → (last + 1 + k) % suc k ≡ last
slot_newest k last h =
    let whole : last + 1 + k ≡ last + suc k = omega arith in
    ap (λ n. n % suc k) whole ∙ add-mod_right last (suc k) ∙ mod-eq_of_lt h

pub slot_ne : (k last i : ℕ) → last < suc k → i < k → (last + 1 + i) % suc k ≢ last
slot_ne k last i h below e = elim (Bool-cases (ltb (last + 1 + i) (suc k))) [
  | inl inside ↦
      let same = mod-eq_of_lt {n = last + 1 + i} {m = suc k} (ground arith) in
      let short : last + 1 + i < suc k = ground arith in omega (arith, e, same)
  | inr beyond ↦
      let past : suc k ≤ last + 1 + i = ground arith in
      let less = mod-eq-sub-mod {n = last + 1 + i} {m = suc k} past in
      let same = mod-eq_of_lt {n = last + 1 + i - suc k} {m = suc k} (omega arith) in
      omega (arith, e, less, same)
]

-- The newest slot after a turn.
pub slot_turned : (c last i : ℕ) → ((last + 1) % c + 1 + i) % c ≡ (last + 1 + 1 + i) % c
slot_turned c last i =
    let left : (last + 1) % c + 1 + i ≡ (last + 1) % c + (1 + i) = omega arith in
    let right : last + 1 + (1 + i) ≡ last + 1 + 1 + i = omega arith in
    ap (λ n. n % c) left ∙ mod-add-mod (last + 1) c (1 + i) ∙ ap (λ n. n % c) right
