-- ===== src/Strconv/Laws.antt =====
-- What is printed is parsed back.
use go_blob.Base.{
  ℕ, zero, suc, ◌+◌, ◌*◌, ◌/◌, ◌%◌, ◌^◌, ◌≤◌, ◌<◌, ◌≡◌, refl, Option, none, some, List, [], ◌∷◌,
  ◌++◌, arith, ltb, ==_self, inl, inr, Bool-cases, Option-cases, length, length-append, All,
  All-append,
}
use go_blob.Strconv.{digit_char, digit_value, format_dec, format_hex, parse_loop, parse_uint, cut}
use native.Mathlib.Nat.{pow-suc}

digit_value-digit_char : (d : ℕ) → d < 16 → digit_value (digit_char d) ≡ some d
unfolding digit_value digit_char
digit_value-digit_char d h = ground arith

abbrev and_then : Option ℕ → (ℕ → Option ℕ) → Option ℕ
and_then none f = none
and_then (some a) f = f a

parse_loop-append :
    (base m acc : ℕ) (xs ys : List ℕ)
    → parse_loop base m acc (xs ++ ys)
      ≡ and_then (parse_loop base m acc xs) (λ a. parse_loop base m a ys)
unfolding parse_loop
parse_loop-append base m acc [] ys = refl
parse_loop-append base m acc (x ∷ xs) ys = elim (Option-cases (digit_value x)) [
  | inl e ↦ ground arith
  | inr (d, e) ↦ ground (arith, parse_loop-append base m (acc * base + d) xs ys)
]

-- One more digit at the end.
parse_loop_snoc :
    (base m n d k : ℕ) (xs : List ℕ)
    → d < 16
    → d < base
    → k ≡ n * base + d
    → k ≤ m
    → parse_loop base m 0 xs ≡ some n
    → parse_loop base m 0 (xs ++ digit_char d ∷ []) ≡ some k
unfolding parse_loop
parse_loop_snoc base m n d k xs h hb hk hm e =
    rw (parse_loop-append base m 0 xs (digit_char d ∷ []), e)
      (ground (arith, digit_value-digit_char d h))

split_lt : (n p : ℕ) → n < p * 10 → n / 10 < p
split_lt n p h = omega arith

parse_loop-format_dec :
    (fuel m n : ℕ) → n < 10 ^ suc fuel → n ≤ m → parse_loop 10 m 0 (format_dec fuel n) ≡ some n
unfolding format_dec
parse_loop-format_dec zero m n h le =
    parse_loop_snoc 10 m 0 n n [] (omega arith) (omega arith) (omega arith) le
      (unfold parse_loop in refl)
parse_loop-format_dec (suc fuel) m n h le = elim (Bool-cases (ltb n 10)) [
  | inl small ↦ rw small (
      parse_loop_snoc 10 m 0 n n [] (ground arith) (ground arith) (omega arith) le
        (unfold parse_loop in refl))
  | inr large ↦ rw large (
      parse_loop_snoc 10 m (n / 10) (n % 10) n (format_dec fuel (n / 10)) (omega arith)
        (omega arith) (omega arith) le
        (parse_loop-format_dec fuel m (n / 10)
          (split_lt n (10 ^ suc fuel) (omega (arith, pow-suc 10 (suc fuel)))) (omega arith)))
]

hex_lt : (n p : ℕ) → n < p * 16 → n / 16 < p
hex_lt n p h = omega arith

parse_loop-format_hex :
    (k m n : ℕ) → n < 16 ^ k → n ≤ m → parse_loop 16 m 0 (format_hex k n) ≡ some n
unfolding format_hex
parse_loop-format_hex zero m n h le =
    let e : n ≡ 0 = omega arith in rw e (unfold parse_loop in refl)
parse_loop-format_hex (suc k) m n h le =
    parse_loop_snoc 16 m (n / 16) (n % 16) n (format_hex k (n / 16)) (omega arith) (omega arith)
      (omega arith) le
      (parse_loop-format_hex k m (n / 16) (hex_lt n (16 ^ k) (omega (arith, pow-suc 16 k)))
        (omega arith))

pub length-format_hex : (k n : ℕ) → length (format_hex k n) ≡ k
unfolding format_hex
length-format_hex zero n = refl
length-format_hex (suc k) n = omega (
  arith,
  length-append (format_hex k (n / 16)) (digit_char (n % 16) ∷ []),
  length-format_hex k (n / 16),
)

pub length-format_dec-pos : (fuel n : ℕ) → 0 < length (format_dec fuel n)
unfolding format_dec
length-format_dec-pos zero n = omega arith
length-format_dec-pos (suc fuel) n = elim (Bool-cases (ltb n 10)) [
  | inl small ↦ rw small (omega arith)
  | inr large ↦
      rw large (omega (arith, length-append (format_dec fuel (n / 10)) (digit_char (n % 10) ∷ [])))
]

parse_uint-parse_loop :
    (base m : ℕ) (s : List ℕ) → 0 < length s → parse_uint base m s ≡ parse_loop base m 0 s
unfolding parse_uint
parse_uint-parse_loop base m [] h = absurd (omega arith)
parse_uint-parse_loop base m (c ∷ cs) h = refl

-- ParseUint in base 10 reads what `%d` printed.
pub parse_uint-format_dec :
    (fuel m n : ℕ) → n < 10 ^ suc fuel → n ≤ m → parse_uint 10 m (format_dec fuel n) ≡ some n
parse_uint-format_dec fuel m n h le =
    rw (parse_uint-parse_loop 10 m (format_dec fuel n) (length-format_dec-pos fuel n))
      (parse_loop-format_dec fuel m n h le)

-- ParseUint in base 16 reads what `%0kx` printed.
pub parse_uint-format_hex :
    (k m n : ℕ) → n < 16 ^ suc k → n ≤ m → parse_uint 16 m (format_hex (suc k) n) ≡ some n
parse_uint-format_hex k m n h le =
    rw
      (parse_uint-parse_loop 16 m (format_hex (suc k) n)
        (omega (arith, length-format_hex (suc k) n)))
      (parse_loop-format_hex (suc k) m n h le)

-- The printed decimal digits are digits.
abbrev pub IsDigit : ℕ → Type 0
IsDigit c = (b'0' ≤ c) × (c ≤ b'9')

digit_char-IsDigit : (d : ℕ) → d < 10 → IsDigit (digit_char d)
unfolding digit_char
digit_char-IsDigit d h = ground arith

pub format_dec-IsDigit : (fuel n : ℕ) → n < 10 ^ suc fuel → All IsDigit (format_dec fuel n)
unfolding format_dec
format_dec-IsDigit zero n h = (digit_char-IsDigit n (omega arith), tt)
format_dec-IsDigit (suc fuel) n h = elim (Bool-cases (ltb n 10)) [
  | inl small ↦ rw small (digit_char-IsDigit n (ground arith), tt)
  | inr large ↦ rw large (
      All-append IsDigit (format_dec fuel (n / 10)) (digit_char (n % 10) ∷ [])
        (format_dec-IsDigit fuel (n / 10)
          (split_lt n (10 ^ suc fuel) (omega (arith, pow-suc 10 (suc fuel)))))
        (digit_char-IsDigit (n % 10) (omega arith), tt))
]

cut_digits :
    (b : ℕ) (xs ys : List ℕ) → b < b'0' → All IsDigit xs → cut b (xs ++ b ∷ ys) ≡ some (xs, ys)
unfolding cut
cut_digits b [] ys h d = rw (==_self b)
cut_digits b (x ∷ xs) ys h d = ground (arith, cut_digits b xs ys h d.1)

-- A byte below the digits, put behind a printed number, is where the text is cut.
pub cut-format_dec :
    (b fuel n : ℕ) (ys : List ℕ)
    → b < b'0'
    → n < 10 ^ suc fuel
    → cut b (format_dec fuel n ++ b ∷ ys) ≡ some (format_dec fuel n, ys)
cut-format_dec b fuel n ys h hn =
    cut_digits b (format_dec fuel n) ys h (format_dec-IsDigit fuel n hn)
