-- ===== src/Strconv.antt =====
-- What goblob/core/types uses of Go's strconv, fmt and strings: unsigned numbers as text, over
-- strings as lists of bytes. An error of ParseUint, of syntax or of range, is `none`.
pub mod Laws
use go_blob.Base.{
  ℕ, zero, suc, ◌+◌, ◌-◌, ◌*◌, ◌/◌, ◌%◌, Bool, ◌&&◌, Option, none, some, List, [], ◌∷◌, ◌++◌, ltb,
  leb, ◌==◌, if◌then◌else◌,
}

-- A digit of `%d` and `%x`.
unfoldable pub digit_char : ℕ → ℕ
digit_char d = if ltb d 10 then d + b'0' else d + 87

-- The value of a digit in ParseUint, letters of both cases included.
unfoldable pub digit_value : ℕ → Option ℕ
digit_value c =
    if leb b'0' c && leb c b'9'
    then some (c - b'0')
    else if leb b'a' c && leb c b'z'
    then some (c - 87)
    else if leb b'A' c && leb c b'Z'
    then some (c - 55)
    else none

-- `%d` of a number with at most `suc fuel` digits.
unfoldable pub format_dec : ℕ → ℕ → List ℕ
format_dec zero n = digit_char n ∷ []
format_dec (suc fuel) n =
    let front = format_dec fuel (n / 10) in
    if ltb n 10 then digit_char n ∷ [] else front ++ digit_char (n % 10) ∷ []

-- `%0kx` of a number with at most `k` hexadecimal digits.
unfoldable pub format_hex : ℕ → ℕ → List ℕ
format_hex zero n = []
format_hex (suc k) n = format_hex k (n / 16) ++ digit_char (n % 16) ∷ []

unfoldable pub parse_loop : ℕ → ℕ → ℕ → List ℕ → Option ℕ
parse_loop base max_val acc [] = some acc
parse_loop base max_val acc (c ∷ cs) = elim (digit_value c) [
  | none ↦ none
  | some d ↦
      if leb base d
      then none
      else if ltb max_val (acc * base + d)
      then none
      else parse_loop base max_val (acc * base + d) cs
]

-- ParseUint(s, base, bits) with `max_val` = 2 ^ bits - 1.
unfoldable pub parse_uint : ℕ → ℕ → List ℕ → Option ℕ
unfolding parse_loop digit_value
parse_uint base max_val [] = none
parse_uint base max_val (c ∷ cs) = parse_loop base max_val 0 (c ∷ cs)

-- strings.Index for one byte: what stands before its first occurrence, and what stands behind it.
unfoldable pub cut : ℕ → List ℕ → Option (List ℕ × List ℕ)
cut b [] = none
cut b (c ∷ cs) =
    if c == b
    then some ([], cs)
    else elim (cut b cs) [ none ↦ none | some (front, rest) ↦ some (c ∷ front, rest) ]
