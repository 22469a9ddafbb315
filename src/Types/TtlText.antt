-- ===== src/Types/TtlText.antt =====
-- The text form of a TTL.
use go_blob.Base.{
  ℕ, suc, ◌-◌, ◌<◌, ◌≡◌, refl, true, false, [], ◌∷◌, ◌++◌, arith, length, length-append, get_or,
  List, take-append_length, le→not-ltb, ltb, Bool-cases, inl, inr, if◌then◌else◌, ◌==◌,
}
use go_blob.Strconv.{format_dec, parse_uint}
use go_blob.Strconv.Laws.{parse_uint-format_dec, length-format_dec-pos}
use go_blob.Types.{Ttl, ttl_ok, no_ttl, is_ttl_unit, parse_ttl, parse_ttl_unit, ttl_string}

get_or_last : (xs : List ℕ) (u : ℕ) → get_or (xs ++ u ∷ []) (length xs) 0 ≡ u
get_or_last [] u = refl
get_or_last (x ∷ xs) u = get_or_last xs u

parse_ttl_snoc :
    (xs : List ℕ) (u : ℕ)
    → 0 < length xs
    → parse_ttl (xs ++ u ∷ []) ≡ parse_ttl_unit u (parse_uint 10 255 xs)
unfolding parse_ttl
parse_ttl_snoc xs u h = simp (len, front, long, nonempty, take-append_length, get_or_last)
  where
    len : length (xs ++ u ∷ []) ≡ suc (length xs)
    len = omega (arith, length-append xs (u ∷ []))

    front : suc (length xs) - 1 ≡ length xs
    front = omega arith

    nonempty : (suc (length xs) == 0) ≡ false
    nonempty = ground arith

    long : ltb (suc (length xs)) 2 ≡ false
    long = le→not-ltb (suc (length xs)) 2 (omega arith)

-- ParseTTL returns every TTL with a count from 1 to 255 and one of the six units from the text that
-- String prints for it; a TTL with the count 0 is printed as the empty text, which parses to the
-- TTL of count 0 and the empty unit.
pub parse_ttl-ttl_string :
    (t : Ttl)
    → t.count < 256
    → is_ttl_unit t.unit ≡ true
    → parse_ttl (ttl_string t) ≡ (if t.count == 0 then ttl_ok no_ttl else ttl_ok t)
unfolding ttl_string parse_ttl_unit
parse_ttl-ttl_string t h u = elim (Bool-cases (t.count == 0)) [
  | inl z ↦ rw z (unfold parse_ttl in refl)
  | inr nz ↦ rw nz (
      rw
        (
          parse_ttl_snoc (format_dec 2 t.count) t.unit (length-format_dec-pos 2 t.count),
          parse_uint-format_dec 2 255 t.count (omega arith) (omega arith),
          parse_ttl_unit,
          u,
        )
        refl)
]
