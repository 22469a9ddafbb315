-- ===== src/Sequence/Text.antt =====
-- goblob/sequence/file_sequencer.go: the file that saveMaxFileId writes and loadMaxFileId reads.
use go_blob.Base.{
  ℕ, ◌^◌, ◌<◌, ◌≡◌, ◌∙◌, refl, ap, some, List, [], ◌∷◌, ◌++◌, All, arith, length, u64, false,
}
use go_blob.Strconv.{format_dec, parse_uint}
use go_blob.Strconv.Laws.{IsDigit, format_dec-IsDigit, length-format_dec-pos, parse_uint-format_dec}
use go_blob.Sequence.{
  is_space, trim_left, trim_right, keep_unless_blank, load_text, load_max_file_id, max_file_id_text,
}

digit_not_space : (c : ℕ) → IsDigit c → is_space c ≡ false
digit_not_space c d = ground arith

keep-digit : (c : ℕ) (cs : List ℕ) → IsDigit c → keep_unless_blank c cs ≡ c ∷ cs
keep-digit c [] d = rw (digit_not_space c d) refl
keep-digit c (b ∷ bs) d = refl

trim_right-digits : (cs : List ℕ) → All IsDigit cs → trim_right (cs ++ 10 ∷ []) ≡ cs
unfolding trim_right
trim_right-digits [] d = refl
trim_right-digits (c ∷ cs) d =
    ap (keep_unless_blank c) (trim_right-digits cs d.1) ∙ keep-digit c cs d.0

trim_left-digits : (c : ℕ) (cs : List ℕ) → IsDigit c → trim_left (c ∷ cs) ≡ c ∷ cs
unfolding trim_left
trim_left-digits c cs d = rw (digit_not_space c d) refl

load-digits :
    (cs : List ℕ)
    → 0 < length cs
    → All IsDigit cs
    → load_max_file_id (some (cs ++ 10 ∷ [])) ≡ parse_uint 10 0xffffffffffffffff cs
unfolding load_max_file_id load_text
load-digits [] h d = absurd (omega arith)
load-digits (c ∷ cs) h d =
    ap (λ t. load_text (trim_right t)) (trim_left-digits c (cs ++ 10 ∷ []) d.0)
    ∙ ap load_text (trim_right-digits (c ∷ cs) d)

-- loadMaxFileId reads the number that saveMaxFileId wrote, for every uint64.
pub load_max_file_id-max_file_id_text :
    (v : ℕ) → v < u64 → load_max_file_id (some (max_file_id_text v)) ≡ some v
unfolding max_file_id_text
load_max_file_id-max_file_id_text v h =
    load-digits (format_dec 19 v) (length-format_dec-pos 19 v) (format_dec-IsDigit 19 v digits)
    ∙ parse_uint-format_dec 19 0xffffffffffffffff v digits (omega arith)
  where
    digits : v < 10 ^ 20
    digits = omega arith
