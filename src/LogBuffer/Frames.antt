-- ===== src/LogBuffer/Frames.antt =====
-- goblob/log_buffer/log_buffer.go: frames that stand one behind the other are read back.
use go_blob.Base.{
  take_len, drop_len, ℕ, zero, suc, ◌+◌, ◌-◌, ◌%◌, ◌≤◌, ◌<◌, ◌≡◌, ◌∙◌, refl, sym, ap, false, some,
  List, [], ◌∷◌, ◌++◌, All, ltb, arith, length, take, drop, u32, length-append, take-append_length,
  append_assoc,
}
use go_blob.Bytes.{put_be, get_be}
use go_blob.Bytes.Laws.{length-put_be, get_be-put_be}
use go_blob.LogBuffer.{frame, parse_frames}

-- The size of an entry that a frame can hold.
abbrev pub IsSmall : List ℕ → Type 0
IsSmall payload = length payload + 4 < u32

abbrev pub frames : List (List ℕ) → List ℕ
frames [] = []
frames (e ∷ es) = frame e ++ frames es

pub length-frame : (e : List ℕ) → length (frame e) ≡ 4 + length e
unfolding frame
length-frame e =
    omega (arith, length-append (put_be 4 (length e % u32)) e, length-put_be 4 (length e % u32))

pub frames-append : (es fs : List (List ℕ)) → frames (es ++ fs) ≡ frames es ++ frames fs
frames-append [] fs = refl
frames-append (e ∷ es) fs =
    ap (λ t. frame e ++ t) (frames-append es fs)
    ∙ sym (append_assoc (frame e) (frames es) (frames fs))

-- What the parser reads of a frame and of what follows it.
frame_size : (e more : List ℕ) → IsSmall e → get_be (take 4 (frame e ++ more)) ≡ length e
unfolding frame
frame_size e more h =
    let head = put_be 4 (length e % u32) in
    let four : length head ≡ 4 = length-put_be 4 (length e % u32) in
    let small : length e % u32 ≡ length e = omega arith in
    ap get_be (ap (take 4) (append_assoc head e more) ∙ take_len 4 head (e ++ more) four)
    ∙ get_be-put_be 4 (length e % u32) (omega arith)
    ∙ small

frame_rest : (e more : List ℕ) → drop (4 + length e) (frame e ++ more) ≡ more
frame_rest e more = drop_len (4 + length e) (frame e) more (length-frame e)

frame_payload : (e more : List ℕ) → take (length e) (drop 4 (frame e ++ more)) ≡ e
unfolding frame
frame_payload e more =
    let head = put_be 4 (length e % u32) in
    ap (take (length e)) (
      ap (drop 4) (append_assoc head e more)
      ∙ drop_len 4 head (e ++ more) (length-put_be 4 (length e % u32)))
    ∙ take-append_length e more

parse_frames-frame :
    (fuel : ℕ) (e more : List ℕ) (events : List (List ℕ))
    → IsSmall e
    → parse_frames fuel more ≡ some events
    → parse_frames (suc fuel) (frame e ++ more) ≡ some (e ∷ events)
unfolding parse_frames
parse_frames-frame fuel e more events h rest =
    let long = length-append (frame e) more in
    let end : (4 + length e) % u32 ≡ 4 + length e = omega arith in
    let enough : ltb (length (frame e ++ more)) 4 ≡ false = ground (arith, long, length-frame e) in
    let inside : ltb (length (frame e ++ more) - 4) (length e) ≡ false =
      ground (arith, long, length-frame e) in
    let forward : ltb (4 + length e) 4 ≡ false = ground arith in
    let payload : 4 + length e - 4 ≡ length e = omega arith in
    rw (frame_size e more h, end, enough, inside, forward, frame_rest e more, rest)
      (rw (frame_size e more h, end, payload, frame_payload e more) refl)

parse_frames-nil : (fuel : ℕ) → parse_frames fuel [] ≡ some []
unfolding parse_frames
parse_frames-nil zero = refl
parse_frames-nil (suc fuel) = refl

-- With fuel for the bytes, the parser reads back the entries whose frames stand in a buffer.
pub parse_frames-frames :
    (fuel : ℕ) (es : List (List ℕ))
    → All IsSmall es
    → length (frames es) ≤ fuel
    → parse_frames fuel (frames es) ≡ some es
parse_frames-frames fuel [] h f = parse_frames-nil fuel
parse_frames-frames zero (e ∷ es) h f =
    absurd (omega (arith, length-append (frame e) (frames es), length-frame e))
parse_frames-frames (suc fuel) (e ∷ es) h f = parse_frames-frame fuel e (frames es) es h.0 (
    parse_frames-frames fuel es h.1
      (omega (arith, length-append (frame e) (frames es), length-frame e)))
