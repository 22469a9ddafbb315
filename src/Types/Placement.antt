-- ===== src/Types/Placement.antt =====
-- The byte form and the text form of a replica placement.
use go_blob.Base.{
  ℕ, ◌+◌, ◌*◌, ◌/◌, ◌%◌, ◌<◌, ◌≡◌, ◌↔◌, ◌∷◌, [], refl, ap, arith, bit_or, ◌==◌, ==_iff, true,
}
use go_blob.Base.Tables.{all_below, all_below_sound}
use go_blob.Types.{
  ReplicaPlacement, placement_byte, parse_replica_placement, placement_string,
  parse_replica_placement_string,
}
use go_blob.Strconv.{format_dec, digit_char}

-- What fits the bit layout DDDRRRCC.
pub record Fits (rp : ReplicaPlacement) : Type 0 where
  pub dc : rp.different_data_center_count < 8
  pub rack : rp.different_rack_count < 8
  pub same : rp.same_rack_count < 4

-- Fields of 3, 3 and 2 bits do not overlap in the byte, so `|` adds them.
join_table :
    all_below 256 (λ b.
      bit_or (bit_or (b / 32 % 8 * 32) (b / 4 % 8 * 4)) (b % 4)
      == b / 32 % 8 * 32 + b / 4 % 8 * 4 + b % 4)
    ≡ true
unfolding all_below
join_table = refl

join_below :
    (b : ℕ)
    → b < 256
    → bit_or (bit_or (b / 32 % 8 * 32) (b / 4 % 8 * 4)) (b % 4)
      ≡ b / 32 % 8 * 32 + b / 4 % 8 * 4 + b % 4
join_below b h = (==_iff _ _).0 (all_below_sound 256 _ b join_table h)

abbrev byte_of : ℕ → ℕ → ℕ → ℕ
byte_of d r s = d % 8 * 32 + r % 8 * 4 + s % 4

join_fields : (d r s : ℕ) → bit_or (bit_or (d % 8 * 32) (r % 8 * 4)) (s % 4) ≡ byte_of d r s
join_fields d r s = rw (hd, hr, hs) at (join_below (byte_of d r s) (omega arith))
  where
    hd : byte_of d r s / 32 % 8 ≡ d % 8
    hd = omega arith

    hr : byte_of d r s / 4 % 8 ≡ r % 8
    hr = omega arith

    hs : byte_of d r s % 4 ≡ s % 4
    hs = omega arith

placement_byte-eq :
    (rp : ReplicaPlacement)
    → placement_byte rp
      ≡ byte_of rp.different_data_center_count rp.different_rack_count rp.same_rack_count
unfolding placement_byte
placement_byte-eq rp = join_fields _ _ _

Fits-of_eq : (rp : ReplicaPlacement) → parse_replica_placement (placement_byte rp) ≡ rp → Fits rp
unfolding parse_replica_placement
Fits-of_eq rp e =
    let dc = ap (λ (r : ReplicaPlacement). r.different_data_center_count) e in
    let rack = ap (λ (r : ReplicaPlacement). r.different_rack_count) e in
    let same = ap (λ (r : ReplicaPlacement). r.same_rack_count) e in
    record { dc = omega arith; rack = omega arith; same = omega arith }

-- ReplicaPlacement.Byte and ParseReplicaPlacement are inverse to each other: every byte is the byte
-- of the placement that it parses to, and a placement is the one that its byte parses to exactly
-- when its counts fit the 3, 3 and 2 bits of the layout.
pub placement_byte-roundtrip :
    ((b : ℕ) → b < 256 → placement_byte (parse_replica_placement b) ≡ b)
    × ((rp : ReplicaPlacement) → (parse_replica_placement (placement_byte rp) ≡ rp) ↔ Fits rp)
unfolding parse_replica_placement
placement_byte-roundtrip = (
  λ b h. omega (arith, placement_byte-eq (parse_replica_placement b)),
  λ rp. (λ e. Fits-of_eq rp e, λ h. ground (arith, placement_byte-eq rp)),
)

-- Parsing a placement string of three digits and printing it gives the string back, also where a
-- digit is out of the range of the byte layout.
pub placement_string-parse :
    (d r s : ℕ)
    → d < 10
    → r < 10
    → s < 10
    → placement_string (parse_replica_placement_string ((b'0' + d) ∷ (b'0' + r) ∷ (b'0' + s) ∷ []))
      ≡ (b'0' + d) ∷ (b'0' + r) ∷ (b'0' + s) ∷ []
unfolding placement_string parse_replica_placement_string format_dec digit_char
placement_string-parse d r s hd hr hs = ground arith
