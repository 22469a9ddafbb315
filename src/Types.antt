-- ===== src/Types.antt =====
-- goblob/core/types/types.go: identifiers, offsets, replica placement and TTL with their encodings.
-- Strings are lists of bytes; uint8 to uint64 values are numbers below 2 ^ 8 to 2 ^ 64.
pub mod FileIdText
pub mod Placement
pub mod TtlText
mod Tests
use go_blob.Base.{
  ℕ, zero, suc, ◌+◌, ◌-◌, ◌*◌, ◌/◌, ◌%◌, Bool, true, false, ◌&&◌, ◌||◌, Option, none, some, List,
  [], ◌∷◌, ◌++◌, ltb, leb, ◌==◌, if◌then◌else◌, length, take, drop, get_or, bit_or, u32, u64,
}
use go_blob.Strconv.{digit_char, format_dec, format_hex, parse_uint, cut}

-- Offset.ToActualOffset: the byte offset of an encoded one.
unfoldable pub to_actual_offset : ℕ → ℕ
to_actual_offset o = o * 8

-- ToEncoded: the encoded offset is a uint32, so the quotient wraps.
unfoldable pub to_encoded : ℕ → ℕ
to_encoded actual = actual / 8 % u32

pub record FileId : Type 0 where
  pub volume_id : ℕ
  pub needle_id : ℕ
  pub cookie : ℕ

pub data FileIdError : Type 0 where
  no_comma too_short bad_volume_id bad_cookie bad_needle_id : FileIdError

pub data Parsed (A : Type 0) : Type 0 where
  ok : A → Parsed A
  err : FileIdError → Parsed A

-- FileId.String, "%d,%016x%08x". Ten digits are enough for a uint32.
unfoldable pub file_id_string : FileId → List ℕ
file_id_string f =
    format_dec 9 f.volume_id ++ b',' ∷ (format_hex 16 f.needle_id ++ format_hex 8 f.cookie)

or_else : Option ℕ → FileIdError → (ℕ → Parsed FileId) → Parsed FileId
or_else none e f = err e
or_else (some v) e f = f v

-- The part of ParseFileId behind the comma test.
parse_file_id_parts : List ℕ → List ℕ → Parsed FileId
unfolding or_else
parse_file_id_parts volume_str rest =
    if ltb (length rest) 9
    then err too_short
    else or_else (parse_uint 10 (u32 - 1) volume_str) bad_volume_id λ volume_id.
      or_else (parse_uint 16 (u32 - 1) (drop (length rest - 8) rest)) bad_cookie λ cookie.
        or_else (parse_uint 16 (u64 - 1) (take (length rest - 8) rest)) bad_needle_id
          λ needle_id. ok (record { volume_id = volume_id; needle_id = needle_id; cookie = cookie })

unfoldable pub parse_file_id : List ℕ → Parsed FileId
unfolding parse_file_id_parts
parse_file_id s = elim (cut b',' s) [
  | none ↦ err no_comma
  | some (volume_str, rest) ↦ parse_file_id_parts volume_str rest
]

pub record ReplicaPlacement : Type 0 where
  pub different_data_center_count : ℕ
  pub different_rack_count : ℕ
  pub same_rack_count : ℕ

-- ReplicaPlacement.Byte: `x & 0x07` is `x % 8`, and no shifted field leaves the byte.
unfoldable pub placement_byte : ReplicaPlacement → ℕ
placement_byte rp =
    bit_or (bit_or (rp.different_data_center_count % 8 * 32) (rp.different_rack_count % 8 * 4))
      (rp.same_rack_count % 4)

unfoldable pub parse_replica_placement : ℕ → ReplicaPlacement
parse_replica_placement b = record {
  different_data_center_count = b / 32 % 8;
  different_rack_count = b / 4 % 8;
  same_rack_count = b % 4;
}

unfoldable pub total_copies : ReplicaPlacement → ℕ
total_copies rp = 1 + rp.different_data_center_count + rp.different_rack_count + rp.same_rack_count

-- ReplicaPlacement.String, "%d%d%d". Three digits are enough for a uint8.
unfoldable pub placement_string : ReplicaPlacement → List ℕ
placement_string rp =
    format_dec 2 rp.different_data_center_count
    ++ (format_dec 2 rp.different_rack_count ++ format_dec 2 rp.same_rack_count)

-- One digit of a placement string; any other byte counts 0.
placement_digit : ℕ → ℕ
placement_digit c = if leb b'0' c && leb c b'9' then c - b'0' else 0

unfoldable pub parse_replica_placement_string : List ℕ → ReplicaPlacement
unfolding placement_digit
parse_replica_placement_string s =
    if ltb (length s) 3
    then record { different_data_center_count = 0; different_rack_count = 0; same_rack_count = 0 }
    else record {
      different_data_center_count = placement_digit (get_or s 0 0);
      different_rack_count = placement_digit (get_or s 1 0);
      same_rack_count = placement_digit (get_or s 2 0);
    }

-- The unit is its byte; 0 is TTLUnitEmpty.
pub record Ttl : Type 0 where
  pub count : ℕ
  pub unit : ℕ

abbrev pub no_ttl : Ttl
no_ttl = record { count = 0; unit = 0 }

unfoldable pub is_never_expire : Ttl → Bool
is_never_expire t = t.count == 0

unfoldable pub ttl_bytes : Ttl → List ℕ
ttl_bytes t = t.count ∷ t.unit ∷ []

-- The units of the switch in ParseTTL.
unfoldable pub is_ttl_unit : ℕ → Bool
is_ttl_unit u = u == b'm' || (u == b'h' || (u == b'd' || (u == b'w' || (u == b'M' || u == b'y'))))

pub data TtlError : Type 0 where
  ttl_too_short bad_count bad_unit : TtlError

pub data ParsedTtl : Type 0 where
  ttl_ok : Ttl → ParsedTtl
  ttl_err : TtlError → ParsedTtl

parse_ttl_unit : ℕ → Option ℕ → ParsedTtl
unfolding is_ttl_unit
parse_ttl_unit unit none = ttl_err bad_count
parse_ttl_unit unit (some count) =
    if is_ttl_unit unit then ttl_ok (record { count = count; unit = unit }) else ttl_err bad_unit

unfoldable pub parse_ttl : List ℕ → ParsedTtl
unfolding parse_ttl_unit
parse_ttl s =
    if length s == 0
    then ttl_ok no_ttl
    else if ltb (length s) 2
    then ttl_err ttl_too_short
    else parse_ttl_unit (get_or s (length s - 1) 0) (parse_uint 10 255 (take (length s - 1) s))

-- TTL.String. Three digits are enough for a uint8.
unfoldable pub ttl_string : Ttl → List ℕ
ttl_string t = if t.count == 0 then [] else format_dec 2 t.count ++ t.unit ∷ []
