-- ===== src/Types/Tests.antt =====
-- goblob/core/types/types.go: the text forms at concrete values.
use go_blob.Base.{◌≡◌, refl, [], ◌∷◌, ◌+◌, arith, true}
use go_blob.Strconv.{parse_uint}
use go_blob.Types.{
  FileId, ok, file_id_string, parse_file_id, Ttl, ttl_ok, parse_ttl, ttl_string, placement_string,
  is_ttl_unit, parse_replica_placement_string,
}
use go_blob.Types.FileIdText.{IsFileId, parse_file_id-file_id_string}
use go_blob.Types.Placement.{placement_string-parse}
use go_blob.Types.TtlText.{parse_ttl-ttl_string}

abbrev some_file : FileId
some_file = record { volume_id = 37; needle_id = 0x1_0000_0abc; cookie = 0xdeadbeef }

some_file-IsFileId : IsFileId some_file
some_file-IsFileId = record {
  volume_id = omega arith;
  needle_id = omega arith;
  cookie = omega arith;
}

parse_file_id-file_id_string_example : parse_file_id (file_id_string some_file) ≡ ok some_file
parse_file_id-file_id_string_example = parse_file_id-file_id_string some_file some_file-IsFileId

placement_string-parse_example :
    placement_string (parse_replica_placement_string ((b'0' + 0) ∷ (b'0' + 1) ∷ (b'0' + 9) ∷ []))
    ≡ (b'0' + 0) ∷ (b'0' + 1) ∷ (b'0' + 9) ∷ []
placement_string-parse_example =
    placement_string-parse 0 1 9 (omega arith) (omega arith) (omega arith)

abbrev thirty_days : Ttl
thirty_days = record { count = 30; unit = b'd' }

day_is_unit : is_ttl_unit b'd' ≡ true
unfolding is_ttl_unit
day_is_unit = refl

parse_ttl-ttl_string_example : parse_ttl (ttl_string thirty_days) ≡ ttl_ok thirty_days
parse_ttl-ttl_string_example = parse_ttl-ttl_string thirty_days (omega arith) day_is_unit

-- "3d" as ParseTTL reads it.
parse_ttl_runs : parse_ttl (b'3' ∷ b'd' ∷ []) ≡ ttl_ok (record { count = 3; unit = b'd' })
unfolding parse_ttl parse_uint
parse_ttl_runs = refl
