-- ===== src/SuperBlock/Tests.antt =====
-- goblob/storage/volume/superblock.go: a superblock at concrete values.
use go_blob.Base.{ℕ, ◌≡◌, ◌↔◌, ◌<◌, none, some, List, [], ◌∷◌, ◌++◌, length, arith}
use go_blob.SuperBlock.{SuperBlock, super_block_bytes, parse_super_block}
use go_blob.SuperBlock.Laws.{parse_super_block-super_block_bytes, parse_super_block-none_iff}

abbrev some_block : SuperBlock
some_block = record {
  version = 3;
  replica_placement = record {
    different_data_center_count = 0;
    different_rack_count = 1;
    same_rack_count = 2;
  };
  ttl = record { count = 3; unit = b'd' };
  compaction_revision = 258;
}

parse_super_block-super_block_bytes_example :
    (length (super_block_bytes some_block) ≡ 8)
    × (parse_super_block (super_block_bytes some_block ++ 7 ∷ []) ≡ some some_block)
parse_super_block-super_block_bytes_example =
    parse_super_block-super_block_bytes some_block (7 ∷ [])
      (record { dc = omega arith; rack = omega arith; same = omega arith }) (omega arith)

abbrev short_input : List ℕ
short_input = 3 ∷ 0 ∷ []

parse_super_block-none_iff_example :
    (parse_super_block short_input ≡ none) ↔ (length short_input < 8)
parse_super_block-none_iff_example = parse_super_block-none_iff short_input
