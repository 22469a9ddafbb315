-- ===== src/SuperBlock/Laws.antt =====
-- goblob/storage/volume/superblock.go: what Bytes writes and ParseSuperBlock reads.
use go_blob.Base.{ℕ, ◌<◌, ◌≡◌, ◌↔◌, refl, none, some, List, ◌∷◌, ◌++◌, length, arith}
use go_blob.Bytes.{put_be, get_be}
use go_blob.Bytes.Laws.{get_be-put_be}
use go_blob.Types.Placement.{Fits, placement_byte-roundtrip}
use go_blob.SuperBlock.{SuperBlock, super_block_bytes, parse_super_block}

-- Bytes writes eight bytes, and ParseSuperBlock reads the same superblock back from them, whatever
-- follows them in the file, where the placement fits its byte and the revision fits 16 bits.
pub parse_super_block-super_block_bytes :
    (sb : SuperBlock) (rest : List ℕ)
    → Fits sb.replica_placement
    → sb.compaction_revision < 65536
    → (length (super_block_bytes sb) ≡ 8)
      × (parse_super_block (super_block_bytes sb ++ rest) ≡ some sb)
unfolding super_block_bytes parse_super_block put_be
parse_super_block-super_block_bytes sb rest fits small =
    let revision : get_be (put_be 2 sb.compaction_revision) ≡ sb.compaction_revision =
      get_be-put_be 2 sb.compaction_revision small in
    (refl, rw ((placement_byte-roundtrip.1 sb.replica_placement).1 fits, revision) refl)

-- ParseSuperBlock fails exactly on fewer than eight bytes.
pub parse_super_block-none_iff :
    (bytes : List ℕ) → (parse_super_block bytes ≡ none) ↔ (length bytes < 8)
unfolding parse_super_block
parse_super_block-none_iff (_ ∷ _ ∷ _ ∷ _ ∷ _ ∷ _ ∷ _ ∷ _ ∷ _) = ground arith
parse_super_block-none_iff _ = ground arith
