-- ===== src/SuperBlock.antt =====
-- goblob/storage/volume/superblock.go: the header of a .dat file, as a list of bytes.
pub mod Laws
mod Tests
use go_blob.Base.{ℕ, Bool, ◌&&◌, Option, none, some, List, [], ◌∷◌, ◌++◌, leb}
use go_blob.Bytes.{put_be, get_be}
use go_blob.Types.{ReplicaPlacement, placement_byte, parse_replica_placement, Ttl}

pub record SuperBlock : Type 0 where
  pub version : ℕ
  pub replica_placement : ReplicaPlacement
  pub ttl : Ttl
  pub compaction_revision : ℕ

-- SuperBlock.Bytes
unfoldable pub super_block_bytes : SuperBlock → List ℕ
super_block_bytes sb =
    sb.version
      ∷ placement_byte sb.replica_placement
      ∷ sb.ttl.count
      ∷ sb.ttl.unit
      ∷ put_be 2 sb.compaction_revision
    ++ put_be 2 0

-- ParseSuperBlock, `none` is its error: at least 8 bytes are there, as the last clause matches the
-- first six and at least two more.
unfoldable pub parse_super_block : List ℕ → Option SuperBlock
parse_super_block (v ∷ p ∷ c ∷ u ∷ r1 ∷ r0 ∷ _ ∷ _ ∷ _) = some (record {
  version = v;
  replica_placement = parse_replica_placement p;
  ttl = record { count = c; unit = u };
  compaction_revision = get_be (r1 ∷ r0 ∷ []);
})
parse_super_block _ = none

-- IsCompatible, with NeedleVersionV1 = 1 and CurrentNeedleVersion = 3.
unfoldable pub is_compatible : SuperBlock → Bool
is_compatible sb = leb 1 sb.version && leb sb.version 3
