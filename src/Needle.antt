-- ===== src/Needle.antt =====
-- goblob/storage/needle/needle.go: the needle, its flags and its setters, and the checksum of
-- crc32.go. Byte slices and strings are lists of bytes, a nil slice is the empty list.
pub mod Write
pub mod Read
pub mod Layout
pub mod Fields
pub mod Body
pub mod Image
pub mod RoundTrip
pub mod Corrupt
pub mod Compare
mod Tests
use go_blob.Base.{
  ℕ, zero, suc, ◌+◌, ◌-◌, ◌*◌, ◌/◌, ◌%◌, Bool, ◌&&◌, not, List, [], ◌∷◌, ◌++◌, ltb, ◌==◌,
  if◌then◌else◌, length, take, bit_and, bit_or, bit_xor, u32,
}
use go_blob.Bytes.{put_be}
use go_blob.Types.{Ttl, no_ttl}

pub record Needle : Type 0 where
  pub cookie : ℕ
  pub id : ℕ
  pub size : ℕ
  pub data_size : ℕ
  pub payload : List ℕ
  pub flags : ℕ
  pub name : List ℕ
  pub mime : List ℕ
  pub pairs : List ℕ
  pub last_modified : ℕ
  pub ttl : Ttl
  pub checksum : ℕ
  pub append_at_ns : ℕ

-- &Needle{}
abbrev pub blank : Needle
blank = record {
  cookie = 0;
  id = 0;
  size = 0;
  data_size = 0;
  payload = [];
  flags = 0;
  name = [];
  mime = [];
  pairs = [];
  last_modified = 0;
  ttl = no_ttl;
  checksum = 0;
  append_at_ns = 0;
}

-- `flags & mask != 0`
unfoldable pub has_flag : ℕ → ℕ → Bool
has_flag mask flags = not (bit_and flags mask == 0)

abbrev pub has_name : Needle → Bool
has_name n = has_flag 0x01 n.flags

abbrev pub has_mime : Needle → Bool
has_mime n = has_flag 0x02 n.flags

abbrev pub has_last_modified : Needle → Bool
has_last_modified n = has_flag 0x04 n.flags

abbrev pub has_ttl : Needle → Bool
has_ttl n = has_flag 0x08 n.flags

abbrev pub has_pairs : Needle → Bool
has_pairs n = has_flag 0x10 n.flags

abbrev pub is_compressed : Needle → Bool
is_compressed n = has_flag 0x20 n.flags

unfoldable pub set_compressed : Needle → Needle
set_compressed n = record n { flags = bit_or n.flags 0x20 }

-- A slice or string cut to a size limit.
abbrev pub limit_to : ℕ → List ℕ → List ℕ
limit_to most s = if ltb most (length s) then take most s else s

unfoldable pub set_name : Needle → List ℕ → Needle
set_name n s = record n { name = limit_to 255 s; flags = bit_or n.flags 0x01 }

unfoldable pub set_mime : Needle → List ℕ → Needle
set_mime n s = record n { mime = limit_to 255 s; flags = bit_or n.flags 0x02 }

unfoldable pub set_last_modified : Needle → ℕ → Needle
set_last_modified n ts = record n { last_modified = ts; flags = bit_or n.flags 0x04 }

unfoldable pub set_ttl : Needle → Ttl → Needle
set_ttl n t = record n { ttl = t; flags = bit_or n.flags 0x08 }

unfoldable pub set_pairs : Needle → List ℕ → Needle
set_pairs n s = record n { pairs = limit_to 65535 s; flags = bit_or n.flags 0x10 }

unfoldable pub get_last_modified : Needle → ℕ
get_last_modified n = if has_last_modified n then n.last_modified else 0

unfoldable pub get_mime : Needle → List ℕ
get_mime n = if has_mime n then n.mime else []

unfoldable pub get_name : Needle → List ℕ
get_name n = if has_name n then n.name else []

unfoldable pub get_pairs : Needle → List ℕ
get_pairs n = if has_pairs n then n.pairs else []

-- BodySize, in uint32.
unfoldable pub body_size : Needle → ℕ
body_size n =
    (4
      + n.data_size
      + 1
      + (if has_name n then 1 + length n.name else 0)
      + (if has_mime n then 1 + length n.mime else 0)
      + (if has_pairs n then 2 + length n.pairs else 0)
      + (if has_last_modified n then 5 else 0)
      + (if has_ttl n then 2 else 0))
    % u32

-- NeedleAlignPadding
unfoldable pub needle_align_padding : ℕ → ℕ
needle_align_padding n = if n % 8 == 0 then 0 else 8 - n % 8

-- One bit of the reflected IEEE polynomial of hash/crc32.
crc_bit : ℕ → ℕ
crc_bit crc = if crc % 2 == 1 then bit_xor (crc / 2) 0xedb88320 else crc / 2

crc_bits : ℕ → ℕ → ℕ
unfolding crc_bit
crc_bits zero crc = crc
crc_bits (suc k) crc = crc_bits k (crc_bit crc)

crc_update : ℕ → List ℕ → ℕ
unfolding crc_bits
crc_update crc [] = crc
crc_update crc (b ∷ bs) = crc_update (crc_bits 8 (bit_xor crc b)) bs

-- NewCRC32: the IEEE checksum of the cookie, the id and the body; it is a uint32.
unfoldable pub new_crc32 : ℕ → ℕ → List ℕ → ℕ
unfolding crc_update
new_crc32 cookie id body =
    bit_xor (crc_update 0xffffffff (put_be 4 cookie ++ (put_be 8 id ++ body))) 0xffffffff % u32
