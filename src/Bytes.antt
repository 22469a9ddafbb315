-- ===== src/Bytes.antt =====
-- encoding/binary.BigEndian, as goblob/storage uses it: a number as `k` bytes, highest first.
pub mod Laws
use go_blob.Base.{
  ℕ, zero, suc, ◌+◌, ◌*◌, ◌/◌, ◌%◌, ◌<◌, List, [], ◌∷◌, ◌++◌, u8, Bool, true, false, ◌&&◌, ◌==◌,
}

abbrev pub IsByte : ℕ → Type 0
IsByte b = b < u8

-- PutUint16, PutUint32, PutUint64 for k = 2, 4, 8.
unfoldable pub put_be : ℕ → ℕ → List ℕ
put_be zero v = []
put_be (suc k) v = put_be k (v / 256) ++ v % 256 ∷ []

get_be_from : ℕ → List ℕ → ℕ
get_be_from acc [] = acc
get_be_from acc (b ∷ bs) = get_be_from (acc * 256 + b) bs

-- Uint16, Uint32, Uint64 of a slice of 2, 4, 8 bytes.
unfoldable pub get_be : List ℕ → ℕ
unfolding get_be_from
get_be = get_be_from 0

-- bytes.Equal, and == of strings.
unfoldable pub bytes_equal : List ℕ → List ℕ → Bool
bytes_equal [] [] = true
bytes_equal (x ∷ xs) (y ∷ ys) = x == y && bytes_equal xs ys
bytes_equal _ _ = false
