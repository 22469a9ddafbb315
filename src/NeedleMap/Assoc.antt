-- ===== src/NeedleMap/Assoc.antt =====
-- The laws of the association list of MemDb.
use go_blob.Base.{ℕ, ◌+◌, ◌≡◌, refl, Option, none, some, [], ◌∷◌, arith, ◌==◌, if◌then◌else◌}
use go_blob.NeedleMap.{NeedleValue, Entries, lookup, insert}

pub lookup-insert :
    (k j : ℕ) (v : NeedleValue) (es : Entries)
    → lookup j (insert k v es) ≡ (if k == j then some v else lookup j es)
unfolding lookup insert
lookup-insert k j v [] = refl
lookup-insert k j v ((i, w) ∷ es) = ground (arith, lookup-insert k j v es)

-- The sum of a measure over all entries.
abbrev pub total : (NeedleValue → ℕ) → Entries → ℕ
total f [] = 0
total f ((k, v) ∷ es) = f v + total f es

abbrev pub measure : (NeedleValue → ℕ) → Option NeedleValue → ℕ
measure f none = 0
measure f (some v) = f v

-- An insertion takes the old entry of its key out of the sum and puts the new one in.
pub total-insert :
    (f : NeedleValue → ℕ) (k : ℕ) (v : NeedleValue) (es : Entries)
    → total f (insert k v es) + measure f (lookup k es) ≡ total f es + f v
unfolding lookup insert
total-insert f k v [] = omega arith
total-insert f k v ((j, w) ∷ es) = ground (arith, total-insert f k v es)
