-- ===== src/Lru/Tests.antt =====
-- goblob/cache/lru.go: a small cache at concrete values.
use go_blob.Base.{◌≡◌, refl, some, none, [], ◌∷◌, arith}
use go_blob.Lru.{LruCache, lru_get, lru_put}
use go_blob.Lru.Laws.{IsCache, bytes_in, lru_put-IsCache, lru_get-lru_put}

-- Four bytes hold two of the three values.
abbrev full : LruCache
full = record {
  capacity = 4;
  used = 4;
  entries =
      record { key = 1; value = 10 ∷ 11 ∷ [] } ∷ record { key = 2; value = 20 ∷ 21 ∷ [] } ∷ [];
}

full-IsCache : IsCache full
unfolding bytes_in
full-IsCache = record { counted = refl; within = omega arith }

lru_put-IsCache_example : IsCache (lru_put full 3 (30 ∷ []))
lru_put-IsCache_example = lru_put-IsCache full 3 (30 ∷ []) full-IsCache

lru_get-lru_put_example : (lru_get (lru_put full 3 (30 ∷ [])) 3).1 ≡ some (30 ∷ [])
lru_get-lru_put_example = lru_get-lru_put full 3 (30 ∷ []) full-IsCache (omega arith) (omega arith)

-- The least recent entry is evicted.
oldest_evicted : (lru_get (lru_put full 3 (30 ∷ [])) 2).1 ≡ none
unfolding lru_get lru_put
oldest_evicted = refl
