-- ===== src/Lru.antt =====
-- goblob/cache/lru.go: the LRU cache of payloads. The linked list, front first, is a list of
-- entries; the map from a key to its element is the search of that list for the key. Keys are
-- numbers.
pub mod Laws
mod Tests
use go_blob.Base.{
  ℕ, zero, suc, ◌+◌, ◌-◌, ◌<◌, Bool, true, false, not, Option, none, some, List, [], ◌∷◌, ◌++◌, ltb,
  ◌==◌, if◌then◌else◌, length,
}

pub record LruEntry : Type 0 where
  pub key : ℕ
  pub value : List ℕ

pub record LruCache : Type 0 where
  pub capacity : ℕ
  pub used : ℕ
  pub entries : List LruEntry

-- NewLRUCache, for a capacity that is not negative.
abbrev pub new_lru_cache : ℕ → LruCache
new_lru_cache capacity = record { capacity = capacity; used = 0; entries = [] }

-- c.cache[key], the element's entry.
unfoldable pub find_key : ℕ → List LruEntry → Option LruEntry
find_key k [] = none
find_key k (x ∷ xs) = if x.key == k then some x else find_key k xs

-- c.ll.Remove of the element of a key.
unfoldable pub without : ℕ → List LruEntry → List LruEntry
without k [] = []
without k (x ∷ xs) = if x.key == k then xs else x ∷ without k xs

-- removeElement, of the element of `x`, where `rest` is the list without it; used does not go below
-- 0.
unfoldable pub remove_element : LruEntry → List LruEntry → LruCache → LruCache
remove_element x rest c = record c { entries = rest; used = c.used - length x.value }

-- c.ll.Back() and the list without it.
unfoldable pub split_back : List LruEntry → Option (LruEntry × List LruEntry)
split_back [] = none
split_back (x ∷ xs) = elim (split_back xs) [
  | none ↦ some (x, [])
  | some (last, front) ↦ some (last, x ∷ front)
]

-- removeOldest
unfoldable pub remove_oldest : LruCache → LruCache
unfolding split_back remove_element
remove_oldest c = elim (split_back c.entries) [
  | none ↦ c
  | some (x, rest) ↦ remove_element x rest c
]

-- Get: the value, or a miss, and the cache after it.
unfoldable pub lru_get : LruCache → ℕ → LruCache × Option (List ℕ)
unfolding find_key without
lru_get c k = elim (find_key k c.entries) [
  | none ↦ (c, none)
  | some x ↦ (record c { entries = x ∷ without k c.entries }, some x.value)
]

-- The loop of Put; one round for each entry is enough.
unfoldable pub evict : ℕ → LruCache → LruCache
unfolding remove_oldest
evict zero c = c
evict (suc fuel) c =
    let rest = evict fuel (remove_oldest c) in if ltb c.capacity c.used then rest else c

-- Invalidate
unfoldable pub invalidate : LruCache → ℕ → LruCache
unfolding find_key without remove_element
invalidate c k = elim (find_key k c.entries) [
  | none ↦ c
  | some x ↦ remove_element x (without k c.entries) c
]

-- The entry of a Put in front, before the loop.
unfoldable pub store_front : LruCache → ℕ → List ℕ → LruCache
unfolding find_key without
store_front c k v =
    let entry : LruEntry = record { key = k; value = v } in
    elim (find_key k c.entries) [
      | none ↦ record c { entries = entry ∷ c.entries; used = c.used + length v }
      | some x ↦ record c {
        entries = entry ∷ without k c.entries;
        used = c.used - length x.value + length v;
      }
    ]

-- Put
unfoldable pub lru_put : LruCache → ℕ → List ℕ → LruCache
unfolding invalidate store_front evict
lru_put c k v =
    let stored = store_front c k v in
    if c.capacity == 0
    then c
    else if ltb c.capacity (length v)
    then invalidate c k
    else evict (length stored.entries) stored
