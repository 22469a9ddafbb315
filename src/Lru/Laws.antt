-- ===== src/Lru/Laws.antt =====
-- goblob/cache/lru.go: the bytes that a cache holds, and what Get finds after Put and Invalidate.
use go_blob.Base.{
  ℕ, zero, suc, ◌+◌, ◌-◌, ◌≤◌, ◌<◌, ◌≡◌, inl, inr, refl, true, none, some, List, [], ◌∷◌, ltb, ◌==◌,
  ==_self, length, arith, Bool-cases, Option-cases,
}
use go_blob.Lru.{
  LruEntry, LruCache, find_key, without, remove_element, split_back, remove_oldest, lru_get, evict,
  invalidate, store_front, lru_put,
}

-- The bytes of the values.
unfoldable pub bytes_in : List LruEntry → ℕ
bytes_in [] = 0
bytes_in (x ∷ xs) = length x.value + bytes_in xs

-- A cache whose `used` counts its bytes, within the capacity.
pub record IsCache (c : LruCache) : Type 0 where
  pub counted : c.used ≡ bytes_in c.entries
  pub within : c.used ≤ c.capacity

without-bytes :
    (k : ℕ) (xs : List LruEntry) (x : LruEntry)
    → find_key k xs ≡ some x
    → bytes_in (without k xs) + length x.value ≡ bytes_in xs
unfolding find_key without bytes_in
without-bytes k [] x h = ground arith
without-bytes k (y ∷ ys) x h = ground (arith, without-bytes k ys x)

split_back-none : (xs : List LruEntry) → split_back xs ≡ none → xs ≡ []
unfolding split_back
split_back-none [] h = refl
split_back-none (x ∷ xs) h = elim (Option-cases (split_back xs)) [
  | inl gone ↦ ground (arith, gone)
  | inr (r, more) ↦ ground (arith, more)
]

split_back-bytes :
    (xs : List LruEntry) (x : LruEntry) (front : List LruEntry)
    → split_back xs ≡ some (x, front)
    → (bytes_in front + length x.value ≡ bytes_in xs) × (length front + 1 ≡ length xs)
unfolding split_back bytes_in
split_back-bytes [] x front h = ground arith
split_back-bytes (y ∷ ys) x front h = elim (Option-cases (split_back ys)) [
  | inl gone ↦ ground (arith, gone, split_back-none ys gone)
  | inr ((l, f), more) ↦ ground (arith, more, split_back-bytes ys l f more)
]

remove_oldest-bytes :
    (c : LruCache)
    → c.used ≡ bytes_in c.entries
    → ((remove_oldest c).used ≡ bytes_in (remove_oldest c).entries)
      × (length (remove_oldest c).entries ≡ length c.entries - 1)
unfolding remove_oldest bytes_in remove_element
remove_oldest-bytes c h = elim (Option-cases (split_back c.entries)) [
  | inl gone ↦ rw (gone, remove_oldest) (h, ground (arith, split_back-none c.entries gone))
  | inr ((x, front), e) ↦
      let b = split_back-bytes c.entries x front e in
      rw (e, remove_oldest) (omega (arith, b.0, h), omega (arith, b.1))
]

empty-bytes : (xs : List LruEntry) → length xs ≤ 0 → bytes_in xs ≡ 0
unfolding bytes_in
empty-bytes [] h = refl
empty-bytes (x ∷ xs) h = absurd (omega arith)

evict-IsCache :
    (fuel : ℕ) (c : LruCache)
    → c.used ≡ bytes_in c.entries
    → length c.entries ≤ fuel
    → IsCache (evict fuel c)
unfolding evict
evict-IsCache zero c h small = record {
  counted = h;
  within = omega (arith, h, empty-bytes c.entries small);
}
evict-IsCache (suc fuel) c h small = elim (Bool-cases (ltb c.capacity c.used)) [
  | inl over ↦ rw over (
      evict-IsCache fuel (remove_oldest c) (remove_oldest-bytes c h).0
        (omega (arith, (remove_oldest-bytes c h).1)))
  | inr fits ↦ rw fits (record { counted = h; within = ground arith })
]

invalidate-IsCache : (c : LruCache) (k : ℕ) → IsCache c → IsCache (invalidate c k)
unfolding invalidate remove_element
invalidate-IsCache c k h = elim (Option-cases (find_key k c.entries)) [
  | inl gone ↦ rw (gone, invalidate) h
  | inr (x, e) ↦
      rw (e, invalidate)
        (record {
          counted = omega (arith, without-bytes k c.entries x e, h.counted);
          within = omega (arith, h.within);
        })
]

store_front-counted :
    (c : LruCache) (k : ℕ) (v : List ℕ)
    → c.used ≡ bytes_in c.entries
    → (store_front c k v).used ≡ bytes_in (store_front c k v).entries
unfolding store_front bytes_in
store_front-counted c k v h = elim (Option-cases (find_key k c.entries)) [
  | inl gone ↦ rw (gone, store_front) (omega arith)
  | inr (x, e) ↦ rw (e, store_front) (omega (arith, without-bytes k c.entries x e))
]

-- Where `used` is the number of bytes of the entries and within the capacity, it is both again
-- after a Put: the loop of Put ends, and evicts as far as needed.
pub lru_put-IsCache : (c : LruCache) (k : ℕ) (v : List ℕ) → IsCache c → IsCache (lru_put c k v)
unfolding lru_put
lru_put-IsCache c k v h = elim (Bool-cases (c.capacity == 0)) [
  | inl off ↦ rw off h
  | inr on ↦ elim (Bool-cases (ltb c.capacity (length v))) [
    | inl large ↦ rw (on, large) (invalidate-IsCache c k h)
    | inr small ↦
        rw (on, small)
          (evict-IsCache (length (store_front c k v).entries) (store_front c k v)
            (store_front-counted c k v h.counted) (omega arith))
  ]
]

-- The list has `x` in front.
abbrev LedBy : LruEntry → List LruEntry → Type 0
LedBy x es = (xs : List LruEntry) × (es ≡ x ∷ xs)

split_back-LedBy :
    (x y : LruEntry) (ys : List LruEntry) (l : LruEntry) (front : List LruEntry)
    → split_back (x ∷ y ∷ ys) ≡ some (l, front)
    → LedBy x front
unfolding split_back
split_back-LedBy x y ys l front h = elim (Option-cases (split_back (y ∷ ys))) [
  | inl gone ↦ absurd (ground (arith, split_back-none (y ∷ ys) gone))
  | inr ((m, f), more) ↦ (f, ground (arith, more))
]

remove_oldest-LedBy :
    (c : LruCache) (x y : LruEntry) (ys : List LruEntry)
    → c.entries ≡ x ∷ y ∷ ys
    → LedBy x (remove_oldest c).entries
unfolding remove_oldest remove_element
remove_oldest-LedBy c x y ys h = elim (Option-cases (split_back (x ∷ y ∷ ys))) [
  | inl gone ↦ absurd (ground (arith, split_back-none (x ∷ y ∷ ys) gone))
  | inr ((l, f), e) ↦ rw (h, e, remove_oldest) (split_back-LedBy x y ys l f e)
]

remove_oldest-capacity : (c : LruCache) → (remove_oldest c).capacity ≡ c.capacity
unfolding remove_oldest remove_element
remove_oldest-capacity c = ground arith

-- A cache that is too full has more than a first entry that fits.
crowded-LedBy :
    (c : LruCache) (x : LruEntry) (xs : List LruEntry)
    → c.entries ≡ x ∷ xs
    → c.used ≡ bytes_in c.entries
    → length x.value ≤ c.capacity
    → ltb c.capacity c.used ≡ true
    → LedBy x (remove_oldest c).entries
unfolding bytes_in
crowded-LedBy c x [] e counted small over =
    let total : bytes_in c.entries ≡ length x.value + 0 = rw e refl in
    absurd (ground (arith, total))
crowded-LedBy c x (y ∷ ys) e counted small over = remove_oldest-LedBy c x y ys e

evict-LedBy :
    (fuel : ℕ) (c : LruCache) (x : LruEntry)
    → LedBy x c.entries
    → c.used ≡ bytes_in c.entries
    → length x.value ≤ c.capacity
    → LedBy x (evict fuel c).entries
unfolding evict
evict-LedBy zero c x led counted small = led
evict-LedBy (suc fuel) c x led counted small = elim (Bool-cases (ltb c.capacity c.used)) [
  | inl over ↦ rw over (
      evict-LedBy fuel (remove_oldest c) x (crowded-LedBy c x led.0 led.1 counted small over)
        (remove_oldest-bytes c counted).0 (omega (arith, remove_oldest-capacity c)))
  | inr fits ↦ rw fits led
]

store_front-LedBy :
    (c : LruCache) (k : ℕ) (v : List ℕ)
    → LedBy (record { key = k; value = v }) (store_front c k v).entries
      × ((store_front c k v).capacity ≡ c.capacity)
unfolding store_front
store_front-LedBy c k v = elim (Option-cases (find_key k c.entries)) [
  | inl gone ↦ rw (gone, store_front) ((c.entries, refl), refl)
  | inr (x, e) ↦ rw (e, store_front) ((without k c.entries, refl), refl)
]

find_front :
    (k : ℕ) (v : List ℕ) (es : List LruEntry)
    → LedBy (record { key = k; value = v }) es
    → find_key k es ≡ some (record { key = k; value = v })
unfolding find_key
find_front k v es led = rw (led.1, ==_self k) refl

lru_get-found :
    (c : LruCache) (k : ℕ) (x : LruEntry)
    → find_key k c.entries ≡ some x
    → (lru_get c k).1 ≡ some x.value
unfolding lru_get
lru_get-found c k x h = rw (h, lru_get) refl

lru_put-stores :
    (c : LruCache) (k : ℕ) (v : List ℕ)
    → 0 < c.capacity
    → length v ≤ c.capacity
    → lru_put c k v ≡ evict (length (store_front c k v).entries) (store_front c k v)
unfolding lru_put
lru_put-stores c k v enabled small = ground arith

-- Where `used` is the number of bytes of the entries and within a capacity above 0, the Get that
-- follows a Put of a value that fits the capacity finds it, whatever was evicted for it.
pub lru_get-lru_put :
    (c : LruCache) (k : ℕ) (v : List ℕ)
    → IsCache c
    → 0 < c.capacity
    → length v ≤ c.capacity
    → (lru_get (lru_put c k v) k).1 ≡ some v
lru_get-lru_put c k v h enabled small =
    let entry : LruEntry = record { key = k; value = v } in
    let s = store_front c k v in
    let led = store_front-LedBy c k v in
    let kept =
      evict-LedBy (length s.entries) s entry led.0 (store_front-counted c k v h.counted)
        (omega (arith, led.1)) in
    rw (lru_put-stores c k v enabled small) (
      lru_get-found (evict (length s.entries) s) k entry
        (find_front k v (evict (length s.entries) s).entries kept))
