-- ===== src/Raft/Chain.antt =====
-- goblob/consensus/native/engine.go: the log of a node while it takes the entries of a leader.
use go_blob.Base.{
  ℕ, ◌+◌, ◌-◌, ◌≤◌, ◌≡◌, ◌≢◌, inl, inr, refl, none, some, List, [], ◌∷◌, ◌++◌, leb, ==_ne, length,
  arith, Bool-cases,
}
use go_blob.Raft.{LogEntry, last_index_of, find_entry, up_to}

module _ {C : Type 0} where
  -- Entries whose indices go on from `s` without a gap.
  unfoldable pub Chain : ℕ → List (LogEntry C) → Type 0
  Chain s [] = s ≡ s
  Chain s (x ∷ xs) = (x.index ≡ s + 1) × Chain (s + 1) xs

  last_index_of_start :
      (s s' : ℕ) (y : LogEntry C) (xs : List (LogEntry C))
      → last_index_of s (y ∷ xs) ≡ last_index_of s' (y ∷ xs)
  unfolding last_index_of
  last_index_of_start s s' y [] = refl
  last_index_of_start s s' y (x ∷ xs) = last_index_of_start s s' x xs

  pub Chain-last :
      (s : ℕ) (xs : List (LogEntry C)) → Chain s xs → last_index_of s xs ≡ s + length xs
  unfolding Chain last_index_of
  Chain-last s [] c = omega arith
  Chain-last s (x ∷ []) c = ground arith
  Chain-last s (x ∷ y ∷ xs) c =
      ground (arith, Chain-last (s + 1) (y ∷ xs) c.1, last_index_of_start s (s + 1) y xs)

  pub Chain-append :
      (s : ℕ) (xs : List (LogEntry C)) (y : LogEntry C)
      → Chain s xs
      → y.index ≡ s + length xs + 1
      → Chain s (xs ++ y ∷ [])
  unfolding Chain
  Chain-append s [] y c h = ground arith
  Chain-append s (x ∷ xs) y c h = (c.0, Chain-append (s + 1) xs y c.1 (ground arith))

  pub up_to-none : (s i : ℕ) (xs : List (LogEntry C)) → Chain s xs → i ≤ s → up_to i xs ≡ []
  unfolding Chain up_to
  up_to-none s i [] c h = refl
  up_to-none s i (x ∷ xs) c h = ground (arith, up_to-none (s + 1) i xs c.1 (omega arith))

  pub Chain-up_to : (s i : ℕ) (xs : List (LogEntry C)) → Chain s xs → Chain s (up_to i xs)
  unfolding Chain up_to
  Chain-up_to s i [] c = c
  Chain-up_to s i (x ∷ xs) c = elim (Bool-cases (leb x.index i)) [
    | inl h ↦ rw h (c.0, Chain-up_to (s + 1) i xs c.1)
    | inr h ↦ rw (h, up_to-none (s + 1) i xs c.1 (ground arith)) refl
  ]

  pub length-up_to :
      (s i : ℕ) (xs : List (LogEntry C))
      → Chain s xs
      → s ≤ i
      → i ≤ s + length xs
      → length (up_to i xs) ≡ i - s
  unfolding Chain up_to
  length-up_to s i [] c a b = ground arith
  length-up_to s i (x ∷ xs) c a b = elim (Bool-cases (leb x.index i)) [
    | inl h ↦ rw h (ground (arith, length-up_to (s + 1) i xs c.1 (ground arith) (ground arith)))
    | inr h ↦ rw (h, up_to-none (s + 1) i xs c.1 (ground arith)) (ground arith)
  ]

  pub find_entry-append :
      (i : ℕ) (xs : List (LogEntry C)) (y : LogEntry C)
      → y.index ≢ i
      → find_entry i (xs ++ y ∷ []) ≡ find_entry i xs
  unfolding find_entry
  find_entry-append i [] y h = ground arith
  find_entry-append i (x ∷ xs) y h = rw (find_entry-append i xs y h) refl

  pub find_entry-new :
      (s : ℕ) (xs : List (LogEntry C)) (y : LogEntry C)
      → Chain s xs
      → y.index ≡ s + length xs + 1
      → find_entry y.index (xs ++ y ∷ []) ≡ some y
  unfolding Chain find_entry
  find_entry-new s [] y c h = ground arith
  find_entry-new s (x ∷ xs) y c h =
      rw (==_ne x.index y.index (ground arith)) (find_entry-new (s + 1) xs y c.1 (ground arith))

  pub find_entry-up_to :
      (s i j : ℕ) (xs : List (LogEntry C))
      → Chain s xs
      → i ≤ j
      → find_entry i (up_to j xs) ≡ find_entry i xs
  unfolding Chain find_entry up_to
  find_entry-up_to s i j [] c h = refl
  find_entry-up_to s i j (x ∷ xs) c h = ground (arith, find_entry-up_to (s + 1) i j xs c.1 h)

  pub find_entry-below :
      (s i : ℕ) (xs : List (LogEntry C)) → Chain s xs → i ≤ s → find_entry i xs ≡ none
  unfolding Chain find_entry
  find_entry-below s i [] c h = refl
  find_entry-below s i (x ∷ xs) c h =
      rw (==_ne x.index i (ground arith)) (find_entry-below (s + 1) i xs c.1 (omega arith))
