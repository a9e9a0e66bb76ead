-- ===== src/Tree/Entries.antt =====
-- A tree seen as the list of its entries in the order of an in-order walk.
use log_cache.Common.{
  ℕ, suc, ◌≤◌, ◌<◌, ◌≡◌, refl, Option, none, some, List, [], ◌∷◌, ◌++◌, arith, leb, ltb, ◌==◌,
  if◌then◌else◌, length, head?, All, All-mono,
}

-- avltree.Node: Key, Value, Children[0] and Children[1]. A nil node is a leaf.
pub data Tree {ℓ} (V : Type ℓ) : Type ℓ where
  leaf : Tree V
  node : (key : ℕ) (value : V) (left right : Tree V) → Tree V

module _ {V : Type 0} where
  unfoldable pub entries : Tree V → List (ℕ × V)
  entries leaf = []
  entries (node k v l r) = entries l ++ ((k, v) ∷ entries r)

  -- Keys rise strictly.
  abbrev pub Sorted : List (ℕ × V) → Type 0
  Sorted [] = Unit
  Sorted (e ∷ l) = All (λ d. e.0 < d.0) l × Sorted l

  unfoldable pub find : ℕ → List (ℕ × V) → Option V
  find k [] = none
  find k ((j, v) ∷ l) = if j == k then some v else find k l

  -- A new key goes to its place; an old one gets the new value.
  unfoldable pub upsert : ℕ → V → List (ℕ × V) → List (ℕ × V)
  upsert k v [] = (k, v) ∷ []
  upsert k v ((j, w) ∷ l) =
      if ltb k j then (k, v) ∷ (j, w) ∷ l else if j == k then (k, v) ∷ l else (j, w) ∷ upsert k v l

  unfoldable pub discard : ℕ → List (ℕ × V) → List (ℕ × V)
  discard k [] = []
  discard k ((j, w) ∷ l) = if j == k then l else (j, w) ∷ discard k l

  -- The entry with the greatest key that is not above `k`.
  unfoldable pub floor_entry : ℕ → List (ℕ × V) → Option (ℕ × V)
  floor_entry k [] = none
  floor_entry k (e ∷ l) = elim (floor_entry k l) [
    | none ↦ if leb e.0 k then some e else none
    | some d ↦ some d
  ]

  pub upsert-All :
      (P : ℕ × V → Type 0) (k : ℕ) (v : V) (l : List (ℕ × V))
      → P (k, v)
      → All P l
      → All P (upsert k v l)
  unfolding upsert
  upsert-All P k v [] h a = (h, tt)
  upsert-All P k v ((j, w) ∷ l) h a = ground (arith, upsert-All P k v l h a.1)

  pub discard-All : (P : ℕ × V → Type 0) (k : ℕ) (l : List (ℕ × V)) → All P l → All P (discard k l)
  unfolding discard
  discard-All P k [] a = tt
  discard-All P k ((j, w) ∷ l) a = ground (arith, discard-All P k l a.1)

  pub upsert-Sorted : (k : ℕ) (v : V) (l : List (ℕ × V)) → Sorted l → Sorted (upsert k v l)
  unfolding upsert
  upsert-Sorted k v [] s = (tt, tt)
  upsert-Sorted k v ((j, w) ∷ l) s = grind (
    arith,
    upsert-Sorted k v l s.1,
    upsert-All (λ d. j < d.0) k v l,
    λ (h : k < j). All-mono (λ (d : ℕ × V). j < d.0) (λ d. k < d.0) (λ d g. omega arith) l s.0,
  )

  pub discard-Sorted : (k : ℕ) (l : List (ℕ × V)) → Sorted l → Sorted (discard k l)
  unfolding discard
  discard-Sorted k [] s = tt
  discard-Sorted k ((j, w) ∷ l) s =
      ground (arith, discard-Sorted k l s.1, discard-All (λ d. j < d.0) k l s.0)

  pub length-upsert_new :
      (k : ℕ) (v : V) (l : List (ℕ × V)) → find k l ≡ none → length (upsert k v l) ≡ suc (length l)
  unfolding upsert find
  length-upsert_new k v [] h = refl
  length-upsert_new k v ((j, w) ∷ l) h = ground (arith, length-upsert_new k v l)

  pub length-upsert_bounds :
      (k : ℕ) (v : V) (l : List (ℕ × V))
      → (length l ≤ length (upsert k v l))
        × (length (upsert k v l) ≤ suc (length l))
        × (1 ≤ length (upsert k v l))
  unfolding upsert
  length-upsert_bounds k v [] = omega arith
  length-upsert_bounds k v ((j, w) ∷ l) = ground (arith, length-upsert_bounds k v l)

  pub discard_head : (k : ℕ) (v : V) (l : List (ℕ × V)) → discard k ((k, v) ∷ l) ≡ l
  unfolding discard
  discard_head k v l = ground arith

  pub find-upsert :
      (k j : ℕ) (v : V) (l : List (ℕ × V))
      → Sorted l
      → find j (upsert k v l) ≡ (if k == j then some v else find j l)
  unfolding find upsert
  find-upsert k j v [] s = refl
  find-upsert k j v ((i, w) ∷ l) s = ground (arith, find-upsert k j v l s.1)

-- What the package documents of its operations, on trees in the order of their keys. `left` and
-- `floor` return a node or nil.
pub record AvlTree (V : Type 0) : Type 0 where
  pub put : ℕ → V → Tree V → Tree V
  pub remove : ℕ → Tree V → Tree V
  pub get : ℕ → Tree V → Option V
  pub left : Tree V → Option (ℕ × V)
  pub floor : ℕ → Tree V → Option (ℕ × V)
  pub size : Tree V → ℕ
  pub entries-put :
      (k : ℕ) (v : V) (t : Tree V)
      → Sorted (entries t)
      → entries (put k v t) ≡ upsert k v (entries t)
  pub entries-remove :
      (k : ℕ) (t : Tree V) → Sorted (entries t) → entries (remove k t) ≡ discard k (entries t)
  pub get_lem : (k : ℕ) (t : Tree V) → Sorted (entries t) → get k t ≡ find k (entries t)
  pub left_lem : (t : Tree V) → Sorted (entries t) → left t ≡ head? (entries t)
  pub floor_lem : (k : ℕ) (t : Tree V) → Sorted (entries t) → floor k t ≡ floor_entry k (entries t)
  pub size_lem : (t : Tree V) → size t ≡ length (entries t)
