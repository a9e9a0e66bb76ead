-- ===== src/Common/Dict.antt =====
-- Go maps with text keys as association lists, in the order in which a `range` visits them. That
-- order is not specified by Go: the theorems hold for every list.
use mathlib.Core.List.{map, Perm}
use mathlib.Core.List.Perm
use Prim.Native.String.{String}
use mathlib.Core.Path.{◌≡◌, refl}
use mathlib.Core.List.{List, [], ◌∷◌}
use mathlib.Core.Option.{Option, none, some}
use native.Mathlib.Omega.{arith}
use Prim.Native.Nat.{ℕ, ◌+◌}
use mathlib.Core.Path.{subst}
use mathlib.Core.Logic.{inl, inr}
use log_cache.Common.Lists.{All, All-mono}
use log_cache.Common.Tests.{if◌then◌else◌, Bool-cases}
use text.Mathlib.Text.{◌==◌ as str_eq}
use text.Mathlib.TextEquality.{eq_iff}

module _ {ℓ} {V : Type ℓ} where
  -- m[k], and whether k is present
  unfoldable pub lookup : String → List (String × V) → Option V
  lookup key [] = none
  lookup key ((other, found) ∷ m) = if str_eq other key then some found else lookup key m

  -- m[k] = v
  unfoldable pub insert : String → V → List (String × V) → List (String × V)
  insert key value [] = (key, value) ∷ []
  insert key value ((other, old) ∷ m) =
      if str_eq other key then (key, value) ∷ m else (other, old) ∷ insert key value m

  -- delete(m, k)
  unfoldable pub delete : String → List (String × V) → List (String × V)
  delete k [] = []
  delete k ((j, w) ∷ m) = if str_eq j k then m else (j, w) ∷ delete k m

  -- A key stands once.
  abbrev pub Distinct : List (String × V) → Type ℓ
  Distinct [] = Unit
  Distinct ((k, v) ∷ m) = (lookup k m ≡ none) × Distinct m

  pub lookup-insert :
      (key asked : String) (new : V) (dict : List (String × V))
      → lookup asked (insert key new dict)
        ≡ (if str_eq key asked then some new else lookup asked dict)
  unfolding lookup insert
  lookup-insert key asked new [] = refl
  lookup-insert key asked new (entry ∷ dict) = ground (
    arith,
    lookup-insert key asked new dict,
    eq_iff entry.0 asked,
    eq_iff entry.0 key,
    eq_iff key asked,
  )

  pub insert-insert :
      (k : String) (v w : V) (m : List (String × V)) → insert k v (insert k w m) ≡ insert k v m
  unfolding insert
  insert-insert k v w [] = ground (arith, eq_iff k k)
  insert-insert k v w ((i, u) ∷ m) = ground (arith, eq_iff k k, eq_iff i k, insert-insert k v w m)

  pub lookup-delete :
      (k j : String) (m : List (String × V))
      → Distinct m
      → lookup j (delete k m) ≡ (if str_eq k j then none else lookup j m)
  unfolding lookup delete
  lookup-delete k j [] d = ground arith
  lookup-delete k j ((i, w) ∷ m) d =
      ground (arith, eq_iff k j, eq_iff i k, eq_iff i j, lookup-delete k j m d.1)

  pub insert-Distinct :
      (k : String) (v : V) (m : List (String × V)) → Distinct m → Distinct (insert k v m)
  unfolding lookup insert
  insert-Distinct k v [] d = (refl, tt)
  insert-Distinct k v ((i, w) ∷ m) d =
      ground (arith, eq_iff i k, eq_iff k i, lookup-insert k i v m, insert-Distinct k v m d.1)

  pub delete-Distinct : (k : String) (m : List (String × V)) → Distinct m → Distinct (delete k m)
  unfolding lookup delete
  delete-Distinct k [] d = tt
  delete-Distinct k ((i, w) ∷ m) d =
      ground (arith, eq_iff i k, eq_iff k i, lookup-delete k i m d.1, delete-Distinct k m d.1)

module _ {ℓ κ} {V : Type ℓ} (P : String × V → Type κ) where
  pub All-insert :
      (k : String) (v : V) (m : List (String × V)) → P (k, v) → All P m → All P (insert k v m)
  unfolding insert
  All-insert k v [] h a = (h, tt)
  All-insert k v ((j, w) ∷ m) h a = ground (arith, All-insert k v m h a.1)

  pub All-delete : (k : String) (m : List (String × V)) → All P m → All P (delete k m)
  unfolding delete
  All-delete k [] a = tt
  All-delete k ((j, w) ∷ m) a = ground (arith, All-delete k m a.1)

  pub All-lookup :
      (k : String) {v : V} (m : List (String × V)) → All P m → lookup k m ≡ some v → P (k, v)
  unfolding lookup
  All-lookup k [] a e = cc
  All-lookup k {v} ((j, w) ∷ m) a e = elim (Bool-cases (str_eq j k)) [
    | inl same ↦ subst (λ (d : String × V). P d) (ground (arith, eq_iff j k)) a.0
    | inr other ↦ All-lookup k m a.1 (ground arith)
  ]

-- The sum of a measure over the values.
module _ {ℓ} {V : Type ℓ} (size : V → ℕ) where
  unfoldable pub total : List (String × V) → ℕ
  total [] = 0
  total ((k, v) ∷ m) = size v + total m

  pub total-insert_old :
      (k : String) (v w : V) (m : List (String × V))
      → lookup k m ≡ some w
      → total (insert k v m) + size w ≡ total m + size v
  unfolding total lookup insert
  total-insert_old k v u [] e = cc
  total-insert_old k v u ((j, w) ∷ m) e = ground (arith, total-insert_old k v u m)

  pub total-insert_new :
      (k : String) (v : V) (m : List (String × V))
      → lookup k m ≡ none
      → total (insert k v m) ≡ total m + size v
  unfolding total lookup insert
  total-insert_new k v [] e = omega arith
  total-insert_new k v ((j, w) ∷ m) e = ground (arith, total-insert_new k v m)

  pub total-delete :
      (k : String) (w : V) (m : List (String × V))
      → lookup k m ≡ some w
      → total (delete k m) + size w ≡ total m
  unfolding total lookup delete
  total-delete k u [] e = cc
  total-delete k u ((j, w) ∷ m) e = ground (arith, total-delete k u m)

-- The images of the entries, up to order.
module _ {ℓ} {V B : Type ℓ} (f : String × V → B) where
  pub map-delete-perm :
      (k : String) (v : V) (m : List (String × V))
      → lookup k m ≡ some v
      → Perm (map f m) (f (k, v) ∷ map f (delete k m))
  unfolding lookup delete
  map-delete-perm k v [] e = cc
  map-delete-perm k v ((j, w) ∷ m) e = elim (Bool-cases (str_eq j k)) [
    | inl same ↦ rw same (Perm.cons' (ground (arith, eq_iff j k)) (Perm.refl (map f m)))
    | inr other ↦ rw other (
        Perm.trans (Perm.cons (f (j, w)) (map-delete-perm k v m (ground arith)))
          (Perm.swap (f (k, v)) (f (j, w)) _))
  ]

  pub map-insert-perm :
      (k : String) (v w : V) (m : List (String × V))
      → lookup k m ≡ some w
      → Perm (map f (insert k v m)) (f (k, v) ∷ map f (delete k m))
  unfolding lookup insert delete
  map-insert-perm k v w [] e = cc
  map-insert-perm k v w ((j, u) ∷ m) e = elim (Bool-cases (str_eq j k)) [
    | inl same ↦ rw same (Perm.refl _)
    | inr other ↦ rw other (
        Perm.trans (Perm.cons (f (j, u)) (map-insert-perm k v w m (ground arith)))
          (Perm.swap (f (k, v)) (f (j, u)) _))
  ]

module _ {ℓ} {V : Type ℓ} where
  -- In a map each entry is found under its key.
  pub Distinct-lookup :
      (m : List (String × V)) → Distinct m → All (λ (e : String × V). lookup e.0 m ≡ some e.1) m
  unfolding lookup
  Distinct-lookup [] d = tt
  Distinct-lookup ((j, v) ∷ m) d = (
    ground (arith, eq_iff j j),
    All-mono (λ (e : String × V). lookup e.0 m ≡ some e.1)
        (λ (e : String × V). lookup e.0 ((j, v) ∷ m) ≡ some e.1)
        (λ e h. ground (arith, eq_iff j e.0)) m (Distinct-lookup m d.1),
  )
