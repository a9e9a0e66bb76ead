-- ===== src/Store/Expire/Heap.antt =====
-- Go's container/heap over an ExpirationHeap: what it promises, and an implementation that keeps
-- the promises.
use mathlib.Core.List.{Perm}
use mathlib.Core.List.Perm
use log_cache.Common.{
  ℕ, ◌≤◌, ◌≡◌, refl, String, Option, none, some, List, [], ◌∷◌, All, All-mono, arith, ltb,
  if◌then◌else◌, Bool-cases, inl, inr,
}

-- storageExpiration; its tree is the one that stands under `source_id` in the index.
pub record Expiration : Type 0 where
  pub timestamp : ℕ
  pub source_id : String

-- Push and Pop of container/heap with the methods of ExpirationHeap, which compares timestamps.
-- Pop of an empty heap panics.
pub record HeapLib : Type 1 where
  pub IsHeap : List Expiration → Type 0
  pub push : Expiration → List Expiration → List Expiration
  pub pop : List Expiration → Option (Expiration × List Expiration)
  pub nil-IsHeap : IsHeap []
  pub push-IsHeap : (x : Expiration) (h : List Expiration) → IsHeap h → IsHeap (push x h)
  pub push-perm : (x : Expiration) (h : List Expiration) → Perm (push x h) (x ∷ h)
  pub pop-nil : pop [] ≡ none
  pub pop_least :
      (x : Expiration) (h : List Expiration)
      → IsHeap (x ∷ h)
      → (m : Expiration) × (rest : List Expiration) × (pop (x ∷ h) ≡ some (m, rest))
        × Perm (x ∷ h) (m ∷ rest)
        × All (λ y. m.timestamp ≤ y.timestamp) rest
        × IsHeap rest

-- A list in order is a heap.
abbrev pub InOrder : List Expiration → Type 0
InOrder [] = Unit
InOrder (x ∷ h) = All (λ y. x.timestamp ≤ y.timestamp) h × InOrder h

unfoldable pub place : Expiration → List Expiration → List Expiration
place x [] = x ∷ []
place x (y ∷ h) = if ltb y.timestamp x.timestamp then y ∷ place x h else x ∷ y ∷ h

pub place-perm : (x : Expiration) (h : List Expiration) → Perm (place x h) (x ∷ h)
unfolding place
place-perm x [] = Perm.refl (x ∷ [])
place-perm x (y ∷ h) = elim (Bool-cases (ltb y.timestamp x.timestamp)) [
  | inl e ↦ rw e (Perm.trans (Perm.cons y (place-perm x h)) (Perm.swap x y h))
  | inr e ↦ rw e (Perm.refl _)
]

place-All :
    (n : ℕ) (x : Expiration) (h : List Expiration)
    → n ≤ x.timestamp
    → All (λ y. n ≤ y.timestamp) h
    → All (λ y. n ≤ y.timestamp) (place x h)
unfolding place
place-All n x [] k a = (k, tt)
place-All n x (y ∷ h) k a = ground (arith, place-All n x h k a.1)

All-le :
    (m n : ℕ) (h : List Expiration)
    → m ≤ n
    → All (λ y. n ≤ y.timestamp) h
    → All (λ y. m ≤ y.timestamp) h
All-le m n h k = All-mono (λ y. n ≤ y.timestamp) (λ y. m ≤ y.timestamp) (λ y g. omega arith) h

pub place-InOrder : (x : Expiration) (h : List Expiration) → InOrder h → InOrder (place x h)
unfolding place
place-InOrder x [] s = (tt, tt)
place-InOrder x (y ∷ h) s =
    ground
      (arith, place-InOrder x h s.1, place-All y.timestamp x h, All-le x.timestamp y.timestamp h)

take_first : List Expiration → Option (Expiration × List Expiration)
take_first [] = none
take_first (x ∷ h) = some (x, h)

unfoldable pub ordered : HeapLib
unfolding place take_first
ordered = record {
  IsHeap = InOrder;
  push = place;
  pop = take_first;
  nil-IsHeap = tt;
  push-IsHeap = place-InOrder;
  push-perm = place-perm;
  pop-nil = refl;
  pop_least = λ x h s. (x, h, refl, Perm.refl (x ∷ h), s.0, s.1);
}
