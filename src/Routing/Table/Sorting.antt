-- ===== src/Routing/Table/Sorting.antt =====
-- A sort that keeps the promises of sort.Sort.
use mathlib.Core.List.{Perm}
use mathlib.Core.List.Perm
use log_cache.Common.{
  ◌≡◌, true, false, List, [], ◌∷◌, All, All-mono, arith, if◌then◌else◌, Bool-cases, inl, inr,
}
use log_cache.Routing.Table.{RangeInfo, less, Ordered, SortLib}

unfoldable pub place : RangeInfo → List RangeInfo → List RangeInfo
place x [] = x ∷ []
place x (y ∷ l) = if less y x then y ∷ place x l else x ∷ y ∷ l

place-perm : (x : RangeInfo) (l : List RangeInfo) → Perm (place x l) (x ∷ l)
unfolding place
place-perm x [] = Perm.refl (x ∷ [])
place-perm x (y ∷ l) = elim (Bool-cases (less y x)) [
  | inl e ↦ rw e (Perm.trans (Perm.cons y (place-perm x l)) (Perm.swap x y l))
  | inr e ↦ rw e (Perm.refl _)
]

less_not : (x y : RangeInfo) → less y x ≡ true → less x y ≡ false
unfolding less
less_not x y e = ground arith

less_trans : (x y z : RangeInfo) → less y x ≡ false → less z y ≡ false → less z x ≡ false
unfolding less
less_trans x y z e f = ground arith

place-All :
    (P : RangeInfo → Type 0) (x : RangeInfo) (l : List RangeInfo)
    → P x
    → All P l
    → All P (place x l)
unfolding place
place-All P x [] h a = (h, tt)
place-All P x (y ∷ l) h a = ground (arith, place-All P x l h a.1)

place-Ordered : (x : RangeInfo) (l : List RangeInfo) → Ordered l → Ordered (place x l)
unfolding place
place-Ordered x [] o = (tt, tt)
place-Ordered x (y ∷ l) o = elim (Bool-cases (less y x)) [
  | inl e ↦ rw e (place-All (λ b. less b y ≡ false) x l (less_not x y e) o.0, place-Ordered x l o.1)
  | inr e ↦ rw e (
    (
      e,
      All-mono (λ b. less b y ≡ false) (λ b. less b x ≡ false) (λ b g. less_trans x y b e g) l o.0,
    ),
    o,
  )
]

unfoldable pub insertion_sort : List RangeInfo → List RangeInfo
unfolding place
insertion_sort [] = []
insertion_sort (x ∷ l) = place x (insertion_sort l)

pub insertion_sort-perm : (l : List RangeInfo) → Perm (insertion_sort l) l
unfolding insertion_sort
insertion_sort-perm [] = Perm.refl []
insertion_sort-perm (x ∷ l) =
    Perm.trans (place-perm x (insertion_sort l)) (Perm.cons x (insertion_sort-perm l))

pub insertion_sort-Ordered : (l : List RangeInfo) → Ordered (insertion_sort l)
unfolding insertion_sort
insertion_sort-Ordered [] = tt
insertion_sort-Ordered (x ∷ l) = place-Ordered x (insertion_sort l) (insertion_sort-Ordered l)

abbrev pub sorter : SortLib
sorter = record {
  sort = insertion_sort;
  sort-perm = insertion_sort-perm;
  sort_ordered = insertion_sort-Ordered;
}
