-- ===== src/Routing/Table/Lookups.antt =====
-- Lookup and LookupAll find the same nodes, whatever the order of the table's ranges.
use mathlib.Core.List.{Perm, Permᴰ, Perm-prop}
use mathlib.Core.List.Perm
use mathlib.Core.Logic.{∥∥₁_elim}
use log_cache.Common.{
  ℕ, zero, suc, ◌+◌, ◌<◌, ◌≡◌, refl, subst, String, none, some, List, [], ◌∷◌, arith, Bool-cases,
  Option-cases, inl, inr, length, drop, get_elem?,
}
use log_cache.Routing.Table.{
  RpcRange, RangeInfo, RoutingTable, outside, matching, lookup_item, find_range, all_matching,
  lookup_all, request_ranges, SortLib, set_ranges,
}

find_range-none : (h : ℕ) (l : List RangeInfo) → find_range h l ≡ none → matching h l ≡ []
unfolding find_range matching
find_range-none h [] e = refl
find_range-none h (r ∷ l) e = ground (arith, find_range-none h l)

-- The first match, and what is left behind it.
find_range-some :
    (h : ℕ) (l : List RangeInfo) (i : ℕ)
    → find_range h l ≡ some i
    → (r : RangeInfo) × (get_elem? l i ≡ some r)
      × (matching h l ≡ r.idx ∷ matching h (drop (suc i) l))
      × (length (drop (suc i) l) < length l)
unfolding find_range matching
find_range-some h [] i e = absurd (cc)
find_range-some h (r ∷ l) i e = elim (Bool-cases (outside h r)) [
  | inr inside ↦ let i0 : i ≡ 0 = ground arith in rw (i0, inside) (r, refl, refl, omega arith)
  | inl out ↦ elim (Option-cases (find_range h l)) [
    | inl missing ↦ absurd (ground arith)
    | inr (j, found) ↦
        let (q, at, split, less) = find_range-some h l j found in
        let ij : i ≡ suc j = ground arith in rw (ij, out) (q, at, split, omega arith)
  ]
]

all_matching-matching :
    (fuel h : ℕ) (l : List RangeInfo)
    → length l < fuel
    → all_matching fuel h l ≡ some (matching h l)
unfolding all_matching
all_matching-matching zero h l k = absurd (omega arith)
all_matching-matching (suc fuel) h l k = elim (Option-cases (find_range h l)) [
  | inl missing ↦ ground (arith, find_range-none h l missing)
  | inr (i, found) ↦
      let (r, at, split, less) = find_range-some h l i found in
      let step : i + 1 ≡ suc i = omega arith in
      ground (arith, split, at, step, all_matching-matching fuel h (drop (suc i) l) (omega arith))
]

-- LookupAll ends, and gives the same nodes as Lookup, in the same order.
pub lookup_all-lookup_item :
    (t : RoutingTable) (item : String) → lookup_all t item ≡ some (lookup_item t item)
unfolding lookup_all lookup_item
lookup_all-lookup_item t item =
    all_matching-matching (suc (length t.table)) (t.hasher item) t.table (omega arith)

matching-cons :
    (h : ℕ) (a : RangeInfo) (l m : List RangeInfo)
    → Perm (matching h l) (matching h m)
    → Perm (matching h (a ∷ l)) (matching h (a ∷ m))
unfolding matching
matching-cons h a l m p = elim (Bool-cases (outside h a)) [
  | inl out ↦ rw out p
  | inr inside ↦ rw inside (Perm.cons a.idx p)
]

matching-swap :
    (h : ℕ) (a b : RangeInfo) (l : List RangeInfo)
    → Perm (matching h (a ∷ b ∷ l)) (matching h (b ∷ a ∷ l))
unfolding matching
matching-swap h a b l = elim (Bool-cases (outside h a)) [
  | inl out ↦ rw out (Perm.refl _)
  | inr inside ↦ elim (Bool-cases (outside h b)) [
    | inl out ↦ rw (inside, out) (Perm.refl _)
    | inr both ↦ rw (inside, both) (Perm.swap b.idx a.idx (matching h l))
  ]
]

matching-permᴰ : (h : ℕ) {l m : List RangeInfo} → Permᴰ l m → Perm (matching h l) (matching h m)
matching-permᴰ h Permᴰ.nil = Perm.refl (matching h [])
matching-permᴰ h (Permᴰ.cons {a} {b} {l₁} {l₂} e p) =
    subst (λ c. Perm (matching h (a ∷ l₁)) (matching h (c ∷ l₂))) e
      (matching-cons h a l₁ l₂ (matching-permᴰ h p))
matching-permᴰ h (Permᴰ.swap {a} {b} {a'} {b'} {l} e f) =
    subst (λ c. Perm (matching h (a ∷ b ∷ l)) (matching h (a' ∷ c ∷ l))) e
      (subst (λ c. Perm (matching h (a ∷ b ∷ l)) (matching h (c ∷ a ∷ l))) f
        (matching-swap h a b l))
matching-permᴰ h (Permᴰ.trans p q) = Perm.trans (matching-permᴰ h p) (matching-permᴰ h q)

pub matching-perm : (h : ℕ) {l m : List RangeInfo} → Perm l m → Perm (matching h l) (matching h m)
matching-perm h p = ∥∥₁_elim p Perm-prop (matching-permᴰ h)

pub lookup_item-set_ranges_perm :
    (lib : SortLib) (req : List (String × List RpcRange)) (t : RoutingTable) (item : String)
    → Perm
        (lookup_item (set_ranges lib req t) item)
        (matching (t.hasher item) (request_ranges t.addrs req))
unfolding lookup_item set_ranges
lookup_item-set_ranges_perm lib req t item =
    matching-perm (t.hasher item) (lib.sort-perm (request_ranges t.addrs req))
