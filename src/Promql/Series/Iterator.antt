-- ===== src/Promql/Series/Iterator.antt =====
-- internal/promql/promql.go, concreteSeriesIterator: where Seek and Next leave the cursor.
use log_cache.Common.{
  ℕ, zero, suc, ◌+◌, ◌≤◌, ◌<◌, ◌≡◌, sym, refl, Bool-cases, ◌⊎◌, inl, inr, ◌∙◌, Bool, true, false,
  none, some, List, [], ◌∷◌, leb, ltb, leb→le, length, get_elem?, arith, not_leb→lt, ap, ltb→lt,
  not_ltb→le,
}
use log_cache.Promql.Series.{Reading, SearchLib, reaches, at, seek}

reached : (t u : ℕ) → t ≤ u → leb t u ≡ true
reached t u h = ground arith

module _ {F : Type 0} where
  -- Readings in the order of their times, from a time on.
  abbrev pub FromOn : ℕ → List (Reading F) → Type 0
  FromOn t [] = Unit
  FromOn t (p ∷ l) = (t ≤ p.t) × FromOn p.t l

  reaches-FromOn :
      (s t : ℕ) (l : List (Reading F)) (j : ℕ)
      → t ≤ s
      → FromOn s l
      → j < length l
      → reaches l t j ≡ true
  reaches-FromOn s t [] j le h lt = absurd (omega arith)
  reaches-FromOn s t (p ∷ l) zero le h lt = reached t p.t (omega (arith, h.0))
  reaches-FromOn s t (p ∷ l) (suc j) le h lt =
      reaches-FromOn p.t t l j (omega (arith, h.0)) h.1 (omega arith)

  reaches_mono :
      (s t : ℕ) (l : List (Reading F))
      → FromOn s l
      → (i j : ℕ) → i ≤ j
      → j < length l
      → reaches l t i ≡ true
      → reaches l t j ≡ true
  reaches_mono s t [] h i j le lt r = absurd (omega arith)
  reaches_mono s t (p ∷ l) h zero zero le lt r = r
  reaches_mono s t (p ∷ l) h zero (suc j) le lt r =
      reaches-FromOn p.t t l j (leb→le t p.t r) h.1 (omega arith)
  reaches_mono s t (p ∷ l) h (suc i) zero le lt r = absurd (omega arith)
  reaches_mono s t (p ∷ l) h (suc i) (suc j) le lt r =
      reaches_mono p.t t l h.1 i j (omega arith) (omega arith) r

  -- A cursor on the first reading that is no earlier than a time, or behind the last reading.
  unfoldable pub StandsAt : List (Reading F) → ℕ → Bool → ℕ → Type 0
  StandsAt l t found cur =
      ((i : ℕ) (p : Reading F) → i + 1 < cur → get_elem? l i ≡ some p → p.t < t)
      × (((found ≡ true) × ((p : Reading F) × (at l cur ≡ some p) × (t ≤ p.t)))
          ⊎ ((found ≡ false) × (cur ≡ length l + 1)))

  get_elem?_of :
      (l : List (Reading F)) (i : ℕ) → i < length l → (p : Reading F) × (get_elem? l i ≡ some p)
  get_elem?_of [] i lt = absurd (omega arith)
  get_elem?_of (p ∷ l) zero lt = (p, refl)
  get_elem?_of (p ∷ l) (suc i) lt = get_elem?_of l i (omega arith)

  reaches-at :
      (l : List (Reading F)) (t i : ℕ) (p : Reading F)
      → get_elem? l i ≡ some p
      → leb t p.t ≡ reaches l t i
  reaches-at l t i p e = sym (ap (λ o. elim o [ none ↦ false | some q ↦ leb t q.t ]) e)

  -- Let the readings be in the order of their times. Then Seek leaves the cursor on the first
  -- reading that is no earlier than the time asked for, and says so; where there is none it leaves
  -- the cursor behind the last reading, and says that.
  pub seek-StandsAt :
      (lib : SearchLib) (s t : ℕ) (l : List (Reading F))
      → FromOn s l
      → StandsAt l t (seek l lib t).0 (seek l lib t).1
  unfolding seek at StandsAt
  seek-StandsAt lib s t l h =
      let least = lib.search_least (length l) (reaches l t) (reaches_mono s t l h) in
      let cur = lib.search (length l) (reaches l t) in
      (
        λ i p lt e. not_leb→lt t p.t (reaches-at l t i p e ∙ least.0 i (omega arith)),
        elim (Bool-cases (ltb cur (length l))) [
          | inl found ↦
              let inside = ltb→lt cur (length l) found in
              let (p, e) = get_elem?_of l cur inside in
              inl (found, (p, e, leb→le t p.t (reaches-at l t cur p e ∙ least.1 inside)))
          | inr missed ↦ inr (
            missed,
            omega (arith, lib.search-le (length l) (reaches l t), not_ltb→le cur (length l) missed),
          )
        ],
      )
