-- ===== src/Promql/Series.antt =====
-- internal/promql/promql.go, from concreteSeriesSet to buildSeriesSet: the series that a query reads,
-- how they are built, and the iterator over one.
pub mod Groups
pub mod Iterator
pub mod Collision
use Prim.Native.String.{◌++◌ as str_append}
use log_cache.Common.{
  ℕ, zero, suc, ◌+◌, ◌-◌, ◌≤◌, ◌<◌, ◌≡◌, String, Bool, true, false, Option, none, some, List, [],
  ◌∷◌, ◌++◌, map, if◌then◌else◌, leb, ltb, lookup, insert, length, get_elem?,
}

abbrev pub Tags : Type 0
Tags = List (String × String)

-- The package's point: the time is an int64 of milliseconds, as Common/Int64 writes it.
pub record Reading (F : Type 0) : Type 0 where
  pub t : ℕ
  pub v : F

pub record SeriesData (F : Type 0) : Type 0 where
  pub tags : Tags
  pub points : List (Reading F)

-- The data of a builder, in the order in which a range gives it.
abbrev pub SeriesSetBuilder : Type 0 → Type 0
SeriesSetBuilder F = List (String × SeriesData F)

abbrev pub keys : Tags → List String
keys tags = map (λ d. d.0) tags

-- "-" + k + "-" + tags[k], for each key
unfoldable pub join_tags : Tags → List String → String
join_tags tags [] = ""
join_tags tags (k ∷ ks) = str_append "-" (
    str_append k (
      str_append "-"
        (str_append (elim (lookup k tags) [ none ↦ "" | some v ↦ v ]) (join_tags tags ks))))

-- `sort_strings` is sort.Strings.
unfoldable pub get_series_id : (sort_strings : List String → List String) → Tags → String
unfolding join_tags
get_series_id sort_strings tags = join_tags tags (sort_strings (keys tags))

module _ {F : Type 0} (series_id : Tags → String) where
  unfoldable pub add : Tags → Reading F → SeriesSetBuilder F → SeriesSetBuilder F
  add tags s b = elim (lookup (series_id tags) b) [
    | none ↦ insert (series_id tags) (record { tags = tags; points = s ∷ [] }) b
    | some d ↦ insert (series_id tags) (record d { points = d.points ++ (s ∷ []) }) b
  ]

  unfoldable pub add_all : List (Tags × Reading F) → SeriesSetBuilder F → SeriesSetBuilder F
  unfolding add
  add_all [] b = b
  add_all ((tags, s) ∷ l) b = add_all l (add tags s b)

-- A series: its labels, and its points. The labels are those of the tags.
pub record ConcreteSeries (F : Type 0) : Type 0 where
  pub labels : Tags
  pub points : List (Reading F)

module _ {F : Type 0} where
  unfoldable pub build_series_set : SeriesSetBuilder F → List (ConcreteSeries F)
  build_series_set [] = []
  build_series_set ((id, d) ∷ b) =
      record { labels = d.tags; points = d.points } ∷ build_series_set b

  -- The set's cursor: `cur` starts at 0, and At reads behind it. A read out of bounds panics.
  unfoldable pub next_series : ℕ → List (ConcreteSeries F) → Bool × ℕ
  next_series cur series = (ltb cur (length series), suc cur)

  unfoldable pub at_series : ℕ → List (ConcreteSeries F) → Option (ConcreteSeries F)
  at_series zero series = none
  at_series (suc cur) series = get_elem? series cur

-- sort.Search: the least index in [0..n) where a test holds that does not fail again behind it, or n.
pub record SearchLib : Type 0 where
  pub search : ℕ → (ℕ → Bool) → ℕ
  pub search-le : (n : ℕ) (f : ℕ → Bool) → search n f ≤ n
  pub search_least :
      (n : ℕ) (f : ℕ → Bool)
      → ((i j : ℕ) → i ≤ j → j < n → f i ≡ true → f j ≡ true)
      → ((i : ℕ) → i < search n f → f i ≡ false) × (search n f < n → f (search n f) ≡ true)

-- The iterator's cursor is one above the code's, which starts at -1.
module _ {F : Type 0} (points : List (Reading F)) where
  unfoldable pub new_iterator : ℕ
  new_iterator = 0

  unfoldable pub next : ℕ → Bool × ℕ
  next cur = (ltb cur (length points), suc cur)

  unfoldable pub at : ℕ → Option (Reading F)
  at zero = none
  at (suc cur) = get_elem? points cur

  abbrev pub reaches : ℕ → ℕ → Bool
  reaches t n = elim (get_elem? points n) [ none ↦ false | some p ↦ leb t p.t ]

  unfoldable pub seek : SearchLib → ℕ → Bool × ℕ
  seek lib t =
      let cur = lib.search (length points) (reaches t) in (ltb cur (length points), suc cur)
