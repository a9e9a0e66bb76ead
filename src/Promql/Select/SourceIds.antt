-- ===== src/Promql/Select/SourceIds.antt =====
-- internal/promql/promql.go, Select: the source ids that the matchers name, each once.
use mathlib.Core.Logic.Or
use mathlib.Core.Bool.{Bool-set}
use mathlib.Core.List.{Mem, mem-cons, not-mem-nil}
use log_cache.Common.{
  ◌≡◌, inl, inr, refl, String, true, false, List, [], ◌∷◌, ◌++◌, str_eq, eq_iff, arith, Bool-cases,
}
use log_cache.Promql.Query.{
  BarLib, Matcher, contains, add_id, add_ids, ids_of_type, matched_ids,
  add_source_ids_from_label_matcher,
}
use log_cache.Promql.Query.Extraction.{
  contains-All, contains-append, add_ids-contains, add_ids-contains-All,
}
use log_cache.Promql.Select.{Selector, sort_matcher, sort_matchers}
use log_cache.Promql.Select.Reads.{NamesId, Named}

-- No id stands twice in a list.
abbrev pub Once : List String → Type 0
Once [] = Unit
Once (id ∷ ids) = (contains id ids ≡ false) × Once ids

contains-snoc :
    (j id : String) (ids : List String)
    → contains j ids ≡ false
    → str_eq id j ≡ false
    → contains j (ids ++ (id ∷ [])) ≡ false
unfolding contains
contains-snoc j id ids h k = rw (contains-append j ids (id ∷ []), h, k) refl

Once-snoc :
    (id : String) (ids : List String) → contains id ids ≡ false → Once ids → Once (ids ++ (id ∷ []))
unfolding contains
Once-snoc id [] h o = (refl, tt)
Once-snoc id (j ∷ ids) h o = (
  contains-snoc j id ids o.0 (ground (arith, h, eq_iff j id, eq_iff id j)),
  Once-snoc id ids (ground (arith, h)) o.1,
)

add_ids-Once : (more ids : List String) → Once ids → Once (add_ids more ids)
unfolding add_ids add_id
add_ids-Once [] ids o = o
add_ids-Once (id ∷ more) ids o =
    add_ids-Once more (add_id id ids) (elim (Bool-cases (contains id ids)) [
      | inl old ↦ rw (old, add_id) o
      | inr new ↦ rw (new, add_id) (Once-snoc id ids new o)
    ])

pub sort_matchers-Once :
    (bar : BarLib) (s : Selector) (ms : List Matcher)
    → Once s.source_ids
    → Once (sort_matchers bar s ms).source_ids
unfolding sort_matchers sort_matcher add_source_ids_from_label_matcher
sort_matchers-Once bar s [] o = o
sort_matchers-Once bar s (m ∷ ms) o =
    sort_matchers-Once bar (sort_matcher bar s m) ms (elim (Bool-cases (str_eq m.name "__name__")) [
      | inl name ↦ rw name o
      | inr no_name ↦ elim (Bool-cases (str_eq m.name "source_id")) [
        | inl same ↦ rw (no_name, same) (add_ids-Once (matched_ids bar m) s.source_ids o)
        | inr other ↦ rw (no_name, other) o
      ]
    ])

Mem-contains : (id : String) (ids : List String) → Mem id ids → contains id ids ≡ true
unfolding contains
Mem-contains id [] k = absurd (not-mem-nil k)
Mem-contains id (j ∷ ids) k =
    Or.elim (Bool-set _ _) (mem-cons.0 k) (λ e. ground (arith, e, eq_iff j id))
      (λ k'. ground (arith, Mem-contains id ids k'))

-- What a matcher names is among its ids.
ids_of_type-contains :
    (bar : BarLib) (m : Matcher) (id : String)
    → NamesId bar m id
    → contains id (matched_ids bar m) ≡ true
unfolding matched_ids ids_of_type contains
ids_of_type-contains bar m id (name, inl (type, same)) =
    rw (type, same) (ground (arith, eq_iff m.value m.value))
ids_of_type-contains bar m id (name, inr (type, there)) =
    rw type (Mem-contains id (bar.split m.value) there)

sort_matcher-contains :
    (bar : BarLib) (s : Selector) (m : Matcher) (id : String)
    → contains id s.source_ids ≡ true
    → contains id (sort_matcher bar s m).source_ids ≡ true
unfolding sort_matcher add_source_ids_from_label_matcher
sort_matcher-contains bar s m id h = elim (Bool-cases (str_eq m.name "__name__")) [
  | inl name ↦ rw name h
  | inr no_name ↦ elim (Bool-cases (str_eq m.name "source_id")) [
    | inl same ↦ rw (no_name, same) (add_ids-contains (matched_ids bar m) s.source_ids id h)
    | inr other ↦ rw (no_name, other) h
  ]
]

sort_matchers-contains :
    (bar : BarLib) (s : Selector) (ms : List Matcher) (id : String)
    → contains id s.source_ids ≡ true
    → contains id (sort_matchers bar s ms).source_ids ≡ true
unfolding sort_matchers
sort_matchers-contains bar s [] id h = h
sort_matchers-contains bar s (m ∷ ms) id h =
    sort_matchers-contains bar (sort_matcher bar s m) ms id (sort_matcher-contains bar s m id h)

sort_matcher-NamesId :
    (bar : BarLib) (s : Selector) (m : Matcher) (id : String)
    → NamesId bar m id
    → contains id (sort_matcher bar s m).source_ids ≡ true
unfolding sort_matcher add_source_ids_from_label_matcher
sort_matcher-NamesId bar s m id n =
    let no_name : str_eq m.name "__name__" ≡ false =
      ground (arith, n.0, eq_iff m.name "__name__", eq_iff "source_id" "__name__") in
    let same : str_eq m.name "source_id" ≡ true = (eq_iff m.name "source_id").1 n.0 in
    let found =
      contains-All (λ i. contains i (add_ids (matched_ids bar m) s.source_ids) ≡ true) id
        (matched_ids bar m) (add_ids-contains-All (matched_ids bar m) s.source_ids)
        (ids_of_type-contains bar m id n) in
    rw (no_name, same) found

pub sort_matchers-Named :
    (bar : BarLib) (s : Selector) (ms : List Matcher) (id : String)
    → Named bar ms id
    → contains id (sort_matchers bar s ms).source_ids ≡ true
unfolding sort_matchers
sort_matchers-Named bar s [] id n = absurd n
sort_matchers-Named bar s (m ∷ ms) id (inl n) =
    sort_matchers-contains bar (sort_matcher bar s m) ms id (sort_matcher-NamesId bar s m id n)
sort_matchers-Named bar s (m ∷ ms) id (inr n) =
    sort_matchers-Named bar (sort_matcher bar s m) ms id n
