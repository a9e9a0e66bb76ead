-- ===== src/Promql/Series/Groups.antt =====
-- internal/promql/promql.go, seriesSetBuilder: the readings that stand behind each series.
use log_cache.Common.{
  ◌≡◌, refl, ap, sym, ◌∙◌, inl, inr, String, Option, none, some, List, [], ◌∷◌, ◌++◌, if◌then◌else◌,
  str_eq, eq_iff, lookup, lookup-insert, keep, arith, Bool-cases, Option-cases,
}
use log_cache.Promql.Series.{Tags, Reading, SeriesData, SeriesSetBuilder, add, add_all}

module _ {F : Type 0} (series_id : Tags → String) where
  -- The readings of a series, in the order in which they came.
  abbrev pub readings_of : String → List (Tags × Reading F) → List (Tags × Reading F)
  readings_of id = keep (λ (d : Tags × Reading F). str_eq (series_id d.0) id)

module _ {F : Type 0} where
  abbrev pub only_points : List (Tags × Reading F) → List (Reading F)
  only_points [] = []
  only_points (d ∷ l) = d.1 ∷ only_points l

  -- One series: the tags of its first reading, and the points of all.
  abbrev pub grouped : List (Tags × Reading F) → Option (SeriesData F)
  grouped [] = none
  grouped (d ∷ l) = some (record { tags = d.0; points = d.1 ∷ only_points l })

  abbrev pub extended : Option (SeriesData F) → List (Tags × Reading F) → Option (SeriesData F)
  extended none l = grouped l
  extended (some d) l = some (record d { points = d.points ++ only_points l })

  append_nil : (l : List (Reading F)) → l ++ [] ≡ l
  append_nil [] = refl
  append_nil (x ∷ l) = ground (arith, append_nil l)

  append_assoc : (k l m : List (Reading F)) → (k ++ l) ++ m ≡ k ++ (l ++ m)
  append_assoc [] l m = refl
  append_assoc (x ∷ k) l m = ground (arith, append_assoc k l m)

  extended_nil : (o : Option (SeriesData F)) → extended o [] ≡ o
  extended_nil none = refl
  extended_nil (some d) = ap (λ p. some (record d { points = p })) (append_nil d.points)

  extended_cons :
      (o : Option (SeriesData F)) (r : Tags × Reading F) (l : List (Tags × Reading F))
      → extended (extended o (r ∷ [])) l ≡ extended o (r ∷ l)
  extended_cons none r l = refl
  extended_cons (some d) r l =
      ap (λ p. some (record d { points = p })) (append_assoc d.points (r.1 ∷ []) (only_points l))

module _ {F : Type 0} (series_id : Tags → String) where
  lookup-add :
      (id : String) (tags : Tags) (s : Reading F) (b : SeriesSetBuilder F)
      → lookup id (add series_id tags s b) ≡ (
          if str_eq (series_id tags) id
          then extended (lookup id b) ((tags, s) ∷ [])
          else lookup id b)
  unfolding add
  lookup-add id tags s b = elim (Option-cases (lookup (series_id tags) b)) [
    | inl new ↦
        rw (add, new, lookup-insert (series_id tags) id)
          (ground (arith, eq_iff (series_id tags) id, new))
    | inr (d, old) ↦
        rw (add, old, lookup-insert (series_id tags) id)
          (ground (arith, eq_iff (series_id tags) id, old))
  ]

  lookup-add_all :
      (id : String) (l : List (Tags × Reading F)) (b : SeriesSetBuilder F)
      → lookup id (add_all series_id l b) ≡ extended (lookup id b) (readings_of series_id id l)
  unfolding add_all
  lookup-add_all id [] b = sym (extended_nil (lookup id b))
  lookup-add_all id (r ∷ l) b =
      lookup-add_all id l (add series_id r.0 r.1 b)
      ∙ elim (Bool-cases (str_eq (series_id r.0) id)) [
        | inl same ↦ rw (lookup-add id, same) (extended_cons (lookup id b) r _)
        | inr other ↦ rw (lookup-add id, other) refl
      ]

  -- A series of a fresh builder holds exactly the readings with that series' id, in the order in
  -- which they were added, under the tags of the first of them; there is no other series.
  pub lookup-add_all-new :
      (id : String) (l : List (Tags × Reading F))
      → lookup id (add_all series_id l []) ≡ grouped (readings_of series_id id l)
  unfolding lookup
  lookup-add_all-new id l = lookup-add_all id l []
