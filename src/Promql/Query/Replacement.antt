-- ===== src/Promql/Query/Replacement.antt =====
-- internal/promql/promql.go, ReplaceSourceIdSets: what a query names after a replacement.
use log_cache.Common.{
  ◌≡◌, ◌≢◌, refl, sym, ◌∙◌, subst, inl, inr, String, true, false, some, List, [], ◌∷◌, ◌++◌, All,
  All-append, All-mono, str_eq, lookup, length, ltb, arith, Bool-cases, >>=-eq-some,
}
use log_cache.Promql.Query.{
  MatchType, match_equal, match_not_equal, match_regexp, match_not_regexp, Matcher, SameNames,
  SameShape, BarLib, PromqlLib, ids_of_type, replace_by_type, matched_ids, visit_source_ids, Sets,
  set_expansions, replace_source_ids_in_equal_matcher, expand, replace_source_ids_in_regexp_matcher,
  replace_in_matcher, replace_in_matchers, visit_replacements, extract_source_ids,
  replace_source_id_sets,
}
use log_cache.Promql.Query.Extraction.{Names, visit-All, visit-Names-All}

some_injective {ℓ} : {A : Type ℓ} {a b : A} → some a ≡ some b → a ≡ b
some_injective e = cc

-- A replacement changes types and values only.
module _ (bar : BarLib) (sets : Sets bar) where
  replace_by_type-name :
      (t : MatchType) (m : Matcher) → (replace_by_type bar sets t m).name ≡ m.name
  unfolding replace_by_type replace_source_ids_in_equal_matcher replace_source_ids_in_regexp_matcher
      set_expansions
  replace_by_type-name match_equal m = ground arith
  replace_by_type-name match_regexp m = refl
  replace_by_type-name match_not_equal m = refl
  replace_by_type-name match_not_regexp m = refl

  replace_in_matcher-name : (m : Matcher) → (replace_in_matcher bar sets m).name ≡ m.name
  unfolding replace_in_matcher
  replace_in_matcher-name m = ground (arith, replace_by_type-name m.type_ m)

  replace_in_matchers-SameNames :
      (ms : List Matcher) → SameNames (replace_in_matchers bar sets ms) ms
  unfolding replace_in_matchers
  replace_in_matchers-SameNames [] = tt
  replace_in_matchers-SameNames (m ∷ ms) =
      (replace_in_matcher-name m, replace_in_matchers-SameNames ms)

  visit_replacements-SameShape :
      (l : List (List Matcher)) → SameShape (visit_replacements bar sets l) l
  unfolding visit_replacements
  visit_replacements-SameShape [] = tt
  visit_replacements-SameShape (ms ∷ l) =
      (replace_in_matchers-SameNames ms, visit_replacements-SameShape l)

module _ (bar : BarLib) (P : String → Type 0) where
  -- The id has a set, which is not empty, of ids with `P`.
  abbrev pub Good : Sets bar → String → Type 0
  Good sets id = (l : List String) × (lookup id sets ≡ some l) × (l ≢ []) × All P l

  expand-All :
      (sets : Sets bar) (ids : List String)
      → All (Good sets) ids
      → All P (expand bar sets ids) × ((ids ≢ []) → expand bar sets ids ≢ [])
  unfolding expand
  expand-All sets [] g = (tt, λ h e. h refl)
  expand-All sets (id ∷ ids) ((l, found, full, a), g) =
      rw (found) (All-append P l _ a (expand-All sets ids g).0, λ _. append_full l full)
    where
      append_full : (l : List String) → l ≢ [] → l ++ expand bar sets ids ≢ []
      append_full [] f e = f refl
      append_full (j ∷ l) f e = cc

  module _ (no_bars : (id : String) → P id → bar.has_bar id ≡ false) where
    -- One expansion makes an equality, more make a pattern that splits into them.
    set_expansions-Names :
        (l : List String) (m : Matcher)
        → l ≢ []
        → All P l
        → All P (matched_ids bar (set_expansions bar l m))
    unfolding matched_ids set_expansions
    set_expansions-Names [] m full a = absurd (full refl)
    set_expansions-Names (id ∷ []) m full a = rw (bar.join_one id) a
    set_expansions-Names (id ∷ j ∷ l) m full a =
        let more : ltb 1 (length (id ∷ j ∷ l)) ≡ true = ground arith in
        rw (more, bar.split-join (id ∷ j ∷ l) full (All-mono P _ no_bars (id ∷ j ∷ l) a)) a

    replace_by_type-Names :
        (sets : Sets bar) (t : MatchType) (m : Matcher)
        → m.type_ ≡ t
        → All (Good sets) (ids_of_type bar t m.value)
        → All P (matched_ids bar (replace_by_type bar sets t m))
    unfolding replace_by_type replace_source_ids_in_equal_matcher ids_of_type matched_ids
    replace_by_type-Names sets match_equal m e ((l, found, full, a), _) =
        let same : replace_source_ids_in_equal_matcher bar sets m ≡ set_expansions bar l m =
          rw (found, replace_source_ids_in_equal_matcher) refl in
        rw same (set_expansions-Names l m full a)
    replace_by_type-Names sets match_regexp m e g =
        let (a, full) = expand-All sets (bar.split m.value) g in
        set_expansions-Names (expand bar sets (bar.split m.value)) m
          (full (bar.split-ne-nil m.value)) a
    replace_by_type-Names sets match_not_equal m e g = rw (e, matched_ids) tt
    replace_by_type-Names sets match_not_regexp m e g = rw (e, matched_ids) tt

    replace_in_matcher-Names :
        (sets : Sets bar) (m : Matcher)
        → Names bar (Good sets) m
        → Names bar P (replace_in_matcher bar sets m)
    unfolding replace_in_matcher matched_ids
    replace_in_matcher-Names sets m g = elim (Bool-cases (str_eq m.name "source_id")) [
      | inr other ↦ rw (other, replace_in_matcher) (λ named. absurd (cc))
      | inl named ↦
          rw (named, replace_in_matcher) (λ _. replace_by_type-Names sets m.type_ m refl (g named))
    ]

    replace_in_matchers-Names :
        (sets : Sets bar) (ms : List Matcher)
        → All (Names bar (Good sets)) ms
        → All (Names bar P) (replace_in_matchers bar sets ms)
    unfolding replace_in_matchers
    replace_in_matchers-Names sets [] g = tt
    replace_in_matchers-Names sets (m ∷ ms) g =
        (replace_in_matcher-Names sets m g.0, replace_in_matchers-Names sets ms g.1)

    visit_replacements-Names :
        (sets : Sets bar) (l : List (List Matcher))
        → All (All (Names bar (Good sets))) l
        → All (All (Names bar P)) (visit_replacements bar sets l)
    unfolding visit_replacements
    visit_replacements-Names sets [] g = tt
    visit_replacements-Names sets (ms ∷ l) g =
        (replace_in_matchers-Names sets ms g.0, visit_replacements-Names sets l g.1)

    module _ (prom : PromqlLib) where
      -- If every source id that a query names has a set, not empty, of ids with a property, and no
      -- such id holds a "|", then the replacement of the sets gives a query, and every source id that
      -- this query names has the property.
      pub extract_source_ids-replace_source_id_sets :
          (sets : Sets bar) (query : String) (ids : List String)
          → extract_source_ids bar prom query ≡ some ids
          → All (Good sets) ids
          → (query' : String) × (ids' : List String) × (replace_source_id_sets bar prom query sets
              ≡ some query')
            × (extract_source_ids bar prom query' ≡ some ids')
            × All P ids'
      unfolding extract_source_ids replace_source_id_sets
      extract_source_ids-replace_source_id_sets sets query ids e g =
          let (expr, parsed, found) = >>=-eq-some (prom.parse_expr query) _ e in
          let l = prom.selectors expr in
          let good : All (Good sets) (visit_source_ids bar [] l) =
            subst (All (Good sets)) (sym (some_injective found)) g in
          let named = visit_replacements-Names sets l (visit-Names-All bar (Good sets) l good) in
          let expr' = prom.set_selectors expr (visit_replacements bar sets l) in
          let (expr'', again, kept) = prom.parse-print expr' in
          let sels : prom.selectors expr'' ≡ visit_replacements bar sets l =
            kept ∙ prom.selectors-set expr _ (visit_replacements-SameShape bar sets l) in
          (
            prom.print expr',
            visit_source_ids bar [] (prom.selectors expr''),
            rw parsed,
            rw again,
            visit-All bar P (prom.selectors expr'') [] (rw sels named) tt,
          )
