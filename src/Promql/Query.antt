-- ===== src/Promql/Query.antt =====
-- internal/promql/promql.go, from ExtractSourceIds on: the source ids that a query names, and their
-- replacement by sets of source ids.
pub mod Extraction
pub mod Replacement
pub mod Texts
use log_cache.Common.{
  ℕ, ◌≡◌, ◌≢◌, String, Bool, true, false, Option, none, some, ◌>>=◌, List, [], ◌∷◌, ◌++◌, All,
  if◌then◌else◌, str_eq, lookup, length, ltb,
}

-- The matchers of Prometheus' package labels.
pub data MatchType : Type 0 where
  match_equal match_not_equal match_regexp match_not_regexp : MatchType

pub record Matcher : Type 0 where
  pub type_ : MatchType
  pub name : String
  pub value : String

-- strings.Split and strings.Join at "|", and strings.Contains of it.
pub record BarLib : Type 0 where
  pub split : String → List String
  pub join : List String → String
  pub has_bar : String → Bool
  pub split-ne-nil : (s : String) → split s ≢ []
  pub join_one : (s : String) → join (s ∷ []) ≡ s
  pub split-join : (l : List String) → l ≢ [] → All (λ s. has_bar s ≡ false) l → split (join l) ≡ l

-- Matchers in the same places, with the same names.
abbrev pub SameNames : List Matcher → List Matcher → Type 0
SameNames [] [] = Unit
SameNames (m ∷ ms) (n ∷ ns) = (m.name ≡ n.name) × SameNames ms ns
SameNames [] (n ∷ ns) = ⊥
SameNames (m ∷ ms) [] = ⊥

abbrev pub SameShape : List (List Matcher) → List (List Matcher) → Type 0
SameShape [] [] = Unit
SameShape (ms ∷ l) (ns ∷ k) = SameNames ms ns × SameShape l k
SameShape [] (ns ∷ k) = ⊥
SameShape (ms ∷ l) [] = ⊥

-- Prometheus' parser: an expression, seen by the matchers of its vector and matrix selectors in the
-- order in which Walk visits them. They are shared with the expression, so that a change of them
-- changes it. What String prints parses to an expression with the same matchers.
pub record PromqlLib : Type 1 where
  pub Expr : Type 0
  pub parse_expr : String → Option Expr
  pub selectors : Expr → List (List Matcher)
  pub set_selectors : Expr → List (List Matcher) → Expr
  pub print : Expr → String
  pub selectors-set :
      (e : Expr) (l : List (List Matcher))
      → SameShape l (selectors e)
      → selectors (set_selectors e l) ≡ l
  pub parse-print :
      (e : Expr) → (e' : Expr) × (parse_expr (print e) ≡ some e') × (selectors e' ≡ selectors e)

-- A set of source ids, in the order in which a range gives it.
unfoldable pub contains : String → List String → Bool
contains id [] = false
contains id (j ∷ js) = if str_eq j id then true else contains id js

unfoldable pub add_id : String → List String → List String
unfolding contains
add_id id ids = if contains id ids then ids else ids ++ (id ∷ [])

unfoldable pub add_ids : List String → List String → List String
unfolding add_id
add_ids [] ids = ids
add_ids (id ∷ more) ids = add_ids more (add_id id ids)

module _ (bar : BarLib) where
  -- The ids of a matcher, whatever its name.
  unfoldable pub ids_of_type : MatchType → String → List String
  ids_of_type match_regexp value = bar.split value
  ids_of_type match_equal value = value ∷ []
  ids_of_type match_not_equal value = []
  ids_of_type match_not_regexp value = []

  unfoldable pub matched_ids : Matcher → List String
  unfolding ids_of_type
  matched_ids m = ids_of_type m.type_ m.value

  unfoldable pub add_source_ids_from_label_matcher : List String → Matcher → List String
  unfolding matched_ids add_ids
  add_source_ids_from_label_matcher ids m = add_ids (matched_ids m) ids

  unfoldable pub add_source_ids_from_matchers : List String → List Matcher → List String
  unfolding add_source_ids_from_label_matcher
  add_source_ids_from_matchers ids [] = ids
  add_source_ids_from_matchers ids (m ∷ ms) =
      add_source_ids_from_matchers
        (if str_eq m.name "source_id" then add_source_ids_from_label_matcher ids m else ids) ms

  -- The visits of the selectors.
  unfoldable pub visit_source_ids : List String → List (List Matcher) → List String
  unfolding add_source_ids_from_matchers
  visit_source_ids ids [] = ids
  visit_source_ids ids (ms ∷ rest) = visit_source_ids (add_source_ids_from_matchers ids ms) rest

  abbrev pub Sets : Type 0
  Sets = List (String × List String)

  -- Both replacements end alike.
  unfoldable pub set_expansions : List String → Matcher → Matcher
  set_expansions expansions m = record m {
    type_ = if ltb 1 (length expansions) then match_regexp else match_equal;
    value = bar.join expansions;
  }

  unfoldable pub replace_source_ids_in_equal_matcher : Sets → Matcher → Matcher
  unfolding set_expansions
  replace_source_ids_in_equal_matcher sets m = elim (lookup m.value sets) [
    | none ↦ m
    | some expansions ↦ set_expansions expansions m
  ]

  -- A missing key reads as nil.
  unfoldable pub expand : Sets → List String → List String
  expand sets [] = []
  expand sets (id ∷ ids) = (elim (lookup id sets) [ none ↦ [] | some l ↦ l ]) ++ expand sets ids

  unfoldable pub replace_source_ids_in_regexp_matcher : Sets → Matcher → Matcher
  unfolding set_expansions expand
  replace_source_ids_in_regexp_matcher sets m = set_expansions (expand sets (bar.split m.value)) m

  unfoldable pub replace_by_type : Sets → MatchType → Matcher → Matcher
  unfolding replace_source_ids_in_equal_matcher replace_source_ids_in_regexp_matcher
  replace_by_type sets match_equal m = replace_source_ids_in_equal_matcher sets m
  replace_by_type sets match_regexp m = replace_source_ids_in_regexp_matcher sets m
  replace_by_type sets match_not_equal m = m
  replace_by_type sets match_not_regexp m = m

  unfoldable pub replace_in_matcher : Sets → Matcher → Matcher
  unfolding replace_by_type
  replace_in_matcher sets m =
      if str_eq m.name "source_id" then replace_by_type sets m.type_ m else m

  unfoldable pub replace_in_matchers : Sets → List Matcher → List Matcher
  unfolding replace_in_matcher
  replace_in_matchers sets [] = []
  replace_in_matchers sets (m ∷ ms) = replace_in_matcher sets m ∷ replace_in_matchers sets ms

  unfoldable pub visit_replacements : Sets → List (List Matcher) → List (List Matcher)
  unfolding replace_in_matchers
  visit_replacements sets [] = []
  visit_replacements sets (ms ∷ rest) = replace_in_matchers sets ms ∷ visit_replacements sets rest

  module _ (prom : PromqlLib) where
    -- `none` is an error of the parser.
    unfoldable pub extract_source_ids : String → Option (List String)
    unfolding visit_source_ids
    extract_source_ids query = do
      expr ← prom.parse_expr query
      some (visit_source_ids [] (prom.selectors expr))

    unfoldable pub replace_source_id_sets : String → Sets → Option String
    unfolding visit_replacements
    replace_source_id_sets query sets = do
      expr ← prom.parse_expr query
      some (prom.print (prom.set_selectors expr (visit_replacements sets (prom.selectors expr))))
