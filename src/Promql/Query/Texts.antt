-- ===== src/Promql/Query/Texts.antt =====
-- Functions that keep the promises of BarLib, on texts, and of PromqlLib, on queries with one
-- matcher of a source id.
use Prim.Native.Char.{Char, code}
use Prim.Native.String.{String}
use log_cache.Common.{
  ◌≡◌, ◌≢◌, refl, ap, ◌∙◌, inl, inr, Bool, true, false, Option, none, some, List, [], ◌∷◌, All,
  if◌then◌else◌, ◌==◌, arith, Bool-cases,
}
use log_cache.Promql.Query.{
  MatchType, match_equal, match_not_equal, match_regexp, match_not_regexp, Matcher, SameShape,
  BarLib, PromqlLib,
}

abbrev bar : Char
bar = "|"

abbrev is_bar : Char → Bool
is_bar c = code c == 124

-- A character before the first part.
unfoldable pub on_first : Char → List String → List String
on_first c [] = (String.◌∷◌ c String.[]) ∷ []
on_first c (s ∷ l) = (String.◌∷◌ c s) ∷ l

unfoldable pub split_bars : String → List String
unfolding on_first
split_bars String.[] = String.[] ∷ []
split_bars (String.◌∷◌ c s) =
    let rest = split_bars s in if is_bar c then String.[] ∷ rest else on_first c rest

-- A text, a bar, and another text.
unfoldable pub bar_between : String → String → String
bar_between String.[] t = String.◌∷◌ bar t
bar_between (String.◌∷◌ c s) t = String.◌∷◌ c (bar_between s t)

unfoldable pub join_bars : List String → String
unfolding bar_between
join_bars [] = String.[]
join_bars (s ∷ []) = s
join_bars (s ∷ t ∷ l) = bar_between s (join_bars (t ∷ l))

unfoldable pub has_bar : String → Bool
has_bar String.[] = false
has_bar (String.◌∷◌ c s) = if is_bar c then true else has_bar s

pub split_bars-ne-nil : (s : String) → split_bars s ≢ []
unfolding split_bars on_first
split_bars-ne-nil String.[] = λ e. cc
split_bars-ne-nil (String.◌∷◌ c s) = elim (Bool-cases (is_bar c)) [
  | inl e ↦ rw e (λ h. cc)
  | inr e ↦ rw e (not_nil (split_bars s))
]
  where
    not_nil : (l : List String) → on_first c l ≢ []
    not_nil [] h = cc
    not_nil (t ∷ l) h = cc

split_bars_one : (s : String) → has_bar s ≡ false → split_bars s ≡ s ∷ []
unfolding split_bars on_first has_bar
split_bars_one String.[] h = refl
split_bars_one (String.◌∷◌ c s) h = ground (arith, split_bars_one s)

split_bars-bar_between :
    (s t : String) → has_bar s ≡ false → split_bars (bar_between s t) ≡ s ∷ split_bars t
unfolding split_bars on_first has_bar bar_between
split_bars-bar_between String.[] t h = refl
split_bars-bar_between (String.◌∷◌ c s) t h = ground (arith, split_bars-bar_between s t)

pub split_bars-join_bars :
    (l : List String) → l ≢ [] → All (λ s. has_bar s ≡ false) l → split_bars (join_bars l) ≡ l
unfolding join_bars
split_bars-join_bars [] f a = absurd (f refl)
split_bars-join_bars (s ∷ []) f a = split_bars_one s a.0
split_bars-join_bars (s ∷ t ∷ l) f a =
    split_bars-bar_between s (join_bars (t ∷ l)) a.0
    ∙ ap (◌∷◌ s) (split_bars-join_bars (t ∷ l) (λ e. cc) a.1)

unfoldable pub bars : BarLib
unfolding split_bars join_bars has_bar
bars = record {
  split = split_bars;
  join = join_bars;
  has_bar = has_bar;
  split-ne-nil = split_bars-ne-nil;
  join_one = λ s. refl;
  split-join = split_bars-join_bars;
}

-- A query is a mark for the type of the match, and the value.
abbrev pub One : Type 0
One = MatchType × String

unfoldable pub print_one : One → String
print_one (match_equal, v) = String.◌∷◌ "=" v
print_one (match_regexp, v) = String.◌∷◌ "~" v
print_one (match_not_equal, v) = String.◌∷◌ "!" v
print_one (match_not_regexp, v) = String.◌∷◌ "/" v

unfoldable pub parse_one : String → Option One
parse_one String.[] = none
parse_one (String.◌∷◌ c v) =
    if code c == 61
    then some (match_equal, v)
    else if code c == 126
    then some (match_regexp, v)
    else if code c == 33
    then some (match_not_equal, v)
    else some (match_not_regexp, v)

abbrev pub matchers_of : One → List (List Matcher)
matchers_of (t, v) = (record { type_ = t; name = "source_id"; value = v } ∷ []) ∷ []

unfoldable pub set_one : One → List (List Matcher) → One
set_one e ((m ∷ ms) ∷ l) = (m.type_, m.value)
set_one e ([] ∷ l) = e
set_one e [] = e

pub set_one_lem :
    (e : One) (l : List (List Matcher))
    → SameShape l (matchers_of e)
    → matchers_of (set_one e l) ≡ l
unfolding set_one
set_one_lem (t, v) [] h = elim h [ ]
set_one_lem (t, v) ([] ∷ l) h = elim h.0 [ ]
set_one_lem (t, v) ((m ∷ ms) ∷ (k ∷ l)) h = elim h.1 [ ]
set_one_lem (t, v) ((m ∷ (n ∷ ms)) ∷ []) h = elim h.0.1 [ ]
set_one_lem (t, v) ((m ∷ []) ∷ []) h = ground arith

pub parse_one-print_one : (e : One) → parse_one (print_one e) ≡ some e
unfolding parse_one print_one
parse_one-print_one (match_equal, v) = refl
parse_one-print_one (match_regexp, v) = refl
parse_one-print_one (match_not_equal, v) = refl
parse_one-print_one (match_not_regexp, v) = refl

unfoldable pub one_selector : PromqlLib
unfolding parse_one print_one set_one
one_selector = record {
  Expr = One;
  parse_expr = parse_one;
  selectors = matchers_of;
  set_selectors = set_one;
  print = print_one;
  selectors-set = set_one_lem;
  parse-print = λ e. (e, parse_one-print_one e, refl);
}
