-- ===== src/Promql/Names.antt =====
-- internal/promql/promql.go, SanitizeMetricName and checkMapForSanitizedMetricName.
use Prim.Native.Char.{Char, code}
use text.Mathlib.TextEquality.{Char-path}
use log_cache.Common.{
  ◌≡◌, ◌↔◌, refl, ap, sym, ◌∙◌, String, Bool, true, false, Option, none, some, List, [], ◌∷◌,
  if◌then◌else◌, leb, ◌==◌, ◌&&◌, ◌||◌, not, str_eq, arith,
}
use log_cache.Envelope.{GaugeValue}

abbrev underscore : Char
underscore = "_"

unfoldable pub is_letter : Char → Bool
is_letter c = (leb 65 (code c) && leb (code c) 90) || (leb 97 (code c) && leb (code c) 122)

unfoldable pub is_digit : Char → Bool
is_digit c = leb 48 (code c) && leb (code c) 57

-- The class [^A-z_] of the first alternative, which stands only at the text's start.
unfoldable pub no_start : Char → Bool
no_start c = not (leb 65 (code c) && leb (code c) 122) && not (code c == 95)

-- The class [\W_] of the second alternative. Its `+?` takes one character.
unfoldable pub no_word : Char → Bool
unfolding is_letter is_digit
no_word c = not (is_letter c || is_digit c)

unfoldable pub sanitize_rest : String → String
unfolding no_word
sanitize_rest String.[] = ""
sanitize_rest (String.◌∷◌ c s) = String.◌∷◌ (if no_word c then underscore else c) (sanitize_rest s)

unfoldable pub sanitize_metric_name : String → String
unfolding no_start no_word sanitize_rest
sanitize_metric_name String.[] = ""
sanitize_metric_name (String.◌∷◌ c s) =
    String.◌∷◌ (if no_start c || no_word c then underscore else c) (sanitize_rest s)

-- The range over the map stops at the first name that fits.
unfoldable pub check_map_for_sanitized_metric_name :
    List (String × GaugeValue) → String → Option GaugeValue
unfolding sanitize_metric_name
check_map_for_sanitized_metric_name [] metric = none
check_map_for_sanitized_metric_name ((k, v) ∷ m) metric =
    if str_eq (sanitize_metric_name k) metric
    then some v
    else check_map_for_sanitized_metric_name m metric

-- The names that Prometheus takes for a metric: [a-zA-Z_][a-zA-Z0-9_]*
unfoldable pub is_name_rest : String → Bool
is_name_rest String.[] = true
is_name_rest (String.◌∷◌ c s) = (is_letter c || is_digit c || (code c == 95)) && is_name_rest s

unfoldable pub is_metric_name : String → Bool
is_metric_name String.[] = false
is_metric_name (String.◌∷◌ c s) = (is_letter c || (code c == 95)) && is_name_rest s

kept_rest :
    (c : Char) (b : Bool)
    → b ≡ no_word c
    → (let d = if b then underscore else c in is_letter d || is_digit d || (code d == 95)) ≡ true
unfolding no_word is_letter is_digit
kept_rest c true e = refl
kept_rest c false e = ground arith

kept_start :
    (c : Char) (b : Bool)
    → b ≡ (no_start c || no_word c)
    → (let d = if b then underscore else c in is_letter d || (code d == 95)) ≡ true
unfolding no_start no_word is_letter is_digit
kept_start c true e = refl
kept_start c false e = ground arith

sanitize_rest-is_name_rest : (s : String) → is_name_rest (sanitize_rest s) ≡ true
unfolding sanitize_rest is_name_rest
sanitize_rest-is_name_rest String.[] = refl
sanitize_rest-is_name_rest (String.◌∷◌ c s) =
    rw (kept_rest c (no_word c) refl) (sanitize_rest-is_name_rest s)

is_name_rest-sanitize_rest : (s : String) → is_name_rest s ≡ true → sanitize_rest s ≡ s
unfolding sanitize_rest is_name_rest no_word is_letter is_digit
is_name_rest-sanitize_rest String.[] h = refl
is_name_rest-sanitize_rest (String.◌∷◌ c s) h =
    ground (arith, is_name_rest-sanitize_rest s, Char-path c underscore)

start_fixed :
    (c : Char) (s : String)
    → is_metric_name (String.◌∷◌ c s) ≡ true
    → sanitize_metric_name (String.◌∷◌ c s) ≡ String.◌∷◌ c s
unfolding sanitize_metric_name is_metric_name no_start no_word is_letter is_digit
start_fixed c s h = ground (arith, is_name_rest-sanitize_rest s, Char-path c underscore)

start_named :
    (c : Char) (s : String) → is_metric_name (sanitize_metric_name (String.◌∷◌ c s)) ≡ true
unfolding sanitize_metric_name is_metric_name
start_named c s = rw (kept_start c (no_start c || no_word c) refl) (sanitize_rest-is_name_rest s)

-- A text that is not empty becomes a metric name of Prometheus, and the texts that stay as they are
-- are just the metric names.
pub sanitize_metric_name_lem :
    (c : Char) (s : String)
    → (is_metric_name (sanitize_metric_name (String.◌∷◌ c s)) ≡ true)
      × ((sanitize_metric_name (String.◌∷◌ c s) ≡ String.◌∷◌ c s)
          ↔ (is_metric_name (String.◌∷◌ c s) ≡ true))
sanitize_metric_name_lem c s =
    (start_named c s, (λ e. ap is_metric_name (sym e) ∙ start_named c s, start_fixed c s))
