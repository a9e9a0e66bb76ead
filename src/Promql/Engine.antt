-- ===== src/Promql/Engine.antt =====
-- internal/promql/promql.go, from InstantQuery to Querier, and internal/promql/parsing.go: a query
-- from its texts to its result.
pub mod Failures
use log_cache.Common.{
  ℕ, ◌+◌, ◌*◌, ◌%◌, ◌≡◌, ◌⊎◌, inl, inr, String, Bool, true, false, Option, none, some, List, [],
  ◌∷◌, if◌then◌else◌, str_eq, insert, zero64, word,
}
use log_cache.Envelope.{Envelope}
use log_cache.Marshaler.{
  Metric, Point, Sample, Series, QueryResult, scalar, vector, matrix, RangeResult, matrix_range,
}
use log_cache.Promql.Query.{BarLib, Matcher}
use log_cache.Promql.Series.{Tags, Reading, ConcreteSeries}
use log_cache.Promql.Select.{FloatCasts, ReadRequest, SelectError, select}

-- What the parsing calls of strconv, time and Prometheus: a float times 1e9, as an int64 or out of
-- its range; a time of RFC 3339; a duration; and time.Unix.
pub record ParseLib (Float Time : Type 0) : Type 0 where
  pub parse_float : String → Option Float
  pub times_1e9 : Float → Float
  pub over_int64 : Float → Bool
  pub under_int64 : Float → Bool
  pub to_int64 : Float → ℕ
  pub unix : ℕ → Time
  pub parse_rfc3339 : String → Option Time
  pub parse_model_duration : String → Option ℕ

module _ {Float Time : Type 0} (lib : ParseLib Float Time) where
  unfoldable pub parse_duration : String → Option ℕ
  parse_duration param = lib.parse_model_duration param

  unfoldable pub parse_step : String → Option ℕ
  unfolding parse_duration
  parse_step param = elim (lib.parse_float param) [
    | some step ↦
        let ns = lib.times_1e9 step in
        if lib.over_int64 ns
        then none
        else if lib.under_int64 ns
        then none
        else some (lib.to_int64 ns)
    | none ↦ parse_duration param
  ]

  unfoldable pub parse_time : String → Option Time
  parse_time param = elim (lib.parse_float param) [
    | some decimal ↦ some (lib.unix (lib.to_int64 (lib.times_1e9 decimal)))
    | none ↦ lib.parse_rfc3339 param
  ]

-- The values of Prometheus; `text_value` is a string, which log-cache does not know.
pub record PromSample (F : Type 0) : Type 0 where
  pub metric : Tags
  pub reading : Reading F

pub record PromSeries (F : Type 0) : Type 0 where
  pub metric : Tags
  pub points : List (Reading F)

pub data Value (F : Type 0) : Type 0 where
  scalar_value : Reading F → Value F
  vector_value : List (PromSample F) → Value F
  matrix_value : List (PromSeries F) → Value F
  text_value : String → Value F

-- A run of Prometheus' engine: it asks for series, for times in milliseconds, and goes on with
-- what it is given, until it has a value or an error.
pub data Exec (F E X : Type 0) : Type 0 where
  done : X ⊎ Value F → Exec F E X
  ask :
      (mint maxt : ℕ)
      → List Matcher
      → (SelectError E ⊎ List (ConcreteSeries F) → Exec F E X)
      → Exec F E X

-- How a query ends. `panicked` is the panic of the log at a value of another type.
pub data Answer (E X R : Type 0) : Type 0 where
  bad_time bad_step bad_query panicked : Answer E X R
  select_failed : SelectError E → Answer E X R
  query_failed : X → Answer E X R
  answered : R → Answer E X R

-- time.Unix(0, t*int64(time.Millisecond)), in nanoseconds
unfoldable pub from_millis : ℕ → ℕ
from_millis t = (t * 1000000 + zero64) % word

-- metric[m.Name] = m.Value, for each label
unfoldable pub labels_map : Tags → Tags → Tags
labels_map [] metric = metric
labels_map ((name, value) ∷ labels) metric = labels_map labels (insert name value metric)

module _ {F : Type 0} (format_promql_time : ℕ → String) where
  unfoldable pub to_point : Reading F → Point F
  to_point p = record { time = format_promql_time p.t; value = p.v }

  unfoldable pub to_points : List (Reading F) → List (Point F)
  unfolding to_point
  to_points [] = []
  to_points (p ∷ points) = to_point p ∷ to_points points

  unfoldable pub to_samples : List (PromSample F) → List (Sample F)
  unfolding to_point labels_map
  to_samples [] = []
  to_samples (s ∷ samples) =
      record { metric = some (labels_map s.metric []); point = to_point s.reading }
      ∷ to_samples samples

  unfoldable pub to_series : List (PromSeries F) → List (Series F)
  unfolding to_points labels_map
  to_series [] = []
  to_series (s ∷ series) =
      record { metric = some (labels_map s.metric []); points = to_points s.points }
      ∷ to_series series

  unfoldable pub to_instant_query_result : {E X : Type 0} → X ⊎ Value F → Answer E X (QueryResult F)
  unfolding to_point to_samples to_series
  to_instant_query_result (inl x) = query_failed x
  to_instant_query_result (inr (scalar_value p)) = answered (scalar (to_point p))
  to_instant_query_result (inr (vector_value l)) = answered (vector (to_samples l))
  to_instant_query_result (inr (matrix_value l)) = answered (matrix (to_series l))
  to_instant_query_result (inr (text_value s)) = panicked

  unfoldable pub to_range_query_result : {E X : Type 0} → X ⊎ Value F → Answer E X (RangeResult F)
  unfolding to_series
  to_range_query_result (inl x) = query_failed x
  to_range_query_result (inr (matrix_value l)) = answered (matrix_range (to_series l))
  to_range_query_result (inr (scalar_value p)) = panicked
  to_range_query_result (inr (vector_value l)) = panicked
  to_range_query_result (inr (text_value s)) = panicked

-- errf: nothing is recorded for a Select that succeeds.
unfoldable pub record_error :
    {E F : Type 0}
    → SelectError E ⊎ List (ConcreteSeries F)
    → Option (SelectError E)
    → Option (SelectError E)
record_error (inl e) closure = some e
record_error (inr series) closure = closure

-- Exec, with Select behind each question. The closure keeps the error of the last Select that
-- failed.
module _ {F E X S : Type 0} (casts : FloatCasts F) (bar : BarLib) (series_id : Tags → String)
    (read : ReadRequest → S → (E ⊎ List Envelope) × S) where
  unfoldable pub exec :
      Exec F E X → Option (SelectError E) → S → (X ⊎ Value F) × Option (SelectError E) × S
  unfolding select from_millis record_error
  exec (done r) closure s = (r, closure, s)
  exec (ask mint maxt ll rest) closure s =
      let (answer, s') =
        select casts bar series_id read (from_millis mint) (from_millis maxt) ll s in
      exec (rest answer) (record_error answer closure) s'

  -- The end of both queries, with the failure counter.
  unfoldable pub finish :
      {R : Type 0} → (X ⊎ Value F → Answer E X R) → Exec F E X → ℕ → S → Answer E X R × ℕ × S
  unfolding exec
  finish to_result run failures s =
      let (r, closure, s') = exec run none s in
      elim closure [
        | some e ↦ (select_failed e, failures + 1, s')
        | none ↦ (to_result r, failures, s')
      ]

  -- `now` is the time truncated to a second; the engine refuses a query that it cannot parse.
  unfoldable pub instant_query :
      {Float Time : Type 0}
      → ParseLib Float Time
      → (format_promql_time : ℕ → String)
      → (new_instant_query : String → Time → Option (Exec F E X))
      → (now : Time) (query time : String) → ℕ
      → S
      → Answer E X (QueryResult F) × ℕ × S
  unfolding finish to_instant_query_result parse_time
  instant_query lib format_promql_time new_instant_query now query time failures s =
      elim (if str_eq time "" then some now else parse_time lib time) [
        | none ↦ (bad_time, failures, s)
        | some t ↦ elim (new_instant_query query t) [
          | none ↦ (bad_query, failures, s)
          | some run ↦ finish (to_instant_query_result format_promql_time) run failures s
        ]
      ]

  unfoldable pub range_query :
      {Float Time : Type 0}
      → ParseLib Float Time
      → (format_promql_time : ℕ → String)
      → (new_range_query : String → Time → Time → ℕ → Option (Exec F E X))
      → (query start end step : String) → ℕ
      → S
      → Answer E X (RangeResult F) × ℕ × S
  unfolding finish to_range_query_result parse_time parse_step
  range_query lib format_promql_time new_range_query query start end step failures s =
      elim (parse_step lib step) [
        | none ↦ (bad_step, failures, s)
        | some interval ↦ elim (parse_time lib start) [
          | none ↦ (bad_time, failures, s)
          | some from ↦ elim (parse_time lib end) [
            | none ↦ (bad_time, failures, s)
            | some to ↦ elim (new_range_query query from to interval) [
              | none ↦ (bad_query, failures, s)
              | some run ↦ finish (to_range_query_result format_promql_time) run failures s
            ]
          ]
        ]
      ]
