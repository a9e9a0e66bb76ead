-- ===== src/Promql/SelectTests.antt =====
-- Series and selections on concrete envelopes.
use log_cache.Common.{true}
use log_cache.Common.{
  ℕ, ◌+◌, ◌-◌, ◌*◌, ◌/◌, str_eq, eq_iff, ◌≡◌, ◌≢◌, ◌⊎◌, inl, inr, refl, String, false, none, some,
  List, [], ◌∷◌, if◌then◌else◌, lookup, insert, All, arith, zero64,
}
use log_cache.Envelope.{Envelope, counter}
use log_cache.Marshaler.{QueryResult}
use log_cache.Promql.Query.{
  Matcher, add_source_ids_from_label_matcher, match_equal, match_not_equal,
}
use log_cache.Promql.Query.Texts.{bars}
use log_cache.Promql.Names.{sanitize_metric_name}
use log_cache.Promql.Series.{Tags, Reading, get_series_id, join_tags, add_all, build_series_set}
use log_cache.Promql.Series.Groups.{lookup-add_all-new}
use log_cache.Promql.Series.Collision.{get_series_id-collides}
use log_cache.Promql.Select.{
  FloatCasts, ReadRequest, SelectError, select, value_of, reading_of, second,
}
use log_cache.Promql.Select.Readings.{Held, reading_of-labels}
use log_cache.Promql.Select.Reads.{Named}
use log_cache.Promql.Select.SourceIds.{Once}
use log_cache.Promql.Select.Requests.{recorder, requests_until, EndsFor, select-requests}
use mathlib.Core.Logic.{◌↔◌}
use log_cache.Promql.Query.{contains}
use log_cache.Promql.Series.{ConcreteSeries}
use log_cache.Promql.Engine.{
  ParseLib, Exec, done, ask, Answer, select_failed, instant_query, exec, parse_time,
  to_instant_query_result, scalar_value,
}
use log_cache.Promql.Engine.Failures.{SelectsSucceed, LastFailure, instant_query-SelectsSucceed}

-- Floats are their bits.
abbrev bits : FloatCasts ℕ
bits = record { of_uint64 = λ n. n; of_int64 = λ n. n; of_bits = λ n. n }

-- Keys come sorted.
abbrev unsorted : List String → List String
unsorted l = l

abbrev id_of : Tags → String
id_of = get_series_id unsorted

abbrev reading : ℕ → ℕ → Reading ℕ
reading t v = record { t = t; v = v }

abbrev rows : List (Tags × Reading ℕ)
rows =
    (("job", "api") ∷ [], reading 1 10)
    ∷ (("job", "web") ∷ [], reading 2 20)
    ∷ (("job", "api") ∷ [], reading 3 30)
    ∷ []

lookup-add_all-new_example :
    lookup "-job-api" (add_all id_of rows [])
    ≡ some (record { tags = ("job", "api") ∷ []; points = reading 1 10 ∷ reading 3 30 ∷ [] })
unfolding get_series_id join_tags lookup
lookup-add_all-new_example = lookup-add_all-new id_of "-job-api" rows

sanitized : sanitize_metric_name "9-http.req" ≡ "__http_req"
unfolding sanitize_metric_name
sanitized = refl

-- One and a half seconds after the epoch.
abbrev requests : Envelope
requests = record {
  timestamp = 9223372038354775808;
  source_id = "app-1";
  instance_id = "0";
  deprecated_tags = [];
  tags = ("job", "api") ∷ [];
  message = counter "http.req" 1 7;
}

abbrev requests_tags : Tags
requests_tags = ("job", "api") ∷ ("source_id", "app-1") ∷ ("instance_id", "0") ∷ []

taken :
    reading_of bits "http_req" (("job", "api") ∷ []) requests
    ≡ some (requests_tags, reading 9223372036854776808 7)
unfolding reading_of lookup insert
taken = refl

reading_of-labels_example :
    (lookup "source_id" requests_tags ≡ some "app-1")
    × All (Held requests_tags) (("job", "api") ∷ [])
    × (value_of bits "http_req" requests.message ≡ some 7)
    × ((sanitize_metric_name "http.req" ≡ "http_req") × (◌≡◌ {A = ℕ} 7 7))
    × (9223372036854776808 ≡ zero64 + (requests.timestamp - zero64) / second * 1000)
reading_of-labels_example =
    reading_of-labels bits "http_req" (("job", "api") ∷ []) requests
      (requests_tags, reading 9223372036854776808 7) (omega arith) (omega arith) taken

-- A store of two sources; it counts its reads.
unfoldable read_two : ReadRequest → ℕ → (String ⊎ List Envelope) × ℕ
read_two r n = (
  if str_eq r.source_id "app-1"
      then inr (requests ∷ [])
      else if str_eq r.source_id "app-2"
      then inr []
      else inl "gone",
  n + 1,
)

-- The same without its count.
abbrev answers_two : ReadRequest → String ⊎ List Envelope
answers_two r =
    if str_eq r.source_id "app-1"
    then inr (requests ∷ [])
    else if str_eq r.source_id "app-2"
    then inr []
    else inl "gone"

abbrev not_api : List Matcher
not_api =
    record { type_ = match_equal; name = "__name__"; value = "http_req" }
    ∷ record { type_ = match_equal; name = "source_id"; value = "app-1" }
    ∷ record { type_ = match_not_equal; name = "job"; value = "api" }
    ∷ []

-- The matcher job != "api" selects the series of the job api.
selected :
    select bits bars id_of read_two zero64 zero64 not_api 0
    ≡ (inr (record { labels = requests_tags; points = reading 9223372036854776808 7 ∷ [] } ∷ []), 1)
unfolding select read_two bars get_series_id add_source_ids_from_label_matcher lookup insert
selected = refl

differ : (k l : String) → str_eq k l ≡ false → k ≢ l
differ k l h = λ e. ground (arith, (eq_iff k l).1 e)

abbrev asked_two : (SelectError String ⊎ List (ConcreteSeries ℕ)) × List ReadRequest
asked_two = select bits bars id_of (recorder answers_two zero64 zero64) zero64 zero64 not_api []

select-requests_example :
    (ids : List String) × (metric : String) × Once ids
    × ((id : String) → Named bars not_api id ↔ (contains id ids ≡ true))
    × (asked_two.1 ≡ requests_until answers_two zero64 zero64 ids)
    × EndsFor answers_two zero64 zero64 metric ids asked_two.0
select-requests_example = select-requests answers_two zero64 zero64 bits bars id_of not_api

get_series_id-collides_example :
    (id_of (("a", "1-b-2") ∷ []) ≡ id_of (("a", "1") ∷ ("b", "2") ∷ []))
    × (build_series_set (
          add_all id_of
            ((("a", "1-b-2") ∷ [], reading 1 10)
              ∷ (("a", "1") ∷ ("b", "2") ∷ [], reading 1 20)
              ∷ [])
            [])
        ≡ record { labels = ("a", "1-b-2") ∷ []; points = reading 1 10 ∷ reading 1 20 ∷ [] } ∷ [])
get_series_id-collides_example =
    get_series_id-collides unsorted "a" "b" "1" "2" (differ "a" "b" refl) refl refl (reading 1 10)
      (reading 1 20)

abbrev whole_seconds : ParseLib ℕ ℕ
whole_seconds = record {
  parse_float = λ s. if str_eq s "2" then some 2 else none;
  times_1e9 = λ n. n * 1000000000;
  over_int64 = λ n. false;
  under_int64 = λ n. false;
  to_int64 = λ n. n;
  unix = λ n. n;
  parse_rfc3339 = λ s. none;
  parse_model_duration = λ s. none;
}

abbrev gone_matcher : List Matcher
gone_matcher = record { type_ = match_equal; name = "source_id"; value = "app-3" } ∷ []

-- A run that asks for a source that cannot be read, and makes a value of it all the same.
abbrev careless_run : Exec ℕ String String
careless_run = ask zero64 zero64 gone_matcher (λ answer. done (inr (scalar_value (reading 1 1))))

abbrev end_of : (failures : ℕ) → Answer String String (QueryResult ℕ) × ℕ × ℕ
end_of failures =
    instant_query bits bars id_of read_two whole_seconds (λ t. "t") (λ query t. some careless_run) 0
      "q" "2" failures 0

instant_query-SelectsSucceed_example :
    (SelectsSucceed bits bars id_of read_two careless_run 0
      × (end_of 4 ≡ (
        to_instant_query_result (λ t. "t") (exec bits bars id_of read_two careless_run none 0).0,
        4,
        (exec bits bars id_of read_two careless_run none 0).2,
      )))
    ⊎ ((e : SelectError String) × LastFailure bits bars id_of read_two careless_run 0 e
        × (end_of 4 ≡ (select_failed e, 5, (exec bits bars id_of read_two careless_run none 0).2)))
unfolding parse_time
instant_query-SelectsSucceed_example =
    instant_query-SelectsSucceed bits bars id_of read_two whole_seconds (λ t. "t")
      (λ query t. some careless_run) 0 2000000000 "q" "2" careless_run 4 0 (differ "2" "" refl) refl
      refl
