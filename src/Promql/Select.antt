-- ===== src/Promql/Select.antt =====
-- internal/promql/promql.go, LogCacheQuerier.Select: the series behind a selector, read from the
-- store by source id.
pub mod Readings
pub mod Reads
pub mod Requests
pub mod SourceIds
use log_cache.Common.{
  ℕ, ◌+◌, ◌-◌, ◌*◌, ◌/◌, ◌%◌, ◌≡◌, ◌⊎◌, inl, inr, String, Bool, true, false, Option, none, some,
  ◌>>=◌, List, [], ◌∷◌, ◌++◌, if◌then◌else◌, ltb, str_eq, lookup, insert, zero64, word, sub64,
  div64,
}
use log_cache.Envelope.{
  Envelope, Message, EnvelopeType, gauge_type, counter_type, timer_type, unset, log, counter, gauge,
  timer, event,
}
use log_cache.Promql.Query.{BarLib, Matcher, add_source_ids_from_label_matcher}
use log_cache.Promql.Names.{sanitize_metric_name, check_map_for_sanitized_metric_name}
use log_cache.Promql.Series.{Tags, Reading, SeriesSetBuilder, ConcreteSeries, add, build_series_set}

-- The conversions to float64: from an uint64, from an int64, and from the bits of a gauge.
pub record FloatCasts (F : Type 0) : Type 0 where
  pub of_uint64 : ℕ → F
  pub of_int64 : ℕ → F
  pub of_bits : ℕ → F

pub record ReadRequest : Type 0 where
  pub source_id : String
  pub start_time : ℕ
  pub end_time : ℕ
  pub envelope_types : List EnvelopeType

-- The error of the querier itself, for the metric, or that of its reader.
pub data SelectError (E : Type 0) : Type 0 where
  no_source_id : String → SelectError E
  read_failed : E → SelectError E

-- The metric, the source ids, and the labels without the matchers' types.
pub record Selector : Type 0 where
  pub metric : String
  pub source_ids : List String
  pub ls : Tags

abbrev pub empty_selector : Selector
empty_selector = record { metric = ""; source_ids = []; ls = [] }

-- The loop's body for one matcher.
unfoldable pub sort_matcher : BarLib → Selector → Matcher → Selector
sort_matcher bar s m =
    if str_eq m.name "__name__"
    then record s { metric = m.value }
    else if str_eq m.name "source_id"
    then record s { source_ids = add_source_ids_from_label_matcher bar s.source_ids m }
    else record s { ls = s.ls ++ ((m.name, m.value) ∷ []) }

unfoldable pub sort_matchers : BarLib → Selector → List Matcher → Selector
unfolding sort_matcher
sort_matchers bar s [] = s
sort_matchers bar s (m ∷ ll) = sort_matchers bar (sort_matcher bar s m) ll

unfoldable pub has_labels : Tags → Tags → Bool
has_labels tags [] = true
has_labels tags ((name, value) ∷ ls) = elim (lookup name tags) [
  | none ↦ false
  | some v ↦ if str_eq v value then has_labels tags ls else false
]

-- Truncate(time.Second).UnixNano() of nanoseconds: the next multiple of a second below. The number
-- 2 ^ 63 that stands for 0 lacks `to_second` nanoseconds to a multiple.
abbrev pub second : ℕ
second = 1000000000

abbrev pub to_second : ℕ
to_second = 145224192

unfoldable pub truncate : ℕ → ℕ
truncate ns = ((ns + to_second) / second * second + word - to_second) % word

-- The tags, with the source's id and the instance's added.
unfoldable pub with_source : Envelope → Tags
with_source e =
    let tags = insert "source_id" e.source_id e.tags in
    if str_eq e.instance_id "" then tags else insert "instance_id" e.instance_id tags

module _ {F : Type 0} (casts : FloatCasts F) where
  unfoldable pub value_of : String → Message → Option F
  unfolding sub64 sanitize_metric_name check_map_for_sanitized_metric_name
  value_of metric (counter name delta total) =
      if str_eq (sanitize_metric_name name) metric then some (casts.of_uint64 total) else none
  value_of metric (gauge metrics) = elim (check_map_for_sanitized_metric_name metrics metric) [
    | none ↦ none
    | some v ↦ some (casts.of_bits v.value)
  ]
  value_of metric (timer name start stop) =
      if str_eq (sanitize_metric_name name) metric
      then some (casts.of_int64 (sub64 stop start))
      else none
  value_of metric unset = none
  value_of metric (log payload type_) = none
  value_of metric (event title body) = none

  -- The loop's body for one envelope.
  unfoldable pub reading_of : String → Tags → Envelope → Option (Tags × Reading F)
  unfolding has_labels value_of with_source truncate div64
  reading_of metric ls e = elim (value_of metric e.message) [
    | none ↦ none
    | some f ↦
        if has_labels e.tags ls
        then some (with_source e, record { t = div64 (truncate e.timestamp) 1000000; v = f })
        else none
  ]

  unfoldable pub add_readings :
      (series_id : Tags → String)
      → String
      → Tags
      → List Envelope
      → SeriesSetBuilder F
      → SeriesSetBuilder F
  unfolding reading_of add
  add_readings series_id metric ls [] b = b
  add_readings series_id metric ls (e ∷ batch) b = elim (reading_of metric ls e) [
    | none ↦ add_readings series_id metric ls batch b
    | some r ↦ add_readings series_id metric ls batch (add series_id r.0 r.1 b)
  ]

-- The times of the querier, in nanoseconds.
unfoldable pub request_for : (start end : ℕ) → String → ReadRequest
unfolding sub64
request_for start end source_id = record {
  source_id = source_id;
  start_time = sub64 start (zero64 + second);
  end_time = end;
  envelope_types = gauge_type ∷ counter_type ∷ timer_type ∷ [];
}

-- The early return on an error, which may be wrapped.
unfoldable pub and_then :
    {X Y A B S : Type 0} → (X → Y) → (X ⊎ A) × S → (A → S → (Y ⊎ B) × S) → (Y ⊎ B) × S
and_then wrap (inl e, s) rest = (inl (wrap e), s)
and_then wrap (inr a, s) rest = rest a s

-- `read` is the data reader, with the state behind it.
module _ {F E S : Type 0} (casts : FloatCasts F) (bar : BarLib) (series_id : Tags → String)
    (read : ReadRequest → S → (E ⊎ List Envelope) × S) where
  unfoldable pub read_each :
      (start end : ℕ) (metric : String) (ls : Tags)
      → List String
      → SeriesSetBuilder F
      → S
      → (SelectError E ⊎ SeriesSetBuilder F) × S
  unfolding add_readings request_for and_then
  read_each start end metric ls [] b s = (inr b, s)
  read_each start end metric ls (id ∷ ids) b s =
      and_then read_failed (read (request_for start end id) s) (λ batch s'.
        read_each start end metric ls ids (add_readings casts series_id metric ls batch b) s')

  unfoldable pub select_from :
      (start end : ℕ) (metric : String) (ls : Tags)
      → List String
      → S
      → (SelectError E ⊎ List (ConcreteSeries F)) × S
  unfolding read_each build_series_set and_then
  select_from start end metric ls [] s = (inl (no_source_id metric), s)
  select_from start end metric ls (id ∷ ids) s =
      and_then (λ e. e) (read_each start end metric ls (id ∷ ids) [] s)
        (λ b s'. (inr (build_series_set b), s'))

  unfoldable pub select :
      (start end : ℕ) → List Matcher → S → (SelectError E ⊎ List (ConcreteSeries F)) × S
  unfolding sort_matchers select_from
  select start end ll s =
      let sorted = sort_matchers bar empty_selector ll in
      select_from start end sorted.metric sorted.ls sorted.source_ids s
