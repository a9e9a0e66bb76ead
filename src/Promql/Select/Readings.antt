-- ===== src/Promql/Select/Readings.antt =====
-- internal/promql/promql.go: what Select takes from an envelope.
use log_cache.Common.{
  ℕ, ◌+◌, ◌-◌, ◌*◌, ◌/◌, ◌%◌, List, sub64, ◌≤◌, ◌<◌, ◌≡◌, ◌≢◌, ◌⊎◌, inl, inr, refl, sym, ap, ◌∙◌,
  String, true, some, [], ◌∷◌, str_eq, eq_iff, subst, lookup, lookup-insert, zero64, word, div64,
  All, All-mono, arith, Bool-cases, Option-cases,
}
use mathlib.Core.List.{Mem, mem-cons_self, mem-cons_of_mem}
use log_cache.Promql.Names.{sanitize_metric_name, check_map_for_sanitized_metric_name}
use log_cache.Envelope.{Envelope, GaugeValue, Message, unset, log, counter, gauge, timer, event}
use log_cache.Promql.Series.{Tags, Reading}
use log_cache.Promql.Select.{
  FloatCasts, has_labels, truncate, second, value_of, with_source, reading_of,
}

-- From the epoch on, Truncate is exact: the number of whole seconds.
truncate_lem :
    (t : ℕ) → zero64 ≤ t → t < word → truncate t ≡ zero64 + (t - zero64) / second * second
unfolding truncate
truncate_lem t h lt = omega arith

milliseconds_of : (n : ℕ) → div64 (zero64 + n * second) 1000000 ≡ zero64 + n * 1000
unfolding div64
milliseconds_of n = ground arith

has_labels-All :
    (tags ls : Tags) → has_labels tags ls ≡ true → All (λ l. lookup l.0 tags ≡ some l.1) ls
unfolding has_labels
has_labels-All tags [] h = tt
has_labels-All tags ((name, value) ∷ ls) h = elim (Option-cases (lookup name tags)) [
  | inl n ↦ absurd (ground (arith))
  | inr (v, e) ↦ elim (Bool-cases (str_eq v value)) [
    | inl same ↦ (ground (arith, eq_iff v value), has_labels-All tags ls (ground arith))
    | inr other ↦ absurd (ground arith)
  ]
]

-- The tags of a series besides those of the source and of the instance.
abbrev IsOwn : String → Type 0
IsOwn name = (name ≢ "source_id") × (name ≢ "instance_id")

-- A label that tags hold with its value, or one of these two.
abbrev pub Held : Tags → String × String → Type 0
Held tags l = (lookup l.0 tags ≡ some l.1) ⊎ (l.0 ≡ "source_id") ⊎ (l.0 ≡ "instance_id")

lookup-with_source :
    (e : Envelope) (name : String) → IsOwn name → lookup name (with_source e) ≡ lookup name e.tags
unfolding with_source
lookup-with_source e name (s, i) = elim (Bool-cases (str_eq e.instance_id "")) [
  | inl gone ↦
      rw (gone, lookup-insert "source_id" name) (ground (arith, s, eq_iff "source_id" name))
  | inr there ↦
      rw (there, lookup-insert "instance_id" name, lookup-insert "source_id" name)
        (ground (arith, s, i, eq_iff "source_id" name, eq_iff "instance_id" name))
]

with_source-Held :
    (e : Envelope) (l : String × String) (tags : Tags)
    → with_source e ≡ tags
    → lookup l.0 e.tags ≡ some l.1
    → Held tags l
with_source-Held e l tags same k = elim (Bool-cases (str_eq l.0 "source_id")) [
  | inl source ↦ inr (inl ((eq_iff l.0 "source_id").0 source))
  | inr no_source ↦ elim (Bool-cases (str_eq l.0 "instance_id")) [
    | inl instance_ ↦ inr (inr ((eq_iff l.0 "instance_id").0 instance_))
    | inr no_instance ↦ inl (
        ap (lookup l.0) (sym same)
        ∙ lookup-with_source e l.0
            (ground (arith, eq_iff l.0 "source_id"), ground (arith, eq_iff l.0 "instance_id"))
        ∙ k)
  ]
]

source-with_source : (e : Envelope) → lookup "source_id" (with_source e) ≡ some e.source_id
unfolding with_source
source-with_source e = elim (Bool-cases (str_eq e.instance_id "")) [
  | inl gone ↦ rw (gone, lookup-insert "source_id" "source_id") refl
  | inr there ↦
      rw (there, lookup-insert "instance_id" "source_id", lookup-insert "source_id" "source_id")
        refl
]

-- What checkMapForSanitizedMetricName finds stands in the map under a name for the metric.
named_value :
    (metric : String) (m : List (String × GaugeValue)) (v : GaugeValue)
    → check_map_for_sanitized_metric_name m metric ≡ some v
    → (name : String) × Mem (name, v) m × (sanitize_metric_name name ≡ metric)
unfolding check_map_for_sanitized_metric_name
named_value metric [] v e = absurd (cc)
named_value metric ((k, w) ∷ m) v e = elim (Bool-cases (str_eq (sanitize_metric_name k) metric)) [
  | inl same ↦
      let it : w ≡ v = ground (arith, same) in
      (
        k,
        subst (λ u. Mem (k, u) ((k, w) ∷ m)) it mem-cons_self,
        (eq_iff (sanitize_metric_name k) metric).0 same,
      )
  | inr other ↦
      let (name, there, same) = named_value metric m v (ground (arith, other)) in
      (name, mem-cons_of_mem (k, w) there, same)
]

module _ {F : Type 0} (casts : FloatCasts F) where
  -- The value of a metric in a message: a counter's total, a gauge's value under a name for the
  -- metric, or the time from a timer's start to its stop as an int64. No other message has one.
  abbrev pub Measures : String → Message → F → Type 0
  Measures metric (counter name delta total) f =
      (sanitize_metric_name name ≡ metric) × (f ≡ casts.of_uint64 total)
  Measures metric (gauge metrics) f =
      (name : String) × (v : GaugeValue) × Mem (name, v) metrics
      × (sanitize_metric_name name ≡ metric)
      × (f ≡ casts.of_bits v.value)
  Measures metric (timer name start stop) f =
      (sanitize_metric_name name ≡ metric)
      × (f ≡ casts.of_int64 ((stop + word + zero64 - start) % word))
  Measures metric unset f = ⊥
  Measures metric (log payload type_) f = ⊥
  Measures metric (event title body) f = ⊥

  value_of-Measures :
      (metric : String) (m : Message) (f : F)
      → value_of casts metric m ≡ some f
      → Measures metric m f
  unfolding value_of sub64
  value_of-Measures metric (counter name delta total) f e =
      elim (Bool-cases (str_eq (sanitize_metric_name name) metric)) [
        | inl same ↦ ((eq_iff (sanitize_metric_name name) metric).0 same, ground (arith, same))
        | inr other ↦ absurd (ground (arith, other))
      ]
  value_of-Measures metric (gauge metrics) f e =
      elim (Option-cases (check_map_for_sanitized_metric_name metrics metric)) [
        | inl missing ↦ absurd (ground (arith, missing))
        | inr (v, found) ↦
            let (name, there, same) = named_value metric metrics v found in
            (name, v, there, same, ground (arith, found))
      ]
  value_of-Measures metric (timer name start stop) f e =
      elim (Bool-cases (str_eq (sanitize_metric_name name) metric)) [
        | inl same ↦ ((eq_iff (sanitize_metric_name name) metric).0 same, ground (arith, same))
        | inr other ↦ absurd (ground (arith, other))
      ]
  value_of-Measures metric unset f e = absurd (cc)
  value_of-Measures metric (log payload type_) f e = absurd (cc)
  value_of-Measures metric (event title body) f e = absurd (cc)

  reading_at : Envelope → F → Tags × Reading F
  reading_at e f = (with_source e, record { t = div64 (truncate e.timestamp) 1000000; v = f })

  reading_of-eq-some :
      (metric : String) (ls : Tags) (e : Envelope) (p : Tags × Reading F)
      → reading_of casts metric ls e ≡ some p
      → (has_labels e.tags ls ≡ true)
        × ((f : F) × (value_of casts metric e.message ≡ some f) × (reading_at e f ≡ p))
  unfolding reading_of reading_at
  reading_of-eq-some metric ls e p eq = elim (Option-cases (value_of casts metric e.message)) [
    | inl n ↦ absurd (ground (arith))
    | inr (f, v) ↦ elim (Bool-cases (has_labels e.tags ls)) [
      | inl has ↦ (has, (f, v, ground arith))
      | inr hasnt ↦ absurd (ground arith)
    ]
  ]

  milliseconds-truncate :
      (t : ℕ)
      → zero64 ≤ t
      → t < word
      → div64 (truncate t) 1000000 ≡ zero64 + (t - zero64) / second * 1000
  milliseconds-truncate t h lt =
      ap (λ n. div64 n 1000000) (truncate_lem t h lt) ∙ milliseconds_of ((t - zero64) / second)

  -- Let an envelope's time be from the epoch on. If Select takes a reading from it, then the tags
  -- of the series hold the envelope's source id, and each label of the selector with its value but
  -- for the labels source_id and instance_id; the reading's value is the one that the code takes for
  -- the metric, which is the total of a counter of that name, a value of a gauge under a name for the
  -- metric, or the time from start to stop of a timer of that name; and its time is the envelope's
  -- second, in milliseconds.
  pub reading_of-labels :
      (metric : String) (ls : Tags) (e : Envelope) (p : Tags × Reading F)
      → zero64 ≤ e.timestamp
      → e.timestamp < word
      → reading_of casts metric ls e ≡ some p
      → (lookup "source_id" p.0 ≡ some e.source_id)
        × All (Held p.0) ls
        × (value_of casts metric e.message ≡ some p.1.v)
        × Measures metric e.message p.1.v
        × (p.1.t ≡ zero64 + (e.timestamp - zero64) / second * 1000)
  unfolding reading_at
  reading_of-labels metric ls e p h lt eq =
      let (has, rest) = reading_of-eq-some metric ls e p eq in
      let (f, v, at) = rest in
      (
        ap (λ (q : Tags × Reading F). lookup "source_id" q.0) (sym at) ∙ source-with_source e,
        All-mono (λ (l : String × String). lookup l.0 e.tags ≡ some l.1) (Held p.0)
            (λ l. with_source-Held e l p.0 (ap (λ (q : Tags × Reading F). q.0) at)) ls
            (has_labels-All e.tags ls has),
        v ∙ ap (λ (q : Tags × Reading F). some q.1.v) at,
        value_of-Measures metric e.message p.1.v (v ∙ ap (λ (q : Tags × Reading F). some q.1.v) at),
        ap (λ (q : Tags × Reading F). q.1.t) (sym at) ∙ milliseconds-truncate e.timestamp h lt,
      )
