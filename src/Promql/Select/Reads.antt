-- ===== src/Promql/Select/Reads.antt =====
-- internal/promql/promql.go: which reads Select makes, and what it does with the matchers' types.
use mathlib.Core.List.{Mem, mem-cons_self, mem-cons_of_mem}
use log_cache.Common.{
  ℕ, ◌+◌, ◌-◌, ◌%◌, arith, zero64, word, sub64, eq_iff, All-mono, subst, ◌≡◌, ◌⊎◌, inl, inr, refl,
  sym, ap, ◌∙◌, String, Bool, true, false, List, [], ◌∷◌, if◌then◌else◌, str_eq, All, Bool-cases,
}
use log_cache.Envelope.{Envelope, gauge_type, counter_type, timer_type}
use log_cache.Promql.Query.{
  BarLib, Matcher, matched_ids, match_equal, match_regexp, match_not_equal, match_not_regexp,
  MatchType, ids_of_type, add_source_ids_from_label_matcher,
}
use log_cache.Promql.Series.{Tags, SeriesSetBuilder, build_series_set}
use log_cache.Promql.Select.{
  second, FloatCasts, ReadRequest, Selector, sort_matchers, add_readings, request_for, read_each,
  select_from, select, and_then, read_failed, sort_matcher, empty_selector,
}
use log_cache.Promql.Query.Extraction.{add_ids-All}

-- A matcher of a label other than the source id as `=`, whatever its type.
abbrev pub as_equal : Matcher → Matcher
as_equal m = if str_eq m.name "source_id" then m else record m { type_ = match_equal }

abbrev pub all_equal : List Matcher → List Matcher
all_equal [] = []
all_equal (m ∷ ms) = as_equal m ∷ all_equal ms

sort_matcher-type :
    (bar : BarLib) (s : Selector) (m : Matcher) (source : Bool)
    → source ≡ str_eq m.name "source_id"
    → sort_matcher bar s (if source then m else record m { type_ = match_equal })
      ≡ sort_matcher bar s m
unfolding sort_matcher
sort_matcher-type bar s m true e = refl
sort_matcher-type bar s m false e = rw (sym e) refl

sort_matchers-all_equal :
    (bar : BarLib) (s : Selector) (ms : List Matcher)
    → sort_matchers bar s (all_equal ms) ≡ sort_matchers bar s ms
unfolding sort_matchers
sort_matchers-all_equal bar s [] = refl
sort_matchers-all_equal bar s (m ∷ ms) =
    ap (λ k. sort_matchers bar k (all_equal ms)) (sort_matcher-type bar s m _ refl)
    ∙ sort_matchers-all_equal bar (sort_matcher bar s m) ms

and_then-cong :
    {X Y A B S : Type 0} (wrap : X → Y) (r : (X ⊎ A) × S) (f g : A → S → (Y ⊎ B) × S)
    → ((a : A) (s : S) → f a s ≡ g a s)
    → and_then wrap r f ≡ and_then wrap r g
unfolding and_then
and_then-cong wrap (inl e, s) f g h = refl
and_then-cong wrap (inr a, s) f g h = h a s

-- A matcher names a source id: `source_id="..."` its value, and `source_id=~"..."` each alternative
-- of its value. No other matcher does.
abbrev pub NamesId : BarLib → Matcher → String → Type 0
NamesId bar m id =
    (m.name ≡ "source_id")
    × (((m.type_ ≡ match_equal) × (id ≡ m.value))
        ⊎ ((m.type_ ≡ match_regexp) × Mem id (bar.split m.value)))

-- One of the matchers does.
abbrev pub Named : BarLib → List Matcher → String → Type 0
Named bar [] id = ⊥
Named bar (m ∷ ms) id = NamesId bar m id ⊎ Named bar ms id

All-Mem {κ} : (P : String → Type κ) (l : List String) → ((x : String) → Mem x l → P x) → All P l
All-Mem P [] h = tt
All-Mem P (x ∷ l) h = (h x mem-cons_self, All-Mem P l (λ y k. h y (mem-cons_of_mem x k)))

ids_of_type-All :
    (bar : BarLib) (m : Matcher)
    → m.name ≡ "source_id"
    → All (NamesId bar m) (ids_of_type bar m.type_ m.value)
unfolding ids_of_type
ids_of_type-All bar m name = go m.type_ refl
  where
    go : (t : MatchType) → m.type_ ≡ t → All (NamesId bar m) (ids_of_type bar t m.value)
    go match_equal e = ((name, inl (e, refl)), tt)
    go match_regexp e = All-Mem _ (bar.split m.value) (λ id k. (name, inr (e, k)))
    go match_not_equal e = tt
    go match_not_regexp e = tt

sort_matcher-All {κ} :
    (bar : BarLib) (P : String → Type κ) (s : Selector) (m : Matcher)
    → ((id : String) → NamesId bar m id → P id)
    → All P s.source_ids
    → All P (sort_matcher bar s m).source_ids
unfolding sort_matcher add_source_ids_from_label_matcher matched_ids
sort_matcher-All bar P s m n a = elim (Bool-cases (str_eq m.name "__name__")) [
  | inl name ↦ rw name a
  | inr no_name ↦ elim (Bool-cases (str_eq m.name "source_id")) [
    | inl same ↦
        let named = All-mono _ P n _ (ids_of_type-All bar m ((eq_iff m.name "source_id").0 same)) in
        rw (no_name, same) (add_ids-All P (ids_of_type bar m.type_ m.value) s.source_ids named a)
    | inr other ↦ rw (no_name, other) a
  ]
]

-- Only the ids that the matchers name become source ids.
pub sort_matchers-All {κ} :
    (bar : BarLib) (P : String → Type κ) (s : Selector) (ms : List Matcher)
    → ((id : String) → Named bar ms id → P id)
    → All P s.source_ids
    → All P (sort_matchers bar s ms).source_ids
unfolding sort_matchers
sort_matchers-All bar P s [] n a = a
sort_matchers-All bar P s (m ∷ ms) n a =
    sort_matchers-All bar P (sort_matcher bar s m) ms (λ id k. n id (inr k))
      (sort_matcher-All bar P s m (λ id k. n id (inl k)) a)

-- What is read of a source: from a second before the start, which may wrap around, to the end, and
-- of gauges, counters and timers.
abbrev pub expected_request : (start end : ℕ) → String → ReadRequest
expected_request start end id = record {
  source_id = id;
  start_time = (start + word - 1000000000) % word;
  end_time = end;
  envelope_types = gauge_type ∷ counter_type ∷ timer_type ∷ [];
}

pub expected_request_lem :
    (start end : ℕ) (id : String) → expected_request start end id ≡ request_for start end id
unfolding request_for sub64
expected_request_lem start end id =
    let same : start + word - 1000000000 ≡ start + word + zero64 - (zero64 + second) =
      omega arith in
    ap
      (λ (w : ℕ). record {
        source_id = id;
        start_time = w % word;
        end_time = end;
        envelope_types = gauge_type ∷ counter_type ∷ timer_type ∷ [];
      })
      same

module _ {F E S : Type 0} (casts : FloatCasts F) (bar : BarLib) (series_id : Tags → String) where
  -- The matchers' types count for the source id alone: Select answers as if each other matcher
  -- were an `=`, also for a matcher `!=`, `=~` or `!~`.
  select-all_equal :
      (read : ReadRequest → S → (E ⊎ List Envelope) × S) (start end : ℕ) (ms : List Matcher) (s : S)
      → select casts bar series_id read start end (all_equal ms) s
        ≡ select casts bar series_id read start end ms s
  unfolding select
  select-all_equal read start end ms s =
      ap
        (λ (k : Selector).
          select_from casts bar series_id read start end k.metric k.ls k.source_ids s)
        (sort_matchers-all_equal bar empty_selector ms)

  module _ (read other : ReadRequest → S → (E ⊎ List Envelope) × S) (start end : ℕ) where
    -- Two readers that answer the requests for a source id alike, in every state.
    abbrev pub Alike : String → Type 0
    Alike id = (s : S) → read (request_for start end id) s ≡ other (request_for start end id) s

    read_each-Alike :
        (metric : String) (ls : Tags) (ids : List String) (b : SeriesSetBuilder F) (s : S)
        → All Alike ids
        → read_each casts bar series_id read start end metric ls ids b s
          ≡ read_each casts bar series_id other start end metric ls ids b s
    unfolding read_each
    read_each-Alike metric ls [] b s h = refl
    read_each-Alike metric ls (id ∷ ids) b s h =
        ap
          (λ r. and_then read_failed r (λ batch s'.
            read_each casts bar series_id read start end metric ls ids
              (add_readings casts series_id metric ls batch b) s'))
          (h.0 s)
        ∙ and_then-cong read_failed (other (request_for start end id) s) _ _ (λ batch s'.
          read_each-Alike metric ls ids (add_readings casts series_id metric ls batch b) s' h.1)

    select_from-Alike :
        (metric : String) (ls : Tags) (ids : List String) (s : S)
        → All Alike ids
        → select_from casts bar series_id read start end metric ls ids s
          ≡ select_from casts bar series_id other start end metric ls ids s
    unfolding select_from
    select_from-Alike metric ls [] s h = refl
    select_from-Alike metric ls (id ∷ ids) s h =
        ap (λ r. and_then (λ e. e) r (λ b s'. (inr (build_series_set b), s')))
          (read_each-Alike metric ls (id ∷ ids) [] s h)

    -- Select depends on the store only at the source ids that its matchers name, from a second
    -- before the start to the end, for gauges, counters and timers: two readers that answer these
    -- requests alike give the same series or error, and the same state.
    select-Alike :
        (ms : List Matcher) (s : S)
        → ((id : String)
            → Named bar ms id
            → (s' : S)
            → read (expected_request start end id) s' ≡ other (expected_request start end id) s')
        → select casts bar series_id read start end ms s
          ≡ select casts bar series_id other start end ms s
    unfolding select
    select-Alike ms s h =
        let k = sort_matchers bar empty_selector ms in
        let alike : (id : String) → Named bar ms id → Alike id = λ id n.
          subst (λ r. (s' : S) → read r s' ≡ other r s') (expected_request_lem start end id)
            (h id n) in
        select_from-Alike k.metric k.ls k.source_ids s
          (sort_matchers-All bar Alike empty_selector ms alike tt)
