-- ===== src/Promql/Select/Requests.antt =====
-- internal/promql/promql.go, Select: the reads that it makes, one after another.
use mathlib.Core.Logic.{◌↔◌}
use log_cache.Common.{Option, none, some, Option-cases}
use mathlib.Core.List.{append-nil}
use log_cache.Common.{
  ℕ, ◌≡◌, ◌⊎◌, inl, inr, refl, sym, ap, ◌∙◌, String, true, List, [], ◌∷◌, ◌++◌, arith,
}
use log_cache.Envelope.{Envelope}
use log_cache.Promql.Query.{BarLib, Matcher, contains}
use log_cache.Promql.Query.Extraction.{contains-All}
use log_cache.Promql.Series.{Tags, SeriesSetBuilder, ConcreteSeries, build_series_set}
use log_cache.Promql.Select.{
  FloatCasts, ReadRequest, SelectError, no_source_id, read_failed, sort_matchers, empty_selector,
  add_readings, read_each, select_from, select, and_then,
}
use log_cache.Promql.Select.Reads.{Named, sort_matchers-All, expected_request, expected_request_lem}
use log_cache.Promql.Select.SourceIds.{Once, sort_matchers-Once, sort_matchers-Named}

answer-cases :
    {E B : Type 0} (r : E ⊎ B) → ((e : E) × (r ≡ inl e)) ⊎ ((batch : B) × (r ≡ inr batch))
answer-cases (inl e) = inl (e, refl)
answer-cases (inr batch) = inr (batch, refl)

append_assoc : {A : Type 0} (l : List A) (a : A) (m : List A) → (l ++ (a ∷ [])) ++ m ≡ l ++ (a ∷ m)
append_assoc [] a m = refl
append_assoc (b ∷ l) a m = ap (◌∷◌ b) (append_assoc l a m)

module _ {X Y A B S : Type 0} (wrap : X → Y) (rest : A → S → (Y ⊎ B) × S) where
  and_then-inl :
      (r : (X ⊎ A) × S) (x : X) → r.0 ≡ inl x → and_then wrap r rest ≡ (inl (wrap x), r.1)
  unfolding and_then
  and_then-inl (inl y, s) x e = ground arith
  and_then-inl (inr a, s) x e = absurd (cc)

  and_then-inr : (r : (X ⊎ A) × S) (a : A) → r.0 ≡ inr a → and_then wrap r rest ≡ rest a r.1
  unfolding and_then
  and_then-inr (inl x, s) a e = absurd (cc)
  and_then-inr (inr b, s) a e = let same : b ≡ a = ground arith in rw same refl

module _ {E : Type 0} (answers : ReadRequest → E ⊎ List Envelope) (start end : ℕ) where
  -- A reader with these answers, which records what it is asked.
  abbrev pub recorder : ReadRequest → List ReadRequest → (E ⊎ List Envelope) × List ReadRequest
  recorder r asked = (answers r, asked ++ (r ∷ []))

  -- One request for each source, up to the first that fails.
  abbrev pub requests_until : List String → List ReadRequest
  requests_until [] = []
  requests_until (id ∷ ids) =
      let rest = requests_until ids in
      expected_request start end id
      ∷ (elim (answers (expected_request start end id)) [ inl e ↦ [] | inr batch ↦ rest ])

  -- The error of that one.
  abbrev pub first_error : List String → Option E
  first_error [] = none
  first_error (id ∷ ids) =
      let rest = first_error ids in
      elim (answers (expected_request start end id)) [ inl e ↦ some e | inr batch ↦ rest ]

  abbrev pub EndsWith : {B : Type 0} → Option E → SelectError E ⊎ B → Type 0
  EndsWith none result = (b : _) × (result ≡ inr b)
  EndsWith (some e) result = result ≡ inl (read_failed e)

  -- Of no sources, the error of the querier for the metric.
  abbrev pub EndsFor : {B : Type 0} → String → List String → SelectError E ⊎ B → Type 0
  EndsFor metric [] result = result ≡ inl (no_source_id metric)
  EndsFor metric (id ∷ ids) result = EndsWith (first_error (id ∷ ids)) result

  module _ {F : Type 0} (casts : FloatCasts F) (bar : BarLib) (series_id : Tags → String) where
    read_each-requests :
        (metric : String) (ls : Tags) (ids : List String) (b : SeriesSetBuilder F)
        (asked : List ReadRequest)
        → (let (result, asked') =
              read_each casts bar series_id recorder start end metric ls ids b asked in
            (asked' ≡ asked ++ requests_until ids) × EndsWith (first_error ids) result)
    unfolding read_each and_then
    read_each-requests metric ls [] b asked = (sym (append-nil asked), (b, refl))
    read_each-requests metric ls (id ∷ ids) b asked =
        let same = sym (expected_request_lem start end id) in
        elim (answer-cases (answers (expected_request start end id))) [
          | inl (e, failed) ↦ rw (same, first_error, requests_until, failed) (refl, refl)
          | inr (batch, read) ↦
              let (trace, ends) =
                read_each-requests metric ls ids (add_readings casts series_id metric ls batch b)
                  (asked ++ (expected_request start end id ∷ [])) in
              rw (same, first_error, requests_until, read)
                (trace ∙ append_assoc asked _ (requests_until ids), ends)
        ]

    select_from-requests :
        (metric : String) (ls : Tags) (ids : List String)
        → (let (result, asked) =
              select_from casts bar series_id recorder start end metric ls ids [] in
            (asked ≡ requests_until ids) × EndsFor metric ids result)
    unfolding select_from
    select_from-requests metric ls [] = (refl, refl)
    select_from-requests metric ls (id ∷ ids) =
        let r = read_each casts bar series_id recorder start end metric ls (id ∷ ids) [] [] in
        let (trace, ends) = read_each-requests metric ls (id ∷ ids) [] [] in
        let made : SeriesSetBuilder F
            → List ReadRequest
            → (SelectError E ⊎ List (ConcreteSeries F)) × List ReadRequest =
          λ b asked. (inr (build_series_set b), asked) in
        elim (Option-cases (first_error (id ∷ ids))) [
          | inl none_failed ↦
              let (b, built) = rw none_failed at ends in
              rw (none_failed, and_then-inr (λ e. e) made r b built) (trace, (_, refl))
          | inr (e, failed) ↦
              let is : r.0 ≡ inl (read_failed e) = rw failed at ends in
              rw (failed, and_then-inl (λ e. e) made r (read_failed e) is) (trace, refl)
        ]

    -- Whatever a reader answers, Select asks it for no source twice, and only for the sources that
    -- the matchers name: from a second before the start to the end, for gauges, counters and timers.
    -- It asks up to the first request that fails, and ends with that request's error. If none
    -- fails, each source that the matchers name was asked for, and Select ends with series; but
    -- without such a source with the querier's own error.
    pub select-requests :
        (ms : List Matcher)
        → (let (result, asked) = select casts bar series_id recorder start end ms [] in
            (ids : List String) × (metric : String) × Once ids
            × ((id : String) → Named bar ms id ↔ (contains id ids ≡ true))
            × (asked ≡ requests_until ids)
            × EndsFor metric ids result)
    unfolding select
    select-requests ms =
        let k = sort_matchers bar empty_selector ms in
        let all = sort_matchers-All bar (Named bar ms) empty_selector ms (λ id n. n) tt in
        let (trace, ends) = select_from-requests k.metric k.ls k.source_ids in
        (
          k.source_ids,
          k.metric,
          sort_matchers-Once bar empty_selector ms tt,
          (λ id. (
            sort_matchers-Named bar empty_selector ms id,
            λ h. contains-All (Named bar ms) id k.source_ids all h,
          )),
          trace,
          ends,
        )
