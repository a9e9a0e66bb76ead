-- ===== src/Promql/Engine/Failures.antt =====
-- internal/promql/promql.go: the errors of the data reader that the engine does not hand back.
use log_cache.Common.{
  ℕ, ◌+◌, ◌≡◌, ◌≢◌, ◌⊎◌, inl, inr, refl, String, false, Option, none, some, List, str_eq, arith,
  eq_iff,
}
use log_cache.Envelope.{Envelope}
use log_cache.Promql.Query.{BarLib}
use log_cache.Promql.Series.{Tags, ConcreteSeries}
use log_cache.Promql.Select.{FloatCasts, ReadRequest, SelectError, select}
use log_cache.Promql.Engine.{
  Value, Exec, done, ask, Answer, select_failed, ParseLib, from_millis, record_error, exec, finish,
  instant_query, parse_time, to_instant_query_result,
}

abbrev IsSuccess : {A B : Type 0} → A ⊎ B → Type 0
IsSuccess (inl e) = ⊥
IsSuccess (inr series) = Unit

module _ {F E X S : Type 0} (casts : FloatCasts F) (bar : BarLib) (series_id : Tags → String)
    (read : ReadRequest → S → (E ⊎ List Envelope) × S) where
  -- Each Select of a run succeeds.
  unfoldable pub SelectsSucceed : Exec F E X → S → Type 0
  SelectsSucceed (done r) s = Unit
  SelectsSucceed (ask mint maxt ll rest) s =
      let (answer, s') =
        select casts bar series_id read (from_millis mint) (from_millis maxt) ll s in
      IsSuccess answer × SelectsSucceed (rest answer) s'

  -- The error of the last Select of a run that fails: it is that Select's answer, and each Select
  -- behind it succeeds.
  unfoldable pub LastFailure : Exec F E X → S → SelectError E → Type 0
  unfolding SelectsSucceed
  LastFailure (done r) s e = ⊥
  LastFailure (ask mint maxt ll rest) s e =
      let (answer, s') =
        select casts bar series_id read (from_millis mint) (from_millis maxt) ll s in
      LastFailure (rest answer) s' e ⊎ ((answer ≡ inl e) × SelectsSucceed (rest answer) s')

  abbrev closure_of : Exec F E X → Option (SelectError E) → S → Option (SelectError E)
  closure_of run closure s = (exec casts bar series_id read run closure s).1

  -- The closure stays as it was, or holds the error of the last Select that fails.
  abbrev Recorded : Exec F E X → S → Option (SelectError E) → Type 0
  Recorded run s closure =
      (SelectsSucceed run s × (closure_of run closure s ≡ closure))
      ⊎ ((e : SelectError E) × LastFailure run s e × (closure_of run closure s ≡ some e))

  Recorded-step :
      (answer : SelectError E ⊎ List (ConcreteSeries F)) (run : Exec F E X) (s : S)
      (closure : Option (SelectError E))
      → Recorded run s (record_error answer closure)
      → (IsSuccess answer
          × SelectsSucceed run s
          × (closure_of run (record_error answer closure) s ≡ closure))
        ⊎ ((e : SelectError E) × (LastFailure run s e ⊎ ((answer ≡ inl e) × SelectsSucceed run s))
            × (closure_of run (record_error answer closure) s ≡ some e))
  unfolding record_error
  Recorded-step (inl e) run s closure (inl (all, kept)) = inr (e, inr (refl, all), kept)
  Recorded-step (inr series) run s closure (inl (all, kept)) = inl (tt, all, kept)
  Recorded-step answer run s closure (inr (e, last, is)) = inr (e, inl last, is)

  exec-Recorded :
      (run : Exec F E X) (s : S) (closure : Option (SelectError E)) → Recorded run s closure
  unfolding exec SelectsSucceed LastFailure
  exec-Recorded (done r) s closure = inl (tt, refl)
  exec-Recorded (ask mint maxt ll rest) s closure =
      let (answer, s') =
        select casts bar series_id read (from_millis mint) (from_millis maxt) ll s in
      elim (Recorded-step answer (rest answer) s' closure
        (exec-Recorded (rest answer) s' (record_error answer closure))) [
          | inl (good, all, kept) ↦ inl ((good, all), kept)
          | inr r ↦ inr r
        ]

  -- Either every Select succeeds, and the engine's result stands, or the error of the last Select
  -- that fails stands for the result, and one failure is counted.
  finish_lem :
      {R : Type 0} (to_result : X ⊎ Value F → Answer E X R) (run : Exec F E X) (failures : ℕ)
      (s : S)
      → (let (r, closure, s') = exec casts bar series_id read run none s in
          let ended = finish casts bar series_id read to_result run failures s in
          (SelectsSucceed run s × (ended ≡ (to_result r, failures, s')))
          ⊎ ((e : SelectError E) × LastFailure run s e
              × (ended ≡ (select_failed e, failures + 1, s'))))
  unfolding finish
  finish_lem to_result run failures s = elim (exec-Recorded run s none) [
    | inl (all, empty) ↦ inl (all, rw (finish, empty) refl)
    | inr (e, last, is) ↦ inr (e, last, rw (finish, is) refl)
  ]

  -- Let the query's time be given and parsed, and let the engine accept the query. Then either
  -- every Select of the engine's run succeeds and InstantQuery ends with the engine's result, with
  -- the failure counter as it was; or some Select fails, and InstantQuery ends with the error that
  -- the last of the failing Selects gave, whatever the engine's result, and one failure more. Either
  -- way it ends.
  pub instant_query-SelectsSucceed :
      {Float Time : Type 0} (lib : ParseLib Float Time) (format_promql_time : ℕ → String)
      (new_query : String → Time → Option (Exec F E X)) (now t : Time) (query time : String)
      (run : Exec F E X) (failures : ℕ) (s : S)
      → time ≢ ""
      → parse_time lib time ≡ some t
      → new_query query t ≡ some run
      → (let (r, closure, s') = exec casts bar series_id read run none s in
          let ended =
            instant_query casts bar series_id read lib format_promql_time new_query now query time
              failures s in
          (SelectsSucceed run s
            × (ended ≡ (to_instant_query_result format_promql_time r, failures, s')))
          ⊎ ((e : SelectError E) × LastFailure run s e
              × (ended ≡ (select_failed e, failures + 1, s'))))
  unfolding instant_query
  instant_query-SelectsSucceed lib format_promql_time new_query now t query time run failures s
        given parsed accepted =
      let other : str_eq time "" ≡ false = ground (arith, given, eq_iff time "") in
      rw (instant_query, other, parsed, accepted)
        (finish_lem (to_instant_query_result format_promql_time) run failures s)
