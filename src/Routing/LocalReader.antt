-- ===== src/Routing/LocalReader.antt =====
-- internal/routing/local_store_reader.go: read requests against the local store.
use log_cache.Common.{All}
use log_cache.Store.Get.Soundness.{Asked, get-Asked}
use log_cache.Common.{
  ℕ, ◌+◌, ◌-◌, ◌≤◌, ◌≡◌, String, Bool, true, false, not, ◌&&◌, ◌⊎◌, inl, inr, Option, none, some,
  List, [], ◌∷◌, arith, ltb, ◌==◌, if◌then◌else◌, zero64, str_eq, Option-cases,
}
use log_cache.Envelope.{
  Envelope, EnvelopeType, any_type, log_type, counter_type, gauge_type, timer_type, event_type,
}
use log_cache.Store.State.{Store}
use log_cache.Store.Get.{NameFilter, get}

-- logcache_v1.ReadRequest; the times and the limit are int64.
pub record ReadRequest : Type 0 where
  pub source_id : String
  pub start_time : ℕ
  pub end_time : ℕ
  pub limit : ℕ
  pub envelope_types : List EnvelopeType
  pub descending : Bool
  pub name_filter : String

pub data ReadError : Type 0 where
  end_before_start limit_too_large limit_negative bad_name_filter : ReadError

pub data ReadResult : Type 0 where
  envelopes : List Envelope → ReadResult
  error : ReadError → ReadResult

-- The three checks at the start of Read. Here 1000 is the int64 of that value.
unfoldable pub check_request : ReadRequest → Option ReadError
check_request req =
    if not (req.end_time == zero64) && ltb req.end_time req.start_time
    then some end_before_start
    else if ltb (zero64 + 1000) req.limit
    then some limit_too_large
    else if ltb req.limit zero64
    then some limit_negative
    else none

-- The defaults of the end time and of the limit; the limit as a number.
abbrev pub end_or_now : ℕ → ReadRequest → ℕ
end_or_now now req = if req.end_time == zero64 then now else req.end_time

abbrev pub limit_or_default : ReadRequest → ℕ
limit_or_default req = if req.limit == zero64 then 100 else req.limit - zero64

unfoldable pub is_any : EnvelopeType → Bool
is_any any_type = true
is_any log_type = false
is_any counter_type = false
is_any gauge_type = false
is_any timer_type = false
is_any event_type = false

-- The loop over the types. The slice stays nil until something is appended.
unfoldable pub wanted_types : List EnvelopeType → Option (List EnvelopeType)
unfolding is_any
wanted_types [] = none
wanted_types (t ∷ ts) =
    let rest = wanted_types ts in
    if is_any t then rest else elim rest [ none ↦ some (t ∷ []) | some us ↦ some (t ∷ us) ]

-- `none` of `compile` is an error of regexp.Compile.
unfoldable pub compile_filter : (String → Option (String → Bool)) → String → Option NameFilter
compile_filter compile name_filter =
    if str_eq name_filter ""
    then some none
    else elim (compile name_filter) [ none ↦ none | some matches ↦ some (some matches) ]

unfoldable pub read :
    (String → Option (String → Bool)) → (now : ℕ) → ReadRequest → Store → ReadResult × Store
unfolding check_request compile_filter
read compile now req s = elim (check_request req) [
  | some e ↦ (error e, s)
  | none ↦ elim (compile_filter compile req.name_filter) [
    | none ↦ (error bad_name_filter, s)
    | some name_filter ↦
        let (envs, s') =
          get req.source_id req.start_time (end_or_now now req) (wanted_types req.envelope_types)
            name_filter (limit_or_default req) req.descending s in
        (envelopes envs, s')
  ]
]

checked :
    (req : ReadRequest)
    → check_request req ≡ none
    → (zero64 ≤ req.limit)
      × (req.limit ≤ zero64 + 1000)
      × ((req.end_time ≡ zero64) ⊎ (req.start_time ≤ req.end_time))
unfolding check_request
checked req h = ground arith

-- If Read gives envelopes, the request's limit is between 0 and 1000, so that the store is asked
-- for 1 to 1000 of them; the start is not after the end, unless the end is 0, which stands for now;
-- and each envelope lies in [start..end), has a type that was asked for, and passes the name filter,
-- if there is one. If Read fails, the store is as before.
pub read_lem :
    (compile : String → Option (String → Bool)) (now : ℕ) (req : ReadRequest) (s : Store)
    → ((e : ReadError) × (read compile now req s ≡ (error e, s)))
      ⊎ ((es : List Envelope) × (s' : Store) × (name_filter : NameFilter) × (read compile now req s
            ≡ (envelopes es, s'))
          × (compile_filter compile req.name_filter ≡ some name_filter)
          × (zero64 ≤ req.limit)
          × (req.limit ≤ zero64 + 1000)
          × (1 ≤ limit_or_default req)
          × (limit_or_default req ≤ 1000)
          × ((req.end_time ≡ zero64) ⊎ (req.start_time ≤ req.end_time))
          × All
              (Asked req.start_time
                (end_or_now now req)
                (wanted_types req.envelope_types)
                name_filter
                (limit_or_default req))
              es)
unfolding read
read_lem compile now req s = elim (Option-cases (check_request req)) [
  | inr (e, bad) ↦ inl (e, rw (bad, read))
  | inl good ↦ elim (Option-cases (compile_filter compile req.name_filter)) [
    | inl bad ↦ inl (bad_name_filter, rw (good, bad, read))
    | inr (name_filter, compiled) ↦
        let (low, high, ordered) = checked req good in
        let types = wanted_types req.envelope_types in
        let limit = limit_or_default req in
        let got =
          get req.source_id req.start_time (end_or_now now req) types name_filter limit
            req.descending s in
        inr (
          got.0,
          got.1,
          name_filter,
          rw (good, compiled, read),
          compiled,
          low,
          high,
          ground arith,
          ground arith,
          ordered,
          get-Asked req.start_time (end_or_now now req) types name_filter limit req.source_id
              req.descending s,
        )
  ]
]
