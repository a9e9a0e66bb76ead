-- ===== src/Auth/Capi/Calls.antt =====
-- internal/auth/capi_client.go, IsAuthorized: calls for one token at the same time. Nothing locks a
-- call, which loads the cache's entry first and stores another in the end: these are two steps, and
-- those of other calls may come in between.
use log_cache.Common.{
  ℕ, zero, suc, ◌+◌, ◌≤◌, ◌<◌, ◌≡◌, inl, inr, String, Bool, Option, none, some, ◌>>=◌, >>=-eq-some,
  List, [], ◌∷◌, ◌++◌, arith, length,
}
use log_cache.Auth.Capi.{
  CapiClient, Url, HttpResult, available_source_ids, answer, list_again, ask_cache, prune_tokens,
  store_ids, is_authorized,
}
use log_cache.Auth.Capi.Grants.{Verdict-cases}

-- The client, and the calls that list the sources: the retry count of each one's entry to come.
pub record Calls : Type 0 where
  pub client : CapiClient
  pub in_flight : List ℕ

abbrev pub idle : CapiClient → Calls
idle c = record { client = c; in_flight = [] }

-- A call asks the cache; the call at an index has its list, and stores it; and a round of
-- pruneTokens.
pub data Event : Type 0 where
  ask : (now : ℕ) → (source_id : String) → Event
  finish : (later index : ℕ) → Event
  prune : (now : ℕ) → Event

unfoldable pub take_out : ℕ → List ℕ → Option (ℕ × List ℕ)
take_out i [] = none
take_out zero (n ∷ l) = some (n, l)
take_out (suc i) (n ∷ l) = (take_out i l >>= λ p. some (p.0, n ∷ p.1))

-- The cache is asked and pruned before the end of an interval from `start` on, and an entry is
-- stored not before `start`.
abbrev pub IsTimely : (start interval : ℕ) → Event → Type 0
IsTimely start interval (ask now id) = now < start + interval
IsTimely start interval (finish later i) = start ≤ later
IsTimely start interval (prune now) = now < start + interval

module _ (capi : ℕ → Url → (token : String) → HttpResult) (parse_url : String → Option Url)
    (fuel : ℕ) (token : String) where
  -- One step of a call of IsAuthorized, up to the listing, or the listing and what comes behind it;
  -- or a round of pruneTokens, which does not change the calls in flight.
  -- `none` if the listing does not return, or no call has that index.
  unfoldable pub step : Event → Calls → Option Calls
  unfolding take_out ask_cache available_source_ids prune_tokens
  step (ask now id) s = elim (ask_cache now id token s.client) [
    | answer b ↦ some s
    | list_again n ↦ some (record s { in_flight = s.in_flight ++ (n ∷ []) })
  ]
  step (finish later i) s = do
    (n, rest) ← take_out i s.in_flight
    (ids, c1) ← available_source_ids capi parse_url fuel token s.client
    some (record { client = store_ids later token ids n c1; in_flight = rest })
  step (prune now) s = some (record s { client = prune_tokens now s.client })

  unfoldable pub run : List Event → Calls → Option Calls
  unfolding step
  run [] s = some s
  run (e ∷ events) s = step e s >>= λ s'. run events s'

  -- Behind each step at most `m` calls are in flight.
  unfoldable pub AtMost : ℕ → List Event → Calls → Type 0
  unfolding step
  AtMost m [] s = Unit
  AtMost m (e ∷ events) s = elim (step e s) [
    | none ↦ Unit
    | some s' ↦ (length s'.in_flight ≤ m) × AtMost m events s'
  ]

  -- A call on its own is one step, or two.
  run-is_authorized :
      (now later : ℕ) (id : String) (b : Bool) (c c' : CapiClient)
      → is_authorized capi parse_url fuel now later id token c ≡ some (b, c')
      → (events : List Event) × (run events (idle c) ≡ some (idle c'))
  unfolding run is_authorized
  run-is_authorized now later id b c c' e = elim (Verdict-cases (ask_cache now id token c)) [
    | inl (known, asked) ↦ (ask now id ∷ [], ground (arith, asked))
    | inr (n, asked) ↦
        let (p, listed, last) =
          >>=-eq-some (available_source_ids capi parse_url fuel token c) _
            (rw (asked, is_authorized) at e) in
        (ask now id ∷ finish later 0 ∷ [], ground (arith, asked, listed, last))
  ]
