-- ===== src/Auth/Capi/Concurrency.antt =====
-- internal/auth/capi_client.go, IsAuthorized: how often calls that overlap list the sources.
use log_cache.Common.{
  ℕ, suc, ◌+◌, ◌-◌, ◌*◌, ◌<◌, ◌≤◌, ◌≡◌, refl, sym, subst, inl, inr, String, Option, some,
  >>=-eq-some, List, [], ◌∷◌, ◌++◌, All, All-mono, arith, length,
}
use native.Mathlib.Nat.{mul-le-mul_left, mul-le-mul_right, suc-mul, add-zero, sub-zero}
use log_cache.Auth.Capi.{
  prune_tokens, CapiClient, Url, HttpResult, available_source_ids, ask_cache, store_ids,
}
use log_cache.Auth.Capi.Grants.{Verdict-cases, available-Listed}
use log_cache.Auth.Capi.Calls.{
  Calls, idle, Event, ask, finish, prune, take_out, IsTimely, step, run, AtMost,
}
use log_cache.Auth.Capi.Weights.{
  weight, weight_mono, total, total-append, length-total, weight_four, take_out-total, length_snoc,
  budget, verdict-budget, budget_stored, prune_tokens-budget,
}

module _ (capi : ℕ → Url → (token : String) → HttpResult) (parse_url : String → Option Url)
    (fuel : ℕ) (token : String) where
  -- The listings so far, those that the calls in flight stand for, and those of calls to come.
  potential : (deadline m : ℕ) → Calls → ℕ
  potential deadline m s =
      s.client.listings
      + total m s.in_flight
      + (m - length s.in_flight) * weight m (budget deadline token s.client)

  potential-idle :
      (deadline m : ℕ) (c : CapiClient)
      → potential deadline m (idle c) ≡ c.listings + m * weight m (budget deadline token c)
  unfolding potential total
  potential-idle deadline m c = simp (sub-zero, add-zero)

  ask-potential :
      (deadline m n : ℕ) (s : Calls)
      → suc (length s.in_flight) ≤ m
      → suc (3 - n) ≤ budget deadline token s.client
      → potential deadline m (record s { in_flight = s.in_flight ++ (n ∷ []) })
        ≤ potential deadline m s
  unfolding potential
  ask-potential deadline m n s room few =
      let l = s.in_flight in
      let w = weight m (budget deadline token s.client) in
      let r = m - suc (length l) in
      let split : m - length l ≡ suc r = omega (arith, room) in
      rw (length_snoc l n, total-append m n l, split, suc-mul r w)
        (omega (arith, weight_mono m (suc (3 - n)) (budget deadline token s.client) few))

  finish-potential :
      (deadline later m i n : ℕ) (ids : List String) (s : Calls) (rest : List ℕ) (c1 : CapiClient)
      → deadline ≤ later + c1.cache_expiration_interval
      → take_out i s.in_flight ≡ some (n, rest)
      → c1.listings ≡ s.client.listings
      → potential deadline m (record { client = store_ids later token ids n c1; in_flight = rest })
        ≤ potential deadline m s
  unfolding potential weight
  finish-potential deadline later m i n ids s rest c1 far taken same =
      let (sum, longer) = take_out-total m i n s.in_flight rest taken in
      let spare = mul-le-mul_right (weight m (3 - n)) (sub_le m (length rest)) in
      rw (budget_stored token deadline later n ids c1 far, sum) (omega (arith, spare, same))
    where
      sub_le : (a b : ℕ) → a - b ≤ a
      sub_le a b = omega arith

  prune-potential :
      (deadline m now : ℕ) (s : Calls)
      → now < deadline
      → potential deadline m (record s { client = prune_tokens now s.client })
        ≤ potential deadline m s
  unfolding potential prune_tokens
  prune-potential deadline m now s soon =
      let fewer =
        weight_mono m (budget deadline token (prune_tokens now s.client))
          (budget deadline token s.client) (prune_tokens-budget token deadline now s.client soon) in
      omega (arith, mul-le-mul_left (m - length s.in_flight) fewer)

  step-potential :
      (start m : ℕ) (e : Event) (s s' : Calls)
      → IsTimely start s.client.cache_expiration_interval e
      → length s'.in_flight ≤ m
      → step capi parse_url fuel token e s ≡ some s'
      → (potential (start + s.client.cache_expiration_interval) m s'
          ≤ potential (start + s.client.cache_expiration_interval) m s)
        × (s'.client.cache_expiration_interval ≡ s.client.cache_expiration_interval)
  unfolding step prune_tokens
  step-potential start m (ask now id) s s' soon room e =
      elim (Verdict-cases (ask_cache now id token s.client)) [
        | inl (known, asked) ↦
            let same : s' ≡ s = ground (arith, asked) in rw same (omega arith, refl)
        | inr (n, asked) ↦
            let more : s' ≡ record s { in_flight = s.in_flight ++ (n ∷ []) } =
              ground (arith, asked) in
            let deadline = start + s.client.cache_expiration_interval in
            let fits : suc (length s.in_flight) ≤ m =
              omega (arith, rw more at room, length_snoc s.in_flight n) in
            rw more (
              ask-potential deadline m n s fits
                  (verdict-budget token deadline now id s.client n soon asked),
              refl,
            )
      ]
  step-potential start m (finish later i) s s' late room e =
      let ((n, rest), taken, e1) = >>=-eq-some (take_out i s.in_flight) _ e in
      let ((ids, c1), listed, e2) =
        >>=-eq-some (available_source_ids capi parse_url fuel token s.client) _ e1 in
      let (_, kept) = available-Listed capi parse_url fuel token s.client c1 ids listed in
      let same : s' ≡ record { client = store_ids later token ids n c1; in_flight = rest } =
        ground (arith, e2) in
      rw same (
        finish-potential (start + s.client.cache_expiration_interval) later m i n ids s rest c1
            (omega (arith, late, kept.2)) taken kept.1,
        kept.2,
      )
  step-potential start m (prune now) s s' soon room e =
      let deadline = start + s.client.cache_expiration_interval in
      let same : s' ≡ record s { client = prune_tokens now s.client } = ground (arith, e) in
      rw same (prune-potential deadline m now s soon, refl)

  run-potential :
      (start m : ℕ) (events : List Event) (s s' : Calls)
      → All (IsTimely start s.client.cache_expiration_interval) events
      → AtMost capi parse_url fuel token m events s
      → run capi parse_url fuel token events s ≡ some s'
      → potential (start + s.client.cache_expiration_interval) m s'
        ≤ potential (start + s.client.cache_expiration_interval) m s
  unfolding run AtMost
  run-potential start m [] s s' w k e = ground arith
  run-potential start m (a ∷ events) s s' w k e =
      let (s1, first, rest) = >>=-eq-some (step capi parse_url fuel token a s) _ e in
      let k1 : (length s1.in_flight ≤ m) × AtMost capi parse_url fuel token m events s1 =
        rw (first, AtMost) at k in
      let (less, same) = step-potential start m a s s1 w.0 k1.0 first in
      let w1 =
        All-mono _ (IsTimely start s1.client.cache_expiration_interval)
          (λ b h. subst (λ i. IsTimely start i b) (sym same) h) events w.1 in
      let later = run-potential start m events s1 s' w1 k1.1 rest in
      omega (arith, less, rw same at later)

  -- Let calls of IsAuthorized for one token overlap in any way, with rounds of pruneTokens in
  -- between, and with at most `m` calls in flight between their look into the cache and their write
  -- of it. Over one expiration interval, that is if each look and each round is before its end and
  -- each write not before its start, they begin at most m + m ^ 2 + m ^ 3 + m ^ 4 listings of the
  -- token's sources: four, the first and three retries, if the calls come one after another.
  pub run-listings :
      (start m : ℕ) (events : List Event) (c : CapiClient) (s : Calls)
      → All (IsTimely start c.cache_expiration_interval) events
      → AtMost capi parse_url fuel token m events (idle c)
      → run capi parse_url fuel token events (idle c) ≡ some s
      → s.client.listings + length s.in_flight ≤ c.listings + m * (1 + m * (1 + m * (1 + m)))
  unfolding potential
  run-listings start m events c s w k e =
      let deadline : ℕ = start + c.cache_expiration_interval in
      let b = weight_mono m (budget deadline token c) 4 (budget_small deadline) in
      omega (
        arith,
        rw (potential-idle deadline m c) at (run-potential start m events (idle c) s w k e),
        length-total m s.in_flight,
        mul-le-mul_left m (rw (weight_four m) at b),
      )
    where
      budget_small : (deadline : ℕ) → budget deadline token c ≤ 4
      budget_small deadline = ground arith
