-- ===== src/Routing/Egress.antt =====
-- internal/routing/egress_reverse_proxy.go: reads from a node that holds the source, and meta data
-- from the local node or from all nodes, each behind a cache.
pub mod Answers
use log_cache.Common.{
  ℕ, zero, suc, ◌+◌, ◌≤◌, ◌<◌, ◌≡◌, refl, ◌⊎◌, inl, inr, String, Bool, true, false, Option, none,
  some, ◌>>=◌, List, [], ◌∷◌, arith, ltb, ◌==◌, if◌then◌else◌, insert, length, get_elem?, All,
  All-mono, Bool-cases, Option-cases, subst,
}
use log_cache.Store.State.{MetaInfo}

abbrev pub MetaResp : Type 0
MetaResp = List (String × MetaInfo)

pub record MetaCache : Type 0 where
  pub duration : ℕ
  pub timestamp : ℕ
  pub meta_resp : MetaResp

-- No cache is a nil pointer.
unfoldable pub is_expired : ℕ → Option MetaCache → Bool
is_expired now none = true
is_expired now (some c) = ltb (c.timestamp + c.duration) now

pub record EgressReverseProxy : Type 0 where
  pub clients : ℕ
  pub local_idx : ℕ
  pub remote_meta_cache : Option MetaCache
  pub local_meta_cache : Option MetaCache
  pub meta_cache_duration : ℕ

-- The duration of a second, in nanoseconds, unless an option sets it.
unfoldable pub new_egress_reverse_proxy :
    (clients local_idx : ℕ) → (duration : Option ℕ) → EgressReverseProxy
new_egress_reverse_proxy clients local_idx duration = record {
  clients = clients;
  local_idx = local_idx;
  remote_meta_cache = none;
  local_meta_cache = none;
  meta_cache_duration = elim duration [ none ↦ 1000000000 | some d ↦ d ];
}

-- The client that Read asks, or the error that there is no route.
pub data Route : Type 0 where
  unavailable : Route
  ask : ℕ → Route

unfoldable pub any_is : ℕ → List ℕ → Bool
any_is i [] = false
any_is i (j ∷ js) = if j == i then true else any_is i js

-- An index without a client panics. `pick` is rand.Intn.
abbrev pub ask_client : EgressReverseProxy → ℕ → Option Route
ask_client p i = if ltb i p.clients then some (ask i) else none

unfoldable pub route :
    (String → List ℕ) → (pick : ℕ → ℕ) → EgressReverseProxy → String → Option Route
unfolding any_is
route l pick p source_id = elim (l source_id) [
  | [] ↦ some unavailable
  | i ∷ is ↦
      if any_is p.local_idx (i ∷ is)
      then ask_client p p.local_idx
      else (get_elem? (i ∷ is) (pick (length (i ∷ is))) >>= λ j. ask_client p j)
]

-- The answers of the nodes to a meta request; `none` is an error.
module _ (answer : ℕ → (local_only : Bool) → Option MetaResp) where
  unfoldable pub merge : MetaResp → MetaResp → MetaResp
  merge [] result = result
  merge ((id, m) ∷ ms) result = merge ms (insert id m result)

  -- The loop over the clients from `i` on: the result, and the number of errors.
  unfoldable pub gather : ℕ → ℕ → MetaResp → ℕ → MetaResp × ℕ
  unfolding merge
  gather zero i result errs = (result, errs)
  gather (suc left) i result errs = elim (answer i true) [
    | none ↦ gather left (i + 1) result (errs + 1)
    | some resp ↦ gather left (i + 1) (merge resp result) errs
  ]

  abbrev pub cached : EgressReverseProxy → ℕ → MetaResp → Option MetaCache
  cached p now resp =
      some (record { duration = p.meta_cache_duration; timestamp = now; meta_resp = resp })

  abbrev pub resp_of : Option MetaCache → MetaResp
  resp_of none = []
  resp_of (some c) = c.meta_resp

  -- The answer, where `none` is an error, and the proxy. The local index has a client.
  unfoldable pub local_meta : ℕ → Bool → EgressReverseProxy → Option MetaResp × EgressReverseProxy
  unfolding is_expired
  local_meta now local_only p =
      if is_expired now p.local_meta_cache
      then (elim (answer p.local_idx local_only) [
        | none ↦ (none, p)
        | some resp ↦ (some resp, record p { local_meta_cache = cached p now resp })
      ])
      else (some (resp_of p.local_meta_cache), p)

  unfoldable pub remote_meta : ℕ → EgressReverseProxy → Option MetaResp × EgressReverseProxy
  unfolding is_expired gather
  remote_meta now p =
      if is_expired now p.remote_meta_cache
      then (let (result, errs) = gather p.clients 0 [] 0 in
          if errs == p.clients
          then (none, p)
          else (some result, record p { remote_meta_cache = cached p now result }))
      else (some (resp_of p.remote_meta_cache), p)

  unfoldable pub egress_meta : ℕ → Bool → EgressReverseProxy → Option MetaResp × EgressReverseProxy
  egress_meta now local_only p =
      if local_only then local_meta now local_only p else remote_meta now p
