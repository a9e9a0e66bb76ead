-- ===== src/Routing/Egress/Answers.antt =====
-- Which node a read goes to, and how long an answer about meta data is kept.
use log_cache.Common.{
  ℕ, zero, suc, ◌+◌, ◌≤◌, ◌<◌, ◌≡◌, refl, ◌⊎◌, inl, inr, String, Bool, true, false, Option, some,
  ◌>>=◌, List, [], ◌∷◌, arith, ◌==◌, if◌then◌else◌, length, get_elem?, All, All-mono, Bool-cases,
  Option-cases, subst,
}
use log_cache.Routing.Egress.{
  EgressReverseProxy, unavailable, ask, MetaResp, any_is, ask_client, egress_meta, is_expired,
  local_meta, remote_meta, route,
}

any_is-All : (P : ℕ → Type 0) (i : ℕ) (js : List ℕ) → All P js → any_is i js ≡ true → P i
unfolding any_is
any_is-All P i [] a h = absurd (ground arith)
any_is-All P i (j ∷ js) a h = elim (Bool-cases (j == i)) [
  | inl e ↦ let same : j ≡ i = ground arith in subst P same a.0
  | inr e ↦ any_is-All P i js a.1 (ground arith)
]

get_elem-All :
    (P : ℕ → Type 0) (js : List ℕ) (n : ℕ)
    → All P js
    → n < length js
    → (j : ℕ) × (get_elem? js n ≡ some j) × P j
get_elem-All P [] n a h = absurd (omega arith)
get_elem-All P (j ∷ js) zero a h = (j, refl, a.0)
get_elem-All P (j ∷ js) (suc n) a h = get_elem-All P js n a.1 (omega arith)

route-All :
    (P : ℕ → Type 0) (l : String → List ℕ) (pick : ℕ → ℕ) (p : EgressReverseProxy)
    (source_id : String)
    → All (λ i. i < p.clients) (l source_id)
    → ((n : ℕ) → 0 < n → pick n < n)
    → All P (l source_id)
    → ((l source_id ≡ []) × (route l pick p source_id ≡ some unavailable))
      ⊎ ((j : ℕ) × (route l pick p source_id ≡ some (ask j))
          × P j
          × (any_is p.local_idx (l source_id) ≡ true → j ≡ p.local_idx))
unfolding route
route-All P l pick p source_id known fair held = go (l source_id) known held
  where
    go :
        (js : List ℕ)
        → All (λ i. i < p.clients) js
        → All P js
        → ((js ≡ [])
            × ((elim js [
              | [] ↦ some unavailable
              | i ∷ is ↦
                  if any_is p.local_idx (i ∷ is)
                  then ask_client p p.local_idx
                  else (get_elem? (i ∷ is) (pick (length (i ∷ is))) >>= λ j. ask_client p j)
            ])
                ≡ some unavailable))
          ⊎ ((j : ℕ) × ((elim js [
            | [] ↦ some unavailable
            | i ∷ is ↦
                if any_is p.local_idx (i ∷ is)
                then ask_client p p.local_idx
                else (get_elem? (i ∷ is) (pick (length (i ∷ is))) >>= λ j. ask_client p j)
          ])
                ≡ some (ask j))
              × P j
              × (any_is p.local_idx js ≡ true → j ≡ p.local_idx))
    go [] k h = inl (refl, refl)
    go (i ∷ is) k h = elim (Bool-cases (any_is p.local_idx (i ∷ is))) [
      | inl here ↦
          let small : p.local_idx < p.clients =
            any_is-All (λ i. i < p.clients) p.local_idx (i ∷ is) k here in
          inr (
            p.local_idx,
            ground (arith, here, small),
            any_is-All P p.local_idx (i ∷ is) h here,
            λ e. refl,
          )
      | inr away ↦
          let (j, found, both) =
            get_elem-All P (i ∷ is) (pick (length (i ∷ is))) h (fair _ (omega arith)) in
          let (j', found', small) =
            get_elem-All (λ i. i < p.clients) (i ∷ is) (pick (length (i ∷ is))) k
              (fair _ (omega arith)) in
          inr (
            j,
            ground (arith, away, found, found', small),
            both,
            λ e. absurd (ground (arith, away)),
          )
    ]

any_is-any : (js : List ℕ) → All (λ j. any_is j js ≡ true) js
unfolding any_is
any_is-any [] = tt
any_is-any (j ∷ js) = (
  ground arith,
  All-mono (λ k. any_is k js ≡ true) (λ k. any_is k (j ∷ js) ≡ true) (λ k h. ground (arith, h)) js
      (any_is-any js),
)

-- When each lookup names only nodes with a client, and the random choice is in its bounds, a read
-- of a source for which the lookup names no node is an error; any other read goes to the local
-- node, if the lookup names it, and else to some other node that the lookup names.
pub route_lem :
    (l : String → List ℕ) (pick : ℕ → ℕ) (p : EgressReverseProxy) (source_id : String)
    → All (λ i. i < p.clients) (l source_id)
    → ((n : ℕ) → 0 < n → pick n < n)
    → ((l source_id ≡ []) × (route l pick p source_id ≡ some unavailable))
      ⊎ ((j : ℕ) × (route l pick p source_id ≡ some (ask j))
          × (any_is j (l source_id) ≡ true)
          × (any_is p.local_idx (l source_id) ≡ true → j ≡ p.local_idx))
route_lem l pick p source_id known fair =
    route-All (λ j. any_is j (l source_id) ≡ true) l pick p source_id known fair
      (any_is-any (l source_id))

cached_local :
    (answer answer' : ℕ → Bool → Option MetaResp) (now later : ℕ) (only : Bool)
    (p p' : EgressReverseProxy) (r : MetaResp)
    → local_meta answer now only p ≡ (some r, p')
    → is_expired now p.local_meta_cache ≡ true
    → later ≤ now + p.meta_cache_duration
    → local_meta answer' later only p' ≡ (some r, p')
unfolding local_meta is_expired
cached_local answer answer' now later only p p' r e old soon =
    elim (Option-cases (answer p.local_idx only)) [
      | inl failed ↦ absurd (ground (arith, failed, old))
      | inr (resp, found) ↦ ground (arith, found, old)
    ]

cached_remote :
    (answer answer' : ℕ → Bool → Option MetaResp) (now later : ℕ) (p p' : EgressReverseProxy)
    (r : MetaResp)
    → remote_meta answer now p ≡ (some r, p')
    → is_expired now p.remote_meta_cache ≡ true
    → later ≤ now + p.meta_cache_duration
    → remote_meta answer' later p' ≡ (some r, p')
unfolding remote_meta is_expired
cached_remote answer answer' now later p p' r e old soon = ground arith

-- An answer to a meta request that found its cache expired is given again, without asking a node
-- (whatever the nodes would now answer) and without a change of the proxy, to the same kind of
-- request until the duration of the cache is over.
pub egress_meta-egress_meta :
    (answer answer' : ℕ → Bool → Option MetaResp) (now later : ℕ) (only : Bool)
    (p p' : EgressReverseProxy) (r : MetaResp)
    → egress_meta answer now only p ≡ (some r, p')
    → is_expired now (if only then p.local_meta_cache else p.remote_meta_cache) ≡ true
    → later ≤ now + p.meta_cache_duration
    → egress_meta answer' later only p' ≡ (some r, p')
unfolding egress_meta
egress_meta-egress_meta answer answer' now later true p p' r e old soon =
    cached_local answer answer' now later true p p' r e old soon
egress_meta-egress_meta answer answer' now later false p p' r e old soon =
    cached_remote answer answer' now later p p' r e old soon
