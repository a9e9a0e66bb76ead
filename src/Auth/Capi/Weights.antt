-- ===== src/Auth/Capi/Weights.antt =====
-- internal/auth/capi_client.go, IsAuthorized: how many listings an entry of the cache allows.
use log_cache.Common.{Option, keep, str_eq, false, Bool-cases}
use log_cache.Common.{
  ℕ, zero, suc, ◌+◌, ◌-◌, ◌*◌, ◌≤◌, ◌<◌, ◌≡◌, inl, inr, String, none, some, >>=-eq-some, List, [],
  ◌∷◌, ◌++◌, if◌then◌else◌, lookup, lookup-insert, eq_iff, arith, Option-cases, leb, length,
}
use native.Mathlib.Nat.{mul-le-mul_left, mul-one, mul-zero, add-zero}
use log_cache.Auth.Capi.{
  AuthorizedSourceIds, prune_tokens, CapiClient, list_again, ask_cache, store_ids,
}
use log_cache.Auth.Capi.Calls.{take_out}

-- The listings that one call in flight stands for, with at most `m` at a time: its own, and those of
-- the calls that find its entry, which has `k` retries left.
unfoldable pub weight : ℕ → ℕ → ℕ
weight m zero = 0
weight m (suc k) = 1 + m * weight m k

pub weight_mono : (m j k : ℕ) → j ≤ k → weight m j ≤ weight m k
unfolding weight
weight_mono m zero k h = omega arith
weight_mono m (suc j) zero h = absurd (omega arith)
weight_mono m (suc j) (suc k) h =
    omega (arith, mul-le-mul_left m (weight_mono m j k (omega (arith, h))))

unfoldable pub total : ℕ → List ℕ → ℕ
total m [] = 0
total m (n ∷ l) = weight m (suc (3 - n)) + total m l

pub total-append :
    (m n : ℕ) (l : List ℕ) → total m (l ++ (n ∷ [])) ≡ total m l + weight m (suc (3 - n))
unfolding total
total-append m n [] = omega arith
total-append m n (a ∷ l) = omega (arith, total-append m n l)

pub length-total : (m : ℕ) (l : List ℕ) → length l ≤ total m l
unfolding total weight
length-total m [] = omega arith
length-total m (n ∷ l) = omega (arith, length-total m l)

pub weight_four : (m : ℕ) → weight m 4 ≡ 1 + m * (1 + m * (1 + m))
unfolding weight
weight_four m = simp (mul-zero, mul-one, add-zero)

pub take_out-total :
    (m i n : ℕ) (l r : List ℕ)
    → take_out i l ≡ some (n, r)
    → (total m l ≡ weight m (suc (3 - n)) + total m r) × (length l ≡ suc (length r))
unfolding take_out total
take_out-total m i n [] r e = absurd (cc)
take_out-total m zero n (a ∷ l) r e = ground arith
take_out-total m (suc i) n (a ∷ l) r e =
    let ((b, s), found, last) = >>=-eq-some (take_out i l) _ e in
    ground (arith, take_out-total m i b l s found)

pub length_snoc : (l : List ℕ) (n : ℕ) → length (l ++ (n ∷ [])) ≡ suc (length l)
length_snoc [] n = omega arith
length_snoc (a ∷ l) n = omega (arith, length_snoc l n)

-- The listings that are left for a token until `deadline`, if calls come one after another: an entry
-- that is live until then counts its retries, any other may be listed anew.
abbrev pub budget : ℕ → String → CapiClient → ℕ
budget deadline token c = elim (lookup token c.token_cache) [
  | none ↦ 4
  | some e ↦ if leb deadline e.expires_at then 3 - e.retry_count else 4
]

pub verdict-budget :
    (token : String) (deadline now : ℕ) (id : String) (c : CapiClient) (n : ℕ)
    → now < deadline
    → ask_cache now id token c ≡ list_again n
    → suc (3 - n) ≤ budget deadline token c
unfolding ask_cache
verdict-budget token deadline now id c n soon e = elim (Option-cases (lookup token c.token_cache)) [
  | inl missing ↦ ground (arith, missing)
  | inr (entry, found) ↦ ground (arith, found)
]

pub budget_stored :
    (token : String) (deadline later n : ℕ) (ids : List String) (c : CapiClient)
    → deadline ≤ later + c.cache_expiration_interval
    → budget deadline token (store_ids later token ids n c) ≡ 3 - n
budget_stored token deadline later n ids c far = ground (
  arith,
  eq_iff token token,
  lookup-insert token token
      (record {
        source_ids = ids;
        retry_count = n;
        expires_at = later + c.cache_expiration_interval;
      })
      c.token_cache,
)

-- A round of pruneTokens before the deadline drops only entries that are not live until then.
pub prune_tokens-budget :
    (token : String) (deadline now : ℕ) (c : CapiClient)
    → now < deadline
    → budget deadline token (prune_tokens now c) ≤ budget deadline token c
unfolding prune_tokens lookup
prune_tokens-budget token deadline now c soon = go c.token_cache
  where
    left : Option AuthorizedSourceIds → ℕ
    left none = 4
    left (some e) = if leb deadline e.expires_at then 3 - e.retry_count else 4

    small : (r : Option AuthorizedSourceIds) → left r ≤ 4
    small none = omega arith
    small (some e) = ground arith

    go :
        (m : List (String × AuthorizedSourceIds))
        → left (lookup token (keep (λ d. leb now (d.1.expires_at)) m)) ≤ left (lookup token m)
    go [] = omega arith
    go ((k, e) ∷ m) = elim (Bool-cases (leb now e.expires_at)) [
      | inl kept ↦ elim (Bool-cases (str_eq k token)) [
        | inl same ↦ rw (kept, same) (omega arith)
        | inr other ↦ rw (kept, other) (go m)
      ]
      | inr dropped ↦ elim (Bool-cases (str_eq k token)) [
        | inl same ↦
            let late : leb deadline e.expires_at ≡ false = ground (arith, dropped, soon) in
            rw (dropped, same, late) (small _)
        | inr other ↦ rw (dropped, other) (go m)
      ]
    ]
