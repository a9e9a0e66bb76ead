-- ===== src/Store/Expire/Truncation.antt =====
-- Store.truncate as a whole.
use log_cache.Store.State.{min_int64, calculate_cache_period}
use log_cache.Common.{subst, zero64}
use Prim.Native.Nat.{min}
use log_cache.Common.{
  ℕ, ◌+◌, ◌<◌, ◌≡◌, inl, inr, refl, Bool, true, false, not, none, some, List, [], ◌∷◌, arith, All,
  ltb, ◌==◌, if◌then◌else◌, Bool-cases,
}
use log_cache.Tree.{AvlTree}
use log_cache.Envelope.{Envelope}
use log_cache.Store.State.{Store, Metrics}
use log_cache.Store.Put.Storages.{stored, IsValid}
use log_cache.Store.Expire.Heap.{Expiration, HeapLib}
use log_cache.Store.Expire.Mirror.{build_expiration_heap-Mirrors}
use log_cache.Store.Expire.Pruning.{Prunes, prune-Prunes, prune_too_many, count-Prunes}
use log_cache.Store.Expire.{pop_last, reset_oldest, truncate}

pop_last-All :
    (P : Expiration → Type 0) (x : Expiration) (h : List Expiration)
    → All P (x ∷ h)
    → (y : Expiration) × (r : List Expiration) × (pop_last (x ∷ h) ≡ some (y, r)) × P y
unfolding pop_last
pop_last-All P x [] a = (x, [], refl, a.0)
pop_last-All P x (y ∷ h) a = let (z, r, e, p) = pop_last-All P y h a.1 in (z, x ∷ r, rw e, p)

pop_last-some :
    (x : Expiration) (h : List Expiration)
    → (y : Expiration) × (r : List Expiration) × (pop_last (x ∷ h) ≡ some (y, r))
unfolding pop_last
pop_last-some x [] = (x, [], refl)
pop_last-some x (y ∷ h) = let (z, r, e) = pop_last-some y h in (z, x ∷ r, rw e)

min_if : (n count : ℕ) → (if ltb count n then count else n) ≡ min n count
min_if n count = ground arith

-- reset_oldest succeeds, and changes only the oldest timestamp and the metrics.
reset_oldest-some :
    (now : ℕ) (h : List Expiration) (s : Store)
    → (t : ℕ) × (m : Metrics) × (reset_oldest now h s
        ≡ some (record s { oldest_timestamp = t; metrics = m }))
unfolding reset_oldest
reset_oldest-some now [] s =
    let m = s.metrics in (min_int64, record m { cache_period = zero64 }, refl)
reset_oldest-some now (x ∷ h) s =
    let (y, r, e) = pop_last-some x h in
    let m = s.metrics in
    (
      y.timestamp,
      record m { cache_period = calculate_cache_period now y.timestamp },
      rw (e, reset_oldest),
    )

module _ (heap : HeapLib) (avl : AvlTree Envelope) (now : ℕ) (quantity : ℕ → ℕ) (s : Store)
    (v : IsValid s) where
  -- On a valid store with an exact count truncate never panics. It removes the oldest envelope of
  -- the whole store as often as the consultant says, but at most as often as there are envelopes;
  -- the store stays valid and its count exact, and true is sent unless there was nothing to do.
  pub truncate-Prunes :
      stored s ≡ s.count
      → (s' : Store) × (b : Bool) × (t : Store) × (truncate avl heap now quantity s ≡ some (s', b))
        × Prunes (min (quantity s.count) s.count) s t
        × (s'.storage_index ≡ t.storage_index)
        × IsValid s'
        × (stored s' ≡ s'.count)
        × (s'.count + min (quantity s.count) s.count ≡ s.count)
        × (b ≡ not (quantity s.count == 0))
  unfolding truncate
  truncate-Prunes exact = elim (Bool-cases (quantity s.count == 0)) [
    | inl idle ↦ (
      s,
      false,
      s,
      rw idle,
      subst (λ k. Prunes k s s) (nothing idle) refl,
      refl,
      v,
      exact,
      ground arith,
      rw idle,
    )
    | inr busy ↦
        let n = min (quantity s.count) s.count in
        let (h, built, mirror) = build_expiration_heap-Mirrors heap avl s v in
        let (h', t, pruned, prunes, valid, _, less) =
          prune-Prunes heap avl n h s v mirror (omega (arith)) in
        let (oldest, m, reset) = reset_oldest-some now h' t in
        (
          record t { oldest_timestamp = oldest; metrics = record m { store_size = t.count } },
          true,
          t,
          rw (busy, built, min_if (quantity s.count) s.count, pruned, reset),
          prunes,
          refl,
          record { distinct = valid.distinct; sound = valid.sound; counted = valid.counted },
          omega (arith, count-Prunes n s t prunes),
          count-Prunes n s t prunes,
          rw busy,
        )
  ]
    where
      nothing : (quantity s.count == 0) ≡ true → 0 ≡ min (quantity s.count) s.count
      nothing idle = ground arith

  -- If the count is above the number of envelopes, and the consultant asks for more of them than
  -- there are, the heap runs empty and truncate panics.
  pub truncate_panics :
      stored s < s.count → stored s < quantity s.count → truncate avl heap now quantity s ≡ none
  unfolding truncate
  truncate_panics drift many =
      let (h, built, mirror) = build_expiration_heap-Mirrors heap avl s v in
      let few : stored s < (if ltb s.count (quantity s.count) then s.count else quantity s.count) =
        ground arith in
      let panics = prune_too_many heap avl _ h s v mirror few in
      let busy : (quantity s.count == 0) ≡ false = ground arith in rw (busy, built, panics)

-- The oldest timestamp that truncate leaves is not the oldest: whenever the heap holds two or more
-- sources and its root is older than all others, the timestamp is set to a later one.
pub reset_oldest_late :
    (now : ℕ) (x y : Expiration) (h : List Expiration) (s : Store)
    → All (λ z. x.timestamp < z.timestamp) (y ∷ h)
    → (s' : Store) × (reset_oldest now (x ∷ y ∷ h) s ≡ some s')
      × (x.timestamp < s'.oldest_timestamp)
unfolding reset_oldest pop_last
reset_oldest_late now x y h s older =
    let (z, r, e, later) = pop_last-All (λ z. x.timestamp < z.timestamp) y h older in
    let m = s.metrics in
    (
      record s {
        oldest_timestamp = z.timestamp;
        metrics = record m { cache_period = calculate_cache_period now z.timestamp };
      },
      rw e,
      later,
    )
