-- ===== src/Store/Expire.antt =====
-- Store.truncate: pruning over a heap of the sources' oldest timestamps.
pub mod Heap
pub mod Removal
pub mod Mirror
pub mod Pruning
pub mod Truncation
use log_cache.Common.{
  ℕ, zero, suc, ◌+◌, ◌-◌, String, Bool, true, false, Option, none, some, ◌>>=◌, List, [], ◌∷◌, ltb,
  ◌==◌, if◌then◌else◌, lookup, insert, delete, zero64,
}
use log_cache.Tree.{AvlTree}
use log_cache.Envelope.{Envelope}
use log_cache.Store.State.{Storage, Metrics, Store, calculate_cache_period, min_int64}
use log_cache.Store.Put.{inc_expired, expire_one}
use Heap.{Expiration, HeapLib}

-- ExpirationHeap.Pop: the last entry of the slice. Of an empty slice it panics.
unfoldable pub pop_last : List Expiration → Option (Expiration × List Expiration)
pop_last [] = none
pop_last (x ∷ []) = some (x, [])
pop_last (x ∷ y ∷ h) = do (z, rest) ← pop_last (y ∷ h); some (z, x ∷ rest)

-- The end of truncate: the oldest timestamp of the store, and the cache period.
unfoldable pub reset_oldest : ℕ → List Expiration → Store → Option Store
unfolding pop_last
reset_oldest now [] s =
    let m = s.metrics in
    some (record s { oldest_timestamp = min_int64; metrics = record m { cache_period = zero64 } })
reset_oldest now (x ∷ h) s = do
  (oldest, _) ← pop_last (x ∷ h)
  let m = s.metrics
  some (record s {
    oldest_timestamp = oldest.timestamp;
    metrics = record m { cache_period = calculate_cache_period now oldest.timestamp };
  })

-- The push back of a source that is not empty.
unfoldable pub push_again : (heap : HeapLib) → Option ℕ → String → List Expiration → List Expiration
push_again heap none id h = h
push_again heap (some t) id h = heap.push (record { timestamp = t; source_id = id }) h

module _ (avl : AvlTree Envelope) where
  -- The new oldest timestamp, unless the source is gone, and the store. The storage stands under
  -- the id in the index, where a change through its pointer is seen.
  unfoldable pub remove_oldest_envelope : Storage → String → Store → Option (Option ℕ × Store)
  unfolding inc_expired expire_one
  remove_oldest_envelope storage source_id s =
      if avl.size storage.tree == 0 then some (none, s) else (do
        let s' = inc_expired (record s { count = s.count - 1 })
        oldest ← avl.left storage.tree
        let tree = avl.remove oldest.0 storage.tree
        if avl.size tree == 0
            then some (none, record s' { storage_index = delete source_id s'.storage_index })
            else (do
              new_oldest ← avl.left tree
              let meta = expire_one storage.meta
              let storage' = record storage {
                tree = tree;
                meta = record meta { oldest_timestamp = new_oldest.0 };
              }
              some (
                some new_oldest.0,
                record s' { storage_index = insert source_id storage' s'.storage_index },
              )))

  module _ (heap : HeapLib) where
    -- The walk over the index in BuildExpirationHeap. An empty tree has no leftmost node: a panic.
    unfoldable pub push_all : List (String × Storage) → List Expiration → Option (List Expiration)
    push_all [] h = some h
    push_all ((id, storage) ∷ index) h = do
      oldest ← avl.left storage.tree
      push_all index (heap.push (record { timestamp = oldest.0; source_id = id }) h)

    unfoldable pub build_expiration_heap : Store → Option (List Expiration)
    unfolding push_all
    build_expiration_heap s = push_all s.storage_index []

    -- The loop of truncate. The storage of a heap entry is found under its source id; that it
    -- always is there is part of the theorems.
    unfoldable pub prune : ℕ → List Expiration → Store → Option (List Expiration × Store)
    unfolding push_again remove_oldest_envelope
    prune zero h s = some (h, s)
    prune (suc n) h s = do
      (oldest, h') ← heap.pop h
      storage ← lookup oldest.source_id s.storage_index
      (new_oldest, s') ← remove_oldest_envelope storage oldest.source_id s
      prune n (push_again heap new_oldest oldest.source_id h') s'

    -- The store, and what is sent on truncationCompleted. `quantity` is GetQuantityToPrune. A round
    -- on its own: the code locks one source's tree at a time, and a Put that runs at the same time is
    -- not covered.
    unfoldable pub truncate : ℕ → (ℕ → ℕ) → Store → Option (Store × Bool)
    truncate now quantity s =
        let n = quantity s.count in
        if n == 0 then some (s, false) else (do
          h ← build_expiration_heap s
          (h', s') ← prune (if ltb s.count n then s.count else n) h s
          s'' ← reset_oldest now h' s'
          let m = s''.metrics
          some (record s'' { metrics = record m { store_size = s''.count } }, true))
