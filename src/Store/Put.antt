-- ===== src/Store/Put.antt =====
-- Store.Put: find or make the source's tree, make room in it, find a free key, insert.
pub mod Storages
pub mod Slots
pub mod Steps
pub mod Invariant
pub mod Contents
use log_cache.Common.{
  ℕ, zero, suc, ◌+◌, ◌-◌, String, Bool, true, false, Option, none, some, ◌>>=◌, List, ltb, leb,
  if◌then◌else◌, lookup, insert, zero64, add64,
}
use log_cache.Tree.{Tree, leaf, AvlTree}
use log_cache.Envelope.{Envelope}
use log_cache.Store.State.{MetaInfo, Storage, Metrics, Store, calculate_cache_period}

unfoldable pub new_storage : String → Storage
new_storage source_id = record {
  source_id = source_id;
  meta = record { count = 0; expired = 0; oldest_timestamp = zero64; newest_timestamp = zero64 };
  tree = leaf;
}

-- The storage, whether it is new, and the store.
unfoldable pub get_or_initialize_storage : String → Store → Storage × Bool × Store
get_or_initialize_storage source_id s = elim (lookup source_id s.storage_index) [
  | some storage ↦ (storage, false, s)
  | none ↦ (
    new_storage source_id,
    true,
    record s { storage_index = insert source_id (new_storage source_id) s.storage_index },
  )
]

-- store.metrics.incExpired.Add(1)
unfoldable pub inc_expired : Store → Store
inc_expired s = let m = s.metrics in record s { metrics = record m { expired = m.expired + 1 } }

-- `meta.Expired++`
unfoldable pub expire_one : MetaInfo → MetaInfo
expire_one m = record m { expired = m.expired + 1 }

-- The end of insertOrSwap: the newest and the oldest timestamp of the source, the oldest of the
-- store, and the cache period.
unfoldable pub track_times : ℕ → Envelope → ℕ → Storage → Store → Storage × Store
track_times now e oldest storage s =
    let meta = storage.meta in
    let newest =
      if ltb meta.newest_timestamp e.timestamp then e.timestamp else meta.newest_timestamp in
    let store_oldest = if ltb oldest s.oldest_timestamp then oldest else s.oldest_timestamp in
    let metrics = s.metrics in
    (
      record storage {
        meta = record meta { newest_timestamp = newest; oldest_timestamp = oldest };
      },
      record s {
        oldest_timestamp = store_oldest;
        metrics = record metrics { cache_period = calculate_cache_period now store_oldest };
      },
    )

module _ (avl : AvlTree Envelope) where
  -- The first `if` of insertOrSwap. At a limit of 0 the tree can be empty: Left() is nil, and the
  -- read of its key panics.
  unfoldable pub make_room : Storage → Store → Option (Storage × Store)
  unfolding inc_expired expire_one
  make_room storage s =
      if leb s.max_per_source (avl.size storage.tree)
      then (do
        oldest ← avl.left storage.tree
        some (
          record storage {
            tree = avl.remove oldest.0 storage.tree;
            meta = expire_one storage.meta;
          },
          inc_expired s,
        ))
      else (let m = s.metrics in
          some (
            storage,
            record s { count = s.count + 1; metrics = record m { store_size = s.count + 1 } },
          ))

  -- The loop over timestampFudge, by the rounds that are left.
  unfoldable pub free_slot : ℕ → ℕ → ℕ → Tree Envelope → ℕ
  free_slot zero fudge timestamp tree = fudge
  free_slot (suc rounds) fudge timestamp tree = elim (avl.get (add64 timestamp fudge) tree) [
    | none ↦ fudge
    | some _ ↦ free_slot rounds (fudge + 1) timestamp tree
  ]

  -- The key under which insertOrSwap puts an envelope.
  unfoldable pub slot_key : ℕ → ℕ → Tree Envelope → ℕ
  slot_key max_fudge timestamp tree = add64 timestamp (free_slot max_fudge 0 timestamp tree)

  -- `storage.Put` and what follows it.
  unfoldable pub insert_envelope : ℕ → Envelope → ℕ → Storage → Store → Option (Storage × Store)
  unfolding track_times
  insert_envelope now e key storage s = do
    let tree = avl.put key e storage.tree
    oldest ← avl.left tree
    some (track_times now e oldest.0 (record storage { tree = tree }) s)

  unfoldable pub insert_or_swap : ℕ → Envelope → Storage → Store → Option (Storage × Store)
  insert_or_swap now e storage s = do
    (roomy, s') ← make_room storage s
    insert_envelope now e (slot_key s.max_timestamp_fudge e.timestamp roomy.tree) roomy s'

  -- The storage is written back where the code changes it through its pointer.
  unfoldable pub put : ℕ → Envelope → String → Store → Option Store
  put now e source_id s = do
    let m = s.metrics
    let counted = record s { metrics = record m { ingress = m.ingress + 1 } }
    let (storage, _, s1) = get_or_initialize_storage source_id counted
    (storage', s2) ← insert_or_swap now e storage s1
    some (record s2 { storage_index = insert source_id storage' s2.storage_index })
