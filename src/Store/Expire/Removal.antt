-- ===== src/Store/Expire/Removal.antt =====
-- removeOldestEnvelope takes the oldest envelope of a source, and keeps the store valid.
use log_cache.Common.{
  ℕ, ◌+◌, ◌-◌, ◌<◌, ◌≡◌, refl, String, Option, none, some, List, [], ◌∷◌, arith, length, All,
  lookup, insert, delete, total-insert_old, total-delete, insert-Distinct, delete-Distinct,
  All-insert, All-delete, ap, subst, Distinct,
}
use log_cache.Tree.{AvlTree, entries, Sorted, discard_head}
use log_cache.Envelope.{Envelope}
use log_cache.Store.State.{Storage, Store}
use log_cache.Store.Put.{inc_expired, expire_one}
use log_cache.Store.Put.Storages.{HasSlot, IsSound, size_of, stored, IsValid, oldest_key}
use log_cache.Store.Expire.{remove_oldest_envelope}

-- The two ends: the source is gone, or it goes on with `left`, whose oldest timestamp is `new`.
pub data Outcome (id : String) (rest : List (ℕ × Envelope)) (s s' : Store) : Option ℕ → Type 0 where
  gone : rest ≡ [] → s'.storage_index ≡ delete id s.storage_index → Outcome id rest s s' none
  kept :
      (left : Storage) (new : ℕ)
      → entries left.tree ≡ rest
      → 0 < length rest
      → new ≡ oldest_key rest
      → IsSound s.max_per_source s.max_timestamp_fudge (id, left)
      → s'.storage_index ≡ insert id left s.storage_index
      → Outcome id rest s s' (some new)

pub record Removes (id : String) (rest : List (ℕ × Envelope)) (s s' : Store) (new : Option ℕ)
    : Type 0 where
  pub outcome : Outcome id rest s s' new
  pub count : s'.count ≡ s.count - 1
  pub max_per_source : s'.max_per_source ≡ s.max_per_source
  pub max_fudge : s'.max_timestamp_fudge ≡ s.max_timestamp_fudge
  pub expired : s'.metrics.expired ≡ s.metrics.expired + 1

module _ (avl : AvlTree Envelope) (storage : Storage) (id : String) (s : Store) where
  remove_from :
      (d : ℕ × Envelope) (rest : List (ℕ × Envelope))
      → entries storage.tree ≡ d ∷ rest
      → IsSound s.max_per_source s.max_timestamp_fudge (id, storage)
      → entries (avl.remove d.0 storage.tree) ≡ rest
      → (new : Option ℕ) × (s' : Store) × (remove_oldest_envelope avl storage id s ≡ some (new, s'))
        × Removes id rest s s' new
  unfolding remove_oldest_envelope
  remove_from d [] e sound after = (
    none,
    record (inc_expired (record s { count = s.count - 1 })) {
      storage_index = delete id s.storage_index;
    },
    ground (
      arith,
      avl.size_lem storage.tree,
      avl.size_lem (avl.remove d.0 storage.tree),
      avl.left_lem storage.tree sound.sorted,
    ),
    record {
      outcome = gone refl refl;
      count = refl;
      max_per_source = refl;
      max_fudge = refl;
      expired = refl;
    },
  )
  remove_from d (f ∷ rest) e sound after =
      let sorted : Sorted (d ∷ f ∷ rest) = subst Sorted e sound.sorted in
      let slots : All (HasSlot s.max_timestamp_fudge) (d ∷ f ∷ rest) =
        subst (All (HasSlot s.max_timestamp_fudge)) e sound.slots in
      let tree = avl.remove d.0 storage.tree in
      let meta = expire_one storage.meta in
      let left : Storage = record storage {
        tree = tree;
        meta = record meta { oldest_timestamp = f.0 };
      } in
      let left_sorted : Sorted (entries tree) = rw after sorted.1 in
      (
        some f.0,
        record (inc_expired (record s { count = s.count - 1 })) {
          storage_index = insert id left s.storage_index;
        },
        ground (
          arith,
          avl.size_lem storage.tree,
          avl.size_lem tree,
          avl.left_lem storage.tree sound.sorted,
          avl.left_lem tree left_sorted,
        ),
        record {
          outcome =
              kept left f.0 after (omega arith) refl
                (record {
                  source = sound.source;
                  sorted = left_sorted;
                  filled = rw after (omega arith);
                  bounded = rw after (omega (arith, sound.bounded, ap length e));
                  oldest = rw after refl;
                  slots = rw after slots.1;
                })
                refl;
          count = refl;
          max_per_source = refl;
          max_fudge = refl;
          expired = refl;
        },
      )

  pub remove_oldest_envelope_lem :
      (d : ℕ × Envelope) (rest : List (ℕ × Envelope))
      → entries storage.tree ≡ d ∷ rest
      → IsSound s.max_per_source s.max_timestamp_fudge (id, storage)
      → (new : Option ℕ) × (s' : Store) × (remove_oldest_envelope avl storage id s ≡ some (new, s'))
        × Removes id rest s s' new
  remove_oldest_envelope_lem d rest e sound =
      remove_from d rest e sound (
        ground (arith, avl.entries-remove d.0 storage.tree sound.sorted, discard_head d.0 d.1 rest))

-- How the index changes: no source is doubled, each stays sound, and one envelope less is stored.
record Shrinks (s s' : Store) : Type 0 where
  distinct : Distinct s'.storage_index
  sound : All (IsSound s.max_per_source s.max_timestamp_fudge) s'.storage_index
  less : stored s' + 1 ≡ stored s

Outcome-Shrinks :
    (id : String) (storage : Storage) (d : ℕ × Envelope) (rest : List (ℕ × Envelope)) (s s' : Store)
    {new : Option ℕ}
    → lookup id s.storage_index ≡ some storage
    → entries storage.tree ≡ d ∷ rest
    → IsValid s
    → Outcome id rest s s' new
    → Shrinks s s'
Outcome-Shrinks id storage d rest s s' found e v (gone empty i) = record {
  distinct = rw i (delete-Distinct id s.storage_index v.distinct);
  sound = rw i (All-delete _ id s.storage_index v.sound);
  less = rw i (
      omega (
        arith,
        ap length e,
        ap length empty,
        total-delete size_of id storage s.storage_index found,
      ));
}
Outcome-Shrinks id storage d rest s s' found e v (kept left new same filled oldest sound i) =
    record {
      distinct = rw i (insert-Distinct id left s.storage_index v.distinct);
      sound = rw i (All-insert _ id left s.storage_index sound v.sound);
      less = rw i (
          omega (
            arith,
            ap length e,
            ap length same,
            total-insert_old size_of id left storage s.storage_index found,
          ));
    }

-- The rest stays valid, and one envelope less is stored and counted.
pub Removes-IsValid :
    (id : String) (storage : Storage) (d : ℕ × Envelope) (rest : List (ℕ × Envelope)) (s s' : Store)
    (new : Option ℕ)
    → lookup id s.storage_index ≡ some storage
    → entries storage.tree ≡ d ∷ rest
    → IsValid s
    → Removes id rest s s' new
    → IsValid s' × (stored s' + 1 ≡ stored s) × (s'.count + 1 ≡ s.count)
Removes-IsValid id storage d rest s s' new found e v r =
    let h = Outcome-Shrinks id storage d rest s s' found e v r.outcome in
    (
      record {
        distinct = h.distinct;
        sound = rw (r.max_per_source, r.max_fudge) (h.sound);
        counted = omega (arith, v.counted, h.less, r.count);
      },
      h.less,
      omega (arith, v.counted, h.less, r.count),
    )
