-- ===== src/Store/Put/Steps.antt =====
-- What insertOrSwap does to a source's entries, on every path.
use log_cache.Common.{
  ℕ, ◌+◌, ◌≤◌, ◌<◌, ◌≡◌, ◌≢◌, none, some, List, [], ◌∷◌, arith, add64, leb, length, if◌then◌else◌,
  inl, inr, Bool, not, Bool-cases,
}
use Prim.Native.Nat.{max, min}
use log_cache.Tree.{
  entries, Sorted, find, upsert, upsert-Sorted, length-upsert_bounds, discard_head, AvlTree,
}
use log_cache.Envelope.{Envelope}
use log_cache.Store.State.{Storage, Store}
use log_cache.Store.Put.Storages.{oldest_key, List-cases}
use log_cache.Store.Put.Slots.{free_slot_bounds, free_slot_free, free_slot_first}
use log_cache.Store.Put.{
  free_slot, slot_key, track_times, insert_envelope, insert_or_swap, make_room, expire_one,
  inc_expired,
}

-- The entries that stay: the oldest goes when the source is at its limit.
abbrev pub tail : List (ℕ × Envelope) → List (ℕ × Envelope)
tail [] = []
tail (e ∷ l) = l

abbrev pub room : ℕ → List (ℕ × Envelope) → List (ℕ × Envelope)
room limit l = if leb limit (length l) then tail l else l

pub room-Sorted : (limit : ℕ) (l : List (ℕ × Envelope)) → Sorted l → Sorted (room limit l)
room-Sorted limit [] s = ground arith
room-Sorted limit (e ∷ l) s = ground arith

pub length-room :
    (limit : ℕ) (l : List (ℕ × Envelope))
    → 0 < limit
    → length l ≤ limit
    → length (room limit l) < limit
length-room limit [] h k = ground arith
length-room limit (e ∷ l) h k = ground arith

abbrev pub one_if : Bool → ℕ → ℕ
one_if b n = if b then n + 1 else n

pub length-room_eq :
    (limit : ℕ) (l : List (ℕ × Envelope))
    → 0 < limit
    → length l ≤ limit
    → length (room limit l) + one_if (leb limit (length l)) 0 ≡ length l
length-room_eq limit [] h k = ground arith
length-room_eq limit (e ∷ l) h k = ground arith

abbrev pub is_full : Store → Storage → Bool
is_full s storage = leb s.max_per_source (length (entries storage.tree))

-- insertOrSwap took `storage` and `s` to `storage'` and `s'`.
pub record Inserts (e : Envelope) (storage storage' : Storage) (s s' : Store) : Type 0 where
  pub fudge : ℕ
  pub fudge_le : fudge ≤ s.max_timestamp_fudge
  pub stored :
      entries storage'.tree
      ≡ upsert (add64 e.timestamp fudge) e (room s.max_per_source (entries storage.tree))
  pub free :
      fudge < s.max_timestamp_fudge
      → find (add64 e.timestamp fudge) (room s.max_per_source (entries storage.tree)) ≡ none
  pub first :
      (j : ℕ)
      → j < fudge
      → find (add64 e.timestamp j) (room s.max_per_source (entries storage.tree)) ≢ none
  pub source : storage'.source_id ≡ storage.source_id
  pub oldest : storage'.meta.oldest_timestamp ≡ oldest_key (entries storage'.tree)
  pub newest : storage'.meta.newest_timestamp ≡ max storage.meta.newest_timestamp e.timestamp
  pub expired : storage'.meta.expired ≡ one_if (is_full s storage) storage.meta.expired
  pub count : s'.count ≡ one_if (not (is_full s storage)) s.count
  pub store_oldest :
      s'.oldest_timestamp ≡ min s.oldest_timestamp (oldest_key (entries storage'.tree))
  pub index : s'.storage_index ≡ s.storage_index
  pub max_per_source : s'.max_per_source ≡ s.max_per_source
  pub max_fudge : s'.max_timestamp_fudge ≡ s.max_timestamp_fudge

-- The same of `make_room` alone.
record Rooms (storage roomy : Storage) (s s' : Store) : Type 0 where
  stored : entries roomy.tree ≡ room s.max_per_source (entries storage.tree)
  source : roomy.source_id ≡ storage.source_id
  newest : roomy.meta.newest_timestamp ≡ storage.meta.newest_timestamp
  expired : roomy.meta.expired ≡ one_if (is_full s storage) storage.meta.expired
  count : s'.count ≡ one_if (not (is_full s storage)) s.count
  store_oldest : s'.oldest_timestamp ≡ s.oldest_timestamp
  index : s'.storage_index ≡ s.storage_index
  max_per_source : s'.max_per_source ≡ s.max_per_source
  max_fudge : s'.max_timestamp_fudge ≡ s.max_timestamp_fudge

module _ (avl : AvlTree Envelope) (storage : Storage) (s : Store)
    (sorted : Sorted (entries storage.tree)) where
  -- With a positive limit nothing panics.
  make_room_lem :
      0 < s.max_per_source
      → (roomy : Storage) × (s' : Store) × (make_room avl storage s ≡ some (roomy, s'))
        × Rooms storage roomy s s'
  unfolding make_room
  make_room_lem positive = elim (Bool-cases (is_full s storage)) [
    | inr e ↦ (
      storage,
      record s { count = s.count + 1; metrics = record (s.metrics) { store_size = s.count + 1 } },
      ground (arith, avl.size_lem storage.tree),
      ground (arith, avl.size_lem storage.tree),
    )
    | inl e ↦ elim (List-cases (entries storage.tree)) [
      | inl none_left ↦ absurd (ground arith)
      | inr (d, r, some_left) ↦ (
        record storage { tree = avl.remove d.0 storage.tree; meta = expire_one storage.meta },
        inc_expired s,
        ground (arith, avl.size_lem storage.tree, avl.left_lem storage.tree sorted),
        ground (arith, avl.entries-remove d.0 storage.tree sorted, discard_head d.0 d.1 r),
      )
    ]
  ]

-- The same of `insert_envelope` alone.
record Tracks (e : Envelope) (key : ℕ) (storage storage' : Storage) (s s' : Store) : Type 0 where
  stored : entries storage'.tree ≡ upsert key e (entries storage.tree)
  source : storage'.source_id ≡ storage.source_id
  oldest : storage'.meta.oldest_timestamp ≡ oldest_key (entries storage'.tree)
  newest : storage'.meta.newest_timestamp ≡ max storage.meta.newest_timestamp e.timestamp
  expired : storage'.meta.expired ≡ storage.meta.expired
  count : s'.count ≡ s.count
  store_oldest : s'.oldest_timestamp ≡ min s.oldest_timestamp (oldest_key (entries storage'.tree))
  index : s'.storage_index ≡ s.storage_index
  max_per_source : s'.max_per_source ≡ s.max_per_source
  max_fudge : s'.max_timestamp_fudge ≡ s.max_timestamp_fudge

module _ (avl : AvlTree Envelope) (now : ℕ) (e : Envelope) where
  insert_envelope_lem :
      (key : ℕ) (storage : Storage) (s : Store)
      → Sorted (entries storage.tree)
      → (storage' : Storage) × (s' : Store) × (insert_envelope avl now e key storage s
          ≡ some (storage', s'))
        × Tracks e key storage storage' s s'
  unfolding insert_envelope
  insert_envelope_lem key storage s sorted =
      elim (List-cases (entries (avl.put key e storage.tree))) [
        | inl none_there ↦ absurd (
            ground (
              arith,
              avl.entries-put key e storage.tree sorted,
              length-upsert_bounds key e (entries storage.tree),
            ))
        | inr (d, r, there) ↦
            let tree = avl.put key e storage.tree in
            let new = track_times now e d.0 (record storage { tree = tree }) s in
            let left : avl.left tree ≡ some d = ground (
              arith,
              avl.left_lem tree
                  (rw (avl.entries-put key e storage.tree sorted) (upsert-Sorted key e _ sorted)),
            ) in
            (new.0, new.1, ground arith, ground (arith, avl.entries-put key e storage.tree sorted))
      ]

  -- insertOrSwap always succeeds on a tree in order.
  pub insert_or_swap_lem :
      (storage : Storage) (s : Store)
      → Sorted (entries storage.tree)
      → 0 < s.max_per_source
      → (storage' : Storage) × (s' : Store) × (insert_or_swap avl now e storage s
          ≡ some (storage', s'))
        × Inserts e storage storage' s s'
  unfolding insert_or_swap slot_key
  insert_or_swap_lem storage s sorted positive =
      let (roomy, s1, made, rooms) = make_room_lem avl storage s sorted positive in
      let ordered : Sorted (entries roomy.tree) = rw (rooms.stored) (room-Sorted _ _ sorted) in
      let fudge = free_slot avl s.max_timestamp_fudge 0 e.timestamp roomy.tree in
      let (storage', s2, inserted, tracks) =
        insert_envelope_lem (add64 e.timestamp fudge) roomy s1 ordered in
      (
        storage',
        s2,
        ground arith,
        record {
          fudge = fudge;
          fudge_le =
              omega (arith, free_slot_bounds avl e.timestamp roomy.tree s.max_timestamp_fudge 0);
          stored = ground (arith);
          free = λ h. rw (← rooms.stored) (
              free_slot_free avl e.timestamp roomy.tree ordered s.max_timestamp_fudge 0
                (omega arith));
          first = λ j h. rw (← rooms.stored) (
              free_slot_first avl e.timestamp roomy.tree ordered s.max_timestamp_fudge 0 j
                (omega arith) h);
          source = ground arith;
          oldest = tracks.oldest;
          newest = ground arith;
          expired = ground arith;
          count = ground arith;
          store_oldest = ground arith;
          index = ground arith;
          max_per_source = ground arith;
          max_fudge = ground arith;
        },
      )
