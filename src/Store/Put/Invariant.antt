-- ===== src/Store/Put/Invariant.antt =====
-- Put keeps the invariant, and stores the envelope.
use log_cache.Common.{
  ℕ, ◌+◌, ◌≤◌, ◌<◌, ◌≡◌, refl, String, arith, add64, length, All, total, lookup, List, insert,
  Option-cases, inl, inr, none, some, insert-Distinct, All-insert, All-lookup, total-insert_old,
  total-insert_new, ◌∷◌, [], ◌∙◌, insert-insert, Bool, true, false, dec_lt,
}
use log_cache.Tree.{
  AvlTree, entries, Sorted, upsert-Sorted, length-upsert_bounds, length-upsert_new, upsert-All,
  find,
}
use log_cache.Envelope.{Envelope}
use log_cache.Store.State.{Storage, Store, Metrics}
use log_cache.Store.Put.Steps.{
  Inserts, insert_or_swap_lem, room, room-Sorted, length-room, length-room_eq,
}
use log_cache.Store.Put.Storages.{HasSlot, IsSound, size_of, stored, IsValid}
use log_cache.Store.Put.{put, new_storage, get_or_initialize_storage}

-- The invariant of a storage, but for `filled` and `oldest`, which a new storage does not meet.
record IsReady (limit fudge : ℕ) (id : String) (storage : Storage) : Type 0 where
  source : storage.source_id ≡ id
  sorted : Sorted (entries storage.tree)
  bounded : length (entries storage.tree) ≤ limit
  slots : All (HasSlot fudge) (entries storage.tree)

room-All :
    (P : ℕ × Envelope → Type 0) (limit : ℕ) (l : List (ℕ × Envelope))
    → All P l
    → All P (room limit l)
room-All P limit [] h = ground arith
room-All P limit (e ∷ l) h = ground arith

Inserts-IsSound :
    (e : Envelope) (id : String) (storage storage' : Storage) (s s' : Store)
    → 0 < s.max_per_source
    → IsReady s.max_per_source s.max_timestamp_fudge id storage
    → Inserts e storage storage' s s'
    → IsSound s.max_per_source s.max_timestamp_fudge (id, storage')
Inserts-IsSound e id storage storage' s s' positive r i =
    let l = room s.max_per_source (entries storage.tree) in
    let key = add64 e.timestamp i.fudge in
    record {
      source = i.source ∙ r.source;
      sorted = rw i.stored (upsert-Sorted key e l (room-Sorted _ _ r.sorted));
      filled = rw i.stored (omega (arith, length-upsert_bounds key e l));
      bounded = rw i.stored (
          omega (
            arith,
            length-upsert_bounds key e l,
            length-room s.max_per_source (entries storage.tree) positive r.bounded,
          ));
      oldest = i.oldest;
      slots =
          rw i.stored (upsert-All _ key e l (i.fudge, i.fudge_le, refl) (room-All _ _ _ r.slots));
    }

-- The storage of a source before a Put, new if there is none.
abbrev pub before : String → Store → Storage
before id s = elim (lookup id s.storage_index) [ some storage ↦ storage | none ↦ new_storage id ]

-- What a Put of `e` under `id` did: the source's storage is `storage`, and no other changed.
pub record Puts (e : Envelope) (id : String) (s s' : Store) : Type 0 where
  pub storage : Storage
  pub indexed : s'.storage_index ≡ insert id storage s.storage_index
  pub inserts : Inserts e (before id s) storage s (record s' { storage_index = s.storage_index })

Inserts-frame :
    (e : Envelope) (storage storage' : Storage) (s s' : Store) (index : List (String × Storage))
    (m : Metrics)
    → Inserts e storage storage' s s'
    → Inserts e storage storage'
        (record s { storage_index = index; metrics = m })
        (record s' { storage_index = index })
Inserts-frame e storage storage' s s' index m i = record {
  fudge = i.fudge;
  fudge_le = i.fudge_le;
  stored = i.stored;
  free = i.free;
  first = i.first;
  source = i.source;
  oldest = i.oldest;
  newest = i.newest;
  expired = i.expired;
  count = i.count;
  store_oldest = i.store_oldest;
  index = refl;
  max_per_source = i.max_per_source;
  max_fudge = i.max_fudge;
}

before-IsReady :
    (id : String) (s : Store)
    → IsValid s
    → IsReady s.max_per_source s.max_timestamp_fudge id (before id s)
unfolding new_storage entries
before-IsReady id s v = elim (Option-cases (lookup id s.storage_index)) [
  | inl e ↦
      rw (e, before) (record { source = refl; sorted = tt; bounded = omega arith; slots = tt })
  | inr (storage, e) ↦
      rw (e, before)
        (let h = All-lookup _ id s.storage_index v.sound e in
          record { source = h.source; sorted = h.sorted; bounded = h.bounded; slots = h.slots })
]

-- The store after the first line of Put.
abbrev counted : Store → Store
counted s = let m = s.metrics in record s { metrics = record m { ingress = m.ingress + 1 } }

put_from :
    (avl : AvlTree Envelope) (now : ℕ) (e : Envelope) (id : String) (s : Store) (storage : Storage)
    (b : Bool) (index : List (String × Storage))
    → get_or_initialize_storage id (counted s)
      ≡ (storage, b, record (counted s) { storage_index = index })
    → before id s ≡ storage
    → ((x : Storage) → insert id x index ≡ insert id x s.storage_index)
    → Sorted (entries storage.tree)
    → 0 < s.max_per_source
    → (s' : Store) × (put avl now e id s ≡ some s') × Puts e id s s'
unfolding put
put_from avl now e id s storage b index got found same sorted positive =
    let s1 = record (counted s) { storage_index = index } in
    let (storage', s2, done, i) = insert_or_swap_lem avl now e storage s1 sorted positive in
    (
      record s2 { storage_index = insert id storage' s2.storage_index },
      ground arith,
      record {
        storage = storage';
        indexed = rw i.index (same storage');
        inserts = rw found (Inserts-frame e storage storage' s1 s2 s.storage_index s.metrics i);
      },
    )

-- A Put on a valid store with a positive limit never panics, and does this.
pub put-Puts :
    (avl : AvlTree Envelope) (now : ℕ) (e : Envelope) (id : String) (s : Store)
    → IsValid s
    → 0 < s.max_per_source
    → (s' : Store) × (put avl now e id s ≡ some s') × Puts e id s s'
unfolding get_or_initialize_storage new_storage entries
put-Puts avl now e id s v positive = elim (Option-cases (lookup id s.storage_index)) [
  | inl new ↦
      put_from avl now e id s (new_storage id) true (insert id (new_storage id) s.storage_index)
        (ground arith) (ground arith) (λ x. insert-insert id x (new_storage id) s.storage_index) tt
        positive
  | inr (storage, old) ↦
      put_from avl now e id s storage false s.storage_index (ground arith) (ground arith)
        (λ x. refl) (All-lookup _ id s.storage_index v.sound old).sorted positive
]

before-size :
    (id : String) (s : Store) (storage : Storage)
    → total size_of (insert id storage s.storage_index) + size_of (before id s)
      ≡ stored s + size_of storage
unfolding new_storage entries
before-size id s storage = elim (Option-cases (lookup id s.storage_index)) [
  | inl new ↦ ground (arith, total-insert_new size_of id storage s.storage_index)
  | inr (old, e) ↦ ground (arith, total-insert_old size_of id storage old s.storage_index)
]

-- The count grows by no less than the number of stored envelopes, and by as much if the search
-- found a free key.
size-Inserts :
    (e : Envelope) (storage storage' : Storage) (s s' : Store)
    → 0 < s.max_per_source
    → size_of storage ≤ s.max_per_source
    → (i : Inserts e storage storage' s s')
    → (size_of storage' + s.count ≤ size_of storage + s'.count)
      × (i.fudge < s.max_timestamp_fudge → size_of storage' + s.count ≡ size_of storage + s'.count)
size-Inserts e storage storage' s s' positive h i =
    let l = entries storage.tree in
    let r = room s.max_per_source l in
    let key = add64 e.timestamp i.fudge in
    (
      ground (arith, length-upsert_bounds key e r, length-room_eq s.max_per_source l positive h),
      λ j. ground (
        arith,
        length-upsert_new key e r (i.free j),
        length-room_eq s.max_per_source l positive h,
      ),
    )

-- Put never panics on a valid store with a positive limit per source, and leaves it valid: every
-- tree in order, not empty and within its limit, under distinct source ids, with the oldest
-- timestamp of its meta right, every envelope within the fudge of its timestamp, and no more
-- envelopes than the count says.
pub put-IsValid :
    (avl : AvlTree Envelope) (now : ℕ) (e : Envelope) (id : String) (s : Store)
    → IsValid s
    → 0 < s.max_per_source
    → (s' : Store) × (put avl now e id s ≡ some s') × IsValid s'
put-IsValid avl now e id s v positive =
    let (s', done, p) = put-Puts avl now e id s v positive in
    let ready = before-IsReady id s v in
    let i = p.inserts in
    let sound = Inserts-IsSound e id (before id s) p.storage s _ positive ready i in
    (
      s',
      done,
      record {
        distinct = rw p.indexed (insert-Distinct id p.storage s.storage_index v.distinct);
        sound =
            rw (p.indexed, i.max_per_source, i.max_fudge)
              (All-insert _ id p.storage s.storage_index sound v.sound);
        counted = rw p.indexed (
            omega (
              arith,
              before-size id s p.storage,
              size-Inserts e (before id s) p.storage s _ positive ready.bounded i,
              v.counted,
            ));
      },
    )

-- The key of an envelope is free at some offset below the limit, once there is room for it.
abbrev pub HasFreeSlot : Envelope → String → Store → Type 0
HasFreeSlot e id s =
    (j : ℕ) × (j < s.max_timestamp_fudge)
    × (find (add64 e.timestamp j) (room s.max_per_source (entries (before id s).tree)) ≡ none)

-- Where a free key is left, Put keeps the count exact.
pub count-put :
    (avl : AvlTree Envelope) (now : ℕ) (e : Envelope) (id : String) (s : Store)
    → IsValid s
    → 0 < s.max_per_source
    → HasFreeSlot e id s
    → stored s ≡ s.count
    → (s' : Store) × (put avl now e id s ≡ some s') × (stored s' ≡ s'.count)
count-put avl now e id s v positive (j, small, free) exact =
    let (s', done, p) = put-Puts avl now e id s v positive in
    let i = p.inserts in
    (
      s',
      done,
      rw p.indexed (
          omega (
            arith,
            before-size id s p.storage,
            (size-Inserts e (before id s) p.storage s _ positive (before-IsReady id s v).bounded
                  i).1
                (found i),
          )),
    )
  where
    found :
        {storage' : Storage} {s' : Store} (i : Inserts e (before id s) storage' s s')
        → i.fudge < s.max_timestamp_fudge
    found i = elim (dec_lt j i.fudge) [ yes p ↦ absurd (i.first j p free) | no p ↦ omega arith ]

pub before-Sorted : (id : String) (s : Store) → IsValid s → Sorted (entries (before id s).tree)
before-Sorted id s v = (before-IsReady id s v).sorted
