-- ===== src/Store/Put/Contents.antt =====
-- What can be read after a Put.
use log_cache.Common.{
  ℕ, ◌≤◌, ◌<◌, ◌≡◌, ◌≢◌, String, none, some, arith, add64, lookup, lookup-insert, eq_iff,
}
use log_cache.Tree.{AvlTree, entries, find, upsert, find-upsert}
use log_cache.Envelope.{Envelope}
use log_cache.Store.State.{Storage, Store}
use log_cache.Store.Put.Storages.{IsValid}
use log_cache.Store.Put.Steps.{room, room-Sorted}
use log_cache.Store.Put.Invariant.{before, before-Sorted, put-Puts}
use log_cache.Store.Put.{put}

-- After a Put on a valid store with a positive limit the envelope is found in its source's tree
-- under its timestamp and the first free offset, where one is free below the fudge limit. The
-- other entries are those of before, less the oldest if the source was full; so are all other
-- sources.
pub lookup-put :
    (avl : AvlTree Envelope) (now : ℕ) (e : Envelope) (id : String) (s : Store)
    → IsValid s
    → 0 < s.max_per_source
    → (s' : Store) × (storage : Storage) × (fudge : ℕ) × (put avl now e id s ≡ some s')
      × (lookup id s'.storage_index ≡ some storage)
      × (let kept = room s.max_per_source (entries (before id s).tree) in
          let key = add64 e.timestamp fudge in
          (entries storage.tree ≡ upsert key e kept)
          × (find key (entries storage.tree) ≡ some e)
          × (fudge ≤ s.max_timestamp_fudge)
          × ((j : ℕ) → j < fudge → find (add64 e.timestamp j) kept ≢ none)
          × (fudge < s.max_timestamp_fudge → find key kept ≡ none))
      × ((j : String) → j ≢ id → lookup j s'.storage_index ≡ lookup j s.storage_index)
lookup-put avl now e id s v positive =
    let (s', done, p) = put-Puts avl now e id s v positive in
    let i = p.inserts in
    let kept = room s.max_per_source (entries (before id s).tree) in
    let key = add64 e.timestamp i.fudge in
    (
      s',
      p.storage,
      i.fudge,
      done,
      rw p.indexed (rw lookup-insert (ground (arith, eq_iff id id))),
      (
        i.stored,
        rw (i.stored, find-upsert key key e kept (room-Sorted _ _ (before-Sorted id s v)))
            (ground arith),
        i.fudge_le,
        i.first,
        i.free,
      ),
      λ j other. rw p.indexed (rw lookup-insert (ground (arith, eq_iff id j))),
    )
