-- ===== src/Store/Meta.antt =====
-- Store.Meta: the meta of each source, with its number of envelopes.
use mathlib.Core.Option
use log_cache.Common.{
  ◌≡◌, refl, String, Option, some, ◌>>=◌, List, [], ◌∷◌, arith, All, lookup, str_eq, Option-cases,
  Bool-cases, Distinct-lookup, All-lookup, inl, inr,
}
use log_cache.Tree.{entries, AvlTree}
use log_cache.Envelope.{Envelope}
use log_cache.Store.State.{MetaInfo, Storage, Store}
use log_cache.Store.Put.Storages.{IsValid, size_of, oldest_key}

-- The first walk over the index.
unfoldable pub copy_meta : List (String × Storage) → List (String × MetaInfo)
copy_meta [] = []
copy_meta ((id, storage) ∷ index) = (id, storage.meta) ∷ copy_meta index

module _ (avl : AvlTree Envelope) where
  -- The walk over the copy. The storage of a source that is gone is nil: a panic.
  unfoldable pub count_all :
      List (String × Storage) → List (String × MetaInfo) → Option (List (String × MetaInfo))
  count_all index [] = some []
  count_all index ((id, meta) ∷ report) = do
    storage ← lookup id index
    rest ← count_all index report
    some ((id, record meta { count = avl.size storage.tree }) ∷ rest)

  -- Meta on its own: the code locks one source's tree at a time, and a truncation that removes a
  -- source between the two loops is not covered.
  unfoldable pub meta : Store → Option (List (String × MetaInfo))
  unfolding copy_meta count_all
  meta s = count_all s.storage_index (copy_meta s.storage_index)

  abbrev sized : Storage → MetaInfo
  sized storage = let m = storage.meta in record m { count = size_of storage }

  -- The copy is counted against any index in which its sources stand with their storages.
  count_all_lem :
      (index part : List (String × Storage))
      → All (λ (e : String × Storage). lookup e.0 index ≡ some e.1) part
      → (r : List (String × MetaInfo)) × (count_all index (copy_meta part) ≡ some r)
        × ((id : String) → lookup id r ≡ Option.map sized (lookup id part))
  unfolding count_all copy_meta lookup
  count_all_lem index [] a = ([], refl, λ id. refl)
  count_all_lem index ((j, storage) ∷ part) a =
      let (r, done, same) = count_all_lem index part a.1 in
      (
        (j, sized storage) ∷ r,
        ground (arith, avl.size_lem storage.tree, a.0),
        λ id. elim (Bool-cases (str_eq j id)) [ inl h ↦ rw h | inr h ↦ rw h (same id) ],
      )

-- What Meta says of a source: the number of its envelopes, the oldest key in its tree, and what
-- its storage has kept of evictions and of the newest timestamp.
abbrev pub reported : Storage → MetaInfo
reported storage = record {
  count = size_of storage;
  expired = storage.meta.expired;
  oldest_timestamp = oldest_key (entries storage.tree);
  newest_timestamp = storage.meta.newest_timestamp;
}

-- On a valid store Meta never panics, and reports exactly the sources of the index, each with the
-- number of its envelopes and its oldest key.
pub lookup-meta :
    (avl : AvlTree Envelope) (s : Store)
    → IsValid s
    → (r : List (String × MetaInfo)) × (meta avl s ≡ some r)
      × ((id : String) → lookup id r ≡ Option.map reported (lookup id s.storage_index))
unfolding meta
lookup-meta avl s v =
    let index = s.storage_index in
    let (r, done, same) = count_all_lem avl index index (Distinct-lookup index v.distinct) in
    (
      r,
      done,
      λ id. elim (Option-cases (lookup id index)) [
        | inl e ↦ ground (arith, same id)
        | inr (storage, e) ↦ ground (arith, same id, (All-lookup _ id index v.sound e).oldest)
      ],
    )
