-- ===== src/Store/Expire/Mirror.antt =====
-- The expiration heap mirrors the index: an entry for each source, with its oldest timestamp.
use mathlib.Core.List.{
  append-nil, perm_middle, Perm, Mem, mem-cons_self, mem-cons_of_mem, not-mem-nil,
  eq-or-mem_of_mem-cons,
}
use mathlib.Core.List.Perm
use mathlib.Core.Logic.Or
use mathlib.Core.HLevel.{⊥_prop}
use native.Mathlib.Bridge.{le_prop}
use native.Mathlib.Nat.{ℕ_set}
use log_cache.Common.{
  ℕ, ◌≤◌, ◌≡◌, ◌≢◌, refl, sym, String, Option, none, some, List, [], ◌∷◌, map, arith, All, Distinct,
  lookup, delete, eq_iff, Option-cases, inl, inr, map-delete-perm, map-insert-perm, ◌++◌,
}
use log_cache.Tree.{AvlTree, entries}
use log_cache.Envelope.{Envelope}
use log_cache.Store.State.{Storage, Store}
use log_cache.Store.Put.Storages.{List-cases, IsSound, IsValid, oldest_key}
use log_cache.Store.Expire.Heap.{Expiration, HeapLib}
use log_cache.Store.Expire.Removal.{Outcome, gone, kept}
use log_cache.Store.Expire.{push_all, build_expiration_heap, push_again}

abbrev pub expiration : String × Storage → Expiration
expiration e = record { timestamp = oldest_key (entries e.1.tree); source_id = e.0 }

abbrev pub expirations : Store → List Expiration
expirations s = map expiration s.storage_index

-- A member's source is in the index.
pub known_of :
    (x : Expiration) (index : List (String × Storage))
    → Mem x (map expiration index)
    → lookup x.source_id index ≢ none
unfolding lookup
known_of x [] m = absurd (not-mem-nil m)
known_of x ((id, first) ∷ index) m = λ e.
    Or.elim ⊥_prop (eq-or-mem_of_mem-cons m) (λ same. ground (arith, eq_iff id x.source_id))
      (λ later. known_of x index later (ground arith))

-- A member stands for the source of its id.
pub expiration_of :
    (x : Expiration) (index : List (String × Storage))
    → Distinct index
    → Mem x (map expiration index)
    → (storage : Storage) → lookup x.source_id index ≡ some storage
    → x.timestamp ≡ oldest_key (entries storage.tree)
unfolding lookup
expiration_of x [] d m storage e = absurd (not-mem-nil m)
expiration_of x ((id, first) ∷ index) d m storage e =
    Or.elim (ℕ_set _ _) (eq-or-mem_of_mem-cons m) (λ same. ground (arith, eq_iff id x.source_id))
      (λ later.
        expiration_of x index d.1 later storage
          (ground (arith, eq_iff id x.source_id, known_of x index later)))

pub record Mirrors (heap : HeapLib) (h : List Expiration) (s : Store) : Type 0 where
  pub valid : heap.IsHeap h
  pub same : Perm h (expirations s)

module _ (heap : HeapLib) (avl : AvlTree Envelope) where
  push_all-Mirrors :
      (limit fudge : ℕ) (index : List (String × Storage)) (h : List Expiration)
      → All (IsSound limit fudge) index
      → heap.IsHeap h
      → (h' : List Expiration) × (push_all avl heap index h ≡ some h')
        × heap.IsHeap h'
        × Perm h' (h ++ map expiration index)
  unfolding push_all
  push_all-Mirrors limit fudge [] h a v = (h, refl, v, rw append-nil (Perm.refl h))
  push_all-Mirrors limit fudge ((id, storage) ∷ index) h a v =
      let x = expiration (id, storage) in
      let (h', built, valid, same) =
        push_all-Mirrors limit fudge index (heap.push x h) a.1 (heap.push-IsHeap x h v) in
      (
        h',
        first built,
        valid,
        Perm.trans same (
            Perm.trans (Perm.append_right (map expiration index) (heap.push-perm x h))
              (Perm.symm (perm_middle h (map expiration index)))),
      )
    where
      first :
          {r : Option (List Expiration)}
          → push_all avl heap index (heap.push (expiration (id, storage)) h) ≡ r
          → push_all avl heap ((id, storage) ∷ index) h ≡ r
      first e = elim (List-cases (entries storage.tree)) [
        | inl none_there ↦ absurd (ground (arith, a.0.filled))
        | inr (d, r, there) ↦ ground (arith, avl.left_lem storage.tree a.0.sorted)
      ]

  -- BuildExpirationHeap succeeds on a valid store and mirrors it.
  pub build_expiration_heap-Mirrors :
      (s : Store)
      → IsValid s
      → (h : List Expiration) × (build_expiration_heap avl heap s ≡ some h) × Mirrors heap h s
  unfolding build_expiration_heap
  build_expiration_heap-Mirrors s v =
      let (h, built, valid, same) =
        push_all-Mirrors s.max_per_source s.max_timestamp_fudge s.storage_index [] v.sound
          heap.nil-IsHeap in
      (h, built, record { valid = valid; same = same })

-- What heap.Pop gives stands for a source of the index, whose oldest entry is the oldest of all.
pub record Oldest (s : Store) (m : Expiration) (storage : Storage) : Type 0 where
  pub found : lookup m.source_id s.storage_index ≡ some storage
  pub timestamp : m.timestamp ≡ oldest_key (entries storage.tree)
  pub least :
      All (λ (e : String × Storage). m.timestamp ≤ oldest_key (entries e.1.tree)) s.storage_index

All-expirations :
    (n : ℕ) (index : List (String × Storage))
    → ((y : Expiration) → Mem y (map expiration index) → n ≤ y.timestamp)
    → All (λ (e : String × Storage). n ≤ oldest_key (entries e.1.tree)) index
All-expirations n [] h = tt
All-expirations n (e ∷ index) h = (
  h (expiration e) mem-cons_self,
  All-expirations n index (λ y m. h y (mem-cons_of_mem (expiration e) m)),
)

le_of_mem :
    (n : ℕ) (y : Expiration) (h : List Expiration)
    → All (λ x. n ≤ x.timestamp) h
    → Mem y h
    → n ≤ y.timestamp
le_of_mem n y [] a m = absurd (not-mem-nil m)
le_of_mem n y (x ∷ h) a m =
    Or.elim le_prop (eq-or-mem_of_mem-cons m) (λ e. rw e (a.0)) (le_of_mem n y h a.1)

pub Oldest-of :
    (s : Store) (m : Expiration) (rest : List Expiration)
    → IsValid s
    → Perm (m ∷ rest) (expirations s)
    → All (λ y. m.timestamp ≤ y.timestamp) rest
    → (storage : Storage) × Oldest s m storage
Oldest-of s m rest v p a = elim (Option-cases (lookup m.source_id s.storage_index)) [
  | inl e ↦ absurd (known_of m s.storage_index member e)
  | inr (storage, e) ↦ (
    storage,
    record {
      found = e;
      timestamp = expiration_of m s.storage_index v.distinct member storage e;
      least =
          All-expirations m.timestamp s.storage_index
            (λ y k. le_of_mem m.timestamp y (m ∷ rest) (omega arith, a) ((Perm.mem_iff p).1 k));
    },
  )
]
  where
    member : Mem m (expirations s)
    member = (Perm.mem_iff p).0 mem-cons_self

rest-perm :
    (s : Store) (m : Expiration) (rest : List Expiration) (storage : Storage)
    → Perm (m ∷ rest) (expirations s)
    → Oldest s m storage
    → Perm rest (map expiration (delete m.source_id s.storage_index))
rest-perm s m rest storage p o =
    let same : m ≡ expiration (m.source_id, storage) = ground (arith, o.timestamp) in
    Perm.cons_inv (
      Perm.trans p (
        Perm.trans (map-delete-perm expiration m.source_id storage s.storage_index o.found)
          (Perm.cons' (sym same) (Perm.refl _))))

-- After the removal the rest of the heap, with the source pushed again if it is left, mirrors the
-- new index.
pub push_again-Mirrors :
    (heap : HeapLib) (m : Expiration) (rest : List Expiration) (storage : Storage)
    (left : List (ℕ × Envelope)) (s s' : Store) {new : Option ℕ}
    → heap.IsHeap rest
    → Perm (m ∷ rest) (expirations s)
    → Oldest s m storage
    → Outcome m.source_id left s s' new
    → Mirrors heap (push_again heap new m.source_id rest) s'
unfolding push_again
push_again-Mirrors heap m rest storage left s s' valid p o (gone empty i) = record {
  valid = valid;
  same = rw i (rest-perm s m rest storage p o);
}
push_again-Mirrors heap m rest storage left s s' valid p o
      (kept st new same filled oldest sound i) =
    record {
      valid = heap.push-IsHeap _ rest valid;
      same = rw i (
          Perm.trans (heap.push-perm _ rest) (
            Perm.trans (Perm.cons' (ground arith) (rest-perm s m rest storage p o)) (
              Perm.symm
                (map-insert-perm expiration m.source_id st storage s.storage_index o.found))));
    }
