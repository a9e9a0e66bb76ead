-- ===== src/Store/Expire/Pruning.antt =====
-- The loop of truncate removes, one at a time, the oldest envelope of the whole store.
use log_cache.Common.{All-lookup, ◌∙◌}
use mathlib.Core.List.{Perm}
use mathlib.Core.List.Perm
use log_cache.Common.{
  ℕ, zero, suc, ◌+◌, ◌≤◌, ◌<◌, ◌≡◌, ◌⊎◌, inl, inr, refl, String, Option, none, some, List, [], ◌∷◌,
  map, arith, length, All, total, lookup, insert, delete,
}
use log_cache.Tree.{AvlTree, entries}
use log_cache.Envelope.{Envelope}
use log_cache.Store.State.{Storage, Store}
use log_cache.Store.Put.Storages.{size_of, stored, IsValid, oldest_key, List-cases}
use log_cache.Store.Expire.Heap.{Expiration, HeapLib}
use log_cache.Store.Expire.Removal.{
  Outcome, gone, kept, remove_oldest_envelope_lem, Removes-IsValid,
}
use log_cache.Store.Expire.Mirror.{Mirrors, Oldest-of, push_again-Mirrors, expirations, expiration}
use log_cache.Store.Expire.{prune, push_again}

-- One envelope went: the oldest one of a source whose oldest one is the oldest of all. Its source
-- is deleted with its last envelope, and no other source changes.
pub record RemovesOldest (s s' : Store) : Type 0 where
  pub id : String
  pub storage : Storage
  pub first : ℕ × Envelope
  pub rest : List (ℕ × Envelope)
  pub found : lookup id s.storage_index ≡ some storage
  pub entries_before : entries storage.tree ≡ first ∷ rest
  pub least :
      All (λ (e : String × Storage). first.0 ≤ oldest_key (entries e.1.tree)) s.storage_index
  pub after :
      ((rest ≡ []) × (s'.storage_index ≡ delete id s.storage_index))
      ⊎ ((left : Storage) × (entries left.tree ≡ rest)
          × (0 < length rest)
          × (s'.storage_index ≡ insert id left s.storage_index))
  pub count : s'.count + 1 ≡ s.count

abbrev pub Prunes : ℕ → Store → Store → Type 0
Prunes zero s s' = s' ≡ s
Prunes (suc n) s s' = (t : Store) × RemovesOldest s t × Prunes n t s'

total_of_empty :
    (index : List (String × Storage)) → [] ≡ map expiration index → total size_of index ≡ 0
unfolding total
total_of_empty [] e = refl
total_of_empty (x ∷ index) e = absurd (cc)

module _ (heap : HeapLib) (avl : AvlTree Envelope) where
  -- One round.
  record Round (n : ℕ) (h : List Expiration) (s : Store) : Type 0 where
    next : Store
    next_heap : List Expiration
    runs : prune avl heap (suc n) h s ≡ prune avl heap n next_heap next
    removes : RemovesOldest s next
    valid : IsValid next
    mirrors : Mirrors heap next_heap next
    less : stored next + 1 ≡ stored s

  after_of :
      (id : String) (rest : List (ℕ × Envelope)) (s s' : Store) {new : Option ℕ}
      → Outcome id rest s s' new
      → ((rest ≡ []) × (s'.storage_index ≡ delete id s.storage_index))
        ⊎ ((left : Storage) × (entries left.tree ≡ rest)
            × (0 < length rest)
            × (s'.storage_index ≡ insert id left s.storage_index))
  after_of id rest s s' (gone empty i) = inl (empty, i)
  after_of id rest s s' (kept left new same filled oldest sound i) = inr (left, same, filled, i)

  round :
      (n : ℕ) (x : Expiration) (h : List Expiration) (s : Store)
      → IsValid s
      → Mirrors heap (x ∷ h) s
      → Round n (x ∷ h) s
  unfolding prune
  round n x h s v mirror =
      let (m, rest, popped, perm, least, valid) = heap.pop_least x h mirror.valid in
      let p : Perm (m ∷ rest) (expirations s) = Perm.trans (Perm.symm perm) mirror.same in
      let (storage, o) = Oldest-of s m rest v p least in
      let sound = All-lookup _ m.source_id s.storage_index v.sound o.found in
      elim (List-cases (entries storage.tree)) [
        | inl none_there ↦ absurd (ground (arith, sound.filled))
        | inr (d, r, there) ↦
            let (new, s', done, removed) =
              remove_oldest_envelope_lem avl storage m.source_id s d r there sound in
            let (valid', less, count) =
              Removes-IsValid m.source_id storage d r s s' new o.found there v removed in
            record {
              next = s';
              next_heap = push_again heap new m.source_id rest;
              runs = rw (popped, o.found, done);
              removes = record {
                id = m.source_id;
                storage = storage;
                first = d;
                rest = r;
                found = o.found;
                entries_before = there;
                least = rw (← first_key d r storage m there o.timestamp) o.least;
                after = after_of m.source_id r s s' removed.outcome;
                count = count;
              };
              valid = valid';
              mirrors = push_again-Mirrors heap m rest storage r s s' valid p o removed.outcome;
              less = less;
            }
      ]
    where
      first_key :
          (d : ℕ × Envelope) (r : List (ℕ × Envelope)) (storage : Storage) (m : Expiration)
          → entries storage.tree ≡ d ∷ r
          → m.timestamp ≡ oldest_key (entries storage.tree)
          → m.timestamp ≡ d.0
      first_key d r storage m e t = ground arith

  -- Only an empty store has an empty mirror.
  mirror-ne-nil : (s : Store) → Mirrors heap [] s → stored s ≡ 0
  mirror-ne-nil s mirror = total_of_empty s.storage_index (Perm.nil-eq mirror.same)

  pub prune-Prunes :
      (n : ℕ) (h : List Expiration) (s : Store)
      → IsValid s
      → Mirrors heap h s
      → n ≤ stored s
      → (h' : List Expiration) × (s' : Store) × (prune avl heap n h s ≡ some (h', s'))
        × Prunes n s s'
        × IsValid s'
        × Mirrors heap h' s'
        × (stored s' + n ≡ stored s)
  unfolding prune
  prune-Prunes zero h s v mirror k = (h, s, refl, refl, v, mirror, omega arith)
  prune-Prunes (suc n) [] s v mirror k = absurd (omega (arith, mirror-ne-nil s mirror))
  prune-Prunes (suc n) (x ∷ h) s v mirror k =
      let r = round n x h s v mirror in
      let (h', s', runs, prunes, valid, mirrors, less) =
        prune-Prunes n r.next_heap r.next r.valid r.mirrors (omega (arith, r.less)) in
      (h', s', r.runs ∙ runs, (r.next, r.removes, prunes), valid, mirrors, omega (arith, r.less))

  -- More rounds than envelopes: the heap runs empty, and its Pop panics.
  pub prune_too_many :
      (n : ℕ) (h : List Expiration) (s : Store)
      → IsValid s
      → Mirrors heap h s
      → stored s < n
      → prune avl heap n h s ≡ none
  unfolding prune
  prune_too_many zero h s v mirror k = absurd (omega arith)
  prune_too_many (suc n) [] s v mirror k = rw heap.pop-nil
  prune_too_many (suc n) (x ∷ h) s v mirror k =
      let r = round n x h s v mirror in
      r.runs ∙ prune_too_many n r.next_heap r.next r.valid r.mirrors (omega (arith, r.less))

pub count-Prunes : (n : ℕ) (s s' : Store) → Prunes n s s' → s'.count + n ≡ s.count
count-Prunes zero s s' p = ground arith
count-Prunes (suc n) s s' (t, r, p) = omega (arith, r.count, count-Prunes n t s' p)
