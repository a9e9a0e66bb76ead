-- ===== src/Tree/Chain.antt =====
-- An implementation of the interface by trees that lean to the right. It shows that the promises
-- can be kept, and runs in the tests.
use log_cache.Common.{ℕ, ◌≡◌, refl, ap, List, [], ◌∷◌, head?, length}
use log_cache.Tree.Entries.{Tree, leaf, node, entries, find, upsert, discard, floor_entry, AvlTree}

module _ {V : Type 0} where
  unfoldable pub of_entries : List (ℕ × V) → Tree V
  of_entries [] = leaf
  of_entries ((k, v) ∷ l) = node k v leaf (of_entries l)

  pub entries-of_entries : (l : List (ℕ × V)) → entries (of_entries l) ≡ l
  unfolding entries of_entries
  entries-of_entries [] = refl
  entries-of_entries ((k, v) ∷ l) = ap (◌∷◌ (k, v)) (entries-of_entries l)

unfoldable pub chain : (V : Type 0) → AvlTree V
unfolding entries of_entries find upsert discard floor_entry
chain V = record {
  put = λ k v t. of_entries (upsert k v (entries t));
  remove = λ k t. of_entries (discard k (entries t));
  get = λ k t. find k (entries t);
  left = λ t. head? (entries t);
  floor = λ k t. floor_entry k (entries t);
  size = λ t. length (entries t);
  entries-put = λ k v t s. entries-of_entries (upsert k v (entries t));
  entries-remove = λ k t s. entries-of_entries (discard k (entries t));
  get_lem = λ k t s. refl;
  left_lem = λ t s. refl;
  floor_lem = λ k t s. refl;
  size_lem = λ t. refl;
}
