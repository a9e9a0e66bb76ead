-- ===== src/Store/Put/Storages.antt =====
-- The invariant of the store: what holds of each storage, and of the index and the count.
use log_cache.Common.{
  ℕ, ◌≤◌, ◌<◌, ◌≡◌, String, add64, length, All, Distinct, total, List, ◌∷◌, [], ◌⊎◌, inl, inr, refl,
}
use log_cache.Tree.{entries, Sorted}
use log_cache.Envelope.{Envelope}
use log_cache.Store.State.{Storage, Store}

-- The first key, and 0 where there is none.
abbrev pub oldest_key : List (ℕ × Envelope) → ℕ
oldest_key [] = 0
oldest_key (e ∷ l) = e.0

pub List-cases :
    (l : List (ℕ × Envelope))
    → (l ≡ []) ⊎ ((e : ℕ × Envelope) × (r : List (ℕ × Envelope)) × (l ≡ e ∷ r))
List-cases [] = inl refl
List-cases (e ∷ l) = inr (e, l, refl)

-- An envelope's key is its timestamp and an offset of at most `fudge`.
abbrev pub HasSlot : ℕ → ℕ × Envelope → Type 0
HasSlot fudge d = (f : ℕ) × (f ≤ fudge) × (d.0 ≡ add64 d.1.timestamp f)

pub record IsSound (limit fudge : ℕ) (e : String × Storage) : Type 0 where
  pub source : e.1.source_id ≡ e.0
  pub sorted : Sorted (entries e.1.tree)
  pub filled : 0 < length (entries e.1.tree)
  pub bounded : length (entries e.1.tree) ≤ limit
  pub oldest : e.1.meta.oldest_timestamp ≡ oldest_key (entries e.1.tree)
  pub slots : All (HasSlot fudge) (entries e.1.tree)

abbrev pub size_of : Storage → ℕ
size_of storage = length (entries storage.tree)

-- The number of envelopes that are stored.
abbrev pub stored : Store → ℕ
stored s = total size_of s.storage_index

pub record IsValid (s : Store) : Type 0 where
  pub distinct : Distinct s.storage_index
  pub sound : All (IsSound s.max_per_source s.max_timestamp_fudge) s.storage_index
  pub counted : stored s ≤ s.count
