-- ===== src/Store/Put/Slots.antt =====
-- The search for a free key in insertOrSwap.
use log_cache.Common.{
  ℕ, zero, suc, ◌+◌, ◌≤◌, ◌<◌, ◌≡◌, ◌≢◌, none, arith, add64, Option-cases, inl, inr, ℕ_discrete,
}
use log_cache.Tree.{Tree, entries, Sorted, find, AvlTree}
use log_cache.Envelope.{Envelope}
use log_cache.Store.Put.{free_slot}

module _ (avl : AvlTree Envelope) (timestamp : ℕ) (tree : Tree Envelope) where
  pub free_slot_bounds :
      (rounds fudge : ℕ)
      → (fudge ≤ free_slot avl rounds fudge timestamp tree)
        × (free_slot avl rounds fudge timestamp tree ≤ fudge + rounds)
  unfolding free_slot
  free_slot_bounds zero fudge = omega arith
  free_slot_bounds (suc rounds) fudge = ground (arith, free_slot_bounds rounds (fudge + 1))

  module _ (sorted : Sorted (entries tree)) where
    -- Unless the rounds run out, the key that is found is not in the tree.
    pub free_slot_free :
        (rounds fudge : ℕ)
        → free_slot avl rounds fudge timestamp tree < fudge + rounds
        → find (add64 timestamp (free_slot avl rounds fudge timestamp tree)) (entries tree) ≡ none
    unfolding free_slot
    free_slot_free zero fudge h = absurd (omega arith)
    free_slot_free (suc rounds) fudge h =
        ground (
          arith,
          free_slot_free rounds (fudge + 1),
          avl.get_lem (add64 timestamp fudge) tree sorted,
        )

    -- Every smaller offset is taken.
    pub free_slot_first :
        (rounds fudge j : ℕ)
        → fudge ≤ j
        → j < free_slot avl rounds fudge timestamp tree
        → find (add64 timestamp j) (entries tree) ≢ none
    unfolding free_slot
    free_slot_first zero fudge j h k = absurd (omega arith)
    free_slot_first (suc rounds) fudge j h k =
        elim (Option-cases (avl.get (add64 timestamp fudge) tree)) [
          | inl e ↦ absurd (ground arith)
          | inr (v, e) ↦ elim (ℕ_discrete fudge j) [
            | yes p ↦ ground (arith, avl.get_lem (add64 timestamp fudge) tree sorted)
            | no p ↦ free_slot_first rounds (fudge + 1) j (omega arith) (ground arith)
          ]
        ]
