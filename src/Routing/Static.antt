-- ===== src/Routing/Static.antt =====
-- internal/routing/static_lookup.go: a fixed table of equal ranges, in a tree under their starts.
pub mod Routes
use mathlib.Core.Option
use log_cache.Common.{
  ℕ, zero, suc, ◌+◌, ◌*◌, ◌/◌, ◌%◌, String, Option, none, some, ◌==◌, if◌then◌else◌, word, max64,
}
use log_cache.Tree.{Tree, leaf, AvlTree}

pub record StaticLookup : Type 0 where
  pub hash : String → ℕ
  pub t : Tree ℕ

module _ (avl : AvlTree ℕ) where
  -- The loop of NewStaticLookup, by the rounds that are left; products wrap.
  unfoldable pub put_routes : (rounds i x : ℕ) → Tree ℕ → Tree ℕ
  put_routes zero i x t = t
  put_routes (suc rounds) i x t = put_routes rounds (i + 1) x (avl.put ((i * x) % word) i t)

  -- A number of routes that is not positive stands as 0, and panics.
  unfoldable pub new_static_lookup : ℕ → (String → ℕ) → Option StaticLookup
  unfolding put_routes
  new_static_lookup num_of_routes hasher =
      if num_of_routes == 0
      then none
      else some
          (record { hash = hasher; t = put_routes num_of_routes 0 (max64 / num_of_routes) leaf })

  -- A nil node panics.
  unfoldable pub lookup_static : StaticLookup → String → Option ℕ
  lookup_static l source_id = Option.map (λ n. n.1) (avl.floor (l.hash source_id) l.t)
