-- ===== src/Routing/Orchestrator.antt =====
-- internal/routing/orchestrator.go: the ranges that a node has been given.
use mathlib.Core.List.{Perm}
use mathlib.Core.List.Perm
use log_cache.Common.{
  ◌≡◌, refl, Bool, false, ◌&&◌, ◌⊎◌, inl, inr, List, [], ◌∷◌, ◌++◌, arith, ◌==◌, if◌then◌else◌,
  Bool-cases, All, String,
}
use log_cache.Routing.Table.{RpcRange, RoutingTable, SortLib, set_ranges}

-- The agent with its RangeSetter, which in the program is the routing table.
pub record OrchestratorAgent : Type 0 where
  pub ranges : List RpcRange
  pub s : RoutingTable

unfoldable pub new_orchestrator_agent : RoutingTable → OrchestratorAgent
new_orchestrator_agent s = record { ranges = []; s = s }

unfoldable pub add_range : RpcRange → OrchestratorAgent → OrchestratorAgent
add_range r o = record o { ranges = o.ranges ++ (r ∷ []) }

abbrev pub same_range : RpcRange → RpcRange → Bool
same_range r q = r.start == q.start && r.end == q.end

-- The loop of RemoveRange: the first equal range goes.
unfoldable pub remove_first : RpcRange → List RpcRange → List RpcRange
remove_first q [] = []
remove_first q (r ∷ rs) = if same_range r q then rs else r ∷ remove_first q rs

unfoldable pub remove_range : RpcRange → OrchestratorAgent → OrchestratorAgent
unfolding remove_first
remove_range q o = record o { ranges = remove_first q o.ranges }

unfoldable pub list_ranges : OrchestratorAgent → List RpcRange
list_ranges o = o.ranges

unfoldable pub pass_ranges :
    SortLib → List (String × List RpcRange) → OrchestratorAgent → OrchestratorAgent
pass_ranges lib req o = record o { s = set_ranges lib req o.s }

remove_first-Perm :
    (q : RpcRange) (rs : List RpcRange)
    → ((remove_first q rs ≡ rs) × All (λ r. same_range r q ≡ false) rs)
      ⊎ Perm rs (q ∷ remove_first q rs)
unfolding remove_first
remove_first-Perm q [] = inl (refl, tt)
remove_first-Perm q (r ∷ rs) = elim (Bool-cases (same_range r q)) [
  | inl hit ↦ inr (rw hit (Perm.cons' (ground arith) (Perm.refl rs)))
  | inr miss ↦ elim (remove_first-Perm q rs) [
    | inl absent ↦ inl (rw (miss, absent.0), (miss, absent.1))
    | inr present ↦ inr (rw miss (Perm.trans (Perm.cons r present) (Perm.swap q r _)))
  ]
]

-- RemoveRange takes one copy of the range out of what ListRanges gives, up to order; if the range
-- is not among them, nothing changes. The routing table stays.
pub list_ranges-remove_range :
    (q : RpcRange) (o : OrchestratorAgent)
    → (((list_ranges (remove_range q o) ≡ list_ranges o)
          × All (λ r. same_range r q ≡ false) (list_ranges o))
        ⊎ Perm (list_ranges o) (q ∷ list_ranges (remove_range q o)))
      × ((remove_range q o).s ≡ o.s)
unfolding list_ranges remove_range
list_ranges-remove_range q o = (remove_first-Perm q o.ranges, refl)
