-- ===== src/Scheduler/Cluster.antt =====
-- The scheduler's ranges in the nodes' routing tables: each item has one node.
use mathlib.Core.List.{Perm, Permᴰ}
use mathlib.Core.Logic.{∥∥₁_elim}
use native.Mathlib.Nat.{ℕ_set}
use log_cache.Common.{
  ℕ, ◌-◌, ◌/◌, ◌≤◌, ◌<◌, ◌≡◌, refl, ◌∙◌, String, some, List, [], ◌∷◌, map, arith, length, keep,
}
use log_cache.Routing.Table.{
  Range, RpcRange, RangeInfo, RoutingTable, matching, lookup_item, request_ranges, SortLib,
  set_ranges,
}
use log_cache.Routing.Table.Lookups.{lookup_item-set_ranges_perm}
use log_cache.Routing.Table.Contents.{length-keep-permᴰ}
use log_cache.Scheduler.Partition.{holds, start_tasks_partition}
use log_cache.Scheduler.{max_hash, start_tasks}

module _ {A : Type 0} where
  length-perm : {l m : List A} → Permᴰ l m → length l ≡ length m
  length-perm Permᴰ.nil = refl
  length-perm (Permᴰ.cons e p) = omega (arith, length-perm p)
  length-perm (Permᴰ.swap e f) = refl
  length-perm (Permᴰ.trans p q) = length-perm p ∙ length-perm q

matching-holds :
    (h : ℕ) (l : List RangeInfo)
    → length (matching h l) ≡ length (keep (holds h) (map (λ i. i.r) l))
unfolding matching
matching-holds h [] = refl
matching-holds h (i ∷ l) = ground (arith, matching-holds h l)

-- If the table that is set holds each of the scheduler's ranges once, whoever has it, a lookup of an
-- item finds exactly one node, whatever the table was before. The hash is a uint64, and the count
-- of ranges as in the scheduler's partition.
pub length-lookup_item-set_ranges :
    (lib : SortLib) (req : List (String × List RpcRange)) (t : RoutingTable) (item : String)
    (count : ℕ) (tasks : List Range)
    → 0 < count
    → count - 1 ≤ max_hash / count
    → t.hasher item ≤ max_hash
    → start_tasks count ≡ some tasks
    → Perm (map (λ i. i.r) (request_ranges t.addrs req)) tasks
    → length (lookup_item (set_ranges lib req t) item) ≡ 1
length-lookup_item-set_ranges lib req t item count tasks positive few small started held =
    let h = t.hasher item in
    let (made, runs, one) = start_tasks_partition count h positive few small in
    let found = ∥∥₁_elim (lookup_item-set_ranges_perm lib req t item) (ℕ_set _ _) length-perm in
    let same = ∥∥₁_elim held (ℕ_set _ _) (length-keep-permᴰ (holds h)) in
    found ∙ matching-holds h (request_ranges t.addrs req) ∙ same ∙ ground arith
