-- ===== src/Scheduler/Tests.antt =====
-- The scheduler on three ranges, two of which one node holds.
use mathlib.Core.List.{Perm}
use mathlib.Core.List.Perm
use log_cache.Common.{
  ℕ, ◌≡◌, refl, String, some, List, [], ◌∷◌, map, arith, length, keep, str_eq, insert,
  if◌then◌else◌,
}
use log_cache.Routing.Table.{
  Range, RpcRange, RoutingTable, new_routing_table, lookup_item, set_ranges, request_ranges,
}
use log_cache.Routing.Table.Sorting.{sorter}
use log_cache.Scheduler.{start_tasks, WorkerState, convert_worker_state}
use log_cache.Scheduler.Partition.{holds, start_tasks_partition}
use log_cache.Scheduler.Cluster.{length-lookup_item-set_ranges}

start_tasks_partition_example :
    (tasks : List Range) × (start_tasks 3 ≡ some tasks) × (length (keep (holds 70) tasks) ≡ 1)
start_tasks_partition_example = start_tasks_partition 3 70 (omega arith) (omega arith) (omega arith)

abbrev r0 : Range
r0 = record { start = 0; end = 6148914691236517205 }

abbrev r1 : Range
r1 = record { start = 6148914691236517206; end = 12297829382473034411 }

abbrev r2 : Range
r2 = record { start = 12297829382473034412; end = 18446744073709551615 }

abbrev hash_of : String → ℕ
hash_of id = if str_eq id "app" then 70 else 250

abbrev empty_table : RoutingTable
unfolding new_routing_table
empty_table = new_routing_table ("a:1" ∷ "b:1" ∷ []) hash_of

abbrev workers : List WorkerState
workers =
    record { addr = "b:1"; tasks = r1 ∷ [] } ∷ record { addr = "a:1"; tasks = r0 ∷ r2 ∷ [] } ∷ []

abbrev request : List (String × List RpcRange)
unfolding convert_worker_state
request = convert_worker_state workers

started : start_tasks 3 ≡ some (r0 ∷ r1 ∷ r2 ∷ [])
unfolding start_tasks
started = refl

held : Perm (map (λ i. i.r) (request_ranges empty_table.addrs request)) (r0 ∷ r1 ∷ r2 ∷ [])
unfolding request_ranges request insert
held = Perm.swap r0 r1 (r2 ∷ [])

length-lookup_item-set_ranges_example :
    length (lookup_item (set_ranges sorter request empty_table) "app") ≡ 1
unfolding empty_table
length-lookup_item-set_ranges_example =
    length-lookup_item-set_ranges sorter request empty_table "app" 3 (r0 ∷ r1 ∷ r2 ∷ [])
      (omega arith) (omega arith) (omega arith) started held
