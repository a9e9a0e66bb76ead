-- ===== src/Scheduler.antt =====
-- internal/scheduler/scheduler.go: the ranges that Start gives to the orchestrator, what is sent
-- to the nodes, and the calls of the orchestrator's communicator.
pub mod Partition
pub mod Cluster
mod Tests
use log_cache.Common.{
  ℕ, zero, suc, ◌+◌, ◌-◌, ◌/◌, ◌%◌, String, Bool, true, false, Option, none, some, List, [], ◌∷◌,
  ◌==◌, if◌then◌else◌, insert, word, map,
}
use log_cache.Routing.Table.{Range, RpcRange, clone_rpc_range, to_rpc_range}

abbrev pub max_hash : ℕ
max_hash = 18446744073709551615

-- The loop over `i < count-1`, by the rounds that are left, and the task behind it. Sums wrap.
unfoldable pub add_tasks : ℕ → ℕ → ℕ → List Range
add_tasks zero x start = record { start = start; end = max_hash } ∷ []
add_tasks (suc rounds) x start =
    record { start = start; end = (start + x) % word }
    ∷ add_tasks rounds x ((start + (x + 1)) % word)

-- The tasks of Start, in order. A count of 0 divides by 0, which panics.
unfoldable pub start_tasks : ℕ → Option (List Range)
unfolding add_tasks
start_tasks count = if count == 0 then none else some (add_tasks (count - 1) (max_hash / count) 0)

-- orchestrator.WorkerState: the address of a worker, and its tasks.
pub record WorkerState : Type 0 where
  pub addr : String
  pub tasks : List Range

-- convertWorkerState; a later worker takes the place of one with the same address.
unfoldable pub convert_from :
    List WorkerState → List (String × List RpcRange) → List (String × List RpcRange)
unfolding to_rpc_range
convert_from [] m = m
convert_from (w ∷ ws) m = convert_from ws (insert w.addr (map to_rpc_range w.tasks) m)

unfoldable pub convert_worker_state : List WorkerState → List (String × List RpcRange)
unfolding convert_from
convert_worker_state ws = convert_from ws []

-- comm.List, Add and Remove: the answer of the node, which is asked only by a leader, but for List.
-- `none` of the answer is an error; a call that is made is given to `call`.
unfoldable pub comm_list : (String → Option (List RpcRange)) → String → Option (List Range)
unfolding clone_rpc_range
comm_list list_ranges addr = elim (list_ranges addr) [
  | none ↦ none
  | some rs ↦ some (map clone_rpc_range rs)
]

-- Whether a call is made, and whether there was an error.
unfoldable pub comm_call :
    (is_leader : Bool) → (String → RpcRange → Bool) → String → Range → Bool × Bool
unfolding to_rpc_range
comm_call is_leader succeeds addr r =
    if is_leader
    then (if succeeds addr (to_rpc_range r) then (true, false) else (true, true))
    else (false, false)
