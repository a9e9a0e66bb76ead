-- ===== src/Scheduler/Partition.antt =====
-- The ranges of Start cut the hashes into disjoint parts.
use log_cache.Common.{
  ℕ, zero, suc, ◌+◌, ◌-◌, ◌*◌, ◌/◌, ◌%◌, ◌≤◌, ◌<◌, ◌≡◌, Bool, ◌&&◌, some, List, arith, leb,
  if◌then◌else◌, length, keep, word,
}
use native.Mathlib.Nat.{div-mul-le_self, mod-eq_of_lt, mul-suc}
use log_cache.Routing.Table.{Range}
use log_cache.Scheduler.{max_hash, add_tasks, start_tasks}

abbrev pub holds : ℕ → Range → Bool
holds h r = leb r.start h && leb h r.end

-- From `start` on, each hash is in exactly one range.
add_tasks-holds :
    (rounds x start h : ℕ)
    → start + rounds * (x + 1) ≤ max_hash
    → h ≤ max_hash
    → length (keep (holds h) (add_tasks rounds x start)) ≡ (if leb start h then 1 else 0)
unfolding add_tasks
add_tasks-holds zero x start h fits small = ground arith
add_tasks-holds (suc rounds) x start h fits small =
    let next : ℕ = start + (x + 1) in
    let later : next + rounds * (x + 1) ≤ max_hash = grind arith in
    let near : (start + x) % word ≡ start + x = mod-eq_of_lt (omega arith) in
    let far : next % word ≡ next = mod-eq_of_lt (omega arith) in
    rw (near, far) (ground (arith, add_tasks-holds rounds x next h later small))

product_fits :
    (x count m : ℕ) → 0 < count → count - 1 ≤ x → x * count ≤ m → 0 + (count - 1) * (x + 1) ≤ m
product_fits x zero m h k l = absurd (omega arith)
product_fits x (suc c) m h k l =
    let same : suc c - 1 ≡ c = omega arith in rw same (omega (arith, mul-suc x c))

-- For a positive count with `count - 1` at most the width of a range (which holds up to 2 ^ 32),
-- Start makes ranges such that each hash is in exactly one of them.
pub start_tasks_partition :
    (count h : ℕ)
    → 0 < count
    → count - 1 ≤ max_hash / count
    → h ≤ max_hash
    → (tasks : List Range) × (start_tasks count ≡ some tasks) × (length (keep (holds h) tasks) ≡ 1)
unfolding start_tasks
start_tasks_partition count h positive few small =
    let x = max_hash / count in
    let below : x * count ≤ max_hash = div-mul-le_self max_hash count in
    let fits : 0 + (count - 1) * (x + 1) ≤ max_hash =
      product_fits (max_hash / count) count max_hash positive few below in
    (
      add_tasks (count - 1) x 0,
      ground arith,
      ground (arith, add_tasks-holds (count - 1) x 0 h fits small),
    )
