-- ===== src/Routing/Table.antt =====
-- internal/routing/routing_table.go: the ranges of hashes that the nodes hold.
pub mod Contents
pub mod Lookups
pub mod Sorting
use log_cache.Common.{
  ℕ, zero, suc, ◌+◌, String, Bool, true, false, not, ◌||◌, Option, none, some, List, [], ◌∷◌, ◌++◌,
  ltb, ◌==◌, get_elem?, ◌≡◌, if◌then◌else◌, All, lookup, insert, length, drop,
}
use mathlib.Core.Option
use mathlib.Core.List.{Perm}

-- A uint64 is a number below 2 ^ 64.
pub record Range : Type 0 where
  pub start : ℕ
  pub end : ℕ

-- rpc.Range of api/v1, and the conversions.
pub record RpcRange : Type 0 where
  pub start : ℕ
  pub end : ℕ

unfoldable pub clone_rpc_range : RpcRange → Range
clone_rpc_range r = record { start = r.start; end = r.end }

unfoldable pub to_rpc_range : Range → RpcRange
to_rpc_range r = record { start = r.start; end = r.end }

pub record RangeInfo : Type 0 where
  pub r : Range
  pub idx : ℕ

pub record RoutingTable : Type 0 where
  pub addrs : List (String × ℕ)
  pub hasher : String → ℕ
  pub latest_term : ℕ
  pub table : List RangeInfo

-- The loop of NewRoutingTable from index `i` on: a later address takes the place of an equal one.
unfoldable pub index_addrs : ℕ → List String → List (String × ℕ) → List (String × ℕ)
index_addrs i [] m = m
index_addrs i (addr ∷ addrs) m = index_addrs (i + 1) addrs (insert addr i m)

unfoldable pub new_routing_table : List String → (String → ℕ) → RoutingTable
unfolding index_addrs
new_routing_table addrs hasher = record {
  addrs = index_addrs 0 addrs [];
  hasher = hasher;
  latest_term = 0;
  table = [];
}

-- The test of both loops: the hash is outside the range.
abbrev pub outside : ℕ → RangeInfo → Bool
outside h i = ltb h i.r.start || ltb i.r.end h

unfoldable pub matching : ℕ → List RangeInfo → List ℕ
matching h [] = []
matching h (r ∷ table) = if outside h r then matching h table else r.idx ∷ matching h table

unfoldable pub lookup_item : RoutingTable → String → List ℕ
unfolding matching
lookup_item t item = matching (t.hasher item) t.table

-- The index of the first range that holds the hash; `none` is -1.
unfoldable pub find_range : ℕ → List RangeInfo → Option ℕ
find_range h [] = none
find_range h (r ∷ rs) = if outside h r then Option.map suc (find_range h rs) else some 0

-- The loop of LookupAll. Each round drops at least one range, so the number of ranges and one
-- more is enough fuel.
unfoldable pub all_matching : ℕ → ℕ → List RangeInfo → Option (List ℕ)
all_matching zero h ranges = none
all_matching (suc fuel) h ranges = elim (find_range h ranges) [
  | none ↦ some []
  | some i ↦ elim (get_elem? ranges i) [
    | none ↦ none
    | some r ↦ Option.map (◌∷◌ r.idx) (all_matching fuel h (drop (i + 1) ranges))
  ]
]

unfoldable pub lookup_all : RoutingTable → String → Option (List ℕ)
unfolding all_matching find_range
lookup_all t item = all_matching (suc (length t.table)) (t.hasher item) t.table

-- `t.addrs[addr]`: an unknown address reads as 0.
unfoldable pub addr_index : List (String × ℕ) → String → ℕ
addr_index addrs addr = Option.get_or (lookup addr addrs) 0

unfoldable pub node_ranges : ℕ → List RpcRange → List RangeInfo
unfolding clone_rpc_range
node_ranges idx [] = []
node_ranges idx (r ∷ rs) = record { r = clone_rpc_range r; idx = idx } ∷ node_ranges idx rs

-- The loops of SetRanges; the request is a map from addresses to ranges.
unfoldable pub request_ranges : List (String × ℕ) → List (String × List RpcRange) → List RangeInfo
unfolding node_ranges addr_index
request_ranges addrs [] = []
request_ranges addrs ((addr, rs) ∷ req) =
    node_ranges (addr_index addrs addr) rs ++ request_ranges addrs req

-- rangeInfos.Less
unfoldable pub less : RangeInfo → RangeInfo → Bool
less a b = if a.r.start == b.r.start then ltb b.idx a.idx else ltb a.r.start b.r.start

-- Each entry is not less than any before it.
abbrev pub Ordered : List RangeInfo → Type 0
Ordered [] = Unit
Ordered (a ∷ l) = All (λ b. less b a ≡ false) l × Ordered l

-- sort.Sort of Go's library: a permutation in the order of `less`.
pub record SortLib : Type 0 where
  pub sort : List RangeInfo → List RangeInfo
  pub sort-perm : (l : List RangeInfo) → Perm (sort l) l
  pub sort_ordered : (l : List RangeInfo) → Ordered (sort l)

unfoldable pub set_ranges : SortLib → List (String × List RpcRange) → RoutingTable → RoutingTable
unfolding request_ranges
set_ranges lib req t = record t { table = lib.sort (request_ranges t.addrs req) }
