-- ===== src/Routing/Tests.antt =====
-- The routing components on concrete inputs: three nodes, whose ranges the request sets.
use log_cache.Routing.Egress.Answers.{route_lem, egress_meta-egress_meta}
use log_cache.Routing.Egress.{remote_meta}
use log_cache.Common.{none}
use log_cache.Common.{lookup, insert}
use Prim.Native.Nat.{min}
use mathlib.Core.List.{Perm}
use log_cache.Common.{
  ℕ, ◌+◌, ◌-◌, ◌/◌, ◌≤◌, ◌<◌, ◌≡◌, refl, String, Bool, true, false, Option, some, List, [], ◌∷◌,
  ◌⊎◌, All, arith, zero64, max64, str_eq, ◌==◌, if◌then◌else◌,
}
use log_cache.Tree.{chain, node, leaf}
use log_cache.Envelope.{Envelope, counter, counter_type}
use log_cache.Store.State.{Store, new_store}
use log_cache.Store.Get.{NameFilter}
use log_cache.Store.Get.Soundness.{Asked}
use log_cache.Routing.Table.{
  RpcRange, RoutingTable, lookup_item, lookup_all, new_routing_table, set_ranges,
}
use log_cache.Routing.Table.Sorting.{sorter}
use log_cache.Routing.Table.Lookups.{lookup_all-lookup_item}
use log_cache.Routing.Table.Contents.{times, lookup_item-set_ranges}
use log_cache.Routing.Static.{StaticLookup, new_static_lookup, lookup_static}
use log_cache.Routing.Static.Routes.{lookup_static_lem}
use log_cache.Routing.Orchestrator.{
  OrchestratorAgent, same_range, remove_range, list_ranges, list_ranges-remove_range,
}
use log_cache.Routing.LocalReader.{
  ReadRequest, ReadError, envelopes, error, read, compile_filter, end_or_now, limit_or_default,
  wanted_types, read_lem,
}
use log_cache.Routing.Egress.{
  EgressReverseProxy, unavailable, ask, any_is, route, is_expired, egress_meta,
  new_egress_reverse_proxy,
}
use log_cache.Routing.Ingress.{SendRequest, Sent, send}
use log_cache.Routing.Ingress.Delivery.{routed, sent_to, sent_to-send}

abbrev hash_of : String → ℕ
hash_of id = if str_eq id "app" then 70 else 250

abbrev halves : List (String × List RpcRange)
halves =
    ("b:1", record { start = 100; end = 299 } ∷ [])
    ∷ ("a:1", record { start = 0; end = 99 } ∷ record { start = 200; end = 299 } ∷ [])
    ∷ []

abbrev empty_table : RoutingTable
unfolding new_routing_table
empty_table = new_routing_table ("a:1" ∷ "b:1" ∷ "c:1" ∷ []) hash_of

abbrev filled_table : RoutingTable
unfolding set_ranges
filled_table = set_ranges sorter halves empty_table

lookup_all-lookup_item_example : lookup_all filled_table "db" ≡ some (lookup_item filled_table "db")
lookup_all-lookup_item_example = lookup_all-lookup_item filled_table "db"

-- The item's hash is in a range of node 0 and in one of node 1.
lookup_item-set_ranges_example :
    times 1 (lookup_item (set_ranges sorter halves empty_table) "db") ≡ 1
unfolding empty_table lookup insert
lookup_item-set_ranges_example = lookup_item-set_ranges sorter halves empty_table "db" 1

lookup_static_lem_example :
    (l : StaticLookup) × (new_static_lookup (chain ℕ) 4 hash_of ≡ some l)
    × (lookup_static (chain ℕ) l "app" ≡ some (min (hash_of "app" / (max64 / 4)) (4 - 1)))
lookup_static_lem_example = lookup_static_lem (chain ℕ) 4 hash_of "app" (omega arith) (omega arith)

abbrev low : RpcRange
low = record { start = 0; end = 99 }

abbrev agent : OrchestratorAgent
agent = record { ranges = record { start = 100; end = 199 } ∷ low ∷ []; s = filled_table }

list_ranges-remove_range_example :
    (((list_ranges (remove_range low agent) ≡ list_ranges agent)
        × All (λ r. same_range r low ≡ false) (list_ranges agent))
      ⊎ Perm (list_ranges agent) (low ∷ list_ranges (remove_range low agent)))
    × ((remove_range low agent).s ≡ agent.s)
list_ranges-remove_range_example = list_ranges-remove_range low agent

abbrev last_hits : ReadRequest
last_hits = record {
  source_id = "app";
  start_time = zero64;
  end_time = zero64 + 9;
  limit = zero64;
  envelope_types = counter_type ∷ [];
  descending = true;
  name_filter = "hits";
}

abbrev compile_equal : String → Option (String → Bool)
compile_equal pattern = some (λ name. str_eq name pattern)

abbrev hit : String → ℕ → Envelope
hit id t = record {
  timestamp = t;
  source_id = id;
  instance_id = "0";
  deprecated_tags = [];
  tags = [];
  message = counter "hits" 1 t;
}

abbrev app_store : Store
unfolding new_store
app_store = record (new_store 3) {
  storage_index =
      (
        "app",
        record {
          source_id = "app";
          meta = record {
            count = 0;
            expired = 0;
            oldest_timestamp = zero64 + 5;
            newest_timestamp = zero64 + 5;
          };
          tree = node (zero64 + 5) (hit "app" (zero64 + 5)) leaf leaf;
        },
      )
      ∷ [];
  count = 1;
}

read_lem_example :
    ((e : ReadError) × (read compile_equal 20 last_hits app_store ≡ (error e, app_store)))
    ⊎ ((es : List Envelope) × (s' : Store) × (name_filter : NameFilter) × (read compile_equal 20
            last_hits app_store
          ≡ (envelopes es, s'))
        × (compile_filter compile_equal "hits" ≡ some name_filter)
        × (zero64 ≤ last_hits.limit)
        × (last_hits.limit ≤ zero64 + 1000)
        × (1 ≤ limit_or_default last_hits)
        × (limit_or_default last_hits ≤ 1000)
        × ((last_hits.end_time ≡ zero64) ⊎ (last_hits.start_time ≤ last_hits.end_time))
        × All
            (Asked zero64
              (end_or_now 20 last_hits)
              (wanted_types last_hits.envelope_types)
              name_filter
              (limit_or_default last_hits))
            es)
read_lem_example = read_lem compile_equal 20 last_hits app_store

abbrev nodes_of : String → List ℕ
nodes_of id = if str_eq id "app" then 0 ∷ 2 ∷ [] else 1 ∷ []

nodes_of_known : (id : String) → All (λ i. i < 3) (nodes_of id)
nodes_of_known id = ground arith

abbrev batch : SendRequest
batch = record { local_only = false; batch = hit "app" 5 ∷ hit "db" 6 ∷ hit "app" 7 ∷ [] }

sent_to-send_example :
    (sent : Sent) × (send nodes_of 3 0 (λ i r. true) batch ≡ some sent)
    × (sent.ok ≡ true)
    × All (λ c. c.1.local_only ≡ true) sent.calls
    × ((j : ℕ) → sent_to j sent.calls ≡ routed nodes_of j batch.batch)
sent_to-send_example = sent_to-send nodes_of 3 0 (λ i r. true) batch refl nodes_of_known

abbrev proxy : EgressReverseProxy
unfolding new_egress_reverse_proxy
proxy = new_egress_reverse_proxy 3 0 (some 10)

nodes_of_app : All (λ i. i < proxy.clients) (nodes_of "app")
unfolding proxy
nodes_of_app = (omega arith, (omega arith, tt))

route_lem_example :
    ((nodes_of "app" ≡ []) × (route nodes_of (λ n. n - 1) proxy "app" ≡ some unavailable))
    ⊎ ((j : ℕ) × (route nodes_of (λ n. n - 1) proxy "app" ≡ some (ask j))
        × (any_is j (nodes_of "app") ≡ true)
        × (any_is proxy.local_idx (nodes_of "app") ≡ true → j ≡ proxy.local_idx))
route_lem_example = route_lem nodes_of (λ n. n - 1) proxy "app" nodes_of_app (λ n h. omega arith)

abbrev asked_proxy : EgressReverseProxy
asked_proxy = record {
  clients = 3;
  local_idx = 0;
  remote_meta_cache = some (record { duration = 10; timestamp = 20; meta_resp = [] });
  local_meta_cache = none;
  meta_cache_duration = 10;
}

asked :
    egress_meta (λ i only. if i == 1 then none else some []) 20 false proxy ≡ (some [], asked_proxy)
unfolding egress_meta remote_meta proxy
asked = refl

expired_proxy :
    is_expired 20 (if false then proxy.local_meta_cache else proxy.remote_meta_cache) ≡ true
unfolding is_expired proxy
expired_proxy = refl

soon_enough : 30 ≤ 20 + proxy.meta_cache_duration
unfolding proxy
soon_enough = omega arith

egress_meta-egress_meta_example :
    egress_meta (λ i only. none) 30 false asked_proxy ≡ (some [], asked_proxy)
egress_meta-egress_meta_example =
    egress_meta-egress_meta (λ i only. if i == 1 then none else some []) (λ i only. none) 20 30
      false proxy asked_proxy [] asked expired_proxy soon_enough
