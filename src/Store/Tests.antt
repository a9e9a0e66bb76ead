-- ===== src/Store/Tests.antt =====
-- The store on concrete inputs: a source with three envelopes, two of them of one timestamp.
use Prim.Native.Nat.{min}
use log_cache.Common.{
  ℕ, ◌+◌, ◌≤◌, ◌<◌, ◌≡◌, ◌≢◌, refl, String, Bool, true, false, not, Option, none, some, List, [],
  ◌∷◌, arith, All, take, keep, lookup, length, add64, zero64, ◌==◌, total,
}
use mathlib.Core.Option
use log_cache.Tree.{leaf, node, entries, find, upsert, chain}
use log_cache.Envelope.{Envelope, counter, counter_type}
use log_cache.Store.State.{MetaInfo, Storage, Metrics, Store}
use log_cache.Store.Put.Storages.{IsValid, stored}
use log_cache.Store.Put.Steps.{room}
use log_cache.Store.Put.Invariant.{put-IsValid, count-put, HasFreeSlot, before}
use log_cache.Store.Put.Contents.{lookup-put}
use log_cache.Store.Put.{put}
use log_cache.Store.Expire.Heap.{ordered}
use log_cache.Store.Expire.Pruning.{Prunes}
use log_cache.Store.Expire.Truncation.{truncate-Prunes, truncate_panics, reset_oldest_late}
use log_cache.Store.Expire.{truncate, reset_oldest}
use log_cache.Store.Get.Scan.{accepted}
use log_cache.Store.Get.Equation.{in_range, walked, get_lem}
use log_cache.Store.Get.Soundness.{Asked, get-Asked}
use log_cache.Store.Get.{get}
use log_cache.Store.Meta.{meta, reported, lookup-meta}

abbrev hits : ℕ → Envelope
hits t = record {
  timestamp = t;
  source_id = "app";
  instance_id = "0";
  deprecated_tags = [];
  tags = [];
  message = counter "hits" 1 t;
}

abbrev app : Storage
app = record {
  source_id = "app";
  meta = record { count = 0; expired = 0; oldest_timestamp = 5; newest_timestamp = 9 };
  tree = node 6 (hits 6) (node 5 (hits 5) leaf leaf) (node 9 (hits 9) leaf leaf);
}

abbrev idle_metrics : Metrics
idle_metrics = record {
  expired = 0;
  cache_period = zero64;
  ingress = 3;
  egress = 0;
  store_size = 3;
}

abbrev full : Store
full = record {
  storage_index = ("app", app) ∷ [];
  count = 3;
  oldest_timestamp = 5;
  max_per_source = 3;
  max_timestamp_fudge = 4;
  metrics = idle_metrics;
}

full-IsValid : IsValid full
unfolding entries total lookup
full-IsValid = record {
  distinct = (refl, tt);
  sound = (
    record {
      source = refl;
      sorted = omega arith;
      filled = omega arith;
      bounded = omega arith;
      oldest = refl;
      slots = ((0, omega arith, refl), ((0, omega arith, refl), ((0, omega arith, refl), tt)));
    },
    tt,
  );
  counted = omega arith;
}

put-IsValid_example :
    (s' : Store) × (put (chain Envelope) 20 (hits 7) "app" full ≡ some s') × IsValid s'
put-IsValid_example = put-IsValid (chain Envelope) 20 (hits 7) "app" full full-IsValid (omega arith)

free_at_6 : HasFreeSlot (hits 6) "app" full
unfolding entries lookup find
free_at_6 = (1, omega arith, refl)

stored_full : stored full ≡ 3
unfolding entries total
stored_full = refl

count-put_example :
    (s' : Store) × (put (chain Envelope) 20 (hits 6) "app" full ≡ some s') × (stored s' ≡ s'.count)
count-put_example =
    count-put (chain Envelope) 20 (hits 6) "app" full full-IsValid (omega arith) free_at_6
      stored_full

lookup-put_example :
    (s' : Store) × (storage : Storage) × (fudge : ℕ) × (put (chain Envelope) 20 (hits 6) "app" full
      ≡ some s')
    × (lookup "app" s'.storage_index ≡ some storage)
    × (let kept = room 3 (entries (before "app" full).tree) in
        let key = add64 6 fudge in
        (entries storage.tree ≡ upsert key (hits 6) kept)
        × (find key (entries storage.tree) ≡ some (hits 6))
        × (fudge ≤ 4)
        × ((j : ℕ) → j < fudge → find (add64 6 j) kept ≢ none)
        × (fudge < 4 → find key kept ≡ none))
    × ((j : String) → j ≢ "app" → lookup j s'.storage_index ≡ lookup j full.storage_index)
lookup-put_example = lookup-put (chain Envelope) 20 (hits 6) "app" full full-IsValid (omega arith)

truncate-Prunes_example :
    (s' : Store) × (b : Bool) × (t : Store) × (truncate (chain Envelope) ordered 20 (λ n. 2) full
      ≡ some (s', b))
    × Prunes (min 2 3) full t
    × (s'.storage_index ≡ t.storage_index)
    × IsValid s'
    × (stored s' ≡ s'.count)
    × (s'.count + min 2 3 ≡ 3)
    × (b ≡ not (2 == 0))
truncate-Prunes_example =
    truncate-Prunes ordered (chain Envelope) 20 (λ n. 2) full full-IsValid stored_full

abbrev drifted : Store
drifted = record full { count = 4 }

drifted-IsValid : IsValid drifted
drifted-IsValid = record {
  distinct = full-IsValid.distinct;
  sound = full-IsValid.sound;
  counted = omega (arith, stored_full);
}

truncate_panics_example : truncate (chain Envelope) ordered 20 (λ n. 4) drifted ≡ none
truncate_panics_example =
    truncate_panics ordered (chain Envelope) 20 (λ n. 4) drifted drifted-IsValid
      (omega (arith, stored_full)) (omega (arith, stored_full))

reset_oldest_late_example :
    (s' : Store) × (reset_oldest 20
        (record { timestamp = 5; source_id = "app" }
          ∷ record { timestamp = 8; source_id = "db" }
          ∷ [])
        full
      ≡ some s')
    × (5 < s'.oldest_timestamp)
reset_oldest_late_example =
    reset_oldest_late 20 (record { timestamp = 5; source_id = "app" })
      (record { timestamp = 8; source_id = "db" }) [] full (omega arith, tt)

abbrev named_hits : Option (String → Bool)
named_hits = some (λ n. true)

get_lem_example :
    let found = take 2 (
      accepted
        (some (counter_type ∷ []))
        named_hits
        (keep (in_range 5 9) (walked true (entries app.tree)))) in
    get "app" 5 9 (some (counter_type ∷ [])) named_hits 2 true full
    ≡ (found, record full { metrics = record idle_metrics { egress = 0 + length found } })
unfolding entries lookup
get_lem_example =
    get_lem 5 9 (some (counter_type ∷ [])) named_hits 2 "app" true full app refl (omega arith)
      (refl, (refl, (refl, tt))) (omega arith)

get-Asked_example :
    All
      (Asked 5 9 (some (counter_type ∷ [])) named_hits 2)
      (get "app" 5 9 (some (counter_type ∷ [])) named_hits 2 false full).0
get-Asked_example = get-Asked 5 9 (some (counter_type ∷ [])) named_hits 2 "app" false full

lookup-meta_example :
    (r : List (String × MetaInfo)) × (meta (chain Envelope) full ≡ some r)
    × ((id : String) → lookup id r ≡ Option.map reported (lookup id full.storage_index))
lookup-meta_example = lookup-meta (chain Envelope) full full-IsValid
