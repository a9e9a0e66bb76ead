-- ===== src/Auth/Tests.antt =====
-- The middleware with a client that may read two apps.
use log_cache.Common.{◌<◌, ◌≤◌, ◌*◌, arith}
use log_cache.Auth.Capi.Calls.{idle, Event, ask, finish, prune, run, AtMost}
use log_cache.Auth.Capi.Concurrency.{run-listings}
use log_cache.Auth.Capi.Retries.{is_authorized_returns}
use log_cache.Auth.Capi.Grants.{Listed, CacheIsListed, is_authorized-Listed}
use log_cache.Auth.Capi.{
  CapiClient, Url, apps, service_instances, apps_named, next_page, Body, HttpResult, failed,
  response, is_authorized,
}
use log_cache.Promql.Query.{replace_source_id_sets}
use log_cache.Common.{
  ℕ, ◌+◌, ◌≡◌, ◌⊎◌, refl, String, Bool, true, false, Option, none, some, List, [], ◌∷◌, insert,
  lookup, if◌then◌else◌, str_eq,
}
use log_cache.Store.State.{MetaInfo}
use log_cache.Promql.Query.{contains, extract_source_ids}
use log_cache.Promql.Query.Extraction.{contains-All}
use log_cache.Promql.Query.Texts.{bars, one_selector, has_bar}
use log_cache.Auth.Middleware.{
  Oauth2ClientContext, Services, serve, serve_query, meta_response, handle_read, handle_query,
  handle_meta,
}
use log_cache.Auth.Middleware.Access.{QueryIsGranted, handle_query-Access}
use log_cache.Auth.Middleware.Reads.{handle_read-Access, handle_meta-Access}

abbrev guids : List String
guids = "g1" ∷ "g2" ∷ []

abbrev IsGuid : String → Type 0
IsGuid id = contains id guids ≡ true

IsGuid-has_bar : (id : String) → IsGuid id → bars.has_bar id ≡ false
unfolding bars has_bar
IsGuid-has_bar id h = contains-All (λ s. has_bar s ≡ false) id guids (refl, (refl, tt)) h

abbrev client : Oauth2ClientContext
client = record { is_admin = false; token = "bearer t"; expires_at = 9 }

abbrev g1_meta : MetaInfo
g1_meta = record { count = 1; expired = 0; oldest_timestamp = 5; newest_timestamp = 5 }

-- The state counts the questions about a source.
abbrev services : Services ℕ
services = record {
  read = λ t n. (some client, n);
  is_authorized = λ id t n. (contains id guids, n + 1);
  available_source_ids = λ t n. (guids, n);
  related_source_ids = λ names t n. (some (("app", guids) ∷ []), n);
  meta = λ n. (some (("g1", g1_meta) ∷ ("other", g1_meta) ∷ []), n);
}

granted : (id token : String) (s : ℕ) → (services.is_authorized id token s).0 ≡ true → IsGuid id
granted id token s h = h

served_query :
    handle_query services bars one_selector "bearer t" "~app" 0 ≡ (serve_query "~g1|g2", 3)
unfolding handle_query extract_source_ids contains bars one_selector lookup insert
    replace_source_id_sets
served_query = refl

handle_query-Access_example :
    (c : Oauth2ClientContext) × (str_eq "bearer t" "" ≡ false)
    × ((services.read "bearer t" 0).0 ≡ some c)
    × ((c.is_admin ≡ true)
        ⊎ QueryIsGranted services IsGuid granted bars one_selector IsGuid-has_bar "~g1|g2")
handle_query-Access_example =
    handle_query-Access services IsGuid granted bars one_selector IsGuid-has_bar "bearer t" "~app"
      "~g1|g2" 0 3 served_query

served_read : handle_read services (some "g2") "bearer t" 0 ≡ (serve, 1)
unfolding handle_read contains
served_read = refl

handle_read-Access_example :
    (id : String) × (c : Oauth2ClientContext) × (some "g2" ≡ some id)
    × (str_eq "bearer t" "" ≡ false)
    × ((services.read "bearer t" 0).0 ≡ some c)
    × ((c.is_admin ≡ true) ⊎ IsGuid id)
handle_read-Access_example =
    handle_read-Access services IsGuid granted (some "g2") "bearer t" 0 1 served_read

answered_meta : handle_meta services "bearer t" 0 ≡ (meta_response (("g1", g1_meta) ∷ []), 0)
unfolding handle_meta lookup insert
answered_meta = refl

handle_meta-Access_example :
    (c : Oauth2ClientContext) × (s1 : ℕ) × (fetched : List (String × MetaInfo)) × (s2 : ℕ)
    × (services.read "bearer t" 0 ≡ (some c, s1))
    × (services.meta s1 ≡ (some fetched, s2))
    × ((id : String)
        → lookup id (("g1", g1_meta) ∷ []) ≡ (
            if c.is_admin
            then lookup id fetched
            else (if contains id (services.available_source_ids "bearer t" s2).0
                then lookup id fetched
                else none)))
handle_meta-Access_example =
    handle_meta-Access services "bearer t" 0 0 (("g1", g1_meta) ∷ []) answered_meta

-- The Cloud Controller lists two apps on two pages.
abbrev two_pages : ℕ → Url → (token : String) → HttpResult
two_pages n apps token =
    response 200
      (some (record { next = some "p2"; resources = record { guid = "g1"; name = "app" } ∷ [] }))
two_pages n (next_page href) token =
    response 200
      (some (record { next = none; resources = record { guid = "g2"; name = "app" } ∷ [] }))
two_pages n service_instances token = response 200 (some (record { next = none; resources = [] }))
two_pages n (apps_named names) token = failed

abbrev parse_any : String → Option Url
parse_any href = some (next_page href)

abbrev fresh_client : CapiClient
fresh_client = record {
  token_cache = [];
  cache_expiration_interval = 60;
  requests = 0;
  listings = 0;
}

abbrev cached_client : CapiClient
cached_client = record {
  token_cache =
      ("t", record { source_ids = "g1" ∷ "g2" ∷ []; retry_count = 0; expires_at = 61 }) ∷ [];
  cache_expiration_interval = 60;
  requests = 3;
  listings = 1;
}

asked : is_authorized two_pages parse_any 3 1 1 "g2" "t" fresh_client ≡ some (true, cached_client)
unfolding is_authorized lookup insert contains
asked = refl

is_authorized-Listed_example :
    CacheIsListed two_pages parse_any cached_client
    × (◌≡◌ {A = Bool} true true → Listed two_pages parse_any "t" "g2")
is_authorized-Listed_example =
    is_authorized-Listed two_pages parse_any 3 1 1 "g2" "t" fresh_client cached_client true tt asked

-- Two calls for a source that is not listed look into the empty cache. One of them writes last, after
-- the retries of later calls are used up, and takes the retry count back.
abbrev overlapping : List Event
overlapping =
    ask 1 "g9"
    ∷ ask 1 "g9"
    ∷ finish 2 0
    ∷ ask 3 "g9"
    ∷ finish 4 1
    ∷ ask 5 "g9"
    ∷ finish 6 1
    ∷ ask 7 "g9"
    ∷ finish 8 1
    ∷ prune 8
    ∷ ask 9 "g9"
    ∷ finish 10 0
    ∷ ask 11 "g9"
    ∷ finish 12 0
    ∷ []

-- Six listings within an interval, where calls one after another make four.
abbrev late_client : CapiClient
late_client = record {
  token_cache =
      ("t", record { source_ids = "g1" ∷ "g2" ∷ []; retry_count = 1; expires_at = 72 }) ∷ [];
  cache_expiration_interval = 60;
  requests = 18;
  listings = 6;
}

overlapped : run two_pages parse_any 3 "t" overlapping (idle fresh_client) ≡ some (idle late_client)
unfolding run lookup insert contains
overlapped = refl

overlapping-AtMost : AtMost two_pages parse_any 3 "t" 2 overlapping (idle fresh_client)
unfolding AtMost lookup insert contains
overlapping-AtMost = omega arith

run-listings_example :
    late_client.listings + 0 ≤ fresh_client.listings + 2 * (1 + 2 * (1 + 2 * (1 + 2)))
run-listings_example =
    run-listings two_pages parse_any 3 "t" 1 2 overlapping fresh_client (idle late_client)
      (omega arith) overlapping-AtMost overlapped

abbrev rank : Url → ℕ
rank apps = 1
rank service_instances = 0
rank (next_page href) = 0
rank (apps_named names) = 0

rank_falls :
    (n s : ℕ) (url u : Url) (b : Body) (href : String)
    → two_pages n url "t" ≡ response s (some b)
    → b.next ≡ some href
    → parse_any href ≡ some u
    → rank u < rank url
rank_falls n s apps u b href e f g = ground arith
rank_falls n s service_instances u b href e f g = absurd (ground arith)
rank_falls n s (next_page h) u b href e f g = absurd (ground arith)
rank_falls n s (apps_named names) u b href e f g = absurd (cc)

is_authorized_returns_example :
    (p : Bool × CapiClient) × (is_authorized two_pages parse_any 3 1 1 "g2" "t" fresh_client
      ≡ some p)
is_authorized_returns_example =
    is_authorized_returns two_pages parse_any 3 "t" rank rank_falls 1 1 "g2" fresh_client
      (omega arith) (omega arith)
