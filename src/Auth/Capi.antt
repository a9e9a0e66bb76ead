-- ===== src/Auth/Capi.antt =====
-- internal/auth/capi_client.go: the sources that the Cloud Controller lists for a token, behind a
-- cache. The Cloud Controller is a function of the number of the request, so that it may change its
-- answers at any time.
pub mod Calls
pub mod Concurrency
pub mod Grants
pub mod Retries
pub mod Weights
use log_cache.Common.{
  ℕ, zero, suc, ◌+◌, ◌≡◌, String, Bool, true, false, Option, none, some, ◌>>=◌, List, [], ◌∷◌, ◌++◌,
  map, if◌then◌else◌, ltb, leb, ◌==◌, str_eq, lookup, insert, delete, length, keep,
}
use log_cache.Promql.Query.{contains}

abbrev pub max_retries : ℕ
max_retries = 3

pub record Resource : Type 0 where
  pub guid : String
  pub name : String

pub record AuthorizedSourceIds : Type 0 where
  pub source_ids : List String
  pub retry_count : ℕ
  pub expires_at : ℕ

-- The client, and the number of requests so far. `listings` counts the calls of AvailableSourceIDs
-- that IsAuthorized makes, which the code does not.
pub record CapiClient : Type 0 where
  pub token_cache : List (String × AuthorizedSourceIds)
  pub cache_expiration_interval : ℕ
  pub requests : ℕ
  pub listings : ℕ

-- A request's path, with its query.
pub data Url : Type 0 where
  apps service_instances : Url
  apps_named : List String → Url
  next_page : (href : String) → Url

-- What comes back: an error, or a status with a body, which may not decode. In a body, `none` of
-- `next` is an empty href.
pub record Body : Type 0 where
  pub next : Option String
  pub resources : List Resource

pub data HttpResult : Type 0 where
  failed : HttpResult
  response : (status : ℕ) → Option Body → HttpResult

abbrev pub count_request : CapiClient → CapiClient
count_request c = record c { requests = c.requests + 1 }

abbrev pub guids : List Resource → List String
guids l = map (λ r. r.guid) l

-- guidSets[resource.Name] = append(guidSets[resource.Name], resource.Guid)
unfoldable pub add_guids : List Resource → List (String × List String) → List (String × List String)
add_guids [] sets = sets
add_guids (r ∷ rs) sets =
    add_guids rs
      (insert r.name ((elim (lookup r.name sets) [ none ↦ [] | some l ↦ l ]) ++ (r.guid ∷ [])) sets)

unfoldable pub is_contained : List String → String → Bool
unfolding contains
is_contained source_ids source_id = contains source_id source_ids

-- What the cache says: an answer, or that the sources are to be listed, with the retry count of
-- the entry to come.
pub data Verdict : Type 0 where
  answer : Bool → Verdict
  list_again : (retry_count : ℕ) → Verdict

unfoldable pub ask_cache : (now : ℕ) → (source_id token : String) → CapiClient → Verdict
unfolding is_contained
ask_cache now source_id token c = elim (lookup token c.token_cache) [
  | none ↦ list_again 0
  | some e ↦
      if ltb now e.expires_at
      then (if is_contained e.source_ids source_id
          then answer true
          else (if leb max_retries e.retry_count
              then answer false
              else list_again (e.retry_count + 1)))
      else list_again 0
]

abbrev pub store_ids : (later : ℕ) → String → List String → ℕ → CapiClient → CapiClient
store_ids later token ids retry_count c = record c {
  token_cache =
      insert token
        (record {
          source_ids = ids;
          retry_count = retry_count;
          expires_at = later + c.cache_expiration_interval;
        })
        c.token_cache;
  listings = c.listings + 1;
}

unfoldable pub token_cache_size : CapiClient → ℕ
token_cache_size c = length c.token_cache

-- A round of pruneTokens.
unfoldable pub prune_tokens : (now : ℕ) → CapiClient → CapiClient
prune_tokens now c = record c { token_cache = keep (λ d. leb now (d.1.expires_at)) c.token_cache }

-- The Cloud Controller, and url.Parse of an href (`none` is an error).
module _ (capi : ℕ → Url → (token : String) → HttpResult) (parse_url : String → Option Url) where
  -- A page and the next URL; the outer `none` is an error.
  unfoldable pub read_page : HttpResult → Option (List Resource × Option Url)
  read_page failed = none
  read_page (response status body) =
      if status == 200
      then (body >>= λ b. elim b.next [
        | none ↦ some (b.resources, none)
        | some href ↦ (parse_url href >>= λ u. some (b.resources, some u))
      ])
      else none

  unfoldable pub do_resource_request :
      Url → String → CapiClient → Option (List Resource × Option Url) × CapiClient
  unfolding read_page
  do_resource_request url token c = (read_page (capi c.requests url token), count_request c)

  -- The loop over the pages. On fuel; the outer `none` means that it ran out, the inner one is an
  -- error.
  unfoldable pub do_paginated_resource_request :
      ℕ → Url → String → List Resource → CapiClient → Option (Option (List Resource) × CapiClient)
  unfolding do_resource_request
  do_paginated_resource_request zero url token resources c = none
  do_paginated_resource_request (suc fuel) url token resources c =
      let (page, c1) = do_resource_request url token c in
      elim page [
        | none ↦ some (none, c1)
        | some (more, none) ↦ some (some (resources ++ more), c1)
        | some (more, some next) ↦
            do_paginated_resource_request fuel next token (resources ++ more) c1
      ]

  -- An error is logged, and nil is returned.
  unfoldable pub available_source_ids : ℕ → String → CapiClient → Option (List String × CapiClient)
  unfolding do_paginated_resource_request
  available_source_ids fuel token c = do
    (listed, c1) ← do_paginated_resource_request fuel apps token [] c
    elim listed [
      | none ↦ some ([], c1)
      | some resources ↦
          (do_paginated_resource_request fuel service_instances token [] c1 >>= λ p. elim p.0 [
            | none ↦ some ([], p.1)
            | some instances ↦ some (guids resources ++ guids instances, p.1)
          ])
    ]

  unfoldable pub get_related_source_ids :
      ℕ → List String → String → CapiClient → Option (List (String × List String) × CapiClient)
  unfolding add_guids do_paginated_resource_request
  get_related_source_ids fuel [] token c = some ([], c)
  get_related_source_ids fuel (name ∷ names) token c = do
    (listed, c1) ← do_paginated_resource_request fuel (apps_named (name ∷ names)) token [] c
    elim listed [ none ↦ some ([], c1) | some resources ↦ some (add_guids resources [], c1) ]

  -- A call that no other one overlaps: Load and Store are not locked together, and Auth.Capi.Calls
  -- has them as two steps. The clock is read when the cache is asked, and again when it is written.
  unfoldable pub is_authorized :
      ℕ → (now later : ℕ) → (source_id token : String) → CapiClient → Option (Bool × CapiClient)
  unfolding ask_cache available_source_ids is_contained
  is_authorized fuel now later source_id token c = elim (ask_cache now source_id token c) [
    | answer b ↦ some (b, c)
    | list_again retry_count ↦
        (available_source_ids fuel token c >>= λ p.
        some (is_contained p.0 source_id, store_ids later token p.0 retry_count p.1))
  ]
