-- ===== src/Auth/Capi/Grants.antt =====
-- internal/auth/capi_client.go, IsAuthorized: the sources behind a grant.
use log_cache.Common.{
  ℕ, zero, suc, ◌≡◌, ◌⊎◌, refl, sym, ap, ◌∙◌, subst, inl, inr, String, Bool, true, Option, none,
  some, >>=-eq-some, List, [], ◌∷◌, ◌++◌, All, All-mono, All-append, eq_iff, All-insert, All-lookup,
  lookup, arith, Bool-cases, Option-cases,
}
use log_cache.Promql.Query.{contains}
use log_cache.Promql.Query.Extraction.{contains-All}
use log_cache.Auth.Capi.{
  Resource, AuthorizedSourceIds, CapiClient, Url, apps, service_instances, Body, HttpResult, failed,
  response, count_request, read_page, do_resource_request, do_paginated_resource_request, guids,
  available_source_ids, is_contained, Verdict, answer, list_again, ask_cache, store_ids,
  is_authorized,
}

self_listed : (l : List Resource) → All (λ r. contains r.guid (guids l) ≡ true) l
unfolding contains
self_listed [] = tt
self_listed (r ∷ l) = (
  ground (arith, eq_iff r.guid r.guid),
  All-mono (λ d. contains d.guid (guids l) ≡ true) _ (λ d h. ground (arith, h)) l (self_listed l),
)

guids-All : (P : String → Type 0) (l : List Resource) → All (λ r. P r.guid) l → All P (guids l)
guids-All P [] a = tt
guids-All P (r ∷ l) a = (a.0, guids-All P l a.1)

pub Verdict-cases : (v : Verdict) → ((b : Bool) × (v ≡ answer b)) ⊎ ((n : ℕ) × (v ≡ list_again n))
Verdict-cases (answer b) = inl (b, refl)
Verdict-cases (list_again n) = inr (n, refl)

module _ (capi : ℕ → Url → (token : String) → HttpResult) (parse_url : String → Option Url) where
  -- The Cloud Controller has listed the source for the token, in a response with status 200.
  abbrev pub Listed : String → String → Type 0
  Listed token id =
      (n : ℕ) × (url : Url) × (b : Body) × (capi n url token ≡ response 200 (some b))
      × (contains id (guids b.resources) ≡ true)

  -- A page comes from such a response.
  read_page-response :
      (r : HttpResult) (more : List Resource) (next : Option Url)
      → read_page capi parse_url r ≡ some (more, next)
      → (b : Body) × (r ≡ response 200 (some b)) × (b.resources ≡ more)
  unfolding read_page
  read_page-response failed more next e = absurd (cc)
  read_page-response (response status none) more next e = absurd (ground arith)
  read_page-response (response status (some b)) more next e = elim (Option-cases b.next) [
    | inl last ↦ (b, ground arith, ground (arith, last))
    | inr (href, there) ↦ elim (Option-cases (parse_url href)) [
      | inl bad ↦ absurd (ground (arith, there, bad))
      | inr (u, parsed) ↦ (b, ground (arith, there, parsed), ground (arith, there, parsed))
    ]
  ]

  read_page-Listed :
      (n : ℕ) (url : Url) (token : String) (more : List Resource) (next : Option Url)
      → read_page capi parse_url (capi n url token) ≡ some (more, next)
      → All (λ r. Listed token r.guid) more
  read_page-Listed n url token more next e =
      let (b, came, same) = read_page-response (capi n url token) more next e in
      subst (All (λ r. Listed token r.guid)) same (
        All-mono (λ r. contains r.guid (guids b.resources) ≡ true) _ (λ r h. (n, url, b, came, h))
          b.resources (self_listed b.resources))

  -- What a client keeps while it asks.
  abbrev pub SameCache : CapiClient → CapiClient → Type 0
  SameCache c c' =
      (c'.token_cache ≡ c.token_cache)
      × (c'.listings ≡ c.listings)
      × (c'.cache_expiration_interval ≡ c.cache_expiration_interval)

  abbrev pub AllListed : String → Option (List Resource) → Type 0
  AllListed token none = Unit
  AllListed token (some l) = All (λ r. Listed token r.guid) l

  pub pages-Listed :
      (fuel : ℕ) (url : Url) (token : String) (l : List Resource) (c c' : CapiClient)
      (r : Option (List Resource))
      → All (λ r. Listed token r.guid) l
      → do_paginated_resource_request capi parse_url fuel url token l c ≡ some (r, c')
      → AllListed token r × SameCache c c'
  unfolding do_paginated_resource_request do_resource_request
  pages-Listed zero url token l c c' r a e = absurd (cc)
  pages-Listed (suc fuel) url token l c c' r a e =
      elim (Option-cases (read_page capi parse_url (capi c.requests url token))) [
        | inl bad ↦ let no : r ≡ none = ground (arith, bad) in (rw no tt, ground (arith, bad))
        | inr ((more, none), got) ↦
            let all : r ≡ some (l ++ more) = ground (arith, got) in
            (
              rw all (All-append _ l more a (read_page-Listed c.requests url token more none got)),
              ground (arith, got),
            )
        | inr ((more, some next), got) ↦
            let (listed, same) =
              pages-Listed fuel next token (l ++ more) (count_request c) c' r
                (All-append _ l more a (read_page-Listed c.requests url token more (some next) got))
                (ground (arith, got)) in
            (listed, same)
      ]

  pub available-Listed :
      (fuel : ℕ) (token : String) (c c' : CapiClient) (ids : List String)
      → available_source_ids capi parse_url fuel token c ≡ some (ids, c')
      → All (Listed token) ids × SameCache c c'
  unfolding available_source_ids
  available-Listed fuel token c c' ids e =
      let ((listed, c1), first, rest) =
        >>=-eq-some (do_paginated_resource_request capi parse_url fuel apps token [] c) _ e in
      let (a, same) = pages-Listed fuel apps token [] c c1 listed tt first in
      elim (Option-cases listed) [
        | inl bad ↦
            let no : ids ≡ [] = ground (arith, bad, rest) in
            (rw no tt, ground (arith, bad, rest, same))
        | inr (l, went) ↦
            let ((listed2, c2), second, last) =
              >>=-eq-some
                (do_paginated_resource_request capi parse_url fuel service_instances token [] c1) _
                (rw went at rest) in
            let (a2, same2) =
              pages-Listed fuel service_instances token [] c1 c2 listed2 tt second in
            elim (Option-cases listed2) [
              | inl bad ↦
                  let no : ids ≡ [] = ground (arith, bad, last) in
                  (rw no tt, ground (arith, bad, last, same, same2))
              | inr (k, went2) ↦
                  let both : ids ≡ guids l ++ guids k = ground (arith, went2, last) in
                  (
                    rw both (
                        All-append (Listed token) (guids l) (guids k)
                          (guids-All (Listed token) l (rw went at a))
                          (guids-All (Listed token) k (rw went2 at a2))),
                    ground (arith, went2, last, same, same2),
                  )
            ]
      ]

  -- Every id in the cache was listed for its token.
  abbrev pub CacheIsListed : CapiClient → Type 0
  CacheIsListed c = All (λ d. All (Listed d.0) d.1.source_ids) c.token_cache

  ask_cache-answer :
      (now : ℕ) (id token : String) (c : CapiClient)
      → CacheIsListed c
      → ask_cache now id token c ≡ answer true
      → Listed token id
  unfolding ask_cache is_contained
  ask_cache-answer now id token c a e = elim (Option-cases (lookup token c.token_cache)) [
    | inl missing ↦ absurd (ground (arith, missing))
    | inr (entry, found) ↦ elim (Bool-cases (contains id entry.source_ids)) [
      | inl here ↦
          contains-All (Listed token) id entry.source_ids
            (All-lookup (λ d. All (Listed d.0) d.1.source_ids) token c.token_cache a found) here
      | inr away ↦ absurd (ground (arith, found, away))
    ]
  ]

  -- As long as every id in the cache was listed by the Cloud Controller for its token, in a response
  -- with status 200, a call of IsAuthorized, if it returns, keeps that so, and says yes only for a
  -- source that was listed for the token, by whatever the Cloud Controller has answered until then.
  pub is_authorized-Listed :
      (fuel now later : ℕ) (id token : String) (c c' : CapiClient) (b : Bool)
      → CacheIsListed c
      → is_authorized capi parse_url fuel now later id token c ≡ some (b, c')
      → CacheIsListed c' × (b ≡ true → Listed token id)
  unfolding is_authorized is_contained
  is_authorized-Listed fuel now later id token c c' b a e =
      elim (Verdict-cases (ask_cache now id token c)) [
        | inl (known, asked) ↦
            let same : c' ≡ c = ground (arith, asked) in
            let told : b ≡ known = ground (arith, asked) in
            (rw same a, λ h. ask_cache-answer now id token c a (asked ∙ ap answer (sym told ∙ h)))
        | inr (n, asked) ↦
            let ((ids, c1), listed, last) =
              >>=-eq-some (available_source_ids capi parse_url fuel token c) _
                (rw (asked, is_authorized) at e) in
            let (all, kept) = available-Listed fuel token c c1 ids listed in
            let same : c' ≡ store_ids later token ids n c1 = ground (arith, last) in
            (
              rw (same, kept.0)
                  (All-insert
                    (λ (d : String × AuthorizedSourceIds). All (Listed d.0) d.1.source_ids) token _
                    c.token_cache all a),
              λ h. contains-All (Listed token) id ids all (ground (arith, last)),
            )
      ]
