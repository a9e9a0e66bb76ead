-- ===== src/Auth/Capi/Retries.antt =====
-- internal/auth/capi_client.go, IsAuthorized: the lists of pages end.
use log_cache.Common.{
  ℕ, zero, suc, ◌<◌, ◌≡◌, refl, inl, inr, String, Bool, Option, none, some, List, [], ◌++◌, arith,
  Option-cases,
}
use log_cache.Auth.Capi.{
  Resource, CapiClient, Url, apps, service_instances, Body, HttpResult, failed, response,
  count_request, read_page, do_resource_request, do_paginated_resource_request, guids,
  available_source_ids, is_contained, ask_cache, store_ids, is_authorized,
}
use log_cache.Auth.Capi.Grants.{Verdict-cases}

module _ (capi : ℕ → Url → (token : String) → HttpResult) (parse_url : String → Option Url)
    (fuel : ℕ) (token : String) where
  read_page-next :
      (r : HttpResult) (more : List Resource) (u : Url)
      → read_page capi parse_url r ≡ some (more, some u)
      → (s : ℕ) × (b : Body) × (href : String) × (r ≡ response s (some b))
        × (b.next ≡ some href)
        × (parse_url href ≡ some u)
  unfolding read_page
  read_page-next failed more u e = absurd (cc)
  read_page-next (response s none) more u e = absurd (ground arith)
  read_page-next (response s (some b)) more u e = elim (Option-cases b.next) [
    | inl last ↦ absurd (ground (arith, last))
    | inr (href, there) ↦ elim (Option-cases (parse_url href)) [
      | inl bad ↦ absurd (ground (arith, there, bad))
      | inr (v, parsed) ↦ (s, b, href, refl, there, ground (arith, there, parsed))
    ]
  ]

  module _ (rank : Url → ℕ)
      (falls : (n s : ℕ) (url u : Url) (b : Body) (href : String)
        → capi n url token ≡ response s (some b)
        → b.next ≡ some href
        → parse_url href ≡ some u
        → rank u < rank url) where
    pages_end :
        (f : ℕ) (url : Url) (l : List Resource) (c : CapiClient)
        → rank url < f
        → (p : Option (List Resource) × CapiClient) × (do_paginated_resource_request capi parse_url
              f url token l c
            ≡ some p)
    unfolding do_paginated_resource_request do_resource_request
    pages_end zero url l c h = absurd (omega arith)
    pages_end (suc f) url l c h =
        elim (Option-cases (read_page capi parse_url (capi c.requests url token))) [
          | inl bad ↦ ((none, count_request c), ground (arith, bad))
          | inr ((more, none), got) ↦ ((some (l ++ more), count_request c), ground (arith, got))
          | inr ((more, some u), got) ↦
              let (s, b, href, came, there, parsed) =
                read_page-next (capi c.requests url token) more u got in
              let less = falls c.requests s url u b href came there parsed in
              let (p, done) = pages_end f u (l ++ more) (count_request c) (omega (arith, less)) in
              (p, ground (arith, got, done))
        ]

    listing_ends :
        (c : CapiClient)
        → rank apps < fuel
        → rank service_instances < fuel
        → (p : List String × CapiClient) × (available_source_ids capi parse_url fuel token c
            ≡ some p)
    unfolding available_source_ids
    listing_ends c h k =
        let ((r, c1), first) = pages_end fuel apps [] c h in
        elim (Option-cases r) [
          | inl bad ↦ (([], c1), ground (arith, first, bad))
          | inr (l, went) ↦
              let ((r2, c2), second) = pages_end fuel service_instances [] c1 k in
              elim (Option-cases r2) [
                | inl bad ↦ (([], c2), ground (arith, first, went, second, bad))
                | inr (l2, went2) ↦
                    ((guids l ++ guids l2, c2), ground (arith, first, went, second, went2))
              ]
        ]

    -- If the next page of every page has a smaller rank, so that each list of pages ends, then
    -- IsAuthorized returns, on fuel above the ranks of the two first pages.
    pub is_authorized_returns :
        (now later : ℕ) (id : String) (c : CapiClient)
        → rank apps < fuel
        → rank service_instances < fuel
        → (p : Bool × CapiClient) × (is_authorized capi parse_url fuel now later id token c
            ≡ some p)
    unfolding is_authorized
    is_authorized_returns now later id c h k = elim (Verdict-cases (ask_cache now id token c)) [
      | inl (known, asked) ↦ ((known, c), ground (arith, asked))
      | inr (n, asked) ↦
          let ((ids, c1), listed) = listing_ends c h k in
          ((is_contained ids id, store_ids later token ids n c1), ground (arith, asked, listed))
    ]
