-- ===== src/Auth/Middleware.antt =====
-- internal/auth/cf_auth_middleware.go: the handlers in front of the gateway.
pub mod Access
pub mod Reads
use log_cache.Common.{
  ℕ, ◌≡◌, String, Bool, true, false, not, Option, none, some, ◌>>=◌, List, [], ◌∷◌, ◌++◌,
  if◌then◌else◌, str_eq, lookup, insert,
}
use log_cache.Store.State.{MetaInfo}
use log_cache.Promql.Query.{BarLib, PromqlLib, Sets, extract_source_ids, replace_source_id_sets}

pub record Oauth2ClientContext : Type 0 where
  pub is_admin : Bool
  pub token : String
  pub expires_at : ℕ

-- The interfaces of the middleware, over the state that stands behind them. `none` of `read` is an
-- error, of `related` a nil map.
pub record Services (S : Type 0) : Type 0 where
  pub read : String → S → Option Oauth2ClientContext × S
  pub is_authorized : (source_id token : String) → S → Bool × S
  pub available_source_ids : String → S → List String × S
  pub related_source_ids : List String → String → S → Option (List (String × List String)) × S
  pub meta : S → Option (List (String × MetaInfo)) × S

-- What a handler answers: a status code, one of the two errors about a query (that of the parser,
-- or that it names no source id), meta data, or what the gateway answers to the request, with
-- another query where it has one.
pub data Answer : Type 0 where
  not_found bad_gateway bad_query no_source_ids : Answer
  meta_response : List (String × MetaInfo) → Answer
  serve : Answer
  serve_query : String → Answer

-- Where no id is left, the loop ends.
abbrev pub unless_empty :
    {S R : Type 0} → List String × S → (List String → S → Option R × S) → Option R × S
unless_empty ([], s) go_on = (none, s)
unless_empty (id ∷ ids, s) go_on = go_on (id ∷ ids) s

module _ {S : Type 0} (svc : Services S) where
  -- /api/v1/read/{sourceID}; `none` is a route without the variable.
  unfoldable pub handle_read : Option String → (auth_token : String) → S → Answer × S
  handle_read none auth_token s = (not_found, s)
  handle_read (some source_id) auth_token s =
      if str_eq auth_token ""
      then (not_found, s)
      else (let (context, s1) = svc.read auth_token s in
          elim context [
            | none ↦ (not_found, s1)
            | some c ↦
                if c.is_admin
                then (serve, s1)
                else (let (ok, s2) = svc.is_authorized source_id c.token s1 in
                    (if ok then serve else not_found, s2))
          ])

  unfoldable pub authorize_source_ids : List String → Oauth2ClientContext → S → List String × S
  authorize_source_ids [] c s = ([], s)
  authorize_source_ids (id ∷ ids) c s =
      let (ok, s1) = svc.is_authorized id c.token s in
      let rest = authorize_source_ids ids c s1 in (if ok then id ∷ rest.0 else rest.0, rest.1)

  -- relatedSourceIds[sourceId], with the id itself
  abbrev pub with_itself : List (String × List String) → String → List String
  with_itself related id = (elim (lookup id related) [ none ↦ [] | some l ↦ l ]) ++ (id ∷ [])

  -- The loop over the source ids. `none` is an id for which nothing is authorized.
  unfoldable pub authorize_each :
      List String
      → Oauth2ClientContext
      → List (String × List String)
      → S
      → Option (List (String × List String)) × S
  unfolding authorize_source_ids
  authorize_each [] c related s = (some related, s)
  authorize_each (id ∷ ids) c related s =
      if c.is_admin
      then authorize_each ids c (insert id (with_itself related id) related) s
      else unless_empty (authorize_source_ids (with_itself related id) c s)
          (λ l s1. authorize_each ids c (insert id l related) s1)

  module _ (bar : BarLib) (prom : PromqlLib) where
    -- From the expansion of the names on.
    unfoldable pub serve_expanded :
        (auth_token query : String) → List String → Oauth2ClientContext → S → Answer × S
    unfolding authorize_each
    serve_expanded auth_token query source_ids c s =
        let (related, s1) = svc.related_source_ids source_ids auth_token s in
        elim related [
          | none ↦ (not_found, s1)
          | some sets ↦
              let (expanded, s2) = authorize_each source_ids c sets s1 in
              elim expanded [
                | none ↦ (not_found, s2)
                | some sets' ↦ elim (replace_source_id_sets bar prom query sets') [
                  | none ↦ (not_found, s2)
                  | some query' ↦ (serve_query query', s2)
                ]
              ]
        ]

    -- /api/v1/query and /api/v1/query_range
    unfoldable pub handle_query : (auth_token query : String) → S → Answer × S
    unfolding serve_expanded
    handle_query auth_token query s =
        if str_eq auth_token "" then (not_found, s) else elim (extract_source_ids bar prom query) [
          | none ↦ (bad_query, s)
          | some [] ↦ (no_source_ids, s)
          | some (id ∷ ids) ↦
              let (context, s1) = svc.read auth_token s in
              elim context [
                | none ↦ (not_found, s1)
                | some c ↦ serve_expanded auth_token query (id ∷ ids) c s1
              ]
        ]

  -- The loop of onlyAuthorized.
  unfoldable pub intersect :
      List (String × MetaInfo) → List String → List (String × MetaInfo) → List (String × MetaInfo)
  intersect meta [] found = found
  intersect meta (id ∷ ids) found =
      intersect meta ids (elim (lookup id meta) [ none ↦ found | some v ↦ insert id v found ])

  unfoldable pub only_authorized :
      (auth_token : String)
      → List (String × MetaInfo)
      → Oauth2ClientContext
      → S
      → List (String × MetaInfo) × S
  unfolding intersect
  only_authorized auth_token meta c s =
      if c.is_admin
      then (meta, s)
      else (let (ids, s1) = svc.available_source_ids auth_token s in (intersect meta ids [], s1))

  -- /api/v1/meta
  unfoldable pub handle_meta : (auth_token : String) → S → Answer × S
  unfolding only_authorized
  handle_meta auth_token s =
      if str_eq auth_token ""
      then (not_found, s)
      else (let (context, s1) = svc.read auth_token s in
          elim context [
            | none ↦ (not_found, s1)
            | some c ↦
                let (fetched, s2) = svc.meta s1 in
                elim fetched [
                  | none ↦ (bad_gateway, s2)
                  | some meta ↦
                      let (allowed, s3) = only_authorized auth_token meta c s2 in
                      (meta_response allowed, s3)
                ]
          ])
