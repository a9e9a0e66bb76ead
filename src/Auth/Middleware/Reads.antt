-- ===== src/Auth/Middleware/Reads.antt =====
-- internal/auth/cf_auth_middleware.go: to whom a source and the meta data are served.
use log_cache.Common.{
  ◌≡◌, ◌⊎◌, refl, sym, ap, ◌∙◌, inl, inr, String, true, false, Option, none, some, List, [], ◌∷◌,
  if◌then◌else◌, str_eq, eq_iff, lookup, insert, lookup-insert, arith, Bool-cases, Option-cases,
}
use log_cache.Store.State.{MetaInfo}
use log_cache.Promql.Query.{contains}
use log_cache.Auth.Middleware.Access.{pair-cases}
use log_cache.Auth.Middleware.{
  Oauth2ClientContext, Services, meta_response, serve, handle_read, intersect, only_authorized,
  handle_meta,
}

module _ {S : Type 0} (svc : Services S) (P : String → Type 0)
    (granted : (id token : String) (s : S) → (svc.is_authorized id token s).0 ≡ true → P id) where
  -- A read of a source is served only with a token that is read without an error, and only if the
  -- source has the property that the authorizer grants, or the token is that of an admin.
  pub handle_read-Access :
      (source_id : Option String) (auth_token : String) (s s' : S)
      → handle_read svc source_id auth_token s ≡ (serve, s')
      → (id : String) × (c : Oauth2ClientContext) × (source_id ≡ some id)
        × (str_eq auth_token "" ≡ false)
        × ((svc.read auth_token s).0 ≡ some c)
        × ((c.is_admin ≡ true) ⊎ P id)
  unfolding handle_read
  handle_read-Access none auth_token s s' e = absurd (cc)
  handle_read-Access (some id) auth_token s s' e = elim (Bool-cases (str_eq auth_token "")) [
    | inl empty ↦ absurd (ground (arith, empty))
    | inr token ↦
        let (context, s1, r) = pair-cases (svc.read auth_token s) in
        elim (Option-cases context) [
          | inl failed ↦ absurd (ground (arith, token, r, failed))
          | inr (c, known) ↦ (
            id,
            c,
            refl,
            token,
            ground (arith, r, known),
            elim (Bool-cases c.is_admin) [
              | inl admin ↦ inl admin
              | inr plain ↦ elim (Bool-cases (svc.is_authorized id c.token s1).0) [
                | inl ok ↦ inr (granted id c.token s1 ok)
                | inr refused ↦ absurd (ground (arith, token, r, known, plain, refused))
              ]
            ],
          )
        ]
  ]

module _ {S : Type 0} (svc : Services S) where
  lookup-intersect :
      (meta : List (String × MetaInfo)) (ids : List String) (found : List (String × MetaInfo))
      (id : String)
      → lookup id (intersect svc meta ids found) ≡ (
          if contains id ids
          then (elim (lookup id meta) [ none ↦ lookup id found | some v ↦ some v ])
          else lookup id found)
  unfolding intersect contains
  lookup-intersect meta [] found id = refl
  lookup-intersect meta (j ∷ ids) found id = elim (Option-cases (lookup j meta)) [
    | inl missing ↦ ground (arith, missing, eq_iff j id, lookup-intersect meta ids found id)
    | inr (v, there) ↦ ground (
      arith,
      there,
      eq_iff j id,
      lookup-intersect meta ids (insert j v found) id,
      lookup-insert j id v found,
    )
  ]

  -- If meta data is answered, then the token was read without an error and the meta data fetched;
  -- an admin gets all of it, and any other client exactly the entries of the source ids that are
  -- available to the token.
  pub handle_meta-Access :
      (auth_token : String) (s s' : S) (answer : List (String × MetaInfo))
      → handle_meta svc auth_token s ≡ (meta_response answer, s')
      → (c : Oauth2ClientContext) × (s1 : S) × (fetched : List (String × MetaInfo)) × (s2 : S)
        × (svc.read auth_token s ≡ (some c, s1))
        × (svc.meta s1 ≡ (some fetched, s2))
        × ((id : String)
            → lookup id answer ≡ (
                if c.is_admin
                then lookup id fetched
                else (if contains id (svc.available_source_ids auth_token s2).0
                    then lookup id fetched
                    else none)))
  unfolding handle_meta only_authorized lookup
  handle_meta-Access auth_token s s' answer e = elim (Bool-cases (str_eq auth_token "")) [
    | inl empty ↦ absurd (ground (arith, empty))
    | inr token ↦
        let (context, s1, r) = pair-cases (svc.read auth_token s) in
        elim (Option-cases context) [
          | inl failed ↦ absurd (ground (arith, token, r, failed))
          | inr (c, known) ↦
              let (fetched, s2, f) = pair-cases (svc.meta s1) in
              elim (Option-cases fetched) [
                | inl failed ↦ absurd (ground (arith, token, r, known, f, failed))
                | inr (meta, there) ↦ (
                  c,
                  s1,
                  meta,
                  s2,
                  r ∙ ap (λ o. (o, s1)) known,
                  f ∙ ap (λ o. (o, s2)) there,
                  λ id.
                      let same : (only_authorized svc auth_token meta c s2).0 ≡ answer =
                        ground (arith, token, r, known, f, there) in
                      sym (ap (lookup id) same) ∙ allowed auth_token meta c s2 id,
                )
              ]
        ]
  ]
    where
      allowed :
          (auth_token : String) (meta : List (String × MetaInfo)) (c : Oauth2ClientContext) (s2 : S)
          (id : String)
          → lookup id (only_authorized svc auth_token meta c s2).0 ≡ (
              if c.is_admin
              then lookup id meta
              else (if contains id (svc.available_source_ids auth_token s2).0
                  then lookup id meta
                  else none))
      allowed auth_token meta c s2 id = elim (Bool-cases c.is_admin) [
        | inl admin ↦ ground (arith, admin)
        | inr plain ↦
            ground
              (arith, plain, lookup-intersect meta (svc.available_source_ids auth_token s2).0 [] id)
      ]
