-- ===== src/Auth/Middleware/Access.antt =====
-- internal/auth/cf_auth_middleware.go: to whom a query is served.
use log_cache.Common.{
  ◌≡◌, ◌≢◌, ◌⊎◌, refl, sym, ap, ◌∙◌, subst, inl, inr, String, true, false, some, List, [], ◌∷◌, All,
  if◌then◌else◌, str_eq, eq_iff, insert, lookup-insert, arith, Bool-cases, Option-cases,
}
use log_cache.Promql.Query.{BarLib, PromqlLib, Sets, extract_source_ids, replace_source_id_sets}
use log_cache.Promql.Query.Replacement.{Good, extract_source_ids-replace_source_id_sets}
use log_cache.Auth.Middleware.{
  Oauth2ClientContext, Services, serve_query, authorize_source_ids, with_itself, authorize_each,
  serve_expanded, handle_query, unless_empty,
}

-- The cases of a computed pair.
pub pair-cases : {A B : Type 0} (p : A × B) → (a : A) × (b : B) × (p ≡ (a, b))
pair-cases (a, b) = (a, b, refl)

module _ {S : Type 0} (svc : Services S) (P : String → Type 0)
    (granted : (id token : String) (s : S) → (svc.is_authorized id token s).0 ≡ true → P id) where
  authorize_source_ids-All :
      (ids : List String) (c : Oauth2ClientContext) (s : S)
      → All P (authorize_source_ids svc ids c s).0
  unfolding authorize_source_ids
  authorize_source_ids-All [] c s = tt
  authorize_source_ids-All (id ∷ ids) c s = elim (Bool-cases (svc.is_authorized id c.token s).0) [
    | inl yes_ ↦ rw yes_ (granted id c.token s yes_, authorize_source_ids-All ids c _)
    | inr no_ ↦ rw no_ (authorize_source_ids-All ids c _)
  ]

  module _ (bar : BarLib) (c : Oauth2ClientContext) (plain : c.is_admin ≡ false) where
    Good-insert :
        (sets : Sets bar) (id j : String) (l : List String)
        → l ≢ []
        → All P l
        → Good bar P sets id
        → Good bar P (insert j l sets) id
    Good-insert sets id j l full a (l', found, full', a') = elim (Bool-cases (str_eq j id)) [
      | inl same ↦ (l, lookup-insert j id l sets ∙ (rw same refl), full, a)
      | inr other ↦ (l', lookup-insert j id l sets ∙ (rw other found), full', a')
    ]

    -- A round that does not end the loop.
    authorize_each_round :
        (id : String) (ids : List String) (sets sets' : Sets bar) (s s' : S)
        → authorize_each svc (id ∷ ids) c sets s ≡ (some sets', s')
        → (l : List String) × (s1 : S) × (l ≢ [])
          × All P l
          × (authorize_each svc ids c (insert id l sets) s1 ≡ (some sets', s'))
    unfolding authorize_each
    authorize_each_round id ids sets sets' s s' e =
        let found = authorize_source_ids svc (with_itself svc sets id) c s in
        go found (authorize_source_ids-All (with_itself svc sets id) c s) (
          sym (
            ap
              (λ b.
                if b
                then authorize_each svc ids c (insert id (with_itself svc sets id) sets) s
                else unless_empty found (λ l s1. authorize_each svc ids c (insert id l sets) s1))
              plain)
          ∙ e)
      where
        go :
            (found : List String × S)
            → All P found.0
            → unless_empty found (λ l s1. authorize_each svc ids c (insert id l sets) s1)
              ≡ (some sets', s')
            → (l : List String) × (s1 : S) × (l ≢ [])
              × All P l
              × (authorize_each svc ids c (insert id l sets) s1 ≡ (some sets', s'))
        go ([], s1) a e = absurd (cc)
        go (j ∷ js, s1) a e = (j ∷ js, s1, (λ h. cc), a, e)

    authorize_each-Good :
        (ids : List String) (sets sets' : Sets bar) (s s' : S)
        → authorize_each svc ids c sets s ≡ (some sets', s')
        → All (Good bar P sets') ids × ((j : String) → Good bar P sets j → Good bar P sets' j)
    unfolding authorize_each
    authorize_each-Good [] sets sets' s s' e =
        (tt, λ j g. subst (λ (x : Sets bar). Good bar P x j) (cc) g)
    authorize_each-Good (id ∷ ids) sets sets' s s' e =
        let (l, s1, full, a, rest) = authorize_each_round id ids sets sets' s s' e in
        let (done, kept) = authorize_each-Good ids (insert id l sets) sets' s1 s' rest in
        (
          (kept id (l, lookup-insert id id l sets ∙ (ground (arith, eq_iff id id)), full, a), done),
          λ j g. kept j (Good-insert sets j id l full a g),
        )

  module _ (bar : BarLib) (prom : PromqlLib)
      (no_bars : (id : String) → P id → bar.has_bar id ≡ false) where
    -- What a query that is served names.
    abbrev pub QueryIsGranted : String → Type 0
    QueryIsGranted query =
        (ids : List String) × (extract_source_ids bar prom query ≡ some ids) × All P ids

    replaced :
        (c : Oauth2ClientContext) (query query' : String) (ids : List String)
        (sets sets' : Sets bar) (s s' : S)
        → c.is_admin ≡ false
        → extract_source_ids bar prom query ≡ some ids
        → authorize_each svc ids c sets s ≡ (some sets', s')
        → replace_source_id_sets bar prom query sets' ≡ some query'
        → QueryIsGranted query'
    replaced c query query' ids sets sets' s s' plain found each done =
        let good = (authorize_each-Good bar c plain ids sets sets' s s' each).0 in
        let (query'', ids', same, again, a) =
          extract_source_ids-replace_source_id_sets bar P no_bars prom sets' query ids found good in
        let e : query'' ≡ query' = cc in (ids', rw e at again, a)

    serve_expanded-Access :
        (auth_token query query' : String) (ids : List String) (c : Oauth2ClientContext) (s s' : S)
        → extract_source_ids bar prom query ≡ some ids
        → serve_expanded svc bar prom auth_token query ids c s ≡ (serve_query query', s')
        → (c.is_admin ≡ true) ⊎ QueryIsGranted query'
    unfolding serve_expanded
    serve_expanded-Access auth_token query query' ids c s s' found e =
        elim (Bool-cases c.is_admin) [
          | inl admin ↦ inl admin
          | inr plain ↦ inr (
              let (related, s1, r) = pair-cases (svc.related_source_ids ids auth_token s) in
              elim (Option-cases related) [
                | inl missing ↦ absurd (ground (arith, r, missing))
                | inr (sets, known) ↦
                    let (expanded, s2, x) = pair-cases (authorize_each svc ids c sets s1) in
                    elim (Option-cases expanded) [
                      | inl stopped ↦ absurd (ground (arith, r, known, x, stopped))
                      | inr (sets', went) ↦
                          elim (Option-cases (replace_source_id_sets bar prom query sets')) [
                            | inl failed ↦ absurd (ground (arith, r, known, x, went, failed))
                            | inr (query'', made) ↦
                                let same : query'' ≡ query' =
                                  ground (arith, r, known, x, went, made) in
                                replaced c query query' ids sets sets' s1 s2 plain found
                                  (x ∙ ap (λ o. (o, s2)) went) (made ∙ ap some same)
                          ]
                    ]
              ])
        ]

    -- If the authorizer grants only ids with a property, and such ids hold no "|", then a query is
    -- served only with a token that is read without an error, and only as a query that parses again
    -- and names nothing but source ids with the property; or else the token is that of an admin.
    pub handle_query-Access :
        (auth_token query query' : String) (s s' : S)
        → handle_query svc bar prom auth_token query s ≡ (serve_query query', s')
        → (c : Oauth2ClientContext) × (str_eq auth_token "" ≡ false)
          × ((svc.read auth_token s).0 ≡ some c)
          × ((c.is_admin ≡ true) ⊎ QueryIsGranted query')
    unfolding handle_query
    handle_query-Access auth_token query query' s s' e = elim (Bool-cases (str_eq auth_token "")) [
      | inl empty ↦ absurd (ground (arith, empty))
      | inr token ↦ elim (Option-cases (extract_source_ids bar prom query)) [
        | inl bad ↦ absurd (ground (arith, token, bad))
        | inr ([], none_) ↦ absurd (ground (arith, token, none_))
        | inr (id ∷ ids, found) ↦
            let (context, s1, r) = pair-cases (svc.read auth_token s) in
            elim (Option-cases context) [
              | inl failed ↦ absurd (ground (arith, token, found, r, failed))
              | inr (c, known) ↦ (
                c,
                token,
                ground (arith, r, known),
                serve_expanded-Access auth_token query query' (id ∷ ids) c s1 s' found
                    (ground (arith, token, found, r, known)),
              )
            ]
      ]
    ]
