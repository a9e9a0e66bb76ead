-- ===== src/Auth/Uaa/Tokens.antt =====
-- internal/auth/uaa_client.go, Read: the tokens that give a context.
use log_cache.Common.{
  ℕ, ◌+◌, ◌*◌, ◌≤◌, ◌≡◌, inl, inr, refl, sym, ap, ◌∙◌, String, true, false, Option, none, some,
  List, [], ◌∷◌, ◌||◌, not_ltb→le, str_eq, eq_iff, lookup, arith, zero64, Bool-cases, Option-cases,
}
use log_cache.Auth.Middleware.{Oauth2ClientContext}
use log_cache.Auth.Uaa.{
  KeyLib, JoseLib, UaaClient, Headers, DecodedToken, KeysResult, context, has_admin_scope, exp_time,
  is_after, read_payload, verify, load_or_fetch_public_key, read_parts, read, trim_bearer,
}
use log_cache.Promql.Query.{contains}

has_admin_scope_lem :
    (scope : List String)
    → has_admin_scope scope ≡ (contains "doppler.firehose" scope || contains "logs.admin" scope)
unfolding has_admin_scope contains
has_admin_scope_lem [] = refl
has_admin_scope_lem (s ∷ scope) = ground (arith, has_admin_scope_lem scope)

module _ {Key : Type 0} (lib : KeyLib Key) (jose : JoseLib Key) where
  abbrev context_of : String → DecodedToken → Oauth2ClientContext
  context_of token t = record {
    is_admin = contains "doppler.firehose" t.scope || contains "logs.admin" t.scope;
    token = token;
    expires_at = exp_time t.exp;
  }

  -- A token that stands for a context, by the keys of a client: it is signed with RS256, by the
  -- key that the client has under the token's key id; it is not expired; and the context is that of
  -- its scope.
  pub record IsSigned (keys : List (String × Key)) (now : ℕ) (token : String)
      (ctx : Oauth2ClientContext) : Type 0 where
    pub headers : Headers
    pub payload : String
    pub kid : String
    pub key : Key
    pub decoded : DecodedToken
    pub apart : jose.parts (trim_bearer token) ≡ some (headers, payload)
    pub by_rs256 : headers.alg ≡ some "RS256"
    pub by_kid : headers.kid ≡ some kid
    pub is_known : lookup kid keys ≡ some key
    pub verified : jose.verifies (trim_bearer token) key ≡ true
    pub unmarshalled : jose.unmarshal_payload payload ≡ some decoded
    pub in_time : now + zero64 * 1000000000 ≤ exp_time decoded.exp
    pub is_its_context : ctx ≡ context_of token decoded

  read_payload-context :
      (now : ℕ) (token payload : String) (ctx : Oauth2ClientContext)
      → read_payload lib jose now token payload ≡ context ctx
      → (t : DecodedToken) × (jose.unmarshal_payload payload ≡ some t)
        × (is_after now t.exp ≡ false)
        × (ctx ≡ context_of token t)
  unfolding read_payload
  read_payload-context now token payload ctx e =
      elim (Option-cases (jose.unmarshal_payload payload)) [
        | inl n ↦ absurd (ground arith)
        | inr (t, is) ↦ elim (Bool-cases (is_after now t.exp)) [
          | inl late ↦ absurd (ground arith)
          | inr in_time ↦ (t, is, in_time, ground (arith, has_admin_scope_lem t.scope))
        ]
      ]

  verify-context :
      (now : ℕ) (token bare payload : String) (o : Option Key) (ctx : Oauth2ClientContext)
      → (verify lib jose now token bare payload o).0 ≡ context ctx
      → (key : Key) × (o ≡ some key)
        × (jose.verifies bare key ≡ true)
        × (read_payload lib jose now token payload ≡ context ctx)
  unfolding verify
  verify-context now token bare payload none ctx e = absurd (ground arith)
  verify-context now token bare payload (some key) ctx e =
      elim (Bool-cases (jose.verifies bare key)) [
        | inl good ↦ (key, refl, good, ground arith)
        | inr bad ↦ absurd (ground arith)
      ]

  lookup-load_or_fetch :
      (uaa : ℕ → KeysResult) (now : ℕ) (kid : String) (c : UaaClient Key)
      → lookup kid (load_or_fetch_public_key lib uaa now now kid c).1.public_keys
        ≡ (load_or_fetch_public_key lib uaa now now kid c).0
  unfolding load_or_fetch_public_key
  lookup-load_or_fetch uaa now kid c = elim (Option-cases (lookup kid c.public_keys)) [
    | inl unknown ↦ rw (load_or_fetch_public_key, unknown) refl
    | inr (k, is) ↦ rw (load_or_fetch_public_key, is) is
  ]

  -- A token whose key is asked for.
  read_parts-context :
      (uaa : ℕ → KeysResult) (now : ℕ) (token bare : String) (headers : Headers) (payload : String)
      (c : UaaClient Key) (ctx : Oauth2ClientContext)
      → (read_parts lib jose uaa now token bare (headers, payload) c).0 ≡ context ctx
      → (headers.alg ≡ some "RS256")
        × ((kid : String) × (headers.kid ≡ some kid)
            × (let (key, c') = load_or_fetch_public_key lib uaa now now kid c in
                ((read_parts lib jose uaa now token bare (headers, payload) c).2 ≡ c')
                × ((verify lib jose now token bare payload key).0 ≡ context ctx)))
  unfolding read_parts
  read_parts-context uaa now token bare headers payload c ctx e = elim (Option-cases headers.alg) [
    | inl n ↦ absurd (ground arith)
    | inr (alg, is) ↦ elim (Bool-cases (str_eq alg "RS256")) [
      | inr other ↦ absurd (ground arith)
      | inl good ↦ elim (Option-cases headers.kid) [
        | inl n ↦ absurd (ground arith)
        | inr (kid, has) ↦ (
          is ∙ ap (λ a. some a) ((eq_iff alg "RS256").0 good),
          (kid, has, (ground arith, ground arith)),
        )
      ]
    ]
  ]

  -- Read gives a context only for a token that, by the keys that the client has at the end, is
  -- signed with RS256 by the key under its key id and is not expired; the context is an
  -- administrator's just when the token's scope has doppler.firehose or logs.admin, and holds the
  -- token and its expiry.
  pub read-IsSigned :
      (uaa : ℕ → KeysResult) (now : ℕ) (token : String) (c : UaaClient Key)
      (ctx : Oauth2ClientContext)
      → (read lib jose uaa now token c).0 ≡ context ctx
      → IsSigned (read lib jose uaa now token c).2.public_keys now token ctx
  unfolding read
  read-IsSigned uaa now token c ctx e = elim (Bool-cases (str_eq token "")) [
    | inl empty ↦ absurd (ground arith)
    | inr given ↦ elim (Option-cases (jose.parts (trim_bearer token))) [
      | inl n ↦ absurd (ground arith)
      | inr ((headers, payload), is) ↦
          let once : read lib jose uaa now token c
              ≡ read_parts lib jose uaa now token (trim_bearer token) (headers, payload) c =
            rw (read, given, is) refl in
          let (alg, found) =
            read_parts-context uaa now token (trim_bearer token) headers payload c ctx
              (sym (ap (λ r. r.0) once) ∙ e) in
          let (kid, has, ends) = found in
          let (key, is_key, verified, answered) =
            verify-context now token (trim_bearer token) payload _ ctx ends.1 in
          let (t, unmarshalled, in_time, its) =
            read_payload-context now token payload ctx answered in
          record {
            headers = headers;
            payload = payload;
            kid = kid;
            key = key;
            decoded = t;
            apart = is;
            by_rs256 = alg;
            by_kid = has;
            is_known =
                ap (λ (k : UaaClient Key). lookup kid k.public_keys) (ap (λ r. r.2) once ∙ ends.0)
                ∙ lookup-load_or_fetch uaa now kid c
                ∙ is_key;
            verified = verified;
            unmarshalled = unmarshalled;
            in_time = not_ltb→le (exp_time t.exp) _ in_time;
            is_its_context = its;
          }
    ]
  ]
