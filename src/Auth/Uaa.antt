-- ===== src/Auth/Uaa.antt =====
-- internal/auth/uaa_client.go: the keys of UAA, and the tokens that they sign. Times are nanoseconds,
-- as an int64.
pub mod Keys
pub mod Tokens
use Prim.Native.Char.{Char, code}
use log_cache.Common.{
  ℕ, ◌+◌, ◌*◌, ◌≡◌, ◌⊎◌, inl, inr, String, Bool, true, false, Option, none, some, List, [], ◌∷◌,
  map, if◌then◌else◌, ltb, ◌==◌, ◌||◌, str_eq, lookup, insert, delete, zero64,
}
use log_cache.Auth.Middleware.{Oauth2ClientContext}

-- A public key of UAA by its id, as text.
pub record TokenKey : Type 0 where
  pub key_id : String
  pub value : String

-- The client; `requests` counts the requests to UAA, which the code does not.
pub record UaaClient (Key : Type 0) : Type 0 where
  pub public_keys : List (String × Key)
  pub minimum_refresh_interval : ℕ
  pub last_query_time : ℕ
  pub requests : ℕ

pub data RefreshError : Type 0 where
  request_failed invalid_status bad_json empty_key bad_pem bad_key not_rsa : RefreshError

-- What UAA answers: an error, or a status with the keys, where its body decodes.
pub data KeysResult : Type 0 where
  failed : KeysResult
  response : (status : ℕ) → Option (List TokenKey) → KeysResult

-- pem.Decode, x509.ParsePKIXPublicKey, and the test for an RSA key.
pub record KeyLib (Key : Type 0) : Type 1 where
  pub Block : Type 0
  pub Parsed : Type 0
  pub pem_decode : String → Option Block
  pub parse_public_key : Block → Option Parsed
  pub as_rsa : Parsed → Option Key

module _ {Key : Type 0} (lib : KeyLib Key) where
  unfoldable pub read_key : String → RefreshError ⊎ Key
  read_key value = if str_eq value "" then inl empty_key else elim (lib.pem_decode value) [
    | none ↦ inl bad_pem
    | some block ↦ elim (lib.parse_public_key block) [
      | none ↦ inl bad_key
      | some parsed ↦ elim (lib.as_rsa parsed) [ none ↦ inl not_rsa | some key ↦ inr key ]
    ]
  ]

  -- The keys, and those known before that are to be pruned. At an error the keys stay as they are.
  unfoldable pub store_keys :
      List TokenKey
      → List (String × Unit {0})
      → List (String × Key)
      → (RefreshError ⊎ List (String × Unit {0})) × List (String × Key)
  unfolding read_key
  store_keys [] current keys = (inr current, keys)
  store_keys (k ∷ ks) current keys = elim (read_key k.value) [
    | inl e ↦ (inl e, keys)
    | inr key ↦ store_keys ks (delete k.key_id current) (insert k.key_id key keys)
  ]

  -- publicKeys.Delete(keyId), for each key that UAA no longer has
  unfoldable pub prune_keys : List (String × Unit {0}) → List (String × Key) → List (String × Key)
  prune_keys [] keys = keys
  prune_keys ((id, u) ∷ current) keys = prune_keys current (delete id keys)

  -- The prune, or the early return.
  abbrev pub end_keys :
      (RefreshError ⊎ List (String × Unit {0})) × List (String × Key)
      → Option RefreshError × List (String × Key)
  end_keys (inl e, keys) = (some e, keys)
  end_keys (inr current, keys) = (none, prune_keys current keys)

  unfoldable pub replace_keys :
      List TokenKey → List (String × Key) → Option RefreshError × List (String × Key)
  unfolding store_keys
  replace_keys token_keys keys =
      end_keys (store_keys token_keys (map (λ (d : String × Key). (d.0, tt)) keys) keys)

  -- `later` is the time at which the request starts; `uaa` answers by the number of the request.
  unfoldable pub refresh_token_keys :
      (uaa : ℕ → KeysResult) (now later : ℕ) → UaaClient Key → Option RefreshError × UaaClient Key
  unfolding replace_keys
  refresh_token_keys uaa now later c =
      if ltb now (c.last_query_time + c.minimum_refresh_interval)
      then (none, c)
      else (let c1 = record c { last_query_time = later; requests = c.requests + 1 } in
          elim (uaa c.requests) [
            | failed ↦ (some request_failed, c1)
            | response status body ↦
                if status == 200
                then elim body [
                  | none ↦ (some bad_json, c1)
                  | some token_keys ↦
                      let (e, keys) = replace_keys token_keys c1.public_keys in
                      (e, record c1 { public_keys = keys })
                ]
                else (some invalid_status, c1)
          ])

  -- `none` is the error that the key is not known.
  unfoldable pub load_or_fetch_public_key :
      (uaa : ℕ → KeysResult) (now later : ℕ) (key_id : String)
      → UaaClient Key
      → Option Key × UaaClient Key
  unfolding refresh_token_keys
  load_or_fetch_public_key uaa now later key_id c = elim (lookup key_id c.public_keys) [
    | some key ↦ (some key, c)
    | none ↦ let c1 = (refresh_token_keys uaa now later c).1 in (lookup key_id c1.public_keys, c1)
  ]

-- ^bearer\s+ in letters of either case
unfoldable pub eat_letters : List ℕ → String → Option String
eat_letters [] s = some s
eat_letters (a ∷ l) String.[] = none
eat_letters (a ∷ l) (String.◌∷◌ c s) =
    let rest = eat_letters l s in if (code c == a) || (code c + 32 == a) then rest else none

unfoldable pub is_space : Char → Bool
is_space c = (code c == 9) || (code c == 10) || (code c == 12) || (code c == 13) || (code c == 32)

unfoldable pub drop_spaces : String → String
unfolding is_space
drop_spaces String.[] = ""
drop_spaces (String.◌∷◌ c s) =
    let rest = drop_spaces s in if is_space c then rest else String.◌∷◌ c s

abbrev pub bearer : List ℕ
bearer = b'b' ∷ b'e' ∷ b'a' ∷ b'r' ∷ b'e' ∷ b'r' ∷ []

abbrev pub without_spaces : (whole : String) → String → String
without_spaces whole String.[] = whole
without_spaces whole (String.◌∷◌ c s) = if is_space c then drop_spaces s else whole

unfoldable pub trim_bearer : String → String
unfolding eat_letters drop_spaces is_space
trim_bearer token = elim (eat_letters bearer token) [
  | none ↦ token
  | some rest ↦ without_spaces token rest
]

-- A token's headers; `none` is a header that is missing, or no text.
pub record Headers : Type 0 where
  pub alg : Option String
  pub kid : Option String

-- The scope, and the expiry in seconds as an int64.
pub record DecodedToken : Type 0 where
  pub scope : List String
  pub exp : ℕ

-- jose.Decode: it takes a token apart, asks the caller for the key, and ends with an error where
-- the token has no alg that is a text, and the caller is then not asked, where the caller gives an
-- error, or where the key does not verify the token. And the JSON of a payload.
pub record JoseLib (Key : Type 0) : Type 0 where
  pub parts : String → Option (Headers × String)
  pub verifies : String → Key → Bool
  pub unmarshal_payload : String → Option DecodedToken

pub data ReadResult : Type 0 where
  context : Oauth2ClientContext → ReadResult
  missing_token decode_failed unmarshal_failed expired panicked : ReadResult

unfoldable pub has_admin_scope : List String → Bool
has_admin_scope [] = false
has_admin_scope (s ∷ scope) =
    let rest = has_admin_scope scope in
    if str_eq s "doppler.firehose" || str_eq s "logs.admin" then true else rest

-- time.Now().After(decodedToken.ExpTime). In nanoseconds the expiry passes the int64s: its number
-- is larger by 2 ^ 63 seconds, and 2 ^ 63 nanoseconds.
abbrev pub exp_time : ℕ → ℕ
exp_time exp = exp * 1000000000 + zero64

abbrev pub is_after : (now exp : ℕ) → Bool
is_after now exp = ltb (exp_time exp) (now + zero64 * 1000000000)

module _ {Key : Type 0} (lib : KeyLib Key) (jose : JoseLib Key) where
  unfoldable pub read_payload : (now : ℕ) (token payload : String) → ReadResult
  unfolding has_admin_scope
  read_payload now token payload = elim (jose.unmarshal_payload payload) [
    | none ↦ unmarshal_failed
    | some t ↦
        if is_after now t.exp
        then expired
        else context (record {
          is_admin = has_admin_scope t.scope;
          token = token;
          expires_at = exp_time t.exp;
        })
  ]

  -- Behind the key. The second component says whether the keys are refreshed in the background.
  unfoldable pub verify : (now : ℕ) (token bare payload : String) → Option Key → ReadResult × Bool
  unfolding read_payload
  verify now token bare payload none = (decode_failed, false)
  verify now token bare payload (some key) =
      if jose.verifies bare key
      then (read_payload now token payload, false)
      else (decode_failed, true)

  unfoldable pub read_parts :
      (uaa : ℕ → KeysResult) (now : ℕ) (token bare : String)
      → Headers × String
      → UaaClient Key
      → ReadResult × Bool × UaaClient Key
  unfolding verify load_or_fetch_public_key
  read_parts uaa now token bare (headers, payload) c = elim headers.alg [
    | none ↦ (decode_failed, true, c)
    | some alg ↦
        if str_eq alg "RS256"
        then elim headers.kid [
          | none ↦ (panicked, false, c)
          | some kid ↦
              let (key, c') = load_or_fetch_public_key lib uaa now now kid c in
              let (result, renew) = verify now token bare payload key in (result, renew, c')
        ]
        else (decode_failed, false, c)
  ]

  unfoldable pub read :
      (uaa : ℕ → KeysResult) (now : ℕ) (token : String)
      → UaaClient Key
      → ReadResult × Bool × UaaClient Key
  unfolding read_parts trim_bearer
  read uaa now token c =
      if str_eq token "" then (missing_token, false, c) else elim (jose.parts (trim_bearer token)) [
        | none ↦ (decode_failed, true, c)
        | some p ↦ read_parts uaa now token (trim_bearer token) p c
      ]
