-- ===== src/Auth/UaaTests.antt =====
-- The keys and tokens of UAA on concrete inputs.
use log_cache.Common.{
  ℕ, ◌≡◌, refl, String, true, none, some, List, [], ◌∷◌, if◌then◌else◌, str_eq, lookup, insert,
  delete, arith,
}
use log_cache.Auth.Middleware.{Oauth2ClientContext}
use log_cache.Auth.Uaa.{
  TokenKey, KeyLib, JoseLib, UaaClient, Headers, DecodedToken, KeysResult, response, context,
  read_key, replace_keys, prune_keys, refresh_token_keys, trim_bearer, read,
}
use log_cache.Auth.Uaa.Keys.{last_key, refresh_token_keys-last_key}
use log_cache.Auth.Uaa.Tokens.{IsSigned, read-IsSigned}

-- A key is its text.
abbrev texts : KeyLib String
texts = record {
  Block = String;
  Parsed = String;
  pem_decode = λ s. some s;
  parse_public_key = λ s. some s;
  as_rsa = λ s. some s;
}

abbrev client_ : UaaClient String
client_ = record {
  public_keys = ("old", "key-0") ∷ ("id", "key-1") ∷ [];
  minimum_refresh_interval = 30;
  last_query_time = 0;
  requests = 0;
}

abbrev new_keys : List TokenKey
new_keys =
    record { key_id = "id"; value = "key-2" } ∷ record { key_id = "new"; value = "key-3" } ∷ []

unfoldable uaa : ℕ → KeysResult
uaa n = response 200 (some new_keys)

-- The key that UAA no longer has is gone.
refresh_token_keys-last_key_example :
    let (e, c') = refresh_token_keys texts uaa 30 31 client_ in
    (e ≡ none) × (lookup "old" c'.public_keys ≡ none)
unfolding uaa lookup last_key read_key replace_keys
refresh_token_keys-last_key_example =
    refresh_token_keys-last_key texts uaa 30 31 client_ new_keys "old" (omega arith) refl
      (refl, (refl, tt)) refl

abbrev headers : Headers
headers = record { alg = some "RS256"; kid = some "new" }

abbrev admin_until_5 : DecodedToken
admin_until_5 = record { scope = "openid" ∷ "logs.admin" ∷ []; exp = 9223372036854775813 }

abbrev one_token : JoseLib String
one_token = record {
  parts = λ t. if str_eq t "token" then some (headers, "payload") else none;
  verifies = λ t k. str_eq k "key-3";
  unmarshal_payload = λ p. some admin_until_5;
}

-- The client fetches the key of the token, four seconds after the epoch.
abbrev ctx_of_token : Oauth2ClientContext
ctx_of_token = record {
  is_admin = true;
  token = "bEaReR  token";
  expires_at = 9223372046078147849854775808;
}

reads :
    (read texts one_token uaa 9223372040854775808 "bEaReR  token" client_).0 ≡ context ctx_of_token
unfolding read uaa trim_bearer lookup insert delete prune_keys
reads = refl

read-IsSigned_example :
    IsSigned texts one_token
      (read texts one_token uaa 9223372040854775808 "bEaReR  token" client_).2.public_keys
      9223372040854775808
      "bEaReR  token"
      ctx_of_token
read-IsSigned_example =
    read-IsSigned texts one_token uaa 9223372040854775808 "bEaReR  token" client_ ctx_of_token reads
