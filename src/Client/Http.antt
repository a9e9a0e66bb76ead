-- ===== src/Client/Http.antt =====
-- pkg/client/client.go: the requests over HTTP, and what is made of the answers.
pub mod Reads
use log_cache.Common.{
  ℕ, ◌==◌, ◌||◌, ◌⊎◌, inl, inr, String, Bool, true, false, Option, none, some, List, [], ◌∷◌,
  if◌then◌else◌, str_eq, lookup, insert,
}
use Prim.Native.String.{◌++◌ as str_append}
use log_cache.Client.Walk.{ReadOption}
use log_cache.Client.Requests.{DecimalLib, Values, set_value, first_value, apply_options}

-- A GET request: its path behind the address, and its query.
pub record Request : Type 0 where
  pub path : String
  pub query : Values

pub record Response : Type 0 where
  pub status : ℕ
  pub body : String

pub data ClientError : Type 0 where
  bad_address request_failed bad_body bad_version no_uptime : ClientError
  unexpected_status check_authorization : ℕ → ClientError

-- The package semver, and the JSON of the info route.
pub record VersionLib : Type 1 where
  pub Version : Type 0
  pub version : (major minor patch : ℕ) → Version
  pub gte : Version → Version → Bool
  pub parse : String → Option Version
  pub version_of_info : String → Option String
  pub uptime_of_info : String → Option String

-- Every status but 200 is an error.
unfoldable pub only_ok : ℕ → Option ClientError
only_ok status = if status == 200 then none else some (unexpected_status status)

-- The raw queries take the JSON of errors, too.
unfoldable pub ok_or_promql_error : ℕ → Option ClientError
ok_or_promql_error status =
    if status == 404
    then some (check_authorization status)
    else if (status == 200) || (status == 400) || (status == 500)
    then none
    else some (unexpected_status status)

-- The options of a PromQL query; the times are formatted with three digits.
pub data PromqlOption : Type 0 where
  with_promql_time with_promql_start with_promql_end with_promql_step : String → PromqlOption

unfoldable pub apply_promql_option : PromqlOption → Values → Values
unfolding set_value
apply_promql_option (with_promql_time t) q = set_value "time" t q
apply_promql_option (with_promql_start t) q = set_value "start" t q
apply_promql_option (with_promql_end t) q = set_value "end" t q
apply_promql_option (with_promql_step s) q = set_value "step" s q

unfoldable pub apply_promql_options : List PromqlOption → Values → Values
unfolding apply_promql_option
apply_promql_options [] q = q
apply_promql_options (o ∷ os) q = apply_promql_options os (apply_promql_option o q)

unfoldable pub promql_request : (path query : String) → List PromqlOption → Request
unfolding set_value apply_promql_options
promql_request path query opts = record {
  path = path;
  query = apply_promql_options opts (set_value "query" query []);
}

abbrev pub info_request : Request
info_request = record { path = "/api/v1/info"; query = [] }

-- Read, for its URL.
unfoldable pub read_request : (base source_id start : String) → (Values → Values) → Request
unfolding set_value
read_request base source_id start opts = record {
  path = str_append base (str_append "/read/" source_id);
  query = opts (set_value "start_time" start []);
}

unfoldable pub take_body :
    {A : Type 0}
    → (ℕ → Option ClientError)
    → (String → Option A)
    → Option Response
    → ClientError ⊎ A
take_body refuse decode none = inl request_failed
take_body refuse decode (some r) = elim (refuse r.status) [
  | some e ↦ inl e
  | none ↦ elim (decode r.body) [ none ↦ inl bad_body | some a ↦ inr a ]
]

-- `parsed` says whether the client's address is a URL.
module _ {S : Type 0} (http : Request → S → Option Response × S) (parsed : Bool) where
  unfoldable pub fetch :
      {A : Type 0}
      → (ℕ → Option ClientError)
      → (String → Option A)
      → Request
      → S
      → (ClientError ⊎ A) × S
  unfolding take_body
  fetch refuse decode request s =
      if parsed
      then (let (answer, s') = http request s in (take_body refuse decode answer, s'))
      else (inl bad_address, s)

  -- PromQL and PromQLRange, and their raw forms, by the path.
  unfoldable pub promql :
      {A : Type 0}
      → (String → Option A)
      → (path query : String) → List PromqlOption
      → S
      → (ClientError ⊎ A) × S
  unfolding fetch only_ok promql_request
  promql decode path query opts s = fetch only_ok decode (promql_request path query opts) s

  unfoldable pub promql_raw :
      {A : Type 0}
      → (String → Option A)
      → (path query : String) → List PromqlOption
      → S
      → (ClientError ⊎ A) × S
  unfolding fetch ok_or_promql_error promql_request
  promql_raw decode path query opts s =
      fetch ok_or_promql_error decode (promql_request path query opts) s

  module _ (lib : VersionLib) where
    -- A server without the route is of the last version without it.
    unfoldable pub version_of : Option Response → ClientError ⊎ lib.Version
    unfolding only_ok
    version_of none = inl request_failed
    version_of (some r) =
        if r.status == 404 then inr (lib.version 1 4 7) else elim (only_ok r.status) [
          | some e ↦ inl e
          | none ↦ elim (lib.version_of_info r.body) [
            | none ↦ inl bad_body
            | some text ↦ elim (lib.parse text) [ none ↦ inl bad_version | some v ↦ inr v ]
          ]
        ]

    unfoldable pub log_cache_version : S → (ClientError ⊎ lib.Version) × S
    unfolding version_of
    log_cache_version s =
        if parsed
        then (let (answer, s') = http info_request s in (version_of answer, s'))
        else (inl bad_address, s)

    -- LogCacheVMUptime; strconv.ParseInt may refuse the text.
    unfoldable pub log_cache_vm_uptime : (parse_int : String → Option ℕ) → S → (ClientError ⊎ ℕ) × S
    unfolding fetch only_ok
    log_cache_vm_uptime parse_int s =
        let (found, s') = fetch only_ok lib.uptime_of_info info_request s in
        (
          elim found [
            | inl e ↦ inl e
            | inr text ↦
                if str_eq text ""
                then inl no_uptime
                else elim (parse_int text) [ none ↦ inl bad_body | some n ↦ inr n ]
          ],
          s',
        )

    -- `base` is the field baseApiPath.
    unfoldable pub get_base_api_path : (base : String) → S → (ClientError ⊎ String) × S
    unfolding log_cache_version
    get_base_api_path base s =
        if str_eq base ""
        then (let (found, s') = log_cache_version s in
            (
              elim found [
                | inl e ↦ inl e
                | inr v ↦ inr (if lib.gte v (lib.version 2 0 0) then "/api/v1" else "/v1")
              ],
              s',
            ))
        else (inr base, s)

    unfoldable pub fetch_below :
        {A : Type 0}
        → (base : String) → (String → Option A)
        → (String → Request)
        → S
        → (ClientError ⊎ A) × S
    unfolding get_base_api_path fetch only_ok
    fetch_below base decode request s =
        if parsed
        then (let (found, s') = get_base_api_path base s in
            elim found [ inl e ↦ (inl e, s') | inr path ↦ fetch only_ok decode (request path) s' ])
        else (inl bad_address, s)

    unfoldable pub http_read :
        {A : Type 0}
        → DecimalLib
        → (base : String) → (String → Option A)
        → (source_id : String) → (start : ℕ) → List ReadOption
        → S
        → (ClientError ⊎ A) × S
    unfolding fetch_below read_request apply_options
    http_read decimal base decode source_id start opts s =
        fetch_below base decode
          (λ path.
            read_request path source_id (decimal.format_int start) (apply_options decimal opts))
          s

    unfoldable pub http_meta :
        {A : Type 0} → (base : String) → (String → Option A) → S → (ClientError ⊎ A) × S
    unfolding fetch_below
    http_meta base decode s =
        fetch_below base decode (λ path. record { path = str_append path "/meta"; query = [] }) s
