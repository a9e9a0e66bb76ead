-- ===== src/Client/Requests.antt =====
-- pkg/client/client.go: the requests of a client.
pub mod Grpc
use log_cache.Common.{
  ℕ, ◌≡◌, String, Bool, true, false, Option, none, some, List, [], ◌∷◌, ◌++◌, if◌then◌else◌, str_eq,
  lookup, insert, zero64, word, head?, ◌<◌,
}
use log_cache.Envelope.{
  EnvelopeType, any_type, log_type, counter_type, gauge_type, timer_type, event_type,
}
use log_cache.Routing.LocalReader.{ReadRequest}
use log_cache.Client.Walk.{
  ReadOption, with_end_time, with_limit, with_envelope_types, with_name_filter, with_descending,
}

-- url.Values: the query parameters by their keys.
abbrev pub Values : Type 0
Values = List (String × List String)

-- The values of a key, and v[0]; a key with an empty list would panic, and is not made.
abbrev pub values : Option (List String) → List String
values found = elim found [ none ↦ [] | some l ↦ l ]

abbrev pub first_value : Option (List String) → Option String
first_value found = elim found [ none ↦ none | some l ↦ head? l ]

unfoldable pub set_value : String → String → Values → Values
set_value key value q = insert key (value ∷ []) q

unfoldable pub add_value : String → String → Values → Values
add_value key value q = insert key (values (lookup key q) ++ (value ∷ [])) q

-- EnvelopeType_name
unfoldable pub type_name : EnvelopeType → String
type_name any_type = "ANY"
type_name log_type = "LOG"
type_name counter_type = "COUNTER"
type_name gauge_type = "GAUGE"
type_name timer_type = "TIMER"
type_name event_type = "EVENT"

-- EnvelopeType_value; a name that is missing reads as 0.
unfoldable pub type_of_name : String → EnvelopeType
type_of_name name =
    if str_eq name "LOG"
    then log_type
    else if str_eq name "COUNTER"
    then counter_type
    else if str_eq name "GAUGE"
    then gauge_type
    else if str_eq name "TIMER"
    then timer_type
    else if str_eq name "EVENT"
    then event_type
    else any_type

-- strconv.FormatInt and Itoa, and ParseInt with its error dropped, for an int64.
pub record DecimalLib : Type 0 where
  pub format_int : ℕ → String
  pub parse_int : String → ℕ
  pub parse_int-format_int : (n : ℕ) → n < word → parse_int (format_int n) ≡ n

unfoldable pub add_types : List EnvelopeType → Values → Values
unfolding add_value type_name
add_types [] q = q
add_types (t ∷ ts) q = add_types ts (add_value "envelope_types" (type_name t) q)

unfoldable pub types_of : List String → List EnvelopeType
unfolding type_of_name
types_of [] = []
types_of (et ∷ ets) = type_of_name et ∷ types_of ets

module _ (decimal : DecimalLib) where
  unfoldable pub apply_option : ReadOption → Values → Values
  unfolding set_value add_types
  apply_option (with_end_time t) q = set_value "end_time" (decimal.format_int t) q
  apply_option (with_limit n) q = set_value "limit" (decimal.format_int n) q
  apply_option (with_envelope_types ts) q = add_types ts q
  apply_option (with_name_filter f) q = set_value "name_filter" f q
  apply_option with_descending q = set_value "descending" "true" q

  unfoldable pub apply_options : List ReadOption → Values → Values
  unfolding apply_option
  apply_options [] q = q
  apply_options (o ∷ os) q = apply_options os (apply_option o q)

  abbrev pub int_value : Option (List String) → ℕ
  int_value found = elim (first_value found) [ none ↦ zero64 | some v ↦ decimal.parse_int v ]

  -- The request for what the five keys hold.
  abbrev pub request_of :
      String
      → (start : ℕ) → (ends limits types descends filters : Option (List String)) → ReadRequest
  request_of source_id start ends limits types descends filters = record {
    source_id = source_id;
    start_time = start;
    end_time = int_value ends;
    limit = int_value limits;
    envelope_types = types_of (values types);
    descending = elim descends [ none ↦ false | some vs ↦ true ];
    name_filter = elim (first_value filters) [ none ↦ "" | some f ↦ f ];
  }

  unfoldable pub decode_values : String → (start : ℕ) → Values → ReadRequest
  unfolding types_of
  decode_values source_id start q =
      request_of source_id start (lookup "end_time" q) (lookup "limit" q)
        (lookup "envelope_types" q) (lookup "descending" q) (lookup "name_filter" q)

  -- The request of grpcRead.
  unfoldable pub grpc_read_request : String → (start : ℕ) → List ReadOption → ReadRequest
  unfolding apply_options decode_values
  grpc_read_request source_id start opts = decode_values source_id start (apply_options opts [])
