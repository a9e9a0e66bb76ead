-- ===== src/Client/Requests/Grpc.antt =====
-- pkg/client/client.go, grpcRead: the request that the options make.
use log_cache.Common.{
  ℕ, ◌<◌, ◌≡◌, refl, sym, ap, ◌∙◌, String, true, false, Option, some, List, [], ◌∷◌, ◌++◌, All,
  if◌then◌else◌, str_eq, lookup, insert, lookup-insert, zero64, word,
}
use log_cache.Envelope.{
  EnvelopeType, any_type, log_type, counter_type, gauge_type, timer_type, event_type,
}
use log_cache.Routing.LocalReader.{ReadRequest}
use log_cache.Client.Walk.{
  ReadOption, with_end_time, with_limit, with_envelope_types, with_name_filter, with_descending,
}
use log_cache.Client.Requests.{
  DecimalLib, Values, values, set_value, add_value, type_name, type_of_name, types_of, add_types,
  apply_option, apply_options, request_of, decode_values, grpc_read_request,
}

type_of_name-type_name : (t : EnvelopeType) → type_of_name (type_name t) ≡ t
unfolding type_of_name type_name
type_of_name-type_name any_type = refl
type_of_name-type_name log_type = refl
type_of_name-type_name counter_type = refl
type_of_name-type_name gauge_type = refl
type_of_name-type_name timer_type = refl
type_of_name-type_name event_type = refl

-- An option as a change of one field.
abbrev pub change : ReadOption → ReadRequest → ReadRequest
change (with_end_time t) r = record r { end_time = t }
change (with_limit n) r = record r { limit = n }
change (with_envelope_types ts) r = record r { envelope_types = r.envelope_types ++ ts }
change (with_name_filter f) r = record r { name_filter = f }
change with_descending r = record r { descending = true }

abbrev pub change_all : List ReadOption → ReadRequest → ReadRequest
change_all [] r = r
change_all (o ∷ os) r = change_all os (change o r)

-- The numbers of an option are int64s.
abbrev pub IsInt64 : ReadOption → Type 0
IsInt64 (with_end_time t) = t < word
IsInt64 (with_limit n) = n < word
IsInt64 (with_envelope_types ts) = Unit
IsInt64 (with_name_filter f) = Unit
IsInt64 with_descending = Unit

append_types : (l : List EnvelopeType) → l ++ [] ≡ l
append_types [] = refl
append_types (t ∷ l) = ap (λ k. t ∷ k) (append_types l)

append_assoc : (k l m : List EnvelopeType) → (k ++ l) ++ m ≡ k ++ (l ++ m)
append_assoc [] l m = refl
append_assoc (t ∷ k) l m = ap (λ n. t ∷ n) (append_assoc k l m)

types_of-append : (l m : List String) → types_of (l ++ m) ≡ types_of l ++ types_of m
unfolding types_of
types_of-append [] m = refl
types_of-append (n ∷ l) m = ap (λ k. type_of_name n ∷ k) (types_of-append l m)

module _ (decimal : DecimalLib) (source_id : String) (start : ℕ) where
  decode : Values → ReadRequest
  decode q = decode_values decimal source_id start q

  decode-insert :
      (key : String) (new : List String) (q : Values)
      → decode (insert key new q) ≡ (
          let found : String → Option (List String) =
            λ asked. if str_eq key asked then some new else lookup asked q in
          request_of decimal source_id start
            (found "end_time")
            (found "limit")
            (found "envelope_types")
            (found "descending")
            (found "name_filter"))
  unfolding decode decode_values
  decode-insert key new q =
      rw
        (
          decode_values,
          lookup-insert key "end_time",
          lookup-insert key "limit",
          lookup-insert key "envelope_types",
          lookup-insert key "descending",
          lookup-insert key "name_filter",
        )
        refl

  decode-add_value :
      (t : EnvelopeType) (q : Values)
      → decode (add_value "envelope_types" (type_name t) q)
        ≡ change (with_envelope_types (t ∷ [])) (decode q)
  unfolding add_value decode decode_values types_of
  decode-add_value t q =
      decode-insert "envelope_types" _ q
      ∙ ap (λ l. record (decode q) { envelope_types = l })
          (types_of-append (values (lookup "envelope_types" q)) (type_name t ∷ [])
            ∙ ap (λ u. types_of (values (lookup "envelope_types" q)) ++ (u ∷ []))
                (type_of_name-type_name t))

  decode-add_types :
      (ts : List EnvelopeType) (q : Values)
      → decode (add_types ts q) ≡ change (with_envelope_types ts) (decode q)
  unfolding add_types
  decode-add_types [] q =
      ap (λ l. record (decode q) { envelope_types = l })
        (sym (append_types (decode q).envelope_types))
  decode-add_types (t ∷ ts) q =
      decode-add_types ts (add_value "envelope_types" (type_name t) q)
      ∙ ap (change (with_envelope_types ts)) (decode-add_value t q)
      ∙ ap (λ l. record (decode q) { envelope_types = l })
          (append_assoc (decode q).envelope_types (t ∷ []) ts)

  decode-apply_option :
      (o : ReadOption) (q : Values)
      → IsInt64 o
      → decode (apply_option decimal o q) ≡ change o (decode q)
  unfolding apply_option set_value decode decode_values
  decode-apply_option (with_end_time t) q h =
      decode-insert "end_time" _ q
      ∙ ap (λ n. record (decode q) { end_time = n }) (decimal.parse_int-format_int t h)
  decode-apply_option (with_limit n) q h =
      decode-insert "limit" _ q
      ∙ ap (λ m. record (decode q) { limit = m }) (decimal.parse_int-format_int n h)
  decode-apply_option (with_envelope_types ts) q h = decode-add_types ts q
  decode-apply_option (with_name_filter f) q h = decode-insert "name_filter" _ q
  decode-apply_option with_descending q h = decode-insert "descending" _ q

  decode-apply_options :
      (opts : List ReadOption) (q : Values)
      → All IsInt64 opts
      → decode (apply_options decimal opts q) ≡ change_all opts (decode q)
  unfolding apply_options
  decode-apply_options [] q h = refl
  decode-apply_options (o ∷ opts) q h =
      decode-apply_options opts (apply_option decimal o q) h.1
      ∙ ap (change_all opts) (decode-apply_option o q h.0)

  -- For options whose numbers are int64s the request over gRPC is the one that the options
  -- describe, although it is read back from the texts of a URL: each option in its turn sets its
  -- field, or adds its envelope types, and what no option sets is 0 or empty.
  pub grpc_read_request-change_all :
      (opts : List ReadOption)
      → All IsInt64 opts
      → grpc_read_request decimal source_id start opts
        ≡ change_all opts (record {
          source_id = source_id;
          start_time = start;
          end_time = zero64;
          limit = zero64;
          envelope_types = [];
          descending = false;
          name_filter = "";
        })
  unfolding grpc_read_request decode decode_values lookup types_of
  grpc_read_request-change_all opts h = decode-apply_options opts [] h
