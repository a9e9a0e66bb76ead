-- ===== src/Syslog.antt =====
-- internal/syslog/server.go: a syslog message becomes an envelope, which goes to the cache.
pub mod Conversion
pub mod Listener
mod Tests
use mathlib.Core.Option
use log_cache.Common.{
  ℕ, ◌+◌, ◌≡◌, ◌≢◌, refl, ◌∙◌, ap, ◌⊎◌, inl, inr, String, Bool, true, false, Option, none, some,
  ◌>>=◌, List, [], ◌∷◌, arith, ◌==◌, if◌then◌else◌, lookup, Option-cases, Bool-cases,
}
use log_cache.Envelope.{
  Envelope, GaugeValue, LogType, Message, log, counter, gauge, timer, event, out, err,
}

-- A parsed message. `none` is a nil pointer, or nil structured data: the parser gives it for a `-`.
pub record SyslogMessage : Type 0 where
  pub proc_id : Option String
  pub appname : Option String
  pub timestamp : Option ℕ
  pub priority : Option ℕ
  pub message : Option String
  pub structured_data : Option (List (String × List (String × String)))

-- What is used of strconv and strings; `split_slash` splits a text at its slashes.
pub record TextLib : Type 0 where
  pub parse_int : String → Option ℕ
  pub parse_uint : String → Option ℕ
  pub parse_float : String → Option ℕ
  pub has_prefix : String → String → Bool
  pub trim_space : String → String
  pub trim_brackets : String → String
  pub split_slash : String → List String

-- A key that is missing reads as the empty text.
abbrev pub param : String → List (String × String) → String
param key msg = Option.get_or (lookup key msg) ""

unfoldable pub type_from_priority : ℕ → LogType
type_from_priority priority = if priority == 11 then err else out

-- The first and the last part. The split of a text has a part.
unfoldable pub last_of : String → List String → String
last_of t [] = t
last_of t (u ∷ us) = last_of u us

module _ (lib : TextLib) where
  unfoldable pub source_type_inst_id_from_pid : String → Option (String × String)
  unfolding last_of
  source_type_inst_id_from_pid pid = elim (lib.split_slash (lib.trim_brackets pid)) [
    | [] ↦ none
    | t ∷ ts ↦ some (t, last_of t ts)
  ]

  -- `none` is an error.
  unfoldable pub convert_timer : Envelope → List (String × String) → Option Envelope
  convert_timer env msg = do
    start ← lib.parse_int (param "start" msg)
    stop ← lib.parse_int (param "stop" msg)
    some (record env { message = timer (param "name" msg) start stop })

  unfoldable pub convert_event : Envelope → List (String × String) → Option Envelope
  convert_event env msg =
      some (record env { message = event (param "title" msg) (param "body" msg) })

  unfoldable pub convert_counter : Envelope → List (String × String) → Option Envelope
  convert_counter env msg = do
    delta ← lib.parse_uint (param "delta" msg)
    total ← lib.parse_uint (param "total" msg)
    some (record env { message = counter (param "name" msg) delta total })

  unfoldable pub convert_gauge : Envelope → List (String × String) → Option Envelope
  convert_gauge env msg = do
    unit ← lookup "unit" msg
    value ← lib.parse_float (param "value" msg)
    some (record env {
      message = gauge ((param "name" msg, record { unit = unit; value = value }) ∷ []);
    })

  -- The switch, for the first entry that a range over the structured data gives.
  unfoldable pub convert_payload : Envelope → String → List (String × String) → Option Envelope
  unfolding convert_timer convert_event convert_counter convert_gauge
  convert_payload env env_type payload =
      if lib.has_prefix env_type "counter"
      then convert_counter env payload
      else if lib.has_prefix env_type "gauge"
      then convert_gauge env payload
      else if lib.has_prefix env_type "event"
      then convert_event env payload
      else if lib.has_prefix env_type "timer"
      then convert_timer env payload
      else none

  unfoldable pub convert_log : Envelope → String → SyslogMessage → Option (Option Envelope)
  unfolding type_from_priority
  convert_log env source_type msg = do
    text ← msg.message
    priority ← msg.priority
    some (
        some (record env {
          message = log (lib.trim_space text) (type_from_priority priority);
          tags = ("source_type", source_type) ∷ [];
        }))

  -- The envelope without its message, and the source type. `none` is a panic.
  unfoldable pub base_envelope : SyslogMessage → Option (Envelope × String)
  unfolding source_type_inst_id_from_pid
  base_envelope msg = do
    pid ← msg.proc_id
    (source_type, instance_id) ← source_type_inst_id_from_pid pid
    source_id ← msg.appname
    t ← msg.timestamp
    some (
      record {
        timestamp = t;
        source_id = source_id;
        instance_id = instance_id;
        deprecated_tags = [];
        tags = [];
        message = Message.unset;
      },
      source_type,
    )

  -- The outer `none` is a panic, the inner one an error.
  unfoldable pub convert_data :
      Option (List (String × List (String × String)))
      → Envelope
      → String
      → SyslogMessage
      → Option (Option Envelope)
  unfolding convert_payload convert_log
  convert_data none env source_type msg = convert_log env source_type msg
  convert_data (some []) env source_type msg = convert_log env source_type msg
  convert_data (some ((env_type, payload) ∷ rest)) env source_type msg =
      some (convert_payload env env_type payload)

  unfoldable pub convert_to_envelope : SyslogMessage → Option (Option Envelope)
  unfolding base_envelope convert_data
  convert_to_envelope msg = base_envelope msg >>= λ b. convert_data msg.structured_data b.0 b.1 msg

pub record Counters : Type 0 where
  pub ingress : ℕ
  pub invalid_ingress : ℕ

abbrev pub invalid : Counters → Counters
invalid c = record c { invalid_ingress = c.invalid_ingress + 1 }

-- Of a result of the parser (`none` has an error): the counters, and what is sent to the cache;
-- `accepts` says whether a Send succeeds.
unfoldable pub parse_listener :
    TextLib
    → (accepts : Envelope → Bool) → Option SyslogMessage
    → Counters
    → Option (Counters × List Envelope)
unfolding convert_to_envelope
parse_listener lib accepts none c = some (invalid c, [])
parse_listener lib accepts (some msg) c = convert_to_envelope lib msg >>= λ converted.
    elim converted [
      | none ↦ some (invalid c, [])
      | some env ↦ some (if accepts env then record c { ingress = c.ingress + 1 } else c, env ∷ [])
    ]
