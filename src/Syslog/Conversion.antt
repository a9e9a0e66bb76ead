-- ===== src/Syslog/Conversion.antt =====
-- internal/syslog/server.go, convertToEnvelope: where an envelope comes from, and when it panics.
use log_cache.Common.{
  ℕ, ◌≡◌, ◌≢◌, refl, ◌∙◌, ap, ◌⊎◌, inl, inr, String, Option, none, some, List, [], ◌∷◌, arith,
  Option-cases,
}
use log_cache.Envelope.{Envelope, Message, log}
use log_cache.Syslog.{
  SyslogMessage, TextLib, base_envelope, convert_counter, convert_data, convert_event,
  convert_gauge, convert_log, convert_payload, convert_timer, convert_to_envelope, last_of,
  source_type_inst_id_from_pid, type_from_priority,
}

-- Where an envelope comes from.
abbrev pub From : SyslogMessage → Envelope → Type 0
From msg env = (msg.appname ≡ some env.source_id) × (msg.timestamp ≡ some env.timestamp)

convert_payload-From :
    (lib : TextLib) (msg : SyslogMessage) (base env : Envelope) (t : String)
    (payload : List (String × String))
    → From msg base
    → convert_payload lib base t payload ≡ some env
    → From msg env
unfolding convert_payload convert_counter convert_gauge convert_event convert_timer
convert_payload-From lib msg base env t payload f e = ground arith

convert_log-From :
    (lib : TextLib) (msg : SyslogMessage) (base env : Envelope) (t : String)
    → From msg base
    → convert_log lib base t msg ≡ some (some env)
    → From msg env
unfolding convert_log
convert_log-From lib msg base env t f e = ground arith

base_envelope-From :
    (lib : TextLib) (msg : SyslogMessage) (b : Envelope × String)
    → base_envelope lib msg ≡ some b
    → From msg b.0
unfolding base_envelope source_type_inst_id_from_pid
base_envelope-From lib msg b e = ground arith

convert_data-From :
    (lib : TextLib) (d : Option (List (String × List (String × String)))) (base env : Envelope)
    (t : String) (msg : SyslogMessage)
    → From msg base
    → convert_data lib d base t msg ≡ some (some env)
    → From msg env
unfolding convert_data
convert_data-From lib none base env t msg f e = convert_log-From lib msg base env t f e
convert_data-From lib (some []) base env t msg f e = convert_log-From lib msg base env t f e
convert_data-From lib (some ((k, payload) ∷ rest)) base env t msg f e =
    convert_payload-From lib msg base env k payload f (ground arith)

pub convert_to_envelope-From :
    (lib : TextLib) (msg : SyslogMessage) (env : Envelope)
    → convert_to_envelope lib msg ≡ some (some env)
    → From msg env
unfolding convert_to_envelope
convert_to_envelope-From lib msg env e = elim (Option-cases (base_envelope lib msg)) [
  | inl h ↦ absurd (ground (arith, h))
  | inr (b, h) ↦
      convert_data-From lib msg.structured_data b.0 env b.1 msg (base_envelope-From lib msg b h)
        (ground (arith, h))
]

-- There is no entry of structured data, so that the message is a log.
abbrev pub IsPlain : Option (List (String × List (String × String))) → Type 0
IsPlain none = Unit
IsPlain (some []) = Unit
IsPlain (some (entry ∷ rest)) = ⊥

abbrev pub MissingBase : SyslogMessage → Type 0
MissingBase msg = (msg.proc_id ≡ none) ⊎ (msg.appname ≡ none) ⊎ (msg.timestamp ≡ none)

-- A pointer that is needed is nil: that of the process id, the application or the time, and for a
-- log that of the text or the priority.
abbrev pub IsMissing : SyslogMessage → Type 0
IsMissing msg =
    MissingBase msg ⊎ (IsPlain msg.structured_data × ((msg.message ≡ none) ⊎ (msg.priority ≡ none)))

record HasBase (msg : SyslogMessage) : Type 0 where
  pid : String
  proc_id : msg.proc_id ≡ some pid
  id : String
  appname : msg.appname ≡ some id
  t : ℕ
  timestamp : msg.timestamp ≡ some t

base-cases : (msg : SyslogMessage) → MissingBase msg ⊎ HasBase msg
base-cases msg = elim (Option-cases msg.proc_id) [
  | inl nil ↦ inl (inl nil)
  | inr (pid, proc_id) ↦ elim (Option-cases msg.appname) [
    | inl nil ↦ inl (inr (inl nil))
    | inr (id, appname) ↦ elim (Option-cases msg.timestamp) [
      | inl nil ↦ inl (inr (inr nil))
      | inr (t, timestamp) ↦ inr (record {
        pid = pid;
        proc_id = proc_id;
        id = id;
        appname = appname;
        t = t;
        timestamp = timestamp;
      })
    ]
  ]
]

HasBase-not_missing : (msg : SyslogMessage) → HasBase msg → ¬ MissingBase msg
HasBase-not_missing msg h m = ground (arith, h.proc_id, h.appname, h.timestamp)

-- How the conversion of a message ends, given its envelope so far.
convert_log-cases :
    (lib : TextLib) (base : Envelope) (t : String) (msg : SyslogMessage)
    → (((msg.message ≡ none) ⊎ (msg.priority ≡ none)) × (convert_log lib base t msg ≡ none))
      ⊎ (¬ ((msg.message ≡ none) ⊎ (msg.priority ≡ none))
          × ((env : Envelope) × (convert_log lib base t msg ≡ some (some env))))
unfolding convert_log
convert_log-cases lib base t msg = elim (Option-cases msg.message) [
  | inl nil ↦ inl (inl nil, ground (arith, nil))
  | inr (text, message) ↦ elim (Option-cases msg.priority) [
    | inl nil ↦ inl (inr nil, ground (arith, message, nil))
    | inr (p, priority) ↦ inr (
      (λ m. ground (arith, m, message, priority)),
      (
        record base {
          message = log (lib.trim_space text) (type_from_priority p);
          tags = ("source_type", t) ∷ [];
        },
        ground (arith, message, priority),
      ),
    )
  ]
]

convert_data-cases :
    (lib : TextLib) (d : Option (List (String × List (String × String)))) (base : Envelope)
    (t : String) (msg : SyslogMessage)
    → (IsPlain d
        × ((msg.message ≡ none) ⊎ (msg.priority ≡ none))
        × (convert_data lib d base t msg ≡ none))
      ⊎ (¬ (IsPlain d × ((msg.message ≡ none) ⊎ (msg.priority ≡ none)))
          × ((¬ IsPlain d × (convert_data lib d base t msg ≡ some none))
              ⊎ ((env : Envelope) × (convert_data lib d base t msg ≡ some (some env)))))
unfolding convert_data
convert_data-cases lib none base t msg = elim (convert_log-cases lib base t msg) [
  | inl (nil, panics) ↦ inl (tt, nil, panics)
  | inr (set, (env, made)) ↦ inr ((λ m. set m.1), inr (env, made))
]
convert_data-cases lib (some []) base t msg = elim (convert_log-cases lib base t msg) [
  | inl (nil, panics) ↦ inl (tt, nil, panics)
  | inr (set, (env, made)) ↦ inr ((λ m. set m.1), inr (env, made))
]
convert_data-cases lib (some ((key, payload) ∷ rest)) base t msg =
    elim (Option-cases (convert_payload lib base key payload)) [
      | inl failed ↦ inr ((λ m. m.0), inl ((λ p. p), ap some failed))
      | inr (env, made) ↦ inr ((λ m. m.0), inr (env, ap some made))
    ]

source_type_inst_id_from_pid-some :
    (lib : TextLib) (pid : String)
    → lib.split_slash (lib.trim_brackets pid) ≢ []
    → (r : String × String) × (source_type_inst_id_from_pid lib pid ≡ some r)
unfolding source_type_inst_id_from_pid
source_type_inst_id_from_pid-some lib pid parts = go (lib.split_slash (lib.trim_brackets pid)) parts
  where
    go :
        (ts : List String)
        → ts ≢ []
        → (r : String × String) × ((elim ts [ [] ↦ none | t ∷ ts ↦ some (t, last_of t ts) ])
            ≡ some r)
    go [] k = absurd (k refl)
    go (t ∷ ts) k = ((t, last_of t ts), refl)

convert_to_envelope-missing :
    (lib : TextLib) (msg : SyslogMessage) → MissingBase msg → convert_to_envelope lib msg ≡ none
unfolding convert_to_envelope base_envelope
convert_to_envelope-missing lib msg m = ground (arith, m)

-- A conversion panics just when a pointer is missing; it fails for structured data alone.
pub convert_to_envelope-cases :
    (lib : TextLib) (msg : SyslogMessage)
    → ((t : String) → lib.split_slash t ≢ [])
    → (IsMissing msg × (convert_to_envelope lib msg ≡ none))
      ⊎ (¬ IsMissing msg
          × ((¬ IsPlain msg.structured_data × (convert_to_envelope lib msg ≡ some none))
              ⊎ ((env : Envelope) × (convert_to_envelope lib msg ≡ some (some env)))))
unfolding convert_to_envelope base_envelope
convert_to_envelope-cases lib msg parts = elim (base-cases msg) [
  | inl nil ↦ inl (inl nil, convert_to_envelope-missing lib msg nil)
  | inr k ↦
      let (ids, found) = source_type_inst_id_from_pid-some lib k.pid (parts _) in
      let base : Envelope = record {
        timestamp = k.t;
        source_id = k.id;
        instance_id = ids.1;
        deprecated_tags = [];
        tags = [];
        message = Message.unset;
      } in
      let step : convert_to_envelope lib msg ≡ convert_data lib msg.structured_data base ids.0 msg =
        ground (arith, found, k.proc_id, k.appname, k.timestamp) in
      elim (convert_data-cases lib msg.structured_data base ids.0 msg) [
        | inl (plain, nil, panics) ↦ inl (inr (plain, nil), step ∙ panics)
        | inr (set, inl (entry, failed)) ↦ inr (not_missing msg k set, inl (entry, step ∙ failed))
        | inr (set, inr (env, made)) ↦ inr (not_missing msg k set, inr (env, step ∙ made))
      ]
]
  where
    not_missing :
        (msg : SyslogMessage)
        → HasBase msg
        → ¬ (IsPlain msg.structured_data × ((msg.message ≡ none) ⊎ (msg.priority ≡ none)))
        → ¬ IsMissing msg
    not_missing msg k set (inl nil) = HasBase-not_missing msg k nil
    not_missing msg k set (inr nil) = set nil
