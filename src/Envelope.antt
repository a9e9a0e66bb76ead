-- ===== src/Envelope.antt =====
-- The envelopes of go-loggregator (rpc/loggregator_v2), as far as log-cache reads them, and the
-- envelope types of api/v1.
use log_cache.Common.{ℕ, String, List}

-- A float64 is carried as its bit pattern.
pub record GaugeValue : Type 0 where
  pub unit : String
  pub value : ℕ

pub data LogType : Type 0 where
  out err : LogType

-- The `oneof message`; `unset` is a nil message.
pub data Message : Type 0 where
  unset : Message
  log : (payload : String) → LogType → Message
  counter : (name : String) → (delta total : ℕ) → Message
  gauge : (metrics : List (String × GaugeValue)) → Message
  timer : (name : String) → (start stop : ℕ) → Message
  event : (title body : String) → Message

pub record Envelope : Type 0 where
  pub timestamp : ℕ
  pub source_id : String
  pub instance_id : String
  pub deprecated_tags : List (String × String)
  pub tags : List (String × String)
  pub message : Message

-- logcache_v1.EnvelopeType
pub data EnvelopeType : Type 0 where
  any_type log_type counter_type gauge_type timer_type event_type : EnvelopeType
