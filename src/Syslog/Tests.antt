-- ===== src/Syslog/Tests.antt =====
-- A counter as a syslog message, with text functions that know only this message.
use log_cache.Common.{String, lookup}
use log_cache.Common.{◌+◌, ◌≡◌, ◌≢◌, refl, ◌⊎◌, true, none, some, [], ◌∷◌, str_eq, if◌then◌else◌}
use log_cache.Envelope.{Envelope}
use log_cache.Syslog.{SyslogMessage, TextLib, Counters, invalid, parse_listener}
use log_cache.Syslog.Conversion.{From, IsPlain, IsMissing}
use log_cache.Syslog.Listener.{parse_listener_lem}

abbrev simple : TextLib
simple = record {
  parse_int = λ t. none;
  parse_uint = λ t. if str_eq t "7" then some 7 else none;
  parse_float = λ t. none;
  has_prefix = λ t p. str_eq t p;
  trim_space = λ t. t;
  trim_brackets = λ t. t;
  split_slash = λ t. t ∷ [];
}

abbrev hits : SyslogMessage
hits = record {
  proc_id = some "0";
  appname = some "app";
  timestamp = some 5;
  priority = some 14;
  message = some "";
  structured_data =
      some (("counter", ("name", "hits") ∷ ("delta", "7") ∷ ("total", "7") ∷ []) ∷ []);
}

abbrev fresh : Counters
fresh = record { ingress = 0; invalid_ingress = 0 }

has_part : (t : String) → simple.split_slash t ≢ []
has_part t e = absurd (cc)

-- The same message with a `-` for its process id: the listener panics.
abbrev no_pid : SyslogMessage
no_pid = record hits { proc_id = none }

no_pid_panics : parse_listener simple (λ e. true) (some no_pid) fresh ≡ none
unfolding parse_listener
no_pid_panics = refl

hits_sent :
    (env : Envelope) × (parse_listener simple (λ e. true) (some hits) fresh
      ≡ some (record { ingress = 1; invalid_ingress = 0 }, env ∷ []))
unfolding parse_listener lookup
hits_sent = (_, refl)

parse_listener_lem_example :
    ((some hits ≡ none)
      × (parse_listener simple (λ e. true) (some hits) fresh ≡ some (invalid fresh, [])))
    ⊎ ((msg : SyslogMessage) × (some hits ≡ some msg)
        × ((IsMissing msg × (parse_listener simple (λ e. true) (some hits) fresh ≡ none))
            ⊎ (¬ IsMissing msg
                × ((¬ IsPlain msg.structured_data
                      × (parse_listener simple (λ e. true) (some hits) fresh
                          ≡ some (invalid fresh, [])))
                    ⊎ ((env : Envelope) × From msg env
                        × (parse_listener simple (λ e. true) (some hits) fresh
                            ≡ some (
                              if true then record fresh { ingress = 0 + 1 } else fresh,
                              env ∷ [],
                            )))))))
parse_listener_lem_example = parse_listener_lem simple (λ e. true) (some hits) fresh has_part
