-- ===== src/Syslog/Listener.antt =====
-- internal/syslog/server.go, parseListener: the listener counts every message once, and sends at
-- most one envelope.
use log_cache.Common.{
  ◌+◌, ◌≡◌, ◌≢◌, refl, ◌⊎◌, inl, inr, String, Bool, Option, none, some, [], ◌∷◌, if◌then◌else◌,
}
use log_cache.Envelope.{Envelope}
use log_cache.Syslog.{SyslogMessage, TextLib, Counters, invalid, parse_listener}
use log_cache.Syslog.Conversion.{
  From, IsPlain, IsMissing, convert_to_envelope-From, convert_to_envelope-cases,
}

-- Let a split at slashes always have a part. A result with an error is counted as invalid, and
-- nothing is sent. For a message the listener panics if a pointer that it needs is nil, and only
-- then. Otherwise either the message has structured data, is counted as invalid and nothing is sent,
-- or exactly one envelope is sent, with the message's application as its source and the message's
-- time, and it is counted as ingress if the cache accepts it.
pub parse_listener_lem :
    (lib : TextLib) (accepts : Envelope → Bool) (res : Option SyslogMessage) (c : Counters)
    → ((t : String) → lib.split_slash t ≢ [])
    → ((res ≡ none) × (parse_listener lib accepts res c ≡ some (invalid c, [])))
      ⊎ ((msg : SyslogMessage) × (res ≡ some msg)
          × ((IsMissing msg × (parse_listener lib accepts res c ≡ none))
              ⊎ (¬ IsMissing msg
                  × ((¬ IsPlain msg.structured_data
                        × (parse_listener lib accepts res c ≡ some (invalid c, [])))
                      ⊎ ((env : Envelope) × From msg env
                          × (parse_listener lib accepts res c
                              ≡ some (
                                if accepts env then record c { ingress = c.ingress + 1 } else c,
                                env ∷ [],
                              )))))))
unfolding parse_listener
parse_listener_lem lib accepts none c parts = inl (refl, refl)
parse_listener_lem lib accepts (some msg) c parts = inr (
  msg,
  refl,
  elim (convert_to_envelope-cases lib msg parts) [
    | inl (nil, panics) ↦ inl (nil, rw panics refl)
    | inr (set, inl (entry, failed)) ↦ inr (set, inl (entry, rw failed refl))
    | inr (set, inr (env, made)) ↦
        inr (set, inr (env, convert_to_envelope-From lib msg env made, rw made refl))
  ],
)
