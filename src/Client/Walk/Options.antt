-- ===== src/Client/Walk/Options.antt =====
-- pkg/client/walk.go: the options of Walk.
use log_cache.Common.{ℕ, String, true, false, Option, none, some, List, [], ◌∷◌}
use log_cache.Envelope.{EnvelopeType}
use log_cache.Client.Walk.{Backoff, retry, WalkConfig}

-- The logger is left out. Without arguments the types are nil.
pub data WalkOption : Type 0 where
  with_walk_start_time with_walk_end_time with_walk_limit with_walk_delay : ℕ → WalkOption
  with_walk_envelope_types : List EnvelopeType → WalkOption
  with_walk_name_filter : String → WalkOption
  with_walk_backoff : Backoff → WalkOption

abbrev pub unless_nil : List EnvelopeType → Option (List EnvelopeType)
unless_nil [] = none
unless_nil (t ∷ ts) = some (t ∷ ts)

unfoldable pub configure : WalkOption → WalkConfig → WalkConfig
configure (with_walk_start_time t) c = record c { start = t }
configure (with_walk_end_time t) c = record c { end = some t }
configure (with_walk_limit n) c = record c { limit = some n }
configure (with_walk_delay d) c = record c { delay = d }
configure (with_walk_envelope_types ts) c = record c { envelope_types = unless_nil ts }
configure (with_walk_name_filter f) c = record c { name_filter = f }
configure (with_walk_backoff b) c = record c { backoff = b }

unfoldable pub configure_all : List WalkOption → WalkConfig → WalkConfig
unfolding configure
configure_all [] c = c
configure_all (o ∷ os) c = configure_all os (configure o c)

unfoldable pub new_retry_backoff : ℕ → Backoff
new_retry_backoff max_count = retry max_count 0 false

unfoldable pub new_retry_backoff_on_err : ℕ → Backoff
new_retry_backoff_on_err max_count = retry max_count 0 true
