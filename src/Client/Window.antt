-- ===== src/Client/Window.antt =====
-- pkg/client/window.go: a window that moves over a source.
pub mod Batches
use log_cache.Common.{
  ℕ, zero, suc, ◌+◌, String, Bool, true, false, Option, none, some, List, [], ◌∷◌, ◌++◌,
  if◌then◌else◌, add64, sub64, zero64,
}
use log_cache.Envelope.{Envelope}
use log_cache.Client.Walk.{join_batches, ReadOption, WalkConfig, default_config, walk}
use log_cache.Client.Walk.Options.{with_walk_start_time, with_walk_end_time, configure_all}

-- The start is an int64 of nanoseconds; none is the zero time. The durations are not negative, and
-- an interval is not 0 when a window starts: time.NewTicker, which gives the ticks, panics for it.
pub record WindowConfig : Type 0 where
  pub start : Option ℕ
  pub width : ℕ
  pub interval : ℕ

-- An hour, by the minute.
unfoldable pub default_window : WindowConfig
default_window = record { start = none; width = 3600000000000; interval = 60000000000 }

-- The logger is left out.
pub data WindowOption : Type 0 where
  with_window_start_time with_window_width with_window_interval : ℕ → WindowOption

unfoldable pub configure_window : WindowOption → WindowConfig → WindowConfig
configure_window (with_window_start_time t) c = record c { start = some t }
configure_window (with_window_width w) c = record c { width = w }
configure_window (with_window_interval i) c = record c { interval = i }

unfoldable pub configure_windows : List WindowOption → WindowConfig → WindowConfig
unfolding configure_window
configure_windows [] c = c
configure_windows (o ∷ os) c = configure_windows os (configure_window o c)

-- Where the first window starts; `now` is the clock at the call.
unfoldable pub first_start : (now : ℕ) → WindowConfig → ℕ
unfolding sub64
first_start now c = elim c.start [ none ↦ sub64 now (zero64 + c.width) | some t ↦ t ]

-- Walker and visitor, by the number of the tick.
module _ (walker : ℕ → (start end : ℕ) → List Envelope) (visitor : ℕ → List Envelope → Bool) where
  -- The batches that the visitor is given in the first `ticks` ticks from `i` on, and whether Window
  -- has returned by then.
  unfoldable pub window_ticks :
      (ticks i : ℕ) → WindowConfig → (start : ℕ) → List (List Envelope) × Bool
  window_ticks zero i c start = ([], false)
  window_ticks (suc ticks) i c start =
      let es = walker i start (add64 start c.width) in
      let rest = window_ticks ticks (i + 1) c (add64 start c.interval) in
      if visitor i es then (es ∷ rest.0, rest.1) else (es ∷ [], true)

  unfoldable pub window : (ticks now : ℕ) → List WindowOption → List (List Envelope) × Bool
  unfolding window_ticks configure_windows default_window first_start
  window ticks now opts =
      let c = configure_windows opts default_window in window_ticks ticks 0 c (first_start now c)

-- A walker, by the reader, the context and the clock of its tick. A walk is run for a number of
-- rounds; what it has then is its result.
unfoldable pub build_walker :
    (reader : ℕ → ℕ → ℕ → List ReadOption → Option (List Envelope)) (cancelled : ℕ → ℕ → Bool)
    (now : ℕ → ℕ → ℕ) (rounds : ℕ)
    → ℕ
    → (start end : ℕ) → List Envelope
unfolding walk configure_all default_config join_batches
build_walker reader cancelled now rounds i start end =
    join_batches
      (walk (reader i) (cancelled i) (now i) (λ j es. true) rounds
        (configure_all (with_walk_start_time start ∷ with_walk_end_time end ∷ []) default_config)).0
