-- ===== src/Client/Tests.antt =====
-- Walk over a source that has an envelope at every nanosecond, and over one that only fails.
use log_cache.Common.{
  ℕ, ◌+◌, ◌≡◌, refl, true, false, Option, none, some, List, [], ◌∷◌, ltb, if◌then◌else◌, arith,
  max64, zero64, get_elem?, All, ◌≤◌, ◌<◌,
}
use log_cache.Envelope.{Envelope, counter}
use log_cache.Client.Walk.{
  WalkConfig, ReadOption, retry, always_done, read_opts, walk, walk_round, visit_batch,
}
use log_cache.Client.Walk.Progress.{Ascending, Visits, walk-Visits}
use log_cache.Client.Window.{
  WindowOption, with_window_start_time, with_window_width, with_window_interval, window,
  build_walker, configure_windows, first_start,
}
use log_cache.Client.Window.Batches.{start_of, window-All}
use log_cache.Client.Walk.Termination.{walk-retry}

abbrev hit : ℕ → Envelope
hit t = record {
  timestamp = t;
  source_id = "app";
  instance_id = "0";
  deprecated_tags = [];
  tags = [];
  message = counter "hits" 1 t;
}

abbrev dense : ℕ → ℕ → List ReadOption → Option (List Envelope)
dense i start opts = if ltb start max64 then some (hit start ∷ []) else none

abbrev from_5_to_7 : WalkConfig
from_5_to_7 = record {
  backoff = always_done;
  start = zero64 + 5;
  end = some (zero64 + 7);
  limit = none;
  envelope_types = none;
  delay = zero64;
  name_filter = "";
}

dense-Ascending :
    (i start : ℕ) (es : List Envelope)
    → dense i start (read_opts from_5_to_7) ≡ some es
    → Ascending start es
dense-Ascending i start [] h = tt
dense-Ascending i start (e ∷ es) h = ground arith

walk-Visits_example :
    Visits
      (some (zero64 + 7))
      (zero64 + 5)
      (walk dense (λ i. false) (λ i. zero64 + 100) (λ i b. true) 9 from_5_to_7).0
walk-Visits_example =
    walk-Visits dense (λ i. false) (λ i. zero64 + 100) (λ i b. true) 9 from_5_to_7 dense-Ascending

abbrev patient : WalkConfig
patient = record from_5_to_7 { backoff = retry 3 0 false }

walk-retry_example :
    walk (λ i start opts. none) (λ i. false) (λ i. zero64) (λ i b. true) 3 patient ≡ ([], true)
walk-retry_example =
    walk-retry (λ i start opts. none) (λ i. false) (λ i. zero64) (λ i b. true) 3 false patient refl
      (omega arith) (λ i start. refl)

-- A window of two nanoseconds that moves by two.
abbrev twos : List WindowOption
twos = with_window_start_time (zero64 + 5) ∷ with_window_width 2 ∷ with_window_interval 2 ∷ []

abbrev second_window : List Envelope
second_window = hit (zero64 + 7) ∷ hit (zero64 + 8) ∷ []

abbrev dense_walker : ℕ → (start end : ℕ) → List Envelope
dense_walker = build_walker (λ i. dense) (λ i j. false) (λ i j. zero64 + 10000000000) 9

dense-serves :
    (i j start : ℕ) (opts : List ReadOption) (l : List Envelope)
    → dense j start opts ≡ some l
    → Ascending start l
dense-serves i j start opts [] h = tt
dense-serves i j start opts (e ∷ es) h = ground arith

second_batch : get_elem? (window dense_walker (λ i es. true) 3 zero64 twos).0 1 ≡ some second_window
unfolding window build_walker walk_round visit_batch
second_batch = refl

window-All_example :
    (second_window ≡ dense_walker 1 (zero64 + 7) (zero64 + 9))
    × All (λ e. (zero64 + 7 ≤ e.timestamp) × (e.timestamp < zero64 + 9)) second_window
unfolding start_of first_start configure_windows
window-All_example =
    window-All (λ i. dense) (λ i j. false) (λ i j. zero64 + 10000000000) 9 dense-serves
      (λ i es. true) 3 zero64 twos 1 second_window second_batch
