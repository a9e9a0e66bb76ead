-- ===== src/Client/Window/Batches.antt =====
-- Which batch belongs to which window.
use log_cache.Common.{
  ℕ, zero, suc, ◌+◌, ◌≤◌, ◌<◌, ◌≡◌, ◌⊎◌, refl, sym, ap, ◌∙◌, subst, inl, inr, Bool, true, false,
  Option, some, List, [], ◌∷◌, get_elem?, if◌then◌else◌, add64, All, arith,
}
use log_cache.Envelope.{Envelope}
use log_cache.Client.Walk.{ReadOption, default_config, read_opts}
use log_cache.Client.Walk.Options.{with_walk_start_time, with_walk_end_time, configure_all}
use log_cache.Client.Walk.Progress.{Ascending, walk-Visits}
use log_cache.Client.Walk.Joined.{All-join_batches, Visits-All}
use log_cache.Client.Window.{
  WindowConfig, WindowOption, default_window, configure_windows, first_start, window_ticks, window,
  build_walker,
}

-- Where the n-th window starts.
unfoldable pub start_of : WindowConfig → (first n : ℕ) → ℕ
start_of c first zero = first
start_of c first (suc n) = start_of c (add64 first c.interval) n

-- A batch is that of the tick, or a later one.
tick-cases :
    (again : Bool) (batch : List Envelope) (rest : List (List Envelope) × Bool) (n : ℕ)
    (es : List Envelope)
    → (let given : List (List Envelope) × Bool =
          if again then (batch ∷ rest.0, rest.1) else (batch ∷ [], true) in
        get_elem? given.0 n ≡ some es)
    → ((n ≡ 0) × (batch ≡ es)) ⊎ ((m : ℕ) × (n ≡ suc m) × (get_elem? rest.0 m ≡ some es))
tick-cases true batch rest zero es e = inl (refl, ground arith)
tick-cases true batch rest (suc n) es e = inr (n, refl, e)
tick-cases false batch rest zero es e = inl (refl, ground arith)
tick-cases false batch rest (suc n) es e = absurd (ground arith)

module _ (walker : ℕ → (start end : ℕ) → List Envelope) (visitor : ℕ → List Envelope → Bool) where
  -- The batch of a window: that of the walker, at its tick.
  abbrev of_window : WindowConfig → (i start : ℕ) → List Envelope
  of_window c i start = walker i start (add64 start c.width)

  window_ticks_lem :
      (ticks i : ℕ) (c : WindowConfig) (first n : ℕ) (es : List Envelope)
      → get_elem? (window_ticks walker visitor ticks i c first).0 n ≡ some es
      → of_window c (i + n) (start_of c first n) ≡ es
  unfolding window_ticks start_of
  window_ticks_lem zero i c first n es e = absurd (ground arith)
  window_ticks_lem (suc ticks) i c first n es e =
      let batch = of_window c i first in
      let rest = window_ticks walker visitor ticks (i + 1) c (add64 first c.interval) in
      elim (tick-cases (visitor i batch) batch rest n es e) [
        | inl (zero_, same) ↦
            ap (λ m. of_window c (i + m) (start_of c first m)) zero_
            ∙ ap (λ j. of_window c j first) (the_same i)
            ∙ same
        | inr (m, later, e') ↦
            ap (λ k. of_window c (i + k) (start_of c first k)) later
            ∙ ap (λ j. of_window c j (start_of c (add64 first c.interval) m)) (shift i m)
            ∙ window_ticks_lem ticks (i + 1) c (add64 first c.interval) m es e'
      ]
    where
      the_same : (i : ℕ) → i + 0 ≡ i
      the_same i = omega arith

      shift : (i m : ℕ) → i + suc m ≡ i + 1 + m
      shift i m = omega arith

module _ (reader : ℕ → ℕ → ℕ → List ReadOption → Option (List Envelope)) (cancelled : ℕ → ℕ → Bool)
    (clock : ℕ → ℕ → ℕ) (rounds : ℕ)
    (serves : (i j start : ℕ) (opts : List ReadOption) (l : List Envelope)
      → reader i j start opts ≡ some l
      → Ascending start l) where
  build_walker-All :
      (i start end : ℕ)
      → All
          (λ e. (start ≤ e.timestamp) × (e.timestamp < end))
          (build_walker reader cancelled clock rounds i start end)
  unfolding build_walker configure_all default_config
  build_walker-All i start end =
      let c =
        configure_all (with_walk_start_time start ∷ with_walk_end_time end ∷ []) default_config in
      All-join_batches _ _ (
        Visits-All end start start _ (omega arith) (
          walk-Visits (reader i) (cancelled i) (clock i) (λ j es. true) rounds c
            (λ j s l h. serves i j s (read_opts c) l h)))

  -- Let the answers of the reader be in the order of their timestamps, from the start that it was
  -- asked for on, below the greatest int64. Then the n-th batch that Window gives its visitor is
  -- the walk at the n-th tick, and holds only envelopes of the n-th window: that which starts n
  -- intervals after the first one, and is as wide as configured.
  pub window-All :
      (visitor : ℕ → List Envelope → Bool) (ticks now : ℕ) (opts : List WindowOption) (n : ℕ)
      (es : List Envelope)
      → get_elem? (window (build_walker reader cancelled clock rounds) visitor ticks now opts).0 n
        ≡ some es
      → (let c = configure_windows opts default_window in
          let start = start_of c (first_start now c) n in
          (es ≡ build_walker reader cancelled clock rounds n start (add64 start c.width))
          × All (λ e. (start ≤ e.timestamp) × (e.timestamp < add64 start c.width)) es)
  unfolding window
  window-All visitor ticks now opts n es e =
      let c = configure_windows opts default_window in
      let start = start_of c (first_start now c) n in
      let same =
        window_ticks_lem (build_walker reader cancelled clock rounds) visitor ticks 0 c
          (first_start now c) n es e in
      let at_n =
        ap (λ j. build_walker reader cancelled clock rounds j start (add64 start c.width))
          (from_zero n) in
      (
        sym same ∙ at_n,
        subst (All (λ d. (start ≤ d.timestamp) × (d.timestamp < add64 start c.width))) same
            (build_walker-All (0 + n) start (add64 start c.width)),
      )
    where
      from_zero : (n : ℕ) → 0 + n ≡ n
      from_zero n = omega arith
