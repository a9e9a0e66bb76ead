-- ===== src/Client/Walk/Contents.antt =====
-- pkg/client/walk.go: the envelopes that a walk visits.
use log_cache.Common.{
  ℕ, zero, suc, ◌+◌, ◌≡◌, Bool, true, false, Option, none, some, List, [], ◌∷◌, if◌then◌else◌, All,
  Bool-cases, Option-cases, inl, inr, sub64,
}
use log_cache.Envelope.{Envelope}
use log_cache.Client.Walk.{
  WalkConfig, ReadOption, WalkState, Round, read_opts, cut_off, cut_new, cut_end, go_on,
  visit_batch, walk_round, walk_rounds, walk, on_err, on_empty,
}

module _ (Q : Envelope → Type 0) where
  cut_off-All : (drops : Envelope → Bool) (es : List Envelope) → All Q es → All Q (cut_off drops es)
  unfolding cut_off
  cut_off-All drops [] a = tt
  cut_off-All drops (e ∷ es) a = go (cut_off drops es) (cut_off-All drops es a.1)
    where
      go :
          (rest : List Envelope)
          → All Q rest
          → All Q (elim rest [ [] ↦ if drops e then [] else e ∷ [] | d ∷ ds ↦ e ∷ d ∷ ds ])
      go [] b = elim (Bool-cases (drops e)) [ inl out ↦ rw out tt | inr kept ↦ rw kept (a.0, tt) ]
      go (d ∷ ds) b = (a.0, b)

  cut_new-All :
      (end : Option ℕ) (b : Bool) (t : ℕ) (es : List Envelope)
      → All Q es
      → All Q (cut_new end b t es)
  cut_new-All none b t es a = cut_off-All _ es a
  cut_new-All (some end) true t es a = a
  cut_new-All (some end) false t es a = cut_off-All _ es a

  cut_end-All : (end : Option ℕ) (es : List Envelope) → All Q es → All Q (cut_end end es)
  cut_end-All none es a = a
  cut_end-All (some end) es a = cut_off-All _ es a

  -- The envelopes that are visited, if any.
  abbrev Visited : Option (List Envelope) → Type 0
  Visited none = Unit
  Visited (some b) = All Q b

  module _ (reader : ℕ → ℕ → List ReadOption → Option (List Envelope)) (cancelled : ℕ → Bool)
      (now : ℕ → ℕ) (visitor : ℕ → List Envelope → Bool) where
    walk_round-Visited :
        (i : ℕ) (c : WalkConfig) (s : WalkState)
        → ((start : ℕ) (es : List Envelope) → reader i start (read_opts c) ≡ some es → All Q es)
        → Visited (walk_round reader cancelled now visitor i c s).visited
    unfolding walk_round visit_batch
    walk_round-Visited i c s serves = elim (Option-cases (reader i s.start (read_opts c))) [
      | inl failed ↦ rw (walk_round, failed) (silent (cancelled i))
      | inr (es, found) ↦
          rw (walk_round, found)
            (go (cut_end c.end (cut_new c.end s.received_empty (sub64 (now i) c.delay) es)) (
              cut_end-All c.end _
                (cut_new-All c.end s.received_empty _ es (serves s.start es found))))
    ]
      where
        silent :
            (b : Bool)
            → Visited
                (if b
                  then record { visited = none; next = none }
                  else go_on (on_err s.backoff) s).visited
        silent true = tt
        silent false = tt

        go :
            (left : List Envelope)
            → All Q left
            → (let round : Round = elim left [
              | [] ↦ go_on (on_empty s.backoff) (record s { received_empty = true })
              | d ∷ ds ↦ visit_batch reader cancelled now visitor i c d ds s
            ] in
                Visited round.visited)
        go [] a = tt
        go (d ∷ ds) a = a

    add-Visited :
        (visited : Option (List Envelope)) (batches : List (List Envelope))
        → Visited visited
        → All (All Q) batches
        → All (All Q) (elim visited [ none ↦ batches | some b ↦ b ∷ batches ])
    add-Visited none batches v a = a
    add-Visited (some b) batches v a = (v, a)

    walk_rounds-All :
        (rounds i : ℕ) (c : WalkConfig) (s : WalkState)
        → ((j start : ℕ) (es : List Envelope) → reader j start (read_opts c) ≡ some es → All Q es)
        → All (All Q) (walk_rounds reader cancelled now visitor rounds i c s).0
    unfolding walk_rounds
    walk_rounds-All zero i c s serves = tt
    walk_rounds-All (suc rounds) i c s serves =
        add-Visited _ _ (walk_round-Visited i c s (serves i)) (
          later (walk_round reader cancelled now visitor i c s).next
            (λ s'. walk_rounds-All rounds (i + 1) c s' serves))
      where
        later :
            (next : Option WalkState)
            → ((s' : WalkState)
                → All (All Q) (walk_rounds reader cancelled now visitor rounds (i + 1) c s').0)
            → (let rest : List (List Envelope) × Bool = elim next [
              | none ↦ ([], true)
              | some s' ↦ walk_rounds reader cancelled now visitor rounds (i + 1) c s'
            ] in
                All (All Q) rest.0)
        later none h = tt
        later (some s') h = h s'

    -- What holds of every envelope that the reader gives holds of every envelope that is visited.
    pub walk-All :
        (rounds : ℕ) (c : WalkConfig)
        → ((j start : ℕ) (es : List Envelope) → reader j start (read_opts c) ≡ some es → All Q es)
        → All (All Q) (walk reader cancelled now visitor rounds c).0
    unfolding walk
    walk-All rounds c serves =
        walk_rounds-All rounds 0 c
          (record { start = c.start; backoff = c.backoff; received_empty = false }) serves
