-- ===== src/Client/Walk/Termination.antt =====
-- When a walk gives up.
use log_cache.Common.{
  ℕ, zero, suc, ◌+◌, ◌≤◌, ◌<◌, ◌≡◌, refl, Bool, true, false, Option, none, some, List, [], ◌∷◌, ltb,
  if◌then◌else◌, arith, Bool-cases, inl, inr, subst, sym,
}
use log_cache.Envelope.{Envelope}
use log_cache.Client.Walk.{
  retry, WalkConfig, ReadOption, WalkState, Round, read_opts, on_err, go_on, walk_round,
  walk_rounds, walk,
}

-- The visitor is not called in the round, nor behind it.
abbrev Silent : (WalkState → List (List Envelope) × Bool) → Round → Type 0
Silent rest round =
    (round.visited ≡ none) × (elim round.next [ none ↦ Unit | some s' ↦ rest s' ≡ ([], true) ])

silent :
    (rest : WalkState → List (List Envelope) × Bool) (visited : Option (List Envelope))
    (next : Option WalkState)
    → Silent rest (record { visited = visited; next = next })
    → (let later : List (List Envelope) × Bool = elim next [
      | none ↦ ([], true)
      | some s' ↦ rest s'
    ] in
        let all : List (List Envelope) × Bool =
          (elim visited [ none ↦ later.0 | some b ↦ b ∷ later.0 ], later.1) in
        all ≡ ([], true))
silent rest none none h = refl
silent rest none (some s') h = h.1
silent rest (some b) next h = absurd (cc)

module _ (reader : ℕ → ℕ → List ReadOption → Option (List Envelope)) (cancelled : ℕ → Bool)
    (now : ℕ → ℕ) (visitor : ℕ → List Envelope → Bool) where
  walk_round_failed :
      (i : ℕ) (c : WalkConfig) (s : WalkState)
      → reader i s.start (read_opts c) ≡ none
      → walk_round reader cancelled now visitor i c s ≡ (
          if cancelled i
          then record { visited = none; next = none }
          else go_on (on_err s.backoff) s)
  unfolding walk_round
  walk_round_failed i c s h = rw (h, walk_round) refl

  walk_rounds-retry :
      (left i max_count count start : ℕ) (only_err received_empty : Bool) (c : WalkConfig)
      → ((i start : ℕ) → reader i start (read_opts c) ≡ none)
      → 0 < left
      → max_count ≤ count + left
      → walk_rounds reader cancelled now visitor left i c (record {
        start = start;
        backoff = retry max_count count only_err;
        received_empty = received_empty;
      })
        ≡ ([], true)
  unfolding walk_rounds on_err
  walk_rounds-retry zero i max_count count start only_err received_empty c fails some_left enough =
      absurd (omega arith)
  walk_rounds-retry (suc left) i max_count count start only_err received_empty c fails some_left
        enough =
      let s : WalkState = record {
        start = start;
        backoff = retry max_count count only_err;
        received_empty = received_empty;
      } in
      silent _ _ _ (
        subst (Silent (λ s'. walk_rounds reader cancelled now visitor left (i + 1) c s'))
          (sym (walk_round_failed i c s (fails i start)))
          (elim (Bool-cases (cancelled i)) [
            | inl h ↦ rw h (refl, tt)
            | inr h ↦ rw h (elim (Bool-cases (ltb (count + 1) max_count)) [
              | inl again ↦ rw again (
                refl,
                walk_rounds-retry left (i + 1) max_count (count + 1) start only_err received_empty c
                    fails (ground arith) (ground arith),
              )
              | inr done ↦ rw done (refl, tt)
            ])
          ]))

  -- While every read fails, a walk with a RetryBackoff of at least 1 as its count, fresh at the
  -- start, returns within that many rounds, and its visitor is never called.
  pub walk-retry :
      (max_count : ℕ) (only_err : Bool) (c : WalkConfig)
      → c.backoff ≡ retry max_count 0 only_err
      → 0 < max_count
      → ((i start : ℕ) → reader i start (read_opts c) ≡ none)
      → walk reader cancelled now visitor max_count c ≡ ([], true)
  unfolding walk
  walk-retry max_count only_err c fresh positive fails =
      subst
        (λ b.
          walk_rounds reader cancelled now visitor max_count 0 c
            (record { start = c.start; backoff = b; received_empty = false })
          ≡ ([], true))
        (sym fresh)
        (walk_rounds-retry max_count 0 max_count 0 c.start only_err false c fails positive
          (omega arith))
