-- ===== src/Client/Walk/Progress.antt =====
-- pkg/client/walk.go: how a walk moves forward.
use log_cache.Common.{
  ℕ, zero, suc, ◌+◌, ◌≤◌, ◌<◌, ◌≡◌, ◌≢◌, refl, ◌∙◌, ◌⊎◌, inl, inr, Bool, true, false, ◌||◌, not,
  Option, none, some, List, [], ◌∷◌, leb, if◌then◌else◌, arith, All, All-mono, subst, Bool-cases,
  Option-cases, max64, add64, sub64,
}
use log_cache.Envelope.{Envelope}
use log_cache.Client.Walk.{
  Backoff, WalkConfig, ReadOption, WalkState, Round, read_opts, cut_off, last_timestamp, cut_new,
  cut_end, window_over, go_on, visit_batch, walk_round, walk_rounds, walk, on_err, on_empty,
}
use native.Mathlib.Nat.{mod-eq_of_lt}

-- Timestamps that do not fall, from `low` on, below the greatest int64.
abbrev pub Ascending : ℕ → List Envelope → Type 0
Ascending low [] = Unit
Ascending low (e ∷ es) = (low ≤ e.timestamp) × (e.timestamp < max64) × Ascending e.timestamp es

abbrev pub BeforeEnd : Option ℕ → ℕ → Type 0
BeforeEnd none t = Unit
BeforeEnd (some end) t = t < end

-- Each batch has envelopes, all before the end of the walk, and all after those of the batch before.
abbrev pub Visits : Option ℕ → ℕ → List (List Envelope) → Type 0
Visits end low [] = Unit
Visits end low (b ∷ batches) =
    (high : ℕ) × (b ≢ [])
    × All (λ e. (low ≤ e.timestamp) × (e.timestamp ≤ high)) b
    × All (λ e. BeforeEnd end e.timestamp) b
    × Visits end (suc high) batches

cut_off-cases :
    (p : Envelope → Bool) (e : Envelope) (es : List Envelope)
    → ((cut_off p (e ∷ es) ≡ []))
      ⊎ ((cut_off p (e ∷ es) ≡ e ∷ cut_off p es) × ((cut_off p es ≢ []) ⊎ (p e ≡ false)))
unfolding cut_off
cut_off-cases p e es = go (cut_off p es)
  where
    go :
        (rest : List Envelope)
        → ((elim rest [ [] ↦ if p e then [] else e ∷ [] | d ∷ ds ↦ e ∷ d ∷ ds ]) ≡ [])
          ⊎ (((elim rest [ [] ↦ if p e then [] else e ∷ [] | d ∷ ds ↦ e ∷ d ∷ ds ]) ≡ e ∷ rest)
              × ((rest ≢ []) ⊎ (p e ≡ false)))
    go [] = ground arith
    go (d ∷ ds) = inr (refl, inl (λ h. absurd (cc)))

cut_off-Ascending :
    (p : Envelope → Bool) (low : ℕ) (es : List Envelope)
    → Ascending low es
    → Ascending low (cut_off p es)
unfolding cut_off
cut_off-Ascending p low [] a = tt
cut_off-Ascending p low (e ∷ es) a = elim (cut_off-cases p e es) [
  | inl empty ↦ rw empty tt
  | inr kept ↦ rw kept.0 (a.0, a.1, cut_off-Ascending p e.timestamp es a.2)
]

lead :
    (low t : ℕ) (es : List Envelope)
    → Ascending low es
    → All (λ e. e.timestamp < t) es
    → es ≢ []
    → low < t
lead low t [] a b c = absurd (c refl)
lead low t (e ∷ es) a b c = omega (arith, a.0, b.0)

cut_off-All :
    (t low : ℕ) (es : List Envelope)
    → Ascending low es
    → All (λ e. e.timestamp < t) (cut_off (λ e. leb t e.timestamp) es)
unfolding cut_off
cut_off-All t low [] a = tt
cut_off-All t low (e ∷ es) a =
    let p : Envelope → Bool = λ (e : Envelope). leb t e.timestamp in
    let rest = cut_off-All t e.timestamp es a.2 in
    elim (cut_off-cases p e es) [
      | inl empty ↦ rw empty tt
      | inr (kept, inl more) ↦ rw kept (
        lead e.timestamp t (cut_off p es) (cut_off-Ascending p e.timestamp es a.2) rest more,
        rest,
      )
      | inr (kept, inr early) ↦ rw kept (ground arith, rest)
    ]

last_timestamp-All :
    (low : ℕ) (e : Envelope) (es : List Envelope)
    → Ascending low (e ∷ es)
    → All (λ d. (low ≤ d.timestamp) × (d.timestamp ≤ last_timestamp e es)) (e ∷ es)
      × (last_timestamp e es < max64)
      × (low ≤ last_timestamp e es)
unfolding last_timestamp
last_timestamp-All low e [] a = (((omega arith, omega arith), tt), omega arith, omega arith)
last_timestamp-All low e (d ∷ ds) a =
    let (bounds, small, high) = last_timestamp-All e.timestamp d ds a.2 in
    (
      ((omega arith, omega arith), All-mono _ _ (λ c h. (omega arith, h.1)) (d ∷ ds) bounds),
      small,
      omega arith,
    )

-- What the rest of the program may count on of a round.
abbrev Steps : Option ℕ → ℕ → Round → Type 0
Steps end low round = elim round.visited [
  | none ↦ elim round.next [ none ↦ Unit | some s' ↦ s'.start ≡ low ]
  | some b ↦
      (high : ℕ) × (b ≢ [])
      × All (λ e. (low ≤ e.timestamp) × (e.timestamp ≤ high)) b
      × All (λ e. BeforeEnd end e.timestamp) b
      × (elim round.next [ none ↦ Unit | some s' ↦ s'.start ≡ suc high ])
]

cut_new-Ascending :
    (end : Option ℕ) (b : Bool) (t low : ℕ) (es : List Envelope)
    → Ascending low es
    → Ascending low (cut_new end b t es)
cut_new-Ascending none b t low es a = cut_off-Ascending _ low es a
cut_new-Ascending (some end) true t low es a = a
cut_new-Ascending (some end) false t low es a = cut_off-Ascending _ low es a

cut_end-Ascending :
    (end : Option ℕ) (low : ℕ) (es : List Envelope)
    → Ascending low es
    → Ascending low (cut_end end es) × All (λ e. BeforeEnd end e.timestamp) (cut_end end es)
cut_end-Ascending none low es a = (a, any es)
  where
    any : (es : List Envelope) → All (λ e. BeforeEnd none e.timestamp) es
    any [] = tt
    any (e ∷ es) = (tt, any es)
cut_end-Ascending (some end) low es a = (cut_off-Ascending _ low es a, cut_off-All end low es a)

go_on-Steps : (end : Option ℕ) (r : Bool × Backoff) (s : WalkState) → Steps end s.start (go_on r s)
go_on-Steps end (true, b) s = refl
go_on-Steps end (false, b) s = tt

module _ (reader : ℕ → ℕ → List ReadOption → Option (List Envelope)) (cancelled : ℕ → Bool)
    (now : ℕ → ℕ) (visitor : ℕ → List Envelope → Bool) where
  visit_batch-Steps :
      (i : ℕ) (c : WalkConfig) (e : Envelope) (es : List Envelope) (s : WalkState) (low : ℕ)
      → Ascending low (e ∷ es)
      → All (λ d. BeforeEnd c.end d.timestamp) (e ∷ es)
      → Steps c.end low (visit_batch reader cancelled now visitor i c e es s)
  unfolding visit_batch
  visit_batch-Steps i c e es s low a b =
      let (bounds, small, _) = last_timestamp-All low e es a in
      let next : add64 (last_timestamp e es) 1 ≡ suc (last_timestamp e es) =
        mod-eq_of_lt (omega arith) ∙ omega arith in
      elim (Bool-cases
        (not (visitor i (e ∷ es)) || window_over c.end (add64 (last_timestamp e es) 1))) [
          | inl over ↦ rw over (last_timestamp e es, (λ h. absurd (cc)), bounds, b, tt)
          | inr on ↦ rw on (last_timestamp e es, (λ h. absurd (cc)), bounds, b, next)
        ]

  walk_round-Steps :
      (i : ℕ) (c : WalkConfig) (s : WalkState)
      → ((start : ℕ) (es : List Envelope)
          → reader i start (read_opts c) ≡ some es
          → Ascending start es)
      → Steps c.end s.start (walk_round reader cancelled now visitor i c s)
  unfolding walk_round
  walk_round-Steps i c s serves = elim (Option-cases (reader i s.start (read_opts c))) [
    | inl failed ↦
        rw (failed, walk_round)
          (elim (Bool-cases (cancelled i)) [
            | inl h ↦ rw h tt
            | inr h ↦ rw h (go_on-Steps c.end (on_err s.backoff) s)
          ])
    | inr (es, found) ↦
        rw (found, walk_round)
          (go (cut_end c.end (cut_new c.end s.received_empty (sub64 (now i) c.delay) es)) (
            cut_end-Ascending c.end s.start _
              (cut_new-Ascending c.end s.received_empty _ s.start es (serves s.start es found))))
  ]
    where
      go :
          (left : List Envelope)
          → Ascending s.start left × All (λ e. BeforeEnd c.end e.timestamp) left
          → Steps c.end s.start (elim left [
            | [] ↦ go_on (on_empty s.backoff) (record s { received_empty = true })
            | d ∷ ds ↦ visit_batch reader cancelled now visitor i c d ds s
          ])
      go [] a = go_on-Steps c.end (on_empty s.backoff) (record s { received_empty = true })
      go (d ∷ ds) a = visit_batch-Steps i c d ds s s.start a.0 a.1

  add_round :
      (end : Option ℕ) (low : ℕ) (visited : Option (List Envelope)) (next : Option WalkState)
      (rest : WalkState → List (List Envelope) × Bool)
      → Steps end low (record { visited = visited; next = next })
      → ((s' : WalkState) → Visits end s'.start (rest s').0)
      → (let later : List (List Envelope) × Bool = elim next [
        | none ↦ ([], true)
        | some s' ↦ rest s'
      ] in
          Visits end low (elim visited [ none ↦ later.0 | some b ↦ b ∷ later.0 ]))
  add_round end low none none rest h v = tt
  add_round end low none (some s') rest h v = subst (λ l. Visits end l (rest s').0) h (v s')
  add_round end low (some b) none rest h v = (h.0, h.1, h.2, h.3, tt)
  add_round end low (some b) (some s') rest h v =
      (h.0, h.1, h.2, h.3, subst (λ l. Visits end l (rest s').0) h.4 (v s'))

  walk_rounds-Visits :
      (rounds i : ℕ) (c : WalkConfig) (s : WalkState)
      → ((i start : ℕ) (es : List Envelope)
          → reader i start (read_opts c) ≡ some es
          → Ascending start es)
      → Visits c.end s.start (walk_rounds reader cancelled now visitor rounds i c s).0
  unfolding walk_rounds
  walk_rounds-Visits zero i c s serves = tt
  walk_rounds-Visits (suc rounds) i c s serves =
      add_round c.end s.start _ _ _ (walk_round-Steps i c s (serves i))
        (λ s'. walk_rounds-Visits rounds (i + 1) c s' serves)

  -- If every answer of the reader has timestamps that do not fall, from the start that it was
  -- asked for on, and that are below the greatest int64, then Walk gives its visitor batches that
  -- are not empty, each after the start, before the end if one is set, and after all envelopes of
  -- the batches before it: no envelope is visited twice. It holds for any number of rounds.
  pub walk-Visits :
      (rounds : ℕ) (c : WalkConfig)
      → ((i start : ℕ) (es : List Envelope)
          → reader i start (read_opts c) ≡ some es
          → Ascending start es)
      → Visits c.end c.start (walk reader cancelled now visitor rounds c).0
  unfolding walk
  walk-Visits rounds c serves =
      walk_rounds-Visits rounds 0 c
        (record { start = c.start; backoff = c.backoff; received_empty = false }) serves
