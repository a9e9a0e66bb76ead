-- ===== src/Client/Walk.antt =====
-- pkg/client/walk.go: Walk and its backoffs.
pub mod Options
pub mod Contents
pub mod Progress
pub mod Joined
pub mod Termination
use log_cache.Common.{
  ℕ, zero, suc, ◌+◌, ◌≡◌, String, Bool, true, false, not, ◌&&◌, ◌||◌, Option, none, some, List, [],
  ◌∷◌, ◌++◌, ltb, leb, if◌then◌else◌, str_eq, add64, sub64, zero64,
}
use log_cache.Envelope.{Envelope, EnvelopeType}

-- The strategies; the pauses are left out.
pub data Backoff : Type 0 where
  always_done always_retry : Backoff
  retry : (max_count count : ℕ) → (only_err : Bool) → Backoff

-- RetryBackoff counts before it compares.
unfoldable pub on_err : Backoff → Bool × Backoff
on_err always_done = (false, always_done)
on_err always_retry = (true, always_retry)
on_err (retry max_count count only_err) =
    (ltb (count + 1) max_count, retry max_count (count + 1) only_err)

unfoldable pub on_empty : Backoff → Bool × Backoff
on_empty always_done = (false, always_done)
on_empty always_retry = (true, always_retry)
on_empty (retry max_count count only_err) =
    if only_err
    then (false, retry max_count count only_err)
    else (ltb (count + 1) max_count, retry max_count (count + 1) only_err)

unfoldable pub reset : Backoff → Backoff
reset always_done = always_done
reset always_retry = always_retry
reset (retry max_count count only_err) = retry max_count 0 only_err

-- The start and the end are int64 nanoseconds; no end is the zero time. `none` of the types is nil.
pub record WalkConfig : Type 0 where
  pub backoff : Backoff
  pub start : ℕ
  pub end : Option ℕ
  pub limit : Option ℕ
  pub envelope_types : Option (List EnvelopeType)
  pub delay : ℕ
  pub name_filter : String

-- The configuration before the options, with a delay of a second.
unfoldable pub default_config : WalkConfig
default_config = record {
  backoff = always_done;
  start = zero64;
  end = none;
  limit = none;
  envelope_types = none;
  delay = zero64 + 1000000000;
  name_filter = "";
}

-- The options of a read. Walk passes on all but the last one.
pub data ReadOption : Type 0 where
  with_end_time : ℕ → ReadOption
  with_limit : ℕ → ReadOption
  with_envelope_types : List EnvelopeType → ReadOption
  with_name_filter : String → ReadOption
  with_descending : ReadOption

unfoldable pub read_opts : WalkConfig → List ReadOption
read_opts c =
    (elim c.end [ none ↦ [] | some t ↦ with_end_time t ∷ [] ])
    ++ (elim c.limit [ none ↦ [] | some n ↦ with_limit n ∷ [] ])
    ++ (elim c.envelope_types [ none ↦ [] | some ts ↦ with_envelope_types ts ∷ [] ])
    ++ (if str_eq c.name_filter "" then [] else with_name_filter c.name_filter ∷ [])

-- The loops from the last envelope on: those at the end that `drops` holds of are cut off.
unfoldable pub cut_off : (Envelope → Bool) → List Envelope → List Envelope
cut_off drops [] = []
cut_off drops (e ∷ es) = elim (cut_off drops es) [
  | [] ↦ if drops e then [] else e ∷ []
  | d ∷ ds ↦ e ∷ d ∷ ds
]

-- es[len(es)-1].Timestamp
unfoldable pub last_timestamp : Envelope → List Envelope → ℕ
last_timestamp e [] = e.timestamp
last_timestamp e (d ∷ ds) = last_timestamp d ds

abbrev pub cut_new : Option ℕ → Bool → ℕ → List Envelope → List Envelope
cut_new end received_empty with_delay es = elim end [
  | none ↦ cut_off (λ e. ltb with_delay e.timestamp) es
  | some _ ↦ if received_empty then es else cut_off (λ e. ltb with_delay e.timestamp) es
]

abbrev pub cut_end : Option ℕ → List Envelope → List Envelope
cut_end end es = elim end [ none ↦ es | some t ↦ cut_off (λ e. leb t e.timestamp) es ]

-- Is the next timestamp outside of the window?
abbrev pub window_over : Option ℕ → ℕ → Bool
window_over end next = elim end [ none ↦ false | some t ↦ leb t next ]

-- What changes from round to round.
pub record WalkState : Type 0 where
  pub start : ℕ
  pub backoff : Backoff
  pub received_empty : Bool

-- The envelopes given to the visitor in a round, if any, and the state of the next round, if any.
pub record Round : Type 0 where
  pub visited : Option (List Envelope)
  pub next : Option WalkState

abbrev pub go_on : Bool × Backoff → WalkState → Round
go_on (again, b) s = record {
  visited = none;
  next = if again then some (record s { backoff = b }) else none;
}

-- What is outside of Walk, by the number of the round: the reader, which gives `none` for an error,
-- whether the context is cancelled, the clock, and the visitor.
module _ (reader : ℕ → ℕ → List ReadOption → Option (List Envelope)) (cancelled : ℕ → Bool)
    (now : ℕ → ℕ) (visitor : ℕ → List Envelope → Bool) where
  -- A round in which envelopes are left.
  unfoldable pub visit_batch : ℕ → WalkConfig → Envelope → List Envelope → WalkState → Round
  unfolding last_timestamp reset
  visit_batch i c e es s =
      let next = add64 (last_timestamp e es) 1 in
      record {
        visited = some (e ∷ es);
        next =
            if not (visitor i (e ∷ es)) || window_over c.end next
            then none
            else some (record { start = next; backoff = reset s.backoff; received_empty = false });
      }

  unfoldable pub walk_round : ℕ → WalkConfig → WalkState → Round
  unfolding read_opts on_err on_empty cut_off
  walk_round i c s = elim (reader i s.start (read_opts c)) [
    | none ↦
        if cancelled i then record { visited = none; next = none } else go_on (on_err s.backoff) s
    | some es ↦ elim (cut_end c.end (cut_new c.end s.received_empty (sub64 (now i) c.delay) es)) [
      | [] ↦ go_on (on_empty s.backoff) (record s { received_empty = true })
      | d ∷ ds ↦ visit_batch i c d ds s
    ]
  ]

  -- The batches that the visitor is given in the first `rounds` rounds from `i` on, and whether
  -- Walk has returned by then.
  unfoldable pub walk_rounds : ℕ → ℕ → WalkConfig → WalkState → List (List Envelope) × Bool
  walk_rounds zero i c s = ([], false)
  walk_rounds (suc rounds) i c s =
      let round = walk_round i c s in
      let rest : List (List Envelope) × Bool = elim round.next [
        | none ↦ ([], true)
        | some s' ↦ walk_rounds rounds (i + 1) c s'
      ] in
      (elim round.visited [ none ↦ rest.0 | some b ↦ b ∷ rest.0 ], rest.1)

  unfoldable pub walk : ℕ → WalkConfig → List (List Envelope) × Bool
  unfolding walk_rounds
  walk rounds c =
      walk_rounds rounds 0 c
        (record { start = c.start; backoff = c.backoff; received_empty = false })

-- The batches of a visitor that appends each of them to its result.
unfoldable pub join_batches : List (List Envelope) → List Envelope
join_batches [] = []
join_batches (b ∷ batches) = b ++ join_batches batches
