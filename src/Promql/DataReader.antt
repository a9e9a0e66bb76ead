-- ===== src/Promql/DataReader.antt =====
-- internal/promql/data_reader/walking_data_reader.go: a read for a query, as a walk over the source.
pub mod Answers
use log_cache.Common.{
  ℕ, ◌≡◌, String, Bool, true, false, Option, none, some, List, [], ◌∷◌, ◌++◌, if◌then◌else◌,
}
use log_cache.Envelope.{Envelope}
use log_cache.Routing.LocalReader.{ReadRequest}
use log_cache.Client.Walk.{join_batches, ReadOption, WalkConfig, default_config, walk}
use log_cache.Client.Walk.Options.{
  WalkOption, with_walk_start_time, with_walk_end_time, with_walk_limit, with_walk_envelope_types,
  with_walk_backoff, configure_all, new_retry_backoff_on_err,
}
use log_cache.Client.Requests.{DecimalLib, grpc_read_request}

-- The options of the walk; time.Unix(0, t) is never the zero time.
unfoldable pub walk_options : ReadRequest → List WalkOption
unfolding new_retry_backoff_on_err
walk_options req =
    with_walk_start_time req.start_time
    ∷ with_walk_end_time req.end_time
    ∷ with_walk_limit req.limit
    ∷ with_walk_envelope_types req.envelope_types
    ∷ with_walk_backoff (new_retry_backoff_on_err 5)
    ∷ []

unfoldable pub walk_config : ReadRequest → WalkConfig
unfolding walk_options configure_all default_config
walk_config req = configure_all (walk_options req) default_config

-- The client, over gRPC: `egress` answers the request of a round (`none` is an error).
unfoldable pub grpc_reader :
    (decimal : DecimalLib) (egress : ℕ → ReadRequest → Option (List Envelope))
    → String
    → ℕ
    → ℕ
    → List ReadOption
    → Option (List Envelope)
unfolding grpc_read_request
grpc_reader decimal egress source_id i start opts =
    egress i (grpc_read_request decimal source_id start opts)

-- `ctx_err` says whether the context is done at the end. The outer `none` is a walk that has not
-- returned in the rounds, the inner one an error.
module _ (decimal : DecimalLib) (egress : ℕ → ReadRequest → Option (List Envelope))
    (cancelled : ℕ → Bool) (now : ℕ → ℕ) (ctx_err : Bool) where
  unfoldable pub data_read : (rounds : ℕ) → ReadRequest → Option (Option (List Envelope))
  unfolding grpc_reader walk walk_config join_batches
  data_read rounds req =
      let (batches, returned) =
        walk (grpc_reader decimal egress req.source_id) cancelled now (λ i es. true) rounds
          (walk_config req) in
      if returned then some (if ctx_err then none else some (join_batches batches)) else none
