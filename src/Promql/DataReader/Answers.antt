-- ===== src/Promql/DataReader/Answers.antt =====
-- internal/promql/data_reader/walking_data_reader.go: what a read for a query gives.
use log_cache.Common.{
  ℕ, ◌≤◌, ◌<◌, ◌≡◌, refl, sym, ap, ◌∙◌, subst, inl, inr, Bool, true, false, Option, none, some,
  List, [], ◌∷◌, ◌++◌, All, arith, Bool-cases, zero64, word,
}
use log_cache.Envelope.{Envelope, EnvelopeType}
use log_cache.Routing.LocalReader.{ReadRequest}
use log_cache.Client.Walk.{
  join_batches, with_end_time, with_limit, with_envelope_types, default_config, read_opts, walk,
}
use log_cache.Client.Walk.Options.{unless_nil, configure_all}
use log_cache.Client.Walk.Progress.{Ascending, walk-Visits}
use log_cache.Client.Walk.Joined.{All-both, All-join_batches, Visits-All}
use log_cache.Client.Walk.Contents.{walk-All}
use log_cache.Client.Requests.{DecimalLib, grpc_read_request}
use log_cache.Client.Requests.Grpc.{IsInt64, change_all, grpc_read_request-change_all}
use log_cache.Promql.DataReader.{walk_options, walk_config, join_batches, grpc_reader, data_read}

-- The request of a round: that of the read, from the round's start on, without its order and its
-- filter.
abbrev pub round_request : ReadRequest → ℕ → ReadRequest
round_request req start = record req { start_time = start; descending = false; name_filter = "" }

-- Walk passes the types on as they are.
change_all-types :
    (end limit : ℕ) (types : List EnvelopeType) (r : ReadRequest)
    → r.envelope_types ≡ []
    → change_all
        (with_end_time end
            ∷ with_limit limit
            ∷ (elim (unless_nil types) [ none ↦ [] | some ts ↦ with_envelope_types ts ∷ [] ])
          ++ [])
        r
      ≡ record r { end_time = end; limit = limit; envelope_types = types }
change_all-types end limit [] r e =
    ap (λ ts. record r { end_time = end; limit = limit; envelope_types = ts }) e
change_all-types end limit (t ∷ ts) r e =
    ap (λ l. record r { end_time = end; limit = limit; envelope_types = l ++ (t ∷ ts) }) e

types_IsInt64 :
    (types : List EnvelopeType)
    → All IsInt64
        ((elim (unless_nil types) [ none ↦ [] | some ts ↦ with_envelope_types ts ∷ [] ]) ++ [])
types_IsInt64 [] = tt
types_IsInt64 (t ∷ ts) = (tt, tt)

module _ (decimal : DecimalLib) (req : ReadRequest) (end_small : req.end_time < word)
    (limit_small : req.limit < word) where
  grpc_read_request-walk_config :
      (start : ℕ)
      → grpc_read_request decimal req.source_id start (read_opts (walk_config req))
        ≡ round_request req start
  unfolding walk_config walk_options configure_all read_opts default_config
  grpc_read_request-walk_config start =
      grpc_read_request-change_all decimal req.source_id start (read_opts (walk_config req))
        (end_small, (limit_small, types_IsInt64 req.envelope_types))
      ∙ change_all-types req.end_time req.limit req.envelope_types
          (record {
            source_id = req.source_id;
            start_time = start;
            end_time = zero64;
            limit = zero64;
            envelope_types = [];
            descending = false;
            name_filter = "";
          })
          refl

  -- What a read gives, when its walk has returned.
  data_read-eq-some :
      (egress : ℕ → ReadRequest → Option (List Envelope)) (cancelled : ℕ → Bool) (now : ℕ → ℕ)
      (ctx_err : Bool) (rounds : ℕ) (es : List Envelope)
      → data_read decimal egress cancelled now ctx_err rounds req ≡ some (some es)
      → es
        ≡ join_batches
            (walk
              (grpc_reader decimal egress req.source_id)
              cancelled
              now
              (λ i es. true)
              rounds
              (walk_config req)).0
  unfolding data_read
  data_read-eq-some egress cancelled now ctx_err rounds es e =
      let (batches, returned) =
        walk (grpc_reader decimal egress req.source_id) cancelled now (λ i es. true) rounds
          (walk_config req) in
      elim (Bool-cases returned) [
        | inl done ↦ elim (Bool-cases ctx_err) [
          | inl failed ↦ absurd (ground (arith))
          | inr fine ↦ ground (arith)
        ]
        | inr going ↦ absurd (ground (arith))
      ]

  -- Let each answer to a request be in the order of its timestamps from the request's start on,
  -- below the greatest int64, and let its envelopes fit the types that the request asks for. Then
  -- a read gives only envelopes from the start of its window on, before its end, that fit the types
  -- that the read asks for. The numbers of the read are int64s.
  pub data_read-Fits :
      (Fits : List EnvelopeType → Envelope → Type 0)
      (egress : ℕ → ReadRequest → Option (List Envelope)) (cancelled : ℕ → Bool) (now : ℕ → ℕ)
      (ctx_err : Bool) (rounds : ℕ) (es : List Envelope)
      → ((i : ℕ) (r : ReadRequest) (l : List Envelope)
          → egress i r ≡ some l
          → Ascending r.start_time l × All (Fits r.envelope_types) l)
      → data_read decimal egress cancelled now ctx_err rounds req ≡ some (some es)
      → All
          (λ e.
            ((req.start_time ≤ e.timestamp) × (e.timestamp < req.end_time))
            × Fits req.envelope_types e)
          es
  unfolding grpc_reader walk_config walk_options configure_all
  data_read-Fits Fits egress cancelled now ctx_err rounds es serves e =
      let reader = grpc_reader decimal egress req.source_id in
      let c = walk_config req in
      let visits =
        walk-Visits reader cancelled now (λ i es. true) rounds c
          (λ i start l h. (serves i _ l h).0) in
      let fits =
        walk-All (Fits req.envelope_types) reader cancelled now (λ i es. true) rounds c
          (λ i start l h.
            subst (λ (r : ReadRequest). All (Fits r.envelope_types) l)
              (grpc_read_request-walk_config start) (serves i _ l h).1) in
      let batches = (walk reader cancelled now (λ i es. true) rounds c).0 in
      subst
        (All (λ e.
          ((req.start_time ≤ e.timestamp) × (e.timestamp < req.end_time))
          × Fits req.envelope_types e))
        (sym (data_read-eq-some egress cancelled now ctx_err rounds es e))
        (All-both _ _ (join_batches batches)
          (All-join_batches _ batches
            (Visits-All req.end_time req.start_time req.start_time batches (omega arith) visits))
          (All-join_batches _ batches fits))
