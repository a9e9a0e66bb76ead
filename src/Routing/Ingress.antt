-- ===== src/Routing/Ingress.antt =====
-- internal/routing/ingress_reverse_proxy.go: sends each envelope to the nodes of its source.
pub mod Delivery
use log_cache.Common.{
  ℕ, suc, ◌+◌, ◌≤◌, ◌<◌, ◌≡◌, ◌≢◌, refl, ap, ◌∙◌, String, Bool, true, false, Option, none, some,
  ◌>>=◌, List, [], ◌∷◌, ◌++◌, arith, ltb, ◌==◌, if◌then◌else◌, All, Bool-cases, inl, inr,
}
use mathlib.Core.List.{append_assoc, append-nil}
use log_cache.Envelope.{Envelope}

pub record SendRequest : Type 0 where
  pub local_only : Bool
  pub batch : List Envelope

-- envelopesByNode, in the order of a range over it.
abbrev pub ByNode : Type 0
ByNode = List (ℕ × List Envelope)

-- envelopesByNode[idx] = append(envelopesByNode[idx], e)
unfoldable pub append_at : ℕ → Envelope → ByNode → ByNode
append_at idx e [] = (idx, e ∷ []) ∷ []
append_at idx e ((i, es) ∷ m) =
    if i == idx then (i, es ++ (e ∷ [])) ∷ m else (i, es) ∷ append_at idx e m

unfoldable pub append_to : List ℕ → Envelope → ByNode → ByNode
unfolding append_at
append_to [] e m = m
append_to (idx ∷ idxs) e m = append_to idxs e (append_at idx e m)

-- What is sent, and whether an error comes back.
pub record Sent : Type 0 where
  pub calls : List (ℕ × SendRequest)
  pub ok : Bool

-- The clients are numbered below `clients`, and `answer` says whether a Send of one succeeds.
module _ (l : String → List ℕ) (clients local_idx : ℕ) (answer : ℕ → SendRequest → Bool) where
  unfoldable pub group : List Envelope → ByNode → ByNode
  unfolding append_to
  group [] m = m
  group (e ∷ es) m = group es (append_to (l e.source_id) e m)

  -- The loop over the nodes. An index with no client panics; an error is logged.
  unfoldable pub send_each : ByNode → Option (List (ℕ × SendRequest))
  send_each [] = some []
  send_each ((idx, es) ∷ m) =
      let rest = send_each m in
      if ltb idx clients
      then (rest >>= λ calls. some ((idx, record { local_only = true; batch = es }) ∷ calls))
      else none

  unfoldable pub send : SendRequest → Option Sent
  unfolding group send_each
  send r =
      if r.local_only
      then (if ltb local_idx clients
          then some (record { calls = (local_idx, r) ∷ []; ok = answer local_idx r })
          else none)
      else (send_each (group r.batch []) >>= λ calls. some (record { calls = calls; ok = true }))
