-- ===== src/Promql/ReadTests.antt =====
-- Reads for queries on a concrete store.
use Prim.Native.String.{count}
use text.Mathlib.TextLemmas.{length-nil, length-cons}
use log_cache.Common.{
  ℕ, zero, suc, ◌≤◌, ◌<◌, ◌≡◌, refl, ap, ◌∙◌, subst, String, Bool, true, false, Option, none, some,
  List, [], ◌∷◌, if◌then◌else◌, leb, leb→le, All, arith, zero64, sub64,
}
use log_cache.Envelope.{Envelope, EnvelopeType, counter, counter_type}
use log_cache.Routing.LocalReader.{ReadRequest}
use log_cache.Client.Walk.{walk_round, visit_batch}
use log_cache.Client.Walk.Progress.{Ascending}
use log_cache.Client.Requests.{DecimalLib}
use log_cache.Promql.DataReader.{data_read}
use log_cache.Promql.DataReader.Answers.{data_read-Fits}

-- Numbers as strokes.
unfoldable strokes : ℕ → String
strokes zero = ""
strokes (suc n) = String.◌∷◌ "|" (strokes n)

count-strokes : (n : ℕ) → count (strokes n) ≡ n
unfolding strokes
count-strokes zero = length-nil
count-strokes (suc n) = length-cons "|" (strokes n) ∙ ap suc (count-strokes n)

abbrev unary : DecimalLib
unary = record {
  format_int = strokes;
  parse_int = count;
  parse_int-format_int = λ n h. count-strokes n;
}

abbrev requests : Envelope
requests = record {
  timestamp = 9223372038354775808;
  source_id = "app-1";
  instance_id = "0";
  deprecated_tags = [];
  tags = [];
  message = counter "http.req" 1 7;
}

-- A store of one counter.
unfoldable egress : ℕ → ReadRequest → Option (List Envelope)
egress i r = if leb r.start_time requests.timestamp then some (requests ∷ []) else some []

abbrev FitsCounter : List EnvelopeType → Envelope → Type 0
FitsCounter types e = e.message ≡ counter "http.req" 1 7

abbrev Served : ReadRequest → List Envelope → Type 0
Served r l = Ascending r.start_time l × All (FitsCounter r.envelope_types) l

abbrev list_of : Option (List Envelope) → List Envelope
list_of o = elim o [ none ↦ [] | some l ↦ l ]

serves : (i : ℕ) (r : ReadRequest) (l : List Envelope) → egress i r ≡ some l → Served r l
unfolding egress
serves i r l e =
    subst (Served r) (ap list_of e) (go (leb r.start_time requests.timestamp) (leb→le _ _))
  where
    go :
        (early : Bool)
        → (early ≡ true → r.start_time ≤ requests.timestamp)
        → Served r (list_of (if early then some (requests ∷ []) else some []))
    go true h = ((h refl, omega arith, tt), (refl, tt))
    go false h = (tt, tt)

-- The two seconds after the epoch.
abbrev two_seconds : ReadRequest
two_seconds = record {
  source_id = "app-1";
  start_time = zero64;
  end_time = 9223372038854775808;
  limit = zero64;
  envelope_types = counter_type ∷ [];
  descending = false;
  name_filter = "";
}

read_one :
    data_read unary egress (λ i. false) (λ i. 9223372096854775808) false 2 two_seconds
    ≡ some (some (requests ∷ []))
unfolding data_read egress walk_round sub64 visit_batch
read_one = refl

data_read-Fits_example :
    All
      (λ e.
        ((zero64 ≤ e.timestamp) × (e.timestamp < 9223372038854775808))
        × FitsCounter (counter_type ∷ []) e)
      (requests ∷ [])
data_read-Fits_example =
    data_read-Fits unary two_seconds (omega arith) (omega arith) FitsCounter egress (λ i. false)
      (λ i. 9223372096854775808) false 2 (requests ∷ []) serves read_one
