-- ===== src/Client/Walk/Joined.antt =====
-- The envelopes of all batches of a walk.
use log_cache.Common.{ℕ, suc, ◌≤◌, ◌<◌, refl, some, List, [], ◌∷◌, All, All-append, All-mono, arith}
use log_cache.Envelope.{Envelope}
use log_cache.Client.Walk.{join_batches}
use log_cache.Client.Walk.Progress.{Visits}

pub All-both :
    {A : Type 0} (P Q : A → Type 0) (l : List A) → All P l → All Q l → All (λ a. P a × Q a) l
All-both P Q [] p q = tt
All-both P Q (a ∷ l) p q = ((p.0, q.0), All-both P Q l p.1 q.1)

pub All-join_batches :
    (P : Envelope → Type 0) (batches : List (List Envelope))
    → All (All P) batches
    → All P (join_batches batches)
unfolding join_batches
All-join_batches P [] a = tt
All-join_batches P (b ∷ batches) a =
    All-append P b (join_batches batches) a.0 (All-join_batches P batches a.1)

pub Visits-All :
    (end start low : ℕ) (batches : List (List Envelope))
    → start ≤ low
    → Visits (some end) low batches
    → All (All (λ e. (start ≤ e.timestamp) × (e.timestamp < end))) batches
Visits-All end start low [] le v = tt
Visits-All end start low ([] ∷ batches) le v = absurd (v.1 refl)
Visits-All end start low ((e ∷ es) ∷ batches) le v = (
  All-both _ _ (e ∷ es)
      (All-mono _ (λ (d : Envelope). start ≤ d.timestamp) (λ d h. omega (arith, h.0)) (e ∷ es) v.2)
      v.3,
  Visits-All end start (suc v.0) batches (omega (arith, le, v.2.0.0, v.2.0.1)) v.4,
)
