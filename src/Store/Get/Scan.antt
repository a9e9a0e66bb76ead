-- ===== src/Store/Get/Scan.antt =====
-- A scan that collects envelopes takes the first of those that are in range and pass the filters.
use mathlib.Core.List.{append_assoc, append-nil}
use log_cache.Common.{
  ℕ, zero, suc, ◌<◌, ◌≤◌, ◌≡◌, refl, ap, sym, Bool, true, not, ◌&&◌, Option, none, some, List, [],
  ◌∷◌, ◌++◌, arith, if◌then◌else◌, Bool-cases, Option-cases, inl, inr, All, length, length-append,
  take, keep,
}
use log_cache.Envelope.{Envelope, EnvelopeType}
use log_cache.Store.Get.Walks.{scan}
use log_cache.Store.Get.{NameFilter, filter_by_name, valid_envelope_type, collect}

module _ (types : Option (List EnvelopeType)) (name_filter : NameFilter) where
  -- The envelopes that the filters let through, gauges with the metrics that match.
  unfoldable pub accepted : List (ℕ × Envelope) → List Envelope
  accepted [] = []
  accepted ((k, e) ∷ l) = elim (filter_by_name e name_filter) [
    | none ↦ accepted l
    | some e' ↦ if valid_envelope_type e' types then e' ∷ accepted l else accepted l
  ]

take_exact : (n : ℕ) (xs ys : List Envelope) → length xs ≡ n → take n (xs ++ ys) ≡ xs
take_exact zero [] ys h = refl
take_exact zero (x ∷ xs) ys h = absurd (omega arith)
take_exact (suc n) [] ys h = absurd (omega arith)
take_exact (suc n) (x ∷ xs) ys h = ap (◌∷◌ x) (take_exact n xs ys (omega arith))

take_all : (n : ℕ) (xs : List Envelope) → length xs ≤ n → take n xs ≡ xs
take_all zero [] h = refl
take_all zero (x ∷ xs) h = absurd (omega arith)
take_all (suc n) [] h = refl
take_all (suc n) (x ∷ xs) h = ap (◌∷◌ x) (take_all n xs (omega arith))

module _ (skip stop : ℕ → Bool) where
  -- Where a scan may stop, all later entries may stop it too.
  abbrev pub Stays : List (ℕ × Envelope) → Type 0
  Stays [] = Unit
  Stays (d ∷ l) = (stop d.1.timestamp ≡ true → All (λ e. stop e.1.timestamp ≡ true) l) × Stays l

  abbrev pub wanted : ℕ × Envelope → Bool
  wanted d = not (skip d.1.timestamp) && not (stop d.1.timestamp)

  none_wanted :
      (l : List (ℕ × Envelope)) → All (λ e. stop e.1.timestamp ≡ true) l → keep wanted l ≡ []
  none_wanted [] a = refl
  none_wanted (d ∷ l) a = ground (arith, none_wanted l a.1)

  module _ (types : Option (List EnvelopeType)) (name_filter : NameFilter) (limit : ℕ) where
    abbrev result : List (ℕ × Envelope) → List Envelope
    result l = accepted types name_filter (keep wanted l)

    -- One envelope is collected: the walk stops if that makes the limit.
    collect_one :
        (e : Envelope) (res more : List Envelope) (rest : List Envelope → Bool × List Envelope)
        → ((res' : List Envelope) → length res' < limit → (rest res').1 ≡ take limit (res' ++ more))
        → length res < limit
        → (let (hit, s1) = collect types name_filter limit e res in
            if hit then (true, s1) else rest s1).1
          ≡ take limit (
              res ++ (elim (filter_by_name e name_filter) [
                | none ↦ more
                | some e' ↦ if valid_envelope_type e' types then e' ∷ more else more
              ]))
    unfolding collect
    collect_one e res more rest go h = elim (Option-cases (filter_by_name e name_filter)) [
      | inl rejected ↦ ground (arith, go res)
      | inr (e', passed) ↦ elim (Bool-cases (valid_envelope_type e' types)) [
        | inl valid ↦ ground (
          arith,
          length-append res (e' ∷ []),
          append_assoc res (e' ∷ []) more,
          take_exact limit (res ++ (e' ∷ [])) more,
          go (res ++ (e' ∷ [])),
        )
        | inr invalid ↦ ground (arith, go res)
      ]
    ]

    pub scan-take :
        (l : List (ℕ × Envelope)) (res : List Envelope)
        → Stays l
        → length res < limit
        → (scan skip stop (collect types name_filter limit) l res).1 ≡ take limit (res ++ result l)
    unfolding scan accepted
    scan-take [] res m h = sym (rw append-nil (take_all limit res (omega arith)))
    scan-take ((k, e) ∷ l) res m h = elim (Bool-cases (skip e.timestamp)) [
      | inl skipped ↦ ground (arith, scan-take l res m.1)
      | inr taken ↦ elim (Bool-cases (stop e.timestamp)) [
        | inl stopped ↦
            rw (taken, stopped, none_wanted l (m.0 stopped), append-nil)
              (sym (take_all limit res (omega arith)))
        | inr going ↦
            rw (taken, going)
              (collect_one e res (result l) (scan skip stop (collect types name_filter limit) l)
                (λ res' g. scan-take l res' m.1 g) h)
      ]
    ]
