-- ===== src/Store/Get/Equation.antt =====
-- What Get returns: exactly the first envelopes in range, where no timestamp was fudged; and only
-- envelopes in range, on every tree.
use mathlib.Core.List.{reverse, reverse-cons}
use log_cache.Common.{
  ℕ, ◌+◌, ◌<◌, ◌≤◌, ◌≡◌, refl, String, Bool, true, false, ◌&&◌, Option, some, List, [], ◌∷◌, ◌++◌,
  arith, ltb, leb, if◌then◌else◌, All, All-append, length, take, keep, lookup,
}
use log_cache.Tree.{Tree, entries, Sorted}
use log_cache.Envelope.{Envelope, EnvelopeType}
use log_cache.Store.State.{Storage, Store}
use log_cache.Store.Get.Walks.{Exact, asc-scan, desc-scan, All-reverse}
use log_cache.Store.Get.Scan.{accepted, Stays, wanted, scan-take}
use log_cache.Store.Get.{NameFilter, collect, tree_asc_traverse, tree_desc_traverse, get}

-- [start..end)
abbrev pub in_range : ℕ → ℕ → ℕ × Envelope → Bool
in_range start end d = leb start d.1.timestamp && ltb d.1.timestamp end

-- The entries in the order of the walk.
abbrev pub walked : Bool → List (ℕ × Envelope) → List (ℕ × Envelope)
walked descending l = if descending then reverse l else l

keep_same :
    (p q : ℕ × Envelope → Bool) (l : List (ℕ × Envelope))
    → ((d : ℕ × Envelope) → p d ≡ q d)
    → keep p l ≡ keep q l
keep_same p q [] h = refl
keep_same p q (d ∷ l) h = ground (arith, h d, keep_same p q l h)

asc-Stays :
    (skip : ℕ → Bool) (end : ℕ) (l : List (ℕ × Envelope))
    → Sorted l
    → Exact l
    → Stays skip (λ n. leb end n) l
asc-Stays skip end [] s x = tt
asc-Stays skip end (d ∷ l) s x =
    (λ h. later d.0 l s.0 x.1 (ground arith), asc-Stays skip end l s.1 x.1)
  where
    later :
        (k : ℕ) (l : List (ℕ × Envelope))
        → All (λ e. k < e.0) l
        → Exact l
        → end ≤ k
        → All (λ e. leb end e.1.timestamp ≡ true) l
    later k [] a x h = tt
    later k (e ∷ l) a x h = (ground arith, later k l a.1 x.1 h)

-- Keys fall strictly.
abbrev Falling : List (ℕ × Envelope) → Type 0
Falling [] = Unit
Falling (e ∷ l) = All (λ d. d.0 < e.0) l × Falling l

Falling-append :
    (l : List (ℕ × Envelope)) (d : ℕ × Envelope)
    → Falling l
    → All (λ e. d.0 < e.0) l
    → Falling (l ++ (d ∷ []))
Falling-append [] d f a = (tt, tt)
Falling-append (e ∷ l) d f a = (
  All-append (λ (c : ℕ × Envelope). c.0 < e.0) l (d ∷ []) f.0 (a.0, tt),
  Falling-append l d f.1 a.1,
)

reverse-Falling : (l : List (ℕ × Envelope)) → Sorted l → Falling (reverse l)
reverse-Falling [] s = tt
reverse-Falling (d ∷ l) s =
    rw (reverse-cons d l)
      (Falling-append (reverse l) d (reverse-Falling l s.1) (All-reverse _ l s.0))

desc-Stays :
    (skip : ℕ → Bool) (start : ℕ) (l : List (ℕ × Envelope))
    → Falling l
    → Exact l
    → Stays skip (λ n. ltb n start) l
desc-Stays skip start [] s x = tt
desc-Stays skip start (d ∷ l) s x =
    (λ h. later d.0 l s.0 x.1 (ground arith), desc-Stays skip start l s.1 x.1)
  where
    later :
        (k : ℕ) (l : List (ℕ × Envelope))
        → All (λ e. e.0 < k) l
        → Exact l
        → k ≤ start
        → All (λ e. ltb e.1.timestamp start ≡ true) l
    later k [] a x h = tt
    later k (e ∷ l) a x h = (ground arith, later k l a.1 x.1 h)

module _ (start end : ℕ) (types : Option (List EnvelopeType)) (name_filter : NameFilter)
    (limit : ℕ) where
  desc_found :
      (t : Tree Envelope)
      → Sorted (entries t)
      → Exact (entries t)
      → 0 < limit
      → (tree_desc_traverse start end (collect types name_filter limit) t []).1
        ≡ take limit (accepted types name_filter (keep (in_range start end) (reverse (entries t))))
  desc_found t sorted exact positive =
      let l = reverse (entries t) in
      let stays =
        desc-Stays (λ n. leb end n) start l (reverse-Falling _ sorted)
          (All-reverse _ (entries t) exact) in
      rw (
        desc-scan start end (collect types name_filter limit) t [] sorted exact,
        scan-take (λ n. leb end n) (λ n. ltb n start) types name_filter limit l [] stays positive,
        keep_same (wanted (λ n. leb end n) (λ n. ltb n start)) (in_range start end) l
            (λ d. ground arith),
      )

  asc_found :
      (t : Tree Envelope)
      → Sorted (entries t)
      → Exact (entries t)
      → 0 < limit
      → (tree_asc_traverse start end (collect types name_filter limit) t []).1
        ≡ take limit (accepted types name_filter (keep (in_range start end) (entries t)))
  asc_found t sorted exact positive =
      let l = entries t in
      let stays = asc-Stays (λ n. ltb n start) end l sorted exact in
      rw (
        asc-scan start end (collect types name_filter limit) t [] sorted exact,
        scan-take (λ n. ltb n start) (λ n. leb end n) types name_filter limit l [] stays positive,
        keep_same (wanted (λ n. ltb n start) (λ n. leb end n)) (in_range start end) l
            (λ d. ground arith),
      )

  -- Where no timestamp of the source was fudged and the limit is positive, Get returns exactly the
  -- first `limit` of the envelopes with start <= timestamp < end that the filters accept, oldest
  -- first, or newest first if it is descending; it counts them as egress, and changes nothing else.
  pub get_lem :
      (id : String) (descending : Bool) (s : Store) (storage : Storage)
      → lookup id s.storage_index ≡ some storage
      → Sorted (entries storage.tree)
      → Exact (entries storage.tree)
      → 0 < limit
      → let found = take limit (
          accepted types name_filter
            (keep (in_range start end) (walked descending (entries storage.tree)))) in
        let m = s.metrics in
        get id start end types name_filter limit descending s
        ≡ (found, record s { metrics = record m { egress = m.egress + length found } })
  unfolding get
  get_lem id true s storage e sorted exact positive =
      ground (arith, desc_found storage.tree sorted exact positive)
  get_lem id false s storage e sorted exact positive =
      ground (arith, asc_found storage.tree sorted exact positive)
