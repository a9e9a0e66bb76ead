-- ===== src/Store/Get/Walks.antt =====
-- On a tree in order, each envelope under its own timestamp, a walk is a scan of the entries.
use mathlib.Core.List.{reverse, reverse-append, reverse-cons, append_assoc}
use log_cache.Common.{
  ℕ, ◌<◌, ◌≤◌, ◌≡◌, refl, ◌∙◌, Bool, true, false, List, [], ◌∷◌, ◌++◌, arith, ltb, leb,
  if◌then◌else◌, Bool-cases, inl, inr, All, All-append, All-append_left, All-append_right,
}
use log_cache.Tree.{Tree, leaf, node, entries, Sorted}
use log_cache.Envelope.{Envelope}
use log_cache.Store.Get.{tree_asc_traverse, tree_desc_traverse, is_node_a_fudge_sequence_member}

-- No envelope was fudged.
abbrev pub Exact : List (ℕ × Envelope) → Type 0
Exact = All (λ d. d.1.timestamp ≡ d.0)

module _ {S : Type 0} (skip stop : ℕ → Bool) (f : Envelope → S → Bool × S) where
  unfoldable pub scan : List (ℕ × Envelope) → S → Bool × S
  scan [] s = (false, s)
  scan ((k, e) ∷ l) s =
      let rest = scan l in
      if skip e.timestamp
      then rest s
      else if stop e.timestamp
      then (true, s)
      else (let (hit, s1) = f e s in if hit then (true, s1) else rest s1)

  scan-append :
      (l m : List (ℕ × Envelope)) (s : S)
      → scan (l ++ m) s
        ≡ (let (stopped, s1) = scan l s in if stopped then (true, s1) else scan m s1)
  unfolding scan
  scan-append [] m s = refl
  scan-append ((k, e) ∷ l) m s = ground (arith, scan-append l m s, scan-append l m (f e s).1)

  scan_skipped :
      (l : List (ℕ × Envelope)) (s : S)
      → All (λ d. skip d.1.timestamp ≡ true) l
      → scan l s ≡ (false, s)
  unfolding scan
  scan_skipped [] s a = refl
  scan_skipped ((k, e) ∷ l) s a = rw a.0 (scan_skipped l s a.1)

-- The parts of the entries of a node.
abbrev pub Before : ℕ → List (ℕ × Envelope) → Type 0
Before k = All (λ d. d.0 < k)

Sorted-append :
    (l : List (ℕ × Envelope)) (d : ℕ × Envelope) (r : List (ℕ × Envelope))
    → Sorted (l ++ (d ∷ r))
    → Sorted l × Before d.0 l × Sorted r × All (λ e. d.0 < e.0) r
Sorted-append [] d r s = (tt, tt, s.1, s.0)
Sorted-append (e ∷ l) d r s =
    let (sl, bl, sr, ar) = Sorted-append l d r s.1 in
    ((All-append_left _ l (d ∷ r) s.0, sl), ((All-append_right _ l (d ∷ r) s.0).0, bl), sr, ar)

pub All-reverse :
    (P : ℕ × Envelope → Type 0) (l : List (ℕ × Envelope)) → All P l → All P (reverse l)
All-reverse P [] a = tt
All-reverse P (d ∷ l) a =
    rw (reverse-cons d l) (All-append P (reverse l) (d ∷ []) (All-reverse P l a.1) (a.0, tt))

reverse_node :
    (l : List (ℕ × Envelope)) (d : ℕ × Envelope) (r : List (ℕ × Envelope))
    → reverse (l ++ (d ∷ r)) ≡ reverse r ++ (d ∷ reverse l)
reverse_node l d r =
    reverse-append l (d ∷ r) ∙ rw (reverse-cons d r) (append_assoc (reverse r) (d ∷ []) (reverse l))

not_fudged :
    (key : ℕ) (e : Envelope) (t : Tree Envelope)
    → e.timestamp ≡ key
    → Exact (entries t)
    → is_node_a_fudge_sequence_member key e t ≡ false
unfolding is_node_a_fudge_sequence_member entries
not_fudged key e leaf p a = ground arith
not_fudged key e (node k child l r) p a =
    let q =
      (All-append_right (λ (d : ℕ × Envelope). d.1.timestamp ≡ d.0) (entries l)
        ((k, child) ∷ entries r) a).0 in
    ground arith

module _ {S : Type 0} (start end : ℕ) (f : Envelope → S → Bool × S) where
  pub asc-scan :
      (t : Tree Envelope) (s : S)
      → Sorted (entries t)
      → Exact (entries t)
      → tree_asc_traverse start end f t s ≡ scan (λ n. ltb n start) (λ n. leb end n) f (entries t) s
  unfolding tree_asc_traverse entries scan
  asc-scan leaf s o a = refl
  asc-scan (node key e l r) s o a =
      let (sl, bl, sr, ar) = Sorted-append (entries l) (key, e) (entries r) o in
      let P : ℕ × Envelope → Type 0 = λ d. d.1.timestamp ≡ d.0 in
      let xl = All-append_left P (entries l) ((key, e) ∷ entries r) a in
      let xr = All-append_right P (entries l) ((key, e) ∷ entries r) a in
      let sc = scan (λ n. ltb n start) (λ n. leb end n) f (entries l) s in
      rw (scan-append (λ n. ltb n start) (λ n. leb end n) f (entries l) ((key, e) ∷ entries r) s)
        (elim (Bool-cases (ltb e.timestamp start)) [
          | inl early ↦
              let below =
                scan_skipped (λ n. ltb n start) (λ n. leb end n) f (entries l) s
                  (all_early key (entries l) bl xl (ground arith)) in
              ground (arith, asc-scan r s sr xr.1)
          | inr reached ↦ ground (
            arith,
            not_fudged key e r xr.0 xr.1,
            asc-scan l s sl xl,
            asc-scan r sc.1 sr xr.1,
            asc-scan r (f e sc.1).1 sr xr.1,
          )
        ])
    where
      all_early :
          (k : ℕ) (l : List (ℕ × Envelope))
          → Before k l
          → Exact l
          → k ≤ start
          → All (λ d. ltb d.1.timestamp start ≡ true) l
      all_early k [] b x h = tt
      all_early k (d ∷ l) b x h = (ground arith, all_early k l b.1 x.1 h)

  pub desc-scan :
      (t : Tree Envelope) (s : S)
      → Sorted (entries t)
      → Exact (entries t)
      → tree_desc_traverse start end f t s
        ≡ scan (λ n. leb end n) (λ n. ltb n start) f (reverse (entries t)) s
  unfolding tree_desc_traverse entries scan
  desc-scan leaf s o a = refl
  desc-scan (node key e l r) s o a =
      let (sl, bl, sr, ar) = Sorted-append (entries l) (key, e) (entries r) o in
      let P : ℕ × Envelope → Type 0 = λ d. d.1.timestamp ≡ d.0 in
      let xl = All-append_left P (entries l) ((key, e) ∷ entries r) a in
      let xr = All-append_right P (entries l) ((key, e) ∷ entries r) a in
      let sc = scan (λ n. leb end n) (λ n. ltb n start) f (reverse (entries r)) s in
      rw
        (
          reverse_node (entries l) (key, e) (entries r),
          scan-append (λ n. leb end n) (λ n. ltb n start) f (reverse (entries r))
              ((key, e) ∷ reverse (entries l)) s,
        )
        (elim (Bool-cases (ltb e.timestamp end)) [
          | inr late ↦
              let above =
                scan_skipped (λ n. leb end n) (λ n. ltb n start) f (reverse (entries r)) s
                  (All-reverse _ (entries r) (all_late key (entries r) ar xr.1 (ground arith))) in
              ground (arith, desc-scan l s sl xl)
          | inl reached ↦ ground (
            arith,
            not_fudged key e l xr.0 xl,
            desc-scan r s sr xr.1,
            desc-scan l sc.1 sl xl,
            desc-scan l (f e sc.1).1 sl xl,
          )
        ])
    where
      all_late :
          (k : ℕ) (l : List (ℕ × Envelope))
          → All (λ e. k < e.0) l
          → Exact l
          → end ≤ k
          → All (λ d. leb end d.1.timestamp ≡ true) l
      all_late k [] b x h = tt
      all_late k (d ∷ l) b x h = (ground arith, all_late k l b.1 x.1 h)
