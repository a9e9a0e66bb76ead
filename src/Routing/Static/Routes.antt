-- ===== src/Routing/Static/Routes.antt =====
-- A static lookup divides the hash by the width of a range.
use Prim.Native.Nat.{min}
use native.Mathlib.Nat.{mod-eq_of_lt, le-div_iff_mul-le, div-mul-le_self, suc-mul}
use log_cache.Common.{
  ℕ, zero, suc, ◌+◌, ◌-◌, ◌*◌, ◌/◌, ◌%◌, ◌≤◌, ◌<◌, ◌≡◌, refl, ap, String, some, List, [], ◌∷◌, ◌++◌,
  arith, leb, if◌then◌else◌, word, max64, All, All-append, Bool-cases, inl, inr, not_leb→lt, subst,
  ◌∙◌,
}
use log_cache.Tree.{Tree, leaf, AvlTree, entries, Sorted, upsert, upsert-Sorted, floor_entry}
use log_cache.Routing.Static.{StaticLookup, put_routes, new_static_lookup, lookup_static}

-- The first `n` routes of width `x`.
unfoldable pub routes : ℕ → ℕ → List (ℕ × ℕ)
routes zero x = []
routes (suc n) x = routes n x ++ ((n * x, n) ∷ [])

upsert_last :
    (k v : ℕ) (l : List (ℕ × ℕ)) → All (λ d. d.0 < k) l → upsert k v l ≡ l ++ ((k, v) ∷ [])
unfolding upsert
upsert_last k v [] a = refl
upsert_last k v (d ∷ l) a = ground (arith, upsert_last k v l a.1)

routes_below : (n x k : ℕ) → 0 < x → n * x ≤ k → All (λ (d : ℕ × ℕ). d.0 < k) (routes n x)
unfolding routes
routes_below zero x k h b = tt
routes_below (suc n) x k h b =
    All-append (λ (d : ℕ × ℕ). d.0 < k) (routes n x) ((n * x, n) ∷ [])
      (routes_below n x k h (omega (arith, suc-mul n x))) (omega (arith, suc-mul n x), tt)

floor_last :
    (h : ℕ) (l : List (ℕ × ℕ)) (d : ℕ × ℕ)
    → floor_entry h (l ++ (d ∷ [])) ≡ (if leb d.0 h then some d else floor_entry h l)
unfolding floor_entry
floor_last h [] d = refl
floor_last h (e ∷ l) d = ground (arith, floor_last h l d)

floor-routes :
    (n x h : ℕ) → 0 < x → floor_entry h (routes (suc n) x) ≡ some (min (h / x) n * x, min (h / x) n)
unfolding routes
floor-routes zero x h p =
    let a : 0 * x ≡ 0 = omega arith in
    let b : min (h / x) 0 ≡ 0 = omega arith in rw (a, b, floor_last h [] (0, 0)) (ground (arith, a))
floor-routes (suc n) x h p =
    rw (floor_last h (routes (suc n) x) (suc n * x, suc n)) (elim (Bool-cases (leb (suc n * x) h)) [
      | inl reached ↦
          let high : suc n ≤ h / x = (le-div_iff_mul-le p).1 (ground arith) in
          let last : min (h / x) (suc n) ≡ suc n = omega arith in rw (reached, last)
      | inr beyond ↦
          let low : ¬ (suc n ≤ h / x) = λ c.
            absurd (omega (arith, (le-div_iff_mul-le p).0 c, not_leb→lt (suc n * x) h beyond)) in
          let same : min (h / x) (suc n) ≡ min (h / x) n = omega arith in
          rw (beyond, same, floor-routes n x h p)
    ])

-- The loop builds exactly the routes.
put_routes-routes :
    (avl : AvlTree ℕ) (rounds i x : ℕ) (t : Tree ℕ)
    → 0 < x
    → (i + rounds) * x ≤ max64
    → entries t ≡ routes i x
    → Sorted (routes i x)
    → (entries (put_routes avl rounds i x t) ≡ routes (i + rounds) x)
      × Sorted (routes (i + rounds) x)
unfolding put_routes routes
put_routes-routes avl zero i x t p fits same sorted =
    let e : i + 0 ≡ i = omega arith in rw e (same, sorted)
put_routes-routes avl (suc rounds) i x t p fits same sorted =
    let e : i + suc rounds ≡ (i + 1) + rounds = omega arith in
    let f : i + 1 ≡ suc i = omega arith in
    let small : (i * x) % word ≡ i * x = mod-eq_of_lt (grind arith) in
    let grown : upsert (i * x) i (routes i x) ≡ routes (suc i) x =
      upsert_last (i * x) i (routes i x) (routes_below i x (i * x) p (omega arith)) in
    let ordered = upsert-Sorted (i * x) i (routes i x) sorted in
    let after : entries (avl.put (i * x) i t) ≡ routes (suc i) x =
      avl.entries-put (i * x) i t (rw same sorted) ∙ (rw same grown) in
    let sorted' : Sorted (routes (suc i) x) = subst Sorted grown ordered in
    rw (e, small, f)
      (put_routes-routes avl rounds (suc i) x (avl.put (i * x) i t) p
        (let g : suc i + rounds ≡ i + suc rounds = omega arith in rw g fits) after sorted')

-- For a positive number of routes below 2 ^ 64, a static lookup gives a route for every hash: the
-- hash divided by the width of a route, but never more than the last one.
pub lookup_static_lem :
    (avl : AvlTree ℕ) (n : ℕ) (hasher : String → ℕ) (source_id : String)
    → 0 < n
    → n ≤ max64
    → (l : StaticLookup) × (new_static_lookup avl n hasher ≡ some l)
      × (lookup_static avl l source_id ≡ some (min (hasher source_id / (max64 / n)) (n - 1)))
unfolding new_static_lookup lookup_static routes entries
lookup_static_lem avl n hasher source_id positive few =
    let x = max64 / n in
    let h = hasher source_id in
    let wide : 1 ≤ x = (le-div_iff_mul-le positive).1 (omega arith) in
    let fits : (0 + n) * x ≤ max64 = omega (arith, div-mul-le_self max64 n) in
    let (built, sorted) = put_routes-routes avl n 0 x leaf wide fits refl tt in
    let t = put_routes avl n 0 x leaf in
    let e : 0 + n ≡ suc (n - 1) = omega arith in
    let found : avl.floor h t ≡ some (min (h / x) (n - 1) * x, min (h / x) (n - 1)) =
      avl.floor_lem h t (rw built sorted)
      ∙ ap (floor_entry h) (built ∙ ap (λ k. routes k x) e)
      ∙ floor-routes (n - 1) x h wide in
    (record { hash = hasher; t = t }, ground arith, rw found)
