-- ===== src/Promql/Query/Extraction.antt =====
-- Which source ids ExtractSourceIds finds.
use log_cache.Common.{
  ◌≡◌, refl, subst, inl, inr, String, true, List, [], ◌∷◌, ◌++◌, All, All-append, All-mono,
  if◌then◌else◌, str_eq, eq_iff, arith, Bool-cases,
}
use log_cache.Promql.Query.{
  Matcher, BarLib, contains, add_id, add_ids, matched_ids, add_source_ids_from_label_matcher,
  add_source_ids_from_matchers, visit_source_ids,
}

module _ {κ} (P : String → Type κ) where
  pub contains-All : (id : String) (ids : List String) → All P ids → contains id ids ≡ true → P id
  unfolding contains
  contains-All id [] a e = absurd (cc)
  contains-All id (j ∷ js) a e = elim (Bool-cases (str_eq j id)) [
    | inl same ↦ subst P (ground (arith, eq_iff j id)) a.0
    | inr other ↦ contains-All id js a.1 (ground arith)
  ]

  pub add_ids-All : (more ids : List String) → All P more → All P ids → All P (add_ids more ids)
  unfolding add_ids
  add_ids-All [] ids m a = a
  add_ids-All (id ∷ more) ids m a =
      add_ids-All more (add_id id ids) m.1 (elim (Bool-cases (contains id ids)) [
        | inl old ↦ rw (old, add_id) a
        | inr new ↦ rw (new, add_id) (All-append P ids (id ∷ []) a (m.0, tt))
      ])

pub contains-append :
    (id : String) (l r : List String)
    → contains id (l ++ r) ≡ (if contains id l then true else contains id r)
unfolding contains
contains-append id [] r = refl
contains-append id (j ∷ l) r = ground (arith, contains-append id l r)

-- Whatever is in the set stays, and what is added is there.
add_id-contains :
    (id new : String) (ids : List String)
    → contains id ids ≡ true
    → contains id (add_id new ids) ≡ true
unfolding add_id
add_id-contains id new ids h = ground (arith, contains-append id ids (new ∷ []))

add_id-contains_self : (id : String) (ids : List String) → contains id (add_id id ids) ≡ true
unfolding add_id contains
add_id-contains_self id ids = ground (arith, contains-append id ids (id ∷ []), eq_iff id id)

pub add_ids-contains :
    (more ids : List String) (id : String)
    → contains id ids ≡ true
    → contains id (add_ids more ids) ≡ true
unfolding add_ids
add_ids-contains [] ids id h = h
add_ids-contains (j ∷ more) ids id h =
    add_ids-contains more (add_id j ids) id (add_id-contains id j ids h)

pub add_ids-contains-All :
    (more ids : List String) → All (λ id. contains id (add_ids more ids) ≡ true) more
unfolding add_ids
add_ids-contains-All [] ids = tt
add_ids-contains-All (j ∷ more) ids = (
  add_ids-contains more (add_id j ids) j (add_id-contains_self j ids),
  add_ids-contains-All more (add_id j ids),
)

module _ (bar : BarLib) where
  -- The ids that a matcher of a source id names.
  abbrev pub Names {κ} : (String → Type κ) → Matcher → Type κ
  Names P m = str_eq m.name "source_id" ≡ true → All P (matched_ids bar m)

  matchers-All {κ} :
      (P : String → Type κ) (ms : List Matcher) (ids : List String)
      → All (Names P) ms
      → All P ids
      → All P (add_source_ids_from_matchers bar ids ms)
  unfolding add_source_ids_from_matchers add_source_ids_from_label_matcher
  matchers-All P [] ids n a = a
  matchers-All P (m ∷ ms) ids n a = elim (Bool-cases (str_eq m.name "source_id")) [
    | inl named ↦
        rw named (matchers-All P ms _ n.1 (add_ids-All P (matched_ids bar m) ids (n.0 named) a))
    | inr other ↦ rw other (matchers-All P ms ids n.1 a)
  ]

  pub visit-All {κ} :
      (P : String → Type κ) (l : List (List Matcher)) (ids : List String)
      → All (All (Names P)) l
      → All P ids
      → All P (visit_source_ids bar ids l)
  unfolding visit_source_ids
  visit-All P [] ids n a = a
  visit-All P (ms ∷ l) ids n a = visit-All P l _ n.1 (matchers-All P ms ids n.0 a)

  matchers-contains :
      (ms : List Matcher) (ids : List String) (id : String)
      → contains id ids ≡ true
      → contains id (add_source_ids_from_matchers bar ids ms) ≡ true
  unfolding add_source_ids_from_matchers add_source_ids_from_label_matcher
  matchers-contains [] ids id h = h
  matchers-contains (m ∷ ms) ids id h = elim (Bool-cases (str_eq m.name "source_id")) [
    | inl named ↦
        rw named (matchers-contains ms _ id (add_ids-contains (matched_ids bar m) ids id h))
    | inr other ↦ rw other (matchers-contains ms ids id h)
  ]

  visit-contains :
      (l : List (List Matcher)) (ids : List String) (id : String)
      → contains id ids ≡ true
      → contains id (visit_source_ids bar ids l) ≡ true
  unfolding visit_source_ids
  visit-contains [] ids id h = h
  visit-contains (ms ∷ l) ids id h = visit-contains l _ id (matchers-contains ms ids id h)

  matchers-Names :
      (ms : List Matcher) (ids : List String)
      → All (Names (λ id. contains id (add_source_ids_from_matchers bar ids ms) ≡ true)) ms
  unfolding add_source_ids_from_matchers add_source_ids_from_label_matcher
  matchers-Names [] ids = tt
  matchers-Names (m ∷ ms) ids = (
    (λ named. rw named (
        All-mono (λ id. contains id (add_ids (matched_ids bar m) ids) ≡ true) _
          (λ id h. matchers-contains ms _ id h) (matched_ids bar m)
          (add_ids-contains-All (matched_ids bar m) ids))),
    matchers-Names ms _,
  )

  visit-Names :
      (l : List (List Matcher)) (ids : List String)
      → All (All (Names (λ id. contains id (visit_source_ids bar ids l) ≡ true))) l
  unfolding visit_source_ids
  visit-Names [] ids = tt
  visit-Names (ms ∷ l) ids = (
    All-mono (Names (λ id. contains id (add_source_ids_from_matchers bar ids ms) ≡ true)) _
        (λ m n named. All-mono _ _ (λ id h. visit-contains l _ id h) (matched_ids bar m) (n named))
        ms (matchers-Names ms ids),
    visit-Names l _,
  )

  -- The source ids that the selectors of an expression name are exactly those of `P` that all have.
  pub visit-Names-All {κ} :
      (P : String → Type κ) (l : List (List Matcher))
      → All P (visit_source_ids bar [] l)
      → All (All (Names P)) l
  visit-Names-All P l a =
      All-mono (All (Names (λ id. contains id (visit_source_ids bar [] l) ≡ true))) _
        (λ ms.
          All-mono _ _
            (λ m n named.
              All-mono _ _ (λ id h. contains-All P id _ a h) (matched_ids bar m) (n named))
            ms)
        l (visit-Names l [])
