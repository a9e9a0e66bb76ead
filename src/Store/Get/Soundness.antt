-- ===== src/Store/Get/Soundness.antt =====
-- Whatever the shape of the tree, Get returns only envelopes that were asked for.
use log_cache.Common.{
  ℕ, ◌<◌, ◌≤◌, ◌≡◌, refl, String, Bool, true, false, not, ◌&&◌, Option, none, some, List, [], ◌∷◌,
  arith, ltb, leb, if◌then◌else◌, Bool-cases, Option-cases, inl, inr, All, All-append, keep, lookup,
}
use log_cache.Tree.{Tree, leaf, node}
use log_cache.Envelope.{
  Envelope, EnvelopeType, GaugeValue, gauge, Message, unset, log, counter, timer, event,
}
use log_cache.Store.State.{Storage, Store}
use log_cache.Store.Get.{
  NameFilter, filter_gauge, filter_by_name, valid_envelope_type, collect, visit,
  is_node_a_fudge_sequence_member, tree_asc_traverse, tree_desc_traverse, get,
}

keep_twice :
    (p : String × GaugeValue → Bool) (l : List (String × GaugeValue)) → keep p (keep p l) ≡ keep p l
keep_twice p [] = refl
keep_twice p (m ∷ l) = ground (arith, keep_twice p l)

-- What the filter by name lets through keeps its timestamp, and passes the filter as it is.
filter_by_name_twice :
    (e e' : Envelope) (name_filter : NameFilter)
    → filter_by_name e name_filter ≡ some e'
    → (e'.timestamp ≡ e.timestamp) × (filter_by_name e' name_filter ≡ some e')
unfolding filter_by_name filter_gauge
filter_by_name_twice e e' none h = ground arith
filter_by_name_twice e e' (some matches) h = by_message (e.message) refl
  where
    by_message :
        (m : Message)
        → e.message ≡ m
        → (e'.timestamp ≡ e.timestamp) × (filter_by_name e' (some matches) ≡ some e')
    by_message unset q = ground arith
    by_message (log p t) q = ground arith
    by_message (counter n d t) q = ground arith
    by_message (gauge l) q = ground (arith, keep_twice (λ m. matches m.0) l)
    by_message (timer n s t) q = ground arith
    by_message (event t b) q = ground arith

module _ (start end : ℕ) (types : Option (List EnvelopeType)) (name_filter : NameFilter)
    (limit : ℕ) where
  -- What a caller asked for.
  pub record Asked (e : Envelope) : Type 0 where
    pub from : start ≤ e.timestamp
    pub until : e.timestamp < end
    pub typed : valid_envelope_type e types ≡ true
    pub named : filter_by_name e name_filter ≡ some e

  collect-Asked :
      (e : Envelope) (res : List Envelope)
      → start ≤ e.timestamp
      → e.timestamp < end
      → All Asked res
      → All Asked (collect types name_filter limit e res).1
  unfolding collect
  collect-Asked e res from until a = elim (Option-cases (filter_by_name e name_filter)) [
    | inl rejected ↦ rw (rejected, collect) a
    | inr (e', passed) ↦
        let (same, twice) = filter_by_name_twice e e' name_filter passed in
        elim (Bool-cases (valid_envelope_type e' types)) [
          | inl valid ↦
              rw (passed, collect, valid)
                (All-append Asked res (e' ∷ []) a (
                  record { from = omega arith; until = omega arith; typed = valid; named = twice },
                  tt,
                ))
          | inr invalid ↦ rw (passed, collect, invalid) a
        ]
  ]

  -- A node and the two walks around it keep the envelopes asked for.
  visit-Asked :
      (e : Envelope) (fudged done : Bool) (before after : List Envelope → Bool × List Envelope)
      → ((res : List Envelope) → All Asked res → All Asked (before res).1)
      → ((res : List Envelope) → All Asked res → All Asked (after res).1)
      → (done ≡ false → (start ≤ e.timestamp) × (e.timestamp < end))
      → (res : List Envelope) → All Asked res
      → All Asked (visit (collect types name_filter limit) e fudged done before after res).1
  unfolding visit
  visit-Asked e fudged done before after hb ha bounds res a = elim (Bool-cases (before res).0) [
    | inl stopped ↦ rw stopped (hb res a)
    | inr going ↦ rw going (node_asked done bounds (before res).1 (hb res a))
  ]
    where
      node_asked :
          (done : Bool)
          → (done ≡ false → (start ≤ e.timestamp) × (e.timestamp < end))
          → (res : List Envelope) → All Asked res
          → All Asked
              (let (hit, s2) =
                  if done then (true, res) else collect types name_filter limit e res in
                if hit && not fudged then (true, s2) else after s2).1
      node_asked true bounds res a = elim (Bool-cases (not fudged)) [
        | inl h ↦ rw h a
        | inr h ↦ rw h (ha res a)
      ]
      node_asked false bounds res a =
          let (from, until) = bounds refl in
          let more = collect-Asked e res from until a in
          elim (Bool-cases ((collect types name_filter limit e res).0 && not fudged)) [
            | inl h ↦ rw h more
            | inr h ↦ rw h (ha _ more)
          ]

  abbrev asc_walk : Tree Envelope → List Envelope → Bool × List Envelope
  asc_walk = tree_asc_traverse start end (collect types name_filter limit)

  abbrev desc_walk : Tree Envelope → List Envelope → Bool × List Envelope
  desc_walk = tree_desc_traverse start end (collect types name_filter limit)

  asc-Asked :
      (t : Tree Envelope) (res : List Envelope)
      → All Asked res
      → All Asked (tree_asc_traverse start end (collect types name_filter limit) t res).1
  unfolding tree_asc_traverse
  asc-Asked leaf res a = a
  asc-Asked (node key e l r) res a = elim (Bool-cases (leb start e.timestamp)) [
    | inl reached ↦ rw reached (
        visit-Asked e (is_node_a_fudge_sequence_member key e r) (leb end e.timestamp) (asc_walk l)
          (asc_walk r) (asc-Asked l) (asc-Asked r) (λ h. (ground arith, ground arith)) res a)
    | inr early ↦ rw early (asc-Asked r res a)
  ]

  desc-Asked :
      (t : Tree Envelope) (res : List Envelope)
      → All Asked res
      → All Asked (tree_desc_traverse start end (collect types name_filter limit) t res).1
  unfolding tree_desc_traverse
  desc-Asked leaf res a = a
  desc-Asked (node key e l r) res a = elim (Bool-cases (ltb e.timestamp end)) [
    | inl reached ↦ rw reached (
        visit-Asked e (is_node_a_fudge_sequence_member key e l) (ltb e.timestamp start)
          (desc_walk r) (desc_walk l) (desc-Asked r) (desc-Asked l)
          (λ h. (ground arith, ground arith)) res a)
    | inr late ↦ rw late (desc-Asked l res a)
  ]

  -- Each envelope that Get returns lies in [start..end), has one of the types, and passes the
  -- filter by name unchanged. This holds of every store, with fudged timestamps too.
  pub get-Asked :
      (id : String) (descending : Bool) (s : Store)
      → All Asked (get id start end types name_filter limit descending s).0
  unfolding get
  get-Asked id descending s = elim (Option-cases (lookup id s.storage_index)) [
    | inl e ↦ rw (e, get) tt
    | inr (storage, e) ↦ rw (e, get) (by_direction descending storage)
  ]
    where
      by_direction :
          (d : Bool) (storage : Storage)
          → All Asked
              (if d
                then tree_desc_traverse start end (collect types name_filter limit) storage.tree []
                else tree_asc_traverse start end
                    (collect types name_filter limit)
                    storage.tree
                    []).1
      by_direction true storage = desc-Asked storage.tree [] tt
      by_direction false storage = asc-Asked storage.tree [] tt
