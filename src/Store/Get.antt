-- ===== src/Store/Get.antt =====
-- Store.Get: the walks over a source's tree, with the filters by name and by type.
pub mod Walks
pub mod Scan
pub mod Equation
pub mod Soundness
use log_cache.Common.{
  ℕ, suc, ◌+◌, String, Bool, true, false, not, ◌&&◌, ◌||◌, Option, none, some, List, [], ◌∷◌, ◌++◌,
  leb, ltb, ◌==◌, if◌then◌else◌, lookup, keep, length,
}
use log_cache.Tree.{Tree, leaf, node}
use log_cache.Envelope.{
  Envelope, GaugeValue, EnvelopeType, any_type, log_type, counter_type, gauge_type, timer_type,
  event_type, unset, log, counter, gauge, timer, event,
}
use log_cache.Store.State.{Storage, Metrics, Store}

-- `nameFilter.MatchString` of a compiled regular expression, or nil.
abbrev pub NameFilter : Type 0
NameFilter = Option (String → Bool)

unfoldable pub filter_gauge : Envelope → List (String × GaugeValue) → Option Envelope
filter_gauge e [] = none
filter_gauge e (m ∷ metrics) = some (record e { message = gauge (m ∷ metrics) })

unfoldable pub filter_by_name : Envelope → NameFilter → Option Envelope
unfolding filter_gauge
filter_by_name e none = some e
filter_by_name e (some matches) = elim (e.message) [
  | counter name delta total ↦ if matches name then some e else none
  | gauge metrics ↦ filter_gauge e (keep (λ m. matches m.0) metrics)
  | timer name start stop ↦ if matches name then some e else none
  | _ ↦ none
]

-- The types are those that api/v1 declares. A number that stands for none of them, which a request
-- can hold and for which the source panics, is no value of EnvelopeType.
unfoldable pub check_envelope_type : Envelope → EnvelopeType → Bool
check_envelope_type e any_type = true
check_envelope_type e log_type = elim (e.message) [ log p t ↦ true | _ ↦ false ]
check_envelope_type e counter_type = elim (e.message) [ counter n d t ↦ true | _ ↦ false ]
check_envelope_type e gauge_type = elim (e.message) [ gauge m ↦ true | _ ↦ false ]
check_envelope_type e timer_type = elim (e.message) [ timer n s t ↦ true | _ ↦ false ]
check_envelope_type e event_type = elim (e.message) [ event t b ↦ true | _ ↦ false ]

unfoldable pub has_type : Envelope → List EnvelopeType → Bool
unfolding check_envelope_type
has_type e [] = false
has_type e (t ∷ types) = check_envelope_type e t || has_type e types

-- A nil slice of types admits every envelope.
unfoldable pub valid_envelope_type : Envelope → Option (List EnvelopeType) → Bool
unfolding has_type
valid_envelope_type e none = true
valid_envelope_type e (some types) = has_type e types

-- Is the node inside a run of fudged timestamps, or, by its child, at the head of one? The child
-- is Children[nextChildIndex].
unfoldable pub is_node_a_fudge_sequence_member : ℕ → Envelope → Tree Envelope → Bool
is_node_a_fudge_sequence_member key e leaf = not (e.timestamp == key)
is_node_a_fudge_sequence_member key e (node k child l r) =
    not (e.timestamp == key) || not (child.timestamp == k)

-- A walk hands each envelope to `f`, which updates the state and says whether to stop.
module _ {S : Type 0} (f : Envelope → S → Bool × S) where
  -- A node inside the bounds on one side: the walk `before` it, the node, and the walk `after` it.
  unfoldable pub visit :
      Envelope → (fudged done : Bool) → (before after : S → Bool × S) → S → Bool × S
  visit e fudged done before after s =
      let (stopped, s1) = before s in
      if stopped
      then (true, s1)
      else (let (hit, s2) = if done then (true, s1) else f e s1 in
          if hit && not fudged then (true, s2) else after s2)

module _ {S : Type 0} (start end : ℕ) (f : Envelope → S → Bool × S) where
  unfoldable pub tree_asc_traverse : Tree Envelope → S → Bool × S
  unfolding visit
  tree_asc_traverse leaf s = (false, s)
  tree_asc_traverse (node key e l r) s =
      let after = tree_asc_traverse r in
      if leb start e.timestamp
      then visit f e (is_node_a_fudge_sequence_member key e r) (leb end e.timestamp)
          (tree_asc_traverse l) after s
      else after s

  unfoldable pub tree_desc_traverse : Tree Envelope → S → Bool × S
  unfolding visit
  tree_desc_traverse leaf s = (false, s)
  tree_desc_traverse (node key e l r) s =
      let after = tree_desc_traverse l in
      if ltb e.timestamp end
      then visit f e (is_node_a_fudge_sequence_member key e l) (ltb e.timestamp start)
          (tree_desc_traverse r) after s
      else after s

-- The function that Get hands to a walk; the state is `res`.
unfoldable pub collect :
    Option (List EnvelopeType) → NameFilter → ℕ → Envelope → List Envelope → Bool × List Envelope
unfolding filter_by_name valid_envelope_type
collect types name_filter limit e res = elim (filter_by_name e name_filter) [
  | none ↦ (false, res)
  | some e' ↦
      let res' = if valid_envelope_type e' types then res ++ (e' ∷ []) else res in
      (leb limit (length res'), res')
]

-- The envelopes, and the store. A limit that is not positive stands as 0.
unfoldable pub get :
    String
    → (start end : ℕ) → Option (List EnvelopeType)
    → NameFilter
    → (limit : ℕ) → (descending : Bool) → Store
    → List Envelope × Store
get index start end types name_filter limit descending s = elim (lookup index s.storage_index) [
  | none ↦ ([], s)
  | some storage ↦
      let f = collect types name_filter limit in
      let (_, res) =
        if descending
        then tree_desc_traverse start end f storage.tree []
        else tree_asc_traverse start end f storage.tree [] in
      let m = s.metrics in (res, record s { metrics = record m { egress = m.egress + length res } })
]
