-- ===== src/Routing/Ingress/Delivery.antt =====
-- Every node gets exactly the envelopes of its sources, in order.
use log_cache.Common.{
  ℕ, ◌<◌, ◌≡◌, ◌≢◌, refl, ap, ◌∙◌, String, Bool, true, false, some, List, [], ◌∷◌, ◌++◌, arith,
  ◌==◌, if◌then◌else◌, All, subst, Bool-cases, inl, inr,
}
use mathlib.Core.List.{append_assoc, append-nil}
use log_cache.Envelope.{Envelope}
use log_cache.Routing.Ingress.{
  SendRequest, ByNode, append_at, append_to, Sent, group, send_each, send,
}

-- The copies of an envelope for a node: one for each time that its lookup names the node.
unfoldable pub copies : ℕ → List ℕ → Envelope → List Envelope
copies idx [] e = []
copies idx (i ∷ is) e = if i == idx then e ∷ copies idx is e else copies idx is e

unfoldable pub routed : (String → List ℕ) → ℕ → List Envelope → List Envelope
unfolding copies
routed l idx [] = []
routed l idx (e ∷ es) = copies idx (l e.source_id) e ++ routed l idx es

-- The envelopes of a node, and of the calls to it.
unfoldable pub at : ℕ → ByNode → List Envelope
at idx [] = []
at idx ((i, es) ∷ m) = if i == idx then es else at idx m

unfoldable pub sent_to : ℕ → List (ℕ × SendRequest) → List Envelope
sent_to idx [] = []
sent_to idx ((i, r) ∷ calls) = if i == idx then r.batch ++ sent_to idx calls else sent_to idx calls

at-append_at :
    (i j : ℕ) (e : Envelope) (m : ByNode)
    → at j (append_at i e m) ≡ at j m ++ (if i == j then e ∷ [] else [])
unfolding at append_at
at-append_at i j e [] = ground arith
at-append_at i j e ((k, es) ∷ m) =
    ground (arith, at-append_at i j e m, append-nil es, append-nil (at j m))

at-append_to :
    (is : List ℕ) (j : ℕ) (e : Envelope) (m : ByNode)
    → at j (append_to is e m) ≡ at j m ++ copies j is e
unfolding append_to copies
at-append_to [] j e m = rw append-nil
at-append_to (i ∷ is) j e m =
    rw (at-append_to is j e (append_at i e m), at-append_at i j e m, append_assoc)
      (ap (◌++◌ (at j m)) (elim (Bool-cases (i == j)) [ inl h ↦ rw h | inr h ↦ rw h ]))

-- A node stands once.
abbrev OncePerNode : ByNode → Type 0
OncePerNode [] = Unit
OncePerNode (d ∷ m) = All (λ c. d.0 ≢ c.0) m × OncePerNode m

append_at-All :
    (P : ℕ → Type 0) (i : ℕ) (e : Envelope) (m : ByNode)
    → P i
    → All (λ d. P d.0) m
    → All (λ d. P d.0) (append_at i e m)
unfolding append_at
append_at-All P i e [] h a = (h, tt)
append_at-All P i e ((k, es) ∷ m) h a = ground (arith, append_at-All P i e m h a.1)

append_at-OncePerNode :
    (i : ℕ) (e : Envelope) (m : ByNode) → OncePerNode m → OncePerNode (append_at i e m)
unfolding append_at
append_at-OncePerNode i e [] o = (tt, tt)
append_at-OncePerNode i e ((k, es) ∷ m) o = elim (Bool-cases (k == i)) [
  | inl same ↦ rw same o
  | inr other ↦
      rw other
        (append_at-All (λ n. k ≢ n) i e m (ground arith) o.0, append_at-OncePerNode i e m o.1)
]

append_to-OncePerNode :
    (is : List ℕ) (e : Envelope) (m : ByNode) → OncePerNode m → OncePerNode (append_to is e m)
unfolding append_to
append_to-OncePerNode [] e m o = o
append_to-OncePerNode (i ∷ is) e m o =
    append_to-OncePerNode is e (append_at i e m) (append_at-OncePerNode i e m o)

append_to-All :
    (P : ℕ → Type 0) (is : List ℕ) (e : Envelope) (m : ByNode)
    → All P is
    → All (λ d. P d.0) m
    → All (λ d. P d.0) (append_to is e m)
unfolding append_to
append_to-All P [] e m h a = a
append_to-All P (i ∷ is) e m h a =
    append_to-All P is e (append_at i e m) h.1 (append_at-All P i e m h.0 a)

module _ (l : String → List ℕ) (clients local_idx : ℕ) (answer : ℕ → SendRequest → Bool) where
  at-group :
      (j : ℕ) (es : List Envelope) (m : ByNode)
      → at j (group l clients local_idx answer es m) ≡ at j m ++ routed l j es
  unfolding group routed
  at-group j [] m = rw append-nil
  at-group j (e ∷ es) m = rw (
    at-group j es (append_to (l e.source_id) e m),
    at-append_to (l e.source_id) j e m,
    append_assoc,
  )

  group-OncePerNode :
      (es : List Envelope) (m : ByNode)
      → OncePerNode m
      → OncePerNode (group l clients local_idx answer es m)
  unfolding group
  group-OncePerNode [] m o = o
  group-OncePerNode (e ∷ es) m o =
      group-OncePerNode es _ (append_to-OncePerNode (l e.source_id) e m o)

  group-All :
      (P : ℕ → Type 0) (es : List Envelope) (m : ByNode)
      → ((id : String) → All P (l id))
      → All (λ d. P d.0) m
      → All (λ d. P d.0) (group l clients local_idx answer es m)
  unfolding group
  group-All P [] m h a = a
  group-All P (e ∷ es) m h a =
      group-All P es _ h (append_to-All P (l e.source_id) e m (h e.source_id) a)

  -- The calls are one for each node, and local.
  record Delivers (m : ByNode) (calls : List (ℕ × SendRequest)) : Type 0 where
    local : All (λ c. c.1.local_only ≡ true) calls
    same : (j : ℕ) → sent_to j calls ≡ at j m

  not_among : (j : ℕ) (m : ByNode) → All (λ (c : ℕ × List Envelope). j ≢ c.0) m → at j m ≡ []
  unfolding at
  not_among j [] a = refl
  not_among j ((k, es) ∷ m) a = ground (arith, not_among j m a.1)

  send_each-Delivers :
      (m : ByNode)
      → OncePerNode m
      → All (λ d. d.0 < clients) m
      → (calls : List (ℕ × SendRequest)) × (send_each l clients local_idx answer m ≡ some calls)
        × Delivers m calls
  unfolding send_each sent_to at
  send_each-Delivers [] o a = ([], refl, record { local = tt; same = λ j. refl })
  send_each-Delivers ((k, es) ∷ m) o a =
      let (calls, done, d) = send_each-Delivers m o.1 a.1 in
      (
        (k, record { local_only = true; batch = es }) ∷ calls,
        ground arith,
        record {
          local = (refl, d.local);
          same = λ j. elim (Bool-cases (k == j)) [
            | inl h ↦
                let e : k ≡ j = ground arith in
                rw
                  (
                    h,
                    d.same j,
                    not_among j m (subst (λ n. All (λ (c : ℕ × List Envelope). n ≢ c.0) m) e o.0),
                  )
                  (append-nil es)
            | inr h ↦ rw h (d.same j)
          ];
        },
      )

  -- A request that is not local, while each lookup names only nodes with a client, is always
  -- answered with success. Every node is sent, by requests that are local, exactly the envelopes
  -- whose source's lookup names it, in the order of the request.
  pub sent_to-send :
      (r : SendRequest)
      → r.local_only ≡ false
      → ((id : String) → All (λ i. i < clients) (l id))
      → (sent : Sent) × (send l clients local_idx answer r ≡ some sent)
        × (sent.ok ≡ true)
        × All (λ c. c.1.local_only ≡ true) sent.calls
        × ((j : ℕ) → sent_to j sent.calls ≡ routed l j r.batch)
  unfolding send at
  sent_to-send r remote known =
      let m = group l clients local_idx answer r.batch [] in
      let (calls, done, d) =
        send_each-Delivers m (group-OncePerNode r.batch [] tt)
          (group-All (λ i. i < clients) r.batch [] known tt) in
      (
        record { calls = calls; ok = true },
        rw (remote, done),
        refl,
        d.local,
        λ j. d.same j ∙ at-group j r.batch [],
      )
