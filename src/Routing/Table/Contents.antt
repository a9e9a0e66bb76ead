-- ===== src/Routing/Table/Contents.antt =====
-- internal/routing/routing_table.go, SetRanges: how often a lookup finds each node.
use mathlib.Core.List.{Permᴰ}
use mathlib.Core.Logic.{∥∥₁_elim}
use mathlib.Core.Option
use native.Mathlib.Nat.{ℕ_set}
use log_cache.Common.{
  ℕ, ◌+◌, ◌≡◌, refl, ◌∙◌, String, Bool, List, [], ◌∷◌, ◌++◌, ◌&&◌, leb, ◌==◌, lookup, if◌then◌else◌,
  arith, length, keep,
}
use log_cache.Routing.Table.{
  RpcRange, RangeInfo, RoutingTable, clone_rpc_range, addr_index, node_ranges, matching,
  lookup_item, request_ranges, SortLib, set_ranges,
}
use log_cache.Routing.Table.Lookups.{lookup_item-set_ranges_perm}

module _ {A : Type 0} where
  keep_one :
      (p : A → Bool) (a b : A) (l m : List A)
      → a ≡ b
      → length (keep p l) ≡ length (keep p m)
      → length (keep p (a ∷ l)) ≡ length (keep p (b ∷ m))
  keep_one p a b l m e h = ground (arith, h)

  keep_two :
      (p : A → Bool) (a b c d : A) (l : List A)
      → a ≡ d
      → b ≡ c
      → length (keep p (a ∷ b ∷ l)) ≡ length (keep p (c ∷ d ∷ l))
  keep_two p a b c d l e f = ground arith

  pub length-keep-permᴰ :
      (p : A → Bool) {l m : List A} → Permᴰ l m → length (keep p l) ≡ length (keep p m)
  length-keep-permᴰ p Permᴰ.nil = refl
  length-keep-permᴰ p (Permᴰ.cons {a} {b} {l₁} {l₂} e q) =
      keep_one p a b l₁ l₂ e (length-keep-permᴰ p q)
  length-keep-permᴰ p (Permᴰ.swap {a} {b} {a'} {b'} {l} e f) = keep_two p a b a' b' l e f
  length-keep-permᴰ p (Permᴰ.trans q r) = length-keep-permᴰ p q ∙ length-keep-permᴰ p r

  length-keep-append :
      (p : A → Bool) (l m : List A)
      → length (keep p (l ++ m)) ≡ length (keep p l) + length (keep p m)
  length-keep-append p [] m = omega arith
  length-keep-append p (a ∷ l) m = ground (arith, length-keep-append p l m)

-- How many of an address' ranges hold a hash: neither end is beyond it.
abbrev pub holding : ℕ → List RpcRange → ℕ
holding h [] = 0
holding h (r ∷ rs) = (if leb r.start h && leb h r.end then 1 else 0) + holding h rs

-- How many ranges of the request hold a hash and belong to an address whose index is `n`; an
-- address that the table does not know has the index 0.
abbrev pub requested : List (String × ℕ) → ℕ → ℕ → List (String × List RpcRange) → ℕ
requested addrs h n [] = 0
requested addrs h n ((addr, rs) ∷ req) =
    (if Option.get_or (lookup addr addrs) 0 == n then holding h rs else 0) + requested addrs h n req

-- How often a lookup gives a node.
abbrev pub times : ℕ → List ℕ → ℕ
times n l = length (keep (λ idx. idx == n) l)

matching-append :
    (h : ℕ) (l m : List RangeInfo) → matching h (l ++ m) ≡ matching h l ++ matching h m
unfolding matching
matching-append h [] m = refl
matching-append h (r ∷ l) m = ground (arith, matching-append h l m)

times-node_ranges :
    (h n idx : ℕ) (rs : List RpcRange)
    → times n (matching h (node_ranges idx rs)) ≡ (if idx == n then holding h rs else 0)
unfolding matching node_ranges clone_rpc_range
times-node_ranges h n idx [] = ground arith
times-node_ranges h n idx (r ∷ rs) = ground (arith, times-node_ranges h n idx rs)

times-request_ranges :
    (addrs : List (String × ℕ)) (h n : ℕ) (req : List (String × List RpcRange))
    → times n (matching h (request_ranges addrs req)) ≡ requested addrs h n req
unfolding request_ranges addr_index matching
times-request_ranges addrs h n [] = refl
times-request_ranges addrs h n ((addr, rs) ∷ req) =
    let mine = node_ranges (addr_index addrs addr) rs in
    let rest = request_ranges addrs req in
    rw
      (
        request_ranges,
        matching-append h mine rest,
        length-keep-append (λ idx. idx == n) (matching h mine) (matching h rest),
        times-node_ranges h n (addr_index addrs addr) rs,
        times-request_ranges addrs h n req,
      )
      refl

-- After SetRanges, whatever the table was before, a lookup gives each node as often as the request
-- has ranges for it, start and end included, that hold the item's hash. A node is the index of its
-- address; a range for an unknown address goes to the node 0.
pub lookup_item-set_ranges :
    (lib : SortLib) (req : List (String × List RpcRange)) (t : RoutingTable) (item : String) (n : ℕ)
    → times n (lookup_item (set_ranges lib req t) item) ≡ requested t.addrs (t.hasher item) n req
lookup_item-set_ranges lib req t item n =
    let sorted =
      ∥∥₁_elim (lookup_item-set_ranges_perm lib req t item) (ℕ_set _ _)
        (length-keep-permᴰ (λ idx. idx == n)) in
    sorted ∙ times-request_ranges t.addrs (t.hasher item) n req
