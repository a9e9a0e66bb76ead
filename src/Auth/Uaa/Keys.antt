-- ===== src/Auth/Uaa/Keys.antt =====
-- internal/auth/uaa_client.go, RefreshTokenKeys: the keys after a refresh.
use log_cache.Common.{
  ℕ, ◌+◌, ◌≤◌, le→not_ltb, ◌≡◌, ◌≢◌, ◌⊎◌, inl, inr, refl, sym, ap, ◌∙◌, String, Bool, true, false,
  Option, none, some, List, [], ◌∷◌, map, if◌then◌else◌, ltb, str_eq, lookup, insert, delete,
  lookup-insert, lookup-delete, insert-Distinct, delete-Distinct, Distinct, arith, Bool-cases,
}
use log_cache.Auth.Uaa.{
  TokenKey, KeyLib, UaaClient, RefreshError, KeysResult, response, read_key, store_keys, prune_keys,
  end_keys, replace_keys, refresh_token_keys,
}

or_else : {A : Type 0} → Option A → Option A → Option A
or_else (some a) o = some a
or_else none o = o

or_else_assoc : {A : Type 0} (a b c : Option A) → or_else (or_else a b) c ≡ or_else a (or_else b c)
unfolding or_else
or_else_assoc (some a) b c = refl
or_else_assoc none b c = refl

or_else-none : {A : Type 0} (a : Option A) → or_else a none ≡ a
unfolding or_else
or_else-none (some a) = refl
or_else-none none = refl

-- A key that is to be pruned is no key.
unless_some : {A B : Type 0} → Option A → Option B → Option B
unless_some (some a) o = none
unless_some none o = o

unless-delete :
    {A B : Type 0} (b : Bool) (a : A) (x : Option A) (o : Option B)
    → unless_some x (if b then none else o) ≡ unless_some (if b then some a else x) o
unfolding unless_some
unless-delete true a (some u) o = refl
unless-delete true a none o = refl
unless-delete false a x o = refl

unless-insert :
    {A B : Type 0} (b : Bool) (new : B) (x : Option A) (o : Option B)
    → unless_some (if b then none else x) (if b then some new else o)
      ≡ or_else (if b then some new else none) (unless_some x o)
unfolding unless_some or_else
unless-insert true new x o = refl
unless-insert false new x o = refl

read_cases : {X A : Type 0} (r : X ⊎ A) → ((x : X) × (r ≡ inl x)) ⊎ ((a : A) × (r ≡ inr a))
read_cases (inl x) = inl (x, refl)
read_cases (inr a) = inr (a, refl)

some-ne-none : {A : Type 0} (a : A) → some a ≢ none
some-ne-none a h = cc

module _ {Key : Type 0} (lib : KeyLib Key) where
  abbrev as_key : RefreshError ⊎ Key → Option Key
  as_key (inl e) = none
  as_key (inr key) = some key

  -- The last key under an id.
  unfoldable pub last_key : String → List TokenKey → Option Key
  unfolding or_else
  last_key id [] = none
  last_key id (k ∷ ks) =
      or_else (last_key id ks) (if str_eq k.key_id id then as_key (read_key lib k.value) else none)

  lookup-prune_keys :
      (id : String) (current : List (String × Unit {0})) (keys : List (String × Key))
      → Distinct keys
      → lookup id (prune_keys lib current keys) ≡ unless_some (lookup id current) (lookup id keys)
  unfolding prune_keys lookup unless_some
  lookup-prune_keys id [] keys d = refl
  lookup-prune_keys id ((i, u) ∷ current) keys d =
      lookup-prune_keys id current (delete i keys) (delete-Distinct i keys d)
      ∙ ap (unless_some (lookup id current)) (lookup-delete i id keys d)
      ∙ unless-delete (str_eq i id) u (lookup id current) (lookup id keys)

  -- Unless a key is refused, the keys that stand once the rest of the answer is stored and the
  -- others are pruned.
  abbrev Ends : String → List TokenKey → List (String × Unit {0}) → List (String × Key) → Type 0
  Ends id ks current keys =
      let (e, keys') = end_keys lib (store_keys lib ks current keys) in
      e ≡ none
      → lookup id keys'
        ≡ or_else (last_key id ks) (unless_some (lookup id current) (lookup id keys))

  Ends-cons :
      (id : String) (k : TokenKey) (key : Key) (ks : List TokenKey)
      (current : List (String × Unit {0})) (keys : List (String × Key))
      → read_key lib k.value ≡ inr key
      → Distinct current
      → Ends id ks (delete k.key_id current) (insert k.key_id key keys)
      → Ends id (k ∷ ks) current keys
  unfolding last_key store_keys
  Ends-cons id k key ks current keys e d step h =
      let once : store_keys lib (k ∷ ks) current keys
          ≡ store_keys lib ks (delete k.key_id current) (insert k.key_id key keys) =
        rw (store_keys, e) refl in
      ap (λ r. lookup id (end_keys lib r).1) once
      ∙ step (sym (ap (λ r. (end_keys lib r).0) once) ∙ h)
      ∙ ap (or_else (last_key id ks)) (
          rw (lookup-delete k.key_id id current d, lookup-insert k.key_id id key keys)
            (unless-insert (str_eq k.key_id id) key (lookup id current) (lookup id keys)))
      ∙ sym (or_else_assoc (last_key id ks) _ _)
      ∙ ap
          (λ r.
            or_else (or_else (last_key id ks) (if str_eq k.key_id id then as_key r else none))
              (unless_some (lookup id current) (lookup id keys)))
          (sym e)

  refused :
      (k : TokenKey) (x : RefreshError) (ks : List TokenKey) (current : List (String × Unit {0}))
      (keys : List (String × Key))
      → read_key lib k.value ≡ inl x
      → store_keys lib (k ∷ ks) current keys ≡ (inl x, keys)
  unfolding store_keys
  refused k x ks current keys e = rw (store_keys, e) refl

  store_keys-Ends :
      (id : String) (ks : List TokenKey) (current : List (String × Unit {0}))
      (keys : List (String × Key))
      → Distinct current
      → Distinct keys
      → Ends id ks current keys
  unfolding store_keys last_key or_else
  store_keys-Ends id [] current keys dc dk = λ h. lookup-prune_keys id current keys dk
  store_keys-Ends id (k ∷ ks) current keys dc dk = elim (read_cases (read_key lib k.value)) [
    | inl (x, e) ↦ λ h.
        absurd
          (some-ne-none x (sym (ap (λ r. (end_keys lib r).0) (refused k x ks current keys e)) ∙ h))
    | inr (key, e) ↦ Ends-cons id k key ks current keys e dc (
        store_keys-Ends id ks (delete k.key_id current) (insert k.key_id key keys)
          (delete-Distinct k.key_id current dc) (insert-Distinct k.key_id key keys dk))
  ]

  abbrev known : List (String × Key) → List (String × Unit {0})
  known keys = map (λ (d : String × Key). (d.0, tt)) keys

  lookup-known :
      (id : String) (keys : List (String × Key))
      → unless_some (lookup id (known keys)) (lookup id keys) ≡ none
  unfolding unless_some lookup
  lookup-known id [] = refl
  lookup-known id ((i, key) ∷ keys) = elim (Bool-cases (str_eq i id)) [
    | inl found ↦ rw found refl
    | inr other ↦ rw other (lookup-known id keys)
  ]

  known-none :
      (id : String) (keys : List (String × Key))
      → lookup id keys ≡ none
      → lookup id (known keys) ≡ none
  unfolding lookup
  known-none id [] e = refl
  known-none id ((i, key) ∷ keys) e = elim (Bool-cases (str_eq i id)) [
    | inl found ↦ absurd (ground arith)
    | inr other ↦ rw other (known-none id keys (ground arith))
  ]

  known-Distinct : (keys : List (String × Key)) → Distinct keys → Distinct (known keys)
  known-Distinct [] d = tt
  known-Distinct ((i, key) ∷ keys) d = (known-none i keys d.0, known-Distinct keys d.1)

  replace_keys-last_key :
      (id : String) (ks : List TokenKey) (keys : List (String × Key))
      → Distinct keys
      → (replace_keys lib ks keys).0 ≡ none
      → lookup id (replace_keys lib ks keys).1 ≡ last_key id ks
  unfolding replace_keys
  replace_keys-last_key id ks keys d h =
      store_keys-Ends id ks (known keys) keys (known-Distinct keys d) d h
      ∙ ap (or_else (last_key id ks)) (lookup-known id keys)
      ∙ or_else-none (last_key id ks)

  -- Let a refresh be due, and let UAA answer it with keys of which none is refused. Then it gives no
  -- error, and the client knows exactly the keys of the answer: under each id the last key with
  -- that id, and no key under an id that the answer lacks, whatever it knew before.
  pub refresh_token_keys-last_key :
      (uaa : ℕ → KeysResult) (now later : ℕ) (c : UaaClient Key) (ks : List TokenKey) (id : String)
      → c.last_query_time + c.minimum_refresh_interval ≤ now
      → uaa c.requests ≡ response 200 (some ks)
      → Distinct c.public_keys
      → (replace_keys lib ks c.public_keys).0 ≡ none
      → (let (e, c') = refresh_token_keys lib uaa now later c in
          (e ≡ none) × (lookup id c'.public_keys ≡ last_key id ks))
  unfolding refresh_token_keys
  refresh_token_keys-last_key uaa now later c ks id due answered d h =
      let late : ltb now (c.last_query_time + c.minimum_refresh_interval) ≡ false =
        le→not_ltb now (c.last_query_time + c.minimum_refresh_interval) due in
      rw (refresh_token_keys, late, answered) (h, replace_keys-last_key id ks c.public_keys d h)
