-- ===== src/Client/Http/Reads.antt =====
-- pkg/client/client.go, Read over HTTP: where its envelopes come from.
use log_cache.Common.{
  ℕ, ◌==◌, ==_iff, ◌≡◌, ◌⊎◌, inl, inr, refl, sym, subst, String, Bool, Option, none, some, List,
  if◌then◌else◌, arith, Bool-cases, Option-cases,
}
use log_cache.Client.Walk.{ReadOption}
use log_cache.Client.Requests.{DecimalLib, apply_options}
use log_cache.Client.Http.{
  Request, Response, VersionLib, only_ok, take_body, fetch, log_cache_version, get_base_api_path,
  read_request, fetch_below, http_read,
}

-- The cases of a computed result and its state.
result-cases :
    {X A S : Type 0} (r : (X ⊎ A) × S)
    → ((x : X) × (s : S) × (r ≡ (inl x, s))) ⊎ ((a : A) × (s : S) × (r ≡ (inr a, s)))
result-cases (inl x, s) = inl (x, s, refl)
result-cases (inr a, s) = inr (a, s, refl)

module _ {S : Type 0} (http : Request → S → Option Response × S) (parsed : Bool) where
  -- A body that a server sent with status 200 to a request.
  abbrev pub Answered : Request → S → String → Type 0
  Answered request s body =
      (r : Response) × ((http request s).0 ≡ some r) × (r.status ≡ 200) × (r.body ≡ body)

  module _ {A : Type 0} (decode : String → Option A) where
    take_body-ok :
        (o : Option Response) (a : A)
        → take_body only_ok decode o ≡ inr a
        → (r : Response) × (o ≡ some r) × (r.status ≡ 200) × (decode r.body ≡ some a)
    unfolding take_body only_ok
    take_body-ok none a e = absurd (ground arith)
    take_body-ok (some r) a e = elim (Bool-cases (r.status == 200)) [
      | inl ok ↦ elim (Option-cases (decode r.body)) [
        | inl bad ↦ absurd (ground arith)
        | inr (b, good) ↦ (r, refl, (==_iff r.status 200).0 ok, ground arith)
      ]
      | inr refused ↦ absurd (ground arith)
    ]

    fetch-ok :
        (request : Request) (s : S) (a : A)
        → (fetch http parsed only_ok decode request s).0 ≡ inr a
        → (body : String) × Answered request s body × (decode body ≡ some a)
    unfolding fetch
    fetch-ok request s a e = elim (Bool-cases parsed) [
      | inl good ↦
          let (r, answered, ok, decoded) =
            take_body-ok (http request s).0 a (ground (arith, e, good)) in
          (r.body, (r, answered, ok, refl), decoded)
      | inr bad ↦ absurd (ground (arith, e, bad))
    ]

    module _ (lib : VersionLib) where
      -- The path for a version.
      abbrev pub path_for : lib.Version → String
      path_for v = if lib.gte v (lib.version 2 0 0) then "/api/v1" else "/v1"

      get_base_api_path-ok :
          (s s1 : S) (path : String)
          → get_base_api_path http parsed lib "" s ≡ (inr path, s1)
          → (v : lib.Version) × (log_cache_version http parsed lib s ≡ (inr v, s1))
            × (path_for v ≡ path)
      unfolding get_base_api_path
      get_base_api_path-ok s s1 path e = elim (result-cases (log_cache_version http parsed lib s)) [
        | inl (x, s', failed) ↦ absurd (ground (arith, e, failed))
        | inr (v, s', found) ↦ (v, ground (arith, e, found), ground (arith, e, found))
      ]

      -- Let a client without a base path read over HTTP. If the read gives a result, the server's
      -- version was found first; then the server answered the request for the source, under the
      -- path for that version and with the start and the options as its query, with status 200 and
      -- a body that decodes to the result.
      pub http_read-Answered :
          (decimal : DecimalLib) (source_id : String) (start : ℕ) (opts : List ReadOption) (s : S)
          (a : A)
          → (http_read http parsed lib decimal "" decode source_id start opts s).0 ≡ inr a
          → (v : lib.Version) × (s1 : S) × (body : String) × (log_cache_version http parsed lib s
              ≡ (inr v, s1))
            × Answered
                (read_request
                  (path_for v)
                  source_id
                  (decimal.format_int start)
                  (apply_options decimal opts))
                s1
                body
            × (decode body ≡ some a)
      unfolding http_read fetch_below
      http_read-Answered decimal source_id start opts s a e = elim (Bool-cases parsed) [
        | inr bad ↦ absurd (ground (arith, e, bad))
        | inl good ↦ elim (result-cases (get_base_api_path http parsed lib "" s)) [
          | inl (x, s1, failed) ↦ absurd (ground (arith, e, good, failed))
          | inr (path, s1, found) ↦
              let (v, version, same) = get_base_api_path-ok s s1 path found in
              let request = λ (p : String).
                read_request p source_id (decimal.format_int start) (apply_options decimal opts) in
              let (body, sent, decoded) =
                fetch-ok (request path) s1 a (ground (arith, e, good, found)) in
              (
                v,
                s1,
                body,
                version,
                subst (λ p. Answered (request p) s1 body) (sym same) sent,
                decoded,
              )
        ]
      ]
