-- ===== src/Marshaler/RoundTrip.antt =====
-- What is decoded again from the JSON of a result.
use mathlib.Core.Option
use log_cache.Common.{
  ◌≡◌, ap, subst, String, Option, none, some, ◌>>=◌, List, [], ◌∷◌, map, arith, Option-cases,
  Bool-cases, inl, inr,
}
use log_cache.Marshaler.{
  Point, Sample, Series, QueryResult, unset, scalar, vector, matrix, Item, JsonSample, JsonSeries,
  JsonResult, FloatLib, RawMessage, each, point, samples, serieses, assemble_point, or_empty,
  assemble_sample, assemble_scalar, assemble_vector, assemble_series, assemble_matrix,
  assemble_data, assemble_instant_query_result, disassemble_point, disassemble_sample,
  disassemble_series, unmarshal_scalar, unmarshal_vector, unmarshal_matrix,
  disassemble_instant_query_result,
}

each-each :
    {A B C : Type 0} (f : A → Option B) (g : B → Option C) (h : A → C)
    → ((a : A) (b : B) → f a ≡ some b → g b ≡ some (h a))
    → (l : List A) (m : List B) → each f l ≡ some m
    → each g m ≡ some (map h l)
unfolding each
each-each f g h back [] m e = ground arith
each-each f g h back (a ∷ l) m e = elim (Option-cases (f a)) [
  | inl failed ↦ absurd (ground (arith, failed))
  | inr (b, found) ↦ elim (Option-cases (each f l)) [
    | inl failed ↦ absurd (ground (arith, found, failed))
    | inr (bs, rest) ↦ ground (arith, found, rest, back a b found, each-each f g h back l bs rest)
  ]
]

module _ {F : Type 0} (lib : FloatLib F) where
  -- A point with its time rounded to three digits behind the dot.
  abbrev pub round_point : Point F → Point F
  round_point p = record p {
    time = elim (lib.parse_float p.time) [ none ↦ p.time | some t ↦ lib.fixed t ];
  }

  abbrev pub round_sample : Sample F → Sample F
  round_sample s = record { metric = or_empty lib s.metric; point = round_point s.point }

  abbrev pub round_series : Series F → Series F
  round_series s = record { metric = or_empty lib s.metric; points = map round_point s.points }

  abbrev pub rounded : QueryResult F → Option (QueryResult F)
  rounded unset = none
  rounded (scalar p) = some (scalar (round_point p))
  rounded (vector v) = some (vector (map round_sample v))
  rounded (matrix v) = some (matrix (map round_series v))

  disassemble_point-assemble_point :
      (p : Point F) (items : List Item)
      → assemble_point lib p ≡ some items
      → disassemble_point lib items ≡ some (round_point p)
  unfolding assemble_point disassemble_point
  disassemble_point-assemble_point p items e = elim (Option-cases (lib.parse_float p.time)) [
    | inl failed ↦ absurd (ground (arith, failed))
    | inr (t, parsed) ↦ elim (Bool-cases (lib.is_number (lib.fixed t))) [
      | inl good ↦
          let (y, decoded, same) = lib.to_number-fixed t good in
          ground (arith, parsed, good, decoded, same, lib.parse_float-shortest p.value)
      | inr bad ↦ absurd (ground (arith, parsed, bad))
    ]
  ]

  disassemble_sample-assemble_sample :
      (s : Sample F) (j : JsonSample)
      → assemble_sample lib s ≡ some j
      → disassemble_sample lib j ≡ some (round_sample s)
  unfolding assemble_sample disassemble_sample
  disassemble_sample-assemble_sample s j e = elim (Option-cases (assemble_point lib s.point)) [
    | inl failed ↦ absurd (ground (arith, failed))
    | inr (items, found) ↦
        ground (arith, found, disassemble_point-assemble_point s.point items found)
  ]

  disassemble_series-assemble_series :
      (s : Series F) (j : JsonSeries)
      → assemble_series lib s ≡ some j
      → disassemble_series lib j ≡ some (round_series s)
  unfolding assemble_series disassemble_series
  disassemble_series-assemble_series s j e =
      elim (Option-cases (each (assemble_point lib) s.points)) [
        | inl failed ↦ absurd (ground (arith, failed))
        | inr (values, found) ↦
            ground
              (arith, found, each-each _ _ _ disassemble_point-assemble_point s.points values found)
      ]

  -- The JSON result is known by its type and its message.
  decoded :
      (v : QueryResult F) (j : JsonResult) (kind : String) (m : RawMessage)
      → record { status = "success"; data_ = record { result_type = kind; result = m } } ≡ j
      → disassemble_instant_query_result lib
          (record { status = "success"; data_ = record { result_type = kind; result = m } })
        ≡ rounded v
      → disassemble_instant_query_result lib j ≡ rounded v
  decoded v j kind m e h = subst (λ k. disassemble_instant_query_result lib k ≡ rounded v) e h

  -- Decoding what was encoded gives the result back, with nil metrics as empty ones and with each
  -- time rounded to three digits behind the dot, its text that of the rounded number; a response
  -- without a result is an error.
  pub disassemble_instant_query_result-assemble_instant_query_result :
      (v : QueryResult F) (j : JsonResult)
      → assemble_instant_query_result lib v ≡ some j
      → disassemble_instant_query_result lib j ≡ rounded v
  unfolding assemble_instant_query_result disassemble_instant_query_result assemble_data
      assemble_scalar assemble_vector assemble_matrix unmarshal_scalar unmarshal_vector
      unmarshal_matrix
  disassemble_instant_query_result-assemble_instant_query_result unset j e = ground arith
  disassemble_instant_query_result-assemble_instant_query_result (scalar p) j e =
      elim (Option-cases (assemble_point lib p)) [
        | inl failed ↦ absurd (ground (arith, failed))
        | inr (items, found) ↦
            decoded (scalar p) j "scalar" (point items) (ground (arith, found)) (
              ap (λ o. o >>= λ q. some (scalar q)) (disassemble_point-assemble_point p items found))
      ]
  disassemble_instant_query_result-assemble_instant_query_result (vector v) j e =
      elim (Option-cases (each (assemble_sample lib) v)) [
        | inl failed ↦ absurd (ground (arith, failed))
        | inr (l, found) ↦ decoded (vector v) j "vector" (samples l) (ground (arith, found)) (
            ap (λ o. o >>= λ q. some (vector q))
              (each-each _ _ _ disassemble_sample-assemble_sample v l found))
      ]
  disassemble_instant_query_result-assemble_instant_query_result (matrix v) j e =
      elim (Option-cases (each (assemble_series lib) v)) [
        | inl failed ↦ absurd (ground (arith, failed))
        | inr (l, found) ↦
            decoded (matrix v) j "matrix" (serieses l) (ground (arith, found)) (
              ap (Option.map matrix) (each-each _ _ _ disassemble_series-assemble_series v l found))
      ]
