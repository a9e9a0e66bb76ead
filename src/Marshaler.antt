-- ===== src/Marshaler.antt =====
-- pkg/marshaler/marshaler.go: the results of PromQL queries as the JSON of Prometheus, and back.
pub mod RoundTrip
mod Tests
use mathlib.Core.Option
use log_cache.Common.{
  ℕ, ◌≡◌, String, Bool, true, false, Option, none, some, ◌>>=◌, List, [], ◌∷◌, map, if◌then◌else◌,
  str_eq,
}

-- Metric labels; `none` is a nil map.
abbrev pub Metric : Type 0
Metric = Option (List (String × String))

-- The messages of api/v1, for the type of a float64.
pub record Point (F : Type 0) : Type 0 where
  pub time : String
  pub value : F

pub record Sample (F : Type 0) : Type 0 where
  pub metric : Metric
  pub point : Point F

pub record Series (F : Type 0) : Type 0 where
  pub metric : Metric
  pub points : List (Point F)

pub data QueryResult (F : Type 0) : Type 0 where
  unset : QueryResult F
  scalar : Point F → QueryResult F
  vector : List (Sample F) → QueryResult F
  matrix : List (Series F) → QueryResult F

-- The result of a range query: no result, or a matrix.
pub data RangeResult (F : Type 0) : Type 0 where
  unset_range : RangeResult F
  matrix_range : List (Series F) → RangeResult F

-- An entry of a point in JSON: a number by its text, or a text.
pub data Item : Type 0 where
  number text : String → Item

pub record JsonSample : Type 0 where
  pub metric : Metric
  pub value : List Item

pub record JsonSeries : Type 0 where
  pub metric : Metric
  pub values : List (List Item)

-- The raw message of a result, by its shape; `absent` is a nil message. An array without entries
-- has every shape. Messages of other shapes are left out.
pub data RawMessage : Type 0 where
  absent : RawMessage
  point : List Item → RawMessage
  samples : List JsonSample → RawMessage
  serieses : List JsonSeries → RawMessage

pub record ResultData : Type 0 where
  pub result_type : String
  pub result : RawMessage

pub record JsonResult : Type 0 where
  pub status : String
  pub data_ : ResultData

-- What is used of strconv, fmt and encoding/json: the parse of a float; its text with three digits
-- behind the dot, and its shortest text; whether JSON takes a text for a number, and the number.
pub record FloatLib (F : Type 0) : Type 0 where
  pub parse_float : String → Option F
  pub fixed : F → String
  pub shortest : F → String
  pub is_number : String → Bool
  pub to_number : String → Option F
  pub parse_float-shortest : (x : F) → parse_float (shortest x) ≡ some x
  pub to_number-fixed :
      (x : F)
      → is_number (fixed x) ≡ true
      → (y : F) × (to_number (fixed x) ≡ some y) × (fixed y ≡ fixed x)

-- A loop that ends at the first error.
unfoldable pub each {ℓ κ} : {A : Type ℓ} {B : Type κ} → (A → Option B) → List A → Option (List B)
each f [] = some []
each f (a ∷ l) = do b ← f a; bs ← each f l; some (b ∷ bs)

module _ {F : Type 0} (lib : FloatLib F) where
  -- The formatted time is a raw message, which json.Marshal refuses unless it is JSON.
  unfoldable pub assemble_point : Point F → Option (List Item)
  assemble_point p = do
    t ← lib.parse_float p.time
    if lib.is_number (lib.fixed t)
        then some (number (lib.fixed t) ∷ text (lib.shortest p.value) ∷ [])
        else none

  abbrev pub or_empty : Metric → Metric
  or_empty m = elim m [ none ↦ some [] | some labels ↦ some labels ]

  unfoldable pub assemble_scalar : Point F → Option ResultData
  unfolding assemble_point
  assemble_scalar p = do
    items ← assemble_point p
    some (record { result_type = "scalar"; result = point items })

  unfoldable pub assemble_sample : Sample F → Option JsonSample
  unfolding assemble_point
  assemble_sample s = do
    items ← assemble_point s.point
    some (record { metric = or_empty s.metric; value = items })

  unfoldable pub assemble_vector : List (Sample F) → Option ResultData
  unfolding each assemble_sample
  assemble_vector v = do
    l ← each assemble_sample v
    some (record { result_type = "vector"; result = samples l })

  unfoldable pub assemble_series : Series F → Option JsonSeries
  unfolding each assemble_point
  assemble_series s = do
    values ← each assemble_point s.points
    some (record { metric = or_empty s.metric; values = values })

  unfoldable pub assemble_matrix : List (Series F) → Option ResultData
  unfolding each assemble_series
  assemble_matrix v = do
    l ← each assemble_series v
    some (record { result_type = "matrix"; result = serieses l })

  unfoldable pub assemble_data : QueryResult F → Option ResultData
  unfolding assemble_scalar assemble_vector assemble_matrix
  assemble_data unset = some (record { result_type = ""; result = absent })
  assemble_data (scalar p) = assemble_scalar p
  assemble_data (vector v) = assemble_vector v
  assemble_data (matrix v) = assemble_matrix v

  unfoldable pub assemble_instant_query_result : QueryResult F → Option JsonResult
  unfolding assemble_data
  assemble_instant_query_result v = do
    d ← assemble_data v
    some (record { status = "success"; data_ = d })

  -- A number that does not fit a float64 is an error of json.Unmarshal.
  unfoldable pub disassemble_point : List Item → Option (Point F)
  disassemble_point (number n ∷ text v ∷ []) = do
    t ← lib.to_number n
    x ← lib.parse_float v
    some (record { time = lib.fixed t; value = x })
  disassemble_point _ = none

  unfoldable pub unmarshal_scalar : RawMessage → Option (QueryResult F)
  unfolding disassemble_point
  unmarshal_scalar (point items) = do p ← disassemble_point items; some (scalar p)
  unmarshal_scalar _ = none

  unfoldable pub disassemble_sample : JsonSample → Option (Sample F)
  unfolding disassemble_point
  disassemble_sample s = do
    p ← disassemble_point s.value
    some (record { metric = s.metric; point = p })

  unfoldable pub unmarshal_vector : RawMessage → Option (QueryResult F)
  unfolding each disassemble_sample
  unmarshal_vector (samples l) = do v ← each disassemble_sample l; some (vector v)
  unmarshal_vector (point []) = some (vector [])
  unmarshal_vector (serieses []) = some (vector [])
  unmarshal_vector _ = none

  unfoldable pub disassemble_series : JsonSeries → Option (Series F)
  unfolding each disassemble_point
  disassemble_series s = do
    points ← each disassemble_point s.values
    some (record { metric = s.metric; points = points })

  -- json.Unmarshal leaves a field out that is not in the message: a sample has no `values`.
  unfoldable pub unmarshal_matrix : RawMessage → Option (List (Series F))
  unfolding each disassemble_series
  unmarshal_matrix (serieses l) = each disassemble_series l
  unmarshal_matrix (samples l) = some (map (λ s. record { metric = s.metric; points = [] }) l)
  unmarshal_matrix (point []) = some []
  unmarshal_matrix _ = none

  unfoldable pub disassemble_instant_query_result : JsonResult → Option (QueryResult F)
  unfolding unmarshal_scalar unmarshal_vector unmarshal_matrix
  disassemble_instant_query_result q =
      if str_eq q.data_.result_type "scalar"
      then unmarshal_scalar q.data_.result
      else if str_eq q.data_.result_type "vector"
      then unmarshal_vector q.data_.result
      else if str_eq q.data_.result_type "matrix"
      then Option.map matrix (unmarshal_matrix q.data_.result)
      else none

  unfoldable pub assemble_range_query_result : RangeResult F → Option JsonResult
  unfolding assemble_matrix
  assemble_range_query_result unset_range =
      some (record { status = "success"; data_ = record { result_type = ""; result = absent } })
  assemble_range_query_result (matrix_range v) = do
    d ← assemble_matrix v
    some (record { status = "success"; data_ = d })

  unfoldable pub disassemble_range_query_result : JsonResult → Option (RangeResult F)
  unfolding unmarshal_matrix
  disassemble_range_query_result q =
      if str_eq q.data_.result_type "matrix"
      then Option.map matrix_range (unmarshal_matrix q.data_.result)
      else none
