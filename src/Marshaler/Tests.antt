-- ===== src/Marshaler/Tests.antt =====
-- The marshaler with texts for the floating point numbers, all of which have three digits.
use log_cache.Common.{◌≡◌, refl, String, true, none, some, [], ◌∷◌}
use log_cache.Marshaler.{
  QueryResult, vector, samples, number, text, JsonResult, FloatLib, assemble_instant_query_result,
  disassemble_instant_query_result,
}
use log_cache.Marshaler.RoundTrip.{
  rounded, disassemble_instant_query_result-assemble_instant_query_result,
}

abbrev texts : FloatLib String
texts = record {
  parse_float = some;
  fixed = λ x. x;
  shortest = λ x. x;
  is_number = λ n. true;
  to_number = some;
  parse_float-shortest = λ x. refl;
  to_number-fixed = λ x h. (x, refl, refl);
}

abbrev hits : QueryResult String
hits = vector (record { metric = none; point = record { time = "1.000"; value = "7" } } ∷ [])

abbrev response : JsonResult
response = record {
  status = "success";
  data_ = record {
    result_type = "vector";
    result = samples (record { metric = some []; value = number "1.000" ∷ text "7" ∷ [] } ∷ []);
  };
}

assembled : assemble_instant_query_result texts hits ≡ some response
unfolding assemble_instant_query_result
assembled = refl

disassemble_instant_query_result-assemble_instant_query_result_example :
    disassemble_instant_query_result texts response ≡ rounded texts hits
disassemble_instant_query_result-assemble_instant_query_result_example =
    disassemble_instant_query_result-assemble_instant_query_result texts hits response assembled
