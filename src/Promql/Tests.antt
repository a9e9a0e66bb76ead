-- ===== src/Promql/Tests.antt =====
-- Queries on concrete inputs.
use log_cache.Common.{◌≡◌, refl, String, true, false, some, List, [], ◌∷◌, All, lookup}
use log_cache.Promql.Query.{contains, extract_source_ids, replace_source_id_sets}
use log_cache.Promql.Query.Extraction.{contains-All}
use log_cache.Promql.Query.Replacement.{Good, extract_source_ids-replace_source_id_sets}
use log_cache.Promql.Query.Texts.{bars, one_selector, has_bar}

abbrev guids : List String
guids = "g1" ∷ "g2" ∷ []

abbrev IsGuid : String → Type 0
IsGuid id = contains id guids ≡ true

IsGuid-has_bar : (id : String) → IsGuid id → bars.has_bar id ≡ false
unfolding bars has_bar
IsGuid-has_bar id h = contains-All (λ s. has_bar s ≡ false) id guids (refl, (refl, tt)) h

abbrev app_sets : List (String × List String)
app_sets = ("app", guids) ∷ []

found_app : extract_source_ids bars one_selector "~app" ≡ some ("app" ∷ [])
unfolding extract_source_ids bars one_selector contains
found_app = refl

app_is_Good : All (Good bars IsGuid app_sets) ("app" ∷ [])
unfolding contains lookup
app_is_Good = ((guids, refl, (λ e. cc), (refl, (refl, tt))), tt)

extract_source_ids-replace_source_id_sets_example :
    (query' : String) × (ids' : List String) × (replace_source_id_sets bars one_selector "~app"
        app_sets
      ≡ some query')
    × (extract_source_ids bars one_selector query' ≡ some ids')
    × All IsGuid ids'
extract_source_ids-replace_source_id_sets_example =
    extract_source_ids-replace_source_id_sets bars IsGuid IsGuid-has_bar one_selector app_sets
      "~app" ("app" ∷ []) found_app app_is_Good
