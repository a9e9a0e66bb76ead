-- ===== src/Promql/Series/Collision.antt =====
-- internal/promql/promql.go, getSeriesID: tags that differ, under one id.
use Prim.Native.String.{◌++◌ as str_append}
use text.Mathlib.TextLemmas.{append-nil}
use log_cache.Common.{
  ◌≡◌, ◌≢◌, refl, sym, ap, ◌∙◌, String, true, false, List, [], ◌∷◌, ◌++◌, str_eq, eq_iff, lookup,
  insert, arith,
}
use log_cache.Promql.Series.{
  Tags, Reading, SeriesData, get_series_id, join_tags, add, add_all, build_series_set,
}

same_text : (k : String) → str_eq k k ≡ true
same_text k = (eq_iff k k).1 refl

other_text : (k l : String) → k ≢ l → str_eq k l ≡ false
other_text k l h = ground (arith, h, eq_iff k l)

-- The value that hides a second tag.
abbrev pub hiding : String → String → String → String
hiding v l w = str_append v (str_append "-" (str_append l (str_append "-" w)))

abbrev tag : String → String → String → String
tag k v rest = str_append "-" (str_append k (str_append "-" (str_append v rest)))

-- A reading under the id of the only series joins it.
add_same :
    {F : Type 0} (series_id : Tags → String) (id : String) (d : SeriesData F) (tags : Tags)
    (s : Reading F)
    → str_eq id (series_id tags) ≡ true
    → add series_id tags s ((id, d) ∷ [])
      ≡ (series_id tags, record d { points = d.points ++ (s ∷ []) }) ∷ []
unfolding add lookup insert
add_same series_id id d tags s h = rw (add, h, insert, h) refl

module _ (sort_strings : List String → List String) (k l v w : String) (differ : k ≢ l)
    (sort_one : sort_strings (k ∷ []) ≡ k ∷ [])
    (sort_two : sort_strings (k ∷ l ∷ []) ≡ k ∷ l ∷ []) where
  id_of_one : get_series_id sort_strings ((k, hiding v l w) ∷ []) ≡ tag k (hiding v l w) ""
  unfolding get_series_id join_tags lookup
  id_of_one = rw (get_series_id, sort_one, same_text k) refl

  id_of_two : get_series_id sort_strings ((k, v) ∷ (l, w) ∷ []) ≡ tag k v (tag l w "")
  unfolding get_series_id join_tags lookup
  id_of_two = rw (get_series_id, sort_two, same_text k, other_text k l differ, same_text l) refl

  hiding-tag : tag k (hiding v l w) "" ≡ tag k v (tag l w "")
  hiding-tag =
      ap (λ s. str_append "-" (str_append k (str_append "-" s)))
        (append-nil (hiding v l w)
          ∙ ap (λ s. str_append v (str_append "-" (str_append l (str_append "-" s))))
              (sym (append-nil w)))

  -- Let two keys differ, and let the sort leave a list of the first, and of the first and the
  -- second, as it is. Then two tags have the same id as one tag of which the value holds the rest
  -- of the id, and a builder keeps their readings as one series, under the labels that came first.
  pub get_series_id-collides :
      {F : Type 0} (r s : Reading F)
      → (get_series_id sort_strings ((k, hiding v l w) ∷ [])
          ≡ get_series_id sort_strings ((k, v) ∷ (l, w) ∷ []))
        × (build_series_set (
              add_all
                (get_series_id sort_strings)
                (((k, hiding v l w) ∷ [], r) ∷ ((k, v) ∷ (l, w) ∷ [], s) ∷ [])
                [])
            ≡ record { labels = (k, hiding v l w) ∷ []; points = r ∷ s ∷ [] } ∷ [])
  unfolding add_all add build_series_set lookup insert
  get_series_id-collides r s =
      let same = id_of_one ∙ hiding-tag ∙ sym id_of_two in
      (
        same,
        ap build_series_set (
            add_same (get_series_id sort_strings) _ (record { tags = _; points = r ∷ [] }) _ s
              ((eq_iff _ _).1 same)),
      )
