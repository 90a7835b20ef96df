-- ===== src/Validate/Charts.antt =====
-- Whether the ledger's rows have the shape that a chart declares: chart_problem
-- (crates/chat/src/engine/validate.rs) and time_series_incompatibility
-- (crates/chat/src/engine/compose.rs).
use Prim.Native.Nat.{Ordering}
use Prim.Native.String.{compare}
use text.Mathlib.Text.{◌==◌ as str_eq}
use fineract_ai_backend.Prelude.{
  ℕ, String, Bool, true, false, not, ◌&&◌, Option, none, some, List, [], ◌∷◌, map, any, length, ltb,
  is_none, is_some, ◌>>=◌, if◌then◌else◌,
}
use fineract_ai_backend.Prelude.Json.{Json, Fields, get_str, get_array, lookup_field}
use fineract_ai_backend.Prelude.Sorted.{map_get}
use fineract_ai_backend.Validate.Claims.{Ledger, contributor_key}

-- `<=` on texts
abbrev text_leb : String → String → Bool
text_leb a b = elim (compare a b) [ Ordering.gt ↦ false | _ ↦ true ]

-- `windows(2).all(|pair| pair[0] <= pair[1])`
unfoldable pub is_ordered : List String → Bool
is_ordered [] = true
is_ordered (a ∷ []) = true
is_ordered (a ∷ b ∷ bs) = text_leb a b && is_ordered (b ∷ bs)

-- Vec::dedup: a text equal to the one before it is dropped.
unfoldable pub dedup : List String → List String
dedup [] = []
dedup (a ∷ []) = a ∷ []
dedup (a ∷ b ∷ bs) = let rest = dedup (b ∷ bs) in if str_eq a b then rest else a ∷ rest

abbrev time_series_min_points : ℕ
time_series_min_points = 2

-- Value::to_string is serde_json's.
module _ (to_string : Json → String) where
  abbrev cell_of : Option Json → String
  cell_of none = ""
  cell_of (some value) = to_string value

  unfoldable pub cell : String → Fields → String
  cell key row = cell_of (lookup_field key row)

  -- `none`: the rows can be drawn over time.
  unfoldable pub time_series_incompatibility : String → List Fields → Option String
  unfolding cell is_ordered dedup
  time_series_incompatibility time_dimension rows =
      let points = map (cell time_dimension) rows in
      if any (λ row. is_none (lookup_field time_dimension row)) rows
      then some "the required time dimension column is absent"
      else if not (is_ordered points)
      then some "the time dimension is not ordered"
      else if ltb (length (dedup points)) time_series_min_points
      then some "the result has fewer than two points on the time dimension"
      else none

  abbrev pub rows_problem : String → Option (List Fields) → Option String
  rows_problem time_dimension none = some "data rujukan tidak ada di ledger"
  rows_problem time_dimension (some rows) = time_series_incompatibility time_dimension rows

  abbrev pub reference_problem : Ledger → String → Json → Option String
  reference_problem ledger time_dimension reference =
      rows_problem time_dimension (contributor_key reference >>= λ key. map_get key ledger.outputs)

  -- `iter().find_map(…)`
  abbrev pub refs_problem : Ledger → String → List Json → Option String
  refs_problem ledger time_dimension [] = none
  refs_problem ledger time_dimension (reference ∷ refs) =
      let problem = reference_problem ledger time_dimension reference in
      if is_some problem then problem else refs_problem ledger time_dimension refs

  abbrev pub dimension_problem : Ledger → Option String → Option (List Json) → Option String
  dimension_problem ledger none refs = some "time_dimension tidak dideklarasikan"
  dimension_problem ledger (some time_dimension) none = none
  dimension_problem ledger (some time_dimension) (some refs) =
      refs_problem ledger time_dimension refs

  abbrev pub is_time_series : Option String → Bool
  is_time_series none = false
  is_time_series (some chart_type) = str_eq chart_type "time_series"

  unfoldable pub chart_problem : Json → Ledger → Option String
  unfolding time_series_incompatibility
  chart_problem block ledger =
      if is_time_series (get_str "chart_type" block)
      then dimension_problem ledger (get_str "time_dimension" block)
          (get_array "derived_from" block)
      else some "chart_type bukan time_series"
