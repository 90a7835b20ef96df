-- ===== src/Validate/Drawn.antt =====
-- A chart without a failure of chart_failures can be drawn (crates/chat/src/engine/validate.rs).
use text.Mathlib.TextEquality.{eq_iff}
use fineract_ai_backend.Prelude.{
  ℕ, ◌≡◌, ◌≤◌, refl, ap, ◌⊎◌, inl, inr, String, Bool, true, false, not, ◌||◌, Option, none, some,
  List, [], ◌∷◌, map, All, any, length, arith, Bool-cases, is_some, is_none, ltb, ◌>>=◌,
  if◌then◌else◌,
}
use fineract_ai_backend.Prelude.Json.{Json, Fields, get_str, get_array, lookup_field}
use fineract_ai_backend.Prelude.Sorted.{contains_text, map_get}
use fineract_ai_backend.Validate.Claims.{Ledger, contributor_key}
use fineract_ai_backend.Validate.Evidence.{block_type}
use fineract_ai_backend.Validate.Rules.{data_blocks, chart_failure, chart_failures_of, is_chart}
use fineract_ai_backend.Validate.Charts.{
  cell, is_ordered, dedup, time_series_incompatibility, chart_problem, rows_problem,
  reference_problem, refs_problem, dimension_problem, is_time_series,
}
use fineract_ai_backend.Validate.Shape.{HasRefs, IsWellShaped}

-- A chart's rows: each has the column of the time dimension, whose values are in order, and two of
-- them differ.
abbrev pub IsDrawnOver : (Json → String) → String → List Fields → Type 0
IsDrawnOver to_string dimension rows =
    (any (λ row. is_none (lookup_field dimension row)) rows ≡ false)
    × (is_ordered (map (cell to_string dimension) rows) ≡ true)
    × (2 ≤ length (dedup (map (cell to_string dimension) rows)))

abbrev pub HasRows : (Json → String) → Ledger → String → Json → Type 0
HasRows to_string ledger dimension ref =
    (rows : List Fields) × ((contributor_key ref >>= λ key. map_get key ledger.outputs) ≡ some rows)
    × IsDrawnOver to_string dimension rows

-- A chart is a time series over a declared dimension, and the rows of each of its references are
-- in the ledger and can be drawn over it.
abbrev pub IsDrawable : (Json → String) → Ledger → Json → Type 0
IsDrawable to_string ledger b =
    (is_chart b ≡ false)
    ⊎ ((dimension : String) × (refs : List Json) × (get_str "chart_type" b ≡ some "time_series")
        × (get_str "time_dimension" b ≡ some dimension)
        × (get_array "derived_from" b ≡ some refs)
        × All (HasRows to_string ledger dimension) refs)

problem_parts :
    (absent unordered few : Bool) (a b c : String)
    → (if absent then some a else if unordered then some b else if few then some c else none) ≡ none
    → (absent ≡ false) × (unordered ≡ false) × (few ≡ false)
problem_parts true unordered few a b c h = cc
problem_parts false true few a b c h = cc
problem_parts false false true a b c h = cc
problem_parts false false false a b c h = (refl, refl, refl)

ltb-false : (a b : ℕ) → ltb a b ≡ false → b ≤ a
ltb-false a b h = ground arith

not-true : (b : Bool) → not b ≡ false → b ≡ true
not-true b h = ground arith

first_problem :
    (p q : Option String) → (if is_some p then p else q) ≡ none → (p ≡ none) × (q ≡ none)
first_problem none q h = (refl, h)
first_problem (some p) q h = cc

module _ (to_string : Json → String) (ledger : Ledger) (dimension : String) where
  incompatibility-none :
      (rows : List Fields)
      → time_series_incompatibility to_string dimension rows ≡ none
      → IsDrawnOver to_string dimension rows
  unfolding time_series_incompatibility
  incompatibility-none rows h =
      let points = map (cell to_string dimension) rows in
      let (present, ordered, enough) =
        problem_parts (any (λ row. is_none (lookup_field dimension row)) rows)
          (not (is_ordered points)) (ltb (length (dedup points)) 2) _ _ _ h in
      (present, not-true _ ordered, ltb-false (length (dedup points)) 2 enough)

  rows_problem-none :
      (found : Option (List Fields))
      → rows_problem to_string dimension found ≡ none
      → (rows : List Fields) × (found ≡ some rows) × IsDrawnOver to_string dimension rows
  rows_problem-none none h = cc
  rows_problem-none (some rows) h = (rows, refl, incompatibility-none rows h)

  refs_problem-none :
      (refs : List Json)
      → refs_problem to_string ledger dimension refs ≡ none
      → All (HasRows to_string ledger dimension) refs
  refs_problem-none [] h = tt
  refs_problem-none (ref ∷ refs) h =
      let (here, rest) = first_problem (reference_problem to_string ledger dimension ref) _ h in
      (
        rows_problem-none (contributor_key ref >>= λ key. map_get key ledger.outputs) here,
        refs_problem-none refs rest,
      )

typed_series :
    (to_string : Json → String) (o : Option String)
    → is_time_series to_string o ≡ true
    → o ≡ some "time_series"
typed_series to_string none h = cc
typed_series to_string (some text) h = ap some ((eq_iff text "time_series").0 h)

dimension_problem-none :
    (to_string : Json → String) (ledger : Ledger) (o : Option String) (refs : List Json)
    → dimension_problem to_string ledger o (some refs) ≡ none
    → (dimension : String) × (o ≡ some dimension) × All (HasRows to_string ledger dimension) refs
dimension_problem-none to_string ledger none refs h = cc
dimension_problem-none to_string ledger (some dimension) refs h =
    (dimension, refl, refs_problem-none to_string ledger dimension refs h)

problem_branches :
    (test : Bool) (p : Option String) (text : String)
    → (if test then p else some text) ≡ none
    → (test ≡ true) × (p ≡ none)
problem_branches true p text h = (refl, h)
problem_branches false p text h = cc

chart_failure-nil : (b : Json) (p : Option String) → chart_failure b p ≡ [] → p ≡ none
chart_failure-nil b none h = refl
chart_failure-nil b (some text) h = cc

chart_problem-none :
    (to_string : Json → String) (ledger : Ledger) (b : Json)
    → HasRefs b
    → chart_problem to_string b ledger ≡ none
    → IsDrawable to_string ledger b
unfolding chart_problem
chart_problem-none to_string ledger b (ref, refs, e) h =
    let (series, sound) =
      problem_branches (is_time_series to_string (get_str "chart_type" b))
        (dimension_problem to_string ledger (get_str "time_dimension" b)
          (get_array "derived_from" b))
        _ h in
    let (dimension, declared, rows) =
      dimension_problem-none to_string ledger (get_str "time_dimension" b) (ref ∷ refs)
        (rw e at sound) in
    inr (dimension, ref ∷ refs, typed_series to_string _ series, declared, e, rows)

-- A chart is a data block, which needs references.
chart-needs_refs :
    (t : String) (b : Bool) → t ≡ "chart_spec" → (contains_text t data_blocks || b) ≡ true
chart-needs_refs t b e = rw e refl

chart_refs : (b : Json) → is_chart b ≡ true → IsWellShaped b → HasRefs b
chart_refs b chart (_, _, _, inr refs) = refs
chart_refs b chart (_, _, _, inl free) =
    cc (chart-needs_refs (block_type b) _ ((eq_iff _ _).0 chart), free)

pub chart_failures_of-nil :
    (to_string : Json → String) (ledger : Ledger) (b : Json)
    → IsWellShaped b
    → chart_failures_of to_string ledger b ≡ []
    → IsDrawable to_string ledger b
unfolding chart_failures_of
chart_failures_of-nil to_string ledger b shape h = elim (Bool-cases (is_chart b)) [
  | inl chart ↦
      chart_problem-none to_string ledger b (chart_refs b chart shape)
        (chart_failure-nil b _ (rw chart at h))
  | inr other ↦ inl other
]
