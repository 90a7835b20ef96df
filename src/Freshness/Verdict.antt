-- ===== src/Freshness/Verdict.antt =====
-- When a freshness claim is complete (crates/chat/src/engine/freshness.rs).
use text.Mathlib.Text.{◌==◌ as str_eq}
use text.Mathlib.TextEquality.{eq_iff}
use fineract_ai_backend.Prelude.{
  ℕ, ◌≡◌, refl, ap, ◌↔◌, inl, inr, String, Bool, true, false, Option, none, some, ◌==◌, is_none,
  Bool-cases, if◌then◌else◌,
}
use fineract_ai_backend.Prelude.Json.{Json, Fields, lookup_field}
use fineract_ai_backend.Store.Vocabulary.{Completeness}
use fineract_ai_backend.Freshness.Assess.{
  Probe, row, no_row, failed, Executed, probe, for_rows, raised, int_field, is_positive,
  is_observed, text_field, verdict, verdict_of_run, unknown, batch_facts, batch_latest_run_failed,
  batch_latest_status_unrecognized, assess_counts, assess_coverage, date_field, assess, gather,
  coverage_of, cob_date_of,
}

-- The batch's latest run is recorded as a success, and no loan in scope is behind.
abbrev pub IsCovered : Fields → Fields → Type 0
IsCovered batch coverage =
    (in_scope : Json) × (behind : Json) × (int_field coverage "in_scope_loans" ≡ some in_scope)
    × (int_field coverage "loans_behind_cob" ≡ some behind)
    × (is_positive behind ≡ false)
    × (is_observed (lookup_field "latest_run_id" batch) ≡ true)
    × (text_field batch "latest_run_status" ≡ some "success")

branches :
    Bool → Bool → Option String → Option String → Option String → Completeness × Option String
branches test other a b c =
    if test
    then (Completeness.complete, a)
    else if other
    then (Completeness.partial, b)
    else (Completeness.unknown, c)

first_branch :
    (test other : Bool) (a b c : Option String)
    → (branches test other a b c).0 ≡ Completeness.complete
    → test ≡ true
unfolding branches
first_branch true other a b c h = refl
first_branch false true a b c h = cc
first_branch false false a b c h = cc

verdict_of_run-complete :
    (observed : Bool) (status : Option String)
    → (verdict_of_run observed status).0 ≡ Completeness.complete
    → (observed ≡ true) × (status ≡ some "success")
unfolding branches
verdict_of_run-complete observed none h = cc
verdict_of_run-complete false (some status) h = cc
verdict_of_run-complete true (some status) h = (
  refl,
  ap some (
      (eq_iff status "success").0 (
        first_branch (str_eq status "success") (str_eq status "failed") none
          (some batch_latest_run_failed) (some batch_latest_status_unrecognized) h)),
)

not_behind :
    (positive : Bool) (reason : Option String) (x : Completeness × Option String)
    → (if positive then (Completeness.partial, reason) else x).0 ≡ Completeness.complete
    → (positive ≡ false) × (x.0 ≡ Completeness.complete)
not_behind true reason x h = cc
not_behind false reason x h = (refl, h)

verdict-complete :
    (batch : Fields) (behind : Json)
    → (verdict batch behind).0 ≡ Completeness.complete
    → (is_positive behind ≡ false)
      × (is_observed (lookup_field "latest_run_id" batch) ≡ true)
      × (text_field batch "latest_run_status" ≡ some "success")
unfolding verdict
verdict-complete batch behind h =
    let (free, run) = not_behind (is_positive behind) _ _ h in
    let (observed, status) =
      verdict_of_run-complete (is_observed (lookup_field "latest_run_id" batch))
        (text_field batch "latest_run_status") run in
    (free, observed, status)

complete-verdict :
    (batch : Fields) (behind : Json)
    → is_positive behind ≡ false
    → is_observed (lookup_field "latest_run_id" batch) ≡ true
    → text_field batch "latest_run_status" ≡ some "success"
    → (verdict batch behind).0 ≡ Completeness.complete
unfolding verdict
complete-verdict batch behind free observed status = rw (free, status, observed) refl

assess_counts-complete :
    (job : String) (batch coverage : Fields) (in_scope behind : Option Json)
    → (assess_counts job batch coverage in_scope behind).completeness ≡ Completeness.complete
    → (i : Json) × (b : Json) × (in_scope ≡ some i)
      × (behind ≡ some b)
      × (is_positive b ≡ false)
      × (is_observed (lookup_field "latest_run_id" batch) ≡ true)
      × (text_field batch "latest_run_status" ≡ some "success")
unfolding unknown
assess_counts-complete job batch coverage none behind h = cc
assess_counts-complete job batch coverage (some i) none h = cc
assess_counts-complete job batch coverage (some i) (some b) h =
    let (free, observed, status) = verdict-complete batch b h in
    (i, b, refl, refl, free, observed, status)

raised-complete :
    (rows : ℕ) (c : Completeness)
    → raised rows c ≡ Completeness.complete
    → c ≡ Completeness.complete
raised-complete rows Completeness.complete h = refl
raised-complete rows Completeness.partial h = elim (Bool-cases (rows == 0)) [
  | inl none_there ↦ cc (rw none_there at h)
  | inr some_there ↦ cc (rw some_there at h)
]
raised-complete rows Completeness.unknown h = cc

-- The two probes prove the analysis: the batch's row has a COB date, and the coverage query at that
-- date has a row that covers it.
abbrev pub IsProved : (String → Option ℕ) → Executed → (ℕ → Executed) → Type 0
IsProved parse batch_query coverage_query =
    (batch : Fields) × (coverage : Fields) × (cob_date : ℕ) × (probe batch_query ≡ row batch)
    × (date_field parse batch "cob_date" ≡ some cob_date)
    × (probe (coverage_query cob_date) ≡ row coverage)
    × IsCovered batch coverage

module _ (parse : String → Option ℕ) (job : String) (coverage_query : ℕ → Executed) where
  covered :
      (batch : Fields) (p : Probe)
      → (assess_coverage job batch p).completeness ≡ Completeness.complete
      → (coverage : Fields) × (p ≡ row coverage) × IsCovered batch coverage
  unfolding unknown
  covered batch (row coverage) h = (coverage, refl, assess_counts-complete job batch coverage _ _ h)
  covered batch no_row h = cc
  covered batch (failed code) h = cc

  dated :
      (batch : Fields) (day : Option ℕ)
      → (if is_none day
          then unknown job "cob_date_unavailable" (batch_facts batch)
          else assess_coverage job batch (coverage_of parse coverage_query day)).completeness
        ≡ Completeness.complete
      → (coverage : Fields) × (cob_date : ℕ) × (day ≡ some cob_date)
        × (probe (coverage_query cob_date) ≡ row coverage)
        × IsCovered batch coverage
  unfolding unknown
  dated batch none h = cc
  dated batch (some cob_date) h =
      let (coverage, e, proof) = covered batch (probe (coverage_query cob_date)) h in
      (coverage, cob_date, refl, e, proof)

  assess-complete :
      (batch : Probe)
      → (assess parse job batch
          (coverage_of parse coverage_query (cob_date_of parse batch))).completeness
        ≡ Completeness.complete
      → (b : Fields) × (c : Fields) × (cob_date : ℕ) × (batch ≡ row b)
        × (date_field parse b "cob_date" ≡ some cob_date)
        × (probe (coverage_query cob_date) ≡ row c)
        × IsCovered b c
  unfolding assess unknown
  assess-complete (row b) h =
      let (c, cob_date, e, e', proof) = dated b (date_field parse b "cob_date") h in
      (b, c, cob_date, refl, e, e', proof)
  assess-complete no_row h = cc
  assess-complete (failed code) h = cc

  proved-complete :
      (bq : Executed)
      → IsProved parse bq coverage_query
      → (gather parse job bq coverage_query).completeness ≡ Completeness.complete
  unfolding gather assess
  proved-complete bq (b, c, cob_date, e, dated_at, e', (i, n, hi, hn, free, observed, status)) =
      rw (e, dated_at, e', hi, hn) (complete-verdict b n free observed status)

-- A freshness claim is complete exactly when its two probes prove it, however many rows the answer has.
pub gather-complete :
    (parse : String → Option ℕ) (job : String) (batch_query : Executed)
    (coverage_query : ℕ → Executed) (row_count : ℕ)
    → ((for_rows (gather parse job batch_query coverage_query) row_count).completeness
        ≡ Completeness.complete)
      ↔ IsProved parse batch_query coverage_query
unfolding for_rows gather
gather-complete parse job batch_query coverage_query row_count = (
  λ h. assess-complete parse job coverage_query (probe batch_query) (raised-complete row_count _ h),
  λ proof. ap (raised row_count) (proved-complete parse job coverage_query batch_query proof),
)
