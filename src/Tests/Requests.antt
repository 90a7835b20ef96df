-- ===== src/Tests/Requests.antt =====
-- Probe results and requests on which the theorems of the freshness verdict and of the guard against
-- writes are applied.
use Prim.Native.Char.{code}
use fineract_ai_backend.Prelude.{
  ℕ, ◌≡◌, refl, ◌↔◌, String, true, false, ◌&&◌, ◌||◌, Option, some, [], ◌∷◌, ◌++◌, leb,
}
use fineract_ai_backend.Prelude.Json.{num, str, Fields, field, end}
use fineract_ai_backend.Store.Vocabulary.{Completeness}
use fineract_ai_backend.Validate.Numerals.{chars}
use fineract_ai_backend.Freshness.Assess.{Executed, rows, for_rows, gather}
use fineract_ai_backend.Freshness.Lowered.{
  FreshnessProbes, cap_rows, lowered_claim, combined_completeness, analysis_completeness,
}
use fineract_ai_backend.Freshness.Reported.{Fits, AreProved, analysis-complete}
use fineract_ai_backend.WriteIntent.Words.{Unicode, tokenize}
use fineract_ai_backend.WriteIntent.Guard.{sql_write, scheduler_rerun, is_write_request}
use fineract_ai_backend.WriteIntent.Hidden.{is_write_request-around}

abbrev batch_row : String → Fields
batch_row status =
    field "cob_date" (str "2026-09-07")
      (field "latest_run_id" (num 307177) (field "latest_run_status" (str status) end))

abbrev coverage_row : ℕ → Fields
coverage_row behind = field "in_scope_loans" (num 87) (field "loans_behind_cob" (num behind) end)

abbrev day_of : String → Option ℕ
day_of text = some 20000

abbrev coverage_query : ℕ → ℕ → Executed
coverage_query behind cob_date = rows (coverage_row behind ∷ [])

-- A successful run proves nothing while a loan is behind.
verdicts :
    ((gather day_of "COB" (rows (batch_row "success" ∷ [])) (coverage_query 0)).completeness
      ≡ Completeness.complete)
    × ((gather day_of "COB" (rows (batch_row "success" ∷ [])) (coverage_query 3)).completeness
        ≡ Completeness.partial)
    × ((gather day_of "COB" (rows []) (coverage_query 0)).completeness ≡ Completeness.unknown)
    × ((for_rows
          (gather day_of "COB" (rows (batch_row "failed" ∷ [])) (coverage_query 0))
          0).completeness
        ≡ Completeness.unknown)
unfolding gather for_rows
verdicts = (refl, refl, refl, refl)

abbrev probes : FreshnessProbes
probes = record {
  batch_job = "COB";
  batch_query = rows (batch_row "success" ∷ []);
  coverage_query = coverage_query 0;
}

-- One row is cut off at the cap of two: the analysis is partial although the probes prove it.
cut :
    ((analysis_completeness {A = ℕ} day_of "loans" (some 2) (some probes) (1 ∷ 2 ∷ 3 ∷ [])).0
      ≡ Completeness.partial)
    × ((analysis_completeness {A = ℕ} day_of "loans" (some 2) (some probes) (1 ∷ 2 ∷ [])).0
        ≡ Completeness.complete)
unfolding analysis_completeness combined_completeness lowered_claim cap_rows gather for_rows
cut = (refl, refl)

analysis-complete_example :
    ((analysis_completeness {A = ℕ} day_of "loans" (some 2) (some probes) (1 ∷ 2 ∷ [])).0
      ≡ Completeness.complete)
    ↔ Fits {A = ℕ} (some 2) (1 ∷ 2 ∷ []) × AreProved day_of (some probes)
analysis-complete_example =
    analysis-complete {A = ℕ} day_of "loans" (some 2) (some probes) (1 ∷ 2 ∷ [])

abbrev ascii : Unicode
ascii = record {
  is_alphanumeric = λ c.
      (leb b'0' (code c) && leb (code c) b'9')
      || ((leb b'A' (code c) && leb (code c) b'Z') || (leb b'a' (code c) && leb (code c) b'z'));
  to_lowercase = λ cs. cs;
}

refused :
    (is_write_request ascii (chars "please delete all clients") ≡ true)
    × (is_write_request ascii (chars "show failed jobs and rerun them") ≡ true)
    × (is_write_request ascii (chars "update the chart") ≡ false)
    × (is_write_request ascii (chars "how many clients per office") ≡ false)
unfolding is_write_request
refused = (refl, refl, refl, refl)

statement :
    (sql_write (tokenize ascii (chars "drop table x"))
      || scheduler_rerun (tokenize ascii (chars "drop table x")))
    ≡ true
unfolding sql_write tokenize scheduler_rerun
statement = refl

is_write_request-around_example :
    is_write_request ascii
      (chars "show loans" ++ ";" ∷ (chars "drop table x" ++ ";" ∷ chars "and thanks"))
    ≡ true
is_write_request-around_example =
    is_write_request-around ascii (chars "show loans") (chars "drop table x") (chars "and thanks")
      ";" ";" refl refl statement
