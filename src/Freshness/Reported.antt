-- ===== src/Freshness/Reported.antt =====
-- When an analysis is composed as complete, over its rows, its row cap and its freshness probes
-- (crates/chat/src/engine/compose.rs and the call of gather in worker.rs).
use Prim.Native.String.{◌++◌}
use fineract_ai_backend.Prelude.{
  ℕ, ◌≤◌, ◌≡◌, refl, ◌↔◌, inl, inr, String, Option, none, some, List, leb, length, coalesce, arith,
  Bool-cases,
}
use fineract_ai_backend.Store.Vocabulary.{Completeness}
use fineract_ai_backend.Freshness.Assess.{for_rows, gather}
use fineract_ai_backend.Freshness.Verdict.{IsProved, gather-complete}
use fineract_ai_backend.Freshness.Lowered.{
  RowCapReached, FreshnessProbes, cap_rows, cap_lowers, claim_lowers, or_cap, lowered_claim,
  combined_completeness, analysis_completeness,
}

-- The rows fit under the cap, where there is one.
abbrev pub Fits {ℓ} : {A : Type ℓ} → Option ℕ → List A → Type 0
Fits none rows = Unit {0}
Fits (some cap) rows = length rows ≤ cap

Fits-cap_rows {ℓ} :
    {A : Type ℓ} (cap : Option ℕ) (rows : List A) → ((cap_rows cap rows).1 ≡ none) ↔ Fits cap rows
unfolding cap_rows
Fits-cap_rows none rows = (λ _. tt, λ _. refl)
Fits-cap_rows (some cap) rows = elim (Bool-cases (leb (length rows) cap)) [
  | inl fits ↦ (λ _. ground arith, λ _. rw fits refl)
  | inr over ↦ (λ e. cc (rw over at e), λ h. absurd (ground arith))
]

-- The report is complete where neither the freshness claim nor the row cap lowers it.
not_lowered :
    (c : Completeness) (reason : Option String) (row_cap : Option RowCapReached) (text : String)
    → ((coalesce (or_cap (claim_lowers c reason) row_cap) (Completeness.complete, text)).0
        ≡ Completeness.complete)
      ↔ (row_cap ≡ none) × (c ≡ Completeness.complete)
not_lowered Completeness.complete reason none text = (λ _. (refl, refl), λ _. refl)
not_lowered Completeness.complete reason (some cap) text = (λ e. cc, λ h. cc h.0)
not_lowered Completeness.partial reason row_cap text = (λ e. cc, λ h. cc h.1)
not_lowered Completeness.unknown reason row_cap text = (λ e. cc, λ h. cc h.1)

not_capped :
    (row_cap : Option RowCapReached) (text : String)
    → ((coalesce (cap_lowers row_cap) (Completeness.complete, text)).0 ≡ Completeness.complete)
      ↔ (row_cap ≡ none)
not_capped none text = (λ _. refl, λ _. refl)
not_capped (some cap) text = (λ e. cc, λ e. cc)

-- The declared probes, if there are any, prove the analysis.
abbrev pub AreProved : (String → Option ℕ) → Option FreshnessProbes → Type 0
AreProved parse none = Unit {0}
AreProved parse (some p) = IsProved parse p.batch_query p.coverage_query

-- An analysis is composed as complete exactly when its rows fit under the row cap, where the plan has
-- one, and, where its capability declares freshness, the two probes prove it: the batch job has a row
-- with a COB date, the coverage query at that date has a row with both counts and no loan behind, and
-- the batch's latest run was observed and is recorded as a success.
pub analysis-complete {ℓ} :
    {A : Type ℓ} (parse : String → Option ℕ) (query_id : String) (cap : Option ℕ)
    (declared : Option FreshnessProbes) (rows : List A)
    → ((analysis_completeness parse query_id cap declared rows).0 ≡ Completeness.complete)
      ↔ Fits cap rows × AreProved parse declared
unfolding analysis_completeness combined_completeness lowered_claim
analysis-complete parse query_id cap none rows =
    let capped = not_capped (cap_rows cap rows).1 ("curated_query:" ++ query_id) in
    let fits = Fits-cap_rows cap rows in
    (λ e. (fits.0 (capped.0 e), tt), λ h. capped.1 (fits.1 h.0))
analysis-complete parse query_id cap (some p) rows =
    let (left, row_cap) = cap_rows cap rows in
    let claim = for_rows (gather parse p.batch_job p.batch_query p.coverage_query) (length left) in
    let lowered =
      not_lowered claim.completeness claim.reason row_cap ("curated_query:" ++ query_id) in
    let proved = gather-complete parse p.batch_job p.batch_query p.coverage_query (length left) in
    let fits = Fits-cap_rows cap rows in
    (
      λ e. (fits.0 (lowered.0 e).0, proved.0 (lowered.0 e).1),
      λ h. lowered.1 (fits.1 h.0, proved.1 h.1),
    )
