-- ===== src/Freshness/Lowered.antt =====
-- The completeness that an analysis is reported with: cap_rows, lowered_claim and
-- combined_completeness (crates/chat/src/engine/compose.rs), and the worker's calls of them
-- (crates/chat/src/engine/worker.rs).
use Prim.Native.String.{◌++◌}
use fineract_ai_backend.Prelude.{
  ℕ, zero, suc, String, Option, none, some, List, [], ◌∷◌, leb, length, coalesce, if◌then◌else◌,
}
use fineract_ai_backend.Store.Vocabulary.{Completeness}
use fineract_ai_backend.Freshness.Assess.{Claim, Executed, for_rows, gather}

abbrev pub row_cap_reached : String
row_cap_reached = "row_cap_reached"

-- The rows were cut to the cap.
pub record RowCapReached : Type 0 where
  pub row_cap : ℕ

-- Vec::truncate
abbrev pub truncate {ℓ} : {A : Type ℓ} → ℕ → List A → List A
truncate n [] = []
truncate zero (x ∷ xs) = []
truncate (suc n) (x ∷ xs) = x ∷ truncate n xs

-- The rows that are left, and whether any were cut. `cap` is the plan's row cap, if it has one.
unfoldable pub cap_rows {ℓ} : {A : Type ℓ} → Option ℕ → List A → List A × Option RowCapReached
cap_rows none rows = (rows, none)
cap_rows (some cap) rows =
    if leb (length rows) cap
    then (rows, none)
    else (truncate cap rows, some (record { row_cap = cap }))

-- `filter(|claim| claim.completeness != "Complete")`, with its reason.
abbrev pub claim_lowers : Completeness → Option String → Option (Completeness × String)
claim_lowers Completeness.complete reason = none
claim_lowers Completeness.partial reason =
    some (Completeness.partial, coalesce reason "freshness_unproven")
claim_lowers Completeness.unknown reason =
    some (Completeness.unknown, coalesce reason "freshness_unproven")

abbrev pub cap_lowers : Option RowCapReached → Option (Completeness × String)
cap_lowers none = none
cap_lowers (some reached) = some (Completeness.partial, row_cap_reached)

abbrev pub or_cap :
    Option (Completeness × String) → Option RowCapReached → Option (Completeness × String)
or_cap none row_cap = cap_lowers row_cap
or_cap (some lowered) row_cap = some lowered

-- The freshness claim wins where it lowers.
unfoldable pub lowered_claim : Option RowCapReached → Option Claim → Option (Completeness × String)
lowered_claim row_cap none = cap_lowers row_cap
lowered_claim row_cap (some claim) = or_cap (claim_lowers claim.completeness claim.reason) row_cap

unfoldable pub combined_completeness :
    String → Option RowCapReached → Option Claim → Completeness × String
unfolding lowered_claim
combined_completeness query_id row_cap freshness =
    coalesce (lowered_claim row_cap freshness) (Completeness.complete, "curated_query:" ++ query_id)

-- The probes that a capability with a freshness declaration runs, with what each query gives.
pub record FreshnessProbes : Type 0 where
  pub batch_job : String
  pub batch_query : Executed
  pub coverage_query : ℕ → Executed

-- The claim of the declared probes over the rows that are left. `parse` reads a date.
abbrev pub freshness_of : (String → Option ℕ) → Option FreshnessProbes → ℕ → Option Claim
freshness_of parse none row_count = none
freshness_of parse (some p) row_count =
    some (for_rows (gather parse p.batch_job p.batch_query p.coverage_query) row_count)

-- What an executed analysis is composed with.
unfoldable pub analysis_completeness {ℓ} :
    {A : Type ℓ}
    → (String → Option ℕ)
    → String
    → Option ℕ
    → Option FreshnessProbes
    → List A
    → Completeness × String
unfolding cap_rows combined_completeness
analysis_completeness parse query_id cap declared rows =
    let (left, row_cap) = cap_rows cap rows in
    combined_completeness query_id row_cap (freshness_of parse declared (length left))
