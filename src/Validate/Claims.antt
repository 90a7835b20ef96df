-- ===== src/Validate/Claims.antt =====
-- The claim of completeness that the ledger supports: rank, worst, per_block_completeness, aggregate
-- (crates/chat/src/engine/validate.rs).
use fineract_ai_backend.Prelude.{
  ℕ, zero, suc, String, Bool, Option, none, some, List, [], ◌∷◌, map, coalesce, ◌>>=◌, ◌+◌,
  if◌then◌else◌,
}
use Prim.Native.Nat.{max}
use text.Mathlib.Text.{◌==◌ as str_eq}
use fineract_ai_backend.Prelude.Json.{Json, Fields, get_str, get_array, as_str}
use fineract_ai_backend.Prelude.Sorted.{map_get, map_insert, map_values}
use fineract_ai_backend.Store.Vocabulary.{Completeness, completeness_text}

abbrev pub completeness_names : List String
completeness_names = "Complete" ∷ "Partial" ∷ "Unknown" ∷ []

-- The facts of the durable ledger, from which the composer's claims are computed again.
pub record Ledger : Type 0 where
  pub contributors : List (String × String)
  pub auto_bound : List String
  pub derivations : List Json
  pub parameters : List Json
  pub outputs : List (String × List Fields)

module _ {ℓ} {A : Type ℓ} where
  -- Iterator::position
  unfoldable pub position : (A → Bool) → List A → Option ℕ
  position test [] = none
  position test (x ∷ xs) = if test x then some 0 else (position test xs >>= λ i. some (i + 1))

-- `Complete < Partial < Unknown`; a text that is none of them ranks as Unknown.
unfoldable pub rank : String → ℕ
unfolding position
rank value = coalesce (position (λ known. str_eq known value) completeness_names) 2

-- `COMPLETENESS[severity]`; a severity is at most 2.
abbrev pub completeness_at : ℕ → Completeness
completeness_at zero = Completeness.complete
completeness_at (suc zero) = Completeness.partial
completeness_at (suc (suc n)) = Completeness.unknown

unfoldable pub severity : List String → ℕ → ℕ
severity [] s = s
severity (value ∷ values) s = severity values (max s (rank value))

unfoldable pub worst : List String → Completeness
unfolding severity
worst [] = Completeness.unknown
worst (value ∷ values) = completeness_at (severity (value ∷ values) 0)

abbrev pub block_id : Json → String
block_id block = coalesce (get_str "block_id" block) ""

abbrev pub first_some {ℓ} : {A : Type ℓ} → Option A → Option A → Option A
first_some none o = o
first_some (some a) o = some a

-- The identity of a contributor in an entry of derived_from.
unfoldable pub contributor_key : Json → Option String
contributor_key reference =
    first_some (first_some (get_str "node_run_id" reference) (get_str "dataset_id" reference))
      (as_str reference)

abbrev pub contribution : Ledger → Json → String
contribution ledger reference =
    coalesce (contributor_key reference >>= λ key. map_get key ledger.contributors) "Unknown"

abbrev pub contributions : Ledger → List Json → List String
contributions ledger [] = []
contributions ledger (reference ∷ refs) = contribution ledger reference ∷ contributions ledger refs

abbrev pub note_block :
    Ledger
    → String
    → Option (List Json)
    → List (String × Completeness)
    → List (String × Completeness)
note_block ledger id none per_block = per_block
note_block ledger id (some refs) per_block =
    map_insert id (worst (contributions ledger refs)) per_block

unfoldable pub per_block_from :
    Ledger → List Json → List (String × Completeness) → List (String × Completeness)
per_block_from ledger [] per_block = per_block
per_block_from ledger (block ∷ blocks) per_block =
    per_block_from ledger blocks
      (note_block ledger (block_id block) (get_array "derived_from" block) per_block)

-- Each block that has derived_from is as complete as the worst of its contributors.
unfoldable pub per_block_completeness : List Json → Ledger → List (String × Completeness)
unfolding per_block_from
per_block_completeness blocks ledger = per_block_from ledger blocks []

-- A document is as complete as the worst of its blocks.
unfoldable pub aggregate : List (String × Completeness) → Completeness
aggregate per_block = worst (map completeness_text (map_values per_block))
