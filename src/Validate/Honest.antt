-- ===== src/Validate/Honest.antt =====
-- The claim of a served document against the ledger (D1 and section 6 of
-- crates/chat/src/engine/validate.rs).
use fineract_ai_backend.Prelude.{
  ℕ, ◌≤◌, ◌≡◌, refl, ap, String, Bool, true, false, List, [], ◌∷◌, ◌++◌, any, ltb, arith,
  if◌then◌else◌,
}
use fineract_ai_backend.Prelude.Json.{Json, array, items_list}
use fineract_ai_backend.Store.Vocabulary.{Completeness, completeness_text}
use fineract_ai_backend.Engine.Settle.{SettledResponse}
use fineract_ai_backend.Validate.Claims.{Ledger, rank, worst, per_block_completeness, aggregate}
use fineract_ai_backend.Validate.Worst.{badness, badness-le-unknown, worst-IsLeast}
use fineract_ai_backend.Validate.Rules.{
  Failure, failing, blocks_of, overclaim_failures, failures, shape_failures, chart_failures,
}
use fineract_ai_backend.Validate.Apply.{
  apply, conclude, fallback, kept_blocks, withheld_block, presents_data,
}

not_below : (a b : ℕ) → ltb a b ≡ false → b ≤ a
not_below a b h = ground arith

pub append-nil_parts {ℓ} : {A : Type ℓ} (xs ys : List A) → (xs ++ ys) ≡ [] → (xs ≡ []) × (ys ≡ [])
append-nil_parts [] ys h = (refl, h)
append-nil_parts (x ∷ xs) ys h = cc

pub failing-nil : (b : Bool) (failure : Failure) → failing b failure ≡ [] → b ≡ false
failing-nil false failure h = refl
failing-nil true failure h = cc

pub items_list-array : (xs : List Json) → items_list (array xs) ≡ xs
items_list-array [] = refl
items_list-array (x ∷ xs) = ap (λ ys. x ∷ ys) (items_list-array xs)

-- What the ledger computes for a document's blocks.
abbrev pub computed : Ledger → Json → ℕ
computed ledger blocks = badness (aggregate (per_block_completeness (blocks_of blocks) ledger))

-- A claim that covers both the ledger's and the composer's.
abbrev pub IsCovered : Ledger → Completeness → SettledResponse → Type 0
IsCovered ledger claimed served =
    (computed ledger served.blocks ≤ badness served.completeness)
    × (badness claimed ≤ badness served.completeness)

overclaim_failures-nil :
    (claimed c : Completeness) (per_block : List (String × Completeness))
    → overclaim_failures claimed c per_block ≡ []
    → badness c ≤ badness claimed
unfolding overclaim_failures
overclaim_failures-nil claimed c per_block h =
    not_below (badness claimed) (badness c) (failing-nil (ltb (badness claimed) (badness c)) _ h)

worst-covers :
    (a b : String) (k : ℕ)
    → k ≤ rank a
    → (k ≤ badness (worst (a ∷ b ∷ []))) × (rank b ≤ badness (worst (a ∷ b ∷ [])))
worst-covers a b k h =
    let (ha, (hb, _)) = (worst-IsLeast a (b ∷ []) (badness (worst (a ∷ b ∷ [])))).0 (omega arith) in
    (omega arith, hb)

-- A document with nothing to present claims Unknown, the worst there is.
fallback_claim :
    (has_data : Bool) (recomputed claimed : Completeness)
    → let c =
        if has_data
        then worst (completeness_text recomputed ∷ completeness_text claimed ∷ [])
        else Completeness.unknown in
      (badness recomputed ≤ badness c) × (badness claimed ≤ badness c)
fallback_claim true recomputed claimed = worst-covers _ _ _ (omega arith)
fallback_claim false recomputed claimed =
    (badness-le-unknown recomputed, badness-le-unknown claimed)

fallback-IsCovered :
    (digest : Json → String) (rejected : SettledResponse) (fs : List Failure) (ledger : Ledger)
    → IsCovered ledger rejected.completeness (fallback digest rejected fs ledger)
unfolding fallback
fallback-IsCovered digest rejected fs ledger =
    let kept = kept_blocks fs (blocks_of rejected.blocks) ++ withheld_block fs ∷ [] in
    rw (items_list-array kept) (
      fallback_claim (any presents_data kept) (aggregate (per_block_completeness kept ledger))
        rejected.completeness)

conclude-IsCovered :
    (digest : Json → String) (response : SettledResponse) (ledger : Ledger) (report : Json)
    (fs : List Failure)
    → (fs ≡ [] → computed ledger response.blocks ≤ badness response.completeness)
    → IsCovered ledger response.completeness (conclude digest response ledger report fs).served
unfolding conclude
conclude-IsCovered digest response ledger report [] h = (h refl, omega arith)
conclude-IsCovered digest response ledger report (f ∷ fs) h =
    fallback-IsCovered digest response (f ∷ fs) ledger

-- The document that is served never claims to be more complete than the ledger computes for the
-- blocks that it serves, nor than the composer claimed, whether it passed the checks or was replaced.
pub apply-IsCovered :
    (digest to_string : Json → String) (response : SettledResponse) (ledger : Ledger)
    → IsCovered ledger response.completeness (apply digest to_string response ledger).served
unfolding apply failures
apply-IsCovered digest to_string response ledger =
    conclude-IsCovered digest response ledger _ _ λ h.
      let rest =
        (append-nil_parts (chart_failures to_string (blocks_of response.blocks) ledger) _
          (append-nil_parts (shape_failures (blocks_of response.blocks)) _ h).1).1 in
      overclaim_failures-nil _ _ _ (append-nil_parts _ _ rest).0
