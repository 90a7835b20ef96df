-- ===== src/Validate/Apply.antt =====
-- The served document: apply, fallback (crates/chat/src/engine/validate.rs) and block
-- (crates/chat/src/engine/compose.rs).
use fineract_ai_backend.Prelude.{
  String, Bool, true, false, not, Option, none, some, List, [], ◌∷◌, ◌++◌, map, any, where_rows,
  length, if◌then◌else◌,
}
use fineract_ai_backend.Prelude.Json.{
  Json, bool, num, str, arr, obj, array, field, end, Fields, insert_field, optional,
}
use fineract_ai_backend.Prelude.Sorted.{contains_text, sorted_set, join, decimal, concat_texts}
use fineract_ai_backend.Store.Vocabulary.{Completeness, Outcome, completeness_text}
use fineract_ai_backend.Engine.Settle.{SettledResponse, Validated}
use fineract_ai_backend.Validate.Claims.{Ledger, worst, block_id, per_block_completeness, aggregate}
use fineract_ai_backend.Validate.Evidence.{block_type}
use fineract_ai_backend.Validate.Rules.{
  Failure, block_schema_version, data_blocks, some_texts, blocks_of, failures,
}

abbrev payload_fields : Json → Fields
payload_fields (obj fields) = fields
payload_fields _ = end

abbrev with_refs : List Json → Fields → Fields
with_refs [] fields = fields
with_refs (ref ∷ refs) fields = insert_field "derived_from" (arr (array (ref ∷ refs))) fields

-- compose::block
unfoldable pub block : String → String → List Json → Json → Json
block id type derived_from payload = obj (
    with_refs derived_from (
      insert_field "schema_version" (num block_schema_version) (
        insert_field "type" (str type)
          (insert_field "block_id" (str id) (payload_fields payload)))))

abbrev rule_of : Failure → String
rule_of failure = failure.rule

abbrev pub id_of : Failure → Option String
id_of failure = failure.block_id

-- The blocks that a failure names.
abbrev pub dropped : List Failure → List String
dropped failures = sorted_set (some_texts (map id_of failures))

abbrev pub is_kept : List Failure → Json → Bool
is_kept failures block = not (contains_text (block_id block) (dropped failures))

unfoldable pub kept_blocks : List Failure → List Json → List Json
kept_blocks failures = where_rows (is_kept failures)

abbrev rules_of : List Failure → List String
rules_of failures = sorted_set (map rule_of failures)

-- The derived Serialize of a failure.
abbrev failure_json : Failure → Json
failure_json failure = obj (
    field "rule" (str failure.rule)
      (field "block_id" (optional str failure.block_id) (field "detail" (str failure.detail) end)))

-- The block that says what was dropped, and why.
unfoldable pub withheld_block : List Failure → Json
unfolding block
withheld_block failures = block "validation_rejected" "limitation" [] (
    obj (
      field "title" (str "Part of this answer was withheld") (
        field "body"
          (str (
            concat_texts (
              "The composed answer failed "
              ∷ decimal (length failures)
              ∷ " check(s) against the durable ledger, so "
              ∷ decimal (length (dropped failures))
              ∷ " block(s) were dropped and the remaining claim was recomputed."
              ∷ [])))
          (field "failed_rules" (arr (array (map str (rules_of failures))))
            (field "failures" (arr (array (map failure_json failures))) end)))))

abbrev pub presents_data : Json → Bool
presents_data block = contains_text (block_type block) data_blocks

-- The digest is `hex::encode(Sha256::digest(blocks.to_string()))`.
unfoldable pub fallback :
    (Json → String) → SettledResponse → List Failure → Ledger → SettledResponse
unfolding kept_blocks withheld_block
fallback digest rejected failures ledger =
    let kept = kept_blocks failures (blocks_of rejected.blocks) ++ withheld_block failures ∷ [] in
    let has_data = any presents_data kept in
    let recomputed = aggregate (per_block_completeness kept ledger) in
    let blocks = arr (array kept) in
    record {
      kind = if has_data then rejected.kind else "limitation";
      outcome = if has_data then rejected.outcome else Outcome.unsupported;
      completeness =
          if has_data
          then worst (completeness_text recomputed ∷ completeness_text rejected.completeness ∷ [])
          else Completeness.unknown;
      completeness_reason = concat_texts ("validation_failed:" ∷ join "+" (rules_of failures) ∷ []);
      blocks = blocks;
      evidence = rejected.evidence;
      response_hash = digest blocks;
    }

abbrev completeness_fields : List (String × Completeness) → Fields
completeness_fields [] = end
completeness_fields ((id, value) ∷ entries) =
    field id (str (completeness_text value)) (completeness_fields entries)

abbrev pub report_of :
    Completeness → SettledResponse → List (String × Completeness) → List Failure → Json
report_of computed response per_block failures = obj (
    field "checked" (bool true) (
      field "computed_completeness" (str (completeness_text computed)) (
        field "claimed_completeness" (str (completeness_text response.completeness)) (
          field "block_completeness" (obj (completeness_fields per_block))
            (field "failures" (arr (array (map failure_json failures))) end)))))

-- Validated::unchecked
unfoldable pub unchecked : SettledResponse → Validated
unchecked response = record {
  served = response;
  rejected = none;
  report = obj (field "checked" (bool false) (field "reason" (str "no_data_blocks") end));
}

unfoldable pub conclude :
    (Json → String) → SettledResponse → Ledger → Json → List Failure → Validated
unfolding fallback
conclude digest response ledger report [] = record {
  served = response;
  rejected = none;
  report = report;
}
conclude digest response ledger report (failure ∷ failures) = record {
  served = fallback digest response (failure ∷ failures) ledger;
  rejected = some response;
  report = report;
}

unfoldable pub apply : (Json → String) → (Json → String) → SettledResponse → Ledger → Validated
unfolding conclude
apply digest to_string response ledger =
    let per_block = per_block_completeness (blocks_of response.blocks) ledger in
    let computed = aggregate per_block in
    let failures = failures to_string response ledger computed per_block in
    conclude digest response ledger (report_of computed response per_block failures) failures
