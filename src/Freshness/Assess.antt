-- ===== src/Freshness/Assess.antt =====
-- assess, gather and Claim::for_rows (crates/chat/src/engine/freshness.rs).
use text.Mathlib.Text.{◌==◌ as str_eq}
use fineract_ai_backend.Prelude.{
  ℕ, String, Bool, true, false, ◌&&◌, not, Option, none, some, List, [], ◌∷◌, ◌==◌, ltb, is_none,
  ◌>>=◌, if◌then◌else◌,
}
use fineract_ai_backend.Prelude.Json.{
  Json, null, num, real, str, obj, Fields, field, end, lookup_field, insert_field, as_str,
}
use fineract_ai_backend.Store.Vocabulary.{Completeness}
use fineract_ai_backend.Validate.Numerals.{Chars, chars, all_chars, is_ascii_digit, is_char}

-- The outcome of one probe query.
pub data Probe : Type 0 where
  row : Fields → Probe
  no_row : Probe
  failed : String → Probe

-- The verdict, with the facts that it was computed from and the queries that were sent.
pub record Claim : Type 0 where
  pub completeness : Completeness
  pub reason : Option String
  pub facts : Json
  pub queries_issued : ℕ

abbrev pub freshness_probe_failed : String
freshness_probe_failed = "freshness_probe_failed"

abbrev pub batch_job_not_registered : String
batch_job_not_registered = "batch_job_not_registered"

abbrev pub cob_date_unavailable : String
cob_date_unavailable = "cob_date_unavailable"

abbrev pub coverage_probe_failed : String
coverage_probe_failed = "coverage_probe_failed"

abbrev pub batch_coverage_incomplete : String
batch_coverage_incomplete = "batch_coverage_incomplete"

abbrev pub batch_latest_run_failed : String
batch_latest_run_failed = "batch_latest_run_failed"

abbrev pub batch_run_not_observed : String
batch_run_not_observed = "batch_run_not_observed"

abbrev pub batch_latest_status_unrecognized : String
batch_latest_status_unrecognized = "batch_latest_status_unrecognized"

-- An answer with no rows is never Partial.
abbrev pub raised : ℕ → Completeness → Completeness
raised rows Completeness.partial = if rows == 0 then Completeness.unknown else Completeness.partial
raised rows completeness = completeness

unfoldable pub for_rows : Claim → ℕ → Claim
for_rows claim row_count = record claim { completeness = raised row_count claim.completeness }

-- `json!(row.get(name))`: null where the column is absent.
abbrev value_or_null : Option Json → Json
value_or_null none = null
value_or_null (some value) = value

abbrev column : Fields → String → Json
column fields name = value_or_null (lookup_field name fields)

-- `facts[name] = value`
abbrev with_fact : String → Json → Json → Json
with_fact name value (obj facts) = obj (insert_field name value facts)
with_fact name value facts = facts

unfoldable pub with_job : String → Json → Json
with_job batch_job facts = with_fact "batch_job" (str batch_job) facts

unfoldable pub unknown : String → String → Json → Claim
unfolding with_job
unknown batch_job reason facts = record {
  completeness = Completeness.unknown;
  reason = some reason;
  facts = with_job batch_job facts;
  queries_issued = 0;
}

-- The text that prints a negative integer.
abbrev is_negative : Chars → Bool
is_negative [] = false
is_negative (c ∷ cs) = is_char b'-' c && all_chars is_ascii_digit cs

-- Value::as_i64, as the number itself; numbers of 2 ^ 63 and more are none.
abbrev as_i64 : Json → Option Json
as_i64 (num n) = if ltb n 9_223_372_036_854_775_808 then some (num n) else none
as_i64 (real text) = if is_negative (chars text) then some (real text) else none
as_i64 _ = none

abbrev pub int_field : Fields → String → Option Json
int_field fields name = lookup_field name fields >>= as_i64

-- `behind > 0`
abbrev pub is_positive : Json → Bool
is_positive (num n) = ltb 0 n
is_positive _ = false

abbrev pub is_null : Json → Bool
is_null null = true
is_null _ = false

-- `!row.get("latest_run_id").is_none_or(Value::is_null)`
abbrev pub is_observed : Option Json → Bool
is_observed none = false
is_observed (some value) = not (is_null value)

abbrev pub text_field : Fields → String → Option String
text_field fields name = lookup_field name fields >>= as_str

unfoldable pub batch_facts : Fields → Json
batch_facts batch = obj (
    field "job_id" (column batch "job_id") (
      field "job_is_active" (column batch "job_is_active") (
        field "latest_run"
          (obj (
            field "run_id" (column batch "latest_run_id") (
              field "start_time" (column batch "latest_run_start_time")
                (field "status" (column batch "latest_run_status") end))))
          (field "latest_success"
            (obj (
              field "run_id" (column batch "latest_success_run_id")
                (field "start_time" (column batch "latest_success_start_time") end)))
            (field "cob_date" (column batch "cob_date")
              (field "business_date" (column batch "business_date") end))))))

unfoldable pub coverage_facts : Fields → Fields → Json → Json → Json
unfolding batch_facts
coverage_facts batch coverage in_scope behind =
    with_fact "coverage"
      (obj (
        field "in_scope_loans" in_scope (
          field "loans_behind_cob" behind (
            field "oldest_last_closed_business_date"
              (column coverage "oldest_last_closed_business_date") end))))
      (batch_facts batch)

-- The match on the latest status.
abbrev pub verdict_of_status : String → Completeness × Option String
verdict_of_status status =
    if str_eq status "success"
    then (Completeness.complete, none)
    else if str_eq status "failed"
    then (Completeness.partial, some batch_latest_run_failed)
    else (Completeness.unknown, some batch_latest_status_unrecognized)

abbrev pub verdict_of_run : Bool → Option String → Completeness × Option String
verdict_of_run observed none = (Completeness.unknown, some batch_run_not_observed)
verdict_of_run observed (some status) =
    if not observed
    then (Completeness.unknown, some batch_run_not_observed)
    else verdict_of_status status

unfoldable pub verdict : Fields → Json → Completeness × Option String
verdict batch behind =
    if is_positive behind
    then (Completeness.partial, some batch_coverage_incomplete)
    else verdict_of_run (is_observed (lookup_field "latest_run_id" batch))
        (text_field batch "latest_run_status")

abbrev pub claim_of : String → Json → Completeness × Option String → Claim
claim_of batch_job facts (completeness, reason) = record {
  completeness = completeness;
  reason = reason;
  facts = with_job batch_job facts;
  queries_issued = 0;
}

abbrev pub assess_counts : String → Fields → Fields → Option Json → Option Json → Claim
assess_counts batch_job batch coverage (some in_scope) (some behind) =
    claim_of batch_job (coverage_facts batch coverage in_scope behind) (verdict batch behind)
assess_counts batch_job batch coverage none behind =
    unknown batch_job coverage_probe_failed (batch_facts batch)
assess_counts batch_job batch coverage (some in_scope) none =
    unknown batch_job coverage_probe_failed (batch_facts batch)

abbrev pub assess_coverage : String → Fields → Probe → Claim
assess_coverage batch_job batch (row coverage) =
    assess_counts batch_job batch coverage (int_field coverage "in_scope_loans")
      (int_field coverage "loans_behind_cob")
assess_coverage batch_job batch no_row = unknown batch_job coverage_probe_failed (batch_facts batch)
assess_coverage batch_job batch (failed code) =
    unknown batch_job coverage_probe_failed
      (with_fact "probe_failure" (str code) (batch_facts batch))

-- What the executor returned for a probe: rows, or the code of a failure.
pub data Executed : Type 0 where
  rows : List Fields → Executed
  error : String → Executed

unfoldable pub probe : Executed → Probe
probe (rows []) = no_row
probe (rows (first ∷ rest)) = row first
probe (error code) = failed code

-- NaiveDate::parse_from_str with the format %Y-%m-%d is chrono's; a date is a day number.
module _ (parse_date : String → Option ℕ) where
  abbrev pub date_field : Fields → String → Option ℕ
  date_field fields name = text_field fields name >>= parse_date

  unfoldable pub assess : String → Probe → Probe → Claim
  unfolding coverage_facts verdict unknown
  assess batch_job (row batch) coverage =
      if is_none (date_field batch "cob_date")
      then unknown batch_job cob_date_unavailable (batch_facts batch)
      else assess_coverage batch_job batch coverage
  assess batch_job no_row coverage = unknown batch_job batch_job_not_registered (obj end)
  assess batch_job (failed code) coverage =
      unknown batch_job freshness_probe_failed (obj (field "probe_failure" (str code) end))

  abbrev pub cob_date_of : Probe → Option ℕ
  cob_date_of (row batch) = date_field batch "cob_date"
  cob_date_of _ = none

  abbrev pub coverage_of : (ℕ → Executed) → Option ℕ → Probe
  coverage_of coverage_query none = no_row
  coverage_of coverage_query (some cob_date) = probe (coverage_query cob_date)

  abbrev queries_of : Option ℕ → ℕ
  queries_of none = 1
  queries_of (some cob_date) = 2

  -- The two queries are the executor's; the second is sent only where there is a COB date.
  unfoldable pub gather : String → Executed → (ℕ → Executed) → Claim
  unfolding probe assess
  gather batch_job batch_query coverage_query =
      let batch = probe batch_query in
      let cob_date = cob_date_of batch in
      record (assess batch_job batch (coverage_of coverage_query cob_date)) {
        queries_issued = queries_of cob_date;
      }
