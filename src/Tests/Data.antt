-- ===== src/Tests/Data.antt =====
-- A job, a worker's plan and answer, and the tables around them.
use fineract_ai_backend.Prelude.{ℕ, ◌+◌, String, Bool, true, none, some, [], ◌∷◌}
use fineract_ai_backend.Prelude.Json.{Json, obj, end, arr, cons, nil, str, field}
use fineract_ai_backend.Prelude.Int.{pos, negsuc}
use fineract_ai_backend.Store.Vocabulary.{Outcome, Completeness}
use fineract_ai_backend.Store.Rows.{JobRows}
use fineract_ai_backend.Store.Sessions.{Session, SummaryStatus, FactKind}
use fineract_ai_backend.Engine.Model.{CallDetail}
use fineract_ai_backend.Engine.Plan.{VerifiedPlan}
use fineract_ai_backend.Engine.Node.{NodeOutcome, Finish}
use fineract_ai_backend.Engine.Memory.{MemoryFact, Source}
use fineract_ai_backend.Engine.Settle.{SettledResponse, Validated}
use fineract_ai_backend.Clarification.{Question, AcceptedAnswer, SkippedResponse}
use fineract_ai_backend.Job.Accept.{PiiSetting, NewJob, Db, accepted_rows}

abbrev pub pii : PiiSetting
pii = record { enabled = true; mode = "mask"; setting_version = 1 }

abbrev pub request : NewJob
request = record {
  owner_user_id = 1;
  session_id = 2;
  request_text = "Active loans of the branch";
  request_chars = 26;
  office_ids = pos 1 ∷ negsuc 4 ∷ [];
  fineract_tenant = "default";
}

-- A job that was just accepted.
abbrev pub new_rows : JobRows
new_rows = accepted_rows 100 7 pii request

abbrev pub plan : VerifiedPlan
plan = record {
  plan_version = 1;
  graph_json = obj end;
  graph_hash = "g1";
  contract_versions = obj end;
  capability_id = "loans.active";
}

-- A stand-in for the equality of jsonb values, and one for the digest.
abbrev pub always : Json → Json → Bool
always a b = true

abbrev pub no_digest : Json → String
no_digest a = ""

abbrev pub numbers : ℕ → ℕ
numbers k = 900 + k

abbrev pub outcome : NodeOutcome
outcome = record {
  status = Finish.completed;
  completeness = some Completeness.complete;
  completeness_reason = none;
  failure_code = none;
  input_binding_json = obj end;
  output_json = some (obj end);
  provenance_json = obj end;
  rows_returned = some 12;
  duration_ms = some 40;
  extra_queries = 0;
}

abbrev pub response : SettledResponse
response = record {
  kind = "answer";
  outcome = Outcome.answered;
  completeness = Completeness.complete;
  completeness_reason = "all_rows";
  blocks = arr nil;
  evidence = obj end;
  response_hash = "r1";
}

abbrev pub failure : SettledResponse
failure = record {
  kind = "failed";
  outcome = Outcome.operational_failure;
  completeness = Completeness.unknown;
  completeness_reason = "node_attempt_cap_reached";
  blocks = arr nil;
  evidence = obj end;
  response_hash = "r0";
}

abbrev pub validated : Validated
validated = record { served = response; rejected = none; report = obj end }

abbrev pub fact : MemoryFact
fact = record {
  kind = FactKind.active_scope;
  entity_key = some "office";
  label = some "Head Office";
  fact_json = obj end;
  completeness = "Complete";
  completeness_reason = "all_rows";
  provenance_json = obj end;
}

abbrev pub source : Source
source = record { owner_user_id = 1; job_id = 7; plan_version = some 1; response_version = 1 }

abbrev pub session : Session
session = record {
  id = 2;
  owner_user_id = 1;
  status = "active";
  memory_seq_last = 0;
  memory_summary_status = SummaryStatus.current;
  updated_at = 90;
  memory = [];
}

abbrev pub detail : CallDetail
detail = record {
  catalog_version_id = none;
  catalog_content_hash = none;
  with_attempt = λ attempt. obj end;
  detail = obj end;
}

abbrev pub question : Question
question = record {
  plan_version = none;
  purpose = "Which office?";
  stage_label = "understanding";
  fields = arr (cons (str "office") nil);
}

abbrev pub answer : AcceptedAnswer
answer = record {
  field_id = "office";
  answer_kind = "option_id";
  raw_text = none;
  binding_json = obj (field "value" (str "1") (field "label" (str "Head Office") end));
  provenance = "user_confirmed";
  resolver_ref = some "offices";
  option_set_ref = some "office-1";
}

abbrev pub skipped : SkippedResponse
skipped = record {
  completeness = Completeness.unknown;
  completeness_reason = "skipped_by_user";
  blocks = arr nil;
  response_hash = "s1";
  unanswered_fields = str "office" ∷ [];
}

abbrev pub database : Db
database = record { keys = []; sessions = session ∷ []; jobs = [] }
