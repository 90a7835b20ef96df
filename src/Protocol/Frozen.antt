-- ===== src/Protocol/Frozen.antt =====
-- A job that ended stays as it ended.
use mathlib.Core.Option.{some_inj}
use mathlib.Core.List.{append-nil, append_assoc}
use fineract_ai_backend.Prelude.{
  ℕ, String, Bool, true, false, ◌&&◌, ◌||◌, eq_column, ◌≡◌, refl, ◌∙◌, sym, ap, subst, Option, some,
  List, [], ◌∷◌, ◌+◌, ◌++◌, length, length-append, All, All-append, arith,
}
use fineract_ai_backend.Prelude.Json.{Json}
use fineract_ai_backend.Store.Vocabulary.{
  Lifecycle, Outcome, Completeness, is_terminal, is_running, is_waiting, is_cancelling,
}
use fineract_ai_backend.Store.Rows.{Job, JobRows, JobEvent, NodeRun, Plan, Response, Message, Form}
use fineract_ai_backend.Store.Lease.{holds}
use fineract_ai_backend.Job.Cancel.{request_cancel, is_cancellable}
use fineract_ai_backend.Engine.Claim.{is_claimable}
use fineract_ai_backend.Engine.Node.{Admission}
use fineract_ai_backend.Engine.Settle.{settle_cancelled}
use fineract_ai_backend.Engine.Reaper.{is_overdue, is_orphaned_cancelling, is_lease_lost}
use fineract_ai_backend.Clarification.{AcceptedAnswer, accept_answers, skip}
use fineract_ai_backend.Protocol.Fence.{
  renew_lease-refused, admit_model-refused, finish_model-refused, persist_plan-refused,
  admit_node-refused, complete_node-refused, settle_with_response-refused, settle_failed-refused,
  open_form-refused, none_some,
}
use fineract_ai_backend.Protocol.Step.{
  committed, committed_with, Step, cancels, claims, renews, admits_model, finishes_model,
  persists_plan, admits_node, completes_node, settles, fails, settles_cancelled, expires,
  closes_orphan, recovers, asks, answers, skips, Reach, Run-preserves,
}

-- How a job ended: the columns of its snapshot (Job, crates/chat/src/job/repository.rs) but the number of
-- its last event, its charges, and its rows but the log, the forms, the answers and the audit.
pub record Ending : Type 0 where
  pub id : ℕ
  pub session_id : ℕ
  pub owner_user_id : ℕ
  pub request_text : String
  pub scope_json : Json
  pub created_at : ℕ
  pub lifecycle : Lifecycle
  pub outcome : Option Outcome
  pub completeness : Option Completeness
  pub completeness_reason : Option String
  pub failure_code : Option String
  pub plan_version : Option ℕ
  pub final_response_version : Option ℕ
  pub terminal_at : Option ℕ
  pub query_count : ℕ
  pub token_cost : ℕ
  pub plans : List Plan
  pub node_runs : List NodeRun
  pub responses : List Response
  pub messages : List Message

abbrev pub ending : JobRows → Ending
ending r = record {
  id = r.job.id;
  session_id = r.job.session_id;
  owner_user_id = r.job.owner_user_id;
  request_text = r.job.request_text;
  scope_json = r.job.scope_json;
  created_at = r.job.created_at;
  lifecycle = r.job.lifecycle;
  outcome = r.job.outcome;
  completeness = r.job.completeness;
  completeness_reason = r.job.completeness_reason;
  failure_code = r.job.failure_code;
  plan_version = r.job.plan_version;
  final_response_version = r.job.final_response_version;
  terminal_at = r.job.terminal_at;
  query_count = r.job.query_count;
  token_cost = r.job.token_cost;
  plans = r.plans;
  node_runs = r.node_runs;
  responses = r.responses;
  messages = r.messages;
}

-- What none of the statements that select by the lifecycle finds in an ended job.
terminal-cancellable : (l : Lifecycle) → is_terminal l ≡ true → is_cancellable l ≡ false
terminal-cancellable l h = ground arith

terminal-waiting : (l : Lifecycle) → is_terminal l ≡ true → is_waiting l ≡ false
terminal-waiting l h = ground arith

terminal-claimable :
    (now : ℕ) (j : Job) → is_terminal j.lifecycle ≡ true → is_claimable now j ≡ false
terminal-claimable now j h = ground arith

terminal-overdue :
    (now : ℕ) (r : JobRows) → is_terminal r.job.lifecycle ≡ true → is_overdue now r ≡ false
terminal-overdue now r h = rw h refl

terminal-cancelling : (l : Lifecycle) → is_terminal l ≡ true → is_cancelling l ≡ false
terminal-cancelling l h = ground arith

terminal-running : (l : Lifecycle) → is_terminal l ≡ true → is_running l ≡ false
terminal-running l h = ground arith

terminal-orphaned :
    (now : ℕ) (r : JobRows)
    → is_terminal r.job.lifecycle ≡ true
    → is_orphaned_cancelling now r ≡ false
terminal-orphaned now r h = rw (terminal-cancelling r.job.lifecycle h) refl

terminal-lost :
    (now : ℕ) (r : JobRows) → is_terminal r.job.lifecycle ≡ true → is_lease_lost now r ≡ false
terminal-lost now r h = rw (terminal-running r.job.lifecycle h) refl

terminal-cancellation :
    (token : ℕ) (j : Job)
    → is_terminal j.lifecycle ≡ true
    → (eq_column j.lease_token token && (is_running j.lifecycle || is_cancelling j.lifecycle))
      ≡ false
terminal-cancellation token j h = ground arith

and_false : (b : Bool) {c : Bool} → c ≡ false → (b && c) ≡ false
and_false b h = ground arith

both {ℓ} : {B : Type ℓ} {b : Bool} → b ≡ false → b ≡ true → B
both h k = cc

-- A worker holds no ended job.
terminal-holds : (token : ℕ) (j : Job) → is_terminal j.lifecycle ≡ true → holds token j ≡ false
terminal-holds token j h = ground arith

-- The event that accept_answers writes.
abbrev pub IsLateAnswer : JobEvent → Type 0
IsLateAnswer e = e.event_type ≡ "clarification.accepted"

-- The log of the first job goes on to that of the second by accepted answers alone, and each of them
-- is counted.
abbrev pub GoesOn : JobRows → JobRows → Type 0
GoesOn r u =
    (late : List JobEvent) × (u.events ≡ r.events ++ late)
    × (u.job.last_event_sequence ≡ r.job.last_event_sequence + length late)
    × All IsLateAnswer late

-- The second job ended as the first did.
abbrev pub EndedAs : JobRows → JobRows → Type 0
EndedAs r u = (ending u ≡ ending r) × GoesOn r u

unchanged : (r u : JobRows) → u ≡ r → EndedAs r u
unchanged r u e = subst (EndedAs r) (sym e) (refl, ([], sym (append-nil r.events), omega arith, tt))

EndedAs-trans : (r s u : JobRows) → EndedAs r s → EndedAs s u → EndedAs r u
EndedAs-trans r s u (h, (l, e, n, a)) (k, (m, f, o, b)) = (
  k ∙ h,
  (
    l ++ m,
    f ∙ ap (λ es. es ++ m) e ∙ append_assoc r.events l m,
    omega (arith, length-append {0} l m),
    All-append IsLateAnswer l m a b,
  ),
)

accept_answers-EndedAs :
    {u : JobRows} (now : ℕ) (form : Form) (actor : ℕ) (given : List AcceptedAnswer) (ttl_secs : ℕ)
    (r : JobRows)
    → is_terminal r.job.lifecycle ≡ true
    → accept_answers now form actor given ttl_secs r ≡ some u
    → EndedAs r u
unfolding accept_answers
accept_answers-EndedAs now form actor given ttl_secs r h e =
    committed_with (EndedAs r) _ _ _ e
      (λ _ _ _. (rw (terminal-waiting r.job.lifecycle h) refl, (_ ∷ [], refl, refl, (refl, tt))))

pub Step-EndedAs :
    {cap : ℕ} {label : Option ℕ} (r u : JobRows)
    → Step cap r label u
    → is_terminal r.job.lifecycle ≡ true
    → EndedAs r u
unfolding request_cancel settle_cancelled skip
Step-EndedAs r u (cancels now actor e) h =
    committed (EndedAs r) _ e (both (terminal-cancellable r.job.lifecycle h))
Step-EndedAs r u (claims now worker token lease_secs ttl_secs c) h =
    both (terminal-claimable now r.job h) c
Step-EndedAs r u (renews now token lease_secs e) h =
    none_some (renew_lease-refused now token r (terminal-holds token r.job h) lease_secs) e
Step-EndedAs r u (admits_model now call token max_calls max_tokens reserved key tries detail) h =
    unchanged r u (
      ap (λ x. x.0)
        (admit_model-refused now token r (terminal-holds token r.job h) call max_calls max_tokens
          reserved key tries detail))
Step-EndedAs r u (finishes_model now call token reserved observed result failure d detail e) h =
    none_some
      (finish_model-refused now token r (terminal-holds token r.job h) call reserved observed result
        failure d detail)
      e
Step-EndedAs r u (persists_plan jsonb_eq now id token p) h =
    unchanged r u (
      ap (λ x. x.0) (persist_plan-refused now token r (terminal-holds token r.job h) jsonb_eq id p))
Step-EndedAs r u (admits_node now token plan_version e) h = unchanged r u (
    ap (λ (x : JobRows × Admission). x.0)
      (some_inj.0
        (sym e ∙ admit_node-refused now token r (terminal-holds token r.job h) plan_version)))
Step-EndedAs r u (completes_node digest now token plan_version attempt outcome e) h =
    none_some
      (complete_node-refused now token r (terminal-holds token r.job h) digest plan_version attempt
        outcome)
      e
Step-EndedAs r u (settles s t now fresh owner token v facts e) h =
    none_some
      (settle_with_response-refused now token r (terminal-holds token r.job h) fresh owner v facts
        s)
      e
Step-EndedAs r u (fails now token code response e) h =
    none_some (settle_failed-refused now token r (terminal-holds token r.job h) code response) e
Step-EndedAs r u (settles_cancelled now token e) h =
    committed (EndedAs r) _ e (both (terminal-cancellation token r.job h))
Step-EndedAs r u (expires now name c) h = both (terminal-overdue now r h) c
Step-EndedAs r u (closes_orphan now name c) h = both (terminal-orphaned now r h) c
Step-EndedAs r u (recovers now name fresh response c) h = both (terminal-lost now r h) c
Step-EndedAs r u (asks now form_id clarification_id token q auto_bound wait ttl e) h =
    none_some
      (open_form-refused now token r (terminal-holds token r.job h) form_id clarification_id q
        auto_bound wait ttl)
      e
Step-EndedAs r u (answers now form actor given ttl e) h =
    accept_answers-EndedAs now form actor given ttl r h e
Step-EndedAs r u (skips now form actor response e) h =
    committed (EndedAs r) _ e (both (and_false _ (terminal-waiting r.job.lifecycle h)))

-- A job that is Completed, Failed, Cancelled or Expired keeps its id, session, owner, request, scope,
-- lifecycle, outcome, completeness, reason, failure code, active plan, served version, times of
-- creation and end, query count and token cost, and its plans, attempts, responses and messages,
-- whatever transactions run on it afterwards; its log keeps its events, and nothing is added to it but
-- events of accepted answers, each of which raises the number of the last event by one.
pub Reach-EndedAs :
    {cap : ℕ} (r u : JobRows) → Reach cap r u → is_terminal r.job.lifecycle ≡ true → EndedAs r u
Reach-EndedAs r u run h =
    Run-preserves (EndedAs r)
      (λ s t label _ step kept. EndedAs-trans r s t kept (
        Step-EndedAs s t step
          (subst (λ (x : Ending). is_terminal x.lifecycle ≡ true) (sym kept.0) h)))
      run (unchanged r r refl)
