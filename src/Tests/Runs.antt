-- ===== src/Tests/Runs.antt =====
-- Runs of one job.
use fineract_ai_backend.Prelude.{ℕ, ◌≡◌, refl, inl, Option, none, some, [], ◌∷◌, arith, true}
use fineract_ai_backend.Store.Vocabulary.{FormState, is_terminal}
use fineract_ai_backend.Store.Rows.{Form, JobRows}
use fineract_ai_backend.Store.Sessions.{Session}
use fineract_ai_backend.Store.Events.{append_event, append_event_ref, insert_audit}
use fineract_ai_backend.Engine.Claim.{claim, was_suspended}
use fineract_ai_backend.Engine.Plan.{persist_plan, persist_over, insert_plan}
use fineract_ai_backend.Engine.Node.{
  Admission, admit_matched, admit_node, complete_node, write_outcome, finish_attempt,
}
use fineract_ai_backend.Engine.Settle.{
  settle_with_response, skip_unadmitted_attempts, announce_skipped,
}
use fineract_ai_backend.Engine.Reaper.{
  recover, requeue, abandon_running_attempts, announce_abandoned, abandon_attempt, cancel_orphan,
  finish_sweep_row,
}
use fineract_ai_backend.Clarification.{
  open_form, is_fully_resolved, insert_form, insert_answers, accept_answers, resolve, skip,
}
use fineract_ai_backend.Job.Cancel.{request_cancel}
use fineract_ai_backend.Job.Accept.{accepted_rows}
use fineract_ai_backend.Stream.{is_terminal_event}
use fineract_ai_backend.Protocol.Step.{
  Run, here, next, Reach, claims, persists_plan, admits_node, completes_node, settles, recovers,
  answers,
}
use fineract_ai_backend.Protocol.Gapless.{IsGapless, Reach-IsGapless}
use fineract_ai_backend.Protocol.Standing.{IsConsistent, Reach-IsConsistent}
use fineract_ai_backend.Protocol.Served.{IsServed, Reach-IsServed}
use fineract_ai_backend.Protocol.Frozen.{EndedAs, Reach-EndedAs}
use fineract_ai_backend.Protocol.Resolved.{resolved_once}
use fineract_ai_backend.Protocol.Endings.{closings, EndsOnce, Reach-EndsOnce}
use fineract_ai_backend.Protocol.Attempts.{AreCapped, Reach-AreCapped}
use fineract_ai_backend.Protocol.Lease.{IsLost, IsOther, IsFencedOff, Run-IsFencedOff}
use fineract_ai_backend.Tests.Data.{
  new_rows, plan, always, no_digest, numbers, outcome, failure, validated, fact, session, question,
  answer, skipped,
}

abbrev claimed_rows : JobRows
claimed_rows = claim 110 "worker-1" 555 30 600 new_rows

abbrev planned_rows : JobRows
planned_rows = (persist_plan always 111 31 555 plan claimed_rows).0

-- The rows that a transaction left.
abbrev left : Option (JobRows × ℕ) → JobRows
left none = new_rows
left (some (r, id)) = r

abbrev admitted : Option (JobRows × Admission) → JobRows
admitted none = new_rows
admitted (some (r, a)) = r

abbrev settled : Option (JobRows × Session) → JobRows
settled none = new_rows
settled (some (r, s)) = r

abbrev admitted_rows : JobRows
admitted_rows = admitted (admit_node 112 555 1 planned_rows)

abbrev completed_rows : JobRows
completed_rows = left (complete_node no_digest 115 555 1 1 outcome admitted_rows)

abbrev settled_rows : JobRows
settled_rows =
    settled (settle_with_response 116 numbers 1 555 validated (fact ∷ []) (completed_rows, session))

-- Accepted, claimed, planned, admitted, executed and settled.
answered_run : Reach 3 new_rows settled_rows
unfolding accepted_rows append_event append_event_ref insert_audit claim was_suspended persist_plan
    persist_over insert_plan admit_node admit_matched complete_node write_outcome finish_attempt
    settle_with_response
answered_run =
    next
      (next
        (next
          (next (next here tt (claims 110 "worker-1" 555 30 600 refl)) tt
            (persists_plan always 111 31 555 plan))
          tt (admits_node 112 555 1 refl))
        tt (completes_node no_digest 115 555 1 1 outcome refl))
      tt (settles session _ 116 numbers 1 555 validated (fact ∷ []) refl)

-- The worker dies after the admission: the reaper queues the job again, with another attempt.
abbrev pub lost_rows : JobRows
lost_rows = recover 200 "reaper-1" numbers 3 failure admitted_rows

lost_run : Reach 3 new_rows lost_rows
unfolding accepted_rows append_event append_event_ref insert_audit claim was_suspended persist_plan
    persist_over insert_plan admit_node admit_matched
lost_run =
    next
      (next
        (next (next here tt (claims 110 "worker-1" 555 30 600 refl)) tt
          (persists_plan always 111 31 555 plan))
        tt (admits_node 112 555 1 refl))
      tt (recovers 200 "reaper-1" numbers failure refl)

-- Another worker claims it.
abbrev again_rows : JobRows
again_rows = claim 210 "worker-2" 556 30 600 lost_rows

stale : Run 3 (IsOther 555) lost_rows again_rows
unfolding accepted_rows append_event append_event_ref insert_audit claim was_suspended persist_plan
    persist_over insert_plan admit_node admit_matched recover requeue abandon_running_attempts
    announce_abandoned abandon_attempt
stale = next here (ground arith) (claims 210 "worker-2" 556 30 600 refl)

lost_rows-IsLost : IsLost 555 lost_rows
unfolding accepted_rows append_event append_event_ref insert_audit claim was_suspended persist_plan
    persist_over insert_plan admit_node admit_matched recover requeue abandon_running_attempts
    announce_abandoned abandon_attempt
lost_rows-IsLost = λ e. cc

-- The worker asks, and the user cancels: the reaper closes the job, and its form stays open.
abbrev asked : Option (JobRows × Form) → JobRows
asked none = new_rows
asked (some (r, f)) = r

abbrev asked_rows : JobRows
asked_rows = asked (open_form 112 41 42 555 question [] 900 600 claimed_rows)

abbrev kept : Option JobRows → JobRows
kept none = new_rows
kept (some r) = r

abbrev pub cancelled_rows : JobRows
cancelled_rows = cancel_orphan 130 "reaper-1" (kept (request_cancel 120 1 asked_rows))

abbrev pub asked_form : Form
asked_form = record {
  id = 41;
  clarification_id = 42;
  revision = 1;
  plan_version = none;
  purpose = "Which office?";
  stage_label = "understanding";
  fields_json = question.fields;
  state = FormState.opened;
  resolved_by_user_id = none;
  resolved_at = none;
  resolution_reason = none;
  expires_at = some 1012;
}

abbrev answered_rows : JobRows
answered_rows = kept (accept_answers 140 asked_form 1 (answer ∷ []) 600 cancelled_rows)

answered_late : Reach 3 cancelled_rows answered_rows
unfolding accepted_rows append_event append_event_ref insert_audit claim was_suspended open_form
    is_fully_resolved insert_form insert_answers request_cancel cancel_orphan finish_sweep_row
    skip_unadmitted_attempts announce_skipped abandon_running_attempts announce_abandoned
    accept_answers resolve
answered_late = next here tt (answers 140 asked_form 1 (answer ∷ []) 600 refl)

cancelled-IsTerminal : is_terminal cancelled_rows.job.lifecycle ≡ true
unfolding accepted_rows append_event append_event_ref insert_audit claim was_suspended open_form
    is_fully_resolved insert_form insert_answers request_cancel cancel_orphan finish_sweep_row
    skip_unadmitted_attempts announce_skipped abandon_running_attempts announce_abandoned
cancelled-IsTerminal = refl

new-IsGapless : IsGapless new_rows
unfolding accepted_rows append_event append_event_ref insert_audit
new-IsGapless = (refl, refl)

new-IsConsistent : IsConsistent new_rows.job
unfolding accepted_rows append_event append_event_ref insert_audit
new-IsConsistent = ((refl, refl, refl), (refl, refl))

new-EndsOnce : EndsOnce new_rows
unfolding accepted_rows append_event append_event_ref insert_audit closings is_terminal_event
new-EndsOnce = refl

Reach-IsGapless_example : IsGapless settled_rows
Reach-IsGapless_example = Reach-IsGapless new_rows settled_rows answered_run new-IsGapless

Reach-IsConsistent_example : IsConsistent settled_rows.job
Reach-IsConsistent_example = Reach-IsConsistent new_rows settled_rows answered_run new-IsConsistent

Reach-EndsOnce_example : EndsOnce settled_rows
Reach-EndsOnce_example = Reach-EndsOnce new_rows settled_rows answered_run new-EndsOnce

new-AreCapped : AreCapped 3 new_rows
unfolding accepted_rows append_event append_event_ref insert_audit
new-AreCapped = tt

Reach-AreCapped_example : AreCapped 3 lost_rows
Reach-AreCapped_example = Reach-AreCapped new_rows lost_rows (omega arith) lost_run new-AreCapped

Run-IsFencedOff_example : IsFencedOff 555 again_rows
Run-IsFencedOff_example = Run-IsFencedOff 555 lost_rows again_rows lost_rows-IsLost stale

Reach-EndedAs_example :
    EndedAs cancelled_rows (kept (accept_answers 140 asked_form 1 (answer ∷ []) 600 cancelled_rows))
Reach-EndedAs_example =
    Reach-EndedAs cancelled_rows
      (kept (accept_answers 140 asked_form 1 (answer ∷ []) 600 cancelled_rows)) answered_late
      cancelled-IsTerminal

-- The user answers, and another worker goes on: neither a second answer nor a skip is accepted.
abbrev resumed_rows : JobRows
resumed_rows = kept (accept_answers 140 asked_form 1 (answer ∷ []) 600 asked_rows)

answered_once : accept_answers 140 asked_form 1 (answer ∷ []) 600 asked_rows ≡ some resumed_rows
unfolding accepted_rows append_event append_event_ref insert_audit claim was_suspended open_form
    is_fully_resolved insert_form insert_answers accept_answers resolve
answered_once = refl

resumed_run : Reach 3 resumed_rows (claim 145 "worker-2" 556 30 600 resumed_rows)
unfolding accepted_rows append_event append_event_ref insert_audit claim was_suspended open_form
    is_fully_resolved insert_form insert_answers accept_answers resolve
resumed_run = next here tt (claims 145 "worker-2" 556 30 600 refl)

resolved_once_example :
    (accept_answers 150 asked_form 2 [] 600 (claim 145 "worker-2" 556 30 600 resumed_rows) ≡ none)
    × (skip 150 asked_form 2 skipped (claim 145 "worker-2" 556 30 600 resumed_rows) ≡ none)
resolved_once_example =
    resolved_once {cap = 3} 140 1 600 asked_form (answer ∷ []) skipped asked_rows resumed_rows
      (claim 145 "worker-2" 556 30 600 resumed_rows) 150 2 600 asked_form [] skipped
      (inl answered_once) resumed_run refl

new-IsServed : IsServed new_rows
unfolding accepted_rows append_event append_event_ref insert_audit
new-IsServed = tt

Reach-IsServed_example : IsConsistent settled_rows.job × IsServed settled_rows
Reach-IsServed_example =
    Reach-IsServed new_rows settled_rows answered_run new-IsConsistent new-IsServed
