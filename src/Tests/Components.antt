-- ===== src/Tests/Components.antt =====
-- The other components on concrete inputs.
use fineract_ai_backend.Prelude.{
  ℕ, ◌+◌, ◌≡◌, refl, Bool, true, false, Option, none, some, List, [], ◌∷◌, arith, coalesce,
}
use fineract_ai_backend.Store.Rows.{JobRows, JobEvent, no_references}
use fineract_ai_backend.Store.Events.{append_event, insert_audit}
use fineract_ai_backend.Engine.Claim.{claim, was_suspended, next_claimable}
use fineract_ai_backend.Engine.Model.{
  ModelAdmission, calls_of, set_calls, admit_model, finish_model,
}
use fineract_ai_backend.Engine.Memory.{promote}
use fineract_ai_backend.Engine.Reaper.{
  settle_expired, settle_abandoned_cancelling, recover_lost_leases,
}
use fineract_ai_backend.Engine.Sweeps.Selected.{IsOverdue, IsOrphaned, IsLost}
use fineract_ai_backend.Engine.Sweeps.{EndedNow, IsRecovery, Swept, Pairwise, passes-Swept}
use fineract_ai_backend.Store.Vocabulary.{Lifecycle, Outcome}
use fineract_ai_backend.Engine.Oldest.{IsNext, next_claimable-IsNext}
use fineract_ai_backend.Engine.Budget.{IsReserved, admit_model-IsReserved, finish_model-admit_model}
use fineract_ai_backend.Engine.Recall.{IsSequenced, promote-IsSequenced}
use fineract_ai_backend.Job.Idempotency.{claim_idempotency, is_key_of}
use fineract_ai_backend.Job.Accept.{
  Db, ok, created, replayed, acknowledgement, accepted_rows, insert_job_chain, create_claimed,
  create_job,
}
use fineract_ai_backend.Job.OneActive.{HasOneActive, create_job-HasOneActive}
use fineract_ai_backend.Job.Replay.{create_job-replay}
use fineract_ai_backend.Stream.{Stream, sent, next_round, play}
use fineract_ai_backend.Stream.Gaps.{play-Numbered, read_then_sent}
use fineract_ai_backend.Protocol.Gapless.{Numbered}
use fineract_ai_backend.Tests.Data.{
  pii, request, new_rows, numbers, failure, fact, source, session, detail, database,
}

abbrev no_lock : ℕ → Bool
no_lock id = false

abbrev claimed_rows : JobRows
claimed_rows = claim 110 "worker-1" 555 30 600 new_rows

passes-Swept_example :
    Pairwise
      (Swept (IsOverdue 900) (λ r u. EndedNow 900 Lifecycle.expired Outcome.expired u.job))
      (claimed_rows ∷ [])
      (settle_expired 900 "reaper-1" (claimed_rows ∷ [])).0
    × Pairwise
        (Swept (IsOrphaned 900) (λ r u. EndedNow 900 Lifecycle.cancelled Outcome.cancelled u.job))
        (claimed_rows ∷ [])
        (settle_abandoned_cancelling 900 "reaper-1" (claimed_rows ∷ [])).0
    × Pairwise
        (Swept (IsLost 900 no_lock) (IsRecovery 900 3))
        (claimed_rows ∷ [])
        (recover_lost_leases 900 "reaper-1" (λ id. numbers) 3 failure no_lock (claimed_rows ∷ [])).0
    × (settle_expired 900 "reaper-1" (settle_expired 900 "reaper-1" (claimed_rows ∷ [])).0
        ≡ ((settle_expired 900 "reaper-1" (claimed_rows ∷ [])).0, 0))
    × (settle_abandoned_cancelling 900 "reaper-1"
          (settle_abandoned_cancelling 900 "reaper-1" (claimed_rows ∷ [])).0
        ≡ ((settle_abandoned_cancelling 900 "reaper-1" (claimed_rows ∷ [])).0, 0))
    × (recover_lost_leases 900 "reaper-1"
          (λ id. numbers)
          3
          failure
          no_lock
          (recover_lost_leases 900 "reaper-1"
            (λ id. numbers)
            3
            failure
            no_lock
            (claimed_rows ∷ [])).0
        ≡ (
          (recover_lost_leases 900 "reaper-1"
              (λ id. numbers)
              3
              failure
              no_lock
              (claimed_rows ∷ [])).0,
          0,
          0,
        ))
passes-Swept_example =
    passes-Swept 900 "reaper-1" (λ id. numbers) 3 failure no_lock (claimed_rows ∷ [])

next_claimable-IsNext_example :
    IsNext 110 no_lock
      (claimed_rows ∷ new_rows ∷ [])
      (next_claimable 110 no_lock (claimed_rows ∷ new_rows ∷ []))
next_claimable-IsNext_example = next_claimable-IsNext 110 no_lock (claimed_rows ∷ new_rows ∷ [])

abbrev reserved_rows : JobRows
reserved_rows = (admit_model 111 71 555 5 1000 200 "understand" 2 detail claimed_rows).0

admit_model-IsReserved_example :
    IsReserved 5 1000 200 claimed_rows
      (admit_model 111 71 555 5 1000 200 "understand" 2 detail claimed_rows)
admit_model-IsReserved_example =
    admit_model-IsReserved 111 71 555 5 1000 200 "understand" 2 detail claimed_rows

abbrev after_call : Option JobRows → JobRows
after_call none = new_rows
after_call (some r) = r

abbrev charged_rows : JobRows
charged_rows = after_call (finish_model 113 71 555 200 (some 150) "ok" none 30 detail reserved_rows)

reserved_call :
    admit_model 111 71 555 5 1000 200 "understand" 2 detail claimed_rows
    ≡ (reserved_rows, ModelAdmission.admitted 71 (some 710) 1)
unfolding accepted_rows append_event insert_audit claim was_suspended admit_model calls_of set_calls
reserved_call = refl

charged_call :
    finish_model 113 71 555 200 (some 150) "ok" none 30 detail reserved_rows ≡ some charged_rows
unfolding accepted_rows append_event insert_audit claim was_suspended admit_model calls_of set_calls
    finish_model
charged_call = refl

finish_model-admit_model_example :
    charged_rows.job.token_cost ≡ claimed_rows.job.token_cost + coalesce (some 150) 200
finish_model-admit_model_example =
    finish_model-admit_model 111 71 555 5 1000 200 "understand" 2 detail claimed_rows reserved_rows
      charged_rows 71 (some 710) 1 113 (some 150) "ok" none 30 reserved_call charged_call

promote-IsSequenced_example : IsSequenced (promote 116 numbers source (fact ∷ fact ∷ []) session)
promote-IsSequenced_example = promote-IsSequenced 116 numbers source (fact ∷ fact ∷ []) session refl

database-HasOneActive : HasOneActive database
database-HasOneActive = λ session_id. omega arith

create_job-HasOneActive_example :
    HasOneActive (create_job 100 86400 61 7 pii "k1" "f1" request database).0
create_job-HasOneActive_example =
    create_job-HasOneActive 100 86400 61 7 pii "k1" "f1" request database database-HasOneActive

abbrev accepted_database : Db
accepted_database = (create_job 100 86400 61 7 pii "k1" "f1" request database).0

accepted_first :
    create_job 100 86400 61 7 pii "k1" "f1" request database
    ≡ (accepted_database, ok (created new_rows.job))
unfolding create_claimed claim_idempotency is_key_of insert_job_chain accepted_rows append_event
    insert_audit
accepted_first = refl

create_job-replay_example :
    create_job 160 86400 62 8 pii "k1" "f1" request accepted_database
    ≡ (accepted_database, ok (replayed 202 (acknowledgement new_rows.job)))
create_job-replay_example =
    create_job-replay 100 86400 61 7 pii "k1" "f1" request database accepted_database new_rows.job
      160 86400 62 8 pii request refl accepted_first

abbrev an_event : ℕ → JobEvent
an_event sequence = record {
  sequence = sequence;
  event_type = "job.notice";
  occurred_at = 100;
  references = no_references;
  payload_json = none;
}

abbrev events : List JobEvent
events = an_event 1 ∷ an_event 2 ∷ an_event 3 ∷ []

events-Numbered : Numbered 0 events 3
events-Numbered = (refl, (refl, (refl, refl)))

abbrev watching : Stream
watching = record {
  cursor = 1;
  pending = [];
  poll_interval = 2;
  poll_interval_max = 15;
  backoff = 2;
  buffer_frames = 8;
  finished = false;
}

-- A read that fails, one that finds the log, and the frames.
abbrev rounds : List (Option (List JobEvent) × Bool)
rounds = (none, false) ∷ (some events, false) ∷ (none, true) ∷ (some events, true) ∷ []

play-Numbered_example :
    Numbered watching.cursor (play rounds watching).0 (play rounds watching).1.cursor
play-Numbered_example =
    play-Numbered rounds watching (tt, ((3, events-Numbered), (tt, ((3, events-Numbered), tt))))
      (1, refl)

read_then_sent_example :
    (e : JobEvent) × (e.sequence ≡ watching.cursor + 1)
    × ((next_round none true (next_round (some events) false watching).0).1 ≡ sent e)
read_then_sent_example =
    read_then_sent watching events 3 false none true events-Numbered (omega arith) (omega arith)
      refl refl
