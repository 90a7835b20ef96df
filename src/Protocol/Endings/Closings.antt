-- ===== src/Protocol/Endings/Closings.antt =====
-- How many events of a log close the stream, after each composite write.
use fineract_ai_backend.Prelude.{
  ℕ, ◌≡◌, refl, Bool, true, false, List, [], ◌∷◌, ◌++◌, arith, String, Bool-cases, where_rows, inl,
  inr, if-cases, if◌then◌else◌, count_where, count_where-append,
}
use fineract_ai_backend.Store.Vocabulary.{Lifecycle, is_terminal}
use fineract_ai_backend.Store.Rows.{JobRows, JobEvent, NodeRun}
use fineract_ai_backend.Stream.{is_terminal_event}
use fineract_ai_backend.Engine.Claim.{claim, was_suspended}
use fineract_ai_backend.Engine.Model.{ModelAdmission, CallDetail, admit_model}
use fineract_ai_backend.Engine.Settle.{
  FailureActor, announce_skipped, needs_skip, skip_unadmitted_attempts,
}
use fineract_ai_backend.Engine.Reaper.{
  announce_abandoned, running_attempts, abandon_running_attempts,
}

abbrev pub closes : JobEvent → Bool
closes e = is_terminal_event e.event_type

-- The number of events that tell a reader that the job ended.
unfoldable pub closings : List JobEvent → ℕ
closings es = count_where closes es

abbrev pub endings : JobRows → ℕ
endings r = closings r.events

pub quiet :
    (es : List JobEvent) (e : JobEvent) {n : ℕ}
    → closes e ≡ false
    → closings es ≡ n
    → closings (es ++ e ∷ []) ≡ n
unfolding closings
quiet es e q h = rw (count_where-append closes es e) (rw q (rw h (omega arith)))

pub final :
    (es : List JobEvent) (e : JobEvent)
    → closes e ≡ true
    → closings es ≡ 0
    → closings (es ++ e ∷ []) ≡ 1
unfolding closings
final es e q h = rw (count_where-append closes es e) (rw q (rw h (omega arith)))

abbrev pub ends : Lifecycle → ℕ
ends l = if is_terminal l then 1 else 0

-- The log says exactly once that the job ended, and only if it did.
abbrev pub EndsOnce : JobRows → Type 0
EndsOnce r = endings r ≡ ends r.job.lifecycle

pub unended : (r : JobRows) → is_terminal r.job.lifecycle ≡ false → EndsOnce r → endings r ≡ 0
unended r live h = rw live at h

announce_abandoned-endings :
    (now : ℕ) (name : String) (ns : List NodeRun) (r : JobRows) {k : ℕ}
    → endings r ≡ k
    → endings (announce_abandoned now name ns r) ≡ k
unfolding announce_abandoned is_terminal_event
announce_abandoned-endings now name [] r h = h
announce_abandoned-endings now name (n ∷ ns) r h =
    announce_abandoned-endings now name ns _ (quiet r.events _ refl h)

announce_skipped-endings :
    (now : ℕ) (actor : FailureActor) (ns : List NodeRun) (r : JobRows) {k : ℕ}
    → endings r ≡ k
    → endings (announce_skipped now actor ns r) ≡ k
unfolding announce_skipped is_terminal_event
announce_skipped-endings now actor [] r h = h
announce_skipped-endings now actor (n ∷ ns) r h =
    announce_skipped-endings now actor ns _ (quiet r.events _ refl h)

pub abandon-endings :
    (now : ℕ) (name : String) (r : JobRows) {k : ℕ}
    → endings r ≡ k
    → endings (abandon_running_attempts now name r) ≡ k
unfolding abandon_running_attempts
abandon-endings now name r h = announce_abandoned-endings now name (running_attempts r) _ h

pub skip_unadmitted-endings :
    (now : ℕ) (actor : FailureActor) (r : JobRows) {k : ℕ}
    → endings r ≡ k
    → endings (skip_unadmitted_attempts now actor r) ≡ k
unfolding skip_unadmitted_attempts
skip_unadmitted-endings now actor r h =
    announce_skipped-endings now actor (where_rows needs_skip r.node_runs) _ h

pub claim-EndsOnce :
    (now : ℕ) (worker : String) (token lease_secs ttl_secs : ℕ) (r : JobRows)
    → endings r ≡ 0
    → EndsOnce (claim now worker token lease_secs ttl_secs r)
unfolding claim is_terminal_event
claim-EndsOnce now worker token lease_secs ttl_secs r h = elim (Bool-cases (was_suspended r)) [
  | inl resumed ↦ rw resumed (quiet _ _ refl (quiet r.events _ refl h))
  | inr first ↦ rw first (quiet r.events _ refl h)
]

pub admit_model-EndsOnce :
    (now call token max_calls max_tokens reserved : ℕ) (key : String) (max_attempts : ℕ)
    (detail : CallDetail) (r : JobRows)
    → EndsOnce r
    → EndsOnce
        (admit_model now call token max_calls max_tokens reserved key max_attempts detail r).0
unfolding admit_model
admit_model-EndsOnce now call token max_calls max_tokens reserved key max_attempts detail r h =
    if-cases (λ (x : JobRows × ModelAdmission). EndsOnce x.0) _ (λ _. h) (λ _. h)
