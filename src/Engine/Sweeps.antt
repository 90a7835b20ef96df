-- ===== src/Engine/Sweeps.antt =====
-- What the reaper's passes do to each job (crates/chat/src/engine/repository.rs).
pub mod Selected
use fineract_ai_backend.Engine.Sweeps.Selected.{
  IsOverdue, IsOrphaned, IsLost, overdue_columns, orphaned_columns, IsLost-iff,
}
use fineract_ai_backend.Prelude.{
  ℕ, ◌+◌, ◌<◌, String, ◌≡◌, refl, ap, ◌⊎◌, inl, inr, Bool, true, false, ◌&&◌, ◌||◌, not, Option,
  none, some, List, [], ◌∷◌, length, any, Bool-cases, if◌then◌else◌, lt_column, is_none, is_some,
  update_where, arith,
}
use fineract_ai_backend.Store.Vocabulary.{
  Lifecycle, Outcome, is_terminal, is_cancelling, is_running,
}
use fineract_ai_backend.Store.Rows.{Job, JobRows}
use fineract_ai_backend.Engine.Settle.{SettledResponse, skip_unadmitted_attempts, reaper}
use fineract_ai_backend.Engine.Reaper.{
  is_overdue, expire, settle_expired, is_orphaned_cancelling, cancel_orphan,
  settle_abandoned_cancelling, recover, recover_lost_leases, is_recovered, is_at_cap,
  running_attempts, abandon_running_attempts,
}
use fineract_ai_backend.Engine.Passes.{passes-again}
use fineract_ai_backend.Protocol.Frames.{skip_unadmitted-frame, abandon-frame}

abbrev pub HasNoLease : Job → Type 0
HasNoLease j = (j.lease_owner ≡ none) × (j.lease_token ≡ none) × (j.lease_expires_at ≡ none)

-- The job ended now.
abbrev pub EndedNow : ℕ → Lifecycle → Outcome → Job → Type 0
EndedNow now lifecycle outcome j =
    (j.lifecycle ≡ lifecycle)
    × (j.outcome ≡ some outcome)
    × (j.terminal_at ≡ some now)
    × (j.expires_at ≡ none)
    × HasNoLease j

-- An attempt that ran had the last number allowed: the job failed. Else it is queued again. Either way
-- the attempts that ran are charged.
abbrev pub IsRecovery : ℕ → ℕ → JobRows → JobRows → Type 0
IsRecovery now cap r u =
    (any (is_at_cap cap) (running_attempts r) ≡ true
      → EndedNow now Lifecycle.failed Outcome.operational_failure u.job)
    × (any (is_at_cap cap) (running_attempts r) ≡ false
        → (u.job.lifecycle ≡ Lifecycle.queued) × HasNoLease u.job)
    × (u.job.query_count ≡ r.job.query_count + length (running_attempts r))

-- A job that is selected is treated, and any other stays as it was.
abbrev pub Swept : (JobRows → Type 0) → (JobRows → JobRows → Type 0) → JobRows → JobRows → Type 0
Swept Selected Treated r u = (Selected r → Treated r u) × (¬ Selected r → u ≡ r)

-- Job by job, in the same order.
abbrev pub Pairwise : (JobRows → JobRows → Type 0) → List JobRows → List JobRows → Type 0
Pairwise R [] [] = Unit {0}
Pairwise R (r ∷ rs) (u ∷ us) = R r u × Pairwise R rs us
Pairwise R [] (u ∷ us) = ⊥
Pairwise R (r ∷ rs) [] = ⊥

module _ (test : JobRows → Bool) (set : JobRows → JobRows) (Selected : JobRows → Type 0)
    (Treated : JobRows → JobRows → Type 0)
    (selected : (r : JobRows) → (test r ≡ true → Selected r) × (Selected r → test r ≡ true))
    (treated : (r : JobRows) → Treated r (set r)) where
  update_where-Pairwise :
      (rs : List JobRows) → Pairwise (Swept Selected Treated) rs (update_where test set rs)
  update_where-Pairwise [] = tt
  update_where-Pairwise (r ∷ rs) = elim (Bool-cases (test r)) [
    | inl found ↦
        rw found (
          ((λ _. treated r), (λ out. absurd (out ((selected r).0 found)))),
          update_where-Pairwise rs,
        )
    | inr passed ↦ rw passed (((λ s. cc ((selected r).1 s)), (λ _. refl)), update_where-Pairwise rs)
  ]

swept-EndedNow :
    (now : ℕ) (name : String) (l : Lifecycle) (o : Outcome) (r : JobRows)
    → EndedNow now l o r.job
    → EndedNow now l o
        (skip_unadmitted_attempts now (reaper name) (abandon_running_attempts now name r)).job
swept-EndedNow now name l o r h =
    skip_unadmitted-frame (EndedNow now l o) (λ _ _ _ x. x) now (reaper name) _
      (abandon-frame (EndedNow now l o) (λ _ _ _ x. x) now name r h)

expire-EndedNow :
    (now : ℕ) (name : String) (r : JobRows)
    → EndedNow now Lifecycle.expired Outcome.expired (expire now name r).job
unfolding expire
expire-EndedNow now name r =
    swept-EndedNow now name Lifecycle.expired Outcome.expired _
      (refl, refl, refl, refl, (refl, refl, refl))

cancel_orphan-EndedNow :
    (now : ℕ) (name : String) (r : JobRows)
    → EndedNow now Lifecycle.cancelled Outcome.cancelled (cancel_orphan now name r).job
unfolding cancel_orphan
cancel_orphan-EndedNow now name r =
    swept-EndedNow now name Lifecycle.cancelled Outcome.cancelled _
      (refl, refl, refl, refl, (refl, refl, refl))

recover-IsRecovery :
    (now : ℕ) (name : String) (fresh : ℕ → ℕ) (cap : ℕ) (response : SettledResponse) (r : JobRows)
    → IsRecovery now cap r (recover now name fresh cap response r)
unfolding recover
recover-IsRecovery now name fresh cap response r =
    let charged =
      abandon-frame (λ j. j.query_count ≡ r.job.query_count) (λ _ _ _ x. x) now name r refl in
    let sum = ap (λ (n : ℕ). n + length (running_attempts r)) charged in
    elim (Bool-cases (any (is_at_cap cap) (running_attempts r))) [
      | inl full ↦ rw full ((λ _. (refl, refl, refl, refl, (refl, refl, refl))), (λ h. cc), sum)
      | inr room ↦ rw room ((λ h. cc), (λ _. (refl, (refl, refl, refl))), sum)
    ]

-- The three passes of the reaper go over the jobs one by one: the first expires each job that has not
-- ended and whose time is over; the second closes as cancelled each cancelling job without a lease or
-- with one that ran out; the third takes each running and unlocked job whose lease ran out, fails it if
-- an attempt that was running has the last number allowed, queues it again without a lease if none has,
-- and charges the attempts that were running. Every other job stays as it was. Each pass, repeated at
-- the same time, changes nothing and counts no job.
pub passes-Swept :
    (now : ℕ) (name : String) (fresh : ℕ → ℕ → ℕ) (cap : ℕ) (response : SettledResponse)
    (locked : ℕ → Bool) (jobs : List JobRows)
    → Pairwise
        (Swept (IsOverdue now) (λ r u. EndedNow now Lifecycle.expired Outcome.expired u.job))
        jobs
        (settle_expired now name jobs).0
      × Pairwise
          (Swept (IsOrphaned now) (λ r u. EndedNow now Lifecycle.cancelled Outcome.cancelled u.job))
          jobs
          (settle_abandoned_cancelling now name jobs).0
      × Pairwise
          (Swept (IsLost now locked) (IsRecovery now cap))
          jobs
          (recover_lost_leases now name fresh cap response locked jobs).0
      × (settle_expired now name (settle_expired now name jobs).0
          ≡ ((settle_expired now name jobs).0, 0))
      × (settle_abandoned_cancelling now name (settle_abandoned_cancelling now name jobs).0
          ≡ ((settle_abandoned_cancelling now name jobs).0, 0))
      × (recover_lost_leases now name fresh cap response locked
            (recover_lost_leases now name fresh cap response locked jobs).0
          ≡ ((recover_lost_leases now name fresh cap response locked jobs).0, 0, 0))
unfolding settle_expired settle_abandoned_cancelling recover_lost_leases
passes-Swept now name fresh cap response locked jobs =
    let (first, second, third) = passes-again now name fresh cap response locked jobs in
    (
      update_where-Pairwise (is_overdue now) (expire now name) (IsOverdue now) _
          (λ r. overdue_columns now (is_terminal r.job.lifecycle) r.job.expires_at)
          (expire-EndedNow now name) jobs,
      update_where-Pairwise (is_orphaned_cancelling now) (cancel_orphan now name) (IsOrphaned now) _
          (λ r. orphaned_columns now r.job.lifecycle r.job.lease_expires_at)
          (cancel_orphan-EndedNow now name) jobs,
      update_where-Pairwise (is_recovered now locked)
          (λ r. recover now name (fresh r.job.id) cap response r) (IsLost now locked)
          (IsRecovery now cap) (IsLost-iff now locked)
          (λ r. recover-IsRecovery now name (fresh r.job.id) cap response r) jobs,
      first,
      second,
      third,
    )
