-- ===== src/Engine/Passes.antt =====
-- The reaper's passes leave nothing of what they select (crates/chat/src/engine/repository.rs).
use fineract_ai_backend.Prelude.{
  ℕ, String, ◌≡◌, refl, ap, Bool, false, ◌&&◌, not, List, [], ◌∷◌, Bool-cases, inl, inr, any,
  update_where, count_where,
}
use fineract_ai_backend.Store.Vocabulary.{Lifecycle, is_running}
use fineract_ai_backend.Store.Rows.{JobRows}
use fineract_ai_backend.Engine.Settle.{SettledResponse, skip_unadmitted_attempts, reaper}
use fineract_ai_backend.Engine.Reaper.{
  is_overdue, expire, settle_expired, is_orphaned_cancelling, cancel_orphan,
  settle_abandoned_cancelling, recover, recover_lost_leases, is_recovered, is_exhausted, is_at_cap,
  running_attempts, abandon_running_attempts,
}
use fineract_ai_backend.Protocol.Frames.{skip_unadmitted-frame, abandon-frame}

-- What a pass leaves does not satisfy its test again.
module _ {A : Type 0} (test : A → Bool) (set : A → A)
    (treated : (x : A) → test (set x) ≡ false) where
  update_where-again :
      (xs : List A) → update_where test set (update_where test set xs) ≡ update_where test set xs
  update_where-again [] = refl
  update_where-again (x ∷ xs) = elim (Bool-cases (test x)) [
    | inl found ↦ rw (found, treated x) (ap (λ l. set x ∷ l) (update_where-again xs))
    | inr passed ↦ rw (passed, passed) (ap (λ l. x ∷ l) (update_where-again xs))
  ]

  -- Nor any stronger test.
  count_where-again :
      (xs : List A) (other : A → Bool)
      → ((x : A) → test x ≡ false → other x ≡ false)
      → count_where other (update_where test set xs) ≡ 0
  count_where-again [] other weaker = refl
  count_where-again (x ∷ xs) other weaker = elim (Bool-cases (test x)) [
    | inl found ↦ rw (found, weaker (set x) (treated x)) (count_where-again xs other weaker)
    | inr passed ↦ rw (passed, weaker x passed) (count_where-again xs other weaker)
  ]

swept-lifecycle :
    (now : ℕ) (name : String) (l : Lifecycle) (r : JobRows)
    → r.job.lifecycle ≡ l
    → (skip_unadmitted_attempts now
        (reaper name)
        (abandon_running_attempts now name r)).job.lifecycle
      ≡ l
swept-lifecycle now name l r h =
    skip_unadmitted-frame (λ j. j.lifecycle ≡ l) (λ _ _ _ x. x) now (reaper name) _
      (abandon-frame (λ j. j.lifecycle ≡ l) (λ _ _ _ x. x) now name r h)

expire-lifecycle :
    (now : ℕ) (name : String) (r : JobRows) → (expire now name r).job.lifecycle ≡ Lifecycle.expired
unfolding expire
expire-lifecycle now name r = swept-lifecycle now name Lifecycle.expired _ refl

cancel_orphan-lifecycle :
    (now : ℕ) (name : String) (r : JobRows)
    → (cancel_orphan now name r).job.lifecycle ≡ Lifecycle.cancelled
unfolding cancel_orphan
cancel_orphan-lifecycle now name r = swept-lifecycle now name Lifecycle.cancelled _ refl

recover-lifecycle :
    (now : ℕ) (name : String) (fresh : ℕ → ℕ) (cap : ℕ) (response : SettledResponse) (r : JobRows)
    → is_running (recover now name fresh cap response r).job.lifecycle ≡ false
unfolding recover
recover-lifecycle now name fresh cap response r =
    elim (Bool-cases (any (is_at_cap cap) (running_attempts r))) [
      | inl full ↦ rw full refl
      | inr room ↦ rw room refl
    ]

expire-treated :
    (now : ℕ) (name : String) (r : JobRows) → is_overdue now (expire now name r) ≡ false
expire-treated now name r = rw (expire-lifecycle now name r) refl

cancel_orphan-treated :
    (now : ℕ) (name : String) (r : JobRows)
    → is_orphaned_cancelling now (cancel_orphan now name r) ≡ false
cancel_orphan-treated now name r = rw (cancel_orphan-lifecycle now name r) refl

recover-treated :
    (now : ℕ) (name : String) (fresh : ℕ → ℕ) (cap : ℕ) (response : SettledResponse)
    (locked : ℕ → Bool) (r : JobRows)
    → is_recovered now locked (recover now name fresh cap response r) ≡ false
recover-treated now name fresh cap response locked r =
    rw (recover-lifecycle now name fresh cap response r) refl

-- A pass of the reaper repeated at the same time changes nothing and counts no job.
pub passes-again :
    (now : ℕ) (name : String) (fresh : ℕ → ℕ → ℕ) (cap : ℕ) (response : SettledResponse)
    (locked : ℕ → Bool) (jobs : List JobRows)
    → (settle_expired now name (settle_expired now name jobs).0
        ≡ ((settle_expired now name jobs).0, 0))
      × (settle_abandoned_cancelling now name (settle_abandoned_cancelling now name jobs).0
          ≡ ((settle_abandoned_cancelling now name jobs).0, 0))
      × (recover_lost_leases now name fresh cap response locked
            (recover_lost_leases now name fresh cap response locked jobs).0
          ≡ ((recover_lost_leases now name fresh cap response locked jobs).0, 0, 0))
unfolding settle_expired settle_abandoned_cancelling recover_lost_leases
passes-again now name fresh cap response locked jobs =
    let expired = expire-treated now name in
    let cancelled = cancel_orphan-treated now name in
    let recovered =
      λ (r : JobRows). recover-treated now name (fresh r.job.id) cap response locked r in
    (
      rw
          (
            update_where-again (is_overdue now) (expire now name) expired jobs,
            count_where-again (is_overdue now) (expire now name) expired jobs (is_overdue now)
                (λ _ h. h),
          )
          refl,
      rw
          (
            update_where-again (is_orphaned_cancelling now) (cancel_orphan now name) cancelled jobs,
            count_where-again (is_orphaned_cancelling now) (cancel_orphan now name) cancelled jobs
                (is_orphaned_cancelling now) (λ _ h. h),
          )
          refl,
      rw
          (
            update_where-again (is_recovered now locked)
                (λ r. recover now name (fresh r.job.id) cap response r) recovered jobs,
            count_where-again (is_recovered now locked)
                (λ r. recover now name (fresh r.job.id) cap response r) recovered jobs
                (λ r. is_recovered now locked r && not (is_exhausted cap r)) (λ _ h. rw h refl),
            count_where-again (is_recovered now locked)
                (λ r. recover now name (fresh r.job.id) cap response r) recovered jobs
                (λ r. is_recovered now locked r && is_exhausted cap r) (λ _ h. rw h refl),
          )
          refl,
    )
