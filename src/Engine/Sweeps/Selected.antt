-- ===== src/Engine/Sweeps/Selected.antt =====
-- Which jobs the reaper's passes select (the WHERE clauses of settle_expired,
-- settle_abandoned_cancelling and recover_lost_leases, crates/chat/src/engine/repository.rs).
use fineract_ai_backend.Prelude.{
  ℕ, ◌<◌, ◌≡◌, refl, ◌⊎◌, inl, inr, Bool, true, false, ◌&&◌, ◌||◌, not, Option, none, some,
  lt_column, is_none, is_some, arith,
}
use fineract_ai_backend.Store.Vocabulary.{Lifecycle, is_terminal, is_cancelling, is_running}
use fineract_ai_backend.Store.Rows.{JobRows}
use fineract_ai_backend.Engine.Reaper.{is_recovered}

-- The time of a nullable column has passed.
abbrev pub HasPassed : ℕ → Option ℕ → Type 0
HasPassed now column = (at : ℕ) × (column ≡ some at) × (at < now)

-- The job has not ended, and its time is over.
abbrev pub IsOverdue : ℕ → JobRows → Type 0
IsOverdue now r = (is_terminal r.job.lifecycle ≡ false) × HasPassed now r.job.expires_at

-- The user cancels the job, and no worker holds it.
abbrev pub IsOrphaned : ℕ → JobRows → Type 0
IsOrphaned now r =
    (r.job.lifecycle ≡ Lifecycle.cancelling)
    × ((r.job.lease_expires_at ≡ none) ⊎ HasPassed now r.job.lease_expires_at)

-- The worker of a running job lost it, and no transaction has the row locked.
abbrev pub IsLost : ℕ → (ℕ → Bool) → JobRows → Type 0
IsLost now locked r =
    (r.job.lifecycle ≡ Lifecycle.running)
    × HasPassed now r.job.lease_expires_at
    × (locked r.job.id ≡ false)

and_parts : (a b : Bool) → (a && b) ≡ true → (a ≡ true) × (b ≡ true)
and_parts a b h = ground arith

passed_column :
    (now : ℕ) (o : Option ℕ)
    → (lt_column o now ≡ true → HasPassed now o) × (HasPassed now o → lt_column o now ≡ true)
passed_column now none = (λ h. cc, λ (at, e, h). cc)
passed_column now (some t) = (λ h. (t, refl, ground arith), λ (at, e, h). ground arith)

pub overdue_columns :
    (now : ℕ) (ended : Bool) (o : Option ℕ)
    → (not ended && is_some o && lt_column o now ≡ true → (ended ≡ false) × HasPassed now o)
      × ((ended ≡ false) × HasPassed now o → not ended && is_some o && lt_column o now ≡ true)
overdue_columns now true o = (λ h. cc, λ h. cc h.0)
overdue_columns now false none = (λ h. cc, λ (e, (at, f, h)). cc)
overdue_columns now false (some t) =
    let (there, back) = passed_column now (some t) in (λ h. (refl, there h), λ h. back h.1)

pub orphaned_columns :
    (now : ℕ) (l : Lifecycle) (o : Option ℕ)
    → (is_cancelling l && (is_none o || lt_column o now) ≡ true
        → (l ≡ Lifecycle.cancelling) × ((o ≡ none) ⊎ HasPassed now o))
      × ((l ≡ Lifecycle.cancelling) × ((o ≡ none) ⊎ HasPassed now o)
          → is_cancelling l && (is_none o || lt_column o now) ≡ true)
orphaned_columns now Lifecycle.cancelling none = (λ h. (refl, inl refl), λ h. refl)
orphaned_columns now Lifecycle.cancelling (some t) =
    let (there, back) = passed_column now (some t) in
    (λ h. (refl, inr (there h)), λ h. elim h.1 [ inl e ↦ cc | inr p ↦ back p ])
orphaned_columns now Lifecycle.queued o = (λ h. cc, λ h. cc h.0)
orphaned_columns now Lifecycle.running o = (λ h. cc, λ h. cc h.0)
orphaned_columns now Lifecycle.waiting_for_user o = (λ h. cc, λ h. cc h.0)
orphaned_columns now Lifecycle.completed o = (λ h. cc, λ h. cc h.0)
orphaned_columns now Lifecycle.failed o = (λ h. cc, λ h. cc h.0)
orphaned_columns now Lifecycle.cancelled o = (λ h. cc, λ h. cc h.0)
orphaned_columns now Lifecycle.expired o = (λ h. cc, λ h. cc h.0)

running_iff :
    (l : Lifecycle)
    → (is_running l ≡ true → l ≡ Lifecycle.running) × (l ≡ Lifecycle.running → is_running l ≡ true)
running_iff l = (λ h. ground arith, λ h. ground arith)

lost_columns :
    (now : ℕ) (runs locked : Bool) (o : Option ℕ)
    → ((runs && is_some o && lt_column o now) && not locked ≡ true
        → (runs ≡ true) × HasPassed now o × (locked ≡ false))
      × ((runs ≡ true) × HasPassed now o × (locked ≡ false)
          → (runs && is_some o && lt_column o now) && not locked ≡ true)
lost_columns now false locked o = (λ h. cc, λ h. cc h.0)
lost_columns now true locked none = (λ h. cc, λ (e, (at, f, h), free). cc)
lost_columns now true locked (some t) =
    let (there, back) = passed_column now (some t) in
    (
      λ h. (refl, there (and_parts (lt_column (some t) now) (not locked) h).0, ground arith),
      λ (e, p, free). rw (back p, free) refl,
    )

pub IsLost-iff :
    (now : ℕ) (locked : ℕ → Bool) (r : JobRows)
    → (is_recovered now locked r ≡ true → IsLost now locked r)
      × (IsLost now locked r → is_recovered now locked r ≡ true)
IsLost-iff now locked r =
    let (there, back) =
      lost_columns now (is_running r.job.lifecycle) (locked r.job.id) r.job.lease_expires_at in
    let (run, runs) = running_iff r.job.lifecycle in
    (λ h. (run (there h).0, (there h).1, (there h).2), λ (l, p, free). back (runs l, p, free))
