-- ===== src/Engine/Oldest.antt =====
-- Which job a worker claims (crates/chat/src/engine/repository.rs).
use fineract_ai_backend.Prelude.{
  ℕ, ◌≡◌, ◌≤◌, refl, Bool, true, false, ◌&&◌, not, ◌⊎◌, Option, none, some, List, [], ◌∷◌, ltb, All,
  Bool-cases, if-cases, inl, inr, arith,
}
use fineract_ai_backend.Store.Rows.{JobRows}
use fineract_ai_backend.Engine.Claim.{is_claimable, older, next_claimable}

before_le : (a b : ℕ) → ltb a b ≡ true → a ≤ b
before_le a b h = ground arith

not_before_le : (a b : ℕ) → ltb a b ≡ false → b ≤ a
not_before_le a b h = ground arith

both {ℓ} : {B : Type ℓ} {b : Bool} → b ≡ false → b ≡ true → B
both h k = cc

module _ (now : ℕ) (locked : ℕ → Bool) where
  -- The job is queued, due and not locked by another transaction.
  abbrev pub is_free : JobRows → Bool
  is_free r = is_claimable now r.job && not (locked r.job.id)

  abbrev pub IsIn : JobRows → List JobRows → Type 0
  IsIn r [] = ⊥
  IsIn r (s ∷ ss) = (r ≡ s) ⊎ IsIn r ss

  -- No free job of the list was created before this one.
  abbrev pub IsOldest : JobRows → List JobRows → Type 0
  IsOldest r = All (λ s. is_free s ≡ true → r.job.created_at ≤ s.job.created_at)

  abbrev pub IsNext : List JobRows → Option JobRows → Type 0
  IsNext jobs none = All (λ s. is_free s ≡ false) jobs
  IsNext jobs (some r) = IsIn r jobs × (is_free r ≡ true) × IsOldest r jobs

  -- Where nothing is free, any job is the oldest.
  none_older : (r : JobRows) (rs : List JobRows) → All (λ s. is_free s ≡ false) rs → IsOldest r rs
  none_older r [] h = tt
  none_older r (s ∷ ss) h = ((λ free. both h.0 free), none_older r ss h.1)

  IsOldest-before :
      (r s : JobRows) (rs : List JobRows)
      → r.job.created_at ≤ s.job.created_at
      → IsOldest s rs
      → IsOldest r rs
  IsOldest-before r s [] le h = tt
  IsOldest-before r s (x ∷ xs) le h =
      ((λ free. omega (arith, h.0 free)), IsOldest-before r s xs le h.1)

  older-IsNext :
      (r : JobRows) (rs : List JobRows) (o : Option JobRows)
      → is_free r ≡ true
      → IsNext rs o
      → IsNext (r ∷ rs) (some (older r o))
  older-IsNext r rs none free h = (inl refl, free, ((λ _. omega arith), none_older r rs h))
  older-IsNext r rs (some s) free h =
      if-cases (λ x. IsNext (r ∷ rs) (some x)) (ltb s.job.created_at r.job.created_at) {x = s}
        {y = r} (λ before. (inr h.0, h.1, ((λ _. before_le _ _ before), h.2)))
        (λ not_before. (
          inl refl,
          free,
          ((λ _. omega arith), IsOldest-before r s rs (not_before_le _ _ not_before) h.2),
        ))

  skipped-IsNext :
      (r : JobRows) (rs : List JobRows) (o : Option JobRows)
      → is_free r ≡ false
      → IsNext rs o
      → IsNext (r ∷ rs) o
  skipped-IsNext r rs none busy h = (busy, h)
  skipped-IsNext r rs (some s) busy h = (inr h.0, h.1, ((λ free. both busy free), h.2))

  -- The job that a worker claims is one of the queue's that is queued, has no running lease and
  -- time left, and is not locked by another transaction, and it is the oldest of those; where the
  -- worker claims none, there is none.
  pub next_claimable-IsNext : (jobs : List JobRows) → IsNext jobs (next_claimable now locked jobs)
  unfolding next_claimable
  next_claimable-IsNext [] = tt
  next_claimable-IsNext (r ∷ rs) =
      let rest = next_claimable-IsNext rs in
      elim (Bool-cases (is_free r)) [
        | inl free ↦ rw free (older-IsNext r rs (next_claimable now locked rs) free rest)
        | inr busy ↦ rw busy (skipped-IsNext r rs (next_claimable now locked rs) busy rest)
      ]
