-- ===== src/Engine/Budget.antt =====
-- The budget of a job's model calls (crates/chat/src/engine/repository.rs).
use fineract_ai_backend.Prelude.{
  ℕ, ◌+◌, ◌-◌, ◌≡◌, ◌≤◌, refl, String, Bool, true, ◌&&◌, Option, some, arith, ltb, leb, coalesce,
  Bool-cases, inl, inr, if◌then◌else◌, subst,
}
use fineract_ai_backend.Store.Rows.{Job, JobRows}
use fineract_ai_backend.Engine.Model.{
  ModelAdmission, CallDetail, calls_of, is_active, is_admissible_call, admit_model, finish_model,
}
use fineract_ai_backend.Protocol.Step.{committed}

-- What an admission did to the job: it reserved within the limits, or changed nothing.
abbrev pub IsReserved : ℕ → ℕ → ℕ → JobRows → JobRows × ModelAdmission → Type 0
IsReserved max_calls max_tokens reserved r (u, ModelAdmission.admitted call expires_at attempt) =
    (u.job.model_call_count ≡ r.job.model_call_count + 1)
    × (u.job.model_call_count ≤ max_calls)
    × (u.job.token_cost ≡ r.job.token_cost + reserved)
    × (u.job.token_cost ≤ max_tokens)
IsReserved max_calls max_tokens reserved r (u, ModelAdmission.budget_exhausted) = u ≡ r
IsReserved max_calls max_tokens reserved r (u, ModelAdmission.fenced) = u ≡ r

and4 :
    (a b c d : Bool) → (a && b && c && d) ≡ true → (a ≡ true) × (b ≡ true) × (c ≡ true) × (d ≡ true)
and4 a b c d h = ground arith

ltb_bound : (a b : ℕ) → ltb a b ≡ true → a + 1 ≤ b
ltb_bound a b h = ground arith

leb_bound : (a b : ℕ) → leb a b ≡ true → a ≤ b
leb_bound a b h = ground arith

reserved_bounds :
    (now token max_calls max_tokens reserved : ℕ) (key : String) (max_attempts : ℕ) (j : Job)
    → is_admissible_call now token max_calls max_tokens reserved key max_attempts j ≡ true
    → (j.model_call_count + 1 ≡ j.model_call_count + 1)
      × (j.model_call_count + 1 ≤ max_calls)
      × (j.token_cost + reserved ≡ j.token_cost + reserved)
      × (j.token_cost + reserved ≤ max_tokens)
reserved_bounds now token max_calls max_tokens reserved key max_attempts j h =
    let (active, calls, tokens, attempts) =
      and4 (is_active now token j) (ltb j.model_call_count max_calls)
        (leb (j.token_cost + reserved) max_tokens)
        (ltb (calls_of key j.planner_call_counts) max_attempts) h in
    (refl, ltb_bound _ _ calls, refl, leb_bound _ _ tokens)

refusal :
    (now token max_calls max_tokens reserved : ℕ) (r : JobRows)
    → IsReserved max_calls max_tokens reserved r (
      r,
      if is_active now token r.job then ModelAdmission.budget_exhausted else ModelAdmission.fenced,
    )
refusal now token max_calls max_tokens reserved r = elim (Bool-cases (is_active now token r.job)) [
  | inl active ↦ rw active refl
  | inr lost ↦ rw lost refl
]

-- A model call is admitted only within the two limits: it counts one call and reserves its tokens,
-- and neither total passes its limit; a call that is refused changes nothing.
pub admit_model-IsReserved :
    (now call token max_calls max_tokens reserved : ℕ) (key : String) (max_attempts : ℕ)
    (detail : CallDetail) (r : JobRows)
    → IsReserved max_calls max_tokens reserved r
        (admit_model now call token max_calls max_tokens reserved key max_attempts detail r)
unfolding admit_model
admit_model-IsReserved now call token max_calls max_tokens reserved key max_attempts detail r =
    elim (Bool-cases
      (is_admissible_call now token max_calls max_tokens reserved key max_attempts r.job)) [
        | inl within ↦
            rw within (
              reserved_bounds now token max_calls max_tokens reserved key max_attempts r.job within)
        | inr beyond ↦ rw beyond (refusal now token max_calls max_tokens reserved r)
      ]

admitted-cost :
    (now call token max_calls max_tokens reserved : ℕ) (key : String) (max_attempts : ℕ)
    (detail : CallDetail) (r u : JobRows) (id : ℕ) (expires_at : Option ℕ) (attempt : ℕ)
    → admit_model now call token max_calls max_tokens reserved key max_attempts detail r
      ≡ (u, ModelAdmission.admitted id expires_at attempt)
    → u.job.token_cost ≡ r.job.token_cost + reserved
admitted-cost now call token max_calls max_tokens reserved key max_attempts detail r u id expires_at
      attempt e =
    (subst (IsReserved max_calls max_tokens reserved r) e (
      admit_model-IsReserved now call token max_calls max_tokens reserved key max_attempts detail
        r)).2

settled_cost : (u r reserved charged : ℕ) → u ≡ r + reserved → u + charged - reserved ≡ r + charged
settled_cost u r reserved charged h = omega arith

-- A model call that was admitted and then finished has charged the job what was observed of it, and
-- what was reserved where nothing was observed: nothing of the reservation stays.
pub finish_model-admit_model :
    (now call token max_calls max_tokens reserved : ℕ) (key : String) (max_attempts : ℕ)
    (detail : CallDetail) (r u v : JobRows) (id : ℕ) (expires_at : Option ℕ) (attempt : ℕ)
    (now' : ℕ) (observed : Option ℕ) (result : String) (failure : Option String) (duration : ℕ)
    → admit_model now call token max_calls max_tokens reserved key max_attempts detail r
      ≡ (u, ModelAdmission.admitted id expires_at attempt)
    → finish_model now' call token reserved observed result failure duration detail u ≡ some v
    → v.job.token_cost ≡ r.job.token_cost + coalesce observed reserved
unfolding finish_model
finish_model-admit_model now call token max_calls max_tokens reserved key max_attempts detail r u v
      id expires_at attempt now' observed result failure duration e f =
    committed (λ x. x.job.token_cost ≡ r.job.token_cost + coalesce observed reserved) _ f
      (λ _. settled_cost u.job.token_cost r.job.token_cost reserved (coalesce observed reserved) (
        admitted-cost now call token max_calls max_tokens reserved key max_attempts detail r u id
          expires_at attempt e))
