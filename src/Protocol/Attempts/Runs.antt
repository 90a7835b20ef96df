-- ===== src/Protocol/Attempts/Runs.antt =====
-- The numbers of a job's attempts after each write that changes them.
use fineract_ai_backend.Prelude.{
  ℕ, ◌≡◌, ◌≤◌, refl, sym, subst, Bool, List, [], ◌∷◌, String, where_rows, update_where, All,
  if-cases,
}
use fineract_ai_backend.Store.Rows.{JobRows, NodeRun}
use fineract_ai_backend.Engine.Settle.{
  FailureActor, announce_skipped, needs_skip, skip_attempt, skip_unadmitted_attempts,
}
use fineract_ai_backend.Engine.Reaper.{
  announce_abandoned, abandon_attempt, is_running_run, running_attempts, abandon_running_attempts,
}

module _ {A : Type 0} (P : A → Type 0) where
  pub All-update_where :
      (test : A → Bool) (set : A → A) (xs : List A)
      → ((x : A) → P x → P (set x))
      → All P xs
      → All P (update_where test set xs)
  All-update_where test set [] keep h = h
  All-update_where test set (x ∷ xs) keep h =
      (if-cases P (test x) (λ _. keep x h.0) (λ _. h.0), All-update_where test set xs keep h.1)

-- The attempt's number is from 1 to the cap.
abbrev pub IsCapped : ℕ → NodeRun → Type 0
IsCapped cap n = (1 ≤ n.attempt) × (n.attempt ≤ cap)

abbrev pub AreCapped : ℕ → JobRows → Type 0
AreCapped cap r = All (IsCapped cap) r.node_runs

announce_abandoned-node_runs :
    (now : ℕ) (name : String) (ns : List NodeRun) (r : JobRows)
    → (announce_abandoned now name ns r).node_runs ≡ r.node_runs
unfolding announce_abandoned
announce_abandoned-node_runs now name [] r = refl
announce_abandoned-node_runs now name (n ∷ ns) r = announce_abandoned-node_runs now name ns _

announce_skipped-node_runs :
    (now : ℕ) (actor : FailureActor) (ns : List NodeRun) (r : JobRows)
    → (announce_skipped now actor ns r).node_runs ≡ r.node_runs
unfolding announce_skipped
announce_skipped-node_runs now actor [] r = refl
announce_skipped-node_runs now actor (n ∷ ns) r = announce_skipped-node_runs now actor ns _

pub abandon-AreCapped :
    (cap now : ℕ) (name : String) (r : JobRows)
    → AreCapped cap r
    → AreCapped cap (abandon_running_attempts now name r)
unfolding abandon_running_attempts abandon_attempt
abandon-AreCapped cap now name r h =
    subst (All (IsCapped cap)) (sym (announce_abandoned-node_runs now name (running_attempts r) _))
      (All-update_where (IsCapped cap) is_running_run (abandon_attempt now) r.node_runs (λ _ x. x)
        h)

pub skip_unadmitted-AreCapped :
    (cap now : ℕ) (actor : FailureActor) (r : JobRows)
    → AreCapped cap r
    → AreCapped cap (skip_unadmitted_attempts now actor r)
unfolding skip_unadmitted_attempts skip_attempt
skip_unadmitted-AreCapped cap now actor r h =
    subst (All (IsCapped cap))
      (sym (announce_skipped-node_runs now actor (where_rows needs_skip r.node_runs) _))
      (All-update_where (IsCapped cap) needs_skip (skip_attempt now) r.node_runs (λ _ x. x) h)
