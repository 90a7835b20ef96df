-- ===== src/Engine/Plan.antt =====
-- persist_plan (T3, crates/chat/src/engine/repository.rs). `jsonb_eq` is PostgreSQL's equality of
-- jsonb values, and `node_run_id` the default of job_node_runs.id.
use text.Mathlib.Text.{◌==◌ as str_eq}
use fineract_ai_backend.Prelude.{
  ℕ, String, Bool, ◌&&◌, Option, none, some, [], ◌∷◌, ◌++◌, ◌==◌, find_where, if◌then◌else◌,
}
use fineract_ai_backend.Prelude.Json.{Json, str, num, obj, field, end}
use fineract_ai_backend.Store.Vocabulary.{NodeStatus}
use fineract_ai_backend.Store.Rows.{Plan, NodeRun, no_references, JobRows, audit_of}
use fineract_ai_backend.Store.Events.{append_event_ref, insert_audit}
use fineract_ai_backend.Store.Lease.{holds}

pub data PlanPersisted : Type 0 where
  fenced persisted adopted changed : PlanPersisted

-- The arguments that describe the verified plan.
pub record VerifiedPlan : Type 0 where
  pub plan_version : ℕ
  pub graph_json : Json
  pub graph_hash : String
  pub contract_versions : Json
  pub capability_id : String

-- The job's first attempt at a plan's one node.
abbrev pub first_attempt : ℕ → ℕ → ℕ → NodeRun
first_attempt now node_run_id plan_version = record {
  id = node_run_id;
  plan_version = plan_version;
  node_id = "main";
  node_kind = "CuratedQuery";
  attempt = 1;
  status = NodeStatus.runnable;
  completeness = none;
  completeness_reason = none;
  failure_code = none;
  input_binding_json = none;
  input_binding_hash = none;
  output_json = none;
  provenance_json = obj end;
  rows_returned = none;
  duration_ms = none;
  started_at = some now;
  finished_at = none;
}

-- The event and the audit row of a plan that the worker goes on with.
abbrev announce_plan : ℕ → VerifiedPlan → String → JobRows → JobRows
announce_plan now p action r =
    insert_audit
      (record (audit_of "worker" r.job.id "plan_verify" action "ok") {
        session_id = some r.job.session_id;
        detail_json = obj (
            field "plan_version" (num p.plan_version) (
              field "graph_hash" (str p.graph_hash)
                (field "capability_id" (str p.capability_id) end)));
      })
      (append_event_ref now "job.phase_changed"
        (record no_references { plan_version = some p.plan_version })
        (some (
          obj
            (field "phase" (str "planning") (field "message" (str "Preparing the analysis.") end))))
        r)

abbrev plan_job : ℕ → VerifiedPlan → JobRows → JobRows
plan_job now p r = record r {
  job = record (r.job) { plan_version = some p.plan_version; updated_at = now };
}

-- The stored plan is the verified one: its attempts go on.
unfoldable pub adopt : ℕ → VerifiedPlan → JobRows → JobRows
unfolding append_event_ref insert_audit
adopt now p r = announce_plan now p "plan.adopted" (plan_job now p r)

-- The first time: the plan and its first attempt are inserted.
unfoldable pub insert_plan : ℕ → ℕ → VerifiedPlan → JobRows → JobRows
unfolding append_event_ref insert_audit
insert_plan now node_run_id p r = announce_plan now p "plan.persisted" (record (plan_job now p r) {
  plans =
      r.plans
      ++ record {
        plan_version = p.plan_version;
        graph_json = p.graph_json;
        graph_hash = p.graph_hash;
        contract_versions_json = p.contract_versions;
        verified_at = some now;
      }
        ∷ [];
  node_runs = r.node_runs ++ first_attempt now node_run_id p.plan_version ∷ [];
})

module _ (jsonb_eq : Json → Json → Bool) where
  pub is_same_plan : VerifiedPlan → Plan → Bool
  is_same_plan p stored =
      str_eq stored.graph_hash p.graph_hash
      && jsonb_eq stored.contract_versions_json p.contract_versions

  -- `match existing`
  unfoldable pub persist_over :
      ℕ → ℕ → VerifiedPlan → JobRows → Option Plan → JobRows × PlanPersisted
  persist_over now node_run_id p r none = (insert_plan now node_run_id p r, persisted)
  persist_over now node_run_id p r (some stored) =
      if is_same_plan p stored then (adopt now p r, adopted) else (r, changed)

  unfoldable pub persist_plan : ℕ → ℕ → ℕ → VerifiedPlan → JobRows → JobRows × PlanPersisted
  persist_plan now node_run_id lease_token p r =
      if holds lease_token r.job
      then persist_over now node_run_id p r
          (find_where (λ q. q.plan_version == p.plan_version) r.plans)
      else (r, fenced)
