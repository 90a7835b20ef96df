-- ===== src/Job/OneActive.antt =====
-- A session has at most one job that has not ended (the index chat_jobs_one_active_per_session).
use fineract_ai_backend.Prelude.{
  ℕ, String, ◌≡◌, ◌≤◌, refl, subst, true, false, not, List, [], ◌∷◌, ◌++◌, arith, ◌==◌, any,
  Bool-cases, Option-cases, inl, inr, if-cases, count_where, count_where-append, none-count_where,
  find_where,
}
use text.Mathlib.Text.{◌==◌ as str_eq}
use fineract_ai_backend.Store.Rows.{JobRows}
use fineract_ai_backend.Job.Idempotency.{IdempotencyKey, Idempotency, KeyClaim, claim_idempotency}
use fineract_ai_backend.Job.Accept.{
  create_job, Db, PiiSetting, NewJob, Result, ok, err, is_active_in, accepted_rows,
  insert_job_chain, commit_chain, answer_claim, create_claimed, create_job, job_key,
}

-- The number of jobs of a session that have not ended.
abbrev pub active_jobs : ℕ → Db → ℕ
active_jobs session_id db = count_where (is_active_in session_id) db.jobs

abbrev pub HasOneActive : Db → Type 0
HasOneActive db = (session_id : ℕ) → active_jobs session_id db ≤ 1

-- What an insertion leaves: nothing, where it was refused.
abbrev ChainKeeps : Result (Db × JobRows) → Type 0
ChainKeeps (ok inserted) = HasOneActive inserted.0
ChainKeeps (err e) = Unit

accepted-session :
    (now job_id : ℕ) (pii : PiiSetting) (req : NewJob)
    → (accepted_rows now job_id pii req).job.session_id ≡ req.session_id
unfolding accepted_rows
accepted-session now job_id pii req = refl

eq_true : (a b : ℕ) → (a == b) ≡ true → a ≡ b
eq_true a b h = ground arith

insert_one :
    (now job_id : ℕ) (pii : PiiSetting) (req : NewJob) (jobs : List JobRows) (session_id : ℕ)
    → any (is_active_in req.session_id) jobs ≡ false
    → count_where (is_active_in session_id) jobs ≤ 1
    → count_where (is_active_in session_id) (jobs ++ accepted_rows now job_id pii req ∷ []) ≤ 1
unfolding accepted_rows
insert_one now job_id pii req jobs session_id free h =
    rw (count_where-append (is_active_in session_id) jobs (accepted_rows now job_id pii req))
      (elim (Bool-cases (req.session_id == session_id)) [
        | inl same ↦
            let none_before : count_where (is_active_in session_id) jobs ≡ 0 =
              subst (λ x. count_where (is_active_in x) jobs ≡ 0)
                (eq_true req.session_id session_id same)
                (none-count_where (is_active_in req.session_id) jobs free) in
            rw (same, none_before) (omega arith)
        | inr other ↦ rw other (omega arith)
      ])

insert_job_chain-keeps :
    (now job_id : ℕ) (pii : PiiSetting) (req : NewJob) (db : Db)
    → HasOneActive db
    → ChainKeeps (insert_job_chain now job_id pii req db)
unfolding insert_job_chain
insert_job_chain-keeps now job_id pii req db h =
    elim (Option-cases (find_where (λ s. s.id == req.session_id) db.sessions)) [
      | inl missing ↦ rw (missing, ChainKeeps) tt
      | inr (session, found) ↦
          rw (found, ChainKeeps)
            (if-cases ChainKeeps (not (session.owner_user_id == req.owner_user_id)) (λ _. tt)
              (λ _.
                if-cases ChainKeeps (not (str_eq session.status "active")) (λ _. tt)
                  (λ _.
                    if-cases ChainKeeps (any (is_active_in req.session_id) db.jobs) (λ _. tt)
                      (λ free session_id.
                        insert_one now job_id pii req db.jobs session_id free (h session_id)))))
    ]

commit_chain-keeps :
    (now id : ℕ) (keys : List IdempotencyKey) (db : Db) (inserted : Result (Db × JobRows))
    → HasOneActive db
    → ChainKeeps inserted
    → HasOneActive (commit_chain now id keys db inserted).0
commit_chain-keeps now id keys db (ok inserted) h k = k
commit_chain-keeps now id keys db (err e) h k = h

answer_claim-keeps :
    (now job_id : ℕ) (pii : PiiSetting) (req : NewJob) (db : Db)
    (claimed : List IdempotencyKey × Idempotency)
    → HasOneActive db
    → HasOneActive (answer_claim now job_id pii req db claimed).0
answer_claim-keeps now job_id pii req db (keys, Idempotency.claimed id) h =
    commit_chain-keeps now id keys db
      (insert_job_chain now job_id pii req (record db { keys = keys })) h
      (insert_job_chain-keeps now job_id pii req (record db { keys = keys }) h)
answer_claim-keeps now job_id pii req db (keys, Idempotency.replay status body) h = h
answer_claim-keeps now job_id pii req db (keys, Idempotency.mismatch) h = h
answer_claim-keeps now job_id pii req db (keys, Idempotency.in_progress) h = h

create_claimed-HasOneActive :
    (now ttl_secs key_id job_id : ℕ) (pii : PiiSetting) (c : KeyClaim) (req : NewJob) (db : Db)
    → HasOneActive db
    → HasOneActive (create_claimed now ttl_secs key_id job_id pii c req db).0
unfolding create_claimed
create_claimed-HasOneActive now ttl_secs key_id job_id pii c req db h =
    answer_claim-keeps now job_id pii req db (claim_idempotency now ttl_secs key_id c db.keys) h

-- Where every session has at most one job that has not ended, a request for a job leaves it so,
-- whether it is accepted, replayed or refused.
pub create_job-HasOneActive :
    (now ttl_secs key_id job_id : ℕ) (pii : PiiSetting) (key fingerprint : String) (req : NewJob)
    (db : Db)
    → HasOneActive db
    → HasOneActive (create_job now ttl_secs key_id job_id pii key fingerprint req db).0
create_job-HasOneActive now ttl_secs key_id job_id pii key fingerprint req db h =
    create_claimed-HasOneActive now ttl_secs key_id job_id pii
      (job_key req.owner_user_id key fingerprint) req db h
