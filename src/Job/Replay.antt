-- ===== src/Job/Replay.antt =====
-- A request that is sent again is answered from its key (crates/chat/src/job/repository.rs).
use text.Mathlib.Text.{◌==◌ as str_eq}
use text.Mathlib.TextPositions.{eq_refl}
use fineract_ai_backend.Prelude.{
  ℕ, String, ◌≡◌, refl, sym, ◌∙◌, ap, Bool, true, false, not, Option, none, some, List, [], ◌∷◌,
  ◌++◌, arith, ◌==◌, Bool-cases, Option-cases, inl, inr, if-cases, if◌then◌else◌, find_where,
}
use fineract_ai_backend.Prelude.Json.{Json}
use fineract_ai_backend.Store.Rows.{Job, JobRows}
use fineract_ai_backend.Job.Idempotency.{
  IdempotencyKey, KeyStatus, Idempotency, KeyClaim, new_key, completed_row, is_key_of, verdict_of,
  answer_of, claim_idempotency, complete_key,
}
use fineract_ai_backend.Job.Accept.{
  Db, PiiSetting, NewJob, Result, ok, err, CreateError, Accepted, created, replayed,
  acknowledgement, commit_chain, answer_claim, create_claimed, create_job, job_key,
}

eq_self : (n : ℕ) → (n == n) ≡ true
eq_self n = ground arith

no_key :
    {b : Bool} (k : IdempotencyKey) (o : Option IdempotencyKey)
    → b ≡ true
    → (if b then some k else o) ≡ none
    → ⊥
no_key k o h e = cc (rw h at e)

-- The columns that a completed key has beside those of the claim.
abbrev IsCompleted : Json → KeyClaim → IdempotencyKey → Type 0
IsCompleted body c k =
    (k.request_fingerprint ≡ c.fingerprint)
    × (k.status ≡ KeyStatus.completed)
    × (k.response_status ≡ some 202)
    × (k.response_body_json ≡ some body)

completed-is_key_of :
    (b : Bool) (c : KeyClaim) (k : IdempotencyKey) (now job_id : ℕ) (body : Json)
    → is_key_of c (if b then completed_row now body job_id k else k) ≡ is_key_of c k
unfolding is_key_of
completed-is_key_of true c k now job_id body = refl
completed-is_key_of false c k now job_id body = refl

new-is_key_of :
    (now ttl_secs id : ℕ) (c : KeyClaim) → is_key_of c (new_key now ttl_secs id c) ≡ true
unfolding is_key_of
new-is_key_of now ttl_secs id c =
    rw (eq_self c.owner_user_id, eq_refl c.operation, eq_refl c.key) refl

-- The key that a claim inserted is found completed.
find-complete_key :
    (now ttl_secs id : ℕ) (c : KeyClaim) (body : Json) (now' job_id : ℕ)
    (keys : List IdempotencyKey)
    → find_where (is_key_of c) keys ≡ none
    → (k : IdempotencyKey) × (find_where
          (is_key_of c)
          (complete_key now' id body job_id (keys ++ new_key now ttl_secs id c ∷ []))
        ≡ some k)
      × IsCompleted body c k
unfolding complete_key
find-complete_key now ttl_secs id c body now' job_id [] h =
    let row = new_key now ttl_secs id c in
    (
      completed_row now' body job_id row,
      rw (eq_self id) (
          rw (completed-is_key_of true c row now' job_id body ∙ new-is_key_of now ttl_secs id c)
            refl),
      (refl, refl, refl, refl),
    )
find-complete_key now ttl_secs id c body now' job_id (k ∷ keys) h =
    elim (Bool-cases (is_key_of c k)) [
      | inl found ↦ absurd (no_key k _ found h)
      | inr other ↦
          rw (completed-is_key_of (k.id == id) c k now' job_id body ∙ other)
            (find-complete_key now ttl_secs id c body now' job_id keys (rw other at h))
    ]

-- The answer of a completed key to the same payload, and to another one.
completed-answer_of :
    (c : KeyClaim) (body : Json) (k : IdempotencyKey)
    → IsCompleted body c k
    → answer_of c k ≡ Idempotency.replay 202 body
unfolding answer_of verdict_of
completed-answer_of c body k h = rw (h.0, h.1, h.2, h.3, eq_refl c.fingerprint) refl

refusal : {e : CreateError} {a : Accepted} → err e ≡ ok a → ⊥
refusal e = cc

not_replayed : {status : ℕ} {body : Json} {j : Job} → ok (replayed status body) ≡ ok (created j) → ⊥
not_replayed e = cc

told : Result Accepted → Job → Job
told (ok (created j)) d = j
told _ d = d

-- What an acceptance tells: the key is completed with the acknowledgement of the job.
accepted-keys :
    (now id : ℕ) (keys : List IdempotencyKey) (db db' : Db) (inserted : Result (Db × JobRows))
    (j : Job)
    → commit_chain now id keys db inserted ≡ (db', ok (created j))
    → db'.keys ≡ complete_key now id (acknowledgement j) j.id keys
unfolding told
accepted-keys now id keys db db' (ok (db'', r)) j e =
    let same : r.job ≡ j = ap (λ x. told x.1 r.job) e in
    sym (ap (λ x. x.0.keys) e) ∙ ap (λ x. complete_key now id (acknowledgement x) x.id keys) same
accepted-keys now id keys db db' (err error) j e = absurd (refusal (ap (λ x. x.1) e))

verdict_not_accepted :
    (now job_id : ℕ) (pii : PiiSetting) (req : NewJob) (db db' : Db) (keys : List IdempotencyKey)
    (status : KeyStatus) (response_status : Option ℕ) (body : Option Json) (j : Job)
    → answer_claim now job_id pii req db (keys, verdict_of status response_status body)
      ≡ (db', ok (created j))
    → ⊥
unfolding verdict_of
verdict_not_accepted now job_id pii req db db' keys KeyStatus.completed (some s) (some b) j e =
    not_replayed (ap (λ x. x.1) e)
verdict_not_accepted now job_id pii req db db' keys KeyStatus.completed (some s) none j e =
    refusal (ap (λ x. x.1) e)
verdict_not_accepted now job_id pii req db db' keys KeyStatus.completed none b j e =
    refusal (ap (λ x. x.1) e)
verdict_not_accepted now job_id pii req db db' keys KeyStatus.in_progress s b j e =
    refusal (ap (λ x. x.1) e)

-- A stored key is never a new claim.
stored_not_accepted :
    (now job_id : ℕ) (pii : PiiSetting) (req : NewJob) (db db' : Db) (keys : List IdempotencyKey)
    (c : KeyClaim) (k : IdempotencyKey) (j : Job)
    → answer_claim now job_id pii req db (keys, answer_of c k) ≡ (db', ok (created j))
    → ⊥
unfolding answer_of
stored_not_accepted now job_id pii req db db' keys c k j =
    if-cases (λ v. answer_claim now job_id pii req db (keys, v) ≡ (db', ok (created j)) → ⊥)
      (not (str_eq k.request_fingerprint c.fingerprint)) (λ _ e. refusal (ap (λ x. x.1) e))
      (λ _.
        verdict_not_accepted now job_id pii req db db' keys k.status k.response_status
          k.response_body_json j)

module _ (now ttl_secs key_id job_id : ℕ) (pii : PiiSetting) (c : KeyClaim) (req : NewJob)
    (db : Db) where
  claim-new :
      find_where (is_key_of c) db.keys ≡ none
      → claim_idempotency now ttl_secs key_id c db.keys
        ≡ (db.keys ++ new_key now ttl_secs key_id c ∷ [], Idempotency.claimed key_id)
  unfolding claim_idempotency
  claim-new h = rw (h, claim_idempotency) refl

  claim-stored :
      (k : IdempotencyKey)
      → find_where (is_key_of c) db.keys ≡ some k
      → claim_idempotency now ttl_secs key_id c db.keys ≡ (db.keys, answer_of c k)
  unfolding claim_idempotency
  claim-stored k h = rw (h, claim_idempotency) refl

  create_claimed-new :
      find_where (is_key_of c) db.keys ≡ none
      → create_claimed now ttl_secs key_id job_id pii c req db
        ≡ answer_claim now job_id pii req db
            (db.keys ++ new_key now ttl_secs key_id c ∷ [], Idempotency.claimed key_id)
  unfolding create_claimed
  create_claimed-new h = ap (answer_claim now job_id pii req db) (claim-new h)

  create_claimed-stored :
      (k : IdempotencyKey)
      → find_where (is_key_of c) db.keys ≡ some k
      → create_claimed now ttl_secs key_id job_id pii c req db
        ≡ answer_claim now job_id pii req db (db.keys, answer_of c k)
  unfolding create_claimed
  create_claimed-stored k h = ap (answer_claim now job_id pii req db) (claim-stored k h)

accepted-find :
    (now ttl_secs key_id job_id : ℕ) (pii : PiiSetting) (c : KeyClaim) (req : NewJob) (db db' : Db)
    (j : Job)
    → create_claimed now ttl_secs key_id job_id pii c req db ≡ (db', ok (created j))
    → (k : IdempotencyKey) × (find_where (is_key_of c) db'.keys ≡ some k)
      × IsCompleted (acknowledgement j) c k
accepted-find now ttl_secs key_id job_id pii c req db db' j e =
    elim (Option-cases (find_where (is_key_of c) db.keys)) [
      | inl new ↦
          let done =
            accepted-keys now key_id (db.keys ++ new_key now ttl_secs key_id c ∷ []) db db' _ j
              (sym (create_claimed-new now ttl_secs key_id job_id pii c req db new) ∙ e) in
          rw done (find-complete_key now ttl_secs key_id c (acknowledgement j) now j.id db.keys new)
      | inr (k, stored) ↦ absurd (
          stored_not_accepted now job_id pii req db db' db.keys c k j
            (sym (create_claimed-stored now ttl_secs key_id job_id pii c req db k stored) ∙ e))
    ]

create_claimed-replay :
    (now ttl_secs key_id job_id : ℕ) (pii : PiiSetting) (c : KeyClaim) (req : NewJob) (db db' : Db)
    (j : Job) (now' ttl_secs' key_id' job_id' : ℕ) (pii' : PiiSetting) (req' : NewJob)
    → create_claimed now ttl_secs key_id job_id pii c req db ≡ (db', ok (created j))
    → create_claimed now' ttl_secs' key_id' job_id' pii' c req' db'
      ≡ (db', ok (replayed 202 (acknowledgement j)))
create_claimed-replay now ttl_secs key_id job_id pii c req db db' j now' ttl_secs' key_id' job_id'
      pii' req' e =
    let (k, found, done) = accepted-find now ttl_secs key_id job_id pii c req db db' j e in
    create_claimed-stored now' ttl_secs' key_id' job_id' pii' c req' db' k found
    ∙ ap (λ v. answer_claim now' job_id' pii' req' db' (db'.keys, v))
        (completed-answer_of c (acknowledgement j) k done)

-- When a request for a job was accepted, a later request of the same user with the same key and
-- fingerprint, whatever its payload, changes nothing and is answered with the stored
-- acknowledgement of that job.
pub create_job-replay :
    (now ttl_secs key_id job_id : ℕ) (pii : PiiSetting) (key fingerprint : String) (req : NewJob)
    (db db' : Db) (j : Job) (now' ttl_secs' key_id' job_id' : ℕ) (pii' : PiiSetting) (req' : NewJob)
    → req'.owner_user_id ≡ req.owner_user_id
    → create_job now ttl_secs key_id job_id pii key fingerprint req db ≡ (db', ok (created j))
    → create_job now' ttl_secs' key_id' job_id' pii' key fingerprint req' db'
      ≡ (db', ok (replayed 202 (acknowledgement j)))
create_job-replay now ttl_secs key_id job_id pii key fingerprint req db db' j now' ttl_secs' key_id'
      job_id' pii' req' same e =
    ap
      (λ owner.
        create_claimed now' ttl_secs' key_id' job_id' pii' (job_key owner key fingerprint) req' db')
      same
    ∙ create_claimed-replay now ttl_secs key_id job_id pii
        (job_key req.owner_user_id key fingerprint) req db db' j now' ttl_secs' key_id' job_id' pii'
        req' e
