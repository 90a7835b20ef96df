-- ===== src/Auth/Rotation.antt =====
-- The transactions on sessions and refresh tokens as a step relation, and what every run of them keeps
-- (crates/core/src/auth/repository.rs).
use fineract_ai_backend.Prelude.{
  ℕ, ◌≤◌, ◌≡◌, refl, ◌⊎◌, inl, inr, String, Bool, false, ◌||◌, Option, none, some, List, [], ◌∷◌,
  ◌++◌, All, All-append, ◌==◌, count_where, update_where, any, arith, Bool-cases, if◌then◌else◌,
}
use fineract_ai_backend.Auth.Repository.{
  AuthSession, TokenRow, AuthDb, is_session, is_live_token, is_live_in, revoke_token,
  create_session, rotate_refresh_token, revoke_session, see, is_live_session, close_session,
}
use fineract_ai_backend.Auth.Lives.{
  IsTokenOf, count_where-revoked, count_where-revoked_in, count_where-rotated, new_token,
  count_where-new, All-update_where, created_rows, rotated_rows,
}

-- A login, a rotation and a revocation. Generated ids are new, and a rotation takes the token's own
-- session from the row that was read.
pub data Step : AuthDb → AuthDb → Type 0 where
  login :
      {db after : AuthDb} (now fresh fresh_token user_id : ℕ) (agent ip : Option String)
      (hash : String) (session_expires_at token_expires_at : ℕ)
      → any (is_session fresh) db.sessions ≡ false
      → any (λ t. t.session_id == fresh) db.tokens ≡ false
      → create_session now fresh fresh_token user_id agent ip hash session_expires_at
          token_expires_at db
        ≡ some after
      → Step db after
  rotate :
      {db after : AuthDb} (now fresh id session_id user_id : ℕ) (hash : String) (expires_at : ℕ)
      (won : Bool)
      → IsTokenOf id session_id db.tokens
      → rotate_refresh_token now fresh id session_id user_id hash expires_at db ≡ some (won, after)
      → Step db after
  revoke : {db : AuthDb} (now session_id : ℕ) → Step db (revoke_session now session_id db)

pub data Reach (db : AuthDb) : AuthDb → Type 0 where
  here : Reach db db
  next : {after last : AuthDb} → Reach db after → Step after last → Reach db last

-- At most one token of each session is live.
abbrev pub IsChained : AuthDb → Type 0
IsChained db = (s : ℕ) → count_where (is_live_in s) db.tokens ≤ 1

-- Of a revoked session no token is live.
abbrev pub IsDead : List TokenRow → AuthSession → Type 0
IsDead tokens session =
    (session.revoked_at ≡ none) ⊎ (count_where (is_live_in session.id) tokens ≡ 0)

-- At most one token of each session is live, and none of a revoked one.
pub record IsSafe (db : AuthDb) : Type 0 where
  pub chained : IsChained db
  pub dead : All (IsDead db.tokens) db.sessions

none_live :
    (s : ℕ) (ts : List TokenRow)
    → any (λ t. t.session_id == s) ts ≡ false
    → count_where (is_live_in s) ts ≡ 0
none_live s [] h = refl
none_live s (t ∷ ts) h = ground (arith, none_live s ts)

false_parts : (a b : Bool) → (a || b) ≡ false → (a ≡ false) × (b ≡ false)
false_parts a b h = ground arith

-- Tokens are added for one session, of which none was live and which is live itself.
chained_add :
    (fresh s user_id : ℕ) (hash : String) (expires_at : ℕ) (ts : List TokenRow)
    → count_where (is_live_in s) ts ≡ 0
    → ((r : ℕ) → count_where (is_live_in r) ts ≤ 1)
    → (r : ℕ)
    → count_where (is_live_in r) (ts ++ new_token fresh s user_id hash expires_at ∷ []) ≤ 1
chained_add fresh s user_id hash expires_at ts free h r =
    ground (arith, count_where-new fresh s user_id hash expires_at r ts, h r, free)

IsDead-add :
    (fresh s user_id : ℕ) (hash : String) (expires_at : ℕ) (ts : List TokenRow) (x : AuthSession)
    → (x.id == s) ≡ false
    → IsDead ts x
    → IsDead (ts ++ new_token fresh s user_id hash expires_at ∷ []) x
IsDead-add fresh s user_id hash expires_at ts x other (inl open') = inl open'
IsDead-add fresh s user_id hash expires_at ts x other (inr e) =
    inr (ground (arith, count_where-new fresh s user_id hash expires_at x.id ts))

All-IsDead-add :
    (fresh s user_id : ℕ) (hash : String) (expires_at : ℕ) (ts : List TokenRow)
    (xs : List AuthSession)
    → any (is_session s) xs ≡ false
    → All (IsDead ts) xs
    → All (IsDead (ts ++ new_token fresh s user_id hash expires_at ∷ [])) xs
All-IsDead-add fresh s user_id hash expires_at ts [] h all = tt
All-IsDead-add fresh s user_id hash expires_at ts (x ∷ xs) h all =
    let (apart, rest) = false_parts (x.id == s) (any (is_session s) xs) h in
    (
      IsDead-add fresh s user_id hash expires_at ts x apart all.0,
      All-IsDead-add fresh s user_id hash expires_at ts xs rest all.1,
    )

login-IsSafe :
    (now fresh fresh_token user_id : ℕ) (agent ip : Option String) (hash : String)
    (session_expires_at token_expires_at : ℕ) (db after : AuthDb)
    → any (is_session fresh) db.sessions ≡ false
    → any (λ t. t.session_id == fresh) db.tokens ≡ false
    → create_session now fresh fresh_token user_id agent ip hash session_expires_at token_expires_at
        db
      ≡ some after
    → IsSafe db
    → IsSafe after
login-IsSafe now fresh fresh_token user_id agent ip hash session_expires_at token_expires_at db
      after new_session new done safe =
    let (tokens, sessions) =
      created_rows now fresh fresh_token user_id agent ip hash session_expires_at token_expires_at
        db after done in
    record {
      chained = rw tokens (
          chained_add fresh_token fresh user_id hash token_expires_at db.tokens
            (none_live fresh db.tokens new) safe.chained);
      dead =
          rw (tokens, sessions)
            (All-append _ db.sessions _
              (All-IsDead-add fresh_token fresh user_id hash token_expires_at db.tokens db.sessions
                new_session safe.dead)
              (inl refl, tt));
    }

-- The session of a token that is live is not one of those without live tokens.
rotated-IsDead :
    (now fresh id s user_id : ℕ) (hash : String) (expires_at : ℕ) (ts : List TokenRow)
    → IsTokenOf id s ts
    → 1 ≤ count_where (is_live_token id) ts
    → (x : AuthSession) → IsDead ts x
    → IsDead
        (update_where (is_live_token id) (revoke_token now) ts
          ++ new_token fresh s user_id hash expires_at ∷ [])
        (if is_session s x then see now x else x)
rotated-IsDead now fresh id s user_id hash expires_at ts owns wins x dead =
    let taken = count_where-rotated now id s ts owns in
    let fewer = count_where-revoked now id x.id ts in
    let added =
      count_where-new fresh s user_id hash expires_at x.id
        (update_where (is_live_token id) (revoke_token now) ts) in
    elim dead [
      | inl unrevoked ↦ elim (Bool-cases (is_session s x)) [
        | inl own ↦ rw own (inl unrevoked)
        | inr other ↦ rw other (inl unrevoked)
      ]
      | inr none_left ↦ elim (Bool-cases (is_session s x)) [
        | inl own ↦ absurd (ground (arith, own, none_left, taken, wins))
        | inr other ↦ rw other (inr (ground (arith, other, none_left, fewer, added)))
      ]
    ]

rotate-IsSafe :
    (now fresh id session_id user_id : ℕ) (hash : String) (expires_at : ℕ) (won : Bool)
    (db after : AuthDb)
    → IsTokenOf id session_id db.tokens
    → rotate_refresh_token now fresh id session_id user_id hash expires_at db ≡ some (won, after)
    → IsSafe db
    → IsSafe after
rotate-IsSafe now fresh id session_id user_id hash expires_at won db after owns done safe =
    elim (rotated_rows now fresh id session_id user_id hash expires_at won db after done) [
      | inl (_, same) ↦ rw same safe
      | inr (_, wins, tokens, sessions) ↦ record {
        chained = rw tokens (
            chained_add fresh session_id user_id hash expires_at
              (update_where (is_live_token id) (revoke_token now) db.tokens)
              (omega (
                arith,
                count_where-rotated now id session_id db.tokens owns,
                safe.chained session_id,
              ))
              (λ r. omega (arith, count_where-revoked now id r db.tokens, safe.chained r)));
        dead =
            rw (tokens, sessions)
              (All-update_where (is_session session_id) (see now) (IsDead db.tokens) _ db.sessions
                (rotated-IsDead now fresh id session_id user_id hash expires_at db.tokens owns wins)
                safe.dead);
      }
    ]

revoked-IsDead :
    (now s : ℕ) (ts : List TokenRow) (x : AuthSession)
    → IsDead ts x
    → IsDead
        (update_where (is_live_in s) (revoke_token now) ts)
        (if is_live_session s x then close_session now x else x)
revoked-IsDead now s ts x dead =
    let left = count_where-revoked_in now s x.id ts in
    elim (Bool-cases (is_live_session s x)) [
      | inl own ↦ rw own (inr (ground (arith, left, own)))
      | inr other ↦ rw other (elim dead [
        | inl unrevoked ↦ inl unrevoked
        | inr none_left ↦ inr (ground (arith, left, none_left))
      ])
    ]

revoke-IsSafe : (now s : ℕ) (db : AuthDb) → IsSafe db → IsSafe (revoke_session now s db)
unfolding revoke_session
revoke-IsSafe now s db safe = record {
  chained = λ r. ground (arith, count_where-revoked_in now s r db.tokens, safe.chained r);
  dead =
      All-update_where (is_live_session s) (close_session now) (IsDead db.tokens) _ db.sessions
        (revoked-IsDead now s db.tokens) safe.dead;
}

Step-IsSafe : {db after : AuthDb} → Step db after → IsSafe db → IsSafe after
Step-IsSafe (login now fresh fresh_token user_id agent ip hash se te new_session new done) safe =
    login-IsSafe now fresh fresh_token user_id agent ip hash se te _ _ new_session new done safe
Step-IsSafe (rotate now fresh id session_id user_id hash expires_at won owns done) safe =
    rotate-IsSafe now fresh id session_id user_id hash expires_at won _ _ owns done safe
Step-IsSafe (revoke now session_id) safe = revoke-IsSafe now session_id _ safe

-- Where each session has at most one live refresh token, and a revoked one has none, this holds
-- whatever logins, rotations and revocations run, and in whatever order.
pub Reach-IsSafe : {db after : AuthDb} → IsSafe db → Reach db after → IsSafe after
Reach-IsSafe safe here = safe
Reach-IsSafe safe (next r step) = Step-IsSafe step (Reach-IsSafe safe r)
