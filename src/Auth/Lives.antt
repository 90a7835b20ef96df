-- ===== src/Auth/Lives.antt =====
-- How many tokens of a session are live after each transaction (crates/core/src/auth/repository.rs).
use fineract_ai_backend.Prelude.{
  ℕ, ◌+◌, ◌≤◌, ◌≡◌, refl, sym, ap, ◌∙◌, ◌⊎◌, inl, inr, String, Bool, true, false, Option, none,
  some, List, [], ◌∷◌, ◌++◌, All, ◌==◌, count_where, update_where, arith, Bool-cases,
  count_where-append, if◌then◌else◌, >>=-eq-some, some_injective,
}
use fineract_ai_backend.Auth.Repository.{
  AuthSession, TokenRow, AuthDb, is_session, is_live_token, is_live_in, revoke_token,
  insert_refresh_token, create_session, rotate_refresh_token, session_row, see,
}

-- The token's row carries this session.
abbrev pub IsTokenOf : ℕ → ℕ → List TokenRow → Type 0
IsTokenOf id session_id = All (λ t. ((t.id == id) ≡ false) ⊎ (t.session_id ≡ session_id))

pub count_where-revoked :
    (now id s : ℕ) (ts : List TokenRow)
    → count_where (is_live_in s) (update_where (is_live_token id) (revoke_token now) ts)
      ≤ count_where (is_live_in s) ts
count_where-revoked now id s [] = omega arith
count_where-revoked now id s (t ∷ ts) = ground (arith, count_where-revoked now id s ts)

-- A revocation by session leaves none of it live, and another session as it was.
pub count_where-revoked_in :
    (now r s : ℕ) (ts : List TokenRow)
    → count_where (is_live_in s) (update_where (is_live_in r) (revoke_token now) ts)
      ≡ (if r == s then 0 else count_where (is_live_in s) ts)
count_where-revoked_in now r s [] = ground arith
count_where-revoked_in now r s (t ∷ ts) = ground (arith, count_where-revoked_in now r s ts)

-- A rotation's update takes one live token from its session.
pub count_where-rotated :
    (now id s : ℕ) (ts : List TokenRow)
    → IsTokenOf id s ts
    → count_where (is_live_in s) (update_where (is_live_token id) (revoke_token now) ts)
        + count_where (is_live_token id) ts
      ≡ count_where (is_live_in s) ts
count_where-rotated now id s [] h = refl
count_where-rotated now id s (t ∷ ts) h = ground (arith, count_where-rotated now id s ts h.1, h.0)

guarded_some : (b : Bool) (x y : AuthDb) → (if b then none else some x) ≡ some y → y ≡ x
guarded_some true x y h = cc
guarded_some false x y h = cc

module _ (fresh session_id user_id : ℕ) (hash : String) (expires_at : ℕ) where
  pub new_token : TokenRow
  new_token = record {
    id = fresh;
    session_id = session_id;
    user_id = user_id;
    token_hash = hash;
    expires_at = expires_at;
    revoked_at = none;
  }

  -- The row is added to the tokens, and nothing else changes.
  insert_refresh_token-some :
      (db after : AuthDb)
      → insert_refresh_token fresh session_id user_id hash expires_at db ≡ some after
      → after ≡ record db { tokens = db.tokens ++ new_token ∷ [] }
  unfolding insert_refresh_token new_token
  insert_refresh_token-some db after h = guarded_some _ _ _ h

  pub count_where-new :
      (s : ℕ) (ts : List TokenRow)
      → count_where (is_live_in s) (ts ++ new_token ∷ [])
        ≡ count_where (is_live_in s) ts + (if session_id == s then 1 else 0)
  unfolding new_token
  count_where-new s ts = ground (arith, count_where-append (is_live_in s) ts new_token)

pub All-update_where :
    (test : AuthSession → Bool) (set : AuthSession → AuthSession) (P Q : AuthSession → Type 0)
    (xs : List AuthSession)
    → ((x : AuthSession) → P x → Q (if test x then set x else x))
    → All P xs
    → All Q (update_where test set xs)
All-update_where test set P Q [] keep h = tt
All-update_where test set P Q (x ∷ xs) keep h =
    (keep x h.0, All-update_where test set P Q xs keep h.1)

-- The rows after a login: one more session and its token.
pub created_rows :
    (now fresh fresh_token user_id : ℕ) (agent ip : Option String) (hash : String)
    (session_expires_at token_expires_at : ℕ) (db after : AuthDb)
    → create_session now fresh fresh_token user_id agent ip hash session_expires_at token_expires_at
        db
      ≡ some after
    → (after.tokens ≡ db.tokens ++ new_token fresh_token fresh user_id hash token_expires_at ∷ [])
      × (after.sessions
          ≡ db.sessions ++ session_row now fresh user_id agent ip session_expires_at ∷ [])
unfolding create_session
created_rows now fresh fresh_token user_id agent ip hash session_expires_at token_expires_at db
      after done =
    let (mid, inserted, e) = >>=-eq-some _ _ done in
    let rows =
      insert_refresh_token-some fresh_token fresh user_id hash token_expires_at _ mid inserted in
    let e' = some_injective e in
    (
      ap (λ d. d.tokens) (sym e') ∙ ap (λ d. d.tokens) rows,
      ap (λ d. d.sessions) (sym e') ∙ ap (λ d. d.sessions) rows,
    )

-- The rows after a rotation that won: the presented token is revoked and a new one is there.
pub rotated_rows :
    (now fresh id session_id user_id : ℕ) (hash : String) (expires_at : ℕ) (won : Bool)
    (db after : AuthDb)
    → rotate_refresh_token now fresh id session_id user_id hash expires_at db ≡ some (won, after)
    → ((won ≡ false) × (after ≡ db))
      ⊎ ((won ≡ true)
          × (1 ≤ count_where (is_live_token id) db.tokens)
          × (after.tokens
              ≡ update_where (is_live_token id) (revoke_token now) db.tokens
                ++ new_token fresh session_id user_id hash expires_at ∷ [])
          × (after.sessions ≡ update_where (is_session session_id) (see now) db.sessions))
unfolding rotate_refresh_token
rotated_rows now fresh id session_id user_id hash expires_at won db after done =
    elim (Bool-cases (count_where (is_live_token id) db.tokens == 0)) [
      | inl lost ↦
          let same = some_injective (rw lost at done) in
          inl (ap (λ p. p.0) (sym same), ap (λ p. p.1) (sym same))
      | inr wins ↦
          let (mid, inserted, e) = >>=-eq-some _ _ (rw wins at done) in
          let rows =
            insert_refresh_token-some fresh session_id user_id hash expires_at _ mid inserted in
          let same = some_injective e in
          inr (
            ap (λ p. p.0) (sym same),
            ground (arith, wins),
            ap (λ p. p.1.tokens) (sym same) ∙ ap (λ d. d.tokens) rows,
            ap (λ p. p.1.sessions) (sym same)
                ∙ ap (λ d. update_where (is_session session_id) (see now) d.sessions) rows,
          )
    ]
