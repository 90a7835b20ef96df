-- ===== src/Auth/Sessions.antt =====
-- What a refresh token is good for: refresh (crates/core/src/auth/service.rs).
use fineract_ai_backend.Prelude.{
  ℕ, ◌+◌, ◌<◌, ◌≡◌, refl, sym, ap, ◌∙◌, subst, inl, inr, String, Bool, true, false, ◌||◌, not,
  Option, none, some, List, [], ◌∷◌, ◌++◌, ◌==◌, leb, count_where, update_where, find_where,
  is_some, arith, Bool-cases, if◌then◌else◌, ◌>>=◌, >>=-eq-some, some_injective,
}
use fineract_ai_backend.Auth.Repository.{
  User, AuthSession, TokenRow, RefreshRecord, AuthDb, is_session, is_live_token, is_live_in,
  revoke_token, has_hash, with_session, see, find_user_by_id, find_refresh_token,
  rotate_refresh_token, revoke_session,
}
use fineract_ai_backend.Auth.Service.{
  Authenticated, Crypto, Fresh, Reply, ok, unauthorized, refresh, refresh_found, refresh_as,
  after_rotation, is_over,
}
use fineract_ai_backend.Auth.Lives.{count_where-revoked_in, rotated_rows}

-- The live tokens of a session.
abbrev pub lives : ℕ → AuthDb → ℕ
lives s db = count_where (is_live_in s) db.tokens

lives-revoke_session :
    (now s r : ℕ) (db : AuthDb)
    → lives r (revoke_session now s db) ≡ (if s == r then 0 else lives r db)
unfolding revoke_session
lives-revoke_session now s r db = count_where-revoked_in now s r db.tokens

-- A refresh token that was revoked and is presented again is rejected, and its session keeps no live
-- token; the live tokens of every other session stay.
pub refresh-reuse :
    (crypto : Crypto) (fresh : Fresh) (db : AuthDb) (raw : String) (found : RefreshRecord) (t s : ℕ)
    → find_refresh_token (crypto.digest raw) db ≡ some found
    → found.revoked_at ≡ some t
    → ((refresh crypto fresh db raw).0 ≡ unauthorized)
      × (lives s (refresh crypto fresh db raw).1
          ≡ (if found.session_id == s then 0 else lives s db))
unfolding refresh
refresh-reuse crypto fresh db raw found t s e revoked =
    rw (e, revoked) (refl, lives-revoke_session fresh.now found.session_id s db)

-- What an accepted refresh has checked.
abbrev pub IsAccepted : ℕ → AuthDb → RefreshRecord → Type 0
IsAccepted now db found =
    (found.revoked_at ≡ none)
    × (now < found.expires_at)
    × (found.session_revoked_at ≡ none)
    × (now < found.session_expires_at)
    × ((user : User) × (find_user_by_id db found.user_id ≡ some user) × (user.is_active ≡ true))

not_over :
    (a c : ℕ) (o : Option ℕ) (now : ℕ)
    → (leb a now || (is_some o || leb c now)) ≡ false
    → (now < a) × (o ≡ none) × (now < c)
not_over a c none now h = ground arith
not_over a c (some t) now h = ground arith

none_of : (o : Option ℕ) → is_some o ≡ false → o ≡ none
none_of none h = refl
none_of (some t) h = cc

-- A reply that was not rejected is past the test.
past :
    (b : Bool) (d : AuthDb) (x : Reply Authenticated × AuthDb) (auth : Authenticated)
    → (if b then (unauthorized, d) else x).0 ≡ ok auth
    → (b ≡ false) × ((if b then (unauthorized, d) else x) ≡ x)
past true d x auth h = cc
past false d x auth h = (refl, refl)

module _ (crypto : Crypto) (fresh : Fresh) (db : AuthDb) where
  rotation_of : RefreshRecord → Option (Bool × AuthDb)
  rotation_of found =
      rotate_refresh_token fresh.now fresh.token_id found.id found.session_id found.user_id
        (crypto.digest fresh.refresh_token) (fresh.now + fresh.refresh_ttl) db

  rotation-ok :
      (user : User) (found : RefreshRecord) (done : Option (Bool × AuthDb)) (auth : Authenticated)
      → (after_rotation crypto fresh db user found done).0 ≡ ok auth
      → done ≡ some (true, (after_rotation crypto fresh db user found done).1)
  rotation-ok user found none auth h = cc
  rotation-ok user found (some (false, after)) auth h = cc
  rotation-ok user found (some (true, after)) auth h = refl

  refresh_as-ok :
      (found : RefreshRecord) (o : Option User) (auth : Authenticated)
      → (refresh_as crypto fresh db found o).0 ≡ ok auth
      → ((user : User) × (o ≡ some user) × (user.is_active ≡ true))
        × (rotation_of found ≡ some (true, (refresh_as crypto fresh db found o).1))
  unfolding rotation_of
  refresh_as-ok found none auth h = cc
  refresh_as-ok found (some user) auth h =
      let (active, same) =
        past (not user.is_active) _ (after_rotation crypto fresh db user found (rotation_of found))
          auth h in
      let won = rotation-ok user found (rotation_of found) auth (ap (λ y. y.0) (sym same) ∙ h) in
      ((user, refl, ground (arith, active)), won ∙ ap (λ y. some (true, y.1)) (sym same))

  refresh_found-ok :
      (o : Option RefreshRecord) (auth : Authenticated)
      → (refresh_found crypto fresh db o).0 ≡ ok auth
      → (found : RefreshRecord) × (o ≡ some found)
        × IsAccepted fresh.now db found
        × (rotation_of found ≡ some (true, (refresh_found crypto fresh db o).1))
  refresh_found-ok none auth h = cc
  refresh_found-ok (some found) auth h =
      let next = refresh_as crypto fresh db found (find_user_by_id db found.user_id) in
      let checked = if is_over crypto fresh db found then (unauthorized, db) else next in
      let (live, same) = past (is_some found.revoked_at) _ checked auth h in
      let (open', same') =
        past (is_over crypto fresh db found) db next auth (ap (λ y. y.0) (sym same) ∙ h) in
      let (user, won) =
        refresh_as-ok found (find_user_by_id db found.user_id) auth
          (ap (λ y. y.0) (sym (same ∙ same')) ∙ h) in
      let (a, b, c) =
        not_over found.expires_at found.session_expires_at found.session_revoked_at fresh.now
          open' in
      (
        found,
        refl,
        (none_of found.revoked_at live, a, b, c, user),
        won ∙ ap (λ y. some (true, y.1)) (sym (same ∙ same')),
      )

-- The token that is found is the one that the rotation revoked.
find_where-rotated :
    (hash : String) (id now : ℕ) (new t : TokenRow) (ts : List TokenRow)
    → find_where (has_hash hash) ts ≡ some t
    → t.id ≡ id
    → t.revoked_at ≡ none
    → find_where (has_hash hash) (update_where (is_live_token id) (revoke_token now) ts ++ new ∷ [])
      ≡ some (revoke_token now t)
find_where-rotated hash id now new t [] h e live = cc
find_where-rotated hash id now new t (x ∷ xs) h e live = elim (Bool-cases (has_hash hash x)) [
  | inl found ↦
      let same = some_injective (rw found at h) in
      let taken : is_live_token id x ≡ true = rw same (ground (arith, e, live)) in
      rw (taken, found) (ap (λ y. some (revoke_token now y)) same)
  | inr other ↦
      let rest = find_where-rotated hash id now new t xs (rw other at h) e live in
      elim (Bool-cases (is_live_token id x)) [
        | inl taken ↦ rw (taken, other) rest
        | inr kept ↦ rw (kept, other) rest
      ]
]

find_where-seen :
    (s now : ℕ) (x : AuthSession) (xs : List AuthSession)
    → find_where (is_session s) xs ≡ some x
    → find_where (is_session s) (update_where (is_session s) (see now) xs) ≡ some (see now x)
find_where-seen s now x [] h = cc
find_where-seen s now x (y ∷ ys) h = elim (Bool-cases (is_session s y)) [
  | inl own ↦ rw (own, own) (ap (λ z. some (see now z)) (some_injective (rw own at h)))
  | inr other ↦ rw (other, other) (find_where-seen s now x ys (rw other at h))
]

with_session-some :
    (t : TokenRow) (o : Option AuthSession) (found : RefreshRecord)
    → with_session t o ≡ some found
    → (x : AuthSession) × (o ≡ some x) × (with_session t (some x) ≡ some found)
with_session-some t none found h = cc
with_session-some t (some x) found h = (x, refl, h)

-- What the join found.
pub joined :
    (hash : String) (db : AuthDb) (found : RefreshRecord)
    → find_refresh_token hash db ≡ some found
    → (t : TokenRow) × (x : AuthSession) × (find_where (has_hash hash) db.tokens ≡ some t)
      × (find_where (is_session t.session_id) db.sessions ≡ some x)
      × (with_session t (some x) ≡ some found)
unfolding find_refresh_token
joined hash db found h =
    let (t, here, rest) = >>=-eq-some (find_where (has_hash hash) db.tokens) _ h in
    let (x, there, made) =
      with_session-some t (find_where (is_session t.session_id) db.sessions) found rest in
    (t, x, here, there, made)

-- After a rotation that won, the presented token is found again, revoked.
found-rotated :
    (now fresh user_id : ℕ) (new_hash hash : String) (expires_at : ℕ) (db after : AuthDb)
    (found : RefreshRecord)
    → find_refresh_token hash db ≡ some found
    → found.revoked_at ≡ none
    → rotate_refresh_token now fresh found.id found.session_id user_id new_hash expires_at db
      ≡ some (true, after)
    → find_refresh_token hash after ≡ some (record found { revoked_at = some now })
unfolding find_refresh_token
found-rotated now fresh user_id new_hash hash expires_at db after found h live done =
    let (t, x, here, there, made) = joined hash db found h in
    let same = some_injective made in
    let own = ap (λ f. f.session_id) same in
    elim (rotated_rows now fresh found.id found.session_id user_id new_hash expires_at true db after
      done) [
        | inl (lost, _) ↦ cc (lost)
        | inr (_, _, tokens, sessions) ↦
            let token : find_where (has_hash hash) after.tokens ≡ some (revoke_token now t) =
              ap (find_where (has_hash hash)) tokens
              ∙ find_where-rotated hash found.id now _ t db.tokens here (ap (λ f. f.id) same)
                  (ap (λ f. f.revoked_at) same ∙ live) in
            let session : find_where (is_session t.session_id) after.sessions ≡ some (see now x) =
              ap (find_where (is_session t.session_id)) sessions
              ∙ subst
                  (λ s.
                    find_where (is_session t.session_id)
                      (update_where (is_session s) (see now) db.sessions)
                    ≡ some (see now x))
                  own (find_where-seen t.session_id now x db.sessions there) in
            ap
              (λ o. o >>= λ token.
                with_session token (find_where (is_session token.session_id) after.sessions))
              token
            ∙ ap (with_session (revoke_token now t)) session
            ∙ ap (λ (f : RefreshRecord). some (record f { revoked_at = some now })) same
      ]

-- A refresh token is good once. Whoever was given new tokens for it had presented a token that was
-- neither revoked nor expired, in a session that was neither, of an active user; and when the token
-- is presented again, at any time, that request is rejected and the session keeps no live token.
pub refresh-once :
    (crypto : Crypto) (fresh fresh' : Fresh) (db : AuthDb) (raw : String) (auth : Authenticated)
    → (refresh crypto fresh db raw).0 ≡ ok auth
    → (found : RefreshRecord) × (find_refresh_token (crypto.digest raw) db ≡ some found)
      × IsAccepted fresh.now db found
      × ((refresh crypto fresh' (refresh crypto fresh db raw).1 raw).0 ≡ unauthorized)
      × (lives found.session_id (refresh crypto fresh' (refresh crypto fresh db raw).1 raw).1 ≡ 0)
unfolding refresh rotation_of
refresh-once crypto fresh fresh' db raw auth h =
    let (found, e, accepted, won) =
      refresh_found-ok crypto fresh db (find_refresh_token (crypto.digest raw) db) auth h in
    let after = (refresh crypto fresh db raw).1 in
    let again =
      found-rotated fresh.now fresh.token_id found.user_id (crypto.digest fresh.refresh_token)
        (crypto.digest raw) (fresh.now + fresh.refresh_ttl) db after found e accepted.0 won in
    let (rejected, closed) =
      refresh-reuse crypto fresh' after raw (record found { revoked_at = some fresh.now }) fresh.now
        found.session_id again refl in
    (found, e, accepted, rejected, ground (arith, closed))
