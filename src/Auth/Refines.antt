-- ===== src/Auth/Refines.antt =====
-- login, refresh and logout (crates/core/src/auth/service.rs) run no transaction but those of Rotation.
use fineract_ai_backend.Prelude.{
  ℕ, ◌+◌, ◌≡◌, refl, ap, subst, inl, inr, String, Bool, true, false, ◌||◌, not, Option, none, some,
  List, [], ◌∷◌, ◌==◌, any, find_where, is_some, arith, Bool-cases, if-cases, some_injective,
}
use fineract_ai_backend.Auth.Repository.{
  User, TokenRow, RefreshRecord, AuthDb, is_session, has_hash, find_user_by_id,
  find_user_by_username, find_refresh_token,
}
use fineract_ai_backend.Auth.Service.{
  Authenticated, Crypto, Fresh, Reply, refresh, refresh_found, refresh_as, after_rotation, is_over,
  login, login_as, issue_session, session_issued, logout, logout_found,
}
use fineract_ai_backend.Auth.Lives.{IsTokenOf}
use fineract_ai_backend.Auth.Rotation.{Step, Reach, here, next}
use fineract_ai_backend.Auth.Sessions.{joined}

-- No two tokens have the same id: the primary key.
abbrev pub HasKeys : List TokenRow → Type 0
HasKeys [] = Unit {0}
HasKeys (t ∷ ts) = (any (λ u. u.id == t.id) ts ≡ false) × HasKeys ts

false_parts : (a b : Bool) → (a || b) ≡ false → (a ≡ false) × (b ≡ false)
false_parts a b h = ground arith

others_free :
    (id session_id : ℕ) (ts : List TokenRow)
    → any (λ u. u.id == id) ts ≡ false
    → IsTokenOf id session_id ts
others_free id session_id [] h = tt
others_free id session_id (t ∷ ts) h =
    let (apart, rest) = false_parts (t.id == id) (any (λ u. u.id == id) ts) h in
    (inl apart, others_free id session_id ts rest)

other_way : (a b : ℕ) → (b == a) ≡ false → (a == b) ≡ false
other_way a b h = ground arith

found_apart :
    (test : TokenRow → Bool) (id : ℕ) (t : TokenRow) (ts : List TokenRow)
    → find_where test ts ≡ some t
    → any (λ u. u.id == id) ts ≡ false
    → (t.id == id) ≡ false
found_apart test id t [] h new = cc
found_apart test id t (x ∷ xs) h new =
    let (apart, rest) = false_parts (x.id == id) (any (λ u. u.id == id) xs) new in
    elim (Bool-cases (test x)) [
      | inl found ↦ subst (λ y. (y.id == id) ≡ false) (some_injective (rw found at h)) apart
      | inr other ↦ found_apart test id t xs (rw other at h) rest
    ]

find_where-IsTokenOf :
    (test : TokenRow → Bool) (t : TokenRow) (ts : List TokenRow)
    → HasKeys ts
    → find_where test ts ≡ some t
    → IsTokenOf t.id t.session_id ts
find_where-IsTokenOf test t [] keys h = tt
find_where-IsTokenOf test t (x ∷ xs) keys h = elim (Bool-cases (test x)) [
  | inl found ↦
      let same = some_injective (rw found at h) in
      (
        inr (ap (λ y. y.session_id) same),
        others_free t.id t.session_id xs
            (subst (λ y. any (λ u. u.id == y.id) xs ≡ false) same keys.0),
      )
  | inr other ↦
      let rest = rw other at h in
      (
        inl (other_way x.id t.id (found_apart test x.id t xs rest keys.0)),
        find_where-IsTokenOf test t xs keys.1 rest,
      )
]

found-IsTokenOf :
    (hash : String) (db : AuthDb) (found : RefreshRecord)
    → HasKeys db.tokens
    → find_refresh_token hash db ≡ some found
    → IsTokenOf found.id found.session_id db.tokens
found-IsTokenOf hash db found keys h =
    let (t, x, taken, there, made) = joined hash db found h in
    let same = some_injective made in
    subst (λ f. IsTokenOf f.id f.session_id db.tokens) same
      (find_where-IsTokenOf (has_hash hash) t db.tokens keys taken)

once : {db after : AuthDb} → Step db after → Reach db after
once step = next here step

module _ (crypto : Crypto) (fresh : Fresh) (db : AuthDb) where
  rotation-Reach :
      (user : User) (found : RefreshRecord) (done : Option (Bool × AuthDb))
      → ((won : Bool) (after : AuthDb) → done ≡ some (won, after) → Step db after)
      → Reach db (after_rotation crypto fresh db user found done).1
  rotation-Reach user found none step = here
  rotation-Reach user found (some (false, after)) step = once (step false after refl)
  rotation-Reach user found (some (true, after)) step = once (step true after refl)

  refresh_as-Reach :
      (found : RefreshRecord) (o : Option User)
      → IsTokenOf found.id found.session_id db.tokens
      → Reach db (refresh_as crypto fresh db found o).1
  refresh_as-Reach found none owns = here
  refresh_as-Reach found (some user) owns =
      if-cases (λ (y : Reply Authenticated × AuthDb). Reach db y.1) (not user.is_active)
        (λ _. once (Step.revoke fresh.now found.session_id))
        (λ _. rotation-Reach user found _ (λ won after e.
          Step.rotate fresh.now fresh.token_id found.id found.session_id found.user_id
            (crypto.digest fresh.refresh_token) (fresh.now + fresh.refresh_ttl) won owns e))

  refresh_found-Reach :
      (o : Option RefreshRecord)
      → ((found : RefreshRecord) → o ≡ some found → IsTokenOf found.id found.session_id db.tokens)
      → Reach db (refresh_found crypto fresh db o).1
  refresh_found-Reach none owns = here
  refresh_found-Reach (some found) owns =
      if-cases (λ (y : Reply Authenticated × AuthDb). Reach db y.1) (is_some found.revoked_at)
        (λ _. once (Step.revoke fresh.now found.session_id))
        (λ _.
          if-cases (λ (y : Reply Authenticated × AuthDb). Reach db y.1)
            (is_over crypto fresh db found) (λ _. here)
            (λ _. refresh_as-Reach found (find_user_by_id db found.user_id) (owns found refl)))

  logout_found-Reach : (o : Option RefreshRecord) → Reach db (logout_found crypto fresh db o)
  logout_found-Reach none = here
  logout_found-Reach (some found) = once (Step.revoke fresh.now found.session_id)

  session_issued-Reach :
      (user : User) (o : Option AuthDb)
      → ((after : AuthDb) → o ≡ some after → Step db after)
      → Reach db (session_issued crypto fresh db user o).1
  session_issued-Reach user none step = here
  session_issued-Reach user (some after) step = once (step after refl)

  module _ (new_session : any (is_session fresh.session_id) db.sessions ≡ false)
      (new : any (λ t. t.session_id == fresh.session_id) db.tokens ≡ false) where
    login_as-Reach :
        (password : String) (agent ip : Option String) (o : Option User)
        → Reach db (login_as crypto fresh db password agent ip o).1
    unfolding issue_session
    login_as-Reach password agent ip none = here
    login_as-Reach password agent ip (some user) =
        if-cases (λ (y : Reply Authenticated × AuthDb). Reach db y.1)
          (not (crypto.verify password user.password_hash)) (λ _. here)
          (λ _.
            if-cases (λ (y : Reply Authenticated × AuthDb). Reach db y.1) (not user.is_active)
              (λ _. here)
              (λ _. session_issued-Reach user _ (λ after e.
                Step.login fresh.now fresh.session_id fresh.token_id user.id agent ip
                  (crypto.digest fresh.refresh_token) (fresh.now + fresh.refresh_ttl)
                  (fresh.now + fresh.refresh_ttl) new_session new e)))

-- Where the ids of the tokens are distinct and the generated session id is new, a login, a refresh and
-- a logout, whatever they are given and however they end, change the tables by logins, rotations and
-- revocations alone: so what every run of those keeps, the service keeps.
pub service-Reach :
    (crypto : Crypto) (fresh : Fresh) (db : AuthDb) (raw username password : String)
    (agent ip : Option String)
    → HasKeys db.tokens
    → any (is_session fresh.session_id) db.sessions ≡ false
    → any (λ t. t.session_id == fresh.session_id) db.tokens ≡ false
    → Reach db (login crypto fresh db username password agent ip).1
      × Reach db (refresh crypto fresh db raw).1
      × Reach db (logout crypto fresh db raw)
unfolding login refresh logout
service-Reach crypto fresh db raw username password agent ip keys new_session new = (
  login_as-Reach crypto fresh db new_session new password agent ip
      (find_user_by_username db username),
  refresh_found-Reach crypto fresh db (find_refresh_token (crypto.digest raw) db)
      (λ found e. found-IsTokenOf (crypto.digest raw) db found keys e),
  logout_found-Reach crypto fresh db (find_refresh_token (crypto.digest raw) db),
)
