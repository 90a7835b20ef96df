-- ===== src/Auth/Service.antt =====
-- login, refresh, logout, profile and bootstrap_admin (crates/core/src/auth/service.rs).
use fineract_ai_backend.Prelude.{
  ℕ, ◌+◌, String, Bool, true, false, ◌||◌, not, Option, none, some, ◌==◌, leb, is_some,
  if◌then◌else◌,
}
use fineract_ai_backend.Auth.Repository.{
  User, RefreshRecord, AuthDb, find_user_by_username, find_user_by_id, count_users, insert_admin,
  create_session, find_refresh_token, rotate_refresh_token, revoke_session,
}

pub record Profile : Type 0 where
  pub id : ℕ
  pub username : String
  pub email : Option String
  pub full_name : Option String
  pub role : String

-- `From<repository::User>`
abbrev profile_of : User → Profile
profile_of user = record {
  id = user.id;
  username = user.username;
  email = user.email;
  full_name = user.full_name;
  role = user.role;
}

pub record Authenticated : Type 0 where
  pub access_token : String
  pub expires_in_secs : ℕ
  pub refresh_token : String
  pub user : Profile

-- An access token that was just signed.
pub record Issued : Type 0 where
  pub token : String
  pub expires_in_secs : ℕ

-- Every rejection looks alike; `internal` is a failure of the database or of the signature.
pub data Reply (A : Type 0) : Type 0 where
  ok : A → Reply A
  unauthorized : Reply A
  internal : Reply A

-- What the service uses of its libraries: the verification of a password against a stored hash
-- and the hashing of one (Argon2), the digest of a refresh token (SHA-256) and the signing of an access token (JWT).
pub record Crypto : Type 0 where
  pub verify : String → String → Bool
  pub hash : String → Option String
  pub digest : String → String
  pub issue : ℕ → ℕ → String → Option Issued

-- What one request is given: the clock, the generated ids and the generated refresh token.
pub record Fresh : Type 0 where
  pub now : ℕ
  pub session_id : ℕ
  pub token_id : ℕ
  pub refresh_token : String
  pub refresh_ttl : ℕ

abbrev pub authenticated : User → String → Option Issued → Reply Authenticated
authenticated user refresh_token none = internal
authenticated user refresh_token (some issued) = ok (record {
  access_token = issued.token;
  expires_in_secs = issued.expires_in_secs;
  refresh_token = refresh_token;
  user = profile_of user;
})

module _ (crypto : Crypto) (fresh : Fresh) (db : AuthDb) where
  abbrev pub session_issued : User → Option AuthDb → Reply Authenticated × AuthDb
  session_issued user none = (internal, db)
  session_issued user (some after) = (
    authenticated user fresh.refresh_token (crypto.issue user.id fresh.session_id user.role),
    after,
  )

  unfoldable pub issue_session : User → Option String → Option String → Reply Authenticated × AuthDb
  issue_session user user_agent ip_address = session_issued user (
      create_session fresh.now fresh.session_id fresh.token_id user.id user_agent ip_address
        (crypto.digest fresh.refresh_token) (fresh.now + fresh.refresh_ttl)
        (fresh.now + fresh.refresh_ttl) db)

  abbrev pub login_as :
      String → Option String → Option String → Option User → Reply Authenticated × AuthDb
  login_as password user_agent ip_address none = (unauthorized, db)
  login_as password user_agent ip_address (some user) =
      if not (crypto.verify password user.password_hash)
      then (unauthorized, db)
      else if not user.is_active
      then (unauthorized, db)
      else issue_session user user_agent ip_address

  unfoldable pub login :
      String → String → Option String → Option String → Reply Authenticated × AuthDb
  unfolding issue_session
  login username password user_agent ip_address =
      login_as password user_agent ip_address (find_user_by_username db username)

  abbrev pub after_rotation :
      User → RefreshRecord → Option (Bool × AuthDb) → Reply Authenticated × AuthDb
  after_rotation user found none = (internal, db)
  after_rotation user found (some (false, after)) = (unauthorized, after)
  after_rotation user found (some (true, after)) = (
    authenticated user fresh.refresh_token (crypto.issue user.id found.session_id user.role),
    after,
  )

  abbrev pub refresh_as : RefreshRecord → Option User → Reply Authenticated × AuthDb
  refresh_as found none = (unauthorized, db)
  refresh_as found (some user) =
      if not user.is_active
      then (unauthorized, revoke_session fresh.now found.session_id db)
      else after_rotation user found (
          rotate_refresh_token fresh.now fresh.token_id found.id found.session_id found.user_id
            (crypto.digest fresh.refresh_token) (fresh.now + fresh.refresh_ttl) db)

  abbrev pub is_over : RefreshRecord → Bool
  is_over found =
      leb found.expires_at fresh.now
      || (is_some found.session_revoked_at || leb found.session_expires_at fresh.now)

  -- A token that was revoked and is presented again costs the whole session.
  abbrev pub refresh_found : Option RefreshRecord → Reply Authenticated × AuthDb
  refresh_found none = (unauthorized, db)
  refresh_found (some found) =
      if is_some found.revoked_at
      then (unauthorized, revoke_session fresh.now found.session_id db)
      else if is_over found
      then (unauthorized, db)
      else refresh_as found (find_user_by_id db found.user_id)

  unfoldable pub refresh : String → Reply Authenticated × AuthDb
  refresh raw_refresh_token =
      refresh_found (find_refresh_token (crypto.digest raw_refresh_token) db)

  abbrev pub logout_found : Option RefreshRecord → AuthDb
  logout_found none = db
  logout_found (some found) = revoke_session fresh.now found.session_id db

  -- Logout succeeds whether or not the token is known.
  unfoldable pub logout : String → AuthDb
  logout raw_refresh_token = logout_found (find_refresh_token (crypto.digest raw_refresh_token) db)

abbrev profile_active : Option User → Reply Profile
profile_active none = unauthorized
profile_active (some user) = if not user.is_active then unauthorized else ok (profile_of user)

unfoldable pub profile : AuthDb → ℕ → Reply Profile
profile db user_id = profile_active (find_user_by_id db user_id)

-- The configuration of the first administrators.
pub record Bootstrap : Type 0 where
  pub password : Option String
  pub username : String
  pub email : Option String
  pub second_password : Option String
  pub second_username : String
  pub second_email : Option String

abbrev kept : AuthDb → Option (Option ℕ × AuthDb) → Bool × AuthDb
kept db none = (false, db)
kept db (some (created, after)) = (true, after)

abbrev insert_hashed : ℕ → ℕ → String → Option String → AuthDb → Option String → Bool × AuthDb
insert_hashed now fresh username email db none = (false, db)
insert_hashed now fresh username email db (some hash) =
    kept db (insert_admin now fresh username email hash db)

module _ (crypto : Crypto) (now : ℕ) (config : Bootstrap) where
  abbrev first_admin : ℕ → AuthDb → Option String → Bool × AuthDb
  first_admin fresh db none = (false, db)
  first_admin fresh db (some password) =
      insert_hashed now fresh config.username config.email db (crypto.hash password)

  abbrev second_admin : ℕ → Option String → Bool × AuthDb → Bool × AuthDb
  second_admin fresh password (false, db) = (false, db)
  second_admin fresh none (true, db) = (true, db)
  second_admin fresh (some password) (true, db) =
      insert_hashed now fresh config.second_username config.second_email db (crypto.hash password)

  -- Whether the start-up succeeds, and the tables after it.
  unfoldable pub bootstrap_admin : ℕ → ℕ → AuthDb → Bool × AuthDb
  bootstrap_admin fresh fresh_second db =
      second_admin fresh_second config.second_password
        (if count_users db == 0 then first_admin fresh db config.password else (true, db))
