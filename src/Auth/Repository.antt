-- ===== src/Auth/Repository.antt =====
-- The tables of migrations/20260913000001_auth.sql and the transactions on them
-- (crates/core/src/auth/repository.rs).
use text.Mathlib.Text.{◌==◌ as str_eq}
use fineract_ai_backend.Prelude.{
  ℕ, String, Bool, true, false, ◌&&◌, Option, none, some, List, [], ◌∷◌, ◌++◌, ◌==◌, length, any,
  update_where, count_where, find_where, is_none, ◌>>=◌, if◌then◌else◌,
}

pub record User : Type 0 where
  pub id : ℕ
  pub username : String
  pub email : Option String
  pub full_name : Option String
  pub role : String
  pub is_active : Bool
  pub password_hash : String
  pub last_login_at : Option ℕ
  pub updated_at : ℕ

pub record AuthSession : Type 0 where
  pub id : ℕ
  pub user_id : ℕ
  pub user_agent : Option String
  pub ip_address : Option String
  pub last_seen_at : Option ℕ
  pub expires_at : ℕ
  pub revoked_at : Option ℕ

-- refresh_tokens
pub record TokenRow : Type 0 where
  pub id : ℕ
  pub session_id : ℕ
  pub user_id : ℕ
  pub token_hash : String
  pub expires_at : ℕ
  pub revoked_at : Option ℕ

pub record AuthDb : Type 0 where
  pub users : List User
  pub sessions : List AuthSession
  pub tokens : List TokenRow

-- A refresh token with the state of its session.
pub record RefreshRecord : Type 0 where
  pub id : ℕ
  pub session_id : ℕ
  pub user_id : ℕ
  pub expires_at : ℕ
  pub revoked_at : Option ℕ
  pub session_revoked_at : Option ℕ
  pub session_expires_at : ℕ

abbrev pub has_username : String → User → Bool
has_username username user = str_eq user.username username

abbrev pub find_user_by_username : AuthDb → String → Option User
find_user_by_username db username = find_where (has_username username) db.users

abbrev pub is_user : ℕ → User → Bool
is_user id user = user.id == id

abbrev pub find_user_by_id : AuthDb → ℕ → Option User
find_user_by_id db id = find_where (is_user id) db.users

unfoldable pub is_active_admin : AuthDb → ℕ → Bool
is_active_admin db id =
    any (λ user. is_user id user && (user.is_active && str_eq user.role "admin")) db.users

abbrev pub count_users : AuthDb → ℕ
count_users db = length db.users

abbrev eq_text : Option String → String → Bool
eq_text none text = false
eq_text (some other) text = str_eq other text

abbrev has_email : Option String → User → Bool
has_email none user = false
has_email (some email) user = eq_text user.email email

abbrev admin_row : ℕ → ℕ → String → Option String → String → User
admin_row now fresh username email password_hash = record {
  id = fresh;
  username = username;
  email = email;
  full_name = none;
  role = "admin";
  is_active = true;
  password_hash = password_hash;
  last_login_at = none;
  updated_at = now;
}

-- `ON CONFLICT (username) DO NOTHING`. `none`: the email is taken, which is a database error.
unfoldable pub insert_admin :
    ℕ → ℕ → String → Option String → String → AuthDb → Option (Option ℕ × AuthDb)
insert_admin now fresh username email password_hash db =
    let row = admin_row now fresh username email password_hash in
    if any (has_username username) db.users
    then some (none, db)
    else if any (has_email email) db.users
    then none
    else some (some fresh, record db { users = db.users ++ row ∷ [] })

abbrev pub has_hash : String → TokenRow → Bool
has_hash hash token = str_eq token.token_hash hash

-- token_hash is UNIQUE; `none` is the violation, which rolls the transaction back.
unfoldable pub insert_refresh_token : ℕ → ℕ → ℕ → String → ℕ → AuthDb → Option AuthDb
insert_refresh_token fresh session_id user_id token_hash expires_at db =
    let token : TokenRow = record {
      id = fresh;
      session_id = session_id;
      user_id = user_id;
      token_hash = token_hash;
      expires_at = expires_at;
      revoked_at = none;
    } in
    if any (has_hash token_hash) db.tokens
    then none
    else some (record db { tokens = db.tokens ++ token ∷ [] })

abbrev log_in : ℕ → User → User
log_in now user = record user { last_login_at = some now; updated_at = now }

abbrev note_login : ℕ → ℕ → AuthDb → AuthDb
note_login now user_id db = record db {
  users = update_where (is_user user_id) (log_in now) db.users;
}

abbrev pub session_row : ℕ → ℕ → ℕ → Option String → Option String → ℕ → AuthSession
session_row now fresh user_id user_agent ip_address expires_at = record {
  id = fresh;
  user_id = user_id;
  user_agent = user_agent;
  ip_address = ip_address;
  last_seen_at = some now;
  expires_at = expires_at;
  revoked_at = none;
}

-- A session with its first token, in one transaction. The two ids are generated.
unfoldable pub create_session :
    ℕ → ℕ → ℕ → ℕ → Option String → Option String → String → ℕ → ℕ → AuthDb → Option AuthDb
unfolding insert_refresh_token
create_session now fresh fresh_token user_id user_agent ip_address token_hash session_expires_at
      token_expires_at db =
    do
      with_token ←
          insert_refresh_token fresh_token fresh user_id token_hash token_expires_at (record db {
            sessions =
                db.sessions
                ++ session_row now fresh user_id user_agent ip_address session_expires_at ∷ [];
          })
      some (note_login now user_id with_token)

abbrev pub is_session : ℕ → AuthSession → Bool
is_session id session = session.id == id

abbrev pub with_session : TokenRow → Option AuthSession → Option RefreshRecord
with_session token none = none
with_session token (some session) = some (record {
  id = token.id;
  session_id = token.session_id;
  user_id = token.user_id;
  expires_at = token.expires_at;
  revoked_at = token.revoked_at;
  session_revoked_at = session.revoked_at;
  session_expires_at = session.expires_at;
})

-- The token's row joined with its session's.
unfoldable pub find_refresh_token : String → AuthDb → Option RefreshRecord
find_refresh_token hash db = do
  token ← find_where (has_hash hash) db.tokens
  with_session token (find_where (is_session token.session_id) db.sessions)

-- `WHERE id = $1 AND revoked_at IS NULL`
abbrev pub is_live_token : ℕ → TokenRow → Bool
is_live_token id token = (token.id == id) && is_none token.revoked_at

abbrev pub revoke_token : ℕ → TokenRow → TokenRow
revoke_token now token = record token { revoked_at = some now }

abbrev pub see : ℕ → AuthSession → AuthSession
see now session = record session { last_seen_at = some now }

abbrev seen : ℕ → ℕ → AuthDb → AuthDb
seen now session_id db = record db {
  sessions = update_where (is_session session_id) (see now) db.sessions;
}

abbrev rotated : ℕ → ℕ → AuthDb → Option (Bool × AuthDb)
rotated now session_id db = some (true, seen now session_id db)

-- The row count of the update decides: of two requests with one token, one finds it live. `none` is a
-- database error.
unfoldable pub rotate_refresh_token :
    ℕ → ℕ → ℕ → ℕ → ℕ → String → ℕ → AuthDb → Option (Bool × AuthDb)
unfolding insert_refresh_token
rotate_refresh_token now fresh current_token_id session_id user_id new_token_hash new_expires_at
      db =
    let revoked = record db {
      tokens = update_where (is_live_token current_token_id) (revoke_token now) db.tokens;
    } in
    if count_where (is_live_token current_token_id) db.tokens == 0
    then some (false, db)
    else insert_refresh_token fresh session_id user_id new_token_hash new_expires_at revoked
      >>= rotated now session_id

abbrev pub is_live_session : ℕ → AuthSession → Bool
is_live_session id session = is_session id session && is_none session.revoked_at

abbrev pub close_session : ℕ → AuthSession → AuthSession
close_session now session = record session { revoked_at = some now }

-- `WHERE session_id = $1 AND revoked_at IS NULL`
abbrev pub is_live_in : ℕ → TokenRow → Bool
is_live_in session_id token = (token.session_id == session_id) && is_none token.revoked_at

unfoldable pub revoke_session : ℕ → ℕ → AuthDb → AuthDb
revoke_session now session_id db = record db {
  sessions = update_where (is_live_session session_id) (close_session now) db.sessions;
  tokens = update_where (is_live_in session_id) (revoke_token now) db.tokens;
}
