-- ===== src/Tests/Logins.antt =====
-- A user who logs in and refreshes, and the theorems on it.
use Prim.Native.String.{◌++◌}
use text.Mathlib.Text.{◌==◌ as str_eq}
use fineract_ai_backend.Prelude.{ℕ, ◌≡◌, refl, String, true, none, some, [], ◌∷◌, arith}
use fineract_ai_backend.Auth.Repository.{
  User, AuthDb, RefreshRecord, create_session, find_refresh_token, rotate_refresh_token,
}
use fineract_ai_backend.Auth.Service.{
  Authenticated, Crypto, Fresh, ok, unauthorized, login, refresh, logout,
}
use fineract_ai_backend.Auth.Rotation.{Reach, IsSafe, Reach-IsSafe}
use fineract_ai_backend.Auth.Sessions.{IsAccepted, lives, refresh-once}
use fineract_ai_backend.Auth.Refines.{service-Reach}

abbrev admin : User
admin = record {
  id = 1;
  username = "admin";
  email = none;
  full_name = none;
  role = "admin";
  is_active = true;
  password_hash = "#secret";
  last_login_at = none;
  updated_at = 0;
}

abbrev marked : String → String
marked text = "#" ++ text

abbrev plain : Crypto
plain = record {
  verify = λ password hash. str_eq (marked password) hash;
  hash = λ password. some (marked password);
  digest = marked;
  issue = λ user session role. some (record { token = "access"; expires_in_secs = 900 });
}

abbrev request : ℕ → ℕ → String → Fresh
request now id token = record {
  now = now;
  session_id = id;
  token_id = id;
  refresh_token = token;
  refresh_ttl = 100;
}

abbrev empty : AuthDb
empty = record { users = admin ∷ []; sessions = []; tokens = [] }

empty-IsSafe : IsSafe empty
empty-IsSafe = record { chained = λ s. omega arith; dead = tt }

logged_in : AuthDb
logged_in = (login plain (request 10 7 "first") empty "admin" "secret" none none).1

auth : Authenticated
auth = record {
  access_token = "access";
  expires_in_secs = 900;
  refresh_token = "second";
  user = record { id = 1; username = "admin"; email = none; full_name = none; role = "admin" };
}

refreshed : (refresh plain (request 20 8 "second") logged_in "first").0 ≡ ok auth
unfolding logged_in auth login create_session refresh find_refresh_token rotate_refresh_token
refreshed = refl

service-Reach_example :
    Reach empty (login plain (request 10 7 "first") empty "admin" "secret" none none).1
    × Reach empty (refresh plain (request 10 7 "first") empty "none").1
    × Reach empty (logout plain (request 10 7 "first") empty "none")
service-Reach_example =
    service-Reach plain (request 10 7 "first") empty "none" "admin" "secret" none none tt refl refl

logged_in_reached : Reach empty logged_in
unfolding logged_in
logged_in_reached =
    (service-Reach plain (request 10 7 "first") empty "none" "admin" "secret" none none tt refl
      refl).0

Reach-IsSafe_example : IsSafe logged_in
Reach-IsSafe_example = Reach-IsSafe empty-IsSafe logged_in_reached

refresh-once_example :
    (found : RefreshRecord) × (find_refresh_token "#first" logged_in ≡ some found)
    × IsAccepted 20 logged_in found
    × ((refresh plain
          (request 30 9 "third")
          (refresh plain (request 20 8 "second") logged_in "first").1
          "first").0
        ≡ unauthorized)
    × (lives found.session_id
          (refresh plain
            (request 30 9 "third")
            (refresh plain (request 20 8 "second") logged_in "first").1
            "first").1
        ≡ 0)
refresh-once_example =
    refresh-once plain (request 20 8 "second") (request 30 9 "third") logged_in "first" auth
      refreshed
