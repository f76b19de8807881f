-- ===== src/Auth/Tests.antt =====
-- Logins, rotations and a new password, with tokens that are written as numbers.
use ai_tgs.Common.{
  List, Option, [], err, false, find, none, ok, refl, some, true, ℕ, ◌≡◌, ◌+◌, ◌*◌, ◌%◌, ◌==◌, ◌&&◌,
  ◌∷◌,
}
use ai_tgs.Exam.Rows.{UserRole}
use ai_tgs.Auth.Rows.{
  AuthTokenType, same_token_type, AuthToken, Claims, JwtService, AuthError, AuthState,
}
use ai_tgs.Auth.Tokens.{
  save_token, issue_session, refresh, issue_opaque, consume_opaque, reset_password,
}
use ai_tgs.Auth.Runs.{Request, is_ok, run, initial}
use ai_tgs.Auth.Once.{refresh-once}
use ai_tgs.Auth.Ends.{refresh-ends_family, reset_password-ends_sessions}

abbrev claims_of : ℕ → Claims
claims_of family = record {
  sub = 1;
  email = [];
  role = UserRole.teacher;
  school_id = none;
  family_id = family;
}

-- The last digit of a refresh token is its family.
abbrev jwt : JwtService
jwt = record {
  sign_access = λ claims now. now;
  sign_refresh = λ claims jti now. 10 * jti + claims.family_id;
  expiry = λ raw. 100;
  verify_refresh = λ now raw. some (claims_of (raw % 10));
}

abbrev digest : ℕ → ℕ
digest raw = raw + 7

abbrev start : AuthState
start = record {
  users = record { id = 1; password_hash = 5; email_verified = true } ∷ [];
  tokens = [];
  next_id = 0;
}

abbrev one_login : List (ℕ × Request)
one_login = (1, Request.login (claims_of 9)) ∷ []

-- Token 10 is of the login, and token 20 of the rotation.
abbrev rotated : List (ℕ × Request)
rotated = (1, Request.login (claims_of 9)) ∷ (2, Request.rotation 10) ∷ []

abbrev with_reset : List (ℕ × Request)
with_reset =
    (1, Request.login (claims_of 9))
    ∷ (2, Request.opaque_token 50 1 AuthTokenType.password_reset 3600)
    ∷ []

abbrev row : ℕ → ℕ → Option ℕ → AuthToken
row id raw consumed_at = record {
  id = id;
  user_id = 1;
  token_hash = digest raw;
  type = AuthTokenType.refresh;
  expires_at = 100;
  revoked_at = none;
  consumed_at = consumed_at;
  family_id = some 0;
}

first_rotation : is_ok (refresh jwt digest 2 10 (run jwt digest one_login (initial start))).0 ≡ true
unfolding refresh issue_session save_token
first_rotation = refl

login_row :
    find (λ t. t.token_hash == digest 10) (run jwt digest one_login (initial start)).tokens
    ≡ some (row 1 10 none)
unfolding issue_session save_token
login_row = refl

reused_refused :
    (refresh jwt digest 3 10 (run jwt digest rotated (initial start))).0
    ≡ err AuthError.refresh_token_reused
unfolding refresh issue_session save_token
reused_refused = refl

new_password_set :
    (reset_password digest 3 50 6 (run jwt digest with_reset (initial start))).0 ≡ ok 1
unfolding reset_password consume_opaque issue_opaque issue_session save_token
new_password_set = refl

refresh-once_example :
    is_ok
      (refresh jwt digest 5 10 (
        run jwt digest
          ((3, Request.rotation 20) ∷ [])
          (refresh jwt digest 2 10 (run jwt digest one_login (initial start))).1)).0
    ≡ false
refresh-once_example =
    refresh-once jwt digest start one_login ((3, Request.rotation 20) ∷ []) 2 5 10 first_rotation

used_row :
    find
      (λ t. t.token_hash == digest 10 && same_token_type t.type AuthTokenType.refresh)
      (run jwt digest rotated (initial start)).tokens
    ≡ some (row 1 10 (some 2))
unfolding refresh issue_session save_token
used_row = refl

new_row :
    find (λ t. t.token_hash == digest 20) (run jwt digest rotated (initial start)).tokens
    ≡ some (row 2 20 none)
unfolding refresh issue_session save_token
new_row = refl

refresh-ends_family_example :
    is_ok
      (refresh jwt digest 4 20
        (run jwt digest [] (refresh jwt digest 3 10 (run jwt digest rotated (initial start))).1)).0
    ≡ false
refresh-ends_family_example =
    refresh-ends_family jwt digest start rotated [] 3 4 10 20 0 (row 1 10 (some 2)) (row 2 20 none)
      used_row refl new_row refl reused_refused

reset_row :
    find (λ t. t.token_hash == digest 10) (run jwt digest with_reset (initial start)).tokens
    ≡ some (row 1 10 none)
unfolding issue_opaque issue_session save_token
reset_row = refl

reset_password-ends_sessions_example :
    is_ok
      (refresh jwt digest 4 10 (
        run jwt digest one_login
          (reset_password digest 3 50 6 (run jwt digest with_reset (initial start))).1)).0
    ≡ false
reset_password-ends_sessions_example =
    reset_password-ends_sessions jwt digest start with_reset one_login 3 4 50 6 10 1 (row 1 10 none)
      reset_row refl refl new_password_set
