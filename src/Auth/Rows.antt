-- ===== src/Auth/Rows.antt =====
-- The table auth_tokens (auth-token.entity.ts), the columns of users that its methods write, and
-- the signing of tokens.  Tokens, their digests and passwords are numbers.
use ai_tgs.Common.{Bool, List, Option, Text, ℕ, true, false}
use ai_tgs.Exam.Rows.{UserRole}

pub data AuthTokenType : Type 0 where
  refresh email_verification password_reset : AuthTokenType

abbrev pub same_token_type : AuthTokenType → AuthTokenType → Bool
same_token_type AuthTokenType.refresh AuthTokenType.refresh = true
same_token_type AuthTokenType.email_verification AuthTokenType.email_verification = true
same_token_type AuthTokenType.password_reset AuthTokenType.password_reset = true
same_token_type _ _ = false

pub record AuthToken : Type 0 where
  pub id : ℕ
  pub user_id : ℕ
  pub token_hash : ℕ
  pub type : AuthTokenType
  pub expires_at : ℕ
  pub revoked_at : Option ℕ
  pub consumed_at : Option ℕ
  pub family_id : Option ℕ

pub record Account : Type 0 where
  pub id : ℕ
  pub password_hash : ℕ
  pub email_verified : Bool

-- The claims of a refresh token.
pub record Claims : Type 0 where
  pub sub : ℕ
  pub email : Text
  pub role : UserRole
  pub school_id : Option ℕ
  pub family_id : ℕ

-- JwtService with the secrets and lifetimes of the configuration: what it signs for claims, a `jti`
-- and a time, when a token expires, and the claims of a token that is valid at a time.
pub record JwtService : Type 0 where
  pub sign_access : Claims → ℕ → ℕ
  pub sign_refresh : Claims → ℕ → ℕ → ℕ
  pub expiry : ℕ → ℕ
  pub verify_refresh : ℕ → ℕ → Option Claims

pub record Session : Type 0 where
  pub access_token : ℕ
  pub refresh_token : ℕ

pub data AuthError : Type 0 where
  invalid_refresh_token refresh_token_reused token_invalid duplicate_hash : AuthError

pub record AuthState : Type 0 where
  pub users : List Account
  pub tokens : List AuthToken
  pub next_id : ℕ
