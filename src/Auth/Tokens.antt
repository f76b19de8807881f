-- ===== src/Auth/Tokens.antt =====
-- The methods of AuthService (auth.service.ts) on tokens.  A method that runs in a transaction
-- leaves the state as it was when it throws; `refresh` commits the revocation of a family before
-- it throws.
use ai_tgs.Common.{
  Bool, List, Option, Result, [], any, err, false, find, ltb, none, ok, some, suc, true, update, ℕ,
  ◌+◌, ◌==◌, ◌&&◌, ◌++◌, ◌∷◌, if◌then◌else◌,
}
use ai_tgs.Auth.Rows.{
  AuthTokenType, same_token_type, AuthToken, Account, Claims, JwtService, Session, AuthError,
  AuthState,
}

abbrev pub has_hash : ℕ → AuthToken → Bool
has_hash hash t = t.token_hash == hash

abbrev pub is_none : Option ℕ → Bool
is_none none = true
is_none (some n) = false

abbrev pub is_open : AuthToken → Bool
is_open t = is_none t.consumed_at && is_none t.revoked_at

-- The WHERE of the statements that consume a token.
abbrev pub is_consumable : ℕ → ℕ → AuthTokenType → AuthToken → Bool
is_consumable now hash type t =
    has_hash hash t && (same_token_type t.type type && (is_open t && ltb now t.expires_at))

abbrev pub in_family : ℕ → AuthToken → Bool
in_family family t = elim t.family_id [ none ↦ false | some f ↦ f == family ]

abbrev pub consume : ℕ → AuthToken → AuthToken
consume now t = record t { consumed_at = some now }

abbrev pub revoke : ℕ → AuthToken → AuthToken
revoke now t = record t { revoked_at = some now }

abbrev pub set_tokens : (List AuthToken → List AuthToken) → AuthState → AuthState
set_tokens f s = record s { tokens = f s.tokens }

-- An INSERT, which the unique index on token_hash may refuse.
unfoldable pub save_token : AuthToken → AuthState → Result AuthError AuthState
save_token t s =
    if any (has_hash t.token_hash) s.tokens
    then err AuthError.duplicate_hash
    else ok (record s { tokens = s.tokens ++ t ∷ []; next_id = suc s.next_id })

abbrev pub with_result :
    {A : Type 0} → A → AuthState → Result AuthError AuthState → Result AuthError A × AuthState
with_result a before (ok s) = (ok a, s)
with_result a before (err e) = (err e, before)

abbrev pub revoke_family : ℕ → Option AuthToken → AuthState → AuthState
revoke_family now none s = s
revoke_family now (some t) s = elim t.family_id [
  | none ↦ s
  | some family ↦ set_tokens (update (in_family family) (revoke now)) s
]

module _ (jwt : JwtService) (digest : ℕ → ℕ) where
  abbrev pub session_of : Claims → ℕ → AuthState → Session
  session_of claims now s = record {
    access_token = jwt.sign_access claims now;
    refresh_token = jwt.sign_refresh claims s.next_id now;
  }

  abbrev pub refresh_row : Claims → ℕ → AuthState → AuthToken
  refresh_row claims now s = record {
    id = s.next_id;
    user_id = claims.sub;
    token_hash = digest (jwt.sign_refresh claims s.next_id now);
    type = AuthTokenType.refresh;
    expires_at = jwt.expiry (jwt.sign_refresh claims s.next_id now);
    revoked_at = none;
    consumed_at = none;
    family_id = some claims.family_id;
  }

  -- The state to fall back on comes before the state to start from.
  unfoldable pub issue_session :
      Claims → ℕ → AuthState → AuthState → Result AuthError Session × AuthState
  issue_session claims now before s =
      with_result (session_of claims now s) before (save_token (refresh_row claims now s) s)

  abbrev pub is_in_rotation : ℕ → ℕ → ℕ → AuthToken → Bool
  is_in_rotation now raw family t =
      is_consumable now (digest raw) AuthTokenType.refresh t && in_family family t

  abbrev pub is_refresh : ℕ → AuthToken → Bool
  is_refresh raw t = has_hash (digest raw) t && same_token_type t.type AuthTokenType.refresh

  abbrev pub rotate : ℕ → ℕ → AuthState → Option Claims → Result AuthError Session × AuthState
  rotate now raw s none = (err AuthError.invalid_refresh_token, s)
  rotate now raw s (some claims) =
      if any (is_in_rotation now raw claims.family_id) s.tokens
      then issue_session claims now s
          (set_tokens (update (is_in_rotation now raw claims.family_id) (consume now)) s)
      else (
        err AuthError.refresh_token_reused,
        revoke_family now (find (is_refresh raw) s.tokens) s,
      )

  unfoldable pub refresh : ℕ → ℕ → AuthState → Result AuthError Session × AuthState
  refresh now raw s = rotate now raw s (jwt.verify_refresh now raw)

abbrev pub is_open_refresh : AuthToken → Bool
is_open_refresh t = same_token_type t.type AuthTokenType.refresh && is_none t.revoked_at

unfoldable pub logout : (ℕ → ℕ) → ℕ → ℕ → AuthState → AuthState
logout digest now raw s =
    set_tokens (update (λ t. has_hash (digest raw) t && is_open_refresh t) (revoke now)) s

unfoldable pub logout_all : ℕ → ℕ → AuthState → AuthState
logout_all now user s =
    set_tokens (update (λ t. t.user_id == user && is_open_refresh t) (revoke now)) s

-- `raw` is what randomBytes gives.
unfoldable pub issue_opaque :
    (ℕ → ℕ) → ℕ → ℕ → ℕ → AuthTokenType → ℕ → AuthState → Result AuthError ℕ × AuthState
issue_opaque digest now raw user type ttl s = with_result raw s (
    save_token
      (record {
        id = s.next_id;
        user_id = user;
        token_hash = digest raw;
        type = type;
        expires_at = now + ttl;
        revoked_at = none;
        consumed_at = none;
        family_id = none;
      })
      s)

abbrev pub consumed :
    ℕ → (AuthToken → Bool) → AuthState → Option AuthToken → Result AuthError (ℕ × AuthState)
consumed now p s none = err AuthError.token_invalid
consumed now p s (some t) = ok (t.user_id, set_tokens (update p (consume now)) s)

-- The user of the consumed token, and the state after it.
unfoldable pub consume_opaque :
    (ℕ → ℕ) → ℕ → ℕ → AuthTokenType → AuthState → Result AuthError (ℕ × AuthState)
consume_opaque digest now raw type s =
    consumed now (is_consumable now (digest raw) type) s
      (find (is_consumable now (digest raw) type) s.tokens)

-- Other open tokens of the user and the type.
abbrev pub is_left_over : ℕ → AuthTokenType → AuthToken → Bool
is_left_over user type t = t.user_id == user && (same_token_type t.type type && is_open t)

abbrev pub set_user : ℕ → (Account → Account) → AuthState → AuthState
set_user user f s = record s { users = update (λ a. a.id == user) f s.users }

abbrev pub if_consumed :
    (ℕ → AuthState → AuthState)
    → AuthState
    → Result AuthError (ℕ × AuthState)
    → Result AuthError ℕ × AuthState
if_consumed f before (ok r) = (ok r.0, f r.0 r.1)
if_consumed f before (err e) = (err e, before)

abbrev pub verified : ℕ → ℕ → AuthState → AuthState
verified now user s =
    set_tokens (update (is_left_over user AuthTokenType.email_verification) (revoke now))
      (set_user user (λ a. record a { email_verified = true }) s)

unfoldable pub verify_email : (ℕ → ℕ) → ℕ → ℕ → AuthState → Result AuthError ℕ × AuthState
verify_email digest now raw s =
    if_consumed (verified now) s (consume_opaque digest now raw AuthTokenType.email_verification s)

abbrev pub is_session_of : ℕ → AuthToken → Bool
is_session_of user t = t.user_id == user && is_open_refresh t

abbrev pub with_password : ℕ → ℕ → ℕ → AuthState → AuthState
with_password now password user s =
    set_tokens (update (is_left_over user AuthTokenType.password_reset) (revoke now)) (
      set_tokens (update (is_session_of user) (revoke now))
        (set_user user (λ a. record a { password_hash = password }) s))

-- `password` is the hash of the new password.
unfoldable pub reset_password : (ℕ → ℕ) → ℕ → ℕ → ℕ → AuthState → Result AuthError ℕ × AuthState
reset_password digest now raw password s =
    if_consumed (with_password now password) s
      (consume_opaque digest now raw AuthTokenType.password_reset s)
