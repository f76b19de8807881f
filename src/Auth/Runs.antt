-- ===== src/Auth/Runs.antt =====
-- The requests to AuthService that read or change tokens, one after the other, each at a time.
use ai_tgs.Common.{Bool, List, Result, [], err, false, ok, suc, true, ℕ, ◌∷◌}
use ai_tgs.Auth.Rows.{AuthTokenType, Claims, JwtService, AuthError, AuthState}
use ai_tgs.Auth.Tokens.{
  issue_session, refresh, logout, logout_all, issue_opaque, verify_email, reset_password,
}

-- A login issues a session in a family of its own.
pub data Request : Type 0 where
  login : Claims → Request
  rotation signed_out email_verified : ℕ → Request
  signed_out_everywhere : ℕ → Request
  opaque_token : ℕ → ℕ → AuthTokenType → ℕ → Request
  new_password : ℕ → ℕ → Request

abbrev pub is_ok : {A : Type 0} → Result AuthError A → Bool
is_ok (ok a) = true
is_ok (err e) = false

module _ (jwt : JwtService) (digest : ℕ → ℕ) where
  -- The family of a login is a new id, as randomUUID gives.
  abbrev pub start_session : ℕ → Claims → AuthState → AuthState
  start_session now claims s =
      (issue_session jwt digest (record claims { family_id = s.next_id }) now s
        (record s { next_id = suc s.next_id })).1

  abbrev pub perform : ℕ → Request → AuthState → AuthState
  perform now (Request.login claims) s = start_session now claims s
  perform now (Request.rotation raw) s = (refresh jwt digest now raw s).1
  perform now (Request.signed_out raw) s = logout digest now raw s
  perform now (Request.email_verified raw) s = (verify_email digest now raw s).1
  perform now (Request.signed_out_everywhere user) s = logout_all now user s
  perform now (Request.opaque_token raw user type ttl) s =
      (issue_opaque digest now raw user type ttl s).1
  perform now (Request.new_password raw password) s = (reset_password digest now raw password s).1

  abbrev pub run : List (ℕ × Request) → AuthState → AuthState
  run [] s = s
  run (r ∷ rs) s = run rs (perform r.0 r.1 s)

-- An account table without tokens.
abbrev pub initial : AuthState → AuthState
initial s = record s { tokens = [] }
