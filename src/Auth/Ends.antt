-- ===== src/Auth/Ends.antt =====
-- What ends the sessions of a user or of a family.
use ai_tgs.Common.{
  ==_refl, Bool, Bool-cases, IsUnique, List, Option, any, any-update, arith, err, false, find, inl,
  inr, none, not, ok, refl, some, subst, sym, true, update, ℕ, ◌≡◌, ◌≢◌, ◌==◌, ◌&&◌, ◌∙◌,
}
use ai_tgs.Auth.Rows.{
  AuthTokenType, same_token_type, AuthToken, Claims, JwtService, AuthError, AuthState,
}
use ai_tgs.Auth.Tokens.{
  has_hash, is_consumable, in_family, consume, revoke, set_tokens, save_token, with_result,
  refresh_row, session_of, issue_session, is_in_rotation, is_refresh, revoke_family, rotate,
  refresh, consume_opaque, is_left_over, if_consumed, is_session_of, with_password, reset_password,
  consumed,
}
use ai_tgs.Auth.Runs.{Request, is_ok, run, initial}
use ai_tgs.Auth.Spent.{hash_of, is_usable, IsSpent, revoke-Closes, update-IsSpent}
use ai_tgs.Auth.Keeps.{IsUnique-IsKept, run-keeps}
use ai_tgs.Auth.Once.{any-weaken, run-refused}
use ai_tgs.Auth.Closing.{fails, only_row, found-any, ends}

abbrev is_refresh_of : ℕ → AuthToken → Bool
is_refresh_of user t = t.user_id == user && same_token_type t.type AuthTokenType.refresh

open_sessions :
    (hash user : ℕ) (ts : List AuthToken)
    → any (fails hash (is_refresh_of user)) ts ≡ false
    → any (λ t. is_usable hash t && not (is_session_of user t)) ts ≡ false
open_sessions hash user ts h =
    any-weaken _ (fails hash (is_refresh_of user)) ts (λ t k. ground (arith, k)) h

if_consumed-spends :
    (hash now password : ℕ) (p : AuthToken → Bool) (before : AuthState) (o : Option AuthToken)
    (user : ℕ)
    → any (has_hash hash) before.tokens ≡ true
    → any (fails hash (is_refresh_of user)) before.tokens ≡ false
    → (if_consumed (with_password now password) before (consumed now p before o)).0 ≡ ok user
    → IsSpent hash
        (if_consumed (with_password now password) before (consumed now p before o)).1.tokens
if_consumed-spends hash now password p before none user stored owned success = cc
if_consumed-spends hash now password p before (some t) user stored owned success =
    let ts = update p (consume now) before.tokens in
    let stored' : any (has_hash hash) ts ≡ true =
      any-update (has_hash hash) p (consume now) before.tokens (λ t. refl) ∙ stored in
    let owned' : any (fails hash (is_refresh_of user)) ts ≡ false =
      any-update (fails hash (is_refresh_of user)) p (consume now) before.tokens (λ t. refl)
      ∙ owned in
    let same : t.user_id ≡ user = cc in
    update-IsSpent hash (is_left_over t.user_id AuthTokenType.password_reset) (revoke now)
      (update (is_session_of t.user_id) (revoke now) ts) (revoke-Closes now)
      (subst (λ i. IsSpent hash (update (is_session_of i) (revoke now) ts)) (sym same)
        (ends hash (is_session_of user) (revoke now) ts (revoke-Closes now) stored'
          (open_sessions hash user ts owned')))

family_tokens :
    (hash family : ℕ) (ts : List AuthToken)
    → any (fails hash (in_family family)) ts ≡ false
    → any (λ t. is_usable hash t && not (in_family family t)) ts ≡ false
family_tokens hash family ts h =
    any-weaken _ (fails hash (in_family family)) ts (λ t k. ground (arith, k)) h

in_family_of : (family : ℕ) (t : AuthToken) → t.family_id ≡ some family → in_family family t ≡ true
in_family_of family t h = rw h (==_refl family)

save_token-error :
    {A : Type 0} (a : A) (before : AuthState) (t : AuthToken) (s : AuthState)
    → (with_result a before (save_token t s)).0 ≢ err AuthError.refresh_token_reused
unfolding save_token
save_token-error a before t s = elim (Bool-cases (any (has_hash t.token_hash) s.tokens)) [
  | inl old ↦ rw old (λ h. cc)
  | inr new ↦ rw new (λ h. cc)
]

revoke_family-spends :
    (hash family now : ℕ) (t : AuthToken) (s : AuthState)
    → t.family_id ≡ some family
    → any (has_hash hash) s.tokens ≡ true
    → any (fails hash (in_family family)) s.tokens ≡ false
    → IsSpent hash (revoke_family now (some t) s).tokens
revoke_family-spends hash family now t s member stored owned = rw member (
    ends hash (in_family family) (revoke now) s.tokens (revoke-Closes now) stored
      (family_tokens hash family s.tokens owned))

module _ (jwt : JwtService) (digest : ℕ → ℕ) where
  issue_session-error :
      (claims : Claims) (now : ℕ) (before s : AuthState)
      → (issue_session jwt digest claims now before s).0 ≢ err AuthError.refresh_token_reused
  unfolding issue_session
  issue_session-error claims now before s =
      save_token-error (session_of jwt digest claims now s) before
        (refresh_row jwt digest claims now s) s

  rotate-spends_family :
      (hash family now raw : ℕ) (t : AuthToken) (s : AuthState) (o : Option Claims)
      → find (is_refresh jwt digest raw) s.tokens ≡ some t
      → t.family_id ≡ some family
      → any (has_hash hash) s.tokens ≡ true
      → any (fails hash (in_family family)) s.tokens ≡ false
      → (rotate jwt digest now raw s o).0 ≡ err AuthError.refresh_token_reused
      → IsSpent hash (rotate jwt digest now raw s o).1.tokens
  rotate-spends_family hash family now raw t s none found member stored owned reused = cc
  rotate-spends_family hash family now raw t s (some claims) found member stored owned reused =
      let u = is_in_rotation jwt digest now raw claims.family_id in
      let s' = set_tokens (update u (consume now)) s in
      elim (Bool-cases (any u s.tokens)) [
        | inl fresh ↦
            let issued : (issue_session jwt digest claims now s s').0
                ≡ err AuthError.refresh_token_reused =
              rw fresh at reused in
            absurd (issue_session-error claims now s s' issued)
        | inr stale ↦
            rw (stale, found) (revoke_family-spends hash family now t s member stored owned)
      ]

  -- From a state without tokens, after any requests: once a refresh is refused because its token
  -- is invalid or reused, and that token belongs to a family, no token of the family gives a
  -- session any more, whatever requests come between and at whatever time.
  pub refresh-ends_family :
      (start : AuthState) (before between : List (ℕ × Request)) (now later raw other family : ℕ)
      (t o : AuthToken)
      → find (is_refresh jwt digest raw) (run jwt digest before (initial start)).tokens ≡ some t
      → t.family_id ≡ some family
      → find (has_hash (digest other)) (run jwt digest before (initial start)).tokens ≡ some o
      → o.family_id ≡ some family
      → (refresh jwt digest now raw (run jwt digest before (initial start))).0
        ≡ err AuthError.refresh_token_reused
      → is_ok
          (refresh jwt digest later other (
            run jwt digest between
              (refresh jwt digest now raw (run jwt digest before (initial start))).1)).0
        ≡ false
  unfolding refresh
  refresh-ends_family start before between now later raw other family t o found member found'
        member' reused =
      let s = run jwt digest before (initial start) in
      let unique =
        run-keeps (IsUnique hash_of) IsUnique-IsKept jwt digest before (initial start) tt in
      run-refused jwt digest later other between
        (rotate jwt digest now raw s (jwt.verify_refresh now raw)).1
        (rotate-spends_family (digest other) family now raw t s (jwt.verify_refresh now raw) found
          member (found-any (has_hash (digest other)) s.tokens o found')
          (only_row (digest other) (in_family family) s.tokens o unique found'
            (in_family_of family o member'))
          reused)

  -- From a state without tokens, after any requests: once a user has set a new password with a
  -- token for it, no refresh token that the user had gives a session any more, whatever requests
  -- come between and at whatever time.
  pub reset_password-ends_sessions :
      (start : AuthState) (before between : List (ℕ × Request))
      (now later raw password other user : ℕ) (o : AuthToken)
      → find (has_hash (digest other)) (run jwt digest before (initial start)).tokens ≡ some o
      → o.user_id ≡ user
      → o.type ≡ AuthTokenType.refresh
      → (reset_password digest now raw password (run jwt digest before (initial start))).0 ≡ ok user
      → is_ok
          (refresh jwt digest later other (
            run jwt digest between
              (reset_password digest now raw password (run jwt digest before (initial start))).1)).0
        ≡ false
  unfolding reset_password consume_opaque
  reset_password-ends_sessions start before between now later raw password other user o found mine
        type success =
      let s = run jwt digest before (initial start) in
      let unique =
        run-keeps (IsUnique hash_of) IsUnique-IsKept jwt digest before (initial start) tt in
      let p = is_consumable now (digest raw) AuthTokenType.password_reset in
      let owned : is_refresh_of user o ≡ true = rw (mine, type) (rw (==_refl user) refl) in
      run-refused jwt digest later other between
        (if_consumed (with_password now password) s (consumed now p s (find p s.tokens))).1
        (if_consumed-spends (digest other) now password p s (find p s.tokens) user
          (found-any (has_hash (digest other)) s.tokens o found)
          (only_row (digest other) (is_refresh_of user) s.tokens o unique found owned) success)
