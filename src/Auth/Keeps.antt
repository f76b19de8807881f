-- ===== src/Auth/Keeps.antt =====
-- What every request keeps of the tokens, whichever way it ends.
use ai_tgs.Common.{
  Bool, Bool-cases, IsUnique, IsUnique-update_by, List, Option, Option-cases, Result, [], any,
  any-append_some, arith, err, false, find, inl, inr, none, ok, refl, some, subst, suc, true,
  update, ℕ, ◌≡◌, ◌++◌, ◌∷◌, find-append_none,
}
use ai_tgs.Auth.Rows.{AuthTokenType, AuthToken, Claims, JwtService, AuthError, AuthState}
use ai_tgs.Auth.Tokens.{
  has_hash, is_open, is_consumable, in_family, consume, revoke, set_tokens, save_token, with_result,
  refresh_row, session_of, issue_session, is_in_rotation, is_refresh, revoke_family, rotate,
  refresh, logout, logout_all, issue_opaque, consumed, consume_opaque, if_consumed, verified,
  verify_email, is_session_of, with_password, reset_password,
}
use ai_tgs.Auth.Runs.{Request, is_ok, perform, run}
use ai_tgs.Auth.Spent.{
  hash_of, is_usable, IsSpent, Closes, consume-Closes, revoke-Closes, update-IsSpent,
}

-- A property of the tokens that closing rows and a row with a new hash keep.
pub record IsKept (Q : List AuthToken → Type 0) : Type 0 where
  pub closing :
      (u : AuthToken → Bool) (f : AuthToken → AuthToken) (ts : List AuthToken)
      → Closes f
      → Q ts
      → Q (update u f ts)
  pub adding :
      (t : AuthToken) (ts : List AuthToken)
      → any (has_hash t.token_hash) ts ≡ false
      → is_open t ≡ true
      → Q ts
      → Q (ts ++ t ∷ [])

any-of_new :
    (hash : ℕ) (t : AuthToken) (ts : List AuthToken)
    → any (has_hash t.token_hash) ts ≡ false
    → any (has_hash hash) ts ≡ true
    → has_hash hash t ≡ false
any-of_new hash t ts new old = elim (Bool-cases (has_hash hash t)) [
  | inl hit ↦
      let same : t.token_hash ≡ hash = ground (arith, hit) in
      let gone : any (has_hash hash) ts ≡ false =
        subst (λ n. any (has_hash n) ts ≡ false) same new in
      ground (arith, gone, old)
  | inr miss ↦ miss
]

usable-append :
    (hash : ℕ) (t : AuthToken) (ts : List AuthToken)
    → has_hash hash t ≡ false
    → any (is_usable hash) ts ≡ false
    → any (is_usable hash) (ts ++ t ∷ []) ≡ false
usable-append hash t [] miss h = ground (arith, miss)
usable-append hash t (x ∷ ts) miss h = ground (arith, h, usable-append hash t ts miss)

pub IsSpent-IsKept : (hash : ℕ) → IsKept (IsSpent hash)
IsSpent-IsKept hash = record {
  closing = λ u f ts closes h. update-IsSpent hash u f ts closes h;
  adding = λ t ts new usable h. (
    any-append_some (has_hash hash) ts (t ∷ []) h.0,
    usable-append hash t ts (any-of_new hash t ts new h.0) h.1,
  );
}

append-IsUnique :
    (t : AuthToken) (ts : List AuthToken)
    → any (has_hash t.token_hash) ts ≡ false
    → IsUnique hash_of ts
    → IsUnique hash_of (ts ++ t ∷ [])
append-IsUnique t [] new h = (refl, tt)
append-IsUnique t (x ∷ ts) new h = (
  find-append_none hash_of (hash_of x) ts t h.0 (ground (arith, new)),
  append-IsUnique t ts (ground (arith, new)) h.1,
)

pub IsUnique-IsKept : IsKept (IsUnique hash_of)
IsUnique-IsKept = record {
  closing = λ u f ts closes h. IsUnique-update_by hash_of u f (λ t. (closes t).0) ts h;
  adding = λ t ts new usable h. append-IsUnique t ts new h;
}

-- What is left where a call succeeds, and where it does not.
module _ (Q : List AuthToken → Type 0) where
  abbrev pub Saved : Result AuthError AuthState → Type 0
  Saved (ok s) = Q s.tokens
  Saved (err e) = Unit

  pub with_result-success :
      {A : Type 0} (a : A) (before : AuthState) (r : Result AuthError AuthState)
      → Saved r
      → is_ok (with_result a before r).0 ≡ true
      → Q (with_result a before r).1.tokens
  with_result-success a before (ok s) h success = h
  with_result-success a before (err e) h success = cc

  with_result-keeps :
      {A : Type 0} (a : A) (before : AuthState) (r : Result AuthError AuthState)
      → Q before.tokens
      → Saved r
      → Q (with_result a before r).1.tokens
  with_result-keeps a before (ok s) g h = h
  with_result-keeps a before (err e) g h = g

  abbrev pub Consumed : Result AuthError (ℕ × AuthState) → Type 0
  Consumed (ok p) = Q p.1.tokens
  Consumed (err e) = Unit

  if_consumed-keeps :
      (f : ℕ → AuthState → AuthState) (before : AuthState) (r : Result AuthError (ℕ × AuthState))
      → ((user : ℕ) (s : AuthState) → Q s.tokens → Q (f user s).tokens)
      → Q before.tokens
      → Consumed r
      → Q (if_consumed f before r).1.tokens
  if_consumed-keeps f before (ok p) step g h = step p.0 p.1 h
  if_consumed-keeps f before (err e) step g h = g

module _ (Q : List AuthToken → Type 0) (kept : IsKept Q) where
  pub save_token-Saved :
      (t : AuthToken) (s : AuthState) → is_open t ≡ true → Q s.tokens → Saved Q (save_token t s)
  unfolding save_token
  save_token-Saved t s usable h = elim (Bool-cases (any (has_hash t.token_hash) s.tokens)) [
    | inl old ↦ rw old tt
    | inr new ↦ rw new (kept.adding t s.tokens new usable h)
  ]

  consumed-Consumed :
      (now : ℕ) (p : AuthToken → Bool) (s : AuthState) (o : Option AuthToken)
      → Q s.tokens
      → Consumed Q (consumed now p s o)
  consumed-Consumed now p s none h = tt
  consumed-Consumed now p s (some t) h =
      kept.closing p (consume now) s.tokens (consume-Closes now) h

  consume_opaque-Consumed :
      (digest : ℕ → ℕ) (now raw : ℕ) (type : AuthTokenType) (s : AuthState)
      → Q s.tokens
      → Consumed Q (consume_opaque digest now raw type s)
  unfolding consume_opaque
  consume_opaque-Consumed digest now raw type s h =
      consumed-Consumed now (is_consumable now (digest raw) type) s
        (find (is_consumable now (digest raw) type) s.tokens) h

  module _ (jwt : JwtService) (digest : ℕ → ℕ) where
    issue_session-keeps :
        (claims : Claims) (now : ℕ) (before s : AuthState)
        → Q before.tokens
        → Q s.tokens
        → Q (issue_session jwt digest claims now before s).1.tokens
    unfolding issue_session
    issue_session-keeps claims now before s g h =
        with_result-keeps Q (session_of jwt digest claims now s) before
          (save_token (refresh_row jwt digest claims now s) s) g
          (save_token-Saved (refresh_row jwt digest claims now s) s refl h)

    revoke_family-keeps :
        (now : ℕ) (o : Option AuthToken) (s : AuthState)
        → Q s.tokens
        → Q (revoke_family now o s).tokens
    revoke_family-keeps now none s h = h
    revoke_family-keeps now (some t) s h = elim (Option-cases t.family_id) [
      | inl alone ↦ rw alone h
      | inr (family, member) ↦
          rw member (kept.closing (in_family family) (revoke now) s.tokens (revoke-Closes now) h)
    ]

    rotate-keeps :
        (now raw : ℕ) (s : AuthState) (o : Option Claims)
        → Q s.tokens
        → Q (rotate jwt digest now raw s o).1.tokens
    rotate-keeps now raw s none h = h
    rotate-keeps now raw s (some claims) h =
        elim (Bool-cases (any (is_in_rotation jwt digest now raw claims.family_id) s.tokens)) [
          | inl found ↦ rw found (
              issue_session-keeps claims now s
                (set_tokens
                  (update (is_in_rotation jwt digest now raw claims.family_id) (consume now)) s)
                h
                (kept.closing (is_in_rotation jwt digest now raw claims.family_id) (consume now)
                  s.tokens (consume-Closes now) h))
          | inr reused ↦
              rw reused (revoke_family-keeps now (find (is_refresh jwt digest raw) s.tokens) s h)
        ]

    pub perform-keeps :
        (now : ℕ) (r : Request) (s : AuthState) → Q s.tokens → Q (perform jwt digest now r s).tokens
    unfolding refresh logout logout_all issue_opaque verify_email reset_password
    perform-keeps now (Request.login claims) s h =
        issue_session-keeps (record claims { family_id = s.next_id }) now s
          (record s { next_id = suc s.next_id }) h h
    perform-keeps now (Request.rotation raw) s h =
        rotate-keeps now raw s (jwt.verify_refresh now raw) h
    perform-keeps now (Request.signed_out raw) s h =
        kept.closing _ (revoke now) s.tokens (revoke-Closes now) h
    perform-keeps now (Request.signed_out_everywhere user) s h =
        kept.closing _ (revoke now) s.tokens (revoke-Closes now) h
    perform-keeps now (Request.opaque_token raw user type ttl) s h =
        with_result-keeps Q raw s (save_token _ s) h (save_token-Saved _ s refl h)
    perform-keeps now (Request.email_verified raw) s h =
        if_consumed-keeps Q (verified now) s
          (consume_opaque digest now raw AuthTokenType.email_verification s)
          (λ user s' k. kept.closing _ (revoke now) s'.tokens (revoke-Closes now) k) h
          (consume_opaque-Consumed digest now raw AuthTokenType.email_verification s h)
    perform-keeps now (Request.new_password raw password) s h =
        if_consumed-keeps Q (with_password now password) s
          (consume_opaque digest now raw AuthTokenType.password_reset s)
          (λ user s' k.
            kept.closing _ (revoke now) (update (is_session_of user) (revoke now) s'.tokens)
              (revoke-Closes now)
              (kept.closing (is_session_of user) (revoke now) s'.tokens (revoke-Closes now) k))
          h (consume_opaque-Consumed digest now raw AuthTokenType.password_reset s h)

    pub run-keeps :
        (rs : List (ℕ × Request)) (s : AuthState) → Q s.tokens → Q (run jwt digest rs s).tokens
    run-keeps [] s h = h
    run-keeps (r ∷ rs) s h = run-keeps rs (perform jwt digest r.0 r.1 s) (perform-keeps r.0 r.1 s h)
