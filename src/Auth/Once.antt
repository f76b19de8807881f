-- ===== src/Auth/Once.antt =====
-- How often a token gives a session.
use ai_tgs.Common.{
  Bool, Bool-cases, IsUnique, List, Option, [], any, arith, false, inl, inr, none, refl, some, true,
  update, ℕ, ◌≡◌, ◌&&◌, ◌∷◌,
}
use ai_tgs.Auth.Rows.{AuthToken, Claims, JwtService, AuthState}
use ai_tgs.Auth.Tokens.{
  has_hash, consume, set_tokens, save_token, refresh_row, session_of, issue_session, is_in_rotation,
  rotate, refresh,
}
use ai_tgs.Auth.Runs.{Request, is_ok, run, initial}
use ai_tgs.Auth.Spent.{hash_of, is_usable, IsSpent, consume-Closes, spends-IsSpent}
use ai_tgs.Auth.Keeps.{
  IsKept, IsSpent-IsKept, IsUnique-IsKept, with_result-success, save_token-Saved, run-keeps,
}

pub any-weaken :
    (p q : AuthToken → Bool) (ts : List AuthToken)
    → ((t : AuthToken) → p t ≡ true → q t ≡ true)
    → any q ts ≡ false
    → any p ts ≡ false
any-weaken p q [] weaken h = refl
any-weaken p q (t ∷ ts) weaken h = elim (Bool-cases (p t)) [
  | inl hit ↦ let found = weaken t hit in ground (arith, h, found)
  | inr miss ↦ rw miss (any-weaken p q ts weaken (ground (arith, h)))
]

any-strengthen :
    (p q : AuthToken → Bool) (ts : List AuthToken)
    → ((t : AuthToken) → p t ≡ true → q t ≡ true)
    → any p ts ≡ true
    → any q ts ≡ true
any-strengthen p q ts weaken h = elim (Bool-cases (any q ts)) [
  | inl found ↦ found
  | inr missing ↦ let missed = any-weaken p q ts weaken missing in ground (arith, missed, h)
]

module _ (jwt : JwtService) (digest : ℕ → ℕ) where
  rotation-usable :
      (now raw family : ℕ) (t : AuthToken)
      → is_in_rotation jwt digest now raw family t ≡ true
      → is_usable (digest raw) t ≡ true
  rotation-usable now raw family t h = ground (arith, h)

  rotation-has_hash :
      (now raw family : ℕ) (t : AuthToken)
      → is_in_rotation jwt digest now raw family t ≡ true
      → (has_hash (digest raw) t && is_in_rotation jwt digest now raw family t) ≡ true
  rotation-has_hash now raw family t h = ground (arith, h)

  rotate-refused :
      (now raw : ℕ) (s : AuthState) (o : Option Claims)
      → IsSpent (digest raw) s.tokens
      → is_ok (rotate jwt digest now raw s o).0 ≡ false
  rotate-refused now raw s none h = refl
  rotate-refused now raw s (some claims) h =
      let none_left =
        any-weaken (is_in_rotation jwt digest now raw claims.family_id) (is_usable (digest raw))
          s.tokens (rotation-usable now raw claims.family_id) h.1 in
      rw none_left refl

  -- A spent token is refused, after every run too.
  pub run-refused :
      (now raw : ℕ) (rs : List (ℕ × Request)) (s : AuthState)
      → IsSpent (digest raw) s.tokens
      → is_ok (refresh jwt digest now raw (run jwt digest rs s)).0 ≡ false
  unfolding refresh
  run-refused now raw rs s h =
      rotate-refused now raw (run jwt digest rs s) (jwt.verify_refresh now raw)
        (run-keeps (IsSpent (digest raw)) (IsSpent-IsKept (digest raw)) jwt digest rs s h)

  issue_session-success :
      (Q : List AuthToken → Type 0) (kept : IsKept Q) (claims : Claims) (now : ℕ)
      (before s : AuthState)
      → Q s.tokens
      → is_ok (issue_session jwt digest claims now before s).0 ≡ true
      → Q (issue_session jwt digest claims now before s).1.tokens
  unfolding issue_session
  issue_session-success Q kept claims now before s h success =
      with_result-success Q (session_of jwt digest claims now s) before
        (save_token (refresh_row jwt digest claims now s) s)
        (save_token-Saved Q kept (refresh_row jwt digest claims now s) s refl h) success

  rotate-spends :
      (now raw : ℕ) (s : AuthState) (o : Option Claims)
      → IsUnique hash_of s.tokens
      → is_ok (rotate jwt digest now raw s o).0 ≡ true
      → IsSpent (digest raw) (rotate jwt digest now raw s o).1.tokens
  rotate-spends now raw s none unique success = cc
  rotate-spends now raw s (some claims) unique success =
      let u = is_in_rotation jwt digest now raw claims.family_id in
      let s' = set_tokens (update u (consume now)) s in
      elim (Bool-cases (any u s.tokens)) [
        | inl found ↦
            let spent =
              spends-IsSpent (digest raw) u (consume now) s.tokens (consume-Closes now) unique (
                any-strengthen u (λ t. has_hash (digest raw) t && u t) s.tokens
                  (rotation-has_hash now raw claims.family_id) found) in
            let issued : is_ok (issue_session jwt digest claims now s s').0 ≡ true =
              rw found at success in
            rw found (
              issue_session-success (IsSpent (digest raw)) (IsSpent-IsKept (digest raw)) claims now
                s s' spent issued)
        | inr reused ↦ let refused : false ≡ true = rw reused at success in cc
      ]

  -- From a state without tokens, after any requests: a refresh token that gave a session gives none
  -- afterwards, whatever requests come between and at whatever time.
  pub refresh-once :
      (start : AuthState) (before between : List (ℕ × Request)) (now later raw : ℕ)
      → is_ok (refresh jwt digest now raw (run jwt digest before (initial start))).0 ≡ true
      → is_ok
          (refresh jwt digest later raw (
            run jwt digest between
              (refresh jwt digest now raw (run jwt digest before (initial start))).1)).0
        ≡ false
  unfolding refresh
  refresh-once start before between now later raw success =
      let s = run jwt digest before (initial start) in
      let unique =
        run-keeps (IsUnique hash_of) IsUnique-IsKept jwt digest before (initial start) tt in
      run-refused later raw between (rotate jwt digest now raw s (jwt.verify_refresh now raw)).1
        (rotate-spends now raw s (jwt.verify_refresh now raw) unique success)
