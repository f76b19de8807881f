-- ===== src/Auth/Spent.antt =====
-- Tokens that are consumed or revoked stay so.
use ai_tgs.Common.{
  Bool, Bool-cases, IsUnique, List, Option, [], any, any-update, ap, arith, false, find, inl, inr,
  is_key, none, refl, some, subst, true, update, ℕ, ◌≡◌, ◌==◌, ◌&&◌, ◌∷◌, ◌∙◌,
}
use ai_tgs.Auth.Rows.{AuthToken}
use ai_tgs.Auth.Tokens.{has_hash, is_open, consume, revoke, is_none}

abbrev pub hash_of : AuthToken → ℕ
hash_of t = t.token_hash

abbrev pub is_usable : ℕ → AuthToken → Bool
is_usable hash t = has_hash hash t && is_open t

-- A token of the hash is stored, and none of it is open.
abbrev pub IsSpent : ℕ → List AuthToken → Type 0
IsSpent hash ts = (any (has_hash hash) ts ≡ true) × (any (is_usable hash) ts ≡ false)

abbrev pub Closes : (AuthToken → AuthToken) → Type 0
Closes f = (t : AuthToken) → (hash_of (f t) ≡ hash_of t) × (is_open (f t) ≡ false)

pub consume-Closes : (now : ℕ) → Closes (consume now)
consume-Closes now t = (refl, refl)

pub revoke-Closes : (now : ℕ) → Closes (revoke now)
revoke-Closes now t = (refl, closed t.consumed_at)
  where
    closed : (o : Option ℕ) → (is_none o && false) ≡ false
    closed none = refl
    closed (some n) = refl

usable-update :
    (hash : ℕ) (u : AuthToken → Bool) (f : AuthToken → AuthToken) (ts : List AuthToken)
    → Closes f
    → any (is_usable hash) ts ≡ false
    → any (is_usable hash) (update u f ts) ≡ false
usable-update hash u f [] closes h = refl
usable-update hash u f (t ∷ ts) closes h =
    let closed = (closes t).1 in ground (arith, h, closed, usable-update hash u f ts closes)

pub update-IsSpent :
    (hash : ℕ) (u : AuthToken → Bool) (f : AuthToken → AuthToken) (ts : List AuthToken)
    → Closes f
    → IsSpent hash ts
    → IsSpent hash (update u f ts)
update-IsSpent hash u f ts closes h = (
  any-update (has_hash hash) u f ts (λ t. ap (λ n. n == hash) (closes t).0) ∙ h.0,
  usable-update hash u f ts closes h.1,
)

pub any-of_miss :
    (hash : ℕ) (ts : List AuthToken)
    → find (is_key hash_of hash) ts ≡ none
    → any (has_hash hash) ts ≡ false
any-of_miss hash [] h = refl
any-of_miss hash (t ∷ ts) h = ground (arith, h, any-of_miss hash ts)

usable-of_miss :
    (hash : ℕ) (ts : List AuthToken)
    → any (has_hash hash) ts ≡ false
    → any (is_usable hash) ts ≡ false
usable-of_miss hash [] h = refl
usable-of_miss hash (t ∷ ts) h = ground (arith, h, usable-of_miss hash ts)

any-of_both :
    (hash : ℕ) (u : AuthToken → Bool) (ts : List AuthToken)
    → any (λ t. has_hash hash t && u t) ts ≡ true
    → any (has_hash hash) ts ≡ true
any-of_both hash u [] h = cc
any-of_both hash u (t ∷ ts) h = ground (arith, h, any-of_both hash u ts)

pub spends :
    (hash : ℕ) (u : AuthToken → Bool) (f : AuthToken → AuthToken) (ts : List AuthToken)
    → Closes f
    → IsUnique hash_of ts
    → any (λ t. has_hash hash t && u t) ts ≡ true
    → any (is_usable hash) (update u f ts) ≡ false
spends hash u f [] closes unique h = refl
spends hash u f (t ∷ ts) closes unique h = elim (Bool-cases (has_hash hash t)) [
  | inl hit ↦
      let same : hash_of t ≡ hash = ground (arith, hit) in
      let miss : any (has_hash hash) ts ≡ false =
        any-of_miss hash ts (subst (λ i. find (is_key hash_of i) ts ≡ none) same unique.0) in
      let no_other = usable-update hash u f ts closes (usable-of_miss hash ts miss) in
      let closed = (closes t).1 in
      let unmet = any-of_both hash u ts in ground (arith, h, hit, miss, no_other, closed, unmet)
  | inr miss ↦
      let kept : hash_of (f t) ≡ hash_of t = (closes t).0 in
      let later = spends hash u f ts closes unique.1 in ground (arith, h, miss, kept, later)
]

pub spends-IsSpent :
    (hash : ℕ) (u : AuthToken → Bool) (f : AuthToken → AuthToken) (ts : List AuthToken)
    → Closes f
    → IsUnique hash_of ts
    → any (λ t. has_hash hash t && u t) ts ≡ true
    → IsSpent hash (update u f ts)
spends-IsSpent hash u f ts closes unique h = (
  any-update (has_hash hash) u f ts (λ t. ap (λ n. n == hash) (closes t).0)
      ∙ any-of_both hash u ts h,
  spends hash u f ts closes unique h,
)
