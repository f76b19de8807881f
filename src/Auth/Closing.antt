-- ===== src/Auth/Closing.antt =====
-- An UPDATE that closes every token of a hash.
use ai_tgs.Common.{
  Bool, Bool-cases, IsUnique, List, [], any, any-update, ap, arith, false, find, inl, inr, is_key,
  none, not, refl, some, subst, sym, true, update, ℕ, ◌≡◌, ◌==◌, ◌&&◌, ◌∷◌, ◌∙◌,
}
use ai_tgs.Auth.Rows.{AuthToken}
use ai_tgs.Auth.Tokens.{has_hash}
use ai_tgs.Auth.Runs.{}
use ai_tgs.Auth.Spent.{hash_of, is_usable, IsSpent, Closes, any-of_miss}
use ai_tgs.Auth.Keeps.{}
use ai_tgs.Auth.Once.{any-weaken}

-- The rows of a hash that fail a test.
abbrev pub fails : ℕ → (AuthToken → Bool) → AuthToken → Bool
fails hash p t = has_hash hash t && not (p t)

fails-of_miss :
    (hash : ℕ) (p : AuthToken → Bool) (ts : List AuthToken)
    → any (has_hash hash) ts ≡ false
    → any (fails hash p) ts ≡ false
fails-of_miss hash p ts miss =
    any-weaken (fails hash p) (has_hash hash) ts (λ t h. ground (arith, h)) miss

-- The row of a hash is the only one.
pub only_row :
    (hash : ℕ) (p : AuthToken → Bool) (ts : List AuthToken) (a : AuthToken)
    → IsUnique hash_of ts
    → find (has_hash hash) ts ≡ some a
    → p a ≡ true
    → any (fails hash p) ts ≡ false
only_row hash p [] a unique found passes = refl
only_row hash p (t ∷ ts) a unique found passes = elim (Bool-cases (has_hash hash t)) [
  | inl hit ↦
      let same : t ≡ a = ground (arith, found, hit) in
      let holds : p t ≡ true = subst (λ x. p x ≡ true) (sym same) passes in
      let hashes : hash_of t ≡ hash = ground (arith, hit) in
      let miss : any (has_hash hash) ts ≡ false =
        any-of_miss hash ts (subst (λ i. find (is_key hash_of i) ts ≡ none) hashes unique.0) in
      let rest = fails-of_miss hash p ts miss in ground (arith, holds, rest)
  | inr miss ↦
      let rest = only_row hash p ts a unique.1 (ground (arith, miss, found)) passes in
      ground (arith, miss, rest)
]

usable-update_rest :
    (hash : ℕ) (u : AuthToken → Bool) (f : AuthToken → AuthToken) (ts : List AuthToken)
    → Closes f
    → any (λ t. is_usable hash t && not (u t)) ts ≡ false
    → any (is_usable hash) (update u f ts) ≡ false
usable-update_rest hash u f [] closes h = refl
usable-update_rest hash u f (t ∷ ts) closes h =
    let closed = (closes t).1 in
    let rest = usable-update_rest hash u f ts closes in ground (arith, h, closed, rest)

pub found-any :
    (p : AuthToken → Bool) (ts : List AuthToken) (a : AuthToken)
    → find p ts ≡ some a
    → any p ts ≡ true
found-any p [] a h = cc
found-any p (t ∷ ts) a h = ground (arith, h, found-any p ts a)

-- An UPDATE that closes every open row of the hash spends it.
pub ends :
    (hash : ℕ) (u : AuthToken → Bool) (f : AuthToken → AuthToken) (ts : List AuthToken)
    → Closes f
    → any (has_hash hash) ts ≡ true
    → any (λ t. is_usable hash t && not (u t)) ts ≡ false
    → IsSpent hash (update u f ts)
ends hash u f ts closes stored rest = (
  any-update (has_hash hash) u f ts (λ t. ap (λ n. n == hash) (closes t).0) ∙ stored,
  usable-update_rest hash u f ts closes rest,
)
