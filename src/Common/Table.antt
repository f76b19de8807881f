-- ===== src/Common/Table.antt =====
-- A database table as the list of its rows: SELECT, UPDATE … WHERE and sums over the rows.
use ai_tgs.Common.Tests.{
  ◌⊎◌, ◌≡◌, refl, ℕ, suc, ◌+◌, ◌≡◌, Bool, true, false, ◌&&◌, Option, none, some, List, [], ◌∷◌,
  ◌++◌, arith, if◌then◌else◌, Bool-cases, inl, inr,
}

module _ {ℓ} {A : Type ℓ} where
  abbrev pub length : List A → ℕ
  length [] = 0
  length (x ∷ xs) = suc (length xs)

  -- The first row that passes the test.
  abbrev pub find : (A → Bool) → List A → Option A
  find p [] = none
  find p (x ∷ xs) = if p x then some x else find p xs

  abbrev pub any : (A → Bool) → List A → Bool
  any p [] = false
  any p (x ∷ xs) = if p x then true else any p xs

  abbrev pub all : (A → Bool) → List A → Bool
  all p [] = true
  all p (x ∷ xs) = p x && all p xs

  -- The rows that pass the test, in order.
  abbrev pub select : (A → Bool) → List A → List A
  select p [] = []
  select p (x ∷ xs) = let rest = select p xs in if p x then x ∷ rest else rest

  -- UPDATE … SET f WHERE p.
  abbrev pub update : (A → Bool) → (A → A) → List A → List A
  update p f [] = []
  update p f (x ∷ xs) = (if p x then f x else x) ∷ update p f xs

  abbrev pub sum_by : (A → ℕ) → List A → ℕ
  sum_by w [] = 0
  sum_by w (x ∷ xs) = w x + sum_by w xs

  abbrev pub count : (A → Bool) → List A → ℕ
  count p [] = 0
  count p (x ∷ xs) = (if p x then 1 else 0) + count p xs

module _ {ℓ κ} {A : Type ℓ} (P : A → Type κ) where
  abbrev pub All : List A → Type κ
  All [] = Unit
  All (x ∷ xs) = P x × All xs

  pub All-append : (xs ys : List A) → All xs → All ys → All (xs ++ ys)
  All-append [] ys h k = k
  All-append (x ∷ xs) ys h k = (h.0, All-append xs ys h.1 k)

  -- What holds of all rows holds of the row that is found.
  pub All-find : (p : A → Bool) (xs : List A) (a : A) → All xs → find p xs ≡ some a → P a
  All-find p [] a h e = cc
  All-find p (x ∷ xs) a h e = elim (Bool-cases (p x)) [
    | inl hit ↦ let same : x ≡ a = ground arith in subst_in same h.0
    | inr miss ↦ All-find p xs a h.1 (ground arith)
  ]
    where
      subst_in : {u v : A} → u ≡ v → P u → P v
      subst_in e q = rw (← e) q

pub length-select {ℓ} :
    {A : Type ℓ} (p : A → Bool) (xs : List A) → length (select p xs) ≡ count p xs
length-select p [] = refl
length-select p (x ∷ xs) = ground (arith, length-select p xs)

-- A row stands in a table.
abbrev pub IsIn : {A : Type 0} → A → List A → Type 0
IsIn a [] = ⊥
IsIn a (x ∷ xs) = (a ≡ x) ⊎ IsIn a xs

module _ {A : Type 0} where
  pub IsIn-find :
      (p : A → Bool) (xs : List A) (a : A) → find p xs ≡ some a → IsIn a xs × (p a ≡ true)
  IsIn-find p [] a h = cc
  IsIn-find p (x ∷ xs) a h = elim (Bool-cases (p x)) [
    | inl hit ↦ let e : a ≡ x = ground arith in (inl e, rw e hit)
    | inr miss ↦ let (m, t) = IsIn-find p xs a (ground arith) in (inr m, t)
  ]

  pub IsIn-select :
      (p : A → Bool) (xs : List A) (a : A) → IsIn a (select p xs) → IsIn a xs × (p a ≡ true)
  IsIn-select p [] a m = absurd m
  IsIn-select p (x ∷ xs) a m = elim (Bool-cases (p x)) [
    | inl hit ↦
        let m' : (a ≡ x) ⊎ IsIn a (select p xs) = rw hit at m in
        elim m' [
          | inl e ↦ (inl e, rw e hit)
          | inr later ↦ let (k, t) = IsIn-select p xs a later in (inr k, t)
        ]
    | inr miss ↦
        let m' : IsIn a (select p xs) = rw miss at m in
        let (k, t) = IsIn-select p xs a m' in (inr k, t)
  ]
