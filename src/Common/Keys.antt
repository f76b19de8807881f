-- ===== src/Common/Keys.antt =====
-- Tables whose rows have a unique key: what an UPDATE or an INSERT does to sums over the rows and
-- to what holds of every row.
use ai_tgs.Common.Tests.{
  ℕ, ◌+◌, ◌<◌, ◌≤◌, ◌≡◌, refl, ap, Bool, true, false, none, some, List, [], ◌∷◌, ◌++◌, arith, ◌==◌,
  if◌then◌else◌, Bool-cases, inl, inr,
}
use ai_tgs.Common.Table.{find, update, sum_by, All}

module _ {ℓ} {A : Type ℓ} where
  pub sum_by-append : (w : A → ℕ) (xs ys : List A) → sum_by w (xs ++ ys) ≡ sum_by w xs + sum_by w ys
  sum_by-append w [] ys = omega arith
  sum_by-append w (x ∷ xs) ys = omega (arith, sum_by-append w xs ys)

  -- An UPDATE that keeps the weight of every row it touches keeps the sum.
  pub sum_by-update_same :
      (w : A → ℕ) (p : A → Bool) (f : A → A) (xs : List A)
      → ((x : A) → w (f x) ≡ w x)
      → sum_by w (update p f xs) ≡ sum_by w xs
  sum_by-update_same w p f [] h = refl
  sum_by-update_same w p f (x ∷ xs) h = ground (arith, h x, sum_by-update_same w p f xs h)

  pub All-update {κ} :
      (P : A → Type κ) (p : A → Bool) (f : A → A) (xs : List A)
      → ((x : A) → P x → P (f x))
      → All P xs
      → All P (update p f xs)
  All-update P p f [] h k = tt
  All-update P p f (x ∷ xs) h k = (pick (p x), All-update P p f xs h k.1)
    where
      pick : (b : Bool) → P (if b then f x else x)
      pick true = h x k.0
      pick false = k.0

  -- The same from one predicate to another, with the test of the update at hand.
  pub All-update_by {κ μ} :
      (P : A → Type κ) (Q : A → Type μ) (p : A → Bool) (f : A → A) (xs : List A)
      → ((x : A) → P x → p x ≡ true → Q (f x))
      → ((x : A) → P x → p x ≡ false → Q x)
      → All P xs
      → All Q (update p f xs)
  All-update_by P Q p f [] h g k = tt
  All-update_by P Q p f (x ∷ xs) h g k = (pick (p x) refl, All-update_by P Q p f xs h g k.1)
    where
      pick : (b : Bool) → p x ≡ b → Q (if b then f x else x)
      pick true e = h x k.0 e
      pick false e = g x k.0 e

  pub find-passes : (p : A → Bool) (xs : List A) (a : A) → find p xs ≡ some a → p a ≡ true
  find-passes p [] a h = cc
  find-passes p (x ∷ xs) a h = elim (Bool-cases (p x)) [
    | inl hit ↦ let same : x ≡ a = ground arith in rw (← same) hit
    | inr miss ↦ find-passes p xs a (ground arith)
  ]

  pub All-map {κ μ} :
      (P : A → Type κ) (Q : A → Type μ) (xs : List A) → ((x : A) → P x → Q x) → All P xs → All Q xs
  All-map P Q [] h k = tt
  All-map P Q (x ∷ xs) h k = (h x k.0, All-map P Q xs h k.1)

module _ {ℓ} {A : Type ℓ} (key : A → ℕ) where
  abbrev pub is_key : ℕ → A → Bool
  is_key i x = key x == i

  -- No two rows have the same key.
  abbrev pub IsUnique : List A → Type ℓ
  IsUnique [] = Unit
  IsUnique (x ∷ xs) = (find (is_key (key x)) xs ≡ none) × IsUnique xs

  pub update_miss :
      (i : ℕ) (f : A → A) (xs : List A) → find (is_key i) xs ≡ none → update (is_key i) f xs ≡ xs
  update_miss i f [] h = refl
  update_miss i f (x ∷ xs) h = elim (Bool-cases (is_key i x)) [
    | inl hit ↦ cc
    | inr miss ↦ rw miss (ap (◌∷◌ x) (update_miss i f xs (ground arith)))
  ]

  -- Updating the row of a key replaces its weight in the sum.
  pub sum_by-update :
      (w : A → ℕ) (i : ℕ) (f : A → A) (xs : List A) (a : A)
      → IsUnique xs
      → find (is_key i) xs ≡ some a
      → sum_by w (update (is_key i) f xs) + w a ≡ sum_by w xs + w (f a)
  sum_by-update w i f [] a u h = cc
  sum_by-update w i f (x ∷ xs) a u h = elim (Bool-cases (is_key i x)) [
    | inl hit ↦
        let same : x ≡ a = ground arith in
        let rest : update (is_key i) f xs ≡ xs = update_miss i f xs (rw (← (==_key x i hit)) u.0) in
        rw (hit, rest, same) (omega arith)
    | inr miss ↦ let ih = sum_by-update w i f xs a u.1 (ground arith) in rw miss (omega (arith, ih))
  ]
    where
      ==_key : (y : A) (j : ℕ) → is_key j y ≡ true → key y ≡ j
      ==_key y j e = ground arith

  pub weight-le-sum_by :
      (w : A → ℕ) (i : ℕ) (xs : List A) (a : A) → find (is_key i) xs ≡ some a → w a ≤ sum_by w xs
  weight-le-sum_by w i [] a h = cc
  weight-le-sum_by w i (x ∷ xs) a h = elim (Bool-cases (is_key i x)) [
    | inl hit ↦ let same : x ≡ a = ground arith in rw same (omega arith)
    | inr miss ↦ omega (arith, weight-le-sum_by w i xs a (ground arith))
  ]

  -- So what holds of every row holds after the update, if it holds of the new row.
  pub All-update_key {κ} :
      (P : A → Type κ) (i : ℕ) (f : A → A) (xs : List A) (a : A)
      → IsUnique xs
      → find (is_key i) xs ≡ some a
      → P (f a)
      → All P xs
      → All P (update (is_key i) f xs)
  All-update_key P i f [] a u h q k = tt
  All-update_key P i f (x ∷ xs) a u h q k = elim (Bool-cases (is_key i x)) [
    | inl hit ↦
        let same : x ≡ a = ground arith in
        let e : key x ≡ i = ground arith in
        let rest : update (is_key i) f xs ≡ xs = update_miss i f xs (rw (← e) u.0) in
        rw (hit, rest, same) (q, k.1)
    | inr miss ↦ rw miss (k.0, All-update_key P i f xs a u.1 (ground arith) q k.1)
  ]

  pub find-update-none :
      (i j : ℕ) (f : A → A) (xs : List A)
      → ((x : A) → key (f x) ≡ key x)
      → find (is_key j) xs ≡ none
      → find (is_key j) (update (is_key i) f xs) ≡ none
  find-update-none i j f [] same h = refl
  find-update-none i j f (x ∷ xs) same h = ground (arith, same x, find-update-none i j f xs same)

  pub IsUnique-update :
      (i : ℕ) (f : A → A) (xs : List A)
      → ((x : A) → key (f x) ≡ key x)
      → IsUnique xs
      → IsUnique (update (is_key i) f xs)
  IsUnique-update i f [] same u = tt
  IsUnique-update i f (x ∷ xs) same u = (pick (is_key i x), IsUnique-update i f xs same u.1)
    where
      pick : (b : Bool) → find (is_key (key (if b then f x else x))) (update (is_key i) f xs) ≡ none
      pick true = rw (same x) (find-update-none i (key x) f xs same u.0)
      pick false = find-update-none i (key x) f xs same u.0

  -- The row that any SELECT finds first is the row of its key.
  pub find-key_of_find :
      (p : A → Bool) (xs : List A) (a : A)
      → IsUnique xs
      → find p xs ≡ some a
      → find (is_key (key a)) xs ≡ some a
  find-key_of_find p [] a u h = cc
  find-key_of_find p (x ∷ xs) a u h = elim (Bool-cases (p x)) [
    | inl hit ↦ let same : x ≡ a = ground arith in ground arith
    | inr miss ↦
        let ih = find-key_of_find p xs a u.1 (ground arith) in
        elim (Bool-cases (is_key (key a) x)) [
          | inl hit ↦
              let e : key x ≡ key a = ground arith in
              let gone : find (is_key (key a)) xs ≡ none = rw (← e) u.0 in cc
          | inr other ↦ rw other ih
        ]
  ]

  pub find-append_none :
      (j : ℕ) (xs : List A) (a : A)
      → find (is_key j) xs ≡ none
      → is_key j a ≡ false
      → find (is_key j) (xs ++ a ∷ []) ≡ none
  find-append_none j [] a h e = rw e
  find-append_none j (x ∷ xs) a h e = ground (arith, find-append_none j xs a)

  -- A row with a new key may be appended.
  pub IsUnique-append :
      (xs : List A) (a : A) (n : ℕ)
      → IsUnique xs
      → All (λ x. key x < n) xs
      → key a ≡ n
      → IsUnique (xs ++ a ∷ [])
  IsUnique-append [] a n u h e = (refl, tt)
  IsUnique-append (x ∷ xs) a n u h e =
      (find-append_none (key x) xs a u.0 (ground arith), IsUnique-append xs a n u.1 h.1 e)

  pub find-fresh : (n : ℕ) (xs : List A) → All (λ x. key x < n) xs → find (is_key n) xs ≡ none
  find-fresh n [] h = refl
  find-fresh n (x ∷ xs) h = ground (arith, find-fresh n xs h.1)

module _ {ℓ κ μ} {A : Type ℓ} (P : A → Type κ) (Q : A → Type μ) where
  pub All-zip : (xs : List A) → All P xs → All Q xs → All (λ x. P x × Q x) xs
  All-zip [] h k = tt
  All-zip (x ∷ xs) h k = ((h.0, k.0), All-zip xs h.1 k.1)

module _ {ℓ} {A : Type ℓ} where
  pub sum_by_zero : (w : A → ℕ) (xs : List A) → All (λ x. w x ≡ 0) xs → sum_by w xs ≡ 0
  sum_by_zero w [] h = refl
  sum_by_zero w (x ∷ xs) h = omega (arith, h.0, sum_by_zero w xs h.1)

  All-absent :
      (key : A → ℕ) (i : ℕ) (a : A) (xs : List A)
      → find (is_key key i) xs ≡ none
      → All (λ x. is_key key i x ≡ true → x ≡ a) xs
  All-absent key i a [] h = tt
  All-absent key i a (x ∷ xs) h = (
    (λ e. let impossible : ⊥ = ground arith in absurd impossible),
    All-absent key i a xs (ground arith),
  )

  -- Where keys are unique, every row with the key of a found row is that row.
  pub All-same :
      (key : A → ℕ) (i : ℕ) (a : A) (xs : List A)
      → IsUnique key xs
      → find (is_key key i) xs ≡ some a
      → All (λ x. is_key key i x ≡ true → x ≡ a) xs
  All-same key i a [] u h = tt
  All-same key i a (x ∷ xs) u h = elim (Bool-cases (is_key key i x)) [
    | inl hit ↦
        let e : key x ≡ i = ground arith in
        let gone : find (is_key key i) xs ≡ none = rw (← e) u.0 in
        let same : x ≡ a = ground arith in ((λ _. same), All-absent key i a xs gone)
    | inr miss ↦ (
      (λ e. let impossible : ⊥ = ground arith in absurd impossible),
      All-same key i a xs u.1 (ground arith),
    )
  ]
