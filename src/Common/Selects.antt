-- ===== src/Common/Selects.antt =====
-- What an UPDATE, an INSERT or a DELETE leaves of a SELECT that does not see its rows.
use ai_tgs.Common.Tests.{
  ℕ, ◌<◌, ◌≤◌, ◌≡◌, ◌⊎◌, refl, ap, Bool, true, false, Option, none, some, List, [], ◌∷◌, ◌++◌, ◌&&◌,
  arith, if◌then◌else◌, Bool-cases, inl, inr,
}
use ai_tgs.Common.Table.{find, any, update, select, All}
use ai_tgs.Common.Keys.{is_key, IsUnique}

module _ {ℓ} {A : Type ℓ} where
  -- An UPDATE of rows that a SELECT does not see, before or after, does not change it.
  pub select-update :
      (p u : A → Bool) (f : A → A) (xs : List A)
      → All (λ r. u r ≡ true → (p r ≡ false) × (p (f r) ≡ false)) xs
      → select p (update u f xs) ≡ select p xs
  select-update p u f [] h = refl
  select-update p u f (x ∷ xs) h = elim (Bool-cases (u x)) [
    | inl hit ↦
        let (before, after) = h.0 hit in rw (hit, before, after) (select-update p u f xs h.1)
    | inr miss ↦ rw miss (ap (λ r. if p x then x ∷ r else r) (select-update p u f xs h.1))
  ]

  pub select-append_none :
      (p : A → Bool) (xs ys : List A)
      → All (λ r. p r ≡ false) ys
      → select p (xs ++ ys) ≡ select p xs
  select-append_none p [] [] h = refl
  select-append_none p [] (y ∷ ys) h = rw h.0 (select-append_none p [] ys h.1)
  select-append_none p (x ∷ xs) ys h =
      ap (λ r. if p x then x ∷ r else r) (select-append_none p xs ys h)

  pub select-none : (p : A → Bool) (xs : List A) → All (λ r. p r ≡ false) xs → select p xs ≡ []
  select-none p [] h = refl
  select-none p (x ∷ xs) h = rw h.0 (select-none p xs h.1)

  pub find-append :
      (p : A → Bool) (xs ys : List A) (o : Option A)
      → find p xs ≡ none
      → find p ys ≡ o
      → find p (xs ++ ys) ≡ o
  find-append p [] ys o h k = k
  find-append p (x ∷ xs) ys o h k = ground (arith, find-append p xs ys o)

  pub find-append_miss :
      (p : A → Bool) (xs : List A) (y : A) → p y ≡ false → find p (xs ++ y ∷ []) ≡ find p xs
  find-append_miss p [] y h = rw h
  find-append_miss p (x ∷ xs) y h = ground (arith, find-append_miss p xs y h)

  -- Rows that a condition never meets after a SELECT that keeps every row of it.
  pub select-select :
      (p q : A → Bool) (xs : List A)
      → All (λ r. p r ≡ true → q r ≡ true) xs
      → select p (select q xs) ≡ select p xs
  select-select p q [] h = refl
  select-select p q (x ∷ xs) h = elim (Bool-cases (q x)) [
    | inl hit ↦ rw hit (ap (λ r. if p x then x ∷ r else r) (select-select p q xs h.1))
    | inr miss ↦
        let unseen : p x ≡ false = ground (arith, h.0) in
        rw (miss, unseen) (select-select p q xs h.1)
  ]

  pub All-every {κ} : (P : A → Type κ) (xs : List A) → ((x : A) → P x) → All P xs
  All-every P [] h = tt
  All-every P (x ∷ xs) h = (h x, All-every P xs h)

module _ {ℓ} {A : Type ℓ} (key : A → ℕ) (u : A → Bool) (f : A → A)
    (same : (x : A) → key (f x) ≡ key x) where
  find-update_by-none :
      (j : ℕ) (xs : List A)
      → find (is_key key j) xs ≡ none
      → find (is_key key j) (update u f xs) ≡ none
  find-update_by-none j [] h = refl
  find-update_by-none j (x ∷ xs) h = ground (arith, same x, find-update_by-none j xs)

  -- An UPDATE that keeps the keys keeps them unique.
  pub IsUnique-update_by : (xs : List A) → IsUnique key xs → IsUnique key (update u f xs)
  IsUnique-update_by [] h = tt
  IsUnique-update_by (x ∷ xs) h = (pick (u x), IsUnique-update_by xs h.1)
    where
      pick : (b : Bool) → find (is_key key (key (if b then f x else x))) (update u f xs) ≡ none
      pick true = rw (same x) (find-update_by-none (key x) xs h.0)
      pick false = find-update_by-none (key x) xs h.0

module _ {ℓ} {A : Type ℓ} where
  select-passing : (p : A → Bool) (ys : List A) → All (λ r. p r ≡ true) ys → select p ys ≡ ys
  select-passing p [] h = refl
  select-passing p (y ∷ ys) h = rw h.0 (ap (◌∷◌ y) (select-passing p ys h.1))

  -- A SELECT that sees only the new rows.
  pub select-append_passing :
      (p : A → Bool) (xs ys : List A)
      → All (λ r. p r ≡ false) xs
      → All (λ r. p r ≡ true) ys
      → select p (xs ++ ys) ≡ ys
  select-append_passing p [] ys h k = select-passing p ys k
  select-append_passing p (x ∷ xs) ys h k = rw h.0 (select-append_passing p xs ys h.1 k)

module _ {ℓ} {A : Type ℓ} (key : A → ℕ) (m : ℕ) where
  find-below :
      (j : ℕ) (ys : List A) → j < m → All (λ y. m ≤ key y) ys → find (is_key key j) ys ≡ none
  find-below j [] b h = refl
  find-below j (y ∷ ys) b h = ground (arith, h.0, find-below j ys b h.1)

  -- Tables whose keys lie on both sides of a bound.
  pub IsUnique-concat :
      (xs ys : List A)
      → IsUnique key xs
      → All (λ x. key x < m) xs
      → IsUnique key ys
      → All (λ y. m ≤ key y) ys
      → IsUnique key (xs ++ ys)
  IsUnique-concat [] ys u h v k = v
  IsUnique-concat (x ∷ xs) ys u h v k = (
    find-append (is_key key (key x)) xs ys none u.0 (find-below (key x) ys h.0 k),
    IsUnique-concat xs ys u.1 h.1 v k,
  )

module _ {ℓ} {A : Type ℓ} where
  -- A row that no row passes for does not pass.
  pub any-find :
      (p q : A → Bool) (xs : List A) (a : A) → any p xs ≡ false → find q xs ≡ some a → p a ≡ false
  any-find p q [] a h e = cc
  any-find p q (x ∷ xs) a h e = elim (Bool-cases (q x)) [
    | inl hit ↦ let same : x ≡ a = ground arith in rw (← same) (ground (arith, h))
    | inr miss ↦ any-find p q xs a (ground (arith, h)) (ground arith)
  ]

module _ {ℓ} {A : Type ℓ} (key : A → ℕ) where
  -- The row of a key after an UPDATE by key comes from the row of that key before it.
  pub find-update_inv :
      (i k : ℕ) (f : A → A) (xs : List A) (b : A)
      → ((x : A) → key (f x) ≡ key x)
      → find (is_key key k) (update (is_key key i) f xs) ≡ some b
      → (a : A) × ((find (is_key key k) xs ≡ some a) × ((b ≡ a) ⊎ ((k ≡ i) × (b ≡ f a))))
  find-update_inv i k f [] b same e = cc
  find-update_inv i k f (x ∷ xs) b same e = elim (Bool-cases (is_key key i x)) [
    | inl moved ↦ elim (Bool-cases (is_key key k x)) [
      | inl hit ↦
          let again : is_key key k (f x) ≡ true = rw (same x) hit in
          let e' : some (f x) ≡ some b = rw (moved, again) at e in
          (x, (rw hit refl, inr (ground arith, cc)))
      | inr miss ↦
          let again : is_key key k (f x) ≡ false = rw (same x) miss in
          let e' : find (is_key key k) (update (is_key key i) f xs) ≡ some b =
            rw (moved, again) at e in
          rw miss (find-update_inv i k f xs b same e')
    ]
    | inr kept ↦ elim (Bool-cases (is_key key k x)) [
      | inl hit ↦ let e' : some x ≡ some b = rw (kept, hit) at e in (x, (rw hit refl, inl cc))
      | inr miss ↦
          let e' : find (is_key key k) (update (is_key key i) f xs) ≡ some b =
            rw (kept, miss) at e in
          rw miss (find-update_inv i k f xs b same e')
    ]
  ]

module _ {ℓ} {A : Type ℓ} where
  find-and-of_none :
      (p r : A → Bool) (xs : List A) → find p xs ≡ none → find (λ x. p x && r x) xs ≡ none
  find-and-of_none p r [] h = refl
  find-and-of_none p r (x ∷ xs) h = ground (arith, find-and-of_none p r xs)

  -- A condition beside a key: the row of the key is found if it passes, and nothing else is.
  pub find-and :
      (p r : A → Bool) (xs : List A) (a : A)
      → find p xs ≡ some a
      → r a ≡ true
      → find (λ x. p x && r x) xs ≡ some a
  find-and p r [] a h e = cc
  find-and p r (x ∷ xs) a h e = elim (Bool-cases (p x)) [
    | inl hit ↦
        let same : x ≡ a = ground arith in
        let passes : r x ≡ true = rw same e in rw (hit, passes) (ap some same)
    | inr miss ↦ rw miss (find-and p r xs a (ground arith) e)
  ]

  pub find-and-none :
      (key : A → ℕ) (i : ℕ) (r : A → Bool) (xs : List A) (a : A)
      → IsUnique key xs
      → find (is_key key i) xs ≡ some a
      → r a ≡ false
      → find (λ x. is_key key i x && r x) xs ≡ none
  find-and-none key i r [] a u h e = refl
  find-and-none key i r (x ∷ xs) a u h e = elim (Bool-cases (is_key key i x)) [
    | inl hit ↦
        let same : x ≡ a = ground arith in
        let k : key x ≡ i = ground arith in
        let fails : r x ≡ false = rw same e in
        rw (hit, fails) (find-and-of_none (is_key key i) r xs (rw (← k) u.0))
    | inr miss ↦ rw miss (find-and-none key i r xs a u.1 (ground arith) e)
  ]

  -- What a SELECT finds first stays found when rows are appended.
  pub find-append_some :
      (p : A → Bool) (xs ys : List A) (a : A) → find p xs ≡ some a → find p (xs ++ ys) ≡ some a
  find-append_some p [] ys a h = cc
  find-append_some p (x ∷ xs) ys a h = ground (arith, find-append_some p xs ys a)

  pub any-append_some : (p : A → Bool) (xs ys : List A) → any p xs ≡ true → any p (xs ++ ys) ≡ true
  any-append_some p [] ys h = cc
  any-append_some p (x ∷ xs) ys h = ground (arith, any-append_some p xs ys)

  pub any-append_last :
      (p : A → Bool) (xs : List A) (y : A) → p y ≡ true → any p (xs ++ y ∷ []) ≡ true
  any-append_last p [] y h = rw h refl
  any-append_last p (x ∷ xs) y h = ground (arith, any-append_last p xs y h)

  -- An UPDATE that does not move rows in or out of a condition.
  pub any-update :
      (p u : A → Bool) (f : A → A) (xs : List A)
      → ((x : A) → p (f x) ≡ p x)
      → any p (update u f xs) ≡ any p xs
  any-update p u f [] same = refl
  any-update p u f (x ∷ xs) same = ground (arith, same x, any-update p u f xs same)

  pub find-of_any : (p : A → Bool) (xs : List A) → any p xs ≡ true → (a : A) × (find p xs ≡ some a)
  find-of_any p [] h = cc
  find-of_any p (x ∷ xs) h = elim (Bool-cases (p x)) [
    | inl hit ↦ (x, rw hit refl)
    | inr miss ↦ rw miss (find-of_any p xs (ground arith))
  ]

  pub any-of_find : (p : A → Bool) (xs : List A) (a : A) → find p xs ≡ some a → any p xs ≡ true
  any-of_find p [] a h = cc
  any-of_find p (x ∷ xs) a h = ground (arith, any-of_find p xs a)

  pub any-of_none : (p : A → Bool) (xs : List A) → find p xs ≡ none → any p xs ≡ false
  any-of_none p [] h = refl
  any-of_none p (x ∷ xs) h = ground (arith, any-of_none p xs)
