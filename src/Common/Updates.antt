-- ===== src/Common/Updates.antt =====
-- A loop of UPDATEs by key over selected rows, and the single UPDATE that it amounts to.
use ai_tgs.Common.Tests.{
  ℕ, ◌≡◌, ◌≢◌, refl, ap, ◌∙◌, Bool, true, false, none, some, List, [], ◌∷◌, arith, Bool-cases, inl,
  inr,
}
use ai_tgs.Common.Table.{find, update, select, All}
use ai_tgs.Common.Keys.{is_key, IsUnique, update_miss}

module _ {ℓ} {A : Type ℓ} (key : A → ℕ) where
  pub find-update_ne :
      (i j : ℕ) (f : A → A) (xs : List A)
      → ((x : A) → key (f x) ≡ key x)
      → i ≢ j
      → find (is_key key j) (update (is_key key i) f xs) ≡ find (is_key key j) xs
  find-update_ne i j f [] same h = refl
  find-update_ne i j f (x ∷ xs) same h = ground (arith, same x, find-update_ne i j f xs same h)

  -- The selected rows have other keys than a row that is not found.
  All-ne_of_miss :
      (i : ℕ) (p : A → Bool) (xs : List A)
      → find (is_key key i) xs ≡ none
      → All (λ r. key r ≢ i) (select p xs)
  All-ne_of_miss i p [] h = tt
  All-ne_of_miss i p (x ∷ xs) h = elim (Bool-cases (p x)) [
    | inl hit ↦ rw hit (ground arith, All-ne_of_miss i p xs (ground arith))
    | inr miss ↦ rw miss (All-ne_of_miss i p xs (ground arith))
  ]

  find-select-none :
      (i : ℕ) (p : A → Bool) (xs : List A)
      → find (is_key key i) xs ≡ none
      → find (is_key key i) (select p xs) ≡ none
  find-select-none i p [] h = refl
  find-select-none i p (x ∷ xs) h = ground (arith, find-select-none i p xs)

  pub IsUnique-select : (p : A → Bool) (xs : List A) → IsUnique key xs → IsUnique key (select p xs)
  IsUnique-select p [] u = tt
  IsUnique-select p (x ∷ xs) u = elim (Bool-cases (p x)) [
    | inl hit ↦ rw hit (find-select-none (key x) p xs u.0, IsUnique-select p xs u.1)
    | inr miss ↦ rw miss (IsUnique-select p xs u.1)
  ]

  -- Every selected row passes the test and is the row of its key.
  IsRowOf : (A → Bool) → List A → A → Type ℓ
  IsRowOf p xs r = (p r ≡ true) × (find (is_key key (key r)) xs ≡ some r)

  module _ (f : A → A) where
    -- The loop: one UPDATE for each row.
    abbrev pub apply_all : List A → List A → List A
    apply_all [] xs = xs
    apply_all (r ∷ rs) xs = apply_all rs (update (is_key key (key r)) f xs)

    apply_all-cons :
        (y : A) (rs ys : List A)
        → All (λ r. key r ≢ key y) rs
        → apply_all rs (y ∷ ys) ≡ y ∷ apply_all rs ys
    apply_all-cons y [] ys h = refl
    apply_all-cons y (r ∷ rs) ys h =
        let miss : is_key key (key r) y ≡ false = ground (arith, h.0) in
        rw miss (apply_all-cons y rs (update (is_key key (key r)) f ys) h.1)

    pub apply_all-select :
        ((x : A) → key (f x) ≡ key x)
        → (p : A → Bool) (xs : List A) → IsUnique key xs
        → apply_all (select p xs) xs ≡ update p f xs
    apply_all-select same p [] u = refl
    apply_all-select same p (x ∷ xs) u = elim (Bool-cases (p x)) [
      | inl hit ↦
          let self : is_key key (key x) x ≡ true = ground arith in
          let away : All (λ r. key r ≢ key (f x)) (select p xs) =
            rw (same x) (All-ne_of_miss (key x) p xs u.0) in
          let first : update (is_key key (key x)) f (x ∷ xs) ≡ f x ∷ xs =
            rw (self, update_miss key (key x) f xs u.0) in
          let step : apply_all (x ∷ select p xs) (x ∷ xs) ≡ f x ∷ update p f xs =
            ap (apply_all (select p xs)) first
            ∙ apply_all-cons (f x) (select p xs) xs away
            ∙ ap (◌∷◌ (f x)) (apply_all-select same p xs u.1) in
          rw hit step
      | inr miss ↦ rw miss (
          apply_all-cons x (select p xs) xs (All-ne_of_miss (key x) p xs u.0)
          ∙ ap (◌∷◌ x) (apply_all-select same p xs u.1))
    ]

module _ {ℓ κ} {A : Type ℓ} (P : A → Type κ) where
  pub All-select :
      (p : A → Bool) (xs : List A) → All P xs → All (λ x. (p x ≡ true) × P x) (select p xs)
  All-select p [] h = tt
  All-select p (x ∷ xs) h = elim (Bool-cases (p x)) [
    | inl hit ↦ rw hit ((hit, h.0), All-select p xs h.1)
    | inr miss ↦ rw miss (All-select p xs h.1)
  ]

module _ {ℓ κ} {A : Type ℓ} (P : A → Type κ) where
  pub All-kept : (p : A → Bool) (xs : List A) → All P xs → All P (select p xs)
  All-kept p [] h = tt
  All-kept p (x ∷ xs) h = elim (Bool-cases (p x)) [
    | inl hit ↦ rw hit (h.0, All-kept p xs h.1)
    | inr miss ↦ rw miss (All-kept p xs h.1)
  ]

module _ {ℓ} {A : Type ℓ} (key : A → ℕ) where
  All-find_cons :
      (y : A) (ys zs : List A)
      → find (is_key key (key y)) zs ≡ none
      → All (λ r. find (is_key key (key r)) ys ≡ some r) zs
      → All (λ r. find (is_key key (key r)) (y ∷ ys) ≡ some r) zs
  All-find_cons y ys [] u h = tt
  All-find_cons y ys (z ∷ zs) u h = (ground arith, All-find_cons y ys zs (ground arith) h.1)

  -- In a table with unique keys every row is found by its key.
  pub All-found :
      (xs : List A) → IsUnique key xs → All (λ r. find (is_key key (key r)) xs ≡ some r) xs
  All-found [] u = tt
  All-found (x ∷ xs) u = (ground arith, All-find_cons x xs xs u.0 (All-found xs u.1))

  pub All-ne_of_none :
      (i : ℕ) (xs : List A) → find (is_key key i) xs ≡ none → All (λ r. key r ≢ i) xs
  All-ne_of_none i [] h = tt
  All-ne_of_none i (x ∷ xs) h = (ground arith, All-ne_of_none i xs (ground arith))

  -- An UPDATE that the row of a key does not pass leaves that row.
  pub find-update_kept :
      (i : ℕ) (p : A → Bool) (f : A → A) (xs : List A) (a : A)
      → ((x : A) → key (f x) ≡ key x)
      → find (is_key key i) xs ≡ some a
      → p a ≡ false
      → find (is_key key i) (update p f xs) ≡ some a
  find-update_kept i p f [] a same h n = cc
  find-update_kept i p f (x ∷ xs) a same h n = elim (Bool-cases (is_key key i x)) [
    | inl hit ↦
        let e : x ≡ a = ground arith in
        let stays : p x ≡ false = rw e n in rw (stays, hit) (ap some e)
    | inr miss ↦
        let ih = find-update_kept i p f xs a same (ground arith) n in ground (arith, same x, ih)
  ]

  -- One that it passes applies to it.
  pub find-update_hit :
      (i : ℕ) (p : A → Bool) (f : A → A) (xs : List A) (a : A)
      → ((x : A) → key (f x) ≡ key x)
      → find (is_key key i) xs ≡ some a
      → p a ≡ true
      → find (is_key key i) (update p f xs) ≡ some (f a)
  find-update_hit i p f [] a same h n = cc
  find-update_hit i p f (x ∷ xs) a same h n = elim (Bool-cases (is_key key i x)) [
    | inl hit ↦
        let e : x ≡ a = ground arith in
        let moved : p x ≡ true = rw e n in
        let again : is_key key i (f x) ≡ true = rw (same x) hit in
        rw (moved, again) (ap (λ y. some (f y)) e)
    | inr miss ↦
        let ih = find-update_hit i p f xs a same (ground arith) n in ground (arith, same x, ih)
  ]

  -- An UPDATE by key that does not move a row in or out of a condition keeps what the condition
  -- finds.
  pub find-update_by :
      (p : A → Bool) (f : A → A) (xs : List A) (a : A)
      → ((x : A) → p (f x) ≡ p x)
      → find p xs ≡ some a
      → find p (update (is_key key (key a)) f xs) ≡ some (f a)
  find-update_by p f [] a same h = cc
  find-update_by p f (x ∷ xs) a same h = elim (Bool-cases (p x)) [
    | inl hit ↦
        let e : x ≡ a = ground arith in
        let self : is_key key (key a) x ≡ true = rw e (ground arith) in
        let again : p (f x) ≡ true = same x ∙ hit in rw (self, again) (ap (λ y. some (f y)) e)
    | inr miss ↦ let ih = find-update_by p f xs a same (ground arith) in ground (arith, same x, ih)
  ]
