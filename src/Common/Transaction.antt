-- ===== src/Common/Transaction.antt =====
-- A request handler inside a database transaction: it reads and writes the state, or throws, and
-- then the transaction is rolled back and no state comes back.
use ai_tgs.Common.Tests.{Bool, true, false, Option, none, some, ◌≡◌, refl}

pub data Result (E : Type 0) (A : Type 0) : Type 0 where
  ok : A → Result E A
  err : E → Result E A

abbrev pub Action : Type 0 → Type 0 → Type 0 → Type 0
Action E S A = S → Result E (A × S)

module _ {E S : Type 0} where
  infixl 5 ◌>>=◌ ◌>>◌
  abbrev pub ◌>>=◌ : {A B : Type 0} → Action E S A → (A → Action E S B) → Action E S B
  ◌>>=◌ m f s = elim (m s) [ ok r ↦ f r.0 r.1 | err e ↦ err e ]

  abbrev pub ◌>>◌ : {A B : Type 0} → Action E S A → Action E S B → Action E S B
  m >> k = m >>= λ _. k

  abbrev pub pure : {A : Type 0} → A → Action E S A
  pure a s = ok (a, s)

  abbrev pub throw : {A : Type 0} → E → Action E S A
  throw e s = err e

  abbrev pub gets : {A : Type 0} → (S → A) → Action E S A
  gets f s = ok (f s, s)

  abbrev pub modify : (S → S) → Action E S (Unit {0})
  modify f s = ok (tt, f s)

  abbrev pub throw_if : Bool → E → Action E S (Unit {0})
  throw_if true e s = err e
  throw_if false e s = ok (tt, s)

  abbrev pub or_throw : {A : Type 0} → Option A → E → Action E S A
  or_throw none e s = err e
  or_throw (some a) e s = ok (a, s)

-- What a request leaves behind: `Ensures P` holds of the result and the new state if there is one,
-- `Succeeds P` also says that there is one.
module _ {E S A : Type 0} (P : A → S → Type 0) where
  abbrev pub Ensures : Result E (A × S) → Type 0
  Ensures (ok r) = P r.0 r.1
  Ensures (err e) = Unit

  abbrev pub Succeeds : Result E (A × S) → Type 0
  Succeeds (ok r) = P r.0 r.1
  Succeeds (err e) = ⊥

module _ {E S A : Type 0} (P Q : A → S → Type 0) (weaken : (a : A) (s : S) → P a s → Q a s) where
  pub Ensures-of_Succeeds : (r : Result E (A × S)) → Succeeds P r → Ensures Q r
  Ensures-of_Succeeds (ok r) h = weaken r.0 r.1 h
  Ensures-of_Succeeds (err e) h = absurd h

  pub Succeeds-mono : (r : Result E (A × S)) → Succeeds P r → Succeeds Q r
  Succeeds-mono (ok r) h = weaken r.0 r.1 h
  Succeeds-mono (err e) h = h

  pub Ensures-mono : (r : Result E (A × S)) → Ensures P r → Ensures Q r
  Ensures-mono (ok r) h = weaken r.0 r.1 h
  Ensures-mono (err e) h = h

-- The rule for a sequence of two actions.
module _ {E S A B : Type 0} (P : A → S → Type 0) (Q : B → S → Type 0) where
  pub Ensures->>= :
      (m : Action E S A) (f : A → Action E S B) (s : S)
      → Ensures P (m s)
      → ((a : A) (t : S) → P a t → Ensures Q (f a t))
      → Ensures Q ((m >>= f) s)
  Ensures->>= m f s h k = go (m s) h
    where
      go :
          (r : Result E (A × S))
          → Ensures P r
          → Ensures Q (elim r [ ok q ↦ f q.0 q.1 | err e ↦ err e ])
      go (ok q) h = k q.0 q.1 h
      go (err e) h = tt

  pub Succeeds->>= :
      (m : Action E S A) (f : A → Action E S B) (s : S)
      → Succeeds P (m s)
      → ((a : A) (t : S) → P a t → Succeeds Q (f a t))
      → Succeeds Q ((m >>= f) s)
  Succeeds->>= m f s h k = go (m s) h
    where
      go :
          (r : Result E (A × S))
          → Succeeds P r
          → Succeeds Q (elim r [ ok q ↦ f q.0 q.1 | err e ↦ err e ])
      go (ok q) h = k q.0 q.1 h
      go (err e) h = absurd h

-- What holds after a guard, a row that must be there and a pure step.
module _ {E S B : Type 0} (Q : B → S → Type 0) where
  pub Ensures-throw_if :
      (b : Bool) (e : E) (k : Action E S B) (s : S)
      → (b ≡ false → Ensures Q (k s))
      → Ensures Q ((throw_if b e >> k) s)
  Ensures-throw_if true e k s h = tt
  Ensures-throw_if false e k s h = h refl

  pub Ensures-or_throw :
      {A : Type 0} (o : Option A) (e : E) (f : A → Action E S B) (s : S)
      → ((a : A) → o ≡ some a → Ensures Q (f a s))
      → Ensures Q ((or_throw o e >>= f) s)
  Ensures-or_throw none e f s h = tt
  Ensures-or_throw (some a) e f s h = h a refl

-- The same for a guard that stands last.
module _ {E S : Type 0} (Q : Unit {0} → S → Type 0) where
  pub Ensures-last_guard :
      (b : Bool) (e : E) (s : S) → (b ≡ false → Q tt s) → Ensures Q (throw_if b e s)
  Ensures-last_guard true e s h = tt
  Ensures-last_guard false e s h = h refl
