-- ===== src/Common/Handlers.antt =====
-- A request handler outside a transaction: what it wrote before it throws stays.
use ai_tgs.Common.Tests.{Bool, true, false, Option, none, some, ◌≡◌, refl}
use ai_tgs.Common.Transaction.{Result, ok, err, Action, Ensures}

abbrev pub Handler : Type 0 → Type 0 → Type 0 → Type 0
Handler E S A = S → Result E A × S

module _ {E S : Type 0} where
  abbrev pub resume : {A B : Type 0} → (A → Handler E S B) → Result E A → S → Result E B × S
  resume f (ok a) s = f a s
  resume f (err e) s = (err e, s)

  infixl 5 ◌>>=◌ ◌>>◌
  abbrev pub ◌>>=◌ : {A B : Type 0} → Handler E S A → (A → Handler E S B) → Handler E S B
  (m >>= f) s = resume f (m s).0 (m s).1

  abbrev pub ◌>>◌ : {A B : Type 0} → Handler E S A → Handler E S B → Handler E S B
  m >> k = m >>= λ _. k

  abbrev pub pure : {A : Type 0} → A → Handler E S A
  pure a s = (ok a, s)

  abbrev pub throw : {A : Type 0} → E → Handler E S A
  throw e s = (err e, s)

  abbrev pub gets : {A : Type 0} → (S → A) → Handler E S A
  gets f s = (ok (f s), s)

  abbrev pub modify : (S → S) → Handler E S (Unit {0})
  modify f s = (ok tt, f s)

  abbrev pub throw_if : Bool → E → Handler E S (Unit {0})
  throw_if true e s = (err e, s)
  throw_if false e s = (ok tt, s)

  abbrev pub or_throw : {A : Type 0} → Option A → E → Handler E S A
  or_throw none e s = (err e, s)
  or_throw (some a) e s = (ok a, s)

  -- A call that answers or fails and does not touch the state.
  abbrev pub answer : {A : Type 0} → Result E A → Handler E S A
  answer r s = (r, s)

  -- `data.transaction`: committed, or rolled back where it throws.
  abbrev pub committed : {A : Type 0} → S → Result E (A × S) → Result E A × S
  committed s (ok r) = (ok r.0, r.1)
  committed s (err e) = (err e, s)

  abbrev pub transaction : {A : Type 0} → Action E S A → Handler E S A
  transaction m s = committed s (m s)

  -- `try … catch`: the exception as a value.
  abbrev pub attempt : {A : Type 0} → Handler E S A → Handler E S (Result E A)
  attempt m s = (ok (m s).0, (m s).1)

-- What holds of the state before a handler and after each of its steps holds after it.
module _ {E S B : Type 0} (I : S → Type 0) where
  pub After->>= :
      {A : Type 0} (m : Handler E S A) (f : A → Handler E S B) (s : S)
      → I (m s).1
      → ((a : A) → (m s).0 ≡ ok a → I (m s).1 → I (f a (m s).1).1)
      → I ((m >>= f) s).1
  After->>= {A = A} m f s h k = go (m s).0 (m s).1 h k
    where
      go :
          (r : Result E A) (t : S)
          → I t
          → ((a : A) → r ≡ ok a → I t → I (f a t).1)
          → I (resume f r t).1
      go (ok a) t h k = k a refl h
      go (err e) t h k = h

  pub After-throw_if :
      (b : Bool) (e : E) (k : Handler E S B) (s : S)
      → I s
      → (b ≡ false → I (k s).1)
      → I ((throw_if b e >> k) s).1
  After-throw_if true e k s i h = i
  After-throw_if false e k s i h = h refl

  pub After-or_throw :
      {A : Type 0} (o : Option A) (e : E) (f : A → Handler E S B) (s : S)
      → I s
      → ((a : A) → o ≡ some a → I (f a s).1)
      → I ((or_throw o e >>= f) s).1
  After-or_throw none e f s i h = i
  After-or_throw (some a) e f s i h = h a refl

  pub After-answer :
      {A : Type 0} (r : Result E A) (f : A → Handler E S B) (s : S)
      → I s
      → ((a : A) → r ≡ ok a → I (f a s).1)
      → I ((answer r >>= f) s).1
  After-answer (ok a) f s i h = h a refl
  After-answer (err e) f s i h = i

  -- A transaction, committed or rolled back.
  pub After-committed :
      (s : S) (r : Result E (B × S)) → I s → Ensures {E = E} (λ _. I) r → I (committed s r).1
  After-committed s (ok r) i h = h
  After-committed s (err e) i h = i

  pub After-last_or_throw : (o : Option B) (e : E) (s : S) → I s → I (or_throw o e s).1
  After-last_or_throw none e s i = i
  After-last_or_throw (some b) e s i = i

-- What holds of the result and the state of a handler that returns.
module _ {E S B : Type 0} (Q : B → S → Type 0) where
  abbrev pub Returned : Result E B → S → Type 0
  Returned (ok b) s = Q b s
  Returned (err e) s = Unit

  abbrev pub Returns : Result E B × S → Type 0
  Returns r = Returned r.0 r.1

-- What holds of the state whether the handler returns or not, and a weaker condition.
module _ {E S A : Type 0} where
  pub Returned-of_After :
      (I : S → Type 0) (r : Result E A) (s : S) → I s → Returned {E = E} (λ (_ : A). I) r s
  Returned-of_After I (ok a) s h = h
  Returned-of_After I (err e) s h = tt

  pub Returned-mono :
      (P Q : A → S → Type 0) (r : Result E A) (s : S)
      → ((a : A) → P a s → Q a s)
      → Returned {E = E} P r s
      → Returned {E = E} Q r s
  Returned-mono P Q (ok a) s weaken h = weaken a h
  Returned-mono P Q (err e) s weaken h = tt

module _ {E S B : Type 0} (Q : B → S → Type 0) where
  Returned-resume :
      {A : Type 0} (P : A → S → Type 0) (f : A → Handler E S B) (r : Result E A) (t : S)
      → Returned {E = E} P r t
      → ((a : A) (u : S) → P a u → Returns {E = E} Q (f a u))
      → Returns {E = E} Q (resume f r t)
  Returned-resume P f (ok a) t h k = k a t h
  Returned-resume P f (err e) t h k = tt

  pub Returns->>= :
      {A : Type 0} (P : A → S → Type 0) (m : Handler E S A) (f : A → Handler E S B) (s : S)
      → Returns {E = E} P (m s)
      → ((a : A) (t : S) → P a t → Returns {E = E} Q (f a t))
      → Returns {E = E} Q ((m >>= f) s)
  Returns->>= P m f s h k = Returned-resume P f (m s).0 (m s).1 h k

  pub Returns-throw_if :
      (b : Bool) (e : E) (k : Handler E S B) (s : S)
      → (b ≡ false → Returns {E = E} Q (k s))
      → Returns {E = E} Q ((throw_if b e >> k) s)
  Returns-throw_if true e k s h = tt
  Returns-throw_if false e k s h = h refl

  pub Returns-or_throw :
      {A : Type 0} (o : Option A) (e : E) (f : A → Handler E S B) (s : S)
      → ((a : A) → o ≡ some a → Returns {E = E} Q (f a s))
      → Returns {E = E} Q ((or_throw o e >>= f) s)
  Returns-or_throw none e f s h = tt
  Returns-or_throw (some a) e f s h = h a refl

  pub Returns-answer :
      {A : Type 0} (r : Result E A) (f : A → Handler E S B) (s : S)
      → ((a : A) → r ≡ ok a → Returns {E = E} Q (f a s))
      → Returns {E = E} Q ((answer r >>= f) s)
  Returns-answer (ok a) f s h = h a refl
  Returns-answer (err e) f s h = tt
