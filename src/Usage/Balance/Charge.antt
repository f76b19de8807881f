-- ===== src/Usage/Balance/Charge.antt =====
-- A new counter, and a new reservation charged to a counter with room, keep the invariant.
use ai_tgs.Usage.Reserve.{JsNumber, safe_positive}
use ai_tgs.Usage.Store.{with_counter, new_counter, is_counter, is_counter_of}
use ai_tgs.Common.{
  All, All-append, All-map, Bool, Bool-cases, IsUnique-append, List, [], any, arith, find, inl, inr,
  none, refl, suc, sum_by_zero, sym, ℕ, ◌<◌, ◌≡◌, ◌≢◌, ◌++◌, ◌∷◌, ◌+◌, some, true, ◌≤◌, update,
  All-update_by, sum_by-append, All-zip, ◌==◌, All-same, false, Option, All-find, IsUnique-update,
  All-update,
}
use ai_tgs.Usage.Rows.{Db, UsageMetric, ResolvedEntitlement, Counter, Reservation, same_metric}
use ai_tgs.Usage.Balance.{IsQuota, IsBalanced, held, spent, Agrees, IsWithin, IsSound}

find-append_kept {ℓ} :
    {A : Type ℓ} (p : A → Bool) (xs ys : List A) → find p xs ≢ none → find p (xs ++ ys) ≢ none
find-append_kept p [] ys h = absurd (h refl)
find-append_kept p (x ∷ xs) ys h = ground (arith, find-append_kept p xs ys)

find-update_present :
    (f : Counter → Counter) (same : (y : Counter) → (f y).id ≡ y.id) (i j : ℕ) (cs : List Counter)
    → find (is_counter i) cs ≢ none
    → find (is_counter i) (update (is_counter j) f cs) ≢ none
find-update_present f same i j [] h = h
find-update_present f same i j (c ∷ cs) h =
    ground (arith, same c, find-update_present f same i j cs)

some≢none_of {ℓ} : {A : Type ℓ} {o : Option A} {a : A} → o ≡ some a → o ≢ none
some≢none_of e n = cc

pub safe_positive-pos : (amount : JsNumber) (n : ℕ) → safe_positive amount ≡ some n → 0 < n
unfolding safe_positive
safe_positive-pos (JsNumber.integer m) n h = ground arith
safe_positive-pos (JsNumber.negative m) n h = cc
safe_positive-pos JsNumber.not_integer n h = cc

-- The state in which a row is added and `f` is applied to its counter.
abbrev pub charge : (Counter → Counter) → Reservation → Counter → Db → Db
charge f x c db = record db {
  counters = update (is_counter c.id) f db.counters;
  reservations = db.reservations ++ x ∷ [];
  next_id = suc db.next_id;
}

module _ {subscription : ℕ} {metric : UsageMetric} {limit : ℕ} where
  pub with_counter-IsQuota :
      (ent : ResolvedEntitlement) (db : Db)
      → IsQuota subscription metric limit db
      → IsQuota subscription metric limit (with_counter ent db)
  unfolding with_counter
  with_counter-IsQuota ent db h = elim (Bool-cases (any (is_counter_of ent) db.counters)) [
    | inl old ↦ rw old h
    | inr new ↦ rw new (record { balanced = balanced; within = within })
  ]
    where
      b : IsBalanced db
      b = h.balanced

      c : Counter
      c = new_counter ent db.next_id

      untouched : All (λ r. (held db.next_id r ≡ 0) × (spent db.next_id r ≡ 0)) db.reservations
      untouched = All-map _ _ db.reservations (λ r q. (ground arith, ground arith)) b.fresh

      balanced :
          IsBalanced (record db { counters = db.counters ++ c ∷ []; next_id = suc db.next_id })
      balanced = record {
        agreed = All-append (Agrees db.reservations) db.counters (c ∷ []) b.agreed (
          (
            sym (
                sum_by_zero (held db.next_id) db.reservations
                  (All-map _ _ db.reservations (λ r q. q.0) untouched)),
            sym (
                sum_by_zero (spent db.next_id) db.reservations
                  (All-map _ _ db.reservations (λ r q. q.1) untouched)),
          ),
          tt,
        );
        unique_counters =
            IsUnique-append (λ x. x.id) db.counters c db.next_id b.unique_counters b.fresh_counters
              refl;
        unique = b.unique;
        sound = b.sound;
        fresh = All-map _ _ db.reservations (λ r q. (omega arith, omega arith)) b.fresh;
        fresh_counters =
            All-append (λ x. x.id < suc db.next_id) db.counters (c ∷ [])
              (All-map _ _ db.counters (λ x q. omega arith) b.fresh_counters) (omega arith, tt);
        counted =
            All-map _ _ db.reservations
              (λ r. find-append_kept (is_counter r.usage_counter_id) db.counters (c ∷ []))
              b.counted;
      }

      within : All (IsWithin subscription metric limit) (db.counters ++ c ∷ [])
      within = All-append _ db.counters (c ∷ []) h.within ((λ _ _. omega arith), tt)

  -- A reservation row is added and its amount is charged to its counter: `a` reserved, `b` used.
  module _ (f : Counter → Counter) (a b : ℕ) (x : Reservation) (c : Counter) (db : Db)
      (f_id : (y : Counter) → (f y).id ≡ y.id)
      (f_subscription : (y : Counter) → (f y).subscription_id ≡ y.subscription_id)
      (f_metric : (y : Counter) → (f y).metric ≡ y.metric)
      (f_reserved : (y : Counter) → (f y).reserved ≡ y.reserved + a)
      (f_used : (y : Counter) → (f y).used ≡ y.used + b) (x_id : x.id ≡ db.next_id)
      (x_counter : x.usage_counter_id ≡ c.id) (x_held : held c.id x ≡ a)
      (x_spent : spent c.id x ≡ b) (x_sound : IsSound x) (h : IsQuota subscription metric limit db)
      (found : find (is_counter c.id) db.counters ≡ some c)
      (fits : c.subscription_id ≡ subscription
        → same_metric c.metric metric ≡ true
        → c.used + c.reserved + (a + b) ≤ limit) where
    Agrees-charged :
        All (Agrees (db.reservations ++ x ∷ [])) (update (is_counter c.id) f db.counters)
    Agrees-charged =
        All-update_by (Agrees db.reservations) _ (is_counter c.id) f db.counters
          (λ y q e.
            let same : y.id ≡ c.id = ground arith in
            rw (f_id y, f_reserved y, f_used y)
              (
                rw (sum_by-append (held y.id) db.reservations (x ∷ []), q.0, same)
                    (omega (arith, x_held)),
                rw (sum_by-append (spent y.id) db.reservations (x ∷ []), q.1, same)
                    (omega (arith, x_spent)),
              ))
          (λ y q e.
            let other : (x.usage_counter_id == y.id) ≡ false = ground (arith, x_counter) in
            (
              rw (sum_by-append (held y.id) db.reservations (x ∷ []), q.0) (rw other (omega arith)),
              rw (sum_by-append (spent y.id) db.reservations (x ∷ []), q.1)
                  (rw other (omega arith)),
            ))
          h.balanced.agreed

    IsWithin-charged :
        All (IsWithin subscription metric limit) (update (is_counter c.id) f db.counters)
    IsWithin-charged =
        All-update_by
          (λ y. IsWithin subscription metric limit y × (is_counter c.id y ≡ true → y ≡ c)) _
          (is_counter c.id) f db.counters
          (λ y q e s m.
            rw (f_reserved y, f_used y, q.1 e)
              (omega (
                arith,
                fits (rw (← (q.1 e), ← (f_subscription y)) s) (rw (← (q.1 e), ← (f_metric y)) m),
              )))
          (λ y q e. q.0)
          (All-zip _ _ db.counters h.within
            (All-same (λ y. y.id) c.id c db.counters h.balanced.unique_counters found))

    counter_fresh : c.id < db.next_id
    counter_fresh =
        All-find (λ y. y.id < db.next_id) (is_counter c.id) db.counters c h.balanced.fresh_counters
          found

    charged-IsBalanced : IsBalanced (charge f x c db)
    charged-IsBalanced =
        let b0 = h.balanced in
        record {
          agreed = Agrees-charged;
          unique_counters = IsUnique-update (λ y. y.id) c.id f db.counters f_id b0.unique_counters;
          unique =
              IsUnique-append (λ y. y.id) db.reservations x db.next_id b0.unique
                (All-map _ _ db.reservations (λ y q. q.0) b0.fresh) x_id;
          sound = All-append IsSound db.reservations (x ∷ []) b0.sound (x_sound, tt);
          fresh =
              All-append _ db.reservations (x ∷ [])
                (All-map _ _ db.reservations (λ y q. (omega arith, omega arith)) b0.fresh)
                ((omega (arith, x_id), omega (arith, x_counter, counter_fresh)), tt);
          fresh_counters =
              All-update (λ y. y.id < suc db.next_id) (is_counter c.id) f db.counters
                (λ y q. rw (f_id y) q)
                (All-map _ _ db.counters (λ y q. omega arith) b0.fresh_counters);
          counted =
              All-append
                (λ y. find (is_counter y.usage_counter_id) (charge f x c db).counters ≢ none)
                db.reservations (x ∷ [])
                (All-map _ _ db.reservations
                  (λ y q. find-update_present f f_id y.usage_counter_id c.id db.counters q)
                  b0.counted)
                (
                  rw x_counter
                      (find-update_present f f_id c.id c.id db.counters (some≢none_of found)),
                  tt,
                );
        }

    pub charged-IsQuota : IsQuota subscription metric limit (charge f x c db)
    charged-IsQuota = record { balanced = charged-IsBalanced; within = IsWithin-charged }
