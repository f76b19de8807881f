-- ===== src/Usage/Balance/Methods.antt =====
-- The settling methods of the service keep the invariant on every path.
use ai_tgs.Usage.Balance.Settle.{settle_row-IsQuota, Settles}
use ai_tgs.Usage.Reserve.{JsNumber}
use ai_tgs.Usage.Store.{has_id, is_counter, is_reservation_for}
use ai_tgs.Usage.Settle.{
  settle_open_generation, settle_row, generated_by_job, settle_open_regeneration, settle_generation,
  settle_reservation, settle_regeneration, within_amount, generated_by_item,
}
use ai_tgs.Common.{
  All-find, Bool, Bool-cases, Ensures, Option, Option-cases, arith, false, find, find-key_of_find,
  find-passes, inl, inr, ltb, min, none, or_throw, pure, refl, some, throw_if, true, ℕ, ◌≤◌, ◌≡◌,
  ◌>>=◌, Ensures-of_Succeeds, Ensures->>=,
}
use mathlib.Core.Bool.{and-eq-true_iff}
use ai_tgs.Usage.Rows.{UsageMetric, same_type, is_closed, is_settled, Db}
use ai_tgs.Usage.Balance.{
  IsQuota, ReservationStatus, ReferenceType, Reservation, Shape, is_active, IsSound,
}

-- An open reservation that a settling method goes on with is active.
pub active_of_open :
    (t : ReservationStatus) (r : Reservation) → is_closed t ≡ false → Shape t r → is_active t ≡ true
active_of_open ReservationStatus.active r e h = refl
active_of_open ReservationStatus.partially_settled r e h = absurd h
active_of_open ReservationStatus.settled r e h = cc
active_of_open ReservationStatus.released r e h = cc
active_of_open ReservationStatus.expired r e h = cc

-- A regeneration's reservation does not expire, so one that is not settled is active.
active_of_unsettled :
    (t : ReservationStatus) (r : Reservation)
    → is_settled t ≡ false
    → same_type r.reference_type ReferenceType.generation_job ≡ false
    → Shape t r
    → is_active t ≡ true
active_of_unsettled ReservationStatus.active r e n h = refl
active_of_unsettled ReservationStatus.partially_settled r e n h = absurd h
active_of_unsettled ReservationStatus.settled r e n h = cc
active_of_unsettled ReservationStatus.released r e n h = absurd h
active_of_unsettled ReservationStatus.expired r e n h = let job : true ≡ false = rw h.2 at n in cc

not_job_of_regen :
    (t : ReferenceType) (a : ℕ)
    → same_type t (ReferenceType.generation_regen a) ≡ true
    → same_type t ReferenceType.generation_job ≡ false
not_job_of_regen ReferenceType.generation_job a h = cc
not_job_of_regen (ReferenceType.generation_regen b) a h = refl
not_job_of_regen ReferenceType.test_finalization a h = refl
not_job_of_regen ReferenceType.test_export a h = refl

within_amount-le :
    (settled : JsNumber) (amount n : ℕ) → within_amount settled amount ≡ some n → n ≤ amount
within_amount-le (JsNumber.integer m) amount n h = ground arith
within_amount-le (JsNumber.negative m) amount n h = cc
within_amount-le JsNumber.not_integer amount n h = cc

module _ {subscription : ℕ} {metric : UsageMetric} {limit : ℕ} (now : ℕ) where
  settle_row-Ensures :
      (r : Reservation) (settled : ℕ) (keep : Reservation → Option ℕ) (actor : Option ℕ) (db : Db)
      → IsQuota subscription metric limit db
      → find (has_id r.id) db.reservations ≡ some r
      → is_active r.status ≡ true
      → settled ≤ r.amount
      → Ensures
          (λ _ db'. IsQuota subscription metric limit db')
          (settle_row now r settled keep actor db)
  settle_row-Ensures r settled keep actor db h found active part =
      Ensures-of_Succeeds (Settles subscription metric limit now r settled keep db)
        (λ _ db'. IsQuota subscription metric limit db') (λ x db' q. q.0)
        (settle_row now r settled keep actor db)
        (settle_row-IsQuota now r settled keep actor db h found active part)

  settle_open_generation-IsQuota :
      (job : ℕ) (actor : Option ℕ) (r : Reservation) (db : Db)
      → IsQuota subscription metric limit db
      → find (has_id r.id) db.reservations ≡ some r
      → is_active r.status ≡ true
      → Ensures
          (λ _ db'. IsQuota subscription metric limit db')
          (settle_open_generation now job actor r db)
  unfolding settle_open_generation
  settle_open_generation-IsQuota job actor r db h found active =
      elim (Option-cases (find (is_counter r.usage_counter_id) db.counters)) [
        | inl gone ↦ rw (gone, ◌>>=◌) tt
        | inr (c, there) ↦
            rw (there, ◌>>=◌)
              elim (Bool-cases (ltb r.amount (generated_by_job job db))) [
                | inl more ↦ rw (more, throw_if) tt
                | inr fits ↦
                    rw (fits, throw_if)
                      (settle_row-Ensures r (generated_by_job job db) (λ x. x.released_at) actor db
                        h found active (ground arith))
              ]
      ]

  settle_open_regeneration-IsQuota :
      (item : ℕ) (actor : Option ℕ) (r : Reservation) (db : Db)
      → IsQuota subscription metric limit db
      → find (has_id r.id) db.reservations ≡ some r
      → is_active r.status ≡ true
      → Ensures
          (λ _ db'. IsQuota subscription metric limit db')
          (settle_open_regeneration now item actor r db)
  unfolding settle_open_regeneration
  settle_open_regeneration-IsQuota item actor r db h found active =
      elim (Option-cases (find (is_counter r.usage_counter_id) db.counters)) [
        | inl gone ↦ rw (gone, ◌>>=◌) tt
        | inr (c, there) ↦
            rw (there, ◌>>=◌)
              (settle_row-Ensures r (min (generated_by_item item r.created_at db) r.amount)
                (λ _. none) actor db h found active (omega arith))
      ]

  -- The row that a SELECT finds is the row of its id, and sound.
  row_of_find :
      (p : Reservation → Bool) (r : Reservation) (db : Db)
      → IsQuota subscription metric limit db
      → find p db.reservations ≡ some r
      → (find (has_id r.id) db.reservations ≡ some r) × IsSound r
  row_of_find p r db h e = (
    find-key_of_find (λ x. x.id) p db.reservations r h.balanced.unique e,
    All-find IsSound p db.reservations r h.balanced.sound e,
  )

  pub settle_generation-IsQuota :
      (job : ℕ) (actor : Option ℕ) (db : Db)
      → IsQuota subscription metric limit db
      → Ensures
          (λ _ db'. IsQuota subscription metric limit db')
          (settle_generation now job actor db)
  unfolding settle_generation
  settle_generation-IsQuota job actor db h =
      let p = is_reservation_for ReferenceType.generation_job job UsageMetric.ai_questions in
      elim (Option-cases (find p db.reservations)) [
        | inl gone ↦ rw (gone, ◌>>=◌) h
        | inr (r, e) ↦
            let (found, sound) = row_of_find p r db h e in
            rw (e, ◌>>=◌)
              elim (Bool-cases (is_closed r.status)) [
                | inl closed ↦ rw closed h
                | inr open_ ↦ rw open_ (
                    Ensures->>= (λ _ db'. IsQuota subscription metric limit db')
                      (λ _ db'. IsQuota subscription metric limit db')
                      (settle_open_generation now job actor r) (λ x. pure (some x)) db
                      (settle_open_generation-IsQuota job actor r db h found
                        (active_of_open r.status r open_ sound.1))
                      (λ a t q. q))
              ]
      ]

  pub settle_reservation-IsQuota :
      (id : ℕ) (settled : JsNumber) (actor : ℕ) (db : Db)
      → IsQuota subscription metric limit db
      → Ensures
          (λ _ db'. IsQuota subscription metric limit db')
          (settle_reservation now id settled actor db)
  unfolding settle_reservation
  settle_reservation-IsQuota id settled actor db h =
      elim (Option-cases (find (has_id id) db.reservations)) [
        | inl gone ↦ rw (gone, ◌>>=◌) tt
        | inr (r, e) ↦
            let (found, sound) = row_of_find (has_id id) r db h e in
            rw (e, ◌>>=◌)
              elim (Bool-cases (is_settled r.status)) [
                | inl done ↦ rw done h
                | inr open_ ↦ rw open_ elim (Bool-cases (is_active r.status)) [
                  | inr closed ↦ rw (closed, throw_if, ◌>>=◌) tt
                  | inl active ↦
                      rw (active, throw_if, ◌>>=◌)
                        elim (Option-cases (within_amount settled r.amount)) [
                          | inl beyond ↦ rw (beyond, or_throw) tt
                          | inr (n, fits) ↦
                              rw (fits, or_throw)
                                (settle_row-Ensures r n (λ x. x.released_at) (some actor) db h found
                                  active (within_amount-le settled r.amount n fits))
                        ]
                ]
              ]
      ]

  pub settle_regeneration-IsQuota :
      (item attempt : ℕ) (actor : Option ℕ) (db : Db)
      → IsQuota subscription metric limit db
      → Ensures
          (λ _ db'. IsQuota subscription metric limit db')
          (settle_regeneration now item attempt actor db)
  unfolding settle_regeneration
  settle_regeneration-IsQuota item attempt actor db h =
      let p =
        is_reservation_for (ReferenceType.generation_regen attempt) item UsageMetric.ai_questions in
      elim (Option-cases (find p db.reservations)) [
        | inl gone ↦ rw (gone, ◌>>=◌) h
        | inr (r, e) ↦
            let (found, sound) = row_of_find p r db h e in
            let regen = find-passes p db.reservations r e in
            rw (e, ◌>>=◌)
              elim (Bool-cases (is_settled r.status)) [
                | inl closed ↦ rw closed h
                | inr open_ ↦ rw open_ (
                    Ensures->>= (λ _ db'. IsQuota subscription metric limit db')
                      (λ _ db'. IsQuota subscription metric limit db')
                      (settle_open_regeneration now item actor r) (λ x. pure (some x)) db
                      (settle_open_regeneration-IsQuota item actor r db h found (
                        active_of_unsettled r.status r open_
                          (not_job_of_regen r.reference_type attempt
                            ((and-eq-true_iff _ _).0 regen).0)
                          sound.1))
                      (λ a t q. q))
              ]
      ]
