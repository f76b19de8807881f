-- ===== src/Usage/Exact.antt =====
-- What a settlement charges, and that a settlement or a reservation that is asked for twice is made
-- once.
use ai_tgs.Usage.Balance.Methods.{active_of_open}
use ai_tgs.Usage.Balance.Settle.{Settles, settle_row-IsQuota}
use ai_tgs.Usage.Store.{has_id, is_reservation_for, is_counter}
use ai_tgs.Common.{
  [], ◌∷◌, none, if◌then◌else◌, find-update_ne, ◌≢◌, ==_iff, All-find, Bool-cases, Ensures,
  Ensures->>=, Ensures-of_Succeeds, Option, Option-cases, Succeeds, Succeeds->>=, ap, arith, false,
  find, find-key_of_find, find-passes, find-update_by, find-update_hit, inl, inr, ltb, ok, pure,
  refl, some, throw_if, true, weight-le-sum_by, ℕ, ◌≤◌, ◌≡◌, ◌+◌, ◌-◌, ◌>>=◌,
}
use ai_tgs.Usage.Rows.{
  Db, UsageMetric, Reservation, Counter, ReferenceType, is_active, is_closed, ReservationStatus,
  UsageError,
}
use ai_tgs.Usage.Balance.{IsQuota, Agrees, held, IsSound}
use ai_tgs.Usage.Settle.{
  Settled, settle_generation, settle_open_generation, generated_by_job, settled_by, settle_row,
}

open_of_active : (t : ReservationStatus) → is_active t ≡ true → is_closed t ≡ false
open_of_active ReservationStatus.active e = refl
open_of_active ReservationStatus.partially_settled e = refl
open_of_active ReservationStatus.settled e = cc
open_of_active ReservationStatus.released e = cc
open_of_active ReservationStatus.expired e = cc

-- A call that finds the reservation closed returns it, whenever it comes.
settle_generation-closed :
    (later job : ℕ) (actor : Option ℕ) (r : Reservation) (db : Db)
    → find
        (is_reservation_for ReferenceType.generation_job job UsageMetric.ai_questions)
        db.reservations
      ≡ some r
    → is_closed r.status ≡ true
    → settle_generation later job actor db ≡ ok (some (Settled.found_row r), db)
unfolding settle_generation
settle_generation-closed later job actor r db e closed = rw (e, ◌>>=◌) (rw closed refl)

-- The reservation in what a settling method returns.
abbrev pub reservation_of : Settled → Option Reservation
reservation_of (Settled.found_row r) = some r
reservation_of (Settled.updated_rows []) = none
reservation_of (Settled.updated_rows (r ∷ rs)) = some r

-- What a settlement returns is closed, and is what the next call finds.
abbrev IsFinal : ℕ → Option Settled → Db → Type 0
IsFinal job x db' =
    (v : Settled) (y : Reservation)
    → x ≡ some v
    → reservation_of v ≡ some y
    → (find (is_reservation_for ReferenceType.generation_job job UsageMetric.ai_questions)
          db'.reservations
        ≡ some y)
      × (is_closed y.status ≡ true)

settled_open :
    {subscription : ℕ} {metric : UsageMetric} {limit : ℕ} (now job : ℕ) (actor : Option ℕ)
    (r : Reservation) (db : Db)
    → IsQuota subscription metric limit db
    → find
        (is_reservation_for ReferenceType.generation_job job UsageMetric.ai_questions)
        db.reservations
      ≡ some r
    → is_active r.status ≡ true
    → Ensures (λ x db'. IsFinal job (some x) db') (settle_open_generation now job actor r db)
unfolding settle_open_generation
settled_open {subscription} {metric} {limit} now job actor r db h e active =
    let p = is_reservation_for ReferenceType.generation_job job UsageMetric.ai_questions in
    let n = generated_by_job job db in
    let found = find-key_of_find (λ x. x.id) p db.reservations r h.balanced.unique e in
    elim (Option-cases (find (is_counter r.usage_counter_id) db.counters)) [
      | inl gone ↦ rw (gone, ◌>>=◌) tt
      | inr (c, there) ↦
          rw (there, ◌>>=◌)
            elim (Bool-cases (ltb r.amount n)) [
              | inl more ↦ rw (more, throw_if) tt
              | inr fits ↦
                  rw (fits, throw_if)
                    (Ensures-of_Succeeds
                      (Settles subscription metric limit now r n (λ y. y.released_at) db) _
                      (λ x db' q v y same one.
                        let x_is : x
                            ≡ Settled.updated_rows
                                (settled_by now n (r.amount - n) (λ z. z.released_at) r ∷ []) =
                          q.1 in
                        let eq : settled_by now n (r.amount - n) (λ z. z.released_at) r ≡ y = cc in
                        rw (← eq) (
                          rw q.2 (
                              find-update_by (λ z. z.id) p
                                (settled_by now n (r.amount - n) (λ z. z.released_at))
                                db.reservations r (λ z. refl) e),
                          refl,
                        ))
                      (settle_row now r n (λ y. y.released_at) actor db)
                      (settle_row-IsQuota now r n (λ y. y.released_at) actor db h found active
                        (ground arith)))
            ]
    ]

-- The reservation `r` settled for `made` questions and released for the rest.
abbrev pub settled_reservation : ℕ → ℕ → Reservation → Reservation
settled_reservation now made r = record r {
  settled_amount = made;
  released_amount = r.amount - made;
  status = ReservationStatus.settled;
  settled_at = some now;
  released_at = if ltb 0 (r.amount - made) then some now else r.released_at;
}

-- What settling the job `job` returns and leaves: its reservation is stored as settled, its counter
-- has moved by exactly that, and the other reservations and counters are as they were.
abbrev pub Charges : ℕ → ℕ → Reservation → Counter → Db → Option Settled → Db → Type 0
Charges now job r c db x db' =
    let made = generated_by_job job db in
    (x ≡ some (Settled.updated_rows (settled_reservation now made r ∷ [])))
    × (find (is_reservation_for ReferenceType.generation_job job UsageMetric.ai_questions)
          db'.reservations
        ≡ some (settled_reservation now made r))
    × (find (is_counter r.usage_counter_id) db'.counters
        ≡ some (record c { used = c.used + made; reserved = c.reserved - r.amount }))
    × (r.amount ≤ c.reserved)
    × ((i : ℕ) → r.id ≢ i → find (has_id i) db'.reservations ≡ find (has_id i) db.reservations)
    × ((i : ℕ)
        → r.usage_counter_id ≢ i
        → find (is_counter i) db'.counters ≡ find (is_counter i) db.counters)

module _ {subscription : ℕ} {metric : UsageMetric} {limit : ℕ} where
  -- Settling a job whose reservation is active and that made no more questions than reserved
  -- succeeds: the stored reservation becomes settled for the number of questions made and released
  -- for the rest, its counter's `used` grows by that number, and its `reserved` shrinks by the
  -- amount, which it held; the other reservations and counters stay as they are.  What is returned
  -- is the list of the updated rows, which is that reservation alone.
  pub settle_generation-Charges :
      (now job : ℕ) (actor : Option ℕ) (r : Reservation) (c : Counter) (db : Db)
      → IsQuota subscription metric limit db
      → find
          (is_reservation_for ReferenceType.generation_job job UsageMetric.ai_questions)
          db.reservations
        ≡ some r
      → is_active r.status ≡ true
      → find (is_counter r.usage_counter_id) db.counters ≡ some c
      → generated_by_job job db ≤ r.amount
      → Succeeds (Charges now job r c db) (settle_generation now job actor db)
  unfolding settle_generation settle_open_generation
  settle_generation-Charges now job actor r c db h e active there few =
      let p = is_reservation_for ReferenceType.generation_job job UsageMetric.ai_questions in
      let n = generated_by_job job db in
      let found = find-key_of_find (λ x. x.id) p db.reservations r h.balanced.unique e in
      let open_ : is_closed r.status ≡ false = open_of_active r.status active in
      let fits : ltb r.amount n ≡ false = ground arith in
      let of_counter =
        All-find (Agrees db.reservations) (is_counter r.usage_counter_id) db.counters c
          h.balanced.agreed there in
      let c_id : c.id ≡ r.usage_counter_id =
        (==_iff _ _).0 (find-passes (is_counter r.usage_counter_id) db.counters c there) in
      let holds : r.amount ≤ c.reserved =
        ground (arith, weight-le-sum_by (λ x. x.id) (held c.id) r.id db.reservations r found) in
      rw (e, ◌>>=◌)
        (rw open_ (
          Succeeds->>= (Settles subscription metric limit now r n (λ y. y.released_at) db) _
            (settle_open_generation now job actor r) (λ x. pure (some x)) db
            (rw (there, ◌>>=◌)
              (rw (fits, throw_if)
                (settle_row-IsQuota now r n (λ y. y.released_at) actor db h found active few)))
            (λ x db' q. (
              ap some q.1,
              rw q.2 (
                  find-update_by (λ y. y.id) p
                    (settled_by now n (r.amount - n) (λ y. y.released_at)) db.reservations r
                    (λ y. refl) e),
              rw q.3 (
                  find-update_hit (λ y. y.id) r.usage_counter_id _ _ db.counters c (λ y. refl) there
                    (find-passes (is_counter r.usage_counter_id) db.counters c there)),
              holds,
              (λ i other. rw q.2 (
                  find-update_ne (λ y. y.id) r.id i
                    (settled_by now n (r.amount - n) (λ y. y.released_at)) db.reservations
                    (λ y. refl) other)),
              (λ i other. rw q.3 (
                  find-update_ne (λ y. y.id) r.usage_counter_id i _ db.counters (λ y. refl) other)),
            ))))

  settle_generation-IsFinal :
      (now job : ℕ) (actor : Option ℕ) (db : Db)
      → IsQuota subscription metric limit db
      → Ensures (IsFinal job) (settle_generation now job actor db)
  unfolding settle_generation settle_open_generation
  settle_generation-IsFinal now job actor db h =
      let p = is_reservation_for ReferenceType.generation_job job UsageMetric.ai_questions in
      elim (Option-cases (find p db.reservations)) [
        | inl gone ↦ rw (gone, ◌>>=◌) (λ v y e one. cc)
        | inr (r, e) ↦
            let found = find-key_of_find (λ x. x.id) p db.reservations r h.balanced.unique e in
            let sound = All-find IsSound p db.reservations r h.balanced.sound e in
            rw (e, ◌>>=◌)
              elim (Bool-cases (is_closed r.status)) [
                | inl closed ↦
                    rw closed (λ v y same one. let eq : r ≡ y = cc in rw (← eq) (e, closed))
                | inr open_ ↦ rw open_ (
                    Ensures->>= (λ x db'. IsFinal job (some x) db') (IsFinal job)
                      (settle_open_generation now job actor r) (λ x. pure (some x)) db
                      (settled_open now job actor r db h e
                        (active_of_open r.status r open_ sound.1))
                      (λ x db' q. q))
              ]
      ]

  -- A settlement that returned a reservation is final: the same call, made again at any later time,
  -- reads that reservation and changes nothing.  It returns the row, where the first call may have
  -- returned the list of the updated rows.
  pub settle_generation-once :
      (now job later : ℕ) (actor actor' : Option ℕ) (v : Settled) (y : Reservation) (db db' : Db)
      → IsQuota subscription metric limit db
      → settle_generation now job actor db ≡ ok (some v, db')
      → reservation_of v ≡ some y
      → settle_generation later job actor' db' ≡ ok (some (Settled.found_row y), db')
  settle_generation-once now job later actor actor' v y db db' h e one =
      let final : Ensures {E = UsageError} (IsFinal job) (ok (some v, db')) =
        rw e at (settle_generation-IsFinal now job actor db h) in
      settle_generation-closed later job actor' y db' (final v y refl one).0 (final v y refl one).1
