-- ===== src/Usage/Balance/Settle.antt =====
-- The settling methods keep the invariant, and succeed on an active reservation.
use ai_tgs.Common.{
  [], ◌∷◌, ◌>>=◌, ℕ, ◌+◌, ◌-◌, ◌≡◌, refl, true, false, some, arith, ◌==◌, ◌&&◌, ltb, if◌then◌else◌,
  find, any, update, ok, throw_if, Option, ◌≤◌, Succeeds, All-find,
}
use ai_tgs.Usage.Rows.{UsageMetric, UsageEventType, Suffix, AuditAction, Reservation, Db, is_active}
use ai_tgs.Usage.Store.{is_counter, has_id, move_counter, set_reservation}
use ai_tgs.Usage.Settle.{Settled, settled_by, settle_row}
use ai_tgs.Usage.Balance.{
  Shape, IsSound, IsQuota, IsQuota-SameQuota, SameQuota, SameQuota-trans,
  ledger_unless_zero-SameQuota, record_audit-SameQuota, ReservationStatus, record_audit, ledger,
}
use ai_tgs.Usage.Balance.Close.{no_violation, close_row-IsQuota, close_row}

pub move_counter_lem :
    (id s a : ℕ) (db : Db)
    → any (λ c. is_counter id c && ltb c.reserved a) db.counters ≡ false
    → move_counter id s a db
      ≡ ok (
        tt,
        record db {
          counters =
              update
                (is_counter id)
                (λ c. record c { used = c.used + s; reserved = c.reserved - a })
                db.counters;
        },
      )
unfolding move_counter
move_counter_lem id s a db e = rw (e, throw_if)

pub Shape-active :
    (t : ReservationStatus) (r : Reservation)
    → is_active t ≡ true
    → Shape t r
    → r.settled_amount ≡ 0
Shape-active ReservationStatus.active r a h = h.0
Shape-active ReservationStatus.partially_settled r a h = cc
Shape-active ReservationStatus.settled r a h = cc
Shape-active ReservationStatus.released r a h = cc
Shape-active ReservationStatus.expired r a h = cc

-- The state after `settle_row`, once the CHECK on the counter has passed.
abbrev settle_db : ℕ → Reservation → ℕ → (Reservation → Option ℕ) → Option ℕ → Db → Db
settle_db now r settled keep actor db =
    let released = r.amount - settled in
    record_audit actor AuditAction.usage_settle r.id (
      (if released == 0 then (λ d. d) else ledger r UsageEventType.release released Suffix.release)
        ((if settled == 0 then (λ d. d) else ledger r UsageEventType.settle settled Suffix.settle)
          (close_row r (settled_by now settled released keep) settled db)))

settle_db-SameQuota :
    (now : ℕ) (r : Reservation) (settled : ℕ) (keep : Reservation → Option ℕ) (actor : Option ℕ)
    (db : Db)
    → SameQuota
        (close_row r (settled_by now settled (r.amount - settled) keep) settled db)
        (settle_db now r settled keep actor db)
settle_db-SameQuota now r settled keep actor db =
    let released = r.amount - settled in
    let a = close_row r (settled_by now settled released keep) settled db in
    let b =
      (if settled == 0 then (λ d. d) else ledger r UsageEventType.settle settled Suffix.settle) a in
    let c =
      (if released == 0 then (λ d. d) else ledger r UsageEventType.release released Suffix.release)
        b in
    SameQuota-trans a c (record_audit actor AuditAction.usage_settle r.id c)
      (SameQuota-trans a b c
        (ledger_unless_zero-SameQuota settled r UsageEventType.settle settled Suffix.settle a)
        (ledger_unless_zero-SameQuota released r UsageEventType.release released Suffix.release b))
      (record_audit-SameQuota actor AuditAction.usage_settle r.id c)

settle_row_lem :
    (now : ℕ) (r : Reservation) (settled : ℕ) (keep : Reservation → Option ℕ) (actor : Option ℕ)
    (db : Db)
    → any (λ c. is_counter r.usage_counter_id c && ltb c.reserved r.amount) db.counters ≡ false
    → settle_row now r settled keep actor db
      ≡ ok (
        Settled.updated_rows (settled_by now settled (r.amount - settled) keep r ∷ []),
        settle_db now r settled keep actor db,
      )
unfolding settle_row set_reservation
settle_row_lem now r settled keep actor db e =
    rw (move_counter_lem r.usage_counter_id settled r.amount db e, ◌>>=◌)

-- What `settle_row` returns and leaves behind.
abbrev pub Settles :
    ℕ
    → UsageMetric
    → ℕ
    → ℕ
    → Reservation
    → ℕ
    → (Reservation → Option ℕ)
    → Db
    → Settled
    → Db
    → Type 0
Settles subscription metric limit now r settled keep db x db' =
    let f = settled_by now settled (r.amount - settled) keep in
    IsQuota subscription metric limit db'
    × (x ≡ Settled.updated_rows (f r ∷ []))
    × (db'.reservations ≡ update (has_id r.id) f db.reservations)
    × (db'.counters
        ≡ update (is_counter r.usage_counter_id)
            (λ c. record c { used = c.used + settled; reserved = c.reserved - r.amount })
            db.counters)

module _ {subscription : ℕ} {metric : UsageMetric} {limit : ℕ} (now : ℕ) where
  -- Settling at most the amount of an active reservation succeeds and keeps the invariant.
  pub settle_row-IsQuota :
      (r : Reservation) (settled : ℕ) (keep : Reservation → Option ℕ) (actor : Option ℕ) (db : Db)
      → IsQuota subscription metric limit db
      → find (has_id r.id) db.reservations ≡ some r
      → is_active r.status ≡ true
      → settled ≤ r.amount
      → Succeeds
          (Settles subscription metric limit now r settled keep db)
          (settle_row now r settled keep actor db)
  settle_row-IsQuota r settled keep actor db h found active part =
      let f = settled_by now settled (r.amount - settled) keep in
      let sound_r = All-find IsSound (has_id r.id) db.reservations r h.balanced.sound found in
      let same = settle_db-SameQuota now r settled keep actor db in
      let kept =
        close_row-IsQuota r f settled (λ x. refl) (λ x. refl) active refl refl part db h found
          (Shape-active r.status r active sound_r.1) (sound_r.0, omega arith) in
      rw
        (settle_row_lem now r settled keep actor db
          (no_violation db.reservations r db.counters found active h.balanced.agreed))
        (IsQuota-SameQuota _ _ same kept, refl, same.1, same.0)
