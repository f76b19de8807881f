-- ===== src/Usage/Settle.antt =====
-- UsageService.settleGeneration, settleReservation, releaseReservation and settleRegeneration.
use ai_tgs.Common.{
  List, [], ◌∷◌, ℕ, ◌-◌, min, Bool, false, Option, none, some, ltb, leb, ◌==◌, ◌&&◌, not,
  if◌then◌else◌, find, count, ◌>>=◌, ◌>>◌, pure, gets, modify, throw_if, or_throw,
}
use ai_tgs.Usage.Rows.{
  UsageMetric, ReservationStatus, UsageEventType, ReferenceType, Suffix, AuditAction, Counter,
  Reservation, Db, is_active, is_settled, is_closed, settlement_exceeds_reservation,
  reservation_not_found, reservation_not_active, type_error,
}
use ai_tgs.Usage.Store.{
  UsageAction, has_id, is_counter, is_reservation_for, move_counter, set_reservation, ledger,
  record_audit,
}
use ai_tgs.Usage.Reserve.{JsNumber}

-- What a settling method returns: the row that it read, or what it takes from the answer to an
-- UPDATE … RETURNING, a pair of the list of rows and their number: that list.
pub data Settled : Type 0 where
  found_row : Reservation → Settled
  updated_rows : List Reservation → Settled

abbrev pub is_some_of : ℕ → Option ℕ → Bool
is_some_of i none = false
is_some_of i (some j) = j == i

-- count(*) of the AI questions of a generation job, and of one item since a time.
unfoldable pub generated_by_job : ℕ → Db → ℕ
generated_by_job job db =
    count (λ q. is_some_of job q.generation_job_id && q.is_ai_generated) db.questions

unfoldable pub generated_by_item : ℕ → ℕ → Db → ℕ
generated_by_item item since db =
    count
      (λ q.
        is_some_of item q.generation_job_item_id && (q.is_ai_generated && leb since q.created_at))
      db.questions

-- `SELECT … FROM usage_counters WHERE id=$1 FOR UPDATE`, of which `c.id` is read.
abbrev pub lock_counter : ℕ → UsageAction Counter
lock_counter id = do or_throw (← gets (λ db. find (is_counter id) db.counters)) type_error

-- The comparisons of `settledAmount < 0 || settledAmount > Number(reservation.amount)`; the
-- callers pass an integer.
abbrev pub within_amount : JsNumber → ℕ → Option ℕ
within_amount (JsNumber.integer n) amount = if ltb amount n then none else some n
within_amount _ amount = none

module _ (now : ℕ) where
  -- The row after the settling UPDATE; `keep` is the ELSE branch of its CASE for released_at.
  abbrev pub settled_by : ℕ → ℕ → (Reservation → Option ℕ) → Reservation → Reservation
  settled_by settled released keep r = record r {
    settled_amount = settled;
    released_amount = released;
    status = ReservationStatus.settled;
    settled_at = some now;
    released_at = if ltb 0 released then some now else keep r;
  }

  -- The statements that the three settling methods share: the counter, the reservation, the ledger
  -- (no entry of amount 0) and the audit.
  unfoldable pub settle_row :
      Reservation → ℕ → (Reservation → Option ℕ) → Option ℕ → UsageAction Settled
  settle_row r settled keep actor =
      let released = r.amount - settled in
      do
        move_counter r.usage_counter_id settled r.amount
        modify (set_reservation r.id (settled_by settled released keep))
        modify (
            if settled == 0
            then (λ db. db)
            else ledger r UsageEventType.settle settled Suffix.settle)
        modify (
            if released == 0
            then (λ db. db)
            else ledger r UsageEventType.release released Suffix.release)
        modify (record_audit actor AuditAction.usage_settle r.id)
        pure (Settled.updated_rows (settled_by settled released keep r ∷ []))

  unfoldable pub settle_open_generation : ℕ → Option ℕ → Reservation → UsageAction Settled
  settle_open_generation job actor r = do
    lock_counter r.usage_counter_id
    settled ← gets (generated_by_job job)
    throw_if (ltb r.amount settled) settlement_exceeds_reservation
    settle_row r settled (λ x. x.released_at) actor

  -- `none` is the source's `null`.
  unfoldable pub settle_generation : ℕ → Option ℕ → UsageAction (Option Settled)
  settle_generation job actor = do
    found ← gets (λ db.
        find (is_reservation_for ReferenceType.generation_job job UsageMetric.ai_questions)
          db.reservations)
    elim found [
      | none ↦ pure none
      | some r ↦
          if is_closed r.status
          then pure (some (Settled.found_row r))
          else do updated ← settle_open_generation job actor r; pure (some updated)
    ]

  unfoldable pub settle_reservation : ℕ → JsNumber → ℕ → UsageAction Settled
  settle_reservation id settled_amount actor = do
    r ← or_throw (← gets (λ db. find (has_id id) db.reservations)) reservation_not_found
    if is_settled r.status then pure (Settled.found_row r) else do
      throw_if (not (is_active r.status)) reservation_not_active
      settled ← or_throw (within_amount settled_amount r.amount) settlement_exceeds_reservation
      settle_row r settled (λ x. x.released_at) (some actor)

  unfoldable pub release_reservation : ℕ → ℕ → UsageAction Settled
  release_reservation id actor = settle_reservation id (JsNumber.integer 0) actor

  unfoldable pub settle_open_regeneration : ℕ → Option ℕ → Reservation → UsageAction Settled
  settle_open_regeneration item actor r = do
    lock_counter r.usage_counter_id
    made ← gets (generated_by_item item r.created_at)
    settle_row r (min made r.amount) (λ _. none) actor

  unfoldable pub settle_regeneration : ℕ → ℕ → Option ℕ → UsageAction (Option Settled)
  settle_regeneration item attempt actor = do
    found ← gets (λ db.
        find
          (is_reservation_for (ReferenceType.generation_regen attempt) item
            UsageMetric.ai_questions)
          db.reservations)
    elim found [
      | none ↦ pure none
      | some r ↦
          if is_settled r.status
          then pure (some (Settled.found_row r))
          else do updated ← settle_open_regeneration item actor r; pure (some updated)
    ]
