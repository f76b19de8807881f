-- ===== src/Usage/Reserve.antt =====
-- UsageService.reserve and UsageService.consume.
use ai_tgs.Common.{
  ℕ, ◌+◌, ◌-◌, ◌*◌, ◌^◌, Bool, false, Option, none, some, ltb, leb, ◌&&◌, if◌then◌else◌, find,
  ◌>>=◌, ◌>>◌, pure, gets, modify, throw_if, or_throw,
}
use ai_tgs.Usage.Rows.{
  ReservationStatus, UsageEventType, ReferenceType, Suffix, AuditAction, Counter, Reservation,
  ResolvedEntitlement, usage_limit_exceeded, type_error, entitlement_configuration_error,
}
use ai_tgs.Usage.Store.{
  UsageAction, is_counter_of, is_reservation_for, ensure_counter, add_reserved, add_used,
  insert_reservation, ledger, record_audit,
}

-- A JavaScript number: an integer with its sign, or none (a fraction, NaN, an infinity).
pub data JsNumber : Type 0 where
  integer negative : ℕ → JsNumber
  not_integer : JsNumber

-- Number.MAX_SAFE_INTEGER
abbrev pub max_safe_integer : ℕ
max_safe_integer = 2 ^ 53 - 1

-- The amount of a request that passes `Number.isSafeInteger(amount) && amount > 0`.
unfoldable pub safe_positive : JsNumber → Option ℕ
safe_positive (JsNumber.integer n) = if leb n max_safe_integer && ltb 0 n then some n else none
safe_positive _ = none

-- `ent.limit !== null && used + reserved + amount > ent.limit`
unfoldable pub exceeds : Option ℕ → Counter → ℕ → Bool
exceeds none c amount = false
exceeds (some limit) c amount = ltb limit (c.used + c.reserved + amount)

abbrev pub now_plus_minutes : ℕ → ℕ → ℕ
now_plus_minutes now ttl = now + ttl * 60000

module _ (now : ℕ) where
  abbrev pub active_row :
      ResolvedEntitlement → Counter → ℕ → ReferenceType → ℕ → ℕ → ℕ → Reservation
  active_row ent counter amount type reference_id ttl id = record {
    id = id;
    subscription_id = ent.subscription_id;
    usage_counter_id = counter.id;
    metric = ent.metric;
    amount = amount;
    settled_amount = 0;
    released_amount = 0;
    status = ReservationStatus.active;
    reference_type = type;
    reference_id = reference_id;
    expires_at = now_plus_minutes now ttl;
    settled_at = none;
    released_at = none;
    created_at = now;
  }

  abbrev pub settled_row : ResolvedEntitlement → Counter → ℕ → ReferenceType → ℕ → ℕ → Reservation
  settled_row ent counter amount type reference_id id = record {
    id = id;
    subscription_id = ent.subscription_id;
    usage_counter_id = counter.id;
    metric = ent.metric;
    amount = amount;
    settled_amount = amount;
    released_amount = 0;
    status = ReservationStatus.settled;
    reference_type = type;
    reference_id = reference_id;
    expires_at = now;
    settled_at = some now;
    released_at = none;
    created_at = now;
  }

  -- The part of `reserve` after the look-up of an existing reservation found none; `counter` is
  -- the row that the service locks.
  unfoldable pub reserve_new :
      ResolvedEntitlement → ℕ → ReferenceType → ℕ → ℕ → ℕ → Counter → UsageAction Reservation
  reserve_new ent amount type reference_id actor ttl counter = do
    throw_if (exceeds ent.limit counter amount) usage_limit_exceeded
    reservation ← insert_reservation (active_row ent counter amount type reference_id ttl)
    modify (add_reserved counter.id amount)
    modify (ledger reservation UsageEventType.reserve amount Suffix.reserve)
    modify (record_audit (some actor) AuditAction.usage_reserve reservation.id)
    pure reservation

  unfoldable pub reserve :
      ResolvedEntitlement → JsNumber → ReferenceType → ℕ → ℕ → ℕ → UsageAction Reservation
  reserve ent amount type reference_id actor ttl = do
    n ← or_throw (safe_positive amount) entitlement_configuration_error
    ensure_counter ent
    existing ← gets (λ db. find (is_reservation_for type reference_id ent.metric) db.reservations)
    elim existing [
      | some r ↦ pure r
      | none ↦ do
        counter ← or_throw (← gets (λ db. find (is_counter_of ent) db.counters)) type_error
        reserve_new ent n type reference_id actor ttl counter
    ]

  -- The same part of `consume`, which settles at once.
  unfoldable pub consume_new :
      ResolvedEntitlement → ℕ → ReferenceType → ℕ → ℕ → Counter → UsageAction Reservation
  consume_new ent amount type reference_id actor counter = do
    throw_if (exceeds ent.limit counter amount) usage_limit_exceeded
    reservation ← insert_reservation (settled_row ent counter amount type reference_id)
    modify (add_used counter.id amount)
    modify (ledger reservation UsageEventType.settle amount Suffix.settle)
    modify (record_audit (some actor) AuditAction.usage_settle reservation.id)
    pure reservation

  unfoldable pub consume :
      ResolvedEntitlement → JsNumber → ReferenceType → ℕ → ℕ → UsageAction Reservation
  consume ent amount type reference_id actor = do
    n ← or_throw (safe_positive amount) entitlement_configuration_error
    ensure_counter ent
    existing ← gets (λ db. find (is_reservation_for type reference_id ent.metric) db.reservations)
    elim existing [
      | some r ↦ pure r
      | none ↦ do
        counter ← or_throw (← gets (λ db. find (is_counter_of ent) db.counters)) type_error
        consume_new ent n type reference_id actor counter
    ]
