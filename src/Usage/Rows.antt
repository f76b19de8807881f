-- ===== src/Usage/Rows.antt =====
-- The rows of the usage tables (subscriptions/entities, subscription.enums.ts) and the state that
-- usage.service.ts reads and writes. Uuids are numbers; times are milliseconds.
use ai_tgs.Common.{ℕ, Bool, true, false, Option, List, ◌==◌}

pub data UsageMetric : Type 0 where
  ai_questions tests pdf_exports storage_bytes : UsageMetric

pub data ReservationStatus : Type 0 where
  active partially_settled settled released expired : ReservationStatus

pub data UsageEventType : Type 0 where
  reserve settle release expire adjust : UsageEventType

-- The reference types that the callers pass: 'GENERATION_JOB', `GENERATION_REGEN_${attempt}`,
-- 'TEST_FINALIZATION' and 'TEST_EXPORT'.
pub data ReferenceType : Type 0 where
  generation_job : ReferenceType
  generation_regen : ℕ → ReferenceType
  test_finalization : ReferenceType
  test_export : ReferenceType

abbrev pub metric_code : UsageMetric → ℕ
metric_code UsageMetric.ai_questions = 0
metric_code UsageMetric.tests = 1
metric_code UsageMetric.pdf_exports = 2
metric_code UsageMetric.storage_bytes = 3

abbrev pub same_metric : UsageMetric → UsageMetric → Bool
same_metric a b = metric_code a == metric_code b

abbrev pub same_type : ReferenceType → ReferenceType → Bool
same_type ReferenceType.generation_job ReferenceType.generation_job = true
same_type (ReferenceType.generation_regen a) (ReferenceType.generation_regen b) = a == b
same_type ReferenceType.test_finalization ReferenceType.test_finalization = true
same_type ReferenceType.test_export ReferenceType.test_export = true
same_type _ _ = false

abbrev pub is_active : ReservationStatus → Bool
is_active ReservationStatus.active = true
is_active _ = false

abbrev pub is_settled : ReservationStatus → Bool
is_settled ReservationStatus.settled = true
is_settled _ = false

-- `[SETTLED, RELEASED, EXPIRED].includes(status)`
abbrev pub is_closed : ReservationStatus → Bool
is_closed ReservationStatus.settled = true
is_closed ReservationStatus.released = true
is_closed ReservationStatus.expired = true
is_closed _ = false

pub record Counter : Type 0 where
  pub id : ℕ
  pub subscription_id : ℕ
  pub metric : UsageMetric
  pub used : ℕ
  pub reserved : ℕ
  pub period_start : ℕ
  pub period_end : ℕ

pub record Reservation : Type 0 where
  pub id : ℕ
  pub subscription_id : ℕ
  pub usage_counter_id : ℕ
  pub metric : UsageMetric
  pub amount : ℕ
  pub settled_amount : ℕ
  pub released_amount : ℕ
  pub status : ReservationStatus
  pub reference_type : ReferenceType
  pub reference_id : ℕ
  pub expires_at : ℕ
  pub settled_at : Option ℕ
  pub released_at : Option ℕ
  pub created_at : ℕ

-- The suffix of a ledger entry's idempotency key, `${r.id}:${suffix}`.
pub data Suffix : Type 0 where
  reserve settle release expire : Suffix

abbrev pub suffix_code : Suffix → ℕ
suffix_code Suffix.reserve = 0
suffix_code Suffix.settle = 1
suffix_code Suffix.release = 2
suffix_code Suffix.expire = 3

pub record LedgerEntry : Type 0 where
  pub subscription_id : ℕ
  pub metric : UsageMetric
  pub event_type : UsageEventType
  pub amount : ℕ
  pub reservation_id : ℕ
  pub reference_type : ReferenceType
  pub reference_id : ℕ
  pub suffix : Suffix

pub data AuditAction : Type 0 where
  usage_reserve usage_settle usage_expire : AuditAction

pub record Audit : Type 0 where
  pub actor_id : Option ℕ
  pub action : AuditAction
  pub entity_id : ℕ

-- What the service reads of `questions`.
pub record QuestionRow : Type 0 where
  pub generation_job_id : Option ℕ
  pub generation_job_item_id : Option ℕ
  pub is_ai_generated : Bool
  pub created_at : ℕ

-- What the service reads of `generation_jobs`.
pub record JobRow : Type 0 where
  pub id : ℕ
  pub is_processing : Bool
  pub lease_expires_at : Option ℕ

pub record Db : Type 0 where
  pub counters : List Counter
  pub reservations : List Reservation
  pub ledger : List LedgerEntry
  pub audits : List Audit
  pub questions : List QuestionRow
  pub jobs : List JobRow
  pub next_id : ℕ

pub record ResolvedEntitlement : Type 0 where
  pub subscription_id : ℕ
  pub plan_id : ℕ
  pub metric : UsageMetric
  pub limit : Option ℕ
  pub period_start : ℕ
  pub period_end : ℕ

-- What makes a request fail: the entitlement codes, the plain errors, and the database's CHECK.
pub data UsageError : Type 0 where
  entitlement_configuration_error usage_limit_exceeded : UsageError
  settlement_exceeds_reservation reservation_not_found reservation_not_active : UsageError
  type_error check_violation : UsageError
