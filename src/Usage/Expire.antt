-- ===== src/Usage/Expire.antt =====
-- UsageService.expire, with the three-valued logic of its WHERE clause.
use ai_tgs.Common.{
  ℕ, ◌-◌, Bool, true, false, Option, none, some, List, [], ◌∷◌, ltb, leb, ◌==◌, ◌&&◌, not, find,
  select, length, ◌>>=◌, ◌>>◌, pure, gets, modify,
}
use ai_tgs.Usage.Rows.{
  ReservationStatus, UsageEventType, ReferenceType, Suffix, AuditAction, Reservation, JobRow, Db,
  is_active,
}
use ai_tgs.Usage.Store.{UsageAction, move_counter, set_reservation, ledger, record_audit}

-- SQL conditions; `none` is NULL, and a row is selected only where its condition is true.
abbrev pub sql_not : Option Bool → Option Bool
sql_not none = none
sql_not (some b) = some (not b)

abbrev pub sql_and : Option Bool → Option Bool → Option Bool
sql_and (some false) q = some false
sql_and (some true) q = q
sql_and none (some false) = some false
sql_and none q = none

abbrev pub is_true : Option Bool → Bool
is_true (some b) = b
is_true none = false

-- LEFT JOIN generation_jobs j ON r.reference_type='GENERATION_JOB' AND j.id=r.reference_id
unfoldable pub joined_job : Db → Reservation → Option JobRow
joined_job db r = elim r.reference_type [
  | ReferenceType.generation_job ↦ find (λ j. j.id == r.reference_id) db.jobs
  | _ ↦ none
]

-- `j.status='PROCESSING'`; the column is NULL where the join found no job.
abbrev pub job_processing : Option JobRow → Option Bool
job_processing none = none
job_processing (some j) = some j.is_processing

abbrev pub after : Option ℕ → ℕ → Option Bool
after none now = none
after (some t) now = some (ltb now t)

-- `j.lease_expires_at>now()`
abbrev pub lease_running : ℕ → Option JobRow → Option Bool
lease_running now none = none
lease_running now (some j) = after j.lease_expires_at now

-- The WHERE clause of `expire`.
unfoldable pub is_due : ℕ → Db → Reservation → Bool
is_due now db r =
    let job = joined_job db r in
    is_true (
      sql_and (some (is_active r.status && leb r.expires_at now))
        (sql_not (sql_and (job_processing job) (lease_running now job))))

module _ (now : ℕ) (actor : Option ℕ) where
  abbrev pub expired_row : Reservation → Reservation
  expired_row r = record r {
    status = ReservationStatus.expired;
    released_amount = r.amount - r.settled_amount;
    released_at = some now;
  }

  -- The body of the loop over the due rows.
  unfoldable pub expire_one : Reservation → UsageAction (Unit {0})
  expire_one r = do
    move_counter r.usage_counter_id 0 (r.amount - r.settled_amount)
    modify (set_reservation r.id expired_row)
    modify (ledger r UsageEventType.expire (r.amount - r.settled_amount) Suffix.expire)
    modify (record_audit actor AuditAction.usage_expire r.id)

  unfoldable pub expire_all : List Reservation → UsageAction (Unit {0})
  expire_all [] = pure tt
  expire_all (r ∷ rs) = expire_one r >> expire_all rs

  -- `locked` says which rows another transaction holds: FOR UPDATE SKIP LOCKED passes over them.
  unfoldable pub expire : (ℕ → Bool) → UsageAction ℕ
  expire locked = do
    rows ← gets (λ db. select (λ r. is_due now db r && not (locked r.id)) db.reservations)
    expire_all rows
    pure (length rows)
