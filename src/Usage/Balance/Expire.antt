-- ===== src/Usage/Balance/Expire.antt =====
-- `expire` succeeds, keeps the invariant, and closes exactly the rows that are due.
use mathlib.Core.Bool.{and-eq-true_iff}
use ai_tgs.Usage.Balance.Close.{close_row, close_row-IsQuota, no_violation}
use ai_tgs.Usage.Balance.Settle.{Shape-active, move_counter_lem}
use ai_tgs.Usage.Balance.{
  IsQuota, ledger, IsSound, SameQuota-trans, ledger-SameQuota, record_audit-SameQuota,
  IsQuota-SameQuota,
}
use ai_tgs.Usage.Store.{has_id, record_audit, set_reservation, is_counter}
use ai_tgs.Usage.Expire.{joined_job, is_due, expire_one, expire_all, expired_row, expire}
use ai_tgs.Common.{
  Option, arith, false, find, inl, inr, none, refl, true, ℕ, ◌≡◌, ◌==◌, ◌⊎◌, some, List, Succeeds,
  update, IsUnique, any, All, All-find, ◌≢◌, apply_all, ◌-◌, ◌&&◌, ◌∷◌, ltb, find-update_ne,
  Succeeds->>=, ok, sym, Succeeds-mono, ◌∙◌, ◌>>=◌, ap, All-ne_of_none, [], Bool, not, count,
  find-update_kept, All-map, select, pure, length, IsUnique-select, All-select, All-found,
  length-select, apply_all-select,
}
use ai_tgs.Usage.Rows.{
  ReferenceType, same_type, Db, Reservation, JobRow, is_active, UsageMetric, AuditAction,
  UsageEventType, Suffix,
}

job_or_unjoined :
    (t : ReferenceType)
    → (t ≡ ReferenceType.generation_job) ⊎ (same_type t ReferenceType.generation_job ≡ false)
job_or_unjoined ReferenceType.generation_job = inl refl
job_or_unjoined (ReferenceType.generation_regen a) = inr refl
job_or_unjoined ReferenceType.test_finalization = inr refl
job_or_unjoined ReferenceType.test_export = inr refl

joined_of_job :
    (db : Db) (r : Reservation)
    → same_type r.reference_type ReferenceType.generation_job ≡ false
    → joined_job db r ≡ none
unfolding joined_job
joined_of_job db r h = go r.reference_type h
  where
    go :
        (t : ReferenceType)
        → same_type t ReferenceType.generation_job ≡ false
        → (elim t as (λ _. Option JobRow) [
          | ReferenceType.generation_job ↦ find (λ j. j.id == r.reference_id) db.jobs
          | _ ↦ none
        ])
          ≡ none
    go ReferenceType.generation_job h = cc
    go (ReferenceType.generation_regen a) h = refl
    go ReferenceType.test_finalization h = refl
    go ReferenceType.test_export h = refl

-- SQL: `NOT(NULL AND NULL)` is NULL, so a row that joins no job is never due.
pub is_due_of_unjoined :
    (now : ℕ) (db : Db) (r : Reservation)
    → same_type r.reference_type ReferenceType.generation_job ≡ false
    → is_due now db r ≡ false
unfolding is_due
is_due_of_unjoined now db r h = rw (joined_of_job db r h) (ground arith)

is_due-active :
    (now : ℕ) (db : Db) (r : Reservation) → is_due now db r ≡ true → is_active r.status ≡ true
unfolding is_due
is_due-active now db r h = ground arith

is_due-job :
    (now : ℕ) (db : Db) (r : Reservation)
    → is_due now db r ≡ true
    → r.reference_type ≡ ReferenceType.generation_job
is_due-job now db r h = elim (job_or_unjoined r.reference_type) [
  | inl job ↦ job
  | inr unjoined ↦ let never = is_due_of_unjoined now db r unjoined in cc
]

-- What the loop knows of a row that it still has to expire.
abbrev IsOpenJob : Db → Reservation → Type 0
IsOpenJob db r =
    (find (has_id r.id) db.reservations ≡ some r)
    × (is_active r.status ≡ true)
    × (r.reference_type ≡ ReferenceType.generation_job)

module _ (now : ℕ) (actor : Option ℕ) where
  expire_db : Reservation → Db → Db
  expire_db r db = record_audit actor AuditAction.usage_expire r.id (
      ledger r UsageEventType.expire (r.amount - r.settled_amount) Suffix.expire
        (close_row r (expired_row now actor) 0 db))

  expire_one_lem :
      (r : Reservation) (db : Db)
      → any (λ c. is_counter r.usage_counter_id c && ltb c.reserved r.amount) db.counters ≡ false
      → r.settled_amount ≡ 0
      → expire_one now actor r db ≡ ok (tt, expire_db r db)
  unfolding expire_one set_reservation expire_db
  expire_one_lem r db e z =
      let whole : r.amount - r.settled_amount ≡ r.amount = omega arith in
      rw whole (rw (move_counter_lem r.usage_counter_id 0 r.amount db e, ◌>>=◌))

  IsOpenJob-update :
      (r : Reservation) (db db' : Db) (rows : List Reservation)
      → db'.reservations ≡ update (has_id r.id) (expired_row now actor) db.reservations
      → All (λ x. x.id ≢ r.id) rows
      → All (IsOpenJob db) rows
      → All (IsOpenJob db') rows
  IsOpenJob-update r db db' [] e n h = tt
  IsOpenJob-update r db db' (x ∷ rows) e n h = (
    (
      rw e (
          find-update_ne (λ y. y.id) r.id x.id (expired_row now actor) db.reservations (λ y. refl)
            (λ eq. n.0 (sym eq))
          ∙ h.0.0),
      h.0.1,
      h.0.2,
    ),
    IsOpenJob-update r db db' rows e n.1 h.1,
  )

module _ (now : ℕ) where
  -- The rows that `expire` selects are open jobs.
  select-IsOpenJob :
      (locked : ℕ → Bool) (db : Db) (rows : List Reservation)
      → All
          (λ r.
            ((is_due now db r && not (locked r.id)) ≡ true)
            × (find (has_id r.id) db.reservations ≡ some r))
          rows
      → All (IsOpenJob db) rows
  select-IsOpenJob locked db rows = All-map _ (IsOpenJob db) rows (λ r q.
      let due = ((and-eq-true_iff _ _).0 q.0).0 in
      (q.1, is_due-active now db r due, is_due-job now db r due))

-- `expire` as one UPDATE: the rows that are due and that no other transaction locks become expired,
-- all others stay, and their number is returned.
abbrev pub Expires : ℕ → Option ℕ → (ℕ → Bool) → Db → ℕ → Db → Type 0
Expires now actor locked db n db' =
    let due = λ (r : Reservation). is_due now db r && not (locked r.id) in
    (n ≡ count due db.reservations)
    × (db'.reservations ≡ update due (expired_row now actor) db.reservations)

module _ {subscription : ℕ} {metric : UsageMetric} {limit : ℕ} (now : ℕ) (actor : Option ℕ) where
  expire_one-Succeeds :
      (r : Reservation) (db : Db)
      → IsQuota subscription metric limit db
      → IsOpenJob db r
      → Succeeds
          (λ _ db'.
            IsQuota subscription metric limit db'
            × (db'.reservations ≡ update (has_id r.id) (expired_row now actor) db.reservations))
          (expire_one now actor r db)
  unfolding expire_db
  expire_one-Succeeds r db h (found, active, job) =
      let sound_r = All-find IsSound (has_id r.id) db.reservations r h.balanced.sound found in
      let unpaid = Shape-active r.status r active sound_r.1 in
      let closed = close_row r (expired_row now actor) 0 db in
      let entry =
        ledger r UsageEventType.expire (r.amount - r.settled_amount) Suffix.expire closed in
      let same =
        SameQuota-trans closed entry (record_audit actor AuditAction.usage_expire r.id entry)
          (ledger-SameQuota r UsageEventType.expire (r.amount - r.settled_amount) Suffix.expire
            closed)
          (record_audit-SameQuota actor AuditAction.usage_expire r.id entry) in
      let kept =
        close_row-IsQuota r (expired_row now actor) 0 (λ x. refl) (λ x. refl) active refl unpaid
          (omega arith) db h found unpaid (sound_r.0, (unpaid, omega arith, job)) in
      rw
        (expire_one_lem now actor r db
          (no_violation db.reservations r db.counters found active h.balanced.agreed) unpaid)
        (IsQuota-SameQuota _ _ same kept, same.1)

  expire_all-Succeeds :
      (rows : List Reservation) (db : Db)
      → IsQuota subscription metric limit db
      → IsUnique (λ x. x.id) rows
      → All (IsOpenJob db) rows
      → Succeeds
          (λ _ db'.
            IsQuota subscription metric limit db'
            × (db'.reservations
                ≡ apply_all (λ x. x.id) (expired_row now actor) rows db.reservations))
          (expire_all now actor rows db)
  unfolding expire_all
  expire_all-Succeeds [] db h u a = (h, refl)
  expire_all-Succeeds (r ∷ rows) db h u a =
      Succeeds->>=
        (λ _ db'.
          IsQuota subscription metric limit db'
          × (db'.reservations ≡ update (has_id r.id) (expired_row now actor) db.reservations))
        _ (expire_one now actor r) (λ _. expire_all now actor rows) db
        (expire_one-Succeeds r db h a.0)
        (λ _ db' q.
          Succeeds-mono _ _
            (λ _ db'' k. (k.0, k.1 ∙ ap (apply_all (λ x. x.id) (expired_row now actor) rows) q.1))
            (expire_all now actor rows db')
            (expire_all-Succeeds rows db' q.0 u.1 (
              IsOpenJob-update now actor r db db' rows q.1
                (All-ne_of_none (λ x. x.id) r.id rows u.0) a.1)))

  -- `expire` never fails, keeps the invariant, and is one UPDATE of the due rows that no other
  -- transaction locks, whose number it returns.
  pub expire_lem :
      (locked : ℕ → Bool) (db : Db)
      → IsQuota subscription metric limit db
      → Succeeds
          (λ n db'. IsQuota subscription metric limit db' × Expires now actor locked db n db')
          (expire now actor locked db)
  unfolding expire
  expire_lem locked db h =
      let p = λ (r : Reservation). is_due now db r && not (locked r.id) in
      let rs = db.reservations in
      let rows = select p rs in
      Succeeds->>= _ _ (expire_all now actor rows) (λ _. pure (length rows)) db
        (expire_all-Succeeds rows db h (IsUnique-select (λ x. x.id) p rs h.balanced.unique) (
          select-IsOpenJob now locked db rows
            (All-select _ p rs (All-found (λ x. x.id) rs h.balanced.unique))))
        (λ _ db' q. (
          q.0,
          (
            length-select p rs,
            q.1
                ∙ apply_all-select (λ x. x.id) (expired_row now actor) (λ x. refl) p rs
                    h.balanced.unique,
          ),
        ))

  -- A reservation that is not for a generation job is left as it is by every call of `expire`, at
  -- any time, however long it has been overdue.
  pub expire-keeps_unjoined :
      (locked : ℕ → Bool) (db : Db) (id : ℕ) (r : Reservation)
      → IsQuota subscription metric limit db
      → find (has_id id) db.reservations ≡ some r
      → same_type r.reference_type ReferenceType.generation_job ≡ false
      → Succeeds (λ _ db'. find (has_id id) db'.reservations ≡ some r) (expire now actor locked db)
  expire-keeps_unjoined locked db id r h found unjoined =
      Succeeds-mono _ _
        (λ n db' q. rw q.1.1 (
          find-update_kept (λ x. x.id) id _ (expired_row now actor) db.reservations r (λ x. refl)
            found (rw (is_due_of_unjoined now db r unjoined) refl)))
        (expire now actor locked db) (expire_lem locked db h)
