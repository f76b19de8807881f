-- ===== src/Usage/Balance.antt =====
-- The invariant of the usage tables: every counter agrees with the reservations that it counts.
pub mod Close
pub mod Settle
pub mod Methods
pub mod Expire
pub mod Charge
pub mod Reserve
use ai_tgs.Common.{
  ℕ, suc, ◌+◌, ◌-◌, ◌≤◌, ◌<◌, ◌≡◌, ◌≢◌, refl, ◌∙◌, Bool, true, false, Option, none, some, List, [],
  ◌∷◌, arith, ◌==◌, ◌&&◌, if◌then◌else◌, find, any, sum_by, All, IsUnique, Bool-cases, inl, inr,
}
use ai_tgs.Usage.Rows.{
  UsageMetric, ReservationStatus, ReferenceType, UsageEventType, Suffix, AuditAction, Counter,
  Reservation, Db, is_active, same_metric,
}
use ai_tgs.Usage.Store.{is_counter, is_entry, ledger, record_audit}

-- What an active reservation holds of a counter, and what a settled one has spent of it.
abbrev pub held : ℕ → Reservation → ℕ
held k r = if r.usage_counter_id == k && is_active r.status then r.amount else 0

abbrev pub spent : ℕ → Reservation → ℕ
spent k r = if r.usage_counter_id == k then r.settled_amount else 0

abbrev pub Agrees : List Reservation → Counter → Type 0
Agrees rs c = (c.reserved ≡ sum_by (held c.id) rs) × (c.used ≡ sum_by (spent c.id) rs)

-- How the amounts of a reservation stand in each status.  Two of the statuses are never written,
-- and only a reservation of a generation job expires.
abbrev pub Shape : ReservationStatus → Reservation → Type 0
Shape ReservationStatus.active r = (r.settled_amount ≡ 0) × (r.released_amount ≡ 0)
Shape ReservationStatus.settled r = r.settled_amount + r.released_amount ≡ r.amount
Shape ReservationStatus.expired r =
    (r.settled_amount ≡ 0)
    × (r.released_amount ≡ r.amount)
    × (r.reference_type ≡ ReferenceType.generation_job)
Shape ReservationStatus.partially_settled r = ⊥
Shape ReservationStatus.released r = ⊥

abbrev pub IsSound : Reservation → Type 0
IsSound r = (0 < r.amount) × Shape r.status r

pub record IsBalanced (db : Db) : Type 0 where
  pub agreed : All (Agrees db.reservations) db.counters
  pub unique_counters : IsUnique (λ c. c.id) db.counters
  pub unique : IsUnique (λ r. r.id) db.reservations
  pub sound : All IsSound db.reservations
  pub fresh : All (λ r. (r.id < db.next_id) × (r.usage_counter_id < db.next_id)) db.reservations
  pub fresh_counters : All (λ c. c.id < db.next_id) db.counters
  pub counted : All (λ r. find (is_counter r.usage_counter_id) db.counters ≢ none) db.reservations

-- The counters of one subscription and metric stay within a limit, every period by itself.
abbrev pub IsWithin : ℕ → UsageMetric → ℕ → Counter → Type 0
IsWithin subscription metric limit c =
    c.subscription_id ≡ subscription
    → same_metric c.metric metric ≡ true
    → c.used + c.reserved ≤ limit

-- Both at once, for the subscription, metric and limit under view.
pub record IsQuota (subscription : ℕ) (metric : UsageMetric) (limit : ℕ) (db : Db) : Type 0 where
  pub balanced : IsBalanced db
  pub within : All (IsWithin subscription metric limit) db.counters

-- The ledger and the audit log do not enter the invariant.
abbrev pub SameQuota : Db → Db → Type 0
SameQuota db db' =
    (db'.counters ≡ db.counters) × (db'.reservations ≡ db.reservations) × (db'.next_id ≡ db.next_id)

pub IsQuota-SameQuota :
    {subscription : ℕ} {metric : UsageMetric} {limit : ℕ} (db db' : Db)
    → SameQuota db db'
    → IsQuota subscription metric limit db
    → IsQuota subscription metric limit db'
IsQuota-SameQuota {subscription} {metric} {limit} db db' same h =
    let b = h.balanced in
    record {
      balanced = record {
        agreed = rw (same.0, same.1) b.agreed;
        unique_counters = rw same.0 b.unique_counters;
        unique = rw same.1 b.unique;
        sound = rw same.1 b.sound;
        fresh = rw (same.1, same.2) b.fresh;
        fresh_counters = rw (same.0, same.2) b.fresh_counters;
        counted = rw (same.0, same.1) b.counted;
      };
      within = rw same.0 h.within;
    }

pub ledger-SameQuota :
    (r : Reservation) (e : UsageEventType) (n : ℕ) (s : Suffix) (db : Db)
    → SameQuota db (ledger r e n s db)
unfolding ledger
ledger-SameQuota r e n s db = elim (Bool-cases (any (is_entry r.id s) db.ledger)) [
  | inl old ↦ rw old (refl, refl, refl)
  | inr new ↦ rw new (refl, refl, refl)
]

-- The entry that is written only for an amount other than 0.
pub ledger_unless_zero-SameQuota :
    (m : ℕ) (r : Reservation) (e : UsageEventType) (n : ℕ) (s : Suffix) (db : Db)
    → SameQuota db ((if m == 0 then (λ d. d) else ledger r e n s) db)
ledger_unless_zero-SameQuota m r e n s db = elim (Bool-cases (m == 0)) [
  | inl none_left ↦ rw none_left (refl, refl, refl)
  | inr some_left ↦ rw some_left (ledger-SameQuota r e n s db)
]

pub record_audit-SameQuota :
    (actor : Option ℕ) (action : AuditAction) (id : ℕ) (db : Db)
    → SameQuota db (record_audit actor action id db)
unfolding record_audit
record_audit-SameQuota actor action id db = (refl, refl, refl)

pub SameQuota-trans : (a b c : Db) → SameQuota a b → SameQuota b c → SameQuota a c
SameQuota-trans a b c h k = (k.0 ∙ h.0, k.1 ∙ h.1, k.2 ∙ h.2)
