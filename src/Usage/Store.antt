-- ===== src/Usage/Store.antt =====
-- The SQL statements of usage.service.ts on the state, with the constraints of the tables that
-- they can break (database/migrations/1726100000000-TransactionalSubscriptions.ts).
use ai_tgs.Common.{
  ℕ, suc, ◌+◌, ◌-◌, Bool, Option, [], ◌∷◌, ◌++◌, ltb, leb, ◌==◌, ◌&&◌, if◌then◌else◌, any, update,
  Action, ok, ◌>>=◌, ◌>>◌, gets, modify, throw_if,
}
use ai_tgs.Usage.Rows.{
  UsageMetric, UsageEventType, ReferenceType, Suffix, suffix_code, same_metric, same_type, Counter,
  Reservation, LedgerEntry, AuditAction, Db, ResolvedEntitlement, UsageError, check_violation,
}

abbrev pub UsageAction : Type 0 → Type 0
UsageAction A = Action UsageError Db A

abbrev pub has_id : ℕ → Reservation → Bool
has_id i r = r.id == i

abbrev pub is_counter : ℕ → Counter → Bool
is_counter i c = c.id == i

-- The unique key (subscription_id, metric, period_start, period_end) of a counter.
abbrev pub is_counter_of : ResolvedEntitlement → Counter → Bool
is_counter_of ent c =
    c.subscription_id == ent.subscription_id
    && (same_metric c.metric ent.metric
        && (c.period_start == ent.period_start && c.period_end == ent.period_end))

abbrev pub is_reservation_for : ReferenceType → ℕ → UsageMetric → Reservation → Bool
is_reservation_for type id metric r =
    same_type r.reference_type type && (r.reference_id == id && same_metric r.metric metric)

abbrev pub new_counter : ResolvedEntitlement → ℕ → Counter
new_counter ent id = record {
  id = id;
  subscription_id = ent.subscription_id;
  metric = ent.metric;
  used = 0;
  reserved = 0;
  period_start = ent.period_start;
  period_end = ent.period_end;
}

-- INSERT INTO usage_counters … ON CONFLICT … DO NOTHING, as a function of the state.
unfoldable pub with_counter : ResolvedEntitlement → Db → Db
with_counter ent db = if any (is_counter_of ent) db.counters then db else record db {
  counters = db.counters ++ new_counter ent db.next_id ∷ [];
  next_id = suc db.next_id;
}

-- The insertion is checked by CHECK(period_end>period_start) before the conflict is looked for.
unfoldable pub ensure_counter : ResolvedEntitlement → UsageAction (Unit {0})
ensure_counter ent = do
  throw_if (leb ent.period_end ent.period_start) check_violation
  modify (with_counter ent)

-- UPDATE usage_counters SET used=used+$2,reserved=reserved-$3 WHERE id=$1, under CHECK(reserved>=0).
unfoldable pub move_counter : ℕ → ℕ → ℕ → UsageAction (Unit {0})
move_counter id settled amount = do
  throw_if (any (λ c. is_counter id c && ltb c.reserved amount) (← gets (λ db. db.counters)))
      check_violation
  modify (λ db. record db {
    counters =
        update (is_counter id)
          (λ c. record c { used = c.used + settled; reserved = c.reserved - amount }) db.counters;
  })

-- UPDATE usage_counters SET reserved=reserved+$2 WHERE id=$1.
unfoldable pub add_reserved : ℕ → ℕ → Db → Db
add_reserved id amount db = record db {
  counters = update (is_counter id) (λ c. record c { reserved = c.reserved + amount }) db.counters;
}

-- UPDATE usage_counters SET used=used+$2 WHERE id=$1.
unfoldable pub add_used : ℕ → ℕ → Db → Db
add_used id amount db = record db {
  counters = update (is_counter id) (λ c. record c { used = c.used + amount }) db.counters;
}

-- INSERT INTO usage_reservations … RETURNING *, with a generated id.
unfoldable pub insert_reservation : (ℕ → Reservation) → UsageAction Reservation
insert_reservation row db = ok (
  row db.next_id,
  record db { reservations = db.reservations ++ row db.next_id ∷ []; next_id = suc db.next_id },
)

-- UPDATE usage_reservations SET … WHERE id=$1.
unfoldable pub set_reservation : ℕ → (Reservation → Reservation) → Db → Db
set_reservation id f db = record db { reservations = update (has_id id) f db.reservations }

abbrev pub is_entry : ℕ → Suffix → LedgerEntry → Bool
is_entry id suffix e = e.reservation_id == id && suffix_code e.suffix == suffix_code suffix

-- INSERT INTO usage_ledger … ON CONFLICT(idempotency_key) DO NOTHING.
unfoldable pub ledger : Reservation → UsageEventType → ℕ → Suffix → Db → Db
ledger r event_type amount suffix db =
    if any (is_entry r.id suffix) db.ledger then db else record db {
      ledger =
          db.ledger
          ++ (record {
            subscription_id = r.subscription_id;
            metric = r.metric;
            event_type = event_type;
            amount = amount;
            reservation_id = r.id;
            reference_type = r.reference_type;
            reference_id = r.reference_id;
            suffix = suffix;
          })
            ∷ [];
    }

-- AuditService.record
unfoldable pub record_audit : Option ℕ → AuditAction → ℕ → Db → Db
record_audit actor action id db = record db {
  audits = db.audits ++ (record { actor_id = actor; action = action; entity_id = id }) ∷ [];
}
