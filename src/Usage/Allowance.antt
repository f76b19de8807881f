-- ===== src/Usage/Allowance.antt =====
-- When a charge of one unit succeeds.
use ai_tgs.Common.{
  ==_refl, Option, Option-cases, Succeeds, Succeeds-mono, [], any-of_find, any-of_none, arith,
  false, find, find-append, find-update_by, inl, inr, leb, none, or_throw, refl, some, subst, suc,
  sym, throw_if, true, ℕ, ◌<◌, ◌≡◌, ◌+◌, ◌∷◌, ◌>>=◌,
}
use ai_tgs.Usage.Rows.{
  Db, Counter, ResolvedEntitlement, UsageMetric, same_metric, metric_code, ReferenceType,
  UsageEventType, Suffix, AuditAction,
}
use ai_tgs.Usage.Store.{
  is_counter_of, is_reservation_for, new_counter, with_counter, ensure_counter, insert_reservation,
  add_used, record_audit, ledger,
}
use ai_tgs.Usage.Reserve.{JsNumber, exceeds, safe_positive, settled_row, consume_new, consume}
use ai_tgs.Usage.Balance.{SameQuota-trans, ledger-SameQuota, record_audit-SameQuota}
use ai_tgs.Usage.Balance.Charge.{charge}

-- What a counter, if there is one, has used and reserved.
abbrev pub load : Option Counter → ℕ
load none = 0
load (some c) = c.used + c.reserved

abbrev pub load_of : ResolvedEntitlement → Db → ℕ
load_of ent db = load (find (is_counter_of ent) db.counters)

abbrev pub HasRoom : Option ℕ → ℕ → Type 0
HasRoom none n = Unit
HasRoom (some limit) n = n < limit

not_exceeded :
    (limit : Option ℕ) (c : Counter)
    → HasRoom limit (c.used + c.reserved)
    → exceeds limit c 1 ≡ false
unfolding exceeds
not_exceeded none c h = refl
not_exceeded (some limit) c h = ground (arith, h)

same_metric_refl : (m : UsageMetric) → same_metric m m ≡ true
same_metric_refl m = ==_refl (metric_code m)

new_counter-mine :
    (ent : ResolvedEntitlement) (id : ℕ) → is_counter_of ent (new_counter ent id) ≡ true
new_counter-mine ent id = ground (
  arith,
  same_metric_refl ent.metric,
  ==_refl ent.subscription_id,
  ==_refl ent.period_start,
  ==_refl ent.period_end,
)

-- The counter that `ensure_counter` leaves, with the load that the old one had.
ensured :
    (ent : ResolvedEntitlement) (db : Db)
    → (c : Counter) × ((find (is_counter_of ent) (with_counter ent db).counters ≡ some c)
        × ((c.used + c.reserved ≡ load_of ent db)
            × ((with_counter ent db).reservations ≡ db.reservations)))
unfolding with_counter
ensured ent db = elim (Option-cases (find (is_counter_of ent) db.counters)) [
  | inl gone ↦
      let missing = any-of_none (is_counter_of ent) db.counters gone in
      let n = new_counter ent db.next_id in
      rw (missing, gone)
        (
          n,
          (
            find-append (is_counter_of ent) db.counters (n ∷ []) (some n) gone
                (rw (new_counter-mine ent db.next_id) refl),
            (refl, refl),
          ),
        )
  | inr (c, there) ↦
      let present = any-of_find (is_counter_of ent) db.counters c there in
      rw (present, there) (c, (refl, (refl, refl)))
]

module _ (now : ℕ) where
  consume_new-charges :
      (ent : ResolvedEntitlement) (type : ReferenceType) (reference_id actor : ℕ) (c : Counter)
      (db : Db)
      → find (is_counter_of ent) db.counters ≡ some c
      → exceeds ent.limit c 1 ≡ false
      → Succeeds
          (λ r db'. load_of ent db' ≡ suc (c.used + c.reserved))
          (consume_new now ent 1 type reference_id actor c db)
  unfolding consume_new insert_reservation add_used
  consume_new-charges ent type reference_id actor c db there fits =
      let x = settled_row now ent c 1 type reference_id db.next_id in
      let f : Counter → Counter = λ y. record y { used = y.used + 1 } in
      let d = charge f x c db in
      let l = ledger x UsageEventType.settle 1 Suffix.settle d in
      let same =
        SameQuota-trans d l (record_audit (some actor) AuditAction.usage_settle x.id l)
          (ledger-SameQuota x UsageEventType.settle 1 Suffix.settle d)
          (record_audit-SameQuota (some actor) AuditAction.usage_settle x.id l) in
      let found =
        find-update_by (λ y. y.id) (is_counter_of ent) f db.counters c (λ y. refl) there in
      rw (fits, throw_if, ◌>>=◌) (rw (same.0, found) (omega arith))

  -- A charge of one unit that was not made before succeeds where the entitlement's period is not
  -- empty and its limit, if any, leaves room for one more, and it raises the load of the
  -- entitlement's counter by one.
  pub consume-charges :
      (ent : ResolvedEntitlement) (type : ReferenceType) (reference_id actor : ℕ) (db : Db)
      → ent.period_start < ent.period_end
      → find (is_reservation_for type reference_id ent.metric) db.reservations ≡ none
      → HasRoom ent.limit (load_of ent db)
      → Succeeds
          (λ r db'. load_of ent db' ≡ suc (load_of ent db))
          (consume now ent (JsNumber.integer 1) type reference_id actor db)
  unfolding consume safe_positive ensure_counter
  consume-charges ent type reference_id actor db period new room =
      let (c, (there, (same_load, same_rows))) = ensured ent db in
      let valid : leb ent.period_end ent.period_start ≡ false = ground (arith, period) in
      let new' : find (is_reservation_for type reference_id ent.metric)
            (with_counter ent db).reservations
          ≡ none =
        rw same_rows new in
      let fits = not_exceeded ent.limit c (subst (HasRoom ent.limit) (sym same_load) room) in
      rw (valid, throw_if, ◌>>=◌)
        (rw (new', ◌>>=◌)
          (rw (there, or_throw, ◌>>=◌)
            (Succeeds-mono (λ r db'. load_of ent db' ≡ suc (c.used + c.reserved))
              (λ r db'. load_of ent db' ≡ suc (load_of ent db))
              (λ r db' h. omega (arith, h, same_load))
              (consume_new now ent 1 type reference_id actor c (with_counter ent db))
              (consume_new-charges ent type reference_id actor c (with_counter ent db) there
                fits))))
