-- ===== src/Usage/Balance/Reserve.antt =====
-- `reserve` and `consume` keep the invariant, and never take a counter past its limit.
use ai_tgs.Usage.Reserve.{
  exceeds, reserve_new, active_row, consume_new, settled_row, reserve, JsNumber, safe_positive,
  consume,
}
use ai_tgs.Usage.Store.{
  with_counter, is_counter, is_counter_of, insert_reservation, add_reserved, record_audit, add_used,
  ensure_counter, UsageAction, is_reservation_for,
}
use ai_tgs.Common.{
  Bool-cases, arith, find, inl, inr, none, refl, ℕ, ◌<◌, ◌≡◌, ◌+◌, some, true, ◌≤◌, false,
  find-key_of_find, Ensures, throw_if, ◌>>=◌, find-passes, Option-cases, or_throw, leb, gets, pure,
}
use ai_tgs.Usage.Rows.{
  Db, UsageMetric, ResolvedEntitlement, Counter, Reservation, same_metric, ReferenceType,
  UsageEventType, Suffix, AuditAction, type_error,
}
use ai_tgs.Usage.Balance.{
  IsQuota, ledger, IsQuota-SameQuota, SameQuota-trans, ledger-SameQuota, record_audit-SameQuota,
}
use ai_tgs.Usage.Balance.Charge.{charge, charged-IsQuota, with_counter-IsQuota, safe_positive-pos}

-- A request for the counters under view carries the limit under view.
abbrev pub Carries : ℕ → UsageMetric → ℕ → ResolvedEntitlement → Type 0
Carries subscription metric limit ent =
    ent.subscription_id ≡ subscription
    → same_metric ent.metric metric ≡ true
    → ent.limit ≡ some limit

-- A counter of the request, to which the limit test was applied, has room for the amount.
has_room :
    (subscription : ℕ) (metric : UsageMetric) (limit : ℕ) (ent : ResolvedEntitlement) (c : Counter)
    (n : ℕ)
    → Carries subscription metric limit ent
    → is_counter_of ent c ≡ true
    → exceeds ent.limit c n ≡ false
    → c.subscription_id ≡ subscription
    → same_metric c.metric metric ≡ true
    → c.used + c.reserved + n ≤ limit
unfolding exceeds
has_room subscription metric limit ent c n carries of fits s m =
    let same_sub : ent.subscription_id ≡ subscription = ground arith in
    let same_met : same_metric ent.metric metric ≡ true = ground arith in
    let lim = carries same_sub same_met in
    let test : exceeds (some limit) c n ≡ false = rw lim at fits in ground arith

module _ {subscription : ℕ} {metric : UsageMetric} {limit : ℕ} (now : ℕ) where
  module _ (ent : ResolvedEntitlement) (n : ℕ) (type : ReferenceType) (reference_id actor : ℕ)
      (c : Counter) (db : Db) (positive : 0 < n) (carries : Carries subscription metric limit ent)
      (h : IsQuota subscription metric limit db)
      (found : find (is_counter_of ent) db.counters ≡ some c) where
    found_id : find (is_counter c.id) db.counters ≡ some c
    found_id =
        find-key_of_find (λ y. y.id) (is_counter_of ent) db.counters c h.balanced.unique_counters
          found

    reserve_new-IsQuota :
        (ttl : ℕ)
        → Ensures
            (λ _ db'. IsQuota subscription metric limit db')
            (reserve_new now ent n type reference_id actor ttl c db)
    unfolding reserve_new insert_reservation add_reserved
    reserve_new-IsQuota ttl = elim (Bool-cases (exceeds ent.limit c n)) [
      | inl over ↦ rw (over, throw_if, ◌>>=◌) tt
      | inr fits ↦
          let x = active_row now ent c n type reference_id ttl db.next_id in
          let f : Counter → Counter = λ y. record y { reserved = y.reserved + n } in
          let room =
            has_room subscription metric limit ent c n carries
              (find-passes (is_counter_of ent) db.counters c found) fits in
          let kept =
            charged-IsQuota f n 0 x c db (λ y. refl) (λ y. refl) (λ y. refl) (λ y. refl)
              (λ y. omega arith) refl refl (ground arith) (ground arith)
              (positive, (omega arith, omega arith)) h found_id (λ s m. omega (arith, room s m)) in
          let d = charge f x c db in
          let l = ledger x UsageEventType.reserve n Suffix.reserve d in
          rw (fits, throw_if, ◌>>=◌)
            (IsQuota-SameQuota d (record_audit (some actor) AuditAction.usage_reserve x.id l)
              (SameQuota-trans d l (record_audit (some actor) AuditAction.usage_reserve x.id l)
                (ledger-SameQuota x UsageEventType.reserve n Suffix.reserve d)
                (record_audit-SameQuota (some actor) AuditAction.usage_reserve x.id l))
              kept)
    ]

    consume_new-IsQuota :
        Ensures
          (λ _ db'. IsQuota subscription metric limit db')
          (consume_new now ent n type reference_id actor c db)
    unfolding consume_new insert_reservation add_used
    consume_new-IsQuota = elim (Bool-cases (exceeds ent.limit c n)) [
      | inl over ↦ rw (over, throw_if, ◌>>=◌) tt
      | inr fits ↦
          let x = settled_row now ent c n type reference_id db.next_id in
          let f : Counter → Counter = λ y. record y { used = y.used + n } in
          let room =
            has_room subscription metric limit ent c n carries
              (find-passes (is_counter_of ent) db.counters c found) fits in
          let kept =
            charged-IsQuota f 0 n x c db (λ y. refl) (λ y. refl) (λ y. refl) (λ y. omega arith)
              (λ y. refl) refl refl (ground arith) (ground arith) (positive, omega arith) h found_id
              (λ s m. omega (arith, room s m)) in
          let d = charge f x c db in
          let l = ledger x UsageEventType.settle n Suffix.settle d in
          rw (fits, throw_if, ◌>>=◌)
            (IsQuota-SameQuota d (record_audit (some actor) AuditAction.usage_settle x.id l)
              (SameQuota-trans d l (record_audit (some actor) AuditAction.usage_settle x.id l)
                (ledger-SameQuota x UsageEventType.settle n Suffix.settle d)
                (record_audit-SameQuota (some actor) AuditAction.usage_settle x.id l))
              kept)
    ]

  -- What follows the test of the amount and the insertion of the counter, in both methods: `go_on`
  -- is the part that writes a new row.
  known :
      (ent : ResolvedEntitlement) (type : ReferenceType) (reference_id : ℕ) (db : Db)
      (go_on : Counter → UsageAction Reservation)
      → IsQuota subscription metric limit db
      → ((c : Counter)
          → find (is_counter_of ent) db.counters ≡ some c
          → Ensures (λ _ db'. IsQuota subscription metric limit db') (go_on c db))
      → Ensures
          (λ _ db'. IsQuota subscription metric limit db')
          ((do
            existing ←
                gets (λ d. find (is_reservation_for type reference_id ent.metric) d.reservations)
            elim existing [
              | some r ↦ pure r
              | none ↦ do
                counter ← or_throw (← gets (λ d. find (is_counter_of ent) d.counters)) type_error
                go_on counter
            ])
            db)
  known ent type reference_id db go_on h k =
      elim (Option-cases (find (is_reservation_for type reference_id ent.metric) db.reservations)) [
        | inr (r, old) ↦ rw (old, ◌>>=◌) h
        | inl new ↦
            rw (new, ◌>>=◌)
              elim (Option-cases (find (is_counter_of ent) db.counters)) [
                | inl gone ↦ rw (gone, or_throw, ◌>>=◌) tt
                | inr (c, there) ↦ rw (there, or_throw, ◌>>=◌) (k c there)
              ]
      ]

  pub reserve-IsQuota :
      (ent : ResolvedEntitlement) (amount : JsNumber) (type : ReferenceType)
      (reference_id actor ttl : ℕ) (db : Db)
      → Carries subscription metric limit ent
      → IsQuota subscription metric limit db
      → Ensures
          (λ _ db'. IsQuota subscription metric limit db')
          (reserve now ent amount type reference_id actor ttl db)
  unfolding reserve ensure_counter
  reserve-IsQuota ent amount type reference_id actor ttl db carries h =
      elim (Option-cases (safe_positive amount)) [
        | inl bad ↦ rw (bad, or_throw, ◌>>=◌) tt
        | inr (n, fine) ↦
            rw (fine, or_throw, ◌>>=◌)
              elim (Bool-cases (leb ent.period_end ent.period_start)) [
                | inl bad ↦ rw (bad, throw_if, ◌>>=◌) tt
                | inr fine' ↦
                    let d = with_counter ent db in
                    let h' = with_counter-IsQuota ent db h in
                    rw (fine', throw_if, ◌>>=◌)
                      (known ent type reference_id d
                        (reserve_new now ent n type reference_id actor ttl) h'
                        (λ c there.
                          reserve_new-IsQuota ent n type reference_id actor c d
                            (safe_positive-pos amount n fine) carries h' there ttl))
              ]
      ]

  pub consume-IsQuota :
      (ent : ResolvedEntitlement) (amount : JsNumber) (type : ReferenceType)
      (reference_id actor : ℕ) (db : Db)
      → Carries subscription metric limit ent
      → IsQuota subscription metric limit db
      → Ensures
          (λ _ db'. IsQuota subscription metric limit db')
          (consume now ent amount type reference_id actor db)
  unfolding consume ensure_counter
  consume-IsQuota ent amount type reference_id actor db carries h =
      elim (Option-cases (safe_positive amount)) [
        | inl bad ↦ rw (bad, or_throw, ◌>>=◌) tt
        | inr (n, fine) ↦
            rw (fine, or_throw, ◌>>=◌)
              elim (Bool-cases (leb ent.period_end ent.period_start)) [
                | inl bad ↦ rw (bad, throw_if, ◌>>=◌) tt
                | inr fine' ↦
                    let d = with_counter ent db in
                    let h' = with_counter-IsQuota ent db h in
                    rw (fine', throw_if, ◌>>=◌)
                      (known ent type reference_id d (consume_new now ent n type reference_id actor)
                        h'
                        (λ c there.
                          consume_new-IsQuota ent n type reference_id actor c d
                            (safe_positive-pos amount n fine) carries h' there))
              ]
      ]
