-- ===== src/Notifications/Steps.antt =====
-- The invariant of the deliveries, and that adding, claiming and retrying them keep it.
use ai_tgs.Common.{
  All, All-append, All-map, All-update_by, All-zip, Bool-cases, IsUnique, IsUnique-append,
  IsUnique-update_by, List, Option, Text, [], arith, find, find-key_of_find, inl, inr, is_key, none,
  not, refl, select, some, suc, true, update, ℕ, ◌≤◌, ◌<◌, ◌≡◌, ◌+◌, ◌==◌, ◌&&◌, ◌++◌, ◌∷◌, ◌∙◌,
  if◌then◌else◌,
}
use ai_tgs.Notifications.Delivery.{
  is_failed, NotificationDelivery, NoticeState, new_delivery, add_delivery, is_due, sort_by_time,
  first, row_id, claimed, claim, reset, retry_row, AuditAction, Audit, claim_due,
}
use ai_tgs.Notifications.Attempts.{
  is_retry, attempts_of, retries_of, sends_of, count-append_one, IsGood, CountsOne, IsFlight,
  token_of, failed-not_processing, same_row, HasRoom, due-HasRoom, All-sort_by_time, All-first,
}

-- The invariant; `extra` bounds the e-mails for an id that no audit tells of.
pub record IsSound (extra : ℕ → ℕ) (s : NoticeState) : Type 0 where
  pub good : All (IsGood s.audits s.next_id) s.deliveries
  pub unique : IsUnique row_id s.deliveries
  pub fresh : All (λ (x : NotificationDelivery). x.id < s.next_id) s.deliveries
  pub unheard : (i : ℕ) → s.next_id ≤ i → attempts_of i s.audits ≡ 0
  pub flights : All (IsFlight s.next_id s.deliveries) s.mail
  pub accounted : (i : ℕ) → sends_of i s.mail ≤ attempts_of i s.audits + extra i

-- One for the id, to add to `extra`.
abbrev pub one_for : ℕ → ℕ → ℕ
one_for id i = if id == i then 1 else 0

abbrev claimed_state : ℕ → NotificationDelivery → NoticeState → NoticeState
claimed_state now d s = record s {
  deliveries = update (is_key row_id d.id) (claimed now s.next_id) s.deliveries;
  next_id = suc s.next_id;
}

later-IsGood :
    (audits : List Audit) (next : ℕ) (x : NotificationDelivery)
    → IsGood audits next x
    → IsGood audits (suc next) x
later-IsGood audits next x h = record {
  most = h.most;
  bounded = h.bounded;
  left = h.left;
  held = λ t e. (omega (arith, (h.held t e).0), (h.held t e).1);
  audited = h.audited;
}

claimed-IsSound :
    (extra : ℕ → ℕ) (now : ℕ) (d : NotificationDelivery) (s : NoticeState)
    → IsSound extra s
    → HasRoom s.deliveries d
    → IsSound extra (claimed_state now d s)
claimed-IsSound extra now d s h room =
    let p = is_key row_id d.id in
    let f = claimed now s.next_id in
    record {
      good =
          All-update_by (λ x. IsGood s.audits s.next_id x × (x.id ≡ d.id → x.attempt_count < 3))
            (IsGood s.audits (suc s.next_id)) p f s.deliveries
            (λ x k e. record {
              most = k.0.most;
              bounded = k.0.bounded;
              left = λ w. k.1 (ground (arith, e));
              held = λ t same. (let token : s.next_id ≡ t = cc in omega (arith, token), refl);
              audited = k.0.audited;
            })
            (λ x k e. later-IsGood s.audits s.next_id x k.0)
            (All-zip (IsGood s.audits s.next_id) (λ x. x.id ≡ d.id → x.attempt_count < 3)
              s.deliveries h.good room);
      unique = IsUnique-update_by row_id p f (λ x. refl) s.deliveries h.unique;
      fresh =
          All-update_by (λ x. x.id < s.next_id) (λ x. x.id < suc s.next_id) p f s.deliveries
            (λ x k e. omega (arith, k)) (λ x k e. omega (arith, k)) h.fresh;
      unheard = λ i e. h.unheard i (omega (arith, e));
      flights =
          All-map (IsFlight s.next_id s.deliveries)
            (IsFlight (suc s.next_id) (update p f s.deliveries)) s.mail
            (λ g k. record {
              old = omega (arith, k.old);
              left = k.left;
              counted =
                  All-update_by (CountsOne g) (CountsOne g) p f s.deliveries
                    (λ x c e hit.
                      let token = (token_of g.delivery.id g.token (f x) hit).1 in
                      let same : s.next_id ≡ g.token = cc in
                      let impossible : ⊥ = omega (arith, same, k.old) in absurd impossible)
                    (λ x c e. c) k.counted;
            })
            h.flights;
      accounted = h.accounted;
    }

claim-IsSound :
    (extra : ℕ → ℕ) (now : ℕ) (ds : List NotificationDelivery) (s : NoticeState)
    → IsSound extra s
    → All (HasRoom s.deliveries) ds
    → IsSound extra (claim now ds s).1
claim-IsSound extra now [] s h room = h
claim-IsSound extra now (d ∷ ds) s h room =
    claim-IsSound extra now ds (claimed_state now d s) (claimed-IsSound extra now d s h room.0) (
      All-map (HasRoom s.deliveries) (HasRoom (claimed_state now d s).deliveries) ds
        (λ r k.
          All-update_by (λ x. x.id ≡ r.id → x.attempt_count < 3)
            (λ x. x.id ≡ r.id → x.attempt_count < 3) (is_key row_id d.id) (claimed now s.next_id)
            s.deliveries (λ x g e. g) (λ x g e. g) k)
        room.1)

pub claim_due-IsSound :
    (extra : ℕ → ℕ) (now batch : ℕ) (s : NoticeState)
    → IsSound extra s
    → IsSound extra (claim_due now batch s).1
unfolding claim_due
claim_due-IsSound extra now batch s h =
    let due = select (is_due now) s.deliveries in
    claim-IsSound extra now (first batch (sort_by_time due)) s h (
      All-first (HasRoom s.deliveries) batch (sort_by_time due) (
        All-sort_by_time (HasRoom s.deliveries) due
          (due-HasRoom now s.next_id s.audits s.deliveries h.good h.unique)))

pub add_delivery-IsSound :
    (extra : ℕ → ℕ) (now notification : ℕ) (recipient : Text) (payload : Option Text)
    (s : NoticeState)
    → IsSound extra s
    → IsSound extra (add_delivery now notification recipient payload s)
unfolding add_delivery
add_delivery-IsSound extra now notification recipient payload s h =
    let d = new_delivery s.next_id now notification recipient payload in
    record {
      good =
          All-append (IsGood s.audits (suc s.next_id)) s.deliveries (d ∷ [])
            (All-map (IsGood s.audits s.next_id) (IsGood s.audits (suc s.next_id)) s.deliveries
              (λ x k. later-IsGood s.audits s.next_id x k) h.good)
            (
              record {
                most = refl;
                bounded = omega arith;
                left = λ w. omega arith;
                held = λ t e. cc;
                audited = omega (arith, h.unheard s.next_id (omega arith));
              },
              tt,
            );
      unique = IsUnique-append row_id s.deliveries d s.next_id h.unique h.fresh refl;
      fresh =
          All-append (λ x. x.id < suc s.next_id) s.deliveries (d ∷ [])
            (All-map (λ x. x.id < s.next_id) (λ x. x.id < suc s.next_id) s.deliveries
              (λ x k. omega (arith, k)) h.fresh)
            (omega arith, tt);
      unheard = λ i e. h.unheard i (omega (arith, e));
      flights =
          All-map (IsFlight s.next_id s.deliveries)
            (IsFlight (suc s.next_id) (s.deliveries ++ d ∷ [])) s.mail
            (λ g k. record {
              old = omega (arith, k.old);
              left = k.left;
              counted = All-append (CountsOne g) s.deliveries (d ∷ []) k.counted (
                (λ hit.
                    let token = (token_of g.delivery.id g.token d hit).1 in
                    let impossible : ⊥ = cc in absurd impossible),
                tt,
              );
            })
            h.flights;
      accounted = h.accounted;
    }

retried_audits :
    (id i : ℕ) (audits : List Audit)
    → (attempts_of i
          (audits ++ (record { action = AuditAction.delivery_retry; entity_id = id }) ∷ [])
        ≡ attempts_of i audits)
      × (retries_of i
            (audits ++ (record { action = AuditAction.delivery_retry; entity_id = id }) ∷ [])
          ≡ retries_of i audits + one_for id i)
retried_audits id i audits =
    let a : Audit = record { action = AuditAction.delivery_retry; entity_id = id } in
    (
      ground (
        arith,
        count-append_one (λ (a : Audit). a.entity_id == i && not (is_retry a.action)) audits a,
      ),
      ground
          (arith, count-append_one (λ (a : Audit). a.entity_id == i && is_retry a.action) audits a),
    )

pub retry_row-IsSound :
    (extra : ℕ → ℕ) (now : ℕ) (o : Option NotificationDelivery) (s : NoticeState) (id : ℕ)
    → find (is_key row_id id) s.deliveries ≡ o
    → IsSound extra s
    → IsSound extra (retry_row now s o).1
retry_row-IsSound extra now none s id found h = h
retry_row-IsSound extra now (some d) s id found h = elim (Bool-cases (is_failed d.status)) [
  | inr other ↦ rw other h
  | inl failed ↦
      let p = is_key row_id d.id in
      let f = reset now in
      let audits =
        s.audits ++ (record { action = AuditAction.delivery_retry; entity_id = d.id }) ∷ [] in
      let row = find-key_of_find row_id (is_key row_id id) s.deliveries d h.unique found in
      let all_failed =
        same_row (λ x. is_failed x.status ≡ true) s.deliveries d h.unique row failed in
      rw failed (record {
        good =
            All-update_by
              (λ x. IsGood s.audits s.next_id x × (x.id ≡ d.id → is_failed x.status ≡ true))
              (IsGood audits s.next_id) p f s.deliveries
              (λ x k e.
                let key : x.id ≡ d.id = ground (arith, e) in
                let resting = failed-not_processing x.status (k.1 key) in
                let one : one_for d.id x.id ≡ 1 = ground (arith, key) in
                let counts = retried_audits d.id x.id s.audits in
                record {
                  most = k.0.most;
                  bounded = omega arith;
                  left = λ w. omega arith;
                  held = λ t same.
                      let impossible : ⊥ = ground (arith, (k.0.held t same).1, resting) in
                      absurd impossible;
                  audited = omega (arith, counts.0, counts.1, one, k.0.audited, k.0.bounded);
                })
              (λ x k e.
                let counts = retried_audits d.id x.id s.audits in
                record {
                  most = k.0.most;
                  bounded = k.0.bounded;
                  left = k.0.left;
                  held = k.0.held;
                  audited = omega (arith, counts.0, counts.1, k.0.audited);
                })
              (All-zip (IsGood s.audits s.next_id) (λ x. x.id ≡ d.id → is_failed x.status ≡ true)
                s.deliveries h.good all_failed);
        unique = IsUnique-update_by row_id p f (λ x. refl) s.deliveries h.unique;
        fresh =
            All-update_by (λ x. x.id < s.next_id) (λ x. x.id < s.next_id) p f s.deliveries
              (λ x k e. k) (λ x k e. k) h.fresh;
        unheard = λ i e. (retried_audits d.id i s.audits).0 ∙ h.unheard i e;
        flights =
            All-map (IsFlight s.next_id s.deliveries) (IsFlight s.next_id (update p f s.deliveries))
              s.mail
              (λ g k. record {
                old = k.old;
                left = k.left;
                counted =
                    All-update_by
                      (λ x.
                        CountsOne g x
                        × (IsGood s.audits s.next_id x × (x.id ≡ d.id → is_failed x.status ≡ true)))
                      (CountsOne g) p f s.deliveries
                      (λ x c e hit.
                        let token = (token_of g.delivery.id g.token x hit).1 in
                        let resting = failed-not_processing x.status (c.1.1 (ground (arith, e))) in
                        let impossible : ⊥ =
                          ground (arith, (c.1.0.held g.token token).1, resting) in
                        absurd impossible)
                      (λ x c e. c.0)
                      (All-zip (CountsOne g) _ s.deliveries k.counted (
                        All-zip (IsGood s.audits s.next_id)
                          (λ x. x.id ≡ d.id → is_failed x.status ≡ true) s.deliveries h.good
                          all_failed));
              })
              h.flights;
        accounted = λ i. omega (arith, (retried_audits d.id i s.audits).0, h.accounted i);
      })
]
