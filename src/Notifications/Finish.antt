-- ===== src/Notifications/Finish.antt =====
-- That writing the outcome of an e-mail keeps the invariant.
use ai_tgs.Common.{
  All-find, All-map, All-update_by, All-zip, Bool-cases, IsUnique-update_by, List, [], any, arith,
  false, find-key_of_find, find-of_any, find-passes, inl, inr, not, refl, suc, true, update, ℕ, ◌≤◌,
  ◌<◌, ◌≡◌, ◌+◌, ◌==◌, ◌&&◌, ◌++◌, ◌∷◌,
}
use ai_tgs.Notifications.Delivery.{
  DeliveryStatus, NotificationDelivery, NoticeState, set_deliveries, row_id, written, has_token,
  Flight, Audit, write_audit, action_of, finish,
}
use ai_tgs.Notifications.Attempts.{
  is_retry, attempts_of, retries_of, count-append_one, IsGood, CountsOne, IsFlight, token_of,
  same_row,
}
use ai_tgs.Notifications.Steps.{IsSound, one_for}

abbrev attempt_audit : Flight → Audit
attempt_audit f = record { action = action_of f.delivery.status; entity_id = f.delivery.id }

action_of-attempt : (status : DeliveryStatus) → is_retry (action_of status) ≡ false
action_of-attempt DeliveryStatus.pending = refl
action_of-attempt DeliveryStatus.processing = refl
action_of-attempt DeliveryStatus.sent = refl
action_of-attempt DeliveryStatus.failed = refl
action_of-attempt DeliveryStatus.cancelled = refl

attempt_audits :
    (f : Flight) (i : ℕ) (audits : List Audit)
    → (attempts_of i (audits ++ attempt_audit f ∷ [])
        ≡ attempts_of i audits + one_for f.delivery.id i)
      × (retries_of i (audits ++ attempt_audit f ∷ []) ≡ retries_of i audits)
attempt_audits f i audits =
    let attempt = action_of-attempt f.delivery.status in
    (
      ground (
        arith,
        attempt,
        count-append_one (λ (a : Audit). a.entity_id == i && not (is_retry a.action)) audits
            (attempt_audit f),
      ),
      ground (
        arith,
        attempt,
        count-append_one (λ (a : Audit). a.entity_id == i && is_retry a.action) audits
            (attempt_audit f),
      ),
    )

-- The write of an outcome, where a row has the token: the audit tells of one e-mail more.
pub finish_hit-IsSound :
    (extra extra' : ℕ → ℕ) (f : Flight) (s : NoticeState)
    → IsSound extra s
    → IsFlight s.next_id s.deliveries f
    → any (has_token f.delivery.id f.token) s.deliveries ≡ true
    → ((i : ℕ) → extra i ≤ extra' i + one_for f.delivery.id i)
    → IsSound extra' (
        write_audit
          (action_of f.delivery.status)
          f.delivery.id
          (set_deliveries (update (has_token f.delivery.id f.token) (written f.delivery)) s))
finish_hit-IsSound extra extra' f s h flight hit less =
    let p = has_token f.delivery.id f.token in
    let g = written f.delivery in
    let audits = s.audits ++ attempt_audit f ∷ [] in
    let (y, found) = find-of_any p s.deliveries hit in
    let row = find-key_of_find row_id p s.deliveries y h.unique found in
    let held_y = find-passes p s.deliveries y found in
    let key = (token_of f.delivery.id f.token y held_y).0 in
    let below : y.id < s.next_id =
      All-find (λ (x : NotificationDelivery). x.id < s.next_id) p s.deliveries y h.fresh found in
    let alone = same_row (λ x. p x ≡ true) s.deliveries y h.unique row held_y in
    record {
      good =
          All-update_by
            (λ x. IsGood s.audits s.next_id x × (CountsOne f x × (x.id ≡ y.id → p x ≡ true)))
            (IsGood audits s.next_id) p g s.deliveries
            (λ x k e.
              let token = token_of f.delivery.id f.token x e in
              let working = (k.0.held f.token token.1).1 in
              let room : x.attempt_count < 3 = k.0.left (ground (arith, working)) in
              let one : suc x.attempt_count ≡ f.delivery.attempt_count = k.1.0 e in
              let counts = attempt_audits f x.id s.audits in
              let told : one_for f.delivery.id x.id ≤ 1 = ground arith in
              record {
                most = k.0.most;
                bounded = omega (arith, room, one);
                left = flight.left;
                held = λ t same. cc;
                audited = omega (arith, counts.0, counts.1, told, one, k.0.audited);
              })
            (λ x k e.
              let other : one_for f.delivery.id x.id ≡ 0 =
                elim (Bool-cases (f.delivery.id == x.id)) [
                  | inl same ↦
                      let mine : p x ≡ true = k.1.1 (ground (arith, same, key)) in
                      ground (arith, mine, e)
                  | inr away ↦ rw away refl
                ] in
              let counts = attempt_audits f x.id s.audits in
              record {
                most = k.0.most;
                bounded = k.0.bounded;
                left = k.0.left;
                held = k.0.held;
                audited = omega (arith, counts.0, counts.1, other, k.0.audited);
              })
            (All-zip (IsGood s.audits s.next_id) _ s.deliveries h.good (
              All-zip (CountsOne f) (λ x. x.id ≡ y.id → p x ≡ true) s.deliveries flight.counted
                alone));
      unique = IsUnique-update_by row_id p g (λ x. refl) s.deliveries h.unique;
      fresh =
          All-update_by (λ x. x.id < s.next_id) (λ x. x.id < s.next_id) p g s.deliveries
            (λ x k e. k) (λ x k e. k) h.fresh;
      unheard = λ i e.
          let none_for : one_for f.delivery.id i ≡ 0 = ground (arith, key, below, e) in
          omega (arith, (attempt_audits f i s.audits).0, none_for, h.unheard i e);
      flights =
          All-map (IsFlight s.next_id s.deliveries) (IsFlight s.next_id (update p g s.deliveries))
            s.mail
            (λ m k. record {
              old = k.old;
              left = k.left;
              counted =
                  All-update_by (CountsOne m) (CountsOne m) p g s.deliveries
                    (λ x c e taken.
                      let free = (token_of m.delivery.id m.token (g x) taken).1 in
                      let impossible : ⊥ = cc in absurd impossible)
                    (λ x c e. c) k.counted;
            })
            h.flights;
      accounted = λ i. omega (arith, (attempt_audits f i s.audits).0, h.accounted i, less i);
    }

pub weaker-IsSound :
    (extra extra' : ℕ → ℕ) (s : NoticeState)
    → ((i : ℕ) → extra i ≤ extra' i)
    → IsSound extra s
    → IsSound extra' s
weaker-IsSound extra extra' s more h = record {
  good = h.good;
  unique = h.unique;
  fresh = h.fresh;
  unheard = h.unheard;
  flights = h.flights;
  accounted = λ i. omega (arith, h.accounted i, more i);
}

pub finish-IsSound :
    (extra : ℕ → ℕ) (f : Flight) (s : NoticeState)
    → IsSound extra s
    → IsFlight s.next_id s.deliveries f
    → IsSound extra (finish f s)
unfolding finish
finish-IsSound extra f s h flight =
    elim (Bool-cases (any (has_token f.delivery.id f.token) s.deliveries)) [
      | inl hit ↦ rw hit (finish_hit-IsSound extra extra f s h flight hit (λ i. omega arith))
      | inr gone ↦ rw gone h
    ]
