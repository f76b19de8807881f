-- ===== src/Notifications/Workers.antt =====
-- That sending an e-mail, and a delivery as a whole, keep the invariant.
use ai_tgs.Common.{
  All-append, All-find, All-map, Bool, Bool-cases, List, Option, [], any, any-find, arith, find,
  find-key_of_find, find-passes, inl, inr, is_key, none, refl, some, subst, suc, sym, true, ℕ, ◌≡◌,
  ◌+◌, ◌==◌, ◌&&◌, ◌∷◌, ◌∙◌,
}
use ai_tgs.Notifications.Delivery.{
  is_processing, EmailError, NotificationDelivery, NoticeState, row_id, attempted, has_token,
  deliver_row, deliver, deliver_all, Flight, finish, flight_of, hand_over, claimed_row, begin_row,
  begin,
}
use ai_tgs.Notifications.Attempts.{
  count-append_one, IsGood, CountsOne, IsFlight, token_of, outcome-attempts, outcome-waiting,
  outcome-id, same_row,
}
use ai_tgs.Notifications.Steps.{IsSound, one_for}
use ai_tgs.Notifications.Finish.{finish_hit-IsSound, weaker-IsSound}

any-found :
    (p q : NotificationDelivery → Bool) (xs : List NotificationDelivery) (a : NotificationDelivery)
    → find q xs ≡ some a
    → p a ≡ true
    → any p xs ≡ true
any-found p q xs a found holds = elim (Bool-cases (any p xs)) [
  | inl hit ↦ hit
  | inr none_of ↦ let impossible = any-find p q xs a none_of found in cc
]

-- The row that a worker finds by its token.
abbrev IsHeld : NoticeState → ℕ → NotificationDelivery → Type 0
IsHeld s token d =
    (find (is_key row_id d.id) s.deliveries ≡ some d)
    × ((d.processing_token ≡ some token) × (is_processing d.status ≡ true))

claimed_row-IsHeld :
    (extra : ℕ → ℕ) (c : ℕ × ℕ) (s : NoticeState) (d : NotificationDelivery)
    → IsSound extra s
    → find (λ d. has_token c.0 c.1 d && is_processing d.status) s.deliveries ≡ some d
    → (d.id ≡ c.0) × IsHeld s c.1 d
claimed_row-IsHeld extra c s d h found =
    let p = λ (x : NotificationDelivery). has_token c.0 c.1 x && is_processing x.status in
    let passes = find-passes p s.deliveries d found in
    let held = token_of c.0 c.1 d (ground (arith, passes)) in
    (
      held.0,
      (find-key_of_find row_id p s.deliveries d h.unique found, (held.1, ground (arith, passes))),
    )

module _ (send : ℕ → NotificationDelivery → Option EmailError) where
  flight_of-IsFlight :
      (extra : ℕ → ℕ) (now token : ℕ) (d : NotificationDelivery) (s : NoticeState)
      → IsSound extra s
      → IsHeld s token d
      → IsFlight s.next_id s.deliveries (flight_of send now token d)
  flight_of-IsFlight extra now token d s h held =
      let good =
        All-find (IsGood s.audits s.next_id) (is_key row_id d.id) s.deliveries d h.good held.0 in
      let same = outcome-attempts now (attempted now d) (send now d) in
      let key = outcome-id now (attempted now d) (send now d) in
      record {
        old = (good.held token held.1.0).0;
        left = λ w.
            let more = outcome-waiting now (attempted now d) (send now d) w in
            omega (arith, more, same, good.most);
        counted =
            All-map
              (λ x.
                x.id ≡ d.id
                → suc x.attempt_count ≡ (flight_of send now token d).delivery.attempt_count)
              (CountsOne (flight_of send now token d)) s.deliveries
              (λ x k hit.
                k ((token_of (flight_of send now token d).delivery.id token x hit).0 ∙ key))
              (same_row
                (λ x. suc x.attempt_count ≡ (flight_of send now token d).delivery.attempt_count)
                s.deliveries d h.unique held.0 (sym same));
      }

  -- The e-mail is counted for the id until an audit tells of it.
  hand_over-IsSound :
      (extra : ℕ → ℕ) (now token : ℕ) (d : NotificationDelivery) (s : NoticeState)
      → IsSound extra s
      → IsHeld s token d
      → IsSound (λ i. extra i + one_for d.id i) (hand_over send now token d s)
  hand_over-IsSound extra now token d s h held =
      let f = flight_of send now token d in
      let key = outcome-id now (attempted now d) (send now d) in
      record {
        good = h.good;
        unique = h.unique;
        fresh = h.fresh;
        unheard = h.unheard;
        flights =
            All-append (IsFlight s.next_id s.deliveries) s.mail (f ∷ []) h.flights
              (flight_of-IsFlight extra now token d s h held, tt);
        accounted = λ i. ground (
          arith,
          key,
          count-append_one (λ (g : Flight). g.delivery.id == i) s.mail f,
          h.accounted i,
        );
      }

module _ (send : ℕ → NotificationDelivery → Option EmailError) where
  begin_row-IsSound :
      (extra : ℕ → ℕ) (now : ℕ) (c : ℕ × ℕ) (o : Option NotificationDelivery) (s : NoticeState)
      → find (λ d. has_token c.0 c.1 d && is_processing d.status) s.deliveries ≡ o
      → IsSound extra s
      → IsSound (λ i. extra i + one_for c.0 i) (begin_row send now c.1 o s)
  begin_row-IsSound extra now c none s found h =
      weaker-IsSound extra (λ i. extra i + one_for c.0 i) s (λ i. omega arith) h
  begin_row-IsSound extra now c (some d) s found h =
      let held = claimed_row-IsHeld extra c s d h found in
      subst (λ n. IsSound (λ i. extra i + one_for n i) (hand_over send now c.1 d s)) held.0
        (hand_over-IsSound send extra now c.1 d s h held.1)

  pub begin-IsSound :
      (extra : ℕ → ℕ) (now : ℕ) (c : ℕ × ℕ) (s : NoticeState)
      → IsSound extra s
      → IsSound (λ i. extra i + one_for c.0 i) (begin send now c s)
  unfolding begin
  begin-IsSound extra now c s h = begin_row-IsSound extra now c (claimed_row send c s) s refl h

  -- A worker that is not interrupted has its own row.
  deliver_row-IsSound :
      (extra : ℕ → ℕ) (now : ℕ) (c : ℕ × ℕ) (o : Option NotificationDelivery) (s : NoticeState)
      → find (λ d. has_token c.0 c.1 d && is_processing d.status) s.deliveries ≡ o
      → IsSound extra s
      → IsSound extra (deliver_row send now c.1 o s)
  unfolding finish
  deliver_row-IsSound extra now c none s found h = h
  deliver_row-IsSound extra now c (some d) s found h =
      let p = λ (x : NotificationDelivery). has_token c.0 c.1 x && is_processing x.status in
      let f = flight_of send now c.1 d in
      let held = claimed_row-IsHeld extra c s d h found in
      let key = outcome-id now (attempted now d) (send now d) in
      let passes = find-passes p s.deliveries d found in
      let own : has_token f.delivery.id f.token d ≡ true =
        subst (λ i. has_token i c.1 d ≡ true) (sym (key ∙ held.0)) (ground (arith, passes)) in
      let row : find (is_key row_id d.id) s.deliveries ≡ some d = held.1.0 in
      let hit : any (has_token f.delivery.id f.token) s.deliveries ≡ true =
        any-found (has_token f.delivery.id f.token) (is_key row_id d.id) s.deliveries d row own in
      rw hit (
        finish_hit-IsSound (λ i. extra i + one_for d.id i) extra f (hand_over send now c.1 d s)
          (hand_over-IsSound send extra now c.1 d s h held.1)
          (flight_of-IsFlight send extra now c.1 d s h held.1) hit (λ i. ground (arith, key)))

  pub deliver_all-IsSound :
      (extra : ℕ → ℕ) (now : ℕ) (cs : List (ℕ × ℕ)) (s : NoticeState)
      → IsSound extra s
      → IsSound extra (deliver_all send now cs s)
  unfolding deliver
  deliver_all-IsSound extra now [] s h = h
  deliver_all-IsSound extra now (c ∷ cs) s h =
      let o = claimed_row send c s in
      deliver_all-IsSound extra now cs (deliver_row send now c.1 o s)
        (deliver_row-IsSound extra now c o s refl h)
