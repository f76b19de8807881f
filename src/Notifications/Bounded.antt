-- ===== src/Notifications/Bounded.antt =====
-- The requests on deliveries and the workers' steps in any order.
use ai_tgs.Common.{
  All, All-map, Bool-cases, List, Option, Text, [], arith, find, inl, inr, is_key, refl, suc, true,
  ℕ, ◌≤◌, ◌<◌, ◌≡◌, ◌+◌, ◌-◌, ◌*◌, ◌==◌, ◌∷◌, if◌then◌else◌,
}
use ai_tgs.Notifications.Delivery.{
  EmailError, NotificationDelivery, NoticeState, add_delivery, process, retry, claim_due, begin,
  finish, Flight, deliver_all, row_id,
}
use ai_tgs.Notifications.Attempts.{is_waiting, IsGood, IsFlight, attempts_of, retries_of, sends_of}
use ai_tgs.Notifications.Steps.{
  IsSound, one_for, claim_due-IsSound, add_delivery-IsSound, retry_row-IsSound,
}
use ai_tgs.Notifications.Finish.{finish-IsSound}
use ai_tgs.Notifications.Workers.{begin-IsSound, deliver_all-IsSound}

-- `processed` is a worker that is not interrupted; the steps of one that is are `claimed`, `begun`
-- with an id and a token, and `finished` with the place of its e-mail in the mail. A worker that
-- dies has no further step.
pub data Request : Type 0 where
  added : ℕ → Text → Option Text → Request
  processed claimed finished retried : ℕ → Request
  begun : ℕ × ℕ → Request

abbrev pub finish_nth : ℕ → List Flight → NoticeState → NoticeState
finish_nth n [] s = s
finish_nth n (f ∷ fs) s = let rest = finish_nth (n - 1) fs s in if n == 0 then finish f s else rest

module _ (send : ℕ → NotificationDelivery → Option EmailError) where
  abbrev pub perform : ℕ → Request → NoticeState → NoticeState
  perform now (Request.added notification recipient payload) s =
      add_delivery now notification recipient payload s
  perform now (Request.processed batch) s = process send now batch s
  perform now (Request.claimed batch) s = (claim_due now batch s).1
  perform now (Request.begun c) s = begin send now c s
  perform now (Request.finished n) s = finish_nth n s.mail s
  perform now (Request.retried id) s = (retry now id s).1

  abbrev pub run : List (ℕ × Request) → NoticeState → NoticeState
  run [] s = s
  run (r ∷ rs) s = run rs (perform r.0 r.1 s)

-- The e-mails for an id that were handed over in a step of its own.
abbrev pub interruption : Request → ℕ → ℕ
interruption (Request.begun c) id = one_for c.0 id
interruption _ id = 0

abbrev pub interruptions : List (ℕ × Request) → ℕ → ℕ
interruptions [] id = 0
interruptions (r ∷ rs) id = interruption r.1 id + interruptions rs id

finish_nth-IsSound :
    (extra : ℕ → ℕ) (n : ℕ) (fs : List Flight) (s : NoticeState)
    → IsSound extra s
    → All (IsFlight s.next_id s.deliveries) fs
    → IsSound extra (finish_nth n fs s)
finish_nth-IsSound extra n [] s h k = h
finish_nth-IsSound extra n (f ∷ fs) s h k = elim (Bool-cases (n == 0)) [
  | inl here ↦ rw here (finish-IsSound extra f s h k.0)
  | inr later ↦ rw later (finish_nth-IsSound extra (n - 1) fs s h k.1)
]

module _ (send : ℕ → NotificationDelivery → Option EmailError) where
  same_extra : (extra : ℕ → ℕ) (s : NoticeState) → IsSound extra s → IsSound (λ i. extra i + 0) s
  same_extra extra s h = record {
    good = h.good;
    unique = h.unique;
    fresh = h.fresh;
    unheard = h.unheard;
    flights = h.flights;
    accounted = λ i. omega (arith, h.accounted i);
  }

  perform-IsSound :
      (extra : ℕ → ℕ) (now : ℕ) (r : Request) (s : NoticeState)
      → IsSound extra s
      → IsSound (λ i. extra i + interruption r i) (perform send now r s)
  unfolding process retry
  perform-IsSound extra now (Request.added notification recipient payload) s h =
      same_extra extra (add_delivery now notification recipient payload s)
        (add_delivery-IsSound extra now notification recipient payload s h)
  perform-IsSound extra now (Request.processed batch) s h =
      let claims = claim_due now batch s in
      same_extra extra (deliver_all send now claims.0 claims.1) (
        deliver_all-IsSound send extra now claims.0 claims.1
          (claim_due-IsSound extra now batch s h))
  perform-IsSound extra now (Request.claimed batch) s h =
      same_extra extra (claim_due now batch s).1 (claim_due-IsSound extra now batch s h)
  perform-IsSound extra now (Request.begun c) s h = begin-IsSound send extra now c s h
  perform-IsSound extra now (Request.finished n) s h =
      same_extra extra (finish_nth n s.mail s) (finish_nth-IsSound extra n s.mail s h h.flights)
  perform-IsSound extra now (Request.retried id) s h =
      same_extra extra (retry now id s).1
        (retry_row-IsSound extra now (find (is_key row_id id) s.deliveries) s id refl h)

  run-IsSound :
      (extra : ℕ → ℕ) (rs : List (ℕ × Request)) (s : NoticeState)
      → IsSound extra s
      → IsSound (λ i. extra i + interruptions rs i) (run send rs s)
  run-IsSound extra [] s h = same_extra extra s h
  run-IsSound extra (r ∷ rs) s h =
      let k =
        run-IsSound (λ i. extra i + interruption r.1 i) rs (perform send r.0 r.1 s)
          (perform-IsSound extra r.0 r.1 s h) in
      record {
        good = k.good;
        unique = k.unique;
        fresh = k.fresh;
        unheard = k.unheard;
        flights = k.flights;
        accounted = λ i. omega (arith, k.accounted i);
      }

-- At most three attempts at a row, an attempt left where it waits, and at most three audits of
-- attempts and three e-mails for it and for each of its retries, but for the e-mails of `broken`.
pub record IsBounded (s : NoticeState) (broken : ℕ → ℕ) (x : NotificationDelivery) : Type 0 where
  pub attempts : x.attempt_count ≤ 3
  pub left : is_waiting x.status ≡ true → x.attempt_count < 3
  pub audited : attempts_of x.id s.audits ≤ 3 * suc (retries_of x.id s.audits)
  pub sent : sends_of x.id s.mail ≤ 3 * suc (retries_of x.id s.audits) + broken x.id

-- Along every run from an empty table, whatever the provider answers and however the steps of the
-- workers interleave, a delivery has at most three attempts, and an attempt left while it waits for
-- one or is processed. The audits tell of at most three attempts at it and of three more for each
-- retry, and the provider was asked to send no more e-mails for it than that, and one for each time
-- that a step of its own was to send its e-mail, whose worker may have died before it wrote the
-- outcome or have been overtaken by a later claim.
pub run-IsBounded :
    (send : ℕ → NotificationDelivery → Option EmailError) (rs : List (ℕ × Request)) (next_id : ℕ)
    → let s = run send rs (record { deliveries = []; next_id = next_id; mail = []; audits = [] }) in
      All (IsBounded s (interruptions rs)) s.deliveries
run-IsBounded send rs next_id =
    let start : NoticeState = record {
      deliveries = [];
      next_id = next_id;
      mail = [];
      audits = [];
    } in
    let s = run send rs start in
    let h =
      run-IsSound send (λ i. 0) rs start
        (record {
          good = tt;
          unique = tt;
          fresh = tt;
          unheard = λ i e. refl;
          flights = tt;
          accounted = λ i. omega arith;
        }) in
    All-map (IsGood s.audits s.next_id) (IsBounded s (interruptions rs)) s.deliveries
      (λ x k. record {
        attempts = k.bounded;
        left = k.left;
        audited = omega (arith, k.audited, k.bounded);
        sent = omega (arith, k.audited, k.bounded, h.accounted x.id);
      })
      h.good
