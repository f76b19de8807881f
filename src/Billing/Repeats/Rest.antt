-- ===== src/Billing/Repeats/Rest.antt =====
-- The processing of an event, a reconciliation and a checkout that come twice.
use ai_tgs.Common.{
  any, ==_refl, Bool, Bool-cases, Ensures, Ensures-mono, Ensures-throw_if, List, Option,
  Option-cases, Text, arith, false, find, find-passes, find-update_hit, inl, inr, none, ok, refl,
  some, subst, sym, true, update, ℕ, ◌≡◌, ◌∙◌, ◌>>=◌,
}
use ai_tgs.Entitlement.{SubscriptionStatus}
use ai_tgs.Exam.Edit.{or_else}
use ai_tgs.Billing.Rows.{
  Ledger, BillingError, BillingEvent, WebhookEvent, RemoteSubscription, Subscription,
}
use ai_tgs.Billing.Store.{is_event, is_subscription, local_status, violates_check, collides}
use ai_tgs.Billing.Process.{process, started, set_ignored, set_processed, is_finished, is_current}
use ai_tgs.Billing.Reconcile.{
  Outcome, mapped_plan, reconciled, is_unchanged, reconcile_row, reconcile_one, same_status,
  same_bool, same_option, or_old,
}
use ai_tgs.Billing.Advances.{subscription_key}
use ai_tgs.Billing.Advances.Process.{Ensures-or_throw_error}
use ai_tgs.Billing.Repeats.{process_open-events}

abbrev event_key : BillingEvent → ℕ
event_key r = r.id

-- What a second reconciliation reports.
abbrev pub again : Outcome → Outcome
again Outcome.stale_provider_state = Outcome.stale_provider_state
again _ = Outcome.unchanged

module _ (upper : Text → Text) where
  abbrev HasRow : ℕ → List BillingEvent → Type 0
  HasRow id xs = (r : BillingEvent) × (find (is_event id) xs ≡ some r)

  abbrev HasFinished : ℕ → List BillingEvent → Type 0
  HasFinished id xs =
      (r : BillingEvent) × ((find (is_event id) xs ≡ some r) × (is_finished r.status ≡ true))

  update-HasRow :
      (id : ℕ) (f : BillingEvent → BillingEvent) (xs : List BillingEvent)
      → ((r : BillingEvent) → event_key (f r) ≡ event_key r)
      → (h : HasRow id xs) → find (is_event id) (update (is_event id) f xs) ≡ some (f h.0)
  update-HasRow id f xs same (r, row) =
      find-update_hit event_key id (is_event id) f xs r same row
        (find-passes (is_event id) xs r row)

  finished-again :
      (now token id : ℕ) (e : WebhookEvent) (t : Ledger)
      → HasFinished id t.events
      → process upper now token id e t ≡ ok (tt, t)
  unfolding process
  finished-again now token id e t (r, (row, done)) = rw (row, ◌>>=◌, done) refl

  -- Processing an event once more, after it was processed without an exception, changes no table,
  -- whatever the later payload.
  pub process-process :
      (now token id : ℕ) (e : WebhookEvent) (s : Ledger)
      → Ensures {E = BillingError}
          (λ _ t.
            (later token' : ℕ) (e' : WebhookEvent)
            → process upper later token' id e' t ≡ ok (tt, t))
          (process upper now token id e s)
  unfolding process
  process-process now token id e s = elim (Option-cases (find (is_event id) s.events)) [
    | inl gone ↦ rw (gone, ◌>>=◌) (λ later token' e'. rw (gone, ◌>>=◌) refl)
    | inr (row, found) ↦ elim (Bool-cases (is_finished row.status)) [
      | inl done ↦ rw (found, ◌>>=◌, done) (λ later token' e'. rw (found, ◌>>=◌, done) refl)
      | inr fresh ↦
          let passes : is_event id row ≡ true = find-passes (is_event id) s.events row found in
          let key : row.id ≡ id = ground (arith, passes) in
          rw (found, ◌>>=◌, fresh)
            (Ensures-mono (λ _ t. HasFinished id t.events)
              (λ _ t.
                (later token' : ℕ) (e' : WebhookEvent)
                → process upper later token' id e' t ≡ ok (tt, t))
              (λ _ t k later token' e'. finished-again later token' id e' t k) _
              (process_open-events upper (HasRow id) (HasFinished id) id
                (λ now' xs k. (_, (update-HasRow id (set_ignored now') xs (λ r. refl) k, refl)))
                (λ now' related xs k.
                  (_, (update-HasRow id (set_processed now' related) xs (λ r. refl) k, refl)))
                now token row e s key
                (rw key
                  (_, update-HasRow id (started now token) s.events (λ r. refl) (row, found)))))
    ]
  ]

  same_option_refl : (o : Option ℕ) → same_option o o ≡ true
  same_option_refl none = refl
  same_option_refl (some n) = ==_refl n

  or_old-again : (o x : Option ℕ) → same_option (or_old o (or_old o x)) (or_old o x) ≡ true
  or_old-again none x = same_option_refl x
  or_old-again (some a) x = ==_refl a

  same_bool-again :
      (o : Option Bool) (b : Bool) → same_bool (or_else o (or_else o b)) (or_else o b) ≡ true
  same_bool-again none true = refl
  same_bool-again none false = refl
  same_bool-again (some true) b = refl
  same_bool-again (some false) b = refl

  same_status_refl : (x : SubscriptionStatus) → same_status x x ≡ true
  same_status_refl SubscriptionStatus.trialing = refl
  same_status_refl SubscriptionStatus.active = refl
  same_status_refl SubscriptionStatus.past_due = refl
  same_status_refl SubscriptionStatus.cancelled = refl
  same_status_refl SubscriptionStatus.expired = refl

  is_unchanged-again :
      (plan : ℕ) (status : SubscriptionStatus) (remote : RemoteSubscription) (x : Subscription)
      → is_unchanged
          (reconciled plan status remote (reconciled plan status remote x))
          (reconciled plan status remote x)
        ≡ true
  is_unchanged-again plan status remote x =
      rw
        (
          ==_refl plan,
          same_status_refl status,
          ==_refl remote.current_period_start,
          ==_refl remote.current_period_end,
          same_bool-again remote.cancel_at_period_end x.cancel_at_period_end,
          or_old-again remote.cancelled_at x.cancelled_at,
          or_old-again remote.provider_customer_id x.provider_customer_id,
          ==_refl remote.provider_updated_at,
        )
        refl

  mapped_plan-again :
      (provider plan : ℕ) (status : SubscriptionStatus) (remote : RemoteSubscription)
      (x : Subscription) (s t : Ledger)
      → t.prices ≡ s.prices
      → mapped_plan provider remote x s ≡ ok plan
      → mapped_plan provider remote (reconciled plan status remote x) t ≡ ok plan
  mapped_plan-again provider plan status remote x s t same h =
      elim (Option-cases remote.provider_plan_id) [
        | inl unnamed ↦ rw unnamed refl
        | inr (id, named) ↦
            let kept : mapped_plan provider remote (reconciled plan status remote x) t
                ≡ mapped_plan provider remote x s =
              rw (named, same) refl in
            kept ∙ h
      ]

  is_current_self : (n : ℕ) → is_current n (some n) ≡ true
  is_current_self n = ground arith

  row-again :
      (provider plan id : ℕ) (status : SubscriptionStatus) (remote : RemoteSubscription)
      (x : Subscription) (s t : Ledger)
      → mapped_plan provider remote x s ≡ ok plan
      → local_status upper remote.status ≡ ok status
      → t.prices ≡ s.prices
      → find (is_subscription id) t.subscriptions ≡ some (reconciled plan status remote x)
      → reconcile_one upper provider id remote t ≡ ok (Outcome.unchanged, t)
  unfolding reconcile_one reconcile_row
  row-again provider plan id status remote x s t mapped valid same row =
      rw
        (
          row,
          ◌>>=◌,
          is_current_self remote.provider_updated_at,
          reconcile_row,
          mapped_plan-again provider plan status remote x s t same mapped,
          valid,
          is_unchanged-again plan status remote x,
        )
        refl

  unchanged-again :
      (provider plan id : ℕ) (status : SubscriptionStatus) (remote : RemoteSubscription)
      (x : Subscription) (s : Ledger)
      → mapped_plan provider remote x s ≡ ok plan
      → local_status upper remote.status ≡ ok status
      → find (is_subscription id) s.subscriptions ≡ some x
      → is_current remote.provider_updated_at x.provider_state_updated_at ≡ true
      → is_unchanged (reconciled plan status remote x) x ≡ true
      → reconcile_one upper provider id remote s ≡ ok (Outcome.unchanged, s)
  unfolding reconcile_one reconcile_row
  unchanged-again provider plan id status remote x s mapped valid row current same =
      rw (row, ◌>>=◌, current, reconcile_row, mapped, valid, same) refl

  reconcile_row-again :
      (provider : ℕ) (remote : RemoteSubscription) (x : Subscription) (s : Ledger)
      → find (is_subscription x.id) s.subscriptions ≡ some x
      → is_current remote.provider_updated_at x.provider_state_updated_at ≡ true
      → Ensures {E = BillingError}
          (λ o t. reconcile_one upper provider x.id remote t ≡ ok (again o, t))
          (reconcile_row upper provider remote x s)
  unfolding reconcile_row
  reconcile_row-again provider remote x s row newer =
      let Q : Outcome → Ledger → Type 0 =
        λ o t. reconcile_one upper provider x.id remote t ≡ ok (again o, t) in
      let passes : is_subscription x.id x ≡ true =
        find-passes (is_subscription x.id) s.subscriptions x row in
      Ensures-or_throw_error Q (mapped_plan provider remote x s) _ s (λ plan mapped.
        Ensures-or_throw_error Q (local_status upper remote.status) _ s (λ status valid.
          let y : Subscription = reconciled plan status remote x in
          elim (Bool-cases (is_unchanged y x)) [
            | inl same ↦
                rw same
                  (unchanged-again provider plan x.id status remote x s mapped valid row newer same)
            | inr other ↦ rw other (
                Ensures-throw_if Q (violates_check y) BillingError.check_violation _ s (λ _.
                  Ensures-throw_if Q (any (collides y) s.subscriptions)
                    BillingError.unique_violation _ s
                    (λ _.
                      let after : find (is_subscription x.id) (
                            update (is_subscription x.id) (reconciled plan status remote)
                              s.subscriptions)
                          ≡ some y =
                        (find-update_hit subscription_key x.id (is_subscription x.id)
                          (reconciled plan status remote) s.subscriptions x (λ r. refl) row
                          passes) in
                      row-again provider plan x.id status remote x s _ mapped valid refl after)))
          ]))

  -- Where a reconciliation of one subscription succeeds, a second one with the same state of the
  -- provider changes nothing: it reports no change, or the older state again.
  pub reconcile_one-reconcile_one :
      (provider id : ℕ) (remote : RemoteSubscription) (s : Ledger)
      → Ensures {E = BillingError}
          (λ o t. reconcile_one upper provider id remote t ≡ ok (again o, t))
          (reconcile_one upper provider id remote s)
  unfolding reconcile_one
  reconcile_one-reconcile_one provider id remote s =
      elim (Option-cases (find (is_subscription id) s.subscriptions)) [
        | inl gone ↦ rw (gone, ◌>>=◌) (rw (gone, ◌>>=◌) refl)
        | inr (x, found) ↦
            elim (Bool-cases (is_current remote.provider_updated_at x.provider_state_updated_at)) [
              | inr stale ↦ rw (found, ◌>>=◌, stale) (rw (found, ◌>>=◌, stale) refl)
              | inl newer ↦
                  rw (found, ◌>>=◌, newer)
                    (let passes : is_subscription id x ≡ true =
                        find-passes (is_subscription id) s.subscriptions x found in
                      let key : x.id ≡ id = ground (arith, passes) in
                      subst
                        (λ i.
                          Ensures {E = BillingError}
                            (λ o t. reconcile_one upper provider i remote t ≡ ok (again o, t))
                            (reconcile_row upper provider remote x s))
                        key
                        (reconcile_row-again provider remote x s
                          (subst (λ i. find (is_subscription i) s.subscriptions ≡ some x) (sym key)
                            found)
                          newer))
            ]
      ]
