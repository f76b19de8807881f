-- ===== src/Billing/Advances/Process.antt =====
-- The processing of events and the reconciliation of one row, which write subscriptions.
use ai_tgs.Common.{
  any, All-append, All-map, Bool-cases, Ensures, Ensures->>=, Ensures-mono, Ensures-throw_if,
  IsUnique, IsUnique-append, Option, Option-cases, Result, Text, [], arith, err, find,
  find-append_some, find-key_of_find, inl, inr, modify, none, ok, pure, refl, some, suc, true, ℕ,
  ◌<◌, ◌≡◌, ◌++◌, ◌∷◌, ◌>>=◌, ◌>>◌,
}
use ai_tgs.Entitlement.{SubscriptionStatus}
use ai_tgs.Billing.Rows.{
  Ledger, Subscription, BillingError, BillingAction, BillingEvent, WebhookEvent, RemoteSubscription,
  BillingCheckoutSession,
}
use ai_tgs.Billing.Store.{
  is_event, is_subscription, is_remote, set_subscription, find_optional, violates_check, collides,
  local_status, set_event, is_session,
}
use ai_tgs.Billing.Process.{
  is_current, or_throw_error, change, insert_subscription, next_plan, next_status, updated,
  apply_event, save_transaction, process_open, process, Target, target_of, amount_of, is_finished,
  is_unknown, complete, is_completion, set_processed, started,
}
use ai_tgs.Billing.Reconcile.{mapped_plan, reconciled, is_unchanged, reconcile_row, reconcile_one}
use ai_tgs.Billing.Advances.{
  subscription_key, IsTidy, Advances, IsLaterTable-refl, set_subscription-Advances, Advances-trans,
}

pub Ensures-or_throw_error :
    {A B : Type 0} (Q : B → Ledger → Type 0) (r : Result BillingError A) (f : A → BillingAction B)
    (s : Ledger)
    → ((a : A) → r ≡ ok a → Ensures {E = BillingError} Q (f a s))
    → Ensures {E = BillingError} Q ((or_throw_error r >>= f) s)
Ensures-or_throw_error Q (ok a) f s h = h a refl
Ensures-or_throw_error Q (err e) f s h = tt

module _ (upper : Text → Text) where
  change-Advances :
      (provider : ℕ) (e : WebhookEvent) (x : Subscription)
      (save : (Subscription → Subscription) → Ledger → Ledger) (s : Ledger)
      → ((plan : ℕ) (status : SubscriptionStatus) → Advances s (save (updated e plan status) s))
      → Ensures {E = BillingError} (λ _. Advances s) (change upper provider e x save s)
  unfolding change
  change-Advances provider e x save s h =
      Ensures-or_throw_error (λ _. Advances s) (next_status upper e x.status) _ s
        (λ status _.
          Ensures-throw_if (λ _. Advances s)
            (violates_check (updated e (next_plan provider e x s) status x))
            BillingError.check_violation _ s
            (λ _.
              Ensures-throw_if (λ _. Advances s)
                (any (collides (updated e (next_plan provider e x s) status x)) s.subscriptions)
                BillingError.unique_violation _ s (λ _. h (next_plan provider e x s) status)))

  -- A stored target is the row of its id, a new one has the next id.
  abbrev IsTargetOf : Ledger → Target → Type 0
  IsTargetOf s Target.nothing = Unit
  IsTargetOf s (Target.stored x) = find (is_subscription x.id) s.subscriptions ≡ some x
  IsTargetOf s (Target.created x) = x.id ≡ s.next_id

  apply_event-Advances :
      (provider : ℕ) (e : WebhookEvent) (target : Target) (related : Option ℕ) (s : Ledger)
      → IsTargetOf s target
      → IsTidy s
      → Ensures {E = BillingError} (λ _. Advances s) (apply_event upper provider e target related s)
  unfolding apply_event
  apply_event-Advances provider e Target.nothing related s row h =
      (h, IsLaterTable-refl s.subscriptions)
  apply_event-Advances provider e (Target.stored x) related s row h =
      elim (Bool-cases (is_current e.occurred_at x.provider_state_updated_at)) [
        | inl newer ↦ rw newer (
            Ensures->>= (λ _. Advances s) (λ _. Advances s)
              (change upper provider e x (set_subscription x.id)) (λ _. pure (some x.id)) s
              (change-Advances provider e x (set_subscription x.id) s (λ plan status.
                set_subscription-Advances x (updated e plan status) e.occurred_at s
                  (λ r. (refl, refl)) row newer h))
              (λ _ _ k. k))
        | inr stale ↦ rw stale (h, IsLaterTable-refl s.subscriptions)
      ]
  apply_event-Advances provider e (Target.created x) related s row h =
      Ensures->>= (λ _. Advances s) (λ _. Advances s)
        (change upper provider e x (insert_subscription x)) (λ _. pure (some x.id)) s
        (change-Advances provider e x (insert_subscription x) s
          (λ plan status. inserted (updated e plan status x) row))
        (λ _ _ k. k)
    where
      inserted :
          (y : Subscription)
          → y.id ≡ s.next_id
          → Advances s
              (record s { subscriptions = s.subscriptions ++ y ∷ []; next_id = suc s.next_id })
      inserted y key = (
        (
          IsUnique-append subscription_key s.subscriptions y s.next_id h.0 h.1 key,
          All-append (λ (r : Subscription). r.id < suc s.next_id) s.subscriptions (y ∷ [])
              (All-map (λ (r : Subscription). r.id < s.next_id)
                (λ (r : Subscription). r.id < suc s.next_id) s.subscriptions
                (λ r k. omega (arith, k)) h.1)
              (omega (arith, key), tt),
        ),
        (λ k a e.
            (a, (find-append_some (is_subscription k) s.subscriptions (y ∷ []) a e, inl refl))),
      )

  save_transaction-Advances :
      (provider : ℕ) (e : WebhookEvent) (target : Target) (s t : Ledger)
      → Advances s t
      → Ensures {E = BillingError} (λ _. Advances s) (save_transaction upper provider e target t)
  unfolding save_transaction
  save_transaction-Advances provider e target s t h = elim (Option-cases e.transaction) [
    | inl without ↦ rw without h
    | inr (x, with_one) ↦
        rw with_one
          (Ensures-or_throw_error (λ _. Advances s) (amount_of x.amount_minor) _ t (λ _ _. h))
  ]

  target_of-IsTargetOf :
      (now provider : ℕ) (e : WebhookEvent) (checkout : Option BillingCheckoutSession)
      (found : Option Subscription) (s : Ledger)
      → ((x : Subscription) → found ≡ some x → find (is_subscription x.id) s.subscriptions ≡ some x)
      → IsTargetOf s (target_of s.next_id now provider e checkout found)
  target_of-IsTargetOf now provider e checkout (some x) s h = h x refl
  target_of-IsTargetOf now provider e none none s h = tt
  target_of-IsTargetOf now provider e (some c) none s h = elim (Option-cases e.subscription_id) [
    | inl a ↦ rw a tt
    | inr (remote, a) ↦ elim (Option-cases e.period_start) [
      | inl b ↦ rw (a, b) tt
      | inr (start, b) ↦ elim (Option-cases e.period_end) [
        | inl d ↦ rw (a, b, d) tt
        | inr (finish, d) ↦ rw (a, b, d) refl
      ]
    ]
  ]

  remote_row :
      (provider : ℕ) (id : Option ℕ) (x : Subscription) (s : Ledger)
      → IsUnique subscription_key s.subscriptions
      → find_optional (is_remote provider) id s.subscriptions ≡ some x
      → find (is_subscription x.id) s.subscriptions ≡ some x
  remote_row provider none x s u h = cc
  remote_row provider (some id) x s u h =
      find-key_of_find subscription_key (is_remote provider id) s.subscriptions x u h

  complete-Advances :
      (e : WebhookEvent) (checkout : Option BillingCheckoutSession) (s : Ledger)
      → IsTidy s
      → Advances s (complete e checkout s)
  complete-Advances e none s h = (h, IsLaterTable-refl s.subscriptions)
  complete-Advances e (some c) s h = elim (Bool-cases (is_completion e.type)) [
    | inl done ↦ rw done (h, IsLaterTable-refl s.subscriptions)
    | inr other ↦ rw other (h, IsLaterTable-refl s.subscriptions)
  ]

  -- What follows once the tables are read.
  applied-Advances :
      (now : ℕ) (row : BillingEvent) (e : WebhookEvent) (target : Target) (s : Ledger)
      → IsTargetOf s target
      → IsTidy s
      → Ensures {E = BillingError}
          (λ _. Advances s)
          ((apply_event upper row.provider e target row.related_subscription_id >>= λ related.
              save_transaction upper row.provider e target
              >> modify (set_event row.id (set_processed now related)))
            s)
  applied-Advances now row e target s at h =
      Ensures->>= (λ _. Advances s) (λ _. Advances s)
        (apply_event upper row.provider e target row.related_subscription_id) _ s
        (apply_event-Advances row.provider e target row.related_subscription_id s at h)
        (λ related t k.
          Ensures->>= (λ _. Advances s) (λ _. Advances s)
            (save_transaction upper row.provider e target) _ t
            (save_transaction-Advances row.provider e target s t k) (λ _ _ done. done))

  process_open-Advances :
      (now token : ℕ) (row : BillingEvent) (e : WebhookEvent) (s : Ledger)
      → IsTidy s
      → Ensures {E = BillingError} (λ _. Advances s) (process_open upper now token row e s)
  unfolding process_open
  process_open-Advances now token row e s h = elim (Bool-cases (is_unknown e.type)) [
    | inl skipped ↦ rw skipped (h, IsLaterTable-refl s.subscriptions)
    | inr known ↦
        let s' : Ledger = set_event row.id (started now token) s in
        let checkout = find_optional is_session e.checkout_session_id s'.checkouts in
        let t : Ledger = complete e checkout s' in
        let first : Advances s t = complete-Advances e checkout s' h in
        let found = find_optional (is_remote row.provider) e.subscription_id t.subscriptions in
        let at =
          target_of-IsTargetOf now row.provider e checkout found t
            (λ x is. remote_row row.provider e.subscription_id x t first.0.0 is) in
        rw known (
          Ensures-mono (λ _. Advances t) (λ _. Advances s) (λ _ u k. Advances-trans s t u first k) _
            (applied-Advances now row e (target_of t.next_id now row.provider e checkout found) t at
              first.0))
  ]

  pub process-Advances :
      (now token id : ℕ) (e : WebhookEvent) (s : Ledger)
      → IsTidy s
      → Ensures {E = BillingError} (λ _. Advances s) (process upper now token id e s)
  unfolding process
  process-Advances now token id e s h = elim (Option-cases (find (is_event id) s.events)) [
    | inl gone ↦ rw (gone, ◌>>=◌) (h, IsLaterTable-refl s.subscriptions)
    | inr (row, found) ↦ elim (Bool-cases (is_finished row.status)) [
      | inl done ↦ rw (found, ◌>>=◌, done) (h, IsLaterTable-refl s.subscriptions)
      | inr fresh ↦ rw (found, ◌>>=◌, fresh) (process_open-Advances now token row e s h)
    ]
  ]

  reconcile_row-Advances :
      (provider : ℕ) (remote : RemoteSubscription) (x : Subscription) (s : Ledger)
      → find (is_subscription x.id) s.subscriptions ≡ some x
      → is_current remote.provider_updated_at x.provider_state_updated_at ≡ true
      → IsTidy s
      → Ensures {E = BillingError} (λ _. Advances s) (reconcile_row upper provider remote x s)
  unfolding reconcile_row
  reconcile_row-Advances provider remote x s row newer h =
      Ensures-or_throw_error (λ _. Advances s) (mapped_plan provider remote x s) _ s
        (λ plan _.
          Ensures-or_throw_error (λ _. Advances s) (local_status upper remote.status) _ s
            (λ status _. elim (Bool-cases (is_unchanged (reconciled plan status remote x) x)) [
              | inl same ↦ rw same (h, IsLaterTable-refl s.subscriptions)
              | inr other ↦ rw other (
                  Ensures-throw_if (λ _. Advances s)
                    (violates_check (reconciled plan status remote x)) BillingError.check_violation
                    _ s
                    (λ _.
                      Ensures-throw_if (λ _. Advances s)
                        (any (collides (reconciled plan status remote x)) s.subscriptions)
                        BillingError.unique_violation _ s
                        (λ _.
                          set_subscription-Advances x (reconciled plan status remote)
                            remote.provider_updated_at s (λ r. (refl, refl)) row newer h)))
            ]))

  pub reconcile_one-Advances :
      (provider id : ℕ) (remote : RemoteSubscription) (s : Ledger)
      → IsTidy s
      → Ensures {E = BillingError} (λ _. Advances s) (reconcile_one upper provider id remote s)
  unfolding reconcile_one
  reconcile_one-Advances provider id remote s h =
      elim (Option-cases (find (is_subscription id) s.subscriptions)) [
        | inl gone ↦ rw (gone, ◌>>=◌) (h, IsLaterTable-refl s.subscriptions)
        | inr (x, found) ↦
            let row : find (is_subscription x.id) s.subscriptions ≡ some x =
              find-key_of_find subscription_key (is_subscription id) s.subscriptions x h.0 found in
            elim (Bool-cases (is_current remote.provider_updated_at x.provider_state_updated_at)) [
              | inl newer ↦
                  rw (found, ◌>>=◌, newer) (reconcile_row-Advances provider remote x s row newer h)
              | inr stale ↦ rw (found, ◌>>=◌, stale) (h, IsLaterTable-refl s.subscriptions)
            ]
      ]
