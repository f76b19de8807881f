-- ===== src/Billing/Repeats.antt =====
-- What BillingService does with a request that comes twice.
pub mod Webhook
pub mod Rest
pub mod Checkout
use ai_tgs.Common.{
  ==_iff, ==_refl, Action, All, All-append, All-every, All-find, All-found, All-kept, All-map,
  All-ne_of_none, All-same, All-select, All-update, All-update_by, All-update_key, All-zip, Bool,
  Bool-cases, Ensures, Ensures->>=, Ensures-last_guard, Ensures-mono, Ensures-of_Succeeds,
  Ensures-or_throw, Ensures-throw_if, IsIn, IsIn-find, IsIn-select, IsUnique, IsUnique-append,
  IsUnique-concat, IsUnique-select, IsUnique-update, IsUnique-update_by, List, Option, Option-cases,
  Ordering, Result, Succeeds, Succeeds->>=, Succeeds-mono, Text, [], all, any, any-append_last,
  any-append_some, any-find, any-of_find, any-of_none, any-update, ap, apply_all, apply_all-select,
  arith, collapse, compare, count, err, false, find, find-and, find-and-none, find-append,
  find-append_miss, find-append_some, find-fresh, find-key_of_find, find-of_any, find-passes,
  find-update-none, find-update_by, find-update_hit, find-update_inv, find-update_kept,
  find-update_ne, gets, has_duplicates, has_equal_texts, in_range, includes, inl, inr, is_blank,
  is_key, is_one_of, is_space, leb, length, length-select, ltb, map, max, min, modify, none, not,
  occurs, occurs-once, ok, or_null, or_throw, pure, refl, same_text, select, select-append_none,
  select-append_passing, select-none, select-select, select-update, some, subst, suc, sum_by,
  sum_by-append, sum_by-update, sum_by-update_same, sum_by_zero, sym, throw, throw_if, trim,
  trim-trim, trim_start, trimmed_or_null, true, update, update_miss, weight-le-sum_by, zero, ℕ, ◌≤◌,
  ◌<◌, ◌≡◌, ◌≢◌, ◌+◌, ◌-◌, ◌*◌, ◌/◌, ◌%◌, ◌^◌, ◌==◌, ◌&&◌, ◌||◌, ◌++◌, ◌∷◌, ◌↔◌, ◌⊎◌, ◌∙◌, ◌>>=◌,
  ◌>>◌, if◌then◌else◌,
}
use ai_tgs.Billing.Rows.{
  Ledger, BillingError, BillingEvent, WebhookEvent, EventStatus, Subscription,
  BillingCheckoutSession,
}
use ai_tgs.Billing.Store.{
  is_event, set_event, find_optional, is_session, is_remote, violates_check, collides,
  set_subscription,
}
use ai_tgs.Billing.Process.{
  process, process_open, is_unknown, is_finished, started, set_ignored, set_processed, complete,
  apply_event, save_transaction, target_of, Target, is_completion, change, is_current,
  insert_subscription, next_plan, next_status, updated, amount_of,
}
use ai_tgs.Billing.Advances.Process.{Ensures-or_throw_error}

-- A predicate of the table of events through the processing of one: the steps in between keep the
-- table, and the three writes of the row are given.
module _ (upper : Text → Text) (P : List BillingEvent → Type 0) where
  abbrev OnEvents : Ledger → Type 0
  OnEvents s = P s.events

  complete-events :
      (e : WebhookEvent) (checkout : Option BillingCheckoutSession) (s : Ledger)
      → P s.events
      → P (complete e checkout s).events
  complete-events e none s h = h
  complete-events e (some c) s h = elim (Bool-cases (is_completion e.type)) [
    | inl done ↦ rw done h
    | inr other ↦ rw other h
  ]

  change-events :
      (provider : ℕ) (e : WebhookEvent) (x : Subscription)
      (save : (Subscription → Subscription) → Ledger → Ledger) (s : Ledger)
      → ((f : Subscription → Subscription) → (save f s).events ≡ s.events)
      → P s.events
      → Ensures {E = BillingError} (λ _. OnEvents) (change upper provider e x save s)
  unfolding change
  change-events provider e x save s same h =
      Ensures-or_throw_error (λ _. OnEvents) (next_status upper e x.status) _ s
        (λ status _.
          Ensures-throw_if (λ _. OnEvents)
            (violates_check (updated e (next_plan provider e x s) status x))
            BillingError.check_violation _ s
            (λ _.
              Ensures-throw_if (λ _. OnEvents)
                (any (collides (updated e (next_plan provider e x s) status x)) s.subscriptions)
                BillingError.unique_violation _ s
                (λ _. subst P (sym (same (updated e (next_plan provider e x s) status))) h)))

  apply_event-events :
      (provider : ℕ) (e : WebhookEvent) (target : Target) (related : Option ℕ) (s : Ledger)
      → P s.events
      → Ensures {E = BillingError} (λ _. OnEvents) (apply_event upper provider e target related s)
  unfolding apply_event
  apply_event-events provider e Target.nothing related s h = h
  apply_event-events provider e (Target.stored x) related s h =
      elim (Bool-cases (is_current e.occurred_at x.provider_state_updated_at)) [
        | inl newer ↦ rw newer (
            Ensures->>= (λ _. OnEvents) (λ _. OnEvents)
              (change upper provider e x (set_subscription x.id)) (λ _. pure (some x.id)) s
              (change-events provider e x (set_subscription x.id) s (λ _. refl) h) (λ _ _ k. k))
        | inr stale ↦ rw stale h
      ]
  apply_event-events provider e (Target.created x) related s h =
      Ensures->>= (λ _. OnEvents) (λ _. OnEvents)
        (change upper provider e x (insert_subscription x)) (λ _. pure (some x.id)) s
        (change-events provider e x (insert_subscription x) s (λ _. refl) h) (λ _ _ k. k)

  save_transaction-events :
      (provider : ℕ) (e : WebhookEvent) (target : Target) (s : Ledger)
      → P s.events
      → Ensures {E = BillingError} (λ _. OnEvents) (save_transaction upper provider e target s)
  unfolding save_transaction
  save_transaction-events provider e target s h = elim (Option-cases e.transaction) [
    | inl without ↦ rw without h
    | inr (x, with_one) ↦
        rw with_one
          (Ensures-or_throw_error (λ _. OnEvents) (amount_of x.amount_minor) _ s (λ _ _. h))
  ]

  module _ (Q : List BillingEvent → Type 0) (id : ℕ)
      (ignored : (now : ℕ) (xs : List BillingEvent)
        → P xs
        → Q (update (is_event id) (set_ignored now) xs))
      (finished : (now : ℕ) (related : Option ℕ) (xs : List BillingEvent)
        → P xs
        → Q (update (is_event id) (set_processed now related) xs)) where
    pub process_open-events :
        (now token : ℕ) (row : BillingEvent) (e : WebhookEvent) (s : Ledger)
        → row.id ≡ id
        → P (update (is_event row.id) (started now token) s.events)
        → Ensures {E = BillingError} (λ _ t. Q t.events) (process_open upper now token row e s)
    unfolding process_open
    process_open-events now token row e s key h = elim (Bool-cases (is_unknown e.type)) [
      | inl skipped ↦ rw (skipped, key) (ignored now _ (rw (← key) h))
      | inr known ↦
          let s' : Ledger = set_event row.id (started now token) s in
          let checkout = find_optional is_session e.checkout_session_id s'.checkouts in
          let t : Ledger = complete e checkout s' in
          let target =
            target_of t.next_id now row.provider e checkout
              (find_optional (is_remote row.provider) e.subscription_id t.subscriptions) in
          rw known (
            Ensures->>= (λ _. OnEvents) (λ _ u. Q u.events)
              (apply_event upper row.provider e target row.related_subscription_id) _ t
              (apply_event-events row.provider e target row.related_subscription_id t
                (complete-events e checkout s' h))
              (λ related u k.
                Ensures->>= (λ _. OnEvents) (λ _ v. Q v.events)
                  (save_transaction upper row.provider e target) _ u
                  (save_transaction-events row.provider e target u k)
                  (λ _ v m.
                    subst (λ i. Q (update (is_event i) (set_processed now related) v.events))
                      (sym key) (finished now related v.events m))))
    ]
