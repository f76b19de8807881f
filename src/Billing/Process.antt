-- ===== src/Billing/Process.antt =====
-- BillingService.process: what a verified event does to the tables, in one transaction.  `upper` is
-- `toUpperCase`.
use ai_tgs.Common.{
  any, Bool, Option, Result, Text, [], err, false, find, gets, leb, modify, none, ok, pure, some,
  suc, throw, throw_if, true, ℕ, ◌++◌, ◌∷◌, ◌>>=◌, ◌>>◌, if◌then◌else◌,
}
use ai_tgs.Entitlement.{SubscriptionStatus}
use ai_tgs.Exam.Edit.{or_else}
use ai_tgs.Billing.Rows.{
  Ledger, BillingAction, BillingError, BillingEvent, EventStatus, WebhookEvent, EventType,
  OwnerType, BillingCheckoutSession, Amount, Subscription, SubscriptionOrigin,
}
use ai_tgs.Billing.Store.{
  is_event, set_event, is_remote, set_subscription, is_session, complete_checkout, find_optional,
  is_price, violates_check, collides, upsert_transaction, local_status,
}

abbrev pub is_finished : EventStatus → Bool
is_finished EventStatus.processed = true
is_finished EventStatus.ignored = true
is_finished _ = false

abbrev pub is_unknown : EventType → Bool
is_unknown EventType.unknown = true
is_unknown _ = false

abbrev pub is_completion : EventType → Bool
is_completion EventType.checkout_completed = true
is_completion _ = false

abbrev pub is_plan_change : EventType → Bool
is_plan_change EventType.plan_changed = true
is_plan_change _ = false

-- The status that the type of an event fixes, whatever the provider's own status is.
abbrev pub status_of_type : EventType → Option SubscriptionStatus
status_of_type EventType.subscription_activated = some SubscriptionStatus.active
status_of_type EventType.subscription_renewed = some SubscriptionStatus.active
status_of_type EventType.payment_succeeded = some SubscriptionStatus.active
status_of_type EventType.invoice_paid = some SubscriptionStatus.active
status_of_type EventType.payment_failed = some SubscriptionStatus.past_due
status_of_type EventType.invoice_payment_failed = some SubscriptionStatus.past_due
status_of_type EventType.subscription_canceled = some SubscriptionStatus.cancelled
status_of_type EventType.subscription_expired = some SubscriptionStatus.expired
status_of_type _ = none

abbrev pub started : ℕ → ℕ → BillingEvent → BillingEvent
started now token r = record r {
  status = EventStatus.processing;
  processing_token = some token;
  processing_started_at = some now;
  retry_count = suc r.retry_count;
}

abbrev pub set_ignored : ℕ → BillingEvent → BillingEvent
set_ignored now r = record r { status = EventStatus.ignored; processed_at = some now }

abbrev pub set_processed : ℕ → Option ℕ → BillingEvent → BillingEvent
set_processed now related r = record r {
  status = EventStatus.processed;
  processed_at = some now;
  processing_token = none;
  related_subscription_id = related;
}

abbrev pub user_of : BillingCheckoutSession → Option ℕ
user_of c = elim c.owner_type [ OwnerType.user ↦ some c.owner_id | OwnerType.school ↦ none ]

abbrev pub school_of : BillingCheckoutSession → Option ℕ
school_of c = elim c.owner_type [ OwnerType.school ↦ some c.owner_id | OwnerType.user ↦ none ]

-- `manager.create(Subscription, …)`.
abbrev pub new_subscription :
    ℕ → ℕ → ℕ → WebhookEvent → BillingCheckoutSession → ℕ → ℕ → ℕ → Subscription
new_subscription id now provider e c remote start finish = record {
  id = id;
  created_at = now;
  origin = SubscriptionOrigin.provider;
  user_id = user_of c;
  school_id = school_of c;
  plan_id = c.plan_id;
  status = SubscriptionStatus.trialing;
  current_period_start = start;
  current_period_end = finish;
  cancel_at_period_end = false;
  cancelled_at = none;
  provider = some provider;
  provider_customer_id = e.customer_id;
  provider_subscription_id = some remote;
  provider_state_updated_at = some e.occurred_at;
}

-- The row that the event is about, and whether it is new.
pub data Target : Type 0 where
  nothing : Target
  stored created : Subscription → Target

-- `!target && checkout && e.subscriptionId && e.periodStart && e.periodEnd`
abbrev pub target_of :
    ℕ → ℕ → ℕ → WebhookEvent → Option BillingCheckoutSession → Option Subscription → Target
target_of id now provider e checkout (some x) = Target.stored x
target_of id now provider e none none = Target.nothing
target_of id now provider e (some c) none = elim e.subscription_id [
  | none ↦ Target.nothing
  | some remote ↦ elim e.period_start [
    | none ↦ Target.nothing
    | some start ↦ elim e.period_end [
      | none ↦ Target.nothing
      | some finish ↦ Target.created (new_subscription id now provider e c remote start finish)
    ]
  ]
]

-- `!target.providerStateUpdatedAt || e.occurredAt >= target.providerStateUpdatedAt`
abbrev pub is_current : ℕ → Option ℕ → Bool
is_current at none = true
is_current at (some stamp) = leb stamp at

abbrev pub next_plan : ℕ → WebhookEvent → Subscription → Ledger → ℕ
next_plan provider e x s =
    if is_plan_change e.type
    then elim (find_optional (is_price provider) e.price_id s.prices) [
      | some price ↦ price.plan_id
      | none ↦ x.plan_id
    ]
    else x.plan_id

-- The provider's own status, where the event has one that is not empty.
abbrev pub given_status :
    (Text → Text) → Option Text → SubscriptionStatus → Result BillingError SubscriptionStatus
given_status upper none old = ok old
given_status upper (some []) old = ok old
given_status upper (some (c ∷ value)) old = local_status upper (c ∷ value)

abbrev pub next_status :
    (Text → Text) → WebhookEvent → SubscriptionStatus → Result BillingError SubscriptionStatus
next_status upper e old = elim (given_status upper e.status old) [
  | err x ↦ err x
  | ok given ↦ ok (or_else (status_of_type e.type) given)
]

abbrev pub updated : WebhookEvent → ℕ → SubscriptionStatus → Subscription → Subscription
updated e plan status x = record x {
  plan_id = plan;
  current_period_start = or_else e.period_start x.current_period_start;
  current_period_end = or_else e.period_end x.current_period_end;
  cancel_at_period_end = or_else e.cancel_at_period_end x.cancel_at_period_end;
  status = status;
  provider_state_updated_at = some e.occurred_at;
}

abbrev pub or_throw_error : {A : Type 0} → Result BillingError A → BillingAction A
or_throw_error (ok a) = pure a
or_throw_error (err e) = throw e

-- INSERT of a new row, as the changes leave it.
abbrev pub insert_subscription : Subscription → (Subscription → Subscription) → Ledger → Ledger
insert_subscription x f s = record s {
  subscriptions = s.subscriptions ++ f x ∷ [];
  next_id = suc s.next_id;
}

-- The changes to the row `x` and its save, with the CHECKs and unique indexes of the
-- table.
unfoldable pub change :
    (Text → Text)
    → ℕ
    → WebhookEvent
    → Subscription
    → ((Subscription → Subscription) → Ledger → Ledger)
    → BillingAction (Unit {0})
change upper provider e x save = do
  plan ← gets (next_plan provider e x)
  status ← or_throw_error (next_status upper e x.status)
  throw_if (violates_check (updated e plan status x)) BillingError.check_violation
  taken ← gets (λ s. any (collides (updated e plan status x)) s.subscriptions)
  throw_if taken BillingError.unique_violation
  modify (save (updated e plan status))

abbrev pub id_of : Target → Option ℕ
id_of Target.nothing = none
id_of (Target.stored x) = some x.id
id_of (Target.created x) = some x.id

-- The id of the row that was saved: `row.relatedSubscriptionId`, which stays as it was otherwise.
unfoldable pub apply_event :
    (Text → Text) → ℕ → WebhookEvent → Target → Option ℕ → BillingAction (Option ℕ)
apply_event upper provider e Target.nothing related = pure related
apply_event upper provider e (Target.stored x) related =
    if is_current e.occurred_at x.provider_state_updated_at
    then change upper provider e x (set_subscription x.id) >> pure (some x.id)
    else pure related
apply_event upper provider e (Target.created x) related =
    change upper provider e x (insert_subscription x) >> pure (some x.id)

abbrev pub amount_of : Amount → Result BillingError ℕ
amount_of (Amount.minor n) = ok n
amount_of (Amount.below_zero n) = err BillingError.check_violation

unfoldable pub save_transaction :
    (Text → Text) → ℕ → WebhookEvent → Target → BillingAction (Unit {0})
save_transaction upper provider e target = elim e.transaction [
  | none ↦ pure tt
  | some t ↦ do
    amount ← or_throw_error (amount_of t.amount_minor)
    modify (
        upsert_transaction (record {
          subscription_id = id_of target;
          provider = provider;
          provider_transaction_id = t.id;
          amount_minor = amount;
          currency = upper t.currency;
          status = t.status;
          occurred_at = e.occurred_at;
        }))
]

abbrev pub complete : WebhookEvent → Option BillingCheckoutSession → Ledger → Ledger
complete e none s = s
complete e (some c) s =
    if is_completion e.type then complete_checkout c.provider_session_id s else s

-- An event that was not finished before.
unfoldable pub process_open :
    (Text → Text) → ℕ → ℕ → BillingEvent → WebhookEvent → BillingAction (Unit {0})
process_open upper now token row e = do
  modify (set_event row.id (started now token))
  if is_unknown e.type then modify (set_event row.id (set_ignored now)) else do
    checkout ← gets (λ s. find_optional is_session e.checkout_session_id s.checkouts)
    modify (complete e checkout)
    subscription ←
        gets (λ s. find_optional (is_remote row.provider) e.subscription_id s.subscriptions)
    id ← gets (λ s. s.next_id)
    let target = target_of id now row.provider e checkout subscription
    related ← apply_event upper row.provider e target row.related_subscription_id
    save_transaction upper row.provider e target
    modify (set_event row.id (set_processed now related))

unfoldable pub process : (Text → Text) → ℕ → ℕ → ℕ → WebhookEvent → BillingAction (Unit {0})
process upper now token id e = do
  found ← gets (λ s. find (is_event id) s.events)
  elim found [
    | none ↦ pure tt
    | some row ↦ if is_finished row.status then pure tt else process_open upper now token row e
  ]
