-- ===== src/Billing/Reconcile.antt =====
-- BillingService.reconcile: the stored subscriptions are brought to the state of the provider.
use ai_tgs.Common.{
  any, Bool, List, Option, Result, Text, [], count, err, false, find, gets, length, modify, none,
  not, ok, pure, select, some, throw_if, true, ℕ, ◌==◌, ◌&&◌, ◌∷◌, ◌>>=◌, ◌>>◌, if◌then◌else◌,
}
use ai_tgs.Entitlement.{SubscriptionStatus}
use ai_tgs.Exam.Edit.{or_else}
use ai_tgs.Billing.Rows.{
  Ledger, BillingAction, BillingError, ProviderError, RemoteSubscription, Subscription,
  SubscriptionOrigin, PaymentProvider, AuditAction,
}
use ai_tgs.Billing.Store.{
  is_subscription, set_subscription, same_id, is_price, is_none, local_status, violates_check,
  collides, write_audit,
}
use ai_tgs.Billing.Process.{or_throw_error, is_current}

pub data Outcome : Type 0 where
  updated unchanged stale_provider_state : Outcome

-- The plan of an active price, where the provider names one; an unknown price is an error.
abbrev pub mapped_plan : ℕ → RemoteSubscription → Subscription → Ledger → Result BillingError ℕ
mapped_plan provider remote x s = elim remote.provider_plan_id [
  | none ↦ ok x.plan_id
  | some id ↦ elim (find (is_price provider id) s.prices) [
    | some price ↦ ok price.plan_id
    | none ↦ err (BillingError.from_provider ProviderError.provider_error)
  ]
]

abbrev pub or_old {ℓ} : {A : Type ℓ} → Option A → Option A → Option A
or_old (some a) old = some a
or_old none old = old

abbrev pub reconciled : ℕ → SubscriptionStatus → RemoteSubscription → Subscription → Subscription
reconciled plan status remote x = record x {
  plan_id = plan;
  status = status;
  current_period_start = remote.current_period_start;
  current_period_end = remote.current_period_end;
  cancel_at_period_end = or_else remote.cancel_at_period_end x.cancel_at_period_end;
  cancelled_at = or_old remote.cancelled_at x.cancelled_at;
  provider_customer_id = or_old remote.provider_customer_id x.provider_customer_id;
  provider_state_updated_at = some remote.provider_updated_at;
}

abbrev pub same_status : SubscriptionStatus → SubscriptionStatus → Bool
same_status SubscriptionStatus.trialing SubscriptionStatus.trialing = true
same_status SubscriptionStatus.active SubscriptionStatus.active = true
same_status SubscriptionStatus.past_due SubscriptionStatus.past_due = true
same_status SubscriptionStatus.cancelled SubscriptionStatus.cancelled = true
same_status SubscriptionStatus.expired SubscriptionStatus.expired = true
same_status _ _ = false

abbrev pub same_bool : Bool → Bool → Bool
same_bool true b = b
same_bool false b = not b

abbrev pub same_option : Option ℕ → Option ℕ → Bool
same_option none none = true
same_option (some a) (some b) = a == b
same_option _ _ = false

-- `unchanged`, of the row as it would be written and as it is.
abbrev pub is_unchanged : Subscription → Subscription → Bool
is_unchanged y x =
    y.plan_id == x.plan_id
    && (same_status y.status x.status
        && (y.current_period_start == x.current_period_start
            && (y.current_period_end == x.current_period_end
                && (same_bool y.cancel_at_period_end x.cancel_at_period_end
                    && (same_option y.cancelled_at x.cancelled_at
                        && (same_option y.provider_customer_id x.provider_customer_id
                            && same_option y.provider_state_updated_at
                                x.provider_state_updated_at))))))

unfoldable pub reconcile_row :
    (Text → Text) → ℕ → RemoteSubscription → Subscription → BillingAction Outcome
reconcile_row upper provider remote x = do
  plan ← or_throw_error (← gets (mapped_plan provider remote x))
  status ← or_throw_error (local_status upper remote.status)
  let y = reconciled plan status remote x
  if is_unchanged y x then pure Outcome.unchanged else do
    throw_if (violates_check y) BillingError.check_violation
    taken ← gets (λ s. any (collides y) s.subscriptions)
    throw_if taken BillingError.unique_violation
    modify (set_subscription x.id (reconciled plan status remote))
    modify (write_audit none AuditAction.subscription_reconciled (some x.id))
    pure Outcome.updated

unfoldable pub reconcile_one : (Text → Text) → ℕ → ℕ → RemoteSubscription → BillingAction Outcome
reconcile_one upper provider id remote = do
  found ← gets (λ s. find (is_subscription id) s.subscriptions)
  elim found [
    | none ↦ pure Outcome.unchanged
    | some x ↦
        if is_current remote.provider_updated_at x.provider_state_updated_at
        then reconcile_row upper provider remote x
        else pure Outcome.stale_provider_state
  ]

abbrev pub is_of_provider : SubscriptionOrigin → Bool
is_of_provider SubscriptionOrigin.provider = true
is_of_provider SubscriptionOrigin.manual = false

-- The rows of the loop: id and remote id.
abbrev pub reconcilable : ℕ → Subscription → Bool
reconcilable provider x =
    is_of_provider x.origin
    && (same_id x.provider provider && not (is_none x.provider_subscription_id))

pub record ReconcileResult : Type 0 where
  pub subscription_id : ℕ
  pub outcome : Result BillingError Outcome

-- One turn of the loop, with its `try`: the state after it and what it reports.
abbrev pub turn_end : ℕ → Ledger → Result BillingError (Outcome × Ledger) → ReconcileResult × Ledger
turn_end id s (ok r) = (record { subscription_id = id; outcome = ok r.0 }, r.1)
turn_end id s (err e) = (record { subscription_id = id; outcome = err e }, s)

abbrev pub answered :
    (Text → Text)
    → PaymentProvider
    → Subscription
    → Ledger
    → Result ProviderError RemoteSubscription
    → ReconcileResult × Ledger
answered upper p x s (err e) =
    (record { subscription_id = x.id; outcome = err (BillingError.from_provider e) }, s)
answered upper p x s (ok remote) = turn_end x.id s (reconcile_one upper p.name x.id remote s)

unfoldable pub turn :
    (Text → Text) → PaymentProvider → Subscription → Ledger → ReconcileResult × Ledger
turn upper p x s = elim x.provider_subscription_id [
  | none ↦ (
    record {
      subscription_id = x.id;
      outcome = err (BillingError.from_provider ProviderError.provider_error);
    },
    s,
  )
  | some id ↦ answered upper p x s (p.get_subscription id)
]

unfoldable pub reconcile_all :
    (Text → Text) → PaymentProvider → List Subscription → Ledger → List ReconcileResult × Ledger
reconcile_all upper p [] s = ([], s)
reconcile_all upper p (x ∷ xs) s =
    let first = turn upper p x s in
    let rest = reconcile_all upper p xs first.1 in (first.0 ∷ rest.0, rest.1)

pub record ReconcileReport : Type 0 where
  pub checked : ℕ
  pub updated : ℕ
  pub unchanged : ℕ
  pub stale : ℕ
  pub failed : ℕ

abbrev pub has_updated : ReconcileResult → Bool
has_updated r = elim r.outcome [
  | ok o ↦ (elim o [ Outcome.updated ↦ true | _ ↦ false ])
  | err e ↦ false
]

abbrev pub has_unchanged : ReconcileResult → Bool
has_unchanged r = elim r.outcome [
  | ok o ↦ (elim o [ Outcome.unchanged ↦ true | _ ↦ false ])
  | err e ↦ false
]

abbrev pub has_stale : ReconcileResult → Bool
has_stale r = elim r.outcome [
  | ok o ↦ (elim o [ Outcome.stale_provider_state ↦ true | _ ↦ false ])
  | err e ↦ false
]

abbrev pub has_failed : ReconcileResult → Bool
has_failed r = elim r.outcome [ ok o ↦ false | err e ↦ true ]

abbrev pub report : List ReconcileResult → ReconcileReport
report results = record {
  checked = length results;
  updated = count has_updated results;
  unchanged = count has_unchanged results;
  stale = count has_stale results;
  failed = count has_failed results;
}

-- The provider must be the configured one; no exception of a turn leaves the loop.
unfoldable pub reconcile :
    (Text → Text)
    → Option ℕ
    → PaymentProvider
    → Ledger
    → Result BillingError ReconcileReport × Ledger
reconcile upper configured p s =
    if same_id configured p.name
    then (let done = reconcile_all upper p (select (reconcilable p.name) s.subscriptions) s in
        (ok (report done.0), done.1))
    else (err BillingError.provider_not_configured, s)
