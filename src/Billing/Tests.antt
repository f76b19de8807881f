-- ===== src/Billing/Tests.antt =====
-- The theorems of billing on one subscription and one provider.
use ai_tgs.Common.{
  Ensures, List, Option, Text, [], arith, err, false, map, none, ok, refl, some, true, ℕ, ◌≡◌, ◌∷◌,
  ◌⊎◌,
}
use ai_tgs.Common.Handlers.{Returns}
use ai_tgs.Entitlement.{SubscriptionStatus}
use ai_tgs.Exam.Rows.{User, UserRole}
use ai_tgs.Billing.Rows.{
  Ledger, BillingError, EventType, WebhookEvent, RemoteSubscription, Subscription,
  SubscriptionOrigin, PaymentProvider, CheckoutDto, OwnerType, ProviderError, Amount,
}
use ai_tgs.Billing.Process.{process, process_open, apply_event, save_transaction, change}
use ai_tgs.Billing.Reconcile.{reconcile_one}
use ai_tgs.Billing.Service
use ai_tgs.Billing.Service.{CheckoutAnswer, WebhookAnswer, deliver, insert_event, verified}
use ai_tgs.Billing.Runs.{Op, Request, perform, run}
use ai_tgs.Billing.Trusted.{IsTrusted, perform-IsTrusted}
use ai_tgs.Billing.Advances.{Advances}
use ai_tgs.Billing.Advances.Requests.{run-Advances}
use ai_tgs.Billing.Repeats.Webhook.{webhook-webhook, webhook-unprocessed, with_event}
use ai_tgs.Billing.Repeats.Rest.{process-process, reconcile_one-reconcile_one, again}
use ai_tgs.Billing.Repeats.Checkout.{checkout-checkout, session_of, expires_of}

abbrev same : Text → Text
same t = t

abbrev subscription : Subscription
subscription = record {
  id = 1;
  created_at = 1;
  origin = SubscriptionOrigin.provider;
  user_id = some 7;
  school_id = none;
  plan_id = 3;
  status = SubscriptionStatus.trialing;
  current_period_start = 10;
  current_period_end = 20;
  cancel_at_period_end = false;
  cancelled_at = none;
  provider = some 2;
  provider_customer_id = some 30;
  provider_subscription_id = some 40;
  provider_state_updated_at = some 5;
}

abbrev ledger : Ledger
ledger = record {
  plans = record { id = 3; is_active = true } ∷ [];
  prices =
      record {
        plan_id = 3;
        provider = 2;
        provider_product_id = none;
        provider_price_id = 50;
        currency = 85 ∷ 83 ∷ 68 ∷ [];
        billing_interval = [];
        active = true;
      }
      ∷ [];
  customers = [];
  checkouts = [];
  events = [];
  subscriptions = subscription ∷ [];
  transactions = [];
  audits = [];
  next_id = 60;
}

-- A renewal, and one with a status that is not known.
abbrev renewal : Option Text → WebhookEvent
renewal status = record {
  id = 70;
  type = EventType.subscription_renewed;
  occurred_at = 9;
  customer_id = none;
  subscription_id = some 40;
  checkout_session_id = none;
  price_id = none;
  status = status;
  period_start = some 20;
  period_end = some 30;
  cancel_at_period_end = none;
  transaction = some (record {
    id = 80;
    amount_minor = Amount.minor 999;
    currency = 85 ∷ 83 ∷ 68 ∷ [];
    status = [];
  });
}

abbrev remote : RemoteSubscription
remote = record {
  provider_subscription_id = 40;
  status = 65 ∷ 67 ∷ 84 ∷ 73 ∷ 86 ∷ 69 ∷ [];
  provider_plan_id = some 50;
  provider_customer_id = none;
  current_period_start = 20;
  current_period_end = 30;
  cancel_at_period_end = none;
  cancelled_at = none;
  provider_updated_at = 11;
}

abbrev payments : Option Text → PaymentProvider
payments status = record {
  name = 2;
  requires_customer = true;
  create_customer = λ type owner. ok (some 31);
  create_checkout_session = λ input. ok (record { id = 90; url = []; expires_at = 99 });
  cancel_subscription = λ id. ok tt;
  get_subscription = λ id. ok remote;
  verify_and_parse_webhook = λ raw signature. ok (renewal status);
}

abbrev teacher : User
teacher = record { id = 7; role = UserRole.teacher; school_id = none }

abbrev order : CheckoutDto
order = record { plan_id = 3; owner_type = OwnerType.user; idempotency_key = 12 }

abbrev request : Op → Request
request op = record { op = op; now = 9; token = 13; provider = payments none }

abbrev requests : List Request
requests =
    request (Op.checkout order teacher)
    ∷ request (Op.webhook 2 [] [])
    ∷ request (Op.retry 60)
    ∷ request Op.reconcile
    ∷ request (Op.cancel teacher)
    ∷ []

run-Advances_example : Advances ledger (run same same (some 2) requests ledger)
run-Advances_example =
    run-Advances same same (some 2) requests ledger ((refl, tt), (omega arith, tt))

perform-IsTrusted_example :
    ((perform same same (some 2) (request (Op.webhook 2 [] [])) ledger).subscriptions
      ≡ ledger.subscriptions)
    ⊎ IsTrusted (request (Op.webhook 2 [] []))
perform-IsTrusted_example =
    perform-IsTrusted same same (some 2) (request (Op.webhook 2 [] [])) ledger

webhook-webhook_example :
    Service.webhook same same
      (payments none)
      15
      14
      2
      []
      []
      (Service.webhook same same (payments none) 9 13 2 [] [] ledger).1
    ≡ (
      ok (record { duplicate = true }),
      (Service.webhook same same (payments none) 9 13 2 [] [] ledger).1,
    )
webhook-webhook_example =
    webhook-webhook same same (payments none) 9 13 15 14 [] [] (renewal none) ledger refl

webhook-unprocessed_example :
    (Service.webhook same same (payments (some (63 ∷ []))) 9 13 2 [] [] ledger ≡ (
      err (BillingError.from_provider ProviderError.provider_error),
      with_event 9 2 (renewal (some (63 ∷ []))) [] ledger,
    ))
    × (Service.webhook same same
          (payments (some (63 ∷ [])))
          15
          14
          2
          []
          []
          (with_event 9 2 (renewal (some (63 ∷ []))) [] ledger)
        ≡ (ok (record { duplicate = true }), with_event 9 2 (renewal (some (63 ∷ []))) [] ledger))
unfolding process process_open apply_event change
webhook-unprocessed_example =
    webhook-unprocessed same same (payments (some (63 ∷ []))) 9 13 15 14 [] []
      (renewal (some (63 ∷ []))) (BillingError.from_provider ProviderError.provider_error) ledger
      refl refl refl

process-process_example :
    Ensures {E = BillingError}
      (λ _ t.
        (later token' : ℕ) (e' : WebhookEvent) → process same later token' 60 e' t ≡ ok (tt, t))
      (process same 9 13 60 (renewal none) (with_event 9 2 (renewal none) [] ledger))
process-process_example =
    process-process same 9 13 60 (renewal none) (with_event 9 2 (renewal none) [] ledger)

reconcile_one-reconcile_one_example :
    Ensures {E = BillingError}
      (λ o t. reconcile_one same 2 1 remote t ≡ ok (again o, t))
      (reconcile_one same 2 1 remote ledger)
reconcile_one-reconcile_one_example = reconcile_one-reconcile_one same 2 1 remote ledger

checkout-checkout_example :
    Returns {E = BillingError}
      (λ a t.
        Service.checkout (some 2) (payments none) order teacher t
        ≡ (ok (CheckoutAnswer.stored (session_of a) (expires_of a)), t))
      (Service.checkout (some 2) (payments none) order teacher ledger)
checkout-checkout_example =
    checkout-checkout (some 2) (payments none) order order teacher 7 ledger refl refl

-- The renewal makes the subscription active until 30, and a reconciliation finds a later state.
webhook_renews :
    map
      (λ (x : Subscription). x.status)
      (Service.webhook same same (payments none) 9 13 2 [] [] ledger).1.subscriptions
    ≡ SubscriptionStatus.active ∷ []
unfolding Service.webhook deliver insert_event verified process process_open apply_event change
    save_transaction
webhook_renews = refl
