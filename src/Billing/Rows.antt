-- ===== src/Billing/Rows.antt =====
-- The rows of billing.entities.ts and of subscriptions, and the messages of the payment provider
-- (infrastructure/providers/provider.contracts.ts).  Ids, names and keys are numbers, times too; the
-- `metadata` of a subscription is left out.
use ai_tgs.Common.{Action, Bool, List, Option, Result, Text, ℕ}
use ai_tgs.Entitlement.{SubscriptionStatus}

pub data OwnerType : Type 0 where
  user school : OwnerType

-- NormalizedBillingEventType
pub data EventType : Type 0 where
  checkout_completed subscription_created subscription_activated subscription_updated : EventType
  subscription_renewed subscription_cancel_scheduled subscription_canceled : EventType
  subscription_expired payment_succeeded payment_failed invoice_paid : EventType
  invoice_payment_failed plan_changed unknown : EventType

-- `amountMinor`, which the table refuses where it is negative.
pub data Amount : Type 0 where
  minor below_zero : ℕ → Amount

pub record EventTransaction : Type 0 where
  pub id : ℕ
  pub amount_minor : Amount
  pub currency : Text
  pub status : Text

-- BillingWebhookEvent; `none` is a missing field.
pub record WebhookEvent : Type 0 where
  pub id : ℕ
  pub type : EventType
  pub occurred_at : ℕ
  pub customer_id : Option ℕ
  pub subscription_id : Option ℕ
  pub checkout_session_id : Option ℕ
  pub price_id : Option ℕ
  pub status : Option Text
  pub period_start : Option ℕ
  pub period_end : Option ℕ
  pub cancel_at_period_end : Option Bool
  pub transaction : Option EventTransaction

-- BillingSubscription
pub record RemoteSubscription : Type 0 where
  pub provider_subscription_id : ℕ
  pub status : Text
  pub provider_plan_id : Option ℕ
  pub provider_customer_id : Option ℕ
  pub current_period_start : ℕ
  pub current_period_end : ℕ
  pub cancel_at_period_end : Option Bool
  pub cancelled_at : Option ℕ
  pub provider_updated_at : ℕ

pub data ProviderError : Type 0 where
  not_configured auth_failed rate_limited timeout subscription_not_found : ProviderError
  provider_error invalid_webhook_signature operation_unsupported : ProviderError

pub record Plan : Type 0 where
  pub id : ℕ
  pub is_active : Bool

pub record PlanProviderPrice : Type 0 where
  pub plan_id : ℕ
  pub provider : ℕ
  pub provider_product_id : Option ℕ
  pub provider_price_id : ℕ
  pub currency : Text
  pub billing_interval : Text
  pub active : Bool

pub record BillingCustomer : Type 0 where
  pub owner_type : OwnerType
  pub owner_id : ℕ
  pub provider : ℕ
  pub provider_customer_id : ℕ

pub data CheckoutStatus : Type 0 where
  opened completed : CheckoutStatus

pub record BillingCheckoutSession : Type 0 where
  pub user_id : ℕ
  pub owner_type : OwnerType
  pub owner_id : ℕ
  pub plan_id : ℕ
  pub provider : ℕ
  pub provider_session_id : ℕ
  pub idempotency_key : ℕ
  pub status : CheckoutStatus
  pub expires_at : ℕ

pub data EventStatus : Type 0 where
  received processing processed ignored : EventStatus

pub record BillingEvent : Type 0 where
  pub id : ℕ
  pub provider : ℕ
  pub provider_event_id : ℕ
  pub event_type : EventType
  pub status : EventStatus
  pub payload_hash : Text
  pub occurred_at : ℕ
  pub received_at : ℕ
  pub processed_at : Option ℕ
  pub processing_token : Option ℕ
  pub processing_started_at : Option ℕ
  pub retry_count : ℕ
  pub error_code : Option Text
  pub related_subscription_id : Option ℕ
  pub normalized : WebhookEvent

pub record BillingTransaction : Type 0 where
  pub subscription_id : Option ℕ
  pub provider : ℕ
  pub provider_transaction_id : ℕ
  pub amount_minor : ℕ
  pub currency : Text
  pub status : Text
  pub occurred_at : ℕ

pub data SubscriptionOrigin : Type 0 where
  manual provider : SubscriptionOrigin

pub record Subscription : Type 0 where
  pub id : ℕ
  pub created_at : ℕ
  pub origin : SubscriptionOrigin
  pub user_id : Option ℕ
  pub school_id : Option ℕ
  pub plan_id : ℕ
  pub status : SubscriptionStatus
  pub current_period_start : ℕ
  pub current_period_end : ℕ
  pub cancel_at_period_end : Bool
  pub cancelled_at : Option ℕ
  pub provider : Option ℕ
  pub provider_customer_id : Option ℕ
  pub provider_subscription_id : Option ℕ
  pub provider_state_updated_at : Option ℕ

pub data AuditAction : Type 0 where
  checkout_create webhook_invalid_signature webhook_processed : AuditAction
  subscription_cancel subscription_reconciled : AuditAction

pub record Audit : Type 0 where
  pub actor_id : Option ℕ
  pub action : AuditAction
  pub entity_id : Option ℕ

pub record Ledger : Type 0 where
  pub plans : List Plan
  pub prices : List PlanProviderPrice
  pub customers : List BillingCustomer
  pub checkouts : List BillingCheckoutSession
  pub events : List BillingEvent
  pub subscriptions : List Subscription
  pub transactions : List BillingTransaction
  pub audits : List Audit
  pub next_id : ℕ

pub data BillingError : Type 0 where
  provider_not_configured owner_not_authorized plan_not_found not_commercially_configured :
      BillingError
  customer_creation_failed idempotency_conflict unknown_provider invalid_signature : BillingError
  subscription_not_found event_not_found check_violation unique_violation : BillingError
  from_provider : ProviderError → BillingError

abbrev pub BillingAction : Type 0 → Type 0
BillingAction A = Action BillingError Ledger A

pub record CheckoutDto : Type 0 where
  pub plan_id : ℕ
  pub owner_type : OwnerType
  pub idempotency_key : ℕ

pub record CheckoutInput : Type 0 where
  pub customer_id : Option ℕ
  pub price_id : ℕ
  pub idempotency_key : ℕ
  pub plan_id : ℕ
  pub owner_type : OwnerType
  pub owner_id : ℕ

pub record CheckoutSession : Type 0 where
  pub id : ℕ
  pub url : Text
  pub expires_at : ℕ

-- PaymentProvider: its answers during one request.
pub record PaymentProvider : Type 0 where
  pub name : ℕ
  pub requires_customer : Bool
  pub create_customer : OwnerType → ℕ → Result ProviderError (Option ℕ)
  pub create_checkout_session : CheckoutInput → Result ProviderError CheckoutSession
  pub cancel_subscription : ℕ → Result ProviderError (Unit {0})
  pub get_subscription : ℕ → Result ProviderError RemoteSubscription
  pub verify_and_parse_webhook : Text → Text → Result ProviderError WebhookEvent
