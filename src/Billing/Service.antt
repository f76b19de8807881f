-- ===== src/Billing/Service.antt =====
-- The other methods of BillingService.  Each statement outside a transaction is committed at once,
-- so what a method wrote before it throws stays.  `configured` is the setting `billing.provider`,
-- `hash` the SHA-256 of the payload.
use ai_tgs.Common.{
  Bool, List, Option, Result, Text, [], err, find, any, none, not, ok, some, suc, true, false, ℕ,
  ◌==◌, ◌&&◌, ◌||◌, ◌++◌, ◌∷◌, if◌then◌else◌, ltb, select,
}
use ai_tgs.Common.Handlers.{
  Handler, ◌>>=◌, ◌>>◌, pure, throw, gets, modify, throw_if, or_throw, answer, transaction, attempt,
}
use ai_tgs.Exam.Rows.{User, UserRole}
use ai_tgs.Billing.Rows.{
  Ledger, BillingError, ProviderError, BillingEvent, EventStatus, WebhookEvent, OwnerType,
  CheckoutDto, CheckoutSession, BillingCheckoutSession, CheckoutStatus, BillingCustomer,
  PaymentProvider, Plan, PlanProviderPrice, Subscription, AuditAction,
}
use ai_tgs.Billing.Store.{write_audit, is_event, is_delivery, same_id, is_none}
use ai_tgs.Billing.Process.{process}

abbrev pub BillingHandler : Type 0 → Type 0
BillingHandler A = Handler BillingError Ledger A

-- An answer of the provider, whose exceptions the methods pass on.
abbrev pub asked : {A : Type 0} → Result ProviderError A → Result BillingError A
asked (ok a) = ok a
asked (err e) = err (BillingError.from_provider e)

abbrev pub active_provider : Option ℕ → PaymentProvider → BillingHandler (Unit {0})
active_provider configured p =
    throw_if (not (same_id configured p.name)) BillingError.provider_not_configured

abbrev pub is_school_admin : UserRole → Bool
is_school_admin UserRole.school_admin = true
is_school_admin _ = false

-- The owner that a checkout is for, or `none` where the user may not buy for it.
abbrev pub owner_of : OwnerType → User → Option ℕ
owner_of OwnerType.user user = some user.id
owner_of OwnerType.school user = if is_school_admin user.role then user.school_id else none

abbrev pub same_owner : OwnerType → OwnerType → Bool
same_owner OwnerType.user OwnerType.user = true
same_owner OwnerType.school OwnerType.school = true
same_owner _ _ = false

abbrev pub has_key : ℕ → ℕ → BillingCheckoutSession → Bool
has_key user key c = c.user_id == user && c.idempotency_key == key

abbrev pub is_active_plan : ℕ → Plan → Bool
is_active_plan id plan = plan.id == id && plan.is_active

abbrev pub is_price_of : ℕ → ℕ → PlanProviderPrice → Bool
is_price_of plan provider r = r.plan_id == plan && (r.provider == provider && r.active)

abbrev pub is_customer : OwnerType → ℕ → ℕ → BillingCustomer → Bool
is_customer type id provider r =
    same_owner r.owner_type type && (r.owner_id == id && r.provider == provider)

-- INSERT with UNIQUE(provider, provider_customer_id); that of the owner is free here.
unfoldable pub insert_customer : BillingCustomer → BillingHandler (Unit {0})
insert_customer r = do
  taken ← gets (λ s.
      any
        (λ (x : BillingCustomer).
          x.provider == r.provider && x.provider_customer_id == r.provider_customer_id)
        s.customers)
  throw_if taken BillingError.unique_violation
  modify (λ s. record s { customers = s.customers ++ r ∷ [] })

-- The customer's id at the provider, created where the provider needs one.
unfoldable pub customer_of : PaymentProvider → OwnerType → ℕ → BillingHandler (Option ℕ)
customer_of p type owner = do
  found ← gets (λ s. find (is_customer type owner p.name) s.customers)
  elim found [
    | some r ↦ pure (some r.provider_customer_id)
    | none ↦ if not p.requires_customer then pure none else do
      created ← answer (asked (p.create_customer type owner))
      id ← or_throw created BillingError.customer_creation_failed
      insert_customer (record {
        owner_type = type;
        owner_id = owner;
        provider = p.name;
        provider_customer_id = id;
      })
      pure (some id)
  ]

-- INSERT with UNIQUE(user_id, idempotency_key) and UNIQUE(provider_session_id).
abbrev pub collides : BillingCheckoutSession → BillingCheckoutSession → Bool
collides c r =
    has_key c.user_id c.idempotency_key r || r.provider_session_id == c.provider_session_id

unfoldable pub insert_checkout : BillingCheckoutSession → BillingHandler (Unit {0})
insert_checkout c = do
  taken ← gets (λ s. any (collides c) s.checkouts)
  throw_if taken BillingError.idempotency_conflict
  modify (λ s. record s { checkouts = s.checkouts ++ c ∷ [] })

-- What `checkout` returns: the address is the provider's, or one made from the stored session.
pub data CheckoutAnswer : Type 0 where
  fresh : CheckoutSession → CheckoutAnswer
  stored : ℕ → ℕ → CheckoutAnswer

unfoldable pub new_checkout :
    PaymentProvider → CheckoutDto → User → ℕ → BillingHandler CheckoutAnswer
new_checkout p dto user owner = do
  plan ←
      or_throw (← gets (λ s. find (is_active_plan dto.plan_id) s.plans)) BillingError.plan_not_found
  mapping ←
      or_throw (← gets (λ s. find (is_price_of plan.id p.name) s.prices))
        BillingError.not_commercially_configured
  customer ← customer_of p dto.owner_type owner
  session ← answer (
      asked (
        p.create_checkout_session (record {
          customer_id = customer;
          price_id = mapping.provider_price_id;
          idempotency_key = dto.idempotency_key;
          plan_id = plan.id;
          owner_type = dto.owner_type;
          owner_id = owner;
        })))
  insert_checkout (record {
    user_id = user.id;
    owner_type = dto.owner_type;
    owner_id = owner;
    plan_id = plan.id;
    provider = p.name;
    provider_session_id = session.id;
    idempotency_key = dto.idempotency_key;
    status = CheckoutStatus.opened;
    expires_at = session.expires_at;
  })
  modify (write_audit (some user.id) AuditAction.checkout_create none)
  pure (CheckoutAnswer.fresh session)

unfoldable pub checkout :
    Option ℕ → PaymentProvider → CheckoutDto → User → BillingHandler CheckoutAnswer
checkout configured p dto user = do
  active_provider configured p
  owner ← or_throw (owner_of dto.owner_type user) BillingError.owner_not_authorized
  existing ← gets (λ s. find (has_key user.id dto.idempotency_key) s.checkouts)
  elim existing [
    | some c ↦ pure (CheckoutAnswer.stored c.provider_session_id c.expires_at)
    | none ↦ new_checkout p dto user owner
  ]

pub record WebhookAnswer : Type 0 where
  pub duplicate : Bool

abbrev pub signature_error : ProviderError → BillingError
signature_error ProviderError.invalid_webhook_signature = BillingError.invalid_signature
signature_error e = BillingError.from_provider e

unfoldable pub verified : PaymentProvider → Text → Text → BillingHandler WebhookEvent
verified p raw signature = elim (p.verify_and_parse_webhook raw signature) [
  | ok e ↦ pure e
  | err e ↦ do
    modify (write_audit none AuditAction.webhook_invalid_signature none)
    throw (signature_error e)
]

abbrev pub new_event : ℕ → ℕ → ℕ → WebhookEvent → Text → BillingEvent
new_event id now provider e hash = record {
  id = id;
  provider = provider;
  provider_event_id = e.id;
  event_type = e.type;
  status = EventStatus.received;
  payload_hash = hash;
  occurred_at = e.occurred_at;
  received_at = now;
  processed_at = none;
  processing_token = none;
  processing_started_at = none;
  retry_count = 0;
  error_code = none;
  related_subscription_id = none;
  normalized = e;
}

-- INSERT with UNIQUE(provider, provider_event_id).
unfoldable pub insert_event : ℕ → ℕ → WebhookEvent → Text → BillingHandler ℕ
insert_event now provider e hash = do
  taken ← gets (λ s. any (is_delivery provider e.id) s.events)
  throw_if taken BillingError.unique_violation
  id ← gets (λ s. s.next_id)
  modify (λ s. record s {
    events = s.events ++ new_event id now provider e hash ∷ [];
    next_id = suc s.next_id;
  })
  pure id

-- After the `try` around the save of the event.
abbrev pub saved_event :
    (Text → Text) → ℕ → ℕ → WebhookEvent → Result BillingError ℕ → BillingHandler WebhookAnswer
saved_event upper now token e (err x) = pure (record { duplicate = true })
saved_event upper now token e (ok id) = do
  transaction (process upper now token id e)
  modify (write_audit none AuditAction.webhook_processed (some id))
  pure (record { duplicate = false })

-- A payload whose signature was verified.
unfoldable pub deliver :
    (Text → Text) → ℕ → ℕ → ℕ → WebhookEvent → Text → BillingHandler WebhookAnswer
deliver upper now token provider e hash = do
  existing ← gets (λ s. find (is_delivery provider e.id) s.events)
  elim existing [
    | some row ↦ pure (record { duplicate = true })
    | none ↦ attempt (insert_event now provider e hash) >>= saved_event upper now token e
  ]

unfoldable pub webhook :
    (Text → Text)
    → (Text → Text)
    → PaymentProvider
    → ℕ
    → ℕ
    → ℕ
    → Text
    → Text
    → BillingHandler WebhookAnswer
webhook upper hash p now token provider raw signature = do
  throw_if (not (provider == p.name)) BillingError.unknown_provider
  e ← verified p raw signature
  deliver upper now token provider e (hash raw)

-- The row that was created last; of rows created at once, the first.
abbrev pub latest : List Subscription → Option Subscription
latest [] = none
latest (x ∷ xs) = elim (latest xs) [
  | none ↦ some x
  | some y ↦ if ltb x.created_at y.created_at then some y else some x
]

-- `provider=$1 AND provider_subscription_id IS NOT NULL AND (user_id=$2 OR school_id=$3)`
abbrev pub is_managed : ℕ → User → Subscription → Bool
is_managed provider user x =
    same_id x.provider provider
    && (not (is_none x.provider_subscription_id)
        && (same_id x.user_id user.id
            || (is_school_admin user.role && (elim user.school_id [
              | none ↦ false
              | some school ↦ same_id x.school_id school
            ]))))

unfoldable pub cancel : Option ℕ → PaymentProvider → User → BillingHandler (Unit {0})
cancel configured p user = do
  active_provider configured p
  row ←
      or_throw (← gets (λ s. latest (select (is_managed p.name user) s.subscriptions)))
        BillingError.subscription_not_found
  remote ← or_throw row.provider_subscription_id BillingError.subscription_not_found
  answer (asked (p.cancel_subscription remote))
  modify (write_audit (some user.id) AuditAction.subscription_cancel none)

-- `createMapping`, with UNIQUE(provider, provider_price_id).
unfoldable pub create_mapping : (Text → Text) → PlanProviderPrice → BillingHandler (Unit {0})
create_mapping upper dto = do
  taken ← gets (λ s.
      any
        (λ (r : PlanProviderPrice).
          r.provider == dto.provider && r.provider_price_id == dto.provider_price_id)
        s.prices)
  throw_if taken BillingError.unique_violation
  modify
      (λ s. record s { prices = s.prices ++ (record dto { currency = upper dto.currency }) ∷ [] })

unfoldable pub retry : (Text → Text) → ℕ → ℕ → ℕ → BillingHandler BillingEvent
retry upper now token id = do
  row ← or_throw (← gets (λ s. find (is_event id) s.events)) BillingError.event_not_found
  transaction (process upper now token id row.normalized)
  or_throw (← gets (λ s. find (is_event id) s.events)) BillingError.event_not_found
