-- ===== src/Billing/Store.antt =====
-- The statements of BillingService, and the statuses of the provider in its own words.
use ai_tgs.Common.{
  Bool, List, Option, Result, Text, [], any, err, false, find, ltb, none, not, ok, same_text, some,
  true, update, ℕ, ◌==◌, ◌&&◌, ◌||◌, ◌++◌, ◌∷◌, if◌then◌else◌,
}
use ai_tgs.Entitlement.{SubscriptionStatus}
use ai_tgs.Billing.Rows.{
  Ledger, BillingError, ProviderError, BillingEvent, BillingCheckoutSession, CheckoutStatus,
  BillingTransaction, Subscription, PlanProviderPrice, AuditAction,
}

abbrev pub same_id : Option ℕ → ℕ → Bool
same_id none i = false
same_id (some j) i = j == i

abbrev pub write_audit : Option ℕ → AuditAction → Option ℕ → Ledger → Ledger
write_audit actor action entity s = record s {
  audits = s.audits ++ (record { actor_id = actor; action = action; entity_id = entity }) ∷ [];
}

abbrev pub is_event : ℕ → BillingEvent → Bool
is_event id r = r.id == id

-- The index UNIQUE(provider, provider_event_id).
abbrev pub is_delivery : ℕ → ℕ → BillingEvent → Bool
is_delivery provider id r = r.provider == provider && r.provider_event_id == id

abbrev pub set_event : ℕ → (BillingEvent → BillingEvent) → Ledger → Ledger
set_event id f s = record s { events = update (is_event id) f s.events }

abbrev pub is_subscription : ℕ → Subscription → Bool
is_subscription id r = r.id == id

-- `s.provider = :p AND s.provider_subscription_id = :id`
abbrev pub is_remote : ℕ → ℕ → Subscription → Bool
is_remote provider id r = same_id r.provider provider && same_id r.provider_subscription_id id

abbrev pub set_subscription : ℕ → (Subscription → Subscription) → Ledger → Ledger
set_subscription id f s = record s { subscriptions = update (is_subscription id) f s.subscriptions }

abbrev pub is_session : ℕ → BillingCheckoutSession → Bool
is_session id r = r.provider_session_id == id

abbrev pub complete_checkout : ℕ → Ledger → Ledger
complete_checkout id s = record s {
  checkouts =
      update (is_session id) (λ r. record r { status = CheckoutStatus.completed }) s.checkouts;
}

abbrev pub find_optional {ℓ} : {A : Type ℓ} → (ℕ → A → Bool) → Option ℕ → List A → Option A
find_optional p none xs = none
find_optional p (some id) xs = find (p id) xs

-- An active price of the provider.
abbrev pub is_price : ℕ → ℕ → PlanProviderPrice → Bool
is_price provider id r = r.provider == provider && (r.provider_price_id == id && r.active)

abbrev pub is_none {ℓ} : {A : Type ℓ} → Option A → Bool
is_none none = true
is_none (some a) = false

-- The CHECKs of `subscriptions`.
abbrev pub violates_check : Subscription → Bool
violates_check x =
    not (ltb x.current_period_start x.current_period_end)
    || (if is_none x.user_id then is_none x.school_id else not (is_none x.school_id))

abbrev pub is_live : SubscriptionStatus → Bool
is_live SubscriptionStatus.active = true
is_live SubscriptionStatus.trialing = true
is_live _ = false

-- Both are there and equal: NULLs do not collide.
abbrev pub share : Option ℕ → Option ℕ → Bool
share (some a) (some b) = a == b
share _ _ = false

-- Another row that a unique index of `subscriptions` does not admit beside this one: both are live
-- and of one user or school, or both have the same subscription of the same provider.
abbrev pub collides : Subscription → Subscription → Bool
collides y x =
    not (x.id == y.id)
    && ((is_live x.status
          && (is_live y.status && (share x.user_id y.user_id || share x.school_id y.school_id)))
        || (share x.provider y.provider
            && share x.provider_subscription_id y.provider_subscription_id))

abbrev pub is_transaction : ℕ → ℕ → BillingTransaction → Bool
is_transaction provider id r = r.provider == provider && r.provider_transaction_id == id

-- INSERT … ON CONFLICT (provider, provider_transaction_id) DO UPDATE.
abbrev pub upsert_transaction : BillingTransaction → Ledger → Ledger
upsert_transaction x s = record s {
  transactions =
      if any (is_transaction x.provider x.provider_transaction_id) s.transactions
      then update (is_transaction x.provider x.provider_transaction_id) (λ _. x) s.transactions
      else s.transactions ++ x ∷ [];
}

-- The keys of `statuses`, as code units.
abbrev pub statuses : List (Text × SubscriptionStatus)
statuses =
    -- TRAILING
    (84 ∷ 82 ∷ 65 ∷ 73 ∷ 76 ∷ 73 ∷ 78 ∷ 71 ∷ [], SubscriptionStatus.trialing)
    ∷  -- TRIALING
        (84 ∷ 82 ∷ 73 ∷ 65 ∷ 76 ∷ 73 ∷ 78 ∷ 71 ∷ [], SubscriptionStatus.trialing)
    ∷  -- ACTIVE
        (65 ∷ 67 ∷ 84 ∷ 73 ∷ 86 ∷ 69 ∷ [], SubscriptionStatus.active)
    ∷  -- PAST_DUE
        (80 ∷ 65 ∷ 83 ∷ 84 ∷ 95 ∷ 68 ∷ 85 ∷ 69 ∷ [], SubscriptionStatus.past_due)
    ∷  -- UNPAID
        (85 ∷ 78 ∷ 80 ∷ 65 ∷ 73 ∷ 68 ∷ [], SubscriptionStatus.past_due)
    ∷  -- INCOMPLETE
        (73 ∷ 78 ∷ 67 ∷ 79 ∷ 77 ∷ 80 ∷ 76 ∷ 69 ∷ 84 ∷ 69 ∷ [], SubscriptionStatus.past_due)
    ∷  -- PAUSED
        (80 ∷ 65 ∷ 85 ∷ 83 ∷ 69 ∷ 68 ∷ [], SubscriptionStatus.past_due)
    ∷  -- CANCELED
        (67 ∷ 65 ∷ 78 ∷ 67 ∷ 69 ∷ 76 ∷ 69 ∷ 68 ∷ [], SubscriptionStatus.cancelled)
    ∷  -- CANCELLED
        (67 ∷ 65 ∷ 78 ∷ 67 ∷ 69 ∷ 76 ∷ 76 ∷ 69 ∷ 68 ∷ [], SubscriptionStatus.cancelled)
    ∷  -- INCOMPLETE_EXPIRED
        (
          73 ∷ 78 ∷ 67 ∷ 79 ∷ 77 ∷ 80 ∷ 76 ∷ 69 ∷ 84 ∷ 69 ∷ 95 ∷ 69 ∷ 88 ∷ 80 ∷ 73 ∷ 82 ∷ 69 ∷ 68
              ∷ [],
          SubscriptionStatus.expired,
        )
    ∷  -- ENDED
        (69 ∷ 78 ∷ 68 ∷ 69 ∷ 68 ∷ [], SubscriptionStatus.expired)
    ∷  -- EXPIRED
        (69 ∷ 88 ∷ 80 ∷ 73 ∷ 82 ∷ 69 ∷ 68 ∷ [], SubscriptionStatus.expired)
    ∷ []

abbrev pub look_up : Text → List (Text × SubscriptionStatus) → Option SubscriptionStatus
look_up key [] = none
look_up key (entry ∷ rest) = if same_text entry.0 key then some entry.1 else look_up key rest

-- `localStatus`; `upper` is `toUpperCase`.
abbrev pub local_status : (Text → Text) → Text → Result BillingError SubscriptionStatus
local_status upper value = elim (look_up (upper value) statuses) [
  | some status ↦ ok status
  | none ↦ err (BillingError.from_provider ProviderError.provider_error)
]
