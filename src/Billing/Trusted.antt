-- ===== src/Billing/Trusted.antt =====
-- What changes subscriptions: events of the provider whose signature was verified, and its own
-- answers; checkouts, cancellations and new mappings do not.
use ai_tgs.Common.{
  List, Text, Option, Option-cases, Bool-cases, Result, ok, err, ℕ, ◌≡◌, refl, not, any, find,
  select, inl, inr, ◌==◌, ◌&&◌, ◌⊎◌, arith,
}
use ai_tgs.Common.Handlers.{After->>=, After-throw_if, After-or_throw, After-answer, ◌>>=◌}
use ai_tgs.Exam.Rows.{User}
use ai_tgs.Billing.Rows.{
  Ledger, BillingError, PaymentProvider, CheckoutDto, OwnerType, PlanProviderPrice, BillingCustomer,
  BillingCheckoutSession, WebhookEvent,
}
use ai_tgs.Billing.Store.{same_id}
use ai_tgs.Billing.Service
use ai_tgs.Billing.Service.{
  asked, owner_of, has_key, is_active_plan, is_price_of, is_customer, insert_customer, customer_of,
  collides, insert_checkout, new_checkout, latest, is_managed, verified, deliver,
}
use ai_tgs.Billing.Runs.{Op, Request, perform}

Result-cases : {E A : Type 0} (r : Result E A) → ((a : A) × (r ≡ ok a)) ⊎ ((e : E) × (r ≡ err e))
Result-cases (ok a) = inl (a, refl)
Result-cases (err e) = inr (e, refl)

-- Subscriptions and ids are as before.
abbrev pub IsStill : Ledger → Ledger → Type 0
IsStill s t = (t.subscriptions ≡ s.subscriptions) × (t.next_id ≡ s.next_id)

-- The customer's part of a checkout only adds a row to the customers.
pub customer_of-keeps :
    (I : Ledger → Type 0)
    → ((t : Ledger) (rows : List BillingCustomer) → I t → I (record t { customers = rows }))
    → (p : PaymentProvider) (type : OwnerType) (owner : ℕ) (s : Ledger) → I s
    → I (customer_of p type owner s).1
unfolding customer_of insert_customer
customer_of-keeps I keep p type owner s h =
    elim (Option-cases (find (is_customer type owner p.name) s.customers)) [
      | inr (r, found) ↦ rw found h
      | inl missing ↦ elim (Bool-cases p.requires_customer) [
        | inr no_need ↦ rw (missing, no_need) h
        | inl needs ↦
            rw (missing, needs)
              (After-answer I (asked (p.create_customer type owner)) _ s h (λ created _.
                After-or_throw I created BillingError.customer_creation_failed _ s h (λ id _.
                  After->>= I
                    (insert_customer (record {
                      owner_type = type;
                      owner_id = owner;
                      provider = p.name;
                      provider_customer_id = id;
                    }))
                    _ s
                    (After-throw_if I
                      (any
                        (λ (x : BillingCustomer).
                          x.provider == p.name && x.provider_customer_id == id)
                        s.customers)
                      BillingError.unique_violation _ s h (λ _. keep s _ h))
                    (λ _ _ k. k))))
      ]
    ]

customer_of-IsStill :
    (p : PaymentProvider) (type : OwnerType) (owner : ℕ) (s : Ledger)
    → IsStill s (customer_of p type owner s).1
customer_of-IsStill p type owner s =
    customer_of-keeps (IsStill s) (λ t rows h. h) p type owner s (refl, refl)

insert_checkout-IsStill :
    (c : BillingCheckoutSession) (s t : Ledger) → IsStill s t → IsStill s (insert_checkout c t).1
unfolding insert_checkout
insert_checkout-IsStill c s t h =
    After-throw_if (IsStill s) (any (collides c) t.checkouts) BillingError.idempotency_conflict _ t
      h (λ _. h)

new_checkout-IsStill :
    (p : PaymentProvider) (dto : CheckoutDto) (user : User) (owner : ℕ) (s : Ledger)
    → IsStill s (new_checkout p dto user owner s).1
unfolding new_checkout
new_checkout-IsStill p dto user owner s =
    After-or_throw (IsStill s) (find (is_active_plan dto.plan_id) s.plans)
      BillingError.plan_not_found _ s (refl, refl)
      (λ plan _.
        After-or_throw (IsStill s) (find (is_price_of plan.id p.name) s.prices)
          BillingError.not_commercially_configured _ s (refl, refl)
          (λ price _.
            After->>= (IsStill s) (customer_of p dto.owner_type owner) _ s
              (customer_of-IsStill p dto.owner_type owner s)
              (λ customer _ k.
                After-answer (IsStill s)
                  (asked (
                    p.create_checkout_session (record {
                      customer_id = customer;
                      price_id = price.provider_price_id;
                      idempotency_key = dto.idempotency_key;
                      plan_id = plan.id;
                      owner_type = dto.owner_type;
                      owner_id = owner;
                    })))
                  _ _ k
                  (λ session _.
                    After->>= (IsStill s) (insert_checkout _) _ _ (insert_checkout-IsStill _ s _ k)
                      (λ _ _ m. m)))))

pub checkout-IsStill :
    (configured : Option ℕ) (p : PaymentProvider) (dto : CheckoutDto) (user : User) (s : Ledger)
    → IsStill s (Service.checkout configured p dto user s).1
unfolding Service.checkout
checkout-IsStill configured p dto user s =
    After-throw_if (IsStill s) (not (same_id configured p.name))
      BillingError.provider_not_configured _ s (refl, refl)
      (λ _.
        After-or_throw (IsStill s) (owner_of dto.owner_type user) BillingError.owner_not_authorized
          _ s (refl, refl)
          (λ owner _. elim (Option-cases (find (has_key user.id dto.idempotency_key) s.checkouts)) [
            | inl fresh ↦ rw fresh (new_checkout-IsStill p dto user owner s)
            | inr (c, found) ↦ rw found (refl, refl)
          ]))

pub cancel-IsStill :
    (configured : Option ℕ) (p : PaymentProvider) (user : User) (s : Ledger)
    → IsStill s (Service.cancel configured p user s).1
unfolding Service.cancel
cancel-IsStill configured p user s =
    After-throw_if (IsStill s) (not (same_id configured p.name))
      BillingError.provider_not_configured _ s (refl, refl)
      (λ _.
        After-or_throw (IsStill s) (latest (select (is_managed p.name user) s.subscriptions))
          BillingError.subscription_not_found _ s (refl, refl)
          (λ row _.
            After-or_throw (IsStill s) row.provider_subscription_id
              BillingError.subscription_not_found _ s (refl, refl)
              (λ remote _.
                After-answer (IsStill s) (asked (p.cancel_subscription remote)) _ s (refl, refl)
                  (λ _ _. (refl, refl)))))

module _ (upper : Text → Text) where
  pub create_mapping-IsStill :
      (dto : PlanProviderPrice) (s : Ledger) → IsStill s (Service.create_mapping upper dto s).1
  unfolding Service.create_mapping
  create_mapping-IsStill dto s =
      After-throw_if (IsStill s)
        (any
          (λ (r : PlanProviderPrice).
            r.provider == dto.provider && r.provider_price_id == dto.provider_price_id)
          s.prices)
        BillingError.unique_violation _ s (refl, refl) (λ _. (refl, refl))

  webhook-IsTrusted :
      (hash : Text → Text) (p : PaymentProvider) (now token provider : ℕ) (raw signature : Text)
      (s : Ledger)
      → ((Service.webhook upper hash p now token provider raw signature s).1.subscriptions
          ≡ s.subscriptions)
        ⊎ ((provider ≡ p.name)
            × ((e : WebhookEvent) × (p.verify_and_parse_webhook raw signature ≡ ok e)))
  unfolding Service.webhook verified
  webhook-IsTrusted hash p now token provider raw signature s =
      elim (Bool-cases (provider == p.name)) [
        | inr other ↦ rw (◌>>=◌, other) (inl refl)
        | inl same ↦ elim (Result-cases (p.verify_and_parse_webhook raw signature)) [
          | inl (e, eq) ↦ inr (ground arith, (e, eq))
          | inr (e, eq) ↦ rw (◌>>=◌, same, verified, eq) (inl refl)
        ]
      ]

-- The request is a verified event of the configured provider, or asks for one to be processed again
-- or for the provider's own state.
abbrev pub IsTrusted : Request → Type 0
IsTrusted r = elim r.op [
  | Op.webhook provider raw signature ↦
      (provider ≡ r.provider.name)
      × ((e : WebhookEvent) × (r.provider.verify_and_parse_webhook raw signature ≡ ok e))
  | Op.retry id ↦ Unit
  | Op.reconcile ↦ Unit
  | _ ↦ ⊥
]

module _ (upper hash : Text → Text) (configured : Option ℕ) where
  -- A request that changes the table of subscriptions is a webhook for the provider in use whose
  -- signature the provider verified, the retry of a stored event, or a reconciliation; checkouts,
  -- cancellations, new price mappings and webhooks that fail verification leave the table as it is.
  pub perform-IsTrusted :
      (r : Request) (s : Ledger)
      → ((perform upper hash configured r s).subscriptions ≡ s.subscriptions) ⊎ IsTrusted r
  unfolding perform
  perform-IsTrusted r s = by_op r.op refl
    where
      by_op :
          (op : Op)
          → r.op ≡ op
          → ((perform upper hash configured r s).subscriptions ≡ s.subscriptions) ⊎ IsTrusted r
      by_op (Op.checkout dto user) e =
          rw (perform, e) (inl (checkout-IsStill configured r.provider dto user s).0)
      by_op (Op.webhook provider raw signature) e =
          rw (perform, e)
            (webhook-IsTrusted upper hash r.provider r.now r.token provider raw signature s)
      by_op (Op.cancel user) e =
          rw (perform, e) (inl (cancel-IsStill configured r.provider user s).0)
      by_op (Op.create_mapping dto) e = rw (perform, e) (inl (create_mapping-IsStill upper dto s).0)
      by_op (Op.retry id) e = rw e (inr tt)
      by_op Op.reconcile e = rw e (inr tt)
