-- ===== src/Billing/Repeats/Checkout.antt =====
-- A checkout that is asked for twice with one idempotency key.
use ai_tgs.Common.{
  ◌∙◌, Option, Option-cases, ok, none, some, [], ◌∷◌, ℕ, ◌≡◌, refl, ap, not, any, find, inl, inr,
  false, arith, find-append,
}
use ai_tgs.Common.Handlers.{
  Returns, Returns->>=, Returned-of_After, Returned-mono, Returns-throw_if, Returns-or_throw,
  Returns-answer,
}
use ai_tgs.Exam.Rows.{User}
use ai_tgs.Billing.Rows.{
  Ledger, BillingError, PaymentProvider, CheckoutDto, BillingCheckoutSession, CheckoutStatus,
}
use ai_tgs.Billing.Store.{same_id}
use ai_tgs.Billing.Service
use ai_tgs.Billing.Service.{
  CheckoutAnswer, asked, owner_of, has_key, is_active_plan, is_price_of, customer_of, collides,
  insert_checkout, new_checkout,
}
use ai_tgs.Billing.Trusted.{customer_of-keeps}

abbrev pub session_of : CheckoutAnswer → ℕ
session_of (CheckoutAnswer.fresh session) = session.id
session_of (CheckoutAnswer.stored id expires) = id

abbrev pub expires_of : CheckoutAnswer → ℕ
expires_of (CheckoutAnswer.fresh session) = session.expires_at
expires_of (CheckoutAnswer.stored id expires) = expires

-- The answer is that of the stored session of a user and a key.
abbrev HasSession : ℕ → ℕ → CheckoutAnswer → Ledger → Type 0
HasSession user key a t =
    (c : BillingCheckoutSession) × ((find (has_key user key) t.checkouts ≡ some c)
      × ((c.provider_session_id ≡ session_of a) × (c.expires_at ≡ expires_of a)))

insert_checkout-found :
    (c : BillingCheckoutSession) (t : Ledger)
    → find (has_key c.user_id c.idempotency_key) t.checkouts ≡ none
    → Returns {E = BillingError}
        (λ _ u. find (has_key c.user_id c.idempotency_key) u.checkouts ≡ some c)
        (insert_checkout c t)
unfolding insert_checkout
insert_checkout-found c t free =
    Returns-throw_if (λ _ u. find (has_key c.user_id c.idempotency_key) u.checkouts ≡ some c)
      (any (collides c) t.checkouts) BillingError.idempotency_conflict _ t
      (λ _.
        find-append (has_key c.user_id c.idempotency_key) t.checkouts (c ∷ []) (some c) free
          (ground arith))

new_checkout-HasSession :
    (p : PaymentProvider) (dto : CheckoutDto) (user : User) (owner : ℕ) (s : Ledger)
    → find (has_key user.id dto.idempotency_key) s.checkouts ≡ none
    → Returns {E = BillingError}
        (HasSession user.id dto.idempotency_key)
        (new_checkout p dto user owner s)
unfolding new_checkout
new_checkout-HasSession p dto user owner s free =
    let Q = HasSession user.id dto.idempotency_key in
    let I : Ledger → Type 0 = λ t. find (has_key user.id dto.idempotency_key) t.checkouts ≡ none in
    Returns-or_throw Q (find (is_active_plan dto.plan_id) s.plans) BillingError.plan_not_found _ s
      (λ plan _.
        Returns-or_throw Q (find (is_price_of plan.id p.name) s.prices)
          BillingError.not_commercially_configured _ s
          (λ price _.
            Returns->>= Q (λ _. I) (customer_of p dto.owner_type owner) _ s
              (Returned-of_After I (customer_of p dto.owner_type owner s).0
                (customer_of p dto.owner_type owner s).1
                (customer_of-keeps I (λ t rows h. h) p dto.owner_type owner s free))
              (λ customer t k.
                Returns-answer Q
                  (asked (
                    p.create_checkout_session (record {
                      customer_id = customer;
                      price_id = price.provider_price_id;
                      idempotency_key = dto.idempotency_key;
                      plan_id = plan.id;
                      owner_type = dto.owner_type;
                      owner_id = owner;
                    })))
                  _ t
                  (λ session _.
                    let c : BillingCheckoutSession = record {
                      user_id = user.id;
                      owner_type = dto.owner_type;
                      owner_id = owner;
                      plan_id = plan.id;
                      provider = p.name;
                      provider_session_id = session.id;
                      idempotency_key = dto.idempotency_key;
                      status = CheckoutStatus.opened;
                      expires_at = session.expires_at;
                    } in
                    Returns->>= Q
                      (λ _ u. find (has_key user.id dto.idempotency_key) u.checkouts ≡ some c)
                      (insert_checkout c) _ t (insert_checkout-found c t k)
                      (λ _ u found. (c, (found, (refl, refl))))))))

-- After a checkout that returned, another one of the same user with the same key and provider, for
-- any plan and any owner that the user may buy for, returns the same session and changes nothing.
pub checkout-checkout :
    (configured : Option ℕ) (p : PaymentProvider) (dto dto' : CheckoutDto) (user : User) (owner : ℕ)
    (s : Ledger)
    → dto'.idempotency_key ≡ dto.idempotency_key
    → owner_of dto'.owner_type user ≡ some owner
    → Returns {E = BillingError}
        (λ a t.
          Service.checkout configured p dto' user t
          ≡ (ok (CheckoutAnswer.stored (session_of a) (expires_of a)), t))
        (Service.checkout configured p dto user s)
unfolding Service.checkout
checkout-checkout configured p dto dto' user owner s same may =
    let Q : CheckoutAnswer → Ledger → Type 0 = λ a t.
      Service.checkout configured p dto' user t
      ≡ (ok (CheckoutAnswer.stored (session_of a) (expires_of a)), t) in
    Returns-throw_if Q (not (same_id configured p.name)) BillingError.provider_not_configured _ s
      (λ active.
        Returns-or_throw Q (owner_of dto.owner_type user) BillingError.owner_not_authorized _ s
          (λ owner' _.
            elim (Option-cases (find (has_key user.id dto.idempotency_key) s.checkouts)) [
              | inr (c, found) ↦ rw found (
                  repeated (CheckoutAnswer.stored c.provider_session_id c.expires_at) s active
                    (c, (found, (refl, refl))))
              | inl fresh ↦ rw fresh (
                  Returned-mono (HasSession user.id dto.idempotency_key) Q
                    (new_checkout p dto user owner' s).0 (new_checkout p dto user owner' s).1
                    (λ a h. repeated a (new_checkout p dto user owner' s).1 active h)
                    (new_checkout-HasSession p dto user owner' s fresh))
            ]))
  where
    repeated :
        (a : CheckoutAnswer) (t : Ledger)
        → not (same_id configured p.name) ≡ false
        → HasSession user.id dto.idempotency_key a t
        → Service.checkout configured p dto' user t
          ≡ (ok (CheckoutAnswer.stored (session_of a) (expires_of a)), t)
    repeated a t active (c, (found, (session, expires))) =
        let found' : find (has_key user.id dto'.idempotency_key) t.checkouts ≡ some c =
          rw same found in
        let first : Service.checkout configured p dto' user t
            ≡ (ok (CheckoutAnswer.stored c.provider_session_id c.expires_at), t) =
          rw (active, may, found') refl in
        first
        ∙ ap (λ i. (ok (CheckoutAnswer.stored i c.expires_at), t)) session
        ∙ ap (λ i. (ok (CheckoutAnswer.stored (session_of a) i), t)) expires
