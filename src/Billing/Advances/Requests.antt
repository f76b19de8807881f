-- ===== src/Billing/Advances/Requests.antt =====
-- Runs of requests to BillingService.
use ai_tgs.Common.{
  List, Text, Option, Option-cases, Bool-cases, Result, ok, err, [], ◌∷◌, ℕ, ◌≡◌, refl, not, any,
  find, select, inl, inr, ◌==◌, Ensures, arith, All, All-map, ◌<◌, suc,
}
use ai_tgs.Common.Handlers.{
  After->>=, After-throw_if, After-or_throw, After-committed, After-last_or_throw, transaction,
  ◌>>=◌,
}
use ai_tgs.Exam.Rows.{}
use ai_tgs.Billing.Rows.{
  Ledger, BillingError, WebhookEvent, PaymentProvider, Subscription, ProviderError,
  RemoteSubscription,
}
use ai_tgs.Billing.Store.{is_event, is_delivery, same_id}
use ai_tgs.Billing.Process.{process}
use ai_tgs.Billing.Service
use ai_tgs.Billing.Service.{
  asked, active_provider, owner_of, has_key, is_active_plan, is_price_of, is_customer,
  insert_customer, customer_of, collides, insert_checkout, new_checkout, verified, insert_event,
  deliver, saved_event, latest, is_managed,
}
use ai_tgs.Billing.Reconcile.{
  Outcome, ReconcileResult, reconcile_one, turn, turn_end, answered, reconcile_all, reconcilable,
}
use ai_tgs.Billing.Reconcile
use ai_tgs.Billing.Runs.{Op, Request, perform, run}
use ai_tgs.Billing.Advances.{IsTidy, Advances, IsLaterTable-refl, Advances-trans}
use ai_tgs.Billing.Trusted.{IsStill, checkout-IsStill, cancel-IsStill, create_mapping-IsStill}
use ai_tgs.Billing.Advances.{subscription_key, IsLaterTable}
use ai_tgs.Common.{subst, sym, IsUnique}
use ai_tgs.Billing.Advances.Process.{process-Advances, reconcile_one-Advances}

still : (s : Ledger) → IsTidy s → Advances s s
still s h = (h, IsLaterTable-refl s.subscriptions)

IsStill-Advances : (s t : Ledger) → IsTidy s → IsStill s t → Advances s t
IsStill-Advances s t h (same, ids) = (
  (
    subst (IsUnique subscription_key) (sym same) h.0,
    subst (λ xs. All (λ (x : Subscription). x.id < t.next_id) xs) (sym same)
        (subst (λ n. All (λ (x : Subscription). x.id < n) s.subscriptions) (sym ids) h.1),
  ),
  subst (IsLaterTable s.subscriptions) (sym same) (IsLaterTable-refl s.subscriptions),
)

module _ (upper : Text → Text) where
  insert_event-Advances :
      (now provider : ℕ) (e : WebhookEvent) (hash : Text) (s : Ledger)
      → IsTidy s
      → Advances s (insert_event now provider e hash s).1
  unfolding insert_event
  insert_event-Advances now provider e hash s h =
      After-throw_if (Advances s) (any (is_delivery provider e.id) s.events)
        BillingError.unique_violation _ s (still s h)
        (λ _. ((h.0, below), IsLaterTable-refl s.subscriptions))
    where
      below : All (λ (x : Subscription). x.id < suc s.next_id) s.subscriptions
      below =
          All-map (λ (x : Subscription). x.id < s.next_id)
            (λ (x : Subscription). x.id < suc s.next_id) s.subscriptions (λ x k. omega (arith, k))
            h.1

  saved_event-Advances :
      (now token : ℕ) (e : WebhookEvent) (saved : Result BillingError ℕ) (s t : Ledger)
      → Advances s t
      → Advances s (saved_event upper now token e saved t).1
  saved_event-Advances now token e (err x) s t k = k
  saved_event-Advances now token e (ok id) s t k =
      let u : Ledger = (transaction (process upper now token id e) t).1 in
      After->>= (Advances s) (transaction (process upper now token id e)) _ t
        (Advances-trans s t u k (
          After-committed (Advances t) t (process upper now token id e t) (still t k.0)
            (process-Advances upper now token id e t k.0)))
        (λ _ _ m. m)

  deliver-Advances :
      (now token provider : ℕ) (e : WebhookEvent) (hash : Text) (s : Ledger)
      → IsTidy s
      → Advances s (deliver upper now token provider e hash s).1
  unfolding deliver
  deliver-Advances now token provider e hash s h =
      elim (Option-cases (find (is_delivery provider e.id) s.events)) [
        | inr (row, found) ↦ rw found (still s h)
        | inl new ↦
            let saved = insert_event now provider e hash s in
            rw new (
              saved_event-Advances now token e saved.0 s saved.1
                (insert_event-Advances now provider e hash s h))
      ]

  webhook-Advances :
      (hash : Text → Text) (p : PaymentProvider) (now token provider : ℕ) (raw signature : Text)
      (s : Ledger)
      → IsTidy s
      → Advances s (Service.webhook upper hash p now token provider raw signature s).1
  unfolding Service.webhook verified
  webhook-Advances hash p now token provider raw signature s h =
      After-throw_if (Advances s) (not (provider == p.name)) BillingError.unknown_provider _ s
        (still s h) (λ _. checked (p.verify_and_parse_webhook raw signature) refl)
    where
      checked :
          (r : Result ProviderError WebhookEvent)
          → p.verify_and_parse_webhook raw signature ≡ r
          → Advances s
              ((verified p raw signature >>= λ e. deliver upper now token provider e (hash raw))
                s).1
      checked (ok e) eq = rw (verified, eq) (deliver-Advances now token provider e (hash raw) s h)
      checked (err e) eq = rw (verified, eq) (still s h)

  retry-Advances :
      (now token id : ℕ) (s : Ledger) → IsTidy s → Advances s (Service.retry upper now token id s).1
  unfolding Service.retry
  retry-Advances now token id s h =
      After-or_throw (Advances s) (find (is_event id) s.events) BillingError.event_not_found _ s
        (still s h)
        (λ row _.
          After->>= (Advances s) (transaction (process upper now token id row.normalized)) _ s
            (After-committed (Advances s) s (process upper now token id row.normalized s)
              (still s h) (process-Advances upper now token id row.normalized s h))
            (λ _ _ k.
              After-last_or_throw (Advances s)
                (find (is_event id)
                  (transaction (process upper now token id row.normalized) s).1.events)
                BillingError.event_not_found _ k))

  turn_end-Advances :
      (id : ℕ) (s : Ledger) (r : Result BillingError (Outcome × Ledger))
      → IsTidy s
      → Ensures {E = BillingError} (λ _. Advances s) r
      → Advances s (turn_end id s r).1
  turn_end-Advances id s (ok r) h k = k
  turn_end-Advances id s (err e) h k = still s h

  answered-Advances :
      (p : PaymentProvider) (x : Subscription) (s : Ledger)
      (r : Result ProviderError RemoteSubscription)
      → IsTidy s
      → Advances s (answered upper p x s r).1
  answered-Advances p x s (err e) h = still s h
  answered-Advances p x s (ok remote) h =
      turn_end-Advances x.id s (reconcile_one upper p.name x.id remote s) h
        (reconcile_one-Advances upper p.name x.id remote s h)

  turn-Advances :
      (p : PaymentProvider) (x : Subscription) (s : Ledger)
      → IsTidy s
      → Advances s (turn upper p x s).1
  unfolding turn
  turn-Advances p x s h = elim (Option-cases x.provider_subscription_id) [
    | inl without ↦ rw without (still s h)
    | inr (id, with_id) ↦ rw with_id (answered-Advances p x s (p.get_subscription id) h)
  ]

  reconcile_all-Advances :
      (p : PaymentProvider) (xs : List Subscription) (s : Ledger)
      → IsTidy s
      → Advances s (reconcile_all upper p xs s).1
  unfolding reconcile_all
  reconcile_all-Advances p [] s h = still s h
  reconcile_all-Advances p (x ∷ xs) s h =
      let first = turn-Advances p x s h in
      let t = (turn upper p x s).1 in
      Advances-trans s t (reconcile_all upper p xs t).1 first
        (reconcile_all-Advances p xs t first.0)

  reconcile-Advances :
      (configured : Option ℕ) (p : PaymentProvider) (s : Ledger)
      → IsTidy s
      → Advances s (Reconcile.reconcile upper configured p s).1
  unfolding Reconcile.reconcile
  reconcile-Advances configured p s h = elim (Bool-cases (same_id configured p.name)) [
    | inl active ↦
        rw active (reconcile_all-Advances p (select (reconcilable p.name) s.subscriptions) s h)
    | inr other ↦ rw other (still s h)
  ]

module _ (upper hash : Text → Text) (configured : Option ℕ) where
  pub perform-Advances :
      (r : Request) (s : Ledger) → IsTidy s → Advances s (perform upper hash configured r s)
  unfolding perform
  perform-Advances r s h = by_op r.op refl
    where
      by_op : (op : Op) → r.op ≡ op → Advances s (perform upper hash configured r s)
      by_op (Op.checkout dto user) e =
          rw (perform, e)
            (IsStill-Advances s (Service.checkout configured r.provider dto user s).1 h
              (checkout-IsStill configured r.provider dto user s))
      by_op (Op.webhook provider raw signature) e =
          rw (perform, e)
            (webhook-Advances upper hash r.provider r.now r.token provider raw signature s h)
      by_op (Op.cancel user) e =
          rw (perform, e)
            (IsStill-Advances s (Service.cancel configured r.provider user s).1 h
              (cancel-IsStill configured r.provider user s))
      by_op (Op.create_mapping dto) e =
          rw (perform, e)
            (IsStill-Advances s (Service.create_mapping upper dto s).1 h
              (create_mapping-IsStill upper dto s))
      by_op (Op.retry id) e = rw (perform, e) (retry-Advances upper r.now r.token id s h)
      by_op Op.reconcile e = rw (perform, e) (reconcile-Advances upper configured r.provider s h)

  -- Along every run of requests, from tables in which the ids of subscriptions are unique and below
  -- the next id, every stored subscription stays stored under its id, and at the end it is as it
  -- was or its time of the provider's state is set and not older than before; the ids stay unique.
  pub run-Advances :
      (rs : List Request) (s : Ledger) → IsTidy s → Advances s (run upper hash configured rs s)
  unfolding run
  run-Advances [] s h = still s h
  run-Advances (r ∷ rs) s h =
      let first = perform-Advances r s h in
      let t = perform upper hash configured r s in
      Advances-trans s t (run upper hash configured rs t) first (run-Advances rs t first.0)
