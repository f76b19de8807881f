-- ===== src/Billing/Repeats/Webhook.antt =====
-- A webhook that the provider delivers twice, and one whose processing fails.
use ai_tgs.Common.{
  ==_refl, Bool, Bool-cases, Ensures, List, Option-cases, Result, Text, [], any, any-append_last,
  any-of_find, any-of_none, any-update, arith, err, false, find, find-of_any, inl, inr, none, ok,
  refl, subst, suc, sym, true, update, ℕ, ◌≡◌, ◌++◌, ◌∷◌, ◌∙◌, ◌>>=◌,
}
use ai_tgs.Billing.Rows.{Ledger, BillingError, BillingEvent, WebhookEvent, PaymentProvider}
use ai_tgs.Billing.Store.{is_event, is_delivery}
use ai_tgs.Billing.Process.{process, started, set_ignored, set_processed, is_finished}
use ai_tgs.Billing.Service
use ai_tgs.Billing.Service.{deliver, insert_event, verified, new_event, saved_event, WebhookAnswer}
use ai_tgs.Billing.Repeats.{process_open-events}
use ai_tgs.Common.Handlers.{After->>=, transaction, After-committed}

abbrev answer_duplicate : Ledger → Result BillingError WebhookAnswer × Ledger
answer_duplicate t = (ok (record { duplicate = true }), t)

-- The table after the event is saved, before it is processed.
abbrev pub with_event : ℕ → ℕ → WebhookEvent → Text → Ledger → Ledger
with_event now provider e hash s = record s {
  events = s.events ++ new_event s.next_id now provider e hash ∷ [];
  next_id = suc s.next_id;
}

module _ (upper : Text → Text) where
  -- The event of the provider is stored.
  abbrev IsStored : ℕ → ℕ → List BillingEvent → Type 0
  IsStored provider id xs = any (is_delivery provider id) xs ≡ true

  update-IsStored :
      (provider id : ℕ) (u : BillingEvent → Bool) (f : BillingEvent → BillingEvent)
      (xs : List BillingEvent)
      → ((r : BillingEvent) → is_delivery provider id (f r) ≡ is_delivery provider id r)
      → IsStored provider id xs
      → IsStored provider id (update u f xs)
  update-IsStored provider id u f xs same h = any-update (is_delivery provider id) u f xs same ∙ h

  process-IsStored :
      (now token id provider event : ℕ) (e : WebhookEvent) (s : Ledger)
      → IsStored provider event s.events
      → Ensures {E = BillingError}
          (λ _ t. IsStored provider event t.events)
          (process upper now token id e s)
  unfolding process
  process-IsStored now token id provider event e s h =
      elim (Option-cases (find (is_event id) s.events)) [
        | inl gone ↦ rw (gone, ◌>>=◌) h
        | inr (row, found) ↦ elim (Bool-cases (is_finished row.status)) [
          | inl done ↦ rw (found, ◌>>=◌, done) h
          | inr fresh ↦
              rw (found, ◌>>=◌, fresh)
                (process_open-events upper (IsStored provider event) (IsStored provider event)
                  row.id
                  (λ now' xs k.
                    update-IsStored provider event (is_event row.id) (set_ignored now') xs
                      (λ r. refl) k)
                  (λ now' related xs k.
                    update-IsStored provider event (is_event row.id) (set_processed now' related) xs
                      (λ r. refl) k)
                  now token row e s refl
                  (update-IsStored provider event (is_event row.id) (started now token) s.events
                    (λ r. refl) h))
        ]
      ]

  deliver-new :
      (now token provider : ℕ) (e : WebhookEvent) (hash : Text) (s : Ledger)
      → find (is_delivery provider e.id) s.events ≡ none
      → deliver upper now token provider e hash s
        ≡ saved_event upper now token e (ok s.next_id) (with_event now provider e hash s)
  unfolding deliver insert_event
  deliver-new now token provider e hash s new =
      let free : any (is_delivery provider e.id) s.events ≡ false =
        any-of_none (is_delivery provider e.id) s.events new in
      rw (new, insert_event, free) refl

  deliver-IsStored :
      (now token provider : ℕ) (e : WebhookEvent) (hash : Text) (s : Ledger)
      → IsStored provider e.id (deliver upper now token provider e hash s).1.events
  unfolding deliver
  deliver-IsStored now token provider e hash s =
      elim (Option-cases (find (is_delivery provider e.id) s.events)) [
        | inr (row, found) ↦ rw found (any-of_find (is_delivery provider e.id) s.events row found)
        | inl new ↦
            let t = with_event now provider e hash s in
            let kept : IsStored provider e.id t.events =
              any-append_last (is_delivery provider e.id) s.events
                (new_event s.next_id now provider e hash) (ground arith) in
            let I : Ledger → Type 0 = λ u. IsStored provider e.id u.events in
            subst (λ r. IsStored provider e.id r.1.events)
              (sym (deliver-new now token provider e hash s new))
              (After->>= I (transaction (process upper now token s.next_id e)) _ t
                (After-committed I t (process upper now token s.next_id e t) kept
                  (process-IsStored now token s.next_id provider e.id e t kept))
                (λ _ _ k. k))
      ]

  deliver-again :
      (now token provider : ℕ) (e : WebhookEvent) (hash : Text) (t : Ledger)
      → IsStored provider e.id t.events
      → deliver upper now token provider e hash t ≡ answer_duplicate t
  unfolding deliver
  deliver-again now token provider e hash t h =
      let (row, found) = find-of_any (is_delivery provider e.id) t.events h in rw found refl

  webhook-verified :
      (hash : Text → Text) (p : PaymentProvider) (now token : ℕ) (raw signature : Text)
      (e : WebhookEvent) (s : Ledger)
      → p.verify_and_parse_webhook raw signature ≡ ok e
      → Service.webhook upper hash p now token p.name raw signature s
        ≡ deliver upper now token p.name e (hash raw) s
  unfolding Service.webhook verified
  webhook-verified hash p now token raw signature e s eq = rw (==_refl p.name, verified, eq) refl

  failed_event :
      (now token : ℕ) (e : WebhookEvent) (x : BillingError) (t : Ledger) (id : ℕ)
      → process upper now token id e t ≡ err x
      → saved_event upper now token e (ok id) t ≡ (err x, t)
  failed_event now token e x t id failed = rw failed refl

  -- A verified payload that is delivered again, at whatever time, is answered as a duplicate and
  -- changes no table, whether its first processing succeeded or threw.
  pub webhook-webhook :
      (hash : Text → Text) (p : PaymentProvider) (now token later token' : ℕ) (raw signature : Text)
      (e : WebhookEvent) (s : Ledger)
      → p.verify_and_parse_webhook raw signature ≡ ok e
      → Service.webhook upper hash p later token' p.name raw signature
          (Service.webhook upper hash p now token p.name raw signature s).1
        ≡ answer_duplicate (Service.webhook upper hash p now token p.name raw signature s).1
  webhook-webhook hash p now token later token' raw signature e s eq =
      let t : Ledger = (Service.webhook upper hash p now token p.name raw signature s).1 in
      let kept : IsStored p.name e.id t.events =
        subst (λ r. IsStored p.name e.id r.1.events)
          (sym (webhook-verified hash p now token raw signature e s eq))
          (deliver-IsStored now token p.name e (hash raw) s) in
      webhook-verified hash p later token' raw signature e t eq
      ∙ deliver-again later token' p.name e (hash raw) t kept

  -- Where the processing of a new verified event throws, the request fails, the event stays in the
  -- table as it was received, and no other table changes; the provider's next delivery of it is
  -- answered as a duplicate and leaves it so.
  pub webhook-unprocessed :
      (hash : Text → Text) (p : PaymentProvider) (now token later token' : ℕ) (raw signature : Text)
      (e : WebhookEvent) (x : BillingError) (s : Ledger)
      → p.verify_and_parse_webhook raw signature ≡ ok e
      → find (is_delivery p.name e.id) s.events ≡ none
      → process upper now token s.next_id e (with_event now p.name e (hash raw) s) ≡ err x
      → (Service.webhook upper hash p now token p.name raw signature s
          ≡ (err x, with_event now p.name e (hash raw) s))
        × (Service.webhook upper hash p later token' p.name raw signature
              (with_event now p.name e (hash raw) s)
            ≡ answer_duplicate (with_event now p.name e (hash raw) s))
  webhook-unprocessed hash p now token later token' raw signature e x s eq new failed =
      let t : Ledger = with_event now p.name e (hash raw) s in
      let first : Service.webhook upper hash p now token p.name raw signature s ≡ (err x, t) =
        webhook-verified hash p now token raw signature e s eq
        ∙ deliver-new now token p.name e (hash raw) s new
        ∙ failed_event now token e x t s.next_id failed in
      (
        first,
        webhook-verified hash p later token' raw signature e t eq
            ∙ deliver-again later token' p.name e (hash raw) t (
                any-append_last (is_delivery p.name e.id) s.events
                  (new_event s.next_id now p.name e (hash raw)) (ground arith)),
      )
