-- ===== src/Billing/Runs.antt =====
-- The requests to BillingService that may change its tables, and runs of them.
use ai_tgs.Common.{List, [], ◌∷◌, ℕ, Text, Option}
use ai_tgs.Exam.Rows.{User}
use ai_tgs.Billing.Rows.{Ledger, PaymentProvider, CheckoutDto, PlanProviderPrice}
use ai_tgs.Billing.Service
use ai_tgs.Billing.Reconcile

pub data Op : Type 0 where
  checkout : CheckoutDto → User → Op
  webhook : ℕ → Text → Text → Op
  cancel : User → Op
  create_mapping : PlanProviderPrice → Op
  retry : ℕ → Op
  reconcile : Op

-- A request, with what the provider answers meanwhile.
pub record Request : Type 0 where
  pub op : Op
  pub now : ℕ
  pub token : ℕ
  pub provider : PaymentProvider

module _ (upper hash : Text → Text) (configured : Option ℕ) where
  unfoldable pub perform : Request → Ledger → Ledger
  perform r s = elim r.op [
    | Op.checkout dto user ↦ (Service.checkout configured r.provider dto user s).1
    | Op.webhook provider raw signature ↦
        (Service.webhook upper hash r.provider r.now r.token provider raw signature s).1
    | Op.cancel user ↦ (Service.cancel configured r.provider user s).1
    | Op.create_mapping dto ↦ (Service.create_mapping upper dto s).1
    | Op.retry id ↦ (Service.retry upper r.now r.token id s).1
    | Op.reconcile ↦ (Reconcile.reconcile upper configured r.provider s).1
  ]

  unfoldable pub run : List Request → Ledger → Ledger
  run [] s = s
  run (r ∷ rs) s = run rs (perform r s)
