-- ===== src/Entitlement/Tests.antt =====
-- The theorems on a table of three subscriptions.
use ai_tgs.Entitlement.Laws.{IsGranted, resolve-prefers_current, resolve-IsGranted}
use ai_tgs.Common.{IsIn, List, Option, [], inl, inr, none, refl, some, true, ℕ, ◌≡◌, ◌≢◌, ◌∷◌}
use ai_tgs.Entitlement.{
  resolve, Limits, SubscriptionStatus, SubscriptionRow, Requester, choose_row,
  subscription_inactive, LimitValue, sort_rows, belongs, subscription_expired, insert_row,
  no_active_subscription, check_row, granted, with_limit,
}
use ai_tgs.Usage.Rows.{UsageMetric}

abbrev limits : Limits
limits = record {
  ai_questions_per_period = LimitValue.safe_integer 20;
  tests_per_period = LimitValue.null;
  pdf_exports_per_period = LimitValue.undefined;
  storage_bytes = LimitValue.negative_integer 1;
}

abbrev row : ℕ → Option ℕ → Option ℕ → SubscriptionStatus → SubscriptionRow
row id user school status = record {
  subscription_id = id;
  plan_id = 4;
  user_id = user;
  school_id = school;
  status = status;
  current_period_start = 100;
  current_period_end = 200;
  created_at = id;
  is_active = true;
  limits = limits;
}

abbrev table : List SubscriptionRow
table =
    row 1 (some 9) none SubscriptionStatus.active
    ∷ row 2 (some 8) none SubscriptionStatus.active
    ∷ row 3 none (some 5) SubscriptionStatus.cancelled
    ∷ []

abbrev teacher : Requester
teacher = record { id = 9; school_id = some 5 }

resolved :
    resolve 150 teacher UsageMetric.ai_questions table
    ≡ inr
        (granted (row 1 (some 9) none SubscriptionStatus.active) UsageMetric.ai_questions (some 20))
unfolding resolve choose_row sort_rows insert_row check_row with_limit
resolved = refl

resolve-IsGranted_example :
    (s : SubscriptionRow) × IsIn s table
    × (belongs teacher s ≡ true)
    × IsGranted 150 UsageMetric.ai_questions
        (granted (row 1 (some 9) none SubscriptionStatus.active) UsageMetric.ai_questions (some 20))
        s
resolve-IsGranted_example = resolve-IsGranted 150 teacher UsageMetric.ai_questions table _ resolved

resolve-prefers_current_example :
    (resolve 150 teacher UsageMetric.ai_questions table ≢ inl subscription_inactive)
    × (resolve 150 teacher UsageMetric.ai_questions table ≢ inl subscription_expired)
    × (resolve 150 teacher UsageMetric.ai_questions table ≢ inl no_active_subscription)
resolve-prefers_current_example =
    resolve-prefers_current 150 teacher UsageMetric.ai_questions table refl
