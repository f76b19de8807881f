-- ===== src/Entitlement.antt =====
-- EntitlementService.resolve (modules/subscriptions/entitlement.service.ts): which subscription a
-- request is counted against, and its limit.
pub mod Laws
mod Tests
use ai_tgs.Common.{
  ==_iff, ==_refl, Action, All, All-append, All-find, All-found, All-map, All-ne_of_none, All-same,
  All-select, All-update, All-update_by, All-update_key, All-zip, Bool, Bool-cases, Ensures,
  Ensures->>=, Ensures-of_Succeeds, Ensures-mono, IsUnique, IsUnique-append, IsUnique-select,
  IsUnique-update, List, Option, Option-cases, Ordering, Result, Succeeds, Succeeds->>=,
  Succeeds-mono, [], all, any, ap, apply_all, apply_all-select, arith, compare, count, err, false,
  find, find-fresh, find-key_of_find, find-passes, find-update_by, find-update_hit,
  find-update_kept, find-update_ne, gets, inl, inr, is_key, leb, length, length-select, ltb, map,
  max, min, modify, none, not, ok, or_throw, pure, refl, select, some, subst, suc, sum_by,
  sum_by-append, sum_by-update, sum_by-update_same, sum_by_zero, sym, throw, throw_if, true, update,
  update_miss, weight-le-sum_by, zero, ℕ, ◌≤◌, ◌<◌, ◌≡◌, ◌≢◌, ◌+◌, ◌-◌, ◌*◌, ◌/◌, ◌%◌, ◌^◌, ◌==◌,
  ◌&&◌, ◌||◌, ◌++◌, ◌∷◌, ◌↔◌, ◌⊎◌, ◌∙◌, ◌>>=◌, ◌>>◌, if◌then◌else◌,
}
use ai_tgs.Usage.Rows.{UsageMetric, ResolvedEntitlement}

pub data SubscriptionStatus : Type 0 where
  trialing active past_due cancelled expired : SubscriptionStatus

-- `[ACTIVE, TRIALING].includes(status)`
abbrev pub is_usable : SubscriptionStatus → Bool
is_usable SubscriptionStatus.active = true
is_usable SubscriptionStatus.trialing = true
is_usable _ = false

-- A value of the plan's JSON column `limits` under a key, as the code tells them apart.
pub data LimitValue : Type 0 where
  null undefined : LimitValue
  safe_integer negative_integer : ℕ → LimitValue
  other_value : LimitValue

-- The keys of `limits`; a missing `limits` object yields `undefined` at each.
pub record Limits : Type 0 where
  pub ai_questions_per_period : LimitValue
  pub tests_per_period : LimitValue
  pub pdf_exports_per_period : LimitValue
  pub storage_bytes : LimitValue

-- A row of `subscriptions JOIN plans`.
pub record SubscriptionRow : Type 0 where
  pub subscription_id : ℕ
  pub plan_id : ℕ
  pub user_id : Option ℕ
  pub school_id : Option ℕ
  pub status : SubscriptionStatus
  pub current_period_start : ℕ
  pub current_period_end : ℕ
  pub created_at : ℕ
  pub is_active : Bool
  pub limits : Limits

pub record Requester : Type 0 where
  pub id : ℕ
  pub school_id : Option ℕ

pub data EntitlementError : Type 0 where
  no_active_subscription plan_inactive subscription_inactive subscription_expired : EntitlementError
  configuration_error : EntitlementError

-- SQL equality with a nullable column and with a parameter that may be NULL.
abbrev pub is_id : Option ℕ → ℕ → Bool
is_id none i = false
is_id (some j) i = j == i

abbrev pub is_same_id : Option ℕ → Option ℕ → Bool
is_same_id a none = false
is_same_id a (some i) = is_id a i

-- `(s.user_id=$1) OR ($2::uuid IS NOT NULL AND s.school_id=$2)`
abbrev pub belongs : Requester → SubscriptionRow → Bool
belongs user s = is_id s.user_id user.id || is_same_id s.school_id user.school_id

abbrev pub school_rank : SubscriptionRow → ℕ
school_rank s = elim s.school_id [ none ↦ 1 | some _ ↦ 0 ]

-- ORDER BY CASE WHEN s.school_id IS NOT NULL THEN 0 ELSE 1 END, s.created_at DESC
abbrev pub comes_first : SubscriptionRow → SubscriptionRow → Bool
comes_first a b =
    ltb (school_rank a) (school_rank b)
    || (school_rank a == school_rank b && leb b.created_at a.created_at)

unfoldable pub insert_row : SubscriptionRow → List SubscriptionRow → List SubscriptionRow
insert_row a [] = a ∷ []
insert_row a (b ∷ bs) = if comes_first a b then a ∷ b ∷ bs else b ∷ insert_row a bs

unfoldable pub sort_rows : List SubscriptionRow → List SubscriptionRow
sort_rows [] = []
sort_rows (a ∷ as') = insert_row a (sort_rows as')

abbrev pub in_period : ℕ → SubscriptionRow → Bool
in_period now s = leb s.current_period_start now && ltb now s.current_period_end

abbrev pub is_current : ℕ → SubscriptionRow → Bool
is_current now s = is_usable s.status && in_period now s

abbrev pub limit_of : UsageMetric → Limits → LimitValue
limit_of UsageMetric.ai_questions l = l.ai_questions_per_period
limit_of UsageMetric.tests l = l.tests_per_period
limit_of UsageMetric.pdf_exports l = l.pdf_exports_per_period
limit_of UsageMetric.storage_bytes l = l.storage_bytes

abbrev pub granted : SubscriptionRow → UsageMetric → Option ℕ → ResolvedEntitlement
granted row metric limit = record {
  subscription_id = row.subscription_id;
  plan_id = row.plan_id;
  metric = metric;
  limit = limit;
  period_start = row.current_period_start;
  period_end = row.current_period_end;
}

-- `value !== null && (!Number.isSafeInteger(value) || value < 0)`, else `limit: value ?? null`.
unfoldable pub with_limit :
    SubscriptionRow → UsageMetric → LimitValue → EntitlementError ⊎ ResolvedEntitlement
with_limit row metric LimitValue.null = inr (granted row metric none)
with_limit row metric (LimitValue.safe_integer n) = inr (granted row metric (some n))
with_limit row metric _ = inl configuration_error

-- The tests on the row that was chosen, in the order of the code.
unfoldable pub check_row :
    ℕ → UsageMetric → SubscriptionRow → EntitlementError ⊎ ResolvedEntitlement
check_row now metric row =
    if not row.is_active
    then inl plan_inactive
    else if not (is_usable row.status)
    then inl subscription_inactive
    else if not (in_period now row)
    then inl subscription_expired
    else with_limit row metric (limit_of metric row.limits)

-- `rows.find(…) ?? rows[0]`
unfoldable pub choose_row : ℕ → List SubscriptionRow → Option SubscriptionRow
choose_row now [] = none
choose_row now (r ∷ rows) = elim (find (is_current now) (r ∷ rows)) [
  | some s ↦ some s
  | none ↦ some r
]

unfoldable pub resolve :
    ℕ → Requester → UsageMetric → List SubscriptionRow → EntitlementError ⊎ ResolvedEntitlement
resolve now user metric table = elim (choose_row now (sort_rows (select (belongs user) table))) [
  | none ↦ inl no_active_subscription
  | some row ↦ check_row now metric row
]
