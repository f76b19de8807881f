-- ===== src/Billing/Advances.antt =====
-- A stored subscription never goes back to an older state of the provider.
pub mod Process
pub mod Requests
use ai_tgs.Common.{
  ==_iff, ==_refl, Action, All, All-append, All-every, All-find, All-found, All-kept, All-map,
  All-ne_of_none, All-same, All-select, All-update, All-update_by, All-update_key, All-zip, Bool,
  Bool-cases, Ensures, Ensures->>=, Ensures-last_guard, Ensures-mono, Ensures-of_Succeeds,
  Ensures-or_throw, Ensures-throw_if, IsIn, IsIn-find, IsIn-select, IsUnique, IsUnique-append,
  IsUnique-concat, IsUnique-select, IsUnique-update, IsUnique-update_by, List, Option, Option-cases,
  Ordering, Result, Succeeds, Succeeds->>=, Succeeds-mono, Text, [], all, any, any-append_last,
  any-append_some, any-find, any-of_find, any-of_none, any-update, ap, apply_all, apply_all-select,
  arith, collapse, compare, count, err, false, find, find-and, find-and-none, find-append,
  find-append_miss, find-append_some, find-fresh, find-key_of_find, find-of_any, find-passes,
  find-update-none, find-update_by, find-update_hit, find-update_inv, find-update_kept,
  find-update_ne, gets, has_duplicates, has_equal_texts, in_range, includes, inl, inr, is_blank,
  is_key, is_one_of, is_space, leb, length, length-select, ltb, map, max, min, modify, none, not,
  occurs, occurs-once, ok, or_null, or_throw, pure, refl, same_text, select, select-append_none,
  select-append_passing, select-none, select-select, select-update, some, subst, suc, sum_by,
  sum_by-append, sum_by-update, sum_by-update_same, sum_by_zero, sym, throw, throw_if, trim,
  trim-trim, trim_start, trimmed_or_null, true, update, update_miss, weight-le-sum_by, zero, ℕ, ◌≤◌,
  ◌<◌, ◌≡◌, ◌≢◌, ◌+◌, ◌-◌, ◌*◌, ◌/◌, ◌%◌, ◌^◌, ◌==◌, ◌&&◌, ◌||◌, ◌++◌, ◌∷◌, ◌↔◌, ◌⊎◌, ◌∙◌, ◌>>=◌,
  ◌>>◌, if◌then◌else◌,
}
use ai_tgs.Billing.Rows.{Ledger, Subscription, BillingError}
use ai_tgs.Billing.Store.{is_subscription, set_subscription}
use ai_tgs.Billing.Process.{is_current}

abbrev pub subscription_key : Subscription → ℕ
subscription_key x = x.id

-- A time is not before another, where there is one.
abbrev pub IsSince : ℕ → Option ℕ → Type 0
IsSince stamp none = Unit
IsSince stamp (some old) = old ≤ stamp

is_current-IsSince : (stamp : ℕ) (old : Option ℕ) → is_current stamp old ≡ true → IsSince stamp old
is_current-IsSince stamp none h = tt
is_current-IsSince stamp (some old) h = ground (arith, h)

-- The second row is the first, or has a time of the provider's state that is not older.
abbrev pub IsLater : Subscription → Subscription → Type 0
IsLater a b =
    (b ≡ a)
    ⊎ ((stamp : ℕ) × ((b.provider_state_updated_at ≡ some stamp)
          × IsSince stamp a.provider_state_updated_at))

-- Every stored row is still stored, as it was or later.
abbrev pub IsLaterTable : List Subscription → List Subscription → Type 0
IsLaterTable xs ys =
    (k : ℕ) (a : Subscription)
    → find (is_subscription k) xs ≡ some a
    → (b : Subscription) × ((find (is_subscription k) ys ≡ some b) × IsLater a b)

-- Ids of subscriptions are unique and below the next one.
abbrev pub IsTidy : Ledger → Type 0
IsTidy s =
    IsUnique subscription_key s.subscriptions
    × All (λ (x : Subscription). x.id < s.next_id) s.subscriptions

abbrev pub Advances : Ledger → Ledger → Type 0
Advances s t = IsTidy t × IsLaterTable s.subscriptions t.subscriptions

pub IsLaterTable-refl : (xs : List Subscription) → IsLaterTable xs xs
IsLaterTable-refl xs k a e = (a, (e, inl refl))

IsSince-trans : (old : Option ℕ) (i j : ℕ) → IsSince i old → i ≤ j → IsSince j old
IsSince-trans none i j h g = tt
IsSince-trans (some n) i j h g = omega (arith, h, g)

IsLater-trans : (a b c : Subscription) → IsLater a b → IsLater b c → IsLater a c
IsLater-trans a b c (inl e) g = subst (λ x. IsLater x c) e g
IsLater-trans a b c (inr k) (inl e) = subst (λ x. IsLater a x) (sym e) (inr k)
IsLater-trans a b c (inr (i, (stamp, newer))) (inr (j, (stamp', newer'))) =
    let since : i ≤ j = subst (IsSince j) stamp newer' in
    inr (j, (stamp', IsSince-trans a.provider_state_updated_at i j newer since))

pub IsLaterTable-trans :
    (xs ys zs : List Subscription) → IsLaterTable xs ys → IsLaterTable ys zs → IsLaterTable xs zs
IsLaterTable-trans xs ys zs h g k a e =
    let (b, (found, later)) = h k a e in
    let (c, (found', later')) = g k b found in (c, (found', IsLater-trans a b c later later'))

pub update-IsLaterTable :
    (x : Subscription) (f : Subscription → Subscription) (stamp : ℕ) (xs : List Subscription)
    → ((r : Subscription)
        → (subscription_key (f r) ≡ subscription_key r)
          × ((f r).provider_state_updated_at ≡ some stamp))
    → find (is_subscription x.id) xs ≡ some x
    → is_current stamp x.provider_state_updated_at ≡ true
    → IsLaterTable xs (update (is_subscription x.id) f xs)
update-IsLaterTable x f stamp xs same row newer k a e = elim (Bool-cases (k == x.id)) [
  | inl hit ↦
      let k_id : k ≡ x.id = ground arith in
      let e' : find (is_subscription x.id) xs ≡ some a = rw (← k_id) e in
      let x_a : x ≡ a = cc in
      let after =
        find-update_hit subscription_key x.id (is_subscription x.id) f xs x (λ r. (same r).0) row
          (ground arith) in
      (
        f x,
        (
          rw k_id after,
          inr (
            stamp,
            ((same x).1, rw (← x_a) (is_current-IsSince stamp x.provider_state_updated_at newer)),
          ),
        ),
      )
  | inr miss ↦
      let id_k : x.id ≢ k = ground arith in
      (a, (rw (find-update_ne subscription_key x.id k f xs (λ r. (same r).0) id_k) e, inl refl))
]

pub set_subscription-Advances :
    (x : Subscription) (f : Subscription → Subscription) (stamp : ℕ) (s : Ledger)
    → ((r : Subscription)
        → (subscription_key (f r) ≡ subscription_key r)
          × ((f r).provider_state_updated_at ≡ some stamp))
    → find (is_subscription x.id) s.subscriptions ≡ some x
    → is_current stamp x.provider_state_updated_at ≡ true
    → IsTidy s
    → Advances s (set_subscription x.id f s)
set_subscription-Advances x f stamp s same row newer h = (
  (
    IsUnique-update subscription_key x.id f s.subscriptions (λ r. (same r).0) h.0,
    All-update (λ (r : Subscription). subscription_key r < s.next_id) (is_subscription x.id) f
        s.subscriptions (λ r k. rw (same r).0 k) h.1,
  ),
  update-IsLaterTable x f stamp s.subscriptions same row newer,
)

pub Advances-trans : (s t u : Ledger) → Advances s t → Advances t u → Advances s u
Advances-trans s t u h g =
    (g.0, IsLaterTable-trans s.subscriptions t.subscriptions u.subscriptions h.1 g.1)
