-- ===== src/Entitlement/Laws.antt =====
-- What a resolved entitlement rests on, and when none is found.
use ai_tgs.Common.{
  Bool, Bool-cases, IsIn, IsIn-find, IsIn-select, List, Option, Option-cases, [], any, arith, find,
  find-passes, inl, inr, none, refl, select, some, subst, true, ℕ, ◌≤◌, ◌<◌, ◌≡◌, ◌≢◌, ◌&&◌, ◌∷◌,
  ◌⊎◌,
}
use ai_tgs.Entitlement.{
  resolve, insert_row, sort_rows, choose_row, LimitValue, with_limit, SubscriptionRow, comes_first,
  is_current, granted, is_usable, check_row, Requester, limit_of, EntitlementError, belongs,
  plan_inactive, no_active_subscription, subscription_inactive, in_period, subscription_expired,
}
use ai_tgs.Usage.Rows.{UsageMetric, ResolvedEntitlement}

IsIn-insert_row :
    (s a : SubscriptionRow) (bs : List SubscriptionRow)
    → IsIn s (insert_row a bs)
    → (s ≡ a) ⊎ IsIn s bs
unfolding insert_row
IsIn-insert_row s a [] m = m
IsIn-insert_row s a (b ∷ bs) m = elim (Bool-cases (comes_first a b)) [
  | inl first ↦ rw first at m
  | inr later ↦
      let m' : (s ≡ b) ⊎ IsIn s (insert_row a bs) = rw later at m in
      elim m' [
        | inl e ↦ inr (inl e)
        | inr k ↦ elim (IsIn-insert_row s a bs k) [ inl e ↦ inl e | inr r ↦ inr (inr r) ]
      ]
]

IsIn-sort_rows :
    (s : SubscriptionRow) (rows : List SubscriptionRow) → IsIn s (sort_rows rows) → IsIn s rows
unfolding sort_rows
IsIn-sort_rows s [] m = m
IsIn-sort_rows s (a ∷ rows) m = elim (IsIn-insert_row s a (sort_rows rows) m) [
  | inl e ↦ inl e
  | inr k ↦ inr (IsIn-sort_rows s rows k)
]

IsIn-choose_row :
    (now : ℕ) (rows : List SubscriptionRow) (s : SubscriptionRow)
    → choose_row now rows ≡ some s
    → IsIn s rows
unfolding choose_row
IsIn-choose_row now [] s e = cc
IsIn-choose_row now (r ∷ rows) s e = elim (Option-cases (find (is_current now) (r ∷ rows))) [
  | inl missed ↦ let e' : some r ≡ some s = rw (missed, choose_row) at e in inl (ground arith)
  | inr (t, found) ↦
      let e' : some t ≡ some s = rw (found, choose_row) at e in
      let same : t ≡ s = ground arith in
      subst (λ z. IsIn z (r ∷ rows)) same (IsIn-find (is_current now) (r ∷ rows) t found).0
]

-- What the limit of an entitlement comes from: `null` is unlimited.
abbrev pub IsLimit : LimitValue → Option ℕ → Type 0
IsLimit LimitValue.null l = l ≡ none
IsLimit (LimitValue.safe_integer n) l = l ≡ some n
IsLimit _ l = ⊥

with_limit-inr :
    (row : SubscriptionRow) (metric : UsageMetric) (v : LimitValue) (ent : ResolvedEntitlement)
    → with_limit row metric v ≡ inr ent
    → (ent ≡ granted row metric ent.limit) × IsLimit v ent.limit
unfolding with_limit
with_limit-inr row metric LimitValue.null ent e = ground arith
with_limit-inr row metric (LimitValue.safe_integer n) ent e = ground arith
with_limit-inr row metric _ ent e = cc

ne_inl_inr :
    {x : EntitlementError} {y : ResolvedEntitlement}
    → ◌≢◌ {A = EntitlementError ⊎ ResolvedEntitlement} (inl x) (inr y)
ne_inl_inr e = cc

-- The conditions that `check_row` puts on the row it accepts.
abbrev pub IsGranted : ℕ → UsageMetric → ResolvedEntitlement → SubscriptionRow → Type 0
IsGranted now metric ent s =
    (s.is_active ≡ true)
    × (is_usable s.status ≡ true)
    × (s.current_period_start ≤ now)
    × (now < s.current_period_end)
    × (ent ≡ granted s metric ent.limit)
    × IsLimit (limit_of metric s.limits) ent.limit

check_row-IsGranted :
    (now : ℕ) (metric : UsageMetric) (s : SubscriptionRow) (ent : ResolvedEntitlement)
    → check_row now metric s ≡ inr ent
    → IsGranted now metric ent s
unfolding check_row with_limit
check_row-IsGranted now metric s ent e = elim (Bool-cases s.is_active) [
  | inr inactive ↦
      let never : ◌≡◌ {A = EntitlementError ⊎ ResolvedEntitlement} (inl plan_inactive) (inr ent) =
        rw inactive at e in
      cc
  | inl act ↦ elim (Bool-cases (is_usable s.status)) [
    | inr unusable ↦
        let never : ◌≡◌ {A = EntitlementError ⊎ ResolvedEntitlement} (inl subscription_inactive)
            (inr ent) =
          rw (act, unusable) at e in
        cc
    | inl usable ↦ elim (Bool-cases (in_period now s)) [
      | inr out ↦
          let never : ◌≡◌ {A = EntitlementError ⊎ ResolvedEntitlement} (inl subscription_expired)
              (inr ent) =
            rw (act, usable, out) at e in
          cc
      | inl within ↦
          let e' : with_limit s metric (limit_of metric s.limits) ≡ inr ent =
            rw (act, usable, within) at e in
          let (same, lim) = with_limit-inr s metric (limit_of metric s.limits) ent e' in
          (act, usable, ground arith, ground arith, same, lim)
    ]
  ]
]

-- An entitlement that `resolve` returns is that of a row of the table that belongs to the requester
-- (their own, or their school's), whose plan is active, whose status is ACTIVE or TRIALING, and whose
-- period contains the present; its limit is the plan's for the metric, and is absent only where the
-- plan says `null`.
pub resolve-IsGranted :
    (now : ℕ) (user : Requester) (metric : UsageMetric) (table : List SubscriptionRow)
    (ent : ResolvedEntitlement)
    → resolve now user metric table ≡ inr ent
    → (s : SubscriptionRow) × IsIn s table × (belongs user s ≡ true) × IsGranted now metric ent s
unfolding resolve
resolve-IsGranted now user metric table ent e =
    let rows = sort_rows (select (belongs user) table) in
    elim (Option-cases (choose_row now rows)) [
      | inl gone ↦
          let never : ◌≡◌ {A = EntitlementError ⊎ ResolvedEntitlement} (inl no_active_subscription)
              (inr ent) =
            rw (gone, resolve) at e in
          cc
      | inr (s, chosen) ↦
          let e' : check_row now metric s ≡ inr ent = rw (chosen, resolve) at e in
          let (listed, mine) =
            IsIn-select (belongs user) table s (
              IsIn-sort_rows s (select (belongs user) table) (IsIn-choose_row now rows s chosen)) in
          (s, listed, mine, check_row-IsGranted now metric s ent e')
    ]

find-insert_row :
    (p : SubscriptionRow → Bool) (a : SubscriptionRow) (bs : List SubscriptionRow)
    → any p (a ∷ bs) ≡ true
    → any p (insert_row a bs) ≡ true
unfolding insert_row
find-insert_row p a [] h = h
find-insert_row p a (b ∷ bs) h = ground (arith, find-insert_row p a bs)

any-sort_rows :
    (p : SubscriptionRow → Bool) (rows : List SubscriptionRow)
    → any p rows ≡ true
    → any p (sort_rows rows) ≡ true
unfolding sort_rows
any-sort_rows p [] h = h
any-sort_rows p (a ∷ rows) h =
    find-insert_row p a (sort_rows rows) (ground (arith, any-sort_rows p rows))

any-select :
    (p q : SubscriptionRow → Bool) (rows : List SubscriptionRow)
    → any (λ s. p s && q s) rows ≡ true
    → any q (select p rows) ≡ true
any-select p q [] h = h
any-select p q (a ∷ rows) h = ground (arith, any-select p q rows)

choose_row-current :
    (now : ℕ) (rows : List SubscriptionRow)
    → any (is_current now) rows ≡ true
    → (s : SubscriptionRow) × (choose_row now rows ≡ some s) × (is_current now s ≡ true)
unfolding choose_row
choose_row-current now [] h = cc
choose_row-current now (r ∷ rows) h = elim (Option-cases (find (is_current now) (r ∷ rows))) [
  | inl missed ↦ absurd (any-of_find_none (is_current now) (r ∷ rows) missed h)
  | inr (s, found) ↦
      (s, rw (found, choose_row) refl, find-passes (is_current now) (r ∷ rows) s found)
]
  where
    any-of_find_none :
        (p : SubscriptionRow → Bool) (xs : List SubscriptionRow)
        → find p xs ≡ none
        → any p xs ≡ true
        → ⊥
    any-of_find_none p [] n t = cc
    any-of_find_none p (x ∷ xs) n t = elim (Bool-cases (p x)) [
      | inl hit ↦ let n' : ◌≡◌ {A = Option SubscriptionRow} (some x) none = rw hit at n in cc
      | inr miss ↦ any-of_find_none p xs (rw miss at n) (rw miss at t)
    ]

-- Where some subscription of the requester is usable and in its period, the request is never refused
-- as inactive or expired because of another one, nor for want of a subscription.
pub resolve-prefers_current :
    (now : ℕ) (user : Requester) (metric : UsageMetric) (table : List SubscriptionRow)
    → any (λ s. belongs user s && is_current now s) table ≡ true
    → (resolve now user metric table ≢ inl subscription_inactive)
      × (resolve now user metric table ≢ inl subscription_expired)
      × (resolve now user metric table ≢ inl no_active_subscription)
unfolding resolve check_row with_limit
resolve-prefers_current now user metric table h =
    let rows = sort_rows (select (belongs user) table) in
    let (s, chosen, current) = choose_row-current now rows (
      any-sort_rows (is_current now) (select (belongs user) table)
        (any-select (belongs user) (is_current now) table h)) in
    rw (chosen, resolve) (ground arith, ground arith, ground arith)
