-- ===== src/Notifications/Attempts.antt =====
-- The attempts at a delivery: what one row, one e-mail in flight and the audits say of it.
use ai_tgs.Common.{
  All, All-found, All-map, All-ne_of_none, All-select, All-zip, Bool, Bool-cases, IsUnique, List,
  Option, Option-cases, [], ap, arith, count, false, find, inl, inr, is_key, leb, ltb, none, not,
  refl, select, some, subst, suc, sym, true, ℕ, ◌≤◌, ◌<◌, ◌≡◌, ◌≢◌, ◌+◌, ◌-◌, ◌*◌, ◌==◌, ◌&&◌, ◌||◌,
  ◌++◌, ◌∷◌, ◌∙◌, if◌then◌else◌,
}
use ai_tgs.Notifications.Delivery.{
  DeliveryStatus, is_pending, is_processing, is_failed, EmailError, is_retryable,
  NotificationDelivery, is_due, insert_by_time, sort_by_time, first, row_id, outcome, has_token,
  Flight, AuditAction, Audit,
}

abbrev pub is_waiting : DeliveryStatus → Bool
is_waiting status = is_pending status || is_processing status

abbrev pub is_retry : AuditAction → Bool
is_retry AuditAction.delivery_retry = true
is_retry _ = false

-- The audits of attempts at a delivery and of its retries, and the e-mails for it.
abbrev pub attempts_of : ℕ → List Audit → ℕ
attempts_of id audits = count (λ (a : Audit). a.entity_id == id && not (is_retry a.action)) audits

abbrev pub retries_of : ℕ → List Audit → ℕ
retries_of id audits = count (λ (a : Audit). a.entity_id == id && is_retry a.action) audits

abbrev pub sends_of : ℕ → List Flight → ℕ
sends_of id mail = count (λ (f : Flight). f.delivery.id == id) mail

pub count-append_one :
    {A : Type 0} (p : A → Bool) (xs : List A) (y : A)
    → count p (xs ++ y ∷ []) ≡ count p xs + (if p y then 1 else 0)
count-append_one p [] y = omega arith
count-append_one p (x ∷ xs) y = omega (arith, count-append_one p xs y)

-- A row has at most three attempts, and one left where it waits; a token is older than the next id
-- and only of a row in processing; and the audits tell of no more attempts than the row counts
-- since its last retry, and of three for each retry.
pub record IsGood (audits : List Audit) (next : ℕ) (x : NotificationDelivery) : Type 0 where
  pub most : x.max_attempts ≡ 3
  pub bounded : x.attempt_count ≤ 3
  pub left : is_waiting x.status ≡ true → x.attempt_count < 3
  pub held : (t : ℕ) → x.processing_token ≡ some t → (t < next) × (is_processing x.status ≡ true)
  pub audited : attempts_of x.id audits ≤ x.attempt_count + 3 * retries_of x.id audits

-- What a worker writes where the row still has its token: one attempt more.
abbrev pub CountsOne : Flight → NotificationDelivery → Type 0
CountsOne f x =
    has_token f.delivery.id f.token x ≡ true → suc x.attempt_count ≡ f.delivery.attempt_count

pub record IsFlight (next : ℕ) (xs : List NotificationDelivery) (f : Flight) : Type 0 where
  pub old : f.token < next
  pub left : is_waiting f.delivery.status ≡ true → f.delivery.attempt_count < 3
  pub counted : All (CountsOne f) xs

pub token_of :
    (id token : ℕ) (x : NotificationDelivery)
    → has_token id token x ≡ true
    → (x.id ≡ id) × (x.processing_token ≡ some token)
token_of id token x h = elim (Option-cases x.processing_token) [
  | inl free ↦
      let impossible : (x.id == id && false) ≡ true = rw free at h in ground (arith, impossible)
  | inr (t, taken) ↦
      let h' : (x.id == id && t == token) ≡ true = rw taken at h in
      (ground (arith, h'), taken ∙ ap some (ground (arith, h')))
]

pub failed-not_processing :
    (status : DeliveryStatus) → is_failed status ≡ true → is_processing status ≡ false
failed-not_processing DeliveryStatus.pending h = cc
failed-not_processing DeliveryStatus.processing h = cc
failed-not_processing DeliveryStatus.sent h = refl
failed-not_processing DeliveryStatus.failed h = refl
failed-not_processing DeliveryStatus.cancelled h = refl

pub outcome-attempts :
    (now : ℕ) (d : NotificationDelivery) (o : Option EmailError)
    → (outcome now d o).attempt_count ≡ d.attempt_count
outcome-attempts now d none = refl
outcome-attempts now d (some e) =
    elim (Bool-cases (is_retryable e && ltb d.attempt_count d.max_attempts)) [
      | inl again ↦ rw again refl
      | inr over ↦ rw over refl
    ]

pub outcome-waiting :
    (now : ℕ) (d : NotificationDelivery) (o : Option EmailError)
    → is_waiting (outcome now d o).status ≡ true
    → d.attempt_count < d.max_attempts
outcome-waiting now d none h = cc
outcome-waiting now d (some e) h =
    elim (Bool-cases (is_retryable e && ltb d.attempt_count d.max_attempts)) [
      | inl again ↦ ground (arith, again)
      | inr over ↦ let impossible : false ≡ true = rw over at h in cc
    ]

pub outcome-id :
    (now : ℕ) (d : NotificationDelivery) (o : Option EmailError) → (outcome now d o).id ≡ d.id
outcome-id now d none = refl
outcome-id now d (some e) =
    elim (Bool-cases (is_retryable e && ltb d.attempt_count d.max_attempts)) [
      | inl again ↦ rw again refl
      | inr over ↦ rw over refl
    ]

-- What holds of the row of an id holds of all rows of the id.
pub same_row :
    (P : NotificationDelivery → Type 0) (xs : List NotificationDelivery) (r : NotificationDelivery)
    → IsUnique row_id xs
    → find (is_key row_id r.id) xs ≡ some r
    → P r
    → All (λ x. x.id ≡ r.id → P x) xs
same_row P [] r unique found holds = tt
same_row P (x ∷ xs) r unique found holds = elim (Bool-cases (is_key row_id r.id x)) [
  | inl hit ↦
      let same : x ≡ r = ground (arith, found, hit) in
      let here : P x = subst P (sym same) holds in
      let key : x.id ≡ r.id = ground (arith, hit) in
      let gone =
        All-ne_of_none row_id r.id xs
          (subst (λ i. find (is_key row_id i) xs ≡ none) key unique.0) in
      (
        (λ e. here),
        All-map (λ y. y.id ≢ r.id) (λ y. y.id ≡ r.id → P y) xs (λ y k e. absurd (k e)) gone,
      )
  | inr miss ↦ (
    (λ e. let impossible : ⊥ = ground (arith, e, miss) in absurd impossible),
    same_row P xs r unique.1 (ground (arith, found, miss)) holds,
  )
]

-- The rows of an id have an attempt left.
abbrev pub HasRoom : List NotificationDelivery → NotificationDelivery → Type 0
HasRoom xs d = All (λ x. x.id ≡ d.id → x.attempt_count < 3) xs

module _ (P : NotificationDelivery → Type 0) where
  All-insert_by_time :
      (x : NotificationDelivery) (xs : List NotificationDelivery)
      → P x
      → All P xs
      → All P (insert_by_time x xs)
  All-insert_by_time x [] h k = (h, tt)
  All-insert_by_time x (y ∷ ys) h k = elim (Bool-cases (leb x.next_attempt_at y.next_attempt_at)) [
    | inl before ↦ rw before (h, k)
    | inr after ↦ rw after (k.0, All-insert_by_time x ys h k.1)
  ]

  pub All-sort_by_time : (xs : List NotificationDelivery) → All P xs → All P (sort_by_time xs)
  All-sort_by_time [] h = tt
  All-sort_by_time (x ∷ xs) h = All-insert_by_time x (sort_by_time xs) h.0 (All-sort_by_time xs h.1)

  pub All-first : (n : ℕ) (xs : List NotificationDelivery) → All P xs → All P (first n xs)
  All-first n [] h = tt
  All-first n (x ∷ xs) h = elim (Bool-cases (n == 0)) [
    | inl stop ↦ rw stop tt
    | inr more ↦ rw more (h.0, All-first (n - 1) xs h.1)
  ]

pub due-HasRoom :
    (now next : ℕ) (audits : List Audit) (xs : List NotificationDelivery)
    → All (IsGood audits next) xs
    → IsUnique row_id xs
    → All (HasRoom xs) (select (is_due now) xs)
due-HasRoom now next audits xs good unique =
    let both =
      All-zip (IsGood audits next) (λ r. find (is_key row_id r.id) xs ≡ some r) xs good
        (All-found row_id xs unique) in
    All-map _ (HasRoom xs) (select (is_due now) xs)
      (λ r k.
        let due = k.0 in
        let most = k.1.0.most in
        same_row (λ x. x.attempt_count < 3) xs r unique k.1.1 (ground (arith, due, most)))
      (All-select _ (is_due now) xs both)
