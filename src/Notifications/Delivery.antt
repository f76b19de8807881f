-- ===== src/Notifications/Delivery.antt =====
-- The table notification_deliveries and the methods of notifications.service.ts that work on it.
-- A worker claims rows in a transaction, sends an e-mail for a row that still has its token, and
-- then writes the outcome where the row still has it; each of the three is a step of its own.
use ai_tgs.Common.{
  Bool, List, Option, Result, Text, [], err, false, find, is_key, leb, ltb, none, ok, select, some,
  suc, true, update, ℕ, ◌+◌, ◌-◌, ◌*◌, ◌^◌, ◌==◌, ◌&&◌, ◌||◌, ◌++◌, ◌∷◌, if◌then◌else◌, any,
}

pub data DeliveryStatus : Type 0 where
  pending processing sent failed cancelled : DeliveryStatus

abbrev pub is_pending : DeliveryStatus → Bool
is_pending DeliveryStatus.pending = true
is_pending _ = false

abbrev pub is_processing : DeliveryStatus → Bool
is_processing DeliveryStatus.processing = true
is_processing _ = false

abbrev pub is_failed : DeliveryStatus → Bool
is_failed DeliveryStatus.failed = true
is_failed _ = false

-- The codes of EmailProviderError.
pub data EmailError : Type 0 where
  temporary_failure not_configured permanent_failure invalid_recipient : EmailError

abbrev pub is_retryable : EmailError → Bool
is_retryable EmailError.temporary_failure = true
is_retryable EmailError.not_configured = true
is_retryable _ = false

pub record NotificationDelivery : Type 0 where
  pub id : ℕ
  pub notification_id : ℕ
  pub recipient : Text
  pub template_data : Option Text
  pub status : DeliveryStatus
  pub attempt_count : ℕ
  pub max_attempts : ℕ
  pub next_attempt_at : ℕ
  pub processing_token : Option ℕ
  pub processing_started_at : Option ℕ
  pub last_attempt_at : Option ℕ
  pub sent_at : Option ℕ
  pub failed_at : Option ℕ
  pub error_code : Option EmailError

-- An e-mail that was handed to the provider, with the row that the worker holds after the answer
-- and its token.
pub record Flight : Type 0 where
  pub delivery : NotificationDelivery
  pub token : ℕ

pub data AuditAction : Type 0 where
  delivery_sent delivery_failed delivery_retry_scheduled delivery_retry : AuditAction

pub record Audit : Type 0 where
  pub action : AuditAction
  pub entity_id : ℕ

-- `mail` is what the provider was asked to send.
pub record NoticeState : Type 0 where
  pub deliveries : List NotificationDelivery
  pub next_id : ℕ
  pub mail : List Flight
  pub audits : List Audit

abbrev pub write_audit : AuditAction → ℕ → NoticeState → NoticeState
write_audit action id s = record s {
  audits = s.audits ++ (record { action = action; entity_id = id }) ∷ [];
}

abbrev pub set_deliveries :
    (List NotificationDelivery → List NotificationDelivery) → NoticeState → NoticeState
set_deliveries f s = record s { deliveries = f s.deliveries }

-- The row that `create` inserts for a notification.
abbrev pub new_delivery : ℕ → ℕ → ℕ → Text → Option Text → NotificationDelivery
new_delivery id now notification recipient payload = record {
  id = id;
  notification_id = notification;
  recipient = recipient;
  template_data = payload;
  status = DeliveryStatus.pending;
  attempt_count = 0;
  max_attempts = 3;
  next_attempt_at = now;
  processing_token = none;
  processing_started_at = none;
  last_attempt_at = none;
  sent_at = none;
  failed_at = none;
  error_code = none;
}

unfoldable pub add_delivery : ℕ → ℕ → Text → Option Text → NoticeState → NoticeState
add_delivery now notification recipient payload s = record s {
  deliveries = s.deliveries ++ new_delivery s.next_id now notification recipient payload ∷ [];
  next_id = suc s.next_id;
}

-- Times are milliseconds: a row that is processed for more than ten minutes is due again.
abbrev pub is_stale : ℕ → Option ℕ → Bool
is_stale now none = false
is_stale now (some started) = ltb (started + 600000) now

abbrev pub is_due : ℕ → NotificationDelivery → Bool
is_due now d =
    (is_pending d.status && leb d.next_attempt_at now
      || is_processing d.status && is_stale now d.processing_started_at)
    && ltb d.attempt_count d.max_attempts

abbrev pub insert_by_time :
    NotificationDelivery → List NotificationDelivery → List NotificationDelivery
insert_by_time x [] = x ∷ []
insert_by_time x (y ∷ ys) =
    let rest = insert_by_time x ys in
    if leb x.next_attempt_at y.next_attempt_at then x ∷ (y ∷ ys) else y ∷ rest

abbrev pub sort_by_time : List NotificationDelivery → List NotificationDelivery
sort_by_time [] = []
sort_by_time (x ∷ xs) = insert_by_time x (sort_by_time xs)

abbrev pub first : ℕ → List NotificationDelivery → List NotificationDelivery
first n [] = []
first n (x ∷ xs) = if n == 0 then [] else x ∷ first (n - 1) xs

abbrev pub row_id : NotificationDelivery → ℕ
row_id d = d.id

abbrev pub claimed : ℕ → ℕ → NotificationDelivery → NotificationDelivery
claimed now token d = record d {
  status = DeliveryStatus.processing;
  processing_token = some token;
  processing_started_at = some now;
}

-- The claims are ids and tokens, which are new numbers.
abbrev pub claim : ℕ → List NotificationDelivery → NoticeState → List (ℕ × ℕ) × NoticeState
claim now [] s = ([], s)
claim now (d ∷ ds) s =
    let token = s.next_id in
    let rest = claim now ds (record s {
      deliveries = update (is_key row_id d.id) (claimed now token) s.deliveries;
      next_id = suc token;
    }) in
    ((d.id, token) ∷ rest.0, rest.1)

-- The row after an attempt: `none` where the e-mail is sent, else the error.
abbrev pub attempted : ℕ → NotificationDelivery → NotificationDelivery
attempted now d = record d { attempt_count = suc d.attempt_count; last_attempt_at = some now }

abbrev pub outcome : ℕ → NotificationDelivery → Option EmailError → NotificationDelivery
outcome now d none = record d {
  status = DeliveryStatus.sent;
  sent_at = some now;
  error_code = none;
}
outcome now d (some e) =
    if is_retryable e && ltb d.attempt_count d.max_attempts
    then record d {
      error_code = some e;
      status = DeliveryStatus.pending;
      next_attempt_at = now + 60000 * 2 ^ (d.attempt_count - 1);
    }
    else record d { error_code = some e; status = DeliveryStatus.failed; failed_at = some now }

-- The columns that the UPDATE writes.
abbrev pub written : NotificationDelivery → NotificationDelivery → NotificationDelivery
written d x = record x {
  status = d.status;
  attempt_count = d.attempt_count;
  next_attempt_at = d.next_attempt_at;
  processing_token = none;
  processing_started_at = none;
  last_attempt_at = d.last_attempt_at;
  sent_at = d.sent_at;
  failed_at = d.failed_at;
  error_code = d.error_code;
}

abbrev pub has_token : ℕ → ℕ → NotificationDelivery → Bool
has_token id token d = d.id == id && elim d.processing_token [ none ↦ false | some t ↦ t == token ]

abbrev pub action_of : DeliveryStatus → AuditAction
action_of DeliveryStatus.sent = AuditAction.delivery_sent
action_of DeliveryStatus.failed = AuditAction.delivery_failed
action_of _ = AuditAction.delivery_retry_scheduled

-- The UPDATE of the row that still has the token, and the audit where it met one.
unfoldable pub finish : Flight → NoticeState → NoticeState
finish f s =
    if any (has_token f.delivery.id f.token) s.deliveries
    then write_audit (action_of f.delivery.status) f.delivery.id
        (set_deliveries (update (has_token f.delivery.id f.token) (written f.delivery)) s)
    else s

-- `send` is the provider, with its answer to an e-mail at a time.
module _ (send : ℕ → NotificationDelivery → Option EmailError) where
  abbrev pub flight_of : ℕ → ℕ → NotificationDelivery → Flight
  flight_of now token d = record {
    delivery = outcome now (attempted now d) (send now d);
    token = token;
  }

  abbrev pub hand_over : ℕ → ℕ → NotificationDelivery → NoticeState → NoticeState
  hand_over now token d s = record s { mail = s.mail ++ flight_of now token d ∷ [] }

  abbrev pub claimed_row : ℕ × ℕ → NoticeState → Option NotificationDelivery
  claimed_row c s = find (λ d. has_token c.0 c.1 d && is_processing d.status) s.deliveries

  -- `deliver` up to the answer of the provider.
  abbrev pub begin_row : ℕ → ℕ → Option NotificationDelivery → NoticeState → NoticeState
  begin_row now token none s = s
  begin_row now token (some d) s = hand_over now token d s

  unfoldable pub begin : ℕ → ℕ × ℕ → NoticeState → NoticeState
  begin now c s = begin_row now c.1 (claimed_row c s) s

  -- `deliver` as a whole.
  abbrev pub deliver_row : ℕ → ℕ → Option NotificationDelivery → NoticeState → NoticeState
  deliver_row now token none s = s
  deliver_row now token (some d) s = finish (flight_of now token d) (hand_over now token d s)

  unfoldable pub deliver : ℕ → ℕ × ℕ → NoticeState → NoticeState
  deliver now c s = deliver_row now c.1 (claimed_row c s) s

  abbrev pub deliver_all : ℕ → List (ℕ × ℕ) → NoticeState → NoticeState
  deliver_all now [] s = s
  deliver_all now (c ∷ cs) s = deliver_all now cs (deliver now c s)

-- The transaction of `process`: the claims and the state after it.
unfoldable pub claim_due : ℕ → ℕ → NoticeState → List (ℕ × ℕ) × NoticeState
claim_due now batch s = claim now (first batch (sort_by_time (select (is_due now) s.deliveries))) s

unfoldable pub process :
    (ℕ → NotificationDelivery → Option EmailError) → ℕ → ℕ → NoticeState → NoticeState
process send now batch s =
    let claims = claim_due now batch s in deliver_all send now claims.0 claims.1

-- `save` writes the columns that changed.
abbrev pub reset : ℕ → NotificationDelivery → NotificationDelivery
reset now d = record d {
  status = DeliveryStatus.pending;
  attempt_count = 0;
  next_attempt_at = now;
  failed_at = none;
  error_code = none;
}

pub data RetryError : Type 0 where
  not_found not_retryable : RetryError

abbrev pub retry_row :
    ℕ
    → NoticeState
    → Option NotificationDelivery
    → Result RetryError NotificationDelivery × NoticeState
retry_row now s none = (err RetryError.not_found, s)
retry_row now s (some d) =
    if is_failed d.status
    then (
      ok (reset now d),
      write_audit AuditAction.delivery_retry d.id
          (set_deliveries (update (is_key row_id d.id) (reset now)) s),
    )
    else (err RetryError.not_retryable, s)

unfoldable pub retry : ℕ → ℕ → NoticeState → Result RetryError NotificationDelivery × NoticeState
retry now id s = retry_row now s (find (is_key row_id id) s.deliveries)
