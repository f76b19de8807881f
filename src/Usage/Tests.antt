-- ===== src/Usage/Tests.antt =====
-- A run of the service on small data, and the theorems at it.
use ai_tgs.Usage.Balance.Expire.{Expires, expire-keeps_unjoined, expire_lem}
use ai_tgs.Usage.Store.{
  has_id, ensure_counter, with_counter, insert_reservation, add_reserved, add_used, set_reservation,
  ledger, record_audit, move_counter,
}
use ai_tgs.Usage.Reserve.{
  JsNumber, reserve, reserve_new, consume, consume_new, safe_positive, exceeds,
}
use ai_tgs.Common.{
  List, Succeeds, [], arith, false, find, map, none, ok, refl, some, true, ℕ, ◌≤◌, ◌≡◌, ◌∷◌,
}
use ai_tgs.Usage.Rows.{
  Db, ResolvedEntitlement, QuestionRow, JobRow, UsageMetric, Counter, ReferenceType, Reservation,
  ReservationStatus,
}
use ai_tgs.Usage.Balance.{IsQuota}
use ai_tgs.Usage.Service.{Op, perform, run, commit}
use ai_tgs.Usage.Runs.{run-IsQuota}
use ai_tgs.Usage.Exact.{settle_generation-Charges, settle_generation-once, Charges}
use ai_tgs.Usage.Settle.{
  Settled, settle_generation, generated_by_job, settle_open_generation, settle_row, settled_by,
}
use ai_tgs.Usage.Expire.{expire}

abbrev empty_db : Db
empty_db = record {
  counters = [];
  reservations = [];
  ledger = [];
  audits = [];
  questions = [];
  jobs = [];
  next_id = 100;
}

abbrev ent : ResolvedEntitlement
ent = record {
  subscription_id = 1;
  plan_id = 2;
  metric = UsageMetric.ai_questions;
  limit = some 10;
  period_start = 0;
  period_end = 1000;
}

abbrev question : ℕ → QuestionRow
question job = record {
  generation_job_id = some job;
  generation_job_item_id = none;
  is_ai_generated = true;
  created_at = 5;
}

abbrev busy : JobRow
busy = record { id = 7; is_processing = true; lease_expires_at = some 2000000 }

-- A job reserves four questions and makes three; a second request is past the limit.
abbrev ops : List Op
ops =
    Op.reserve 5 ent (JsNumber.integer 4) ReferenceType.generation_job 7 9 30
    ∷ Op.outside (question 7 ∷ question 7 ∷ question 7 ∷ []) (busy ∷ [])
    ∷ Op.reserve 6 ent (JsNumber.integer 7) (ReferenceType.generation_regen 1) 8 9 30
    ∷ Op.settle_generation 20 7 none
    ∷ Op.consume 21 ent (JsNumber.integer 2) ReferenceType.test_finalization 3 9
    ∷ []

-- used = 3 + 2 and nothing is reserved.
run_example : map {B = ℕ × ℕ} (λ c. (c.used, c.reserved)) (run ops empty_db).counters ≡ (5, 0) ∷ []
unfolding run perform reserve reserve_new consume consume_new settle_generation
    settle_open_generation settle_row ensure_counter with_counter insert_reservation add_reserved
    add_used set_reservation ledger record_audit move_counter safe_positive exceeds generated_by_job
run_example = refl

empty-IsQuota : IsQuota 1 UsageMetric.ai_questions 10 empty_db
empty-IsQuota = record {
  balanced = record {
    agreed = tt;
    unique_counters = tt;
    unique = tt;
    sound = tt;
    fresh = tt;
    fresh_counters = tt;
    counted = tt;
  };
  within = tt;
}

run-IsQuota_example : IsQuota 1 UsageMetric.ai_questions 10 (run ops empty_db)
run-IsQuota_example =
    run-IsQuota 1 UsageMetric.ai_questions 10 ops empty_db
      ((λ _ _. refl), (tt, ((λ _ _. refl), (tt, ((λ _ _. refl), tt))))) empty-IsQuota

-- One counter, with an active reservation of a generation job.
abbrev counter : Counter
counter = record {
  id = 1;
  subscription_id = 1;
  metric = UsageMetric.ai_questions;
  used = 0;
  reserved = 6;
  period_start = 0;
  period_end = 1000;
}

abbrev reservation : ℕ → ℕ → ReferenceType → Reservation
reservation id amount type = record {
  id = id;
  subscription_id = 1;
  usage_counter_id = 1;
  metric = UsageMetric.ai_questions;
  amount = amount;
  settled_amount = 0;
  released_amount = 0;
  status = ReservationStatus.active;
  reference_type = type;
  reference_id = 7;
  expires_at = 10;
  settled_at = none;
  released_at = none;
  created_at = 1;
}

abbrev db : Db
db = record {
  counters = counter ∷ [];
  reservations =
      reservation 2 4 ReferenceType.generation_job
      ∷ reservation 3 2 (ReferenceType.generation_regen 1)
      ∷ [];
  ledger = [];
  audits = [];
  questions = question 7 ∷ [];
  jobs = [];
  next_id = 100;
}

db-IsQuota : IsQuota 1 UsageMetric.ai_questions 10 db
db-IsQuota = record {
  balanced = record {
    agreed = omega arith;
    unique_counters = (refl, tt);
    unique = (refl, (refl, tt));
    sound = ((omega arith, (refl, refl)), ((omega arith, (refl, refl)), tt));
    fresh = omega arith;
    fresh_counters = omega arith;
    counted = ((λ e. cc), ((λ e. cc), tt));
  };
  within = ((λ _ _. omega arith), tt);
}

settle_generation-Charges_example :
    Succeeds
      (Charges 20 7 (reservation 2 4 ReferenceType.generation_job) counter db)
      (settle_generation 20 7 none db)
unfolding generated_by_job
settle_generation-Charges_example =
    settle_generation-Charges 20 7 none (reservation 2 4 ReferenceType.generation_job) counter db
      db-IsQuota refl refl refl few
  where
    few : generated_by_job 7 db ≤ 4
    few = omega arith

expire_lem_example :
    Succeeds
      (λ n db'. IsQuota 1 UsageMetric.ai_questions 10 db' × Expires 5000 none (λ _. false) db n db')
      (expire 5000 none (λ _. false) db)
expire_lem_example = expire_lem 5000 none (λ _. false) db db-IsQuota

expire-keeps_unjoined_example :
    Succeeds
      (λ _ db'.
        find (has_id 3) db'.reservations
        ≡ some (reservation 3 2 (ReferenceType.generation_regen 1)))
      (expire 5000 none (λ _. false) db)
expire-keeps_unjoined_example =
    expire-keeps_unjoined 5000 none (λ _. false) db 3
      (reservation 3 2 (ReferenceType.generation_regen 1)) db-IsQuota refl refl

abbrev settled : Reservation
settled = settled_by 20 1 3 (λ _. none) (reservation 2 4 ReferenceType.generation_job)

settled_db : Db
settled_db = commit db (settle_generation 20 7 none db)

settled_first :
    settle_generation 20 7 none db ≡ ok (some (Settled.updated_rows (settled ∷ [])), settled_db)
unfolding settled_db settle_generation settle_open_generation settle_row set_reservation ledger
    record_audit move_counter generated_by_job
settled_first = refl

settle_generation-once_example :
    settle_generation 3000 7 (some 4) settled_db ≡ ok (some (Settled.found_row settled), settled_db)
settle_generation-once_example =
    settle_generation-once 20 7 3000 none (some 4) (Settled.updated_rows (settled ∷ [])) settled db
      settled_db db-IsQuota settled_first refl
