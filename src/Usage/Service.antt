-- ===== src/Usage/Service.antt =====
-- Runs of the service: every method as an operation, one transaction each.
use ai_tgs.Usage.Reserve.{JsNumber}
use ai_tgs.Common.{Bool, List, Option, Result, [], err, ok, ℕ, ◌∷◌}
use ai_tgs.Usage.Rows.{Db, ResolvedEntitlement, UsageError, ReferenceType, QuestionRow, JobRow}
use ai_tgs.Usage.Reserve
use ai_tgs.Usage.Settle
use ai_tgs.Usage.Expire

-- A call of the service, at the time `now`.  Other services write `questions` and
-- `generation_jobs`: `outside` is any such change.
pub data Op : Type 0 where
  reserve : ℕ → ResolvedEntitlement → JsNumber → ReferenceType → ℕ → ℕ → ℕ → Op
  consume : ℕ → ResolvedEntitlement → JsNumber → ReferenceType → ℕ → ℕ → Op
  settle_generation : ℕ → ℕ → Option ℕ → Op
  settle_reservation : ℕ → ℕ → JsNumber → ℕ → Op
  release_reservation : ℕ → ℕ → ℕ → Op
  settle_regeneration : ℕ → ℕ → ℕ → Option ℕ → Op
  expire : ℕ → Option ℕ → (ℕ → Bool) → Op
  outside : List QuestionRow → List JobRow → Op

-- The state after a transaction: a failed one is rolled back.
abbrev pub commit : {A : Type 0} → Db → Result UsageError (A × Db) → Db
commit db (ok r) = r.1
commit db (err e) = db

unfoldable pub perform : Op → Db → Db
perform (Op.reserve now ent amount type id actor ttl) db =
    commit db (Reserve.reserve now ent amount type id actor ttl db)
perform (Op.consume now ent amount type id actor) db =
    commit db (Reserve.consume now ent amount type id actor db)
perform (Op.settle_generation now job actor) db =
    commit db (Settle.settle_generation now job actor db)
perform (Op.settle_reservation now id amount actor) db =
    commit db (Settle.settle_reservation now id amount actor db)
perform (Op.release_reservation now id actor) db =
    commit db (Settle.release_reservation now id actor db)
perform (Op.settle_regeneration now item attempt actor) db =
    commit db (Settle.settle_regeneration now item attempt actor db)
perform (Op.expire now actor locked) db = commit db (Expire.expire now actor locked db)
perform (Op.outside questions jobs) db = record db { questions = questions; jobs = jobs }

unfoldable pub run : List Op → Db → Db
run [] db = db
run (op ∷ ops) db = run ops (perform op db)
