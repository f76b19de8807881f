-- ===== src/Usage/Runs.antt =====
-- Along every run of the service the counters agree with the reservations and keep to the limit.
use ai_tgs.Usage.Balance.Expire.{expire_lem}
use ai_tgs.Usage.Expire.{expire}
use ai_tgs.Usage.Balance.Methods.{
  settle_generation-IsQuota, settle_reservation-IsQuota, settle_regeneration-IsQuota,
}
use ai_tgs.Usage.Reserve.{reserve, consume, JsNumber}
use ai_tgs.Usage.Settle.{
  release_reservation, settle_generation, settle_reservation, settle_regeneration,
}
use ai_tgs.Usage.Balance.Reserve.{Carries, reserve-IsQuota, consume-IsQuota}
use ai_tgs.Common.{All, Ensures, Ensures-of_Succeeds, List, Result, [], err, ok, refl, ℕ, ◌∷◌}
use ai_tgs.Usage.Rows.{Db, UsageMetric, UsageError}
use ai_tgs.Usage.Balance.{IsQuota, IsQuota-SameQuota}
use ai_tgs.Usage.Service.{Op, perform, run, commit}

module _ (subscription : ℕ) (metric : UsageMetric) (limit : ℕ) where
  -- The requests of an operation for the counters under view carry the limit under view.
  abbrev pub Carried : Op → Type 0
  Carried (Op.reserve now ent amount type id actor ttl) = Carries subscription metric limit ent
  Carried (Op.consume now ent amount type id actor) = Carries subscription metric limit ent
  Carried _ = Unit

  commit-IsQuota :
      {A : Type 0} (db : Db) (r : Result UsageError (A × Db))
      → IsQuota subscription metric limit db
      → Ensures (λ _ db'. IsQuota subscription metric limit db') r
      → IsQuota subscription metric limit (commit db r)
  commit-IsQuota db (ok r) h k = k
  commit-IsQuota db (err e) h k = h

  perform-IsQuota :
      (op : Op) (db : Db)
      → Carried op
      → IsQuota subscription metric limit db
      → IsQuota subscription metric limit (perform op db)
  unfolding perform release_reservation
  perform-IsQuota (Op.reserve now ent amount type id actor ttl) db c h =
      commit-IsQuota db (reserve now ent amount type id actor ttl db) h
        (reserve-IsQuota now ent amount type id actor ttl db c h)
  perform-IsQuota (Op.consume now ent amount type id actor) db c h =
      commit-IsQuota db (consume now ent amount type id actor db) h
        (consume-IsQuota now ent amount type id actor db c h)
  perform-IsQuota (Op.settle_generation now job actor) db c h =
      commit-IsQuota db (settle_generation now job actor db) h
        (settle_generation-IsQuota now job actor db h)
  perform-IsQuota (Op.settle_reservation now id amount actor) db c h =
      commit-IsQuota db (settle_reservation now id amount actor db) h
        (settle_reservation-IsQuota now id amount actor db h)
  perform-IsQuota (Op.release_reservation now id actor) db c h =
      commit-IsQuota db (release_reservation now id actor db) h
        (settle_reservation-IsQuota now id (JsNumber.integer 0) actor db h)
  perform-IsQuota (Op.settle_regeneration now item attempt actor) db c h =
      commit-IsQuota db (settle_regeneration now item attempt actor db) h
        (settle_regeneration-IsQuota now item attempt actor db h)
  perform-IsQuota (Op.expire now actor locked) db c h =
      commit-IsQuota db (expire now actor locked db) h (
        Ensures-of_Succeeds _ _ (λ n db' q. q.0) (expire now actor locked db)
          (expire_lem now actor locked db h))
  perform-IsQuota (Op.outside questions jobs) db c h =
      IsQuota-SameQuota db (record db { questions = questions; jobs = jobs }) (refl, refl, refl) h

  -- After any operations of the service, in any order and at any times, from a state that meets the
  -- invariant: every counter's `reserved` is the sum of its active reservations and its `used` the
  -- sum of what its reservations settled, and used + reserved of the subscription's counters for the
  -- metric is within the limit, if each request for them carries that limit.
  pub run-IsQuota :
      (ops : List Op) (db : Db)
      → All Carried ops
      → IsQuota subscription metric limit db
      → IsQuota subscription metric limit (run ops db)
  unfolding run
  run-IsQuota [] db c h = h
  run-IsQuota (op ∷ ops) db c h = run-IsQuota ops (perform op db) c.1 (perform-IsQuota op db c.0 h)
