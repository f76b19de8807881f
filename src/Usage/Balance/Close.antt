-- ===== src/Usage/Balance/Close.antt =====
-- Closing an active reservation keeps the counters in agreement with the reservations.
use ai_tgs.Common.{
  ℕ, ◌+◌, ◌-◌, ◌<◌, ◌≡◌, ◌≢◌, refl, true, false, none, some, List, [], ◌∷◌, arith, ◌==◌, ◌&&◌, ltb,
  if◌then◌else◌, find, any, update, sum_by, All, All-map, All-update, All-zip, All-update_by,
  All-update_key, IsUnique, IsUnique-update, sum_by-update, weight-le-sum_by, ◌≤◌,
}
use ai_tgs.Usage.Rows.{UsageMetric, Counter, Reservation, Db, is_active}
use ai_tgs.Usage.Store.{is_counter, has_id}
use ai_tgs.Usage.Balance.{held, spent, Agrees, IsSound, IsBalanced, IsWithin, IsQuota}

-- The CHECK on `reserved` holds for the amount of an active reservation.
pub no_violation :
    (rs : List Reservation) (r : Reservation) (cs : List Counter)
    → find (has_id r.id) rs ≡ some r
    → is_active r.status ≡ true
    → All (Agrees rs) cs
    → any (λ c. is_counter r.usage_counter_id c && ltb c.reserved r.amount) cs ≡ false
no_violation rs r [] f a h = refl
no_violation rs r (c ∷ cs) f a h =
    ground
      (arith, weight-le-sum_by (λ x. x.id) (held c.id) r.id rs r f, no_violation rs r cs f a h.1)

find-update_counter :
    (i j s a : ℕ) (cs : List Counter)
    → find (is_counter i) cs ≢ none
    → find
        (is_counter i)
        (update (is_counter j) (λ c. record c { used = c.used + s; reserved = c.reserved - a }) cs)
      ≢ none
find-update_counter i j s a [] h = h
find-update_counter i j s a (c ∷ cs) h = ground (arith, find-update_counter i j s a cs)

-- The state in which `r` is closed: its amount no longer reserved, `s` of it used.
abbrev pub close_row : Reservation → (Reservation → Reservation) → ℕ → Db → Db
close_row r f s db = record db {
  counters =
      update (is_counter r.usage_counter_id)
        (λ c. record c { used = c.used + s; reserved = c.reserved - r.amount }) db.counters;
  reservations = update (has_id r.id) f db.reservations;
}

module _ (r : Reservation) (f : Reservation → Reservation) (s : ℕ)
    (same_id : (x : Reservation) → (f x).id ≡ x.id)
    (same_counter : (x : Reservation) → (f x).usage_counter_id ≡ x.usage_counter_id)
    (active : is_active r.status ≡ true) (closed : is_active (f r).status ≡ false)
    (paid : (f r).settled_amount ≡ s) where
  module _ (rs : List Reservation) (unique : IsUnique (λ x. x.id) rs)
      (found : find (has_id r.id) rs ≡ some r) (unpaid : r.settled_amount ≡ 0) where
    held-close :
        (k : ℕ) → sum_by (held k) (update (has_id r.id) f rs) + held k r ≡ sum_by (held k) rs
    held-close k = ground (arith, sum_by-update (λ x. x.id) (held k) r.id f rs r unique found)

    spent-close :
        (k : ℕ)
        → sum_by (spent k) (update (has_id r.id) f rs)
          ≡ sum_by (spent k) rs + (if r.usage_counter_id == k then s else 0)
    spent-close k =
        ground (arith, same_counter r, sum_by-update (λ x. x.id) (spent k) r.id f rs r unique found)

    Agrees-close :
        (cs : List Counter)
        → All (Agrees rs) cs
        → All (Agrees (update (has_id r.id) f rs)) (
            update
              (is_counter r.usage_counter_id)
              (λ c. record c { used = c.used + s; reserved = c.reserved - r.amount })
              cs)
    Agrees-close cs =
        All-update_by (Agrees rs) (Agrees (update (has_id r.id) f rs))
          (is_counter r.usage_counter_id)
          (λ c. record c { used = c.used + s; reserved = c.reserved - r.amount }) cs
          (λ c h e. ground (arith, held-close c.id, spent-close c.id))
          (λ c h e. ground (arith, held-close c.id, spent-close c.id))

  pub close_row-IsBalanced :
      (db : Db)
      → IsBalanced db
      → find (has_id r.id) db.reservations ≡ some r
      → r.settled_amount ≡ 0
      → IsSound (f r)
      → IsBalanced (close_row r f s db)
  close_row-IsBalanced db h found unpaid sound =
      let rs = db.reservations in
      record {
        agreed = Agrees-close rs h.unique found unpaid db.counters h.agreed;
        unique_counters =
            IsUnique-update (λ c. c.id) r.usage_counter_id
              (λ c. record c { used = c.used + s; reserved = c.reserved - r.amount }) db.counters
              (λ c. refl) h.unique_counters;
        unique = IsUnique-update (λ x. x.id) r.id f rs same_id h.unique;
        sound = All-update_key (λ x. x.id) IsSound r.id f rs r h.unique found sound h.sound;
        fresh =
            All-update (λ x. (x.id < db.next_id) × (x.usage_counter_id < db.next_id)) (has_id r.id)
              f rs (λ x q. rw (same_id x, same_counter x) q) h.fresh;
        fresh_counters =
            All-update (λ c. c.id < db.next_id) (is_counter r.usage_counter_id)
              (λ c. record c { used = c.used + s; reserved = c.reserved - r.amount }) db.counters
              (λ c q. q) h.fresh_counters;
        counted =
            All-update _ (has_id r.id) f rs (λ x q. rw (same_counter x) q)
              (All-map _ _ rs
                (λ x.
                  find-update_counter x.usage_counter_id r.usage_counter_id s r.amount db.counters)
                h.counted);
      }

  module _ {subscription : ℕ} {metric : UsageMetric} {limit : ℕ} (part : s ≤ r.amount) where
    pub close_row-IsQuota :
        (db : Db)
        → IsQuota subscription metric limit db
        → find (has_id r.id) db.reservations ≡ some r
        → r.settled_amount ≡ 0
        → IsSound (f r)
        → IsQuota subscription metric limit (close_row r f s db)
    close_row-IsQuota db h found unpaid sound =
        let rs = db.reservations in
        let within = IsWithin subscription metric limit in
        record {
          balanced = close_row-IsBalanced db h.balanced found unpaid sound;
          within =
              All-update_by (λ c. Agrees rs c × within c) within (is_counter r.usage_counter_id)
                (λ c. record c { used = c.used + s; reserved = c.reserved - r.amount }) db.counters
                (λ c k e a b.
                  let held_enough = weight-le-sum_by (λ x. x.id) (held c.id) r.id rs r found in
                  let before = k.1 a b in ground (arith, held_enough, before))
                (λ c k e. k.1) (All-zip (Agrees rs) within db.counters h.balanced.agreed h.within);
        }
