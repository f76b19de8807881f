-- ===== src/Notifications/Tests.antt =====
-- A delivery that a provider refuses for a while, and workers that are interrupted.
use ai_tgs.Common.{All, List, Option, [], ltb, map, none, refl, some, ℕ, ◌≡◌, ◌∷◌, if◌then◌else◌}
use ai_tgs.Notifications.Delivery.{
  EmailError, NotificationDelivery, NoticeState, add_delivery, process, deliver, claim_due, finish,
  begin,
}
use ai_tgs.Notifications.Attempts.{attempts_of, sends_of}
use ai_tgs.Notifications.Bounded.{Request, run, interruptions, IsBounded, run-IsBounded}

-- The provider answers from the time 200000 on.
abbrev send : ℕ → NotificationDelivery → Option EmailError
send now d = if ltb now 200000 then some EmailError.temporary_failure else none

abbrev requests : List (ℕ × Request)
requests =
    (1, Request.added 5 [] none)
    ∷ (2, Request.processed 20)
    ∷ (3, Request.processed 20)
    ∷ (60002, Request.processed 20)
    ∷ (200000, Request.processed 20)
    ∷ []

abbrev empty : NoticeState
empty = record { deliveries = []; next_id = 0; mail = []; audits = [] }

abbrev attempts : NotificationDelivery → ℕ
attempts d = d.attempt_count

-- The second processing comes before the next attempt is due.
requests-attempts : map attempts (run send requests empty).deliveries ≡ 3 ∷ []
unfolding add_delivery process claim_due deliver finish
requests-attempts = refl

abbrev sent_time : NotificationDelivery → Option ℕ
sent_time d = d.sent_at

requests-sent : map sent_time (run send requests empty).deliveries ≡ some 200000 ∷ []
unfolding add_delivery process claim_due deliver finish
requests-sent = refl

-- The first worker is slow, its row is claimed again after ten minutes, and its outcome is lost.
abbrev overtaken : List (ℕ × Request)
overtaken =
    (1, Request.added 5 [] none)
    ∷ (2, Request.claimed 20)
    ∷ (3, Request.begun (0, 1))
    ∷ (700000, Request.processed 20)
    ∷ (700001, Request.finished 0)
    ∷ []

overtaken-sends :
    (sends_of 0 (run send overtaken empty).mail ≡ 2)
    × (attempts_of 0 (run send overtaken empty).audits ≡ 1)
unfolding add_delivery process claim_due deliver finish begin
overtaken-sends = (refl, refl)

run-IsBounded_example :
    All
      (IsBounded (run send overtaken empty) (interruptions overtaken))
      (run send overtaken empty).deliveries
run-IsBounded_example = run-IsBounded send overtaken 0
