-- ===== src/Webhooks/Tests.antt =====
-- A delivery that goes through at its second attempt, and the table of the subscriptions.
use ubuntu_auto_update.Base.{
  ℕ, ◌≡◌, refl, Bool, true, false, [], ◌∷◌, Option, none, some, codes, Error, message, ◌==◌,
  if◌then◌else◌, text_eq,
}
use ubuntu_auto_update.Webhooks.Defs.{
  deliver, dispatch_webhooks, get_webhooks, deliver_from, for_event,
}
use ubuntu_auto_update.Webhooks.Retries.{Ended, deliver-Ended}

abbrev second_time : ℕ → Option Error
second_time k = if k == 2 then none else some (message (codes "down"))

abbrev never : ℕ → Bool
never k = false

delivered_test :
    deliver second_time never ≡ record { last = 2; delivered = true; pauses = 500 ∷ [] }
unfolding deliver deliver_from
delivered_test = refl

deliver-Ended_example : Ended second_time never 2 1 (deliver second_time never)
deliver-Ended_example = deliver-Ended second_time never

dispatched_test :
    dispatch_webhooks none (codes "run_failed") (
      record { id = 1; url = codes "http://a"; event = codes "run_failed" }
      ∷ record { id = 2; url = codes "http://b"; event = codes "host_offline" }
      ∷ [])
    ≡ codes "http://a" ∷ []
unfolding dispatch_webhooks get_webhooks for_event text_eq
dispatched_test = refl
