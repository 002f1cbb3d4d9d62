-- ===== src/Tests/Notify.antt =====
-- The notifications of the Postgres backend at concrete calls.
use dropin_queue.Base.{◌≤◌, ◌≡◌, refl, List, [], ◌∷◌, codes, text_eq}
use dropin_queue.Postgres.Notify.{
  HubCall, subscribes, cancels, notifies, hub_run, new_notify_hub, subscribe, cancel, notify,
  triggers, expires, passes, CoalescerStep, coalescer_run, new_notify_coalescer,
}
use dropin_queue.Postgres.Notify.Once.{count, hub_run-closes_once}
use dropin_queue.Postgres.Notify.Wakes.{subscribe-notify}
use dropin_queue.Postgres.Notify.Spaced.{AreSpaced, coalescer_run-AreSpaced}

abbrev calls : List HubCall
calls =
    subscribes (codes "a")
    ∷ subscribes (codes "a")
    ∷ subscribes (codes "b")
    ∷ cancels (codes "a") 1
    ∷ notifies (codes "a")
    ∷ notifies (codes "a")
    ∷ []

hub_run-closes_once_example : count 0 (hub_run calls new_notify_hub).closed ≤ 1
hub_run-closes_once_example = hub_run-closes_once calls 0

-- The channel is number 3.
subscribe-notify_example :
    count
      (subscribe (codes "b") (hub_run calls new_notify_hub)).0
      (notify (codes "b") (
        hub_run
          (subscribes (codes "a") ∷ cancels (codes "b") 2 ∷ notifies (codes "a") ∷ [])
          (subscribe (codes "b") (hub_run calls new_notify_hub)).1)).closed
    ≡ 1
unfolding subscribe notify cancel text_eq
subscribe-notify_example =
    subscribe-notify calls (codes "b")
      (subscribes (codes "a") ∷ cancels (codes "b") 2 ∷ notifies (codes "a") ∷ []) refl

abbrev steps : List CoalescerStep
steps =
    triggers (codes "a")
    ∷ triggers (codes "a")
    ∷ passes 20000
    ∷ expires (codes "a")
    ∷ triggers (codes "a")
    ∷ []

coalescer_run-AreSpaced_example :
    AreSpaced 20000 (coalescer_run steps (new_notify_coalescer 20000 7)).fired
coalescer_run-AreSpaced_example = coalescer_run-AreSpaced steps 20000 7
