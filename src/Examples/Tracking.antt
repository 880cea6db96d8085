-- ===== src/Examples/Tracking.antt =====
-- The tracker of pending resources, the watcher and the backoff.
use atlas_operator.Prelude.{◌-◌, ◌*◌, ◌≤◌, ◌<◌, ◌≡◌, ◌⊎◌, [], ◌∷◌, map, arith}
use atlas_operator.NameMap.{Name, lookup}
use atlas_operator.Pending.{PendingTracker, doubled, delay_for, max_pending_duration}
use atlas_operator.Pending.Delay.{
  delay_for-eq-delay_steps, delay_for_bounds, LoopEnds, doubled-ends,
}
use atlas_operator.Pending.Tracker.{polls, NotWaiting, polls-map-delay_for}
use atlas_operator.Watch.{handle, new, update_event}
use atlas_operator.Watch.Requests.{count, watch_all, count-handle}
use atlas_operator.Errors.{second, retry_duration}

abbrev app : Name
app = record { namespace = "prod"; name = "app" }

abbrev shop : Name
shop = record { namespace = "prod"; name = "shop" }

abbrev waiting : PendingTracker
waiting = (app, record { key = "plan-1"; since = 7 }) ∷ []

not_waiting : NotWaiting waiting app "plan-2"
unfolding lookup
not_waiting e h = cc

polls-map-delay_for_example :
    polls waiting app "plan-2" (100 * second ∷ 104 * second ∷ 130 * second ∷ [])
    ≡ map (λ now. delay_for (now - 100 * second)) (100 * second ∷ 104 * second ∷ 130 * second ∷ [])
polls-map-delay_for_example =
    polls-map-delay_for waiting app "plan-2" (100 * second) (104 * second ∷ 130 * second ∷ [])
      not_waiting

delay_for-eq-delay_steps_example : delay_for (30 * second) ≡ 40 * second
delay_for-eq-delay_steps_example = delay_for-eq-delay_steps (30 * second)

doubled-ends_example : LoopEnds (30 * second) retry_duration (40 * second)
unfolding doubled
doubled-ends_example = doubled-ends (30 * second)

delay_for_bounds_example :
    (retry_duration ≤ delay_for (30 * second))
    × (delay_for (30 * second) ≤ max_pending_duration)
    × ((30 * second ≤ delay_for (30 * second)) ⊎ (delay_for (30 * second) ≡ max_pending_duration))
    × ((delay_for (30 * second) ≡ retry_duration) ⊎ (delay_for (30 * second) < 30 * second * 2))
    × (delay_for (30 * second) ≤ delay_for (900 * second))
delay_for_bounds_example = delay_for_bounds (30 * second) (900 * second) (omega arith)

count-handle_example :
    count shop
      (handle (watch_all new ((app, shop) ∷ (app, app) ∷ (app, shop) ∷ [])) (update_event app shop))
    ≡ 1
count-handle_example =
    count-handle ((app, shop) ∷ (app, app) ∷ (app, shop) ∷ []) (update_event app shop) shop
