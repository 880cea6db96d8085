-- ===== src/Pending.antt =====
-- The tracker of resources that wait on an external action (internal/controller/common.go): since
-- when each has waited on what, and the delay before it is looked at again. The mutex makes each
-- call atomic, so a call is a function of the entries. An instant is a number of nanoseconds; a
-- clock that has gone back gives an elapsed time of 0 here, and a negative one in the source, which
-- the loop treats alike.
pub mod Delay
pub mod Tracker
use atlas_operator.Prelude.{
  ℕ, zero, suc, ◌-◌, ◌*◌, Bool, true, false, String, List, [], ◌∷◌, Option, none, some, ltb, min,
  not, ◌&&◌, str_eq, if◌then◌else◌,
}
use atlas_operator.NameMap.{Name, NameMap, lookup, insert, delete}
use atlas_operator.Errors.{retry_duration, minute}

-- pendingEntry
pub record PendingEntry : Type 0 where
  pub key : String
  pub since : ℕ

-- The map of the entries.
abbrev pub PendingTracker : Type 0
PendingTracker = NameMap PendingEntry

-- 5 * time.Minute
abbrev pub max_pending_duration : ℕ
max_pending_duration = 5 * minute

-- for d < elapsed && d < maxPendingDuration { d *= 2 }
unfoldable pub doubled : ℕ → ℕ → ℕ → ℕ
doubled zero elapsed d = d
doubled (suc fuel) elapsed d =
    let rest = doubled fuel elapsed (d * 2) in
    if ltb d elapsed && ltb d max_pending_duration then rest else d

-- The loop, with fuel for seven rounds, and the minimum behind it.
unfoldable pub delay_for : ℕ → ℕ
unfolding doubled
delay_for elapsed = min (doubled 7 elapsed retry_duration) max_pending_duration

-- The entry that `delay` leaves for the resource: the one there, if it waits on the same key.
unfoldable pub current_entry : Option PendingEntry → String → ℕ → PendingEntry
current_entry none key now = record { key = key; since = now }
current_entry (some e) key now = if str_eq e.key key then e else record { key = key; since = now }

-- The entry is stored where the resource did not wait on the key before.
store_entry : PendingTracker → Name → Option PendingEntry → String → PendingEntry → PendingTracker
unfolding insert
store_entry t n none key e = insert t n e
store_entry t n (some f) key e = if str_eq f.key key then t else insert t n e

-- delay: the entries behind the call, and the delay.
unfoldable pub delay : PendingTracker → Name → String → ℕ → PendingTracker × ℕ
unfolding current_entry lookup store_entry delay_for
delay t n key now =
    let found = lookup t n in
    let e = current_entry found key now in (store_entry t n found key e, delay_for (now - e.since))

-- reset
unfoldable pub reset : PendingTracker → Name → PendingTracker
unfolding delete
reset t n = delete t n
