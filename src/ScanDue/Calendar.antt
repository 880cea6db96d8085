-- ===== src/ScanDue/Calendar.antt =====
-- The slots of a schedule and the anchor from which they are searched
-- (internal/controller/atlassecurityscan_controller.go). An instant is a number of nanoseconds.
use atlas_operator.Prelude.{ℕ, zero, suc, Bool, true, false, Option, none, some, ltb, if◌then◌else◌}
use atlas_operator.ScanStatus.{AtlasSecurityScan}

-- cron.Schedule
abbrev pub Schedule : Type 0
Schedule = ℕ → Option ℕ

-- maxSlotSteps
abbrev pub max_slot_steps : ℕ
max_slot_steps = 100_000

-- t.After(u), where u may be unset.
abbrev pub is_after : Option ℕ → Option ℕ → Bool
is_after none u = false
is_after (some t) none = true
is_after (some t) (some u) = ltb u t

-- The later of creation and the last success, where creation may be the zero time.
first_anchor : Option ℕ → Option ℕ → Option ℕ
first_anchor created success = if is_after success created then success else created

abbrev or_now : Option ℕ → ℕ → ℕ
or_now none now = now
or_now (some t) now = t

-- anchor
unfoldable pub anchor : AtlasSecurityScan → ℕ → ℕ
unfolding first_anchor
anchor res now = elim res.status.last_schedule_time [
  | some t ↦ t
  | none ↦ or_now (first_anchor res.creation_timestamp res.status.last_successful_time) now
]

-- The loop of latestSlotAtOrBefore, with the steps that are left, the last slot and the next one.
unfoldable pub slot_loop : ℕ → Schedule → ℕ → Option ℕ → Option ℕ → Option ℕ
slot_loop zero next now last none = last
slot_loop zero next now last (some t) = if ltb now t then last else some now
slot_loop (suc k) next now last none = last
slot_loop (suc k) next now last (some t) = elim (ltb now t) [
  | true ↦ last
  | false ↦ slot_loop k next now (some t) (next t)
]

-- latestSlotAtOrBefore
unfoldable pub latest_slot_at_or_before : Schedule → ℕ → ℕ → Option ℕ
latest_slot_at_or_before next from now = slot_loop max_slot_steps next now none (next from)

-- The loop of slotsBetween, with the steps that are left.
count_loop : ℕ → Schedule → ℕ → Option ℕ → ℕ
count_loop zero next to t = 0
count_loop (suc k) next to none = 0
count_loop (suc k) next to (some t) = elim (ltb t to) [
  | true ↦ suc (count_loop k next to (next t))
  | false ↦ 0
]

-- slotsBetween
unfoldable pub slots_between : Schedule → ℕ → ℕ → ℕ
unfolding count_loop
slots_between next from to = count_loop max_slot_steps next to (next from)

-- nextSchedule
unfoldable pub next_schedule : Option Schedule → ℕ → Option ℕ
next_schedule none from = none
next_schedule (some next) from = next from

-- The slot of a snapshot.
unfoldable pub slot_of : Option Schedule → AtlasSecurityScan → ℕ → Option ℕ
unfolding latest_slot_at_or_before anchor
slot_of none res now = none
slot_of (some next) res now = latest_slot_at_or_before next (anchor res now) now

abbrev pub or_else : Option ℕ → Option ℕ → Option ℕ
or_else none b = b
or_else (some a) b = some a

-- The last slot that a scan covers, which it has by its completion.
unfoldable pub covered_slot : Option Schedule → AtlasSecurityScan → ℕ → ℕ → Option ℕ
unfolding latest_slot_at_or_before anchor
covered_slot none res now completion = none
covered_slot (some next) res now completion =
    latest_slot_at_or_before next (anchor res now) completion

-- The anchor after a scan: it moves to a slot, and without a schedule it is cleared.
abbrev pub next_anchor : Option Schedule → Option ℕ → Option ℕ → Option ℕ
next_anchor none slot old = none
next_anchor (some next) slot old = or_else slot old
