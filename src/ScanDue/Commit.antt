-- ===== src/ScanDue/Commit.antt =====
-- After a successful scan nothing is due (internal/controller/atlassecurityscan_controller.go).
use atlas_operator.Prelude.{
  ℕ, ◌≤◌, ◌≡◌, refl, Bool, true, false, not, ◌&&◌, String, List, [], ◌∷◌, Option, none, some, arith,
  int_eq, int_eq_refl, str_eq, eq_refl, equal, contains_func, sort_text, sort_text_idem,
}
use atlas_operator.Conditions.{ConditionApi, ConditionStatus}
use atlas_operator.ScanStatus.{
  AtlasSecurityScan, no_trigger, ScanSummary, ObservedTrigger, ScanAttempt, set_scanned,
  set_compliant,
}
use atlas_operator.ScanDue.{
  Schedule, ScanSnapshot, same_key, is_pending, pending_triggers, due_check, anchor,
  latest_slot_at_or_before, slot_of, covered_slot, next_anchor, close_attempt, active_waivers,
  waiver_ids, ignored, commit, is_after, or_else, kind_text,
}
use atlas_operator.ScanDue.Slots.{Increasing, latest_slot_at_or_before_mono}

-- No two triggers of the list have one key.
abbrev pub distinct_keys : List ObservedTrigger → Bool
distinct_keys [] = true
distinct_keys (o ∷ os) = not (contains_func (same_key o) os) && distinct_keys os

not_pending : (o : ObservedTrigger) → is_pending o (some o) ≡ false
not_pending o = rw (eq_refl o.uid, eq_refl o.revision)

same_key_refl : (o : ObservedTrigger) → same_key o o ≡ true
same_key_refl o = rw (eq_refl o.name, eq_refl (kind_text o.kind))

-- A recorded trigger of another key plays no part.
pending_triggers-skip :
    (os : List ObservedTrigger) (r : ObservedTrigger) (rs : List ObservedTrigger)
    → contains_func (same_key r) os ≡ false
    → pending_triggers os (r ∷ rs) ≡ pending_triggers os rs
unfolding pending_triggers
pending_triggers-skip [] r rs h = refl
pending_triggers-skip (o ∷ os) r rs h =
    let rest = pending_triggers-skip os r rs (ground arith) in
    let other : same_key r o ≡ false = ground arith in rw (other, rest)

pending_triggers_self :
    (os : List ObservedTrigger) → distinct_keys os ≡ true → pending_triggers os os ≡ []
unfolding pending_triggers
pending_triggers_self [] h = refl
pending_triggers_self (o ∷ os) h =
    let apart : contains_func (same_key o) os ≡ false = ground arith in
    let rest = pending_triggers_self os (ground arith) in
    rw (same_key_refl o, not_pending o, pending_triggers-skip os o os apart) rest

equal_refl : (ss : List String) → equal str_eq ss ss ≡ true
equal_refl [] = refl
equal_refl (s ∷ ss) = rw (eq_refl s, equal_refl ss)

-- A schedule, if there is one, goes forward.
abbrev pub ScheduleIncreasing : Option Schedule → Type 0
ScheduleIncreasing none = Unit
ScheduleIncreasing (some next) = Increasing next

next_anchor-covers :
    (next : Schedule) (covered slot old : Option ℕ)
    → is_after slot covered ≡ false
    → is_after slot (next_anchor (some next) (or_else covered slot) old) ≡ false
next_anchor-covers next none none old h = refl
next_anchor-covers next none (some s) old h = cc
next_anchor-covers next (some c) slot old h = h

-- The anchor that a commit leaves is no earlier than the slot of the snapshot.
anchor-covers :
    (sched : Option Schedule) (res : AtlasSecurityScan) (now completion : ℕ) (old : Option ℕ)
    → ScheduleIncreasing sched
    → now ≤ completion
    → is_after (slot_of sched res now) (
        next_anchor sched
          (or_else (covered_slot sched res now completion) (slot_of sched res now))
          old)
      ≡ false
unfolding slot_of covered_slot
anchor-covers none res now completion old inc le = refl
anchor-covers (some next) res now completion old inc le =
    next_anchor-covers next (latest_slot_at_or_before next (anchor res now) completion)
      (latest_slot_at_or_before next (anchor res now) now) old
      (latest_slot_at_or_before_mono next (anchor res now) now completion inc le)

and_false : (b : Bool) → b && false ≡ false
and_false true = refl
and_false false = refl

active_waivers-sorted :
    (res : AtlasSecurityScan) (at : ℕ) → sort_text (active_waivers res at) ≡ active_waivers res at
unfolding active_waivers
active_waivers-sorted res at = sort_text_idem (waiver_ids (ignored res.spec.policy) at)

-- Where every watermark is met, nothing is due.
due_check-quiet :
    (format : ℕ → String) (s : AtlasSecurityScan) (snap : ScanSnapshot) (t : ℕ)
    → s.status.last_successful_time ≡ some t
    → int_eq s.generation s.status.observed_generation ≡ true
    → str_eq snap.requested_at s.status.last_handled_scan_request ≡ true
    → pending_triggers snap.observed s.status.triggers ≡ []
    → is_after snap.slot s.status.last_schedule_time ≡ false
    → equal str_eq snap.waivers (sort_text s.status.active_waivers) ≡ true
    → due_check format s snap ≡ (no_trigger, "")
unfolding due_check
due_check-quiet format s snap t success gen req pending slot waived =
    simp (success, gen, req, pending, slot, waived, and_false)

module _ (api : ConditionApi) (res : AtlasSecurityScan) (sched : Option Schedule)
    (snap : ScanSnapshot) (now completion : ℕ) (summary : ScanSummary) (rmsg : String)
    (verdict : ConditionStatus) (reason vmsg : String) where
  abbrev after_commit : AtlasSecurityScan
  after_commit = commit api res sched snap now completion summary rmsg verdict reason vmsg

  -- What the commit leaves of the watermarks.
  record Watermarks (s : AtlasSecurityScan) : Type 0 where
    gen : s.status.observed_generation ≡ s.generation
    success : s.status.last_successful_time ≡ some completion
    request : s.status.last_handled_scan_request ≡ snap.requested_at
    recorded : s.status.triggers ≡ snap.observed
    active : s.status.active_waivers ≡ snap.waivers

  commit-Watermarks : Watermarks after_commit
  unfolding commit set_scanned set_compliant close_attempt
  commit-Watermarks = view res.status.last_scan refl
    where
      view : (a : Option ScanAttempt) → res.status.last_scan ≡ a → Watermarks after_commit
      view none e = record {
        gen = simp e;
        success = refl;
        request = simp e;
        recorded = simp e;
        active = simp e;
      }
      view (some a) e = record {
        gen = simp e;
        success = refl;
        request = simp e;
        recorded = simp e;
        active = simp e;
      }

  committed_anchor :
      after_commit.status.last_schedule_time
      ≡ next_anchor sched
          (or_else (covered_slot sched res now completion) snap.slot)
          res.status.last_schedule_time
  unfolding commit set_scanned set_compliant close_attempt
  committed_anchor = view res.status.last_scan refl
    where
      view :
          (a : Option ScanAttempt)
          → res.status.last_scan ≡ a
          → after_commit.status.last_schedule_time
            ≡ next_anchor sched
                (or_else (covered_slot sched res now completion) snap.slot)
                res.status.last_schedule_time
      view none e = simp e
      view (some a) e = simp e

  -- Right after the commit of a scan its snapshot is due for nothing, if the snapshot holds the slot
  -- and the waivers of an instant that is not after the completion, no two of its triggers have one
  -- key, and the schedule, if there is one, goes forward.
  pub commit-due_check :
      (format : ℕ → String)
      → ScheduleIncreasing sched
      → now ≤ completion
      → snap.slot ≡ slot_of sched res now
      → snap.waivers ≡ active_waivers res now
      → distinct_keys snap.observed ≡ true
      → due_check format after_commit snap ≡ (no_trigger, "")
  commit-due_check format inc le taken waived distinct =
      let w = commit-Watermarks in
      due_check-quiet format after_commit snap completion w.success
        (rw (w.gen) (int_eq_refl after_commit.generation))
        (rw (w.request) (eq_refl snap.requested_at))
        (rw (w.recorded) (pending_triggers_self snap.observed distinct))
        (rw (committed_anchor, taken)
          (anchor-covers sched res now completion res.status.last_schedule_time inc le))
        (rw (w.active) sorted_waivers)
    where
      sorted_waivers : equal str_eq snap.waivers (sort_text snap.waivers) ≡ true
      sorted_waivers =
          rw (waived, active_waivers-sorted res now) (equal_refl (active_waivers res now))
