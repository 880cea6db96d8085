-- ===== src/ScanDue/Due.antt =====
-- What a scan is due for (internal/controller/atlassecurityscan_controller.go). The format of an
-- instant is a parameter.
use atlas_operator.Prelude.{
  ℕ, suc, Bool, true, false, not, ◌&&◌, ◌||◌, String, List, [], ◌∷◌, Option, none, some, ltb, ℤ,
  pos, negsuc, int_eq, decimal, str_eq, concat, join, find_func, is_empty, equal, sort_text,
  if◌then◌else◌,
}
use atlas_operator.ScanStatus.{
  AtlasSecurityScan, ScanTrigger, trigger_spec, trigger_manual, trigger_apply, trigger_schedule,
  trigger_policy, no_trigger, ScanTriggerKind, schema_kind, migration_kind, other_kind, ScanPolicy,
  IgnoredVulnerability, ObservedTrigger,
}
use atlas_operator.ScanDue.Calendar.{is_after}

-- scanSnapshot
pub record ScanSnapshot : Type 0 where
  pub start : ℕ
  pub requested_at : String
  pub observed : List ObservedTrigger
  pub slot : Option ℕ
  pub waivers : List String

abbrev pub kind_text : ScanTriggerKind → String
kind_text schema_kind = "AtlasSchema"
kind_text migration_kind = "AtlasMigration"
kind_text (other_kind s) = s

-- triggerKey
abbrev pub trigger_key : ScanTriggerKind → String → String
trigger_key kind name = concat (kind_text kind ∷ "/" ∷ name ∷ [])

-- w.ExpirationTime == nil || w.ExpirationTime.After(at)
abbrev pub in_force : ℕ → Option ℕ → Bool
in_force at none = true
in_force at (some t) = ltb at t

unfoldable pub waiver_ids : List IgnoredVulnerability → ℕ → List String
waiver_ids [] at = []
waiver_ids (w ∷ ws) at =
    let rest = waiver_ids ws at in if in_force at w.expiration_time then w.id ∷ rest else rest

abbrev pub ignored : Option ScanPolicy → List IgnoredVulnerability
ignored none = []
ignored (some p) = p.ignore

-- activeWaivers
unfoldable pub active_waivers : AtlasSecurityScan → ℕ → List String
unfolding waiver_ids
active_waivers res at = sort_text (waiver_ids (ignored res.spec.policy) at)

-- The test of the key of a recorded trigger.
abbrev pub same_key : ObservedTrigger → ObservedTrigger → Bool
same_key r o = str_eq (kind_text r.kind) (kind_text o.kind) && str_eq r.name o.name

-- Whether the trigger differs from the recorded one, or has none.
abbrev pub is_pending : ObservedTrigger → Option ObservedTrigger → Bool
is_pending o none = true
is_pending o (some r) = not (str_eq r.uid o.uid) || not (str_eq r.revision o.revision)

-- pendingTriggers
unfoldable pub pending_triggers : List ObservedTrigger → List ObservedTrigger → List String
pending_triggers [] recorded = []
pending_triggers (o ∷ os) recorded =
    let rest = pending_triggers os recorded in
    if is_pending o (find_func (λ r. same_key r o) recorded)
    then trigger_key o.kind o.name ∷ rest
    else rest

abbrev int_text : ℤ → String
int_text (pos n) = decimal n
int_text (negsuc n) = concat ("-" ∷ decimal (suc n) ∷ [])

abbrev pub is_none {ℓ} : {A : Type ℓ} → Option A → Bool
is_none none = true
is_none (some a) = false

module _ (format : ℕ → String) where
  abbrev slot_text : Option ℕ → String
  slot_text none = ""
  slot_text (some t) = format t

  -- dueCheck
  unfoldable pub due_check : AtlasSecurityScan → ScanSnapshot → ScanTrigger × String
  unfolding pending_triggers
  due_check res snap =
      let st = res.status in
      let pending = pending_triggers snap.observed st.triggers in
      if is_none st.last_successful_time || not (int_eq res.generation st.observed_generation)
      then (trigger_spec, concat ("generation " ∷ int_text res.generation ∷ []))
      else if not (str_eq snap.requested_at "")
          && not (str_eq snap.requested_at st.last_handled_scan_request)
      then (trigger_manual, snap.requested_at)
      else if not (is_empty pending)
      then (trigger_apply, join pending ", ")
      else if is_after snap.slot st.last_schedule_time
      then (trigger_schedule, slot_text snap.slot)
      else if not (equal str_eq snap.waivers (sort_text st.active_waivers))
      then (trigger_policy, "waivers changed")
      else (no_trigger, "")
