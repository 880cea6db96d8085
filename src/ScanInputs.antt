-- ===== src/ScanInputs.antt =====
-- The inputs of a security scan that no scan can fix: `validate` of
-- internal/controller/atlassecurityscan_controller.go. The cron library and the zones of the package
-- time are a parameter. A schedule is its method Next, which gives none for the zero time.
pub mod Validity
use atlas_operator.Prelude.{
  ℕ, Bool, true, false, not, ◌&&◌, ◌||◌, String, List, [], ◌∷◌, Option, none, some, str_eq, concat,
  has_prefix, if◌then◌else◌,
}
use atlas_operator.Errors.{Result, ok, err, GoError, plain, permanent_error, ◌>>=◌}
use atlas_operator.Hcl.{is_some}
use atlas_operator.Target.{TargetSpec}
use atlas_operator.ProjectConfig.{ProjectConfigSpec}
use atlas_operator.ScanDue.{Schedule}

-- ReasonInvalidTimeZone, ReasonInvalidSchedule and ReasonInvalidTarget
abbrev pub reason_invalid_time_zone : String
reason_invalid_time_zone = "InvalidTimeZone"

abbrev pub reason_invalid_schedule : String
reason_invalid_schedule = "InvalidSchedule"

abbrev pub reason_invalid_target : String
reason_invalid_target = "InvalidTarget"

-- The part of AtlasSecurityScanSpec that is validated.
pub record ScanInputs : Type 0 where
  pub input_schedule : String
  pub input_time_zone : String
  pub target : TargetSpec
  pub project : ProjectConfigSpec

-- time.LoadLocation, of which the error is read, and cron.ParseStandard.
pub record CronApi : Type 1 where
  pub is_location : String → Bool
  pub parse_standard : String → Result Schedule

-- cmp.Or(s.TimeZone, "UTC")
abbrev pub zone_of : String → String
zone_of tz = if str_eq tz "" then "UTC" else tz

abbrev pub invalid : {A : Type 0} → String → String → Result A
invalid reason text = err (permanent_error reason (plain text))

-- A schedule that was parsed must fire.
unfoldable pub fires : ℕ → Result Schedule → Result (Option Schedule)
fires now (err e) = invalid reason_invalid_schedule "schedule does not parse"
fires now (ok sched) = elim (sched now) [
  | none ↦ invalid reason_invalid_schedule "schedule does not fire"
  | some t ↦ ok (some sched)
]

-- The schedule, which is none where the resource has none.
unfoldable pub parse_schedule : CronApi → String → String → ℕ → Result (Option Schedule)
unfolding fires
parse_schedule cron tz schedule now =
    if str_eq schedule ""
    then ok none
    else if has_prefix schedule "TZ=" || has_prefix schedule "CRON_TZ="
    then invalid reason_invalid_schedule "use spec.timeZone instead of a TZ= prefix"
    else if has_prefix schedule "@every"
    then invalid reason_invalid_schedule "@every is interval-based and drifts"
    else fires now (cron.parse_standard (concat ("CRON_TZ=" ∷ tz ∷ " " ∷ schedule ∷ [])))

-- hasTarget and hasConfig
abbrev pub has_target : TargetSpec → Bool
has_target t = not (str_eq t.url "") || is_some t.url_from || not (str_eq t.credentials.scheme "")

abbrev pub has_config : ProjectConfigSpec → Bool
has_config c = not (str_eq c.config "") || is_some c.config_from

-- The last switch of validate.
unfoldable pub check_target : Bool → ScanInputs → Option Schedule → Result (Option Schedule)
check_target allow_custom_config s sched =
    if not (has_target s.target) && not (has_config s.project)
    then invalid reason_invalid_target "no target database or project configuration"
    else if has_config s.project && not allow_custom_config
    then invalid reason_invalid_target
        "install the operator with allowCustomConfig=true to use a custom atlas.hcl"
    else if has_config s.project && str_eq s.project.env_name ""
    then invalid reason_invalid_target "envName must be set when using a custom atlas.hcl"
    else ok sched

-- validate
unfoldable pub validate : CronApi → Bool → ScanInputs → ℕ → Result (Option Schedule)
unfolding parse_schedule check_target
validate cron allow_custom_config s now =
    if not (cron.is_location (zone_of s.input_time_zone))
    then invalid reason_invalid_time_zone "unknown time zone"
    else do
      sched ← parse_schedule cron (zone_of s.input_time_zone) s.input_schedule now
      check_target allow_custom_config s sched
