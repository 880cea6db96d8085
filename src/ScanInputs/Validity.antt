-- ===== src/ScanInputs/Validity.antt =====
-- What the inputs of a security scan that pass validate promise
-- (internal/controller/atlassecurityscan_controller.go).
use atlas_operator.Prelude.{
  ◌≡◌, refl, ◌⊎◌, inl, inr, ℕ, Bool, true, false, not, ◌&&◌, ◌||◌, String, [], ◌∷◌, Option, none,
  some, str_eq, concat, has_prefix, arith, Bool-cases, Option-cases,
}
use atlas_operator.Errors.{Result, ok, err, GoError, as_permanent, error_text, Result-cases, ◌>>=◌}
use atlas_operator.ScanDue.{Schedule}
use atlas_operator.ScanInputs.{
  ScanInputs, CronApi, validate, parse_schedule, check_target, fires, zone_of, has_target,
  has_config, reason_invalid_schedule, reason_invalid_target, reason_invalid_time_zone,
}

-- The reason of an error that no scan can fix.
abbrev pub IsInvalid : GoError → Type 0
IsInvalid e =
    (as_permanent e ≡ some (reason_invalid_time_zone, error_text e))
    ⊎ ((as_permanent e ≡ some (reason_invalid_schedule, error_text e))
        ⊎ (as_permanent e ≡ some (reason_invalid_target, error_text e)))

-- The schedule that stands for a text: none for the empty text, or one that the library reads in the
-- zone, which fires behind the instant.
abbrev pub Schedules : CronApi → String → String → ℕ → Option Schedule → Type 0
Schedules cron tz text now none = str_eq text "" ≡ true
Schedules cron tz text now (some sched) =
    (str_eq text "" ≡ false)
    × ((cron.parse_standard (concat ("CRON_TZ=" ∷ tz ∷ " " ∷ text ∷ [])) ≡ ok sched)
        × ((t : ℕ) × (sched now ≡ some t)))

abbrev pub Usable : Bool → ScanInputs → Type 0
Usable allowed s =
    (has_target s.target || has_config s.project ≡ true)
    × (has_config s.project ≡ true → (allowed ≡ true) × (str_eq s.project.env_name "" ≡ false))

abbrev pub Outcome : (Option Schedule → Type 0) → Result (Option Schedule) → Type 0
Outcome P (ok sched) = P sched
Outcome P (err e) = IsInvalid e

fires-Outcome :
    (cron : CronApi) (tz text : String) (now : ℕ)
    → str_eq text "" ≡ false
    → Outcome
        (Schedules cron tz text now)
        (fires now (cron.parse_standard (concat ("CRON_TZ=" ∷ tz ∷ " " ∷ text ∷ []))))
unfolding fires as_permanent error_text
fires-Outcome cron tz text now h =
    elim (Result-cases (cron.parse_standard (concat ("CRON_TZ=" ∷ tz ∷ " " ∷ text ∷ [])))) [
      | inl (x, e) ↦ rw e (inr (inl refl))
      | inr (sched, e) ↦ rw e (elim (Option-cases (sched now)) [
        | inl i ↦ rw i (inr (inl refl))
        | inr (t, i) ↦ rw i (h, (e, (t, i)))
      ])
    ]

parse_schedule-Outcome :
    (cron : CronApi) (tz text : String) (now : ℕ)
    → Outcome (Schedules cron tz text now) (parse_schedule cron tz text now)
unfolding parse_schedule as_permanent error_text
parse_schedule-Outcome cron tz text now = elim (Bool-cases (str_eq text "")) [
  | inl e ↦ rw e e
  | inr e ↦ rw e (elim (Bool-cases (has_prefix text "TZ=" || has_prefix text "CRON_TZ=")) [
    | inl i ↦ rw i (inr (inl refl))
    | inr i ↦ rw i (elim (Bool-cases (has_prefix text "@every")) [
      | inl j ↦ rw j (inr (inl refl))
      | inr j ↦ rw j (fires-Outcome cron tz text now e)
    ])
  ])
]

check_target-Outcome :
    (allowed : Bool) (s : ScanInputs) (P : Option Schedule → Type 0) (sched : Option Schedule)
    → P sched
    → Outcome (λ x. P x × Usable allowed s) (check_target allowed s sched)
unfolding check_target as_permanent error_text
check_target-Outcome allowed s P sched p =
    elim (Bool-cases (not (has_target s.target) && not (has_config s.project))) [
      | inl e ↦ rw e (inr (inr refl))
      | inr e ↦ rw e (elim (Bool-cases (has_config s.project && not allowed)) [
        | inl i ↦ rw i (inr (inr refl))
        | inr i ↦ rw i (elim (Bool-cases (has_config s.project && str_eq s.project.env_name "")) [
          | inl j ↦ rw j (inr (inr refl))
          | inr j ↦ rw j (p, (ground arith, λ c. (ground arith, ground arith)))
        ])
      ])
    ]

bind-Outcome :
    (P Q : Option Schedule → Type 0) (r : Result (Option Schedule))
    (k : Option Schedule → Result (Option Schedule))
    → Outcome P r
    → ((x : Option Schedule) → P x → Outcome Q (k x))
    → Outcome Q (r >>= k)
bind-Outcome P Q (ok x) k h rest = rest x h
bind-Outcome P Q (err e) k h rest = h

-- A scan whose inputs pass has a known time zone, no schedule or one that the library reads in that
-- zone and that still fires, and a target or a configuration; a configuration is allowed and names
-- its environment. Inputs that do not pass fail with a permanent error that carries one of the three
-- reasons.
pub validate-Outcome :
    (cron : CronApi) (allowed : Bool) (s : ScanInputs) (now : ℕ)
    → Outcome
        (λ sched.
          (Schedules cron (zone_of s.input_time_zone) s.input_schedule now sched
            × (cron.is_location (zone_of s.input_time_zone) ≡ true))
          × Usable allowed s)
        (validate cron allowed s now)
unfolding validate as_permanent error_text
validate-Outcome cron allowed s now =
    let tz = zone_of s.input_time_zone in
    let P : Option Schedule → Type 0 = Schedules cron tz s.input_schedule now in
    elim (Bool-cases (cron.is_location tz)) [
      | inr e ↦ rw e (inl refl)
      | inl e ↦ rw e (
          bind-Outcome P (λ x. (P x × (true ≡ true)) × Usable allowed s)
            (parse_schedule cron tz s.input_schedule now) (check_target allowed s)
            (parse_schedule-Outcome cron tz s.input_schedule now)
            (λ x h. check_target-Outcome allowed s (λ y. P y × (true ≡ true)) x (h, refl)))
    ]
