-- ===== src/ScanGrade/Verdict.antt =====
-- The verdict on the findings and the length of a description
-- (internal/controller/atlassecurityscan_controller.go).
use Prim.Native.String.{len, slice}
use text.Mathlib.Text.{is_char_boundary}
use text.Mathlib.TextPositions.{boundary-zero}
use atlas_operator.Prelude.{
  ℕ, zero, suc, ◌+◌, ◌≤◌, ◌≡◌, ◌⊎◌, refl, ◌∙◌, Bool, true, false, not, String, List, [], ◌∷◌,
  Option, none, some, arith, leb, ◌==◌, contains_func, if◌then◌else◌, inl, inr, Bool-cases,
  Option-cases, leb→le,
}
use atlas_operator.Conditions.{ConditionStatus, cond_true, cond_false, cond_unknown}
use atlas_operator.ScanStatus.{
  SecurityLevel, normal, elevated, high, critical, other_level, level_rank, ScanPolicy,
}
use atlas_operator.ScanGrade.{
  Finding, violates, violations, verdict_on, verdict_of, fail_on_of, truncate, back_to_rune, higher,
}

-- The status of the verdict, by whether some finding violates the threshold.
abbrev pub status_of : Option SecurityLevel → List Finding → ConditionStatus
status_of none findings = cond_unknown
status_of (some fail_on) findings =
    if contains_func (violates fail_on) findings then cond_false else cond_true

abbrev number_of : SecurityLevel → List Finding → ℕ
number_of fail_on [] = 0
number_of fail_on (f ∷ fs) =
    if violates fail_on f then suc (number_of fail_on fs) else number_of fail_on fs

violations-number :
    (fail_on : SecurityLevel) (fs : List Finding) (n : ℕ) (h : Option SecurityLevel)
    → (violations fail_on fs n h).0 ≡ n + number_of fail_on fs
unfolding violations
violations-number fail_on [] n h = omega arith
violations-number fail_on (f ∷ fs) n h =
    round (λ m k. violations-number fail_on fs m k) (violates fail_on f)
  where
    round :
        (rest : (m : ℕ) (k : Option SecurityLevel)
          → (violations fail_on fs m k).0 ≡ m + number_of fail_on fs)
        (b : Bool)
        → (elim b as (λ x. ℕ × Option SecurityLevel) [
          | true ↦ violations fail_on fs (suc n) (higher h f.level)
          | false ↦ violations fail_on fs n h
        ]).0
          ≡ n + (if b then suc (number_of fail_on fs) else number_of fail_on fs)
    round rest true = omega (arith, rest (suc n) (higher h f.level))
    round rest false = rest n h

number-contains :
    (fail_on : SecurityLevel) (fs : List Finding)
    → (number_of fail_on fs == 0) ≡ not (contains_func (violates fail_on) fs)
number-contains fail_on [] = refl
number-contains fail_on (f ∷ fs) = ground (arith, number-contains fail_on fs)

verdict_on-status :
    (fail_on : SecurityLevel) (report : String) (c : ℕ × Option SecurityLevel)
    → (verdict_on fail_on report c).0 ≡ (if c.0 == 0 then cond_true else cond_false)
unfolding verdict_on
verdict_on-status fail_on report (n, h) = ground arith

verdict_of-status :
    (findings : List Finding) (policy : Option ScanPolicy) (report : String)
    → (verdict_of findings policy report).0 ≡ status_of (fail_on_of policy) findings
unfolding verdict_of
verdict_of-status findings policy report = threshold (fail_on_of policy)
  where
    threshold :
        (o : Option SecurityLevel)
        → (elim o as (λ x. ConditionStatus × String × String) [
          | none ↦ (
            cond_unknown, "NoThreshold",
            "spec.policy.failOn is not set; findings are reported only",
          )
          | some fail_on ↦ verdict_on fail_on report (violations fail_on findings 0 none)
        ]).0
          ≡ status_of o findings
    threshold none = refl
    threshold (some fail_on) =
        verdict_on-status fail_on report (violations fail_on findings 0 none)
        ∙ ground
            (arith, violations-number fail_on findings 0 none, number-contains fail_on findings)

-- How grave a level is, for the levels from NORMAL to CRITICAL; and any other below them.
abbrev pub gravity : SecurityLevel → ℕ
gravity critical = 4
gravity high = 3
gravity elevated = 2
gravity normal = 1
gravity (other_level s) = 0

-- Some finding has no waiver, and is at least as grave as the threshold.
abbrev pub HasViolation : SecurityLevel → List Finding → Type 0
HasViolation fail_on [] = ⊥
HasViolation fail_on (f ∷ fs) =
    ((f.waiver ≡ none) × (gravity fail_on ≤ gravity f.level)) ⊎ HasViolation fail_on fs

-- The verdict on the findings under the threshold of a policy.
abbrev pub IsVerdict : Option SecurityLevel → List Finding → ConditionStatus → Type 0
IsVerdict none findings s = s ≡ cond_unknown
IsVerdict (some fail_on) findings s =
    ((s ≡ cond_false) × HasViolation fail_on findings)
    ⊎ ((s ≡ cond_true) × (HasViolation fail_on findings → ⊥))

level_rank-gravity : (l : SecurityLevel) → level_rank l ≡ gravity l
unfolding level_rank
level_rank-gravity critical = refl
level_rank-gravity high = refl
level_rank-gravity elevated = refl
level_rank-gravity normal = refl
level_rank-gravity (other_level s) = refl

violates-gravity :
    (fail_on : SecurityLevel) (f : Finding)
    → (violates fail_on f ≡ true → (f.waiver ≡ none) × (gravity fail_on ≤ gravity f.level))
      × ((f.waiver ≡ none) × (gravity fail_on ≤ gravity f.level) → violates fail_on f ≡ true)
violates-gravity fail_on f = elim (Option-cases f.waiver) [
  | inr (w, e) ↦ rw e (λ h. absurd (ground arith), λ (h, le). absurd (cc))
  | inl e ↦
      rw (e, level_rank-gravity fail_on, level_rank-gravity f.level)
        (λ h. (refl, ground (arith, h)), λ (h, le). ground (arith, le))
]

contains-HasViolation :
    (fail_on : SecurityLevel) (fs : List Finding)
    → (contains_func (violates fail_on) fs ≡ true → HasViolation fail_on fs)
      × (HasViolation fail_on fs → contains_func (violates fail_on) fs ≡ true)
contains-HasViolation fail_on [] = (λ h. absurd (ground arith), λ h. absurd h)
contains-HasViolation fail_on (f ∷ fs) =
    let (to, of) = violates-gravity fail_on f in
    let (to', of') = contains-HasViolation fail_on fs in
    elim (Bool-cases (violates fail_on f)) [
      | inl e ↦ rw e (λ h. inl (to e), λ h. refl)
      | inr e ↦
          rw e (λ h. inr (to' h), elim [ inl h ↦ absurd (ground (arith, e, of h)) | inr h ↦ of' h ])
    ]

status_of-IsVerdict :
    (o : Option SecurityLevel) (findings : List Finding)
    → IsVerdict o findings (status_of o findings)
status_of-IsVerdict none findings = refl
status_of-IsVerdict (some fail_on) findings =
    let (to, of) = contains-HasViolation fail_on findings in
    elim (Bool-cases (contains_func (violates fail_on) findings)) [
      | inl e ↦ rw e (inl (refl, to e))
      | inr e ↦ rw e (inr (refl, λ h. absurd (ground (arith, e, of h))))
    ]

-- Without a threshold the verdict is unknown; with one, it is that the policy is violated where some
-- finding without a waiver is at least as grave as the threshold, and else that it is kept. The
-- levels from NORMAL to CRITICAL grow in gravity, and any other level is below them.
pub verdict_of-IsVerdict :
    (findings : List Finding) (policy : Option ScanPolicy) (report : String)
    → IsVerdict (fail_on_of policy) findings (verdict_of findings policy report).0
verdict_of-IsVerdict findings policy report =
    rw (verdict_of-status findings policy report) (status_of-IsVerdict (fail_on_of policy) findings)

back_to_rune-boundary :
    (s : String) (n : ℕ) → (is_char_boundary s (back_to_rune s n) ≡ true) × (back_to_rune s n ≤ n)
unfolding back_to_rune
back_to_rune-boundary s zero = (boundary-zero s, omega arith)
back_to_rune-boundary s (suc n) = elim (Bool-cases (is_char_boundary s (suc n))) [
  | inl e ↦ rw e (e, omega arith)
  | inr e ↦ let (b, le) = back_to_rune-boundary s n in rw e (b, omega (arith, le))
]

-- A description is cut to at most the limit of bytes, at a place where a rune starts, so that no
-- rune is split, and a text within the limit stays whole.
pub truncate-len :
    (s : String) (n : ℕ)
    → (len (truncate s n) ≤ n)
      × ((truncate s n ≡ s)
          ⊎ ((k : ℕ) × (truncate s n ≡ slice s 0 k) × (is_char_boundary s k ≡ true)))
      × (len s ≤ n → truncate s n ≡ s)
unfolding truncate
truncate-len s n = elim (Bool-cases (leb (len s) n)) [
  | inl e ↦ rw e (leb→le (len s) n e, inl refl, λ _. refl)
  | inr e ↦
      let (b, le) = back_to_rune-boundary s n in
      rw e (
        cut_len (back_to_rune s n) b le,
        inr (back_to_rune s n, refl, b),
        λ h. absurd (too_long e h),
      )
]
  where
    cut_len : (k : ℕ) → is_char_boundary s k ≡ true → k ≤ n → len (slice s 0 k) ≤ n
    cut_len k b le = ground arith

    too_long : leb (len s) n ≡ false → len s ≤ n → ⊥
    too_long e h = ground arith
