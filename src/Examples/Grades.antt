-- ===== src/Examples/Grades.antt =====
-- The grading of findings.
use Prim.Native.String.{len, slice}
use text.Mathlib.Text.{is_char_boundary}
use atlas_operator.Prelude.{
  ℕ, refl, ◌+◌, ◌≤◌, ◌≡◌, ◌⊎◌, true, String, List, [], ◌∷◌, Option, none, some, map, length,
}
use atlas_operator.Conditions.{cond_true}
use atlas_operator.ScanStatus.{ScanPolicy, critical, high, elevated, normal, level_rank}
use atlas_operator.ScanGrade.{
  Vulnerability, ScanTarget, Finding, grade, text_of, verdict_of, truncate,
}
use atlas_operator.ScanGrade.Counts.{open_at, grade-length}
use atlas_operator.ScanGrade.Verdict.{verdict_of-IsVerdict, IsVerdict, truncate-len}

abbrev vulnerability : String → String → Vulnerability
vulnerability id level = record {
  vuln_id = id;
  vuln_name = "ext";
  engine = "";
  version = "1";
  level_text = level;
  severity = "";
  title = "";
  description = "";
  suggestion = "";
}

abbrev target : ScanTarget
target = record {
  target_driver = "postgres";
  target_extensions = "ext" ∷ [];
  vulnerabilities =
      vulnerability "CVE-1" "HIGH"
      ∷ vulnerability "CVE-1" "HIGH"
      ∷ vulnerability "CVE-2" "CRITICAL"
      ∷ [];
}

abbrev policy : Option ScanPolicy
policy = some (record {
  min_severity = none;
  fail_on = some high;
  ignore = record { id = "CVE-2"; waiver_reason = ""; expiration_time = none } ∷ [];
})

abbrev waivers : List String
waivers = "CVE-2" ∷ []

grade-length_example :
    ((grade (λ s. s) policy waivers target).2.total
        + (grade (λ s. s) policy waivers target).2.waived
      ≡ length (grade (λ s. s) policy waivers target).0)
    × ((grade (λ s. s) policy waivers target).2.levels
        ≡ map
            (λ l. record {
              level = l;
              level_count =
                  open_at
                    (λ s. s)
                    policy
                    waivers
                    (text_of l)
                    (grade (λ s. s) policy waivers target).0;
            })
            (critical ∷ high ∷ elevated ∷ normal ∷ []))
grade-length_example = grade-length (λ s. s) policy waivers target

abbrev finding : Finding
finding = record {
  id = "CVE-1";
  extension = "ext";
  finding_engine = "";
  finding_version = "1";
  level = critical;
  cvss_severity = "";
  finding_title = "";
  finding_description = "";
  finding_suggestion = "";
  waiver = none;
}

-- A waived finding at the threshold, one below it, and one at it.
abbrev findings : List Finding
findings =
    record finding {
      waiver = some (record { id = "CVE-1"; waiver_reason = ""; expiration_time = none });
    }
    ∷ record finding { level = elevated }
    ∷ record finding { level = high }
    ∷ []

verdict_of-IsVerdict_example :
    IsVerdict (some high) findings (verdict_of findings policy "weekly").0
verdict_of-IsVerdict_example = verdict_of-IsVerdict findings policy "weekly"

-- Without the finding at the threshold the policy is kept.
kept_policy : (verdict_of (record finding { level = elevated } ∷ []) policy "weekly").0 ≡ cond_true
unfolding level_rank verdict_of
kept_policy = refl

truncate-len_example :
    (len (truncate "vulnerable" 4) ≤ 4)
    × ((truncate "vulnerable" 4 ≡ "vulnerable")
        ⊎ ((k : ℕ) × (truncate "vulnerable" 4 ≡ slice "vulnerable" 0 k)
            × (is_char_boundary "vulnerable" k ≡ true)))
    × (len "vulnerable" ≤ 4 → truncate "vulnerable" 4 ≡ "vulnerable")
truncate-len_example = truncate-len "vulnerable" 4
