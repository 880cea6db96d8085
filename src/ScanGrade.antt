-- ===== src/ScanGrade.antt =====
-- The grading of the findings of a scan (internal/controller/atlassecurityscan_controller.go and
-- api/v1alpha1/atlassecurityreport_types.go). A vulnerability is that of the Atlas SDK;
-- strings.ToUpper is a parameter. The counts, of 32 bits in the source, do not wrap.
pub mod Counts
pub mod Verdict
use Prim.Native.String.{len, slice}
use text.Mathlib.Text.{is_char_boundary}
use atlas_operator.Prelude.{
  ℕ, zero, suc, ◌+◌, Bool, true, false, not, ◌&&◌, ◌||◌, String, List, [], ◌∷◌, ◌++◌, Option, none,
  some, ltb, leb, ◌==◌, length, decimal, str_eq, concat, join, contains_func, sort_text, is_empty,
  if◌then◌else◌,
}
use atlas_operator.Conditions.{ConditionStatus, cond_true, cond_false, cond_unknown}
use atlas_operator.Reason.{reason_no_threshold, reason_within_policy, reason_policy_violated}
use atlas_operator.Cluster.{get, put}
use atlas_operator.ScanStatus.{
  SecurityLevel, normal, elevated, high, critical, other_level, level_rank, security_levels,
  ScanPolicy, IgnoredVulnerability, ScanSummary, LevelCount,
}

-- atlasexec.SecurityScanTarget, with the fields that are read.
pub record Vulnerability : Type 0 where
  pub vuln_id : String
  pub vuln_name : String
  pub engine : String
  pub version : String
  pub level_text : String
  pub severity : String
  pub title : String
  pub description : String
  pub suggestion : String

pub record ScanTarget : Type 0 where
  pub target_driver : String
  pub target_extensions : List String
  pub vulnerabilities : List Vulnerability

-- ReportedVulnerability; a waiver is the entry of the policy that holds it.
pub record Finding : Type 0 where
  pub id : String
  pub extension : String
  pub finding_engine : String
  pub finding_version : String
  pub level : SecurityLevel
  pub cvss_severity : String
  pub finding_title : String
  pub finding_description : String
  pub finding_suggestion : String
  pub waiver : Option IgnoredVulnerability

-- The texts of the levels.
abbrev pub text_of : SecurityLevel → String
text_of normal = "NORMAL"
text_of elevated = "ELEVATED"
text_of high = "HIGH"
text_of critical = "CRITICAL"
text_of (other_level s) = s

abbrev pub level_of : String → SecurityLevel
level_of s =
    if str_eq s "NORMAL"
    then normal
    else if str_eq s "ELEVATED"
    then elevated
    else if str_eq s "HIGH"
    then high
    else if str_eq s "CRITICAL"
    then critical
    else other_level s

-- The loop of truncate: back to the start of a rune.
unfoldable pub back_to_rune : String → ℕ → ℕ
back_to_rune s zero = zero
back_to_rune s (suc n) =
    let rest = back_to_rune s n in if is_char_boundary s (suc n) then suc n else rest

-- truncate, to n bytes at most: a rune starts at an index of a text where it has a boundary.
unfoldable pub truncate : String → ℕ → String
unfolding back_to_rune
truncate s n = if leb (len s) n then s else slice s 0 (back_to_rune s n)

-- descriptionLimit
abbrev pub description_limit : ℕ
description_limit = 1024

-- plural
unfoldable pub plural : ℕ → String → String
plural n word = if n == 1 then word else concat (word ∷ "s" ∷ [])

-- slices.Compact
unfoldable pub compact : List String → List String
compact [] = []
compact (s ∷ []) = s ∷ []
compact (s ∷ t ∷ ts) = let rest = compact (t ∷ ts) in if str_eq s t then rest else s ∷ rest

waiver_in : List IgnoredVulnerability → String → Option IgnoredVulnerability
waiver_in [] id = none
waiver_in (w ∷ ws) id = if str_eq w.id id then some w else waiver_in ws id

-- waiverFor
unfoldable pub waiver_for : Option ScanPolicy → String → Option IgnoredVulnerability
unfolding waiver_in
waiver_for none id = none
waiver_for (some p) id = waiver_in p.ignore id

-- The variables of the loop of grade.
pub record Grading : Type 0 where
  pub seen : List (String × String)
  pub findings : List Finding
  pub counts : List (String × ℕ)
  pub total : ℕ
  pub waived : ℕ
  pub highest : Option SecurityLevel

abbrev pub or_zero : Option ℕ → ℕ
or_zero none = 0
or_zero (some n) = n

-- LevelIndex plus one, and 0 for the empty level.
abbrev pub rank_of : Option SecurityLevel → ℕ
rank_of none = 0
rank_of (some l) = level_rank l

abbrev pub higher : Option SecurityLevel → SecurityLevel → Option SecurityLevel
higher h l = if ltb (rank_of h) (level_rank l) then some l else h

abbrev pub key_eq : String × String → String × String → Bool
key_eq a b = str_eq a.0 b.0 && str_eq a.1 b.1

abbrev pub is_waived : List String → String → Bool
is_waived waivers id = contains_func (λ w. str_eq w id) waivers

module _ (upper : String → String) (policy : Option ScanPolicy) (waivers : List String) where
  -- The finding of a vulnerability.
  unfoldable pub finding_of : Vulnerability → Finding
  unfolding truncate waiver_for
  finding_of v = record {
    id = v.vuln_id;
    extension = v.vuln_name;
    finding_engine = v.engine;
    finding_version = v.version;
    level = level_of (upper v.level_text);
    cvss_severity = upper v.severity;
    finding_title = v.title;
    finding_description = truncate v.description description_limit;
    finding_suggestion = v.suggestion;
    waiver = if is_waived waivers v.vuln_id then waiver_for policy v.vuln_id else none;
  }

  -- The part of the round that counts the finding.
  unfoldable pub count_finding : Grading → Finding → Grading
  unfolding get put level_rank
  count_finding g f =
      if is_waived waivers f.id then record g { waived = suc g.waived } else record g {
        counts = put g.counts (text_of f.level) (suc (or_zero (get g.counts (text_of f.level))));
        total = suc g.total;
        highest = higher g.highest f.level;
      }

  -- A round of the loop of grade.
  unfoldable pub grade_one : Grading → Vulnerability → Grading
  unfolding finding_of count_finding
  grade_one g v =
      let key : String × String = (v.vuln_id, v.vuln_name) in
      if contains_func (λ k. key_eq k key) g.seen
      then g
      else let f = finding_of v in
        let c = count_finding g f in
        record c { seen = key ∷ g.seen; findings = g.findings ++ f ∷ [] }

  unfoldable pub grade_all : Grading → List Vulnerability → Grading
  unfolding grade_one
  grade_all g [] = g
  grade_all g (v ∷ vs) = grade_all (grade_one g v) vs

  abbrev pub no_grading : Grading
  no_grading = record {
    seen = [];
    findings = [];
    counts = [];
    total = 0;
    waived = 0;
    highest = none;
  }

  abbrev level_counts : List (String × ℕ) → List SecurityLevel → List LevelCount
  level_counts counts [] = []
  level_counts counts (l ∷ ls) =
      level_counts counts ls
      ++ record { level = l; level_count = or_zero (get counts (text_of l)) } ∷ []

  -- grade: the findings, the names of the extensions and the summary.
  unfoldable pub grade : ScanTarget → List Finding × List String × ScanSummary
  unfolding grade_all compact get
  grade t =
      let exts = compact (sort_text t.target_extensions) in
      let g = grade_all no_grading t.vulnerabilities in
      (
        g.findings,
        exts,
        record {
          driver = t.target_driver;
          extensions = length exts;
          total = g.total;
          waived = g.waived;
          highest_level = g.highest;
          levels = level_counts g.counts security_levels;
        },
      )

-- Whether verdictOf counts a finding.
abbrev pub violates : SecurityLevel → Finding → Bool
violates fail_on f = elim f.waiver [
  | some w ↦ false
  | none ↦ not (ltb (level_rank f.level) (level_rank fail_on))
]

-- The loop of verdictOf: the number of findings and the highest level.
unfoldable pub violations :
    SecurityLevel → List Finding → ℕ → Option SecurityLevel → ℕ × Option SecurityLevel
unfolding level_rank
violations fail_on [] n highest = (n, highest)
violations fail_on (f ∷ fs) n highest = elim (violates fail_on f) [
  | true ↦ violations fail_on fs (suc n) (higher highest f.level)
  | false ↦ violations fail_on fs n highest
]

abbrev pub text_or_empty : Option SecurityLevel → String
text_or_empty none = ""
text_or_empty (some l) = text_of l

verdict_on : SecurityLevel → String → ℕ × Option SecurityLevel → ConditionStatus × String × String
unfolding plural
verdict_on fail_on report (n, highest) =
    if n == 0
    then (
      cond_true,
      reason_within_policy,
      concat (
          "no findings at or above "
          ∷ text_of fail_on
          ∷ "; see atlassecurityreport/"
          ∷ report
          ∷ []),
    )
    else (
      cond_false,
      reason_policy_violated,
      concat (
          decimal n
          ∷ " "
          ∷ plural n "finding"
          ∷ " at or above "
          ∷ text_of fail_on
          ∷ ", highest "
          ∷ text_or_empty highest
          ∷ "; see atlassecurityreport/"
          ∷ report
          ∷ []),
    )

abbrev pub fail_on_of : Option ScanPolicy → Option SecurityLevel
fail_on_of none = none
fail_on_of (some p) = p.fail_on

-- verdictOf
unfoldable pub verdict_of :
    List Finding → Option ScanPolicy → String → ConditionStatus × String × String
unfolding violations verdict_on
verdict_of findings policy report = elim (fail_on_of policy) [
  | none ↦ (
    cond_unknown, reason_no_threshold, "spec.policy.failOn is not set; findings are reported only",
  )
  | some fail_on ↦ verdict_on fail_on report (violations fail_on findings 0 none)
]

shown_levels : List LevelCount → List String
shown_levels [] = []
shown_levels (l ∷ ls) =
    let rest = shown_levels ls in
    if ltb 0 l.level_count
    then concat (decimal l.level_count ∷ " " ∷ text_of l.level ∷ []) ∷ rest
    else rest

-- readyMessage
unfoldable pub scanned_message : ScanSummary → String
unfolding plural shown_levels
scanned_message s =
    let found : String =
      if s.total == 0
      then "no findings"
      else concat (
          decimal s.total
          ∷ " "
          ∷ plural s.total "finding"
          ∷ " ("
          ∷ join (shown_levels s.levels) ", "
          ∷ ")"
          ∷ []) in
    let exts : String =
      if ltb 0 s.extensions
      then concat (" and " ∷ decimal s.extensions ∷ " " ∷ plural s.extensions "extension" ∷ [])
      else "" in
    let waived : String =
      if ltb 0 s.waived then concat ("; " ∷ decimal s.waived ∷ " waived" ∷ []) else "" in
    concat (found ∷ " in the server version" ∷ exts ∷ waived ∷ [])
