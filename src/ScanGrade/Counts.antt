-- ===== src/ScanGrade/Counts.antt =====
-- What the summary of a scan counts (internal/controller/atlassecurityscan_controller.go).
use atlas_operator.Prelude.{
  ℕ, suc, ◌+◌, ◌≡◌, refl, ◌∙◌, Bool, true, false, not, ◌&&◌, String, List, [], ◌∷◌, ◌++◌, Option,
  arith, str_eq, length, length-append, contains_func, if◌then◌else◌, inl, inr, Bool-cases, eq_iff,
  map,
}
use atlas_operator.Cluster.{get}
use atlas_operator.Cluster.Values.{get-put}
use atlas_operator.ScanStatus.{ScanPolicy, critical, high, elevated, normal}
use atlas_operator.ScanGrade.{
  Finding, Vulnerability, ScanTarget, Grading, finding_of, count_finding, grade_one, grade_all,
  no_grading, grade, is_waived, or_zero, text_of, key_eq,
}

module _ (upper : String → String) (policy : Option ScanPolicy) (waivers : List String) where
  -- The findings of a level that no waiver covers.
  abbrev pub open_at : String → List Finding → ℕ
  open_at l [] = 0
  open_at l (f ∷ fs) =
      if not (is_waived waivers f.id) && str_eq (text_of f.level) l
      then suc (open_at l fs)
      else open_at l fs

  open_at-append :
      (l : String) (fs : List Finding) (f : Finding)
      → open_at l (fs ++ f ∷ []) ≡ open_at l fs + open_at l (f ∷ [])
  open_at-append l [] f = omega arith
  open_at-append l (g ∷ fs) f = ground (arith, open_at-append l fs f)

  -- The counts agree with the findings.
  pub record Tally (g : Grading) : Type 0 where
    pub all : g.total + g.waived ≡ length g.findings
    pub per_level : (l : String) → or_zero (get g.counts l) ≡ open_at l g.findings

  count_finding-all :
      (g : Grading) (f : Finding)
      → Tally g
      → (count_finding upper policy waivers g f).total
          + (count_finding upper policy waivers g f).waived
        ≡ suc (length g.findings)
  unfolding count_finding
  count_finding-all g f h = elim (Bool-cases (is_waived waivers f.id)) [
    | inl w ↦ rw w (omega (arith, h.all))
    | inr n ↦ rw n (omega (arith, h.all))
  ]

  count_finding-per_level :
      (g : Grading) (f : Finding) (l : String)
      → Tally g
      → or_zero (get (count_finding upper policy waivers g f).counts l)
        ≡ open_at l g.findings + open_at l (f ∷ [])
  unfolding count_finding
  count_finding-per_level g f l h = elim (Bool-cases (is_waived waivers f.id)) [
    | inl w ↦ rw w (omega (arith, h.per_level l))
    | inr n ↦
        rw
          (n, get-put g.counts (text_of f.level) l (suc (or_zero (get g.counts (text_of f.level)))))
          (elim (Bool-cases (str_eq (text_of f.level) l)) [
            | inl e ↦ rw (e, (eq_iff (text_of f.level) l).0 e) (omega (arith, h.per_level l))
            | inr e ↦ rw e (omega (arith, h.per_level l))
          ])
  ]

  count_finding-findings :
      (g : Grading) (f : Finding) → (count_finding upper policy waivers g f).findings ≡ g.findings
  unfolding count_finding
  count_finding-findings g f = ground arith

  grade_one-Tally :
      (g : Grading) (v : Vulnerability) → Tally g → Tally (grade_one upper policy waivers g v)
  unfolding grade_one
  grade_one-Tally g v h = pick (contains_func (λ k. key_eq k (v.vuln_id, v.vuln_name)) g.seen)
    where
      f : Finding
      f = finding_of upper policy waivers v

      c : Grading
      c = count_finding upper policy waivers g f

      added :
          Tally
            (record c { seen = (v.vuln_id, v.vuln_name) ∷ g.seen; findings = g.findings ++ f ∷ [] })
      added = record {
        all = count_finding-all g f h ∙ omega (arith, length-append g.findings (f ∷ []));
        per_level =
            λ l. count_finding-per_level g f l h ∙ omega (arith, open_at-append l g.findings f);
      }

      pick :
          (b : Bool)
          → Tally (
              if b then g else record c {
                seen = (v.vuln_id, v.vuln_name) ∷ g.seen;
                findings = g.findings ++ f ∷ [];
              })
      pick true = h
      pick false = added

  grade_all-Tally :
      (g : Grading) (vs : List Vulnerability)
      → Tally g
      → Tally (grade_all upper policy waivers g vs)
  unfolding grade_all
  grade_all-Tally g [] h = h
  grade_all-Tally g (v ∷ vs) h =
      grade_all-Tally (grade_one upper policy waivers g v) vs (grade_one-Tally g v h)

  no_grading-Tally : Tally (no_grading upper policy waivers)
  unfolding get
  no_grading-Tally = record { all = omega arith; per_level = λ l. refl }

  -- The summary of a scan counts its findings: the findings that no waiver covers and those that
  -- one covers add up to all that are reported, and each of the four levels, the highest first, is
  -- listed with the number of its findings that no waiver covers.
  pub grade-length :
      (t : ScanTarget)
      → ((grade upper policy waivers t).2.total + (grade upper policy waivers t).2.waived
          ≡ length (grade upper policy waivers t).0)
        × ((grade upper policy waivers t).2.levels
            ≡ map
                (λ l. record {
                  level = l;
                  level_count = open_at (text_of l) (grade upper policy waivers t).0;
                })
                (critical ∷ high ∷ elevated ∷ normal ∷ []))
  unfolding grade
  grade-length t =
      let h =
        grade_all-Tally (no_grading upper policy waivers) t.vulnerabilities no_grading-Tally in
      (
        h.all,
        rw (
          h.per_level "CRITICAL",
          h.per_level "HIGH",
          h.per_level "ELEVATED",
          h.per_level "NORMAL",
        ),
      )
