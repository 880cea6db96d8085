-- ===== src/SchemaRun/Reviews.antt =====
-- Where the review of a schema panics (internal/controller/atlasschema_controller.go).
use atlas_operator.Prelude.{
  ℕ, ◌≡◌, refl, ◌∙◌, ap, Bool, true, false, ◌&&◌, String, [], Option, none, if◌then◌else◌, arith,
}
use atlas_operator.Conditions.{ConditionApi}
use atlas_operator.Target.{Url}
use atlas_operator.Hcl.{Hcl}
use atlas_operator.MigrationData.{Packages}
use atlas_operator.Actions.{panics, resume}
use atlas_operator.SchemaRun.{
  SchemaServices, SchemaCli, ManagedData, SchemaState, Policy, Lint, lint_of, has_lint,
  has_lint_destructive, has_lint_review, policy_has_lint, policy_has_lint_destructive,
  policy_has_lint_review, enable_destructive, set_lint_review, review_error, review_edit, by_plans,
  always_reviewed, create_plan, apply_reviewed,
}

-- The configuration has a lint block with both policies for the environment.
abbrev pub config_complete : (hcl : Hcl) → Option hcl.Body → String → Bool
config_complete hcl config env =
    has_lint hcl none config env
    && (has_lint_destructive hcl none config env && has_lint_review hcl none config env)

destructive_kept :
    (hcl : Hcl) (config : Option hcl.Body) (env : String) (p : Option Policy)
    → lint_of p ≡ none
    → config_complete hcl config env ≡ true
    → enable_destructive hcl false config env p ≡ p
unfolding enable_destructive has_lint has_lint_destructive has_lint_review policy_has_lint
    policy_has_lint_destructive policy_has_lint_review
destructive_kept hcl config env p unset complete = rw unset (ground (arith, complete))

review_kept :
    (hcl : Hcl) (config : Option hcl.Body) (env : String) (p : Option Policy)
    → lint_of p ≡ none
    → config_complete hcl config env ≡ true
    → set_lint_review hcl review_error false config env p ≡ p
unfolding set_lint_review has_lint has_lint_destructive has_lint_review policy_has_lint
    policy_has_lint_destructive policy_has_lint_review
review_kept hcl config env p unset complete = rw unset (ground (arith, complete))

module _ (api : ConditionApi) (pkg : Packages) (srv : SchemaServices pkg) (now : ℕ) where
  -- Where the configuration sets both lint policies and the resource sets none, a reconciliation
  -- with Atlas Cloud that finds no plan panics.
  pub by_plans-panics :
      (cli : SchemaCli) (d : ManagedData pkg) (repo : Url) (desired hash : String) (s : SchemaState)
      → lint_of d.policy ≡ none
      → config_complete pkg.hcl d.data_config d.env_name ≡ true
      → by_plans api pkg srv now cli (review_edit pkg d) repo desired hash [] s ≡ (s, panics)
  unfolding by_plans
  by_plans-panics cli d repo desired hash s unset complete =
      let kept : (review_edit pkg d).policy ≡ d.policy =
        ap (λ p. set_lint_review pkg.hcl review_error false d.data_config d.env_name p)
          (destructive_kept pkg.hcl d.data_config d.env_name d.policy unset complete)
        ∙ review_kept pkg.hcl d.data_config d.env_name d.policy unset complete in
      at_once (lint_of (review_edit pkg d).policy) (ap (λ p. lint_of p) kept ∙ unset)
    where
      at_once :
          (l : Option Lint)
          → l ≡ none
          → resume
              (λ always.
                if always
                then create_plan api pkg srv now cli (review_edit pkg d) repo desired hash
                else apply_reviewed api pkg srv now cli (review_edit pkg d) repo desired hash "")
              (always_reviewed api pkg srv now l s)
            ≡ (s, panics)
      at_once l e = rw e refl
