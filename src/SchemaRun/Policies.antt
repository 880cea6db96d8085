-- ===== src/SchemaRun/Policies.antt =====
-- The policies of a schema (api/v1alpha1/atlasschema_types.go) and what the controller makes of them
-- (internal/controller/atlasschema_controller.go). The diff policy, which only the rendering of the
-- configuration reads, is left out.
use atlas_operator.Prelude.{
  Bool, true, false, not, ◌||◌, String, [], ◌∷◌, Option, none, some, trim_space, trim_char,
  if◌then◌else◌,
}
use atlas_operator.Errors.{Result, ok, err, plain}
use atlas_operator.Hcl.{Hcl, search_block, search_in, has_attribute, is_some}

-- LintReview
pub data LintReview : Type 0 where
  review_unset review_always review_warning review_error : LintReview

abbrev pub is_set : LintReview → Bool
is_set review_unset = false
is_set review_always = true
is_set review_warning = true
is_set review_error = true

abbrev pub is_always : LintReview → Bool
is_always review_always = true
is_always review_unset = false
is_always review_warning = false
is_always review_error = false

-- Lint, with the field of its CheckConfig.
pub record Lint : Type 0 where
  pub destructive : Option Bool
  pub review : LintReview

-- Policy
pub record Policy : Type 0 where
  pub lint : Option Lint

-- The lint policy of a policy, if both are set.
abbrev pub lint_of : Option Policy → Option Lint
lint_of none = none
lint_of (some p) = p.lint

-- HasLint, HasLintDestructive and HasLintReview of Policy
unfoldable pub policy_has_lint : Option Policy → Bool
policy_has_lint p = is_some (lint_of p)

abbrev lint_destructive : Option Lint → Option Bool
lint_destructive none = none
lint_destructive (some l) = l.destructive

unfoldable pub policy_has_lint_destructive : Option Policy → Bool
policy_has_lint_destructive p = is_some (lint_destructive (lint_of p))

unfoldable pub policy_has_lint_review : Option Policy → Bool
policy_has_lint_review p = elim (lint_of p) [ none ↦ false | some l ↦ is_set l.review ]

-- The override of enableDestructive and that of setLintReview.
abbrev pub with_destructive : Option Lint → Lint
with_destructive none = record { destructive = some true; review = review_unset }
with_destructive (some l) = record l { destructive = some true }

abbrev pub with_review : LintReview → Option Lint → Lint
with_review v none = record { destructive = none; review = v }
with_review v (some l) = record l { review = v }

module _ (hcl : Hcl) where
  open hcl use {Body, Block, attribute, block_body}

  -- The lint block of the environment in a configuration.
  abbrev env_lint : Option Body → String → Option Block
  env_lint none env = none
  env_lint (some config) env = search_in hcl (search_block hcl config "env" (env ∷ [])) "lint" []

  -- hasLint
  unfoldable pub has_lint : Option Policy → Option Body → String → Bool
  unfolding policy_has_lint
  has_lint p config env = policy_has_lint p || is_some (env_lint config env)

  -- hasLintDestructive
  unfoldable pub has_lint_destructive : Option Policy → Option Body → String → Bool
  unfolding policy_has_lint_destructive
  has_lint_destructive p config env =
      policy_has_lint_destructive p
      || has_attribute hcl (search_in hcl (env_lint config env) "destructive" []) "error"

  -- hasLintReview
  unfoldable pub has_lint_review : Option Policy → Option Body → String → Bool
  unfolding policy_has_lint_review
  has_lint_review p config env =
      policy_has_lint_review p || has_attribute hcl (env_lint config env) "review"

  -- enableDestructive
  unfoldable pub enable_destructive : Bool → Option Body → String → Option Policy → Option Policy
  unfolding has_lint has_lint_destructive
  enable_destructive force config env p =
      if not (has_lint p config env) || (not (has_lint_destructive p config env) || force)
      then some (record { lint = some (with_destructive (lint_of p)) })
      else p

  -- setLintReview
  unfoldable pub set_lint_review :
      LintReview → Bool → Option Body → String → Option Policy → Option Policy
  unfolding has_lint has_lint_review
  set_lint_review v force config env p =
      if not (has_lint p config env) || (not (has_lint_review p config env) || force)
      then some (record { lint = some (with_review v (lint_of p)) })
      else p

  -- The value of destructive.error in a configuration; strconv.ParseBool is a parameter.
  parsed_error : (String → Option Bool) → Option String → Result Bool
  unfolding trim_space trim_char
  parsed_error parse_bool none = ok false
  parsed_error parse_bool (some text) = elim (parse_bool (trim_char b'"' (trim_space text))) [
    | none ↦ err (plain "cannot determine the value of the destructive.error attribute")
    | some b ↦ ok b
  ]

  abbrev attribute_in : Option Block → String → Option String
  attribute_in none name = none
  attribute_in (some b) name = attribute (block_body b) name

  abbrev or_block : Option Block → Option Block → Option Block
  or_block none b = b
  or_block (some a) b = some a

  config_should_lint : (String → Option Bool) → Option Body → String → Result Bool
  unfolding parsed_error
  config_should_lint parse_bool none env = ok false
  config_should_lint parse_bool (some config) env =
      if is_some (search_block hcl config "env" (env ∷ []))
      then parsed_error parse_bool (
          attribute_in
            (search_in hcl
              (or_block (env_lint (some config) env) (search_block hcl config "lint" []))
              "destructive" [])
            "error")
      else ok false

  -- shouldLint
  unfoldable pub should_lint :
      (String → Option Bool) → Option Policy → Option Body → String → Result Bool
  unfolding config_should_lint
  should_lint parse_bool p config env = elim (lint_destructive (lint_of p)) [
    | some b ↦ ok b
    | none ↦ config_should_lint parse_bool config env
  ]
