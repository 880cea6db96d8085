-- ===== src/Hcl.antt =====
-- Configuration files (internal/controller/common.go). The HCL library of HashiCorp is not part of
-- the repository: its files, bodies and blocks are an interface, here with what reads them.
pub mod Search
use atlas_operator.Prelude.{
  Bool, true, false, not, ◌&&◌, ◌||◌, String, List, [], ◌∷◌, Option, none, some, str_eq, equal,
  find_func, contains_func, is_empty, if◌then◌else◌,
}

-- hclwrite.Body and hclwrite.Block. `attribute` is GetAttribute with the text of the expression.
pub record Hcl : Type 1 where
  pub Body : Type 0
  pub Block : Type 0
  pub blocks : Body → List Block
  pub block_type : Block → String
  pub labels : Block → List String
  pub block_body : Block → Body
  pub attribute : Body → String → Option String

abbrev pub is_some {ℓ} : {A : Type ℓ} → Option A → Bool
is_some none = false
is_some (some a) = true

module _ (hcl : Hcl) where
  open hcl use {Body, Block, blocks, block_type, labels, block_body, attribute}

  -- The blocks of a type.
  pub of_type : String → List Block → List Block
  of_type type [] = []
  of_type type (b ∷ bs) =
      let rest = of_type type bs in if str_eq (block_type b) type then b ∷ rest else rest

  -- The first that has the labels, or for an env block the first without labels.
  pub choose_block : String → List String → List Block → Option Block
  choose_block type names typ_blocks =
      let exact = find_func (λ b. equal str_eq (labels b) names) typ_blocks in
      elim exact [
        | some b ↦ some b
        | none ↦ if str_eq type "env" then find_func (λ b. is_empty (labels b)) typ_blocks else none
      ]

  -- searchBlock: the target is given by its type and labels.
  unfoldable pub search_block : Body → String → List String → Option Block
  unfolding of_type choose_block
  search_block parent type names = choose_block type names (of_type type (blocks parent))

  -- The attribute of a block that was searched for.
  abbrev pub has_attribute : Option Block → String → Bool
  has_attribute none name = false
  has_attribute (some b) name = is_some (attribute (block_body b) name)

  -- A block in a block that was searched for.
  abbrev pub search_in : Option Block → String → List String → Option Block
  search_in none type names = none
  search_in (some b) type names = search_block (block_body b) type names

  -- hasDevURL of managedData and of migrationData.
  unfoldable pub has_dev_url : String → Option Body → String → Bool
  has_dev_url dev_url none env_name = not (str_eq dev_url "")
  has_dev_url dev_url (some config) env_name =
      not (str_eq dev_url "") || has_attribute (search_block config "env" (env_name ∷ [])) "dev"

  -- hasTargets of managedData.
  unfoldable pub has_targets : Option Body → String → Bool
  has_targets none env_name = false
  has_targets (some config) env_name =
      has_attribute (search_block config "env" (env_name ∷ [])) "for_each"

  -- targetURL of managedData.
  unfoldable pub target_url : Option Body → String → String
  target_url none env_name = "env://schema.src"
  target_url (some config) env_name =
      if has_attribute (search_block config "env" (env_name ∷ [])) "src"
      then "env://src"
      else "env://schema.src"

  -- hasConfigRepo of migrationData.
  unfoldable pub has_config_repo : Option Body → String → Bool
  has_config_repo none env_name = false
  has_config_repo (some config) env_name =
      let env = search_block config "env" (env_name ∷ []) in
      let migration = search_in env "migration" [] in
      has_attribute (search_in migration "repo" []) "name"

  is_drift_check : Block → Bool
  is_drift_check blk =
      str_eq (block_type blk) "check"
      && (equal str_eq (labels blk) ("migrate_apply" ∷ [])
          && is_some (search_block (block_body blk) "drift" []))

  -- hasGlobalDriftCheck of migrationData.
  unfoldable pub has_global_drift_check : Option Body → Bool
  unfolding is_drift_check
  has_global_drift_check none = false
  has_global_drift_check (some config) = contains_func is_drift_check (blocks config)
