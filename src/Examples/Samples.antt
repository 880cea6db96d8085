-- ===== src/Examples/Samples.antt =====
-- Simple implementations of the interfaces, and test data.
use atlas_operator.Prelude.{
  ◌≡◌, refl, String, List, [], ◌∷◌, none, some, arith, str_eq, eq_iff, if◌then◌else◌, inl, inr,
  Bool-cases,
}
use atlas_operator.Conditions.{ConditionApi, Condition, plain_set, plain_find, plain_is_true}
use atlas_operator.Errors.{ok, err, not_found}
use atlas_operator.Cluster.{Reader, TextMap, get, or_empty}
use atlas_operator.Target.{UrlApi}
use atlas_operator.Hcl.{Hcl}
use atlas_operator.MigrationData.{Packages}

pub plain_find-set :
    (cs : List Condition) (c : Condition) (t : String)
    → plain_find (plain_set cs c) t ≡ (if str_eq c.type t then some c else plain_find cs t)
plain_find-set [] c t = refl
plain_find-set (d ∷ ds) c t = elim (Bool-cases (str_eq d.type c.type)) [
  | inl e ↦ rw e (rw ((eq_iff d.type c.type).0 e) (ground arith))
  | inr e ↦
      ground (arith, plain_find-set ds c t, eq_iff d.type t, eq_iff c.type t, eq_iff d.type c.type)
]

-- The conditions as a list without two of one type.
abbrev pub plain_api : ConditionApi
plain_api = record {
  set_status_condition = plain_set;
  find_status_condition = plain_find;
  is_status_condition_true = plain_is_true;
  find_nil = λ t. refl;
  find_set = plain_find-set;
  is_true_find = λ cs t. refl;
}

-- Configurations of blocks without a content of their own.
pub data SampleBlock : Type 0 where
  sample_block : String → List String → SampleBlock

abbrev pub plain_hcl : Hcl
plain_hcl = record {
  Body = List SampleBlock;
  Block = SampleBlock;
  blocks = λ b. b;
  block_type = λ b. elim b [ sample_block t ls ↦ t ];
  labels = λ b. elim b [ sample_block t ls ↦ ls ];
  block_body = λ b. [];
  attribute = λ b name. none;
}

-- A cluster with one Secret, `db` of the namespace `prod`.
abbrev pub plain_reader : Reader
plain_reader = record {
  get_secret = λ ns name.
      if str_eq name "db"
      then ok (record { secret_type = "Opaque"; secret_entries = ("url", "mysql://db") ∷ [] })
      else err (not_found "no secret");
  get_config_map_data = λ ns name. ok (("1.sql", "create") ∷ []);
}

-- A net/url for queries of one parameter, `database`.
abbrev pub plain_net : UrlApi
plain_net = record {
  parse = λ s. ok (record { scheme = s; user = none; host = ""; path = ""; raw_query = "" });
  to_string = λ u. u.scheme;
  encode = λ m. or_empty (get m "database");
  query_get = λ q k. if str_eq "database" k then q else "";
}

abbrev pub plain_packages : Packages
plain_packages = record {
  hcl = plain_hcl;
  parse_config = λ text. ok [];
  config_text = λ body. "";
  net = plain_net;
  sha256_hex = λ text. text;
  Dir = TextMap;
  dir_of_files = λ files. ok files;
  checksum = λ dir. ok "sum";
  unarchive_dir = λ tarball. ok [];
}
