-- ===== src/Resources/Roles/Rule.antt =====
-- The form of a rule in the generated files.
use apisix_operator.Prelude.{String, List}
use apisix_operator.Resources.Objects.{PolicyRule}

abbrev pub rule : List String → List String → List String → PolicyRule
rule api_groups resources verbs = record {
  api_groups = api_groups;
  resources = resources;
  verbs = verbs;
}
