-- ===== src/Tests/Data.antt =====
-- The objects that the tests use.
use apisix_operator.Prelude.{String, none, some, List, [], ◌∷◌}
use apisix_operator.Api.Meta.{ObjectMeta, empty_meta, GroupVersionKind, Condition, ConditionStatus}
use apisix_operator.Api.Env.{EnvVar, EnvSource, EnvFromSource, DeploymentOptions}
use apisix_operator.Api.Types.{ControlPlane, ControlPlaneDeploymentOptions, DataPlane}
use apisix_operator.Errors.{ok, err, not_found}
use apisix_operator.Validation.{Cluster}

abbrev pub condition : String → ConditionStatus → Condition
condition type status = record {
  type = type;
  status = status;
  observed_generation = 0;
  last_transition_time = 7;
  reason = "PodsReady";
  message = "";
}

abbrev pub a_meta : ObjectMeta
a_meta = record empty_meta {
  name = "cp";
  namespace = "prod";
  uid = "u1";
  labels = some (("app", "x") ∷ []);
}

abbrev pub a_kind : GroupVersionKind
a_kind = record { group = "g"; version = "v1alpha1"; kind = "ControlPlane" }

abbrev pub literal : String → String → EnvVar
literal name value = record { name = name; value = value; value_from = none }

abbrev pub no_options : DeploymentOptions
no_options = record { container_image = none; version = none; env = []; env_from = [] }

abbrev pub with_data_plane : ControlPlaneDeploymentOptions
with_data_plane = record { deployment_options = no_options; dataplane = some "dp" }

abbrev pub a_control_plane : List Condition → ControlPlane
a_control_plane cs = record {
  type_meta = a_kind;
  meta = a_meta;
  spec = record { deployment = with_data_plane; gateway_class = none; ingress_class = none };
  status = record { conditions = cs };
}

abbrev pub a_data_plane : DeploymentOptions → DataPlane
a_data_plane opts = record {
  type_meta = record { group = "g"; version = "v1alpha1"; kind = "DataPlane" };
  meta = record a_meta { name = "dp" };
  spec = record { deployment_options = opts };
  status = record { conditions = []; service = "" };
}

-- A cluster with one ConfigMap, which holds the mode `value`.
abbrev pub cluster_with : String → Cluster
cluster_with value = record {
  get_config_map = λ namespace name. ok (some (("DATABASE", value) ∷ []));
  get_secret = λ namespace name. err not_found;
  decode_std = λ text. ok text;
  decode_raw_std = λ text. ok text;
  print_secret_ref = λ ref. ref.name;
}

abbrev pub empty_cluster : Cluster
empty_cluster = record {
  get_config_map = λ namespace name. err not_found;
  get_secret = λ namespace name. err not_found;
  decode_std = λ text. ok text;
  decode_raw_std = λ text. ok text;
  print_secret_ref = λ ref. ref.name;
}

abbrev pub map_ref : EnvSource
map_ref = record { name = "config"; optional = none }

abbrev pub from_map : EnvFromSource
from_map = record { prefix = "APISIX_"; config_map_ref = some map_ref; secret_ref = none }
