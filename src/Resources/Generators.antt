-- ===== src/Resources/Generators.antt =====
-- The generators of objects: internal/utils/kubernetes/resources, and those of
-- controllers/controlplane_controller_utils.go and controllers/dataplane_controller_utils.go.
pub mod Workloads
use apisix_operator.Prelude.{
  ℕ, String, true, Option, none, some, [], ◌∷◌, find, ◌==◌, ◌<>◌, string_eq,
}
use apisix_operator.Prelude.Dict
use apisix_operator.Api.Meta.{ObjectMeta, empty_meta}
use apisix_operator.Api.Env.{DeploymentOptions}
use apisix_operator.Api.Types.{ControlPlane, DataPlane}
use apisix_operator.Kubernetes.Metadata.{generate_owner_reference_for_object, entries}
use apisix_operator.Resources.Objects.{
  Volume, VolumeMount, ContainerPort, Probe, Container, PodSpec, Deployment, ServicePort, Service,
  ServiceAccount, ClusterRoleBinding, Secret,
}

-- internal/consts/consts.go
abbrev pub gateway_operator_controlled_label : String
gateway_operator_controlled_label = "apisix.apache.org/apisix-operator"

abbrev pub data_plane_managed_label_value : String
data_plane_managed_label_value = "dataplane"

abbrev pub control_plane_managed_label_value : String
control_plane_managed_label_value = "controlplane"

abbrev pub gateway_managed_label_value : String
gateway_managed_label_value = "gateway"

abbrev pub control_plane_controller_container_name : String
control_plane_controller_container_name = "controller"

abbrev pub data_plane_proxy_container_name : String
data_plane_proxy_container_name = "proxy"

-- containers.go
unfoldable pub get_pod_container_by_name : PodSpec → String → Option Container
unfolding find
get_pod_container_by_name pod name = find (λ c. c.name == name) pod.containers

-- A label is written into the map, which is made if it is nil.
unfoldable pub add_label : String → ObjectMeta → ObjectMeta
unfolding Dict.insert
add_label value obj = record obj {
  labels = some (Dict.insert gateway_operator_controlled_label value (entries obj.labels));
}

unfoldable pub add_label_for_control_plane : ObjectMeta → ObjectMeta
unfolding add_label
add_label_for_control_plane = add_label control_plane_managed_label_value

unfoldable pub add_label_for_data_plane : ObjectMeta → ObjectMeta
unfolding add_label
add_label_for_data_plane = add_label data_plane_managed_label_value

-- internal/utils/gateway/labels.go
unfoldable pub label_object_as_gateway_managed : ObjectMeta → ObjectMeta
unfolding add_label
label_object_as_gateway_managed = add_label gateway_managed_label_value

-- serviceaccounts.go
unfoldable pub generate_new_service_account_for_control_plane : String → String → ServiceAccount
generate_new_service_account_for_control_plane namespace controlplane_name = record {
  meta = record empty_meta {
    generate_name = "controlplane-" <> controlplane_name <> "-";
    namespace = namespace;
    labels = some (("app", controlplane_name) ∷ []);
  };
}

-- clusterrolebindings.go
unfoldable pub generate_new_cluster_role_binding_for_control_plane :
    String → String → String → String → ClusterRoleBinding
generate_new_cluster_role_binding_for_control_plane namespace controlplane_name service_account_name
      cluster_role_name =
    record {
      meta = record empty_meta {
        generate_name = "controlplane-" <> controlplane_name <> "-";
        labels = some (("app", controlplane_name) ∷ []);
      };
      role_ref = record {
        api_group = "rbac.authorization.k8s.io";
        kind = "ClusterRole";
        name = cluster_role_name;
      };
      subjects =
          record { kind = "ServiceAccount"; name = service_account_name; namespace = namespace }
          ∷ [];
    }

-- secrets.go
unfoldable pub generate_new_tls_secret : String → String → String → Secret
generate_new_tls_secret namespace name_prefix owner_prefix = record {
  meta = record empty_meta {
    namespace = namespace;
    generate_name = owner_prefix <> "-" <> name_prefix <> "-";
  };
  type = "kubernetes.io/tls";
  contents = none;
  string_data = none;
}
