-- ===== src/Controllers/ControlPlane.antt =====
-- The ControlPlane reconciler: controllers/controlplane_controller.go and
-- controllers/controlplane_controller_reconciler_utils.go. Logging is left out.
pub mod Status
pub mod Connection
pub mod Ensure
pub mod Reconcile
pub mod Lifecycle
pub mod Settled
pub mod Collecting
pub mod Collected
pub mod Stages
pub mod Watch
use apisix_operator.Prelude.{
  ℕ, ◌-◌, String, Bool, true, false, not, ◌&&◌, ◌||◌, Option, none, some, List, [], ◌∷◌, is_some,
  length, ltb, if◌then◌else◌, ◌==◌, ◌!=◌, ◌<>◌, string_eq, nat_eq,
}
use apisix_operator.Errors.{
  Error, Errors, end, Result, ok, err, is_not_found, is_conflict, data_plane_not_set, message,
  too_many,
}
use apisix_operator.Errors.Calls.{Exec, pure, raise, lift, attempt, ◌>>=◌}
use apisix_operator.Api.Meta.{
  Time, ObjectMeta, GroupVersionKind, Condition, ConditionStatus, condition_true, condition_false,
  empty_meta, condition_status_eq,
}
use apisix_operator.Api.Env.{DeploymentOptions}
use apisix_operator.Api.Types.{
  ControlPlane, DataPlane, ControlPlaneDeploymentOptions, control_plane_conditions,
}
use apisix_operator.Kubernetes.Status.{
  new_condition, set_condition, get_condition, init_ready, set_ready, needs_update,
}
use apisix_operator.Kubernetes.Metadata.{
  ensure_finalizers_in_metadata, remove_finalizer_in_metadata,
}
use apisix_operator.Env.{
  set_control_plane_defaults, set_control_plane_env_on_data_plane_change, dataplane_is_set,
}
use apisix_operator.Resources.Objects.{
  Deployment, Service, ServiceAccount, ClusterRole, ClusterRoleBinding, Secret, deployment_object,
  service_account_object, cluster_role_object, cluster_role_binding_object,
}
use apisix_operator.Resources.Generators.{
  gateway_operator_controlled_label, control_plane_managed_label_value,
  data_plane_managed_label_value, generate_new_service_account_for_control_plane,
  generate_new_cluster_role_binding_for_control_plane,
}
use apisix_operator.Resources.Generators.Workloads.{generate_new_deployment_for_control_plane}
use apisix_operator.Resources.Roles.Choice.{Semver, generate_new_cluster_role_for_control_plane}
use apisix_operator.Client.{NamespacedName, Client}
use apisix_operator.Client.Lists.{
  list_deployments_for_owner, list_services_for_owner, list_service_accounts_for_owner,
  list_cluster_roles_for_owner, list_cluster_role_bindings_for_owner,
}
use apisix_operator.Controllers.Owned.{mark_for_control_plane, refresh, ensure_one, delete_all}
use apisix_operator.Controllers.Certificates.{
  Crypto, control_plane, maybe_create_certificate_secret,
}
use apisix_operator.Controllers.Deployments.{bring_control_plane_deployment, with_replicas}

-- controlplane_controller_consts.go
abbrev pub cleanup_cluster_role : String
cleanup_cluster_role = "apisix-operator.apisix.apache.org/cleanup-clusterrole"

abbrev pub cleanup_cluster_role_binding : String
cleanup_cluster_role_binding = "apisix-operator.apisix.apache.org/cleanup-clusterrolebinding"

-- controlplane_controller_conditions.go
abbrev pub provisioned_type : String
provisioned_type = "Provisioned"

-- What the reconcilers return as `ctrl.Result`: nothing, `requeueWithoutBackoff`, or a requeue
-- after some seconds, where a duration that is not positive is 0.
pub data Outcome : Type 0 where
  finished : Outcome
  requeue_without_backoff : Outcome
  requeue_after : Time → Outcome

-- A conflict is retried; any other error is returned.
unfoldable pub retry_conflict : Error → Result Outcome
retry_conflict e = if is_conflict e then ok requeue_without_backoff else err e

abbrev pub key_of : ObjectMeta → NamespacedName
key_of m = record { namespace = m.namespace; name = m.name }

-- The fields of the reconciler, and what it calls outside: `controllerutil.SetOwnerReference` and
-- the libraries for versions and certificates.
pub record Reconciler (S P C V : Type 0) : Type 0 where
  pub client : Client S
  pub crypto : Crypto S P C
  pub semver : Semver V
  pub set_owner_reference : ControlPlane → DataPlane → Result DataPlane
  pub cluster_ca_secret_name : String
  pub cluster_ca_secret_namespace : String

abbrev pub empty_control_plane : ControlPlane
empty_control_plane = record {
  type_meta = record { group = ""; version = ""; kind = "" };
  meta = empty_meta;
  spec = record {
    deployment = record {
      deployment_options = record {
        container_image = none;
        version = none;
        env = [];
        env_from = [];
      };
      dataplane = none;
    };
    gateway_class = none;
    ingress_class = none;
  };
  status = record { conditions = [] };
}

abbrev pub with_meta : ControlPlane → ObjectMeta → ControlPlane
with_meta c m = record c { meta = m }

abbrev pub with_deployment : ControlPlane → ControlPlaneDeploymentOptions → ControlPlane
with_deployment c options = record c { spec = record (c.spec) { deployment = options } }
