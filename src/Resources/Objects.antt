-- ===== src/Resources/Objects.antt =====
-- The parts of the Kubernetes objects that the operator reads and writes, and the accessors of
-- `client.Object` for them.
use apisix_operator.Prelude.{ℕ, String, ◌≡◌, refl, Bool, Option, List}
use apisix_operator.Api.Meta.{ObjectMeta, Labels}
use apisix_operator.Api.Env.{EnvVar, EnvFromSource}
use apisix_operator.Api.Types.{ControlPlane, DataPlane}

pub record KeyToPath : Type 0 where
  pub key : String
  pub path : String

-- A volume from a Secret.
pub record Volume : Type 0 where
  pub name : String
  pub secret_name : String
  pub items : List KeyToPath

pub record VolumeMount : Type 0 where
  pub name : String
  pub read_only : Bool
  pub mount_path : String

pub record ContainerPort : Type 0 where
  pub name : String
  pub container_port : ℕ
  pub protocol : String

-- A probe by an HTTP GET.
pub record Probe : Type 0 where
  pub failure_threshold : ℕ
  pub initial_delay_seconds : ℕ
  pub period_seconds : ℕ
  pub success_threshold : ℕ
  pub timeout_seconds : ℕ
  pub path : String
  pub port : ℕ
  pub scheme : String

pub record Container : Type 0 where
  pub name : String
  pub env : List EnvVar
  pub env_from : List EnvFromSource
  pub image : String
  pub image_pull_policy : String
  pub volume_mounts : List VolumeMount
  pub pre_stop : List String
  pub ports : List ContainerPort
  pub liveness_probe : Option Probe
  pub readiness_probe : Option Probe

pub record PodSpec : Type 0 where
  pub service_account_name : String
  pub volumes : List Volume
  pub containers : List Container

pub record DeploymentSpec : Type 0 where
  pub replicas : Option ℕ
  pub selector : Labels
  pub template_labels : Labels
  pub pod : PodSpec

pub record DeploymentStatus : Type 0 where
  pub replicas : ℕ
  pub available_replicas : ℕ

pub record Deployment : Type 0 where
  pub meta : ObjectMeta
  pub spec : DeploymentSpec
  pub status : DeploymentStatus

pub record ServicePort : Type 0 where
  pub name : String
  pub protocol : String
  pub port : ℕ
  pub target_port : ℕ

pub record Service : Type 0 where
  pub meta : ObjectMeta
  pub type : String
  pub selector : Labels
  pub ports : List ServicePort

pub record ServiceAccount : Type 0 where
  pub meta : ObjectMeta

pub record PolicyRule : Type 0 where
  pub api_groups : List String
  pub resources : List String
  pub verbs : List String

pub record ClusterRole : Type 0 where
  pub meta : ObjectMeta
  pub rules : List PolicyRule

pub record RoleRef : Type 0 where
  pub api_group : String
  pub kind : String
  pub name : String

pub record Subject : Type 0 where
  pub kind : String
  pub name : String
  pub namespace : String

pub record ClusterRoleBinding : Type 0 where
  pub meta : ObjectMeta
  pub role_ref : RoleRef
  pub subjects : List Subject

pub record Secret : Type 0 where
  pub meta : ObjectMeta
  pub type : String
  pub contents : Option (List (String × String))
  pub string_data : Option (List (String × String))

-- The accessors of `client.Object`.
pub record Object {ℓ} (A : Type ℓ) : Type ℓ where
  pub get_meta : A → ObjectMeta
  pub set_meta : ObjectMeta → A → A
  pub get-set : (m : ObjectMeta) (a : A) → get_meta (set_meta m a) ≡ m
  pub set-set : (m n : ObjectMeta) (a : A) → set_meta m (set_meta n a) ≡ set_meta m a
  pub set-get : (a : A) → set_meta (get_meta a) a ≡ a

instance abbrev pub deployment_object : Object Deployment
deployment_object = record {
  get_meta = λ a. a.meta;
  set_meta = λ m a. record a { meta = m };
  get-set = λ m a. refl;
  set-set = λ m n a. refl;
  set-get = λ a. refl;
}

instance abbrev pub service_object : Object Service
service_object = record {
  get_meta = λ a. a.meta;
  set_meta = λ m a. record a { meta = m };
  get-set = λ m a. refl;
  set-set = λ m n a. refl;
  set-get = λ a. refl;
}

instance abbrev pub service_account_object : Object ServiceAccount
service_account_object = record {
  get_meta = λ a. a.meta;
  set_meta = λ m a. record a { meta = m };
  get-set = λ m a. refl;
  set-set = λ m n a. refl;
  set-get = λ a. refl;
}

instance abbrev pub cluster_role_object : Object ClusterRole
cluster_role_object = record {
  get_meta = λ a. a.meta;
  set_meta = λ m a. record a { meta = m };
  get-set = λ m a. refl;
  set-set = λ m n a. refl;
  set-get = λ a. refl;
}

instance abbrev pub cluster_role_binding_object : Object ClusterRoleBinding
cluster_role_binding_object = record {
  get_meta = λ a. a.meta;
  set_meta = λ m a. record a { meta = m };
  get-set = λ m a. refl;
  set-set = λ m n a. refl;
  set-get = λ a. refl;
}

instance abbrev pub secret_object : Object Secret
secret_object = record {
  get_meta = λ a. a.meta;
  set_meta = λ m a. record a { meta = m };
  get-set = λ m a. refl;
  set-set = λ m n a. refl;
  set-get = λ a. refl;
}

instance abbrev pub control_plane_object : Object ControlPlane
control_plane_object = record {
  get_meta = λ a. a.meta;
  set_meta = λ m a. record a { meta = m };
  get-set = λ m a. refl;
  set-set = λ m n a. refl;
  set-get = λ a. refl;
}

instance abbrev pub data_plane_object : Object DataPlane
data_plane_object = record {
  get_meta = λ a. a.meta;
  set_meta = λ m a. record a { meta = m };
  get-set = λ m a. refl;
  set-set = λ m n a. refl;
  set-get = λ a. refl;
}
