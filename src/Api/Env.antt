-- ===== src/Api/Env.antt =====
-- The parts of `corev1` that describe the environment of a container, and apis/v1alpha1/shared_types.go.
use apisix_operator.Prelude.{String, String-discrete, Bool, List, Option, Eq}

pub record ObjectFieldSelector : Type 0 where
  pub api_version : String
  pub field_path : String

pub record ResourceFieldSelector : Type 0 where
  pub container_name : String
  pub resource : String
  pub divisor : String

-- `ConfigMapKeySelector` and `SecretKeySelector` have the same fields.
pub record KeySelector : Type 0 where
  pub name : String
  pub key : String
  pub optional : Option Bool

pub record EnvVarSource : Type 0 where
  pub field_ref : Option ObjectFieldSelector
  pub resource_field_ref : Option ResourceFieldSelector
  pub config_map_key_ref : Option KeySelector
  pub secret_key_ref : Option KeySelector

pub record EnvVar : Type 0 where
  pub name : String
  pub value : String
  pub value_from : Option EnvVarSource

-- `ConfigMapEnvSource` and `SecretEnvSource` have the same fields.
pub record EnvSource : Type 0 where
  pub name : String
  pub optional : Option Bool

pub record EnvFromSource : Type 0 where
  pub prefix : String
  pub config_map_ref : Option EnvSource
  pub secret_ref : Option EnvSource

-- apis/v1alpha1/shared_types.go
pub record DeploymentOptions : Type 0 where
  pub container_image : Option String
  pub version : Option String
  pub env : List EnvVar
  pub env_from : List EnvFromSource

unfoldable pub EnvVarSource-discrete : Discrete (Option EnvVarSource)
EnvVarSource-discrete = hlevel String-discrete

unfoldable pub EnvVar-discrete : Discrete (List EnvVar)
EnvVar-discrete = hlevel String-discrete

unfoldable pub EnvFromSource-discrete : Discrete (List EnvFromSource)
EnvFromSource-discrete = hlevel String-discrete

instance abbrev pub env_var_source_eq : Eq (Option EnvVarSource)
env_var_source_eq = record { dec = EnvVarSource-discrete }

instance abbrev pub env_var_eq : Eq (List EnvVar)
env_var_eq = record { dec = EnvVar-discrete }

instance abbrev pub env_from_source_eq : Eq (List EnvFromSource)
env_from_source_eq = record { dec = EnvFromSource-discrete }
