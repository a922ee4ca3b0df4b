-- ===== src/Api/Types.antt =====
-- apis/v1alpha1: the custom resources, and the interface `ConditionsAware` that they implement.
use apisix_operator.Prelude.{String, ◌≡◌, refl, List, Option}
use apisix_operator.Api.Meta.{ObjectMeta, Condition, GroupVersionKind}
use apisix_operator.Api.Env.{DeploymentOptions}

-- controlplane_types.go
pub record ControlPlaneDeploymentOptions : Type 0 where
  pub deployment_options : DeploymentOptions
  pub open deployment_options use *
  pub dataplane : Option String

pub record ControlPlaneSpec : Type 0 where
  pub deployment : ControlPlaneDeploymentOptions
  pub gateway_class : Option String
  pub ingress_class : Option String

pub record ControlPlaneStatus : Type 0 where
  pub conditions : List Condition

pub record ControlPlane : Type 0 where
  pub type_meta : GroupVersionKind
  pub meta : ObjectMeta
  pub spec : ControlPlaneSpec
  pub status : ControlPlaneStatus

-- dataplane_types.go
pub record DataPlaneDeploymentOptions : Type 0 where
  pub deployment_options : DeploymentOptions

pub record DataPlaneStatus : Type 0 where
  pub conditions : List Condition
  pub service : String

pub record DataPlane : Type 0 where
  pub type_meta : GroupVersionKind
  pub meta : ObjectMeta
  pub spec : DataPlaneDeploymentOptions
  pub status : DataPlaneStatus

-- `ConditionsAware` of internal/utils/kubernetes/status.go, with the laws of a pair of accessors.
pub record ConditionsAware {ℓ} (R : Type ℓ) : Type ℓ where
  pub get_conditions : R → List Condition
  pub set_conditions : List Condition → R → R
  pub get-set : (cs : List Condition) (r : R) → get_conditions (set_conditions cs r) ≡ cs
  pub set-set :
      (cs ds : List Condition) (r : R)
      → set_conditions cs (set_conditions ds r) ≡ set_conditions cs r

-- In the source the methods of ControlPlane are named GetCondition and SetCondition, which is not
-- what the interface asks for; the model takes them for its two methods, as the calls do.
instance abbrev pub control_plane_conditions : ConditionsAware ControlPlane
control_plane_conditions = record {
  get_conditions = λ c. c.status.conditions;
  set_conditions = λ cs c. record c { status = record (c.status) { conditions = cs } };
  get-set = λ cs c. refl;
  set-set = λ cs ds c. refl;
}

instance abbrev pub data_plane_conditions : ConditionsAware DataPlane
data_plane_conditions = record {
  get_conditions = λ d. d.status.conditions;
  set_conditions = λ cs d. record d { status = record (d.status) { conditions = cs } };
  get-set = λ cs d. refl;
  set-set = λ cs ds d. refl;
}
