-- ===== src/Client.antt =====
-- The API server, as the operator's `client.Client` shows it: a parameter of the operator. Every
-- call runs on the server's state `S`, which others change too: a call may return anything that
-- its type allows, and what a theorem needs of it is a hypothesis of that theorem. `create`,
-- `update` and `update_status` return the object as the server answers it; Go writes that answer
-- into the object of the call.
pub mod Lists
pub mod Selection
use apisix_operator.Prelude.{String, List, Option}
use apisix_operator.Errors.Calls.{Exec}
use apisix_operator.Api.Meta.{Time}
use apisix_operator.Api.Types.{ControlPlane, DataPlane}
use apisix_operator.Resources.Objects.{
  Deployment, Service, ServiceAccount, ClusterRole, ClusterRoleBinding, Secret,
}

-- `types.NamespacedName`
pub record NamespacedName : Type 0 where
  pub namespace : String
  pub name : String

-- `client.InNamespace` and `client.MatchingLabels` of one label.
pub record ListOptions : Type 0 where
  pub in_namespace : Option String
  pub label : String
  pub value : String

-- The calls for one kind of object.
pub record Kind (S A : Type 0) : Type 0 where
  pub get : NamespacedName → Exec S A
  pub list : Option ListOptions → Exec S (List A)
  pub create : A → Exec S A
  pub update : A → Exec S A
  pub delete : A → Exec S (Unit {0})
  pub update_status : A → Exec S A

pub record Client (S : Type 0) : Type 0 where
  -- `metav1.Now`
  pub now : Exec S Time
  pub control_planes : Kind S ControlPlane
  pub data_planes : Kind S DataPlane
  pub deployments : Kind S Deployment
  pub services : Kind S Service
  pub service_accounts : Kind S ServiceAccount
  pub cluster_roles : Kind S ClusterRole
  pub cluster_role_bindings : Kind S ClusterRoleBinding
  pub secrets : Kind S Secret
