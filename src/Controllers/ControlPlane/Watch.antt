-- ===== src/Controllers/ControlPlane/Watch.antt =====
-- The watches of controllers/controlplane_controller_watch.go on ClusterRoles and
-- ClusterRoleBindings: the predicates that keep an event, and the functions that map an object to
-- requests. Logging is left out.
pub mod Requests
use apisix_operator.Prelude.{
  String, ◌≡◌, ◌≢◌, ◌↔◌, ◌⊎◌, inl, inr, refl, sym, ap, ◌∙◌, arith, Bool, true, false, Bool-cases,
  none, List, [], ◌∷◌, ◌++◌, any, if◌then◌else◌, ◌==◌, ==_refl, string_eq,
}
use apisix_operator.Errors.{Error, Result, ok, err}
use apisix_operator.Errors.Calls.{Exec, pure, attempt, ◌>>=◌}
use apisix_operator.Api.Meta.{ObjectMeta, GroupVersionKind}
use apisix_operator.Api.Types.{ControlPlane}
use apisix_operator.Kubernetes.Metadata.{is_owned_by_ref_uid, set_owner_for_object}
use apisix_operator.Kubernetes.Metadata.Owners.{is_owned-set_owner}
use apisix_operator.Resources.Objects.{
  Object, ClusterRole, ClusterRoleBinding, cluster_role_object, cluster_role_binding_object,
}
use apisix_operator.Resources.Generators.{add_label_for_control_plane, add_label}
use apisix_operator.Client.{NamespacedName, Client}
use apisix_operator.Controllers.Owned.{mark_for_control_plane}
use apisix_operator.Controllers.ControlPlane.{key_of}

-- A `client.Object`, by its type as far as the type assertions tell.
pub data WatchedObject : Type 0 where
  role : ClusterRole → WatchedObject
  binding : ClusterRoleBinding → WatchedObject
  other_object : ObjectMeta → WatchedObject

-- The loops over the listed ControlPlanes.
unfoldable pub has_owner : ObjectMeta → Result (List ControlPlane) → Bool
unfolding any is_owned_by_ref_uid
has_owner obj (err e) = true
has_owner obj (ok controlplanes) =
    any (λ (c : ControlPlane). is_owned_by_ref_uid obj c.meta.uid) controlplanes

first_request : ObjectMeta → List ControlPlane → List NamespacedName
unfolding is_owned_by_ref_uid
first_request obj [] = []
first_request obj (c ∷ cs) =
    if is_owned_by_ref_uid obj c.meta.uid then key_of c.meta ∷ [] else first_request obj cs

unfoldable pub requests : ObjectMeta → Result (List ControlPlane) → List NamespacedName
unfolding first_request
requests obj (err e) = []
requests obj (ok controlplanes) = first_request obj controlplanes

module _ {S : Type 0} (client : Client S) where
  unfoldable pub obj_has_controlplane_owner : ObjectMeta → Exec S Bool
  unfolding has_owner
  obj_has_controlplane_owner obj = do
    listed ← attempt (client.control_planes.list none)
    pure (has_owner obj listed)

  unfoldable pub cluster_role_has_controlplane_owner : WatchedObject → Exec S Bool
  unfolding obj_has_controlplane_owner
  cluster_role_has_controlplane_owner (role r) = obj_has_controlplane_owner r.meta
  cluster_role_has_controlplane_owner _ = pure false

  unfoldable pub cluster_role_binding_has_controlplane_owner : WatchedObject → Exec S Bool
  unfolding obj_has_controlplane_owner
  cluster_role_binding_has_controlplane_owner (binding b) = obj_has_controlplane_owner b.meta
  cluster_role_binding_has_controlplane_owner _ = pure false

  unfoldable pub get_controlplane_request_from_ref_uid : ObjectMeta → Exec S (List NamespacedName)
  unfolding requests
  get_controlplane_request_from_ref_uid obj = do
    listed ← attempt (client.control_planes.list none)
    pure (requests obj listed)

  unfoldable pub get_controlplane_for_cluster_role : WatchedObject → Exec S (List NamespacedName)
  unfolding get_controlplane_request_from_ref_uid
  get_controlplane_for_cluster_role (role r) = get_controlplane_request_from_ref_uid r.meta
  get_controlplane_for_cluster_role _ = pure []

  unfoldable pub get_controlplane_for_cluster_role_binding :
      WatchedObject → Exec S (List NamespacedName)
  unfolding get_controlplane_request_from_ref_uid
  get_controlplane_for_cluster_role_binding (binding b) =
      get_controlplane_request_from_ref_uid b.meta
  get_controlplane_for_cluster_role_binding _ = pure []
