-- ===== src/Controllers/ControlPlane/Collecting/Server.antt =====
-- A server that takes the calls of the cleanup of a deleted ControlPlane as documented.
use apisix_operator.Prelude.{String, ◌≡◌, some, List, [], ◌∷◌, string_eq}
use apisix_operator.Errors.{Result, ok, err, not_found}
use apisix_operator.Api.Meta.{Time}
use apisix_operator.Api.Types.{ControlPlane}
use apisix_operator.Resources.Objects.{
  ClusterRole, ClusterRoleBinding, cluster_role_object, cluster_role_binding_object,
}
use apisix_operator.Client.{NamespacedName, Client}
use apisix_operator.Controllers.Owned.Stored.{Stored}
use apisix_operator.Controllers.ControlPlane.{with_meta}

-- What the server answers for a deleted object: without finalizers it is gone.
abbrev pub kept_or_gone : List String → ControlPlane → Result ControlPlane
kept_or_gone [] c = err not_found
kept_or_gone (f ∷ fs) c = ok c

abbrev pub with_finalizers : ControlPlane → List String → ControlPlane
with_finalizers c fs = with_meta c (record (c.meta) { finalizers = fs })

-- The calls of the cleanup succeed; an update of the finalizers of a deleted ControlPlane keeps it
-- with a new resource version or lets it go.
pub record CleanupServer {S : Type 0} (client : Client S) (key : NamespacedName) : Type 0 where
  pub clock : S → Time × S
  pub control_plane : S → Result ControlPlane
  pub roles : Stored client.cluster_roles
  pub bindings : Stored client.cluster_role_bindings
  pub put : List String → S → S
  pub version : S → String
  pub answer : List String → S → ControlPlane
  pub now_law : (s : S) → client.now s ≡ (ok (clock s).0, (clock s).1)
  pub get_law : (s : S) → client.control_planes.get key s ≡ (control_plane s, s)
  pub update_law :
      (c : ControlPlane) (fs : List String) (s : S)
      → control_plane s ≡ ok c
      → client.control_planes.update (with_finalizers c fs) s ≡ (ok (answer fs s), put fs s)
  pub control_plane-put :
      (c : ControlPlane) (fs : List String) (s : S) {deletion : Time}
      → control_plane s ≡ ok c
      → c.meta.deletion_timestamp ≡ some deletion
      → control_plane (put fs s)
        ≡ kept_or_gone fs
            (record c { meta = record (c.meta) { finalizers = fs; resource_version = version s } })
  pub control_plane-clock : (s : S) → control_plane (clock s).1 ≡ control_plane s
  pub control_plane-roles :
      (a : ClusterRole) (s : S) → control_plane (roles.remove a s) ≡ control_plane s
  pub control_plane-bindings :
      (a : ClusterRoleBinding) (s : S) → control_plane (bindings.remove a s) ≡ control_plane s
  pub roles-bindings :
      (a : ClusterRoleBinding) (s : S) → roles.items (bindings.remove a s) ≡ roles.items s
  pub bindings-roles :
      (a : ClusterRole) (s : S) → bindings.items (roles.remove a s) ≡ bindings.items s
  pub bindings-put : (fs : List String) (s : S) → bindings.items (put fs s) ≡ bindings.items s
  pub roles-put : (fs : List String) (s : S) → roles.items (put fs s) ≡ roles.items s
  pub bindings-clock : (s : S) → bindings.items (clock s).1 ≡ bindings.items s
  pub roles-clock : (s : S) → roles.items (clock s).1 ≡ roles.items s
