-- ===== src/Controllers/ControlPlane/Lifecycle.antt =====
-- The finalizers in the life of a ControlPlane.
pub mod Cleanup
use apisix_operator.Prelude.{
  String, sym, ap, ==_refl, ◌≡◌, ◌≢◌, arith, true, false, ◌&&◌, ◌||◌, List, [], ◌∷◌, string_eq,
}
use apisix_operator.Errors.Results.{Result-cases}
use apisix_operator.Api.Meta.{ObjectMeta}
use apisix_operator.Api.Types.{ControlPlane}
use apisix_operator.Resources.Objects.{
  ClusterRole, ClusterRoleBinding, cluster_role_object, cluster_role_binding_object,
}
use apisix_operator.Resources.Generators.{
  gateway_operator_controlled_label, control_plane_managed_label_value,
}
use apisix_operator.Kubernetes.Metadata.{
  has_finalizer, ensure_finalizers_in_metadata, remove_finalizer_in_metadata,
}
use apisix_operator.Kubernetes.Metadata.Finalizers.{ensure_finalizers_lem, remove_finalizer_lem}
use apisix_operator.Client.Lists.{
  list_cluster_roles_for_owner, list_cluster_role_bindings_for_owner,
}
use apisix_operator.Controllers.Owned.Deletion.{AllHarmless, deletions, delete_all-AllHarmless}
use apisix_operator.Controllers.ControlPlane.{
  Reconciler, with_meta, cleanup_cluster_role, cleanup_cluster_role_binding,
}
use apisix_operator.Controllers.ControlPlane.Ensure.{
  ensure_owned_cluster_roles_deleted, ensure_owned_cluster_role_bindings_deleted,
}
use apisix_operator.Controllers.ControlPlane.Reconcile.{finish_update, reconcile_live}

module _ {S P C V : Type 0} (r : Reconciler S P C V) where
  open r use {client}

  -- A live ControlPlane that lacks one of the two finalizers is written with both, its other
  -- finalizers as they were, and the run makes no other call.
  pub reconcile_live-finalizers :
      (c : ControlPlane) (s : S)
      → (has_finalizer cleanup_cluster_role c.meta.finalizers
          && has_finalizer cleanup_cluster_role_binding c.meta.finalizers)
        ≡ false
      → (m : ObjectMeta) × ((g : String)
          → has_finalizer g m.finalizers ≡ (
              has_finalizer g c.meta.finalizers
              || has_finalizer g (cleanup_cluster_role ∷ cleanup_cluster_role_binding ∷ [])))
        × (reconcile_live r c s ≡ finish_update r (with_meta c m) s)
  unfolding reconcile_live
  reconcile_live-finalizers c s h =
      let wanted = cleanup_cluster_role ∷ cleanup_cluster_role_binding ∷ [] in
      let m = (ensure_finalizers_in_metadata c.meta wanted).1 in
      let (has, changed) = ensure_finalizers_lem c.meta wanted in
      let differs : m ≢ c.meta = (λ same. ground (
        arith,
        has cleanup_cluster_role,
        has cleanup_cluster_role_binding,
        ap (λ (n : ObjectMeta). has_finalizer cleanup_cluster_role n.finalizers) same,
        ap (λ (n : ObjectMeta). has_finalizer cleanup_cluster_role_binding n.finalizers) same,
        ==_refl cleanup_cluster_role,
        ==_refl cleanup_cluster_role_binding,
      )) in
      (m, has, ground (arith, changed.1 differs))
