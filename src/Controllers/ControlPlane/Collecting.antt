-- ===== src/Controllers/ControlPlane/Collecting.antt =====
-- The runs of the reconciler for a ControlPlane that is deleted, on a server that nobody else writes
-- to.
pub mod Server
use apisix_operator.Prelude.{
  ◌≤◌, String, ◌≡◌, refl, ap, ◌∙◌, arith, true, false, Option, none, some, List, [], ◌∷◌, keep, ltb,
  ◌!=◌, string_eq,
}
use apisix_operator.Errors.{Result, ok, err, not_found}
use apisix_operator.Errors.Calls.{Exec, bind_ok}
use apisix_operator.Api.Meta.{Time}
use apisix_operator.Api.Types.{ControlPlane}
use apisix_operator.Kubernetes.Metadata.{has_finalizer, remove_finalizer_in_metadata}
use apisix_operator.Resources.Objects.{
  ClusterRole, ClusterRoleBinding, cluster_role_object, cluster_role_binding_object,
}
use apisix_operator.Resources.Generators.{
  gateway_operator_controlled_label, control_plane_managed_label_value,
}
use apisix_operator.Client.{NamespacedName, ListOptions, Client}
use apisix_operator.Client.Lists.{
  list_cluster_roles_for_owner, list_cluster_role_bindings_for_owner,
}
use apisix_operator.Controllers.Owned.Stored.{
  Stored, removed, found, listed_lem, delete_all_lem, removed_frame,
}
use apisix_operator.Controllers.ControlPlane.{
  Outcome, finished, Reconciler, with_meta, cleanup_cluster_role, cleanup_cluster_role_binding,
}
use apisix_operator.Controllers.ControlPlane.Ensure.{
  ensure_owned_cluster_roles_deleted, ensure_owned_cluster_role_bindings_deleted,
}
use apisix_operator.Controllers.ControlPlane.Reconcile.{
  finish_update, cleanup, reconcile_deleted, reconcile_live, reconcile_found, reconcile,
}
use apisix_operator.Controllers.ControlPlane.Collecting.Server.{
  CleanupServer, kept_or_gone, with_finalizers,
}

-- The options by which the cluster-wide objects of ControlPlanes are listed.
abbrev pub cluster_options : ListOptions
cluster_options = record {
  in_namespace = none;
  label = gateway_operator_controlled_label;
  value = control_plane_managed_label_value;
}

module _ {S P C V : Type 0} (r : Reconciler S P C V) {key : NamespacedName}
    (server : CleanupServer r.client key) where
  open r use {client}
  open server use {
    clock, control_plane, roles, bindings, put, version, answer, now_law, get_law, update_law,
    control_plane-put, control_plane-clock, control_plane-roles, control_plane-bindings,
    roles-bindings, bindings-roles, bindings-put, roles-put, bindings-clock, roles-clock,
  }

  -- The objects of an owner, and the states without them.
  abbrev pub owned_bindings : String → S → List ClusterRoleBinding
  owned_bindings uid s = found bindings cluster_options uid s

  abbrev pub owned_roles : String → S → List ClusterRole
  owned_roles uid s = found roles cluster_options uid s

  abbrev pub without_bindings : String → S → S
  without_bindings uid s = removed bindings (owned_bindings uid s) s

  abbrev pub without_roles : String → S → S
  without_roles uid s = removed roles (owned_roles uid s) s

  deletes_bindings :
      (c : ControlPlane) (s : S)
      → ensure_owned_cluster_role_bindings_deleted r c s ≡ (ok tt, without_bindings c.meta.uid s)
  unfolding ensure_owned_cluster_role_bindings_deleted list_cluster_role_bindings_for_owner
  deletes_bindings c s =
      bind_ok
        (list_cluster_role_bindings_for_owner client gateway_operator_controlled_label
          control_plane_managed_label_value c.meta.uid)
        _ s (listed_lem bindings cluster_options c.meta.uid s)
      ∙ delete_all_lem bindings (owned_bindings c.meta.uid s) s

  deletes_roles :
      (c : ControlPlane) (s : S)
      → ensure_owned_cluster_roles_deleted r c s ≡ (ok tt, without_roles c.meta.uid s)
  unfolding ensure_owned_cluster_roles_deleted list_cluster_roles_for_owner
  deletes_roles c s =
      bind_ok
        (list_cluster_roles_for_owner client gateway_operator_controlled_label
          control_plane_managed_label_value c.meta.uid)
        _ s (listed_lem roles cluster_options c.meta.uid s)
      ∙ delete_all_lem roles (owned_roles c.meta.uid s) s

  found_deleted :
      (c : ControlPlane) (s : S) {deletion : Time}
      → c.meta.deletion_timestamp ≡ some deletion
      → reconcile_found r (ok c) s ≡ reconcile_deleted r deletion c s
  unfolding reconcile_found
  found_deleted c s d =
      ap
        (λ (m : Option Time).
          (elim m as (λ _. Exec S Outcome) [
            | none ↦ reconcile_live r c
            | some t ↦ reconcile_deleted r t c
          ])
            s)
        d

  due_cleanup :
      (c : ControlPlane) (s : S) {deletion : Time}
      → deletion ≤ (clock s).0
      → reconcile_deleted r deletion c s ≡ cleanup r c (clock s).1
  unfolding reconcile_deleted
  due_cleanup c s {deletion} le =
      let late : ltb (clock s).0 deletion ≡ false = ground arith in rw (now_law s, late) refl

  -- A run for a ControlPlane whose deletion is due is a cleanup.
  pub due_lem :
      (c : ControlPlane) (s : S) {deletion : Time}
      → control_plane s ≡ ok c
      → c.meta.deletion_timestamp ≡ some deletion
      → deletion ≤ (clock s).0
      → reconcile r key s ≡ cleanup r c (clock s).1
  unfolding reconcile
  due_lem c s e d le =
      ap (λ (x : Result ControlPlane × S). reconcile_found r x.0 x.1) (get_law s)
      ∙ ap (λ x. reconcile_found r x s) e
      ∙ found_deleted c s d
      ∙ due_cleanup c s le

  -- Deleting roles or bindings leaves the ControlPlane as it is.
  pub control_plane-without_bindings :
      (uid : String) (s : S) → control_plane (without_bindings uid s) ≡ control_plane s
  control_plane-without_bindings uid s =
      removed_frame bindings control_plane (owned_bindings uid s) s control_plane-bindings

  pub control_plane-without_roles :
      (uid : String) (s : S) → control_plane (without_roles uid s) ≡ control_plane s
  control_plane-without_roles uid s =
      removed_frame roles control_plane (owned_roles uid s) s control_plane-roles

  finishes :
      (c : ControlPlane) (fs : List String) (s : S)
      → control_plane s ≡ ok c
      → finish_update r (with_finalizers c fs) s ≡ (ok finished, put fs s)
  unfolding finish_update
  finishes c fs s e = rw (update_law c fs s e) refl

  -- The three ends of a cleanup.
  pub cleanup_first :
      (c : ControlPlane) (s : S)
      → control_plane s ≡ ok c
      → has_finalizer cleanup_cluster_role_binding c.meta.finalizers ≡ true
      → cleanup r c s ≡ (
        ok finished,
        put
            (keep (λ h. h != cleanup_cluster_role_binding) c.meta.finalizers)
            (without_bindings c.meta.uid s),
      )
  unfolding cleanup remove_finalizer_in_metadata has_finalizer
  cleanup_first c s e h =
      bind_ok (ensure_owned_cluster_role_bindings_deleted r c) _ s (deletes_bindings c s)
      ∙ rw h (
          finishes c (keep (λ h. h != cleanup_cluster_role_binding) c.meta.finalizers)
            (without_bindings c.meta.uid s) (control_plane-without_bindings c.meta.uid s ∙ e))

  pub cleanup_second :
      (c : ControlPlane) (s : S)
      → control_plane s ≡ ok c
      → has_finalizer cleanup_cluster_role_binding c.meta.finalizers ≡ false
      → has_finalizer cleanup_cluster_role c.meta.finalizers ≡ true
      → cleanup r c s ≡ (
        ok finished,
        put
            (keep (λ h. h != cleanup_cluster_role) c.meta.finalizers)
            (without_roles c.meta.uid (without_bindings c.meta.uid s)),
      )
  unfolding cleanup remove_finalizer_in_metadata has_finalizer
  cleanup_second c s e h k =
      let t = without_bindings c.meta.uid s in
      bind_ok (ensure_owned_cluster_role_bindings_deleted r c) _ s (deletes_bindings c s)
      ∙ rw h (
          bind_ok (ensure_owned_cluster_roles_deleted r c) _ t (deletes_roles c t)
          ∙ rw k (
              finishes c (keep (λ h. h != cleanup_cluster_role) c.meta.finalizers)
                (without_roles c.meta.uid t)
                (control_plane-without_roles c.meta.uid t
                  ∙ control_plane-without_bindings c.meta.uid s
                  ∙ e)))

  pub cleanup_third :
      (c : ControlPlane) (s : S)
      → has_finalizer cleanup_cluster_role_binding c.meta.finalizers ≡ false
      → has_finalizer cleanup_cluster_role c.meta.finalizers ≡ false
      → cleanup r c s ≡ (ok finished, without_roles c.meta.uid (without_bindings c.meta.uid s))
  unfolding cleanup remove_finalizer_in_metadata has_finalizer
  cleanup_third c s h k =
      let t = without_bindings c.meta.uid s in
      bind_ok (ensure_owned_cluster_role_bindings_deleted r c) _ s (deletes_bindings c s)
      ∙ rw h (bind_ok (ensure_owned_cluster_roles_deleted r c) _ t (deletes_roles c t) ∙ rw k refl)
