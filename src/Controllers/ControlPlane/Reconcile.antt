-- ===== src/Controllers/ControlPlane/Reconcile.antt =====
-- `Reconcile` of controllers/controlplane_controller.go.
use apisix_operator.Prelude.{
  ◌-◌, String, Bool, ◌||◌, none, some, [], ◌∷◌, ltb, if◌then◌else◌, ◌==◌, nat_eq,
}
use apisix_operator.Errors.{Result, ok, err, is_not_found}
use apisix_operator.Errors.Calls.{Exec, pure, raise, attempt, ◌>>=◌}
use apisix_operator.Api.Meta.{Time}
use apisix_operator.Api.Types.{ControlPlane, control_plane_conditions}
use apisix_operator.Kubernetes.Status.{init_ready}
use apisix_operator.Kubernetes.Metadata.{
  ensure_finalizers_in_metadata, remove_finalizer_in_metadata,
}
use apisix_operator.Env.{set_control_plane_defaults}
use apisix_operator.Resources.Objects.{Deployment}
use apisix_operator.Client.{NamespacedName}
use apisix_operator.Controllers.ControlPlane.{
  Outcome, finished, requeue_after, retry_conflict, Reconciler, with_meta, with_deployment,
  cleanup_cluster_role, cleanup_cluster_role_binding,
}
use apisix_operator.Controllers.ControlPlane.Status.{
  ensure_is_marked_scheduled, ensure_is_marked_provisioned, ensure_data_plane_status, update_status,
}
use apisix_operator.Controllers.ControlPlane.Connection.{
  connected_service, ensure_data_plane_configuration,
}
use apisix_operator.Controllers.ControlPlane.Ensure.{
  ensure_service_account_for_control_plane, ensure_cluster_role_for_control_plane,
  ensure_cluster_role_binding_for_control_plane, ensure_certificate,
  ensure_deployment_for_control_plane, ensure_owned_cluster_roles_deleted,
  ensure_owned_cluster_role_bindings_deleted,
}

-- `err != nil` after a call whose conflict is retried, and what follows a success.
unfoldable pub or_retry {ℓ κ} :
    {S : Type ℓ} {A : Type κ} → (A → Exec S Outcome) → Result A → Exec S Outcome
unfolding retry_conflict
or_retry next (ok a) s = next a s
or_retry next (err e) s = (retry_conflict e, s)

-- `Replicas == 0 || AvailableReplicas < Replicas`
unfoldable pub not_yet_ready : Deployment → Bool
not_yet_ready d = d.status.replicas == 0 || ltb d.status.available_replicas d.status.replicas

module _ {S P C V : Type 0} (r : Reconciler S P C V) where
  open r use {client}

  unfoldable pub finish_update : ControlPlane → Exec S Outcome
  finish_update controlplane = do stored ← client.control_planes.update controlplane; pure finished

  unfoldable pub finish_status : ControlPlane → Exec S Outcome
  unfolding update_status
  finish_status controlplane = do written ← update_status r controlplane; pure finished

  -- The garbage collection of a ControlPlane that is deleted.
  unfoldable pub cleanup : ControlPlane → Exec S Outcome
  unfolding ensure_owned_cluster_roles_deleted ensure_owned_cluster_role_bindings_deleted
      remove_finalizer_in_metadata finish_update
  cleanup controlplane = do
    bindings ← ensure_owned_cluster_role_bindings_deleted r controlplane
    let (had_binding, without_binding) =
        remove_finalizer_in_metadata controlplane.meta cleanup_cluster_role_binding
    (if had_binding then finish_update (with_meta controlplane without_binding) else (do
      roles ← ensure_owned_cluster_roles_deleted r controlplane
      let (had_role, without_role) =
          remove_finalizer_in_metadata controlplane.meta cleanup_cluster_role
      (if had_role then finish_update (with_meta controlplane without_role) else pure finished)))

  unfoldable pub reconcile_deleted : Time → ControlPlane → Exec S Outcome
  unfolding cleanup
  reconcile_deleted deletion controlplane = do
    now ← client.now
    (if ltb now deletion
        then (do later ← client.now; pure (requeue_after (deletion - later)))
        else cleanup controlplane)

  -- After the Deployment is as it should be.
  unfoldable pub mark_provisioned : Deployment → ControlPlane → Exec S Outcome
  unfolding not_yet_ready ensure_is_marked_provisioned update_status or_retry
  mark_provisioned deployment controlplane = if not_yet_ready deployment then pure finished else do
    marked ← ensure_is_marked_provisioned r controlplane
    written ← attempt (update_status r marked)
    or_retry (λ _. pure finished) written

  -- From the ServiceAccount to the end: each object that is created or updated ends the run.
  unfoldable pub provision : Bool → ControlPlane → Exec S Outcome
  unfolding ensure_service_account_for_control_plane ensure_cluster_role_for_control_plane
      ensure_cluster_role_binding_for_control_plane ensure_certificate
      ensure_deployment_for_control_plane finish_status mark_provisioned
  provision dataplane_is_set controlplane = do
    (account_changed, account) ← ensure_service_account_for_control_plane r controlplane
    (if account_changed then pure finished else (do
      (role_changed, role) ← ensure_cluster_role_for_control_plane r controlplane
      (if role_changed then pure finished else (do
        (binding_changed, binding) ←
            ensure_cluster_role_binding_for_control_plane r controlplane account.meta.name
              role.meta.name
        (if binding_changed then pure finished else (do
          (secret_created, secret) ← ensure_certificate r controlplane
          (if secret_created then pure finished else (do
            (deployment_changed, deployment) ←
                ensure_deployment_for_control_plane r controlplane account.meta.name
                  secret.meta.name
            (if deployment_changed
                then (if dataplane_is_set then pure finished else finish_status controlplane)
                else mark_provisioned deployment controlplane)))))))))

  -- From the defaults of the environment on.
  unfoldable pub configure : ControlPlane → String → Exec S Outcome
  unfolding set_control_plane_defaults ensure_data_plane_configuration ensure_data_plane_status
      provision or_retry
  configure controlplane service =
      let (changed, options) =
        set_control_plane_defaults controlplane.spec.deployment controlplane.meta.namespace service
          [] in
      let defaulted = with_deployment controlplane options in
      if changed
      then (do
        stored ← attempt (client.control_planes.update defaulted)
        or_retry (λ _. pure finished) stored)
      else (do
        configured ← attempt (ensure_data_plane_configuration r defaulted service)
        or_retry
            (λ current. do
              (is_set, observed) ← ensure_data_plane_status r current
              provision is_set observed)
            configured)

  unfoldable pub reconcile_live : ControlPlane → Exec S Outcome
  unfolding ensure_finalizers_in_metadata finish_update init_ready ensure_is_marked_scheduled
      finish_status connected_service configure
  reconcile_live controlplane =
      let (finalizers_changed, m) =
        ensure_finalizers_in_metadata controlplane.meta
          (cleanup_cluster_role ∷ cleanup_cluster_role_binding ∷ []) in
      if finalizers_changed then finish_update (with_meta controlplane m) else (do
        now ← client.now
        (scheduled, marked) ← ensure_is_marked_scheduled r (init_ready now controlplane)
        (if scheduled
            then finish_status marked
            else (do service ← connected_service r marked; configure marked service)))

  -- The ControlPlane that `Get` answers.
  unfoldable pub reconcile_found : Result ControlPlane → Exec S Outcome
  unfolding reconcile_deleted reconcile_live
  reconcile_found (ok controlplane) = elim controlplane.meta.deletion_timestamp [
    | none ↦ reconcile_live controlplane
    | some deletion ↦ reconcile_deleted deletion controlplane
  ]
  reconcile_found (err e) = if is_not_found e then pure finished else raise e

  unfoldable pub reconcile : NamespacedName → Exec S Outcome
  unfolding reconcile_found
  reconcile request = do got ← attempt (client.control_planes.get request); reconcile_found got
