-- ===== src/Controllers/ControlPlane/Status.antt =====
-- The status of a ControlPlane: the part on it of
-- controllers/controlplane_controller_reconciler_utils.go, and `updateStatus`.
use apisix_operator.Prelude.{
  Bool, true, false, ◌||◌, Option, none, some, is_some, if◌then◌else◌, ◌!=◌, string_eq, nat_eq,
}
use apisix_operator.Errors.{Result, ok, err, is_not_found}
use apisix_operator.Errors.Calls.{Exec, pure, raise, attempt, ◌>>=◌}
use apisix_operator.Api.Meta.{Time, Condition, condition_true, condition_false, condition_status_eq}
use apisix_operator.Api.Types.{ControlPlane, control_plane_conditions}
use apisix_operator.Kubernetes.Status.{
  new_condition, set_condition, get_condition, set_ready, needs_update,
}
use apisix_operator.Env.{dataplane_is_set}
use apisix_operator.Resources.Objects.{
  deployment_object, service_account_object, cluster_role_object, cluster_role_binding_object,
}
use apisix_operator.Controllers.ControlPlane.{
  key_of, Reconciler, empty_control_plane, provisioned_type,
}

module _ {S P C V : Type 0} (r : Reconciler S P C V) where
  open r use {
    client, crypto, semver, set_owner_reference, cluster_ca_secret_name,
    cluster_ca_secret_namespace,
  }

  unfoldable pub ensure_is_marked_scheduled : ControlPlane → Exec S (Bool × ControlPlane)
  unfolding get_condition set_condition new_condition
  ensure_is_marked_scheduled controlplane =
      if is_some (get_condition provisioned_type controlplane)
      then pure (false, controlplane)
      else do
        now ← client.now
        pure (
          true,
          set_condition
              (new_condition now provisioned_type condition_false "PodsNotReady"
                "ControlPlane resource is scheduled for provisioning")
              controlplane,
        )

  unfoldable pub ensure_is_marked_provisioned : ControlPlane → Exec S ControlPlane
  unfolding set_condition new_condition set_ready
  ensure_is_marked_provisioned controlplane = do
    now ← client.now
    let marked =
        set_condition
          (new_condition now provisioned_type condition_true "PodsReady"
            "pods for all Deployments are ready")
          controlplane
    later ← client.now
    pure (set_ready later marked)

  -- The condition that reports whether a DataPlane is set.
  unfoldable pub data_plane_condition : Time → Bool → Condition
  unfolding new_condition
  data_plane_condition now true =
      new_condition now provisioned_type condition_false "PodsNotReady"
        "DataPlane was set, ControlPlane resource is scheduled for provisioning"
  data_plane_condition now false =
      new_condition now provisioned_type condition_false "NoDataplane" "DataPlane is not set"

  -- `!present || condition.Status != newCondition.Status || condition.Reason != newCondition.Reason`
  unfoldable pub is_stale : Condition → Option Condition → Bool
  is_stale fresh none = true
  is_stale fresh (some old) = old.status != fresh.status || old.reason != fresh.reason

  unfoldable pub ensure_data_plane_status : ControlPlane → Exec S (Bool × ControlPlane)
  unfolding data_plane_condition get_condition set_condition dataplane_is_set is_stale
  ensure_data_plane_status controlplane = do
    let is_set = dataplane_is_set controlplane.spec.deployment
    now ← client.now
    -- the condition is made anew if a DataPlane is set
    later ← (if is_set then client.now else pure now)
    let condition = data_plane_condition later is_set
    pure (
      is_set,
      (if is_stale condition (get_condition provisioned_type controlplane)
          then set_condition condition controlplane
          else controlplane),
    )

  -- `Status().Update` if the conditions differ from the current ones.
  unfoldable pub write_status : ControlPlane → ControlPlane → Exec S (Unit {0})
  unfolding needs_update
  write_status current updated =
      if needs_update current updated
      then (do stored ← client.control_planes.update_status updated; pure tt)
      else pure tt

  -- The answer to the `Get`: a missing object leaves `current` empty.
  unfoldable pub status_from : ControlPlane → Result ControlPlane → Exec S (Unit {0})
  unfolding write_status
  status_from updated (ok current) = write_status current updated
  status_from updated (err e) =
      if is_not_found e then write_status empty_control_plane updated else raise e

  unfoldable pub update_status : ControlPlane → Exec S (Unit {0})
  unfolding status_from
  update_status updated = do
    got ← attempt (client.control_planes.get (key_of updated.meta))
    status_from updated got
