-- ===== src/Controllers/DataPlane.antt =====
-- The DataPlane reconciler: controllers/dataplane_controller.go and
-- controllers/dataplane_controller_reconciler_utils.go. Logging is left out.
pub mod Conditions
pub mod Synced
pub mod Server
pub mod Progress
pub mod Settled
use apisix_operator.Prelude.{
  String, Bool, true, false, ◌&&◌, ◌||◌, not, Option, none, some, List, [], ◌∷◌, ◌++◌, is_some,
  if◌then◌else◌, ◌==◌, ◌<>◌, string_eq,
}
use apisix_operator.Errors.{Error, Result, ok, err, is_not_found}
use apisix_operator.Errors.Calls.{Exec, pure, raise, attempt, ◌>>=◌}
use apisix_operator.Api.Meta.{
  Time, Condition, condition_true, condition_false, condition_status_eq, empty_meta,
}
use apisix_operator.Api.Types.{DataPlane, data_plane_conditions}
use apisix_operator.Kubernetes.Status.{
  new_condition, set_condition, get_condition, init_ready, set_ready, needs_update,
}
use apisix_operator.Resources.Objects.{
  Deployment, Service, Secret, deployment_object, service_object,
}
use apisix_operator.Resources.Generators.{
  gateway_operator_controlled_label, data_plane_managed_label_value,
}
use apisix_operator.Resources.Generators.Workloads.{
  generate_new_deployment_for_data_plane, generate_new_service_for_data_plane,
}
use apisix_operator.Client.{NamespacedName}
use apisix_operator.Client.Lists.{list_deployments_for_owner, list_services_for_owner}
use apisix_operator.Controllers.Owned.{mark_for_data_plane, refresh, ensure_one}
use apisix_operator.Controllers.Certificates.{data_plane, maybe_create_certificate_secret}
use apisix_operator.Controllers.Deployments.{bring_data_plane_deployment}
use apisix_operator.Controllers.ControlPlane.{
  Outcome, finished, key_of, Reconciler, provisioned_type,
}

abbrev pub empty_data_plane : DataPlane
empty_data_plane = record {
  type_meta = record { group = ""; version = ""; kind = "" };
  meta = empty_meta;
  spec = record {
    deployment_options = record { container_image = none; version = none; env = []; env_from = [] };
  };
  status = record { conditions = []; service = "" };
}

unfoldable pub is_same_data_plane_condition : Condition → Condition → Bool
is_same_data_plane_condition a b =
    a.type == b.type && a.status == b.status && a.reason == b.reason && a.message == b.message

-- The condition `notProvisionedCondition`.
abbrev pub not_provisioned_condition : DataPlane → String → String → Time → Condition
not_provisioned_condition dataplane reason message now = record {
  type = provisioned_type;
  status = condition_false;
  observed_generation = dataplane.meta.generation;
  last_transition_time = now;
  reason = reason;
  message = message;
}

-- The loop over the conditions: `conditionFound`, `shouldUpdate` and the slice.
unfoldable pub replace_loop :
    Condition → Bool × Bool → List Condition → Bool × Bool × List Condition
unfolding is_same_data_plane_condition
replace_loop fresh (found, update) [] = (found, update, [])
replace_loop fresh (found, update) (c ∷ cs) =
    let is_type = c.type == provisioned_type in
    let differs = is_type && not (is_same_data_plane_condition fresh c) in
    let (found', update', rest) = replace_loop fresh (found || is_type, update || differs) cs in
    (found', update', (if differs then fresh else c) ∷ rest)

-- The loop and the condition that is appended if none was found.
unfoldable pub mark_not_provisioned : Condition → List Condition → Bool × List Condition
unfolding replace_loop
mark_not_provisioned fresh cs =
    let (found, update, replaced) = replace_loop fresh (false, false) cs in
    if found then (update, replaced) else (true, replaced ++ fresh ∷ [])

-- The reconciler's fields are those of the ControlPlane's.
module _ {S P C V : Type 0} (r : Reconciler S P C V) where
  open r use {client, crypto, cluster_ca_secret_name, cluster_ca_secret_namespace}

  unfoldable pub ensure_is_marked_scheduled : DataPlane → Exec S (Bool × DataPlane)
  unfolding get_condition set_condition new_condition
  ensure_is_marked_scheduled dataplane =
      if is_some (get_condition provisioned_type dataplane) then pure (false, dataplane) else do
        now ← client.now
        pure (
          true,
          set_condition
              (new_condition now provisioned_type condition_false "PodsNotReady"
                "DataPlane resource is scheduled for provisioning")
              dataplane,
        )

  unfoldable pub ensure_is_marked_provisioned : DataPlane → Exec S DataPlane
  unfolding set_condition new_condition set_ready
  ensure_is_marked_provisioned dataplane = do
    now ← client.now
    let marked =
        set_condition
          (new_condition now provisioned_type condition_true "PodsReady"
            "pods for all Deployments are ready")
          dataplane
    later ← client.now
    pure (set_ready later marked)

  unfoldable pub ensure_data_plane_service_status : DataPlane → String → Exec S DataPlane
  ensure_data_plane_service_status dataplane service_name =
      client.data_planes.update_status
        (record dataplane { status = record (dataplane.status) { service = service_name } })

  unfoldable pub ensure_data_plane_is_marked_not_provisioned :
      DataPlane → String → String → Exec S DataPlane
  unfolding mark_not_provisioned
  ensure_data_plane_is_marked_not_provisioned dataplane reason message = do
    now ← client.now
    let (should_update, conditions) =
        mark_not_provisioned (not_provisioned_condition dataplane reason message now)
          dataplane.status.conditions
    let marked = data_plane_conditions.set_conditions conditions dataplane
    (if should_update then client.data_planes.update_status marked else pure marked)

  unfoldable pub ensure_certificate : DataPlane → String → Exec S (Bool × Secret)
  unfolding maybe_create_certificate_secret
  ensure_certificate dataplane service_name =
      maybe_create_certificate_secret client crypto (data_plane dataplane)
        (service_name <> "." <> dataplane.meta.namespace <> ".svc") cluster_ca_secret_name
        cluster_ca_secret_namespace ("key encipherment" ∷ "digital signature" ∷ "server auth" ∷ [])

  unfoldable pub ensure_deployment_for_data_plane : DataPlane → String → Exec S (Bool × Deployment)
  unfolding list_deployments_for_owner ensure_one bring_data_plane_deployment mark_for_data_plane
      generate_new_deployment_for_data_plane
  ensure_deployment_for_data_plane dataplane cert_secret_name = do
    let m = dataplane.meta
    found ←
        list_deployments_for_owner client gateway_operator_controlled_label
          data_plane_managed_label_value m.namespace m.uid
    ensure_one client.deployments "deployments for DataPlane"
        (ok (
          mark_for_data_plane dataplane.type_meta m
            (generate_new_deployment_for_data_plane dataplane cert_secret_name)))
        (bring_data_plane_deployment dataplane.spec.deployment_options) (λ generated. generated)
        found

  unfoldable pub ensure_service_for_data_plane : DataPlane → Exec S (Bool × Service)
  unfolding list_services_for_owner ensure_one refresh mark_for_data_plane
      generate_new_service_for_data_plane
  ensure_service_for_data_plane dataplane = do
    let m = dataplane.meta
    found ←
        list_services_for_owner client gateway_operator_controlled_label
          data_plane_managed_label_value m.namespace m.uid
    ensure_one client.services "services for DataPlane"
        (ok (
          mark_for_data_plane dataplane.type_meta m
            (generate_new_service_for_data_plane dataplane)))
        refresh (λ generated. generated) found

  -- `Status().Update` if the conditions differ from the current ones, which are those of an empty
  -- object if there is none.
  status_from : DataPlane → Result DataPlane → Exec S (Unit {0})
  unfolding needs_update
  status_from updated (ok current) =
      if needs_update current updated
      then (do stored ← client.data_planes.update_status updated; pure tt)
      else pure tt
  status_from updated (err e) =
      if is_not_found e
      then (if needs_update empty_data_plane updated
          then (do stored ← client.data_planes.update_status updated; pure tt)
          else pure tt)
      else raise e

  unfoldable pub update_status : DataPlane → Exec S (Unit {0})
  unfolding status_from
  update_status updated = do
    got ← attempt (client.data_planes.get (key_of updated.meta))
    status_from updated got

  reconcile_found : Result DataPlane → Exec S Outcome
  unfolding init_ready ensure_is_marked_scheduled update_status ensure_service_for_data_plane
      ensure_data_plane_service_status
  reconcile_found (err e) = if is_not_found e then pure finished else raise e
  reconcile_found (ok dataplane) = do
    now ← client.now
    (scheduled, marked) ← ensure_is_marked_scheduled (init_ready now dataplane)
    (if scheduled then (do written ← update_status marked; pure finished) else (do
      (changed, service) ← ensure_service_for_data_plane marked
      (if changed
          then (do
            stored ← ensure_data_plane_service_status marked service.meta.name
            pure finished)
          else pure finished)))

  unfoldable pub reconcile : NamespacedName → Exec S Outcome
  unfolding reconcile_found
  reconcile request = do got ← attempt (client.data_planes.get request); reconcile_found got
