-- ===== src/Controllers/Deployments.antt =====
-- How the reconcilers bring an existing Deployment up to date: the middle of
-- `ensureDeploymentForControlPlane` and of `ensureDeploymentForDataPlane`.
pub mod Sync
use apisix_operator.Prelude.{
  ℕ, String, Bool, true, false, Option, none, some, List, [], ◌∷◌, length, if◌then◌else◌, ◌==◌,
  ◌!=◌, string_eq, nat_eq, ltb,
}
use apisix_operator.Errors.{Result, ok, err}
use apisix_operator.Errors.Results.{◌>>=◌}
use apisix_operator.Api.Env.{DeploymentOptions, env_var_eq, env_from_source_eq}
use apisix_operator.Resources.Objects.{Container, PodSpec, Deployment, deployment_object}
use apisix_operator.Resources.Generators.{get_pod_container_by_name}
use apisix_operator.Controllers.Owned.{refresh, nil_dereference}

-- Writing through the pointer that `GetPodContainerByName` returns: the first container of the
-- name becomes `c`.
unfoldable pub set_container : String → Container → List Container → List Container
set_container name c [] = []
set_container name c (d ∷ ds) = if d.name == name then c ∷ ds else d ∷ set_container name c ds

abbrev pub with_pod : Deployment → PodSpec → Deployment
with_pod d pod = record d { spec = record (d.spec) { pod = pod } }

abbrev pub with_containers : Deployment → List Container → Deployment
with_containers d cs = with_pod d (record (d.spec.pod) { containers = cs })

abbrev pub with_replicas : Deployment → Option ℕ → Deployment
with_replicas d replicas = record d { spec = record (d.spec) { replicas = replicas } }

-- If the main container was deleted, the generated ones replace all containers.
unfoldable pub restore_containers : String → Deployment → Bool × Deployment → Bool × Deployment
unfolding get_pod_container_by_name
restore_containers name generated (updated, existing) =
    elim (get_pod_container_by_name existing.spec.pod name) [
      | none ↦ (true, with_containers existing generated.spec.pod.containers)
      | some c ↦ (updated, existing)
    ]

-- The `switch` over the replicas, with the container that it may change.
unfoldable pub scale :
    Bool → DeploymentOptions → Bool × Option ℕ × Container → Bool × Option ℕ × Container
scale true opts (updated, none, c) = (updated, none, c)
scale true opts (updated, some n, c) =
    if n == 0
    then (true, none, (if ltb 0 (length c.env) then record c { env = opts.env } else c))
    else (updated, some n, c)
scale false opts (updated, none, c) = (true, some 0, c)
scale false opts (updated, some n, c) = if n != 0 then (true, some 0, c) else (updated, some n, c)

-- The environment of the container is that of the options.
unfoldable pub sync_env : DeploymentOptions → Bool × Container → Bool × Container
sync_env opts (updated, c) =
    if c.env != opts.env then (true, record c { env = opts.env }) else (updated, c)

unfoldable pub sync_env_from : DeploymentOptions → Bool × Container → Bool × Container
sync_env_from opts (updated, c) =
    if c.env_from != opts.env_from
    then (true, record c { env_from = opts.env_from })
    else (updated, c)

-- From the container on, for a ControlPlane.
unfoldable pub sync_control_plane :
    Bool → DeploymentOptions → Bool × Deployment → Option Container → Result (Bool × Deployment)
unfolding scale sync_env sync_env_from set_container
sync_control_plane is_set opts (updated, d) none = err nil_dereference
sync_control_plane is_set opts (updated, d) (some c) =
    let (updated1, replicas, c1) = scale is_set opts (updated, d.spec.replicas, c) in
    let (updated2, c2) = sync_env_from opts (sync_env opts (updated1, c1)) in
    ok (
      updated2,
      with_replicas (with_containers d (set_container c.name c2 d.spec.pod.containers)) replicas,
    )

-- From the container on, for a DataPlane.
unfoldable pub sync_data_plane :
    DeploymentOptions → Bool × Deployment → Option Container → Result (Bool × Deployment)
unfolding sync_env sync_env_from set_container
sync_data_plane opts (updated, d) none = err nil_dereference
sync_data_plane opts (updated, d) (some c) =
    let (updated1, c1) = sync_env_from opts (sync_env opts (updated, c)) in
    ok (updated1, with_containers d (set_container c.name c1 d.spec.pod.containers))

unfoldable pub bring_control_plane_deployment :
    Bool → DeploymentOptions → Deployment → Deployment → Result (Bool × Deployment)
unfolding refresh restore_containers sync_control_plane get_pod_container_by_name
bring_control_plane_deployment is_set opts existing generated = do
  refreshed ← refresh existing generated
  let restored = restore_containers "controller" generated refreshed
  sync_control_plane is_set opts restored
      (get_pod_container_by_name restored.1.spec.pod "controller")

unfoldable pub bring_data_plane_deployment :
    DeploymentOptions → Deployment → Deployment → Result (Bool × Deployment)
unfolding refresh restore_containers sync_data_plane get_pod_container_by_name
bring_data_plane_deployment opts existing generated = do
  refreshed ← refresh existing generated
  let restored = restore_containers "proxy" generated refreshed
  sync_data_plane opts restored (get_pod_container_by_name restored.1.spec.pod "proxy")
