-- ===== src/Controllers/DataPlane/Synced.antt =====
-- What an existing Deployment is after `ensureDeploymentForDataPlane` brought it up to date.
use apisix_operator.Prelude.{◌≡◌, ◌↔◌, refl, sym, ap, ◌∙◌, Bool, false, some}
use apisix_operator.Errors.{ok}
use apisix_operator.Api.Meta.{Labels}
use apisix_operator.Api.Env.{DeploymentOptions}
use apisix_operator.Kubernetes.Metadata.{entries}
use apisix_operator.Kubernetes.Metadata.Update.{UniqueKeys}
use apisix_operator.Resources.Objects.{Container, Deployment, deployment_object}
use apisix_operator.Resources.Generators.{get_pod_container_by_name}
use apisix_operator.Controllers.Owned.{refresh}
use apisix_operator.Controllers.Deployments.{
  set_container, restore_containers, with_containers, sync_env, sync_env_from, sync_data_plane,
  bring_data_plane_deployment,
}
use apisix_operator.Controllers.Deployments.Sync.{
  restore_containers_lem, restore_containers_stable, refresh_lem, ok-pair,
}
use apisix_operator.Controllers.Deployments.Sync.Steps.{
  HasEnvOf, find_container, find_container-name, find_container-set_container, set_container_self,
  sync_lem, sync_stable, sync_same, restore_same,
}

sync_data_plane_lem :
    (opts : DeploymentOptions) (u : Bool) (d : Deployment) {c : Container}
    → get_pod_container_by_name d.spec.pod "proxy" ≡ some c
    → (updated : Bool) × (d' : Deployment) × (sync_data_plane opts (u, d) (some c)
        ≡ ok (updated, d'))
      × (d'.meta ≡ d.meta)
      × HasEnvOf opts "proxy" d'
unfolding sync_data_plane get_pod_container_by_name
sync_data_plane_lem opts u d {c} h =
    let named = find_container-name "proxy" d.spec.pod.containers h in
    let c' = (sync_env_from opts (sync_env opts (u, c))).1 in
    let e = sync_lem opts u c in
    let put : find_container "proxy" (set_container c.name c' d.spec.pod.containers) ≡ some c' =
      find_container-set_container "proxy" c.name d.spec.pod.containers c' named (e.2 ∙ named) h in
    (_, _, refl, refl, (c', put, e.0, e.1))

sync_data_plane_stable :
    (opts : DeploymentOptions) (d : Deployment) {c : Container}
    → get_pod_container_by_name d.spec.pod "proxy" ≡ some c
    → c.env ≡ opts.env
    → c.env_from ≡ opts.env_from
    → sync_data_plane opts (false, d) (some c) ≡ ok (false, d)
unfolding sync_data_plane get_pod_container_by_name
sync_data_plane_stable opts d {c} h env from =
    let named = find_container-name "proxy" d.spec.pod.containers h in
    let same = set_container_self "proxy" c.name d.spec.pod.containers named h in
    rw (sync_stable opts c env from, same) refl

sync_data_plane_same :
    (opts : DeploymentOptions) (u : Bool) (d d' : Deployment) {c : Container}
    → get_pod_container_by_name d.spec.pod "proxy" ≡ some c
    → sync_data_plane opts (u, d) (some c) ≡ ok (false, d')
    → (u ≡ false) × (d' ≡ d)
unfolding sync_data_plane get_pod_container_by_name
sync_data_plane_same opts u d d' {c} h e =
    let cs = d.spec.pod.containers in
    let synced = sync_env_from opts (sync_env opts (u, c)) in
    let (flag, result) =
      ok-pair synced.0 false (with_containers d (set_container c.name synced.1 cs)) d' e in
    let (down, same) = sync_same opts u c flag in
    (
      down,
      sym result
          ∙ ap (λ x. with_containers d (set_container c.name x.1 cs)) same
          ∙ ap (with_containers d)
              (set_container_self "proxy" c.name cs (find_container-name "proxy" cs h) h),
    )

after_refresh :
    (opts : DeploymentOptions) (u : Bool) (d generated : Deployment) {g : Container}
    → get_pod_container_by_name generated.spec.pod "proxy" ≡ some g
    → (updated : Bool) × (d' : Deployment) × (let r = restore_containers "proxy" generated (u, d) in
        sync_data_plane opts r (get_pod_container_by_name r.1.spec.pod "proxy") ≡ ok (updated, d'))
      × (d'.meta ≡ d.meta)
      × HasEnvOf opts "proxy" d'
after_refresh opts u d generated h =
    let r = restore_containers "proxy" generated (u, d) in
    let (c, has, kept) = restore_containers_lem "proxy" generated u d h in
    let (updated, d', e, m, env) = sync_data_plane_lem opts r.0 r.1 has in
    (updated, d', rw has e, m ∙ kept, env)

after_refresh_same :
    (opts : DeploymentOptions) (u : Bool) (d generated d' : Deployment) {g : Container}
    → get_pod_container_by_name generated.spec.pod "proxy" ≡ some g
    → let r = restore_containers "proxy" generated (u, d) in
      sync_data_plane opts r (get_pod_container_by_name r.1.spec.pod "proxy") ≡ ok (false, d')
      → (u ≡ false) × (d' ≡ d)
after_refresh_same opts u d generated d' h e =
    let r = restore_containers "proxy" generated (u, d) in
    let (c, has, kept) = restore_containers_lem "proxy" generated u d h in
    let (down, same) = sync_data_plane_same opts r.0 r.1 d' has (rw has at e) in
    let (down', restored) = restore_same "proxy" generated u d down in
    (down', same ∙ ap (λ (x : Bool × Deployment). x.1) restored)

bring_data_plane_stable :
    (opts : DeploymentOptions) (d generated : Deployment)
    → refresh d generated ≡ ok (false, d)
    → HasEnvOf opts "proxy" d
    → bring_data_plane_deployment opts d generated ≡ ok (false, d)
unfolding bring_data_plane_deployment
bring_data_plane_stable opts d generated fresh (c, has, env, from) =
    rw (fresh, restore_containers_stable "proxy" generated d has, has)
      (sync_data_plane_stable opts d has env from)

-- For an existing Deployment that has labels, and a generated one whose labels have distinct keys
-- and that has the proxy's container, ensureDeploymentForDataPlane neither fails nor panics on the
-- way to the update: the Deployment it makes has a proxy container with the environment of the
-- DataPlane, and is not changed again by a second run. The flag by which it is written is false
-- exactly if the Deployment is the existing one: a Deployment that differs is always written, and
-- one that does not never.
pub bring_data_plane_deployment_converges :
    (opts : DeploymentOptions) (existing generated : Deployment) {labels : Labels} {g : Container}
    → existing.meta.labels ≡ some labels
    → UniqueKeys (entries generated.meta.labels)
    → get_pod_container_by_name generated.spec.pod "proxy" ≡ some g
    → (updated : Bool) × (d : Deployment) × (bring_data_plane_deployment opts existing generated
        ≡ ok (updated, d))
      × ((updated ≡ false) ↔ (d ≡ existing))
      × HasEnvOf opts "proxy" d
      × (bring_data_plane_deployment opts d generated ≡ ok (false, d))
bring_data_plane_deployment_converges opts existing generated hl hk hg =
    let (u, m, eq, kept, again) = refresh_lem existing generated hl hk in
    let refreshed = record existing { meta = m } in
    let (updated, d, run, same, env) = after_refresh opts u refreshed generated hg in
    let first : bring_data_plane_deployment opts existing generated ≡ ok (updated, d) =
      unfold bring_data_plane_deployment in rw eq run in
    let second = bring_data_plane_stable opts d generated (again d same) env in
    (
      updated,
      d,
      first,
      (
        λ down.
            let (down', e) =
              after_refresh_same opts u refreshed generated d hg (run ∙ ap (λ b. ok (b, d)) down) in
            e ∙ ap (λ x. record existing { meta = x }) (kept down'),
        λ e.
            (ok-pair updated false d d (
              sym first
              ∙ ap (λ x. bring_data_plane_deployment opts x generated) (sym e)
              ∙ second)).0,
      ),
      env,
      second,
    )
