-- ===== src/Controllers/Deployments/Sync.antt =====
-- What an existing Deployment is after `ensureDeploymentForControlPlane` and
-- `ensureDeploymentForDataPlane` brought it up to date.
pub mod Steps
use apisix_operator.Prelude.{
  Option-cases, inl, inr, ℕ, String, ◌≡◌, ◌≢◌, refl, arith, ◌∙◌, sym, ap, ◌↔◌, Bool, true, false,
  Option, none, some, List, [], ◌∷◌, find, ◌==◌, ==_refl, string_eq, nat_eq,
}
use apisix_operator.Errors.{Result, ok}
use apisix_operator.Api.Meta.{ObjectMeta, Labels}
use apisix_operator.Api.Env.{DeploymentOptions, env_var_eq, env_from_source_eq}
use apisix_operator.Kubernetes.Metadata.{entries}
use apisix_operator.Kubernetes.Metadata.Update.{UniqueKeys, ensure_object_meta_converges, flag_down}
use apisix_operator.Resources.Objects.{Container, Deployment, deployment_object}
use apisix_operator.Resources.Generators.{get_pod_container_by_name}
use apisix_operator.Controllers.Owned.{refresh}
use apisix_operator.Controllers.Deployments.{
  set_container, restore_containers, with_containers, with_replicas, scale, sync_env, sync_env_from,
  sync_control_plane, bring_control_plane_deployment,
}
use apisix_operator.Controllers.Deployments.Sync.Steps.{
  HasEnvOf, IsScaled, find_container, find_container-name, find_container-set_container, scale_lem,
  scale_stable, set_container_self, sync_lem, sync_stable, scale_same, sync_same, restore_same,
}

pub ok-pair :
    (u v : Bool) (d e : Deployment)
    → ◌≡◌ {A = Result (Bool × Deployment)} (ok (u, d)) (ok (v, e))
    → (u ≡ v) × (d ≡ e)
ok-pair u v d e h = (ground arith, ground arith)

-- What is left after the container is found, for a ControlPlane.
sync_control_plane_lem :
    (is_set : Bool) (opts : DeploymentOptions) (u : Bool) (d : Deployment) {c : Container}
    → get_pod_container_by_name d.spec.pod "controller" ≡ some c
    → (updated : Bool) × (d' : Deployment) × (sync_control_plane is_set opts (u, d) (some c)
        ≡ ok (updated, d'))
      × (d'.meta ≡ d.meta)
      × HasEnvOf opts "controller" d'
      × IsScaled is_set d'
unfolding sync_control_plane get_pod_container_by_name
sync_control_plane_lem is_set opts u d {c} h =
    let named = find_container-name "controller" d.spec.pod.containers h in
    let scaled = scale is_set opts (u, d.spec.replicas, c) in
    let s = scale_lem is_set opts u d.spec.replicas c in
    let c' = (sync_env_from opts (sync_env opts (scaled.0, scaled.2))).1 in
    let e = sync_lem opts scaled.0 scaled.2 in
    let put : find_container "controller" (set_container c.name c' d.spec.pod.containers)
        ≡ some c' =
      find_container-set_container "controller" c.name d.spec.pod.containers c' named
        (e.2 ∙ s.2 ∙ named) h in
    (_, _, refl, refl, (c', put, e.0, e.1), (s.0, s.1))

sync_control_plane_stable :
    (is_set : Bool) (opts : DeploymentOptions) (d : Deployment) {c : Container}
    → get_pod_container_by_name d.spec.pod "controller" ≡ some c
    → c.env ≡ opts.env
    → c.env_from ≡ opts.env_from
    → IsScaled is_set d
    → sync_control_plane is_set opts (false, d) (some c) ≡ ok (false, d)
unfolding sync_control_plane get_pod_container_by_name
sync_control_plane_stable is_set opts d {c} h env from scaled =
    let named = find_container-name "controller" d.spec.pod.containers h in
    let same = set_container_self "controller" c.name d.spec.pod.containers named h in
    rw (scale_stable is_set opts d.spec.replicas c scaled, sync_stable opts c env from, same) refl

sync_control_plane_same :
    (is_set : Bool) (opts : DeploymentOptions) (u : Bool) (d d' : Deployment) {c : Container}
    → get_pod_container_by_name d.spec.pod "controller" ≡ some c
    → sync_control_plane is_set opts (u, d) (some c) ≡ ok (false, d')
    → (u ≡ false) × (d' ≡ d)
unfolding sync_control_plane get_pod_container_by_name
sync_control_plane_same is_set opts u d d' {c} h e =
    let cs = d.spec.pod.containers in
    let scaled = scale is_set opts (u, d.spec.replicas, c) in
    let synced = sync_env_from opts (sync_env opts (scaled.0, scaled.2)) in
    let made = with_replicas (with_containers d (set_container c.name synced.1 cs)) scaled.1 in
    let (flag, result) = ok-pair synced.0 false made d' e in
    let (us, es) = sync_same opts scaled.0 scaled.2 flag in
    let (uu, eu) = scale_same is_set opts u d.spec.replicas c us in
    let named = find_container-name "controller" cs h in
    (
      uu,
      sym result
          ∙ ap (λ x. with_replicas (with_containers d (set_container c.name x.1 cs)) scaled.1) es
          ∙ ap (λ x. with_replicas (with_containers d (set_container c.name x.2 cs)) x.1) eu
          ∙ ap (λ xs. with_replicas (with_containers d xs) d.spec.replicas)
              (set_container_self "controller" c.name cs named h),
    )

pub restore_containers_lem :
    (name : String) (generated : Deployment) (u : Bool) (d : Deployment) {g : Container}
    → get_pod_container_by_name generated.spec.pod name ≡ some g
    → let r = restore_containers name generated (u, d) in
      (c : Container) × (get_pod_container_by_name r.1.spec.pod name ≡ some c) × (r.1.meta ≡ d.meta)
unfolding restore_containers
restore_containers_lem name generated u d {g} h =
    elim (Option-cases (get_pod_container_by_name d.spec.pod name)) [
      | inl e ↦ (
        g,
        (rw (restore_containers, e) (unfold get_pod_container_by_name in h)),
        rw (restore_containers, e) refl,
      )
      | inr (c, e) ↦ (c, rw (restore_containers, e) e, rw (restore_containers, e) refl)
    ]

pub restore_containers_stable :
    (name : String) (generated : Deployment) (d : Deployment) {c : Container}
    → get_pod_container_by_name d.spec.pod name ≡ some c
    → restore_containers name generated (false, d) ≡ (false, d)
unfolding restore_containers
restore_containers_stable name generated d h = rw (restore_containers, h) refl

-- The refreshed object: the metadata is the one that is asked for, and asking again changes nothing.
pub refresh_lem :
    (existing generated : Deployment) {labels : Labels}
    → existing.meta.labels ≡ some labels
    → UniqueKeys (entries generated.meta.labels)
    → (u : Bool) × (m : ObjectMeta) × (refresh existing generated
        ≡ ok (u, record existing { meta = m }))
      × (u ≡ false → m ≡ existing.meta)
      × ((d : Deployment) → d.meta ≡ m → refresh d generated ≡ ok (false, d))
unfolding refresh
refresh_lem existing generated h k =
    let (u, labels', (eq, looked, exact, stable)) =
      ensure_object_meta_converges existing.meta generated.meta h k in
    let m = record (existing.meta) {
      owner_references = generated.meta.owner_references;
      labels = some labels';
    } in
    (u, m, rw eq refl, flag_down m existing.meta exact, λ d e. ground (arith, e, stable))

-- A Deployment that is as a ControlPlane wants it.
abbrev pub IsSynced : Bool → DeploymentOptions → Deployment → Type 0
IsSynced is_set opts d = HasEnvOf opts "controller" d × IsScaled is_set d

-- From the refreshed object on.
after_refresh :
    (is_set : Bool) (opts : DeploymentOptions) (u : Bool) (d generated : Deployment) {g : Container}
    → get_pod_container_by_name generated.spec.pod "controller" ≡ some g
    → (updated : Bool) × (d' : Deployment) × (let r =
          restore_containers "controller" generated (u, d) in
        sync_control_plane is_set opts r (get_pod_container_by_name r.1.spec.pod "controller")
        ≡ ok (updated, d'))
      × (d'.meta ≡ d.meta)
      × IsSynced is_set opts d'
after_refresh is_set opts u d generated h =
    let r = restore_containers "controller" generated (u, d) in
    let (c, has, kept) = restore_containers_lem "controller" generated u d h in
    let (updated, d', e, m, env, scaled) = sync_control_plane_lem is_set opts r.0 r.1 has in
    (updated, d', rw has e, m ∙ kept, (env, scaled))

after_refresh_same :
    (is_set : Bool) (opts : DeploymentOptions) (u : Bool) (d generated d' : Deployment)
    {g : Container}
    → get_pod_container_by_name generated.spec.pod "controller" ≡ some g
    → let r = restore_containers "controller" generated (u, d) in
      sync_control_plane is_set opts r (get_pod_container_by_name r.1.spec.pod "controller")
        ≡ ok (false, d')
      → (u ≡ false) × (d' ≡ d)
after_refresh_same is_set opts u d generated d' h e =
    let r = restore_containers "controller" generated (u, d) in
    let (c, has, kept) = restore_containers_lem "controller" generated u d h in
    let (down, same) = sync_control_plane_same is_set opts r.0 r.1 d' has (rw has at e) in
    let (down', restored) = restore_same "controller" generated u d down in
    (down', same ∙ ap (λ (x : Bool × Deployment). x.1) restored)

bring_control_plane_stable :
    (is_set : Bool) (opts : DeploymentOptions) (d generated : Deployment)
    → refresh d generated ≡ ok (false, d)
    → IsSynced is_set opts d
    → bring_control_plane_deployment is_set opts d generated ≡ ok (false, d)
unfolding bring_control_plane_deployment
bring_control_plane_stable is_set opts d generated fresh ((c, has, env, from), scaled) =
    rw (fresh, restore_containers_stable "controller" generated d has, has)
      (sync_control_plane_stable is_set opts d has env from scaled)

-- For an existing Deployment that has labels, and a generated one whose labels have distinct keys
-- and that has the controller's container, ensureDeploymentForControlPlane neither fails nor
-- panics on the way to the update: the Deployment it makes has a controller container with the
-- environment of the ControlPlane, has 0 replicas exactly if no DataPlane is set, and is not
-- changed again by a second run. The flag by which it is written is false exactly if the Deployment
-- is the existing one: a Deployment that differs is always written, and one that does not never.
pub bring_control_plane_deployment_converges :
    (is_set : Bool) (opts : DeploymentOptions) (existing generated : Deployment) {labels : Labels}
    {g : Container}
    → existing.meta.labels ≡ some labels
    → UniqueKeys (entries generated.meta.labels)
    → get_pod_container_by_name generated.spec.pod "controller" ≡ some g
    → (updated : Bool) × (d : Deployment) × (bring_control_plane_deployment is_set opts existing
          generated
        ≡ ok (updated, d))
      × ((updated ≡ false) ↔ (d ≡ existing))
      × IsSynced is_set opts d
      × (bring_control_plane_deployment is_set opts d generated ≡ ok (false, d))
bring_control_plane_deployment_converges is_set opts existing generated hl hk hg =
    let (u, m, eq, kept, again) = refresh_lem existing generated hl hk in
    let refreshed = record existing { meta = m } in
    let (updated, d, run, same, synced) = after_refresh is_set opts u refreshed generated hg in
    let first : bring_control_plane_deployment is_set opts existing generated ≡ ok (updated, d) =
      unfold bring_control_plane_deployment in rw eq run in
    let second = bring_control_plane_stable is_set opts d generated (again d same) synced in
    (
      updated,
      d,
      first,
      (
        λ down.
            let (down', e) =
              after_refresh_same is_set opts u refreshed generated d hg
                (run ∙ ap (λ b. ok (b, d)) down) in
            e ∙ ap (λ x. record existing { meta = x }) (kept down'),
        λ e.
            (ok-pair updated false d d (
              sym first
              ∙ ap (λ x. bring_control_plane_deployment is_set opts x generated) (sym e)
              ∙ second)).0,
      ),
      synced,
      second,
    )
