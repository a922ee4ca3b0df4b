-- ===== src/Controllers/Deployments/Sync/Steps.antt =====
-- What each step of the update of a Deployment does to its container and its replicas.
use apisix_operator.Prelude.{
  Option-cases, inl, inr, ℕ, String, ◌≡◌, ◌≢◌, refl, arith, Bool, true, false, Option, none, some,
  List, [], ◌∷◌, find, ◌==◌, ==_refl, string_eq, nat_eq,
}
use apisix_operator.Api.Env.{DeploymentOptions, env_var_eq, env_from_source_eq}
use apisix_operator.Resources.Objects.{Container, Deployment, deployment_object}
use apisix_operator.Resources.Generators.{get_pod_container_by_name}
use apisix_operator.Controllers.Deployments.{
  set_container, restore_containers, scale, sync_env, sync_env_from,
}

abbrev pub find_container : String → List Container → Option Container
find_container name = find (λ c. c.name == name)

pub find_container-name :
    (name : String) (cs : List Container) {c : Container}
    → find_container name cs ≡ some c
    → c.name ≡ name
unfolding find
find_container-name name [] {c} h = ground arith
find_container-name name (d ∷ cs) {c} h = ground (arith, find_container-name name cs {c = c})

pub find_container-set_container :
    (name k : String) (cs : List Container) (c : Container) {old : Container}
    → k ≡ name
    → c.name ≡ name
    → find_container name cs ≡ some old
    → find_container name (set_container k c cs) ≡ some c
unfolding find set_container
find_container-set_container name k [] c ek e h = ground arith
find_container-set_container name k (d ∷ cs) c {old} ek e h =
    ground (arith, ==_refl name, find_container-set_container name k cs c {old = old} ek e)

pub set_container_self :
    (name k : String) (cs : List Container) {c : Container}
    → k ≡ name
    → find_container name cs ≡ some c
    → set_container k c cs ≡ cs
unfolding find set_container
set_container_self name k [] ek h = refl
set_container_self name k (d ∷ cs) {c} ek h =
    ground (arith, set_container_self name k cs {c = c} ek)

-- The container of a name exists and has the environment of the options.
abbrev pub HasEnvOf : DeploymentOptions → String → Deployment → Type 0
HasEnvOf opts name d =
    (c : Container) × (get_pod_container_by_name d.spec.pod name ≡ some c)
    × (c.env ≡ opts.env)
    × (c.env_from ≡ opts.env_from)

-- There are no replicas exactly if no DataPlane is set.
abbrev pub IsScaled : Bool → Deployment → Type 0
IsScaled is_set d =
    (is_set ≡ false → d.spec.replicas ≡ some 0) × (is_set ≡ true → d.spec.replicas ≢ some 0)

pub scale_lem :
    (is_set : Bool) (opts : DeploymentOptions) (u : Bool) (n : Option ℕ) (c : Container)
    → let r = scale is_set opts (u, n, c) in
      (is_set ≡ false → r.1 ≡ some 0) × (is_set ≡ true → r.1 ≢ some 0) × (r.2.name ≡ c.name)
unfolding scale
scale_lem true opts u none c = ground arith
scale_lem true opts u (some n) c = ground arith
scale_lem false opts u none c = ground arith
scale_lem false opts u (some n) c = ground arith

pub sync_lem :
    (opts : DeploymentOptions) (u : Bool) (c : Container)
    → let r = sync_env_from opts (sync_env opts (u, c)) in
      (r.1.env ≡ opts.env) × (r.1.env_from ≡ opts.env_from) × (r.1.name ≡ c.name)
unfolding sync_env sync_env_from
sync_lem opts u c = ground arith

pub scale_stable :
    (is_set : Bool) (opts : DeploymentOptions) (n : Option ℕ) (c : Container)
    → (is_set ≡ false → n ≡ some 0) × (is_set ≡ true → n ≢ some 0)
    → scale is_set opts (false, n, c) ≡ (false, n, c)
unfolding scale
scale_stable true opts none c h = refl
scale_stable true opts (some n) c h = ground arith
scale_stable false opts none c h = ground arith
scale_stable false opts (some n) c h = ground arith

pub sync_stable :
    (opts : DeploymentOptions) (c : Container)
    → c.env ≡ opts.env
    → c.env_from ≡ opts.env_from
    → sync_env_from opts (sync_env opts (false, c)) ≡ (false, c)
unfolding sync_env sync_env_from
sync_stable opts c e f = ground arith

-- A step that leaves the flag down got it down, and changed nothing.
pub scale_same :
    (is_set : Bool) (opts : DeploymentOptions) (u : Bool) (n : Option ℕ) (c : Container)
    → (scale is_set opts (u, n, c)).0 ≡ false
    → (u ≡ false) × (scale is_set opts (u, n, c) ≡ (false, n, c))
unfolding scale
scale_same true opts u none c h = ground arith
scale_same true opts u (some n) c h = ground arith
scale_same false opts u none c h = ground arith
scale_same false opts u (some n) c h = ground arith

pub sync_same :
    (opts : DeploymentOptions) (u : Bool) (c : Container)
    → (sync_env_from opts (sync_env opts (u, c))).0 ≡ false
    → (u ≡ false) × (sync_env_from opts (sync_env opts (u, c)) ≡ (false, c))
unfolding sync_env sync_env_from
sync_same opts u c h = ground arith

pub restore_same :
    (name : String) (generated : Deployment) (u : Bool) (d : Deployment)
    → (restore_containers name generated (u, d)).0 ≡ false
    → (u ≡ false) × (restore_containers name generated (u, d) ≡ (false, d))
unfolding restore_containers
restore_same name generated u d h =
    elim (Option-cases (get_pod_container_by_name d.spec.pod name)) [
      | inl e ↦ ground arith
      | inr (c, e) ↦ ground arith
    ]
