-- ===== src/Config/Defaults.antt =====
-- What the default environment adds.
use apisix_operator.Prelude.{
  String, ◌≡◌, refl, sym, ap, ◌∙◌, arith, Bool, true, not, none, List, [], ◌∷◌, ◌++◌, keep, any,
  all, map, Perm, keep-Perm, any-Perm, any-append_one, Bool-cases, inl, inr, if◌then◌else◌, ◌==◌,
  ==_refl, string_eq,
}
use mathlib.Core.List
use apisix_operator.Prelude.Dict
use apisix_operator.Api.Env.{EnvVar}
use apisix_operator.Api.Types.{DataPlaneDeploymentOptions}
use apisix_operator.Env.{is_env_var_present}
use apisix_operator.Kubernetes.Metadata.Update.{UniqueKeys}
use apisix_operator.Config.{
  apisix_defaults, default_var, less, add_defaults, set_data_plane_defaults,
}

-- The defaults whose names an environment does not have.
abbrev pub missing : List (String × String) → List EnvVar → List EnvVar
unfolding keep
missing order env =
    map default_var (keep (λ entry. not (is_env_var_present (default_var entry) env)) order)

-- A default that is appended is missing no more; the others are missing as before.
missing-append :
    (order : List (String × String)) (env : List EnvVar) (entry : String × String)
    → Dict.lookup entry.0 order ≡ none
    → missing order (env ++ default_var entry ∷ []) ≡ missing order env
unfolding keep is_env_var_present Dict.lookup any
missing-append [] env entry h = refl
missing-append ((k, v) ∷ order) env entry h = ground (
  arith,
  any-append_one (λ w. k == w.name) env (default_var entry),
  missing-append order env entry,
)

add_defaults_lem :
    (order : List (String × String)) (env : List EnvVar)
    → UniqueKeys order
    → add_defaults order env ≡ env ++ missing order env
unfolding add_defaults keep
add_defaults_lem [] env u = sym (List.append-nil env)
add_defaults_lem ((k, v) ∷ order) env (fresh, u) =
    let e = default_var (k, v) in
    elim (Bool-cases (is_env_var_present e env)) [
      | inl b ↦ rw b (add_defaults_lem order env u)
      | inr b ↦ rw b (
          add_defaults_lem order (env ++ e ∷ []) u
          ∙ ap (λ rest. (env ++ e ∷ []) ++ rest) (missing-append order env (k, v) fresh)
          ∙ List.append_assoc env (e ∷ []) (missing order env))
    ]

-- Whatever the order of the map, the same defaults are missing.
missing-Perm :
    {order order' : List (String × String)} (env : List EnvVar)
    → Perm order order'
    → Perm (missing order env) (missing order' env)
unfolding missing keep
missing-Perm env h =
    List.Perm.map default_var
      (keep-Perm (λ entry. not (is_env_var_present (default_var entry) env)) h)

-- The names of some defaults are all in an environment.
abbrev pub all_present : List (String × String) → List EnvVar → Bool
unfolding all
all_present order env = all (λ entry. is_env_var_present (default_var entry) env) order

missing-none :
    (order : List (String × String)) (env : List EnvVar)
    → all_present order env ≡ true
    → missing order env ≡ []
unfolding keep all
missing-none [] env h = refl
missing-none (entry ∷ order) env h = ground (arith, missing-none order env)

-- The loop takes no name away.
present-add_defaults :
    (v : EnvVar) (order : List (String × String)) (env : List EnvVar)
    → is_env_var_present v env ≡ true
    → is_env_var_present v (add_defaults order env) ≡ true
unfolding add_defaults is_env_var_present
present-add_defaults v [] env h = h
present-add_defaults v (entry ∷ order) env h =
    let more = env ++ default_var entry ∷ [] in
    let still : is_env_var_present v more ≡ true =
      any-append_one (λ w. v.name == w.name) env (default_var entry) ∙ ground arith in
    elim (Bool-cases (is_env_var_present (default_var entry) env)) [
      | inl b ↦ rw b (present-add_defaults v order env h)
      | inr b ↦ rw b (present-add_defaults v order more still)
    ]

present_after :
    (entry : String × String) (order : List (String × String)) (env : List EnvVar)
    → is_env_var_present (default_var entry) (add_defaults (entry ∷ order) env) ≡ true
unfolding add_defaults is_env_var_present
present_after entry order env =
    let v = default_var entry in
    let last : is_env_var_present v (env ++ v ∷ []) ≡ true =
      any-append_one (λ w. v.name == w.name) env v ∙ ground (arith, ==_refl v.name) in
    elim (Bool-cases (is_env_var_present v env)) [
      | inl b ↦ rw b (present-add_defaults v order env b)
      | inr b ↦ rw b (present-add_defaults v order (env ++ v ∷ []) last)
    ]

add_defaults-all_present :
    (order : List (String × String)) (env : List EnvVar)
    → all_present order (add_defaults order env) ≡ true
unfolding all add_defaults
add_defaults-all_present [] env = refl
add_defaults-all_present (entry ∷ order) env =
    let absent = not (is_env_var_present (default_var entry) env) in
    let more = if absent then env ++ default_var entry ∷ [] else env in
    rw (present_after entry order env) (add_defaults-all_present order more)

all_present-Perm :
    (order : List (String × String)) {env env' : List EnvVar}
    → Perm env env'
    → all_present order env ≡ all_present order env'
unfolding all is_env_var_present
all_present-Perm [] h = refl
all_present-Perm (entry ∷ order) h =
    ground (arith, any-Perm (λ w. entry.0 == w.name) h, all_present-Perm order h)

module _ (sort : (EnvVar → EnvVar → Bool) → List EnvVar → List EnvVar)
    (sort-Perm : (lt : EnvVar → EnvVar → Bool) (xs : List EnvVar) → Perm (sort lt xs) xs)
    (order : List (String × String)) (order-Perm : Perm order apisix_defaults)
    (order-UniqueKeys : UniqueKeys order) where
  result-Perm :
      (spec : DataPlaneDeploymentOptions)
      → let env = spec.deployment_options.env in
        let result = set_data_plane_defaults sort order spec in
        Perm result.deployment_options.env (env ++ missing apisix_defaults env)
  unfolding set_data_plane_defaults
  result-Perm spec =
      let env = spec.deployment_options.env in
      List.Perm.trans (sort-Perm less (add_defaults order env)) (
        rw (add_defaults_lem order env order-UniqueKeys)
          (List.Perm.append_left env (missing-Perm env order-Perm)))

  result-all_present :
      (spec : DataPlaneDeploymentOptions)
      → let result = set_data_plane_defaults sort order spec in
        all_present order result.deployment_options.env ≡ true
  unfolding set_data_plane_defaults
  result-all_present spec =
      let env = add_defaults order spec.deployment_options.env in
      all_present-Perm order (sort-Perm less env)
      ∙ add_defaults-all_present order spec.deployment_options.env

  -- For a sort that permutes, and an order of the map that lists each default once, the environment
  -- afterwards holds, up to order, the variables that it had and a variable for each default whose
  -- name it did not have, whatever the order of the map. Every default has its name there, and a
  -- second run adds nothing.
  pub set_data_plane_defaults-Perm :
      (spec : DataPlaneDeploymentOptions)
      → let env = spec.deployment_options.env in
        let result = set_data_plane_defaults sort order spec in
        Perm result.deployment_options.env (env ++ missing apisix_defaults env)
        × (all_present order result.deployment_options.env ≡ true)
        × ((set_data_plane_defaults sort order result).deployment_options.env
            ≡ sort less result.deployment_options.env)
  set_data_plane_defaults-Perm spec =
      let result = set_data_plane_defaults sort order spec in
      let env = result.deployment_options.env in
      let present = result-all_present spec in
      (
        result-Perm spec,
        present,
        unfold set_data_plane_defaults in
            ap (sort less) (
              add_defaults_lem order env order-UniqueKeys
              ∙ ap (λ rest. env ++ rest) (missing-none order env present)
              ∙ List.append-nil env),
      )
