-- ===== src/Tests/Config.antt =====
-- The theorem on the default environment of a DataPlane at a concrete one.
use apisix_operator.Prelude.{
  ◌≡◌, refl, Bool, true, Bool-cases, inl, inr, if◌then◌else◌, List, [], ◌∷◌, ◌++◌, Perm,
  String-discrete,
}
use mathlib.Core.List
use apisix_operator.Prelude.Dict
use apisix_operator.Api.Env.{EnvVar}
use apisix_operator.Api.Types.{DataPlaneDeploymentOptions}
use apisix_operator.Kubernetes.Metadata.Update.{UniqueKeys}
use apisix_operator.Config.{apisix_defaults, less, set_data_plane_defaults}
use apisix_operator.Config.Defaults.{missing, all_present, set_data_plane_defaults-Perm}
use apisix_operator.Tests.Data.{literal, no_options}

-- A sort by insertion.
insert : (EnvVar → EnvVar → Bool) → EnvVar → List EnvVar → List EnvVar
insert lt v [] = v ∷ []
insert lt v (w ∷ ws) = let rest = insert lt v ws in if lt v w then v ∷ w ∷ ws else w ∷ rest

sorted : (EnvVar → EnvVar → Bool) → List EnvVar → List EnvVar
unfolding insert
sorted lt [] = []
sorted lt (v ∷ vs) = insert lt v (sorted lt vs)

insert-Perm :
    (lt : EnvVar → EnvVar → Bool) (v : EnvVar) (ws : List EnvVar) → Perm (insert lt v ws) (v ∷ ws)
unfolding insert
insert-Perm lt v [] = List.Perm.refl (v ∷ [])
insert-Perm lt v (w ∷ ws) = elim (Bool-cases (lt v w)) [
  | inl b ↦ rw b (List.Perm.refl (v ∷ w ∷ ws))
  | inr b ↦ rw b (List.Perm.trans (List.Perm.cons w (insert-Perm lt v ws)) (List.Perm.swap v w ws))
]

sorted-Perm : (lt : EnvVar → EnvVar → Bool) (vs : List EnvVar) → Perm (sorted lt vs) vs
unfolding sorted
sorted-Perm lt [] = List.Perm.nil
sorted-Perm lt (v ∷ vs) =
    List.Perm.trans (insert-Perm lt v (sorted lt vs)) (List.Perm.cons v (sorted-Perm lt vs))

defaults-UniqueKeys : UniqueKeys apisix_defaults
unfolding Dict.lookup String-discrete
defaults-UniqueKeys = (
  refl,
  (
    refl,
    (
      refl,
      (
        refl,
        (
          refl,
          (
            refl,
            (
              refl,
              (
                refl,
                (
                  refl,
                  (
                    refl,
                    (
                      refl,
                      (
                        refl,
                        (refl, (refl, (refl, (refl, (refl, (refl, (refl, (refl, (refl, tt))))))))),
                      ),
                    ),
                  ),
                ),
              ),
            ),
          ),
        ),
      ),
    ),
  ),
)

abbrev two_vars : DataPlaneDeploymentOptions
two_vars = record {
  deployment_options = record no_options {
    env = literal "APISIX_DATABASE" "postgres" ∷ literal "OTHER" "x" ∷ [];
  };
}

set_data_plane_defaults-Perm_example :
    let env = two_vars.deployment_options.env in
    let result = set_data_plane_defaults sorted apisix_defaults two_vars in
    Perm result.deployment_options.env (env ++ missing apisix_defaults env)
    × (all_present apisix_defaults result.deployment_options.env ≡ true)
    × ((set_data_plane_defaults sorted apisix_defaults result).deployment_options.env
        ≡ sorted less result.deployment_options.env)
set_data_plane_defaults-Perm_example =
    set_data_plane_defaults-Perm sorted sorted-Perm apisix_defaults (List.Perm.refl apisix_defaults)
      defaults-UniqueKeys two_vars
