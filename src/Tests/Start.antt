-- ===== src/Tests/Start.antt =====
-- The theorems on the start of the operator and on sequences of status writes at concrete objects.
use apisix_operator.Prelude.{
  ℕ, refl, ◌==◌, List, [], ◌∷◌, if◌then◌else◌, keep, find, string_eq, String-discrete,
}
use apisix_operator.Errors.{ok, err, message}
use apisix_operator.Api.Meta.{condition_false, condition_true}
use apisix_operator.Api.Types.{DataPlane, data_plane_conditions}
use apisix_operator.Client.{Client}
use apisix_operator.Kubernetes.Status.Evolution.{
  EvolvesAll, Write, set_one, mark_ready, mark_unready, view, apply_all, apply_all-EvolvesAll,
}
use apisix_operator.Kubernetes.Status.Laws.{UniqueTypes}
use apisix_operator.Controllers.Certificates.{get_managed_label_for_owner}
use apisix_operator.Controllers.ControlPlane.Ensure
use apisix_operator.Controllers.DataPlane
use apisix_operator.Start.{started_reconciler}
use apisix_operator.Start.Certificates.{Fails, RefusesNoName, started-Fails}
use apisix_operator.Client.Lists.{list_secrets_for_owner, list_for_owner, owned_by}
use apisix_operator.Resources.Objects.{secret_object}
use apisix_operator.Tests.Data.{condition, a_control_plane, a_data_plane, no_options}
use apisix_operator.Tests.Server.{server, crypto, semver, kind_of, a_secret}

-- A server that refuses requests without a name.
abbrev pub refusing : Client ℕ
refusing = record server {
  secrets = record (kind_of [] a_secret) {
    get = λ key s.
        (if key.name == "" then err (message "resource name may not be empty") else ok a_secret, s);
  };
}

pub refusing-RefusesNoName : RefusesNoName refusing
unfolding String-discrete
refusing-RefusesNoName t = (message "resource name may not be empty", refl)

started-Fails_example :
    let r = started_reconciler refusing crypto semver (λ c d. ok d) in
    Fails (Ensure.ensure_certificate r (a_control_plane [])) 0
    × Fails (DataPlane.ensure_certificate r (a_data_plane no_options) "svc") 1
unfolding get_managed_label_for_owner list_secrets_for_owner list_for_owner owned_by keep
started-Fails_example =
    started-Fails refusing crypto semver (λ c d. ok d) refusing-RefusesNoName (a_control_plane [])
      (a_data_plane no_options) "svc" 0 1 refl refl

abbrev one_condition : DataPlane
one_condition =
    data_plane_conditions.set_conditions (condition "Provisioned" condition_true ∷ [])
      (a_data_plane no_options)

abbrev three_writes : List Write
three_writes =
    mark_unready 3 ∷ mark_ready 4 ∷ set_one (condition "Provisioned" condition_false) ∷ []

apply_all-EvolvesAll_example :
    EvolvesAll (view one_condition) three_writes (view (apply_all three_writes one_condition))
    × UniqueTypes (apply_all three_writes one_condition).status.conditions
unfolding find
apply_all-EvolvesAll_example = apply_all-EvolvesAll three_writes one_condition (refl, tt)
