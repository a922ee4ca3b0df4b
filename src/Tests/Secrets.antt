-- ===== src/Tests/Secrets.antt =====
-- The theorem on the lists of generated Secrets at concrete owners.
use apisix_operator.Prelude.{ℕ, zero, suc, ◌≡◌, refl, Option, none, some, List, [], ◌∷◌, ◌++◌, keep}
use apisix_operator.Errors.{ok}
use apisix_operator.Resources.Objects.{Secret, secret_object}
use apisix_operator.Client.{Client, ListOptions}
use apisix_operator.Client.Selection.{selects}
use apisix_operator.Controllers.Certificates.{control_plane, data_plane, generated_secret}
use apisix_operator.Controllers.Certificates.Labels.{listed, generated_secret-listed}
use apisix_operator.Tests.Data.{a_control_plane, a_data_plane, no_options}
use apisix_operator.Tests.Server.{server, kind_of, a_secret}

abbrev of_data_plane : Secret
of_data_plane = generated_secret (data_plane (a_data_plane no_options))

abbrev of_control_plane : Secret
of_control_plane = generated_secret (control_plane (a_control_plane []))

-- Nothing is stored at the time 0, one Secret at the time 1 and the other later.
abbrev stored : ℕ → List Secret
stored zero = []
stored (suc zero) = of_data_plane ∷ []
stored (suc (suc n)) = of_control_plane ∷ []

abbrev selection : Option ListOptions → List Secret → List Secret
selection none items = items
selection (some options) items = keep (selects options) items

abbrev secrets : Client ℕ
secrets = record server {
  secrets = record (kind_of [] a_secret) {
    list = λ options s. (ok (selection options (stored s)), s);
  };
}

generated_secret-listed_example :
    ((found : List Secret) × (listed secrets (data_plane (a_data_plane no_options)) 0
        ≡ (ok found, 0))
      × (listed secrets (data_plane (a_data_plane no_options)) 1
          ≡ (ok (found ++ of_data_plane ∷ []), 1)))
    × ((found : List Secret) × (listed secrets (control_plane (a_control_plane [])) 0
          ≡ (ok found, 0))
        × (listed secrets (control_plane (a_control_plane [])) 2 ≡ (ok found, 2)))
unfolding keep
generated_secret-listed_example =
    generated_secret-listed secrets (a_data_plane no_options) (a_control_plane []) [] of_data_plane
      of_control_plane 0 1 2 (refl, refl) (refl, refl) (λ options. refl) (λ options. refl)
      (λ options. refl)
