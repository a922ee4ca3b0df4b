-- ===== src/Tests/Stages.antt =====
-- The theorems on the stages of a ControlPlane at one of them.
use apisix_operator.Prelude.{ℕ, String, some, [], ◌∷◌}
use apisix_operator.Prelude.Dict
use apisix_operator.Api.Types.{ControlPlane}
use apisix_operator.Resources.Objects.{service_account_object, cluster_role_object}
use apisix_operator.Resources.Generators.{generate_new_service_account_for_control_plane}
use apisix_operator.Controllers.Owned.{mark_for_control_plane}
use apisix_operator.Controllers.ControlPlane.{Reconciler}
use apisix_operator.Tests.Data.{a_meta, a_kind, no_options, a_control_plane}
use apisix_operator.Client.{Client}
use apisix_operator.Resources.Objects.{secret_object}
use apisix_operator.Tests.Start.{refusing}
use apisix_operator.Tests.Server.{reconciler, server, kind_of, a_service_account}

abbrev with_image : ControlPlane
with_image = record (a_control_plane []) {
  spec = record ((a_control_plane []).spec) {
    deployment = record {
      deployment_options = record no_options { container_image = some "controller:2.3" };
      dataplane = some "dp";
    };
  };
}

-- A server that has the ServiceAccount, and nothing else.
abbrev with_account : Reconciler ℕ String ℕ ℕ
with_account = record reconciler {
  client = record server {
    service_accounts =
        kind_of
          (mark_for_control_plane a_kind a_meta
              (generate_new_service_account_for_control_plane "prod" "cp")
            ∷ [])
          a_service_account;
  };
}

-- The server of `refusing` that has the ServiceAccount.
abbrev refusing_with_account : Client ℕ
refusing_with_account = record refusing { service_accounts = with_account.client.service_accounts }
