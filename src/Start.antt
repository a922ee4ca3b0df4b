-- ===== src/Start.antt =====
-- main.go: what the operator starts. Flags and logging are left out; controller-runtime's manager
-- is a parameter.
pub mod Certificates
pub mod Stages
use apisix_operator.Prelude.{ℕ, String}
use apisix_operator.Errors.{Result, ok, err}
use apisix_operator.Errors.Calls.{Exec}
use apisix_operator.Api.Types.{ControlPlane, DataPlane}
use apisix_operator.Resources.Roles.Choice.{Semver}
use apisix_operator.Client.{Client}
use apisix_operator.Controllers.Certificates.{Crypto}
use apisix_operator.Controllers.ControlPlane.{Reconciler}

pub data Controller : Type 0 where
  apisix_configuration_controller data_plane_controller control_plane_controller : Controller

-- The calls of controller-runtime; `setup` is the `SetupWithManager` of a reconciler.
pub record Manager (S : Type 0) : Type 0 where
  pub new_manager : Exec S (Unit {0})
  pub setup : Controller → Exec S (Unit {0})
  pub add_healthz_check : String → Exec S (Unit {0})
  pub add_readyz_check : String → Exec S (Unit {0})
  pub start : Exec S (Unit {0})

-- `if err != nil { os.Exit(1) }` and what follows.
exit_or : {S : Type 0} → (S → ℕ × S) → Result (Unit {0}) × S → ℕ × S
exit_or next (ok _, s) = next s
exit_or next (err e, s) = (1, s)

-- The exit status of the program; 0 is that of a return from `main`.
unfoldable pub main : {S : Type 0} → Manager S → S → ℕ × S
unfolding exit_or
main manager s =
    exit_or
      (λ s.
        exit_or
          (λ s.
            exit_or
              (λ s.
                exit_or
                  (λ s.
                    exit_or
                      (λ s.
                        exit_or (λ s. exit_or (λ s. (0, s)) (manager.start s))
                          (manager.add_readyz_check "readyz" s))
                      (manager.add_healthz_check "healthz" s))
                  (manager.setup control_plane_controller s))
              (manager.setup data_plane_controller s))
          (manager.setup apisix_configuration_controller s))
      (manager.new_manager s)

module _ {S P C V : Type 0} (client : Client S) (crypto : Crypto S P C) (semver : Semver V)
    (set_owner_reference : ControlPlane → DataPlane → Result DataPlane) where
  -- The reconcilers that are set up: only the client and the scheme are given, the other fields
  -- have their zero values.
  abbrev pub started_reconciler : Reconciler S P C V
  started_reconciler = record {
    client = client;
    crypto = crypto;
    semver = semver;
    set_owner_reference = set_owner_reference;
    cluster_ca_secret_name = "";
    cluster_ca_secret_namespace = "";
  }
