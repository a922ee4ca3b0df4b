-- ===== src/Start/Stages.antt =====
-- How far the reconciler that the operator starts brings a ControlPlane up.
use apisix_operator.Prelude.{◌≡◌, true, [], ◌⊎◌}
use apisix_operator.Errors.{Result, ok}
use apisix_operator.Api.Types.{ControlPlane, DataPlane}
use apisix_operator.Resources.Objects.{ServiceAccount, ClusterRole, ClusterRoleBinding}
use apisix_operator.Resources.Roles.Choice.{Semver}
use apisix_operator.Client.{Client}
use apisix_operator.Client.Lists.{list_secrets_for_owner}
use apisix_operator.Controllers.Certificates.{Crypto, control_plane, get_managed_label_for_owner}
use apisix_operator.Controllers.ControlPlane.{Reconciler}
use apisix_operator.Controllers.ControlPlane.Ensure.{
  ensure_service_account_for_control_plane, ensure_cluster_role_for_control_plane,
  ensure_cluster_role_binding_for_control_plane,
}
use apisix_operator.Controllers.ControlPlane.Stages.{AccountInPlace, RoleInPlace}
use apisix_operator.Start.{started_reconciler}
use apisix_operator.Start.Certificates.{RefusesNoName}

module _ {S P C V : Type 0} (client : Client S) (crypto : Crypto S P C) (semver : Semver V)
    (set_owner_reference : ControlPlane → DataPlane → Result DataPlane)
    (refuses : RefusesNoName client) where
  abbrev r : Reconciler S P C V
  r = started_reconciler client crypto semver set_owner_reference

  -- The last call of a run created or changed the ServiceAccount, the ClusterRole or the
  -- ClusterRoleBinding.
  abbrev pub EndsEarly : ControlPlane → S → S → Type 0
  EndsEarly c s t =
      ((account : ServiceAccount) × (ensure_service_account_for_control_plane r c s
          ≡ (ok (true, account), t)))
      ⊎ ((account : ServiceAccount) × (role : ClusterRole) × (u : S) × AccountInPlace r c s account
            u
          × (ensure_cluster_role_for_control_plane r c u ≡ (ok (true, role), t)))
      ⊎ ((account : ServiceAccount) × (role : ClusterRole) × (binding : ClusterRoleBinding)
          × (u : S) × RoleInPlace r c s account role u
          × (ensure_cluster_role_binding_for_control_plane r c account.meta.name role.meta.name u
              ≡ (ok (true, binding), t)))

  abbrev pub FindsNoSecret : ControlPlane → Type 0
  FindsNoSecret c =
      let (key, value) = get_managed_label_for_owner (control_plane c) in
      (u : S) → (u' : S) × (list_secrets_for_owner client key value c.meta.uid u ≡ (ok [], u'))
