-- ===== src/Controllers/ControlPlane/Stages.antt =====
-- The order in which a run brings the objects of a ControlPlane up.
use apisix_operator.Prelude.{
  ◌≡◌, refl, ap, sym, ◌∙◌, arith, Bool, true, false, inl, inr, if◌then◌else◌,
}
use mathlib.Core.Path.{subst}
use apisix_operator.Errors.{Result, ok}
use apisix_operator.Errors.Calls.{Exec, pure, ◌>>=◌, branch_inv}
use apisix_operator.Api.Types.{ControlPlane}
use apisix_operator.Resources.Objects.{
  Deployment, ServiceAccount, ClusterRole, ClusterRoleBinding, Secret,
}
use apisix_operator.Controllers.ControlPlane.{
  Outcome, finished, requeue_without_backoff, requeue_after, Reconciler,
}
use apisix_operator.Controllers.ControlPlane.Ensure.{
  ensure_service_account_for_control_plane, ensure_cluster_role_for_control_plane,
  ensure_cluster_role_binding_for_control_plane, ensure_certificate,
  ensure_deployment_for_control_plane,
}
use apisix_operator.Controllers.ControlPlane.Reconcile.{finish_status, mark_provisioned, provision}

module _ {S P C V : Type 0} (r : Reconciler S P C V) (c : ControlPlane) where
  -- The calls that must have found everything in place before a stage begins, from one state to
  -- another.
  abbrev pub AccountInPlace : S → ServiceAccount → S → Type 0
  AccountInPlace s account t =
      ensure_service_account_for_control_plane r c s ≡ (ok (false, account), t)

  abbrev pub RoleInPlace : S → ServiceAccount → ClusterRole → S → Type 0
  RoleInPlace s account role t =
      (u : S) × AccountInPlace s account u
      × (ensure_cluster_role_for_control_plane r c u ≡ (ok (false, role), t))

  abbrev pub BindingInPlace : S → ServiceAccount → S → Type 0
  BindingInPlace s account t =
      (role : ClusterRole) × (binding : ClusterRoleBinding) × (u : S) × RoleInPlace s account role u
      × (ensure_cluster_role_binding_for_control_plane r c account.meta.name role.meta.name u
          ≡ (ok (false, binding), t))

  abbrev pub SecretInPlace : S → ServiceAccount → Secret → S → Type 0
  SecretInPlace s account secret t =
      (u : S) × BindingInPlace s account u × (ensure_certificate r c u ≡ (ok (false, secret), t))

  -- The stages at which a run ends: one object was created or changed after all before it were in
  -- place, or all are in place.
  pub data Ends (is_set : Bool) (s : S) : Outcome → S → Type 0 where
    at_account :
        (account : ServiceAccount) (t : S)
        → ensure_service_account_for_control_plane r c s ≡ (ok (true, account), t)
        → Ends is_set s finished t
    at_role :
        (account : ServiceAccount) (role : ClusterRole) (u t : S)
        → AccountInPlace s account u
        → ensure_cluster_role_for_control_plane r c u ≡ (ok (true, role), t)
        → Ends is_set s finished t
    at_binding :
        (account : ServiceAccount) (role : ClusterRole) (binding : ClusterRoleBinding) (u t : S)
        → RoleInPlace s account role u
        → ensure_cluster_role_binding_for_control_plane r c account.meta.name role.meta.name u
          ≡ (ok (true, binding), t)
        → Ends is_set s finished t
    at_secret :
        (account : ServiceAccount) (secret : Secret) (u t : S)
        → BindingInPlace s account u
        → ensure_certificate r c u ≡ (ok (true, secret), t)
        → Ends is_set s finished t
    at_deployment :
        (account : ServiceAccount) (secret : Secret) (deployment : Deployment) (u t : S)
        {o : Outcome} {t' : S}
        → SecretInPlace s account secret u
        → ensure_deployment_for_control_plane r c account.meta.name secret.meta.name u
          ≡ (ok (true, deployment), t)
        → (if is_set then pure finished else finish_status r c) t ≡ (ok o, t')
        → Ends is_set s o t'
    in_place :
        (account : ServiceAccount) (secret : Secret) (deployment : Deployment) (u t : S)
        {o : Outcome} {t' : S}
        → SecretInPlace s account secret u
        → ensure_deployment_for_control_plane r c account.meta.name secret.meta.name u
          ≡ (ok (false, deployment), t)
        → mark_provisioned r deployment c t ≡ (ok o, t')
        → Ends is_set s o t'

  -- The continuations of `provision`.
  from_deployment : Bool → ServiceAccount → Secret → Exec S Outcome
  from_deployment is_set account secret = do
    (deployment_changed, deployment) ←
        ensure_deployment_for_control_plane r c account.meta.name secret.meta.name
    (if deployment_changed
        then (if is_set then pure finished else finish_status r c)
        else mark_provisioned r deployment c)

  from_secret : Bool → ServiceAccount → Exec S Outcome
  unfolding from_deployment
  from_secret is_set account = do
    (secret_created, secret) ← ensure_certificate r c
    (if secret_created then pure finished else from_deployment is_set account secret)

  from_binding : Bool → ServiceAccount → ClusterRole → Exec S Outcome
  unfolding from_secret
  from_binding is_set account role = do
    (binding_changed, binding) ←
        ensure_cluster_role_binding_for_control_plane r c account.meta.name role.meta.name
    (if binding_changed then pure finished else from_secret is_set account)

  from_role : Bool → ServiceAccount → Exec S Outcome
  unfolding from_binding
  from_role is_set account = do
    (role_changed, role) ← ensure_cluster_role_for_control_plane r c
    (if role_changed then pure finished else from_binding is_set account role)

  provision_lem :
      (is_set : Bool) (s : S)
      → provision r is_set c s
        ≡ (do
          (account_changed, account) ← ensure_service_account_for_control_plane r c
          (if account_changed then pure finished else from_role is_set account))
            s
  unfolding provision from_role from_binding from_secret from_deployment
  provision_lem is_set s = refl

  finished-Ends :
      (is_set : Bool) (s t t' : S) (o : Outcome)
      → Ends is_set s finished t
      → pure finished t ≡ (ok o, t')
      → Ends is_set s o t'
  finished-Ends is_set s t t' finished h e =
      subst (λ x. Ends is_set s finished x) (ap (λ (x : Result Outcome × S). x.1) e) h
  finished-Ends is_set s t t' requeue_without_backoff h e = ground arith
  finished-Ends is_set s t t' (requeue_after d) h e = ground arith

  deployment-Ends :
      (is_set : Bool) (s u : S) (account : ServiceAccount) (secret : Secret) (o : Outcome) (t' : S)
      → SecretInPlace s account secret u
      → from_deployment is_set account secret u ≡ (ok o, t')
      → Ends is_set s o t'
  unfolding from_deployment
  deployment-Ends is_set s u account secret o t' before h =
      elim (branch_inv (ensure_deployment_for_control_plane r c account.meta.name secret.meta.name)
        (λ _. if is_set then pure finished else finish_status r c) (λ d. mark_provisioned r d c) u
        h) [
          | inl (x, t, e, k) ↦ at_deployment account secret x u t before e k
          | inr (x, t, e, k) ↦ in_place account secret x u t before e k
        ]

  secret-Ends :
      (is_set : Bool) (s u : S) (account : ServiceAccount) (o : Outcome) (t' : S)
      → BindingInPlace s account u
      → from_secret is_set account u ≡ (ok o, t')
      → Ends is_set s o t'
  unfolding from_secret
  secret-Ends is_set s u account o t' before h =
      elim (branch_inv (ensure_certificate r c) (λ _. pure finished)
        (from_deployment is_set account) u h) [
          | inl (x, t, e, k) ↦ finished-Ends is_set s t t' o (at_secret account x u t before e) k
          | inr (x, t, e, k) ↦ deployment-Ends is_set s t account x o t' (u, before, e) k
        ]

  binding-Ends :
      (is_set : Bool) (s u : S) (account : ServiceAccount) (role : ClusterRole) (o : Outcome)
      (t' : S)
      → RoleInPlace s account role u
      → from_binding is_set account role u ≡ (ok o, t')
      → Ends is_set s o t'
  unfolding from_binding
  binding-Ends is_set s u account role o t' before h =
      elim (branch_inv
        (ensure_cluster_role_binding_for_control_plane r c account.meta.name role.meta.name)
        (λ _. pure finished) (λ _. from_secret is_set account) u h) [
          | inl (x, t, e, k) ↦
              finished-Ends is_set s t t' o (at_binding account role x u t before e) k
          | inr (x, t, e, k) ↦ secret-Ends is_set s t account o t' (role, x, u, before, e) k
        ]

  role-Ends :
      (is_set : Bool) (s u : S) (account : ServiceAccount) (o : Outcome) (t' : S)
      → AccountInPlace s account u
      → from_role is_set account u ≡ (ok o, t')
      → Ends is_set s o t'
  unfolding from_role
  role-Ends is_set s u account o t' before h =
      elim (branch_inv (ensure_cluster_role_for_control_plane r c) (λ _. pure finished)
        (from_binding is_set account) u h) [
          | inl (x, t, e, k) ↦ finished-Ends is_set s t t' o (at_role account x u t before e) k
          | inr (x, t, e, k) ↦ binding-Ends is_set s t account x o t' (u, before, e) k
        ]

  -- A run of the part of Reconcile that brings the objects up, if it does not fail, ends at one of
  -- six stages: its first call reports that it created or changed the ServiceAccount; or, each
  -- after all calls before it reported no change, a call reports that it created or changed the
  -- ClusterRole, the ClusterRoleBinding, the Secret of the certificate or the Deployment; or no
  -- call reports a change, and the run ends as `mark_provisioned` does for the Deployment. At
  -- the first four stages the run is over without a requeue, in the state that the call left.
  pub provision-Ends :
      (is_set : Bool) (s : S) {o : Outcome} {t' : S}
      → provision r is_set c s ≡ (ok o, t')
      → Ends is_set s o t'
  provision-Ends is_set s {o} {t'} h =
      elim (branch_inv (ensure_service_account_for_control_plane r c) (λ _. pure finished)
        (from_role is_set) s (sym (provision_lem is_set s) ∙ h)) [
          | inl (x, t, e, k) ↦ finished-Ends is_set s t t' o (at_account x t e) k
          | inr (x, t, e, k) ↦ role-Ends is_set s t x o t' e k
        ]
