-- ===== src/Tests/Controllers.antt =====
-- The theorems on the controllers and the cluster roles at concrete objects.
use mathlib.Core.Option.{or_else}
use apisix_operator.Client.{Kind}
use apisix_operator.Prelude.{
  ℕ, suc, ◌≢◌, ◌+◌, ◌≤◌, ◌<◌, String, String-discrete, ℕ_discrete, ◌≡◌, ◌↔◌, inl, inr, refl, arith,
  Bool, true, false, ◌||◌, some, [], ◌∷◌, if◌then◌else◌, ◌==◌, string_eq, any, find,
}
use apisix_operator.Prelude.Dict
use apisix_operator.Errors.{ok}
use apisix_operator.Api.Meta.{ObjectMeta}
use apisix_operator.Api.Types.{ControlPlane, control_plane_conditions}
use apisix_operator.Kubernetes.Status.{get_condition}
use apisix_operator.Errors.Calls.{pure}
use apisix_operator.Controllers.ControlPlane.{Reconciler}
use apisix_operator.Api.Meta.{condition_false}
use apisix_operator.Kubernetes.Metadata.{entries, has_finalizer}
use apisix_operator.Resources.Objects.{
  Deployment, ServiceAccount, ClusterRole, service_account_object, cluster_role_object,
}
use apisix_operator.Resources.Generators.{
  gateway_operator_controlled_label, control_plane_managed_label_value, get_pod_container_by_name,
}
use apisix_operator.Resources.Roles.Choice.{choose_cluster_role}
use apisix_operator.Resources.Roles.Choice.Versions.{covers, choose_cluster_role-covers}
use apisix_operator.Client.Lists.{owned_by}
use apisix_operator.Controllers.Owned.{mark_for_control_plane, refresh, ensure_one, delete_all}
use apisix_operator.Controllers.Owned.Deletion.{AllHarmless, deletions, delete_all-AllHarmless}
use apisix_operator.Controllers.Owned.Selection.{mark_for_control_plane-owned_by}
use apisix_operator.Controllers.Owned.Convergence.{ensure_one_converges}
use apisix_operator.Controllers.Certificates.{CertificateSigningRequest, sign_certificate, data_at}
use apisix_operator.Controllers.Certificates.Expiry.{sign_certificate-expiry}
use apisix_operator.Controllers.Deployments.{bring_control_plane_deployment}
use apisix_operator.Controllers.Deployments.Sync.{
  IsSynced, bring_control_plane_deployment_converges,
}
use apisix_operator.Controllers.ControlPlane.{
  finished, with_meta, cleanup_cluster_role, cleanup_cluster_role_binding,
}
use apisix_operator.Controllers.ControlPlane.Reconcile.{
  finish_update, reconcile_live, mark_provisioned, or_retry, not_yet_ready,
}
use apisix_operator.Controllers.ControlPlane.Settled.{
  up_conditions, up, mark_provisioned-unwritten, mark_provisioned-written,
}
use apisix_operator.Controllers.ControlPlane.Lifecycle.{reconcile_live-finalizers}
use apisix_operator.Tests.Data.{a_meta, a_kind, no_options, a_control_plane, condition}
use apisix_operator.Tests.Server.{
  kind_of, a_container, a_deployment, a_service_account, a_role, a_secret, server, crypto, semver,
  reconciler,
}

bring_control_plane_deployment_converges_example :
    (updated : Bool) × (d : Deployment) × (bring_control_plane_deployment false no_options
        a_deployment a_deployment
      ≡ ok (updated, d))
    × ((updated ≡ false) ↔ (d ≡ a_deployment))
    × IsSynced false no_options d
    × (bring_control_plane_deployment false no_options d a_deployment ≡ ok (false, d))
unfolding get_pod_container_by_name find String-discrete Dict.lookup
bring_control_plane_deployment_converges_example =
    bring_control_plane_deployment_converges false no_options a_deployment a_deployment
      {g = a_container} refl (refl, tt) refl

delete_all-AllHarmless_example :
    let kind = kind_of [] a_role in
    let done = delete_all kind (a_role ∷ a_role ∷ []) 3 in
    (done.1 ≡ 5) × ((done.0 ≡ ok tt) ↔ AllHarmless (deletions kind (a_role ∷ a_role ∷ []) 3).0)
delete_all-AllHarmless_example = delete_all-AllHarmless (kind_of [] a_role) (a_role ∷ a_role ∷ []) 3

mark_for_control_plane-owned_by_example :
    let marked = mark_for_control_plane a_kind a_meta a_role in
    ((j : String)
      → Dict.lookup j (entries marked.meta.labels) ≡ (
          if gateway_operator_controlled_label == j
          then some control_plane_managed_label_value
          else Dict.lookup j (("app", "x") ∷ [])))
    × (owned_by "u1" (marked ∷ []) ≡ marked ∷ [])
mark_for_control_plane-owned_by_example = mark_for_control_plane-owned_by a_kind a_meta a_role

-- A server that gives an updated object a new resource version.
abbrev newer : ServiceAccount → ServiceAccount
newer a = record a { meta = record (a.meta) { resource_version = "2" } }

abbrev versioning : Kind ℕ ServiceAccount
versioning = record (kind_of [] a_service_account) { update = λ a s. (ok (newer a), suc s) }

abbrev wanted_account : ServiceAccount
wanted_account = record { meta = record a_meta { labels = some (("tier", "y") ∷ []) } }

ensure_one_converges_example :
    let run = ensure_one versioning "serviceAccounts" (ok wanted_account) refresh (λ a. a) in
    (changed : Bool) × (m : ObjectMeta) × ((changed ≡ true) ↔ (m ≢ a_service_account.meta))
    × (m.owner_references ≡ wanted_account.meta.owner_references)
    × ((j : String)
        → Dict.lookup j (entries m.labels)
          ≡ or_else
              (Dict.lookup j (entries wanted_account.meta.labels))
              (Dict.lookup j (("app", "x") ∷ [])))
    × (let a = record a_service_account { meta = m } in
        let b = if changed then newer a else a in
        (run (a_service_account ∷ []) 3 ≡ (ok (changed, b), (if changed then 4 else 3)))
        × ((s' : ℕ) → run (b ∷ []) s' ≡ (ok (false, b), s')))
unfolding Dict.lookup
ensure_one_converges_example =
    ensure_one_converges versioning "serviceAccounts" wanted_account a_service_account (λ a. a) 3
      {answer = λ a s. newer a} {write = λ a s. suc s} (λ a s. (refl, refl, refl)) refl (refl, tt)

abbrev csr : CertificateSigningRequest
csr = record {
  namespace = "prod";
  name = "cp";
  request = "csr";
  signer_name = "";
  expiration_seconds = 315400000;
  usages = "client auth" ∷ [];
}

sign_certificate-expiry_example :
    (key_bytes cert_bytes : String) × (priv : String) × (ca_cert : ℕ) × (now expiry : ℕ)
    × (crypto.decode_pem (data_at a_secret "tls.key") ≡ some key_bytes)
    × (crypto.parse_ec_private_key key_bytes ≡ ok priv)
    × (crypto.decode_pem (data_at a_secret "tls.crt") ≡ some cert_bytes)
    × (crypto.parse_certificate cert_bytes ≡ ok ca_cert)
    × (server.now 3 ≡ (ok now, 3))
    × (now < ca_cert)
    × (expiry ≤ 315400000)
    × (now + expiry ≤ ca_cert)
    × (crypto.sign priv ca_cert (record { usages = csr.usages; expiry = expiry }) "csr" ≡ ok "csr")
unfolding sign_certificate
sign_certificate-expiry_example = sign_certificate-expiry server crypto csr a_secret 3 refl

-- A Deployment whose two replicas are available.
abbrev ready_deployment : Deployment
ready_deployment = record a_deployment { status = record { replicas = 2; available_replicas = 2 } }

-- A server that has the given ControlPlane stored.
abbrev storing : ControlPlane → Reconciler ℕ String ℕ ℕ
storing current = record reconciler {
  client = record server { control_planes = kind_of [] current };
}

abbrev observed : ControlPlane
observed =
    a_control_plane
      (condition "Ready" condition_false ∷ condition "Provisioned" condition_false ∷ [])

mark_provisioned-unwritten_example :
    mark_provisioned (storing (a_control_plane (up_conditions 1 2))) ready_deployment observed 3
    ≡ (ok finished, 3)
unfolding not_yet_ready String-discrete ℕ_discrete
mark_provisioned-unwritten_example =
    mark_provisioned-unwritten (storing (a_control_plane (up_conditions 1 2))) (a_control_plane [])
      observed.status.conditions ready_deployment 1 2 3 {clock = λ s. (5, s)} (λ x. refl)
      (inr refl, (inl refl, tt)) refl

mark_provisioned-written_example :
    (p q : ℕ) × (let (answer, t') =
        (storing observed).client.control_planes.update_status (up p q (a_control_plane [])) 3 in
      mark_provisioned (storing observed) ready_deployment observed 3
      ≡ or_retry (λ _. pure finished) answer t')
unfolding not_yet_ready get_condition find String-discrete ℕ_discrete
mark_provisioned-written_example =
    mark_provisioned-written (storing observed) (a_control_plane []) observed
      observed.status.conditions ready_deployment 3 {clock = λ s. (5, s)} (λ x. refl)
      (inr refl, (inl refl, tt)) refl refl refl (ground arith)

abbrev deleted : ControlPlane
deleted =
    with_meta (a_control_plane [])
      (record a_meta { finalizers = cleanup_cluster_role ∷ cleanup_cluster_role_binding ∷ [] })

reconcile_live-finalizers_example :
    (m : ObjectMeta) × ((g : String)
      → has_finalizer g m.finalizers ≡ (
          has_finalizer g []
          || has_finalizer g (cleanup_cluster_role ∷ cleanup_cluster_role_binding ∷ [])))
    × (reconcile_live reconciler (a_control_plane []) 3
        ≡ finish_update reconciler (with_meta (a_control_plane []) m) 3)
unfolding has_finalizer any
reconcile_live-finalizers_example = reconcile_live-finalizers reconciler (a_control_plane []) 3 refl

choose_cluster_role-covers_example :
    (older newer : ClusterRole) × (choose_cluster_role semver "cp" "2.2.0" 2 ≡ ok older)
    × (choose_cluster_role semver "cp" "2.4.0" 4 ≡ ok newer)
    × (covers newer older ≡ true)
unfolding String-discrete
choose_cluster_role-covers_example =
    choose_cluster_role-covers semver (λ v. v) (λ n. n) (refl, refl, refl, refl) "cp" "2.2.0"
      "2.4.0" 2 4 (omega arith) (omega arith) (omega arith)
