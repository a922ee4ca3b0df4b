-- ===== src/Start/Certificates.antt =====
-- The certificates of the reconcilers that the operator starts.
use apisix_operator.Prelude.{String, ◌≡◌, refl, List, [], ◌∷◌, ◌<>◌, inl, inr}
use apisix_operator.Errors.{Error, Result, ok, err}
use apisix_operator.Errors.Calls.{Exec, ◌>>=◌}
use apisix_operator.Errors.Results.{Result-cases}
use apisix_operator.Api.Types.{ControlPlane, DataPlane}
use apisix_operator.Resources.Roles.Choice.{Semver}
use apisix_operator.Client.{Client}
use apisix_operator.Client.Lists.{list_secrets_for_owner}
use apisix_operator.Controllers.Certificates.{
  Crypto, Owner, control_plane, data_plane, owner_meta, get_managed_label_for_owner, issue,
  secret_for, maybe_create_certificate_secret,
}
use apisix_operator.Controllers.ControlPlane.{Reconciler}
use apisix_operator.Controllers.ControlPlane.Ensure
use apisix_operator.Controllers.DataPlane
use apisix_operator.Controllers.Owned.{create}
use apisix_operator.Resources.Objects.{secret_object}
use apisix_operator.Start.{started_reconciler}

-- A call that answers an error.
abbrev pub Fails : {S A : Type 0} → Exec S A → S → Type 0
Fails m s = (e : Error) × ((m s).0 ≡ err e)

-- What fails first, and what always fails later, makes the whole fail.
bind-Fails :
    {S A B : Type 0} (m : Exec S A) (f : A → Exec S B) (s : S) → Fails m s → Fails (m >>= f) s
bind-Fails m f s (e, h) = (e, rw h refl)

then-Fails :
    {S A B : Type 0} (m : Exec S A) (f : A → Exec S B) (s : S)
    → ((a : A) (t : S) → Fails (f a) t)
    → Fails (m >>= f) s
then-Fails m f s h = elim (Result-cases (m s).0) [
  | inl (a, e) ↦ let (x, k) = h a (m s).1 in (x, rw e k)
  | inr (x, e) ↦ bind-Fails m f s (x, e)
]

-- The request for an object without a name is refused.
abbrev pub RefusesNoName : {S : Type 0} → Client S → Type 0
RefusesNoName {S = S} client =
    (t : S) → Fails (client.secrets.get (record { namespace = ""; name = "" })) t

module _ {S P C V : Type 0} (client : Client S) (crypto : Crypto S P C) (semver : Semver V)
    (set_owner_reference : ControlPlane → DataPlane → Result DataPlane)
    (refuses : RefusesNoName client) where
  abbrev r : Reconciler S P C V
  r = started_reconciler client crypto semver set_owner_reference

  issue-Fails :
      (owner : Owner) (subject : String) (usages : List String) (s : S)
      → Fails (issue client crypto owner subject "" "" usages) s
  unfolding issue
  issue-Fails owner subject usages s = then-Fails crypto.generate_key _ s (λ priv t.
      then-Fails (crypto.create_certificate_request subject priv) _ t (λ der u.
        bind-Fails (client.secrets.get (record { namespace = ""; name = "" })) _ u (refuses u)))

  certificate-Fails :
      (owner : Owner) (subject : String) (usages : List String) (s : S) {s' : S}
      → let (key, value) = get_managed_label_for_owner owner in
        list_secrets_for_owner client key value (owner_meta owner).uid s ≡ (ok [], s')
        → Fails (maybe_create_certificate_secret client crypto owner subject "" "" usages) s
  unfolding maybe_create_certificate_secret secret_for
  certificate-Fails owner subject usages s {s'} h =
      let (e, k) =
        bind-Fails (issue client crypto owner subject "" "" usages) (λ x. create client.secrets x)
          s' (issue-Fails owner subject usages s') in
      (e, rw h k)

  pub control_plane_certificate-Fails :
      (c : ControlPlane) (s : S) {s' : S}
      → let (key, value) = get_managed_label_for_owner (control_plane c) in
        list_secrets_for_owner client key value c.meta.uid s ≡ (ok [], s')
        → Fails (Ensure.ensure_certificate r c) s
  unfolding Ensure.ensure_certificate
  control_plane_certificate-Fails c s h =
      certificate-Fails (control_plane c) (c.meta.name <> "." <> c.meta.namespace)
        ("key encipherment" ∷ "digital signature" ∷ "client auth" ∷ []) s h

  -- The reconcilers that the program starts have no name for the Secret of the cluster's CA. If
  -- the API server refuses requests for an object without a name, then whenever they find no
  -- Secret of a ControlPlane or a DataPlane, they fail to make its certificate.
  pub started-Fails :
      (c : ControlPlane) (d : DataPlane) (service : String) (s t : S) {s' t' : S}
      → let (ckey, cvalue) = get_managed_label_for_owner (control_plane c) in
        let (dkey, dvalue) = get_managed_label_for_owner (data_plane d) in
        list_secrets_for_owner client ckey cvalue c.meta.uid s ≡ (ok [], s')
        → list_secrets_for_owner client dkey dvalue d.meta.uid t ≡ (ok [], t')
        → Fails (Ensure.ensure_certificate r c) s
          × Fails (DataPlane.ensure_certificate r d service) t
  unfolding DataPlane.ensure_certificate
  started-Fails c d service s t h k = (
    control_plane_certificate-Fails c s h,
    certificate-Fails (data_plane d) (service <> "." <> d.meta.namespace <> ".svc")
        ("key encipherment" ∷ "digital signature" ∷ "server auth" ∷ []) t k,
  )
