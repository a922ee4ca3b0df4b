-- ===== src/Controllers/Certificates.antt =====
-- controllers/utils.go: the mTLS Secret of an owner. Cryptography is a parameter.
pub mod Expiry
pub mod Labels
use apisix_operator.Prelude.{
  ℕ, ◌-◌, String, Bool, Option, none, some, List, [], ◌∷◌, length, ltb, leb, if◌then◌else◌,
}
use apisix_operator.Prelude.Dict
use apisix_operator.Errors.{Result, message, too_many}
use apisix_operator.Errors.Calls.{Exec, pure, raise, lift, ◌>>=◌}
use apisix_operator.Api.Meta.{Time, ObjectMeta, GroupVersionKind}
use apisix_operator.Api.Types.{ControlPlane, DataPlane}
use apisix_operator.Kubernetes.Metadata.{set_owner_for_object}
use apisix_operator.Resources.Objects.{Secret, secret_object}
use apisix_operator.Resources.Generators.{
  generate_new_tls_secret, add_label_for_data_plane, gateway_operator_controlled_label,
  control_plane_managed_label_value, data_plane_managed_label_value,
}
use apisix_operator.Client.{Client}
use apisix_operator.Client.Lists.{list_secrets_for_owner}
use apisix_operator.Controllers.Owned.{refresh, store, create, nil_dereference}

-- The dynamic type of the owner.
pub data Owner : Type 0 where
  control_plane : ControlPlane → Owner
  data_plane : DataPlane → Owner
  other : GroupVersionKind → ObjectMeta → Owner

abbrev pub owner_meta : Owner → ObjectMeta
owner_meta (control_plane c) = c.meta
owner_meta (data_plane d) = d.meta
owner_meta (other gvk m) = m

abbrev pub owner_kind : Owner → GroupVersionKind
owner_kind (control_plane c) = c.type_meta
owner_kind (data_plane d) = d.type_meta
owner_kind (other gvk m) = gvk

unfoldable pub get_prefix_for_owner : Owner → String
get_prefix_for_owner (control_plane c) = "controlplane"
get_prefix_for_owner (data_plane d) = "dataplane"
get_prefix_for_owner (other gvk m) = ""

unfoldable pub get_managed_label_for_owner : Owner → String × String
get_managed_label_for_owner (control_plane c) =
    (gateway_operator_controlled_label, control_plane_managed_label_value)
get_managed_label_for_owner (data_plane d) =
    (gateway_operator_controlled_label, data_plane_managed_label_value)
get_managed_label_for_owner (other gvk m) = ("", "")

-- The call for a ControlPlane is commented out in the source.
unfoldable pub add_label_for_owner : ObjectMeta → Owner → ObjectMeta
unfolding add_label_for_data_plane
add_label_for_owner obj (control_plane c) = obj
add_label_for_owner obj (data_plane d) = add_label_for_data_plane obj
add_label_for_owner obj (other gvk m) = obj

-- The Secret before its data.
unfoldable pub generated_secret : Owner → Secret
unfolding generate_new_tls_secret get_prefix_for_owner set_owner_for_object add_label_for_owner
generated_secret owner =
    let m = owner_meta owner in
    let secret = generate_new_tls_secret m.namespace m.name (get_prefix_for_owner owner) in
    record secret {
      meta = add_label_for_owner (set_owner_for_object secret.meta (owner_kind owner) m) owner;
    }

-- `config.SigningProfile`: durations are in seconds.
pub record SigningProfile : Type 0 where
  pub usages : List String
  pub expiry : ℕ

pub record CertificateSigningRequest : Type 0 where
  pub namespace : String
  pub name : String
  pub request : String
  pub signer_name : String
  pub expiration_seconds : ℕ
  pub usages : List String

-- crypto/ecdsa, crypto/x509, encoding/pem and cfssl. `P` is a private key, `C` a certificate.
pub record Crypto (S P C : Type 0) : Type 0 where
  pub generate_key : Exec S P
  pub create_certificate_request : String → P → Exec S String
  pub encode_pem : String → String → String
  pub decode_pem : String → Option String
  pub parse_ec_private_key : String → Result P
  pub parse_certificate : String → Result C
  pub not_after : C → Time
  pub sign : P → C → SigningProfile → String → Result String
  pub marshal_ec_private_key : P → Result String

-- `secret.Data[key]`, empty where it is missing.
unfoldable pub data_at : Secret → String → String
unfolding Dict.lookup
data_at secret key = elim secret.contents [
  | none ↦ ""
  | some m ↦ (elim (Dict.lookup key m) [ none ↦ "" | some v ↦ v ])
]

module _ {S P C : Type 0} (c : Client S) (crypto : Crypto S P C) where
  -- The bytes of a PEM block; the source reads them through a nil pointer if there is none.
  block_bytes : String → Exec S String
  block_bytes text = elim (crypto.decode_pem text) [
    | none ↦ raise nil_dereference
    | some bytes ↦ pure bytes
  ]

  unfoldable pub sign_certificate : CertificateSigningRequest → Secret → Exec S String
  unfolding block_bytes data_at
  sign_certificate csr ca = do
    key_bytes ← block_bytes (data_at ca "tls.key")
    priv ← lift (crypto.parse_ec_private_key key_bytes)
    cert_bytes ← block_bytes (data_at ca "tls.crt")
    ca_cert ← lift (crypto.parse_certificate cert_bytes)
    now ← c.now
    let duration_until_expiry = crypto.not_after ca_cert - now
    (if leb (crypto.not_after ca_cert) now
        then raise (message "the signer has expired")
        else lift (
            crypto.sign priv ca_cert
              (record {
                usages = csr.usages;
                expiry =
                    if ltb duration_until_expiry csr.expiration_seconds
                    then duration_until_expiry
                    else csr.expiration_seconds;
              })
              csr.request))

  -- From the key on: the data of a new Secret.
  unfoldable pub issue : Owner → String → String → String → List String → Exec S Secret
  unfolding sign_certificate generated_secret
  issue owner subject ca_name ca_namespace usages = do
    priv ← crypto.generate_key
    der ← crypto.create_certificate_request subject priv
    ca ← c.secrets.get (record { namespace = ca_namespace; name = ca_name })
    signed ←
        sign_certificate
          (record {
            namespace = (owner_meta owner).namespace;
            name = (owner_meta owner).name;
            request = crypto.encode_pem "CERTIFICATE REQUEST" der;
            signer_name = "apisix-operator.apisix.apache.org/mtls";
            expiration_seconds = 315400000;
            usages = usages;
          })
          ca
    priv_der ← lift (crypto.marshal_ec_private_key priv)
    pure (record (generated_secret owner) {
      string_data = some (
          ("ca.crt", data_at ca "tls.crt")
          ∷ ("tls.crt", signed)
          ∷ ("tls.key", crypto.encode_pem "EC PRIVATE KEY" priv_der)
          ∷ []);
    })

  -- What follows the list.
  unfoldable pub secret_for :
      Owner → String → String → String → List String → List Secret → Exec S (Bool × Secret)
  unfolding issue refresh store create
  secret_for owner subject ca_name ca_namespace usages [] = do
    secret ← issue owner subject ca_name ca_namespace usages
    create c.secrets secret
  secret_for owner subject ca_name ca_namespace usages (existing ∷ []) = do
    result ← lift (refresh existing (generated_secret owner))
    store c.secrets result
  secret_for owner subject ca_name ca_namespace usages (x ∷ y ∷ rest) =
      raise (too_many "mTLS secrets for DataPlane" (length (x ∷ y ∷ rest)))

  unfoldable pub maybe_create_certificate_secret :
      Owner → String → String → String → List String → Exec S (Bool × Secret)
  unfolding secret_for list_secrets_for_owner get_managed_label_for_owner
  maybe_create_certificate_secret owner subject ca_name ca_namespace usages = do
    let (key, value) = get_managed_label_for_owner owner
    secrets ← list_secrets_for_owner c key value (owner_meta owner).uid
    secret_for owner subject ca_name ca_namespace usages secrets
