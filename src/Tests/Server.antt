-- ===== src/Tests/Server.antt =====
-- An API server with a clock as its state: it takes every write and lists what it is given.
use apisix_operator.Prelude.{
  if◌then◌else◌, ℕ, suc, String, ◌&&◌, none, some, List, [], ◌∷◌, ltb, leb, ◌==◌, string_eq,
}
use apisix_operator.Errors.{ok, err, message, not_found}
use apisix_operator.Resources.Objects.{
  Container, Deployment, Service, ServiceAccount, ClusterRole, ClusterRoleBinding, Secret,
}
use apisix_operator.Resources.Roles.Choice.{Semver}
use apisix_operator.Client.{Kind, Client}
use apisix_operator.Controllers.Certificates.{Crypto}
use apisix_operator.Controllers.ControlPlane.{Reconciler}
use apisix_operator.Tests.Data.{a_meta, no_options, a_control_plane, a_data_plane}

abbrev pub kind_of : {A : Type 0} → List A → A → Kind ℕ A
kind_of items a = record {
  get = λ key s. (ok a, s);
  list = λ options s. (ok items, s);
  create = λ x s. (ok x, suc s);
  update = λ x s. (ok x, suc s);
  delete = λ x s. (err not_found, suc s);
  update_status = λ x s. (ok x, suc s);
}

abbrev pub a_container : Container
a_container = record {
  name = "controller";
  env = [];
  env_from = [];
  image = "";
  image_pull_policy = "";
  volume_mounts = [];
  pre_stop = [];
  ports = [];
  liveness_probe = none;
  readiness_probe = none;
}

abbrev pub a_deployment : Deployment
a_deployment = record {
  meta = a_meta;
  spec = record {
    replicas = none;
    selector = [];
    template_labels = [];
    pod = record { service_account_name = ""; volumes = []; containers = a_container ∷ [] };
  };
  status = record { replicas = 1; available_replicas = 1 };
}

abbrev pub a_service : Service
a_service = record { meta = a_meta; type = ""; selector = []; ports = [] }

abbrev pub a_service_account : ServiceAccount
a_service_account = record { meta = a_meta }

abbrev pub a_role : ClusterRole
a_role = record { meta = a_meta; rules = [] }

abbrev pub a_binding : ClusterRoleBinding
a_binding = record {
  meta = a_meta;
  role_ref = record { api_group = ""; kind = ""; name = "" };
  subjects = [];
}

abbrev pub a_secret : Secret
a_secret = record {
  meta = a_meta;
  type = "";
  contents = some (("tls.key", "k") ∷ ("tls.crt", "c") ∷ []);
  string_data = none;
}

abbrev pub server : Client ℕ
server = record {
  now = λ s. (ok 5, s);
  control_planes = kind_of [] (a_control_plane []);
  data_planes = kind_of [] (a_data_plane no_options);
  deployments = kind_of [] a_deployment;
  services = kind_of [] a_service;
  service_accounts = kind_of [] a_service_account;
  cluster_roles = kind_of [] a_role;
  cluster_role_bindings = kind_of [] a_binding;
  secrets = kind_of [] a_secret;
}

-- A certificate is its last second.
abbrev pub crypto_of : {S : Type 0} → Crypto S String ℕ
crypto_of = record {
  generate_key = λ s. (ok "k", s);
  create_certificate_request = λ subject key s. (ok subject, s);
  encode_pem = λ type bytes. bytes;
  decode_pem = λ text. some text;
  parse_ec_private_key = λ bytes. ok bytes;
  parse_certificate = λ bytes. ok 90;
  not_after = λ cert. cert;
  sign = λ key cert profile request. ok request;
  marshal_ec_private_key = λ key. ok key;
}

abbrev pub crypto : Crypto ℕ String ℕ
crypto = crypto_of

-- Versions by their minor number; "latest" is none.
abbrev pub semver : Semver ℕ
semver = record {
  new_version =
      λ text. (if text == "latest" then err (message "Invalid Semantic Version") else ok 3);
  new_constraint = λ text.
      if text == ">=2.1,<2.2"
      then ok (λ v. leb 1 v && ltb v 2)
      else if text == ">=2.2,<2.3"
      then ok (λ v. leb 2 v && ltb v 3)
      else if text == ">=2.3,<2.4"
      then ok (λ v. leb 3 v && ltb v 4)
      else ok (λ v. leb 4 v);
}

abbrev pub reconciler : Reconciler ℕ String ℕ ℕ
reconciler = record {
  client = server;
  crypto = crypto;
  semver = semver;
  set_owner_reference = λ c d. ok d;
  cluster_ca_secret_name = "ca";
  cluster_ca_secret_namespace = "system";
}
