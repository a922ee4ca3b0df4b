-- ===== src/Tests/World.antt =====
-- An API server that stores one DataPlane and its Services.
use apisix_operator.Prelude.{ℕ, suc, String, refl, none, some, List, [], ◌∷◌, ◌++◌, keep, Option}
use apisix_operator.Errors.{ok}
use apisix_operator.Api.Types.{DataPlane, DataPlaneStatus}
use apisix_operator.Resources.Objects.{Service, service_object}
use apisix_operator.Client.{NamespacedName, ListOptions, Kind, Client}
use apisix_operator.Client.Selection.{selects}
use apisix_operator.Controllers.ControlPlane.{Reconciler}
use apisix_operator.Controllers.DataPlane.Server.{DataPlaneServer}
use apisix_operator.Tests.Data.{a_control_plane, a_data_plane, no_options}
use apisix_operator.Tests.Server.{
  a_deployment, a_service_account, a_role, a_binding, a_secret, crypto_of, semver,
}

pub record World : Type 0 where
  pub time : ℕ
  pub resource_version : String
  pub status : DataPlaneStatus
  pub services : List Service

-- The DataPlane that the world stores.
abbrev pub stored : World → DataPlane
stored s = record (a_data_plane no_options) {
  meta = record ((a_data_plane no_options).meta) { resource_version = s.resource_version };
  status = s.status;
}

abbrev pub stored_key : NamespacedName
stored_key = record { namespace = "prod"; name = "dp" }

abbrev pub fresh_world : World
fresh_world = record {
  time = 5;
  resource_version = "";
  status = record { conditions = []; service = "" };
  services = [];
}

-- A kind of object that is not used.
abbrev unused : {A : Type 0} → A → Kind World A
unused a = record {
  get = λ key s. (ok a, s);
  list = λ options s. (ok [], s);
  create = λ x s. (ok x, s);
  update = λ x s. (ok x, s);
  delete = λ x s. (ok tt, s);
  update_status = λ x s. (ok x, s);
}

-- The status and a new resource version.
abbrev written : DataPlaneStatus → World → World
written status s = record s { resource_version = "next"; status = status }

abbrev named_service : Service → World → Service
named_service a s = record a {
  meta = record (a.meta) { name = "service-1"; uid = "u9"; resource_version = "1" };
}

abbrev selection : Option ListOptions → List Service → List Service
unfolding keep selects
selection none items = items
selection (some options) items = keep (selects options) items

unfoldable pub world : Client World
unfolding selection
world = record {
  now = λ s. (ok s.time, record s { time = suc s.time });
  control_planes = unused (a_control_plane []);
  data_planes = record (unused (a_data_plane no_options)) {
    get = λ key s. (ok (stored s), s);
    update_status = λ d s. (ok (stored (written d.status s)), written d.status s);
  };
  deployments = unused a_deployment;
  services = record {
    get =
        λ key s. (ok (record { meta = (stored s).meta; type = ""; selector = []; ports = [] }), s);
    list = λ options s. (ok (selection options s.services), s);
    create = λ a s.
        (ok (named_service a s), record s { services = s.services ++ named_service a s ∷ [] });
    update = λ x s. (ok x, s);
    delete = λ x s. (ok tt, s);
    update_status = λ x s. (ok x, s);
  };
  service_accounts = unused a_service_account;
  cluster_roles = unused a_role;
  cluster_role_bindings = unused a_binding;
  secrets = unused a_secret;
}

unfoldable pub world_server : DataPlaneServer world stored_key
unfolding world selection
world_server = record {
  clock = λ s. (s.time, record s { time = suc s.time });
  data_plane = stored;
  services = λ s. s.services;
  version = λ s. "next";
  write = written;
  named = named_service;
  add = λ a s. record s { services = s.services ++ named_service a s ∷ [] };
  now_law = λ s. refl;
  get_law = λ s. refl;
  key_law = λ s. refl;
  update_status_law = λ d s k v. refl;
  list_law = λ options s. refl;
  create_law = λ a s. refl;
  named_namespace = λ a s. refl;
  named_labels = λ a s. refl;
  named_owners = λ a s. refl;
  data_plane-clock = λ s. refl;
  services-clock = λ s. refl;
  data_plane-write = λ status s. refl;
  services-write = λ status s. refl;
  data_plane-add = λ a s. refl;
  services-add = λ a s. refl;
}

abbrev pub world_reconciler : Reconciler World String ℕ ℕ
world_reconciler = record {
  client = world;
  crypto = crypto_of;
  semver = semver;
  set_owner_reference = λ c d. ok d;
  cluster_ca_secret_name = "ca";
  cluster_ca_secret_namespace = "system";
}
