-- ===== src/Tests/Deleting.antt =====
-- An API server that stores a ControlPlane that is deleted, and cluster-wide objects.
use apisix_operator.Prelude.{
  any, if◌then◌else◌, ℕ, suc, ◌+◌, ◌≤◌, String, refl, arith, not, Option, none, some, List, [], ◌∷◌,
  keep, ◌==◌, string_eq,
}
use apisix_operator.Errors.{Result, ok, err, not_found}
use apisix_operator.Api.Types.{ControlPlane}
use apisix_operator.Resources.Objects.{
  Object, ClusterRole, ClusterRoleBinding, cluster_role_object, cluster_role_binding_object,
}
use apisix_operator.Client.{NamespacedName, ListOptions, Kind, Client}
use apisix_operator.Client.Selection.{selects}
use apisix_operator.Controllers.Owned.{mark_for_control_plane}
use apisix_operator.Controllers.Owned.Stored.{Stored}
use apisix_operator.Controllers.ControlPlane.{
  Reconciler, cleanup_cluster_role, cleanup_cluster_role_binding,
}
use apisix_operator.Controllers.ControlPlane.Collecting.Server.{
  CleanupServer, kept_or_gone, with_finalizers,
}
use apisix_operator.Tests.Data.{a_kind, a_meta, a_control_plane, a_data_plane, no_options}
use apisix_operator.Tests.Server.{
  a_deployment, a_service, a_service_account, a_role, a_binding, a_secret, crypto_of, semver,
}

pub record Deleting : Type 0 where
  pub time : ℕ
  pub stored : Result ControlPlane
  pub roles : List ClusterRole
  pub bindings : List ClusterRoleBinding

-- A kind of object that is not used.
abbrev unused : {A : Type 0} → A → Kind Deleting A
unused a = record {
  get = λ key s. (ok a, s);
  list = λ options s. (ok [], s);
  create = λ x s. (ok x, s);
  update = λ x s. (ok x, s);
  delete = λ x s. (ok tt, s);
  update_status = λ x s. (ok x, s);
}

abbrev selection : {A : Type 0} ⦃o : Object A⦄ → Option ListOptions → List A → List A
unfolding keep selects
selection none items = items
selection (some options) items = keep (selects options) items

abbrev rest_of : {A : Type 0} ⦃o : Object A⦄ → A → List A → List A
unfolding keep
rest_of ⦃o⦄ a items = keep (λ x. not ((o.get_meta a).name == (o.get_meta x).name)) items

abbrev taken : {A : Type 0} ⦃o : Object A⦄ → A → List A → Result (Unit {0})
taken ⦃o⦄ a items =
    if any (λ x. (o.get_meta a).name == (o.get_meta x).name) items then ok tt else err not_found

abbrev put_finalizers : List String → Result ControlPlane → Result ControlPlane
put_finalizers fs (ok c) =
    kept_or_gone fs
      (record c { meta = record (c.meta) { finalizers = fs; resource_version = "next" } })
put_finalizers fs (err e) = err e

abbrev answer_of : List String → Result ControlPlane → ControlPlane
answer_of fs (ok c) = with_finalizers c fs
answer_of fs (err e) = a_control_plane []

unfoldable pub deleting : Client Deleting
unfolding selection rest_of
deleting = record {
  now = λ s. (ok (7 + s.time), record s { time = suc s.time });
  control_planes = record (unused (a_control_plane [])) {
    get = λ key s. (s.stored, s);
    update = λ c s. (ok c, record s { stored = put_finalizers c.meta.finalizers s.stored });
  };
  data_planes = unused (a_data_plane no_options);
  deployments = unused a_deployment;
  services = unused a_service;
  service_accounts = unused a_service_account;
  cluster_roles = record (unused a_role) {
    list = λ options s. (ok (selection options s.roles), s);
    delete = λ a s. (taken a s.roles, record s { roles = rest_of a s.roles });
  };
  cluster_role_bindings = record (unused a_binding) {
    list = λ options s. (ok (selection options s.bindings), s);
    delete = λ a s. (taken a s.bindings, record s { bindings = rest_of a s.bindings });
  };
  secrets = unused a_secret;
}

unfoldable pub deleting_roles : Stored deleting.cluster_roles
unfolding deleting selection rest_of
deleting_roles = record {
  items = λ s. s.roles;
  remove = λ a s. record s { roles = rest_of a s.roles };
  list_law = λ options s. refl;
  delete_law = λ a s. refl;
  items-remove = λ a s. refl;
}

unfoldable pub deleting_bindings : Stored deleting.cluster_role_bindings
unfolding deleting selection rest_of
deleting_bindings = record {
  items = λ s. s.bindings;
  remove = λ a s. record s { bindings = rest_of a s.bindings };
  list_law = λ options s. refl;
  delete_law = λ a s. refl;
  items-remove = λ a s. refl;
}

abbrev pub deleted_key : NamespacedName
deleted_key = record { namespace = "prod"; name = "cp" }

unfoldable pub deleting_server : CleanupServer deleting deleted_key
unfolding deleting deleting_roles deleting_bindings
deleting_server = record {
  clock = λ s. (7 + s.time, record s { time = suc s.time });
  control_plane = λ s. s.stored;
  roles = deleting_roles;
  bindings = deleting_bindings;
  put = λ fs s. record s { stored = put_finalizers fs s.stored };
  version = λ s. "next";
  answer = λ fs s. answer_of fs s.stored;
  now_law = λ s. refl;
  get_law = λ s. refl;
  update_law = λ c fs s e. rw e refl;
  control_plane-put = λ c fs s e d. rw e refl;
  control_plane-clock = λ s. refl;
  control_plane-roles = λ a s. refl;
  control_plane-bindings = λ a s. refl;
  roles-bindings = λ a s. refl;
  bindings-roles = λ a s. refl;
  bindings-put = λ fs s. refl;
  roles-put = λ fs s. refl;
  bindings-clock = λ s. refl;
  roles-clock = λ s. refl;
}

abbrev pub deleting_reconciler : Reconciler Deleting String ℕ ℕ
deleting_reconciler = record {
  client = deleting;
  crypto = crypto_of;
  semver = semver;
  set_owner_reference = λ c d. ok d;
  cluster_ca_secret_name = "ca";
  cluster_ca_secret_namespace = "system";
}

abbrev pub deleted_control_plane : ControlPlane
deleted_control_plane = record (a_control_plane []) {
  meta = record a_meta {
    deletion_timestamp = some 7;
    finalizers = cleanup_cluster_role ∷ cleanup_cluster_role_binding ∷ [];
  };
}

abbrev pub two_roles : Deleting
two_roles = record {
  time = 0;
  stored = ok deleted_control_plane;
  roles = mark_for_control_plane a_kind a_meta a_role ∷ a_role ∷ [];
  bindings = mark_for_control_plane a_kind a_meta a_binding ∷ [];
}

pub deleting_past : (s : Deleting) → 7 ≤ (deleting_server.clock s).0
unfolding deleting_server
deleting_past s = omega arith
