-- ===== src/Controllers/DataPlane/Server.antt =====
-- The API server as the DataPlane reconciler sees it, for one DataPlane that nobody else changes.
use apisix_operator.Prelude.{
  String, ◌≡◌, refl, true, false, Option, some, List, [], ◌∷◌, ◌++◌, keep, keep-append, any,
  ==_refl, string_eq, String-discrete,
}
use apisix_operator.Prelude.Dict
use apisix_operator.Errors.{ok}
use apisix_operator.Api.Meta.{Time, Labels, OwnerReference, labels_eq, owner_references_eq}
use apisix_operator.Api.Types.{DataPlane, DataPlaneStatus}
use apisix_operator.Kubernetes.Metadata.{
  set_owner_for_object, is_owned_by_ref_uid, generate_owner_reference_for_object,
  ensure_object_meta_is_updated, write_labels,
}
use apisix_operator.Resources.Objects.{Service, service_object}
use apisix_operator.Resources.Generators.{
  gateway_operator_controlled_label, data_plane_managed_label_value, add_label_for_data_plane,
  add_label,
}
use apisix_operator.Resources.Generators.Workloads.{generate_new_service_for_data_plane}
use apisix_operator.Client.{NamespacedName, ListOptions, Client}
use apisix_operator.Client.Lists.{owned_by, list_services_for_owner, list_for_owner}
use apisix_operator.Client.Selection.{selects, in_own_namespace}
use apisix_operator.Controllers.Owned.{mark_for_data_plane, refresh, ensure_one, store, create}
use apisix_operator.Controllers.ControlPlane.{Reconciler, key_of}
use apisix_operator.Controllers.DataPlane.{ensure_service_for_data_plane}

-- Calls that succeed, and what they change: reading changes nothing but the clock, a status is
-- written if the resource version is the stored one, and a created Service gets a name and is
-- listed from then on.
pub record DataPlaneServer {S : Type 0} (client : Client S) (key : NamespacedName) : Type 0 where
  pub clock : S → Time × S
  pub data_plane : S → DataPlane
  pub services : S → List Service
  pub version : S → String
  pub write : DataPlaneStatus → S → S
  pub named : Service → S → Service
  pub add : Service → S → S
  pub now_law : (s : S) → client.now s ≡ (ok (clock s).0, (clock s).1)
  pub get_law : (s : S) → client.data_planes.get key s ≡ (ok (data_plane s), s)
  pub key_law : (s : S) → key_of (data_plane s).meta ≡ key
  pub update_status_law :
      (d : DataPlane) (s : S)
      → key_of d.meta ≡ key
      → d.meta.resource_version ≡ (data_plane s).meta.resource_version
      → client.data_planes.update_status d s
        ≡ (ok (data_plane (write d.status s)), write d.status s)
  pub list_law :
      (options : ListOptions) (s : S)
      → client.services.list (some options) s ≡ (ok (keep (selects options) (services s)), s)
  pub create_law : (a : Service) (s : S) → client.services.create a s ≡ (ok (named a s), add a s)
  pub named_namespace : (a : Service) (s : S) → (named a s).meta.namespace ≡ a.meta.namespace
  pub named_labels : (a : Service) (s : S) → (named a s).meta.labels ≡ a.meta.labels
  pub named_owners :
      (a : Service) (s : S) → (named a s).meta.owner_references ≡ a.meta.owner_references
  pub data_plane-clock : (s : S) → data_plane (clock s).1 ≡ data_plane s
  pub services-clock : (s : S) → services (clock s).1 ≡ services s
  pub data_plane-write :
      (status : DataPlaneStatus) (s : S)
      → data_plane (write status s) ≡ record (data_plane s) {
        meta = record ((data_plane s).meta) { resource_version = version s };
        status = status;
      }
  pub services-write : (status : DataPlaneStatus) (s : S) → services (write status s) ≡ services s
  pub data_plane-add : (a : Service) (s : S) → data_plane (add a s) ≡ data_plane s
  pub services-add : (a : Service) (s : S) → services (add a s) ≡ services s ++ named a s ∷ []

-- The options by which the Services of a DataPlane are listed.
abbrev pub service_options : DataPlane → ListOptions
service_options d = record {
  in_namespace = some d.meta.namespace;
  label = gateway_operator_controlled_label;
  value = data_plane_managed_label_value;
}

-- The Services of a DataPlane among some.
unfoldable pub owned_services : DataPlane → List Service → List Service
unfolding owned_by keep selects
owned_services d items = owned_by d.meta.uid (keep (selects (service_options d)) items)

-- The Service that a DataPlane wants.
unfoldable pub wanted_service : DataPlane → Service
unfolding mark_for_data_plane generate_new_service_for_data_plane
wanted_service d = mark_for_data_plane d.type_meta d.meta (generate_new_service_for_data_plane d)

wanted_service-meta :
    (d : DataPlane)
    → let m = (wanted_service d).meta in
      (m.namespace ≡ d.meta.namespace)
      × (m.labels ≡ some ((gateway_operator_controlled_label, data_plane_managed_label_value) ∷ []))
      × (m.owner_references ≡ generate_owner_reference_for_object d.type_meta d.meta ∷ [])
unfolding wanted_service mark_for_data_plane generate_new_service_for_data_plane
    set_owner_for_object add_label_for_data_plane add_label any Dict.insert
wanted_service-meta d = (refl, refl, refl)

-- An object with the metadata of the wanted Service is one of the DataPlane's Services.
pub owned_services-wanted :
    (d : DataPlane) (a : Service) (items : List Service)
    → a.meta.namespace ≡ (wanted_service d).meta.namespace
    → a.meta.labels ≡ (wanted_service d).meta.labels
    → a.meta.owner_references ≡ (wanted_service d).meta.owner_references
    → owned_services d (items ++ a ∷ []) ≡ owned_services d items ++ a ∷ []
unfolding owned_services owned_by keep selects is_owned_by_ref_uid any Dict.lookup
    generate_owner_reference_for_object
owned_services-wanted d a items n l o =
    let (n', l', o') = wanted_service-meta d in
    rw
      (
        keep-append (selects (service_options d)) items (a ∷ []),
        keep-append (λ (x : Service). is_owned_by_ref_uid x.meta d.meta.uid)
            (keep (selects (service_options d)) items)
            (keep (selects (service_options d)) (a ∷ [])),
        n,
        n',
        l,
        l',
        o,
        o',
        in_own_namespace d.meta.namespace,
        ==_refl gateway_operator_controlled_label,
        ==_refl data_plane_managed_label_value,
        ==_refl d.meta.uid,
      )
      refl

-- Such an object needs no update.
pub refresh-wanted :
    (d : DataPlane) (a : Service)
    → a.meta.labels ≡ (wanted_service d).meta.labels
    → a.meta.owner_references ≡ (wanted_service d).meta.owner_references
    → refresh a (wanted_service d) ≡ ok (false, a)
unfolding refresh ensure_object_meta_is_updated write_labels Dict.insert String-discrete
refresh-wanted d a l o =
    let (n', l', o') = wanted_service-meta d in
    let labels : Option Labels =
      some ((gateway_operator_controlled_label, data_plane_managed_label_value) ∷ []) in
    let owners : List OwnerReference =
      generate_owner_reference_for_object d.type_meta d.meta ∷ [] in
    rw (l, o, l', o', ==_refl labels, ==_refl owners) refl

module _ {S P C V : Type 0} (r : Reconciler S P C V) {key : NamespacedName}
    (server : DataPlaneServer r.client key) where
  open r use {client}
  open server use {services, named, add, list_law, create_law}

  listed :
      (d : DataPlane) (s : S)
      → list_services_for_owner client gateway_operator_controlled_label
          data_plane_managed_label_value d.meta.namespace d.meta.uid s
        ≡ (ok (owned_services d (services s)), s)
  unfolding list_services_for_owner list_for_owner owned_services
  listed d s = rw (list_law (service_options d) s) refl

  -- Without an owned Service, the wanted one is created.
  pub ensure_service_creates :
      (d : DataPlane) (s : S)
      → owned_services d (services s) ≡ []
      → ensure_service_for_data_plane r d s
        ≡ (ok (true, named (wanted_service d) s), add (wanted_service d) s)
  unfolding ensure_service_for_data_plane ensure_one create wanted_service
  ensure_service_creates d s h = rw (listed d s, h, create_law (wanted_service d) s) refl

  -- With one that is as wanted, nothing is written.
  pub ensure_service_keeps :
      (d : DataPlane) (s : S) (a : Service)
      → owned_services d (services s) ≡ a ∷ []
      → refresh a (wanted_service d) ≡ ok (false, a)
      → ensure_service_for_data_plane r d s ≡ (ok (false, a), s)
  unfolding ensure_service_for_data_plane ensure_one store wanted_service
  ensure_service_keeps d s a h e = rw (listed d s, h, e) refl
