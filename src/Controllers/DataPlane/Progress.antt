-- ===== src/Controllers/DataPlane/Progress.antt =====
-- What the runs of the DataPlane reconciler reach.
pub mod Marking
use apisix_operator.Prelude.{
  String, String-discrete, ◌≡◌, refl, sym, ap, ◌∙◌, arith, true, false, Bool-cases, inl, inr, none,
  some, List, [], ◌∷◌, ◌++◌, if◌then◌else◌, string_eq,
}
use apisix_operator.Errors.{ok}
use apisix_operator.Errors.Calls.{◌>>=◌, pure, bind_ok}
use apisix_operator.Api.Meta.{ObjectMeta, Time, Condition, condition_false}
use apisix_operator.Api.Types.{DataPlane, data_plane_conditions}
use apisix_operator.Kubernetes.Status.{
  new_condition, set_condition, get_condition, init_ready, needs_update,
  dependencies_not_ready_reason, dependencies_not_ready_message,
}
use apisix_operator.Kubernetes.Status.Laws.{
  UniqueTypes, get_condition-set_condition, set_condition-UniqueTypes,
}
use apisix_operator.Kubernetes.Status.Update.{needs_update-exact}
use apisix_operator.Resources.Objects.{Service, service_object}
use apisix_operator.Client.{NamespacedName}
use apisix_operator.Controllers.Owned.{refresh}
use apisix_operator.Controllers.ControlPlane.{finished, key_of, Reconciler, provisioned_type}
use apisix_operator.Controllers.DataPlane.{
  ensure_is_marked_scheduled, ensure_service_for_data_plane, ensure_data_plane_service_status,
  status_from, update_status, reconcile_found, reconcile,
}
use apisix_operator.Controllers.DataPlane.Server.{
  DataPlaneServer, owned_services, wanted_service, ensure_service_creates, ensure_service_keeps,
}
use apisix_operator.Controllers.DataPlane.Progress.Marking.{
  scheduled_condition, init_ready-provisioned, scheduled-provisioned, scheduled-needs_update,
  init_ready-owned, init_ready-wanted, init_ready-meta,
}

module _ {S P C V : Type 0} (r : Reconciler S P C V) {key : NamespacedName}
    (server : DataPlaneServer r.client key) where
  open r use {client}
  open server use {
    clock, data_plane, services, write, named, add, now_law, get_law, key_law, update_status_law,
    version, data_plane-clock, services-clock, data_plane-write, services-write, data_plane-add,
    services-add, named_namespace, named_labels, named_owners,
  }

  -- The first calls of a run.
  reconcile_lem :
      (s : S)
      → reconcile r key s
        ≡ (do
          (scheduled, marked) ← ensure_is_marked_scheduled r (init_ready (clock s).0 (data_plane s))
          (if scheduled then (do written ← update_status r marked; pure finished) else (do
            (changed, service) ← ensure_service_for_data_plane r marked
            (if changed
                then (do
                  stored ← ensure_data_plane_service_status r marked service.meta.name
                  pure finished)
                else pure finished))))
            (clock s).1
  unfolding reconcile reconcile_found
  reconcile_lem s = rw (get_law s, now_law s) refl

  marks_scheduled :
      (now : Time) (d : DataPlane) (s : S)
      → get_condition provisioned_type d ≡ none
      → ensure_is_marked_scheduled r (init_ready now d) s ≡ (
        ok (true, set_condition (scheduled_condition (clock s).0) (init_ready now d)),
        (clock s).1,
      )
  unfolding ensure_is_marked_scheduled
  marks_scheduled now d s h = rw (init_ready-provisioned now d, h, now_law s) refl

  already_scheduled :
      (now : Time) (d : DataPlane) (s : S) {c : Condition}
      → get_condition provisioned_type d ≡ some c
      → ensure_is_marked_scheduled r (init_ready now d) s ≡ (ok (false, init_ready now d), s)
  unfolding ensure_is_marked_scheduled
  already_scheduled now d s h = rw (init_ready-provisioned now d, h) refl

  writes_status :
      (updated : DataPlane) (s : S)
      → updated.meta ≡ (data_plane s).meta
      → needs_update (data_plane s) updated ≡ true
      → update_status r updated s ≡ (ok tt, write updated.status s)
  unfolding update_status status_from
  writes_status updated s m n =
      let k : key_of updated.meta ≡ key = ap key_of m ∙ key_law s in
      rw
        (
          k,
          get_law s,
          n,
          update_status_law updated s k (ap (λ (x : ObjectMeta). x.resource_version) m),
        )
        refl

  writes_service :
      (updated : DataPlane) (name : String) (s : S)
      → updated.meta ≡ (data_plane s).meta
      → let st = record (updated.status) { service = name } in
        ensure_data_plane_service_status r updated name s
        ≡ (ok (data_plane (write st s)), write st s)
  unfolding ensure_data_plane_service_status
  writes_service updated name s m =
      update_status_law (record updated { status = record (updated.status) { service = name } }) s
        (ap key_of m ∙ key_law s) (ap (λ (x : ObjectMeta). x.resource_version) m)

  -- A DataPlane without the condition gets it in its status.
  pub run_schedules :
      (s : S)
      → UniqueTypes (data_plane s).status.conditions
      → get_condition provisioned_type (data_plane s) ≡ none
      → (now : Time) × (later : Time) × (s' : S) × (let marked =
            set_condition (scheduled_condition later) (init_ready now (data_plane s)) in
          (reconcile r key s ≡ (ok finished, s'))
          × (data_plane s' ≡ record marked {
            meta = record ((data_plane s).meta) {
              resource_version = version (clock (clock s).1).1;
            };
          })
          × (services s' ≡ services s))
  unfolding set_condition init_ready
  run_schedules s u h =
      let d = data_plane s in
      let s1 = (clock s).1 in
      let s2 = (clock s1).1 in
      let now = (clock s).0 in
      let later = (clock s1).0 in
      let marked = set_condition (scheduled_condition later) (init_ready now d) in
      let d2 : data_plane s2 ≡ d = data_plane-clock s1 ∙ data_plane-clock s in
      let n : needs_update (data_plane s2) marked ≡ true =
        rw d2 (scheduled-needs_update now later d u h) in
      (
        now,
        later,
        write marked.status s2,
        (
          reconcile_lem s
              ∙ bind_ok (ensure_is_marked_scheduled r (init_ready now d)) _ s1
                  (marks_scheduled now d s1 h)
              ∙ bind_ok (update_status r marked) _ s2
                  (writes_status marked s2 (sym (ap (λ (x : DataPlane). x.meta) d2)) n),
          data_plane-write marked.status s2 ∙ rw d2 refl,
          services-write marked.status s2 ∙ services-clock s1 ∙ services-clock s,
        ),
      )

  -- The Service of a DataPlane that has the condition is created, and its name written.
  pub run_creates :
      (s : S) {c : Condition}
      → get_condition provisioned_type (data_plane s) ≡ some c
      → owned_services (data_plane s) (services s) ≡ []
      → let d = data_plane s in
        (now : Time) × (t : S) × (s' : S) × (let a = named (wanted_service d) t in
          (reconcile r key s ≡ (ok finished, s'))
          × (data_plane s' ≡ record d {
            meta = record (d.meta) { resource_version = version (add (wanted_service d) t) };
            status = record {
              conditions = (init_ready now d).status.conditions;
              service = a.meta.name;
            };
          })
          × (services s' ≡ services s ++ a ∷ []))
  run_creates s h e =
      let d = data_plane s in
      let s1 = (clock s).1 in
      let now = (clock s).0 in
      let marked = init_ready now d in
      let w = wanted_service d in
      let d2 : data_plane (add w s1) ≡ d = data_plane-add w s1 ∙ data_plane-clock s in
      let made : ensure_service_for_data_plane r marked s1 ≡ (ok (true, named w s1), add w s1) =
        ensure_service_creates r server marked s1
          (init_ready-owned now d (services s1) ∙ ap (owned_services d) (services-clock s) ∙ e)
        ∙ rw (init_ready-wanted now d) refl in
      let st = record (marked.status) { service = (named w s1).meta.name } in
      (
        now,
        s1,
        write st (add w s1),
        (
          reconcile_lem s
              ∙ bind_ok (ensure_is_marked_scheduled r marked) _ s1 (already_scheduled now d s1 h)
              ∙ bind_ok (ensure_service_for_data_plane r marked) _ s1 made
              ∙ bind_ok (ensure_data_plane_service_status r marked (named w s1).meta.name) _
                  (add w s1)
                  (writes_service marked (named w s1).meta.name (add w s1)
                    (init_ready-meta now d ∙ sym (ap (λ (x : DataPlane). x.meta) d2))),
          data_plane-write st (add w s1) ∙ rw d2 refl,
          services-write st (add w s1)
              ∙ services-add w s1
              ∙ ap (λ (x : List Service). x ++ named w s1 ∷ []) (services-clock s),
        ),
      )

  -- A DataPlane that has the condition and its Service is left alone.
  pub run_keeps :
      (s : S) {c : Condition} (a : Service)
      → get_condition provisioned_type (data_plane s) ≡ some c
      → owned_services (data_plane s) (services s) ≡ a ∷ []
      → refresh a (wanted_service (data_plane s)) ≡ ok (false, a)
      → reconcile r key s ≡ (ok finished, (clock s).1)
  run_keeps s a h e f =
      let d = data_plane s in
      let s1 = (clock s).1 in
      let now = (clock s).0 in
      let marked = init_ready now d in
      reconcile_lem s
      ∙ bind_ok (ensure_is_marked_scheduled r marked) _ s1 (already_scheduled now d s1 h)
      ∙ bind_ok (ensure_service_for_data_plane r marked) _ s1 (
          ensure_service_keeps r server marked s1 a
            (init_ready-owned now d (services s1) ∙ ap (owned_services d) (services-clock s) ∙ e)
            (rw (init_ready-wanted now d) f))
