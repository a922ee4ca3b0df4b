-- ===== src/Controllers/DataPlane/Settled.antt =====
-- A DataPlane that the reconciler is run on again and again.
use apisix_operator.Prelude.{
  ℕ, zero, suc, String, ◌≡◌, refl, ap, ◌∙◌, inl, inr, some, List, [], ◌∷◌, ◌++◌, false,
  Option-cases,
}
use apisix_operator.Errors.{ok}
use apisix_operator.Errors.Calls.{runs, runs-one, runs-two, runs-two_of_one}
use apisix_operator.Api.Meta.{Time, Condition}
use apisix_operator.Api.Types.{DataPlane, data_plane_conditions}
use apisix_operator.Kubernetes.Status.{get_condition, set_condition, init_ready}
use apisix_operator.Kubernetes.Status.Laws.{UniqueTypes}
use apisix_operator.Resources.Objects.{Service, service_object}
use apisix_operator.Client.{NamespacedName}
use apisix_operator.Controllers.Owned.{refresh}
use apisix_operator.Controllers.ControlPlane.{finished, Reconciler, provisioned_type}
use apisix_operator.Controllers.DataPlane.{reconcile}
use apisix_operator.Controllers.DataPlane.Server.{
  DataPlaneServer, owned_services, wanted_service, owned_services-wanted, refresh-wanted,
}
use apisix_operator.Controllers.DataPlane.Progress.{run_schedules, run_creates, run_keeps}
use apisix_operator.Controllers.DataPlane.Progress.Marking.{
  scheduled_condition, init_ready-provisioned, scheduled-provisioned,
}

module _ {S P C V : Type 0} (r : Reconciler S P C V) {key : NamespacedName}
    (server : DataPlaneServer r.client key) where
  open server use {
    clock, data_plane, services, named, named_namespace, named_labels, named_owners,
    data_plane-clock, services-clock,
  }

  -- The state after a number of runs of the reconciler.
  abbrev pub after : ℕ → S → S
  after = runs (reconcile r key)

  -- The DataPlane has the condition Provisioned, and just one Service, which is as it wants it.
  abbrev pub IsSettled : DataPlane → List Service → Service → Type 0
  IsSettled d items a =
      ((c : Condition) × (get_condition provisioned_type d ≡ some c))
      × (owned_services d items ≡ a ∷ [])
      × (refresh a (wanted_service d) ≡ ok (false, a))

  IsSettled-created :
      (d : DataPlane) (now : Time) (v name : String) (items : List Service) (a : Service)
      {c : Condition}
      → get_condition provisioned_type d ≡ some c
      → owned_services d items ≡ []
      → a.meta.namespace ≡ (wanted_service d).meta.namespace
      → a.meta.labels ≡ (wanted_service d).meta.labels
      → a.meta.owner_references ≡ (wanted_service d).meta.owner_references
      → IsSettled
          (record d {
            meta = record (d.meta) { resource_version = v };
            status = record { conditions = (init_ready now d).status.conditions; service = name };
          })
          (items ++ a ∷ [])
          a
  unfolding get_condition owned_services wanted_service
  IsSettled-created d now v name items a {c} h e n l o = (
    (c, init_ready-provisioned now d ∙ h),
    owned_services-wanted d a items n l o ∙ rw e refl,
    refresh-wanted d a l o,
  )

  settled_stays :
      (s : S) (a : Service) (n : ℕ)
      → IsSettled (data_plane s) (services s) a
      → (data_plane (after n s) ≡ data_plane s)
        × (services (after n s) ≡ services s)
        × ((reconcile r key (after n s)).0 ≡ ok finished)
  unfolding runs
  settled_stays s a zero ((c, h), e, f) = (refl, refl, rw (run_keeps r server s a h e f) refl)
  settled_stays s a (suc n) ((c, h), e, f) =
      let s1 = (clock s).1 in
      let d1 = data_plane-clock s in
      let v1 = services-clock s in
      let (d, v, o) = settled_stays s1 a n (rw (d1, v1) ((c, h), e, f)) in
      rw (run_keeps r server s a h e f) (d ∙ d1, v ∙ v1, o)

  scheduled_state :
      (now later : Time) (d : DataPlane) (s : S) {v : String}
      → data_plane s ≡ record (set_condition (scheduled_condition later) (init_ready now d)) {
        meta = record (d.meta) { resource_version = v };
      }
      → get_condition provisioned_type (data_plane s) ≡ some (scheduled_condition later)
  unfolding get_condition
  scheduled_state now later d s e = rw e (scheduled-provisioned later (init_ready now d))

  still_without :
      (now later : Time) (d : DataPlane) (items : List Service) (s : S) {v : String}
      → data_plane s ≡ record (set_condition (scheduled_condition later) (init_ready now d)) {
        meta = record (d.meta) { resource_version = v };
      }
      → services s ≡ items
      → owned_services d items ≡ []
      → owned_services (data_plane s) (services s) ≡ []
  unfolding owned_services
  still_without now later d items s e f h = rw (e, f) h

  created_settles :
      (s : S) {c : Condition}
      → get_condition provisioned_type (data_plane s) ≡ some c
      → owned_services (data_plane s) (services s) ≡ []
      → (a : Service) × (s' : S) × (reconcile r key s ≡ (ok finished, s'))
        × IsSettled (data_plane s') (services s') a
        × ((data_plane s').status.service ≡ a.meta.name)
        × (services s' ≡ services s ++ a ∷ [])
  created_settles s h e =
      let (now, t, s', (run, d, v)) = run_creates r server s h e in
      let w = wanted_service (data_plane s) in
      let a = named w t in
      (
        a,
        s',
        run,
        rw (d, v)
            (IsSettled-created (data_plane s) now _ a.meta.name (services s) a h e
              (named_namespace w t) (named_labels w t) (named_owners w t)),
        ap (λ (x : DataPlane). x.status.service) d,
        v,
      )

  -- What the runs from a state reach: after two of them the DataPlane has its Service, which was
  -- created on the way and whose name stands in the status, and nothing changes any more.
  abbrev pub Settles : S → Type 0
  Settles s =
      (a : Service) × (let t = after 2 s in
        IsSettled (data_plane t) (services t) a
        × ((data_plane t).status.service ≡ a.meta.name)
        × (services t ≡ services s ++ a ∷ [])
        × ((n : ℕ) → (data_plane (after n t) ≡ data_plane t) × (services (after n t) ≡ services t))
        × ((n : ℕ) → (reconcile r key (after n s)).0 ≡ ok finished))

  all_finish :
      (s : S) (a : Service) (n : ℕ)
      → IsSettled (data_plane (after 2 s)) (services (after 2 s)) a
      → (reconcile r key s).0 ≡ ok finished
      → (reconcile r key (after 1 s)).0 ≡ ok finished
      → (reconcile r key (after n s)).0 ≡ ok finished
  unfolding runs
  all_finish s a zero settled f g = f
  all_finish s a (suc zero) settled f g = g
  all_finish s a (suc (suc n)) settled f g = (settled_stays (after 2 s) a n settled).2

  Settles-IsSettled :
      (s : S) (a : Service)
      → let t = after 2 s in
        IsSettled (data_plane t) (services t) a
        → (data_plane t).status.service ≡ a.meta.name
        → services t ≡ services s ++ a ∷ []
        → (reconcile r key s).0 ≡ ok finished
        → (reconcile r key (after 1 s)).0 ≡ ok finished
        → Settles s
  Settles-IsSettled s a settled name listed f g = (
    a,
    (
      settled,
      name,
      listed,
      λ n. let (d, v, o) = settled_stays (after 2 s) a n settled in (d, v),
      λ n. all_finish s a n settled f g,
    ),
  )

  -- For a server that takes the calls of the reconciler as documented and that nobody else writes
  -- to, and a DataPlane whose condition types are distinct and that has no Service: every run of
  -- the reconciler finishes without an error, and after two runs the DataPlane has the condition
  -- Provisioned and exactly one Service, which was created on the way, is as it should be and whose
  -- name stands in the status. No later run, however many, changes the DataPlane or the Services.
  pub data_plane-Settles :
      (s : S)
      → UniqueTypes (data_plane s).status.conditions
      → owned_services (data_plane s) (services s) ≡ []
      → Settles s
  data_plane-Settles s u e = elim (Option-cases (get_condition provisioned_type (data_plane s))) [
    | inl h ↦
        let (now, later, s1, (run, d, v)) = run_schedules r server s u h in
        let (a, t, run', settled, name, v') =
          created_settles s1 (scheduled_state now later (data_plane s) s1 d)
            (still_without now later (data_plane s) (services s) s1 d v e) in
        let two = runs-two (reconcile r key) s run run' in
        Settles-IsSettled s a (rw two settled) (rw two name) (rw two (v' ∙ rw v refl)) (rw run refl)
          (rw (runs-one (reconcile r key) s run, run') refl)
    | inr (c, h) ↦
        let (a, s1, run, settled, name, v) = created_settles s h e in
        let ((c', h'), e', f') = settled in
        let (d1, v1, o1) = settled_stays s1 a 1 settled in
        let one = runs-one (reconcile r key) s run in
        let two : after 2 s ≡ after 1 s1 = runs-two_of_one (reconcile r key) s one in
        Settles-IsSettled s a (rw (two, d1, v1) settled) (rw (two, d1) name) (rw (two, v1) v)
          (rw run refl) (rw (one, run_keeps r server s1 a h' e' f') refl)
  ]
