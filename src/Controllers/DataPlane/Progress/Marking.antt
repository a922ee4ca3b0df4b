-- ===== src/Controllers/DataPlane/Progress/Marking.antt =====
-- The statuses that mark a DataPlane, and what marking leaves as it is.
use apisix_operator.Prelude.{
  String-discrete, ◌≡◌, refl, arith, true, Bool-cases, inl, inr, none, some, List, string_eq,
}
use apisix_operator.Api.Meta.{Time, Condition, condition_false}
use apisix_operator.Api.Types.{DataPlane, data_plane_conditions}
use apisix_operator.Kubernetes.Status.{
  new_condition, set_condition, get_condition, init_ready, needs_update,
  dependencies_not_ready_reason, dependencies_not_ready_message,
}
use apisix_operator.Kubernetes.Status.Laws.{
  UniqueTypes, get_condition-set_condition, set_condition-UniqueTypes,
}
use apisix_operator.Kubernetes.Status.Update.{needs_update-exact}
use apisix_operator.Resources.Objects.{Service, service_object}
use apisix_operator.Controllers.ControlPlane.{provisioned_type}
use apisix_operator.Controllers.DataPlane.Server.{owned_services, wanted_service}

-- The condition that a DataPlane gets at first.
abbrev pub scheduled_condition : Time → Condition
unfolding new_condition
scheduled_condition now =
    new_condition now provisioned_type condition_false "PodsNotReady"
      "DataPlane resource is scheduled for provisioning"

-- InitReady leaves the condition Provisioned as it is.
pub init_ready-provisioned :
    (now : Time) (d : DataPlane)
    → get_condition provisioned_type (init_ready now d) ≡ get_condition provisioned_type d
unfolding init_ready new_condition String-discrete
init_ready-provisioned now d =
    get_condition-set_condition provisioned_type
      (new_condition now "Ready" condition_false dependencies_not_ready_reason
        dependencies_not_ready_message)
      d

pub scheduled-provisioned :
    (later : Time) (d : DataPlane)
    → get_condition provisioned_type (set_condition (scheduled_condition later) d)
      ≡ some (scheduled_condition later)
unfolding String-discrete scheduled_condition
scheduled-provisioned later d =
    get_condition-set_condition provisioned_type (scheduled_condition later) d

init_ready-UniqueTypes :
    (now : Time) (d : DataPlane)
    → UniqueTypes d.status.conditions
    → UniqueTypes (init_ready now d).status.conditions
unfolding init_ready
init_ready-UniqueTypes now d u = set_condition-UniqueTypes _ d u

-- The first marking is written.
pub scheduled-needs_update :
    (now later : Time) (d : DataPlane)
    → UniqueTypes d.status.conditions
    → get_condition provisioned_type d ≡ none
    → needs_update d (set_condition (scheduled_condition later) (init_ready now d)) ≡ true
scheduled-needs_update now later d u h =
    let ready = init_ready now d in
    let marked = set_condition (scheduled_condition later) ready in
    let u' : UniqueTypes ready.status.conditions = init_ready-UniqueTypes now d u in
    elim (Bool-cases (needs_update d marked)) [
      | inl b ↦ b
      | inr b ↦
          let same =
            (needs_update-exact d marked u (set_condition-UniqueTypes _ ready u')).0 b
              provisioned_type in
          ground (arith, h, scheduled-provisioned later ready)
    ]

-- Marking changes neither which Services are a DataPlane's nor which it wants.
pub init_ready-owned :
    (now : Time) (d : DataPlane) (items : List Service)
    → owned_services (init_ready now d) items ≡ owned_services d items
unfolding init_ready set_condition owned_services
init_ready-owned now d items = refl

pub init_ready-wanted :
    (now : Time) (d : DataPlane) → wanted_service (init_ready now d) ≡ wanted_service d
unfolding init_ready set_condition wanted_service
init_ready-wanted now d = refl

pub init_ready-meta : (now : Time) (d : DataPlane) → (init_ready now d).meta ≡ d.meta
unfolding init_ready set_condition
init_ready-meta now d = refl
