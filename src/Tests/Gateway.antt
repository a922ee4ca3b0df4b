-- ===== src/Tests/Gateway.antt =====
-- The theorems on Gateways at a concrete one.
use apisix_operator.Prelude.{
  ℕ, zero, suc, ◌≡◌, refl, Option, none, some, List, [], ◌∷◌, ◌++◌, keep, find, String-discrete,
}
use apisix_operator.Errors.{ok}
use apisix_operator.Api.Meta.{condition_true}
use apisix_operator.Api.Types.{DataPlane, data_plane_conditions}
use apisix_operator.Kubernetes.Status
use apisix_operator.Kubernetes.Status.{get_condition, set_ready, resource_ready_reason, ready_type}
use apisix_operator.Resources.Objects.{data_plane_object}
use apisix_operator.Client.{Kind, ListOptions}
use apisix_operator.Client.Selection.{selects}
use apisix_operator.Gateway.{Gateway, list_for_gateway, is_scheduled, is_ready}
use apisix_operator.Gateway.Owned.{mark_for_gateway, answers, list_for_gateway-marked}
use apisix_operator.Gateway.Status.{is_true_for, gateway_with, is_ready-set_ready}
use apisix_operator.Tests.Data.{a_meta, a_kind, a_data_plane, no_options, condition}

abbrev a_gateway : Gateway
a_gateway = record { meta = a_meta; conditions = [] }

abbrev a_marked : DataPlane
a_marked =
    let a = a_data_plane no_options in
    data_plane_object.set_meta (mark_for_gateway a_kind a_gateway (data_plane_object.get_meta a)) a

-- Nothing is stored at the time 0, and the marked DataPlane later.
abbrev stored : ℕ → List DataPlane
stored zero = []
stored (suc n) = a_marked ∷ []

abbrev selection : Option ListOptions → List DataPlane → List DataPlane
unfolding keep selects
selection none items = items
selection (some options) items = keep (selects options) items

unfoldable server : Kind ℕ DataPlane
unfolding selection
server = record {
  get = λ key s. (ok (a_data_plane no_options), s);
  list = λ options s. (ok (selection options (stored s)), suc s);
  create = λ a s. (ok a, s);
  update = λ a s. (ok a, s);
  delete = λ a s. (ok tt, s);
  update_status = λ a s. (ok a, s);
}

list_for_gateway-marked_example :
    (found : List DataPlane) × (list_for_gateway "no namespace" server a_gateway 0
      ≡ answers "no namespace" server a_gateway 0 found 1)
    × (list_for_gateway "no namespace" server a_gateway 1
        ≡ answers "no namespace" server a_gateway 1 (found ++ a_marked ∷ []) 2)
unfolding server selection keep selects
list_for_gateway-marked_example =
    list_for_gateway-marked "no namespace" server a_kind a_gateway (a_data_plane no_options) [] 0 1
      refl refl refl

abbrev two_conditions : DataPlane
two_conditions =
    data_plane_conditions.set_conditions
      (condition "Ready" condition_true ∷ condition "Scheduled" condition_true ∷ [])
      (a_data_plane no_options)

is_ready-set_ready_example :
    (is_scheduled (gateway_with a_meta two_conditions.status.conditions)
      ≡ is_true_for "Scheduled" (get_condition "Scheduled" two_conditions))
    × (is_ready (gateway_with a_meta two_conditions.status.conditions)
        ≡ is_true_for resource_ready_reason (get_condition ready_type two_conditions))
    × (is_ready (gateway_with a_meta (set_ready 3 two_conditions).status.conditions)
        ≡ Status.is_ready (set_ready 3 two_conditions))
unfolding find String-discrete
is_ready-set_ready_example = is_ready-set_ready a_meta 3 two_conditions (refl, (refl, tt))
