-- ===== src/Kubernetes/Status.antt =====
-- internal/utils/kubernetes/status.go, for every type with conditions. A call of `metav1.Now` is
-- the argument `now`; the pair that `GetCondition` returns is an `Option`.
pub mod Laws
pub mod Ready
pub mod Update
pub mod Evolution
use apisix_operator.Prelude.{
  ℕ, String, String-discrete, Bool, true, false, not, ◌&&◌, ◌||◌, Option, none, some, List, [], ◌∷◌,
  ◌++◌, length, find, keep, all, if◌then◌else◌, ◌==◌, ◌!=◌, string_eq, nat_eq, ℕ_discrete,
}
use apisix_operator.Api.Meta.{
  Time, Condition, ConditionStatus, condition_true, condition_false, condition_status_eq,
  ConditionStatus-discrete,
}
use apisix_operator.Api.Types.{ConditionsAware}

abbrev pub ready_type : String
ready_type = "Ready"

abbrev pub dependencies_not_ready_reason : String
dependencies_not_ready_reason = "DependenciesNotReady"

abbrev pub resource_ready_reason : String
resource_ready_reason = "ResourceReady"

abbrev pub dependencies_not_ready_message : String
dependencies_not_ready_message = "There are other conditions that are not yet ready"

unfoldable pub new_condition : Time → String → ConditionStatus → String → String → Condition
new_condition now type status reason message = record {
  type = type;
  status = status;
  observed_generation = 0;
  last_transition_time = now;
  reason = reason;
  message = message;
}

-- The first condition of a type.
abbrev pub find_type : String → List Condition → Option Condition
find_type type = find (λ c. c.type == type)

-- The loop of `IsValidCondition` and `IsReady`, at the condition that ends it.
abbrev status_is_true : Option Condition → Bool
status_is_true none = false
status_is_true (some c) = c.status == condition_true

module _ {ℓ} {R : Type ℓ} ⦃aware : ConditionsAware R⦄ where
  open aware use {get_conditions, set_conditions}

  unfoldable pub set_condition : Condition → R → R
  unfolding keep
  set_condition condition resource =
      set_conditions
        (keep (λ c. c.type != condition.type) (get_conditions resource) ++ condition ∷ []) resource

  unfoldable pub get_condition : String → R → Option Condition
  unfolding find
  get_condition type resource = find_type type (get_conditions resource)

  unfoldable pub is_valid_condition : String → R → Bool
  unfolding find
  is_valid_condition type resource = status_is_true (find_type type (get_conditions resource))

  unfoldable pub is_ready : R → Bool
  unfolding find
  is_ready resource = status_is_true (find_type ready_type (get_conditions resource))

  unfoldable pub init_ready : Time → R → R
  unfolding new_condition set_condition
  init_ready now resource =
      set_condition
        (new_condition now ready_type condition_false dependencies_not_ready_reason
          dependencies_not_ready_message)
        resource

  unfoldable pub are_all_conditions_ready : R → Bool
  unfolding all
  are_all_conditions_ready resource =
      all (λ c. not (c.type != ready_type && c.status != condition_true)) (get_conditions resource)

  -- The condition that `SetReady` builds.
  unfoldable pub ready_condition : Time → R → Condition
  unfolding are_all_conditions_ready new_condition
  ready_condition now resource =
      if are_all_conditions_ready resource
      then new_condition now ready_type condition_true resource_ready_reason ""
      else new_condition now ready_type condition_false dependencies_not_ready_reason
          dependencies_not_ready_message

  unfoldable pub set_ready : Time → R → R
  unfolding ready_condition set_condition
  set_ready now resource = set_condition (ready_condition now resource) resource

-- One round of the loop of `NeedsUpdate`.
unfoldable pub differs : Option Condition → Condition → Bool
differs none c = true
differs (some u) c = u.reason != c.reason || u.message != c.message || u.status != c.status

unfoldable pub any_differs : List Condition → List Condition → Bool
any_differs updated [] = false
any_differs updated (c ∷ cs) = differs (find_type c.type updated) c || any_differs updated cs

module _ {ℓ κ} {C : Type ℓ} {U : Type κ} ⦃c : ConditionsAware C⦄ ⦃u : ConditionsAware U⦄ where
  unfoldable pub needs_update : C → U → Bool
  unfolding differs any_differs find
  needs_update current updated =
      if length (c.get_conditions current) != length (u.get_conditions updated)
      then true
      else any_differs (u.get_conditions updated) (c.get_conditions current)
