-- ===== src/Kubernetes/Status/Ready.antt =====
-- What the Ready condition says after `SetReady` and `InitReady`.
use apisix_operator.Prelude.{
  String, ◌≡◌, ◌≢◌, ◌↔◌, refl, true, false, List, [], ◌∷◌, arith, not, ◌&&◌, all, ◌==◌, ◌!=◌,
  string_eq,
}
use apisix_operator.Api.Meta.{
  Time, Condition, condition_true, condition_false, condition_status_eq, ConditionStatus-discrete,
}
use apisix_operator.Api.Types.{ConditionsAware}
use apisix_operator.Kubernetes.Status.{
  ready_type, dependencies_not_ready_reason, dependencies_not_ready_message, set_condition,
  get_condition, is_ready, init_ready, set_ready, ready_condition, are_all_conditions_ready,
  new_condition,
}
use apisix_operator.Kubernetes.Status.Laws.{get_condition-set_condition}

-- Every condition but Ready is True.
abbrev pub OthersAreTrue : List Condition → Type 0
OthersAreTrue [] = Unit
OthersAreTrue (c ∷ cs) = (c.type ≢ ready_type → c.status ≡ condition_true) × OthersAreTrue cs

all_ready-OthersAreTrue :
    (cs : List Condition)
    → (all (λ c. not (c.type != ready_type && c.status != condition_true)) cs ≡ true)
      ↔ OthersAreTrue cs
unfolding all
all_ready-OthersAreTrue [] = ground arith
all_ready-OthersAreTrue (c ∷ cs) = ground (arith, all_ready-OthersAreTrue cs)

abbrev not_ready_condition : Time → Condition
unfolding new_condition
not_ready_condition now =
    new_condition now ready_type condition_false dependencies_not_ready_reason
      dependencies_not_ready_message

module _ {ℓ} {R : Type ℓ} ⦃aware : ConditionsAware R⦄ where
  open aware use {get_conditions}

  pub is_ready-set_condition :
      (c : Condition) (r : R)
      → c.type ≡ ready_type
      → is_ready (set_condition c r) ≡ (c.status == condition_true)
  unfolding is_ready get_condition
  is_ready-set_condition c r e = ground (arith, get_condition-set_condition ready_type c r)

  pub ready_condition_lem :
      (now : Time) (r : R)
      → ((ready_condition now r).type ≡ ready_type)
        × (((ready_condition now r).status ≡ condition_true) ↔ OthersAreTrue (get_conditions r))
  unfolding ready_condition are_all_conditions_ready new_condition
  ready_condition_lem now r = ground (arith, all_ready-OthersAreTrue (get_conditions r))

  -- After SetReady the resource is ready exactly if every condition but Ready is True, and every
  -- condition but Ready is what it was.
  pub set_ready-OthersAreTrue :
      (now : Time) (r : R)
      → ((is_ready (set_ready now r) ≡ true) ↔ OthersAreTrue (get_conditions r))
        × ((t : String) → t ≢ ready_type → get_condition t (set_ready now r) ≡ get_condition t r)
  set_ready-OthersAreTrue now r =
      let e = ready_condition_lem now r in
      let c = ready_condition now r in
      unfold set_ready in
      (
        ground (arith, e, is_ready-set_condition c r e.0),
        λ t ne. ground (arith, e, get_condition-set_condition t c r),
      )

  -- After InitReady the resource is not ready, and every condition but Ready is what it was.
  pub init_ready_lem :
      (now : Time) (r : R)
      → (is_ready (init_ready now r) ≡ false)
        × ((t : String) → t ≢ ready_type → get_condition t (init_ready now r) ≡ get_condition t r)
  unfolding init_ready new_condition ConditionStatus-discrete
  init_ready_lem now r = (
    is_ready-set_condition (not_ready_condition now) r refl,
    λ t ne. ground (arith, get_condition-set_condition t (not_ready_condition now) r),
  )
