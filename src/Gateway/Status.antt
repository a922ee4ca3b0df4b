-- ===== src/Gateway/Status.antt =====
-- The tests on the status of a Gateway, which look at every condition, and the test of
-- internal/utils/kubernetes/status.go, which looks at the first of the type.
use apisix_operator.Prelude.{
  String, ◌≡◌, refl, arith, Bool, false, ◌&&◌, Option, none, some, List, [], ◌∷◌, any, find,
  Bool-cases, inl, inr, ◌==◌, ==_refl, ◌∙◌, ap, sym, string_eq, String-discrete,
}
use apisix_operator.Api.Meta.{
  Time, ObjectMeta, Condition, condition_true, condition_status_eq, ConditionStatus-discrete,
}
use apisix_operator.Api.Types.{ConditionsAware}
use apisix_operator.Kubernetes.Status
use apisix_operator.Kubernetes.Status.{
  find_type, get_condition, set_condition, ready_type, resource_ready_reason, set_ready,
  ready_condition, new_condition, are_all_conditions_ready,
}
use apisix_operator.Kubernetes.Status.Laws.{
  UniqueTypes, get_condition-set_condition, set_condition-UniqueTypes,
}
use apisix_operator.Kubernetes.Status.Ready.{is_ready-set_condition, ready_condition_lem}
use apisix_operator.Gateway.{Gateway, says, is_scheduled, is_ready}

-- The first condition of a type has a reason and is True.
abbrev pub is_true_for : String → Option Condition → Bool
is_true_for reason none = false
is_true_for reason (some c) = c.reason == reason && c.status == condition_true

absent_says :
    (type reason : String) (cs : List Condition)
    → find_type type cs ≡ none
    → any (says type reason) cs ≡ false
unfolding any find
absent_says type reason [] h = refl
absent_says type reason (c ∷ cs) h = ground (arith, absent_says type reason cs)

says_first :
    (type reason : String) (cs : List Condition)
    → UniqueTypes cs
    → any (says type reason) cs ≡ is_true_for reason (find_type type cs)
unfolding any find
says_first type reason [] u = refl
says_first type reason (c ∷ cs) (fresh, u) =
    ground (arith, says_first type reason cs u, absent_says type reason cs)

-- A Gateway with given conditions.
abbrev pub gateway_with : ObjectMeta → List Condition → Gateway
gateway_with m cs = record { meta = m; conditions = cs }

module _ {ℓ} {R : Type ℓ} ⦃aware : ConditionsAware R⦄ where
  open aware use {get_conditions}

  ready_reason :
      (now : Time) (r : R)
      → is_true_for resource_ready_reason (some (ready_condition now r))
        ≡ ((ready_condition now r).status == condition_true)
  unfolding ready_condition new_condition ConditionStatus-discrete String-discrete
  ready_reason now r = elim (Bool-cases (are_all_conditions_ready r)) [
    | inl b ↦ rw b refl
    | inr b ↦ rw b refl
  ]

  ready_found :
      (now : Time) (r : R)
      → get_condition ready_type (set_ready now r) ≡ some (ready_condition now r)
  unfolding set_ready
  ready_found now r = ground (
    arith,
    get_condition-set_condition ready_type (ready_condition now r) r,
    (ready_condition_lem now r).0,
    ==_refl ready_type,
  )

  ready_agrees :
      (now : Time) (r : R)
      → UniqueTypes (get_conditions r)
      → any (says ready_type resource_ready_reason) (get_conditions (set_ready now r))
        ≡ Status.is_ready (set_ready now r)
  unfolding set_ready get_condition
  ready_agrees now r u =
      let c = ready_condition now r in
      says_first ready_type resource_ready_reason (get_conditions (set_condition c r))
        (set_condition-UniqueTypes c r u)
      ∙ ap (is_true_for resource_ready_reason) (ready_found now r)
      ∙ ready_reason now r
      ∙ sym (is_ready-set_condition c r (ready_condition_lem now r).0)

  -- For conditions of distinct types, IsScheduled and IsReady of a Gateway say what the first
  -- condition of the type says. After SetReady, which writes the reason that IsReady looks for, IsReady of a
  -- Gateway with these conditions agrees with IsReady of the Kubernetes utilities.
  pub is_ready-set_ready :
      (m : ObjectMeta) (now : Time) (r : R)
      → UniqueTypes (get_conditions r)
      → (is_scheduled (gateway_with m (get_conditions r))
          ≡ is_true_for "Scheduled" (get_condition "Scheduled" r))
        × (is_ready (gateway_with m (get_conditions r))
            ≡ is_true_for resource_ready_reason (get_condition ready_type r))
        × (is_ready (gateway_with m (get_conditions (set_ready now r)))
            ≡ Status.is_ready (set_ready now r))
  unfolding is_scheduled is_ready get_condition
  is_ready-set_ready m now r u = (
    says_first "Scheduled" "Scheduled" (get_conditions r) u,
    says_first ready_type resource_ready_reason (get_conditions r) u,
    ready_agrees now r u,
  )
