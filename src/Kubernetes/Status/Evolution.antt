-- ===== src/Kubernetes/Status/Evolution.antt =====
-- The conditions of a resource as a map from types to conditions, and the operations on them as
-- steps of that map.
use apisix_operator.Prelude.{
  String, ◌≡◌, ◌≢◌, ◌↔◌, refl, fun_ext, arith, ◌⊎◌, inl, inr, Bool-cases, Option, some, List, [],
  ◌∷◌, find, if◌then◌else◌, ◌==◌, ==_refl, string_eq,
}
use apisix_operator.Api.Meta.{Time, Condition, condition_true, condition_false, condition_status_eq}
use apisix_operator.Api.Types.{ConditionsAware}
use apisix_operator.Kubernetes.Status.{
  find_type, get_condition, set_condition, init_ready, set_ready, ready_condition, ready_type,
  are_all_conditions_ready, new_condition, dependencies_not_ready_reason,
  dependencies_not_ready_message, resource_ready_reason,
}
use apisix_operator.Kubernetes.Status.Laws.{
  UniqueTypes, get_condition-set_condition, set_condition-UniqueTypes,
}
use apisix_operator.Kubernetes.Status.Ready.{OthersAreTrue, ready_condition_lem}

-- The abstract state: what `GetCondition` answers for each type.
abbrev pub View : Type 0
View = String → Option Condition

abbrev pub put : Condition → View → View
put c v t = if c.type == t then some c else v t

-- Every condition but Ready is True.
abbrev pub AllTrue : View → Type 0
AllTrue v = (t : String) (c : Condition) → t ≢ ready_type → v t ≡ some c → c.status ≡ condition_true

-- The operations that write conditions.
pub data Write : Type 0 where
  set_one : Condition → Write
  mark_unready mark_ready : Time → Write

abbrev pub up : Time → Condition
unfolding new_condition
up now = new_condition now ready_type condition_true resource_ready_reason ""

abbrev pub down : Time → Condition
unfolding new_condition
down now =
    new_condition now ready_type condition_false dependencies_not_ready_reason
      dependencies_not_ready_message

-- What each operation may do to the map.
pub data Evolves : View → Write → View → Type 0 where
  one_set : (v : View) (c : Condition) → Evolves v (set_one c) (put c v)
  unready_set : (v : View) (now : Time) → Evolves v (mark_unready now) (put (down now) v)
  ready_up : (v : View) (now : Time) → AllTrue v → Evolves v (mark_ready now) (put (up now) v)
  ready_down : (v : View) (now : Time) → ¬ AllTrue v → Evolves v (mark_ready now) (put (down now) v)

-- A sequence of operations.
pub data EvolvesAll : View → List Write → View → Type 0 where
  nothing : (v : View) → EvolvesAll v [] v
  step :
      {u v w : View} (op : Write) {ops : List Write}
      → Evolves u op v
      → EvolvesAll v ops w
      → EvolvesAll u (op ∷ ops) w

all_of_others :
    (cs : List Condition) (t : String) (c : Condition)
    → OthersAreTrue cs
    → t ≢ ready_type
    → find_type t cs ≡ some c
    → c.status ≡ condition_true
unfolding find
all_of_others [] t c o ne h = ground arith
all_of_others (d ∷ cs) t c (o, os) ne h = ground (arith, o, all_of_others cs t c os)

others_of_all :
    (cs : List Condition) → UniqueTypes cs → AllTrue (λ t. find_type t cs) → OthersAreTrue cs
unfolding find
others_of_all [] u h = tt
others_of_all (c ∷ cs) (fresh, u) h = (
  λ ne. h c.type c ne (rw (==_refl c.type) refl),
  others_of_all cs u (λ t d ne e. h t d ne (ground arith)),
)

module _ {ℓ} {R : Type ℓ} ⦃aware : ConditionsAware R⦄ where
  open aware use {get_conditions}

  abbrev pub view : R → View
  view r t = get_condition t r

  abbrev pub apply : Write → R → R
  apply (set_one c) r = set_condition c r
  apply (mark_unready now) r = init_ready now r
  apply (mark_ready now) r = set_ready now r

  abbrev pub apply_all : List Write → R → R
  apply_all [] r = r
  apply_all (op ∷ ops) r = apply_all ops (apply op r)

  view-set_condition : (c : Condition) (r : R) → view (set_condition c r) ≡ put c (view r)
  view-set_condition c r = fun_ext (λ t. get_condition-set_condition t c r)

  AllTrue-OthersAreTrue :
      (r : R) → UniqueTypes (get_conditions r) → AllTrue (view r) ↔ OthersAreTrue (get_conditions r)
  unfolding get_condition
  AllTrue-OthersAreTrue r u = (
    others_of_all (get_conditions r) u,
    λ o t c ne h. all_of_others (get_conditions r) t c o ne h,
  )

  ready_condition_cases :
      (now : Time) (r : R)
      → ((ready_condition now r ≡ up now) × OthersAreTrue (get_conditions r))
        ⊎ ((ready_condition now r ≡ down now) × ¬ OthersAreTrue (get_conditions r))
  unfolding ready_condition up down new_condition are_all_conditions_ready
  ready_condition_cases now r =
      let (t, s) = ready_condition_lem now r in
      elim (Bool-cases (are_all_conditions_ready r)) [
        | inl b ↦ inl (rw b refl, s.0 (rw b refl))
        | inr b ↦ inr (rw b refl, λ o. ground (arith, s.1 o))
      ]

  apply-Evolves :
      (op : Write) (r : R)
      → UniqueTypes (get_conditions r)
      → Evolves (view r) op (view (apply op r)) × UniqueTypes (get_conditions (apply op r))
  apply-Evolves (set_one c) r u =
      (rw (view-set_condition c r) (one_set (view r) c), set_condition-UniqueTypes c r u)
  apply-Evolves (mark_unready now) r u =
      unfold init_ready down in
      (
        rw (view-set_condition (down now) r) (unready_set (view r) now),
        set_condition-UniqueTypes (down now) r u,
      )
  apply-Evolves (mark_ready now) r u =
      let c = ready_condition now r in
      let (all_of, of_all) = AllTrue-OthersAreTrue r u in
      let e = view-set_condition c r in
      unfold set_ready in
      elim (ready_condition_cases now r) [
        | inl (same, o) ↦
            (rw (e, same) (ready_up (view r) now (of_all o)), set_condition-UniqueTypes c r u)
        | inr (same, o) ↦ (
          rw (e, same) (ready_down (view r) now (λ h. o (all_of h))),
          set_condition-UniqueTypes c r u,
        )
      ]

  -- SetCondition, InitReady and SetReady implement steps on a map from types to conditions: from
  -- conditions of distinct types, any sequence of these operations, on the list of conditions, does
  -- to what GetCondition answers what the sequence of steps does to the map, where SetReady writes
  -- True exactly if every other condition of the map is True; and the types stay distinct.
  pub apply_all-EvolvesAll :
      (ops : List Write) (r : R)
      → UniqueTypes (get_conditions r)
      → EvolvesAll (view r) ops (view (apply_all ops r))
        × UniqueTypes (get_conditions (apply_all ops r))
  apply_all-EvolvesAll [] r u = (nothing (view r), u)
  apply_all-EvolvesAll (op ∷ ops) r u =
      let (e, u') = apply-Evolves op r u in
      let (es, u'') = apply_all-EvolvesAll ops (apply op r) u' in (step op e es, u'')
