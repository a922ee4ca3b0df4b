-- ===== src/Kubernetes/Status/Update.antt =====
-- `NeedsUpdate` compares the reports of all conditions, and nothing else.
use apisix_operator.Prelude.{
  suc, ◌≤◌, String, ◌≡◌, ◌≢◌, ◌↔◌, refl, sym, false, none, List, [], ◌∷◌, arith, find, keep, length,
  ==_refl, ◌!=◌, if◌then◌else◌, ◌==◌, string_eq, nat_eq,
}
use mathlib.Core.Option
use apisix_operator.Api.Meta.{Condition, ConditionStatus, condition_unknown}
use apisix_operator.Api.Types.{ConditionsAware}
use apisix_operator.Kubernetes.Status.{find_type, get_condition, differs, any_differs, needs_update}
use apisix_operator.Kubernetes.Status.Laws.{UniqueTypes}

-- What a condition reports: not when it changed, nor for which generation.
abbrev pub Report : Type 0
Report = ConditionStatus × String × String

abbrev pub report : Condition → Report
report c = (c.status, c.reason, c.message)

-- Dropping the conditions of one type, in a list of distinct types.
drop_type : String → List Condition → List Condition
drop_type t = keep (λ c. c.type != t)

drop_type-absent : (t : String) (cs : List Condition) → find_type t cs ≡ none → drop_type t cs ≡ cs
unfolding find drop_type keep
drop_type-absent t [] h = refl
drop_type-absent t (c ∷ cs) h = ground (arith, drop_type-absent t cs)

length-drop_type :
    (t : String) (cs : List Condition)
    → UniqueTypes cs
    → find_type t cs ≢ none
    → length cs ≡ suc (length (drop_type t cs))
unfolding find drop_type keep
length-drop_type t [] u h = absurd (h refl)
length-drop_type t (c ∷ cs) (fresh, u) h =
    ground (arith, length-drop_type t cs u, drop_type-absent t cs, drop_type-absent c.type cs)

find-drop_type :
    (s t : String) (cs : List Condition)
    → find_type s (drop_type t cs) ≡ (if t == s then none else find_type s cs)
unfolding find drop_type keep
find-drop_type s t [] = ground arith
find-drop_type s t (c ∷ cs) = ground (arith, find-drop_type s t cs)

drop_type-UniqueTypes :
    (t : String) (cs : List Condition) → UniqueTypes cs → UniqueTypes (drop_type t cs)
unfolding drop_type keep
drop_type-UniqueTypes t [] u = tt
drop_type-UniqueTypes t (c ∷ cs) (fresh, u) =
    ground (arith, drop_type-UniqueTypes t cs u, find-drop_type c.type t cs)

-- The types of one list are among those of another.
abbrev IsWithin : List Condition → List Condition → Type 0
IsWithin cs ds = (t : String) → find_type t cs ≢ none → find_type t ds ≢ none

find_type_self : (c : Condition) (cs : List Condition) → find_type c.type (c ∷ cs) ≢ none
unfolding find
find_type_self c cs = ground (arith, ==_refl c.type)

IsWithin-drop_type :
    (c : Condition) (cs ds : List Condition)
    → find_type c.type cs ≡ none
    → IsWithin (c ∷ cs) ds
    → IsWithin cs (drop_type c.type ds)
unfolding find
IsWithin-drop_type c cs ds fresh w t h = ground (arith, find-drop_type t c.type ds, w t)

length-le_of_within :
    (cs ds : List Condition)
    → UniqueTypes cs
    → UniqueTypes ds
    → IsWithin cs ds
    → length cs ≤ length ds
length-le_of_within [] ds u v w = omega arith
length-le_of_within (c ∷ cs) ds (fresh, u) v w = omega (
  arith,
  length-drop_type c.type ds v (w c.type (find_type_self c cs)),
  length-le_of_within cs (drop_type c.type ds) u (drop_type-UniqueTypes c.type ds v)
      (IsWithin-drop_type c cs ds fresh w),
)

of_type : String → Condition
of_type t = record {
  type = t;
  status = condition_unknown;
  observed_generation = 0;
  last_transition_time = 0;
  reason = "";
  message = "";
}

-- Of two lists of distinct types, the longer one has all types of the other only if it is no
-- longer.
IsWithin-flip :
    (cs ds : List Condition)
    → UniqueTypes cs
    → UniqueTypes ds
    → length cs ≡ length ds
    → IsWithin cs ds
    → IsWithin ds cs
unfolding find of_type
IsWithin-flip cs ds u v e w t h missing =
    omega
      (arith, length-le_of_within (of_type t ∷ cs) ds (missing, u) v (λ s k. ground (arith, w s)))

abbrev SameAt : String → List Condition → List Condition → Type 0
SameAt t cs ds = Option.map report (find_type t cs) ≡ Option.map report (find_type t ds)

any_differs_sound :
    (ds cs : List Condition)
    → UniqueTypes cs
    → any_differs ds cs ≡ false
    → (t : String) → find_type t cs ≢ none
    → SameAt t cs ds
unfolding any_differs differs find
any_differs_sound ds [] u e t h = absurd (h refl)
any_differs_sound ds (c ∷ cs) (fresh, u) e t h =
    ground (arith, any_differs_sound ds cs u (ground arith) t)

any_differs_complete :
    (ds cs : List Condition)
    → UniqueTypes cs
    → ((t : String) → find_type t cs ≢ none → SameAt t cs ds)
    → any_differs ds cs ≡ false
unfolding any_differs differs find
any_differs_complete ds [] u h = refl
any_differs_complete ds (c ∷ cs) (fresh, u) h =
    ground
      (arith, ==_refl c.type, h c.type, any_differs_complete ds cs u (λ t k. ground (arith, h t)))

SameAt-IsWithin :
    (cs ds : List Condition)
    → ((t : String) → find_type t cs ≢ none → SameAt t cs ds)
    → IsWithin cs ds
SameAt-IsWithin cs ds h t k = ground (arith, h t)

same_of_no_difference :
    (cs ds : List Condition)
    → UniqueTypes cs
    → UniqueTypes ds
    → length cs ≡ length ds
    → any_differs ds cs ≡ false
    → (t : String) → SameAt t cs ds
same_of_no_difference cs ds u v e h t =
    let sound = any_differs_sound ds cs u h in
    let back = IsWithin-flip cs ds u v e (SameAt-IsWithin cs ds sound) in
    ground (arith, sound t, back t)

same-length :
    (cs ds : List Condition)
    → UniqueTypes cs
    → UniqueTypes ds
    → ((t : String) → SameAt t cs ds)
    → length cs ≡ length ds
same-length cs ds u v h = omega (
  arith,
  length-le_of_within cs ds u v (SameAt-IsWithin cs ds (λ t _. h t)),
  length-le_of_within ds cs v u (SameAt-IsWithin ds cs (λ t _. sym (h t))),
)

module _ {ℓ κ} {C : Type ℓ} {U : Type κ} ⦃c : ConditionsAware C⦄ ⦃u : ConditionsAware U⦄ where
  -- For resources whose condition types are distinct, NeedsUpdate answers false exactly if the
  -- two have conditions of the same types, with the same statuses, reasons and messages.
  pub needs_update-exact :
      (current : C) (updated : U)
      → UniqueTypes (c.get_conditions current)
      → UniqueTypes (u.get_conditions updated)
      → (needs_update current updated ≡ false) ↔ (
          (t : String)
          → Option.map report (get_condition t current)
            ≡ Option.map report (get_condition t updated))
  unfolding needs_update get_condition
  needs_update-exact current updated uc uu =
      let cs = c.get_conditions current in
      let ds = u.get_conditions updated in
      (
        λ h. same_of_no_difference cs ds uc uu (ground arith) (ground arith),
        λ h. ground (arith, same-length cs ds uc uu h, any_differs_complete ds cs uc (λ t _. h t)),
      )
