-- ===== src/Kubernetes/Status/Laws.antt =====
-- Conditions behave as a map from types to conditions, and their types stay distinct.
use apisix_operator.Prelude.{
  String, ◌≡◌, none, some, List, [], ◌∷◌, ◌++◌, arith, find, keep, if◌then◌else◌, ◌==◌, ◌!=◌,
  string_eq,
}
use apisix_operator.Api.Meta.{Condition}
use apisix_operator.Api.Types.{ConditionsAware}
use apisix_operator.Kubernetes.Status.{find_type, set_condition, get_condition}

-- No type occurs twice: the API's `listType=map`, `listMapKey=type`.
abbrev pub UniqueTypes : List Condition → Type 0
UniqueTypes [] = Unit
UniqueTypes (c ∷ cs) = (find_type c.type cs ≡ none) × UniqueTypes cs

pub find-keep-append :
    (t : String) (c : Condition) (cs : List Condition)
    → find_type t (keep (λ d. d.type != c.type) cs ++ c ∷ [])
      ≡ (if c.type == t then some c else find_type t cs)
unfolding find keep
find-keep-append t c [] = ground arith
find-keep-append t c (d ∷ cs) = ground (arith, find-keep-append t c cs)

keep-append-UniqueTypes :
    (c : Condition) (cs : List Condition)
    → UniqueTypes cs
    → UniqueTypes (keep (λ d. d.type != c.type) cs ++ c ∷ [])
unfolding find keep
keep-append-UniqueTypes c [] u = ground arith
keep-append-UniqueTypes c (d ∷ cs) (fresh, u) =
    ground (arith, keep-append-UniqueTypes c cs u, find-keep-append d.type c cs)

module _ {ℓ} {R : Type ℓ} ⦃aware : ConditionsAware R⦄ where
  open aware use {get_conditions, get-set}

  -- After SetCondition, GetCondition of the condition's type finds just that condition, and of
  -- any other type what it found before.
  pub get_condition-set_condition :
      (t : String) (c : Condition) (r : R)
      → get_condition t (set_condition c r) ≡ (if c.type == t then some c else get_condition t r)
  unfolding get_condition set_condition
  get_condition-set_condition t c r = rw get-set (find-keep-append t c (get_conditions r))

  -- SetCondition keeps the types of the conditions distinct.
  pub set_condition-UniqueTypes :
      (c : Condition) (r : R)
      → UniqueTypes (get_conditions r)
      → UniqueTypes (get_conditions (set_condition c r))
  unfolding set_condition
  set_condition-UniqueTypes c r u = rw get-set (keep-append-UniqueTypes c (get_conditions r) u)
