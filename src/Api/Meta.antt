-- ===== src/Api/Meta.antt =====
-- The parts of `metav1` that the operator reads and writes: object metadata and conditions.
-- A slice is a list (nil and empty are one); a map is an `Option` of an association list, as
-- writing to a nil map panics. A time is a number of seconds.
use apisix_operator.Prelude.{ℕ, String, String-discrete, Bool, List, [], Option, none, Eq}

abbrev pub Time : Type 0
Time = ℕ

abbrev pub Labels : Type 0
Labels = List (String × String)

pub record GroupVersionKind : Type 0 where
  pub group : String
  pub version : String
  pub kind : String

-- `Controller` and `BlockOwnerDeletion` are pointers to a bool.
pub record OwnerReference : Type 0 where
  pub api_version : String
  pub kind : String
  pub name : String
  pub uid : String
  pub controller : Option Bool
  pub block_owner_deletion : Option Bool

unfoldable pub Labels-discrete : Discrete (Option Labels)
Labels-discrete = hlevel String-discrete

instance abbrev pub labels_eq : Eq (Option Labels)
labels_eq = record { dec = Labels-discrete }

unfoldable pub OwnerReferences-discrete : Discrete (List OwnerReference)
OwnerReferences-discrete = hlevel String-discrete

instance abbrev pub owner_references_eq : Eq (List OwnerReference)
owner_references_eq = record { dec = OwnerReferences-discrete }

pub record ObjectMeta : Type 0 where
  pub name : String
  pub generate_name : String
  pub namespace : String
  pub uid : String
  pub resource_version : String
  pub generation : ℕ
  pub deletion_timestamp : Option Time
  pub labels : Option Labels
  pub owner_references : List OwnerReference
  pub finalizers : List String

abbrev pub empty_meta : ObjectMeta
empty_meta = record {
  name = "";
  generate_name = "";
  namespace = "";
  uid = "";
  resource_version = "";
  generation = 0;
  deletion_timestamp = none;
  labels = none;
  owner_references = [];
  finalizers = [];
}

pub data ConditionStatus : Type 0 where
  condition_true condition_false condition_unknown : ConditionStatus

unfoldable pub ConditionStatus-discrete : Discrete ConditionStatus
ConditionStatus-discrete = hlevel

instance abbrev pub condition_status_eq : Eq ConditionStatus
condition_status_eq = record { dec = ConditionStatus-discrete }

pub record Condition : Type 0 where
  pub type : String
  pub status : ConditionStatus
  pub observed_generation : ℕ
  pub last_transition_time : Time
  pub reason : String
  pub message : String
