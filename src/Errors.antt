-- ===== src/Errors.antt =====
-- Go's errors and panics as values, and the monads in which the operator's functions run.
pub mod Results
pub mod Calls
use apisix_operator.Prelude.{ℕ, String, Bool, true, false}

mutual
  -- `not_found` and `conflict` are the API errors that `k8serrors.IsNotFound` and `IsConflict` tell
  -- apart, `api_failure` is any other; `panicked` is a panic; `message` is a `fmt.Errorf` without
  -- `%w`, `too_many` the one of a count, `wrapped` one with `%w`; `multi` is a `multierror`.
  pub data Error : Type 0 where
    not_found conflict : Error
    api_failure : String → Error
    panicked : String → Error
    message : String → Error
    too_many : String → ℕ → Error
    wrapped : String → Error → Error
    data_plane_not_set : String → String → Error
    multi : Errors → Error

  pub data Errors : Type 0 where
    end : Errors
    more : Error → Errors → Errors

abbrev pub is_not_found : Error → Bool
is_not_found not_found = true
is_not_found (wrapped m e) = is_not_found e
is_not_found _ = false

abbrev pub is_conflict : Error → Bool
is_conflict conflict = true
is_conflict (wrapped m e) = is_conflict e
is_conflict _ = false

pub data Result {ℓ} (A : Type ℓ) : Type ℓ where
  ok : A → Result A
  err : Error → Result A
