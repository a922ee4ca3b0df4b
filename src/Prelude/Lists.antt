-- ===== src/Prelude/Lists.antt =====
-- Go's loops over slices: filtering, searching, and predicates on every element.
use Prim.Native.Nat.{suc, ◌≤◌, ◌<◌}
use mathlib.Core.Path.{◌≡◌, refl, ap}
use mathlib.Core.Bool.{Bool, true, false, not, ◌||◌, ◌&&◌}
use mathlib.Core.Option.{Option, none, some}
use mathlib.Core.List.{List, [], ◌∷◌, ◌++◌}
use native.Mathlib.Omega.{arith}
use apisix_operator.Prelude.Tests.{length}
use apisix_operator.Prelude.Equality.{if◌then◌else◌}

module _ {ℓ} {A : Type ℓ} where
  -- The elements that pass the test, in their order.
  unfoldable pub keep : (A → Bool) → List A → List A
  keep p [] = []
  keep p (x ∷ xs) = let rest = keep p xs in if p x then x ∷ rest else rest

  unfoldable pub find : (A → Bool) → List A → Option A
  find p [] = none
  find p (x ∷ xs) = if p x then some x else find p xs

  unfoldable pub any : (A → Bool) → List A → Bool
  any p [] = false
  any p (x ∷ xs) = p x || any p xs

  unfoldable pub all : (A → Bool) → List A → Bool
  all p [] = true
  all p (x ∷ xs) = p x && all p xs

  pub any-append_one :
      (p : A → Bool) (xs : List A) (y : A) → any p (xs ++ y ∷ []) ≡ (any p xs || p y)
  unfolding any
  any-append_one p [] y = ground arith
  any-append_one p (x ∷ xs) y = ground (arith, any-append_one p xs y)

  pub length-append_one : (xs : List A) (y : A) → length (xs ++ y ∷ []) ≡ suc (length xs)
  length-append_one [] y = refl
  length-append_one (x ∷ xs) y = omega (arith, length-append_one xs y)

  pub keep-absent : (p : A → Bool) (xs : List A) → any (λ x. not (p x)) xs ≡ false → keep p xs ≡ xs
  unfolding any keep
  keep-absent p [] h = refl
  keep-absent p (x ∷ xs) h = ground (arith, keep-absent p xs)

  length-keep_le : (p : A → Bool) (xs : List A) → length (keep p xs) ≤ length xs
  unfolding keep
  length-keep_le p [] = omega arith
  length-keep_le p (x ∷ xs) = ground (arith, length-keep_le p xs)

  -- Something is dropped exactly if some element fails the test.
  pub length-keep_lt :
      (p : A → Bool) (xs : List A) → any (λ x. not (p x)) xs ≡ true → length (keep p xs) < length xs
  unfolding any keep
  length-keep_lt p [] h = cc
  length-keep_lt p (x ∷ xs) h = ground (arith, length-keep_lt p xs, length-keep_le p xs)

  pub keep-append : (p : A → Bool) (xs ys : List A) → keep p (xs ++ ys) ≡ keep p xs ++ keep p ys
  unfolding keep
  keep-append p [] ys = refl
  keep-append p (x ∷ xs) ys = ground (arith, keep-append p xs ys)

  pub keep-append_one :
      (p : A → Bool) (xs : List A) (x : A)
      → p x ≡ true
      → keep p (xs ++ x ∷ []) ≡ keep p xs ++ x ∷ []
  unfolding keep
  keep-append_one p [] x h = rw h refl
  keep-append_one p (y ∷ xs) x h = ground (arith, keep-append_one p xs x h)

  pub keep-drop_one :
      (p : A → Bool) (xs : List A) (x : A) → p x ≡ false → keep p (xs ++ x ∷ []) ≡ keep p xs
  unfolding keep
  keep-drop_one p [] x h = rw h refl
  keep-drop_one p (y ∷ xs) x h = ground (arith, keep-drop_one p xs x h)

  pub keep-keep_comm : (p q : A → Bool) (xs : List A) → keep p (keep q xs) ≡ keep q (keep p xs)
  unfolding keep
  keep-keep_comm p q [] = refl
  keep-keep_comm p q (x ∷ xs) = ground (arith, keep-keep_comm p q xs)

  pub keep-keep_self : (p : A → Bool) (xs : List A) → keep p (keep p xs) ≡ keep p xs
  unfolding keep
  keep-keep_self p [] = refl
  keep-keep_self p (x ∷ xs) = ground (arith, keep-keep_self p xs)

  pub keep-cong : (p q : A → Bool) (xs : List A) → ((x : A) → p x ≡ q x) → keep p xs ≡ keep q xs
  unfolding keep
  keep-cong p q [] h = refl
  keep-cong p q (x ∷ xs) h = rw (h x, keep-cong p q xs h) refl

  pub keep_all : (xs : List A) → keep (λ x. true) xs ≡ xs
  unfolding keep
  keep_all [] = refl
  keep_all (x ∷ xs) = ap (λ r. x ∷ r) (keep_all xs)

  pub keep-keep_and :
      (p q : A → Bool) (xs : List A) → keep p (keep q xs) ≡ keep (λ x. q x && p x) xs
  unfolding keep
  keep-keep_and p q [] = refl
  keep-keep_and p q (x ∷ xs) = ground (arith, keep-keep_and p q xs)

  module _ (p : A → Bool) (same : A → A → Bool) where
    -- Whatever passes the test is the same as an element of the list.
    abbrev covers : List A → List A → Bool
    covers found = all (λ x. not (p x) || any (λ a. same a x) found)

    covers-cons :
        (a : A) (found xs : List A) → covers found xs ≡ true → covers (a ∷ found) xs ≡ true
    unfolding any all
    covers-cons a found [] h = refl
    covers-cons a found (x ∷ xs) h = ground (arith, covers-cons a found xs)

    covers-keep : (xs : List A) → ((x : A) → same x x ≡ true) → covers (keep p xs) xs ≡ true
    unfolding any all keep
    covers-keep [] h = refl
    covers-keep (x ∷ xs) h =
        ground (arith, h x, covers-keep xs h, covers-cons x (keep p xs) xs (covers-keep xs h))

    keep-gone_of_covers :
        (found xs : List A)
        → covers found xs ≡ true
        → keep p (keep (λ x. not (any (λ a. same a x) found)) xs) ≡ []
    unfolding all keep
    keep-gone_of_covers found [] h = refl
    keep-gone_of_covers found (x ∷ xs) h = ground (arith, keep-gone_of_covers found xs)

    -- Once those that pass the test are taken out, with all that are the same, none passes it.
    pub keep-gone :
        (xs : List A)
        → ((x : A) → same x x ≡ true)
        → keep p (keep (λ x. not (any (λ a. same a x) (keep p xs))) xs) ≡ []
    keep-gone xs h = keep-gone_of_covers (keep p xs) xs (covers-keep xs h)
