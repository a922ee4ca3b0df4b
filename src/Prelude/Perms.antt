-- ===== src/Prelude/Perms.antt =====
-- Lists that hold the same elements in another order.
use mathlib.Core.Path.{◌≡◌, refl, sym, ◌∙◌, subst}
use mathlib.Core.Bool.{Bool, true, false, Bool-discrete}
use mathlib.Core.List
use mathlib.Core.List.{List, [], ◌∷◌, ◌++◌, Perm}
use native.Mathlib.Omega.{arith}
use apisix_operator.Prelude.Tests.{Bool-cases}
use apisix_operator.Prelude.Lists.{keep, any}
use mathlib.Core.Logic.{inl, inr}

module _ {ℓ} {A : Type ℓ} where
  keep-filter :
      (p : A → Bool) (xs : List A) → keep p xs ≡ List.filter (λ a. Bool-discrete (p a) true) xs
  unfolding keep
  keep-filter p [] = refl
  keep-filter p (x ∷ xs) = ground (arith, keep-filter p xs)

  pub keep-Perm : (p : A → Bool) {xs ys : List A} → Perm xs ys → Perm (keep p xs) (keep p ys)
  keep-Perm p {xs} {ys} h =
      rw (keep-filter p xs, keep-filter p ys) (List.Perm.filter (λ a. Bool-discrete (p a) true) h)

  any-keep : (p : A → Bool) (xs : List A) → any p xs ≡ false → keep p xs ≡ []
  unfolding any keep
  any-keep p [] h = refl
  any-keep p (x ∷ xs) h = ground (arith, any-keep p xs)

  keep-any : (p : A → Bool) (xs : List A) → keep p xs ≡ [] → any p xs ≡ false
  unfolding any keep
  keep-any p [] h = refl
  keep-any p (x ∷ xs) h = ground (arith, keep-any p xs)

  none_passes : (p : A → Bool) {xs ys : List A} → Perm xs ys → any p xs ≡ false → any p ys ≡ false
  none_passes p {xs} {ys} h e = keep-any p ys (
      List.Perm.eq-nil
        (subst (λ zs. Perm (keep p ys) zs) (any-keep p xs e) (List.Perm.symm (keep-Perm p h))))

  -- A test that some element passes does not look at the order.
  pub any-Perm : (p : A → Bool) {xs ys : List A} → Perm xs ys → any p xs ≡ any p ys
  any-Perm p {xs} {ys} h = elim (Bool-cases (any p xs)) [
    | inr b ↦ b ∙ sym (none_passes p h b)
    | inl b ↦ elim (Bool-cases (any p ys)) [
      | inl b' ↦ b ∙ sym b'
      | inr b' ↦ none_passes p (List.Perm.symm h) b' ∙ sym b'
    ]
  ]
