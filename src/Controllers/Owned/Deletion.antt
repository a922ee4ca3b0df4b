-- ===== src/Controllers/Owned/Deletion.antt =====
-- The deletion of all owned objects of a kind.
use apisix_operator.Prelude.{◌≡◌, ◌↔◌, refl, arith, ◌∙◌, ap, true, List, [], ◌∷◌, if◌then◌else◌}
use apisix_operator.Errors.{Error, Errors, end, more, Result, ok, err, is_not_found}
use apisix_operator.Client.{Kind}
use apisix_operator.Resources.Objects.{Object}
use apisix_operator.Controllers.Owned.{append, collect, error_or_nil, delete_loop, delete_all}

-- A deletion that leaves the object gone.
abbrev pub IsHarmless : Result (Unit {0}) → Type 0
IsHarmless (ok _) = Unit
IsHarmless (err e) = is_not_found e ≡ true

abbrev pub AllHarmless : List (Result (Unit {0})) → Type 0
AllHarmless [] = Unit
AllHarmless (r ∷ rs) = IsHarmless r × AllHarmless rs

join : Errors → Errors → Errors
join end fs = fs
join (more e es) fs = more e (join es fs)

join-append : (es : Errors) (e : Error) (fs : Errors) → join (append es e) fs ≡ join es (more e fs)
unfolding join append
join-append end e fs = refl
join-append (more x es) e fs = ap (λ t. more x t) (join-append es e fs)

join_end : (es : Errors) → join es end ≡ es
unfolding join
join_end end = refl
join_end (more x es) = ap (λ t. more x t) (join_end es)

failures : List (Result (Unit {0})) → Errors
failures [] = end
failures (ok _ ∷ rs) = failures rs
failures (err e ∷ rs) = if is_not_found e then failures rs else more e (failures rs)

join-collect :
    (r : Result (Unit {0})) (es : Errors) (rs : List (Result (Unit {0})))
    → join (collect r es) (failures rs) ≡ join es (failures (r ∷ rs))
unfolding collect failures
join-collect (ok _) es rs = refl
join-collect (err e) es rs = ground (arith, join-append es e (failures rs))

failures-AllHarmless :
    (rs : List (Result (Unit {0}))) → (error_or_nil (failures rs) ≡ ok tt) ↔ AllHarmless rs
unfolding failures error_or_nil
failures-AllHarmless [] = ground arith
failures-AllHarmless (ok _ ∷ rs) = ground (arith, failures-AllHarmless rs)
failures-AllHarmless (err e ∷ rs) = ground (arith, failures-AllHarmless rs)

module _ {S A : Type 0} ⦃o : Object A⦄ (kind : Kind S A) where
  -- Every object deleted in turn, whatever the results, with the results and the last state.
  abbrev pub deletions : List A → S → List (Result (Unit {0})) × S
  deletions [] s = ([], s)
  deletions (a ∷ rest) s =
      let (r, s') = kind.delete a s in let (rs, last) = deletions rest s' in (r ∷ rs, last)

  delete_loop_lem :
      (items : List A) (es : Errors) (s : S)
      → delete_loop kind items es s
        ≡ (ok (join es (failures (deletions items s).0)), (deletions items s).1)
  unfolding delete_loop failures
  delete_loop_lem [] es s = rw (join_end es) refl
  delete_loop_lem (a ∷ rest) es s =
      let (r, s') = kind.delete a s in
      let (rs, last) = deletions rest s' in
      delete_loop_lem rest (collect r es) s' ∙ ap (λ t. (ok t, last)) (join-collect r es rs)

  -- The deletion of a list tries every object, in order and whatever happens to the others; it
  -- succeeds exactly if each deletion succeeds or answers that the object is not found.
  pub delete_all-AllHarmless :
      (items : List A) (s : S)
      → let done = delete_all kind items s in
        (done.1 ≡ (deletions items s).1) × ((done.0 ≡ ok tt) ↔ AllHarmless (deletions items s).0)
  unfolding delete_all join
  delete_all-AllHarmless items s =
      let h = delete_loop_lem items end s in
      let f = failures-AllHarmless (deletions items s).0 in rw h (refl, f)
