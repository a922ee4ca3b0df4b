-- ===== src/Controllers/Owned/Stored.antt =====
-- The deletion of owned objects on a server that stores them.
use apisix_operator.Prelude.{
  Bool-cases, inl, inr, if◌then◌else◌, String, ◌≡◌, refl, ap, ◌∙◌, arith, Bool, not, ◌&&◌, some,
  List, [], ◌∷◌, keep, any, keep-cong, keep-keep_and, keep-gone, keep_all, sym, ◌==◌, ==_refl,
  string_eq,
}
use apisix_operator.Errors.{ok, err, not_found, end}
use apisix_operator.Kubernetes.Metadata.{is_owned_by_ref_uid}
use apisix_operator.Resources.Objects.{Object}
use apisix_operator.Client.{ListOptions, Kind}
use apisix_operator.Client.Lists.{owned_by, list_for_owner}
use apisix_operator.Client.Selection.{selects}
use apisix_operator.Controllers.Owned.{delete_loop, delete_all, collect, error_or_nil}

-- Lists answer with what is stored and selected, and deletions take objects away by their names; a
-- deletion of an object that is not there is answered by NotFound.
pub record Stored {S A : Type 0} ⦃o : Object A⦄ (kind : Kind S A) : Type 0 where
  pub items : S → List A
  pub remove : A → S → S
  pub list_law :
      (options : ListOptions) (s : S)
      → kind.list (some options) s ≡ (ok (keep (selects options) (items s)), s)
  pub delete_law :
      (a : A) (s : S)
      → kind.delete a s ≡ (
        (if any (λ x. (o.get_meta a).name == (o.get_meta x).name) (items s)
            then ok tt
            else err not_found),
        remove a s,
      )
  pub items-remove :
      (a : A) (s : S)
      → items (remove a s) ≡ keep (λ x. not ((o.get_meta a).name == (o.get_meta x).name)) (items s)

module _ {S A : Type 0} ⦃o : Object A⦄ {kind : Kind S A} (stored : Stored kind) where
  open stored use {items, remove, list_law, delete_law, items-remove}

  abbrev same_name : A → A → Bool
  same_name a x = (o.get_meta a).name == (o.get_meta x).name

  -- The state after the deletions.
  unfoldable pub removed : List A → S → S
  removed [] s = s
  removed (a ∷ rest) s = removed rest (remove a s)

  -- The stored objects that a list with these options and this owner finds.
  unfoldable pub found : ListOptions → String → S → List A
  unfolding owned_by keep selects
  found options uid s = owned_by uid (keep (selects options) (items s))

  pub listed_lem :
      (options : ListOptions) (uid : String) (s : S)
      → list_for_owner kind (some options) uid s ≡ (ok (found options uid s), s)
  unfolding list_for_owner found
  listed_lem options uid s = rw (list_law options s) refl

  delete_loop_lem : (xs : List A) (s : S) → delete_loop kind xs end s ≡ (ok end, removed xs s)
  unfolding delete_loop removed collect
  delete_loop_lem [] s = refl
  delete_loop_lem (a ∷ xs) s = elim (Bool-cases (any (same_name a) (items s))) [
    | inl here ↦ rw (delete_law a s, here) (delete_loop_lem xs (remove a s))
    | inr absent ↦ rw (delete_law a s, absent) (delete_loop_lem xs (remove a s))
  ]

  pub delete_all_lem : (xs : List A) (s : S) → delete_all kind xs s ≡ (ok tt, removed xs s)
  unfolding delete_all error_or_nil
  delete_all_lem xs s = rw (delete_loop_lem xs s) refl

  items-removed :
      (xs : List A) (s : S)
      → items (removed xs s) ≡ keep (λ x. not (any (λ a. same_name a x) xs)) (items s)
  unfolding removed any
  items-removed [] s = sym (keep_all (items s))
  items-removed (a ∷ xs) s =
      items-removed xs (remove a s)
      ∙ ap (keep (λ x. not (any (λ b. same_name b x) xs))) (items-remove a s)
      ∙ keep-keep_and (λ x. not (any (λ b. same_name b x) xs)) (λ x. not (same_name a x)) (items s)
      ∙ keep-cong _ _ (items s) (λ x. ground arith)

  -- What no deletion changes.
  pub removed_frame :
      {B : Type 0} (view : S → B) (xs : List A) (s : S)
      → ((a : A) (t : S) → view (remove a t) ≡ view t)
      → view (removed xs s) ≡ view s
  unfolding removed
  removed_frame view [] s h = refl
  removed_frame view (a ∷ xs) s h = removed_frame view xs (remove a s) h ∙ h a s

  -- The test that a found object passes.
  abbrev is_found : ListOptions → String → A → Bool
  is_found options uid x = selects options x && is_owned_by_ref_uid (o.get_meta x) uid

  found_lem :
      (options : ListOptions) (uid : String) (s : S)
      → found options uid s ≡ keep (is_found options uid) (items s)
  unfolding found owned_by
  found_lem options uid s =
      keep-keep_and (λ x. is_owned_by_ref_uid (o.get_meta x) uid) (selects options) (items s)

  -- After the objects that a list finds are deleted, it finds none.
  pub found-removed :
      (options : ListOptions) (uid : String) (s : S)
      → found options uid (removed (found options uid s) s) ≡ []
  found-removed options uid s =
      let p = is_found options uid in
      found_lem options uid (removed (found options uid s) s)
      ∙ ap (keep p) (items-removed (found options uid s) s)
      ∙ ap (λ xs. keep p (keep (λ x. not (any (λ a. same_name a x) xs)) (items s)))
          (found_lem options uid s)
      ∙ keep-gone p same_name (items s) (λ x. ==_refl (o.get_meta x).name)

  -- What a list finds depends on the stored objects only.
  pub found_cong :
      (options : ListOptions) (uid : String) {s t : S}
      → items s ≡ items t
      → found options uid s ≡ found options uid t
  unfolding found
  found_cong options uid e = ap (λ xs. owned_by uid (keep (selects options) xs)) e

  pub removed-none : (xs : List A) (s : S) → xs ≡ [] → removed xs s ≡ s
  unfolding removed
  removed-none xs s e = rw e refl
