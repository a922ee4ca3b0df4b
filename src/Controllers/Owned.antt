-- ===== src/Controllers/Owned.antt =====
-- What the `ensure` functions of both reconcilers do for one kind of owned object.
pub mod Deletion
pub mod Selection
pub mod Convergence
pub mod Stored
use apisix_operator.Prelude.{
  String, Bool, true, false, none, some, List, [], ◌∷◌, length, if◌then◌else◌,
}
use apisix_operator.Errors.{
  Error, Errors, end, more, Result, ok, err, too_many, panicked, multi, is_not_found,
}
use apisix_operator.Errors.Calls.{Exec, pure, raise, lift, attempt, ◌>>=◌}
use apisix_operator.Api.Meta.{ObjectMeta, GroupVersionKind}
use apisix_operator.Kubernetes.Metadata.{ensure_object_meta_is_updated, set_owner_for_object}
use apisix_operator.Resources.Objects.{Object}
use apisix_operator.Resources.Generators.{add_label_for_control_plane, add_label_for_data_plane}
use apisix_operator.Client.{Kind}

abbrev pub nil_map_write : Error
nil_map_write = panicked "assignment to entry in nil map"

abbrev pub nil_dereference : Error
nil_dereference = panicked "invalid memory address or nil pointer dereference"

append : Errors → Error → Errors
append end e = more e end
append (more x es) e = more x (append es e)

-- The result of one deletion, added to the `multierror`.
collect : Result (Unit {0}) → Errors → Errors
unfolding append
collect (ok _) errors = errors
collect (err e) errors = if is_not_found e then errors else append errors e

error_or_nil : Errors → Result (Unit {0})
error_or_nil end = ok tt
error_or_nil (more e es) = err (multi (more e es))

module _ {A : Type 0} ⦃o : Object A⦄ where
  -- `SetOwnerForObject` and then `addLabelForControlPlane`.
  unfoldable pub mark_for_control_plane : GroupVersionKind → ObjectMeta → A → A
  unfolding set_owner_for_object add_label_for_control_plane
  mark_for_control_plane gvk owner a =
      o.set_meta (add_label_for_control_plane (set_owner_for_object (o.get_meta a) gvk owner)) a

  -- `addLabelForDataplane` and `SetOwnerForObject`, which touch different fields.
  unfoldable pub mark_for_data_plane : GroupVersionKind → ObjectMeta → A → A
  unfolding set_owner_for_object add_label_for_data_plane
  mark_for_data_plane gvk owner a =
      o.set_meta (add_label_for_data_plane (set_owner_for_object (o.get_meta a) gvk owner)) a

  -- The existing object with the metadata that the generated one asks for.
  unfoldable pub refresh : A → A → Result (Bool × A)
  unfolding ensure_object_meta_is_updated
  refresh existing generated =
      elim (ensure_object_meta_is_updated (o.get_meta existing) (o.get_meta generated)) [
        | none ↦ err nil_map_write
        | some (updated, m) ↦ ok (updated, o.set_meta m existing)
      ]

  module _ {S : Type 0} (kind : Kind S A) where
    -- `if updated { return true, existing, Update(existing) }; return false, existing, nil`
    unfoldable pub store : Bool × A → Exec S (Bool × A)
    store (true, existing) = do stored ← kind.update existing; pure (true, stored)
    store (false, existing) = pure (false, existing)

    unfoldable pub create : A → Exec S (Bool × A)
    create generated = do stored ← kind.create generated; pure (true, stored)

    -- After the list: more than one object is an error; one is brought up to date by `bring`; if
    -- there is none, the generated one is created after `adjust`.
    unfoldable pub ensure_one :
        String → Result A → (A → A → Result (Bool × A)) → (A → A) → List A → Exec S (Bool × A)
    unfolding store create
    ensure_one what generate bring adjust [] = do
      generated ← lift generate
      create (adjust generated)
    ensure_one what generate bring adjust (existing ∷ []) = do
      generated ← lift generate
      result ← lift (bring existing generated)
      store result
    ensure_one what generate bring adjust (x ∷ y ∷ rest) =
        raise (too_many what (length (x ∷ y ∷ rest)))

    -- The loop of the deletions: every object is tried, and a missing one is no failure.
    unfoldable pub delete_loop : List A → Errors → Exec S Errors
    unfolding collect
    delete_loop [] errors = pure errors
    delete_loop (a ∷ rest) errors = do
      result ← attempt (kind.delete a)
      delete_loop rest (collect result errors)

    unfoldable pub delete_all : List A → Exec S (Unit {0})
    unfolding delete_loop error_or_nil
    delete_all items = do errors ← delete_loop items end; lift (error_or_nil errors)
