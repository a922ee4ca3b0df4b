-- ===== src/Gateway/Owned.antt =====
-- The objects that are marked for a Gateway are found by its lists.
use apisix_operator.Prelude.{
  String, ◌≡◌, refl, ap, ◌∙◌, true, some, List, [], ◌∷◌, ◌++◌, keep, if◌then◌else◌, ◌==◌, ==_refl,
  string_eq, keep-append_one, Bool-cases, inl, inr,
}
use apisix_operator.Prelude.Dict.{lookup-insert}
use apisix_operator.Errors.{Result, ok, err, message}
use apisix_operator.Api.Meta.{ObjectMeta, GroupVersionKind}
use apisix_operator.Kubernetes.Metadata.{entries, is_owned_by_ref_uid, set_owner_for_object}
use apisix_operator.Resources.Objects.{Object}
use apisix_operator.Resources.Generators.{
  label_object_as_gateway_managed, add_label, gateway_operator_controlled_label,
  gateway_managed_label_value,
}
use apisix_operator.Controllers.Owned.Selection.{labelled-is_owned, set_owner_for_object-namespace}
use apisix_operator.Client.{Kind}
use apisix_operator.Client.Lists.{owned_by, list_for_owner}
use apisix_operator.Client.Selection.{selects, in_own_namespace}
use apisix_operator.Gateway.{Gateway, gateway_options, list_for_gateway}

-- `LabelObjectAsGatewayManaged` and `SetOwnerForObject`.
abbrev pub mark_for_gateway : GroupVersionKind → Gateway → ObjectMeta → ObjectMeta
mark_for_gateway gvk gateway m =
    label_object_as_gateway_managed (set_owner_for_object m gvk gateway.meta)

module _ {S A : Type 0} ⦃o : Object A⦄ (text : String) (kind : Kind S A) where
  -- What a list of the server selects of some objects, with the state after the call.
  abbrev pub Lists : Gateway → S → List A → S → Type 0
  Lists gateway s items after =
      kind.list (some (gateway_options gateway)) s
      ≡ (ok (keep (selects (gateway_options gateway)) items), after)

  -- The answer for a Gateway whose list would find some objects: without a namespace the state is
  -- the one before any call.
  abbrev pub answers : Gateway → S → List A → S → Result (List A) × S
  answers gateway s found after =
      if gateway.meta.namespace == "" then (err (message text), s) else (ok found, after)

  list_lem :
      (gateway : Gateway) (s : S) (items : List A) {s' : S}
      → Lists gateway s items s'
      → list_for_gateway text kind gateway s
        ≡ answers gateway s
            (owned_by gateway.meta.uid (keep (selects (gateway_options gateway)) items))
            s'
  unfolding list_for_gateway list_for_owner
  list_lem gateway s items {s'} e = elim (Bool-cases (gateway.meta.namespace == "")) [
    | inl b ↦ rw b refl
    | inr b ↦ rw (b, e) refl
  ]

  marked-is_listed :
      (gvk : GroupVersionKind) (gateway : Gateway) (a : A)
      → (o.get_meta a).namespace ≡ gateway.meta.namespace
      → let marked = o.set_meta (mark_for_gateway gvk gateway (o.get_meta a)) a in
        (selects (gateway_options gateway) marked ≡ true)
        × (is_owned_by_ref_uid (o.get_meta marked) gateway.meta.uid ≡ true)
  unfolding label_object_as_gateway_managed add_label selects
  marked-is_listed gvk gateway a h =
      let m = o.get_meta a in
      let owned = labelled-is_owned gateway_managed_label_value gvk gateway.meta m in
      rw (o.get-set (mark_for_gateway gvk gateway m) a) (
        rw
            (
              lookup-insert gateway_operator_controlled_label gateway_operator_controlled_label
                  gateway_managed_label_value
                  (entries (set_owner_for_object m gvk gateway.meta).labels),
              set_owner_for_object-namespace m gvk gateway.meta,
              h,
              in_own_namespace gateway.meta.namespace,
              ==_refl gateway_operator_controlled_label,
              ==_refl gateway_managed_label_value,
            )
            refl,
        owned,
      )

  owned_by-append :
      (uid : String) (xs : List A) (a : A)
      → is_owned_by_ref_uid (o.get_meta a) uid ≡ true
      → owned_by uid (xs ++ a ∷ []) ≡ owned_by uid xs ++ a ∷ []
  unfolding owned_by
  owned_by-append uid xs a h = keep-append_one (λ x. is_owned_by_ref_uid (o.get_meta x) uid) xs a h

  -- For a Gateway without a namespace the lists fail in the state that they started in, whatever
  -- state the List call would leave: they do not make it. For another, and a server
  -- that selects by namespace and label, an object of the namespace that is marked for the Gateway
  -- is found when it is stored after others, beside those of them that were found without it.
  pub list_for_gateway-marked :
      (gvk : GroupVersionKind) (gateway : Gateway) (a : A) (items : List A) (s t : S) {s' t' : S}
      → (o.get_meta a).namespace ≡ gateway.meta.namespace
      → let marked = o.set_meta (mark_for_gateway gvk gateway (o.get_meta a)) a in
        Lists gateway s items s'
        → Lists gateway t (items ++ marked ∷ []) t'
        → (found : List A) × (list_for_gateway text kind gateway s ≡ answers gateway s found s')
          × (list_for_gateway text kind gateway t ≡ answers gateway t (found ++ marked ∷ []) t')
  list_for_gateway-marked gvk gateway a items s t {t' = t'} h e f =
      let marked = o.set_meta (mark_for_gateway gvk gateway (o.get_meta a)) a in
      let (chosen, owned) = marked-is_listed gvk gateway a h in
      let p = selects (gateway_options gateway) in
      let uid = gateway.meta.uid in
      (
        owned_by uid (keep p items),
        list_lem gateway s items e,
        list_lem gateway t (items ++ marked ∷ []) f
            ∙ ap (λ xs. answers gateway t (owned_by uid xs) t')
                (keep-append_one p items marked chosen)
            ∙ ap (λ xs. answers gateway t xs t') (owned_by-append uid (keep p items) marked owned),
      )
