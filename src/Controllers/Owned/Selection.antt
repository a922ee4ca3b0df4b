-- ===== src/Controllers/Owned/Selection.antt =====
-- The objects that the reconcilers mark are found by their lists.
use apisix_operator.Prelude.{
  String, ◌≡◌, arith, refl, true, some, [], ◌∷◌, if◌then◌else◌, ◌==◌, ==_refl, string_eq, keep,
}
use apisix_operator.Prelude.Dict
use apisix_operator.Prelude.Dict.{lookup-insert}
use apisix_operator.Api.Meta.{ObjectMeta, GroupVersionKind}
use apisix_operator.Kubernetes.Metadata.{entries, is_owned_by_ref_uid, set_owner_for_object}
use apisix_operator.Kubernetes.Metadata.Owners.{is_owned-set_owner}
use apisix_operator.Resources.Objects.{Object}
use apisix_operator.Resources.Generators.{
  add_label, add_label_for_control_plane, gateway_operator_controlled_label,
  control_plane_managed_label_value,
}
use apisix_operator.Client.Lists.{owned_by}
use apisix_operator.Controllers.Owned.{mark_for_control_plane}

-- What marking does to the metadata.
abbrev marked_meta : GroupVersionKind → ObjectMeta → ObjectMeta → ObjectMeta
marked_meta gvk owner m = add_label_for_control_plane (set_owner_for_object m gvk owner)

set_owner_for_object-labels :
    (m : ObjectMeta) (gvk : GroupVersionKind) (owner : ObjectMeta)
    → (set_owner_for_object m gvk owner).labels ≡ m.labels
unfolding set_owner_for_object
set_owner_for_object-labels m gvk owner = ground arith

pub set_owner_for_object-namespace :
    (m : ObjectMeta) (gvk : GroupVersionKind) (owner : ObjectMeta)
    → (set_owner_for_object m gvk owner).namespace ≡ m.namespace
unfolding set_owner_for_object
set_owner_for_object-namespace m gvk owner = ground arith

-- The metadata with an owner and a value of the managed-by label.
abbrev pub labelled : String → GroupVersionKind → ObjectMeta → ObjectMeta → ObjectMeta
labelled value gvk owner m = add_label value (set_owner_for_object m gvk owner)

pub lookup-labelled :
    (value : String) (gvk : GroupVersionKind) (owner m : ObjectMeta) (j : String)
    → Dict.lookup j (entries (labelled value gvk owner m).labels) ≡ (
        if gateway_operator_controlled_label == j
        then some value
        else Dict.lookup j (entries m.labels))
unfolding add_label
lookup-labelled value gvk owner m j =
    rw (set_owner_for_object-labels m gvk owner)
      (lookup-insert j gateway_operator_controlled_label value (entries m.labels))

label_keeps_owner :
    (value : String) (gvk : GroupVersionKind) (owner m : ObjectMeta) (uid : String)
    → is_owned_by_ref_uid (labelled value gvk owner m) uid
      ≡ is_owned_by_ref_uid (set_owner_for_object m gvk owner) uid
unfolding add_label is_owned_by_ref_uid
label_keeps_owner value gvk owner m uid = refl

pub labelled-is_owned :
    (value : String) (gvk : GroupVersionKind) (owner m : ObjectMeta)
    → is_owned_by_ref_uid (labelled value gvk owner m) owner.uid ≡ true
labelled-is_owned value gvk owner m = ground (
  arith,
  label_keeps_owner value gvk owner m owner.uid,
  is_owned-set_owner m gvk owner owner.uid,
  ==_refl owner.uid,
)

-- Those of a ControlPlane have its value.
marked_meta-labelled :
    (gvk : GroupVersionKind) (owner m : ObjectMeta)
    → marked_meta gvk owner m ≡ labelled control_plane_managed_label_value gvk owner m
unfolding add_label_for_control_plane
marked_meta-labelled gvk owner m = refl

marked_meta-labels :
    (gvk : GroupVersionKind) (owner m : ObjectMeta) (j : String)
    → Dict.lookup j (entries (marked_meta gvk owner m).labels) ≡ (
        if gateway_operator_controlled_label == j
        then some control_plane_managed_label_value
        else Dict.lookup j (entries m.labels))
marked_meta-labels gvk owner m j =
    rw (marked_meta-labelled gvk owner m)
      (lookup-labelled control_plane_managed_label_value gvk owner m j)

marked_meta-is_owned :
    (gvk : GroupVersionKind) (owner m : ObjectMeta)
    → is_owned_by_ref_uid (marked_meta gvk owner m) owner.uid ≡ true
marked_meta-is_owned gvk owner m =
    rw (marked_meta-labelled gvk owner m)
      (labelled-is_owned control_plane_managed_label_value gvk owner m)

module _ {A : Type 0} ⦃o : Object A⦄ where
  -- A marked object is owned by the ControlPlane.
  pub marked-is_owned :
      (gvk : GroupVersionKind) (owner : ObjectMeta) (a : A)
      → is_owned_by_ref_uid (o.get_meta (mark_for_control_plane gvk owner a)) owner.uid ≡ true
  unfolding mark_for_control_plane
  marked-is_owned gvk owner a =
      let m = o.get_meta a in
      rw (o.get-set (marked_meta gvk owner m) a) (marked_meta-is_owned gvk owner m)

  -- An object that the ControlPlane reconciler marks has the label by which its lists select, is
  -- kept by their filter on the owner's UID, and has its other labels as before.
  pub mark_for_control_plane-owned_by :
      (gvk : GroupVersionKind) (owner : ObjectMeta) (a : A)
      → let marked = mark_for_control_plane gvk owner a in
        let labels = entries (o.get_meta marked).labels in
        ((j : String)
          → Dict.lookup j labels ≡ (
              if gateway_operator_controlled_label == j
              then some control_plane_managed_label_value
              else Dict.lookup j (entries (o.get_meta a).labels)))
        × (owned_by owner.uid (marked ∷ []) ≡ marked ∷ [])
  unfolding mark_for_control_plane owned_by keep
  mark_for_control_plane-owned_by gvk owner a =
      let m = o.get_meta a in
      let back = o.get-set (marked_meta gvk owner m) a in
      (
        λ j. rw back (marked_meta-labels gvk owner m j),
        rw (back, marked_meta-is_owned gvk owner m) refl,
      )
