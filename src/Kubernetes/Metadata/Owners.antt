-- ===== src/Kubernetes/Metadata/Owners.antt =====
-- Ownership is by UID, and marking an owner is idempotent.
use apisix_operator.Prelude.{String, ◌≡◌, ◌||◌, any-append_one, arith, ◌==◌, string_eq, ==_refl}
use apisix_operator.Api.Meta.{ObjectMeta, GroupVersionKind}
use apisix_operator.Kubernetes.Metadata.{
  is_owned_by_ref_uid, set_owner_for_object, generate_owner_reference_for_object,
}

-- After SetOwnerForObject an object is owned by the owner and by those that owned it before.
pub is_owned-set_owner :
    (obj : ObjectMeta) (gvk : GroupVersionKind) (owner : ObjectMeta) (uid : String)
    → is_owned_by_ref_uid (set_owner_for_object obj gvk owner) uid
      ≡ (is_owned_by_ref_uid obj uid || owner.uid == uid)
unfolding is_owned_by_ref_uid set_owner_for_object
is_owned-set_owner obj gvk owner uid = ground (
  arith,
  any-append_one (λ ref. ref.uid == uid) obj.owner_references
      (generate_owner_reference_for_object gvk owner),
)

-- Marking the same owner again changes nothing.
pub set_owner-set_owner :
    (obj : ObjectMeta) (gvk : GroupVersionKind) (owner : ObjectMeta)
    → set_owner_for_object (set_owner_for_object obj gvk owner) gvk owner
      ≡ set_owner_for_object obj gvk owner
unfolding set_owner_for_object
set_owner-set_owner obj gvk owner = ground (
  arith,
  ==_refl owner.uid,
  any-append_one (λ ref. ref.uid == owner.uid) obj.owner_references
      (generate_owner_reference_for_object gvk owner),
)
