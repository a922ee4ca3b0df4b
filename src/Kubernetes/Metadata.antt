-- ===== src/Kubernetes/Metadata.antt =====
-- internal/utils/kubernetes/metadata.go and ownerrefs.go. A function that changes metadata through
-- a pointer returns the new metadata beside its result.
pub mod Finalizers
pub mod Update
pub mod Owners
use apisix_operator.Prelude.{
  String, ◌≡◌, Bool, true, false, not, ◌||◌, Option, none, some, List, [], ◌∷◌, ◌++◌, any, keep,
  if◌then◌else◌, ◌==◌, ◌!=◌, string_eq, String-discrete, ◌<>◌,
}
use apisix_operator.Prelude.Dict
use apisix_operator.Api.Meta.{
  ObjectMeta, OwnerReference, GroupVersionKind, owner_references_eq, labels_eq,
}

unfoldable pub get_api_version_for_object : GroupVersionKind → String
get_api_version_for_object gvk = gvk.group <> "/" <> gvk.version

-- The inner loop of `EnsureFinalizersInMetadata`.
unfoldable pub has_finalizer : String → List String → Bool
unfolding any
has_finalizer finalizer = any (λ f. f == finalizer)

-- Its outer loop, with the flag `added`.
ensure_loop : List String → Bool → List String → Bool × List String
ensure_loop current added [] = (added, current)
ensure_loop current added (finalizer ∷ rest) =
    let absent = not (has_finalizer finalizer current) in
    ensure_loop (if absent then current ++ (finalizer ∷ []) else current) (added || absent) rest

unfoldable pub ensure_finalizers_in_metadata : ObjectMeta → List String → Bool × ObjectMeta
unfolding ensure_loop has_finalizer any
ensure_finalizers_in_metadata metadata finalizers =
    let (added, current) = ensure_loop metadata.finalizers false finalizers in
    (added, record metadata { finalizers = current })

unfoldable pub remove_finalizer_in_metadata : ObjectMeta → String → Bool × ObjectMeta
unfolding any keep
remove_finalizer_in_metadata metadata finalizer =
    let changed = any (λ f. f == finalizer) metadata.finalizers in
    let new_finalizers = keep (λ f. f != finalizer) metadata.finalizers in
    (changed, if changed then record metadata { finalizers = new_finalizers } else metadata)

-- `newObjectMeta.Labels[k] = v` for each label of the generated metadata; `none` is the panic of a
-- write to a nil map.
unfoldable pub write_labels :
    Option (List (String × String))
    → List (String × String)
    → Option (Option (List (String × String)))
write_labels labels [] = some labels
write_labels none ((k, v) ∷ generated) = none
write_labels (some labels) ((k, v) ∷ generated) =
    write_labels (some (Dict.insert k v labels)) generated

-- The entries of a map that may be nil.
abbrev pub entries : Option (List (String × String)) → List (String × String)
entries none = []
entries (some labels) = labels

unfoldable pub ensure_object_meta_is_updated : ObjectMeta → ObjectMeta → Option (Bool × ObjectMeta)
unfolding write_labels
ensure_object_meta_is_updated existing generated =
    elim (write_labels existing.labels (entries generated.labels)) [
      | none ↦ none
      | some labels ↦ some (
        existing.owner_references != generated.owner_references || existing.labels != labels,
        record existing { owner_references = generated.owner_references; labels = labels },
      )
    ]

unfoldable pub generate_owner_reference_for_object : GroupVersionKind → ObjectMeta → OwnerReference
unfolding get_api_version_for_object
generate_owner_reference_for_object gvk obj = record {
  api_version = get_api_version_for_object gvk;
  kind = gvk.kind;
  name = obj.name;
  uid = obj.uid;
  controller = some true;
  block_owner_deletion = none;
}

unfoldable pub is_owned_by_ref_uid : ObjectMeta → String → Bool
unfolding any
is_owned_by_ref_uid obj uid = any (λ ref. ref.uid == uid) obj.owner_references

unfoldable pub set_owner_for_object : ObjectMeta → GroupVersionKind → ObjectMeta → ObjectMeta
unfolding any generate_owner_reference_for_object
set_owner_for_object obj gvk owner =
    let found_owner_ref = any (λ ref. ref.uid == owner.uid) obj.owner_references in
    if found_owner_ref then obj else record obj {
      owner_references =
          obj.owner_references ++ (generate_owner_reference_for_object gvk owner ∷ []);
    }
