-- ===== src/Kubernetes/Metadata/Update.antt =====
-- `EnsureObjectMetaIsUpdated` reaches the generated metadata in one step, and says when it changed
-- something.
use apisix_operator.Prelude.{
  Option-cases, inl, inr, sym, ◌∙◌, String, ◌≡◌, ◌≢◌, ◌↔◌, refl, ap, Bool, true, false, ◌||◌,
  Option, none, some, [], ◌∷◌, arith, ◌!=◌, string_eq, ==_refl, String-discrete, ℕ_discrete,
}
use mathlib.Core.Option.{or_else}
use apisix_operator.Prelude.Dict.{lookup, insert, lookup-insert, insert-lookup}
use apisix_operator.Api.Meta.{ObjectMeta, Labels, owner_references_eq, labels_eq}
use apisix_operator.Kubernetes.Metadata.{entries, write_labels, ensure_object_meta_is_updated}

-- A Go map has a key once.
abbrev pub UniqueKeys : Labels → Type 0
UniqueKeys [] = Unit
UniqueKeys ((k, v) ∷ d) = (lookup k d ≡ none) × UniqueKeys d

write_all : Labels → Labels → Labels
write_all labels [] = labels
write_all labels ((k, v) ∷ generated) = write_all (insert k v labels) generated

write_labels-some :
    (labels generated : Labels)
    → write_labels (some labels) generated ≡ some (some (write_all labels generated))
unfolding write_labels write_all
write_labels-some labels [] = refl
write_labels-some labels ((k, v) ∷ generated) = write_labels-some (insert k v labels) generated

lookup-write_all :
    (j : String) (labels generated : Labels)
    → UniqueKeys generated
    → lookup j (write_all labels generated) ≡ or_else (lookup j generated) (lookup j labels)
unfolding write_all or_else lookup
lookup-write_all j labels [] u = refl
lookup-write_all j labels ((k, v) ∷ generated) (fresh, u) =
    ground (arith, lookup-write_all j (insert k v labels) generated u, lookup-insert j k v labels)

-- Every label of the generated metadata has its value.
abbrev HasLabels : Labels → Labels → Type 0
HasLabels labels [] = Unit
HasLabels labels ((k, v) ∷ generated) = (lookup k labels ≡ some v) × HasLabels labels generated

write_all-HasLabels :
    (labels generated : Labels) → HasLabels labels generated → write_all labels generated ≡ labels
unfolding write_all
write_all-HasLabels labels [] h = refl
write_all-HasLabels labels ((k, v) ∷ generated) (e, h) =
    ground (arith, insert-lookup k v labels e, write_all-HasLabels labels generated h)

lookup_kept :
    (labels generated : Labels) (j v : String)
    → lookup j generated ≡ none
    → lookup j labels ≡ some v
    → lookup j (write_all labels generated) ≡ some v
unfolding write_all lookup
lookup_kept labels [] j v f e = e
lookup_kept labels ((k, w) ∷ generated) j v f e =
    ground (arith, lookup-insert j k w labels, lookup_kept (insert k w labels) generated j v)

HasLabels-write_all :
    (labels generated : Labels)
    → UniqueKeys generated
    → HasLabels (write_all labels generated) generated
unfolding write_all
HasLabels-write_all labels [] u = tt
HasLabels-write_all labels ((k, v) ∷ generated) (fresh, u) = (
  lookup_kept (insert k v labels) generated k v fresh
      (ground (arith, lookup-insert k k v labels, ==_refl k)),
  HasLabels-write_all (insert k v labels) generated u,
)

write_labels-none :
    (labels : Option Labels) (generated : Labels)
    → (write_labels labels generated ≡ none) ↔ ((labels ≡ none) × (generated ≢ []))
unfolding write_labels
write_labels-none none [] = ground arith
write_labels-none none ((k, v) ∷ generated) = ground arith
write_labels-none (some labels) generated = ground (arith, write_labels-some labels generated)

-- The metadata that the update reaches.
abbrev reached : ObjectMeta → ObjectMeta → Labels → ObjectMeta
reached existing generated labels = record existing {
  owner_references = generated.owner_references;
  labels = some (write_all labels (entries generated.labels));
}

ensure_object_meta_lem :
    (existing generated : ObjectMeta) (labels : Labels)
    → existing.labels ≡ some labels
    → ensure_object_meta_is_updated existing generated
      ≡ some (
        existing.owner_references != generated.owner_references
            || existing.labels != some (write_all labels (entries generated.labels)),
        reached existing generated labels,
      )
unfolding ensure_object_meta_is_updated
ensure_object_meta_lem existing generated labels e =
    ground (arith, write_labels-some labels (entries generated.labels))

reached-stable :
    (existing generated : ObjectMeta) (labels : Labels)
    → UniqueKeys (entries generated.labels)
    → let m = reached existing generated labels in
      ensure_object_meta_is_updated m generated ≡ some (false, m)
reached-stable existing generated labels u =
    let after = write_all labels (entries generated.labels) in
    ground (
      arith,
      ==_refl generated.owner_references,
      ==_refl (some after),
      ensure_object_meta_lem (reached existing generated labels) generated after refl,
      write_all-HasLabels after (entries generated.labels)
          (HasLabels-write_all labels (entries generated.labels) u),
    )

-- EnsureObjectMetaIsUpdated panics exactly if the existing object has a nil label map and the
-- generated metadata has a label.
pub ensure_object_meta_panics :
    (existing generated : ObjectMeta)
    → (ensure_object_meta_is_updated existing generated ≡ none)
      ↔ ((existing.labels ≡ none) × (entries generated.labels ≢ []))
unfolding ensure_object_meta_is_updated
ensure_object_meta_panics existing generated =
    ground (arith, write_labels-none existing.labels (entries generated.labels))

-- For an existing object with labels, EnsureObjectMetaIsUpdated returns the existing metadata with
-- the generated owner references and, over the existing labels, the generated ones. Its flag is
-- true exactly if that changes the metadata, and a second call returns false and changes nothing.
pub ensure_object_meta_converges :
    (existing generated : ObjectMeta) {labels : Labels}
    → existing.labels ≡ some labels
    → UniqueKeys (entries generated.labels)
    → (changed : Bool) × (labels' : Labels) × (let m = record existing {
      owner_references = generated.owner_references;
      labels = some labels';
    } in
        (ensure_object_meta_is_updated existing generated ≡ some (changed, m))
        × ((j : String)
            → lookup j labels' ≡ or_else (lookup j (entries generated.labels)) (lookup j labels))
        × ((changed ≡ true) ↔ (m ≢ existing))
        × (ensure_object_meta_is_updated m generated ≡ some (false, m)))
ensure_object_meta_converges existing generated {labels} e u = (
  _,
  write_all labels (entries generated.labels),
  (
    ensure_object_meta_lem existing generated labels e,
    λ j. lookup-write_all j labels (entries generated.labels) u,
    (
      λ t same. ground (
        arith,
        ap (λ (m : ObjectMeta). m.labels) same,
        ap (λ (m : ObjectMeta). m.owner_references) same,
      ),
      λ ne. ground arith,
    ),
    reached-stable existing generated labels u,
  ),
)

ObjectMeta-discrete : Discrete ObjectMeta
ObjectMeta-discrete = hlevel (String-discrete, ℕ_discrete)

-- A flag that is up exactly if the metadata differ is down only if they do not.
pub flag_down :
    (m existing : ObjectMeta) {changed : Bool}
    → ((changed ≡ true) ↔ (m ≢ existing))
    → changed ≡ false
    → m ≡ existing
flag_down m existing exact down = elim (ObjectMeta-discrete m existing) [
  | yes same ↦ same
  | no differs ↦ ground (arith, exact.1 differs)
]

updated_by :
    (existing generated : ObjectMeta) {labels : Option Labels}
    → write_labels existing.labels (entries generated.labels) ≡ some labels
    → ensure_object_meta_is_updated existing generated
      ≡ some (
        existing.owner_references != generated.owner_references || existing.labels != labels,
        record existing { owner_references = generated.owner_references; labels = labels },
      )
unfolding ensure_object_meta_is_updated
updated_by existing generated e = ground arith

-- Only the labels and the owner references count: what is up to date stays so when other fields,
-- such as the resource version, change.
pub ensure_object_meta_kept :
    (m n generated : ObjectMeta)
    → n.labels ≡ m.labels
    → n.owner_references ≡ m.owner_references
    → ensure_object_meta_is_updated m generated ≡ some (false, m)
    → ensure_object_meta_is_updated n generated ≡ some (false, n)
ensure_object_meta_kept m n generated l o h =
    elim (Option-cases (write_labels n.labels (entries generated.labels))) [
      | inl e ↦ unfold ensure_object_meta_is_updated in ground (arith, l)
      | inr (labels, e) ↦
          let e' : write_labels m.labels (entries generated.labels) ≡ some labels =
            ap (λ x. write_labels x (entries generated.labels)) (sym l) ∙ e in
          let down : (m.owner_references != generated.owner_references || m.labels != labels)
              ≡ false =
            ground (arith, h, updated_by m generated e') in
          let same : record m { owner_references = generated.owner_references; labels = labels }
              ≡ m =
            ground (arith, h, updated_by m generated e') in
          let owners : generated.owner_references ≡ n.owner_references =
            ap (λ (x : ObjectMeta). x.owner_references) same ∙ sym o in
          let found : labels ≡ n.labels = ap (λ (x : ObjectMeta). x.labels) same ∙ sym l in
          let flag : (n.owner_references != generated.owner_references || n.labels != labels)
              ≡ false =
            rw (l, o) down in
          updated_by n generated e
          ∙ rw flag (
              ap (λ x. some (false, record n { owner_references = x; labels = labels })) owners
              ∙ ap
                  (λ x.
                    some (false, record n { owner_references = n.owner_references; labels = x }))
                  found)
    ]
