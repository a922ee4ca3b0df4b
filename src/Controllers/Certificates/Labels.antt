-- ===== src/Controllers/Certificates/Labels.antt =====
-- The label by which the mTLS Secret of an owner is found again.
use apisix_operator.Prelude.{
  String, String-discrete, ◌≡◌, refl, ap, ◌∙◌, arith, true, false, some, none, List, [], ◌∷◌, ◌++◌,
  keep, string_eq, ==_refl, keep-append_one, keep-drop_one,
}
use apisix_operator.Errors.{Result, ok}
use apisix_operator.Client.{ListOptions, Client}
use apisix_operator.Client.Lists.{list_secrets_for_owner, list_for_owner, owned_by}
use apisix_operator.Client.Selection.{selects}
use apisix_operator.Controllers.Owned.Selection.{labelled-is_owned}
use apisix_operator.Resources.Objects.{Secret, secret_object}
use apisix_operator.Prelude.Dict
use apisix_operator.Prelude.Dict.{lookup-insert}
use apisix_operator.Api.Types.{ControlPlane, DataPlane}
use apisix_operator.Kubernetes.Metadata.{entries, set_owner_for_object, is_owned_by_ref_uid}
use apisix_operator.Resources.Generators.{
  add_label, add_label_for_data_plane, data_plane_managed_label_value, generate_new_tls_secret,
}
use apisix_operator.Controllers.Certificates.{
  Owner, owner_meta, get_prefix_for_owner, control_plane, data_plane, get_managed_label_for_owner,
  add_label_for_owner, generated_secret,
}

-- The Secret that is generated for a DataPlane has the label by which the Secrets of its owner are
-- listed; the Secret that is generated for a ControlPlane has no label of that key.
generated_secret-get_managed_label :
    ((d : DataPlane)
      → let (key, value) = get_managed_label_for_owner (data_plane d) in
        Dict.lookup key (entries (generated_secret (data_plane d)).meta.labels) ≡ some value)
    × ((c : ControlPlane)
        → let (key, value) = get_managed_label_for_owner (control_plane c) in
          Dict.lookup key (entries (generated_secret (control_plane c)).meta.labels) ≡ none)
unfolding generated_secret get_managed_label_for_owner add_label_for_owner set_owner_for_object
    generate_new_tls_secret add_label_for_data_plane add_label Dict.lookup Dict.insert
    String-discrete
generated_secret-get_managed_label = (λ d. ground arith, λ c. ground arith)

generated_secret-is_owned :
    (d : DataPlane) → is_owned_by_ref_uid (generated_secret (data_plane d)).meta d.meta.uid ≡ true
unfolding generated_secret get_prefix_for_owner add_label_for_owner add_label_for_data_plane
    add_label generate_new_tls_secret
generated_secret-is_owned d =
    labelled-is_owned data_plane_managed_label_value d.type_meta d.meta
      (generate_new_tls_secret d.meta.namespace d.meta.name "dataplane").meta

-- The same labels and owner references, whatever the server or the code set in other fields.
abbrev pub HasMarksOf : Secret → Secret → Type 0
HasMarksOf g a =
    (a.meta.labels ≡ g.meta.labels) × (a.meta.owner_references ≡ g.meta.owner_references)

-- The options by which the Secrets of an owner are listed.
abbrev secret_options : Owner → ListOptions
unfolding get_managed_label_for_owner
secret_options owner =
    let (key, value) = get_managed_label_for_owner owner in
    record { in_namespace = none; label = key; value = value }

data_plane-selects :
    (d : DataPlane) (a : Secret)
    → HasMarksOf (generated_secret (data_plane d)) a
    → (selects (secret_options (data_plane d)) a ≡ true)
      × (is_owned_by_ref_uid a.meta d.meta.uid ≡ true)
unfolding selects is_owned_by_ref_uid secret_options
data_plane-selects d a (l, o) = (
  rw (l, generated_secret-get_managed_label.0 d) (==_refl data_plane_managed_label_value),
  rw o (unfold is_owned_by_ref_uid in generated_secret-is_owned d),
)

control_plane-selects :
    (c : ControlPlane) (a : Secret)
    → HasMarksOf (generated_secret (control_plane c)) a
    → selects (secret_options (control_plane c)) a ≡ false
unfolding selects secret_options
control_plane-selects c a (l, o) = rw (l, generated_secret-get_managed_label.1 c) refl

module _ {S : Type 0} (client : Client S) where
  -- In a state the server has some Secrets, and lists those of them that the options select.
  abbrev pub Stores : S → List Secret → Type 0
  Stores s items =
      (options : ListOptions)
      → client.secrets.list (some options) s ≡ (ok (keep (selects options) items), s)

  -- The list of the Secrets of an owner, by which the operator looks for its certificate.
  abbrev pub listed : Owner → S → Result (List Secret) × S
  listed owner s =
      let (key, value) = get_managed_label_for_owner owner in
      list_secrets_for_owner client key value (owner_meta owner).uid s

  listed_lem :
      (owner : Owner) (s : S) (items : List Secret)
      → Stores s items
      → listed owner s
        ≡ (ok (owned_by (owner_meta owner).uid (keep (selects (secret_options owner)) items)), s)
  unfolding list_secrets_for_owner list_for_owner get_managed_label_for_owner
  listed_lem owner s items h = rw (h (secret_options owner)) refl

  -- For a server that selects by label: when the Secret that is generated for a DataPlane is
  -- stored after others, the list of the DataPlane's Secrets has it too. When the one that is
  -- generated for a ControlPlane is stored, the list of the ControlPlane's Secrets is as it was
  -- without it: the reconciler does not find the Secret that it created.
  pub generated_secret-listed :
      (d : DataPlane) (c : ControlPlane) (items : List Secret) (a b : Secret) (s t u : S)
      → HasMarksOf (generated_secret (data_plane d)) a
      → HasMarksOf (generated_secret (control_plane c)) b
      → Stores s items
      → Stores t (items ++ a ∷ [])
      → Stores u (items ++ b ∷ [])
      → ((found : List Secret) × (listed (data_plane d) s ≡ (ok found, s))
          × (listed (data_plane d) t ≡ (ok (found ++ a ∷ []), t)))
        × ((found : List Secret) × (listed (control_plane c) s ≡ (ok found, s))
            × (listed (control_plane c) u ≡ (ok found, u)))
  unfolding owned_by
  generated_secret-listed d c items a b s t u ha hb hs ht hu =
      let (chosen, owned) = data_plane-selects d a ha in
      let p = selects (secret_options (data_plane d)) in
      let q = selects (secret_options (control_plane c)) in
      let is_of = λ (uid : String) (x : Secret). is_owned_by_ref_uid x.meta uid in
      (
        (
          _,
          listed_lem (data_plane d) s items hs,
          listed_lem (data_plane d) t (items ++ a ∷ []) ht
              ∙ ap (λ xs. (ok (keep (is_of d.meta.uid) xs), t)) (keep-append_one p items a chosen)
              ∙ ap (λ xs. (ok xs, t)) (keep-append_one (is_of d.meta.uid) (keep p items) a owned),
        ),
        (
          _,
          listed_lem (control_plane c) s items hs,
          listed_lem (control_plane c) u (items ++ b ∷ []) hu
              ∙ ap (λ xs. (ok (keep (is_of c.meta.uid) xs), u))
                  (keep-drop_one q items b (control_plane-selects c b hb)),
        ),
      )
