-- ===== src/Client/Selection.antt =====
-- What the API server selects for the options of a list, as Kubernetes documents them.
use apisix_operator.Prelude.{
  ◌≡◌, ==_refl, arith, String, Bool, true, false, ◌&&◌, ◌||◌, Option, none, some, ◌==◌, string_eq,
}
use apisix_operator.Prelude.Dict
use apisix_operator.Kubernetes.Metadata.{entries}
use apisix_operator.Resources.Objects.{Object}
use apisix_operator.Client.{ListOptions}

-- An empty namespace selects all namespaces.
abbrev is_in : Option String → String → Bool
is_in none namespace = true
is_in (some wanted) namespace = wanted == "" || wanted == namespace

pub in_own_namespace : (namespace : String) → (namespace == "" || namespace == namespace) ≡ true
in_own_namespace namespace = ground (arith, ==_refl namespace)

abbrev is_value : String → Option String → Bool
is_value value none = false
is_value value (some found) = found == value

-- An object is selected by its namespace and by the value of one label.
unfoldable pub selects {ℓ} : {A : Type ℓ} ⦃o : Object A⦄ → ListOptions → A → Bool
unfolding Dict.lookup
selects ⦃o⦄ options a =
    let m = o.get_meta a in
    is_in options.in_namespace m.namespace
    && is_value options.value (Dict.lookup options.label (entries m.labels))
