-- ===== src/Tests/Kubernetes.antt =====
-- The theorems on conditions and metadata at concrete objects.
use apisix_operator.Prelude.{
  String, String-discrete, ◌≡◌, ◌≢◌, ◌↔◌, refl, Bool, true, false, Option, none, some, List, [],
  ◌∷◌, ◌!=◌, ◌&&◌, ◌||◌, string_eq, find,
}
use apisix_operator.Prelude.Dict.{lookup}
use apisix_operator.Api.Meta.{Condition, condition_true, condition_false}
use apisix_operator.Api.Types.{control_plane_conditions}
use apisix_operator.Kubernetes.Status.{get_condition, is_ready, set_ready, needs_update, ready_type}
use apisix_operator.Kubernetes.Status.Ready.{OthersAreTrue, set_ready-OthersAreTrue}
use apisix_operator.Kubernetes.Status.Update.{report, needs_update-exact}
use apisix_operator.Kubernetes.Metadata.{
  has_finalizer, ensure_finalizers_in_metadata, remove_finalizer_in_metadata, entries,
  ensure_object_meta_is_updated,
}
use apisix_operator.Kubernetes.Metadata.Finalizers.{ensure_finalizers_lem, remove_finalizer_lem}
use apisix_operator.Kubernetes.Metadata.Update.{
  ensure_object_meta_panics, ensure_object_meta_converges,
}
use apisix_operator.Tests.Data.{condition, a_meta, a_control_plane}
use mathlib.Core.Option
use mathlib.Core.Option.{or_else}

abbrev provisioned : Condition
provisioned = condition "Provisioned" condition_true

abbrev ready : Condition
ready = condition "Ready" condition_true

abbrev unready : Condition
unready = condition "Ready" condition_false

set_ready-OthersAreTrue_example :
    ((is_ready (set_ready 9 (a_control_plane (unready ∷ provisioned ∷ []))) ≡ true)
      ↔ OthersAreTrue (unready ∷ provisioned ∷ []))
    × ((t : String)
        → t ≢ ready_type
        → get_condition t (set_ready 9 (a_control_plane (unready ∷ provisioned ∷ [])))
          ≡ get_condition t (a_control_plane (unready ∷ provisioned ∷ [])))
set_ready-OthersAreTrue_example =
    set_ready-OthersAreTrue 9 (a_control_plane (unready ∷ provisioned ∷ []))

needs_update-exact_example :
    (needs_update
        (a_control_plane (ready ∷ provisioned ∷ []))
        (a_control_plane (provisioned ∷ ready ∷ []))
      ≡ false)
    ↔ ((t : String)
        → Option.map report (get_condition t (a_control_plane (ready ∷ provisioned ∷ [])))
          ≡ Option.map report (get_condition t (a_control_plane (provisioned ∷ ready ∷ []))))
unfolding String-discrete find
needs_update-exact_example =
    needs_update-exact (a_control_plane (ready ∷ provisioned ∷ []))
      (a_control_plane (provisioned ∷ ready ∷ [])) (refl, (refl, tt)) (refl, (refl, tt))

abbrev no_labels : Option (List (String × String))
no_labels = none

ensure_object_meta_panics_example :
    (ensure_object_meta_is_updated (record a_meta { labels = none }) a_meta ≡ none)
    ↔ ((no_labels ≡ none) × (entries a_meta.labels ≢ []))
ensure_object_meta_panics_example =
    ensure_object_meta_panics (record a_meta { labels = none }) a_meta

ensure_finalizers_lem_example :
    let r = ensure_finalizers_in_metadata a_meta ("cleanup" ∷ []) in
    ((g : String)
      → has_finalizer g r.1.finalizers
        ≡ (has_finalizer g a_meta.finalizers || has_finalizer g ("cleanup" ∷ [])))
    × ((r.0 ≡ true) ↔ (r.1 ≢ a_meta))
ensure_finalizers_lem_example = ensure_finalizers_lem a_meta ("cleanup" ∷ [])

remove_finalizer_lem_example :
    let m = record a_meta { finalizers = "cleanup" ∷ "keep" ∷ [] } in
    let r = remove_finalizer_in_metadata m "cleanup" in
    ((g : String)
      → has_finalizer g r.1.finalizers ≡ (g != "cleanup" && has_finalizer g m.finalizers))
    × (r.0 ≡ has_finalizer "cleanup" m.finalizers)
    × ((r.0 ≡ true) ↔ (r.1 ≢ m))
remove_finalizer_lem_example =
    remove_finalizer_lem (record a_meta { finalizers = "cleanup" ∷ "keep" ∷ [] }) "cleanup"

ensure_object_meta_converges_example :
    let existing = record a_meta { labels = some (("app", "y") ∷ []) } in
    (changed : Bool) × (labels' : List (String × String)) × (let m = record existing {
      owner_references = [];
      labels = some labels';
    } in
      (ensure_object_meta_is_updated existing a_meta ≡ some (changed, m))
      × ((j : String)
          → lookup j labels'
            ≡ or_else (lookup j (("app", "x") ∷ [])) (lookup j (("app", "y") ∷ [])))
      × ((changed ≡ true) ↔ (m ≢ existing))
      × (ensure_object_meta_is_updated m a_meta ≡ some (false, m)))
unfolding lookup
ensure_object_meta_converges_example =
    ensure_object_meta_converges (record a_meta { labels = some (("app", "y") ∷ []) }) a_meta refl
      (refl, tt)
