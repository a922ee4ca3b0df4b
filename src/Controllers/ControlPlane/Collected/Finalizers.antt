-- ===== src/Controllers/ControlPlane/Collected/Finalizers.antt =====
-- The finalizers of a ControlPlane while it is deleted.
use apisix_operator.Prelude.{
  String, ◌≡◌, refl, ◌∙◌, arith, true, false, List, [], ◌∷◌, keep, any, ◌!=◌, string_eq,
  String-discrete,
}
use apisix_operator.Errors.{ok}
use apisix_operator.Api.Types.{ControlPlane}
use apisix_operator.Kubernetes.Metadata.{has_finalizer}
use apisix_operator.Kubernetes.Metadata.Finalizers.{has-keep}
use apisix_operator.Resources.Objects.{cluster_role_object, cluster_role_binding_object}
use apisix_operator.Controllers.ControlPlane.{cleanup_cluster_role, cleanup_cluster_role_binding}
use apisix_operator.Controllers.ControlPlane.Collecting.Server.{kept_or_gone}

-- The finalizers that the operator did not set.
abbrev pub others : List String → List String
others fs = keep (λ h. h != cleanup_cluster_role) (keep (λ h. h != cleanup_cluster_role_binding) fs)

pub kept_lem :
    (f : String) (fs : List String) (c : ControlPlane)
    → has_finalizer f fs ≡ true
    → kept_or_gone fs c ≡ ok c
unfolding has_finalizer any
kept_lem f [] c h = ground arith
kept_lem f (g ∷ fs) c h = refl

pub without_first :
    (fs : List String)
    → has_finalizer cleanup_cluster_role fs ≡ true
    → (has_finalizer cleanup_cluster_role_binding (keep (λ h. h != cleanup_cluster_role_binding) fs)
        ≡ false)
      × (has_finalizer cleanup_cluster_role (keep (λ h. h != cleanup_cluster_role_binding) fs)
          ≡ true)
unfolding String-discrete
without_first fs h = (
  has-keep cleanup_cluster_role_binding cleanup_cluster_role_binding fs,
  has-keep cleanup_cluster_role_binding cleanup_cluster_role fs ∙ h,
)

pub without_both :
    (fs : List String)
    → (has_finalizer cleanup_cluster_role_binding (others fs) ≡ false)
      × (has_finalizer cleanup_cluster_role (others fs) ≡ false)
unfolding String-discrete
without_both fs =
    let gs = keep (λ h. h != cleanup_cluster_role_binding) fs in
    (
      has-keep cleanup_cluster_role cleanup_cluster_role_binding gs
          ∙ has-keep cleanup_cluster_role_binding cleanup_cluster_role_binding fs,
      has-keep cleanup_cluster_role cleanup_cluster_role gs,
    )
