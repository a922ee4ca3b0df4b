-- ===== src/Tests/Watch.antt =====
-- The theorems on the watches at concrete objects.
use apisix_operator.Prelude.{ℕ, ◌≡◌, refl, true, false, [], ◌∷◌, any, String-discrete}
use apisix_operator.Errors.{ok, err, conflict}
use apisix_operator.Api.Types.{ControlPlane}
use apisix_operator.Kubernetes.Metadata.{is_owned_by_ref_uid}
use apisix_operator.Client.{Client}
use apisix_operator.Resources.Objects.{cluster_role_object}
use apisix_operator.Controllers.Owned.{mark_for_control_plane}
use apisix_operator.Controllers.ControlPlane.{key_of}
use apisix_operator.Controllers.ControlPlane.Watch.{
  role, cluster_role_has_controlplane_owner, cluster_role_binding_has_controlplane_owner,
  get_controlplane_for_cluster_role, get_controlplane_for_cluster_role_binding,
}
use apisix_operator.Controllers.ControlPlane.Watch.Requests.{
  Agrees, watches_agree, mark_for_control_plane-watched,
}
use apisix_operator.Tests.Data.{a_meta, a_control_plane}
use apisix_operator.Tests.Server.{server, a_role, kind_of}

abbrev other_control_plane : ControlPlane
other_control_plane = record (a_control_plane []) { meta = record a_meta { uid = "u0" } }

-- Servers that list two ControlPlanes, and that fail.
abbrev two_control_planes : Client ℕ
two_control_planes = record server {
  control_planes = kind_of (other_control_plane ∷ a_control_plane [] ∷ []) (a_control_plane []);
}

abbrev failing : Client ℕ
failing = record server {
  control_planes = record (kind_of [] (a_control_plane [])) {
    list = λ options s. (err conflict, s);
  };
}

watches_agree_example :
    Agrees true
      (err conflict)
      (cluster_role_has_controlplane_owner failing (role a_role) 0).0
      (get_controlplane_for_cluster_role failing (role a_role) 0).0
    × Agrees false
        (err conflict)
        (cluster_role_binding_has_controlplane_owner failing (role a_role) 0).0
        (get_controlplane_for_cluster_role_binding failing (role a_role) 0).0
watches_agree_example = watches_agree failing (role a_role) 0 refl

mark_for_control_plane-watched_example :
    let c = a_control_plane [] in
    let marked = mark_for_control_plane c.type_meta c.meta a_role in
    (cluster_role_has_controlplane_owner two_control_planes (role marked) 0 ≡ (ok true, 0))
    × (get_controlplane_for_cluster_role two_control_planes (role marked) 0
        ≡ (ok (key_of c.meta ∷ []), 0))
unfolding any is_owned_by_ref_uid mark_for_control_plane String-discrete
mark_for_control_plane-watched_example =
    mark_for_control_plane-watched two_control_planes a_role (a_control_plane [])
      (other_control_plane ∷ []) [] 0 refl refl
