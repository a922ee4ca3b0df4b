-- ===== src/Tests/Settled.antt =====
-- The theorems on repeated runs at concrete servers.
use apisix_operator.Prelude.{String-discrete, refl, keep, any}
use apisix_operator.Controllers.DataPlane.Settled.{Settles, data_plane-Settles}
use apisix_operator.Controllers.DataPlane.Server.{owned_services}
use apisix_operator.Kubernetes.Metadata.{has_finalizer}
use apisix_operator.Controllers.ControlPlane.Collected.{Collects, deletion-Collects}
use apisix_operator.Tests.Deleting.{
  deleting, deleting_server, deleting_reconciler, deleting_past, deleted_control_plane, two_roles,
}
use apisix_operator.Tests.World.{world, world_server, world_reconciler, fresh_world}

data_plane-Settles_example : Settles world_reconciler world_server fresh_world
unfolding world_server world owned_services keep
data_plane-Settles_example = data_plane-Settles world_reconciler world_server fresh_world tt refl

deletion-Collects_example :
    Collects deleting_reconciler deleting_server deleted_control_plane two_roles
unfolding deleting_server deleting has_finalizer any String-discrete
deletion-Collects_example =
    deletion-Collects deleting_reconciler deleting_server deleting_past deleted_control_plane
      two_roles refl refl refl refl
