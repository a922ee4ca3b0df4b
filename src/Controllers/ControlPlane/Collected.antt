-- ===== src/Controllers/ControlPlane/Collected.antt =====
-- A deleted ControlPlane that the reconciler is run on again and again.
pub mod Finalizers
pub mod Released
use apisix_operator.Prelude.{
  ℕ, zero, suc, ◌≤◌, String, ◌≡◌, refl, ap, ◌∙◌, ◌⊎◌, inl, inr, arith, true, false, some, List, [],
  ◌∷◌, keep, any, ◌!=◌, string_eq, String-discrete,
}
use apisix_operator.Errors.{ok, err, not_found}
use apisix_operator.Errors.Calls.{runs, runs-two, runs-answer}
use apisix_operator.Api.Meta.{Time}
use apisix_operator.Api.Types.{ControlPlane}
use apisix_operator.Kubernetes.Metadata.{has_finalizer}
use apisix_operator.Kubernetes.Metadata.Finalizers.{has-keep}
use apisix_operator.Resources.Objects.{cluster_role_object, cluster_role_binding_object}
use apisix_operator.Client.{NamespacedName}
use apisix_operator.Controllers.Owned.Stored.{
  removed_frame, found-removed, found_cong, removed-none,
}
use apisix_operator.Controllers.ControlPlane.{
  finished, Reconciler, cleanup_cluster_role, cleanup_cluster_role_binding,
}
use apisix_operator.Controllers.ControlPlane.Reconcile.{reconcile, reconcile_found}
use apisix_operator.Controllers.ControlPlane.Collecting.{
  cluster_options, owned_bindings, owned_roles, without_bindings, without_roles, due_lem,
  cleanup_first, cleanup_second, cleanup_third, control_plane-without_bindings,
  control_plane-without_roles,
}
use apisix_operator.Controllers.ControlPlane.Collecting.Server.{CleanupServer, kept_or_gone}
use apisix_operator.Controllers.ControlPlane.Collected.Finalizers.{
  others, kept_lem, without_first, without_both,
}
use apisix_operator.Controllers.ControlPlane.Collected.Released.{
  after, NothingOwned, IsReleased, released_stays, IsReleased-kept_or_gone,
}

module _ {S P C V : Type 0} (r : Reconciler S P C V) {key : NamespacedName}
    (server : CleanupServer r.client key) where
  open server use {
    clock, control_plane, roles, bindings, put, version, get_law, control_plane-put,
    control_plane-clock, roles-bindings, bindings-roles, bindings-put, roles-put, bindings-clock,
    roles-clock,
  }

  -- The two runs that delete.
  after_first : ControlPlane → S → S
  after_first c s =
      put (keep (λ h. h != cleanup_cluster_role_binding) c.meta.finalizers)
        (without_bindings r server c.meta.uid (clock s).1)

  after_second : ControlPlane → S → S
  after_second c s =
      put (keep (λ h. h != cleanup_cluster_role) c.meta.finalizers)
        (without_roles r server c.meta.uid (without_bindings r server c.meta.uid (clock s).1))

  after_second-NothingOwned :
      (c : ControlPlane) (s : S) → NothingOwned r server c.meta.uid (after_second c s)
  unfolding after_second
  after_second-NothingOwned c s =
      let uid = c.meta.uid in
      let s1 = (clock s).1 in
      let b = without_bindings r server uid s1 in
      let l = without_roles r server uid b in
      (
        found_cong bindings cluster_options uid (
              bindings-put (keep (λ h. h != cleanup_cluster_role) c.meta.finalizers) l
              ∙ removed_frame roles bindings.items (owned_roles r server uid b) b bindings-roles)
            ∙ found-removed bindings cluster_options uid s1,
        found_cong roles cluster_options uid
              (roles-put (keep (λ h. h != cleanup_cluster_role) c.meta.finalizers) l)
            ∙ found-removed roles cluster_options uid b,
      )

  -- What the runs reach: after two of them nothing that the ControlPlane owned in the cluster is
  -- left, and the ControlPlane is gone, or is kept only by finalizers that are not the
  -- operator's; no later run changes that.
  abbrev pub Collects : ControlPlane → S → Type 0
  Collects c s =
      let t = after r server 2 s in
      ((v : String) × (control_plane t
          ≡ kept_or_gone (others c.meta.finalizers) (record c {
            meta = record (c.meta) { finalizers = others c.meta.finalizers; resource_version = v };
          })))
      × NothingOwned r server c.meta.uid t
      × ((n : ℕ)
          → (control_plane (after r server n t) ≡ control_plane t)
            × NothingOwned r server c.meta.uid (after r server n t))
      × ((n : ℕ) → (reconcile r key (after r server n s)).0 ≡ ok finished)

  module _ {deletion : Time} (past : (s : S) → deletion ≤ (clock s).0) where
    first_run :
        (c : ControlPlane) (s : S)
        → control_plane s ≡ ok c
        → c.meta.deletion_timestamp ≡ some deletion
        → has_finalizer cleanup_cluster_role c.meta.finalizers ≡ true
        → has_finalizer cleanup_cluster_role_binding c.meta.finalizers ≡ true
        → (v : String) × (reconcile r key s ≡ (ok finished, after_first c s))
          × (control_plane (after_first c s)
              ≡ ok (record c {
                meta = record (c.meta) {
                  finalizers = keep (λ h. h != cleanup_cluster_role_binding) c.meta.finalizers;
                  resource_version = v;
                };
              }))
    unfolding after_first
    first_run c s e d k h =
        let s1 = (clock s).1 in
        let e1 = control_plane-clock s ∙ e in
        let b = without_bindings r server c.meta.uid s1 in
        let fs = keep (λ h. h != cleanup_cluster_role_binding) c.meta.finalizers in
        (
          version b,
          due_lem r server c s e d (past s) ∙ cleanup_first r server c s1 e1 h,
          control_plane-put c fs b (control_plane-without_bindings r server c.meta.uid s1 ∙ e1) d
              ∙ kept_lem cleanup_cluster_role fs _ (without_first c.meta.finalizers k).1,
        )

    second_run :
        (c : ControlPlane) (s : S)
        → control_plane s ≡ ok c
        → c.meta.deletion_timestamp ≡ some deletion
        → has_finalizer cleanup_cluster_role_binding c.meta.finalizers ≡ false
        → has_finalizer cleanup_cluster_role c.meta.finalizers ≡ true
        → (v : String) × (let fs = keep (λ h. h != cleanup_cluster_role) c.meta.finalizers in
            (reconcile r key s ≡ (ok finished, after_second c s))
            × (control_plane (after_second c s)
                ≡ kept_or_gone fs (record c {
                  meta = record (c.meta) { finalizers = fs; resource_version = v };
                })))
    unfolding after_second
    second_run c s e d h k =
        let uid = c.meta.uid in
        let s1 = (clock s).1 in
        let e1 = control_plane-clock s ∙ e in
        let b = without_bindings r server uid s1 in
        let l = without_roles r server uid b in
        let fs = keep (λ h. h != cleanup_cluster_role) c.meta.finalizers in
        (
          version l,
          (
            due_lem r server c s e d (past s) ∙ cleanup_second r server c s1 e1 h k,
            control_plane-put c fs l
                (control_plane-without_roles r server uid b
                  ∙ control_plane-without_bindings r server uid s1
                  ∙ e1)
                d,
          ),
        )

    collects_at :
        (c : ControlPlane) (s t t' : S)
        → reconcile r key s ≡ (ok finished, t)
        → reconcile r key t ≡ (ok finished, t')
        → NothingOwned r server c.meta.uid t'
        → IsReleased r server c.meta.uid deletion t'
        → ((n : ℕ)
            → (control_plane (after r server n t') ≡ control_plane t')
              × NothingOwned r server c.meta.uid (after r server n t'))
          × ((n : ℕ) → (reconcile r key (after r server n s)).0 ≡ ok finished)
    collects_at c s t t' run run' left released = (
      λ n. let (e, l, o) = released_stays r server past c.meta.uid t' n left released in (e, l),
      λ n.
          runs-answer (reconcile r key) s n run run'
            (λ k. (released_stays r server past c.meta.uid t' k left released).2),
    )

    -- For a server that takes the calls of the cleanup as documented and that nobody else writes
    -- to, and a ControlPlane with both finalizers of the operator whose deletion is due: every run
    -- of the reconciler finishes without an error, and after two runs none of the ClusterRoles and
    -- ClusterRoleBindings is left that its lists find for the ControlPlane, and the ControlPlane is
    -- gone, or, if it has other finalizers, kept with just these. No later run, however many,
    -- changes that.
    pub deletion-Collects :
        (c : ControlPlane) (s : S)
        → control_plane s ≡ ok c
        → c.meta.deletion_timestamp ≡ some deletion
        → has_finalizer cleanup_cluster_role c.meta.finalizers ≡ true
        → has_finalizer cleanup_cluster_role_binding c.meta.finalizers ≡ true
        → Collects c s
    deletion-Collects c s e d k h =
        let fs = keep (λ h. h != cleanup_cluster_role_binding) c.meta.finalizers in
        let (v, run, e') = first_run c s e d k h in
        let c' = record c { meta = record (c.meta) { finalizers = fs; resource_version = v } } in
        let (h', k') = without_first c.meta.finalizers k in
        let t = after_first c s in
        let (v', (run', e'')) = second_run c' t e' d h' k' in
        let c'' = record c {
          meta = record (c.meta) { finalizers = others c.meta.finalizers; resource_version = v' };
        } in
        let (h'', k'') = without_both c.meta.finalizers in
        let t' = after_second c' t in
        let left = after_second-NothingOwned c' t in
        let (stays, finish) =
          collects_at c s t t' run run' left (
            IsReleased-kept_or_gone r server past c'' (others c.meta.finalizers) t' e'' d h''
              k'') in
        rw (runs-two (reconcile r key) s run run') ((v', e''), left, stays, finish)
