-- ===== src/Controllers/ControlPlane/Collected/Released.antt =====
-- A deleted ControlPlane that owns nothing in the cluster and that the operator has released.
use apisix_operator.Prelude.{
  ℕ, zero, suc, ◌≤◌, String, ◌≡◌, refl, ap, ◌∙◌, ◌⊎◌, inl, inr, false, some, List, [], ◌∷◌,
  string_eq,
}
use apisix_operator.Errors.{ok, err, not_found}
use apisix_operator.Errors.Calls.{runs}
use apisix_operator.Api.Meta.{Time}
use apisix_operator.Api.Types.{ControlPlane}
use apisix_operator.Kubernetes.Metadata.{has_finalizer}
use apisix_operator.Resources.Objects.{cluster_role_object, cluster_role_binding_object}
use apisix_operator.Client.{NamespacedName}
use apisix_operator.Controllers.Owned.Stored.{found_cong, removed-none}
use apisix_operator.Controllers.ControlPlane.{
  finished, Reconciler, cleanup_cluster_role, cleanup_cluster_role_binding,
}
use apisix_operator.Controllers.ControlPlane.Reconcile.{reconcile, reconcile_found}
use apisix_operator.Controllers.ControlPlane.Collecting.{
  cluster_options, owned_bindings, owned_roles, without_bindings, without_roles, due_lem,
  cleanup_third,
}
use apisix_operator.Controllers.ControlPlane.Collecting.Server.{CleanupServer, kept_or_gone}

module _ {S P C V : Type 0} (r : Reconciler S P C V) {key : NamespacedName}
    (server : CleanupServer r.client key) where
  open server use {
    clock, control_plane, roles, bindings, put, version, get_law, control_plane-put,
    control_plane-clock, roles-bindings, bindings-roles, bindings-put, roles-put, bindings-clock,
    roles-clock,
  }

  -- The state after a number of runs of the reconciler.
  abbrev pub after : ℕ → S → S
  after = runs (reconcile r key)

  -- Nothing is left of what the ControlPlane owns in the cluster.
  abbrev pub NothingOwned : String → S → Type 0
  NothingOwned uid s = (owned_bindings r server uid s ≡ []) × (owned_roles r server uid s ≡ [])

  -- The ControlPlane is gone, or is there without the finalizers of the operator.
  abbrev pub IsReleased : String → Time → S → Type 0
  IsReleased uid deletion s =
      (control_plane s ≡ err not_found)
      ⊎ ((c : ControlPlane) × (control_plane s ≡ ok c)
          × (c.meta.uid ≡ uid)
          × (c.meta.deletion_timestamp ≡ some deletion)
          × (has_finalizer cleanup_cluster_role_binding c.meta.finalizers ≡ false)
          × (has_finalizer cleanup_cluster_role c.meta.finalizers ≡ false))

  run_gone : (s : S) → control_plane s ≡ err not_found → reconcile r key s ≡ (ok finished, s)
  unfolding reconcile reconcile_found
  run_gone s e = rw (get_law s, e) refl

  pub clock-NothingOwned :
      (uid : String) (s : S) → NothingOwned uid s → NothingOwned uid (clock s).1
  clock-NothingOwned uid s (b, l) = (
    found_cong bindings cluster_options uid (bindings-clock s) ∙ b,
    found_cong roles cluster_options uid (roles-clock s) ∙ l,
  )

  -- With nothing owned there is nothing to delete.
  pub nothing_to_delete :
      (uid : String) (s : S)
      → NothingOwned uid s
      → without_roles r server uid (without_bindings r server uid s) ≡ s
  nothing_to_delete uid s (b, l) =
      ap (without_roles r server uid) (removed-none bindings (owned_bindings r server uid s) s b)
      ∙ removed-none roles (owned_roles r server uid s) s l

  module _ {deletion : Time} (past : (s : S) → deletion ≤ (clock s).0) where
    released_run :
        (uid : String) (s : S)
        → NothingOwned uid s
        → IsReleased uid deletion s
        → (t : S) × (reconcile r key s ≡ (ok finished, t))
          × (control_plane t ≡ control_plane s)
          × NothingOwned uid t
    released_run uid s left (inl e) = (s, run_gone s e, refl, left)
    released_run uid s left (inr (c, e, u, d, h, k)) = (
      (clock s).1,
      due_lem r server c s e d (past s)
          ∙ cleanup_third r server c (clock s).1 h k
          ∙ ap (λ t. (ok finished, t))
              (nothing_to_delete c.meta.uid (clock s).1
                (clock-NothingOwned c.meta.uid s (rw u left))),
      control_plane-clock s,
      clock-NothingOwned uid s left,
    )

    pub released_stays :
        (uid : String) (s : S) (n : ℕ)
        → NothingOwned uid s
        → IsReleased uid deletion s
        → (control_plane (after n s) ≡ control_plane s)
          × NothingOwned uid (after n s)
          × ((reconcile r key (after n s)).0 ≡ ok finished)
    unfolding runs
    released_stays uid s zero left released =
        let (t, run, same, left') = released_run uid s left released in (refl, left, rw run refl)
    released_stays uid s (suc n) left released =
        let (t, run, same, left') = released_run uid s left released in
        let (c, l, o) = released_stays uid t n left' (rw same released) in rw run (c ∙ same, l, o)

    pub IsReleased-kept_or_gone :
        (c : ControlPlane) (fs : List String) (s : S)
        → control_plane s ≡ kept_or_gone fs c
        → c.meta.deletion_timestamp ≡ some deletion
        → has_finalizer cleanup_cluster_role_binding c.meta.finalizers ≡ false
        → has_finalizer cleanup_cluster_role c.meta.finalizers ≡ false
        → IsReleased c.meta.uid deletion s
    IsReleased-kept_or_gone c [] s e d h k = inl e
    IsReleased-kept_or_gone c (f ∷ fs) s e d h k = inr (c, e, refl, d, h, k)
