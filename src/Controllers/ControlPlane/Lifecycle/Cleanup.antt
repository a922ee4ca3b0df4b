-- ===== src/Controllers/ControlPlane/Lifecycle/Cleanup.antt =====
-- What the garbage collection of a ControlPlane deletes, and in which order.
use apisix_operator.Prelude.{
  String, sym, ◌∙◌, ◌≡◌, ◌⊎◌, inl, inr, arith, true, false, List, Bool-cases, string_eq,
}
use apisix_operator.Errors.{ok}
use apisix_operator.Errors.Results.{Result-cases}
use apisix_operator.Api.Types.{ControlPlane}
use apisix_operator.Resources.Objects.{
  ClusterRole, ClusterRoleBinding, cluster_role_object, cluster_role_binding_object,
}
use apisix_operator.Resources.Generators.{
  gateway_operator_controlled_label, control_plane_managed_label_value,
}
use apisix_operator.Kubernetes.Metadata.{has_finalizer, remove_finalizer_in_metadata}
use apisix_operator.Kubernetes.Metadata.Finalizers.{remove_finalizer_lem}
use apisix_operator.Client.Lists.{
  list_cluster_roles_for_owner, list_cluster_role_bindings_for_owner,
}
use apisix_operator.Controllers.Owned.Deletion.{AllHarmless, deletions, delete_all-AllHarmless}
use apisix_operator.Controllers.ControlPlane.{
  Outcome, finished, Reconciler, with_meta, cleanup_cluster_role, cleanup_cluster_role_binding,
}
use apisix_operator.Controllers.ControlPlane.Ensure.{
  ensure_owned_cluster_roles_deleted, ensure_owned_cluster_role_bindings_deleted,
}
use apisix_operator.Controllers.ControlPlane.Reconcile.{finish_update, cleanup}

module _ {S P C V : Type 0} (r : Reconciler S P C V) where
  open r use {client}

  -- The ClusterRoleBindings of a ControlPlane were listed in the state `s`, and all of them are gone
  -- in `s'`, after each was deleted.
  abbrev pub BindingsGone : ControlPlane → S → S → Type 0
  BindingsGone c s s' =
      (items : List ClusterRoleBinding) × (listed : S) × (list_cluster_role_bindings_for_owner
          client gateway_operator_controlled_label control_plane_managed_label_value c.meta.uid s
        ≡ (ok items, listed))
      × AllHarmless (deletions client.cluster_role_bindings items listed).0
      × ((deletions client.cluster_role_bindings items listed).1 ≡ s')

  -- The same of the ClusterRoles.
  abbrev pub RolesGone : ControlPlane → S → S → Type 0
  RolesGone c s s' =
      (items : List ClusterRole) × (listed : S) × (list_cluster_roles_for_owner client
          gateway_operator_controlled_label control_plane_managed_label_value c.meta.uid s
        ≡ (ok items, listed))
      × AllHarmless (deletions client.cluster_roles items listed).0
      × ((deletions client.cluster_roles items listed).1 ≡ s')

  bindings_gone :
      (c : ControlPlane) (s : S) {s' : S}
      → ensure_owned_cluster_role_bindings_deleted r c s ≡ (ok tt, s')
      → BindingsGone c s s'
  unfolding ensure_owned_cluster_role_bindings_deleted
  bindings_gone c s h =
      let listed =
        list_cluster_role_bindings_for_owner client gateway_operator_controlled_label
          control_plane_managed_label_value c.meta.uid s in
      elim (Result-cases listed.0) [
        | inr (e, k) ↦ ground arith
        | inl (items, k) ↦
            let all = delete_all-AllHarmless client.cluster_role_bindings items listed.1 in
            (items, listed.1, ground arith, ground (arith, all), ground (arith, all))
      ]

  roles_gone :
      (c : ControlPlane) (s : S) {s' : S}
      → ensure_owned_cluster_roles_deleted r c s ≡ (ok tt, s')
      → RolesGone c s s'
  unfolding ensure_owned_cluster_roles_deleted
  roles_gone c s h =
      let listed =
        list_cluster_roles_for_owner client gateway_operator_controlled_label
          control_plane_managed_label_value c.meta.uid s in
      elim (Result-cases listed.0) [
        | inr (e, k) ↦ ground arith
        | inl (items, k) ↦
            let all = delete_all-AllHarmless client.cluster_roles items listed.1 in
            (items, listed.1, ground arith, ground (arith, all), ground (arith, all))
      ]

  -- The ControlPlane had the finalizer, and is written without it.
  abbrev pub IsRemoved : String → ControlPlane → S → S → Type 0
  IsRemoved finalizer c s s' =
      (has_finalizer finalizer c.meta.finalizers ≡ true)
      × (stored : ControlPlane) × (client.control_planes.update
            (with_meta c (remove_finalizer_in_metadata c.meta finalizer).1) s
          ≡ (ok stored, s'))

  finish_update_lem :
      (c : ControlPlane) (s : S) {o : Outcome} {s' : S}
      → finish_update r c s ≡ (ok o, s')
      → (o ≡ finished)
        × (stored : ControlPlane) × (client.control_planes.update c s ≡ (ok stored, s'))
  unfolding finish_update
  finish_update_lem c s h = elim (Result-cases (client.control_planes.update c s).0) [
    | inr (e, k) ↦ ground arith
    | inl (stored, k) ↦ (ground arith, stored, ground arith)
  ]

  removal_step :
      (finalizer : String) (c : ControlPlane) (s : S) {o : Outcome} {s' : S}
      → (remove_finalizer_in_metadata c.meta finalizer).0 ≡ true
      → finish_update r (with_meta c (remove_finalizer_in_metadata c.meta finalizer).1) s
        ≡ (ok o, s')
      → (o ≡ finished) × IsRemoved finalizer c s s'
  removal_step finalizer c s k h =
      let (e, stored, u) =
        finish_update_lem (with_meta c (remove_finalizer_in_metadata c.meta finalizer).1) s h in
      (e, ((sym (remove_finalizer_lem c.meta finalizer).1 ∙ k), stored, u))

  -- What the garbage collection of a ControlPlane did between two states.
  abbrev pub IsCleaned : ControlPlane → S → S → Type 0
  IsCleaned c s s' =
      (mid : S) × BindingsGone c s mid
      × (IsRemoved cleanup_cluster_role_binding c mid s'
          ⊎ ((has_finalizer cleanup_cluster_role_binding c.meta.finalizers ≡ false)
              × (last : S) × RolesGone c mid last
              × (IsRemoved cleanup_cluster_role c last s'
                  ⊎ ((has_finalizer cleanup_cluster_role c.meta.finalizers ≡ false)
                      × (last ≡ s')))))

  pub cleanup_order :
      (c : ControlPlane) (s : S) {o : Outcome} {s' : S}
      → cleanup r c s ≡ (ok o, s')
      → (o ≡ finished) × IsCleaned c s s'
  unfolding cleanup
  cleanup_order c s {o} {s'} h =
      let first = ensure_owned_cluster_role_bindings_deleted r c s in
      elim (Result-cases first.0) [
        | inr (e, k) ↦ ground arith
        | inl (tt, k) ↦
            elim (Bool-cases (remove_finalizer_in_metadata c.meta cleanup_cluster_role_binding).0) [
              | inl b ↦
                  let (e, removed) =
                    removal_step cleanup_cluster_role_binding c first.1 {o = o} {s' = s'} b
                      (ground arith) in
                  (e, (first.1, bindings_gone c s (ground arith), inl removed))
              | inr b ↦
                  let second = ensure_owned_cluster_roles_deleted r c first.1 in
                  let gone = bindings_gone c s {s' = first.1} (ground arith) in
                  let absent =
                    sym (remove_finalizer_lem c.meta cleanup_cluster_role_binding).1 ∙ b in
                  elim (Result-cases second.0) [
                    | inr (e, k') ↦ ground arith
                    | inl (tt, k') ↦
                        elim (Bool-cases
                          (remove_finalizer_in_metadata c.meta cleanup_cluster_role).0) [
                            | inl b' ↦
                                let (e, removed) =
                                  removal_step cleanup_cluster_role c second.1 {o = o} {s' = s'} b'
                                    (ground arith) in
                                (
                                  e,
                                  (
                                    first.1,
                                    gone,
                                    inr (
                                      absent,
                                      second.1,
                                      roles_gone c first.1 (ground arith),
                                      inl removed,
                                    ),
                                  ),
                                )
                            | inr b' ↦ (
                              ground arith,
                              (
                                first.1,
                                gone,
                                inr (
                                  absent,
                                  second.1,
                                  roles_gone c first.1 (ground arith),
                                  inr (
                                    sym (remove_finalizer_lem c.meta cleanup_cluster_role).1 ∙ b',
                                    ground arith,
                                  ),
                                ),
                              ),
                            )
                          ]
                  ]
            ]
      ]
