-- ===== src/Controllers/ControlPlane/Settled.antt =====
-- When the status of a ControlPlane whose objects are all in place is written.
use apisix_operator.Prelude.{
  some, ◌≢◌, String-discrete, ℕ, ◌≡◌, refl, true, false, not, ◌&&◌, List, [], ◌∷◌, ◌++◌, ◌⊎◌, inl,
  inr, arith, if◌then◌else◌, ◌!=◌, string_eq, nat_eq, keep, find, all, ℕ_discrete, Bool-cases,
}
use apisix_operator.Errors.{ok}
use apisix_operator.Errors.Results.{Result-cases}
use apisix_operator.Errors.Calls.{pure}
use apisix_operator.Api.Meta.{
  Time, Condition, condition_true, condition_status_eq, ConditionStatus-discrete,
}
use apisix_operator.Api.Types.{ControlPlane, control_plane_conditions}
use apisix_operator.Kubernetes.Status.{
  new_condition, set_condition, set_ready, needs_update, ready_type, resource_ready_reason,
  find_type, get_condition, ready_condition, are_all_conditions_ready, differs, any_differs,
}
use apisix_operator.Resources.Objects.{Deployment}
use apisix_operator.Controllers.ControlPlane.{finished, key_of, Reconciler, provisioned_type}
use apisix_operator.Controllers.ControlPlane.Status.{
  ensure_is_marked_provisioned, update_status, status_from, write_status,
}
use apisix_operator.Controllers.ControlPlane.Reconcile.{not_yet_ready, or_retry, mark_provisioned}

-- The conditions of a ControlPlane that the reconciler brought up, from the times of the last
-- two transitions.
abbrev pub up_conditions : Time → Time → List Condition
unfolding new_condition
up_conditions provisioned ready =
    new_condition provisioned provisioned_type condition_true "PodsReady"
      "pods for all Deployments are ready"
    ∷ new_condition ready ready_type condition_true resource_ready_reason ""
    ∷ []

abbrev pub up : Time → Time → ControlPlane → ControlPlane
up provisioned ready = control_plane_conditions.set_conditions (up_conditions provisioned ready)

-- All conditions are of the two types that the reconciler sets.
abbrev pub IsObserved : List Condition → Type 0
IsObserved [] = Unit
IsObserved (c ∷ cs) = (c.type ≡ provisioned_type ⊎ c.type ≡ ready_type) × IsObserved cs

others_dropped :
    (cs : List Condition) (c : Condition)
    → c.type ≡ provisioned_type
    → IsObserved cs
    → keep (λ x. x.type != ready_type) (keep (λ x. x.type != provisioned_type) cs ++ c ∷ [])
      ≡ c ∷ []
unfolding keep String-discrete
others_dropped [] c h observed = rw h refl
others_dropped (x ∷ cs) c h (inl e, observed) = rw e (others_dropped cs c h observed)
others_dropped (x ∷ cs) c h (inr e, observed) = rw e (others_dropped cs c h observed)

others_ready :
    (cs : List Condition) (c : Condition)
    → c.status ≡ condition_true
    → IsObserved cs
    → all
        (λ x. not (x.type != ready_type && x.status != condition_true))
        (keep (λ x. x.type != provisioned_type) cs ++ c ∷ [])
      ≡ true
unfolding keep all String-discrete ConditionStatus-discrete
others_ready [] c h observed = ground arith
others_ready (x ∷ cs) c h (inl e, observed) = rw e (others_ready cs c h observed)
others_ready (x ∷ cs) c h (inr e, observed) = rw e (others_ready cs c h observed)

nothing_to_write :
    (base : ControlPlane) (p q p' q' : Time) → needs_update (up p q base) (up p' q' base) ≡ false
unfolding needs_update differs any_differs find ConditionStatus-discrete String-discrete ℕ_discrete
    up_conditions
nothing_to_write base p q p' q' = refl

any_differs-found :
    (updated cs : List Condition) {c : Condition}
    → find_type provisioned_type cs ≡ some c
    → differs (find_type provisioned_type updated) c ≡ true
    → any_differs updated cs ≡ true
unfolding any_differs find
any_differs-found updated [] h d = ground arith
any_differs-found updated (x ∷ cs) {c} h d = ground (arith, any_differs-found updated cs {c = c})

differs_by_status :
    (u c : Condition)
    → u.status ≡ condition_true
    → c.status ≢ condition_true
    → differs (some u) c ≡ true
unfolding differs
differs_by_status u c h off = ground arith

up-differs :
    (p q : Time) (c : Condition)
    → c.status ≢ condition_true
    → differs (find_type provisioned_type (up_conditions p q)) c ≡ true
unfolding find String-discrete new_condition
up-differs p q c off = differs_by_status _ c refl off

must_write :
    (base current : ControlPlane) (p q : Time) {c : Condition}
    → get_condition provisioned_type current ≡ some c
    → c.status ≢ condition_true
    → needs_update current (up p q base) ≡ true
unfolding needs_update get_condition
must_write base current p q {c} h off =
    let d = up-differs p q c off in
    ground (arith, any_differs-found (up_conditions p q) current.status.conditions h d)

module _ {S P C V : Type 0} (r : Reconciler S P C V) where
  open r use {client}

  -- A clock that answers in every state.
  abbrev pub HasClock : (S → ℕ × S) → Type 0
  HasClock clock = (x : S) → client.now x ≡ (ok (clock x).0, (clock x).1)

  marked_up :
      (base : ControlPlane) (cs : List Condition) (s : S) {clock : S → ℕ × S}
      → HasClock clock
      → IsObserved cs
      → let t = (clock s).1 in
        ensure_is_marked_provisioned r (control_plane_conditions.set_conditions cs base) s
        ≡ (ok (up (clock s).0 (clock t).0 base), (clock t).1)
  unfolding ensure_is_marked_provisioned set_condition new_condition set_ready ready_condition
      are_all_conditions_ready
  marked_up base cs s {clock} hc observed =
      let c =
        new_condition (clock s).0 provisioned_type condition_true "PodsReady"
          "pods for all Deployments are ready" in
      rw (hc s, hc (clock s).1, others_ready cs c refl observed, others_dropped cs c refl observed)
        refl

  no_write :
      (base : ControlPlane) (p q p' q' : Time) (s t : S)
      → client.control_planes.get (key_of base.meta) s ≡ (ok (up p q base), t)
      → update_status r (up p' q' base) s ≡ (ok tt, t)
  unfolding update_status status_from write_status
  no_write base p q p' q' s t e = rw (e, nothing_to_write base p q p' q') refl

  -- For a ControlPlane with no conditions but Ready and Provisioned, whatever they say, a clock
  -- that answers, and a server that has the ControlPlane stored with the conditions of one that is
  -- up: the last part of a run, when all objects are in place, finishes and writes no status. If
  -- the Deployment is not yet ready it makes no call at all, and else it reads the clock twice and
  -- gets the ControlPlane once.
  pub mark_provisioned-unwritten :
      (base : ControlPlane) (cs : List Condition) (deployment : Deployment) (p q : Time) (s : S)
      {clock : S → ℕ × S} {t : S}
      → HasClock clock
      → IsObserved cs
      → client.control_planes.get (key_of base.meta) (clock (clock s).1).1 ≡ (ok (up p q base), t)
      → mark_provisioned r deployment (control_plane_conditions.set_conditions cs base) s
        ≡ (ok finished, (if not_yet_ready deployment then s else t))
  unfolding mark_provisioned or_retry
  mark_provisioned-unwritten base cs deployment p q s {clock} {t} hc observed got =
      let u = clock (clock s).1 in
      elim (Bool-cases (not_yet_ready deployment)) [
        | inl b ↦ rw b refl
        | inr b ↦
            rw (b, marked_up base cs s hc observed, no_write base p q (clock s).0 u.0 u.1 t got)
              refl
      ]

  written :
      (base current : ControlPlane) (cs : List Condition) (deployment : Deployment) (s : S)
      {clock : S → ℕ × S} {t : S}
      → HasClock clock
      → IsObserved cs
      → not_yet_ready deployment ≡ false
      → client.control_planes.get (key_of base.meta) (clock (clock s).1).1 ≡ (ok current, t)
      → needs_update current (up (clock s).0 (clock (clock s).1).0 base) ≡ true
      → let (answer, t') =
          client.control_planes.update_status (up (clock s).0 (clock (clock s).1).0 base) t in
        mark_provisioned r deployment (control_plane_conditions.set_conditions cs base) s
        ≡ or_retry (λ _. pure finished) answer t'
  unfolding mark_provisioned or_retry update_status status_from write_status
  written base current cs deployment s {clock} {t} hc observed ready got differ =
      let w = client.control_planes.update_status (up (clock s).0 (clock (clock s).1).0 base) t in
      elim (Result-cases w.0) [
        | inl (a, e) ↦ rw (ready, marked_up base cs s hc observed, got, differ, e) refl
        | inr (x, e) ↦ rw (ready, marked_up base cs s hc observed, got, differ, e) refl
      ]

  -- Under the same conditions, but with the ControlPlane stored with a condition Provisioned that
  -- is not True, and a Deployment that is ready: the run writes the status with the conditions of
  -- a ControlPlane that is up, and nothing else, and finishes, or asks for a retry if the write is
  -- a conflict, or fails with its error.
  pub mark_provisioned-written :
      (base current : ControlPlane) (cs : List Condition) (deployment : Deployment) (s : S)
      {clock : S → ℕ × S} {t : S} {c : Condition}
      → HasClock clock
      → IsObserved cs
      → not_yet_ready deployment ≡ false
      → client.control_planes.get (key_of base.meta) (clock (clock s).1).1 ≡ (ok current, t)
      → get_condition provisioned_type current ≡ some c
      → c.status ≢ condition_true
      → (p q : Time) × (let (answer, t') = client.control_planes.update_status (up p q base) t in
          mark_provisioned r deployment (control_plane_conditions.set_conditions cs base) s
          ≡ or_retry (λ _. pure finished) answer t')
  mark_provisioned-written base current cs deployment s {clock} {t} hc observed ready got has off =
      let u = clock (clock s).1 in
      (
        (clock s).0,
        u.0,
        written base current cs deployment s hc observed ready got
            (must_write base current (clock s).0 u.0 has off),
      )
