-- ===== src/Controllers/ControlPlane/Watch/Requests.antt =====
-- What the predicates keep and what the map functions make of it.
use apisix_operator.Prelude.{
  ◌≡◌, ◌↔◌, ◌⊎◌, inl, inr, refl, ap, ◌∙◌, arith, Bool, true, false, Bool-cases, none, List, [], ◌∷◌,
  ◌++◌, any, string_eq,
}
use apisix_operator.Errors.{Result, ok, err}
use apisix_operator.Api.Meta.{ObjectMeta}
use apisix_operator.Api.Types.{ControlPlane}
use apisix_operator.Kubernetes.Metadata.{is_owned_by_ref_uid}
use apisix_operator.Resources.Objects.{cluster_role_object, ClusterRole}
use apisix_operator.Client.{NamespacedName, Client}
use apisix_operator.Controllers.Owned.{mark_for_control_plane}
use apisix_operator.Controllers.Owned.Selection.{marked-is_owned}
use apisix_operator.Controllers.ControlPlane.{key_of}
use apisix_operator.Controllers.ControlPlane.Watch.{
  WatchedObject, role, binding, other_object, has_owner, first_request, requests,
  obj_has_controlplane_owner, cluster_role_has_controlplane_owner,
  cluster_role_binding_has_controlplane_owner, get_controlplane_request_from_ref_uid,
  get_controlplane_for_cluster_role, get_controlplane_for_cluster_role_binding,
}

-- The ControlPlanes were listed: an event is kept exactly if it is mapped to one request. They were
-- not: an event of the right type is kept, and mapped to nothing.
abbrev pub Agrees :
    Bool → Result (List ControlPlane) → Result Bool → Result (List NamespacedName) → Type 0
Agrees fits (ok cs) kept mapped =
    (kept ≡ ok true) ↔ ((req : NamespacedName) × (mapped ≡ ok (req ∷ [])))
Agrees fits (err e) kept mapped = (kept ≡ ok fits) × (mapped ≡ ok [])

abbrev pub is_role : WatchedObject → Bool
is_role (role r) = true
is_role _ = false

abbrev pub is_binding : WatchedObject → Bool
is_binding (binding b) = true
is_binding _ = false

abbrev IsAnswer : ObjectMeta → List ControlPlane → Type 0
IsAnswer obj cs =
    ((has_owner obj (ok cs) ≡ true) × (req : NamespacedName) × (first_request obj cs ≡ req ∷ []))
    ⊎ ((has_owner obj (ok cs) ≡ false) × (first_request obj cs ≡ []))

first_request_cases : (obj : ObjectMeta) (cs : List ControlPlane) → IsAnswer obj cs
unfolding has_owner first_request any
first_request_cases obj [] = inr (refl, refl)
first_request_cases obj (c ∷ cs) = elim (Bool-cases (is_owned_by_ref_uid obj c.meta.uid)) [
  | inl b ↦ inl (ground arith, key_of c.meta, ground arith)
  | inr b ↦ elim (first_request_cases obj cs) [
    | inl (h, req, e) ↦ inl (ground arith, req, ground arith)
    | inr (h, e) ↦ inr (ground arith, ground arith)
  ]
]

requests-Agrees :
    (obj : ObjectMeta) (answer : Result (List ControlPlane))
    → Agrees true answer (ok (has_owner obj answer)) (ok (requests obj answer))
unfolding requests has_owner
requests-Agrees obj (err e) = (refl, refl)
requests-Agrees obj (ok cs) = elim (first_request_cases obj cs) [
  | inl (h, req, e) ↦ (λ _. (req, ap ok e), λ _. ap ok h)
  | inr (h, e) ↦ (λ k. ground arith, λ (req, k). ground arith)
]

other-Agrees : (answer : Result (List ControlPlane)) → Agrees false answer (ok false) (ok [])
other-Agrees (err e) = (refl, refl)
other-Agrees (ok cs) = (λ h. ground arith, λ (req, k). ground arith)

-- ControlPlanes that do not own the object are passed over.
first_request-append :
    (obj : ObjectMeta) (before : List ControlPlane) (c : ControlPlane) (rest : List ControlPlane)
    → any (λ (x : ControlPlane). is_owned_by_ref_uid obj x.meta.uid) before ≡ false
    → is_owned_by_ref_uid obj c.meta.uid ≡ true
    → first_request obj (before ++ c ∷ rest) ≡ key_of c.meta ∷ []
unfolding first_request any
first_request-append obj [] c rest h k = ground arith
first_request-append obj (x ∷ before) c rest h k =
    ground (arith, first_request-append obj before c rest)

has_owner-append :
    (obj : ObjectMeta) (before : List ControlPlane) (c : ControlPlane) (rest : List ControlPlane)
    → is_owned_by_ref_uid obj c.meta.uid ≡ true
    → has_owner obj (ok (before ++ c ∷ rest)) ≡ true
unfolding has_owner any
has_owner-append obj [] c rest k = ground arith
has_owner-append obj (x ∷ before) c rest k = ground (arith, has_owner-append obj before c rest k)

module _ {S : Type 0} (client : Client S) where
  listed_owner :
      (obj : ObjectMeta) (s : S) {answer : Result (List ControlPlane)} {s' : S}
      → client.control_planes.list none s ≡ (answer, s')
      → (obj_has_controlplane_owner client obj s ≡ (ok (has_owner obj answer), s'))
        × (get_controlplane_request_from_ref_uid client obj s ≡ (ok (requests obj answer), s'))
  unfolding obj_has_controlplane_owner get_controlplane_request_from_ref_uid
  listed_owner obj s e = (rw e refl, rw e refl)

  -- If the list of the ControlPlanes succeeds, the predicate of each watch keeps an object exactly
  -- if the map function of the watch turns it into just one request. If the list fails, the
  -- predicate keeps every object of the watched type and no other, and the map function returns no
  -- request, so the event is dropped all the same.
  pub watches_agree :
      (obj : WatchedObject) (s : S) {answer : Result (List ControlPlane)} {s' : S}
      → client.control_planes.list none s ≡ (answer, s')
      → Agrees
          (is_role obj)
          answer
          (cluster_role_has_controlplane_owner client obj s).0
          (get_controlplane_for_cluster_role client obj s).0
        × Agrees
            (is_binding obj)
            answer
            (cluster_role_binding_has_controlplane_owner client obj s).0
            (get_controlplane_for_cluster_role_binding client obj s).0
  unfolding cluster_role_has_controlplane_owner cluster_role_binding_has_controlplane_owner
      get_controlplane_for_cluster_role get_controlplane_for_cluster_role_binding
  watches_agree (role r) s {answer} e = (rw e (requests-Agrees r.meta answer), other-Agrees answer)
  watches_agree (binding b) s {answer} e =
      (other-Agrees answer, rw e (requests-Agrees b.meta answer))
  watches_agree (other_object m) s {answer} e = (other-Agrees answer, other-Agrees answer)

  -- A ClusterRole that the reconciler marks for a ControlPlane triggers that ControlPlane: if the
  -- list answers it, and none before it owns the marked role, the watch on ClusterRoles keeps the
  -- role and maps it to the key of that ControlPlane.
  pub mark_for_control_plane-watched :
      (r : ClusterRole) (c : ControlPlane) (before rest : List ControlPlane) (s : S) {s' : S}
      → let marked = mark_for_control_plane c.type_meta c.meta r in
        client.control_planes.list none s ≡ (ok (before ++ c ∷ rest), s')
        → any (λ (x : ControlPlane). is_owned_by_ref_uid marked.meta x.meta.uid) before ≡ false
        → (cluster_role_has_controlplane_owner client (role marked) s ≡ (ok true, s'))
          × (get_controlplane_for_cluster_role client (role marked) s
              ≡ (ok (key_of c.meta ∷ []), s'))
  unfolding cluster_role_has_controlplane_owner get_controlplane_for_cluster_role requests
  mark_for_control_plane-watched r c before rest s {s'} e h =
      let m = (mark_for_control_plane c.type_meta c.meta r).meta in
      let (o, q) = listed_owner m s e in
      let owned = marked-is_owned c.type_meta c.meta r in
      (
        o ∙ ap (λ b. (ok b, s')) (has_owner-append m before c rest owned),
        q ∙ ap (λ reqs. (ok reqs, s')) (first_request-append m before c rest h owned),
      )
