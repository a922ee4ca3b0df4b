-- ===== src/Controllers/Owned/Convergence.antt =====
-- One owned object over two runs.
use mathlib.Core.Option.{or_else}
use apisix_operator.Prelude.{
  String, ◌≡◌, ◌≢◌, ◌↔◌, refl, ap, ◌∙◌, Bool, true, false, some, [], ◌∷◌, if◌then◌else◌,
}
use apisix_operator.Prelude.Dict.{lookup}
use apisix_operator.Errors.{ok}
use apisix_operator.Api.Meta.{ObjectMeta, Labels}
use apisix_operator.Kubernetes.Metadata.{entries, ensure_object_meta_is_updated}
use apisix_operator.Kubernetes.Metadata.Update.{
  UniqueKeys, ensure_object_meta_converges, ensure_object_meta_kept,
}
use apisix_operator.Resources.Objects.{Object}
use apisix_operator.Client.{Kind}
use apisix_operator.Controllers.Owned.{refresh, store, ensure_one}

module _ {S A : Type 0} ⦃o : Object A⦄ (kind : Kind S A) where
  -- A server that takes every update. What it answers may differ from the object of the call, in
  -- the resource version at least, but not in the labels and the owner references.
  abbrev pub Accepts : (A → S → A) → (A → S → S) → Type 0
  Accepts answer write =
      (a : A) (s : S)
      → (kind.update a s ≡ (ok (answer a s), write a s))
        × ((o.get_meta (answer a s)).labels ≡ (o.get_meta a).labels)
        × ((o.get_meta (answer a s)).owner_references ≡ (o.get_meta a).owner_references)

  refresh_lem :
      (existing generated : A) {changed : Bool} {m : ObjectMeta}
      → ensure_object_meta_is_updated (o.get_meta existing) (o.get_meta generated)
        ≡ some (changed, m)
      → refresh existing generated ≡ ok (changed, o.set_meta m existing)
  unfolding refresh
  refresh_lem existing generated e = rw (refresh, e) refl

  -- An object with the labels and the owner references of metadata that are up to date.
  refresh_kept :
      (a generated : A) (m : ObjectMeta)
      → (o.get_meta a).labels ≡ m.labels
      → (o.get_meta a).owner_references ≡ m.owner_references
      → ensure_object_meta_is_updated m (o.get_meta generated) ≡ some (false, m)
      → refresh a generated ≡ ok (false, a)
  refresh_kept a generated m l r e =
      refresh_lem a generated
        (ensure_object_meta_kept m (o.get_meta a) (o.get_meta generated) l r e)
      ∙ ap (λ x. ok (false, x)) (o.set-get a)

  unchanged_run :
      (what : String) (generated existing : A) (adjust : A → A) (s : S) {a : A}
      → refresh existing generated ≡ ok (false, a)
      → ensure_one kind what (ok generated) refresh adjust (existing ∷ []) s ≡ (ok (false, a), s)
  unfolding ensure_one store
  unchanged_run what generated existing adjust s e = rw e refl

  ensure_one_run :
      (what : String) (generated existing : A) (adjust : A → A) (s : S) {answer : A → S → A}
      {write : A → S → S} (changed : Bool) {a : A}
      → Accepts answer write
      → refresh existing generated ≡ ok (changed, a)
      → ensure_one kind what (ok generated) refresh adjust (existing ∷ []) s
        ≡ (ok (changed, (if changed then answer a s else a)), (if changed then write a s else s))
  unfolding ensure_one store
  ensure_one_run what generated existing adjust s true {a} h e = rw (e, (h a s).0) refl
  ensure_one_run what generated existing adjust s false {a} h e = rw e refl

  second_refresh :
      (existing generated : A) (m : ObjectMeta) (s : S) {answer : A → S → A} {write : A → S → S}
      (changed : Bool)
      → Accepts answer write
      → ensure_object_meta_is_updated m (o.get_meta generated) ≡ some (false, m)
      → let a = o.set_meta m existing in
        let b = if changed then answer a s else a in refresh b generated ≡ ok (false, b)
  second_refresh existing generated m s {answer = answer} true h e =
      let a = o.set_meta m existing in
      let (_, l, r) = h a s in
      let got = o.get-set m existing in
      refresh_kept (answer a s) generated m (l ∙ ap (λ (x : ObjectMeta). x.labels) got)
        (r ∙ ap (λ (x : ObjectMeta). x.owner_references) got) e
  second_refresh existing generated m s false h e =
      let got = o.get-set m existing in
      refresh_kept (o.set_meta m existing) generated m (ap (λ (x : ObjectMeta). x.labels) got)
        (ap (λ (x : ObjectMeta). x.owner_references) got) e

  -- For a server that takes updates and answers with an object of the same labels and owner
  -- references, an existing object that has labels, and generated metadata whose labels have
  -- distinct keys: the handling of one owned object asks for the metadata with the generated owner
  -- references and, over the existing labels, the generated ones. It writes once, and reports it,
  -- if that differs from the existing metadata, and never else. With the object that it returns as
  -- the listed one, a second run writes nothing and returns that object.
  pub ensure_one_converges :
      (what : String) (generated existing : A) (adjust : A → A) (s : S) {answer : A → S → A}
      {write : A → S → S} {labels : Labels}
      → Accepts answer write
      → (o.get_meta existing).labels ≡ some labels
      → UniqueKeys (entries (o.get_meta generated).labels)
      → let run = ensure_one kind what (ok generated) refresh adjust in
        (changed : Bool) × (m : ObjectMeta) × ((changed ≡ true) ↔ (m ≢ o.get_meta existing))
        × (m.owner_references ≡ (o.get_meta generated).owner_references)
        × ((j : String)
            → lookup j (entries m.labels)
              ≡ or_else (lookup j (entries (o.get_meta generated).labels)) (lookup j labels))
        × (let a = o.set_meta m existing in
            let b = if changed then answer a s else a in
            (run (existing ∷ []) s ≡ (ok (changed, b), (if changed then write a s else s)))
            × ((s' : S) → run (b ∷ []) s' ≡ (ok (false, b), s')))
  ensure_one_converges what generated existing adjust s h hl hk =
      let (changed, labels', (eq, looked, exact, stable)) =
        ensure_object_meta_converges (o.get_meta existing) (o.get_meta generated) hl hk in
      let m = record (o.get_meta existing) {
        owner_references = (o.get_meta generated).owner_references;
        labels = some labels';
      } in
      (
        changed,
        m,
        exact,
        refl,
        looked,
        (
          ensure_one_run what generated existing adjust s changed h
              (refresh_lem existing generated eq),
          λ s'.
              unchanged_run what generated _ adjust s'
                (second_refresh existing generated m s changed h stable),
        ),
      )
