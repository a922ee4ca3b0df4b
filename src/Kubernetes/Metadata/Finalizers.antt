-- ===== src/Kubernetes/Metadata/Finalizers.antt =====
-- Finalizers are added once, removed wholly, and the flags tell whether the metadata changed.
use apisix_operator.Prelude.{
  ◌≤◌, ◌<◌, String, ◌≡◌, ◌≢◌, ◌↔◌, refl, ap, Bool, true, false, ◌||◌, ◌&&◌, List, [], ◌∷◌, ◌++◌,
  any, any-append_one, length-append_one, keep-absent, length-keep_lt, arith, length, keep, ◌==◌,
  ◌!=◌, string_eq, ==_refl,
}
use apisix_operator.Api.Meta.{ObjectMeta}
use apisix_operator.Kubernetes.Metadata.{
  has_finalizer, ensure_loop, ensure_finalizers_in_metadata, remove_finalizer_in_metadata,
}

has-ensure_loop :
    (g : String) (current : List String) (added : Bool) (wanted : List String)
    → has_finalizer g (ensure_loop current added wanted).1
      ≡ (has_finalizer g current || has_finalizer g wanted)
unfolding ensure_loop has_finalizer any
has-ensure_loop g current added [] = ground arith
has-ensure_loop g current added (f ∷ wanted) = ground (
  arith,
  any-append_one (λ h. h == g) current f,
  has-ensure_loop g current added wanted,
  has-ensure_loop g current (added || false) wanted,
  has-ensure_loop g (current ++ f ∷ []) (added || true) wanted,
)

abbrev Grows : List String → Bool → Bool × List String → Type 0
Grows current added r =
    (length current ≤ length r.1)
    × (r.0 ≡ false → r.1 ≡ current)
    × (r.0 ≡ true → added ≡ false → length current < length r.1)
    × (added ≡ true → r.0 ≡ true)

ensure_loop-Grows :
    (current : List String) (added : Bool) (wanted : List String)
    → Grows current added (ensure_loop current added wanted)
unfolding ensure_loop
ensure_loop-Grows current added [] = ground arith
ensure_loop-Grows current added (f ∷ wanted) = ground (
  arith,
  ensure_loop-Grows current (added || false) wanted,
  length-append_one current f,
  ensure_loop-Grows (current ++ f ∷ []) (added || true) wanted,
)

-- After EnsureFinalizersInMetadata the object has its old finalizers and all wanted ones, and no
-- other; the result is true exactly if the metadata changed.
pub ensure_finalizers_lem :
    (m : ObjectMeta) (wanted : List String)
    → let r = ensure_finalizers_in_metadata m wanted in
      ((g : String)
        → has_finalizer g r.1.finalizers ≡ (has_finalizer g m.finalizers || has_finalizer g wanted))
      × ((r.0 ≡ true) ↔ (r.1 ≢ m))
unfolding ensure_finalizers_in_metadata
ensure_finalizers_lem m wanted =
    let grows = ensure_loop-Grows m.finalizers false wanted in
    (
      λ g. has-ensure_loop g m.finalizers false wanted,
      (
        λ t e. ground (arith, grows, ap (λ (n : ObjectMeta). length n.finalizers) e),
        λ ne. ground (arith, grows),
      ),
    )

-- After a finalizer is filtered out, it is gone and the others are there.
pub has-keep :
    (f g : String) (fs : List String)
    → has_finalizer g (keep (λ h. h != f) fs) ≡ (g != f && has_finalizer g fs)
unfolding has_finalizer any keep
has-keep f g [] = ground arith
has-keep f g (h ∷ fs) = ground (arith, has-keep f g fs)

-- After RemoveFinalizerInMetadata the object has all its finalizers but the given one; the result
-- is true exactly if the metadata changed, and exactly if the object had the finalizer.
pub remove_finalizer_lem :
    (m : ObjectMeta) (f : String)
    → let r = remove_finalizer_in_metadata m f in
      ((g : String) → has_finalizer g r.1.finalizers ≡ (g != f && has_finalizer g m.finalizers))
      × (r.0 ≡ has_finalizer f m.finalizers)
      × ((r.0 ≡ true) ↔ (r.1 ≢ m))
unfolding remove_finalizer_in_metadata has_finalizer
remove_finalizer_lem m f =
    let drops = length-keep_lt (λ h. h != f) m.finalizers in
    (
      λ g. ground (arith, has-keep f g m.finalizers, keep-absent (λ h. h != f) m.finalizers),
      refl,
      (
        λ t e. ground (arith, drops, ap (λ (n : ObjectMeta). length n.finalizers) e),
        λ ne. ground arith,
      ),
    )

keep-append_self :
    (f : String) (fs : List String)
    → has_finalizer f fs ≡ false
    → keep (λ h. h != f) (fs ++ f ∷ []) ≡ fs
unfolding has_finalizer any keep
keep-append_self f [] e = ground (arith, ==_refl f)
keep-append_self f (h ∷ fs) e = ground (arith, keep-append_self f fs)

-- Removing a finalizer that was just added gives the metadata back.
pub remove_finalizer-ensure :
    (m : ObjectMeta) (f : String)
    → has_finalizer f m.finalizers ≡ false
    → remove_finalizer_in_metadata (ensure_finalizers_in_metadata m (f ∷ [])).1 f ≡ (true, m)
unfolding remove_finalizer_in_metadata ensure_finalizers_in_metadata ensure_loop has_finalizer
remove_finalizer-ensure m f h = ground (
  arith,
  ==_refl f,
  keep-append_self f m.finalizers h,
  any-append_one (λ h. h == f) m.finalizers f,
)
