-- ===== src/Controllers/DataPlane/Conditions.antt =====
-- The conditions of a DataPlane that is marked as not provisioned.
use apisix_operator.Prelude.{
  find, any, any-append_one, String, ◌≡◌, ◌≢◌, ◌⊎◌, inl, inr, refl, sym, ap, ◌∙◌, Bool-cases, arith,
  Bool, true, false, ◌&&◌, ◌||◌, not, List, [], ◌∷◌, ◌++◌, ◌==◌, ==_refl, string_eq,
}
use apisix_operator.Api.Meta.{Condition, condition_status_eq}
use apisix_operator.Kubernetes.Status.{find_type}
use apisix_operator.Controllers.ControlPlane.{provisioned_type}
use apisix_operator.Controllers.DataPlane.{
  is_same_data_plane_condition, replace_loop, mark_not_provisioned,
}

-- There is a condition of the type Provisioned, and every such condition says the same as `fresh`.
abbrev pub SaysOnly : Condition → List Condition → Type 0
SaysOnly fresh [] = Unit
SaysOnly fresh (c ∷ cs) =
    (c.type ≡ provisioned_type → is_same_data_plane_condition fresh c ≡ true) × SaysOnly fresh cs

-- A condition of the type Provisioned is in the list.
abbrev pub has_provisioned : List Condition → Bool
has_provisioned cs = any (λ c. c.type == provisioned_type) cs

is_same_refl : (c : Condition) → is_same_data_plane_condition c c ≡ true
unfolding is_same_data_plane_condition
is_same_refl c =
    ground (arith, ==_refl c.type, ==_refl c.status, ==_refl c.reason, ==_refl c.message)

is_same_trans :
    (a b c : Condition)
    → is_same_data_plane_condition a b ≡ true
    → is_same_data_plane_condition b c ≡ true
    → is_same_data_plane_condition a c ≡ true
unfolding is_same_data_plane_condition
is_same_trans a b c h k = ground arith

replace_loop_found :
    (fresh : Condition) (f u : Bool) (cs : List Condition)
    → fresh.type ≡ provisioned_type
    → let r = replace_loop fresh (f, u) cs in
      (r.0 ≡ (f || has_provisioned cs)) × (has_provisioned r.2 ≡ has_provisioned cs)
unfolding replace_loop any
replace_loop_found fresh f u [] e = ground arith
replace_loop_found fresh f u (c ∷ cs) e =
    let is_type = c.type == provisioned_type in
    let differs = is_type && not (is_same_data_plane_condition fresh c) in
    ground (arith, replace_loop_found fresh (f || is_type) (u || differs) cs e)

replace_loop-SaysOnly :
    (fresh again : Condition) (f u : Bool) (cs : List Condition)
    → is_same_data_plane_condition again fresh ≡ true
    → SaysOnly again (replace_loop fresh (f, u) cs).2
unfolding replace_loop
replace_loop-SaysOnly fresh again f u [] h = tt
replace_loop-SaysOnly fresh again f u (c ∷ cs) h =
    let is_type = c.type == provisioned_type in
    let differs = is_type && not (is_same_data_plane_condition fresh c) in
    ground (
      arith,
      is_same_trans again fresh c h,
      h,
      replace_loop-SaysOnly fresh again (f || is_type) (u || differs) cs h,
    )

replace_loop_stable :
    (fresh : Condition) (f u : Bool) (cs : List Condition)
    → SaysOnly fresh cs
    → replace_loop fresh (f, u) cs ≡ (f || has_provisioned cs, u, cs)
unfolding replace_loop any
replace_loop_stable fresh f u [] s = ground arith
replace_loop_stable fresh f u (c ∷ cs) (h, s) =
    let is_type = c.type == provisioned_type in
    let differs = is_type && not (is_same_data_plane_condition fresh c) in
    ground (arith, h, replace_loop_stable fresh (f || is_type) (u || differs) cs s)

append-SaysOnly :
    (again fresh : Condition) (cs : List Condition)
    → is_same_data_plane_condition again fresh ≡ true
    → SaysOnly again cs
    → SaysOnly again (cs ++ fresh ∷ [])
append-SaysOnly again fresh [] h s = ground arith
append-SaysOnly again fresh (c ∷ cs) h (e, s) = (e, append-SaysOnly again fresh cs h s)

replace_loop_others :
    (fresh : Condition) (f u : Bool) (cs : List Condition) (t : String)
    → fresh.type ≡ provisioned_type
    → t ≢ provisioned_type
    → find_type t (replace_loop fresh (f, u) cs).2 ≡ find_type t cs
unfolding replace_loop find
replace_loop_others fresh f u [] t e ne = refl
replace_loop_others fresh f u (c ∷ cs) t e ne =
    let is_type = c.type == provisioned_type in
    let differs = is_type && not (is_same_data_plane_condition fresh c) in
    ground (arith, replace_loop_others fresh (f || is_type) (u || differs) cs t e ne)

find-append_other :
    (fresh : Condition) (cs : List Condition) (t : String)
    → fresh.type ≡ provisioned_type
    → t ≢ provisioned_type
    → find_type t (cs ++ fresh ∷ []) ≡ find_type t cs
unfolding find
find-append_other fresh [] t e ne = ground arith
find-append_other fresh (c ∷ cs) t e ne = ground (arith, find-append_other fresh cs t e ne)

mark_found :
    (fresh : Condition) (cs : List Condition)
    → let r = replace_loop fresh (false, false) cs in
      r.0 ≡ true → mark_not_provisioned fresh cs ≡ (r.1, r.2)
unfolding mark_not_provisioned
mark_found fresh cs b = rw (mark_not_provisioned, b) refl

mark_not_found :
    (fresh : Condition) (cs : List Condition)
    → let r = replace_loop fresh (false, false) cs in
      r.0 ≡ false → mark_not_provisioned fresh cs ≡ (true, r.2 ++ fresh ∷ [])
unfolding mark_not_provisioned
mark_not_found fresh cs b = rw (mark_not_provisioned, b) refl

-- The list after the marking: that of the loop, or with the new condition at its end.
marked_cases :
    (fresh : Condition) (cs : List Condition)
    → let r = replace_loop fresh (false, false) cs in
      ((r.0 ≡ true) × ((mark_not_provisioned fresh cs).1 ≡ r.2))
      ⊎ ((mark_not_provisioned fresh cs).1 ≡ r.2 ++ fresh ∷ [])
unfolding mark_not_provisioned
marked_cases fresh cs = elim (Bool-cases (replace_loop fresh (false, false) cs).0) [
  | inl b ↦ inl (b, ap (λ (x : Bool × List Condition). x.1) (mark_found fresh cs b))
  | inr b ↦ inr (ap (λ (x : Bool × List Condition). x.1) (mark_not_found fresh cs b))
]

has_provisioned-append :
    (fresh : Condition) (cs : List Condition)
    → fresh.type ≡ provisioned_type
    → has_provisioned (cs ++ fresh ∷ []) ≡ true
has_provisioned-append fresh cs e =
    ground
      (arith, any-append_one (λ c. c.type == provisioned_type) cs fresh, ==_refl provisioned_type)

mark_not_provisioned-SaysOnly :
    (fresh again : Condition) (cs : List Condition)
    → fresh.type ≡ provisioned_type
    → is_same_data_plane_condition again fresh ≡ true
    → (has_provisioned (mark_not_provisioned fresh cs).1 ≡ true)
      × SaysOnly again (mark_not_provisioned fresh cs).1
mark_not_provisioned-SaysOnly fresh again cs e h =
    let r = replace_loop fresh (false, false) cs in
    let (found, has) = replace_loop_found fresh false false cs e in
    let says = replace_loop-SaysOnly fresh again false false cs h in
    elim (marked_cases fresh cs) [
      | inl (b, same) ↦ rw same (has ∙ sym found ∙ b, says)
      | inr same ↦
          rw same (has_provisioned-append fresh r.2 e, append-SaysOnly again fresh r.2 h says)
    ]

mark_not_provisioned_others :
    (fresh : Condition) (cs : List Condition) (t : String)
    → fresh.type ≡ provisioned_type
    → t ≢ provisioned_type
    → find_type t (mark_not_provisioned fresh cs).1 ≡ find_type t cs
mark_not_provisioned_others fresh cs t e ne =
    let r = replace_loop fresh (false, false) cs in
    let kept = replace_loop_others fresh false false cs t e ne in
    elim (marked_cases fresh cs) [
      | inl (b, same) ↦ rw same kept
      | inr same ↦ rw same (find-append_other fresh r.2 t e ne ∙ kept)
    ]

stable_marks :
    (again : Condition) (cs : List Condition)
    → has_provisioned cs ≡ true
    → SaysOnly again cs
    → mark_not_provisioned again cs ≡ (false, cs)
unfolding mark_not_provisioned
stable_marks again cs h s = rw (replace_loop_stable again false false cs s, h) refl

-- Marking a DataPlane as not provisioned leaves a condition of the type Provisioned, makes every such
-- condition say what the new one says, and leaves the conditions of other types alone. Marking it
-- again with a condition that says the same, whatever its time, changes nothing and asks for no
-- update.
pub mark_not_provisioned_converges :
    (fresh again : Condition) (cs : List Condition)
    → fresh.type ≡ provisioned_type
    → is_same_data_plane_condition again fresh ≡ true
    → let marked = (mark_not_provisioned fresh cs).1 in
      (has_provisioned marked ≡ true)
      × SaysOnly fresh marked
      × ((t : String) → t ≢ provisioned_type → find_type t marked ≡ find_type t cs)
      × (mark_not_provisioned again marked ≡ (false, marked))
mark_not_provisioned_converges fresh again cs e h =
    let mine = mark_not_provisioned-SaysOnly fresh fresh cs e (is_same_refl fresh) in
    let theirs = mark_not_provisioned-SaysOnly fresh again cs e h in
    let marked = (mark_not_provisioned fresh cs).1 in
    (
      mine.0,
      mine.1,
      (λ t ne. mark_not_provisioned_others fresh cs t e ne),
      stable_marks again marked theirs.0 theirs.1,
    )
