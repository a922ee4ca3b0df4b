-- ===== src/Resources/Roles/Choice/Versions.antt =====
-- Which cluster role a version gets.
use apisix_operator.Prelude.{
  ◌<>◌, String, String-discrete, ℕ, ◌≡◌, ◌≤◌, ◌<◌, ◌∙◌, Bool-cases, inl, inr, refl, arith, Bool,
  true, ◌&&◌, List, leb, ltb, if◌then◌else◌, ◌==◌, string_eq, any, all,
}
use apisix_operator.Errors.{Result, ok, err, message}
use apisix_operator.Resources.Objects.{ClusterRole, PolicyRule}
use apisix_operator.Resources.Roles.Choice.{Semver, choose_cluster_role, or_else}
use apisix_operator.Resources.Roles.Ge21.{generate_new_cluster_role_for_control_plane_ge2_1_lt2_2}
use apisix_operator.Resources.Roles.Ge22.{generate_new_cluster_role_for_control_plane_ge2_2_lt2_3}
use apisix_operator.Resources.Roles.Ge23.{generate_new_cluster_role_for_control_plane_ge2_3_lt2_4}
use apisix_operator.Resources.Roles.Ge24.{generate_new_cluster_role_for_control_plane_ge2_4}

-- A rule that grants one verb on one resource of one group.
abbrev grants : PolicyRule → String → String → String → Bool
grants rule group resource verb =
    any (λ g. g == group) rule.api_groups
    && any (λ s. s == resource) rule.resources
    && any (λ v. v == verb) rule.verbs

-- What one rule grants, another list of rules grants too.
abbrev covers_rule : List PolicyRule → PolicyRule → Bool
covers_rule rules rule =
    all
      (λ g. all (λ s. all (λ v. any (λ other. grants other g s v) rules) rule.verbs) rule.resources)
      rule.api_groups

unfoldable pub covers : ClusterRole → ClusterRole → Bool
unfolding any all
covers newer older = all (covers_rule newer.rules) older.rules

module _ {V : Type 0} (semver : Semver V) where
  -- The documented reading of the four constraints, from a number that orders versions by major
  -- and minor number.
  abbrev pub ReadsConstraints : (V → ℕ) → (ℕ → ℕ) → Type 0
  ReadsConstraints rank minor =
      (semver.new_constraint ">=2.1,<2.2"
        ≡ ok (λ v. leb (minor 1) (rank v) && ltb (rank v) (minor 2)))
      × (semver.new_constraint ">=2.2,<2.3"
          ≡ ok (λ v. leb (minor 2) (rank v) && ltb (rank v) (minor 3)))
      × (semver.new_constraint ">=2.3,<2.4"
          ≡ ok (λ v. leb (minor 3) (rank v) && ltb (rank v) (minor 4)))
      × (semver.new_constraint ">=2.4" ≡ ok (λ v. leb (minor 4) (rank v)))

covers_22_23 :
    (name name' : String)
    → covers
        (generate_new_cluster_role_for_control_plane_ge2_3_lt2_4 name)
        (generate_new_cluster_role_for_control_plane_ge2_2_lt2_3 name')
      ≡ true
unfolding covers generate_new_cluster_role_for_control_plane_ge2_3_lt2_4
    generate_new_cluster_role_for_control_plane_ge2_2_lt2_3 any all String-discrete
covers_22_23 name name' = refl

covers_23_24 :
    (name name' : String)
    → covers
        (generate_new_cluster_role_for_control_plane_ge2_4 name)
        (generate_new_cluster_role_for_control_plane_ge2_3_lt2_4 name')
      ≡ true
unfolding covers generate_new_cluster_role_for_control_plane_ge2_3_lt2_4
    generate_new_cluster_role_for_control_plane_ge2_4 any all String-discrete
covers_23_24 name name' = refl

covers_22_24 :
    (name name' : String)
    → covers
        (generate_new_cluster_role_for_control_plane_ge2_4 name)
        (generate_new_cluster_role_for_control_plane_ge2_2_lt2_3 name')
      ≡ true
unfolding covers generate_new_cluster_role_for_control_plane_ge2_2_lt2_3
    generate_new_cluster_role_for_control_plane_ge2_4 any all String-discrete
covers_22_24 name name' = refl

covers_22_22 :
    (name name' : String)
    → covers
        (generate_new_cluster_role_for_control_plane_ge2_2_lt2_3 name)
        (generate_new_cluster_role_for_control_plane_ge2_2_lt2_3 name')
      ≡ true
unfolding covers generate_new_cluster_role_for_control_plane_ge2_2_lt2_3 any all String-discrete
covers_22_22 name name' = refl

covers_23_23 :
    (name name' : String)
    → covers
        (generate_new_cluster_role_for_control_plane_ge2_3_lt2_4 name)
        (generate_new_cluster_role_for_control_plane_ge2_3_lt2_4 name')
      ≡ true
unfolding covers generate_new_cluster_role_for_control_plane_ge2_3_lt2_4 any all String-discrete
covers_23_23 name name' = refl

covers_24_24 :
    (name name' : String)
    → covers
        (generate_new_cluster_role_for_control_plane_ge2_4 name)
        (generate_new_cluster_role_for_control_plane_ge2_4 name')
      ≡ true
unfolding covers generate_new_cluster_role_for_control_plane_ge2_4 any all String-discrete
covers_24_24 name name' = refl

module _ {V : Type 0} (semver : Semver V) (rank : V → ℕ) (minor : ℕ → ℕ)
    (reads : ReadsConstraints semver rank minor) where
  -- The role by rank.
  choose_cluster_role_lem :
      (name text : String) (v : V)
      → choose_cluster_role semver name text v ≡ (
          if leb (minor 1) (rank v) && ltb (rank v) (minor 2)
          then ok (generate_new_cluster_role_for_control_plane_ge2_1_lt2_2 name)
          else if leb (minor 2) (rank v) && ltb (rank v) (minor 3)
          then ok (generate_new_cluster_role_for_control_plane_ge2_2_lt2_3 name)
          else if leb (minor 3) (rank v) && ltb (rank v) (minor 4)
          then ok (generate_new_cluster_role_for_control_plane_ge2_3_lt2_4 name)
          else if leb (minor 4) (rank v)
          then ok (generate_new_cluster_role_for_control_plane_ge2_4 name)
          else err (message ("version " <> text <> " not supported")))
  unfolding choose_cluster_role or_else
  choose_cluster_role_lem name text v = let (a, b, c, d) = reads in rw (a, b, c, d) refl

  -- The three cases from 2.2 on.
  data Tier (name : String) (result : Result ClusterRole) (n : ℕ) : Type 0 where
    tier_22 :
        result ≡ ok (generate_new_cluster_role_for_control_plane_ge2_2_lt2_3 name)
        → n < minor 3
        → Tier name result n
    tier_23 :
        result ≡ ok (generate_new_cluster_role_for_control_plane_ge2_3_lt2_4 name)
        → minor 3 ≤ n
        → n < minor 4
        → Tier name result n
    tier_24 :
        result ≡ ok (generate_new_cluster_role_for_control_plane_ge2_4 name)
        → minor 4 ≤ n
        → Tier name result n

  choose_cluster_role-Tier :
      (name text : String) (v : V)
      → minor 3 ≤ minor 4
      → minor 2 ≤ rank v
      → Tier name (choose_cluster_role semver name text v) (rank v)
  choose_cluster_role-Tier name text v h34 h =
      let e = choose_cluster_role_lem name text v in
      elim (Bool-cases (ltb (rank v) (minor 3))) [
        | inl b ↦ tier_22 (e ∙ ground arith) (ground arith)
        | inr b ↦ elim (Bool-cases (ltb (rank v) (minor 4))) [
          | inl b' ↦ tier_23 (e ∙ ground arith) (ground arith) (ground arith)
          | inr b' ↦ tier_24 (e ∙ ground arith) (ground arith)
        ]
      ]

  -- For a reading of the constraints by major and minor number, two versions from 2.2 on both get
  -- a role, and the role of the newer one grants whatever the role of the older one grants.
  pub choose_cluster_role-covers :
      (name text text' : String) (v w : V)
      → minor 3 ≤ minor 4
      → minor 2 ≤ rank v
      → rank v ≤ rank w
      → (older newer : ClusterRole) × (choose_cluster_role semver name text v ≡ ok older)
        × (choose_cluster_role semver name text' w ≡ ok newer)
        × (covers newer older ≡ true)
  choose_cluster_role-covers name text text' v w h34 h le =
      elim (choose_cluster_role-Tier name text v h34 h) [
        | tier_22 e a ↦ elim (choose_cluster_role-Tier name text' w h34 (ground arith)) [
          | tier_22 f b ↦ (_, _, e, f, covers_22_22 name name)
          | tier_23 f b c ↦ (_, _, e, f, covers_22_23 name name)
          | tier_24 f b ↦ (_, _, e, f, covers_22_24 name name)
        ]
        | tier_23 e a a' ↦ elim (choose_cluster_role-Tier name text' w h34 (ground arith)) [
          | tier_22 f b ↦ ground arith
          | tier_23 f b c ↦ (_, _, e, f, covers_23_23 name name)
          | tier_24 f b ↦ (_, _, e, f, covers_23_24 name name)
        ]
        | tier_24 e a ↦ elim (choose_cluster_role-Tier name text' w h34 (ground arith)) [
          | tier_22 f b ↦ ground arith
          | tier_23 f b c ↦ ground arith
          | tier_24 f b ↦ (_, _, e, f, covers_24_24 name name)
        ]
      ]
