-- ===== src/Resources/Roles/Choice.antt =====
-- `GenerateNewClusterRoleForControlPlane`.
pub mod Versions
use Prim.Native.Char.{Char, code}
use Prim.Native.String.{String}
use apisix_operator.Prelude.{
  Bool, Option, none, some, List, [], ◌∷◌, if◌then◌else◌, ◌==◌, ◌!=◌, ◌<>◌, string_eq, nat_eq,
}
use apisix_operator.Errors.{Result, ok, err, message}
use apisix_operator.Errors.Results.{◌>>=◌}
use apisix_operator.Resources.Objects.{ClusterRole}
use apisix_operator.Resources.Roles.Ge21.{generate_new_cluster_role_for_control_plane_ge2_1_lt2_2}
use apisix_operator.Resources.Roles.Ge22.{generate_new_cluster_role_for_control_plane_ge2_2_lt2_3}
use apisix_operator.Resources.Roles.Ge23.{generate_new_cluster_role_for_control_plane_ge2_3_lt2_4}
use apisix_operator.Resources.Roles.Ge24.{generate_new_cluster_role_for_control_plane_ge2_4}

-- internal/versions/kicversions.go
abbrev pub latest : String
latest = "2.5.0"

-- `consts.DefaultControlPlaneTag`
abbrev pub default_control_plane_tag : String
default_control_plane_tag = "latest"

-- A character goes to the front of the first part.
push : Char → List String → List String
push c [] = String.◌∷◌ c String.[] ∷ []
push c (part ∷ parts) = String.◌∷◌ c part ∷ parts

-- `strings.Split(s, ":")`
split_colon : String → List String
unfolding push
split_colon String.[] = String.[] ∷ []
split_colon (String.◌∷◌ c s) =
    let parts = split_colon s in if code c == 58 then String.[] ∷ parts else push c parts

-- The version from the parts of an image.
version_of_parts : List String → String
version_of_parts (name ∷ tag ∷ []) = if tag == "latest" then latest else tag
version_of_parts _ = latest

unfoldable pub version_of_image : Option String → String
unfolding split_colon version_of_parts
version_of_image none = default_control_plane_tag
version_of_image (some image) =
    if image != "" then version_of_parts (split_colon image) else default_control_plane_tag

-- github.com/Masterminds/semver: `NewVersion`, and `NewConstraint` with the constraint's `Check`.
pub record Semver (V : Type 0) : Type 0 where
  pub new_version : String → Result V
  pub new_constraint : String → Result (V → Bool)

module _ {V : Type 0} (semver : Semver V) where
  -- One test: the role if the constraint parses and holds, and else the tests that follow.
  or_else : String → ClusterRole → V → Result ClusterRole → Result ClusterRole
  or_else text role v next = do
    check ← semver.new_constraint text
    (if check v then ok role else next)

  unfoldable pub choose_cluster_role : String → String → V → Result ClusterRole
  unfolding or_else generate_new_cluster_role_for_control_plane_ge2_1_lt2_2
      generate_new_cluster_role_for_control_plane_ge2_2_lt2_3
      generate_new_cluster_role_for_control_plane_ge2_3_lt2_4
      generate_new_cluster_role_for_control_plane_ge2_4
  choose_cluster_role name version v =
      or_else ">=2.1,<2.2" (generate_new_cluster_role_for_control_plane_ge2_1_lt2_2 name) v (
        or_else ">=2.2,<2.3" (generate_new_cluster_role_for_control_plane_ge2_2_lt2_3 name) v (
          or_else ">=2.3,<2.4" (generate_new_cluster_role_for_control_plane_ge2_3_lt2_4 name) v (
            or_else ">=2.4" (generate_new_cluster_role_for_control_plane_ge2_4 name) v
              (err (message ("version " <> version <> " not supported"))))))

  unfoldable pub generate_new_cluster_role_for_control_plane :
      String → Option String → Result ClusterRole
  unfolding version_of_image choose_cluster_role
  generate_new_cluster_role_for_control_plane controlplane_name image = do
    let version = version_of_image image
    sem_version ← semver.new_version version
    choose_cluster_role controlplane_name version sem_version
