-- ===== src/Resources/Roles.antt =====
-- internal/utils/kubernetes/resources/zz_generated_clusterrole_helpers.go: the choice of the role
-- for the version of the controller. `semver` is a parameter: the parser of versions, and for each
-- constraint its parser and its check.
mod Rule
mod Ge21
mod Ge22
mod Ge23
mod Ge24
pub mod Choice
unfoldable pub use Ge21.{generate_new_cluster_role_for_control_plane_ge2_1_lt2_2}
unfoldable pub use Ge22.{generate_new_cluster_role_for_control_plane_ge2_2_lt2_3}
unfoldable pub use Ge23.{generate_new_cluster_role_for_control_plane_ge2_3_lt2_4}
unfoldable pub use Ge24.{generate_new_cluster_role_for_control_plane_ge2_4}
