-- ===== src/Resources/Roles/Ge21.antt =====
-- internal/utils/kubernetes/resources/clusterroles, the role for the versions ">=2.1,<2.2".
use apisix_operator.Prelude.{String, List, [], ◌∷◌, ◌++◌, some, ◌<>◌}
use apisix_operator.Api.Meta.{empty_meta}
use apisix_operator.Resources.Objects.{PolicyRule, ClusterRole}
use apisix_operator.Resources.Roles.Rule.{rule}

abbrev core_rules : List PolicyRule
core_rules =
    rule ("" ∷ []) ("endpoints" ∷ []) ("list" ∷ "watch" ∷ [])
    ∷ rule ("" ∷ []) ("endpoints/status" ∷ []) ("get" ∷ "patch" ∷ "update" ∷ [])
    ∷ rule ("" ∷ []) ("events" ∷ []) ("create" ∷ "patch" ∷ [])
    ∷ rule ("" ∷ []) ("nodes" ∷ []) ("list" ∷ "watch" ∷ [])
    ∷ rule ("" ∷ []) ("pods" ∷ []) ("get" ∷ "list" ∷ "watch" ∷ [])
    ∷ rule ("" ∷ []) ("secrets" ∷ []) ("list" ∷ "watch" ∷ [])
    ∷ rule ("" ∷ []) ("secrets/status" ∷ []) ("get" ∷ "patch" ∷ "update" ∷ [])
    ∷ rule ("" ∷ []) ("services" ∷ []) ("get" ∷ "list" ∷ "watch" ∷ [])
    ∷ rule ("" ∷ []) ("services/status" ∷ []) ("get" ∷ "patch" ∷ "update" ∷ [])
    ∷ []

abbrev configuration_rules : List PolicyRule
configuration_rules =
    rule ("configuration.konghq.com" ∷ []) ("kongclusterplugins" ∷ [])
      ("get" ∷ "list" ∷ "watch" ∷ [])
    ∷ rule ("configuration.konghq.com" ∷ []) ("kongclusterplugins/status" ∷ [])
        ("get" ∷ "patch" ∷ "update" ∷ [])
    ∷ rule ("configuration.konghq.com" ∷ []) ("kongconsumers" ∷ []) ("get" ∷ "list" ∷ "watch" ∷ [])
    ∷ rule ("configuration.konghq.com" ∷ []) ("kongconsumers/status" ∷ [])
        ("get" ∷ "patch" ∷ "update" ∷ [])
    ∷ rule ("configuration.konghq.com" ∷ []) ("kongingresses" ∷ []) ("get" ∷ "list" ∷ "watch" ∷ [])
    ∷ rule ("configuration.konghq.com" ∷ []) ("kongingresses/status" ∷ [])
        ("get" ∷ "patch" ∷ "update" ∷ [])
    ∷ rule ("configuration.konghq.com" ∷ []) ("kongplugins" ∷ []) ("get" ∷ "list" ∷ "watch" ∷ [])
    ∷ rule ("configuration.konghq.com" ∷ []) ("kongplugins/status" ∷ [])
        ("get" ∷ "patch" ∷ "update" ∷ [])
    ∷ rule ("configuration.konghq.com" ∷ []) ("tcpingresses" ∷ []) ("get" ∷ "list" ∷ "watch" ∷ [])
    ∷ rule ("configuration.konghq.com" ∷ []) ("tcpingresses/status" ∷ [])
        ("get" ∷ "patch" ∷ "update" ∷ [])
    ∷ rule ("configuration.konghq.com" ∷ []) ("udpingresses" ∷ []) ("get" ∷ "list" ∷ "watch" ∷ [])
    ∷ rule ("configuration.konghq.com" ∷ []) ("udpingresses/status" ∷ [])
        ("get" ∷ "patch" ∷ "update" ∷ [])
    ∷ []

abbrev extensions_rules : List PolicyRule
extensions_rules =
    rule ("extensions" ∷ []) ("ingresses" ∷ []) ("get" ∷ "list" ∷ "watch" ∷ [])
    ∷ rule ("extensions" ∷ []) ("ingresses/status" ∷ []) ("get" ∷ "patch" ∷ "update" ∷ [])
    ∷ []

abbrev knative_rules : List PolicyRule
knative_rules =
    rule ("networking.internal.knative.dev" ∷ []) ("ingresses" ∷ []) ("get" ∷ "list" ∷ "watch" ∷ [])
    ∷ rule ("networking.internal.knative.dev" ∷ []) ("ingresses/status" ∷ [])
        ("get" ∷ "patch" ∷ "update" ∷ [])
    ∷ []

abbrev networking_rules : List PolicyRule
networking_rules =
    rule ("networking.k8s.io" ∷ []) ("gatewayclasses" ∷ []) ("get" ∷ "list" ∷ "watch" ∷ [])
    ∷ rule ("networking.k8s.io" ∷ []) ("gatewayclasses/status" ∷ []) ("get" ∷ [])
    ∷ rule ("networking.k8s.io" ∷ []) ("gateways" ∷ []) ("get" ∷ "list" ∷ "watch" ∷ [])
    ∷ rule ("networking.k8s.io" ∷ []) ("gateways/status" ∷ []) ("get" ∷ [])
    ∷ rule ("networking.k8s.io" ∷ []) ("httproutes" ∷ []) ("get" ∷ "list" ∷ "watch" ∷ [])
    ∷ rule ("networking.k8s.io" ∷ []) ("httproutes/status" ∷ []) ("get" ∷ [])
    ∷ rule ("networking.k8s.io" ∷ []) ("ingresses" ∷ []) ("get" ∷ "list" ∷ "watch" ∷ [])
    ∷ rule ("networking.k8s.io" ∷ []) ("ingresses/status" ∷ []) ("get" ∷ "patch" ∷ "update" ∷ [])
    ∷ []

abbrev rules : List PolicyRule
rules = core_rules ++ configuration_rules ++ extensions_rules ++ knative_rules ++ networking_rules

unfoldable pub generate_new_cluster_role_for_control_plane_ge2_1_lt2_2 : String → ClusterRole
generate_new_cluster_role_for_control_plane_ge2_1_lt2_2 controlplane_name = record {
  meta = record empty_meta {
    generate_name = controlplane_name <> "-";
    labels = some (("app", controlplane_name) ∷ []);
  };
  rules = rules;
}
