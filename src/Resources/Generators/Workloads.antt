-- ===== src/Resources/Generators/Workloads.antt =====
-- The generated Deployments and the Service of a DataPlane: controllers/controlplane_controller_utils.go
-- and controllers/dataplane_controller_utils.go.
use apisix_operator.Prelude.{ℕ, String, true, none, some, [], ◌∷◌, ◌<>◌, string_eq}
use apisix_operator.Api.Meta.{empty_meta}
use apisix_operator.Api.Env.{DeploymentOptions}
use apisix_operator.Api.Types.{ControlPlane, DataPlane}
use apisix_operator.Kubernetes.Metadata.{generate_owner_reference_for_object}
use apisix_operator.Resources.Objects.{
  Volume, VolumeMount, ContainerPort, Probe, Deployment, ServicePort, Service,
}
use apisix_operator.Resources.Generators.{
  control_plane_controller_container_name, data_plane_proxy_container_name,
}

-- The image of the options, or the default.
unfoldable pub image_or : String → DeploymentOptions → String
image_or default_image opts = elim opts.container_image [
  | none ↦ default_image
  | some image ↦ (elim opts.version [ none ↦ image | some version ↦ image <> ":" <> version ])
]

certificate_volume : String → Volume
certificate_volume secret_name = record {
  name = "cluster-certificate";
  secret_name = secret_name;
  items =
      record { key = "tls.crt"; path = "tls.crt" }
      ∷ record { key = "tls.key"; path = "tls.key" }
      ∷ record { key = "ca.crt"; path = "ca.crt" }
      ∷ [];
}

certificate_mount : VolumeMount
certificate_mount = record {
  name = "cluster-certificate";
  read_only = true;
  mount_path = "/var/cluster-certificate";
}

probe_at : String → ℕ → Probe
probe_at path port = record {
  failure_threshold = 3;
  initial_delay_seconds = 5;
  period_seconds = 10;
  success_threshold = 1;
  timeout_seconds = 1;
  path = path;
  port = port;
  scheme = "HTTP";
}

tcp_port : String → ℕ → ContainerPort
tcp_port name port = record { name = name; container_port = port; protocol = "TCP" }

unfoldable pub generate_new_deployment_for_control_plane :
    ControlPlane → String → String → Deployment
unfolding image_or certificate_volume certificate_mount probe_at tcp_port
    generate_owner_reference_for_object
generate_new_deployment_for_control_plane controlplane service_account_name cert_secret_name =
    record {
      meta = record empty_meta {
        namespace = controlplane.meta.namespace;
        generate_name = "controlplane-" <> controlplane.meta.name <> "-";
        labels = some (("app", controlplane.meta.name) ∷ []);
        owner_references =
            generate_owner_reference_for_object controlplane.type_meta controlplane.meta ∷ [];
      };
      spec = record {
        replicas = none;
        selector = ("app", controlplane.meta.name) ∷ [];
        template_labels = ("app", controlplane.meta.name) ∷ [];
        pod = record {
          service_account_name = service_account_name;
          volumes = certificate_volume cert_secret_name ∷ [];
          containers =
              record {
                name = control_plane_controller_container_name;
                env = controlplane.spec.deployment.env;
                env_from = controlplane.spec.deployment.env_from;
                image =
                    image_or "apache/apisix-ingress-controller:latest"
                      controlplane.spec.deployment.deployment_options;
                image_pull_policy = "IfNotPresent";
                volume_mounts = certificate_mount ∷ [];
                pre_stop = "/bin/sh" ∷ "-c" ∷ "apisix quit" ∷ [];
                ports = tcp_port "health" 10254 ∷ [];
                liveness_probe = some (probe_at "/healthz" 10254);
                readiness_probe = some (probe_at "/readyz" 10254);
              }
              ∷ [];
        };
      };
      status = record { replicas = 0; available_replicas = 0 };
    }

unfoldable pub generate_new_deployment_for_data_plane : DataPlane → String → Deployment
unfolding image_or certificate_volume certificate_mount probe_at tcp_port
generate_new_deployment_for_data_plane dataplane cert_secret_name = record {
  meta = record empty_meta {
    namespace = dataplane.meta.namespace;
    generate_name = "dataplane-" <> dataplane.meta.name <> "-";
    labels = some (("app", dataplane.meta.name) ∷ []);
  };
  spec = record {
    replicas = none;
    selector = ("app", dataplane.meta.name) ∷ [];
    template_labels = ("app", dataplane.meta.name) ∷ [];
    pod = record {
      service_account_name = "";
      volumes = certificate_volume cert_secret_name ∷ [];
      containers =
          record {
            name = data_plane_proxy_container_name;
            env = dataplane.spec.deployment_options.env;
            env_from = dataplane.spec.deployment_options.env_from;
            image = image_or "apisix:latest" dataplane.spec.deployment_options;
            image_pull_policy = "IfNotPresent";
            volume_mounts = certificate_mount ∷ [];
            pre_stop = "/bin/sh" ∷ "-c" ∷ " quit" ∷ [];
            ports =
                tcp_port "proxy" 9080
                ∷ tcp_port "proxy-ssl" 9443
                ∷ tcp_port "metrics" 9100
                ∷ tcp_port "admin-ssl" 9180
                ∷ [];
            liveness_probe = none;
            readiness_probe = some (probe_at "/status" 8100);
          }
          ∷ [];
    };
  };
  status = record { replicas = 0; available_replicas = 0 };
}

-- A target port that is not set is 0.
service_port : String → ℕ → ℕ → ServicePort
service_port name port target = record {
  name = name;
  protocol = "TCP";
  port = port;
  target_port = target;
}

unfoldable pub generate_new_service_for_data_plane : DataPlane → Service
unfolding service_port
generate_new_service_for_data_plane dataplane = record {
  meta = record empty_meta {
    namespace = dataplane.meta.namespace;
    generate_name = "dataplane-" <> dataplane.meta.name <> "-";
  };
  type = "LoadBalancer";
  selector = ("app", dataplane.meta.name) ∷ [];
  ports =
      service_port "http" 80 9000
      ∷ service_port "https" 443 9443
      ∷ service_port "admin" 9444 0
      ∷ [];
}
