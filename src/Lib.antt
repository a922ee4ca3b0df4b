-- ===== src/Lib.antt =====
-- The APISIX operator, a Kubernetes operator in Go: its controllers bring a cluster to what the
-- custom resources ControlPlane and DataPlane ask for, and its webhook refuses DataPlanes whose
-- database mode is not supported.
--
-- The files, and the code that they model:
-- Api: apis/v1alpha1 and the parts of the Kubernetes types that the operator uses.
-- Kubernetes.Status: the conditions of internal/utils/kubernetes/status.go.
-- Kubernetes.Metadata: metadata.go and ownerrefs.go of the same directory.
-- Env: the environment of a ControlPlane, from controllers/controlplane_controller_utils.go
--   and internal/utils/kubernetes/envvars.go.
-- Validation: internal/validation/dataplane/validation.go.
-- Admission: internal/admission, which calls the validation.
-- Resources: the objects that the operator generates, from internal/utils/kubernetes/resources
--   and the generators of controllers, with the four generated cluster roles.
-- Client: the API server as a record of calls, a parameter, and the lists of
--   internal/utils/kubernetes/lists.go.
-- Controllers: what the reconcilers share (Owned, Certificates, Deployments), and the
--   reconcilers of controllers/controlplane_controller.go (ControlPlane) and
--   controllers/dataplane_controller.go (DataPlane) with their helpers and watches.
--   ControlPlane.Collecting and DataPlane.Server say what a server does that answers as
--   documented, with no other writer, for the theorems on repeated runs.
-- Config: the default environment of a DataPlane, from internal/utils/dataplane/config.go.
-- Gateway: the lists and the status tests of internal/utils/gateway.
-- Start: what main.go sets up and starts.
-- Errors, Prelude: Go's errors and panics as values, and shared helpers. Tests: concrete objects.
--
-- A function that calls the API server runs on the server's state and returns a result and the
-- state after it; other parties may change the state at any call, so a theorem says which answers it
-- takes for granted. A pointer is an Option; a write to a nil map and a nil dereference are
-- the error `panicked`. A slice is a list. Numbers are natural numbers and are compared, never
-- multiplied, so no width matters; durations are in seconds, and a negative one is 0 only where the
-- code tests it. All loops are over lists, so no fuel is used.
--
-- Parameters: the API server and its clock, cryptography and PEM, semantic versions, JSON and
-- the HTTP transport, base64, sort.Sort, the order of a map, the manager of controller-runtime,
-- and controller-runtime's SetOwnerReference.
--
-- Not modelled: the Go comparisons of options that nothing calls; flags, logging, telemetry,
-- generated deep copies; and the APISIXConfiguration reconciler, which does nothing.
pub mod Prelude
pub mod Api
pub mod Kubernetes
pub mod Env
pub mod Errors
pub mod Validation
pub mod Config
pub mod Gateway
pub mod Admission
pub mod Resources
pub mod Client
pub mod Controllers
pub mod Start
pub mod Tests
