-- ===== src/Admission.antt =====
-- internal/admission: the webhook that validates custom resources.
pub mod Laws
use apisix_operator.Prelude.{
  ℕ, String, String-discrete, Bool, true, false, Option, none, some, if◌then◌else◌, ◌==◌, Eq,
}
use apisix_operator.Errors.{Error, Result, ok, err}
use apisix_operator.Errors.Results.{◌>>=◌}
use apisix_operator.Api.Types.{ControlPlane, DataPlane}
use apisix_operator.Validation.{Cluster, validate}

pub record GroupVersionResource : Type 0 where
  pub group : String
  pub version : String
  pub resource : String

unfoldable pub GroupVersionResource-discrete : Discrete GroupVersionResource
GroupVersionResource-discrete = hlevel String-discrete

instance abbrev pub group_version_resource_eq : Eq GroupVersionResource
group_version_resource_eq = record { dec = GroupVersionResource-discrete }

abbrev pub control_plane_gv_resource : GroupVersionResource
control_plane_gv_resource = record {
  group = "apisix-operator.apisix-operator.apisix.apache.org";
  version = "v1alpha1";
  resource = "controlplanes";
}

abbrev pub data_plane_gv_resource : GroupVersionResource
data_plane_gv_resource = record {
  group = "apisix-operator.apisix-operator.apisix.apache.org";
  version = "v1alpha1";
  resource = "dataplanes";
}

pub data Operation : Type 0 where
  create update delete connect : Operation

-- `req.Operation == Create || req.Operation == Update`
abbrev pub is_write : Operation → Bool
is_write create = true
is_write update = true
is_write _ = false

pub record AdmissionRequest : Type 0 where
  pub uid : String
  pub resource : GroupVersionResource
  pub operation : Operation
  pub object : String

pub record Status : Type 0 where
  pub code : ℕ
  pub reason : String
  pub message : String
  pub status : String

pub record AdmissionResponse : Type 0 where
  pub uid : String
  pub allowed : Bool
  pub result : Status

-- The interface `Validator`.
pub record Validator : Type 0 where
  pub validate_control_plane : ControlPlane → Result (Unit {0})
  pub validate_data_plane : DataPlane → Result (Unit {0})

-- validator.go
unfoldable pub validator : Cluster → Validator
validator c = record {
  validate_control_plane = λ control_plane. ok tt;
  validate_data_plane = validate c;
}

-- The decoder of the scheme's codecs, for each of the two types, and `err.Error()`.
pub record Codecs : Type 0 where
  pub decode_control_plane : String → Result ControlPlane
  pub decode_data_plane : String → Result DataPlane
  pub error_text : Error → String

-- The answer to a nil request.
abbrev pub empty_request : AdmissionResponse
empty_request = record {
  uid = "";
  allowed = false;
  result = record {
    code = 400;
    reason = "BadRequest";
    message = "empty request";
    status = "Failure";
  };
}

-- The end of `handleValidation`, from `ok` and `msg`.
unfoldable pub respond : String → Bool × String → AdmissionResponse
respond uid (true, msg) = record {
  uid = uid;
  allowed = true;
  result = record { code = 200; reason = ""; message = msg; status = "Success" };
}
respond uid (false, msg) = record {
  uid = uid;
  allowed = false;
  result = record { code = 400; reason = "BadRequest"; message = msg; status = "Failure" };
}

-- What a client receives: an error text with a status code, or the written review.
pub data Reply : Type 0 where
  http_error : String → ℕ → Reply
  written : String → Reply

-- Reading the body, `encoding/json` and `w.Write`.
pub record Transport : Type 0 where
  pub body : Option (Result String)
  pub unmarshal : String → Result (Option AdmissionRequest)
  pub marshal : Option AdmissionRequest → AdmissionResponse → Result String
  pub write : String → Result (Unit {0})

module _ (v : Validator) (codecs : Codecs) where
  open v use {validate_control_plane, validate_data_plane}
  open codecs use {decode_control_plane, decode_data_plane, error_text}

  -- `ok` and `msg` after a validation.
  unfoldable pub verdict : Result (Unit {0}) → Bool × String
  verdict (ok _) = (true, "")
  verdict (err e) = (false, error_text e)

  unfoldable pub judge : AdmissionRequest → Result (Bool × String)
  unfolding verdict
  judge req =
      if req.resource == control_plane_gv_resource
      then (if is_write req.operation
          then (do
            control_plane ← decode_control_plane req.object
            ok (verdict (validate_control_plane control_plane)))
          else ok (true, ""))
      else if req.resource == data_plane_gv_resource
      then (if is_write req.operation
          then (do
            data_plane ← decode_data_plane req.object
            ok (verdict (validate_data_plane data_plane)))
          else ok (true, ""))
      else ok (true, "")

  unfoldable pub handle_validation : Option AdmissionRequest → Result AdmissionResponse
  unfolding judge respond
  handle_validation none = ok empty_request
  handle_validation (some req) = do j ← judge req; ok (respond req.uid j)

  -- From the response on.
  send : Transport → Option AdmissionRequest → Result AdmissionResponse → Reply
  send t req (err e) = http_error (error_text e) 500
  send t req (ok response) = elim (t.marshal req response) [
    | err e ↦ http_error (error_text e) 500
    | ok text ↦ (elim (t.write text) [
      | err e ↦ http_error (error_text e) 500
      | ok _ ↦ written text
    ])
  ]

  -- From the bytes of the body on.
  receive : Transport → Result String → Reply
  unfolding send
  receive t (err e) = http_error (error_text e) 500
  receive t (ok text) = elim (t.unmarshal text) [
    | err e ↦ http_error (error_text e) 400
    | ok req ↦ send t req (handle_validation req)
  ]

  unfoldable pub serve_http : Transport → Reply
  unfolding receive
  serve_http t = elim t.body [
    | none ↦ http_error "admission review object is missing" 400
    | some bytes ↦ receive t bytes
  ]
