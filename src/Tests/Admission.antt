-- ===== src/Tests/Admission.antt =====
-- The theorems on the webhook at concrete requests.
use apisix_operator.Prelude.{
  String, String-discrete, ◌≡◌, ◌≢◌, ◌↔◌, refl, ap, true, Option, none, some, [], arith, ◌==◌,
  string_eq,
}
use apisix_operator.Errors.{ok}
use apisix_operator.Validation.{validate}
use apisix_operator.Admission.{
  AdmissionRequest, AdmissionResponse, Codecs, Transport, create, data_plane_gv_resource,
  control_plane_gv_resource, validator, handle_validation, judge, verdict, respond,
  GroupVersionResource, GroupVersionResource-discrete, serve_http, written, empty_request,
}
use apisix_operator.Admission.Laws.{handle_validation_data_plane, serve_http-written}
use apisix_operator.Tests.Data.{no_options, a_control_plane, a_data_plane, empty_cluster}

abbrev codecs : Codecs
codecs = record {
  decode_control_plane = λ text. ok (a_control_plane []);
  decode_data_plane = λ text. ok (a_data_plane no_options);
  error_text = λ e. "error";
}

abbrev transport : Transport
transport = record {
  body = some (ok "{}");
  unmarshal = λ text. ok none;
  marshal = λ req response. ok "review";
  write = λ text. ok tt;
}

abbrev request : AdmissionRequest
request = record { uid = "7"; resource = data_plane_gv_resource; operation = create; object = "{}" }

abbrev other_request : AdmissionRequest
other_request = record request { resource = control_plane_gv_resource }

empty_request_answered : handle_validation (validator empty_cluster) codecs none ≡ ok empty_request
unfolding handle_validation
empty_request_answered = refl

handle_validation_data_plane_example :
    (r : AdmissionResponse) × (handle_validation (validator empty_cluster) codecs (some request)
      ≡ ok r)
    × ((r.allowed ≡ true) ↔ (validate empty_cluster (a_data_plane no_options) ≡ ok tt))
handle_validation_data_plane_example =
    handle_validation_data_plane empty_cluster codecs request refl refl refl

serve_http-written_example :
    (serve_http (validator empty_cluster) codecs transport ≡ written "review") ↔ (
      (bytes : String) × (req : Option AdmissionRequest) × (r : AdmissionResponse) × (some (ok "{}")
        ≡ some (ok bytes))
      × (transport.unmarshal bytes ≡ ok req)
      × (handle_validation (validator empty_cluster) codecs req ≡ ok r)
      × (transport.marshal req r ≡ ok "review")
      × (transport.write "review" ≡ ok tt))
serve_http-written_example = serve_http-written (validator empty_cluster) codecs transport "review"

resources_differ : control_plane_gv_resource ≢ data_plane_gv_resource
unfolding GroupVersionResource-discrete String-discrete
resources_differ e =
    ground (arith, ap (λ (r : GroupVersionResource). r.resource == "controlplanes") e)

other_admitted :
    (r : AdmissionResponse) × (handle_validation
        (validator empty_cluster)
        codecs
        (some other_request)
      ≡ ok r)
unfolding handle_validation judge respond validator verdict String-discrete
    GroupVersionResource-discrete
other_admitted = (_, refl)
