-- ===== src/Admission/Laws.antt =====
-- What the webhook answers, for any validator and for the operator's own.
use apisix_operator.Prelude.{
  String, ◌≡◌, ◌≢◌, ◌↔◌, ◌⊎◌, inl, inr, refl, ap, String-discrete, string_eq, true, false, Option,
  none, some, arith, ◌==◌,
}
use apisix_operator.Errors.{Error, Result, ok, err}
use apisix_operator.Errors.Results.{Result-cases}
use apisix_operator.Api.Types.{DataPlane}
use apisix_operator.Validation.{Cluster, validate}
use apisix_operator.Admission.{
  GroupVersionResource, AdmissionRequest, AdmissionResponse, Codecs, Validator, Transport,
  http_error, written, validator, is_write, control_plane_gv_resource, data_plane_gv_resource,
  group_version_resource_eq, GroupVersionResource-discrete, respond, judge, verdict,
  handle_validation, serve_http, send, receive,
}

-- In every response the flag, the code and the status agree, and the response to a request carries
-- its UID.
pub handle_validation_consistent :
    (v : Validator) (codecs : Codecs) (req : Option AdmissionRequest) {r : AdmissionResponse}
    → handle_validation v codecs req ≡ ok r
    → ((r.allowed ≡ true) × (r.result.code ≡ 200) × (r.result.status ≡ "Success")
        ⊎ (r.allowed ≡ false) × (r.result.code ≡ 400) × (r.result.status ≡ "Failure"))
      × ((q : AdmissionRequest) → req ≡ some q → r.uid ≡ q.uid)
unfolding handle_validation respond
handle_validation_consistent v codecs none {r} h = ground arith
handle_validation_consistent v codecs (some q) {r} h = elim (Result-cases (judge v codecs q)) [
  | inl ((true, m), e) ↦ ground arith
  | inl ((false, m), e) ↦ ground arith
  | inr (x, e) ↦ ground arith
]

resources_differ : data_plane_gv_resource ≢ control_plane_gv_resource
unfolding GroupVersionResource-discrete String-discrete
resources_differ e = ground (arith, ap (λ (r : GroupVersionResource). r.resource == "dataplanes") e)

-- A DataPlane that is created or updated and that decodes is admitted exactly if its validation
-- finds no error.
pub handle_validation_data_plane :
    (c : Cluster) (codecs : Codecs) (req : AdmissionRequest) {d : DataPlane}
    → req.resource ≡ data_plane_gv_resource
    → is_write req.operation ≡ true
    → codecs.decode_data_plane req.object ≡ ok d
    → (r : AdmissionResponse) × (handle_validation (validator c) codecs (some req) ≡ ok r)
      × ((r.allowed ≡ true) ↔ (validate c d ≡ ok tt))
unfolding handle_validation judge respond validator verdict
handle_validation_data_plane c codecs req {d} hr hw hd = (
  respond req.uid (verdict (validator c) codecs (validate c d)),
  ground (arith, resources_differ),
  ground (arith, Result-cases (validate c d)),
)

-- Whatever is not a creation or an update of a DataPlane is admitted, or fails to decode.
pub handle_validation_others :
    (c : Cluster) (codecs : Codecs) (req : AdmissionRequest) {r : AdmissionResponse}
    → ((req.resource ≢ data_plane_gv_resource) ⊎ (is_write req.operation ≡ false))
    → handle_validation (validator c) codecs (some req) ≡ ok r
    → r.allowed ≡ true
unfolding handle_validation judge respond validator verdict
handle_validation_others c codecs req {r} h e = ground arith

module _ (v : Validator) (codecs : Codecs) (t : Transport) where
  abbrev Sends : Option AdmissionRequest → Result AdmissionResponse → String → Type 0
  Sends req h text =
      (r : AdmissionResponse) × (h ≡ ok r) × (t.marshal req r ≡ ok text) × (t.write text ≡ ok tt)

  send-written :
      (req : Option AdmissionRequest) (h : Result AdmissionResponse) (text : String)
      → (send v codecs t req h ≡ written text) ↔ Sends req h text
  unfolding send
  send-written req (err e) text = (λ p. cc, λ (r, p, q, w). cc)
  send-written req (ok r) text =
      (λ p. (r, refl, ground arith, ground arith), λ (r', p, q, w). ground arith)

body_cases :
    (b : Option (Result String))
    → (b ≡ none) ⊎ ((e : Error) × (b ≡ some (err e))) ⊎ ((x : String) × (b ≡ some (ok x)))
body_cases none = inl refl
body_cases (some (err e)) = inr (inl (e, refl))
body_cases (some (ok x)) = inr (inr (x, refl))

-- A review is written exactly if there is a body that is read and parsed, the request is handled
-- without an error, and the response is marshalled and written.
pub serve_http-written :
    (v : Validator) (codecs : Codecs) (t : Transport) (text : String)
    → (serve_http v codecs t ≡ written text) ↔ (
        (bytes : String) × (req : Option AdmissionRequest) × (r : AdmissionResponse) × (t.body
          ≡ some (ok bytes))
        × (t.unmarshal bytes ≡ ok req)
        × (handle_validation v codecs req ≡ ok r)
        × (t.marshal req r ≡ ok text)
        × (t.write text ≡ ok tt))
unfolding serve_http receive
serve_http-written v codecs t text = elim (body_cases t.body) [
  | inl b ↦ (λ h. ground arith, λ (x', q, r, b', u, g, m, w). ground arith)
  | inr (inl (e, b)) ↦ (λ h. ground arith, λ (x', q, r, b', u, g, m, w). ground arith)
  | inr (inr (x, b)) ↦ elim (Result-cases (t.unmarshal x)) [
    | inl (q, u) ↦ (
      λ h.
          let (r, g, m, w) =
            (send-written v codecs t q (handle_validation v codecs q) text).0 (ground arith) in
          (x, q, r, b, u, g, m, w),
      λ (x', q', r, b', u', g, m, w). ground (
        arith,
        (send-written v codecs t q (handle_validation v codecs q) text).1
            (r, ground arith, ground arith, ground arith),
      ),
    )
    | inr (e, u) ↦ (λ h. ground arith, λ (x', q, r, b', u', g, m, w). ground arith)
  ]
]

-- The status 400 is sent exactly if the body is missing or does not parse.
pub serve_http_bad_request :
    (v : Validator) (codecs : Codecs) (t : Transport)
    → ((m : String) × (serve_http v codecs t ≡ http_error m 400)) ↔ (
        (t.body ≡ none)
        ⊎ ((bytes : String) × (e : Error) × (t.body ≡ some (ok bytes))
            × (t.unmarshal bytes ≡ err e)))
unfolding serve_http receive send
serve_http_bad_request v codecs t = elim (body_cases t.body) [
  | inl b ↦ (λ h. inl b, λ h. ("admission review object is missing", ground arith))
  | inr (inl (e, b)) ↦ (λ (m, h). ground arith, λ h. ground arith)
  | inr (inr (x, b)) ↦ elim (Result-cases (t.unmarshal x)) [
    | inl (q, u) ↦ (λ (m, h). ground arith, λ h. ground arith)
    | inr (e, u) ↦ (λ (m, h). inr (x, e, b, u), λ h. (codecs.error_text e, ground arith))
  ]
]
