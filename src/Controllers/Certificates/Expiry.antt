-- ===== src/Controllers/Certificates/Expiry.antt =====
-- How long a signed certificate lives.
use apisix_operator.Prelude.{
  ℕ, ◌-◌, ◌+◌, ◌≤◌, ◌<◌, String, ◌≡◌, arith, false, some, ltb, leb, if◌then◌else◌, Bool-cases,
  Option-cases, inl, inr,
}
use apisix_operator.Errors.{ok}
use apisix_operator.Errors.Results.{Result-cases}
use apisix_operator.Resources.Objects.{Secret}
use apisix_operator.Client.{Client}
use apisix_operator.Controllers.Certificates.{
  Crypto, CertificateSigningRequest, sign_certificate, block_bytes, data_at,
}

-- The duration that is signed for.
abbrev shorter : ℕ → ℕ → ℕ → ℕ
shorter end_ now wanted = if ltb (end_ - now) wanted then end_ - now else wanted

shorter_lem :
    (end_ now wanted : ℕ)
    → leb end_ now ≡ false
    → (shorter end_ now wanted ≤ wanted) × (now + shorter end_ now wanted ≤ end_)
shorter_lem end_ now wanted h = (ground arith, ground arith)

module _ {S P C : Type 0} (c : Client S) (crypto : Crypto S P C) where
  -- A certificate that signCertificate returns was signed by the key and the certificate of the
  -- CA Secret, at a time before that certificate ends, for the usages and the text of the request,
  -- and with an expiry that is neither longer than was asked for nor beyond the CA's end.
  pub sign_certificate-expiry :
      (csr : CertificateSigningRequest) (ca : Secret) (s : S) {s' : S} {cert : String}
      → sign_certificate c crypto csr ca s ≡ (ok cert, s')
      → (key_bytes cert_bytes : String) × (priv : P) × (ca_cert : C) × (now expiry : ℕ)
        × (crypto.decode_pem (data_at ca "tls.key") ≡ some key_bytes)
        × (crypto.parse_ec_private_key key_bytes ≡ ok priv)
        × (crypto.decode_pem (data_at ca "tls.crt") ≡ some cert_bytes)
        × (crypto.parse_certificate cert_bytes ≡ ok ca_cert)
        × (c.now s ≡ (ok now, s'))
        × (now < crypto.not_after ca_cert)
        × (expiry ≤ csr.expiration_seconds)
        × (now + expiry ≤ crypto.not_after ca_cert)
        × (crypto.sign priv ca_cert (record { usages = csr.usages; expiry = expiry }) csr.request
            ≡ ok cert)
  unfolding sign_certificate block_bytes
  sign_certificate-expiry csr ca s {s'} {cert} h =
      elim (Option-cases (crypto.decode_pem (data_at ca "tls.key"))) [
        | inl e ↦ ground arith
        | inr (key_bytes, e) ↦ elim (Result-cases (crypto.parse_ec_private_key key_bytes)) [
          | inr (x, f) ↦ ground arith
          | inl (priv, f) ↦ elim (Option-cases (crypto.decode_pem (data_at ca "tls.crt"))) [
            | inl g ↦ ground arith
            | inr (cert_bytes, g) ↦ elim (Result-cases (crypto.parse_certificate cert_bytes)) [
              | inr (x, k) ↦ ground arith
              | inl (ca_cert, k) ↦ elim (Result-cases (c.now s).0) [
                | inr (x, n) ↦ ground arith
                | inl (now, n) ↦ elim (Bool-cases (leb (crypto.not_after ca_cert) now)) [
                  | inl b ↦ ground arith
                  | inr b ↦
                      let expiry = shorter (crypto.not_after ca_cert) now csr.expiration_seconds in
                      (
                        key_bytes,
                        cert_bytes,
                        priv,
                        ca_cert,
                        now,
                        expiry,
                        e,
                        f,
                        g,
                        k,
                        ground arith,
                        ground arith,
                        (shorter_lem (crypto.not_after ca_cert) now csr.expiration_seconds b).0,
                        (shorter_lem (crypto.not_after ca_cert) now csr.expiration_seconds b).1,
                        ground arith,
                      )
                ]
              ]
            ]
          ]
        ]
      ]
