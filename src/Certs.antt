-- ===== src/Certs.antt =====
-- Package certs: the certificate summary (certs/provider.go). What an X.509 certificate is belongs
-- to crypto/x509, of which the controller reads four fields and calls `Verify`.
-- Times and durations are nanoseconds; a time counts from Go's zero time, which is 0.
pub mod Matching
pub mod Caching
use kube_ingress_aws_control.Prelude.{
  ℕ, ◌*◌, String, Bool, true, Option, none, some, List, [], ◌∷◌, ◌++◌, ◌==◌, if◌then◌else◌,
}

abbrev pub Time : Type 0
Time = ℕ

abbrev pub Duration : Type 0
Duration = ℕ

abbrev pub second : Duration
second = 1_000_000_000

abbrev pub hour : Duration
hour = 3600 * second

-- x509.Certificate, the fields that are read
pub record X509 : Type 0 where
  pub common_name : String
  pub dns_names : List String
  pub not_before : Time
  pub not_after : Time

pub record CertificateSummary : Type 0 where
  pub id : String
  pub certificate : X509
  pub chain : List X509
  pub roots : Option (List X509)
  pub domain_names : List String

abbrev pub not_before : CertificateSummary → Time
not_before c = c.certificate.not_before

abbrev pub not_after : CertificateSummary → Time
not_after c = c.certificate.not_after

unfoldable pub new_certificate : String → X509 → List X509 → CertificateSummary
new_certificate id certificate chain = record {
  id = id;
  certificate = certificate;
  chain = chain;
  roots = none;
  domain_names =
      (if certificate.common_name == "" then [] else certificate.common_name ∷ [])
      ++ certificate.dns_names;
}

unfoldable pub with_roots : CertificateSummary → List X509 → CertificateSummary
with_roots c r = record c { roots = some r }

-- x509.VerifyOptions; the key usage is always server authentication
pub record VerifyOptions : Type 0 where
  pub dns_name : String
  pub roots : Option (List X509)
  pub intermediates : List X509
  pub current_time : Time

-- `x509_verify` is x509.Certificate.Verify: true where it returns no error.
unfoldable pub verify : (X509 → VerifyOptions → Bool) → Time → CertificateSummary → String → Bool
verify x509_verify now c hostname =
    x509_verify c.certificate
      (record { dns_name = hostname; roots = c.roots; intermediates = c.chain; current_time = now })
