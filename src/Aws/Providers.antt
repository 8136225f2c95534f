-- ===== src/Aws/Providers.antt =====
-- aws/acm.go, aws/iam.go and aws/certs.go: the two providers of certificates, with their filter by
-- tag. The PEM blocks of a text (encoding/pem) and the parser of a block (crypto/x509) are arguments.
pub mod Filter
pub mod Exact
use kube_ingress_aws_control.Prelude.{
  String, Bool, true, false, not, ◌&&◌, ◌||◌, Option, none, some, List, [], ◌∷◌, ◌++◌, ◌==◌, eqb,
  any, split_where, Result, ok, err, ◌>>=◌, if◌then◌else◌,
}
use Prim.Native.Char.{Char, code}
use kube_ingress_aws_control.Certs.{X509, CertificateSummary, new_certificate}
use kube_ingress_aws_control.Aws.Asg.{AwsError, all_pages}

pub data ProviderError : Type 0 where
  api_failed : AwsError → ProviderError
  parse_failed : String → ProviderError
  no_certificates too_many_certificates : ProviderError

abbrev pub of_api {ℓ} : {A : Type ℓ} → Result AwsError A → Result ProviderError A
of_api (err e) = err (api_failed e)
of_api (ok a) = ok a

-- a loop that ends with the first error
unfoldable pub each {ℓ κ μ} :
    {E : Type ℓ} {A : Type κ} {B : Type μ} → (A → Result E B) → List A → Result E (List B)
each f [] = ok []
each f (a ∷ as') = f a >>= λ b. each f as' >>= λ bs. ok (b ∷ bs)

-- what a provider asks for: a text of PEM blocks, and that of the chain if there is one
abbrev pub Texts : Type 0
Texts = String × Option String

-- ACMAPI; a certificate is named by its ARN
pub record AcmApi : Type 0 where
  pub list_certificates : List (Result AwsError (List String))
  pub list_tags_for_certificate : String → Result AwsError (List (String × String))
  pub get_certificate : String → Result AwsError Texts

-- IAMAPI; a certificate is named by its name, and the answer has its ARN
pub record IamApi : Type 0 where
  pub list_server_certificates : List (Result AwsError (List String))
  pub list_server_certificate_tags : String → Result AwsError (List (String × String))
  pub get_server_certificate : String → Result AwsError (String × Texts)

abbrev is_equals_sign : Char → Bool
is_equals_sign c = eqb (code c) b'='

abbrev two_parts : List String → Option (String × String)
two_parts (key ∷ value ∷ []) = some (key, value)
two_parts _ = none

-- the key and the value of the filter, if it has both
unfoldable pub tag_of : String → Option (String × String)
unfolding split_where
tag_of filter_tag =
    if filter_tag == "=" then none else two_parts (split_where is_equals_sign filter_tag)

abbrev pub is_tag : String × String → String × String → Bool
is_tag wanted tag = tag.0 == wanted.0 && tag.1 == wanted.1

-- filterCertificatesByTag: a certificate once for each of its tags that is the wanted one
unfoldable pub times_tagged : String → String × String → List (String × String) → List String
times_tagged arn wanted [] = []
times_tagged arn wanted (tag ∷ tags) =
    let rest = times_tagged arn wanted tags in if is_tag wanted tag then arn ∷ rest else rest

module _ (pem_blocks : String → List String) (x509_parse : String → Result String X509) where
  abbrev parsed : Result String X509 → Result ProviderError X509
  parsed (err e) = err (parse_failed e)
  parsed (ok c) = ok c

  unfoldable pub parse_certificates : String → Result ProviderError (List X509)
  unfolding each
  parse_certificates text = each (λ block. parsed (x509_parse block)) (pem_blocks text)

  abbrev only_one : List X509 → Result ProviderError X509
  only_one [] = err no_certificates
  only_one (c ∷ []) = ok c
  only_one (c ∷ d ∷ cs) = err too_many_certificates

  unfoldable pub parse_certificate : String → Result ProviderError X509
  unfolding parse_certificates
  parse_certificate text = parse_certificates text >>= only_one

  abbrev chain_of : Option String → Result ProviderError (List X509)
  chain_of none = ok []
  chain_of (some text) = parse_certificates text

  unfoldable pub summary_from : String → Texts → Result ProviderError CertificateSummary
  unfolding parse_certificate parse_certificates new_certificate
  summary_from arn (certificate, chain) = parse_certificate certificate >>= λ cert.
      chain_of chain >>= λ certs. ok (new_certificate arn cert certs)

  module _ (api : AcmApi) where
    unfoldable pub filter_certificates_by_tag :
        String × String → List String → Result ProviderError (List String)
    unfolding times_tagged
    filter_certificates_by_tag wanted [] = ok []
    filter_certificates_by_tag wanted (arn ∷ arns) =
        of_api (api.list_tags_for_certificate arn) >>= λ tags.
        filter_certificates_by_tag wanted arns >>= λ rest. ok (times_tagged arn wanted tags ++ rest)

    abbrev pub filtered :
        Option (String × String) → List String → Result ProviderError (List String)
    filtered none arns = ok arns
    filtered (some wanted) arns = filter_certificates_by_tag wanted arns

    unfoldable pub get_acm_certificate_summaries : String → Result ProviderError (List String)
    unfolding all_pages tag_of filter_certificates_by_tag
    get_acm_certificate_summaries filter_tag =
        of_api (all_pages api.list_certificates) >>= filtered (tag_of filter_tag)

    unfoldable pub get_certificate_summary_from_acm :
        String → Result ProviderError CertificateSummary
    unfolding summary_from
    get_certificate_summary_from_acm arn = of_api (api.get_certificate arn) >>= summary_from arn

    -- GetCertificates of the ACM provider
    unfoldable pub get_acm_certificates : String → Result ProviderError (List CertificateSummary)
    unfolding get_acm_certificate_summaries get_certificate_summary_from_acm each
    get_acm_certificates filter_tag =
        get_acm_certificate_summaries filter_tag >>= each get_certificate_summary_from_acm

  module _ (api : IamApi) where
    unfoldable pub cert_has_tag : String → String × String → Result ProviderError Bool
    cert_has_tag name wanted =
        of_api (api.list_server_certificate_tags name) >>= λ tags. ok (any (is_tag wanted) tags)

    abbrev pub wanted_by : Option (String × String) → String → Result ProviderError Bool
    wanted_by none name = ok true
    wanted_by (some wanted) name = cert_has_tag name wanted

    unfoldable pub get_certificate_summary_from_iam :
        String → Result ProviderError CertificateSummary
    unfolding summary_from
    get_certificate_summary_from_iam name =
        of_api (api.get_server_certificate name) >>= λ found. summary_from found.0 found.1

    abbrev pub added :
        Bool
        → Result ProviderError CertificateSummary
        → Result ProviderError (List CertificateSummary)
        → Result ProviderError (List CertificateSummary)
    added false summary rest = rest
    added true summary rest = summary >>= λ c. rest >>= λ cs. ok (c ∷ cs)

    -- the loop over the certificates
    unfoldable pub collect_iam :
        Option (String × String) → List String → Result ProviderError (List CertificateSummary)
    unfolding cert_has_tag get_certificate_summary_from_iam
    collect_iam tag [] = ok []
    collect_iam tag (name ∷ names) = wanted_by tag name >>= λ has_tag.
        added has_tag (get_certificate_summary_from_iam name) (collect_iam tag names)

    -- GetCertificates of the IAM provider
    unfoldable pub get_iam_certificates : String → Result ProviderError (List CertificateSummary)
    unfolding all_pages tag_of collect_iam
    get_iam_certificates filter_tag =
        of_api (all_pages api.list_server_certificates) >>= collect_iam (tag_of filter_tag)

  -- newACMCertProvider and newIAMCertProvider, each with its filter
  pub data Provider : Type 0 where
    acm_certificate_provider : AcmApi → String → Provider
    iam_certificate_provider : IamApi → String → Provider

  unfoldable pub get_certificates : Provider → Result ProviderError (List CertificateSummary)
  unfolding get_acm_certificates get_iam_certificates
  get_certificates (acm_certificate_provider api filter_tag) = get_acm_certificates api filter_tag
  get_certificates (iam_certificate_provider api filter_tag) = get_iam_certificates api filter_tag
