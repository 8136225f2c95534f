-- ===== src/Aws/Providers/Exact.antt =====
-- Which certificates a provider gives.
use kube_ingress_aws_control.Prelude.{
  String, ◌≡◌, refl, sym, ◌∙◌, ap, subst, ◌↔◌, inl, inr, Bool, true, false, Option, none, some,
  List, [], ◌∷◌, any, In, Result, ok, >>=-eq-ok, ok_eq,
}
use kube_ingress_aws_control.Certs.{X509, CertificateSummary}
use kube_ingress_aws_control.Aws.Asg.{all_pages}
use kube_ingress_aws_control.Aws.Providers.{
  of_api, AcmApi, IamApi, tag_of, is_tag, filtered, get_acm_certificate_summaries,
  get_certificate_summary_from_acm, get_acm_certificates, cert_has_tag, wanted_by,
  get_certificate_summary_from_iam, added, collect_iam, get_iam_certificates, Provider,
  acm_certificate_provider, iam_certificate_provider, get_certificates,
}
use kube_ingress_aws_control.Aws.Providers.Filter.{of_api-ok, In-each, In-filter, Passes}

module _ (pem_blocks : String → List String) (x509_parse : String → Result String X509) where
  wanted_by-Passes :
      (api : IamApi) (tag : Option (String × String)) (name : String) (b : Bool)
      → wanted_by pem_blocks x509_parse api tag name ≡ ok b
      → (b ≡ true) ↔ Passes api.list_server_certificate_tags tag name
  unfolding cert_has_tag
  wanted_by-Passes api none name b e = (λ t. tt, λ u. sym (ok_eq e))
  wanted_by-Passes api (some wanted) name b e =
      let (tags, p, q) = >>=-eq-ok (of_api (api.list_server_certificate_tags name)) _ e in
      let p' = of_api-ok (api.list_server_certificate_tags name) p in
      (
        λ t. (tags, p', ok_eq q ∙ t),
        λ (tags', r, t). sym (ok_eq q) ∙ (ap (any (is_tag wanted)) (ok_eq (sym p' ∙ r)) ∙ t),
      )

  -- The certificate is that of one of the names, which passes the filter.
  abbrev IamGives : IamApi → Option (String × String) → List String → CertificateSummary → Type 0
  IamGives api tag names c =
      (name : String) × In name names
      × Passes api.list_server_certificate_tags tag name
      × (get_certificate_summary_from_iam pem_blocks x509_parse api name ≡ ok c)

  In-collect :
      (api : IamApi) (tag : Option (String × String)) (names : List String)
      (cs : List CertificateSummary)
      → collect_iam pem_blocks x509_parse api tag names ≡ ok cs
      → (c : CertificateSummary) → In c cs ↔ IamGives api tag names c
  unfolding collect_iam
  In-collect api tag [] cs e c = (λ i. absurd (subst (In c) (sym (ok_eq e)) i), λ h. absurd h.1)
  In-collect api tag (name ∷ names) cs e c =
      let (b, p, e') = >>=-eq-ok (wanted_by pem_blocks x509_parse api tag name) _ e in
      joined b (wanted_by-Passes api tag name b p) cs e' (In-collect api tag names)
    where
      joined :
          (b : Bool)
          → (b ≡ true) ↔ Passes api.list_server_certificate_tags tag name
          → (ds : List CertificateSummary)
          → added pem_blocks x509_parse api b
              (get_certificate_summary_from_iam pem_blocks x509_parse api name)
              (collect_iam pem_blocks x509_parse api tag names)
            ≡ ok ds
          → ((es : List CertificateSummary)
              → collect_iam pem_blocks x509_parse api tag names ≡ ok es
              → (d : CertificateSummary) → In d es ↔ IamGives api tag names d)
          → In c ds ↔ IamGives api tag (name ∷ names) c
      joined false w ds e ih = (λ i. let (n, j, h, q) = (ih ds e c).0 i in (n, inr j, h, q), from)
        where
          from : IamGives api tag (name ∷ names) c → In c ds
          from (n, inl s, h, q) =
              absurd (apart (w.1 (subst (Passes api.list_server_certificate_tags tag) (sym s) h)))
            where
              apart : false ≡ true → ⊥
              apart f = cc
          from (n, inr j, h, q) = (ih ds e c).1 (n, j, h, q)
      joined true w ds e ih =
          let (d, p, e') =
            >>=-eq-ok (get_certificate_summary_from_iam pem_blocks x509_parse api name) _ e in
          let (es, q, e'') = >>=-eq-ok (collect_iam pem_blocks x509_parse api tag names) _ e' in
          subst (λ l. In c l ↔ IamGives api tag (name ∷ names) c) (ok_eq e'')
            (λ i. to d es p (ih es q c) i, λ h. from d es p (ih es q c) h)
        where
          to :
              (d : CertificateSummary) (es : List CertificateSummary)
              → get_certificate_summary_from_iam pem_blocks x509_parse api name ≡ ok d
              → In c es ↔ IamGives api tag names c
              → In c (d ∷ es)
              → IamGives api tag (name ∷ names) c
          to d es p i (inl s) = (name, inl refl, w.0 refl, p ∙ ap ok s)
          to d es p i (inr j) = let (n, k, h, q) = i.0 j in (n, inr k, h, q)

          from :
              (d : CertificateSummary) (es : List CertificateSummary)
              → get_certificate_summary_from_iam pem_blocks x509_parse api name ≡ ok d
              → In c es ↔ IamGives api tag names c
              → IamGives api tag (name ∷ names) c
              → In c (d ∷ es)
          from d es p i (n, inl s, h, q) = inl (
              ok_eq
                (sym p ∙ (ap (get_certificate_summary_from_iam pem_blocks x509_parse api) s ∙ q)))
          from d es p i (n, inr k, h, q) = inr (i.1 (n, k, h, q))

  -- What a provider is to give: the certificates of the names that the API lists, of those that pass
  -- the filter.
  abbrev pub Gives : Provider pem_blocks x509_parse → CertificateSummary → Type 0
  Gives (acm_certificate_provider api filter_tag) c =
      (arns : List String) × (all_pages api.list_certificates ≡ ok arns)
      × ((arn : String) × In arn arns
          × Passes api.list_tags_for_certificate (tag_of filter_tag) arn
          × (get_certificate_summary_from_acm pem_blocks x509_parse api arn ≡ ok c))
  Gives (iam_certificate_provider api filter_tag) c =
      (names : List String) × (all_pages api.list_server_certificates ≡ ok names)
      × IamGives api (tag_of filter_tag) names c

  In-filtered :
      (api : AcmApi) (tag : Option (String × String)) (arns rest : List String)
      → filtered pem_blocks x509_parse api tag arns ≡ ok rest
      → (x : String) → In x rest ↔ (In x arns × Passes api.list_tags_for_certificate tag x)
  In-filtered api none arns rest e x =
      subst (λ l. In x l ↔ (In x arns × Unit)) (ok_eq e) (λ i. (i, tt), λ h. h.0)
  In-filtered api (some wanted) arns rest e x =
      In-filter pem_blocks x509_parse api wanted arns rest e x

  -- A provider of certificates, that of ACM or that of IAM, that answers without an error gives
  -- exactly the certificates that the API lists and that pass the filter by tag.
  pub get_certificates-exact :
      (provider : Provider pem_blocks x509_parse) (cs : List CertificateSummary)
      → get_certificates pem_blocks x509_parse provider ≡ ok cs
      → (c : CertificateSummary) → In c cs ↔ Gives provider c
  unfolding get_certificates get_acm_certificates get_iam_certificates get_acm_certificate_summaries
  get_certificates-exact (acm_certificate_provider api filter_tag) cs e c =
      let (found, p, q) =
        >>=-eq-ok (get_acm_certificate_summaries pem_blocks x509_parse api filter_tag) _ e in
      let (arns, r, s) = >>=-eq-ok (of_api (all_pages api.list_certificates)) _ p in
      let r' = of_api-ok (all_pages api.list_certificates) r in
      let summary = get_certificate_summary_from_acm pem_blocks x509_parse api in
      let given = In-each summary found cs q c in
      let passing = In-filtered api (tag_of filter_tag) arns found s in
      (
        λ i.
            let (arn, j, h) = given.0 i in
            let (k, pass) = (passing arn).0 j in (arns, r', (arn, k, pass, h)),
        λ (arns', r'', (arn, k, pass, h)).
            given.1 (arn, (passing arn).1 (subst (In arn) (ok_eq (sym r'' ∙ r')) k, pass), h),
      )
  get_certificates-exact (iam_certificate_provider api filter_tag) cs e c =
      let (names, p, q) = >>=-eq-ok (of_api (all_pages api.list_server_certificates)) _ e in
      let p' = of_api-ok (all_pages api.list_server_certificates) p in
      let iff = In-collect api (tag_of filter_tag) names cs q c in
      (
        λ i. (names, p', iff.0 i),
        λ (names', r, g).
            iff.1 (subst (λ l. IamGives api (tag_of filter_tag) l c) (ok_eq (sym r ∙ p')) g),
      )
