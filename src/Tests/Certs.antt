-- ===== src/Tests/Certs.antt =====
-- The certificates on concrete inputs.
use kube_ingress_aws_control.Prelude.{
  ℕ, String, len, ◌≡◌, ◌↔◌, ◌⊎◌, inl, refl, Bool, true, false, not, none, some, List, [], ◌∷◌, ◌==◌,
  arith, All, Any, In, ok, err, has_suffix, map,
}
use kube_ingress_aws_control.Prelude.Dict.{has_key}
use kube_ingress_aws_control.Certs.{CertificateSummary, new_certificate, Time}
use kube_ingress_aws_control.Certs.Matching.{
  prefix_glob, find_best_matching_certificate, find_best_matching_certificates,
}
use kube_ingress_aws_control.Certs.Matching.Glob.{◌^^◌, NoDot, star, prefix_glob-wildcard}
use kube_ingress_aws_control.Certs.Matching.Best.{Matches, find_best-Matches, find_best_total}
use kube_ingress_aws_control.Certs.Matching.Newest.{Backed, AtLeast, find_best-Newest}
use kube_ingress_aws_control.Certs.Matching.All.{
  Distinct, find_best_each, find_all_covers, find_all-Distinct,
}
use kube_ingress_aws_control.Certs.Caching.{
  Response, CachingProvider, update_cert_cache, background_refresh,
}
use kube_ingress_aws_control.Certs.Caching.Refresh.{
  Answers, Fails, Allowed, update_cert_cache-exact, background_refresh-Allowed,
}

certs : Unit {0}
unfolding prefix_glob find_best_matching_certificate find_best_matching_certificates
    update_cert_cache background_refresh new_certificate has_key
certs = tt

abbrev noon : Time
noon = 100

abbrev cert : String → Time → String → CertificateSummary
cert id not_before name = record {
  id = id;
  certificate = record {
    common_name = name;
    dns_names = [];
    not_before = not_before;
    not_after = 1_000_000_000_000_000;
  };
  chain = [];
  roots = none;
  domain_names = name ∷ [];
}

abbrev wildcard : CertificateSummary
wildcard = cert "wild" 10 "*.example.org"

abbrev exact : CertificateSummary
exact = cert "exact" 20 "www.example.org"

abbrev known : List CertificateSummary
known = wildcard ∷ exact ∷ []

abbrev verifies : CertificateSummary → String → Bool
verifies c h = not (c.id == "expired")

abbrev hosts : List String
hosts = "www.example.org" ∷ "api.example.org" ∷ "other.net" ∷ []

find_tests :
    (find_best_matching_certificate verifies noon known "www.example.org" ≡ some exact)
    × (find_best_matching_certificate verifies noon known "api.example.org" ≡ some wildcard)
    × (find_best_matching_certificate verifies noon known "other.net" ≡ none)
unfolding certs
find_tests = (refl, refl, refl)

prefix_glob-wildcard_example : (prefix_glob (star ".example.org") "www.example.org" ≡ true) ↔ (
    ((l : String) × ("www.example.org" ≡ l ^^ ".example.org") × NoDot l)
    ⊎ ((has_suffix "www.example.org" ".example.org" ≡ false) × NoDot "www.example.org"))
prefix_glob-wildcard_example = prefix_glob-wildcard ".example.org" "www.example.org" (λ e. cc)

find_best-Matches_example : In exact known × Matches verifies noon "www.example.org" exact
unfolding certs
find_best-Matches_example = find_best-Matches verifies noon "www.example.org" known exact refl

find_best_total_example :
    (c : CertificateSummary) × (find_best_matching_certificate verifies noon known "api.example.org"
      ≡ some c)
unfolding certs
find_best_total_example =
    find_best_total verifies noon "api.example.org" known (inl (refl, inl refl))

find_best-Newest_example :
    (l : ℕ) × Backed verifies noon "www.example.org" l exact
    × AtLeast (len "*.example.org") wildcard l exact
unfolding certs
find_best-Newest_example =
    find_best-Newest verifies noon "www.example.org" known exact wildcard "*.example.org"
      ((omega arith, omega arith), ((omega arith, omega arith), tt)) refl (inl refl) refl (inl refl)
      refl

find_best_each_example :
    All
      (λ c.
        (h : String) × In h hosts × (find_best_matching_certificate verifies noon known h ≡ some c))
      (find_best_matching_certificates verifies noon known hosts)
find_best_each_example = find_best_each verifies noon known hosts

find_all_covers_example :
    Any (λ d. d.id ≡ "exact") (find_best_matching_certificates verifies noon known hosts)
unfolding certs
find_all_covers_example =
    find_all_covers verifies noon known hosts "www.example.org" exact (inl refl) refl

find_all-Distinct_example :
    Distinct (map (λ d. d.id) (find_best_matching_certificates verifies noon known hosts))
find_all-Distinct_example = find_all-Distinct verifies noon known hosts

abbrev cache : CachingProvider
cache = record { cert_details = exact ∷ []; blacklisted_arn_map = ("wild", true) ∷ [] }

abbrev answers : List Response
answers = ok (wildcard ∷ []) ∷ ok (exact ∷ []) ∷ []

update_cert_cache-exact_example :
    (Any Fails answers × ((e : String) × (update_cert_cache cache answers ≡ (cache, err e))))
    ⊎ ((¬ Any Fails answers)
        × ((update_cert_cache cache answers).1 ≡ ok tt)
        × ((c : CertificateSummary)
            → In c (update_cert_cache cache answers).0.cert_details
              ↔ (Any (Answers c) answers × Allowed (("wild", true) ∷ []) c)))
update_cert_cache-exact_example = update_cert_cache-exact cache answers

background_refresh-Allowed_example :
    All
      (Allowed (("wild", true) ∷ []))
      (background_refresh cache (answers ∷ (err "throttled" ∷ []) ∷ [])).cert_details
    × ((background_refresh cache (answers ∷ (err "throttled" ∷ []) ∷ [])).blacklisted_arn_map
        ≡ ("wild", true) ∷ [])
unfolding certs
background_refresh-Allowed_example =
    background_refresh-Allowed cache (answers ∷ (err "throttled" ∷ []) ∷ []) (refl, tt)
