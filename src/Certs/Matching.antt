-- ===== src/Certs/Matching.antt =====
-- certs/matching.go: which certificate serves a hostname. The clock is read once for a call; `none`
-- stands for ErrNoMatchingCertificateFound. A comparison with `t.Add(-period)` is written with the
-- period on the other side, so that no time falls below the zero time.
pub mod Glob
pub mod Best
pub mod Newest
pub mod All
use kube_ingress_aws_control.Prelude.{
  ℕ, ◌+◌, ◌*◌, ◌<◌, String, len, Bool, true, false, not, ◌&&◌, Option, none, some, List, [], ◌∷◌,
  map, ◌==◌, ltb, eqb, has_prefix, drop_as, trim_suffix, contains_char, if◌then◌else◌,
}
use kube_ingress_aws_control.Prelude.Dict.{Dict, insert}
use kube_ingress_aws_control.Certs.{Time, Duration, hour, CertificateSummary, not_before, not_after}

abbrev pub minimal_cert_validity_period : Duration
minimal_cert_validity_period = 7 * 24 * hour

abbrev pub glob : String
glob = "*"

unfoldable pub prefix_glob : String → String → Bool
unfolding has_prefix drop_as trim_suffix contains_char
prefix_glob pattern subj =
    if pattern == ""
    then subj == pattern
    else if pattern == glob
    then true
    else if not (has_prefix pattern glob)
    then subj == pattern
    else not (contains_char b'.' (trim_suffix subj (drop_as pattern glob)))

-- longestMatch and candidate; longestMatch is -1 exactly while there is no candidate
abbrev pub Best : Type 0
Best = Option (ℕ × CertificateSummary)

-- c.NotAfter().Add(-minimalCertValidityPeriod).Before(now)
abbrev pub ends_soon : Time → CertificateSummary → Bool
ends_soon now c = ltb (not_after c) (now + minimal_cert_validity_period)

-- c.NotAfter().Add(-minimalCertValidityPeriod).After(now)
abbrev pub lasts : Time → CertificateSummary → Bool
lasts now c = ltb (now + minimal_cert_validity_period) (not_after c)

-- The case `longestMatch == nameLength` of the switch: is the candidate replaced?
pub replaces_equal : Time → CertificateSummary → CertificateSummary → Bool
replaces_equal now cert candidate =
    if ltb (not_before candidate) (not_before cert) && not (ends_soon now cert)
    then true
    else if eqb (not_before cert) (not_before candidate)
        && not (ltb (not_after cert) (not_after candidate))
    then true
    else ltb (not_before cert) (not_before candidate)
      && ends_soon now candidate
      && ltb (not_after candidate) (not_after cert)

-- The case `longestMatch > nameLength`.
pub replaces_longer : Time → CertificateSummary → CertificateSummary → Bool
replaces_longer now cert candidate =
    ends_soon now candidate
    && ltb now (not_before candidate)
    && ltb (not_before cert) now
    && lasts now cert

-- The switch, for a certificate of which the name `name` matches the hostname.
pub consider : Time → CertificateSummary → String → Best → Best
unfolding replaces_equal replaces_longer
consider now cert name none = some (len name, cert)
consider now cert name (some (longest, candidate)) =
    let old = some (longest, candidate) in
    let new = some (len name, cert) in
    if ltb longest (len name)
    then (if ltb (not_before cert) now && lasts now cert then new else old)
    else if eqb longest (len name)
    then (if replaces_equal now cert candidate then new else old)
    else if replaces_longer now cert candidate
    then new
    else old

-- the loop over cert.DomainNames()
pub consider_names : Time → String → CertificateSummary → List String → Best → Best
unfolding consider prefix_glob
consider_names now hostname cert [] best = best
consider_names now hostname cert (name ∷ names) best =
    consider_names now hostname cert names
      (if prefix_glob name hostname then consider now cert name best else best)

abbrev pub chosen : Best → Option CertificateSummary
chosen none = none
chosen (some (longest, candidate)) = some candidate

module _ (verifies : CertificateSummary → String → Bool) (now : Time) where
  -- the loop over the certificates
  pub scan : String → List CertificateSummary → Best → Best
  unfolding consider_names
  scan hostname [] best = best
  scan hostname (cert ∷ certs) best = scan hostname certs (
      if verifies cert hostname
      then consider_names now hostname cert cert.domain_names best
      else best)

  unfoldable pub find_best_matching_certificate :
      List CertificateSummary → String → Option CertificateSummary
  unfolding scan
  find_best_matching_certificate certs hostname = chosen (scan hostname certs none)

  -- the loop over the hostnames that fills certsMap; a hostname with no certificate is skipped
  pub collect :
      List CertificateSummary → List String → Dict CertificateSummary → Dict CertificateSummary
  unfolding find_best_matching_certificate insert
  collect certs [] certs_map = certs_map
  collect certs (hostname ∷ hostnames) certs_map =
      collect certs hostnames (elim (find_best_matching_certificate certs hostname) [
        | none ↦ certs_map
        | some c ↦ insert c.id c certs_map
      ])

  unfoldable pub find_best_matching_certificates :
      List CertificateSummary → List String → List CertificateSummary
  unfolding collect
  find_best_matching_certificates certs hostnames = map (λ e. e.1) (collect certs hostnames [])
