-- ===== src/Certs/Caching.antt =====
-- certs/caching.go: the cache over several providers. The providers answer in any order, so the
-- answers come as the list in which they arrive on the channel.
pub mod Refresh
use kube_ingress_aws_control.Prelude.{
  String, Bool, true, false, not, List, [], ◌∷◌, ◌++◌, Result, ok, err, keep,
}
use kube_ingress_aws_control.Prelude.Dict.{Dict, has_key}
use kube_ingress_aws_control.Certs.{CertificateSummary}

-- An error text of a provider.
abbrev pub Response : Type 0
Response = Result String (List CertificateSummary)

pub record CachingProvider : Type 0 where
  pub cert_details : List CertificateSummary
  pub blacklisted_arn_map : Dict Bool

-- the inner loop: what a provider's answer adds to the list
unfoldable pub provision_certs : Dict Bool → List CertificateSummary → List CertificateSummary
unfolding has_key
provision_certs blacklist = keep (λ c. not (has_key c.id blacklist))

-- the loop over the channel; the first error that arrives ends it
unfoldable pub gather :
    Dict Bool → List CertificateSummary → List Response → Result String (List CertificateSummary)
unfolding provision_certs
gather blacklist new_list [] = ok new_list
gather blacklist new_list (err e ∷ responses) = err e
gather blacklist new_list (ok certs ∷ responses) =
    gather blacklist (new_list ++ provision_certs blacklist certs) responses

abbrev stored : CachingProvider → Result String (List CertificateSummary) → CachingProvider
stored cc (ok new_list) = record cc { cert_details = new_list }
stored cc (err e) = cc

abbrev outcome : Result String (List CertificateSummary) → Result String (Unit {0})
outcome (ok new_list) = ok tt
outcome (err e) = err e

-- The cache after the call, and what it returns.
unfoldable pub update_cert_cache :
    CachingProvider → List Response → CachingProvider × Result String (Unit {0})
unfolding gather
update_cert_cache cc responses =
    let result = gather cc.blacklisted_arn_map [] responses in (stored cc result, outcome result)

abbrev started : CachingProvider × Result String (Unit {0}) → Result String CachingProvider
started (cc, ok _) = ok cc
started (cc, err e) = err e

-- NewCachingProvider: it fails if the first load fails.
unfoldable pub new_caching_provider : Dict Bool → List Response → Result String CachingProvider
unfolding update_cert_cache
new_caching_provider blacklist responses =
    started
      (update_cert_cache (record { cert_details = []; blacklisted_arn_map = blacklist }) responses)

unfoldable pub get_certificates : CachingProvider → List CertificateSummary
get_certificates cc = cc.cert_details

-- startBackgroundRefresh: each tick refreshes the cache, and an error is only logged.
unfoldable pub background_refresh : CachingProvider → List (List Response) → CachingProvider
unfolding update_cert_cache
background_refresh cc [] = cc
background_refresh cc (responses ∷ ticks) =
    background_refresh (update_cert_cache cc responses).0 ticks
