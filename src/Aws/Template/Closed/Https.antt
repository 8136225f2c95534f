-- ===== src/Aws/Template/Closed/Https.antt =====
-- The names in the listeners for certificates, and in the load balancer itself.
use kube_ingress_aws_control.Prelude.{
  String, true, false, ◌||◌, subst, sym, ◌≡◌, refl, ◌⊎◌, inl, inr, Option, none, some, List, [],
  ◌∷◌, ◌++◌, ◌==◌, All, All-append, eq_iff, if◌then◌else◌,
}
use kube_ingress_aws_control.Prelude.Dict.Laws.{HasKey, insert-HasKey}
use kube_ingress_aws_control.Aws.{load_balancer_type_application, load_balancer_type_network}
use kube_ingress_aws_control.Aws.StackSpec.{StackSpec}
use kube_ingress_aws_control.Aws.CloudWatch.{Expr, ref}
use kube_ingress_aws_control.Aws.Template.{Template, Resource, add_resource}
use kube_ingress_aws_control.Aws.Template.Listeners.{
  TemplateFormats, with_https_listener, with_certificates, https_listener,
}
use kube_ingress_aws_control.Aws.Template.Generate.{
  load_balancer_resource, is_application, is_network, attribute, boolean, log_attributes,
  lb_attributes,
}
use kube_ingress_aws_control.Aws.Template.Closed.{
  DeclaredOr, is_known, resource_refs, optional_refs, pair_refs, if-Holds, PairHolds, pairs-All,
  add_resource-IsGood, known-DeclaredOr, literals-All, resource-DeclaredOr,
}
use kube_ingress_aws_control.Aws.Template.Closed.Http.{
  Grows, growing, deny_rule-Grows, deny_rule-HasKey, has-added,
}

-- The two types of load balancers that the template knows.
abbrev pub IsLbType : String → Type 0
IsLbType s = (s ≡ load_balancer_type_application) ⊎ (s ≡ load_balancer_type_network)

module _ (f : TemplateFormats) (spec : StackSpec) where
  https_listener-Grows :
      (arn protocol : String) (t : Template)
      → Grows spec t
      → Grows spec (add_resource "HTTPSListener" (https_listener f spec arn protocol) t)
  unfolding is_known
  https_listener-Grows arn protocol t g =
      add_resource-IsGood (growing spec) "HTTPSListener" r t
        (known "ListenerSslPolicyParameter" refl, (known "TG" refl, (known "LB" refl, tt))) g
    where
      r : Resource
      r = https_listener f spec arn protocol

      known :
          (n : String)
          → is_known n ≡ true
          → DeclaredOr (growing spec) (add_resource "HTTPSListener" r t) n
      known n k =
          resource-DeclaredOr (growing spec) "HTTPSListener" r t n
            (known-DeclaredOr (growing spec) t g.base n k)

  -- With a type that the template knows there is a listener for the certificates.
  with_https_listener-Grows :
      (arn : String) (t : Template)
      → IsLbType spec.loadbalancer_type
      → Grows spec t
      → Grows spec (with_https_listener f spec arn t)
        × HasKey "HTTPSListener" (with_https_listener f spec arn t).resources
  with_https_listener-Grows arn t (inl e) g = rw ((eq_iff _ _).1 e) (
    deny_rule-Grows f spec "HTTPSRuleBlockInternalTraffic" "HTTPSListener" _
        (has-added f spec "HTTPSListener" _ t) (https_listener-Grows arn "HTTPS" t g),
    deny_rule-HasKey f spec "HTTPSRuleBlockInternalTraffic" "HTTPSListener" _
        (has-added f spec "HTTPSListener" _ t),
  )
  with_https_listener-Grows arn t (inr e) g =
      rw (other, (eq_iff _ _).1 e)
        (https_listener-Grows arn "TLS" t g, has-added f spec "HTTPSListener" _ t)
    where
      other : (spec.loadbalancer_type == load_balancer_type_application) ≡ false
      other = subst (λ s. (s == load_balancer_type_application) ≡ false) (sym e) refl

  pub with_certificates-Grows :
      (arns : List String) (t : Template)
      → IsLbType spec.loadbalancer_type
      → Grows spec t
      → Grows spec (with_certificates f spec arns t)
  unfolding add_resource
  with_certificates-Grows [] t k g = g
  with_certificates-Grows (arn ∷ arns) t k g =
      let h = with_https_listener-Grows arn t k g in
      add_resource-IsGood (growing spec) _ _ (with_https_listener f spec arn t)
        (inr (inr (inr (insert-HasKey "HTTPSListener" _ _ _ h.1))), literals-All _ (arn ∷ arns)) h.0

  attributes-All : (P : String → Type 0) → All P (pair_refs (lb_attributes f spec))
  unfolding lb_attributes
  attributes-All P = pairs-All P (lb_attributes f spec) (
      All-append Q (for_application ++ for_network) (log_attributes f spec)
        (All-append Q for_application for_network
          (if-Holds (All Q) (is_application f spec) _ [] ((tt, tt), ((tt, tt), tt)) tt)
          (if-Holds (All Q) (is_network f spec) _ [] ((tt, tt), ((tt, tt), tt)) tt))
        (if-Holds (All Q) (spec.alb_logs_s3_bucket == "") _ _ ((tt, tt), tt)
          (
            (tt, tt),
            ((tt, tt), if-Holds (All Q) (spec.alb_logs_s3_prefix == "") [] _ tt ((tt, tt), tt)),
          )))
    where
      Q : Expr × Expr → Type 0
      Q = PairHolds P

      for_application : List (Expr × Expr)
      for_application =
          if is_application f spec
          then attribute f "idle_timeout.timeout_seconds"
              (f.decimal spec.idle_connection_timeout_seconds)
            ∷ attribute f "routing.http2.enabled" (boolean spec.http2)
            ∷ []
          else []

      for_network : List (Expr × Expr)
      for_network =
          if is_network f spec
          then attribute f "load_balancing.cross_zone.enabled" (boolean spec.nlb_cross_zone)
            ∷ attribute f "dns_record.client_routing_policy" spec.nlb_zone_affinity
            ∷ []
          else []

  pub load_balancer-All :
      (P : String → Type 0)
      → ((n : String) → is_known n ≡ true → P n)
      → All P (resource_refs (load_balancer_resource f spec))
  unfolding load_balancer_resource is_known
  load_balancer-All P k =
      All-append P (optional_refs groups) (optional_refs kind ++ "AWS::StackName" ∷ rest)
        (if-Holds (λ o. All P (optional_refs o)) (is_network f spec) none
          (some (ref "LoadBalancerSecurityGroupParameter")) tt
          (k "LoadBalancerSecurityGroupParameter" refl, tt))
        (All-append P (optional_refs kind) ("AWS::StackName" ∷ rest)
          (if-Holds (λ o. All P (optional_refs o)) (is_application f spec || is_network f spec)
            (some (ref "Type")) none (k "Type" refl, tt) tt)
          (k _ refl, (k _ refl, (k _ refl, (k _ refl, attributes-All P)))))
    where
      groups : Option Expr
      groups = if is_network f spec then none else some (ref "LoadBalancerSecurityGroupParameter")

      kind : Option Expr
      kind = if is_application f spec || is_network f spec then some (ref "Type") else none

      rest : List String
      rest =
          "IpAddressType"
          ∷ "LoadBalancerSchemeParameter"
          ∷ "LoadBalancerSubnetsParameter"
          ∷ pair_refs (lb_attributes f spec)
