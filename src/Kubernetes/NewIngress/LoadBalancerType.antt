-- ===== src/Kubernetes/NewIngress/LoadBalancerType.antt =====
-- Which type of load balancer an ingress asks for.
use kube_ingress_aws_control.Prelude.{
  String, ◌≡◌, ◌≢◌, ◌↔◌, ◌⊎◌, refl, true, Option, none, some, List, Result, ok, err, ok_eq,
  >>=-eq-ok, map-eq-err, ap, sym, ◌∙◌, arith, eq_iff,
}
use kube_ingress_aws_control.Prelude.Dict.{Dict, lookup, has_key}
use kube_ingress_aws_control.Aws.{load_balancer_type_application, load_balancer_type_network}
use kube_ingress_aws_control.Kubernetes.{
  Adapter, Error, not_supported_by_nlb, Ingress, Metadata, load_balancer_type_alb,
  load_balancer_type_nlb,
}
use kube_ingress_aws_control.Kubernetes.NewIngress.{
  load_balancer_type_annotation, security_group_annotation, waf_web_acl_id_annotation, scheme_of,
  requested_type, aws_type, load_balancer_type_of, ingress_of, new_ingress,
}

-- The annotations name a security group or a WAF, which a network load balancer cannot have.
abbrev pub NeedsAlb : Dict String → Type 0
NeedsAlb annotations =
    (has_key security_group_annotation annotations ≡ true)
    ⊎ (has_key waf_web_acl_id_annotation annotations ≡ true)

abbrev pub IsKnown : String → Type 0
IsKnown t = (t ≡ load_balancer_type_alb) ⊎ (t ≡ load_balancer_type_nlb)

aws_type_alb : (a : Adapter) → aws_type a load_balancer_type_alb ≡ load_balancer_type_application
unfolding aws_type
aws_type_alb a = refl

aws_type_nlb : (a : Adapter) → aws_type a load_balancer_type_nlb ≡ load_balancer_type_network
unfolding aws_type
aws_type_nlb a = refl

aws_type_unknown :
    (a : Adapter) (t : String)
    → t ≢ load_balancer_type_alb
    → t ≢ load_balancer_type_nlb
    → aws_type a t ≡ aws_type a a.ingress_default_load_balancer_type
unfolding aws_type
aws_type_unknown a t p q = ground (
  arith,
  eq_iff load_balancer_type_alb t,
  eq_iff load_balancer_type_nlb t,
  eq_iff load_balancer_type_alb a.ingress_default_load_balancer_type,
  eq_iff load_balancer_type_nlb a.ingress_default_load_balancer_type,
)

aws_type_known :
    (a : Adapter) (t : String)
    → IsKnown a.ingress_default_load_balancer_type
    → (aws_type a t ≡ load_balancer_type_application) ⊎ (aws_type a t ≡ load_balancer_type_network)
unfolding aws_type
aws_type_known a t k = ground (
  arith,
  eq_iff load_balancer_type_alb t,
  eq_iff load_balancer_type_nlb t,
  eq_iff load_balancer_type_alb a.ingress_default_load_balancer_type,
  eq_iff load_balancer_type_nlb a.ingress_default_load_balancer_type,
)

types_differ : load_balancer_type_network ≢ load_balancer_type_application
types_differ e = ground (arith, eq_iff load_balancer_type_network load_balancer_type_application)

module _ (a : Adapter) (scheme : String) (annotations : Dict String) where
  abbrev asked : String
  asked = requested_type a scheme (lookup load_balancer_type_annotation annotations)

  type_of-known :
      (t : String)
      → IsKnown a.ingress_default_load_balancer_type
      → load_balancer_type_of a scheme annotations ≡ ok t
      → (t ≡ load_balancer_type_application) ⊎ (t ≡ load_balancer_type_network)
  unfolding load_balancer_type_of
  type_of-known t k e = ground (arith, aws_type_alb a, aws_type_known a asked k)

  type_of-err :
      (x : Error)
      → load_balancer_type_of a scheme annotations ≡ err x
      → (lookup load_balancer_type_annotation annotations ≡ some load_balancer_type_nlb)
        × NeedsAlb annotations
  unfolding load_balancer_type_of requested_type
  type_of-err x e = ground (arith, eq_iff asked load_balancer_type_nlb)

  type_of-refused :
      lookup load_balancer_type_annotation annotations ≡ some load_balancer_type_nlb
      → NeedsAlb annotations
      → load_balancer_type_of a scheme annotations ≡ err not_supported_by_nlb
  unfolding load_balancer_type_of requested_type
  type_of-refused l n = ground (arith, eq_iff asked load_balancer_type_nlb)

  type_of-alb :
      (t : String)
      → NeedsAlb annotations
      → asked ≡ load_balancer_type_alb
      → load_balancer_type_of a scheme annotations ≡ ok t
      → t ≡ load_balancer_type_application
  unfolding load_balancer_type_of
  type_of-alb t n h e = ground (arith, eq_iff asked load_balancer_type_nlb, aws_type_alb a)

  type_of-default :
      (t : String)
      → a.ingress_default_load_balancer_type ≡ load_balancer_type_nlb
      → NeedsAlb annotations
      → lookup load_balancer_type_annotation annotations ≡ none
      → load_balancer_type_of a scheme annotations ≡ ok t
      → t ≡ load_balancer_type_application
  unfolding load_balancer_type_of requested_type
  type_of-default t d n l e = ground (arith, eq_iff asked load_balancer_type_nlb, aws_type_alb a)

  -- With "nlb" as the default, what becomes of an ingress that needs an application load balancer.
  type_of-network :
      (t : String)
      → a.ingress_default_load_balancer_type ≡ load_balancer_type_nlb
      → NeedsAlb annotations
      → load_balancer_type_of a scheme annotations ≡ ok t
      → (t ≡ load_balancer_type_network) ↔ (
          (u : String) × (lookup load_balancer_type_annotation annotations ≡ some u)
          × (u ≢ load_balancer_type_alb))
  unfolding load_balancer_type_of requested_type
  type_of-network t d n e = (
    (λ h. network_asked h (lookup load_balancer_type_annotation annotations) refl),
    (λ (u, l, h). asked_other u l h),
  )
    where
      network_asked :
          t ≡ load_balancer_type_network
          → (o : Option String) → lookup load_balancer_type_annotation annotations ≡ o
          → (u : String) × (lookup load_balancer_type_annotation annotations ≡ some u)
            × (u ≢ load_balancer_type_alb)
      network_asked h (some u) l =
          (u, l, λ v. types_differ (sym h ∙ type_of-alb t n (rw (l, requested_type) v) e))
      network_asked h none l = absurd (types_differ (sym h ∙ type_of-default t d n l e))

      asked_other :
          (u : String)
          → lookup load_balancer_type_annotation annotations ≡ some u
          → u ≢ load_balancer_type_alb
          → t ≡ load_balancer_type_network
      asked_other u l h =
          ground
            (arith, eq_iff asked load_balancer_type_nlb, aws_type_unknown a asked, aws_type_nlb a)

module _ (a : Adapter) (typ : String) (metadata : Metadata) (host : String)
    (hostnames : List String) where
  abbrev lb_type : Result Error String
  lb_type = load_balancer_type_of a (scheme_of metadata.annotations) metadata.annotations

  new_ingress-ok :
      (i : Ingress)
      → new_ingress a typ metadata host hostnames ≡ ok i
      → lb_type ≡ ok i.load_balancer_type
  unfolding new_ingress ingress_of
  new_ingress-ok i e =
      let (t, p, q) = >>=-eq-ok lb_type _ e in
      p ∙ ap (λ (k : Ingress). ok k.load_balancer_type) (ok_eq q)

  -- A listed resource is refused exactly if its annotations ask for a network load balancer and
  -- also for a security group or a WAF.
  pub new_ingress-refused : ((x : Error) × (new_ingress a typ metadata host hostnames ≡ err x)) ↔ (
      (lookup load_balancer_type_annotation metadata.annotations ≡ some load_balancer_type_nlb)
      × NeedsAlb metadata.annotations)
  unfolding new_ingress
  new_ingress-refused = (
    (λ (x, e).
        type_of-err a (scheme_of metadata.annotations) metadata.annotations x
          (map-eq-err lb_type (ingress_of a typ metadata host hostnames) e)),
    (λ (l, n). (not_supported_by_nlb, rw (type_of-refused a _ metadata.annotations l n) refl)),
  )

  -- With a known default type the load balancer of an ingress is one of the two types of AWS.
  pub new_ingress_type :
      (i : Ingress)
      → IsKnown a.ingress_default_load_balancer_type
      → new_ingress a typ metadata host hostnames ≡ ok i
      → (i.load_balancer_type ≡ load_balancer_type_application)
        ⊎ (i.load_balancer_type ≡ load_balancer_type_network)
  new_ingress_type i k e =
      type_of-known a _ metadata.annotations i.load_balancer_type k (new_ingress-ok i e)

  -- Where "nlb" is the default type, an ingress whose annotations name a security group or a WAF
  -- gets a network load balancer all the same exactly if it has a type annotation other than "alb".
  pub new_ingress-network :
      (i : Ingress)
      → a.ingress_default_load_balancer_type ≡ load_balancer_type_nlb
      → NeedsAlb metadata.annotations
      → new_ingress a typ metadata host hostnames ≡ ok i
      → (i.load_balancer_type ≡ load_balancer_type_network) ↔ (
          (u : String) × (lookup load_balancer_type_annotation metadata.annotations ≡ some u)
          × (u ≢ load_balancer_type_alb))
  new_ingress-network i d n e =
      type_of-network a (scheme_of metadata.annotations) metadata.annotations i.load_balancer_type d
        n (new_ingress-ok i e)
