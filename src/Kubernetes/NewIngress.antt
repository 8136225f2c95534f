-- ===== src/Kubernetes/NewIngress.antt =====
-- From a listed resource to the controller's view of it (kubernetes/adapter.go, newIngress).
pub mod LoadBalancerType
use kube_ingress_aws_control.Prelude.{
  String, Bool, true, false, not, ◌&&◌, ◌||◌, Option, none, some, List, [], ◌∷◌, Result, ok, err,
  ◌>>=◌, ◌==◌, any, keep, has_suffix, if◌then◌else◌,
}
use kube_ingress_aws_control.Prelude.Dict.{Dict, lookup, has_key, or_default}
use kube_ingress_aws_control.Aws.{scheme_internal, scheme_internet_facing, ssl_policies}
use kube_ingress_aws_control.Kubernetes.{
  Adapter, Error, not_supported_by_nlb, Ingress, Metadata, KubeIngress, RouteGroup, type_ingress,
  type_route_group, load_balancer_type_alb, load_balancer_type_nlb,
  load_balancer_types_ingress_to_aws, get_annotations_string,
}

abbrev pub ip_address_type_annotation : String
ip_address_type_annotation = "alb.ingress.kubernetes.io/ip-address-type"

abbrev pub certificate_arn_annotation : String
certificate_arn_annotation = "zalando.org/aws-load-balancer-ssl-cert"

abbrev pub scheme_annotation : String
scheme_annotation = "zalando.org/aws-load-balancer-scheme"

abbrev pub shared_annotation : String
shared_annotation = "zalando.org/aws-load-balancer-shared"

abbrev pub security_group_annotation : String
security_group_annotation = "zalando.org/aws-load-balancer-security-group"

abbrev pub ssl_policy_annotation : String
ssl_policy_annotation = "zalando.org/aws-load-balancer-ssl-policy"

abbrev pub load_balancer_type_annotation : String
load_balancer_type_annotation = "zalando.org/aws-load-balancer-type"

abbrev pub http2_annotation : String
http2_annotation = "zalando.org/aws-load-balancer-http2"

abbrev pub waf_web_acl_id_annotation : String
waf_web_acl_id_annotation = "zalando.org/aws-waf-web-acl-id"

abbrev pub class_annotation : String
class_annotation = "kubernetes.io/ingress.class"

-- the switch over the scheme annotation
unfoldable pub scheme_of : Dict String → String
unfolding get_annotations_string
scheme_of annotations =
    if get_annotations_string annotations scheme_annotation "" == scheme_internal
    then scheme_internal
    else scheme_internet_facing

-- sslPolicy and hasSSLPolicyAnnotation
unfoldable pub ssl_policy_of : Adapter → Dict String → String × Bool
unfolding get_annotations_string has_key
ssl_policy_of a annotations =
    let policy =
      get_annotations_string annotations ssl_policy_annotation a.ingress_default_ssl_policy in
    if any (λ p. p == policy) ssl_policies
    then (policy, has_key ssl_policy_annotation annotations)
    else (a.ingress_default_ssl_policy, false)

-- loadBalancerType before the check against security group and WAF
unfoldable pub requested_type : Adapter → String → Option String → String
requested_type a scheme (some t) = t
requested_type a scheme none =
    if scheme == scheme_internal
    then load_balancer_type_alb
    else a.ingress_default_load_balancer_type

-- an unknown type becomes the default, and the name becomes the one that AWS uses
unfoldable pub aws_type : Adapter → String → String
unfolding lookup has_key
aws_type a t = or_default "" (
    lookup
      (if has_key t load_balancer_types_ingress_to_aws
        then t
        else a.ingress_default_load_balancer_type)
      load_balancer_types_ingress_to_aws)

-- A network load balancer takes neither a security group nor a WAF: an error if it was asked for
-- by annotation, and otherwise an application load balancer instead.
unfoldable pub load_balancer_type_of : Adapter → String → Dict String → Result Error String
unfolding has_key
load_balancer_type_of a scheme annotations =
    let t = requested_type a scheme (lookup load_balancer_type_annotation annotations) in
    if t == load_balancer_type_nlb
      && (has_key security_group_annotation annotations
          || has_key waf_web_acl_id_annotation annotations)
    then (if has_key load_balancer_type_annotation annotations
        then err not_supported_by_nlb
        else ok (aws_type a load_balancer_type_alb))
    else ok (aws_type a t)

abbrev is_empty : List String → Bool
is_empty [] = true
is_empty (h ∷ hs) = false

-- the fields of the result, with the load balancer's type
unfoldable pub ingress_of : Adapter → String → Metadata → String → List String → String → Ingress
unfolding scheme_of ssl_policy_of get_annotations_string lookup
ingress_of a typ metadata host hostnames lb_type =
    let annotations = metadata.annotations in
    let (ssl_policy, has_ssl_policy_annotation) = ssl_policy_of a annotations in
    record {
      resource_type = typ;
      namespace = metadata.namespace;
      name = metadata.name;
      shared = not (get_annotations_string annotations shared_annotation "" == "false");
      http2 = not (get_annotations_string annotations http2_annotation "" == "false");
      cluster_local = is_empty hostnames;
      certificate_arn = get_annotations_string annotations certificate_arn_annotation "";
      hostname = host;
      scheme = scheme_of annotations;
      security_group =
          or_default a.ingress_default_security_group
            (lookup security_group_annotation annotations);
      ssl_policy = ssl_policy;
      has_ssl_policy_annotation = has_ssl_policy_annotation;
      ip_address_type =
          get_annotations_string annotations ip_address_type_annotation a.ingress_ip_address_type;
      load_balancer_type = lb_type;
      waf_web_acl_id = or_default "" (lookup waf_web_acl_id_annotation annotations);
      hostnames = hostnames;
    }

unfoldable pub new_ingress :
    Adapter → String → Metadata → String → List String → Result Error Ingress
new_ingress a typ metadata host hostnames = do
  lb_type ← load_balancer_type_of a (scheme_of metadata.annotations) metadata.annotations
  ok (ingress_of a typ metadata host hostnames lb_type)

-- the first host name that is not empty
unfoldable pub first_hostname : List String → String
first_hostname [] = ""
first_hostname (h ∷ hs) = if h == "" then first_hostname hs else h

-- the hosts that are not empty and not in the cluster's own domain
unfoldable pub external_hosts : Adapter → List String → List String
unfolding has_suffix
external_hosts a = keep (λ h.
    not (h == "") && (a.cluster_local_domain == "" || not (has_suffix h a.cluster_local_domain)))

unfoldable pub new_ingress_from_kube : Adapter → KubeIngress → Result Error Ingress
new_ingress_from_kube a i =
    new_ingress a type_ingress i.metadata (first_hostname i.status_hostnames)
      (external_hosts a i.rule_hosts)

unfoldable pub new_ingress_from_route_group : Adapter → RouteGroup → Result Error Ingress
new_ingress_from_route_group a rg =
    new_ingress a type_route_group rg.metadata (first_hostname rg.status_hostnames)
      (external_hosts a rg.hosts)
