-- ===== src/Kubernetes.antt =====
-- Package kubernetes: the resources as the API server lists them, and the controller's own view of
-- them (kubernetes/ingress.go, kubernetes/routegroup.go, kubernetes/adapter.go).
pub mod NewIngress
pub mod Listing
pub mod Pods
use kube_ingress_aws_control.Prelude.{
  String, Bool, true, false, Option, none, some, List, [], ◌∷◌, ◌==◌, if◌then◌else◌,
}
use kube_ingress_aws_control.Prelude.Dict.{Dict, lookup, or_default}
use kube_ingress_aws_control.Aws.{load_balancer_type_application, load_balancer_type_network}

abbrev pub type_ingress : String
type_ingress = "ingress"

abbrev pub type_route_group : String
type_route_group = "routegroup"

abbrev pub default_cluster_local_domain : String
default_cluster_local_domain = ".cluster.local"

abbrev pub load_balancer_type_nlb : String
load_balancer_type_nlb = "nlb"

abbrev pub load_balancer_type_alb : String
load_balancer_type_alb = "alb"

-- The errors of the package; `other` is an error of the API server, by its text.
pub data Error : Type 0 where
  invalid_ingress_update_params : Error
  update_not_needed : Error
  resource_not_found : Error
  no_permission_to_access_resource : Error
  not_supported_by_nlb : Error
  unknown_resource_type : String → Error
  other : String → Error

pub record Ingress : Type 0 where
  pub resource_type : String
  pub namespace : String
  pub name : String
  pub shared : Bool
  pub http2 : Bool
  pub cluster_local : Bool
  pub certificate_arn : String
  pub hostname : String
  pub scheme : String
  pub security_group : String
  pub ssl_policy : String
  pub has_ssl_policy_annotation : Bool
  pub ip_address_type : String
  pub load_balancer_type : String
  pub waf_web_acl_id : String
  pub hostnames : List String

-- kubeItemMetadata, the fields that are read
pub record Metadata : Type 0 where
  pub namespace : String
  pub name : String
  pub annotations : Dict String

-- ingress: its rules' hosts, and the host names of its status
pub record KubeIngress : Type 0 where
  pub metadata : Metadata
  pub rule_hosts : List String
  pub ingress_class_name : String
  pub status_hostnames : List String

pub record RouteGroup : Type 0 where
  pub metadata : Metadata
  pub hosts : List String
  pub status_hostnames : List String

pub record Adapter : Type 0 where
  pub ingress_filters : List String
  pub ingress_default_security_group : String
  pub ingress_default_ssl_policy : String
  pub ingress_default_load_balancer_type : String
  pub ingress_ip_address_type : String
  pub cluster_local_domain : String
  pub route_group_support : Bool

abbrev pub load_balancer_types_ingress_to_aws : Dict String
load_balancer_types_ingress_to_aws =
    (load_balancer_type_alb, load_balancer_type_application)
    ∷ (load_balancer_type_nlb, load_balancer_type_network)
    ∷ []

abbrev pub load_balancer_types_aws_to_ingress : Dict String
load_balancer_types_aws_to_ingress =
    (load_balancer_type_application, load_balancer_type_alb)
    ∷ (load_balancer_type_network, load_balancer_type_nlb)
    ∷ []

-- NewAdapter, without the HTTP client
unfoldable pub new_adapter : List String → String → String → String → String → String → Adapter
unfolding lookup
new_adapter class_filters security_group ssl_policy lb_type cluster_local_domain ip_address_type =
    record {
      ingress_filters = class_filters;
      ingress_default_security_group = security_group;
      ingress_default_ssl_policy = ssl_policy;
      ingress_default_load_balancer_type =
          or_default "" (lookup lb_type load_balancer_types_aws_to_ingress);
      ingress_ip_address_type = ip_address_type;
      cluster_local_domain = cluster_local_domain;
      route_group_support = true;
    }

unfoldable pub get_annotations_string : Dict String → String → String → String
unfolding lookup
get_annotations_string annotations key default_value =
    or_default default_value (lookup key annotations)

unfoldable pub get_ingress_class_name : KubeIngress → String → String
get_ingress_class_name ingress default_value =
    if ingress.ingress_class_name == "" then default_value else ingress.ingress_class_name
