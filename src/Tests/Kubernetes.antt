-- ===== src/Tests/Kubernetes.antt =====
-- The resources on concrete inputs.
use kube_ingress_aws_control.Prelude.{
  String, ◌≡◌, ◌≢◌, ◌↔◌, ◌⊎◌, inr, refl, true, some, List, [], ◌∷◌, In, ok, err,
}
use kube_ingress_aws_control.Prelude.Dict.{lookup, has_key}
use kube_ingress_aws_control.Aws.{load_balancer_type_application, load_balancer_type_network}
use kube_ingress_aws_control.Kubernetes.{
  Adapter, Error, resource_not_found, Ingress, Metadata, KubeIngress, RouteGroup, type_ingress,
  load_balancer_type_alb, load_balancer_type_nlb, new_adapter,
}
use kube_ingress_aws_control.Kubernetes.NewIngress.{
  new_ingress, new_ingress_from_kube, new_ingress_from_route_group, ingress_of,
  load_balancer_type_of, requested_type, aws_type, first_hostname, external_hosts,
  waf_web_acl_id_annotation, load_balancer_type_annotation,
}
use kube_ingress_aws_control.Kubernetes.NewIngress.LoadBalancerType.{
  NeedsAlb, new_ingress-refused, new_ingress_type, new_ingress-network,
}
use kube_ingress_aws_control.Kubernetes.Listing.{
  list_ingress, list_routegroups, list_resources, supported_ingress, supported_crd, convert_items,
  supported_ingress_class,
}
use kube_ingress_aws_control.Kubernetes.Listing.Members.{
  Converted, list_ingress-exact, list_routegroups-exact,
}
use kube_ingress_aws_control.Kubernetes.Listing.Degrading.{
  Call, after, Listed, list_resources-Degrades,
}

listing : Unit {0}
unfolding new_adapter new_ingress_from_kube new_ingress_from_route_group list_resources new_ingress
    ingress_of lookup has_key list_ingress supported_ingress load_balancer_type_of requested_type
    aws_type first_hostname external_hosts convert_items supported_ingress_class
listing = tt

abbrev adapter : Adapter
adapter = record {
  ingress_filters = "skipper" ∷ [];
  ingress_default_security_group = "sg-1";
  ingress_default_ssl_policy = "ELBSecurityPolicy-2016-08";
  ingress_default_load_balancer_type = load_balancer_type_nlb;
  ingress_ip_address_type = "ipv4";
  cluster_local_domain = ".cluster.local";
  route_group_support = true;
}

abbrev guarded : Metadata
guarded = record {
  namespace = "default";
  name = "shop";
  annotations = (waf_web_acl_id_annotation, "acl") ∷ [];
}

abbrev refused : Metadata
refused = record {
  namespace = "default";
  name = "bad";
  annotations = (waf_web_acl_id_annotation, "acl") ∷ (load_balancer_type_annotation, "nlb") ∷ [];
}

abbrev shop : Ingress
shop = ingress_of adapter type_ingress guarded "lb" ("shop.org" ∷ []) load_balancer_type_application

new_ingress-refused_example :
    ((x : Error) × (new_ingress adapter type_ingress refused "lb" [] ≡ err x)) ↔ (
      (lookup load_balancer_type_annotation refused.annotations ≡ some load_balancer_type_nlb)
      × NeedsAlb refused.annotations)
new_ingress-refused_example = new_ingress-refused adapter type_ingress refused "lb" []

new_ingress_type_example :
    (shop.load_balancer_type ≡ load_balancer_type_application)
    ⊎ (shop.load_balancer_type ≡ load_balancer_type_network)
unfolding listing
new_ingress_type_example =
    new_ingress_type adapter type_ingress guarded "lb" ("shop.org" ∷ []) shop (inr refl) refl

new_ingress-network_example : (shop.load_balancer_type ≡ load_balancer_type_network) ↔ (
    (u : String) × (lookup load_balancer_type_annotation guarded.annotations ≡ some u)
    × (u ≢ load_balancer_type_alb))
unfolding listing
new_ingress-network_example =
    new_ingress-network adapter type_ingress guarded "lb" ("shop.org" ∷ []) shop refl (inr refl)
      refl

abbrev item : Metadata → KubeIngress
item metadata = record {
  metadata = metadata;
  rule_hosts = "shop.org" ∷ "shop.cluster.local" ∷ [];
  ingress_class_name = "skipper";
  status_hostnames = "" ∷ "lb" ∷ [];
}

abbrev items : List KubeIngress
items = item refused ∷ item guarded ∷ []

abbrev group : RouteGroup
group = record { metadata = guarded; hosts = "shop.org" ∷ []; status_hostnames = [] }

list_ingress-exact_example :
    (is' : List Ingress) × (list_ingress adapter (ok items) ≡ ok is')
    × ((i : Ingress)
        → In i is' ↔ Converted (supported_ingress adapter) (new_ingress_from_kube adapter) i items)
list_ingress-exact_example = list_ingress-exact adapter items

-- The refused item is left out, and the host inside the cluster too.
list_ingress_test : list_ingress adapter (ok items) ≡ ok (shop ∷ [])
unfolding listing
list_ingress_test = refl

list_routegroups-exact_example :
    (is' : List Ingress) × (list_routegroups adapter (ok (group ∷ [])) ≡ ok is')
    × ((i : Ingress)
        → In i is'
          ↔ Converted
              (λ rg. supported_crd adapter rg.metadata)
              (new_ingress_from_route_group adapter)
              i
              (group ∷ []))
list_routegroups-exact_example = list_routegroups-exact adapter (group ∷ [])

-- The first call is told that there are no route groups, the second may read them.
abbrev calls : List Call
calls = (ok items, err resource_not_found) ∷ (ok [], ok (group ∷ [])) ∷ []

list_resources-Degrades_example :
    Listed adapter calls
      (ok items)
      (ok (group ∷ []))
      (list_resources (after adapter calls) (ok items) (ok (group ∷ []))).1
list_resources-Degrades_example = list_resources-Degrades adapter calls (ok items) (ok (group ∷ []))
