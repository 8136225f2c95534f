-- ===== src/Kubernetes/Listing.antt =====
-- kubernetes/adapter.go: which resources are listed, and the update of their status. The API server
-- is a parameter: its answers to the list calls, and its patch calls as changes of its state.
pub mod Members
pub mod Degrading
use kube_ingress_aws_control.Prelude.{
  String, Bool, true, false, not, ◌&&◌, ◌||◌, Option, none, some, List, [], ◌∷◌, ◌++◌, ◌==◌, any,
  Result, ok, err, ◌>>=◌, if◌then◌else◌,
}
use kube_ingress_aws_control.Prelude.Dict.{Dict}
use kube_ingress_aws_control.Kubernetes.{
  Error, Ingress, Metadata, KubeIngress, RouteGroup, Adapter, invalid_ingress_update_params,
  update_not_needed, resource_not_found, no_permission_to_access_resource, unknown_resource_type,
  type_ingress, type_route_group, default_cluster_local_domain, get_annotations_string,
  get_ingress_class_name,
}
use kube_ingress_aws_control.Kubernetes.NewIngress.{
  new_ingress_from_kube, new_ingress_from_route_group,
}

abbrev pub ingress_class_annotation : String
ingress_class_annotation = "kubernetes.io/ingress.class"

unfoldable pub supported_ingress_class : Adapter → String → Bool
supported_ingress_class a ingress_class = any (λ v. v == ingress_class) a.ingress_filters

abbrev pub no_filters : List String → Bool
no_filters [] = true
no_filters (f ∷ fs) = false

unfoldable pub supported_crd : Adapter → Metadata → Bool
unfolding get_annotations_string
supported_crd a metadata =
    no_filters a.ingress_filters
    || supported_ingress_class a
        (get_annotations_string metadata.annotations ingress_class_annotation "")

unfoldable pub supported_ingress : Adapter → KubeIngress → Bool
unfolding get_annotations_string get_ingress_class_name
supported_ingress a ingress =
    let ingress_class = get_ingress_class_name ingress "" in
    no_filters a.ingress_filters
    || supported_ingress_class a (
        if ingress_class == ""
        then get_annotations_string ingress.metadata.annotations ingress_class_annotation ""
        else ingress_class)

-- the loop over the items: those that are supported and can be converted
unfoldable pub convert_items :
    {A : Type 0} → (A → Bool) → (A → Result Error Ingress) → List A → List Ingress
convert_items supported convert [] = []
convert_items supported convert (x ∷ xs) =
    let rest = convert_items supported convert xs in
    if supported x then add (convert x) rest else rest
  where
    add : Result Error Ingress → List Ingress → List Ingress
    add (ok i) rest = i ∷ rest
    add (err e) rest = rest

unfoldable pub list_ingress :
    Adapter → Result Error (List KubeIngress) → Result Error (List Ingress)
list_ingress a answer =
    answer >>= λ items. ok (convert_items (supported_ingress a) (new_ingress_from_kube a) items)

unfoldable pub list_routegroups :
    Adapter → Result Error (List RouteGroup) → Result Error (List Ingress)
list_routegroups a answer = answer >>= λ items.
    ok (convert_items (λ rg. supported_crd a rg.metadata) (new_ingress_from_route_group a) items)

-- The errors that turn the support for route groups off.
abbrev pub disables_route_groups : Error → Bool
disables_route_groups resource_not_found = true
disables_route_groups no_permission_to_access_resource = true
disables_route_groups _ = false

abbrev pub without_route_groups : Adapter → Adapter
without_route_groups a = record a { route_group_support = false }

abbrev pub with_routegroups :
    Adapter → List Ingress → Result Error (List Ingress) → Adapter × Result Error (List Ingress)
with_routegroups a ings (ok rgs) = (a, ok (ings ++ rgs))
with_routegroups a ings (err e) =
    if disables_route_groups e then (without_route_groups a, ok ings) else (a, err e)

-- ListResources: the adapter afterwards, and the result
unfoldable pub list_resources :
    Adapter
    → Result Error (List KubeIngress)
    → Result Error (List RouteGroup)
    → Adapter × Result Error (List Ingress)
list_resources a ingress_answer routegroup_answer = elim (list_ingress a ingress_answer) [
  | err e ↦ (a, err e)
  | ok ings ↦
      if a.route_group_support
      then with_routegroups a ings (list_routegroups a routegroup_answer)
      else (a, ok ings)
]

-- The patch calls of the API server, with namespace, name and host name.
pub record StatusApi (W : Type 0) : Type 0 where
  pub patch_ingress : String → String → String → W → W × Option Error
  pub patch_routegroup : String → String → String → W → W × Option Error

-- the host name that the status shall have
abbrev pub target_hostname : String → String
target_hostname dns_name = if dns_name == default_cluster_local_domain then "" else dns_name

module _ {W : Type 0} (api : StatusApi W) where
  -- the switch over the resource's type
  abbrev pub patch : Ingress → String → W → W × Option Error
  patch i hostname w =
      if i.resource_type == type_route_group
      then api.patch_routegroup i.namespace i.name hostname w
      else if i.resource_type == type_ingress
      then api.patch_ingress i.namespace i.name hostname w
      else (w, some (unknown_resource_type i.resource_type))

  unfoldable pub update_ingress_load_balancer : Ingress → String → W → W × Option Error
  update_ingress_load_balancer i dns_name w =
      if dns_name == ""
      then (w, some invalid_ingress_update_params)
      else if i.hostname == target_hostname dns_name
      then (w, some update_not_needed)
      else patch i (target_hostname dns_name) w
