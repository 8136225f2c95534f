-- ===== src/Aws/Adapter/Subnets.antt =====
-- aws/adapter.go: the subnets of a load balancer (FindLBSubnets), one for each availability zone.
pub mod Chosen
pub mod Exact
use kube_ingress_aws_control.Prelude.{
  String, Bool, true, false, not, ◌&&◌, ◌||◌, Option, none, some, List, [], ◌∷◌, map, ◌==◌, before,
  same_bool, sort_strings, if◌then◌else◌,
}
use kube_ingress_aws_control.Prelude.Dict.{Dict, lookup, insert, has_key}
use kube_ingress_aws_control.Aws.{scheme_internal}
use kube_ingress_aws_control.Aws.Ec2.{elb_role_tag_name, internal_elb_role_tag_name}
use kube_ingress_aws_control.Aws.Ec2.Subnets.{SubnetDetails}
use kube_ingress_aws_control.Aws.Adapter.{Adapter}

-- The subnet serves a load balancer: a public one for one that faces the internet.
abbrev pub serves : Bool → SubnetDetails → Bool
serves internal subnet = internal || subnet.public

abbrev pub role_tag_name : Bool → String
role_tag_name internal = if internal then internal_elb_role_tag_name else elb_role_tag_name

-- The subnet takes the place of the one that is there: it alone has the role's tag, or both or
-- neither have it and its identifier comes first.
unfoldable pub replaces : String → SubnetDetails → SubnetDetails → Bool
unfolding has_key
replaces tag_name existing subnet =
    let existing_has_tag = has_key tag_name existing.tags in
    let subnet_has_tag = has_key tag_name subnet.tags in
    if not (same_bool existing_has_tag subnet_has_tag)
    then subnet_has_tag
    else before subnet.id existing.id

-- what one subnet changes, by the one that is there for its zone
abbrev pub consider :
    String → SubnetDetails → Dict SubnetDetails → Option SubnetDetails → Dict SubnetDetails
consider tag_name subnet m none = insert subnet.availability_zone subnet m
consider tag_name subnet m (some existing) =
    if replaces tag_name existing subnet then insert subnet.availability_zone subnet m else m

-- the loop over the subnets, with subnetsByAZ
unfoldable pub by_az : Bool → Dict SubnetDetails → List SubnetDetails → Dict SubnetDetails
unfolding replaces lookup insert
by_az internal m [] = m
by_az internal m (subnet ∷ subnets) =
    by_az internal
      (if serves internal subnet
        then consider (role_tag_name internal) subnet m (lookup subnet.availability_zone m)
        else m)
      subnets

unfoldable pub find_lb_subnets : Adapter → String → List String
unfolding by_az sort_strings
find_lb_subnets a scheme =
    sort_strings (map (λ e. e.1.id) (by_az (scheme == scheme_internal) [] a.manifest.subnets))
