-- ===== src/Aws/Ec2/Subnets.antt =====
-- aws/ec2.go: the subnets of the VPC and which of them are public (getSubnets, isSubnetPublic).
use kube_ingress_aws_control.Prelude.{
  String, Bool, Option, none, some, List, [], ◌∷◌, ◌==◌, any, keep, has_prefix, Result, ok, err,
  ◌>>=◌, if◌then◌else◌,
}
use Prim.Native.String
use kube_ingress_aws_control.Prelude.Dict.{Dict, has_key}
use kube_ingress_aws_control.Aws.{cluster_id_tag_prefix}
use kube_ingress_aws_control.Aws.Ec2.{
  AdapterError, no_routing_table, wrap, Subnet, Association, RouteTable, Ec2Api, convert_ec2_tags,
}

pub record SubnetDetails : Type 0 where
  pub id : String
  pub availability_zone : String
  pub tags : Dict String
  pub public : Bool

-- The loop over the tables: `break` leaves only the inner loop, so the last table that has such an
-- association counts.
unfoldable pub last_table :
    (Association → Bool) → Option RouteTable → List RouteTable → Option RouteTable
last_table p found [] = found
last_table p found (table ∷ rt) =
    last_table p (if any p table.associations then some table else found) rt

-- the table of the subnet, or the main one
abbrev pub or_main : List RouteTable → Option RouteTable → Option RouteTable
or_main rt none = last_table (λ assoc. assoc.main) none rt
or_main rt (some table) = some table

unfoldable pub subnet_table : List RouteTable → String → Option RouteTable
unfolding last_table
subnet_table rt subnet_id = or_main rt (last_table (λ assoc. assoc.subnet_id == subnet_id) none rt)

abbrev pub has_internet_gateway : String → Option RouteTable → Result AdapterError Bool
has_internet_gateway subnet_id none = err (no_routing_table subnet_id)
has_internet_gateway subnet_id (some table) = ok (any (λ g. has_prefix g "igw") table.gateway_ids)

unfoldable pub is_subnet_public : List RouteTable → String → Result AdapterError Bool
unfolding subnet_table has_prefix
is_subnet_public rt subnet_id = has_internet_gateway subnet_id (subnet_table rt subnet_id)

-- retAll, or the first error
unfoldable pub all_subnets :
    List RouteTable → List Subnet → Result AdapterError (List SubnetDetails)
all_subnets rt [] = ok []
all_subnets rt (sn ∷ sns) = is_subnet_public rt sn.subnet_id >>= λ is_public.
    all_subnets rt sns >>= λ rest. ok (
      record {
        id = sn.subnet_id;
        availability_zone = sn.availability_zone;
        tags = convert_ec2_tags sn.tags;
        public = is_public;
      }
      ∷ rest)

-- retFiltered, unless it is empty
abbrev pub or_all : List SubnetDetails → List SubnetDetails → List SubnetDetails
or_all [] all = all
or_all (d ∷ ds) all = d ∷ ds

abbrev pub is_tagged : String → SubnetDetails → Bool
is_tagged cluster_id d = has_key (String.◌++◌ cluster_id_tag_prefix cluster_id) d.tags

unfoldable pub get_subnets : Ec2Api → String → String → Result AdapterError (List SubnetDetails)
unfolding all_subnets is_subnet_public convert_ec2_tags has_key
get_subnets svc vpc_id cluster_id =
    wrap "" (svc.describe_subnets (record { name = "vpc-id"; values = vpc_id ∷ [] } ∷ []))
    >>= λ subnets.
        wrap "" (svc.describe_route_tables (record { name = "vpc-id"; values = vpc_id ∷ [] } ∷ []))
        >>= λ rt.
            all_subnets rt subnets >>= λ all. ok (or_all (keep (is_tagged cluster_id) all) all)
