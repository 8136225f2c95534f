-- ===== src/Aws/Ec2.antt =====
-- aws/ec2.go: instances, subnets and security groups. The EC2 API is a record of calls that only
-- read; aws.ToString is applied to the fields of its replies.
pub mod Subnets
use kube_ingress_aws_control.Prelude.{
  ℕ, ◌%◌, String, Bool, true, false, ◌&&◌, Option, none, some, List, [], ◌∷◌, ◌++◌, map, ◌==◌, eqb,
  has_prefix, trim_prefix, Result, ok, err, ◌>>=◌, if◌then◌else◌,
}
use Prim.Native.String
use kube_ingress_aws_control.Prelude.Dict.{Dict, lookup, insert, or_default}
use kube_ingress_aws_control.Aws.{
  cluster_id_tag_prefix, resource_lifecycle_owned, kubernetes_creator_tag,
}
use kube_ingress_aws_control.Aws.Asg.{AwsError, all_pages}
use kube_ingress_aws_control.Aws.Stack.{to_map_from}

abbrev pub default_cluster_id : String
default_cluster_id = "unknown-cluster"

abbrev pub kubernetes_cluster_legacy_tag : String
kubernetes_cluster_legacy_tag = "KubernetesCluster"

abbrev pub auto_scaling_group_name_tag : String
auto_scaling_group_name_tag = "aws:autoscaling:groupName"

abbrev pub running_state : ℕ
running_state = 16

abbrev pub elb_role_tag_name : String
elb_role_tag_name = "kubernetes.io/role/elb"

abbrev pub internal_elb_role_tag_name : String
internal_elb_role_tag_name = "kubernetes.io/role/internal-elb"

abbrev pub kubernetes_node_role_tag : String
kubernetes_node_role_tag = "k8s.io/role/node"

-- The errors of ec2.go and adapter.go; those of the API are wrapped with the text of the message.
pub data AdapterError : Type 0 where
  wrapped : String → AwsError → AdapterError
  missing_name_tag missing_tag missing_auto_scaling_group_tag : AdapterError
  no_running_instances no_subnets no_security_group : AdapterError
  no_routing_table : String → AdapterError
  invalid_ssl_policy : String → AdapterError

-- An error of the API, with the message around it.
abbrev pub wrap {ℓ} : {A : Type ℓ} → String → Result AwsError A → Result AdapterError A
wrap message (err e) = err (wrapped message e)
wrap message (ok a) = ok a

-- types.Filter
pub record Filter : Type 0 where
  pub name : String
  pub values : List String

-- types.Instance; the code of the state as its 32 bits
pub record Instance : Type 0 where
  pub instance_id : String
  pub private_ip_address : String
  pub vpc_id : String
  pub tags : List (String × String)
  pub state_code : ℕ

-- types.Subnet
pub record Subnet : Type 0 where
  pub availability_zone : String
  pub subnet_id : String
  pub tags : List (String × String)

-- types.RouteTableAssociation
pub record Association : Type 0 where
  pub subnet_id : String
  pub main : Bool

-- types.RouteTable, its routes by their gateways
pub record RouteTable : Type 0 where
  pub associations : List Association
  pub gateway_ids : List String

pub record SecurityGroupDetails : Type 0 where
  pub name : String
  pub id : String

-- EC2API; the instances come by reservation, and also by page
pub record Ec2Api : Type 0 where
  pub describe_instances : List Filter → Result AwsError (List (List Instance))
  pub instance_pages : List Filter → List (Result AwsError (List (List Instance)))
  pub describe_subnets : List Filter → Result AwsError (List Subnet)
  pub describe_route_tables : List Filter → Result AwsError (List RouteTable)
  pub describe_security_groups : List Filter → Result AwsError (List SecurityGroupDetails)

pub record InstanceDetails : Type 0 where
  pub id : String
  pub ip : String
  pub vpc_id : String
  pub tags : Dict String
  pub running : Bool

-- the first loop of clusterID: a tag that says who owns the instance
unfoldable pub owned_cluster : Dict String → Option String
unfolding has_prefix trim_prefix
owned_cluster [] = none
owned_cluster ((name, value) ∷ tags) =
    if has_prefix name cluster_id_tag_prefix && value == resource_lifecycle_owned
    then some (trim_prefix name cluster_id_tag_prefix)
    else owned_cluster tags

abbrev or_else : Option String → Option String → Option String
or_else none o = o
or_else (some s) o = some s

unfoldable pub cluster_id : InstanceDetails → String
unfolding owned_cluster lookup
cluster_id id =
    or_default default_cluster_id
      (or_else (owned_cluster id.tags) (lookup kubernetes_cluster_legacy_tag id.tags))

abbrev group_name : Option String → Result AdapterError String
group_name none = err missing_auto_scaling_group_tag
group_name (some asg) = if asg == "" then err missing_auto_scaling_group_tag else ok asg

-- An empty map has no such key either.
unfoldable pub get_auto_scaling_group_name : Dict String → Result AdapterError String
unfolding lookup
get_auto_scaling_group_name instance_tags =
    group_name (lookup auto_scaling_group_name_tag instance_tags)

-- The low byte of the code is the state.
unfoldable pub is_instance_running : ℕ → Bool
is_instance_running code = eqb (code % 256) running_state

unfoldable pub convert_ec2_tags : List (String × String) → Dict String
unfolding to_map_from
convert_ec2_tags = to_map_from []

unfoldable pub instance_details_of : Instance → InstanceDetails
unfolding convert_ec2_tags is_instance_running
instance_details_of i = record {
  id = i.instance_id;
  ip = i.private_ip_address;
  vpc_id = i.vpc_id;
  tags = convert_ec2_tags i.tags;
  running = is_instance_running i.state_code;
}

abbrev flat {ℓ} : {A : Type ℓ} → List (List A) → List A
flat [] = []
flat (l ∷ ls) = l ++ flat ls

abbrev first_running : List Instance → Result AdapterError Instance
first_running [] = err no_running_instances
first_running (i ∷ is) = if is_instance_running i.state_code then ok i else first_running is

unfoldable pub find_first_running_instance : List (List Instance) → Result AdapterError Instance
unfolding is_instance_running
find_first_running_instance reservations = first_running (flat reservations)

unfoldable pub get_instance_details : Ec2Api → String → Result AdapterError InstanceDetails
unfolding find_first_running_instance instance_details_of
get_instance_details ec2 instance_id =
    wrap "unable to get details for instance"
      (ec2.describe_instances (record { name = "instance-id"; values = instance_id ∷ [] } ∷ []))
    >>= λ resp. find_first_running_instance resp >>= λ i. ok (instance_details_of i)

-- result[id] = details, for the instances in order
unfoldable pub by_id : Dict InstanceDetails → List Instance → Dict InstanceDetails
unfolding insert instance_details_of
by_id m [] = m
by_id m (i ∷ is) = by_id (insert i.instance_id (instance_details_of i) m) is

unfoldable pub get_instances_details_with_filters :
    Ec2Api → List Filter → Result AdapterError (Dict InstanceDetails)
unfolding all_pages by_id
get_instances_details_with_filters ec2 filters =
    wrap "failed getting instance list from EC2" (all_pages (ec2.instance_pages filters))
    >>= λ reservations. ok (by_id [] (flat reservations))

abbrev first_group : List SecurityGroupDetails → Result AdapterError SecurityGroupDetails
first_group [] = err no_security_group
first_group (sg ∷ sgs) = ok sg

unfoldable pub find_security_group_with_cluster_id :
    Ec2Api → String → String → Result AdapterError SecurityGroupDetails
find_security_group_with_cluster_id svc cluster controller_id =
    wrap "" (
      svc.describe_security_groups (
        record {
          name = String.◌++◌ "tag:" (String.◌++◌ cluster_id_tag_prefix cluster);
          values = resource_lifecycle_owned ∷ [];
        }
        ∷ record { name = String.◌++◌ "tag:" kubernetes_creator_tag; values = controller_id ∷ [] }
        ∷ []))
    >>= first_group
