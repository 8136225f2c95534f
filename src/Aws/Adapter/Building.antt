-- ===== src/Aws/Adapter/Building.antt =====
-- aws/adapter.go: the manifest, which says where the adapter runs (buildManifest, UpdateManifest).
use kube_ingress_aws_control.Prelude.{
  String, ◌||◌, Option, none, some, List, [], ◌∷◌, ◌==◌, Result, ok, err, ◌>>=◌, if◌then◌else◌,
}
use kube_ingress_aws_control.Aws.Asg.{AwsError}
use kube_ingress_aws_control.Aws.Ec2
use kube_ingress_aws_control.Aws.Ec2.{
  AdapterError, no_subnets, wrap, Ec2Api, InstanceDetails, get_instance_details,
  find_security_group_with_cluster_id,
}
use kube_ingress_aws_control.Aws.Ec2.Subnets.{SubnetDetails, get_subnets}
use kube_ingress_aws_control.Aws.Adapter.{Adapter, Manifest}
use kube_ingress_aws_control.Aws.Adapter.Filters.{parse_filters, parse_autoscale_filter_tags}

abbrev unless_empty : List SubnetDetails → Result AdapterError (List SubnetDetails)
unless_empty [] = err no_subnets
unless_empty (s ∷ ss) = ok (s ∷ ss)

-- The identifiers that are given count only if both are; else those of this instance are taken.
-- `metadata` is the text of the instance metadata service. In the source the details of the instance
-- are assigned to the variable of the enclosing function.
abbrev pub identify :
    Ec2Api
    → Result AwsError String
    → String
    → String
    → Result AdapterError (Option InstanceDetails × (String × String))
identify ec2 metadata cluster_id vpc_id =
    if cluster_id == "" || vpc_id == ""
    then (wrap "" metadata >>= λ my_id.
        get_instance_details ec2 my_id >>= λ i. ok (some i, (Ec2.cluster_id i, i.vpc_id)))
    else ok (none, (cluster_id, vpc_id))

module _ (ec2 : Ec2Api) (metadata : Result AwsError String)
    (custom_filter controller_id : String) where
  unfoldable pub build_manifest : String → String → Result AdapterError Manifest
  unfolding get_instance_details Ec2.cluster_id find_security_group_with_cluster_id get_subnets
      parse_filters parse_autoscale_filter_tags
  build_manifest cluster_id vpc_id = identify ec2 metadata cluster_id vpc_id >>= λ ids.
      find_security_group_with_cluster_id ec2 ids.1.0 controller_id >>= λ security_group.
      get_subnets ec2 ids.1.1 ids.1.0 >>= λ found. unless_empty found >>= λ subnets. ok (record {
        security_group = security_group;
        instance_details = ids.0;
        subnets = subnets;
        filters = parse_filters custom_filter ids.1.0;
        asg_filters = parse_autoscale_filter_tags custom_filter ids.1.0;
        cluster_id = ids.1.0;
        vpc_id = ids.1.1;
      })

-- The receiver with the new manifest, or the error, where the receiver stays as it was.
unfoldable pub update_manifest :
    Ec2Api → Result AwsError String → Adapter → String → String → Result AdapterError Adapter
unfolding build_manifest
update_manifest ec2 metadata a cluster_id vpc_id =
    build_manifest ec2 metadata a.custom_filter a.controller_id cluster_id vpc_id >>= λ m.
    ok (record a { manifest = m })
