-- ===== src/Aws.antt =====
-- Package aws: the names that its files share (aws/adapter.go, aws/ec2.go, aws/cf.go).
pub mod CloudWatch
pub mod StackSpec
pub mod Stack
pub mod LoadBalancer
pub mod Asg
pub mod Ec2
pub mod Naming
pub mod Template
pub mod Providers
pub mod Adapter
use kube_ingress_aws_control.Prelude.{String, List, [], ◌∷◌}

abbrev pub load_balancer_type_application : String
load_balancer_type_application = "application"

abbrev pub load_balancer_type_network : String
load_balancer_type_network = "network"

-- the scheme names of the Elastic Load Balancing API
abbrev pub scheme_internal : String
scheme_internal = "internal"

abbrev pub scheme_internet_facing : String
scheme_internet_facing = "internet-facing"

abbrev pub cluster_id_tag : String
cluster_id_tag = "ClusterID"

abbrev pub cluster_id_tag_prefix : String
cluster_id_tag_prefix = "kubernetes.io/cluster/"

abbrev pub resource_lifecycle_owned : String
resource_lifecycle_owned = "owned"

abbrev pub kubernetes_creator_tag : String
kubernetes_creator_tag = "kubernetes:application"

-- the keys of SSLPolicies
abbrev pub ssl_policies : List String
ssl_policies =
    "ELBSecurityPolicy-2016-08" ∷ "ELBSecurityPolicy-FS-2018-06"
    ∷ "ELBSecurityPolicy-TLS-1-2-2017-01" ∷ "ELBSecurityPolicy-TLS-1-2-Ext-2018-06"
    ∷ "ELBSecurityPolicy-TLS-1-1-2017-01" ∷ "ELBSecurityPolicy-2015-05"
    ∷ "ELBSecurityPolicy-TLS-1-0-2015-04" ∷ "ELBSecurityPolicy-FS-1-1-2019-08"
    ∷ "ELBSecurityPolicy-FS-1-2-2019-08" ∷ "ELBSecurityPolicy-FS-1-2-Res-2019-08"
    ∷ "ELBSecurityPolicy-FS-1-2-Res-2020-10" ∷ "ELBSecurityPolicy-TLS13-1-2-2021-06"
    ∷ "ELBSecurityPolicy-TLS13-1-2-Res-2021-06" ∷ "ELBSecurityPolicy-TLS13-1-2-Ext1-2021-06"
    ∷ "ELBSecurityPolicy-TLS13-1-2-Ext2-2021-06" ∷ "ELBSecurityPolicy-TLS13-1-1-2021-06"
    ∷ "ELBSecurityPolicy-TLS13-1-0-2021-06" ∷ "ELBSecurityPolicy-TLS13-1-3-2021-06" ∷ []
