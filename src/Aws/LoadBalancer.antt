-- ===== src/Aws/LoadBalancer.antt =====
-- aws/elbv2.go: the state of a load balancer, with the alarms of aws/cloudwatch.go passed on.
pub use kube_ingress_aws_control.Aws.CloudWatch.{Alarm}
pub mod Targets
pub mod States
unfoldable pub use kube_ingress_aws_control.Aws.CloudWatch.{hash}
use kube_ingress_aws_control.Prelude.{
  ◌-◌, String, Bool, false, Option, none, some, List, [], ◌∷◌, ◌==◌,
}
use kube_ingress_aws_control.Certs.{Time, Duration}
use kube_ingress_aws_control.Aws.Stack.{Stack}

-- the state code of an active load balancer
abbrev pub state_active : String
state_active = "active"

pub record LoadBalancerState : Type 0 where
  pub created_time : Time
  pub state_code : String
  pub reason : String

pub record StackLbState : Type 0 where
  pub stack : Stack
  pub lb_state : Option LoadBalancerState

unfoldable pub is_active : Option LoadBalancerState → Bool
is_active none = false
is_active (some ls) = ls.state_code == state_active

unfoldable pub state_code_string : Option LoadBalancerState → String
state_code_string none = "nil"
state_code_string (some ls) = ls.state_code

-- time.Since; a load balancer is not created after the clock is read
unfoldable pub age : Time → Option LoadBalancerState → Duration
age now none = 0
age now (some ls) = now - ls.created_time
