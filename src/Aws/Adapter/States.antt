-- ===== src/Aws/Adapter/States.antt =====
-- aws/adapter.go: the states of the load balancers of stacks (GetStackLBStates).
pub mod Exact
use kube_ingress_aws_control.Prelude.{
  String, not, Option, none, some, List, ◌==◌, map, keep, Result, ok, err, if◌then◌else◌,
}
use kube_ingress_aws_control.Prelude.Dict.{Dict, lookup}
use kube_ingress_aws_control.Aws.Asg.{AwsError}
use kube_ingress_aws_control.Aws.Ec2.{AdapterError, wrapped}
use kube_ingress_aws_control.Aws.Stack.{Stack}
use kube_ingress_aws_control.Aws.LoadBalancer.{LoadBalancerState, StackLbState}
use kube_ingress_aws_control.Aws.LoadBalancer.States.{LbReply, get_load_balancer_states}

-- a load balancer that is not in the map has no state, like one whose state is nil
abbrev pub found_state : Option (Option LoadBalancerState) → Option LoadBalancerState
found_state none = none
found_state (some lbstate) = lbstate

unfoldable pub stack_lb_state : Dict (Option LoadBalancerState) → Stack → StackLbState
unfolding lookup
stack_lb_state lbs stack = record {
  stack = stack;
  lb_state =
      if stack.load_balancer_arn == ""
      then none
      else found_state (lookup stack.load_balancer_arn lbs);
}

-- lbARNs
abbrev pub lb_arns : List Stack → List String
lb_arns stacks = map (λ s. s.load_balancer_arn) (keep (λ s. not (s.load_balancer_arn == "")) stacks)

abbrev pub with_states :
    List Stack
    → Option (Result AwsError (Dict (Option LoadBalancerState)))
    → Option (Result AdapterError (List StackLbState))
with_states stacks none = none
with_states stacks (some (err e)) = some (err (wrapped "failed to get load balancer states" e))
with_states stacks (some (ok lbs)) = some (ok (map (stack_lb_state lbs) stacks))

-- `describe` is DescribeLoadBalancers; `none` if the loop's fuel ran out.
unfoldable pub get_stack_lb_states :
    (List String → Result AwsError (List LbReply))
    → List Stack
    → Option (Result AdapterError (List StackLbState))
unfolding get_load_balancer_states stack_lb_state
get_stack_lb_states describe stacks =
    with_states stacks (get_load_balancer_states describe (lb_arns stacks))
