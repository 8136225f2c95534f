-- ===== src/Aws/LoadBalancer/States.antt =====
-- aws/elbv2.go: the states of load balancers, asked for in requests of at most twenty names
-- (getLoadBalancerStates).
use kube_ingress_aws_control.Prelude.{String, Option, none, some, List, [], ◌∷◌, Result, ok, err}
use kube_ingress_aws_control.Prelude.Dict.{Dict, insert}
use kube_ingress_aws_control.Aws.Asg.{AwsError}
use kube_ingress_aws_control.Aws.Asg.Chunks.{process_chunked}
use kube_ingress_aws_control.Aws.LoadBalancer.{LoadBalancerState}

-- A load balancer of the reply: its name, and its state if it has one.
abbrev pub LbReply : Type 0
LbReply = String × Option LoadBalancerState

unfoldable pub add_states :
    Dict (Option LoadBalancerState) → List LbReply → Dict (Option LoadBalancerState)
unfolding insert
add_states m [] = m
add_states m ((arn, state) ∷ lbs) = add_states (insert arn state m) lbs

abbrev pub with_answer :
    Result AwsError (List LbReply)
    → Dict (Option LoadBalancerState)
    → Dict (Option LoadBalancerState) × Option AwsError
with_answer (ok lbs) m = (add_states m lbs, none)
with_answer (err e) m = (m, some e)

-- The answer to one request. The loop of the source is that of processChunked, and the map so far
-- is its state.
unfoldable pub describe_chunk :
    (List String → Result AwsError (List LbReply))
    → List String
    → Dict (Option LoadBalancerState)
    → Dict (Option LoadBalancerState) × Option AwsError
unfolding add_states
describe_chunk describe chunk = with_answer (describe chunk)

abbrev pub result_of :
    Dict (Option LoadBalancerState) × Option AwsError
    → Result AwsError (Dict (Option LoadBalancerState))
result_of (m, none) = ok m
result_of (m, some e) = err e

abbrev pub finished :
    Option (Dict (Option LoadBalancerState) × Option AwsError)
    → Option (Result AwsError (Dict (Option LoadBalancerState)))
finished none = none
finished (some r) = some (result_of r)

-- `none` if the loop's fuel ran out.
unfoldable pub get_load_balancer_states :
    (List String → Result AwsError (List LbReply))
    → List String
    → Option (Result AwsError (Dict (Option LoadBalancerState)))
unfolding process_chunked describe_chunk
get_load_balancer_states describe arns =
    finished (process_chunked arns 20 (describe_chunk describe) [])
