-- ===== src/Aws/LoadBalancer/Targets.antt =====
-- aws/elbv2.go: targets registered on target groups and deregistered from them. The API is a record
-- of calls that take the state of the outside world and return the new one.
use kube_ingress_aws_control.Prelude.{String, Option, none, some, List, [], ◌∷◌, Result}
use kube_ingress_aws_control.Aws.Asg.{AwsError}

-- ELBV2API, the calls about targets; an answer about a group's health gives its targets' names
pub record TargetApi (W : Type 0) : Type 0 where
  pub register : String → List String → W → W × Option AwsError
  pub deregister : String → List String → W → W × Option AwsError
  pub describe_target_health : String → W → Result AwsError (List String)

module _ {W : Type 0} where
  -- what follows a call that did not fail
  abbrev pub and_then : W × Option AwsError → (W → W × Option AwsError) → W × Option AwsError
  and_then (w, none) next = next w
  and_then (w, some e) next = (w, some e)

  -- One call for each target group, up to the first that fails.
  unfoldable pub for_target_groups :
      (String → List String → W → W × Option AwsError)
      → List String
      → List String
      → W
      → W × Option AwsError
  for_target_groups call [] instances w = (w, none)
  for_target_groups call (arn ∷ arns) instances w =
      and_then (call arn instances w) (for_target_groups call arns instances)

  module _ (svc : TargetApi W) where
    unfoldable pub register_targets_on_target_groups :
        List String → List String → W → W × Option AwsError
    unfolding for_target_groups
    register_targets_on_target_groups = for_target_groups svc.register

    unfoldable pub deregister_targets_on_target_groups :
        List String → List String → W → W × Option AwsError
    unfolding for_target_groups
    deregister_targets_on_target_groups = for_target_groups svc.deregister
