-- ===== src/Aws/Adapter/Cni.antt =====
-- aws/adapter.go: the targets of the target groups of the CNI mode (SetTargetsOnCNITargetGroups,
-- difference).
pub mod Difference
pub mod Reached
pub mod Exact
use kube_ingress_aws_control.Prelude.{
  String, not, Option, none, some, List, [], ◌∷◌, ◌==◌, any, keep, Result, ok, err,
}
use kube_ingress_aws_control.Aws.Asg.{AwsError}
use kube_ingress_aws_control.Aws.LoadBalancer.Targets.{
  TargetApi, and_then, register_targets_on_target_groups, deregister_targets_on_target_groups,
}

-- The elements of `a` that are not in `b`, whose elements are the keys of a map in the source.
unfoldable pub difference : List String → List String → List String
difference a b = keep (λ x. not (any (λ y. y == x) b)) a

module _ {W : Type 0} where
  -- a call that is left out if there is nothing to call for
  abbrev pub unless_empty : List String → (W → W × Option AwsError) → W → W × Option AwsError
  unless_empty [] call w = (w, none)
  unless_empty (x ∷ xs) call w = call w

  module _ (svc : TargetApi W) (endpoints : List String) where
    -- The body of the loop, with the answer of DescribeTargetHealth; without one the loop goes on.
    unfoldable pub set_targets : String → Result AwsError (List String) → W → W × Option AwsError
    unfolding difference register_targets_on_target_groups deregister_targets_on_target_groups
    set_targets arn (err e) w = (w, none)
    set_targets arn (ok registered_instances) w =
        and_then
          (unless_empty (difference endpoints registered_instances)
            (register_targets_on_target_groups svc (arn ∷ [])
              (difference endpoints registered_instances))
            w)
          (unless_empty (difference registered_instances endpoints) (
            deregister_targets_on_target_groups svc (arn ∷ [])
              (difference registered_instances endpoints)))

    unfoldable pub set_targets_on_cni_target_groups : List String → W → W × Option AwsError
    unfolding set_targets
    set_targets_on_cni_target_groups [] w = (w, none)
    set_targets_on_cni_target_groups (arn ∷ arns) w =
        and_then (set_targets arn (svc.describe_target_health arn w) w)
          (set_targets_on_cni_target_groups arns)
