-- ===== src/Aws/Asg/Targets.antt =====
-- aws/asg.go: updateTargetGroupsForAutoScalingGroup, which detaches target groups from a group and
-- attaches others, and describeTags.
pub mod Exact
use kube_ingress_aws_control.Prelude.{
  ℕ, String, Bool, true, false, not, ◌&&◌, Option, none, some, List, [], ◌∷◌, ◌++◌, keep, Result,
  ok, err,
}
use kube_ingress_aws_control.Prelude.Dict.{Dict}
use kube_ingress_aws_control.Aws.Asg.{
  AwsError, TagDescription, TargetGroup, describe_target_groups, in_str_slice, tg_has_tags,
}
use kube_ingress_aws_control.Aws.Asg.Chunks.{process_chunked}

-- AutoScalingAPI and ELBV2API, as far as the code calls them
pub record TargetGroupApi (W : Type 0) : Type 0 where
  pub describe_load_balancer_target_groups : String → W → Result AwsError (List String)
  pub target_group_pages : W → List (Result AwsError (List TargetGroup))
  pub describe_tags_of : W → List String → Result AwsError (List TagDescription)
  pub attach : String → List String → W → W × Option AwsError
  pub detach : String → List String → W → W × Option AwsError

-- the call on one chunk of describeTags, by its answer
abbrev pub with_descriptions :
    Result AwsError (List TagDescription)
    → List TagDescription
    → List TagDescription × Option AwsError
with_descriptions (ok ds) descs = (descs ++ ds, none)
with_descriptions (err e) descs = (descs, some e)

abbrev pub add_descriptions :
    (List String → Result AwsError (List TagDescription))
    → List String
    → List TagDescription
    → List TagDescription × Option AwsError
add_descriptions api chunk = with_descriptions (api chunk)

unfoldable pub describe_tags :
    (List String → Result AwsError (List TagDescription))
    → List String
    → Option (List TagDescription × Option AwsError)
unfolding process_chunked
describe_tags api arns = process_chunked arns 20 (add_descriptions api) []

-- detachARNs: the target groups that do not exist, and behind them those that the controller owns
-- and that are not asked for.
unfoldable pub detach_arns :
    List String → List TagDescription → Dict String → List String → List String → List String
detach_arns all_tgs descs owner_tags target_group_arns attached =
    keep (λ arn. not (in_str_slice arn all_tgs)) attached
    ++ keep (λ arn. tg_has_tags descs arn owner_tags && not (in_str_slice arn target_group_arns))
        (keep (λ arn. in_str_slice arn all_tgs) attached)

unfoldable pub attach_arns : List String → List String → List String
attach_arns all_tgs target_group_arns = keep (λ arn. in_str_slice arn all_tgs) target_group_arns

module _ {W : Type 0} where
  -- a loop of calls, which is left out if there is nothing to call for
  abbrev pub unless_empty :
      List String → Option (W × Option AwsError) → W → Option (W × Option AwsError)
  unless_empty [] r w = some (w, none)
  unless_empty (x ∷ xs) r w = r

  abbrev pub and_then :
      Option (W × Option AwsError)
      → (W → Option (W × Option AwsError))
      → Option (W × Option AwsError)
  and_then none next = none
  and_then (some (w, none)) next = next w
  and_then (some (w, some e)) next = some (w, some e)

  module _ (api : TargetGroupApi W) (name : String) where
    -- attachTargetGroupsToAutoScalingGroup and detachTargetGroupsFromAutoScalingGroup
    unfoldable pub attach_target_groups : List String → W → Option (W × Option AwsError)
    unfolding process_chunked
    attach_target_groups arns w = process_chunked arns 10 (api.attach name) w

    unfoldable pub detach_target_groups : List String → W → Option (W × Option AwsError)
    unfolding process_chunked
    detach_target_groups arns w = process_chunked arns 10 (api.detach name) w

    module _ (target_group_arns : List String) (owner_tags : Dict String) where
      -- what follows the answer of describeTags
      abbrev pub detach_described :
          List String
          → List String
          → Option (List TagDescription × Option AwsError)
          → W
          → Option (W × Option AwsError)
      detach_described all_tgs attached none w = none
      detach_described all_tgs attached (some (descs, some e)) w = some (w, some e)
      detach_described all_tgs attached (some (descs, none)) w =
          unless_empty (detach_arns all_tgs descs owner_tags target_group_arns attached)
            (detach_target_groups (detach_arns all_tgs descs owner_tags target_group_arns attached)
              w)
            w

      unfoldable pub detach_obsolete : List String → List String → W → Option (W × Option AwsError)
      detach_obsolete all_tgs [] w = some (w, none)
      detach_obsolete all_tgs (x ∷ xs) w =
          detach_described all_tgs (x ∷ xs)
            (describe_tags (api.describe_tags_of w)
              (keep (λ arn. in_str_slice arn all_tgs) (x ∷ xs)))
            w

      unfoldable pub attach_existing : List String → W → Option (W × Option AwsError)
      attach_existing all_tgs w =
          unless_empty (attach_arns all_tgs target_group_arns)
            (attach_target_groups (attach_arns all_tgs target_group_arns) w) w

      -- what follows the two answers that list the target groups
      abbrev pub update_described :
          Result AwsError (List String)
          → Result AwsError (List String)
          → W
          → Option (W × Option AwsError)
      update_described (err e) r w = some (w, some e)
      update_described (ok attached) (err e) w = some (w, some e)
      update_described (ok attached) (ok all_tgs) w =
          and_then (detach_obsolete all_tgs attached w) (attach_existing all_tgs)

      unfoldable pub update_target_groups_for_auto_scaling_group : W → Option (W × Option AwsError)
      update_target_groups_for_auto_scaling_group w =
          update_described (api.describe_load_balancer_target_groups name w)
            (describe_target_groups (api.target_group_pages w)) w
