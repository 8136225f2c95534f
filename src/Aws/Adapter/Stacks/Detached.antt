-- ===== src/Aws/Adapter/Stacks/Detached.antt =====
-- When a stack is deleted.
use kube_ingress_aws_control.Prelude.{
  ◌≤◌, String, ◌≡◌, refl, ◌⊎◌, inl, inr, subst, Option, none, some, List, [], ◌∷◌, ◌++◌, length,
  All,
}
use kube_ingress_aws_control.Prelude.Dict.{Dict}
use kube_ingress_aws_control.Aws.Asg.{AwsError, AutoScalingGroupDetails}
use kube_ingress_aws_control.Aws.Asg.Chunks.{process_chunked-Ends, process_chunked-Kept, Kept}
use kube_ingress_aws_control.Aws.Asg.Targets.{TargetGroupApi, detach_target_groups}
use kube_ingress_aws_control.Aws.Ec2.{AdapterError}
use kube_ingress_aws_control.Aws.Stack.{Stack}
use kube_ingress_aws_control.Aws.Stack.Spec.{CloudFormationApi}
use kube_ingress_aws_control.Aws.Stack.Spec
use kube_ingress_aws_control.Aws.Adapter.{Adapter}
use kube_ingress_aws_control.Aws.Adapter.Stacks.{detached, detach_and_delete, delete_stack}

module _ {W : Type 0} (groups : TargetGroupApi W) (api : CloudFormationApi AdapterError W)
    (Detached : String → List String → W → Type 0)
    (detached_none : (name : String) (w : W) → Detached name [] w)
    (detached_more : (name : String) (arns chunk : List String) (w : W)
      → Detached name arns w
      → length chunk ≤ 10
      → (groups.detach name chunk w).1 ≡ none
      → Detached name (arns ++ chunk) (groups.detach name chunk w).0)
    (detached_still : (name other : String) (arns chunk : List String) (w : W)
      → Detached other arns w
      → Detached other arns (groups.detach name chunk w).0) where
  -- What a run of the deletion is from `w` on: it asks for the deletion in a world `v` where all
  -- groups are detached, or it fails and asks for none. `Inv` is kept by every detachment.
  abbrev pub Outcome :
      (W → Type 0)
      → Stack
      → Dict AutoScalingGroupDetails
      → Option (W × Option AdapterError)
      → Type 0
  Outcome Inv stack asgs r =
      (p : W × Option AdapterError) × (r ≡ some p)
      × (((v : W) × Inv v
            × All (λ e. Detached e.1.name stack.target_group_arns v) asgs
            × (p ≡ Spec.delete_stack api stack.name v))
          ⊎ ((e : AdapterError) × (p.1 ≡ some e) × Inv p.0))

  detach-Ends :
      (Inv : W → Type 0)
      (step : (name : String) (chunk : List String) (w : W)
        → Inv w
        → Inv (groups.detach name chunk w).0)
      (name : String) (arns : List String) (w : W)
      → Inv w
      → (w' : W) × (o : Option AwsError) × (detach_target_groups groups name arns w ≡ some (w', o))
        × Inv w'
        × (o ≡ none → Detached name arns w')
  unfolding detach_target_groups
  detach-Ends Inv step name arns w p =
      let (w', o, e, f) =
        process_chunked-Ends (Detached name) 9 (groups.detach name)
          (λ ds chunk v d _ s q. detached_more name ds chunk v d s q) arns w
          (detached_none name w) in
      (
        w',
        o,
        e,
        subst (Kept Inv (groups.detach name) (step name)) e
            (process_chunked-Kept Inv (groups.detach name) (step name) arns 10 w p),
        f,
      )

  detach_and_delete-Outcome :
      (Inv : W → Type 0)
      (step : (name : String) (chunk : List String) (w : W)
        → Inv w
        → Inv (groups.detach name chunk w).0)
      (stack : Stack) (asgs : Dict AutoScalingGroupDetails) (w : W)
      → Inv w
      → Outcome Inv stack asgs (detach_and_delete groups api stack asgs w)
  unfolding detach_and_delete
  detach_and_delete-Outcome Inv step stack [] w p =
      (Spec.delete_stack api stack.name w, refl, inl (w, p, tt, refl))
  detach_and_delete-Outcome Inv step stack ((key, asg) ∷ asgs) w p =
      let (w', o, e, i, d) = detach-Ends Inv step asg.name stack.target_group_arns w p in
      rw e (
        after w' o i d (
          detach_and_delete-Outcome Both
            (λ name chunk v b. (
              step name chunk v b.0,
              detached_still name asg.name stack.target_group_arns chunk v b.1,
            ))
            stack asgs))
    where
      Both : W → Type 0
      Both v = Inv v × Detached asg.name stack.target_group_arns v

      weaken :
          (r : Option (W × Option AdapterError))
          → Outcome Both stack asgs r
          → Outcome Inv stack ((key, asg) ∷ asgs) r
      weaken r (q, e, inl (v, (i, d), ds, f)) = (q, e, inl (v, i, (d, ds), f))
      weaken r (q, e, inr (x, f, i)) = (q, e, inr (x, f, i.0))

      after :
          (w' : W) (o : Option AwsError)
          → Inv w'
          → (o ≡ none → Detached asg.name stack.target_group_arns w')
          → ((v : W) → Both v → Outcome Both stack asgs (detach_and_delete groups api stack asgs v))
          → Outcome Inv stack ((key, asg) ∷ asgs) (
              detached groups api asg.name (some (w', o)) (detach_and_delete groups api stack asgs))
      after w' none i d ih = weaken (detach_and_delete groups api stack asgs w') (ih w' (i, d refl))
      after w' (some x) i d ih = ((w', some _), refl, inr (_, refl, i))

  -- The deletion of a stack ends. Either it asks for the stack's deletion, and that in a world
  -- where the stack's target groups are detached from each targeted Auto Scaling group; or it fails
  -- and asks for no deletion, so that what every detachment keeps still holds.
  pub delete_stack-Outcome :
      (Inv : W → Type 0)
      (step : (name : String) (chunk : List String) (w : W)
        → Inv w
        → Inv (groups.detach name chunk w).0)
      (a : Adapter) (stack : Stack) (w : W)
      → Inv w
      → Outcome Inv stack a.targeted_auto_scaling_groups (delete_stack groups api a stack w)
  unfolding delete_stack
  delete_stack-Outcome Inv step a stack w p =
      detach_and_delete-Outcome Inv step stack a.targeted_auto_scaling_groups w p
