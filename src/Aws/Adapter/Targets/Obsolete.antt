-- ===== src/Aws/Adapter/Targets/Obsolete.antt =====
-- When the adapter forgets an instance that it has to deregister.
use kube_ingress_aws_control.Prelude.{
  String, ◌≡◌, refl, ◌⊎◌, inl, inr, subst, Option, none, some, List, [], ◌∷◌, ◌++◌, Result, ok, err,
  All, In, Bool-cases, In-append_right,
}
use kube_ingress_aws_control.Prelude.Dict.{Dict, lookup}
use kube_ingress_aws_control.Aws.Stack.{Stack}
use kube_ingress_aws_control.Aws.Asg.{
  AwsError, AutoScalingGroupDetails, categorize_target_type_instance,
}
use kube_ingress_aws_control.Aws.Asg.Targets.{TargetGroupApi}
use kube_ingress_aws_control.Aws.Asg.Targets.Exact.{update_target_groups-exact}
use kube_ingress_aws_control.Aws.LoadBalancer.Targets.{
  TargetApi, and_then, for_target_groups, deregister_targets_on_target_groups,
}
use kube_ingress_aws_control.Aws.Adapter.{Adapter, running_single_instances, target_type_ip}
use kube_ingress_aws_control.Aws.Adapter.Cni.{difference}
use kube_ingress_aws_control.Aws.Adapter.Instances.{non_targeted_asgs}
use kube_ingress_aws_control.Aws.Adapter.Targets.{
  TargetProblem, all_target_group_arns, ip_target_groups, owner_tags_of, send_target_groups,
  categorize_failed, targeted_group_failed, non_targeted_group_failed, noted, Run, update_groups,
  register_running, deregistered, unless_no_instances, deregister_obsolete, update_targets,
  update_categorized, update_target_groups_and_auto_scaling_groups,
}

module _ {W : Type 0} (groups : TargetGroupApi W) (svc : TargetApi W) where
  -- A loop over Auto Scaling groups ends.
  update_groups_total :
      (problem : String → AwsError → TargetProblem) (arns : List String) (owner_tags : Dict String)
      (asgs : Dict AutoScalingGroupDetails) (run : Run groups svc)
      → (run' : Run groups svc) × (update_groups groups svc problem arns owner_tags asgs run
          ≡ some run')
  unfolding update_groups
  update_groups_total problem arns owner_tags [] (w, ps) = ((w, ps), refl)
  update_groups_total problem arns owner_tags ((key, asg) ∷ asgs) (w, ps) =
      let (w', o, e, _) =
        update_target_groups-exact groups asg.name (λ _ _ _. Unit) (λ _ _ _ _ _ _. tt)
          (λ _ _ _ _ _ _ _. tt) arns owner_tags w tt in
      rw e (update_groups_total problem arns owner_tags asgs (w', ps ++ noted (problem asg.name) o))

  module _ (Gone : List String → String → W → Type 0)
      (deregister_step : (ids : List String) (arn : String) (w : W)
        → (svc.deregister arn ids w).1 ≡ none
        → Gone ids arn (svc.deregister arn ids w).0)
      (deregister_still : (ids ids' : List String) (arn arn' : String) (w : W)
        → Gone ids arn w
        → Gone ids arn (svc.deregister arn' ids' w).0) where
    for_groups_still :
        (ids ids' : List String) (arn : String) (arns : List String) (w : W)
        → Gone ids arn w
        → Gone ids arn (for_target_groups svc.deregister arns ids' w).0
    unfolding for_target_groups
    for_groups_still ids ids' arn [] w g = g
    for_groups_still ids ids' arn (b ∷ arns) w g =
        next (svc.deregister b ids' w) (deregister_still ids ids' arn b w g)
          (for_groups_still ids ids' arn arns)
      where
        next :
            (r : W × Option AwsError)
            → Gone ids arn r.0
            → ((v : W)
                → Gone ids arn v
                → Gone ids arn (for_target_groups svc.deregister arns ids' v).0)
            → Gone ids arn (and_then r (for_target_groups svc.deregister arns ids')).0
        next (v, none) g ih = ih v g
        next (v, some e) g ih = g

    for_groups-Gone :
        (ids arns : List String) (w : W)
        → (for_target_groups svc.deregister arns ids w).1 ≡ none
        → All (λ arn. Gone ids arn (for_target_groups svc.deregister arns ids w).0) arns
    unfolding for_target_groups
    for_groups-Gone ids [] w e = tt
    for_groups-Gone ids (b ∷ arns) w e =
        next (svc.deregister b ids w) (deregister_step ids b w) (for_groups-Gone ids arns) e
      where
        next :
            (r : W × Option AwsError)
            → (r.1 ≡ none → Gone ids b r.0)
            → ((v : W)
                → (for_target_groups svc.deregister arns ids v).1 ≡ none
                → All (λ arn. Gone ids arn (for_target_groups svc.deregister arns ids v).0) arns)
            → (and_then r (for_target_groups svc.deregister arns ids)).1 ≡ none
            → All
                (λ arn. Gone ids arn (and_then r (for_target_groups svc.deregister arns ids)).0)
                (b ∷ arns)
        next (v, none) g ih e = (for_groups_still ids ids b arns v (g refl), ih v e)
        next (v, some x) g ih e = cc

    -- What becomes of the instances `ids` that are to be deregistered from the groups `arns`: they
    -- are forgotten once that is done, or they are kept with a problem told, if there are any.
    abbrev pub Settled : List String → List String → Adapter × Run groups svc → Type 0
    Settled ids arns (a, (w, ps)) =
        ((a.obsolete_instances ≡ []) × All (λ arn. Gone ids arn w) arns)
        ⊎ ((a.obsolete_instances ≡ ids) × ((ids ≡ []) ⊎ ((p : TargetProblem) × In p ps)))

    deregister_obsolete-Settled :
        (arns : List String) (a : Adapter) (run : Run groups svc)
        → Settled a.obsolete_instances arns (deregister_obsolete groups svc arns a run)
    unfolding deregister_obsolete deregister_targets_on_target_groups
    deregister_obsolete-Settled arns a (w, ps) =
        split a.obsolete_instances refl
          (for_target_groups svc.deregister arns a.obsolete_instances w)
          (for_groups-Gone a.obsolete_instances arns w)
      where
        split :
            (ids : List String)
            → a.obsolete_instances ≡ ids
            → (r : W × Option AwsError)
            → (r.1 ≡ none → All (λ arn. Gone a.obsolete_instances arn r.0) arns)
            → Settled a.obsolete_instances arns
                (unless_no_instances groups svc ids (a, (w, ps)) (deregistered groups svc a ps r))
        split [] q r g = inr (refl, inl q)
        split (id ∷ ids) q (v, none) g = inl (refl, g refl)
        split (id ∷ ids) q (v, some e) g = inr (refl, inr (_, In-append_right _ ps _ (inl refl)))

    -- for the answer about the types of the target groups `all_arns`
    abbrev pub SettledFrom :
        List String
        → List String
        → Result AwsError (Dict (List String))
        → Adapter × Run groups svc
        → Type 0
    SettledFrom ids all_arns (ok types) r =
        Settled ids (difference all_arns (ip_target_groups types)) r
    SettledFrom ids all_arns (err e) (a, (w, ps)) =
        (a.obsolete_instances ≡ ids) × In (categorize_failed e) ps

    update_targets-Settled :
        (arns : List String) (a : Adapter) (run : Run groups svc)
        → (r : Adapter × Run groups svc) × (update_targets groups svc arns a run ≡ some r)
          × Settled a.obsolete_instances arns r
    unfolding update_targets
    update_targets-Settled arns a run =
        let (run1, e1) =
          update_groups_total targeted_group_failed arns (owner_tags_of a)
            a.targeted_auto_scaling_groups run in
        let (run2, e2) =
          update_groups_total non_targeted_group_failed [] (owner_tags_of a)
            (non_targeted_asgs a.owned_auto_scaling_groups a.targeted_auto_scaling_groups) run1 in
        let run3 = register_running groups svc arns (running_single_instances a) run2 in
        (
          deregister_obsolete groups svc arns a run3,
          rw e1 (rw e2 refl),
          deregister_obsolete-Settled arns a run3,
        )

    sent_obsolete :
        (arns : Option (List String)) (a : Adapter)
        → (send_target_groups arns a).obsolete_instances ≡ a.obsolete_instances
    unfolding send_target_groups
    sent_obsolete arns a = elim (Bool-cases a.target_cni.enabled) [
      | inl e ↦ rw e refl
      | inr e ↦ rw e refl
    ]

    -- If the send to the channel of the CNI mode does not wait, the update ends. If the types of the target groups are not told, that is a problem and no
    -- instance is forgotten. Else the instances that are to be deregistered are forgotten only when
    -- they are gone from each target group that is not of type ip; or they are kept, and then there
    -- are none or a problem is told.
    pub update_target_groups-Settled :
        (stacks : List Stack) (a : Adapter) (w : W) (ps : List TargetProblem)
        → (r : Adapter × Run groups svc) × (update_target_groups_and_auto_scaling_groups groups svc
              stacks a
              (w, ps)
            ≡ some r)
          × SettledFrom a.obsolete_instances
              (all_target_group_arns stacks)
              (categorize_target_type_instance
                (groups.target_group_pages w)
                (all_target_group_arns stacks))
              r
    unfolding update_target_groups_and_auto_scaling_groups
    update_target_groups-Settled stacks a w ps = from (
        categorize_target_type_instance (groups.target_group_pages w)
          (all_target_group_arns stacks))
      where
        from :
            (t : Result AwsError (Dict (List String)))
            → (r : Adapter × Run groups svc) × (update_categorized groups svc
                  (all_target_group_arns stacks)
                  t
                  a
                  (w, ps)
                ≡ some r)
              × SettledFrom a.obsolete_instances (all_target_group_arns stacks) t r
        from (err e) = (
          (a, (w, ps ++ categorize_failed e ∷ [])),
          refl,
          (refl, In-append_right _ ps _ (inl refl)),
        )
        from (ok types) =
            let (r, e, s) =
              update_targets-Settled
                (difference (all_target_group_arns stacks) (ip_target_groups types))
                (send_target_groups (lookup target_type_ip types) a) (w, ps) in
            (
              r,
              e,
              subst
                  (λ ids.
                    Settled ids (difference (all_target_group_arns stacks) (ip_target_groups types))
                      r)
                  (sent_obsolete (lookup target_type_ip types) a) s,
            )
