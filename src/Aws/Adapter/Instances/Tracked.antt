-- ===== src/Aws/Adapter/Instances/Tracked.antt =====
-- Which instances the adapter looks after by itself, and which it still has to deregister.
use kube_ingress_aws_control.Prelude.{
  String, true, false, not, ◌≡◌, refl, subst, ◌⊎◌, inl, inr, ◌↔◌, List, [], ◌∷◌, ◌++◌, keep, In,
  In-append, In-append_left, In-append_right, Any, Result, ok, err, arith, Bool-cases,
}
use kube_ingress_aws_control.Prelude.Dict.{Dict, insert, has_key}
use kube_ingress_aws_control.Prelude.Dict.Laws.{
  HasKey, HasKey-insert, insert-HasKey, insert-HasKey_self, In-keys, HasKey-keep, has_key_iff,
}
use Prim.Native.String
use kube_ingress_aws_control.Aws.{cluster_id_tag_prefix, resource_lifecycle_owned}
use kube_ingress_aws_control.Aws.Asg.{
  AwsError, Group, AutoScalingGroupDetails, get_owned_and_targeted_auto_scaling_groups,
}
use kube_ingress_aws_control.Aws.Ec2.{
  Ec2Api, InstanceDetails, get_instances_details_with_filters, get_auto_scaling_group_name,
}
use kube_ingress_aws_control.Aws.Adapter.{Adapter}
use kube_ingress_aws_control.Aws.Adapter.Instances.{
  is_single, add_single, gone, still_there, with_instances, with_groups,
  update_auto_scaling_groups_and_instances,
}

-- EC2 names the instance, and says that it is in no group.
abbrev pub WithoutGroup : String → Dict InstanceDetails → Type 0
WithoutGroup id = Any (λ e. (e.0 ≡ id) × (is_single (get_auto_scaling_group_name e.1.tags) ≡ true))

HasKey-add_single :
    (id : String) (es m : Dict InstanceDetails)
    → HasKey id (add_single es m) ↔ (HasKey id m ⊎ WithoutGroup id es)
unfolding add_single
HasKey-add_single id [] m = (λ h. inl h, λ h. elim h [ inl k ↦ k | inr k ↦ absurd k ])
HasKey-add_single id ((i, d) ∷ es) m =
    elim (Bool-cases (is_single (get_auto_scaling_group_name d.tags))) [
      | inl e ↦ rw e (added e (HasKey-add_single id es (insert i d m)))
      | inr e ↦ rw e (skipped e (HasKey-add_single id es m))
    ]
  where
    added :
        is_single (get_auto_scaling_group_name d.tags) ≡ true
        → HasKey id (add_single es (insert i d m)) ↔ (HasKey id (insert i d m) ⊎ WithoutGroup id es)
        → HasKey id (add_single es (insert i d m))
          ↔ (HasKey id m ⊎ (((i ≡ id) × (true ≡ true)) ⊎ WithoutGroup id es))
    added e ih = (λ h. to (ih.0 h), λ h. ih.1 (from h))
      where
        to :
            HasKey id (insert i d m) ⊎ WithoutGroup id es
            → HasKey id m ⊎ (((i ≡ id) × (true ≡ true)) ⊎ WithoutGroup id es)
        to (inl k) = elim (HasKey-insert id i d m k) [ inl q ↦ inr (inl (q, refl)) | inr j ↦ inl j ]
        to (inr w) = inr (inr w)

        from :
            HasKey id m ⊎ (((i ≡ id) × (true ≡ true)) ⊎ WithoutGroup id es)
            → HasKey id (insert i d m) ⊎ WithoutGroup id es
        from (inl k) = inl (insert-HasKey id i d m k)
        from (inr (inl (q, _))) =
            inl (subst (λ u. HasKey u (insert i d m)) q (insert-HasKey_self i d m))
        from (inr (inr w)) = inr w

    skipped :
        is_single (get_auto_scaling_group_name d.tags) ≡ false
        → HasKey id (add_single es m) ↔ (HasKey id m ⊎ WithoutGroup id es)
        → HasKey id (add_single es m)
          ↔ (HasKey id m ⊎ (((i ≡ id) × (false ≡ true)) ⊎ WithoutGroup id es))
    skipped e ih = (λ h. elim (ih.0 h) [ inl k ↦ inl k | inr w ↦ inr (inr w) ], λ h. ih.1 (from h))
      where
        from :
            HasKey id m ⊎ (((i ≡ id) × (false ≡ true)) ⊎ WithoutGroup id es)
            → HasKey id m ⊎ WithoutGroup id es
        from (inl k) = inl k
        from (inr (inl (_, q))) = cc
        from (inr (inr w)) = inr w

-- The single instances and the obsolete ones after an update, by those before and the answer of EC2.
abbrev pub IsTracked : Adapter → Dict InstanceDetails → Adapter → String → Type 0
IsTracked a ec2_details a' id =
    (HasKey id a'.single_instances
      ↔ ((HasKey id a.single_instances × HasKey id ec2_details) ⊎ WithoutGroup id ec2_details))
    × (In id a'.obsolete_instances ↔ (
        In id a.obsolete_instances
        ⊎ (HasKey id a.single_instances × (has_key id ec2_details ≡ false))))

instances-IsTracked :
    (a : Adapter) (d : Dict InstanceDetails) (id : String) → IsTracked a d (with_instances a d) id
unfolding with_instances
instances-IsTracked a d id = ((single_to, single_from), (obsolete_to, obsolete_from))
  where
    old : Dict InstanceDetails
    old = a.single_instances

    kept : HasKey id (still_there d old) ↔ (HasKey id old × (has_key id d ≡ true))
    kept = HasKey-keep (λ k. has_key k d) id old

    left :
        HasKey id (keep (λ e. not (has_key e.0 d)) old)
        ↔ (HasKey id old × (not (has_key id d) ≡ true))
    left = HasKey-keep (λ k. not (has_key k d)) id old

    single_to :
        HasKey id (add_single d (still_there d old))
        → (HasKey id old × HasKey id d) ⊎ WithoutGroup id d
    single_to h = elim ((HasKey-add_single id d (still_there d old)).0 h) [
      | inl k ↦ inl ((kept.0 k).0, (has_key_iff id d).0 (kept.0 k).1)
      | inr w ↦ inr w
    ]

    single_from :
        (HasKey id old × HasKey id d) ⊎ WithoutGroup id d
        → HasKey id (add_single d (still_there d old))
    single_from h =
        (HasKey-add_single id d (still_there d old)).1
          (elim h [ inl k ↦ inl (kept.1 (k.0, (has_key_iff id d).1 k.1)) | inr w ↦ inr w ])

    obsolete_to :
        In id (a.obsolete_instances ++ gone d old)
        → In id a.obsolete_instances ⊎ (HasKey id old × (has_key id d ≡ false))
    obsolete_to i = elim (In-append id a.obsolete_instances (gone d old) i) [
      | inl j ↦ inl j
      | inr j ↦ let h = left.0 ((In-keys id _).0 j) in inr (h.0, ground (arith, h.1))
    ]

    obsolete_from :
        In id a.obsolete_instances ⊎ (HasKey id old × (has_key id d ≡ false))
        → In id (a.obsolete_instances ++ gone d old)
    obsolete_from (inl i) = In-append_left id a.obsolete_instances (gone d old) i
    obsolete_from (inr (k, e)) =
        In-append_right id a.obsolete_instances (gone d old)
          ((In-keys id _).1 (left.1 (k, ground (arith, e))))

-- Once EC2 has named its instances, whether the groups are listed or not: the single instances are
-- those that were single and are still named, and those that are named without a group; and the
-- obsolete ones are those that were so, and those that were single and are not named any more. No
-- single instance is lost: each stays single or is to be deregistered.
pub update_instances-IsTracked :
    (ec2 : Ec2Api) (pages : List (Result AwsError (List Group))) (a : Adapter)
    (ec2_details : Dict InstanceDetails) (id : String)
    → get_instances_details_with_filters ec2 a.manifest.filters ≡ ok ec2_details
    → IsTracked a ec2_details (update_auto_scaling_groups_and_instances ec2 pages a).0 id
unfolding update_auto_scaling_groups_and_instances
update_instances-IsTracked ec2 pages a d id e = rw e (
    groups (
      get_owned_and_targeted_auto_scaling_groups pages a.manifest.asg_filters
        ((String.◌++◌ cluster_id_tag_prefix a.manifest.cluster_id, resource_lifecycle_owned) ∷ [])))
  where
    groups :
        (r : Result AwsError (Dict AutoScalingGroupDetails × Dict AutoScalingGroupDetails))
        → IsTracked a d (with_groups (with_instances a d) r).0 id
    groups (ok (targeted, owned)) = instances-IsTracked a d id
    groups (err x) = instances-IsTracked a d id
