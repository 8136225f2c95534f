-- ===== src/Aws/Stack/Spec/Created.antt =====
-- A stack that the controller creates is one that it manages and reads back.
use kube_ingress_aws_control.Prelude.{
  String, ◌≡◌, refl, ap, ◌∙◌, subst, Bool, true, false, some, List, [], ◌∷◌, ◌==◌, eq_iff, eq_refl,
  All, All-append, Bool-cases, has_prefix, inl, inr, map,
}
use kube_ingress_aws_control.Prelude.Dict.{Dict, lookup, insert, lookup-insert}
use kube_ingress_aws_control.Certs.{Time}
use kube_ingress_aws_control.Aws.{
  cluster_id_tag_prefix, resource_lifecycle_owned, kubernetes_creator_tag,
}
use kube_ingress_aws_control.Aws.Stack.{to_map_from, convert_cloud_formation_tags}
use kube_ingress_aws_control.Aws.LoadBalancer.{Alarm}
use kube_ingress_aws_control.Aws.Stack.Reading.{
  is_managed_stack, certificate_arn_tag_prefix, ingress_owner_tag, cw_alarm_config_hash_tag,
}
use kube_ingress_aws_control.Aws.Stack.Spec.{
  StackSpec, Formats, merge_tags, stack_tags, certificate_tag, owner_tags, alarm_tags, all_tags,
  other_tags,
}
use kube_ingress_aws_control.Aws.Stack.Spec.Tags.{
  ◌^^◌, has_prefix-append, has_prefix_other, has_prefix_first, to_map_from-append,
  to_map_from-IsDict, lookup-to_map_from_absent, lookup-to_map_from,
}

-- A tag that only the stack's creator and cluster have, since it starts with "k".
abbrev pub IsKubernetes : String → Type 0
IsKubernetes k = has_prefix k "k" ≡ true

apart : (j k : String) → has_prefix j "k" ≡ false → IsKubernetes k → (j == k) ≡ false
apart j k a b = elim (Bool-cases (j == k)) [
  | inl e ↦ absurd (differ (subst (λ z. has_prefix z "k" ≡ false) ((eq_iff j k).0 e) a) b)
  | inr e ↦ e
]
  where
    differ : {c : Bool} → c ≡ false → c ≡ true → ⊥
    differ p q = cc

module _ (f : Formats) (k : String) (h : IsKubernetes k) where
  certificate_tags-apart :
      (certs : Dict Time) → All (λ e. (e.0 == k) ≡ false) (map (certificate_tag f) certs)
  certificate_tags-apart [] = tt
  certificate_tags-apart ((arn, t) ∷ certs) = (
    apart (certificate_arn_tag_prefix ^^ arn) k
        (has_prefix_other "i" "k" "ngress:certificate-arn/" arn "" refl) h,
    certificate_tags-apart certs,
  )

  owner_tags-apart : (spec : StackSpec) → All (λ e. (e.0 == k) ≡ false) (owner_tags f spec)
  unfolding has_prefix
  owner_tags-apart spec = elim (Bool-cases (spec.owner_ingress == "")) [
    | inl e ↦ rw e tt
    | inr e ↦ rw e (apart ingress_owner_tag k refl h, tt)
  ]

  alarm_tags-apart : (alarms : List Alarm) → All (λ e. (e.0 == k) ≡ false) (alarm_tags f alarms)
  unfolding has_prefix
  alarm_tags-apart [] = tt
  alarm_tags-apart (a ∷ as') = (apart cw_alarm_config_hash_tag k refl h, tt)

  other_tags-apart : (spec : StackSpec) → All (λ e. (e.0 == k) ≡ false) (other_tags f spec)
  other_tags-apart spec =
      All-append _ (map (certificate_tag f) spec.certificate_arns) _
        (certificate_tags-apart spec.certificate_arns)
        (All-append _ (owner_tags f spec) _ (owner_tags-apart spec)
          (alarm_tags-apart spec.cw_alarms))

  -- What such a tag is read back as.
  read_back :
      (spec : StackSpec) (v : String)
      → lookup k (merge_tags spec.tags (stack_tags spec)) ≡ some v
      → lookup k (to_map_from [] (all_tags f spec)) ≡ some v
  unfolding all_tags merge_tags
  read_back spec v e =
      let merged = merge_tags spec.tags (stack_tags spec) in
      ap (lookup k) (to_map_from-append [] merged (other_tags f spec))
      ∙ (lookup-to_map_from_absent k (to_map_from [] merged) (other_tags f spec)
            (other_tags-apart spec)
          ∙ lookup-to_map_from k v [] merged
              (to_map_from-IsDict (to_map_from [] spec.tags) (stack_tags spec)
                (to_map_from-IsDict [] spec.tags tt))
              e)

module _ (spec : StackSpec) where
  abbrev cluster_key : String
  cluster_key = cluster_id_tag_prefix ^^ spec.cluster_id

  cluster_key-IsKubernetes : IsKubernetes cluster_key
  cluster_key-IsKubernetes = has_prefix_first "k" "ubernetes.io/cluster/" spec.cluster_id

  creator-not_cluster : (cluster_key == kubernetes_creator_tag) ≡ false
  unfolding has_prefix
  creator-not_cluster = elim (Bool-cases (cluster_key == kubernetes_creator_tag)) [
    | inl e ↦ absurd (
        differ (
          subst (λ z. has_prefix z cluster_id_tag_prefix ≡ true)
            ((eq_iff cluster_key kubernetes_creator_tag).0 e)
            (has_prefix-append cluster_id_tag_prefix spec.cluster_id)))
    | inr e ↦ e
  ]
    where
      differ : false ≡ true → ⊥
      differ q = cc

  merged_creator :
      lookup kubernetes_creator_tag (merge_tags spec.tags (stack_tags spec))
      ≡ some spec.controller_id
  unfolding merge_tags stack_tags to_map_from
  merged_creator =
      lookup-insert cluster_key kubernetes_creator_tag resource_lifecycle_owned
        (insert kubernetes_creator_tag spec.controller_id (to_map_from [] spec.tags))
      ∙ (rw creator-not_cluster (
          lookup-insert kubernetes_creator_tag kubernetes_creator_tag spec.controller_id
            (to_map_from [] spec.tags)))

  merged_cluster :
      lookup cluster_key (merge_tags spec.tags (stack_tags spec)) ≡ some resource_lifecycle_owned
  unfolding merge_tags stack_tags to_map_from
  merged_cluster =
      lookup-insert cluster_key cluster_key resource_lifecycle_owned
        (insert kubernetes_creator_tag spec.controller_id (to_map_from [] spec.tags))
      ∙ rw (eq_refl cluster_key) refl

-- Whatever tags, certificates, owner and alarms a specification has, the controller of its cluster
-- manages a stack with the tags that are sent for it, since none of them hides those two that mark
-- the stack as its own.
pub created-is_managed :
    (f : Formats) (spec : StackSpec)
    → is_managed_stack (all_tags f spec) spec.cluster_id spec.controller_id ≡ true
unfolding is_managed_stack convert_cloud_formation_tags has_prefix
created-is_managed f spec =
    rw
      (
        read_back f kubernetes_creator_tag refl spec spec.controller_id (merged_creator spec),
        read_back f (cluster_key spec) (cluster_key-IsKubernetes spec) spec resource_lifecycle_owned
            (merged_cluster spec),
        eq_refl spec.controller_id,
      )
      refl
