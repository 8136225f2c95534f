-- ===== src/Aws/Stack/Spec/RoundTrip.antt =====
-- The certificates of a stack, which are kept in its tags, read back from them.
use text.Mathlib.TextLemmas.{append_assoc as text_append_assoc}
use kube_ingress_aws_control.Prelude.{
  String, ◌≡◌, refl, sym, ap, ◌∙◌, subst, true, false, Option, none, some, List, [], ◌∷◌, ◌++◌,
  ◌==◌, All, All-append, All-imp, Bool-cases, Option-cases, has_prefix, inl, inr, map,
}
use kube_ingress_aws_control.Prelude.Dict.{Dict, lookup, or_default}
use kube_ingress_aws_control.Prelude.Dict.Laws.{IsDict}
use kube_ingress_aws_control.Certs.{Time}
use kube_ingress_aws_control.Aws.{cluster_id_tag_prefix, kubernetes_creator_tag}
use kube_ingress_aws_control.Aws.Stack.{CfStack, to_map_from, convert_cloud_formation_tags}
use kube_ingress_aws_control.Aws.LoadBalancer.{Alarm}
use kube_ingress_aws_control.Aws.Stack.Reading.{
  read_certificates, map_to_managed_stack, certificate_arn_tag_prefix, certificate_arn_tag_legacy,
  ingress_owner_tag, cw_alarm_config_hash_tag,
}
use kube_ingress_aws_control.Aws.Stack.Spec.{
  StackSpec, Formats, merge_tags, stack_tags, certificate_tag, owner_tags, alarm_tags, all_tags,
}
use kube_ingress_aws_control.Aws.Stack.Spec.Tags.{
  ◌^^◌, has_prefix-append, has_prefix_other, to_map_from-append, to_map_from-IsDict,
  lookup-to_map_from_absent, lookup-to_map_from,
}
use kube_ingress_aws_control.Aws.Stack.Spec.Keys.{
  cert_key, apart_by, apart_by_other, lookup-to_map_from-none, as_tag, lookup-certificate_tags,
  certificate_tags-IsDict, read_value, read-lookup,
}

-- No tag has one of the keys that the controller uses for itself.
abbrev pub IsForeign : Dict String → Type 0
IsForeign = All (λ e. has_prefix e.0 "ingress:" ≡ false)

module _ (f : Formats) (spec : StackSpec) (foreign : IsForeign spec.tags) where
  -- the map of the tags that are the same for every stack of the cluster
  abbrev merged : Dict String
  merged = merge_tags spec.tags (stack_tags spec)

  empty : (k : String) → ◌≡◌ {A = Option String} (lookup k []) none
  unfolding lookup
  empty k = refl

  merged-missing : (k : String) → has_prefix k "ingress:" ≡ true → lookup k merged ≡ none
  unfolding merge_tags stack_tags has_prefix
  merged-missing k h =
      lookup-to_map_from_absent k (to_map_from [] spec.tags) (stack_tags spec) (
        apart_by "ingress:" kubernetes_creator_tag k refl h,
        (
          apart_by "ingress:" (cluster_id_tag_prefix ^^ spec.cluster_id) k
              (has_prefix_other "k" "i" "ubernetes.io/cluster/" spec.cluster_id "ngress:" refl) h,
          tt,
        ),
      )
      ∙ lookup-to_map_from_absent k [] spec.tags
          (All-imp spec.tags (λ e n. apart_by "ingress:" e.0 k n h) foreign)
      ∙ empty k

  -- what is found in the map of all tags
  abbrev read_tags : Dict String
  read_tags = to_map_from [] (all_tags f spec)

  read_tags-lookup :
      (k : String)
      → has_prefix k "ingress:" ≡ true
      → All (λ e. (e.0 == k) ≡ false) (owner_tags f spec ++ alarm_tags f spec.cw_alarms)
      → lookup k read_tags
        ≡ lookup k
            (to_map_from (to_map_from [] merged) (map (certificate_tag f) spec.certificate_arns))
  unfolding all_tags
  read_tags-lookup k h a =
      let certs = map (certificate_tag f) spec.certificate_arns in
      let rest = owner_tags f spec ++ alarm_tags f spec.cw_alarms in
      ap (lookup k) (to_map_from-append [] merged (certs ++ rest))
      ∙ (ap (lookup k) (to_map_from-append (to_map_from [] merged) certs rest)
          ∙ lookup-to_map_from_absent k (to_map_from (to_map_from [] merged) certs) rest a)

  rest-apart :
      (k : String)
      → (ingress_owner_tag == k) ≡ false
      → (cw_alarm_config_hash_tag == k) ≡ false
      → All (λ e. (e.0 == k) ≡ false) (owner_tags f spec ++ alarm_tags f spec.cw_alarms)
  rest-apart k a b = All-append _ (owner_tags f spec) _ owners (alarms spec.cw_alarms)
    where
      owners : All (λ e. (e.0 == k) ≡ false) (owner_tags f spec)
      owners = elim (Bool-cases (spec.owner_ingress == "")) [
        | inl e ↦ rw e tt
        | inr e ↦ rw e (a, tt)
      ]

      alarms : (l : List Alarm) → All (λ e. (e.0 == k) ≡ false) (alarm_tags f l)
      alarms [] = tt
      alarms (x ∷ xs) = (b, tt)

  start-missing :
      (k : String) → has_prefix k "ingress:" ≡ true → lookup k (to_map_from [] merged) ≡ none
  unfolding lookup
  start-missing k h = lookup-to_map_from-none k [] merged (merged-missing k h)

  cert_key-own : (arn : String) → has_prefix (cert_key arn) "ingress:" ≡ true
  cert_key-own arn =
      subst (λ z. has_prefix z "ingress:" ≡ true)
        (sym (text_append_assoc "ingress:" "certificate-arn/" arn))
        (has_prefix-append "ingress:" ("certificate-arn/" ^^ arn))

  legacy-missing : lookup certificate_arn_tag_legacy read_tags ≡ none
  unfolding has_prefix
  legacy-missing =
      read_tags-lookup certificate_arn_tag_legacy refl
        (rest-apart certificate_arn_tag_legacy refl refl)
      ∙ (lookup-to_map_from_absent certificate_arn_tag_legacy (to_map_from [] merged)
            (map (certificate_tag f) spec.certificate_arns) (apart spec.certificate_arns)
          ∙ start-missing certificate_arn_tag_legacy refl)
    where
      apart :
          (l : Dict Time)
          → All (λ e. (e.0 == certificate_arn_tag_legacy) ≡ false) (map (certificate_tag f) l)
      apart [] = tt
      apart ((a, t) ∷ l) = (
        apart_by_other certificate_arn_tag_prefix (cert_key a) certificate_arn_tag_legacy
            (has_prefix-append certificate_arn_tag_prefix a) refl,
        apart l,
      )

  certificate-found :
      (arn : String)
      → IsDict spec.certificate_arns
      → lookup (cert_key arn) read_tags ≡ as_tag f.format_time (lookup arn spec.certificate_arns)
  unfolding has_prefix
  certificate-found arn d =
      read_tags-lookup (cert_key arn) (cert_key-own arn) (
        rest-apart (cert_key arn)
          (apart_by certificate_arn_tag_prefix ingress_owner_tag (cert_key arn) refl
            (has_prefix-append certificate_arn_tag_prefix arn))
          (apart_by certificate_arn_tag_prefix cw_alarm_config_hash_tag (cert_key arn) refl
            (has_prefix-append certificate_arn_tag_prefix arn)))
      ∙ elim (Option-cases (lookup arn spec.certificate_arns)) [
        | inl e ↦
            lookup-to_map_from-none (cert_key arn) (to_map_from [] merged)
              (map (certificate_tag f) spec.certificate_arns)
              (lookup-certificate_tags f arn spec.certificate_arns ∙ rw e refl)
            ∙ rw e (start-missing (cert_key arn) (cert_key-own arn))
        | inr (t, e) ↦
            lookup-to_map_from (cert_key arn) (f.format_time t) (to_map_from [] merged)
              (map (certificate_tag f) spec.certificate_arns)
              (certificate_tags-IsDict f spec.certificate_arns d)
              (lookup-certificate_tags f arn spec.certificate_arns ∙ rw e refl)
            ∙ rw e refl
      ]

-- What a time is after it was written as a text and read again.
abbrev pub reread : (String → Option Time) → (Time → String) → Option Time → Option Time
reread parse_time format_time none = none
reread parse_time format_time (some t) = some (or_default 0 (parse_time (format_time t)))

read_value-reread :
    (f : Formats) (parse_time : String → Option Time) (arn : String) (o : Option Time)
    → read_value parse_time (as_tag f.format_time o) (lookup arn [])
      ≡ reread parse_time f.format_time o
unfolding lookup
read_value-reread f parse_time arn none = refl
read_value-reread f parse_time arn (some t) = refl

-- A stack read back from a reply with the tags that were sent for it has exactly the certificates of
-- the specification, each with its time as the text of the time is parsed, provided that the certificates are a map and the
-- additional tags have no key of the controller's own.
pub certificates-roundtrip :
    (f : Formats) (parse_time : String → Option Time) (spec : StackSpec) (s : CfStack)
    (arn : String)
    → IsForeign spec.tags
    → IsDict spec.certificate_arns
    → s.tags ≡ all_tags f spec
    → lookup arn (map_to_managed_stack parse_time s).certificate_arns
      ≡ reread parse_time f.format_time (lookup arn spec.certificate_arns)
unfolding map_to_managed_stack convert_cloud_formation_tags
certificates-roundtrip f parse_time spec s arn foreign d e =
    ap (λ l. lookup arn (read_certificates parse_time (to_map_from [] l) [])) e
    ∙ (read-lookup parse_time arn (read_tags f spec foreign) []
          (to_map_from-IsDict [] (all_tags f spec) tt) (legacy-missing f spec foreign)
        ∙ rw (certificate-found f spec foreign arn d)
            (read_value-reread f parse_time arn (lookup arn spec.certificate_arns)))
