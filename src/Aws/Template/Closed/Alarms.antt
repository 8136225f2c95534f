-- ===== src/Aws/Template/Closed/Alarms.antt =====
-- The alarms of the template refer to names that every template has, if those of the configuration do.
use kube_ingress_aws_control.Prelude.{
  String, true, ◌≡◌, refl, Option, none, some, List, [], ◌∷◌, map, ◌==◌, All, All-append, All-imp,
}
use kube_ingress_aws_control.Aws.CloudWatch.{
  Expr, get_att, Alarm, literal_of, dimension_value, load_balancer_full_name,
  normalize_cloud_watch_alarm_name, normalize_cloud_watch_alarm_namespace,
  normalize_cloud_watch_alarm_dimensions,
}
use kube_ingress_aws_control.Aws.Template.Listeners.{TemplateFormats}
use kube_ingress_aws_control.Aws.Template.Generate.{alarm_resource}
use kube_ingress_aws_control.Aws.Template.Closed.{
  is_known, refs, optional_refs, resource_refs, PairHolds, pairs-All, if-Holds,
}

-- An alarm of the configuration refers to names that every template has.
abbrev pub AlarmIsKnown : Alarm → Type 0
AlarmIsKnown a =
    All (λ n. is_known n ≡ true) (optional_refs a.alarm_name)
    × All (λ n. is_known n ≡ true) (optional_refs a.namespace)
    × All (PairHolds (λ n. is_known n ≡ true)) a.dimensions

module _ (P : String → Type 0) (k : (n : String) → is_known n ≡ true → P n) where
  name-All :
      (o : Option Expr)
      → All (λ n. is_known n ≡ true) (optional_refs o)
      → All P (optional_refs (normalize_cloud_watch_alarm_name o))
  unfolding normalize_cloud_watch_alarm_name is_known
  name-All none h = tt
  name-All (some e) h = (k "AWS::StackName" refl, All-imp (refs e) k h)

  namespace-All :
      (o : Option Expr)
      → All (λ n. is_known n ≡ true) (optional_refs o)
      → All P (refs (normalize_cloud_watch_alarm_namespace o))
  unfolding normalize_cloud_watch_alarm_namespace
  namespace-All none h = tt
  namespace-All (some e) h = All-imp (refs e) k h

  values-All :
      (ds : List (Expr × Expr))
      → All (PairHolds (λ n. is_known n ≡ true)) ds
      → All (PairHolds P) (map (λ e. (e.0, dimension_value e)) ds)
  unfolding is_known
  values-All [] h = tt
  values-All ((name, value) ∷ ds) ((h, v), hs) = (
    (
      All-imp (refs name) k h,
      if-Holds (λ e. All P (refs e)) (literal_of name == "LoadBalancer") load_balancer_full_name _
          (k "LB" refl, tt)
          (if-Holds (λ e. All P (refs e)) (literal_of name == "TargetGroup")
            (get_att "TG" "TargetGroupFullName") value (k "TG" refl, tt)
            (All-imp (refs value) k v)),
    ),
    values-All ds hs,
  )

  dimensions-All :
      (ds : List (Expr × Expr))
      → All (PairHolds (λ n. is_known n ≡ true)) ds
      → All (PairHolds P) (normalize_cloud_watch_alarm_dimensions ds)
  unfolding normalize_cloud_watch_alarm_dimensions is_known
  dimensions-All [] h = ((tt, (k "LB" refl, tt)), tt)
  dimensions-All (d ∷ ds) h = values-All (d ∷ ds) h

pub alarm-All :
    (f : TemplateFormats) (P : String → Type 0) (a : Alarm)
    → ((n : String) → is_known n ≡ true → P n)
    → AlarmIsKnown a
    → All P (resource_refs (alarm_resource f a))
unfolding alarm_resource
alarm-All f P a k (n, ns, ds) =
    All-append P (optional_refs (normalize_cloud_watch_alarm_name a.alarm_name)) _
      (name-All P k a.alarm_name n)
      (All-append P (refs (normalize_cloud_watch_alarm_namespace a.namespace)) _
        (namespace-All P k a.namespace ns)
        (pairs-All P (normalize_cloud_watch_alarm_dimensions a.dimensions)
          (dimensions-All P k a.dimensions ds)))
