-- ===== src/Tests/Template.antt =====
-- The name of a stack, its template and its parameters on concrete inputs.
use kube_ingress_aws_control.Prelude.{◌≤◌, String, ◌≡◌, refl, inl, false, none, some, [], ◌∷◌}
use Prim.Native.String
use mathlib.Core.List.Perm
use kube_ingress_aws_control.Prelude.Dict.{Dict}
use kube_ingress_aws_control.Certs.{Time}
use kube_ingress_aws_control.Aws.StackSpec.{StackSpec}
use kube_ingress_aws_control.Aws.CloudWatch.{Alarm, literal, get_att}
use kube_ingress_aws_control.Aws.Naming.{
  is_normal, max_stack_name_len, normalize, squeeze, drop_chars, trim_left, trim_right, trim_dashes,
  normalized_cluster_id, normalize_stack_name,
}
use kube_ingress_aws_control.Aws.Naming.Dashes.{AllChars, NoDoubleDash, all_chars-AllChars}
use kube_ingress_aws_control.Aws.Naming.Normal.{normalize_stack_name-IsNormal}
use kube_ingress_aws_control.Aws.Stack.Spec.{all_parameters}
use kube_ingress_aws_control.Aws.Template.Listeners.{TemplateFormats}
use kube_ingress_aws_control.Aws.Template.Generate.{build_template}
use kube_ingress_aws_control.Aws.Template.Closed.{IsClosed, is_known}
use kube_ingress_aws_control.Aws.Template.Closed.Built.{build_template-IsClosed}
use kube_ingress_aws_control.Aws.Template.Parameters.{Agree, all_parameters-Agree}
use kube_ingress_aws_control.Aws.Template.Stable.{build_template-Stable}
use kube_ingress_aws_control.Tests.Aws.{formats, spec}

abbrev uuid : String
uuid = "123e4567-e89b-12d3-a456-426614174000"

normalize_stack_name_test :
    normalize_stack_name uuid "aws:1:eu::prod/"
    ≡ "kube-ingress-aws-controller-aws-1-eu-prod-123e4567-e89b-12d3-a456-426614174000"
unfolding normalize_stack_name normalized_cluster_id normalize squeeze drop_chars trim_dashes
    trim_left trim_right
normalize_stack_name_test = refl

normalize_stack_name-IsNormal_example :
    (String.count (normalize_stack_name uuid "aws:1:eu::prod/") ≤ max_stack_name_len)
    × AllChars is_normal (normalize_stack_name uuid "aws:1:eu::prod/")
    × NoDoubleDash false (normalized_cluster_id "aws:1:eu::prod/")
normalize_stack_name-IsNormal_example =
    normalize_stack_name-IsNormal uuid "aws:1:eu::prod/" refl
      (all_chars-AllChars is_normal uuid refl)

abbrev template_formats : TemplateFormats
template_formats = record { decimal = λ n. "1"; sha256_text = λ s. s }

abbrev alarm : Alarm
alarm = record {
  alarm_name = some (literal "latency");
  namespace = none;
  dimensions = (literal "LoadBalancer", get_att "LB" "LoadBalancerFullName") ∷ [];
  other_fields = "{}";
}

abbrev alarmed : StackSpec
alarmed = record spec { cw_alarms = alarm ∷ []; waf_web_acl_id = "acl" }

build_template-IsClosed_example : IsClosed (build_template template_formats alarmed)
unfolding is_known
build_template-IsClosed_example =
    build_template-IsClosed template_formats alarmed (inl refl)
      ((tt, tt, ((tt, (refl, tt)), tt)), tt)

all_parameters-Agree_example :
    Agree (all_parameters formats alarmed) (build_template template_formats alarmed).parameters
all_parameters-Agree_example = all_parameters-Agree template_formats alarmed formats

-- the certificates of `spec` in the other order, with other times
abbrev turned : Dict Time
turned = ("arn:2", 1) ∷ ("arn:1", 9) ∷ []

build_template-Stable_example :
    build_template template_formats (record spec { certificate_arns = turned })
    ≡ build_template template_formats spec
build_template-Stable_example =
    build_template-Stable template_formats spec turned (Perm.swap "arn:1" "arn:2" [])
