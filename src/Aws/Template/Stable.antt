-- ===== src/Aws/Template/Stable.antt =====
-- The template does not depend on the order in which a range over the certificates happens to run.
use kube_ingress_aws_control.Prelude.{◌≡◌, ap}
use mathlib.Core.List.{Perm}
use kube_ingress_aws_control.Prelude.Dict.{Dict, keys}
use kube_ingress_aws_control.Prelude.Order.{sort_strings-Perm}
use kube_ingress_aws_control.Certs.{Time}
use kube_ingress_aws_control.Aws.StackSpec.{StackSpec}
use kube_ingress_aws_control.Aws.Template.{base_template}
use kube_ingress_aws_control.Aws.Template.Listeners.{
  TemplateFormats, with_http, with_https, with_certificates,
}
use kube_ingress_aws_control.Aws.Template.Generate.{
  with_load_balancer, with_waf, with_alarms, build_template,
}

-- Two specifications that differ only in the order of their certificates, or in the certificates'
-- times, have the same template.
pub build_template-Stable :
    (f : TemplateFormats) (spec : StackSpec) (certificates : Dict Time)
    → Perm (keys certificates) (keys spec.certificate_arns)
    → build_template f (record spec { certificate_arns = certificates }) ≡ build_template f spec
unfolding build_template with_https with_http base_template with_load_balancer with_waf
build_template-Stable f spec certificates p =
    ap
      (λ arns. with_alarms f 0 spec.cw_alarms (
        with_waf f spec (
          with_load_balancer f spec
            (with_certificates f spec arns (with_http f spec (base_template f.decimal spec))))))
      (sort_strings-Perm p)
