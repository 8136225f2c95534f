-- ===== src/Aws/Template/Closed/Built.antt =====
-- The template that generateTemplate builds is closed.
use kube_ingress_aws_control.Prelude.{
  ℕ, ◌+◌, String, false, ◌&&◌, not, subst, ◌≡◌, refl, inl, inr, List, [], ◌∷◌, ◌==◌, arith, All,
  All-imp, Bool-cases, has_prefix, sort_strings, if◌then◌else◌,
}
use kube_ingress_aws_control.Prelude.Dict.{keys}
use kube_ingress_aws_control.Prelude.Dict.Laws.{
  HasKey, insert-HasKey, insert-All, insert-HasKey_self,
}
use kube_ingress_aws_control.Aws.StackSpec.{StackSpec}
use kube_ingress_aws_control.Aws.CloudWatch.{ref, Alarm}
use kube_ingress_aws_control.Aws.Stack.Reading.{parameter_load_balancer_waf_web_acl_id}
use kube_ingress_aws_control.Aws.Template.{
  base_template, Template, Resource, wafv2_association, waf_regional_association, add_resource,
}
use kube_ingress_aws_control.Aws.Template.Listeners.{TemplateFormats, with_http, with_https}
use kube_ingress_aws_control.Aws.Template.Generate.{
  load_balancer_resource, is_application, with_load_balancer, with_waf, with_alarms, alarm_resource,
  build_template,
}
use kube_ingress_aws_control.Aws.Template.Closed.{
  DeclaredOr, Declared, IsGood, HasBase, IsClosed, resource_refs, refs, if-Holds,
  add_resource-IsGood, known-DeclaredOr, resource-DeclaredOr,
}
use kube_ingress_aws_control.Aws.Template.Closed.Alarms.{AlarmIsKnown, alarm-All}
use kube_ingress_aws_control.Aws.Template.Closed.Http.{
  Grows, base-Grows, with_http-Grows, growing, waf_names,
}
use kube_ingress_aws_control.Aws.Template.Closed.Https.{
  IsLbType, with_certificates-Grows, load_balancer-All,
}

module _ (f : TemplateFormats) (spec : StackSpec) where
  abbrev Whole : Template → Type 0
  Whole = IsGood ([], waf_names spec)

  -- The load balancer itself, which was promised.
  with_load_balancer-IsGood :
      (t : Template) → Grows spec t → IsGood ([], waf_names spec) (with_load_balancer f spec t)
  unfolding with_load_balancer add_resource
  with_load_balancer-IsGood t g = record {
    base = base;
    resources_closed =
        insert-All (λ _ r. All After (resource_refs r)) "LB" _ t.resources own
          (All-imp t.resources (λ e. All-imp (resource_refs e.1) kept) g.resources_closed);
    outputs_closed = All-imp t.outputs (λ e. All-imp (refs e.1.value) kept) g.outputs_closed;
  }
    where
      After : String → Type 0
      After = DeclaredOr ([], waf_names spec) (with_load_balancer f spec t)

      kept : (n : String) → DeclaredOr (growing spec) t n → After n
      kept n (inl (inl e)) = inr (
          inr (
            inr (
              subst (λ k. HasKey k (with_load_balancer f spec t).resources) e
                (insert-HasKey_self "LB" _ t.resources))))
      kept n (inl (inr i)) = absurd i
      kept n (inr (inl e)) = inr (inl e)
      kept n (inr (inr (inl k))) = inr (inr (inl k))
      kept n (inr (inr (inr k))) = inr (inr (inr (insert-HasKey n "LB" _ t.resources k)))

      base : HasBase ([], waf_names spec) (with_load_balancer f spec t)
      base = record {
        has_parameters = g.base.has_parameters;
        has_extra = g.base.has_extra;
        has_target_group = insert-HasKey "TG" "LB" _ t.resources g.base.has_target_group;
        has_load_balancer = kept "LB" (inl (inl refl));
      }

      own : All After (resource_refs (load_balancer_resource f spec))
      own =
          load_balancer-All f spec After
            (known-DeclaredOr ([], waf_names spec) (with_load_balancer f spec t) base)

  -- The parameter of the WAF is there where the resource is.
  with_waf-IsGood : (t : Template) → Whole t → Whole (with_waf f spec t)
  unfolding with_waf
  with_waf-IsGood t g =
      elim (Bool-cases (is_application f spec && not (spec.waf_web_acl_id == ""))) [
        | inl e ↦ rw e (
            if-Holds Whole (has_prefix spec.waf_web_acl_id "arn:aws:wafv2:") _ _
              (associated (ground (arith, e)) (wafv2_association (ref "LB") (ref waf)) (λ h. h))
              (associated (ground (arith, e)) (waf_regional_association (ref "LB") (ref waf))
                (λ h. h)))
        | inr e ↦ rw e g
      ]
    where
      waf : String
      waf = parameter_load_balancer_waf_web_acl_id

      associated :
          (spec.waf_web_acl_id == "") ≡ false
          → (r : Resource)
          → (All
                (DeclaredOr ([], waf_names spec) (add_resource "WAFAssociation" r t))
                ("LB" ∷ waf ∷ [])
              → All
                  (DeclaredOr ([], waf_names spec) (add_resource "WAFAssociation" r t))
                  (resource_refs r))
          → Whole (add_resource "WAFAssociation" r t)
      associated e r own =
          add_resource-IsGood ([], waf_names spec) "WAFAssociation" r t
            (own (
              resource-DeclaredOr ([], waf_names spec) "WAFAssociation" r t "LB"
                  g.base.has_load_balancer,
              (
                resource-DeclaredOr ([], waf_names spec) "WAFAssociation" r t waf
                    (inr (inr (inl (here e)))),
                tt,
              ),
            ))
            g
        where
          here : (spec.waf_web_acl_id == "") ≡ false → HasKey waf t.parameters
          here e =
              (subst (λ b. All (λ n. HasKey n t.parameters) (if b then [] else waf ∷ [])) e
                g.base.has_extra).0

  with_alarms-IsGood :
      (idx : ℕ) (alarms : List Alarm) (t : Template)
      → All AlarmIsKnown alarms
      → Whole t
      → Whole (with_alarms f idx alarms t)
  unfolding with_alarms
  with_alarms-IsGood idx [] t h g = g
  with_alarms-IsGood idx (a ∷ as') t h g = with_alarms-IsGood (idx + 1) as' _ h.1 (
      add_resource-IsGood ([], waf_names spec) _ (alarm_resource f a) t
        (All-imp (resource_refs (alarm_resource f a))
          (resource-DeclaredOr ([], waf_names spec) _ (alarm_resource f a) t)
          (alarm-All f _ a (known-DeclaredOr ([], waf_names spec) t g.base) h.0))
        g)

  build_template-IsGood :
      IsLbType spec.loadbalancer_type
      → All AlarmIsKnown spec.cw_alarms
      → Whole (build_template f spec)
  unfolding build_template with_https
  build_template-IsGood k h =
      let listening = with_http f spec (base_template f.decimal spec) in
      let certified = with_https f spec listening in
      let balanced = with_load_balancer f spec certified in
      with_alarms-IsGood 0 spec.cw_alarms (with_waf f spec balanced) h (
        with_waf-IsGood balanced (
          with_load_balancer-IsGood certified (
            with_certificates-Grows f spec (sort_strings (keys spec.certificate_arns)) listening k
              (with_http-Grows f spec (base_template f.decimal spec) (base-Grows f spec)))))

  declared : (t : Template) (n : String) → DeclaredOr ([], waf_names spec) t n → Declared t n
  declared t n (inl i) = absurd i
  declared t n (inr d) = d

  -- With a type of load balancer that AWS knows, and alarms that refer to known names, every name
  -- that a resource or an output of the template refers to is one of its parameters or resources, or
  -- the pseudo parameter for the stack's name.
  pub build_template-IsClosed :
      IsLbType spec.loadbalancer_type
      → All AlarmIsKnown spec.cw_alarms
      → IsClosed (build_template f spec)
  build_template-IsClosed k h =
      let t = build_template f spec in
      let g = build_template-IsGood k h in
      (
        All-imp t.resources (λ e. All-imp (resource_refs e.1) (declared t)) g.resources_closed,
        All-imp t.outputs (λ e. All-imp (refs e.1.value) (declared t)) g.outputs_closed,
      )
