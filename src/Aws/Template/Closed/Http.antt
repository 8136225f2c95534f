-- ===== src/Aws/Template/Closed/Http.antt =====
-- The template stays closed while its target groups and its HTTP listener are added.
use kube_ingress_aws_control.Prelude.{
  String, true, false, ◌≡◌, refl, ◌⊎◌, Option, inl, inr, none, some, List, [], ◌∷◌, ◌++◌, ◌==◌, All,
  All-append, All-imp, Bool-cases, if◌then◌else◌,
}
use kube_ingress_aws_control.Prelude.Dict.{Dict}
use kube_ingress_aws_control.Prelude.Dict.Laws.{insert-HasKey, insert-HasKey_self, HasKey}
use kube_ingress_aws_control.Aws.StackSpec.{StackSpec}
use kube_ingress_aws_control.Aws.CloudWatch.{Expr, literal, ref}
use kube_ingress_aws_control.Aws.Template.{
  Template, Parameter, Output, Resource, add_resource, add_parameter, add_output, new_target_group,
  base_template, default_parameters, target_protocol, parameter, forward, default_outputs,
}
use kube_ingress_aws_control.Aws.Stack.{output_http_target_group_arn}
use kube_ingress_aws_control.Aws.Stack.Reading.{parameter_load_balancer_waf_web_acl_id}
use kube_ingress_aws_control.Aws.{load_balancer_type_application, load_balancer_type_network}
use kube_ingress_aws_control.Aws.Template.Listeners.{
  has_own_http_target_group, http_target_group_name, with_http_target_group, with_http_listener,
  http_listener, with_deny_rule, redirect_to_https, TemplateFormats, with_http,
  generate_deny_internal_traffic_rule,
}
use kube_ingress_aws_control.Aws.Template.Closed.{
  keys-HasKey, DeclaredOr, HasBase, IsGood, is_known, resource_refs, add_resource-IsGood,
  add_parameter-IsGood, add_output-IsGood, resource-DeclaredOr, known-DeclaredOr, if-Holds,
  literals-All, optional_refs,
}

abbrev own_output : Output
own_output = record { description = "The ARN of the HTTP TargetGroup"; value = ref "TGHTTP" }

abbrev own_parameter : Parameter
own_parameter = record { type = "Number"; description = "The HTTP target port"; default = none }

-- The template while the load balancer is still to come.
abbrev pub waf_names : StackSpec → List String
waf_names spec =
    if spec.waf_web_acl_id == "" then [] else parameter_load_balancer_waf_web_acl_id ∷ []

abbrev pub growing : StackSpec → List String × List String
growing spec = ("LB" ∷ [], waf_names spec)

abbrev pub Grows : StackSpec → Template → Type 0
Grows spec = IsGood (growing spec)

module _ (f : TemplateFormats) (spec : StackSpec) where
  -- A target group refers to its port's parameter and else to known names.
  target_group-All :
      (P : String → Type 0) (port : String)
      → ((n : String) → is_known n ≡ true → P n)
      → P port
      → All P (resource_refs (new_target_group f.decimal spec port))
  unfolding new_target_group is_known
  target_group-All P port k h =
      All-append P (optional_refs timeout) (optional_refs kind ++ rest)
        (if-Holds (λ o. All P (optional_refs o)) (target_protocol f.decimal spec == "TCP") none
          (some (ref "TargetGroupHealthCheckTimeoutParameter")) tt
          (k "TargetGroupHealthCheckTimeoutParameter" refl, tt))
        (All-append P (optional_refs kind) rest
          (if-Holds (λ o. All P (optional_refs o)) (spec.target_type == "") none
            (some (literal spec.target_type)) tt tt)
          (k _ refl, (k _ refl, (k _ refl, (h, (k _ refl, tt))))))
    where
      timeout : Option Expr
      timeout =
          if target_protocol f.decimal spec == "TCP"
          then none
          else some (ref "TargetGroupHealthCheckTimeoutParameter")

      kind : Option Expr
      kind = if spec.target_type == "" then none else some (literal spec.target_type)

      rest : List String
      rest =
          "TargetGroupHealthCheckIntervalParameter" ∷ "TargetGroupHealthCheckPathParameter"
          ∷ "TargetGroupHealthCheckPortParameter" ∷ port ∷ "TargetGroupVPCIDParameter" ∷ []

  -- The template with its first resource, whatever parameters it has besides the default ones.
  first-IsGood :
      (xs : List String) (ps : Dict Parameter) (description : String)
      → All (λ e. HasKey e.0 ps) default_parameters
      → All (λ n. HasKey n ps) xs
      → IsGood
          ("LB" ∷ [], xs)
          (add_resource "TG"
            (new_target_group f.decimal spec "TargetGroupTargetPortParameter")
            (record {
              description = description;
              parameters = ps;
              outputs = default_outputs;
              resources = [];
            }))
  unfolding add_resource is_known
  first-IsGood xs ps description p x = record {
    base = base;
    resources_closed = (
      target_group-All (DeclaredOr ("LB" ∷ [], xs) whole) "TargetGroupTargetPortParameter" known
          (known _ refl),
      tt,
    );
    outputs_closed = ((known _ refl, tt), ((known _ refl, tt), ((known _ refl, tt), tt)));
  }
    where
      whole : Template
      whole =
          add_resource "TG" (new_target_group f.decimal spec "TargetGroupTargetPortParameter")
            (record {
              description = description;
              parameters = ps;
              outputs = default_outputs;
              resources = [];
            })

      base : HasBase ("LB" ∷ [], xs) whole
      base = record {
        has_parameters = p;
        has_extra = x;
        has_target_group = inl refl;
        has_load_balancer = inl (inl refl);
      }

      known : (n : String) → is_known n ≡ true → DeclaredOr ("LB" ∷ [], xs) whole n
      known = known-DeclaredOr ("LB" ∷ [], xs) whole base

  pub base-Grows : Grows spec (base_template f.decimal spec)
  unfolding base_template add_parameter
  base-Grows = elim (Bool-cases (spec.waf_web_acl_id == "")) [
    | inl e ↦ rw e (first-IsGood [] default_parameters _ (keys-HasKey default_parameters) tt)
    | inr e ↦ rw e (
        first-IsGood (waf ∷ []) _ _
          (All-imp default_parameters (λ d. insert-HasKey d.0 waf waf_parameter default_parameters)
            (keys-HasKey default_parameters))
          (insert-HasKey_self waf waf_parameter default_parameters, tt))
  ]
    where
      waf : String
      waf = parameter_load_balancer_waf_web_acl_id

      waf_parameter : Parameter
      waf_parameter = parameter "String" "Associated WAF ID or ARN." none

  pub has-added :
      (name : String) (r : Resource) (t : Template) → HasKey name (add_resource name r t).resources
  unfolding add_resource
  has-added name r t = insert-HasKey_self name r t.resources

  pub deny_rule-Grows :
      (rule name : String) (t : Template)
      → HasKey name t.resources
      → Grows spec t
      → Grows spec (with_deny_rule f spec rule name t)
  unfolding generate_deny_internal_traffic_rule add_resource
  deny_rule-Grows rule name t h g = elim (Bool-cases spec.deny_internal_domains) [
    | inl e ↦ rw e (
        add_resource-IsGood (growing spec) rule _ t
          (
            inr (inr (inr (insert-HasKey name rule _ t.resources h))),
            literals-All _ spec.internal_domains,
          )
          g)
    | inr e ↦ rw e g
  ]

  pub deny_rule-HasKey :
      (rule name : String) (t : Template)
      → HasKey name t.resources
      → HasKey name (with_deny_rule f spec rule name t).resources
  unfolding add_resource
  deny_rule-HasKey rule name t h = elim (Bool-cases spec.deny_internal_domains) [
    | inl e ↦ rw e (insert-HasKey name rule _ t.resources h)
    | inr e ↦ rw e h
  ]

  http_listener-Grows :
      (name target protocol : String) (t : Template)
      → HasKey target t.resources
      → Grows spec t
      → Grows spec (add_resource name (http_listener f spec (forward (ref target)) protocol) t)
  unfolding add_resource
  http_listener-Grows name target protocol t h g =
      add_resource-IsGood (growing spec) name _ t
        (inr (inr (inr (insert-HasKey target name _ t.resources h))), (inl (inl refl), tt)) g

  -- The output that names the second target group may as well be added behind it.
  own_target_group-Grows :
      (t : Template)
      → Grows spec t
      → Grows spec (
          add_resource "TGHTTP"
            (new_target_group f.decimal spec "TargetGroupHTTPTargetPortParameter")
            (add_output output_http_target_group_arn own_output
              (add_parameter "TargetGroupHTTPTargetPortParameter" own_parameter t)))
  unfolding add_resource add_parameter add_output
  own_target_group-Grows t g =
      add_output-IsGood (growing spec) output_http_target_group_arn own_output after
        (inr (inr (inr (insert-HasKey_self "TGHTTP" group before.resources))), tt)
        (add_resource-IsGood (growing spec) "TGHTTP" group before
          (target_group-All (DeclaredOr (growing spec) after) "TargetGroupHTTPTargetPortParameter"
            (λ n k.
              resource-DeclaredOr (growing spec) "TGHTTP" group before n
                (known-DeclaredOr (growing spec) before good.base n k))
            (inr (
              inr (
                inl (
                  insert-HasKey_self "TargetGroupHTTPTargetPortParameter" own_parameter
                    t.parameters)))))
          good)
    where
      group : Resource
      group = new_target_group f.decimal spec "TargetGroupHTTPTargetPortParameter"

      before : Template
      before = add_parameter "TargetGroupHTTPTargetPortParameter" own_parameter t

      after : Template
      after = add_resource "TGHTTP" group before

      good : Grows spec before
      good =
          add_parameter-IsGood (growing spec) "TargetGroupHTTPTargetPortParameter" own_parameter t g

  http_target_group-Grows :
      (t : Template)
      → Grows spec t
      → Grows spec (with_http_target_group f spec t)
        × HasKey (http_target_group_name f spec) (with_http_target_group f spec t).resources
  unfolding add_resource add_parameter add_output
  http_target_group-Grows t g = elim (Bool-cases (has_own_http_target_group f spec)) [
    | inl e ↦ rw e (own_target_group-Grows t g, insert-HasKey_self "TGHTTP" _ t.resources)
    | inr e ↦ rw e (g, g.base.has_target_group)
  ]

  http_listener_all-Grows :
      (target : String) (t : Template)
      → HasKey target t.resources
      → target ≡ http_target_group_name f spec
      → Grows spec t
      → Grows spec (with_http_listener f spec t)
  unfolding add_resource
  http_listener_all-Grows target t h q g =
      elim (Bool-cases (spec.loadbalancer_type == load_balancer_type_application)) [
        | inl e ↦ rw e (application (Bool-cases spec.http_redirect_to_https))
        | inr e ↦ rw e (network (Bool-cases (spec.loadbalancer_type == load_balancer_type_network)))
      ]
    where
      application :
          (spec.http_redirect_to_https ≡ true) ⊎ (spec.http_redirect_to_https ≡ false)
          → Grows spec (
              if spec.http_redirect_to_https
              then add_resource "HTTPListener"
                  (http_listener f spec (redirect_to_https f spec) "HTTP")
                  t
              else with_deny_rule f spec "HTTPRuleBlockInternalTraffic" "HTTPListener" (
                  add_resource "HTTPListener"
                    (http_listener f spec (forward (ref (http_target_group_name f spec))) "HTTP")
                    t))
      application (inl r) =
          rw r (add_resource-IsGood (growing spec) "HTTPListener" _ t (inl (inl refl), tt) g)
      application (inr r) =
          rw (r, ← q)
            (deny_rule-Grows "HTTPRuleBlockInternalTraffic" "HTTPListener" _
              (has-added "HTTPListener" _ t)
              (http_listener-Grows "HTTPListener" target "HTTP" t h g))

      network :
          (spec.loadbalancer_type == load_balancer_type_network ≡ true)
            ⊎ (spec.loadbalancer_type == load_balancer_type_network ≡ false)
          → Grows spec (
              if spec.loadbalancer_type == load_balancer_type_network
              then add_resource "HTTPListener"
                  (http_listener f spec (forward (ref (http_target_group_name f spec))) "TCP")
                  t
              else t)
      network (inl e) = rw (e, ← q) (http_listener-Grows "HTTPListener" target "TCP" t h g)
      network (inr e) = rw e g

  pub with_http-Grows : (t : Template) → Grows spec t → Grows spec (with_http f spec t)
  unfolding with_http
  with_http-Grows t g = elim (Bool-cases spec.http_disabled) [
    | inl e ↦ rw e g
    | inr e ↦
        let h = http_target_group-Grows t g in
        rw e (
          http_listener_all-Grows (http_target_group_name f spec) (with_http_target_group f spec t)
            h.1 refl h.0)
  ]
