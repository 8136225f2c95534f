-- ===== src/Aws/Template/Parameters.antt =====
-- The parameters that createStack and updateStack send are those that the template asks for.
use kube_ingress_aws_control.Prelude.{
  ℕ, ◌+◌, String, Bool, true, false, ◌&&◌, ◌||◌, not, ◌≡◌, refl, sym, subst, ◌∙◌, ap, ◌⊎◌, inl, inr,
  Option, none, some, List, [], ◌∷◌, ◌++◌, ◌==◌, eqb, arith, all, All, Bool-cases, sort_strings,
  if◌then◌else◌,
}
use kube_ingress_aws_control.Prelude.Dict.{Dict, has_key, insert, is_some, keys}
use kube_ingress_aws_control.Prelude.Dict.Laws.{HasKey, has_key-HasKey}
use kube_ingress_aws_control.Aws.StackSpec.{StackSpec, HealthCheck}
use kube_ingress_aws_control.Aws.CloudWatch.{Alarm}
use kube_ingress_aws_control.Aws.Stack.Spec.{
  Formats, all_parameters, health_check_parameters, boolean, join,
}
use kube_ingress_aws_control.Aws.Stack.Reading.{
  parameter_load_balancer_scheme, parameter_load_balancer_security_group,
  parameter_listener_ssl_policy, parameter_ip_address_type, parameter_load_balancer_type,
  parameter_load_balancer_waf_web_acl_id, parameter_http2,
}
use kube_ingress_aws_control.Aws.Template.{
  Template, Parameter, parameter, default_parameters, add_parameter, add_resource, add_output,
  base_template,
}
use kube_ingress_aws_control.Aws.Template.Listeners.{
  TemplateFormats, with_http, with_https, with_certificates, with_http_listener,
  with_http_target_group, has_own_http_target_group,
}
use kube_ingress_aws_control.Aws.Template.Generate.{
  with_load_balancer, with_waf, with_alarms, build_template,
}

-- Each parameter that is sent is one of the template's, and each one of the template's is sent or has
-- a default.
abbrev pub Agree : List (String × String) → Dict Parameter → Type 0
Agree sent declared =
    All (λ e. HasKey e.0 declared) sent
    × All (λ e. HasKey e.0 sent ⊎ (is_some e.1.default ≡ true)) declared

-- The same as a test.
abbrev agree : List (String × String) → Dict Parameter → Bool
agree sent declared =
    all (λ e. has_key e.0 declared) sent
    && all (λ e. has_key e.0 sent || is_some e.1.default) declared

all-All {ℓ} :
    {A : Type ℓ} (p : A → Bool) (P : A → Type 0)
    → ((a : A) → p a ≡ true → P a)
    → (l : List A) → all p l ≡ true
    → All P l
all-All p P h [] e = tt
all-All p P h (a ∷ l) e = (h a (ground (arith, e)), all-All p P h l (ground (arith, e)))

agree-Agree :
    (sent : List (String × String)) (declared : Dict Parameter)
    → agree sent declared ≡ true
    → Agree sent declared
agree-Agree sent declared e = (
  all-All (λ s. has_key s.0 declared) _ (λ s. has_key-HasKey s.0 declared) sent (ground (arith, e)),
  all-All (λ d. has_key d.0 sent || is_some d.1.default) _ either declared (ground (arith, e)),
)
  where
    either :
        (d : String × Parameter)
        → (has_key d.0 sent || is_some d.1.default) ≡ true
        → HasKey d.0 sent ⊎ (is_some d.1.default ≡ true)
    either d e = elim (Bool-cases (has_key d.0 sent)) [
      | inl h ↦ inl (has_key-HasKey d.0 sent h)
      | inr h ↦ inr (ground (arith, e, h))
    ]

-- What the template declares, by whether there is a WAF and whether HTTP has a port of its own.
abbrev declared_for : Bool → Bool → Dict Parameter
declared_for no_waf own_port =
    let ps =
      if no_waf
      then default_parameters
      else insert parameter_load_balancer_waf_web_acl_id
          (parameter "String" "Associated WAF ID or ARN." none) default_parameters in
    if own_port
    then insert "TargetGroupHTTPTargetPortParameter"
        (record { type = "Number"; description = "The HTTP target port"; default = none }) ps
    else ps

abbrev sent_for : Formats → StackSpec → Bool → Bool → Option HealthCheck → List (String × String)
sent_for g spec no_waf own_port h =
    ((parameter_load_balancer_scheme, spec.scheme)
      ∷ (parameter_load_balancer_security_group, spec.security_group_id)
      ∷ ("LoadBalancerSubnetsParameter", join "," spec.subnets)
      ∷ ("TargetGroupVPCIDParameter", spec.vpc_id)
      ∷ ("TargetGroupTargetPortParameter", g.decimal spec.target_port)
      ∷ (parameter_listener_ssl_policy, spec.ssl_policy)
      ∷ (parameter_ip_address_type, spec.ip_address_type)
      ∷ (parameter_load_balancer_type, spec.loadbalancer_type)
      ∷ (parameter_http2, boolean spec.http2)
      ∷ [])
    ++ (if no_waf then [] else (parameter_load_balancer_waf_web_acl_id, spec.waf_web_acl_id) ∷ [])
    ++ (if own_port
        then ("TargetGroupHTTPTargetPortParameter", g.decimal spec.http_target_port) ∷ []
        else [])
    ++ health_check_parameters g h

agree_for :
    (g : Formats) (spec : StackSpec) (no_waf own_port : Bool) (h : Option HealthCheck)
    → agree (sent_for g spec no_waf own_port h) (declared_for no_waf own_port) ≡ true
unfolding has_key insert
agree_for g spec true true none = refl
agree_for g spec true true (some h) = refl
agree_for g spec true false none = refl
agree_for g spec true false (some h) = refl
agree_for g spec false true none = refl
agree_for g spec false true (some h) = refl
agree_for g spec false false none = refl
agree_for g spec false false (some h) = refl

module _ (f : TemplateFormats) (spec : StackSpec) where
  -- Resources and outputs leave the parameters as they are.
  alarms_parameters :
      (idx : ℕ) (alarms : List Alarm) (t : Template)
      → (with_alarms f idx alarms t).parameters ≡ t.parameters
  unfolding with_alarms
  alarms_parameters idx [] t = refl
  alarms_parameters idx (a ∷ as') t = alarms_parameters (idx + 1) as' _

  waf_parameters : (t : Template) → (with_waf f spec t).parameters ≡ t.parameters
  unfolding with_waf
  waf_parameters t = ground arith

  certificates_parameters :
      (arns : List String) (t : Template)
      → (with_certificates f spec arns t).parameters ≡ t.parameters
  unfolding add_resource
  certificates_parameters [] t = refl
  certificates_parameters (a ∷ as') t = ground arith

  http_listener_parameters :
      (t : Template) → (with_http_listener f spec t).parameters ≡ t.parameters
  unfolding add_resource
  http_listener_parameters t = ground arith

  balancer_parameters : (t : Template) → (with_load_balancer f spec t).parameters ≡ t.parameters
  unfolding with_load_balancer
  balancer_parameters t = refl

  https_parameters : (t : Template) → (with_https f spec t).parameters ≡ t.parameters
  unfolding with_https
  https_parameters t = certificates_parameters (sort_strings (keys spec.certificate_arns)) t

  whole_parameters :
      (build_template f spec).parameters
      ≡ (with_http f spec (base_template f.decimal spec)).parameters
  unfolding build_template
  whole_parameters =
      let listening = with_http f spec (base_template f.decimal spec) in
      let certified = with_https f spec listening in
      let balanced = with_load_balancer f spec certified in
      alarms_parameters 0 spec.cw_alarms (with_waf f spec balanced)
      ∙ (waf_parameters balanced ∙ (balancer_parameters certified ∙ https_parameters listening))

  abbrev own_port : Bool
  own_port = not spec.http_disabled && not (eqb spec.http_target_port spec.target_port)

  base_parameters :
      (base_template f.decimal spec).parameters ≡ declared_for (spec.waf_web_acl_id == "") false
  unfolding base_template
  base_parameters = elim (Bool-cases (spec.waf_web_acl_id == "")) [
    | inl e ↦ rw e refl
    | inr e ↦ rw e refl
  ]

  abbrev with_port : Bool → Dict Parameter → Dict Parameter
  with_port b ps =
      if b
      then insert "TargetGroupHTTPTargetPortParameter"
          (record { type = "Number"; description = "The HTTP target port"; default = none }) ps
      else ps

  group_parameters :
      (b : Bool) (t : Template)
      → b ≡ has_own_http_target_group f spec
      → (with_http_target_group f spec t).parameters ≡ with_port b t.parameters
  unfolding add_resource add_parameter add_output
  group_parameters true t e = rw (← e) refl
  group_parameters false t e = rw (← e) refl

  http_parameters :
      (with_http f spec (base_template f.decimal spec)).parameters
      ≡ declared_for (spec.waf_web_acl_id == "") own_port
  unfolding with_http base_template
  http_parameters = elim (Bool-cases spec.http_disabled) [
    | inl d ↦ rw d base_parameters
    | inr d ↦
        let t = base_template f.decimal spec in
        rw d (
          http_listener_parameters (with_http_target_group f spec t)
          ∙ (group_parameters (not (eqb spec.http_target_port spec.target_port)) t refl
              ∙ ap (with_port (not (eqb spec.http_target_port spec.target_port))) base_parameters))
  ]

  -- Whatever the specification, the parameters of createStack and updateStack agree with those of
  -- its template: each one that is sent is declared, and each one that is declared is sent or has a
  -- default.
  pub all_parameters-Agree :
      (g : Formats) → Agree (all_parameters g spec) (build_template f spec).parameters
  unfolding all_parameters
  all_parameters-Agree g =
      subst (Agree (all_parameters g spec)) (sym (whole_parameters ∙ http_parameters)) (
        agree-Agree (all_parameters g spec) (declared_for (spec.waf_web_acl_id == "") own_port)
          (agree_for g spec (spec.waf_web_acl_id == "") own_port spec.health_check))
