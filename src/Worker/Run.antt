-- ===== src/Worker/Run.antt =====
-- worker.go: one round of the worker (doWork), which brings the stacks and the status of the
-- resources in line with the model. The adapters of AWS and Kubernetes are an interface: a call that
-- changes something takes the state of the outside world and returns the new one.
use kube_ingress_aws_control.Prelude.{
  String, Bool, false, not, ◌||◌, Option, none, some, List, [], ◌∷◌, ◌++◌, ◌==◌, ltb, has_prefix,
  Result, ok, err, if◌then◌else◌,
}
use kube_ingress_aws_control.Prelude.Dict.{Dict, keys}
use kube_ingress_aws_control.Certs.{Time, Duration, CertificateSummary}
use kube_ingress_aws_control.Kubernetes.{
  Error, Ingress, update_not_needed, default_cluster_local_domain,
}
use kube_ingress_aws_control.Aws.Stack.{Stack, StackError, is_complete}
use kube_ingress_aws_control.Aws.LoadBalancer.{
  LoadBalancerState, StackLbState, Alarm, is_active, age,
}
use kube_ingress_aws_control.Worker.{LoadBalancer, certificate_arns, owner}

-- An error of the AWS adapter: whether it is an AlreadyExistsException, and its text.
pub record AwsFailure : Type 0 where
  pub already_exists : Bool
  pub text : String

-- problem.List, by the messages and the errors that they wrap
pub data Problem : Type 0 where
  list_resources_failed : Error → Problem
  aws_failed : String → AwsFailure → Problem
  stack_error : String → StackError → Problem
  no_certificates : Problem
  cloud_watch_failed : Error → Problem
  create_stack_failed update_stack_failed : List String → AwsFailure → Problem
  delete_stack_failed : String → AwsFailure → Problem
  update_ingress_failed : Ingress → Error → Problem
  panic_caused : Problem

-- What a stack is created or updated with; `cert` is a certificate's name, or its name and time.
pub record StackRequest (Cert : Type 0) : Type 0 where
  pub certificates : List Cert
  pub scheme : String
  pub security_group : String
  pub owner : String
  pub ssl_policy : String
  pub ip_address_type : String
  pub waf_web_acl_id : String
  pub cw_alarms : List Alarm
  pub load_balancer_type : String
  pub http2 : Bool

-- the calls of the adapters in a round
pub record Adapters (W : Type 0) : Type 0 where
  pub create_stack : StackRequest String → W → W × (String × Option AwsFailure)
  pub get_stack : String → W → Result AwsFailure Stack
  pub update_stack : String → StackRequest (String × Time) → W → W × Option AwsFailure
  pub delete_stack : Stack → W → W × Option AwsFailure
  pub update_ingress_load_balancer : Ingress → String → W → W × Option Error
  pub list_resources : W → W × Result Error (List Ingress)
  pub find_managed_stacks : W → Result AwsFailure (List Stack)
  pub get_stack_lb_states : List Stack → W → Result AwsFailure (List StackLbState)
  pub update_auto_scaling_groups_and_instances : W → W × Option AwsFailure
  pub get_certificates : W → Result AwsFailure (List CertificateSummary)
  pub get_cloud_watch_alarms : W → Result Error (List Alarm)
  pub update_target_groups_and_auto_scaling_groups : List Stack → W → W × List Problem

-- strings.Contains
unfoldable pub contains : String → String → Bool
unfolding has_prefix
contains String.[] t = String.[] == t
contains (String.◌∷◌ c s) t = has_prefix (String.◌∷◌ c s) t || contains s t

unfoldable pub is_no_updates_to_be_performed_error : Option AwsFailure → Bool
unfolding contains
is_no_updates_to_be_performed_error none = false
is_no_updates_to_be_performed_error (some e) = contains e.text "No updates are to be performed"

unfoldable pub is_already_exists_error : Option AwsFailure → Bool
is_already_exists_error none = false
is_already_exists_error (some e) = e.already_exists

unfoldable pub request : {Cert : Type 0} → List Cert → LoadBalancer → StackRequest Cert
unfolding owner
request certs lb = record {
  certificates = certs;
  scheme = lb.scheme;
  security_group = lb.security_group;
  owner = owner lb;
  ssl_policy = lb.ssl_policy;
  ip_address_type = lb.ip_address_type;
  waf_web_acl_id = lb.waf_web_acl_id;
  cw_alarms = lb.cw_alarms;
  load_balancer_type = lb.load_balancer_type;
  http2 = lb.http2;
}

module _ {W : Type 0} (api : Adapters W) (now : Time) (min_load_balancer_age : Duration) where
  -- the stack that is there already, or the problem that it cannot be found
  abbrev pub found : LoadBalancer → W → Result AwsFailure Stack → W × LoadBalancer × List Problem
  found lb w (ok s) = (w, record lb { stack = some s }, [])
  found lb w (err e) =
      (w, record lb { stack = none }, create_stack_failed (keys lb.ingresses) e ∷ [])

  abbrev pub created :
      LoadBalancer → W × (String × Option AwsFailure) → W × LoadBalancer × List Problem
  created lb (w, (stack_id, none)) = (w, lb, [])
  created lb (w, (stack_id, some e)) =
      if is_already_exists_error (some e)
      then found lb w (api.get_stack stack_id w)
      else (w, lb, create_stack_failed (keys lb.ingresses) e ∷ [])

  unfoldable pub create_stack : LoadBalancer → W → W × LoadBalancer × List Problem
  unfolding request is_already_exists_error
  create_stack lb w = created lb (api.create_stack (request (keys lb.ingresses) lb) w)

  abbrev pub updated : List String → W × Option AwsFailure → W × List Problem
  updated certs (w, none) = (w, [])
  updated certs (w, some e) =
      if is_no_updates_to_be_performed_error (some e)
      then (w, [])
      else (w, update_stack_failed certs e ∷ [])

  -- updateStack, for a load balancer with a stack
  unfoldable pub update_stack : Stack → LoadBalancer → W → W × List Problem
  unfolding certificate_arns request is_no_updates_to_be_performed_error
  update_stack s lb w =
      let certs = certificate_arns now lb in
      updated (keys certs) (api.update_stack s.name (request certs lb) w)

  abbrev pub deleted : String → W × Option AwsFailure → W × List Problem
  deleted name (w, none) = (w, [])
  deleted name (w, some e) = (w, delete_stack_failed name e ∷ [])

  unfoldable pub delete_stack : Stack → W → W × List Problem
  delete_stack s w = deleted s.name (api.delete_stack s w)

  -- `to_lower` is strings.ToLower.
  module _ (to_lower : String → String) where
    abbrev known_active : Option LoadBalancerState → Bool
    known_active none = false
    known_active (some ls) = is_active (some ls)

    unfoldable pub stack_dns_name : Option Stack → Option LoadBalancerState → Option String
    unfolding is_complete is_active age
    stack_dns_name none state = none
    stack_dns_name (some s) state =
        if not (is_complete (some s))
        then none
        else if not (known_active state)
        then none
        else if ltb (age now state) min_load_balancer_age
        then none
        else some (to_lower s.dns_name)

    -- the name for the status of the resources, unless they are left alone
    unfoldable pub dns_name : LoadBalancer → Option String
    unfolding stack_dns_name
    dns_name lb =
        if lb.cluster_local
        then some default_cluster_local_domain
        else stack_dns_name lb.stack lb.state

    abbrev pub problem_of : Ingress → Option Error → List Problem
    problem_of i none = []
    problem_of i (some update_not_needed) = []
    problem_of i (some e) = update_ingress_failed i e ∷ []

    -- the loops over the map and over the ingresses of one certificate
    unfoldable pub update_each : String → List Ingress → W → W × List Problem
    update_each dns [] w = (w, [])
    update_each dns (i ∷ is') w =
        let (w', e) = api.update_ingress_load_balancer i dns w in
        let (w'', ps) = update_each dns is' w' in (w'', problem_of i e ++ ps)

    unfoldable pub update_entries : String → Dict (List Ingress) → W → W × List Problem
    unfolding update_each
    update_entries dns [] w = (w, [])
    update_entries dns ((arn, is') ∷ m) w =
        let (w', ps) = update_each dns is' w in
        let (w'', qs) = update_entries dns m w' in (w'', ps ++ qs)

    unfoldable pub update_named : Option String → LoadBalancer → W → W × List Problem
    unfolding update_entries
    update_named none lb w = (w, [])
    update_named (some dns) lb w = update_entries dns lb.ingresses w

    unfoldable pub update_ingress : LoadBalancer → W → W × List Problem
    unfolding dns_name update_named
    update_ingress lb w = update_named (dns_name lb) lb w
