-- ===== src/Worker/Round.antt =====
-- worker.go: a whole round (doWork): what is read, what is then done for each load balancer of the
-- model, and which errors end the round early.
pub mod Calls
pub mod Deletion
use kube_ingress_aws_control.Prelude.{
  ℕ, String, Bool, true, false, Option, none, some, List, [], ◌∷◌, ◌++◌, Result, ok, err,
}
use kube_ingress_aws_control.Certs.{Time, Duration, CertificateSummary}
use kube_ingress_aws_control.Kubernetes.{Ingress, Error}
use kube_ingress_aws_control.Aws.Stack.{Stack, StackError, stack_err}
use kube_ingress_aws_control.Aws.LoadBalancer.{StackLbState, Alarm}
use kube_ingress_aws_control.Worker.{LoadBalancer, Status, ready, update, missing, delete, status}
use kube_ingress_aws_control.Worker.Model.{new_certificates, build_managed_model}
use kube_ingress_aws_control.Worker.Run.{
  Adapters, AwsFailure, Problem, list_resources_failed, aws_failed, stack_error, no_certificates,
  cloud_watch_failed, panic_caused, create_stack, update_stack, delete_stack, update_ingress,
}

-- The settings of the worker, the clock and the library functions that a round calls.
pub record Config : Type 0 where
  pub certs_per_alb : ℕ
  pub cert_ttl : Duration
  pub min_load_balancer_age : Duration
  pub global_waf_acl : String
  pub first_run : Bool
  pub now : Time
  pub verifies : CertificateSummary → String → Bool
  pub to_lower : String → String
  pub sha256_hex : List Alarm → String

-- The errors of the stacks that were found.
unfoldable pub stack_problems : List Stack → List Problem
unfolding stack_err
stack_problems [] = []
stack_problems (s ∷ ss) = problem (stack_err (some s)) (stack_problems ss)
  where
    problem : Option StackError → List Problem → List Problem
    problem none ps = ps
    problem (some e) ps = stack_error s.name e ∷ ps

module _ {W : Type 0} (api : Adapters W) (c : Config) where
  -- What was done, and whether the round goes on.
  abbrev pub Step : Type 0
  Step = W × List Problem × Bool

  unfoldable pub then_ingresses : LoadBalancer → W × List Problem → Step
  then_ingresses lb (w, ps) =
      let (w', qs) = update_ingress api c.now c.min_load_balancer_age c.to_lower lb w in
      (w', ps ++ qs, true)

  unfoldable pub after_create : W × LoadBalancer × List Problem → Step
  after_create (w, lb, ps) = then_ingresses lb (w, ps)

  abbrev pub goes_on : W × List Problem → Step
  goes_on (w, ps) = (w, ps, true)

  -- A nil stack is a fault where it is read.
  unfoldable pub deleting : Option Stack → W → Step
  deleting none w = (w, [], false)
  deleting (some s) w = goes_on (delete_stack api c.now c.min_load_balancer_age s w)

  unfoldable pub updating : Option Stack → LoadBalancer → W → Step
  updating none lb w = (w, [], false)
  updating (some s) lb w = then_ingresses lb (update_stack api c.now c.min_load_balancer_age s lb w)

  -- the switch over the status; `none` is the fault of computing it
  unfoldable pub handle : Option Status → LoadBalancer → W → Step
  handle none lb w = (w, [], false)
  handle (some delete) lb w = deleting lb.stack w
  handle (some missing) lb w = after_create (create_stack api c.now c.min_load_balancer_age lb w)
  handle (some ready) lb w = then_ingresses lb (w, [])
  handle (some update) lb w = updating lb.stack lb w

  abbrev pub after : List Problem → W × List Problem → W × List Problem
  after ps (w, qs) = (w, ps ++ qs)

  abbrev pub next : (W → W × List Problem) → Step → W × List Problem
  next rest (w, ps, false) = (w, ps ++ panic_caused ∷ [])
  next rest (w, ps, true) = after ps (rest w)

  -- the loop over the model, which a fault ends
  unfoldable pub handle_all : List LoadBalancer → W → W × List Problem
  handle_all [] w = (w, [])
  handle_all (lb ∷ lbs) w =
      next (handle_all lbs) (handle (status c.sha256_hex c.now c.first_run lb) lb w)

  -- what follows once everything is read
  unfoldable pub reconcile :
      List Ingress
      → List StackLbState
      → List CertificateSummary
      → List Alarm
      → List Problem
      → W × List Problem
      → W × List Problem
  reconcile ingresses sls certs alarms ps (w, qs) =
      let (w', rs) =
        handle_all
          (build_managed_model (new_certificates c.verifies c.now certs) c.certs_per_alb c.cert_ttl
            ingresses sls alarms c.global_waf_acl)
          w in
      (w', (ps ++ qs) ++ rs)

  unfoldable pub with_alarms_read :
      List Ingress
      → List Stack
      → List StackLbState
      → List CertificateSummary
      → List Problem
      → W
      → W × List Problem
  with_alarms_read ingresses stacks sls certs ps w = elim (api.get_cloud_watch_alarms w) [
    | err e ↦ (w, ps ++ cloud_watch_failed e ∷ [])
    | ok alarms ↦
        reconcile ingresses sls certs alarms ps
          (api.update_target_groups_and_auto_scaling_groups stacks w)
  ]

  unfoldable pub with_certificates :
      List Ingress → List Stack → List StackLbState → List Problem → W → W × List Problem
  with_certificates ingresses stacks sls ps w = elim (api.get_certificates w) [
    | err e ↦ (w, ps ++ aws_failed "failed to get certificates" e ∷ [])
    | ok [] ↦ (w, ps ++ no_certificates ∷ [])
    | ok (x ∷ xs) ↦ with_alarms_read ingresses stacks sls (x ∷ xs) ps w
  ]

  unfoldable pub with_instances :
      List Ingress
      → List Stack
      → List StackLbState
      → List Problem
      → W × Option AwsFailure
      → W × List Problem
  with_instances ingresses stacks sls ps (w, some e) =
      (w, ps ++ aws_failed "failed to get instances from EC2" e ∷ [])
  with_instances ingresses stacks sls ps (w, none) = with_certificates ingresses stacks sls ps w

  unfoldable pub with_states : List Ingress → List Stack → List Problem → W → W × List Problem
  with_states ingresses stacks ps w = elim (api.get_stack_lb_states stacks w) [
    | err e ↦ (w, ps ++ aws_failed "failed to get stack ELBs" e ∷ [])
    | ok sls ↦
        with_instances ingresses stacks sls ps (api.update_auto_scaling_groups_and_instances w)
  ]

  unfoldable pub with_ingresses : List Ingress → W → W × List Problem
  with_ingresses ingresses w = elim (api.find_managed_stacks w) [
    | err e ↦ (w, aws_failed "failed to list managed stacks" e ∷ [])
    | ok stacks ↦ with_states ingresses stacks (stack_problems stacks) w
  ]

  unfoldable pub with_resources : W × Result Error (List Ingress) → W × List Problem
  with_resources (w, err e) = (w, list_resources_failed e ∷ [])
  with_resources (w, ok ingresses) = with_ingresses ingresses w

  unfoldable pub do_work : W → W × List Problem
  do_work w = with_resources (api.list_resources w)
