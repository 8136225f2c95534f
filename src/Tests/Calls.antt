-- ===== src/Tests/Calls.antt =====
-- The calls of the adapter on a small outside world.
use kube_ingress_aws_control.Prelude.{
  String, ◌≡◌, ◌⊎◌, refl, ap, inl, inr, true, false, Option, none, some, List, [], ◌∷◌, ◌++◌, map,
  In, In-append_left, In-append_right, map-In, All, All-append, All-imp, All-of, Bool-cases, Result,
  ok, err, ◌==◌, eq_iff, subst, if◌then◌else◌, some_eq, ok_eq,
}
use kube_ingress_aws_control.Prelude.Dict.{insert}
use kube_ingress_aws_control.Aws.Asg.{
  AwsError, AutoScalingGroupDetails, all_pages, categorize_target_type_instance,
}
use kube_ingress_aws_control.Aws.Asg.Chunks.{process_chunked, chunk_loop}
use kube_ingress_aws_control.Aws.Asg.Targets.{TargetGroupApi, detach_target_groups}
use kube_ingress_aws_control.Aws.Ec2.{
  Ec2Api, Instance, AdapterError, wrapped, instance_details_of, by_id,
  get_instances_details_with_filters,
}
use kube_ingress_aws_control.Aws.LoadBalancer.Targets.{TargetApi}
use kube_ingress_aws_control.Aws.LoadBalancer.{LoadBalancerState}
use kube_ingress_aws_control.Aws.LoadBalancer.States.{LbReply}
use kube_ingress_aws_control.Aws.Stack.{Stack, create_complete}
use kube_ingress_aws_control.Aws.Stack.Spec.{CloudFormationApi}
use kube_ingress_aws_control.Aws.Stack.Spec
use kube_ingress_aws_control.Aws.Adapter.{Adapter, new_adapter}
use kube_ingress_aws_control.Aws.Adapter.Instances.{update_auto_scaling_groups_and_instances}
use kube_ingress_aws_control.Aws.Adapter.Instances.Tracked.{IsTracked, update_instances-IsTracked}
use kube_ingress_aws_control.Aws.Adapter.Stacks.{delete_stack, detach_and_delete}
use kube_ingress_aws_control.Aws.Adapter.Stacks.Detached.{delete_stack-Outcome}
use kube_ingress_aws_control.Aws.Adapter.States.{get_stack_lb_states}
use kube_ingress_aws_control.Aws.Adapter.States.Exact.{get_stack_lb_states-exact}
use kube_ingress_aws_control.Aws.Adapter.Targets.{
  Run, all_target_group_arns, update_target_groups_and_auto_scaling_groups,
}
use kube_ingress_aws_control.Aws.Adapter.Targets.Obsolete.{
  SettledFrom, update_target_groups-Settled,
}
use kube_ingress_aws_control.Tests.Adapter.{adapter}

abbrev group : AutoScalingGroupDetails
group = record {
  name = "asg";
  arn = "asg:1";
  target_groups = [];
  launch_configuration_name = "";
  tags = [];
}

-- an adapter with a group, an instance of its own and one that is to be deregistered
abbrev busy : Adapter
unfolding new_adapter
busy = record adapter {
  targeted_auto_scaling_groups = ("asg", group) ∷ [];
  single_instances =
      ("i-1", record { id = "i-1"; ip = ""; vpc_id = ""; tags = []; running = true }) ∷ [];
  obsolete_instances = "i-0" ∷ [];
}

abbrev instance_2 : Instance
instance_2 = record {
  instance_id = "i-2";
  private_ip_address = "10.0.0.2";
  vpc_id = "vpc";
  tags = [];
  state_code = 16;
}

abbrev ec2 : Ec2Api
ec2 = record {
  describe_instances = λ fs. ok [];
  instance_pages = λ fs. ok ((instance_2 ∷ []) ∷ []) ∷ [];
  describe_subnets = λ fs. ok [];
  describe_route_tables = λ fs. ok [];
  describe_security_groups = λ fs. ok [];
}

update_instances-IsTracked_example :
    IsTracked busy
      (("i-2", instance_details_of instance_2) ∷ [])
      (update_auto_scaling_groups_and_instances ec2 [] busy).0
      "i-1"
unfolding get_instances_details_with_filters all_pages by_id insert
update_instances-IsTracked_example =
    update_instances-IsTracked ec2 [] busy (("i-2", instance_details_of instance_2) ∷ []) "i-1" refl

-- The outside world as the calls that took something away: from where, and what.
abbrev World : Type 0
World = List (String × String)

abbrev taken : String → List String → World → World
taken name things w = w ++ map (λ b. (name, b)) things

abbrev Taken : String → List String → World → Type 0
Taken name things w = All (λ b. In {A = String × String} (name, b) w) things

Taken-taken :
    (name : String) (things : List String) (w : World) → Taken name things (taken name things w)
Taken-taken name things w =
    All-of (λ b. In {A = String × String} (name, b) (taken name things w)) things
      (λ b i.
        In-append_right (name, b) w (map (λ b. (name, b)) things)
          (map-In (λ b. (name, b)) b things i))

Taken_still :
    (name other : String) (things more : List String) (w : World)
    → Taken other things w
    → Taken other things (taken name more w)
Taken_still name other things more w =
    All-imp things (λ b i. In-append_left (other, b) w (map (λ c. (name, c)) more) i)

Taken_more :
    (name : String) (things more : List String) (w : World)
    → Taken name things w
    → Taken name (things ++ more) (taken name more w)
Taken_more name things more w t =
    All-append (λ b. In {A = String × String} (name, b) (taken name more w)) things more
      (Taken_still name name things more w t) (Taken-taken name more w)

abbrev groups : TargetGroupApi World
groups = record {
  describe_load_balancer_target_groups = λ n w. ok [];
  target_group_pages =
      λ w. ok (record { target_group_arn = "tg"; target_type = "instance" } ∷ []) ∷ [];
  describe_tags_of = λ w arns. ok [];
  attach = λ n arns w. (w, none);
  detach = λ n arns w. (taken n arns w, none);
}

abbrev targets : TargetApi World
targets = record {
  register = λ arn ids w. (w, none);
  deregister = λ arn ids w. (taken arn ids w, none);
  describe_target_health = λ arn w. ok [];
}

abbrev formation : CloudFormationApi AdapterError World
formation = record {
  create = λ i w. (w, ok "id");
  update = λ i w. (w, ok "id");
  update_termination_protection = λ s b w. (w, none);
  delete = λ s w. (taken "stacks" (s ∷ []) w, none);
}

abbrev stack : Stack
stack = record {
  name = "stack-1";
  status = create_complete;
  status_reason = "";
  load_balancer_arn = "lb-1";
  dns_name = "";
  scheme = "";
  security_group = "";
  ssl_policy = "";
  ip_address_type = "";
  load_balancer_type = "";
  http2 = true;
  owner_ingress = "";
  cw_alarm_config_hash = "";
  target_group_arns = "tg" ∷ [];
  waf_web_acl_id = "";
  certificate_arns = [];
  tags = [];
}

delete_stack_test :
    delete_stack groups formation busy stack []
    ≡ some (("asg", "tg") ∷ ("stacks", "stack-1") ∷ [], none)
unfolding delete_stack detach_and_delete detach_target_groups process_chunked chunk_loop
    Spec.delete_stack busy
delete_stack_test = refl

-- The stack "stack-0" stays deleted.
delete_stack-Outcome_example :
    (p : World × Option AdapterError) × (delete_stack groups formation busy stack
        (("stacks", "stack-0") ∷ [])
      ≡ some p)
    × (((v : World) × Taken "stacks" ("stack-0" ∷ []) v
          × All (λ e. Taken e.1.name ("tg" ∷ []) v) busy.targeted_auto_scaling_groups
          × (p ≡ Spec.delete_stack formation "stack-1" v))
        ⊎ ((e : AdapterError) × (p.1 ≡ some e) × Taken "stacks" ("stack-0" ∷ []) p.0))
delete_stack-Outcome_example =
    delete_stack-Outcome groups formation Taken (λ name w. tt)
      (λ name arns chunk w t _ _. Taken_more name arns chunk w t)
      (λ name other arns chunk w t. Taken_still name other arns chunk w t)
      (Taken "stacks" ("stack-0" ∷ []))
      (λ name chunk w t. Taken_still name "stacks" ("stack-0" ∷ []) chunk w t) busy stack
      (("stacks", "stack-0") ∷ []) (inl refl, tt)

update_target_groups-Settled_example :
    (r : Adapter × Run groups targets) × (update_target_groups_and_auto_scaling_groups groups
        targets
        (stack ∷ [])
        busy
        ([], [])
      ≡ some r)
    × SettledFrom groups targets
        (λ ids arn w. Taken arn ids w)
        (λ ids arn w e. Taken-taken arn ids w)
        (λ ids ids' arn arn' w t. Taken_still arn' arn ids ids' w t)
        busy.obsolete_instances
        (all_target_group_arns (stack ∷ []))
        (categorize_target_type_instance
          (groups.target_group_pages [])
          (all_target_group_arns (stack ∷ [])))
        r
update_target_groups-Settled_example =
    update_target_groups-Settled groups targets (λ ids arn w. Taken arn ids w)
      (λ ids arn w e. Taken-taken arn ids w)
      (λ ids ids' arn arn' w t. Taken_still arn' arn ids ids' w t) (stack ∷ []) busy [] []

abbrev active : LoadBalancerState
active = record { created_time = 3; state_code = "active"; reason = "" }

-- One load balancer exists.
abbrev state : String → Option (Option LoadBalancerState)
state arn = if arn == "lb-1" then some (some active) else none

abbrev describe : List String → Result AwsError (List LbReply)
describe arns = ok (("lb-1", some active) ∷ [])

state_sound :
    (chunk : List String) (lbs : List LbReply)
    → describe chunk ≡ ok lbs
    → All (λ e. state e.0 ≡ some e.1) lbs
state_sound chunk lbs e = subst (All (λ e. state e.0 ≡ some e.1)) (ok_eq e) (refl, tt)

state_complete :
    (chunk : List String) (lbs : List LbReply) (arn : String) (s : Option LoadBalancerState)
    → describe chunk ≡ ok lbs
    → In arn chunk
    → state arn ≡ some s
    → In (arn, s) lbs
state_complete chunk lbs arn s e i q =
    subst (In {A = LbReply} (arn, s)) (ok_eq e) (there (Bool-cases (arn == "lb-1")))
  where
    there :
        (((arn == "lb-1") ≡ true) ⊎ ((arn == "lb-1") ≡ false))
        → In {A = LbReply} (arn, s) (("lb-1", some active) ∷ [])
    there (inl t) = inl (rw ((eq_iff arn "lb-1").0 t) (ap (λ z. ("lb-1", z)) (some_eq (rw t at q))))
    there (inr f) = cc

get_stack_lb_states-exact_example :
    (get_stack_lb_states describe (stack ∷ [])
      ≡ some (ok (record { stack = stack; lb_state = some active } ∷ [])))
    ⊎ ((e : AwsError) × (chunk : List String) × (describe chunk ≡ err e)
        × (get_stack_lb_states describe (stack ∷ [])
            ≡ some (err (wrapped "failed to get load balancer states" e))))
get_stack_lb_states-exact_example =
    get_stack_lb_states-exact describe state state_sound state_complete (stack ∷ [])
