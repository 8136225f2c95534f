-- ===== src/Tests/Worker.antt =====
-- The model of the load balancers, and a round, on concrete inputs.
use kube_ingress_aws_control.Prelude.{
  String, ◌≡◌, inl, inr, refl, true, false, none, some, List, [], ◌∷◌, ◌==◌, arith, All, Any, ok,
  ◌||◌,
}
use kube_ingress_aws_control.Prelude.Dict.{lookup}
use kube_ingress_aws_control.Prelude.Dict.Laws.{==_false}
use kube_ingress_aws_control.Certs.{CertificateSummary}
use kube_ingress_aws_control.Kubernetes.{Ingress}
use kube_ingress_aws_control.Aws.Stack.{Stack, create_complete, should_delete}
use kube_ingress_aws_control.Aws.LoadBalancer.{StackLbState}
use kube_ingress_aws_control.Worker.{LoadBalancer, certificate_arns}
use kube_ingress_aws_control.Worker.Certificates.{
  or_else, time_needed, time_kept, certificate_arns-exact,
}
use kube_ingress_aws_control.Worker.Model.{
  CertificatesFinder, resolve, new_load_balancer, build_managed_model,
}
use kube_ingress_aws_control.Worker.Model.Uniform.{IsUniform, build_managed_model-IsUniform}
use kube_ingress_aws_control.Worker.Model.Bounds.{IsWithin, build_managed_model-IsWithin}
use kube_ingress_aws_control.Worker.Model.Placement.{Serves, build_managed_model-Placed}
use kube_ingress_aws_control.Worker.Model.Faults.{HasStatus, build_managed_model-HasStatus}
use kube_ingress_aws_control.Worker.Run.{Adapters}
use kube_ingress_aws_control.Worker.Round.{Config, do_work}
use kube_ingress_aws_control.Worker.Round.Calls.{Keeps}
use kube_ingress_aws_control.Worker.Round.Deletion.{do_work-keeps}
use kube_ingress_aws_control.Prelude.{has_prefix}
use kube_ingress_aws_control.Prelude.Dict.{has_key, insert}
use kube_ingress_aws_control.Certs.Matching.{find_best_matching_certificates}
use kube_ingress_aws_control.Aws.LoadBalancer.{age, hash, is_active}
use kube_ingress_aws_control.Aws.Stack.{is_complete, stack_err}
use kube_ingress_aws_control.Worker.Model.{
  attach_cloud_watch_alarms, match_ingresses_to_load_balancers, match_all, attach_global_waf_acl,
  match_ingress, new_certificates, add_cluster_local, alone, available, get_all_load_balancers,
  insert_stack, load_balancer_of, place, sort_stacks,
}
use kube_ingress_aws_control.Worker.Round.{
  with_resources, with_ingresses, with_states, with_instances, with_certificates, with_alarms_read,
  reconcile, handle_all, after_create, deleting, handle, stack_problems, then_ingresses, updating,
}
use kube_ingress_aws_control.Worker.Run.{
  contains, create_stack, delete_stack, dns_name, is_already_exists_error,
  is_no_updates_to_be_performed_error, request, stack_dns_name, update_each, update_entries,
  update_ingress, update_named, update_stack,
}
use kube_ingress_aws_control.Worker.{
  add_ingress, append_all, append_to, deep_equal, in_sync, needed, new_certs, owner, refuses,
  retain, settings_differ, shared_settings_differ, status, with_ingress, with_local,
}

model : Unit {0}
unfolding do_work build_managed_model resolve new_load_balancer should_delete lookup
    certificate_arns has_prefix has_key insert find_best_matching_certificates age hash is_active
    is_complete stack_err attach_cloud_watch_alarms match_ingresses_to_load_balancers match_all
    attach_global_waf_acl match_ingress new_certificates add_cluster_local alone available
    get_all_load_balancers insert_stack load_balancer_of place sort_stacks with_resources
    with_ingresses with_states with_instances with_certificates with_alarms_read reconcile
    handle_all after_create deleting handle stack_problems then_ingresses updating contains
    create_stack delete_stack dns_name is_already_exists_error is_no_updates_to_be_performed_error
    request stack_dns_name update_each update_entries update_ingress update_named update_stack
    add_ingress append_all append_to deep_equal in_sync needed new_certs owner refuses retain
    settings_differ shared_settings_differ status with_ingress with_local
model = tt

abbrev certs : CertificatesFinder
certs = record {
  certificate_exists = λ arn. arn == "arn:1" || arn == "arn:2";
  find_matching_certificate_ids = λ hosts. elim hosts [ [] ↦ [] | h ∷ hs ↦ "arn:1" ∷ "arn:2" ∷ [] ];
}

abbrev ingress : String → Ingress
ingress name = record {
  resource_type = "ingress";
  namespace = "default";
  name = name;
  shared = true;
  http2 = true;
  cluster_local = false;
  certificate_arn = "";
  hostname = "";
  scheme = "internal";
  security_group = "sg-1";
  ssl_policy = "";
  has_ssl_policy_annotation = false;
  ip_address_type = "ipv4";
  load_balancer_type = "application";
  waf_web_acl_id = "";
  hostnames = "shop.org" ∷ [];
}

abbrev shop : Ingress
shop = ingress "shop"

abbrev news : Ingress
news = ingress "news"

abbrev stack : Stack
stack = record {
  name = "stack";
  status = create_complete;
  status_reason = "";
  load_balancer_arn = "lb";
  dns_name = "LB.example.org";
  scheme = "internal";
  security_group = "sg-1";
  ssl_policy = "";
  ip_address_type = "ipv4";
  load_balancer_type = "application";
  http2 = true;
  owner_ingress = "";
  cw_alarm_config_hash = "";
  target_group_arns = [];
  waf_web_acl_id = "";
  certificate_arns = ("arn:1", 0) ∷ ("arn:2", 50) ∷ [];
  tags = [];
}

abbrev stacks : List StackLbState
stacks = record { stack = stack; lb_state = none } ∷ []

abbrev ingresses : List Ingress
ingresses = shop ∷ news ∷ []

build_managed_model-IsUniform_example :
    All IsUniform (build_managed_model certs 10 60 ingresses stacks [] "")
build_managed_model-IsUniform_example =
    build_managed_model-IsUniform certs 10 60 ingresses stacks [] ""

build_managed_model-IsWithin_example :
    All (IsWithin 10) (build_managed_model certs 10 60 ingresses stacks [] "")
build_managed_model-IsWithin_example =
    build_managed_model-IsWithin certs 10 10 60 ingresses stacks [] "" (omega arith) (omega arith)
      (omega arith, tt) (omega arith, (omega arith, tt))

build_managed_model-Placed_example :
    Any
      (Serves ("arn:1" ∷ "arn:2" ∷ []) news)
      (build_managed_model certs 10 60 ingresses stacks [] "")
unfolding resolve
build_managed_model-Placed_example =
    build_managed_model-Placed certs 10 60 ingresses stacks [] "" news ("arn:1" ∷ "arn:2" ∷ [])
      (inr (inl refl)) refl refl

build_managed_model-HasStatus_example :
    All (HasStatus (λ l. "hash") 100 false) (build_managed_model certs 10 60 ingresses stacks [] "")
build_managed_model-HasStatus_example =
    build_managed_model-HasStatus certs 10 60 ingresses stacks [] "" (λ l. "hash") 100 false

-- A load balancer that uses one of the two certificates of its stack.
abbrev lb : LoadBalancer
lb = record {
  ingresses = ("arn:1", shop ∷ []) ∷ ("arn:2", []) ∷ [];
  scheme = "internal";
  stack = some stack;
  state = none;
  existing_stack_certificate_arns = ("arn:1", 0) ∷ ("arn:2", 0) ∷ [];
  shared = true;
  http2 = true;
  cluster_local = false;
  security_group = "sg-1";
  ssl_policy = "";
  ip_address_type = "ipv4";
  waf_web_acl_id = "";
  cert_ttl = 60;
  cw_alarms = [];
  load_balancer_type = "application";
}

certificate_arns-exact_example :
    lookup "arn:2" (certificate_arns 100 lb)
    ≡ or_else
        (time_needed (lookup "arn:2" lb.ingresses))
        (time_kept 100 60 (lookup "arn:2" lb.existing_stack_certificate_arns))
certificate_arns-exact_example =
    certificate_arns-exact 100 lb "arn:2" ((==_false "arn:2" "arn:1" refl, tt), (tt, tt))
      ((==_false "arn:2" "arn:1" refl, tt), (tt, tt))

certificate_arns_test : certificate_arns 100 lb ≡ ("arn:1", 0) ∷ ("arn:2", 160) ∷ []
unfolding certificate_arns retain needed
certificate_arns_test = refl

abbrev config : Config
config = record {
  certs_per_alb = 10;
  cert_ttl = 60;
  min_load_balancer_age = 0;
  global_waf_acl = "";
  first_run = false;
  now = 100;
  verifies = λ c h. true;
  to_lower = λ s. s;
  sha256_hex = λ l. "hash";
}

abbrev old_stack : Stack
old_stack = record stack { name = "old"; certificate_arns = ("arn:1", 50) ∷ [] }

abbrev summary : CertificateSummary
summary = record {
  id = "arn:1";
  certificate = record { common_name = ""; dns_names = []; not_before = 0; not_after = 1000 };
  chain = [];
  roots = none;
  domain_names = "shop.org" ∷ [];
}

-- The outside world as the list of the stacks that were deleted.
abbrev World : Type 0
World = List Stack

abbrev api : Adapters World
api = record {
  create_stack = λ r w. (w, ("id", none));
  get_stack = λ n w. ok stack;
  update_stack = λ n r w. (w, none);
  delete_stack = λ s w. (s ∷ w, none);
  update_ingress_load_balancer = λ i d w. (w, none);
  list_resources = λ w. (w, ok ingresses);
  find_managed_stacks = λ w. ok (old_stack ∷ []);
  get_stack_lb_states = λ ss w. ok (record { stack = old_stack; lb_state = none } ∷ []);
  update_auto_scaling_groups_and_instances = λ w. (w, none);
  get_certificates = λ w. ok (summary ∷ []);
  get_cloud_watch_alarms = λ w. ok [];
  update_target_groups_and_auto_scaling_groups = λ ss w. (w, []);
}

-- The deleted stacks have no valid certificate.
abbrev Expired : World → Type 0
Expired = All (λ s. should_delete 100 (some s) ≡ true)

keeps : Keeps api config Expired
keeps = record {
  create = λ r w h. h;
  update = λ n r w h. h;
  status = λ i d w h. h;
  list = λ w h. h;
  instances = λ w h. h;
  targets = λ ss w h. h;
  delete = λ s w e h. (e, h);
}

do_work-keeps_example : Expired (do_work api config []).0
do_work-keeps_example = do_work-keeps api config Expired keeps [] tt

-- The round deletes the stack whose certificate has expired.
do_work_test : (do_work api config []).0 ≡ old_stack ∷ []
unfolding model
do_work_test = refl
