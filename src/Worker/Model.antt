-- ===== src/Worker/Model.antt =====
-- worker.go: the model of the load balancers that should be there, built from the stacks that are
-- there and the ingresses (buildManagedModel and what it calls).
pub mod Induction
pub mod Uniform
pub mod Parts
pub mod Bounds
pub mod Placement
pub mod Faults
use kube_ingress_aws_control.Prelude.{
  ℕ, String, Bool, true, false, not, ◌&&◌, ◌||◌, Option, none, some, List, [], ◌∷◌, ◌++◌, map, ◌==◌,
  ltb, eqb, length, any, before, if◌then◌else◌,
}
use kube_ingress_aws_control.Prelude.Dict.{Dict, insert}
use kube_ingress_aws_control.Certs.{Time, Duration, CertificateSummary}
use kube_ingress_aws_control.Certs.Matching.{find_best_matching_certificates}
use kube_ingress_aws_control.Kubernetes.{Ingress}
use kube_ingress_aws_control.Aws.{load_balancer_type_application, load_balancer_type_network}
use kube_ingress_aws_control.Aws.Stack.{Stack}
use kube_ingress_aws_control.Aws.LoadBalancer.{StackLbState, Alarm}
use kube_ingress_aws_control.Worker.{LoadBalancer, add_ingress}

-- the interface CertificatesFinder, as far as the model asks it
pub record CertificatesFinder : Type 0 where
  pub certificate_exists : String → Bool
  pub find_matching_certificate_ids : List String → List String

-- NewCertificates, with its methods
unfoldable pub new_certificates :
    (CertificateSummary → String → Bool) → Time → List CertificateSummary → CertificatesFinder
new_certificates verifies now certs = record {
  certificate_exists = λ arn. any (λ c. c.id == arn) certs;
  find_matching_certificate_ids =
      λ hostnames. map (λ c. c.id) (find_best_matching_certificates verifies now certs hostnames);
}

-- The order of sortStacks: more certificates first, then by name.
abbrev pub stack_before : StackLbState → StackLbState → Bool
stack_before a b =
    if eqb (length a.stack.certificate_arns) (length b.stack.certificate_arns)
    then before a.stack.name b.stack.name
    else ltb (length b.stack.certificate_arns) (length a.stack.certificate_arns)

unfoldable pub insert_stack : StackLbState → List StackLbState → List StackLbState
insert_stack s [] = s ∷ []
insert_stack s (t ∷ ts) = if stack_before t s then t ∷ insert_stack s ts else s ∷ t ∷ ts

-- sort.Slice by that order; of stacks that are alike it may leave any order
unfoldable pub sort_stacks : List StackLbState → List StackLbState
unfolding insert_stack
sort_stacks [] = []
sort_stacks (s ∷ ss) = insert_stack s (sort_stacks ss)

abbrev pub no_ingresses : Dict Time → Dict (List Ingress)
no_ingresses = map (λ e. (e.0, []))

abbrev pub not_empty : List String → Option (List String)
not_empty [] = none
not_empty (a ∷ as') = some (a ∷ as')

module _ (certs : CertificatesFinder) where
  -- the certificates of the stack that still exist, with their times
  unfoldable pub available : Dict Time → Dict Time
  available [] = []
  available ((cert, expiry) ∷ m) =
      if certs.certificate_exists cert then (cert, expiry) ∷ available m else available m

  unfoldable pub load_balancer_of : Duration → StackLbState → LoadBalancer
  load_balancer_of cert_ttl sl =
      let s = sl.stack in
      record {
        ingresses = no_ingresses (available s.certificate_arns);
        scheme = s.scheme;
        stack = some s;
        state = sl.lb_state;
        existing_stack_certificate_arns = available s.certificate_arns;
        shared = s.owner_ingress == "";
        http2 = s.http2;
        cluster_local = false;
        security_group = s.security_group;
        ssl_policy = s.ssl_policy;
        ip_address_type = s.ip_address_type;
        waf_web_acl_id = s.waf_web_acl_id;
        cert_ttl = cert_ttl;
        cw_alarms = [];
        load_balancer_type = s.load_balancer_type;
      }

  unfoldable pub get_all_load_balancers : Duration → List StackLbState → List LoadBalancer
  get_all_load_balancers cert_ttl = map (load_balancer_of cert_ttl)

  -- The certificates of an ingress; `none` where it is skipped with an error in the log.
  unfoldable pub resolve : Ingress → Option (List String)
  resolve i =
      if not (i.certificate_arn == "")
      then (if certs.certificate_exists i.certificate_arn
          then some (i.certificate_arn ∷ [])
          else none)
      else not_empty (certs.find_matching_certificate_ids i.hostnames)

-- clusterLocalLB
abbrev pub cluster_local_lb : LoadBalancer
cluster_local_lb = record {
  ingresses = [];
  scheme = "";
  stack = none;
  state = none;
  existing_stack_certificate_arns = [];
  shared = false;
  http2 = false;
  cluster_local = true;
  security_group = "";
  ssl_policy = "";
  ip_address_type = "";
  waf_web_acl_id = "";
  cert_ttl = 0;
  cw_alarms = [];
  load_balancer_type = "";
}

-- the load balancer for an ingress that none of the others takes
unfoldable pub alone : List String → Ingress → Dict (List Ingress)
unfolding insert
alone [] i = []
alone (arn ∷ arns) i = insert arn (i ∷ []) (alone arns i)

unfoldable pub new_load_balancer : List String → Ingress → LoadBalancer
new_load_balancer arns i = record {
  ingresses = alone arns i;
  scheme = i.scheme;
  stack = none;
  state = none;
  existing_stack_certificate_arns = [];
  shared = i.shared;
  http2 = i.http2;
  cluster_local = false;
  security_group = i.security_group;
  ssl_policy = i.ssl_policy;
  ip_address_type = i.ip_address_type;
  waf_web_acl_id = i.waf_web_acl_id;
  cert_ttl = 0;
  cw_alarms = [];
  load_balancer_type = i.load_balancer_type;
}

abbrev pub supported_lb_type : LoadBalancer → Bool
supported_lb_type lb =
    lb.load_balancer_type == load_balancer_type_application
    || lb.load_balancer_type == load_balancer_type_network

-- The loop over the load balancers up to the first that takes the ingress, and the new load
-- balancer behind the others if none does.
unfoldable pub place : ℕ → List String → Ingress → List LoadBalancer → List LoadBalancer
place max_certs arns i [] = new_load_balancer arns i ∷ []
place max_certs arns i (lb ∷ lbs) =
    let rest = place max_certs arns i lbs in
    let (lb', added) = add_ingress lb arns i max_certs in
    if supported_lb_type lb && added then lb' ∷ lbs else lb ∷ rest

abbrev pub max_int64 : ℕ
max_int64 = 9_223_372_036_854_775_807

-- The call on clusterLocalLB, which is the one load balancer marked so.
unfoldable pub add_cluster_local : Ingress → List LoadBalancer → List LoadBalancer
add_cluster_local i [] = []
add_cluster_local i (lb ∷ lbs) =
    if lb.cluster_local
    then (add_ingress lb [] i max_int64).0 ∷ lbs
    else lb ∷ add_cluster_local i lbs

module _ (certs : CertificatesFinder) (certs_per_alb : ℕ) where
  abbrev pub match_resolved : Option (List String) → Ingress → List LoadBalancer → List LoadBalancer
  match_resolved none i lbs = lbs
  match_resolved (some arns) i lbs = place certs_per_alb arns i lbs

  -- one round of the loop over the ingresses
  unfoldable pub match_ingress : Ingress → List LoadBalancer → List LoadBalancer
  match_ingress i lbs =
      if i.cluster_local then add_cluster_local i lbs else match_resolved (resolve certs i) i lbs

  unfoldable pub match_all : List Ingress → List LoadBalancer → List LoadBalancer
  match_all [] lbs = lbs
  match_all (i ∷ is') lbs = match_all is' (match_ingress i lbs)

  unfoldable pub match_ingresses_to_load_balancers :
      List LoadBalancer → List Ingress → List LoadBalancer
  match_ingresses_to_load_balancers lbs ingresses =
      match_all ingresses (lbs ++ cluster_local_lb ∷ [])

abbrev pub with_alarms : List Alarm → LoadBalancer → LoadBalancer
with_alarms cw_alarms lb = record lb { cw_alarms = cw_alarms }

unfoldable pub attach_cloud_watch_alarms : List Alarm → List LoadBalancer → List LoadBalancer
attach_cloud_watch_alarms cw_alarms = map (with_alarms cw_alarms)

abbrev pub with_global_waf_acl : String → Ingress → Ingress
with_global_waf_acl acl i =
    if not (i.waf_web_acl_id == "") then i else record i { waf_web_acl_id = acl }

unfoldable pub attach_global_waf_acl : String → List Ingress → List Ingress
attach_global_waf_acl global_waf_acl = map (with_global_waf_acl global_waf_acl)

unfoldable pub build_managed_model :
    CertificatesFinder
    → ℕ
    → Duration
    → List Ingress
    → List StackLbState
    → List Alarm
    → String
    → List LoadBalancer
build_managed_model certs certs_per_alb cert_ttl ingresses stack_lb_states cw_alarms
      global_waf_acl =
    attach_cloud_watch_alarms cw_alarms (
      match_ingresses_to_load_balancers certs certs_per_alb
        (get_all_load_balancers certs cert_ttl (sort_stacks stack_lb_states))
        (attach_global_waf_acl global_waf_acl ingresses))
