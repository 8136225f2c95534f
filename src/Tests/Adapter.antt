-- ===== src/Tests/Adapter.antt =====
-- The adapter of AWS on concrete inputs.
use kube_ingress_aws_control.Prelude.{
  String, ◌≡◌, ◌≢◌, ◌↔◌, ◌⊎◌, refl, sym, inl, inr, Bool, true, false, none, List, [], ◌∷◌, ◌++◌,
  keep, In, In-append, In-append_left, In-append_right, Bool-cases, ok, err, ◌==◌, eq_iff, eq_refl,
  sort_strings, if◌then◌else◌,
}
use kube_ingress_aws_control.Prelude.Dict.{lookup, insert, has_key}
use kube_ingress_aws_control.Aws.{scheme_internal}
use kube_ingress_aws_control.Aws.Asg.{api_error}
use kube_ingress_aws_control.Aws.Ec2.Subnets.{SubnetDetails}
use kube_ingress_aws_control.Aws.LoadBalancer.Targets.{
  TargetApi, for_target_groups, register_targets_on_target_groups,
  deregister_targets_on_target_groups,
}
use kube_ingress_aws_control.Aws.Adapter.{Manifest, Adapter, new_adapter}
use kube_ingress_aws_control.Aws.Adapter.Subnets.{
  serves, role_tag_name, replaces, by_az, find_lb_subnets,
}
use kube_ingress_aws_control.Aws.Adapter.Subnets.Exact.{IsPreferred, find_lb_subnets-exact}
use kube_ingress_aws_control.Aws.Adapter.Cni.{
  difference, set_targets, set_targets_on_cni_target_groups,
}
use kube_ingress_aws_control.Aws.Adapter.Cni.Difference.{In-difference}
use kube_ingress_aws_control.Aws.Adapter.Cni.Reached.{IsElasticLoadBalancing}
use kube_ingress_aws_control.Aws.Adapter.Cni.Exact.{set_targets-exact}

abbrev role_tag : String
role_tag = "kubernetes.io/role/elb"

-- two public subnets of one zone, the second with the tag, and a private one of another
abbrev subnets : List SubnetDetails
subnets =
    record { id = "s-1"; availability_zone = "a"; tags = []; public = true }
    ∷ record { id = "s-2"; availability_zone = "a"; tags = (role_tag, "") ∷ []; public = true }
    ∷ record { id = "s-3"; availability_zone = "b"; tags = []; public = false }
    ∷ []

abbrev manifest : Manifest
manifest = record {
  security_group = record { name = "sg"; id = "sg-1" };
  instance_details = none;
  subnets = subnets;
  filters = [];
  asg_filters = [];
  cluster_id = "prod";
  vpc_id = "vpc";
}

abbrev pub adapter : Adapter
adapter = new_adapter "controller" manifest

find_lb_subnets_test : find_lb_subnets adapter "internet-facing" ≡ "s-2" ∷ []
unfolding new_adapter find_lb_subnets by_az sort_strings replaces lookup insert has_key
find_lb_subnets_test = refl

find_lb_subnets_internal : find_lb_subnets adapter "internal" ≡ "s-1" ∷ "s-3" ∷ []
unfolding new_adapter find_lb_subnets by_az sort_strings replaces lookup insert has_key
find_lb_subnets_internal = refl

find_lb_subnets-exact_example :
    In {A = String} "s-2" (find_lb_subnets adapter "internet-facing") ↔ (
      (s : SubnetDetails) × IsPreferred
        (role_tag_name ("internet-facing" == scheme_internal))
        (keep (serves ("internet-facing" == scheme_internal)) adapter.manifest.subnets)
        s
      × (s.id ≡ "s-2"))
find_lb_subnets-exact_example = find_lb_subnets-exact adapter "internet-facing" "s-2"

-- The outside world as the targets of each target group and those that it drains; "down" does not
-- answer.
abbrev Groups : Type 0
Groups = (String → List String) × (String → List String)

abbrev registered : String → Groups → List String
registered arn w = w.0 arn

abbrev listed : String → Groups → List String
listed arn w = w.0 arn ++ w.1 arn

abbrev answers : String → Bool
answers arn = if arn == "down" then false else true

abbrev at_group :
    String → (List String → List String) → (String → List String) → String → List String
at_group arn f targets t = if t == arn then f (targets t) else targets t

abbrev balancing : TargetApi Groups
balancing = record {
  register = λ arn ids w.
      ((at_group arn (λ ts. ts ++ ids) w.0, at_group arn (λ ts. difference ts ids) w.1), none);
  deregister = λ arn ids w.
      ((at_group arn (λ ts. difference ts ids) w.0, at_group arn (λ ts. ts ++ ids) w.1), none);
  describe_target_health =
      λ arn w. if answers arn then ok (listed arn w) else err (api_error "no answer");
}

other_group :
    (arn other : String) (f : List String → List String) (targets : String → List String)
    → arn ≢ other
    → at_group arn f targets other ≡ targets other
other_group arn other f targets n = elim (Bool-cases (other == arn)) [
  | inl t ↦ absurd (n (sym ((eq_iff other arn).0 t)))
  | inr e ↦ rw e refl
]

balancing-IsElasticLoadBalancing : IsElasticLoadBalancing balancing answers registered listed
balancing-IsElasticLoadBalancing = record {
  described = λ arn w a. rw a refl;
  refused = λ arn w a. (api_error "no answer", rw a refl);
  registered_listed = λ arn w x i. In-append_left x (w.0 arn) (w.1 arn) i;
  register_adds =
      λ arn ids w x e. rw (eq_refl arn) (In-append x (w.0 arn) ids, joined x (w.0 arn) ids);
  register_keeps = λ arn other ids w n. other_group arn other (λ ts. ts ++ ids) w.0 n;
  register_lists = λ arn other ids w x n i.
      rw
        (
          other_group arn other (λ ts. ts ++ ids) w.0 n,
          other_group arn other (λ ts. difference ts ids) w.1 n,
        )
        at i;
  deregister_removes = λ arn ids w x e. rw (eq_refl arn) (In-difference x (w.0 arn) ids);
  deregister_keeps = λ arn other ids w n. other_group arn other (λ ts. difference ts ids) w.0 n;
  deregister_lists = λ arn other ids w x n i.
      rw
        (
          other_group arn other (λ ts. difference ts ids) w.0 n,
          other_group arn other (λ ts. ts ++ ids) w.1 n,
        )
        at i;
}
  where
    joined : (x : String) (xs ys : List String) → In x xs ⊎ In x ys → In x (xs ++ ys)
    joined x xs ys (inl i) = In-append_left x xs ys i
    joined x xs ys (inr i) = In-append_right x xs ys i

-- each group has two targets and drains a third
abbrev before_run : Groups
before_run = (λ arn. "10.0.0.1" ∷ "10.0.0.2" ∷ [], λ arn. "10.0.0.4" ∷ [])

abbrev endpoints : List String
endpoints = "10.0.0.2" ∷ "10.0.0.3" ∷ []

set_targets_test :
    registered "up"
      (set_targets_on_cni_target_groups balancing endpoints ("down" ∷ "up" ∷ []) before_run).0
    ≡ endpoints
unfolding set_targets_on_cni_target_groups set_targets difference register_targets_on_target_groups
    deregister_targets_on_target_groups for_target_groups
set_targets_test = refl

-- An endpoint that is still draining is listed, so that it is not registered again.
set_targets_draining_test :
    registered "up"
      (set_targets_on_cni_target_groups balancing ("10.0.0.4" ∷ endpoints) ("up" ∷ []) before_run).0
    ≡ endpoints
unfolding set_targets_on_cni_target_groups set_targets difference register_targets_on_target_groups
    deregister_targets_on_target_groups for_target_groups
set_targets_draining_test = refl

abbrev after_run : Groups
after_run = (set_targets_on_cni_target_groups balancing endpoints ("down" ∷ "up" ∷ []) before_run).0

set_targets-exact_example :
    ((In {A = String} "up" ("down" ∷ "up" ∷ []) × (answers "up" ≡ true))
      → (x : String)
      → (In x (registered "up" after_run) → In x endpoints)
        × (In x endpoints
            → In x (registered "up" before_run) ⊎ ¬ (In x (listed "up" before_run))
            → In x (registered "up" after_run)))
    × (¬ (In {A = String} "up" ("down" ∷ "up" ∷ [])) ⊎ (answers "up" ≡ false)
        → registered "up" after_run ≡ registered "up" before_run)
unfolding set_targets_on_cni_target_groups set_targets difference register_targets_on_target_groups
    deregister_targets_on_target_groups for_target_groups
set_targets-exact_example =
    set_targets-exact balancing answers registered listed balancing-IsElasticLoadBalancing endpoints
      ("down" ∷ "up" ∷ []) before_run refl "up"
