-- ===== src/Worker/Model/Bounds.antt =====
-- How many certificates a load balancer of the model has.
use kube_ingress_aws_control.Prelude.{
  ℕ, ◌≤◌, String, ◌≡◌, refl, Bool, true, false, not, none, some, List, [], ◌∷◌, ◌==◌, arith, length,
  All, All_at, Bool-cases, inl, inr, some_eq, if◌then◌else◌,
}
use kube_ingress_aws_control.Prelude.Dict.{Dict}
use kube_ingress_aws_control.Prelude.Dict.Laws.{length-insert}
use kube_ingress_aws_control.Certs.{Time, Duration}
use kube_ingress_aws_control.Kubernetes.{Ingress}
use kube_ingress_aws_control.Aws.LoadBalancer.{StackLbState, Alarm}
use kube_ingress_aws_control.Worker.{LoadBalancer, refuses, with_ingress, with_local}
use kube_ingress_aws_control.Worker.Entries.{length-append_all}
use kube_ingress_aws_control.Worker.Model.{
  CertificatesFinder, available, no_ingresses, load_balancer_of, get_all_load_balancers, resolve,
  not_empty, stack_before, alone, insert_stack, sort_stacks, attach_global_waf_acl,
  with_global_waf_acl, new_load_balancer, build_managed_model,
}
use kube_ingress_aws_control.Worker.Model.Parts.{attach-All}
use kube_ingress_aws_control.Worker.Model.Induction.{Takes, match-All}

-- The load balancer has at most n certificates, unless it is the one for the cluster's inside.
abbrev pub IsWithin : ℕ → LoadBalancer → Type 0
IsWithin n lb = lb.cluster_local ≡ false → length lb.ingresses ≤ n

abbrev pub StackIsWithin : ℕ → StackLbState → Type 0
StackIsWithin n sl = length sl.stack.certificate_arns ≤ n

none-some : {A : Type 0} {a : A} → none ≡ some a → ⊥
none-some e = cc

if-All :
    (P : StackLbState → Type 0) (b : Bool) (xs ys : List StackLbState)
    → All P xs
    → All P ys
    → All P (if b then xs else ys)
if-All P true xs ys h k = h
if-All P false xs ys h k = k

insert_stack-All :
    (P : StackLbState → Type 0) (s : StackLbState) (ss : List StackLbState)
    → P s
    → All P ss
    → All P (insert_stack s ss)
unfolding insert_stack
insert_stack-All P s [] p h = (p, tt)
insert_stack-All P s (t ∷ ts) p h =
    if-All P (stack_before t s) (t ∷ insert_stack s ts) (s ∷ t ∷ ts)
      (h.0, insert_stack-All P s ts p h.1) (p, h)

pub sort_stacks-All :
    (P : StackLbState → Type 0) (ss : List StackLbState) → All P ss → All P (sort_stacks ss)
unfolding sort_stacks
sort_stacks-All P [] h = tt
sort_stacks-All P (s ∷ ss) h = insert_stack-All P s (sort_stacks ss) h.0 (sort_stacks-All P ss h.1)

length-no_ingresses : (m : Dict Time) → length (no_ingresses m) ≡ length m
length-no_ingresses [] = refl
length-no_ingresses (e ∷ m) = omega (arith, length-no_ingresses m)

length-alone : (arns : List String) (i : Ingress) → length (alone arns i) ≤ length arns
unfolding alone
length-alone [] i = omega arith
length-alone (arn ∷ arns) i =
    ground (arith, length-alone arns i, length-insert arn (i ∷ []) (alone arns i))

-- The length of what `resolve` returns, by its tests.
length-choice :
    (b c : Bool) (a : String) (l arns : List String) (n : ℕ)
    → 1 ≤ n
    → length l ≤ n
    → (if b then (if c then some (a ∷ []) else none) else not_empty l) ≡ some arns
    → length arns ≤ n
length-choice true true a l arns n o h e = rw (← some_eq e) o
length-choice true false a l arns n o h e = absurd (none-some e)
length-choice false c a [] arns n o h e = absurd (none-some e)
length-choice false c a (x ∷ xs) arns n o h e = rw (← some_eq e) h

module _ (certs : CertificatesFinder) where
  length-available : (m : Dict Time) → length (available certs m) ≤ length m
  unfolding available
  length-available [] = omega arith
  length-available ((c, t) ∷ m) = ground (arith, length-available m)

  length-resolve :
      (n : ℕ) (i : Ingress) (arns : List String)
      → 1 ≤ n
      → length (certs.find_matching_certificate_ids i.hostnames) ≤ n
      → resolve certs i ≡ some arns
      → length arns ≤ n
  unfolding resolve
  length-resolve n i arns o h e =
      length-choice (not (i.certificate_arn == "")) (certs.certificate_exists i.certificate_arn)
        i.certificate_arn (certs.find_matching_certificate_ids i.hostnames) arns n o h e

within-taken :
    (m n : ℕ) (lb : LoadBalancer) (arns : List String) (i : Ingress)
    → m ≤ n
    → Takes m arns i lb
    → length (with_ingress lb arns i).ingresses ≤ n
unfolding with_ingress refuses
within-taken m n lb arns i h t = ground (arith, t.1, length-append_all arns i lb.ingresses)

local-IsWithin :
    (n : ℕ) (lb : LoadBalancer) (i : Ingress)
    → lb.cluster_local ≡ true
    → IsWithin n (with_local lb i)
unfolding with_local
local-IsWithin n lb i c f = absurd (both c f)
  where
    both : {b : Bool} → b ≡ true → b ≡ false → ⊥
    both p q = cc

module _ (certs : CertificatesFinder) (n : ℕ) where
  -- The ingress needs at most n certificates.
  abbrev pub Small : Ingress → Type 0
  Small i = length (certs.find_matching_certificate_ids i.hostnames) ≤ n

  with_global-Small : (acl : String) (i : Ingress) → Small i → Small (with_global_waf_acl acl i)
  with_global-Small acl i h = elim (Bool-cases (i.waf_web_acl_id == "")) [
    | inl e ↦ rw e h
    | inr e ↦ rw e h
  ]

  attach-Small :
      (acl : String) (is' : List Ingress)
      → All Small is'
      → All Small (attach_global_waf_acl acl is')
  unfolding attach_global_waf_acl
  attach-Small acl [] h = tt
  attach-Small acl (i ∷ is') h = (with_global-Small acl i h.0, attach-Small acl is' h.1)

  new-within :
      1 ≤ n
      → (arns : List String) (i : Ingress) → Small i
      → resolve certs i ≡ some arns
      → length (new_load_balancer arns i).ingresses ≤ n
  unfolding new_load_balancer
  new-within o arns i h e = omega (arith, length-resolve certs n i arns o h e, length-alone arns i)

  stacks-IsWithin :
      (ttl : Duration) (sls : List StackLbState)
      → All (StackIsWithin n) sls
      → All (IsWithin n) (get_all_load_balancers certs ttl sls)
  unfolding get_all_load_balancers load_balancer_of
  stacks-IsWithin ttl [] h = tt
  stacks-IsWithin ttl (sl ∷ sls) h = (
    (λ f. omega (
      arith,
      h.0,
      length-available certs sl.stack.certificate_arns,
      length-no_ingresses (available certs sl.stack.certificate_arns),
    )),
    stacks-IsWithin ttl sls h.1,
  )

-- If no stack has more than n certificates, no ingress is given more, and n is at least the limit of
-- certificates per load balancer and at least one, then no load balancer of the model has more than n
-- certificates, but for the one for ingresses local to the cluster.
pub build_managed_model-IsWithin :
    (certs : CertificatesFinder) (certs_per_alb n : ℕ) (cert_ttl : Duration)
    (ingresses : List Ingress) (stacks : List StackLbState) (alarms : List Alarm) (acl : String)
    → certs_per_alb ≤ n
    → 1 ≤ n
    → All (StackIsWithin n) stacks
    → All (Small certs n) ingresses
    → All
        (IsWithin n)
        (build_managed_model certs certs_per_alb cert_ttl ingresses stacks alarms acl)
unfolding build_managed_model
build_managed_model-IsWithin certs m n ttl ingresses stacks alarms acl h o s r =
    attach-All (IsWithin n) alarms (λ lb w. w) _
      (match-All certs m (IsWithin n) (λ lb arns i _ t _ _. within-taken m n lb arns i h t)
        (λ lb i _ c w. local-IsWithin n lb i c) (λ f. cc)
        (get_all_load_balancers certs ttl (sort_stacks stacks))
        (attach_global_waf_acl acl ingresses)
        (λ arns i p _ e _.
          new-within certs n o arns i
            (All_at (Small certs n) i _ (attach-Small certs n acl ingresses r) p) e)
        (stacks-IsWithin certs n ttl (sort_stacks stacks)
          (sort_stacks-All (StackIsWithin n) stacks s)))
