-- ===== src/Worker/Model/Placement.antt =====
-- Every ingress that has certificates is placed.
use kube_ingress_aws_control.Prelude.{
  ℕ, String, ◌≡◌, refl, sym, ap, subst, false, some, List, [], ◌∷◌, ◌++◌, ◌==◌, arith, eq_iff, All,
  All-imp, Any, In, Bool-cases, Option-cases, inl, inr,
}
use kube_ingress_aws_control.Prelude.Dict.{Dict, insert, lookup-insert}
use kube_ingress_aws_control.Certs.{Duration}
use kube_ingress_aws_control.Kubernetes.{Ingress, default_cluster_local_domain}
use kube_ingress_aws_control.Aws.LoadBalancer.{StackLbState, Alarm}
use kube_ingress_aws_control.Worker.{LoadBalancer, with_ingress, with_local}
use kube_ingress_aws_control.Worker.Entries.{
  Under, append_to-Under, append_all-Under, append_all-Under_self,
}
use kube_ingress_aws_control.Worker.Model.{
  CertificatesFinder, resolve, cluster_local_lb, alone, new_load_balancer, with_alarms,
  attach_cloud_watch_alarms, with_global_waf_acl, attach_global_waf_acl, get_all_load_balancers,
  sort_stacks, match_ingress, match_all, match_ingresses_to_load_balancers, build_managed_model,
}
use kube_ingress_aws_control.Worker.Model.Induction.{
  place-Any_new, place-Any_old, add_cluster_local-Any,
}

-- The load balancer lists the ingress under each of the certificates.
abbrev pub Serves : List String → Ingress → LoadBalancer → Type 0
Serves arns i lb = All (λ arn. Under arn i lb.ingresses) arns

Under-insert :
    (arn k : String) (i : Ingress) (m : Dict (List Ingress))
    → Under arn i m
    → Under arn i (insert k (i ∷ []) m)
Under-insert arn k i m (l, e, p) = elim (Bool-cases (k == arn)) [
  | inl t ↦ (i ∷ [], rw (lookup-insert k arn (i ∷ []) m, t) refl, inl refl)
  | inr t ↦ (l, rw (lookup-insert k arn (i ∷ []) m, t) e, p)
]

alone-Under : (arns : List String) (i : Ingress) → All (λ arn. Under arn i (alone arns i)) arns
unfolding alone
alone-Under [] i = tt
alone-Under (arn ∷ arns) i = (
  (
    i ∷ [],
    rw (lookup-insert arn arn (i ∷ []) (alone arns i)) (ground (arith, eq_iff arn arn)),
    inl refl,
  ),
  All-imp arns (λ k u. Under-insert k arn i (alone arns i) u) (alone-Under arns i),
)

module _ (arns : List String) (i : Ingress) where
  Serves-with_ingress :
      (bs : List String) (j : Ingress) (lb : LoadBalancer)
      → Serves arns i lb
      → Serves arns i (with_ingress lb bs j)
  unfolding with_ingress
  Serves-with_ingress bs j lb = All-imp arns (λ arn u. append_all-Under arn bs i j lb.ingresses u)

  Serves-with_local :
      (j : Ingress) (lb : LoadBalancer) → Serves arns i lb → Serves arns i (with_local lb j)
  unfolding with_local
  Serves-with_local j lb =
      All-imp arns (λ arn u. append_to-Under arn default_cluster_local_domain i j lb.ingresses u)

  Serves-self : (lb : LoadBalancer) → Serves arns i (with_ingress lb arns i)
  unfolding with_ingress
  Serves-self lb = append_all-Under_self arns i lb.ingresses

  Serves-new : Serves arns i (new_load_balancer arns i)
  unfolding new_load_balancer
  Serves-new = alone-Under arns i

  module _ (certs : CertificatesFinder) (max_certs : ℕ) where
    match_ingress-kept :
        (j : Ingress) (lbs : List LoadBalancer)
        → Any (Serves arns i) lbs
        → Any (Serves arns i) (match_ingress certs max_certs j lbs)
    unfolding match_ingress
    match_ingress-kept j lbs a = elim (Bool-cases j.cluster_local) [
      | inl e ↦ simp e (add_cluster_local-Any j e (Serves arns i) (Serves-with_local j) lbs a)
      | inr e ↦ simp e (elim (Option-cases (resolve certs j)) [
        | inl r ↦ simp r a
        | inr (bs, r) ↦
            simp r (place-Any_old max_certs bs j e (Serves arns i) (Serves-with_ingress bs j) lbs a)
      ])
    ]

    match_all-kept :
        (js : List Ingress) (lbs : List LoadBalancer)
        → Any (Serves arns i) lbs
        → Any (Serves arns i) (match_all certs max_certs js lbs)
    unfolding match_all
    match_all-kept [] lbs a = a
    match_all-kept (j ∷ js) lbs a =
        match_all-kept js (match_ingress certs max_certs j lbs) (match_ingress-kept j lbs a)

    module _ (outside : i.cluster_local ≡ false) (found : resolve certs i ≡ some arns) where
      match_ingress-placed :
          (lbs : List LoadBalancer) → Any (Serves arns i) (match_ingress certs max_certs i lbs)
      unfolding match_ingress
      match_ingress-placed lbs =
          simp (outside, found)
            (place-Any_new max_certs arns i outside (Serves arns i) (λ lb t. Serves-self lb)
              Serves-new lbs)

      match_all-placed :
          (js : List Ingress) (lbs : List LoadBalancer)
          → In i js
          → Any (Serves arns i) (match_all certs max_certs js lbs)
      unfolding match_all
      match_all-placed [] lbs p = absurd p
      match_all-placed (j ∷ js) lbs (inr p) =
          match_all-placed js (match_ingress certs max_certs j lbs) p
      match_all-placed (j ∷ js) lbs (inl e) =
          match_all-kept js (match_ingress certs max_certs j lbs) (
            subst (λ k. Any (Serves arns i) (match_ingress certs max_certs k lbs)) (sym e)
              (match_ingress-placed lbs))

attach-Any :
    (P : LoadBalancer → Type 0) (alarms : List Alarm)
    → ((lb : LoadBalancer) → P lb → P (with_alarms alarms lb))
    → (lbs : List LoadBalancer) → Any P lbs
    → Any P (attach_cloud_watch_alarms alarms lbs)
unfolding attach_cloud_watch_alarms
attach-Any P alarms f [] a = absurd a
attach-Any P alarms f (lb ∷ lbs) (inl p) = inl (f lb p)
attach-Any P alarms f (lb ∷ lbs) (inr a) = inr (attach-Any P alarms f lbs a)

In-attach_global_waf_acl :
    (acl : String) (i : Ingress) (is' : List Ingress)
    → In i is'
    → In (with_global_waf_acl acl i) (attach_global_waf_acl acl is')
unfolding attach_global_waf_acl
In-attach_global_waf_acl acl i [] p = absurd p
In-attach_global_waf_acl acl i (j ∷ is') (inl e) = inl (ap (with_global_waf_acl acl) e)
In-attach_global_waf_acl acl i (j ∷ is') (inr p) = inr (In-attach_global_waf_acl acl i is' p)

-- Every ingress that is not local to the cluster and for which certificates are found is on some load
-- balancer of the model, under each of these certificates, whatever comes before and after it.
pub build_managed_model-Placed :
    (certs : CertificatesFinder) (certs_per_alb : ℕ) (cert_ttl : Duration)
    (ingresses : List Ingress) (stacks : List StackLbState) (alarms : List Alarm) (acl : String)
    (i : Ingress) (arns : List String)
    → In i ingresses
    → (with_global_waf_acl acl i).cluster_local ≡ false
    → resolve certs (with_global_waf_acl acl i) ≡ some arns
    → Any
        (Serves arns (with_global_waf_acl acl i))
        (build_managed_model certs certs_per_alb cert_ttl ingresses stacks alarms acl)
unfolding build_managed_model match_ingresses_to_load_balancers
build_managed_model-Placed certs n ttl ingresses stacks alarms acl i arns p o r =
    attach-Any (Serves arns (with_global_waf_acl acl i)) alarms (λ lb s. s) _
      (match_all-placed arns (with_global_waf_acl acl i) certs n o r
        (attach_global_waf_acl acl ingresses)
        (get_all_load_balancers certs ttl (sort_stacks stacks) ++ cluster_local_lb ∷ [])
        (In-attach_global_waf_acl acl i ingresses p))
