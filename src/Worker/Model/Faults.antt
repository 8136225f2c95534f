-- ===== src/Worker/Model/Faults.antt =====
-- The status of a load balancer of the model can always be computed.
use kube_ingress_aws_control.Prelude.{
  ℕ, ◌≤◌, String, ◌≡◌, refl, sym, subst, Bool, true, false, not, ◌&&◌, none, some, List, [], ◌∷◌,
  ◌==◌, arith, length, All, All-imp, Bool-cases, Option-cases, inl, inr, some_eq, if◌then◌else◌,
}
use kube_ingress_aws_control.Prelude.Dict.{Dict, insert}
use kube_ingress_aws_control.Certs.{Time, Duration}
use kube_ingress_aws_control.Kubernetes.{Ingress}
use kube_ingress_aws_control.Aws.Stack.{Stack, should_delete, is_complete}
use kube_ingress_aws_control.Aws.LoadBalancer.{StackLbState, Alarm}
use kube_ingress_aws_control.Worker.{
  LoadBalancer, Status, ready, update, missing, delete, with_ingress, with_local, in_sync, status,
}
use kube_ingress_aws_control.Worker.Entries.{length-append_all_le}
use kube_ingress_aws_control.Worker.Model.{
  CertificatesFinder, load_balancer_of, get_all_load_balancers, resolve, not_empty,
  cluster_local_lb, alone, sort_stacks, attach_global_waf_acl, new_load_balancer,
  build_managed_model,
}
use kube_ingress_aws_control.Worker.Model.Parts.{stacks-All, attach-All}
use kube_ingress_aws_control.Worker.Model.Induction.{match-All}

-- A load balancer without a stack, other than the one for the cluster's inside, has a certificate.
abbrev pub IsBacked : LoadBalancer → Type 0
IsBacked lb = lb.stack ≡ none → lb.cluster_local ≡ false → 1 ≤ length lb.ingresses

insert-length :
    (k : String) (v : List Ingress) (m : Dict (List Ingress)) → 1 ≤ length (insert k v m)
unfolding insert
insert-length k v [] = omega arith
insert-length k v ((j, w) ∷ m) = ground arith

no_path : {A : Type 0} {a : A} → none ≡ some a → ⊥
no_path e = cc

choice-length :
    (b c : Bool) (a : String) (l arns : List String)
    → (if b then (if c then some (a ∷ []) else none) else not_empty l) ≡ some arns
    → 1 ≤ length arns
choice-length true true a l arns e = rw (← some_eq e) (omega arith)
choice-length true false a l arns e = absurd (no_path e)
choice-length false c a [] arns e = absurd (no_path e)
choice-length false c a (x ∷ xs) arns e = rw (← some_eq e) (omega arith)

alone-length : (arns : List String) (i : Ingress) → 1 ≤ length arns → 1 ≤ length (alone arns i)
unfolding alone
alone-length [] i h = h
alone-length (arn ∷ arns) i h = insert-length arn (i ∷ []) (alone arns i)

new-IsBacked :
    (certs : CertificatesFinder) (arns : List String) (i : Ingress)
    → resolve certs i ≡ some arns
    → IsBacked (new_load_balancer arns i)
unfolding new_load_balancer resolve
new-IsBacked certs arns i e _ _ = alone-length arns i (
    choice-length (not (i.certificate_arn == "")) (certs.certificate_exists i.certificate_arn)
      i.certificate_arn (certs.find_matching_certificate_ids i.hostnames) arns e)

taken-IsBacked :
    (lb : LoadBalancer) (arns : List String) (i : Ingress)
    → IsBacked lb
    → IsBacked (with_ingress lb arns i)
unfolding with_ingress
taken-IsBacked lb arns i h s f = omega (arith, h s f, length-append_all_le arns i lb.ingresses)

local-IsBacked :
    (lb : LoadBalancer) (i : Ingress) → lb.cluster_local ≡ true → IsBacked (with_local lb i)
unfolding with_local
local-IsBacked lb i c _ f = absurd (both c f)
  where
    both : {b : Bool} → b ≡ true → b ≡ false → ⊥
    both p q = cc

stack-IsBacked :
    (certs : CertificatesFinder) (ttl : Duration) (sl : StackLbState)
    → IsBacked (load_balancer_of certs ttl sl)
unfolding load_balancer_of
stack-IsBacked certs ttl sl s _ = absurd (some_path s)
  where
    some_path : {a : Stack} → some a ≡ none → ⊥
    some_path e = cc

cluster_local_lb-IsBacked : IsBacked cluster_local_lb
cluster_local_lb-IsBacked _ f = absurd (apart f)
  where
    apart : true ≡ false → ⊥
    apart e = cc

-- The status is computed without a fault.
abbrev pub HasStatus : (List Alarm → String) → Time → Bool → LoadBalancer → Type 0
HasStatus sha256_hex now first_run lb =
    (st : Status) × (status sha256_hex now first_run lb ≡ some st)

-- The status of a load balancer with a stack.
status-stack :
    (sha256_hex : List Alarm → String) (now : Time) (first_run : Bool) (lb : LoadBalancer)
    (s : Stack)
    → lb.cluster_local ≡ false
    → lb.stack ≡ some s
    → status sha256_hex now first_run lb ≡ (
        if should_delete now (some s)
        then some delete
        else if first_run
        then some update
        else some
            (if not (in_sync sha256_hex now lb s) && is_complete (some s) then update else ready))
unfolding status
status-stack sha256_hex now first_run lb s c e = simp (c, e) (ground arith)

some_status :
    (d f : Bool) (x : Status)
    → (st : Status) × ((if d then some delete else if f then some update else some x) ≡ some st)
some_status true f x = (delete, refl)
some_status false true x = (update, refl)
some_status false false x = (x, refl)

backed-HasStatus :
    (sha256_hex : List Alarm → String) (now : Time) (first_run : Bool) (lb : LoadBalancer)
    → IsBacked lb
    → HasStatus sha256_hex now first_run lb
unfolding status should_delete
backed-HasStatus sha256_hex now first_run lb h = elim (Bool-cases lb.cluster_local) [
  | inl c ↦ (ready, simp c)
  | inr c ↦ elim (Option-cases lb.stack) [
    | inl e ↦ (missing, simp (c, e) (ground (arith, h e c)))
    | inr (s, e) ↦
        subst (λ r. (st : Status) × (r ≡ some st))
          (sym (status-stack sha256_hex now first_run lb s c e))
          (some_status (should_delete now (some s)) first_run
            (if not (in_sync sha256_hex now lb s) && is_complete (some s) then update else ready))
  ]
]

-- The status of every load balancer of the model is computed without reading a stack that is not
-- there: a load balancer without a stack is the one for the cluster's inside or has a certificate.
pub build_managed_model-HasStatus :
    (certs : CertificatesFinder) (certs_per_alb : ℕ) (cert_ttl : Duration)
    (ingresses : List Ingress) (stacks : List StackLbState) (alarms : List Alarm) (acl : String)
    (sha256_hex : List Alarm → String) (now : Time) (first_run : Bool)
    → All
        (HasStatus sha256_hex now first_run)
        (build_managed_model certs certs_per_alb cert_ttl ingresses stacks alarms acl)
unfolding build_managed_model
build_managed_model-HasStatus certs m ttl ingresses stacks alarms acl sha256_hex now first_run =
    All-imp _ (backed-HasStatus sha256_hex now first_run) (
      attach-All IsBacked alarms (λ lb w. w) _
        (match-All certs m IsBacked (λ lb arns i _ _. taken-IsBacked lb arns i)
          (λ lb i _ c _. local-IsBacked lb i c) cluster_local_lb-IsBacked
          (get_all_load_balancers certs ttl (sort_stacks stacks))
          (attach_global_waf_acl acl ingresses) (λ arns i _ _ e. new-IsBacked certs arns i e)
          (stacks-All certs ttl IsBacked (stack-IsBacked certs ttl) (sort_stacks stacks))))
