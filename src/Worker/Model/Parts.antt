-- ===== src/Worker/Model/Parts.antt =====
-- The parts of the model at the start and at the end: the load balancers of the stacks, those made
-- for one ingress, and the alarms.
use kube_ingress_aws_control.Prelude.{String, List, [], ◌∷◌, All}
use kube_ingress_aws_control.Prelude.Dict.{Dict}
use kube_ingress_aws_control.Prelude.Dict.Laws.{insert-All}
use kube_ingress_aws_control.Certs.{Time, Duration}
use kube_ingress_aws_control.Kubernetes.{Ingress}
use kube_ingress_aws_control.Aws.LoadBalancer.{StackLbState, Alarm}
use kube_ingress_aws_control.Worker.{LoadBalancer}
use kube_ingress_aws_control.Worker.Entries.{Each}
use kube_ingress_aws_control.Worker.Model.{
  CertificatesFinder, no_ingresses, load_balancer_of, get_all_load_balancers, alone, with_alarms,
  attach_cloud_watch_alarms,
}

pub alone-Each :
    (Q : Ingress → Type 0) (arns : List String) (i : Ingress) → Q i → Each Q (alone arns i)
unfolding alone
alone-Each Q [] i q = tt
alone-Each Q (arn ∷ arns) i q =
    insert-All (λ _ l. All Q l) arn (i ∷ []) (alone arns i) (q, tt) (alone-Each Q arns i q)

pub no_ingresses-Each : (Q : Ingress → Type 0) (m : Dict Time) → Each Q (no_ingresses m)
no_ingresses-Each Q [] = tt
no_ingresses-Each Q (e ∷ m) = (tt, no_ingresses-Each Q m)

module _ (certs : CertificatesFinder) (cert_ttl : Duration) where
  -- What holds of the load balancer of every stack.
  pub stacks-All :
      (P : LoadBalancer → Type 0)
      → ((sl : StackLbState) → P (load_balancer_of certs cert_ttl sl))
      → (sls : List StackLbState) → All P (get_all_load_balancers certs cert_ttl sls)
  unfolding get_all_load_balancers
  stacks-All P f [] = tt
  stacks-All P f (sl ∷ sls) = (f sl, stacks-All P f sls)

pub attach-All :
    (P : LoadBalancer → Type 0) (alarms : List Alarm)
    → ((lb : LoadBalancer) → P lb → P (with_alarms alarms lb))
    → (lbs : List LoadBalancer) → All P lbs
    → All P (attach_cloud_watch_alarms alarms lbs)
unfolding attach_cloud_watch_alarms
attach-All P alarms f [] h = tt
attach-All P alarms f (lb ∷ lbs) h = (f lb h.0, attach-All P alarms f lbs h.1)
