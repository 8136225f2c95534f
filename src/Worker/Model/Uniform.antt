-- ===== src/Worker/Model/Uniform.antt =====
-- All ingresses on a load balancer of the model agree with its settings.
use kube_ingress_aws_control.Prelude.{
  ℕ, String, ◌≡◌, refl, true, false, List, arith, eq_iff, same_bool→eq, All, All-imp,
}
use kube_ingress_aws_control.Certs.{Duration}
use kube_ingress_aws_control.Kubernetes.{Ingress, default_cluster_local_domain}
use kube_ingress_aws_control.Aws.{load_balancer_type_application, load_balancer_type_network}
use kube_ingress_aws_control.Aws.LoadBalancer.{StackLbState, Alarm}
use kube_ingress_aws_control.Worker.{
  LoadBalancer, settings_differ, shared_settings_differ, refuses, with_ingress, with_local,
}
use kube_ingress_aws_control.Worker.Entries.{Each, append_to-Each, append_all-Each}
use kube_ingress_aws_control.Worker.Model.{
  CertificatesFinder, available, load_balancer_of, get_all_load_balancers, cluster_local_lb,
  sort_stacks, attach_global_waf_acl, supported_lb_type, new_load_balancer, with_alarms,
  build_managed_model,
}
use kube_ingress_aws_control.Worker.Model.Parts.{
  alone-Each, no_ingresses-Each, stacks-All, attach-All,
}
use kube_ingress_aws_control.Worker.Model.Induction.{Takes, match-All}

-- The settings that an ingress from outside the cluster needs of its load balancer.
pub record Suits (lb : LoadBalancer) (i : Ingress) : Type 0 where
  pub scheme : lb.scheme ≡ i.scheme
  pub ip_address_type : lb.ip_address_type ≡ i.ip_address_type
  pub load_balancer_type : lb.load_balancer_type ≡ i.load_balancer_type
  pub http2 : lb.http2 ≡ i.http2
  pub security_group : i.shared ≡ true → lb.security_group ≡ i.security_group
  pub waf_web_acl_id : i.shared ≡ true → lb.waf_web_acl_id ≡ i.waf_web_acl_id

settings-eq :
    (lb : LoadBalancer) (i : Ingress)
    → settings_differ lb i ≡ false
    → (lb.scheme ≡ i.scheme)
      × (lb.ip_address_type ≡ i.ip_address_type)
      × (lb.load_balancer_type ≡ i.load_balancer_type)
      × (lb.http2 ≡ i.http2)
unfolding settings_differ
settings-eq lb i h = ground (
  arith,
  eq_iff lb.scheme i.scheme,
  eq_iff lb.ip_address_type i.ip_address_type,
  eq_iff lb.load_balancer_type i.load_balancer_type,
  same_bool→eq lb.http2 i.http2,
)

shared_settings-eq :
    (lb : LoadBalancer) (i : Ingress)
    → shared_settings_differ lb i ≡ false
    → i.shared ≡ true
    → (lb.security_group ≡ i.security_group) × (lb.waf_web_acl_id ≡ i.waf_web_acl_id)
unfolding shared_settings_differ
shared_settings-eq lb i h s =
    ground
      (arith, eq_iff lb.security_group i.security_group, eq_iff lb.waf_web_acl_id i.waf_web_acl_id)

module _ (lb : LoadBalancer) (arns : List String) (i : Ingress) (max_certs : ℕ) where
  pub refuses-settings :
      refuses lb arns i max_certs ≡ false
      → (settings_differ lb i ≡ false) × (shared_settings_differ lb i ≡ false)
  unfolding refuses
  refuses-settings h = ground arith

  -- A load balancer that does not refuse an ingress suits it.
  pub refuses-Suits : refuses lb arns i max_certs ≡ false → Suits lb i
  refuses-Suits h =
      let (d, s) = refuses-settings h in
      let (a, b, c, e) = settings-eq lb i d in
      record {
        scheme = a;
        ip_address_type = b;
        load_balancer_type = c;
        http2 = e;
        security_group = λ t. (shared_settings-eq lb i s t).0;
        waf_web_acl_id = λ t. (shared_settings-eq lb i s t).1;
      }

-- A load balancer for the cluster's inside holds local ingresses only; any other holds ingresses
-- from outside only, which agree with its settings.
pub record IsUniform (lb : LoadBalancer) : Type 0 where
  pub outside :
      lb.cluster_local ≡ false → Each (λ i. (i.cluster_local ≡ false) × Suits lb i) lb.ingresses
  pub inside :
      lb.cluster_local ≡ true
      → (lb.load_balancer_type ≡ "") × Each (λ i. i.cluster_local ≡ true) lb.ingresses

unsupported : (lb : LoadBalancer) → lb.load_balancer_type ≡ "" → supported_lb_type lb ≡ true → ⊥
unsupported lb e s = ground (
  arith,
  eq_iff lb.load_balancer_type load_balancer_type_application,
  eq_iff lb.load_balancer_type load_balancer_type_network,
  eq_iff "" load_balancer_type_application,
  eq_iff "" load_balancer_type_network,
)

module _ (max_certs : ℕ) where
  taken-IsUniform :
      (lb : LoadBalancer) (arns : List String) (i : Ingress)
      → i.cluster_local ≡ false
      → Takes max_certs arns i lb
      → IsUniform lb
      → IsUniform (with_ingress lb arns i)
  unfolding with_ingress
  taken-IsUniform lb arns i o t u = record {
    outside = λ e.
        append_all-Each (λ j. (j.cluster_local ≡ false) × Suits (with_ingress lb arns i) j) arns i
          lb.ingresses (o, same (refuses-Suits lb arns i max_certs t.1)) (moved (u.outside e));
    inside = λ e. absurd (unsupported lb (u.inside e).0 t.0);
  }
    where
      same : {j : Ingress} → Suits lb j → Suits (with_ingress lb arns i) j
      same s = record {
        scheme = s.scheme;
        ip_address_type = s.ip_address_type;
        load_balancer_type = s.load_balancer_type;
        http2 = s.http2;
        security_group = s.security_group;
        waf_web_acl_id = s.waf_web_acl_id;
      }

      moved :
          Each (λ j. (j.cluster_local ≡ false) × Suits lb j) lb.ingresses
          → Each (λ j. (j.cluster_local ≡ false) × Suits (with_ingress lb arns i) j) lb.ingresses
      moved = All-imp lb.ingresses (λ e. All-imp e.1 (λ j p. (p.0, same p.1)))

local-IsUniform :
    (lb : LoadBalancer) (i : Ingress)
    → i.cluster_local ≡ true
    → lb.cluster_local ≡ true
    → IsUniform lb
    → IsUniform (with_local lb i)
unfolding with_local
local-IsUniform lb i p q u = record {
  outside = λ e. cc (q, e);
  inside = λ e. (
    (u.inside e).0,
    append_to-Each (λ j. j.cluster_local ≡ true) default_cluster_local_domain i lb.ingresses p
        (u.inside e).1,
  );
}

new-IsUniform :
    (arns : List String) (i : Ingress)
    → i.cluster_local ≡ false
    → IsUniform (new_load_balancer arns i)
unfolding new_load_balancer
new-IsUniform arns i o = record {
  outside = λ e.
      alone-Each (λ j. (j.cluster_local ≡ false) × Suits (new_load_balancer arns i) j) arns i
        (o, self);
  inside = λ e. cc;
}
  where
    self : Suits (new_load_balancer arns i) i
    self = record {
      scheme = refl;
      ip_address_type = refl;
      load_balancer_type = refl;
      http2 = refl;
      security_group = λ t. refl;
      waf_web_acl_id = λ t. refl;
    }

cluster_local_lb-IsUniform : IsUniform cluster_local_lb
cluster_local_lb-IsUniform = record { outside = λ e. cc; inside = λ e. (refl, tt) }

module _ (certs : CertificatesFinder) (cert_ttl : Duration) where
  stack-IsUniform : (sl : StackLbState) → IsUniform (load_balancer_of certs cert_ttl sl)
  unfolding load_balancer_of
  stack-IsUniform sl = record {
    outside = λ e.
        no_ingresses-Each
          (λ i. (i.cluster_local ≡ false) × Suits (load_balancer_of certs cert_ttl sl) i)
          (available certs sl.stack.certificate_arns);
    inside = λ e. cc;
  }

-- Whatever the stacks, the ingresses and the certificates, on every load balancer of the model all
-- ingresses agree with its scheme, address type, type and HTTP/2 setting, and the shared ones also
-- with its security group and WAF; and ingresses local to the cluster stand only on the load
-- balancer marked so, which holds no others.
pub build_managed_model-IsUniform :
    (certs : CertificatesFinder) (certs_per_alb : ℕ) (cert_ttl : Duration)
    (ingresses : List Ingress) (stacks : List StackLbState) (alarms : List Alarm) (acl : String)
    → All IsUniform (build_managed_model certs certs_per_alb cert_ttl ingresses stacks alarms acl)
unfolding build_managed_model
build_managed_model-IsUniform certs n ttl ingresses stacks alarms acl =
    attach-All IsUniform alarms alarms-IsUniform _ (
      match-All certs n IsUniform (taken-IsUniform n) local-IsUniform cluster_local_lb-IsUniform
        (get_all_load_balancers certs ttl (sort_stacks stacks))
        (attach_global_waf_acl acl ingresses) (λ arns i _ o _. new-IsUniform arns i o)
        (stacks-All certs ttl IsUniform (stack-IsUniform certs ttl) (sort_stacks stacks)))
  where
    alarms-IsUniform : (lb : LoadBalancer) → IsUniform lb → IsUniform (with_alarms alarms lb)
    alarms-IsUniform lb u = record { outside = λ e. moved (u.outside e); inside = u.inside }
      where
        moved :
            Each (λ j. (j.cluster_local ≡ false) × Suits lb j) lb.ingresses
            → Each (λ j. (j.cluster_local ≡ false) × Suits (with_alarms alarms lb) j) lb.ingresses
        moved = All-imp lb.ingresses (λ e. All-imp e.1 (λ j p. (p.0, same p.1)))
          where
            same : {j : Ingress} → Suits lb j → Suits (with_alarms alarms lb) j
            same s = record {
              scheme = s.scheme;
              ip_address_type = s.ip_address_type;
              load_balancer_type = s.load_balancer_type;
              http2 = s.http2;
              security_group = s.security_group;
              waf_web_acl_id = s.waf_web_acl_id;
            }
