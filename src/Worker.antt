-- ===== src/Worker.antt =====
-- worker.go: a load balancer of the model, with the stack behind it and the ingresses on it.
pub mod Model
pub mod Certificates
pub mod Entries
pub mod Run
pub mod Round
pub mod Cni
pub mod AlarmConfig
use kube_ingress_aws_control.Prelude.{
  ℕ, zero, suc, ◌+◌, String, Bool, true, false, not, ◌&&◌, ◌||◌, Option, none, some, List, [], ◌∷◌,
  ◌++◌, ◌==◌, ltb, eqb, same_bool, length, all, if◌then◌else◌,
}
use Prim.Native.String
use kube_ingress_aws_control.Prelude.Dict.{Dict, lookup, insert, has_key, or_default}
use kube_ingress_aws_control.Certs.{Time, Duration}
use kube_ingress_aws_control.Kubernetes.{Ingress, default_cluster_local_domain}
use kube_ingress_aws_control.Aws.Stack.{Stack, is_complete, should_delete}
use kube_ingress_aws_control.Aws.LoadBalancer.{LoadBalancerState, Alarm, hash}

pub record LoadBalancer : Type 0 where
  pub ingresses : Dict (List Ingress)
  pub scheme : String
  pub stack : Option Stack
  pub state : Option LoadBalancerState
  pub existing_stack_certificate_arns : Dict Time
  pub shared : Bool
  pub http2 : Bool
  pub cluster_local : Bool
  pub security_group : String
  pub ssl_policy : String
  pub ip_address_type : String
  pub waf_web_acl_id : String
  pub cert_ttl : Duration
  pub cw_alarms : List Alarm
  pub load_balancer_type : String

pub data Status : Type 0 where
  ready update missing delete : Status

-- fmt.Sprintf("%s/%s", ingress.Namespace, ingress.Name)
abbrev pub resource_name : Ingress → String
resource_name i = String.◌++◌ i.namespace (String.◌++◌ "/" i.name)

-- the owner of the stack, empty if there is no stack
abbrev pub stack_owner : Option Stack → String
stack_owner none = ""
stack_owner (some s) = s.owner_ingress

-- m[k] = append(m[k], ingress)
unfoldable pub append_to : String → Ingress → Dict (List Ingress) → Dict (List Ingress)
unfolding insert lookup
append_to k i m = insert k (or_default [] (lookup k m) ++ i ∷ []) m

-- the loop that appends the ingress under each of its certificates
unfoldable pub append_all : List String → Ingress → Dict (List Ingress) → Dict (List Ingress)
append_all [] i m = m
append_all (arn ∷ arns) i m = append_all arns i (append_to arn i m)

-- newCerts
unfoldable pub new_certs : Dict (List Ingress) → List String → ℕ
new_certs m [] = 0
new_certs m (arn ∷ arns) = (if has_key arn m then 0 else 1) + new_certs m arns

-- settings that would require a new load balancer
unfoldable pub settings_differ : LoadBalancer → Ingress → Bool
settings_differ l i =
    not (l.ip_address_type == i.ip_address_type)
    || not (l.scheme == i.scheme)
    || not (l.load_balancer_type == i.load_balancer_type)
    || not (same_bool l.http2 i.http2)

-- settings that can be changed on an existing load balancer if it is not shared
unfoldable pub shared_settings_differ : LoadBalancer → Ingress → Bool
shared_settings_differ l i =
    i.shared
    && (not (l.security_group == i.security_group)
        || (i.has_ssl_policy_annotation && not (l.ssl_policy == i.ssl_policy))
        || not (l.waf_web_acl_id == i.waf_web_acl_id))

-- the checks of addIngress for an ingress that is not local to the cluster, in their order
unfoldable pub refuses : LoadBalancer → List String → Ingress → ℕ → Bool
refuses l arns i max_certs =
    let owner = stack_owner l.stack in
    if not (owner == "") && not (resource_name i == owner)
    then true
    else if not i.shared && not (resource_name i == owner)
    then true
    else if settings_differ l i
    then true
    else if shared_settings_differ l i
    then true
    else ltb max_certs (length l.ingresses + new_certs l.ingresses arns)

-- the load balancer with the ingress under each of its certificates
unfoldable pub with_ingress : LoadBalancer → List String → Ingress → LoadBalancer
with_ingress l arns i = record l {
  ingresses = append_all arns i l.ingresses;
  shared = i.shared;
  ssl_policy = i.ssl_policy;
}

-- clusterLocalLB with the ingress
unfoldable pub with_local : LoadBalancer → Ingress → LoadBalancer
with_local l i = record l { ingresses = append_to default_cluster_local_domain i l.ingresses }

-- The load balancer after the call, and what it returns.
unfoldable pub add_ingress : LoadBalancer → List String → Ingress → ℕ → LoadBalancer × Bool
add_ingress l arns i max_certs =
    if i.cluster_local
    then (with_local l i, true)
    else if refuses l arns i max_certs
    then (l, false)
    else (with_ingress l arns i, true)

-- the certificates that at least one ingress needs, with the zero time
unfoldable pub needed : Dict (List Ingress) → Dict Time
needed [] = []
needed ((arn, []) ∷ m) = needed m
needed ((arn, i ∷ is') ∷ m) = (arn, 0) ∷ needed m

-- the loop over the certificates of the stack that still exist
unfoldable pub retain : Time → Duration → Dict Time → Dict Time → Dict Time
unfolding insert has_key
retain now cert_ttl [] certificates = certificates
retain now cert_ttl ((arn, ttl) ∷ rest) certificates = retain now cert_ttl rest (
    if has_key arn certificates
    then certificates
    else if eqb ttl 0
    then insert arn (now + cert_ttl) certificates
    else if ltb now ttl
    then insert arn ttl certificates
    else certificates)

-- CertificateARNs; the clock is read once for a call.
unfoldable pub certificate_arns : Time → LoadBalancer → Dict Time
certificate_arns now l =
    retain now l.cert_ttl l.existing_stack_certificate_arns (needed l.ingresses)

-- the first ingress that the range over the map meets
abbrev pub first_ingress : Dict (List Ingress) → String
first_ingress [] = ""
first_ingress ((arn, []) ∷ m) = first_ingress m
first_ingress ((arn, i ∷ is') ∷ m) = resource_name i

unfoldable pub owner : LoadBalancer → String
owner l = if l.shared then "" else first_ingress l.ingresses

-- reflect.DeepEqual of two maps of times
abbrev pub same_time : Option Time → Time → Bool
same_time none t = false
same_time (some u) t = eqb u t

unfoldable pub deep_equal : Dict Time → Dict Time → Bool
unfolding lookup
deep_equal m n = eqb (length m) (length n) && all (λ e. same_time (lookup e.0 n) e.1) m

module _ (sha256_hex : List Alarm → String) (now : Time) where
  unfoldable pub in_sync : LoadBalancer → Stack → Bool
  in_sync l s =
      deep_equal (certificate_arns now l) s.certificate_arns
      && s.cw_alarm_config_hash == hash sha256_hex l.cw_alarms
      && l.waf_web_acl_id == s.waf_web_acl_id
      && l.ssl_policy == s.ssl_policy

  abbrev is_nil : Option Stack → Bool
  is_nil none = true
  is_nil (some s) = false

  -- the last test of Status; `none` is the fault that a nil stack causes in inSync
  abbrev pub sync_status : LoadBalancer → Option Stack → Option Status
  sync_status l none = none
  sync_status l (some s) =
      some (if not (in_sync l s) && is_complete (some s) then update else ready)

  unfoldable pub status : Bool → LoadBalancer → Option Status
  status first_run l =
      if l.cluster_local
      then some ready
      else if should_delete now l.stack
      then some delete
      else if not (eqb (length l.ingresses) 0) && is_nil l.stack
      then some missing
      else if first_run
      then some update
      else sync_status l l.stack
