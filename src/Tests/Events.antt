-- ===== src/Tests/Events.antt =====
-- Pods, the events of the CNI mode and the providers of certificates on concrete inputs.
use kube_ingress_aws_control.Prelude.{
  String, ◌≡◌, ◌↔◌, refl, true, none, some, List, [], ◌∷◌, ◌==◌, In, Result, ok, err, arith,
  sort_strings, split_where, if◌then◌else◌,
}
use kube_ingress_aws_control.Prelude.Dict.{has_key, lookup, insert}
use kube_ingress_aws_control.Certs.{X509, new_certificate}
use kube_ingress_aws_control.Aws.Asg.{all_pages}
use kube_ingress_aws_control.Aws.Providers.{
  AcmApi, Provider, acm_certificate_provider, get_certificates, get_acm_certificates,
  get_acm_certificate_summaries, tag_of, filter_certificates_by_tag, times_tagged, each,
  get_certificate_summary_from_acm, summary_from, parse_certificate, parse_certificates,
}
use kube_ingress_aws_control.Aws.Providers.Exact.{Gives, get_certificates-exact}
use kube_ingress_aws_control.Kubernetes.Pods.{
  Pod, is_pod_terminating, is_pod_running, queue_endpoints, store_pods, remove, update_func,
  pod_informer,
}
use kube_ingress_aws_control.Kubernetes.Pods.Current.{IsCurrent, pod_informer-IsCurrent}
use kube_ingress_aws_control.Aws.CloudWatch.{Alarm}
use kube_ingress_aws_control.Worker.AlarmConfig.{
  get_cloud_watch_alarms, get_cloud_watch_alarms_from_config_map, collect_alarms,
}
use kube_ingress_aws_control.Worker.Cni.{
  Message, target_groups, pod_endpoints, Handler, started, react, Runs, start, send_target_groups,
  send_endpoints, receive_target_groups, receive_endpoints,
}
use kube_ingress_aws_control.Worker.Cni.Current.{cni_event_handler-IsCurrent}

abbrev running : Pod
running = record {
  name = "skipper-1";
  deletion_timestamp = none;
  container_statuses = true ∷ [];
  pod_ip = "10.0.0.2";
}

abbrev second : Pod
second = record {
  name = "skipper-0";
  deletion_timestamp = none;
  container_statuses = true ∷ [];
  pod_ip = "10.0.0.1";
}

abbrev stopping : Pod
stopping = record running { deletion_timestamp = some 5 }

pod_informer_test :
    (pod_informer (running ∷ []) (stopping ∷ second ∷ [])).sent
    ≡ ("10.0.0.1" ∷ []) ∷ ("10.0.0.1" ∷ "10.0.0.2" ∷ []) ∷ ("10.0.0.2" ∷ []) ∷ []
unfolding pod_informer update_func queue_endpoints store_pods remove is_pod_terminating
    is_pod_running has_key lookup insert sort_strings
pod_informer_test = refl

-- A pod that runs again under its name with another address keeps the old one in the watch.
pod_address_test :
    (pod_informer (running ∷ []) (record running { pod_ip = "10.0.0.9" } ∷ [])).sent
    ≡ ("10.0.0.2" ∷ []) ∷ []
unfolding pod_informer update_func queue_endpoints store_pods remove is_pod_terminating
    is_pod_running has_key lookup insert sort_strings
pod_address_test = refl

pod_informer-IsCurrent_example :
    IsCurrent
      (running ∷ [])
      (stopping ∷ second ∷ [])
      (pod_informer (running ∷ []) (stopping ∷ second ∷ []))
pod_informer-IsCurrent_example = pod_informer-IsCurrent (running ∷ []) (stopping ∷ second ∷ [])

abbrev messages : List Message
messages = pod_endpoints (some ("10.0.0.1" ∷ [])) ∷ target_groups (some ("tg" ∷ [])) ∷ []

abbrev quiet : Handler
quiet = record {
  target_group_ch = [];
  endpoint_ch = [];
  cni_target_group_arns = some ("tg" ∷ []);
  endpoints = some ("10.0.0.1" ∷ []);
  calls = ("10.0.0.1" ∷ [], "tg" ∷ []) ∷ [];
}

quiet-Runs : Runs messages quiet
unfolding started react
quiet-Runs =
    receive_endpoints _ _ _ _
      (receive_target_groups _ _ _ _
        (send_endpoints _ _ (some ("10.0.0.1" ∷ []))
          (send_target_groups _ _ (some ("tg" ∷ [])) start (omega arith)) (omega arith))
        refl)
      refl

cni_event_handler-IsCurrent_example :
    (rest : List (List String × List String)) × (quiet.calls ≡ ("10.0.0.1" ∷ [], "tg" ∷ []) ∷ rest)
cni_event_handler-IsCurrent_example =
    cni_event_handler-IsCurrent messages quiet ("tg" ∷ []) ("10.0.0.1" ∷ []) quiet-Runs refl refl
      refl refl

abbrev x509 : X509
x509 = record { common_name = "a.org"; dns_names = []; not_before = 0; not_after = 9 }

abbrev pem_blocks : String → List String
pem_blocks text = text ∷ []

abbrev x509_parse : String → Result String X509
x509_parse block = if block == "pem" then ok x509 else err "malformed"

abbrev acm : AcmApi
acm = record {
  list_certificates = ok ("arn:1" ∷ []) ∷ ok ("arn:2" ∷ []) ∷ [];
  list_tags_for_certificate =
      λ arn. ok (if arn == "arn:2" then ("team", "edge") ∷ ("env", "prod") ∷ [] else []);
  get_certificate = λ arn. ok ("pem", none);
}

abbrev provider : Provider pem_blocks x509_parse
provider = acm_certificate_provider acm "env=prod"

get_certificates-exact_example :
    In (new_certificate "arn:2" x509 []) (new_certificate "arn:2" x509 [] ∷ [])
    ↔ Gives pem_blocks x509_parse provider (new_certificate "arn:2" x509 [])
unfolding get_certificates get_acm_certificates get_acm_certificate_summaries tag_of
    filter_certificates_by_tag times_tagged each get_certificate_summary_from_acm summary_from
    parse_certificate parse_certificates all_pages split_where
get_certificates-exact_example =
    get_certificates-exact pem_blocks x509_parse provider (new_certificate "arn:2" x509 [] ∷ [])
      refl (new_certificate "arn:2" x509 [])

abbrev alarm : Alarm
alarm = record { alarm_name = none; namespace = none; dimensions = []; other_fields = "{}" }

-- A text that cannot be read is left out, and the rest comes in the order of the keys.
get_cloud_watch_alarms_test :
    get_cloud_watch_alarms
      (λ text. if text == "bad" then err "yaml" else ok (alarm ∷ []))
      (λ namespace name. ok (("b", "good") ∷ ("a", "bad") ∷ []))
      (some (record { name = "alarms"; namespace = "kube-system" }))
    ≡ ok (alarm ∷ [])
unfolding get_cloud_watch_alarms get_cloud_watch_alarms_from_config_map collect_alarms lookup
    sort_strings
get_cloud_watch_alarms_test = refl
