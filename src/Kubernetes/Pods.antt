-- ===== src/Kubernetes/Pods.antt =====
-- kubernetes/pods.go: the endpoints of the pods that are watched (PodInformer). The informer of the
-- client library is the list of pods at the start and the updates that it hands over.
pub mod Addresses
pub mod Current
use kube_ingress_aws_control.Prelude.{
  String, Bool, true, false, not, ◌&&◌, Option, none, some, List, [], ◌∷◌, ◌==◌, keep, sort_strings,
  if◌then◌else◌,
}
use kube_ingress_aws_control.Prelude.Dict.{Dict, insert, has_key, values}
use kube_ingress_aws_control.Certs.{Time}

-- corev1.Pod; a container's status by whether its state is running
pub record Pod : Type 0 where
  pub name : String
  pub deletion_timestamp : Option Time
  pub container_statuses : List Bool
  pub pod_ip : String

abbrev pub is_there : Option Time → Bool
is_there none = false
is_there (some t) = true

unfoldable pub is_pod_terminating : Pod → Bool
is_pod_terminating p = is_there p.deletion_timestamp

abbrev pub first_running : List Bool → Bool
first_running [] = false
first_running (running ∷ statuses) = running

unfoldable pub is_pod_running : Pod → Bool
is_pod_running p = first_running p.container_statuses && not (p.pod_ip == "")

-- podEndpoints, and what was sent to the channel, the last message first
pub record Watch : Type 0 where
  pub pod_endpoints : Dict String
  pub sent : List (List String)

unfoldable pub queue_endpoints : Dict String → List (List String) → Watch
unfolding sort_strings
queue_endpoints pod_endpoints sent = record {
  pod_endpoints = pod_endpoints;
  sent = sort_strings (values pod_endpoints) ∷ sent;
}

-- the loop over the list of pods
unfoldable pub store_pods : List Pod → Dict String → Dict String
unfolding is_pod_terminating is_pod_running insert
store_pods [] m = m
store_pods (pod ∷ pods) m =
    store_pods pods (
      if not (is_pod_terminating pod) && is_pod_running pod
      then insert pod.name pod.pod_ip m
      else m)

unfoldable pub remove : String → Dict String → Dict String
remove name = keep (λ e. not (e.0 == name))

-- UpdateFunc, with the new state of a pod
unfoldable pub update_func : Pod → Watch → Watch
unfolding is_pod_terminating is_pod_running has_key insert remove queue_endpoints
update_func pod w =
    if is_pod_terminating pod
    then if has_key pod.name w.pod_endpoints
      then queue_endpoints (remove pod.name w.pod_endpoints) w.sent
      else w
    else if is_pod_running pod
    then if has_key pod.name w.pod_endpoints
      then w
      else queue_endpoints (insert pod.name pod.pod_ip w.pod_endpoints) w.sent
    else w

-- PodInformer: the list at the start, which is not empty, and the updates, the last one first
unfoldable pub pod_informer : List Pod → List Pod → Watch
unfolding store_pods queue_endpoints update_func
pod_informer pods [] = queue_endpoints (store_pods pods []) []
pod_informer pods (pod ∷ updates) = update_func pod (pod_informer pods updates)
