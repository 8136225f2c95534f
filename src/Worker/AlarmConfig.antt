-- ===== src/Worker/AlarmConfig.antt =====
-- worker.go: the alarms that a ConfigMap holds (getCloudWatchAlarms,
-- getCloudWatchAlarmsFromConfigMap). NewCloudWatchAlarmListFromYAML, whose parser is a library, is an
-- argument.
use kube_ingress_aws_control.Prelude.{
  String, Option, none, some, List, [], ◌∷◌, ◌++◌, sort_strings, Result, ok, err, ◌>>=◌,
}
use kube_ingress_aws_control.Prelude.Dict.{Dict, keys, lookup, or_default}
use kube_ingress_aws_control.Kubernetes.{Error}
use kube_ingress_aws_control.Aws.LoadBalancer.{Alarm}

-- kubernetes.ResourceLocation
pub record ResourceLocation : Type 0 where
  pub name : String
  pub namespace : String

-- A text that is no list of alarms is left out.
abbrev pub alarms_or_none : Result String (List Alarm) → List Alarm
alarms_or_none (err e) = []
alarms_or_none (ok list) = list

module _ (from_yaml : String → Result String (List Alarm)) where
  -- the loop over the sorted keys; every key is one of the map
  unfoldable pub collect_alarms : Dict String → List String → List Alarm
  unfolding lookup
  collect_alarms entries [] = []
  collect_alarms entries (key ∷ ks) =
      alarms_or_none (from_yaml (or_default "" (lookup key entries))) ++ collect_alarms entries ks

  unfoldable pub get_cloud_watch_alarms_from_config_map : Dict String → List Alarm
  unfolding collect_alarms sort_strings
  get_cloud_watch_alarms_from_config_map entries =
      collect_alarms entries (sort_strings (keys entries))

  -- `get_config_map` gives the entries of a ConfigMap (its Data).
  unfoldable pub get_cloud_watch_alarms :
      (String → String → Result Error (Dict String))
      → Option ResourceLocation
      → Result Error (List Alarm)
  unfolding get_cloud_watch_alarms_from_config_map
  get_cloud_watch_alarms get_config_map none = ok []
  get_cloud_watch_alarms get_config_map (some config) =
      get_config_map config.namespace config.name >>= λ entries.
      ok (get_cloud_watch_alarms_from_config_map entries)
