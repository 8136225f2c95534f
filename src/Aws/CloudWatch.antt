-- ===== src/Aws/CloudWatch.antt =====
-- aws/cloudwatch.go: the alarms of a stack, and the expressions of internal/aws/cloudformation that
-- they and the template are made of.
use kube_ingress_aws_control.Prelude.{
  ℕ, String, Option, none, some, List, [], ◌∷◌, map, ◌==◌, if◌then◌else◌,
}

-- StringExpr and IntegerExpr: a literal, or a call of Ref, Fn::GetAtt or Fn::Join
pub data Expr : Type 0 where
  literal : String → Expr
  number : ℕ → Expr
  ref : String → Expr
  get_att : String → String → Expr
  join : String → Expr → Expr → Expr

-- cloudformation.CloudWatchAlarm; the fields that the code copies stand by their JSON text
pub record Alarm : Type 0 where
  pub alarm_name : Option Expr
  pub namespace : Option Expr
  pub dimensions : List (Expr × Expr)
  pub other_fields : String

-- CloudWatchAlarmList.Hash; `sha256_hex` hashes the JSON text of the list.
unfoldable pub hash : (List Alarm → String) → List Alarm → String
hash sha256_hex [] = ""
hash sha256_hex (a ∷ as') = sha256_hex (a ∷ as')

-- the logical ID of the load balancer in the template
abbrev pub load_balancer_resource_logical_id : String
load_balancer_resource_logical_id = "LB"

unfoldable pub normalize_cloud_watch_alarm_name : Option Expr → Option Expr
normalize_cloud_watch_alarm_name none = none
normalize_cloud_watch_alarm_name (some alarm_name) =
    some (join "-" (ref "AWS::StackName") alarm_name)

unfoldable pub normalize_cloud_watch_alarm_namespace : Option Expr → Expr
normalize_cloud_watch_alarm_namespace none = literal "AWS/ApplicationELB"
normalize_cloud_watch_alarm_namespace (some alarm_namespace) = alarm_namespace

abbrev pub load_balancer_full_name : Expr
load_balancer_full_name = get_att load_balancer_resource_logical_id "LoadBalancerFullName"

-- dimension.Name.Literal, which is empty for a call
abbrev pub literal_of : Expr → String
literal_of (literal s) = s
literal_of _ = ""

abbrev pub dimension_value : Expr × Expr → Expr
dimension_value (name, value) =
    if literal_of name == "LoadBalancer"
    then load_balancer_full_name
    else if literal_of name == "TargetGroup"
    then get_att "TG" "TargetGroupFullName"
    else value

-- The dimensions are named: a nil name would be a nil dereference.
unfoldable pub normalize_cloud_watch_alarm_dimensions : List (Expr × Expr) → List (Expr × Expr)
normalize_cloud_watch_alarm_dimensions [] = (literal "LoadBalancer", load_balancer_full_name) ∷ []
normalize_cloud_watch_alarm_dimensions (d ∷ ds) = map (λ e. (e.0, dimension_value e)) (d ∷ ds)
