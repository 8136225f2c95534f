-- ===== src/Tests/Aws.antt =====
-- Stacks and target groups on concrete inputs.
use kube_ingress_aws_control.Prelude.{
  String, ◌≡◌, ◌↔◌, ◌⊎◌, refl, true, false, Option, none, some, List, [], ◌∷◌, ◌++◌, In, ok, ap,
  ◌==◌, eqb, has_prefix, if◌then◌else◌,
}
use kube_ingress_aws_control.Prelude.Dict.{Dict, lookup}
use kube_ingress_aws_control.Prelude.Dict.Laws.{==_false}
use kube_ingress_aws_control.Certs.{Time}
use kube_ingress_aws_control.Aws.Stack.{CfStack, create_complete}
use kube_ingress_aws_control.Aws.Stack.Reading.{is_managed_stack, map_to_managed_stack}
use kube_ingress_aws_control.Aws.Stack.Spec.{StackSpec, Formats, all_tags}
use kube_ingress_aws_control.Aws.Stack.Spec.Created.{created-is_managed}
use kube_ingress_aws_control.Aws.Stack.Spec.RoundTrip.{reread, certificates-roundtrip}
use kube_ingress_aws_control.Aws.Asg.{
  AwsError, TagDescription, describe_target_groups, in_str_slice, tg_has_tags, all_pages, has_tags,
}
use kube_ingress_aws_control.Aws.Asg.{test_filter_tags}
use kube_ingress_aws_control.Aws.Asg.Filters.{Matched, test_filter_tags-exact}
use kube_ingress_aws_control.Prelude.{All}
use kube_ingress_aws_control.Aws.Asg.Chunks.{process_chunked, chunk_loop, process_chunked-Ends}
use kube_ingress_aws_control.Aws.Asg.Targets.{
  TargetGroupApi, describe_tags, detach_obsolete, attach_existing, detach_target_groups,
  attach_target_groups, detach_arns, attach_arns, update_target_groups_for_auto_scaling_group,
}
use kube_ingress_aws_control.Aws.Asg.Targets.Exact.{
  Answered, detach_arns-exact, update_target_groups-exact,
}

-- Times as two texts, the zero time and any other.
abbrev pub formats : Formats
formats = record {
  decimal = λ n. "80";
  seconds = λ d. "5";
  format_time = λ t. if eqb t 0 then "0001-01-01T00:00:00Z" else "2030-01-01T00:00:00Z";
  sha256_hex = λ l. "ab12";
}

abbrev parse_time : String → Option Time
parse_time s = if s == "0001-01-01T00:00:00Z" then some 0 else some 7

abbrev pub spec : StackSpec
spec = record {
  name = "stack";
  scheme = "internal";
  owner_ingress = "default/shop";
  subnets = "subnet-1" ∷ "subnet-2" ∷ [];
  certificate_arns = ("arn:1", 0) ∷ ("arn:2", 7) ∷ [];
  security_group_id = "sg-1";
  cluster_id = "aws:1:eu:prod";
  vpc_id = "vpc";
  health_check = none;
  alb_healthy_threshold_count = 5;
  alb_unhealthy_threshold_count = 2;
  nlb_healthy_threshold_count = 3;
  target_type = "instance";
  target_https = false;
  idle_connection_timeout_seconds = 60;
  deregistration_delay_timeout_seconds = 300;
  alb_logs_s3_bucket = "";
  alb_logs_s3_prefix = "";
  nlb_zone_affinity = "any_availability_zone";
  http_redirect_to_https = false;
  nlb_cross_zone = false;
  deny_internal_domains = false;
  deny_internal_domains_response = record {
    status_code = 401;
    content_type = "text/plain";
    body = "Unauthorized";
  };
  internal_domains = [];
  target_port = 9999;
  http_disabled = false;
  http_target_port = 9999;
  timeout_in_minutes = 5;
  stack_termination_protection = false;
  controller_id = "kube-ingress-aws-controller";
  ssl_policy = "ELBSecurityPolicy-2016-08";
  ip_address_type = "ipv4";
  loadbalancer_type = "application";
  waf_web_acl_id = "";
  cw_alarms = [];
  http2 = true;
  tags = ("team", "edge") ∷ [];
}

created-is_managed_example :
    is_managed_stack (all_tags formats spec) "aws:1:eu:prod" "kube-ingress-aws-controller" ≡ true
created-is_managed_example = created-is_managed formats spec

abbrev reply : CfStack
reply = record {
  stack_name = "stack";
  stack_status = create_complete;
  stack_status_reason = "";
  outputs = [];
  parameters = [];
  tags = all_tags formats spec;
}

certificates-roundtrip_example :
    lookup "arn:2" (map_to_managed_stack parse_time reply).certificate_arns
    ≡ reread parse_time formats.format_time (lookup "arn:2" spec.certificate_arns)
unfolding has_prefix
certificates-roundtrip_example =
    certificates-roundtrip formats parse_time spec reply "arn:2" (refl, tt)
      ((==_false "arn:2" "arn:1" refl, tt), (tt, tt)) refl

abbrev eleven : List String
eleven = "1" ∷ "2" ∷ "3" ∷ "4" ∷ "5" ∷ "6" ∷ "7" ∷ "8" ∷ "9" ∷ "10" ∷ "11" ∷ []

-- The calls, the last one first.
abbrev log_call : List String → List (List String) → List (List String) × Option AwsError
log_call arns l = (arns ∷ l, none)

process_chunked_test :
    process_chunked eleven 10 log_call []
    ≡ some
        (("11" ∷ []) ∷ ("1" ∷ "2" ∷ "3" ∷ "4" ∷ "5" ∷ "6" ∷ "7" ∷ "8" ∷ "9" ∷ "10" ∷ []) ∷ [], none)
unfolding process_chunked chunk_loop
process_chunked_test = refl

-- What the calls have named so far.
abbrev gather_call : List String → List String → List String × Option AwsError
gather_call arns l = (l ++ arns, none)

process_chunked-Ends_example :
    (w : List String) × (o : Option AwsError) × (process_chunked eleven 10 gather_call []
      ≡ some (w, o))
    × (o ≡ none → w ≡ eleven)
process_chunked-Ends_example =
    process_chunked-Ends (λ done w. w ≡ done) 9 gather_call
      (λ done chunk w e _ _ _. ap (λ l. l ++ chunk) e) eleven [] refl

-- The outside world as the target groups that were detached and those that were attached.
abbrev World : Type 0
World = List String × List String

abbrev api : TargetGroupApi World
api = record {
  describe_load_balancer_target_groups = λ n w. ok ("old" ∷ "gone" ∷ "foreign" ∷ []);
  target_group_pages = λ w.
      ok (
        record { target_group_arn = "old"; target_type = "instance" }
        ∷ record { target_group_arn = "foreign"; target_type = "instance" }
        ∷ record { target_group_arn = "new"; target_type = "instance" }
        ∷ [])
      ∷ [];
  describe_tags_of =
      λ w arns. ok (record { resource_arn = "old"; tags = ("owner", "me") ∷ [] } ∷ []);
  attach = λ n arns w. ((w.0, w.1 ++ arns), none);
  detach = λ n arns w. ((w.0 ++ arns, w.1), none);
}

abbrev wanted : List String
wanted = "new" ∷ "missing" ∷ []

abbrev owner_tags : Dict String
owner_tags = ("owner", "me") ∷ []

asg : Unit {0}
unfolding update_target_groups_for_auto_scaling_group detach_obsolete attach_existing
    detach_target_groups attach_target_groups process_chunked chunk_loop describe_tags
    describe_target_groups all_pages detach_arns attach_arns in_str_slice tg_has_tags has_tags
asg = tt

update_test :
    update_target_groups_for_auto_scaling_group api "asg" wanted owner_tags ([], [])
    ≡ some (("gone" ∷ "old" ∷ [], "new" ∷ []), none)
unfolding asg
update_test = refl

update_target_groups-exact_example :
    (w : World) × (o : Option AwsError) × (update_target_groups_for_auto_scaling_group api "asg"
        wanted owner_tags
        ([], [])
      ≡ some (w, o))
    × (o ≡ none
        → (descs : List TagDescription) × Answered
            (api.describe_tags_of ([], []))
            ("old" ∷ "foreign" ∷ [])
            descs
          × ((w.0
                ≡ detach_arns
                    ("old" ∷ "foreign" ∷ "new" ∷ [])
                    descs
                    owner_tags
                    wanted
                    ("old" ∷ "gone" ∷ "foreign" ∷ []))
              × (w.1 ≡ attach_arns ("old" ∷ "foreign" ∷ "new" ∷ []) wanted)))
unfolding describe_target_groups all_pages in_str_slice
update_target_groups-exact_example =
    update_target_groups-exact api "asg" (λ ds as' w. (w.0 ≡ ds) × (w.1 ≡ as'))
      (λ ds chunk w e _ _. (ap (λ l. l ++ chunk) e.0, e.1))
      (λ ds as' chunk w e _ _. (e.0, ap (λ l. l ++ chunk) e.1)) wanted owner_tags ([], [])
      (refl, refl)

detach_arns-exact_example :
    In {A = String} "foreign"
      (detach_arns ("old" ∷ "foreign" ∷ []) [] owner_tags wanted ("old" ∷ "gone" ∷ "foreign" ∷ []))
    ↔ (In {A = String} "foreign" ("old" ∷ "gone" ∷ "foreign" ∷ [])
        × ((in_str_slice "foreign" ("old" ∷ "foreign" ∷ []) ≡ false)
            ⊎ ((in_str_slice "foreign" ("old" ∷ "foreign" ∷ []) ≡ true)
                × (tg_has_tags [] "foreign" owner_tags ≡ true)
                × (in_str_slice "foreign" wanted ≡ false))))
detach_arns-exact_example =
    detach_arns-exact ("old" ∷ "foreign" ∷ []) [] owner_tags wanted
      ("old" ∷ "gone" ∷ "foreign" ∷ []) "foreign"

abbrev filters : Dict (List String)
filters = ("cluster", "prod" ∷ "test" ∷ []) ∷ ("pool", []) ∷ []

test_filter_tags-exact_example :
    (test_filter_tags filters (("pool", "a") ∷ ("cluster", "prod") ∷ []) ≡ true)
    ↔ All (Matched (("pool", "a") ∷ ("cluster", "prod") ∷ [])) filters
test_filter_tags-exact_example =
    test_filter_tags-exact (("pool", "a") ∷ ("cluster", "prod") ∷ []) filters
