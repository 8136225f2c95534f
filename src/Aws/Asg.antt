-- ===== src/Aws/Asg.antt =====
-- aws/asg.go: the Auto Scaling groups and the target groups attached to them. The AWS APIs are
-- parameters: a call that changes something takes the state of the outside world and returns the new
-- one; a paginator is the list of its pages, each of which may be an error.
pub mod Chunks
pub mod Targets
pub mod Filters
use kube_ingress_aws_control.Prelude.{
  ℕ, zero, suc, String, Bool, true, false, not, ◌&&◌, Option, none, some, List, [], ◌∷◌, ◌++◌, map,
  ◌==◌, eqb, length, any, all, keep, Result, ok, err, ◌>>=◌, if◌then◌else◌,
}
use kube_ingress_aws_control.Prelude.Dict.{Dict, lookup, insert, has_key, is_some}
use kube_ingress_aws_control.Aws.Stack.{to_map_from}

-- The errors of the APIs, by their texts, and that of getAutoScalingGroupByName.
pub data AwsError : Type 0 where
  api_error : String → AwsError
  group_not_found : String → AwsError
  page_failed : AwsError → AwsError

-- types.AutoScalingGroup, with aws.ToString applied
pub record Group : Type 0 where
  pub name : String
  pub arn : String
  pub target_group_arns : List String
  pub launch_configuration_name : String
  pub tags : List (String × String)

pub record AutoScalingGroupDetails : Type 0 where
  pub name : String
  pub arn : String
  pub target_groups : List String
  pub launch_configuration_name : String
  pub tags : Dict String

unfoldable pub details_of : Group → AutoScalingGroupDetails
unfolding to_map_from
details_of g = record {
  name = g.name;
  arn = g.arn;
  target_groups = g.target_group_arns;
  launch_configuration_name = g.launch_configuration_name;
  tags = to_map_from [] g.tags;
}

-- the loop over the groups in the reply
abbrev pub first_named : String → List Group → Result AwsError AutoScalingGroupDetails
first_named name [] = err (group_not_found name)
first_named name (g ∷ gs) = if g.name == name then ok (details_of g) else first_named name gs

unfoldable pub get_auto_scaling_group_by_name :
    (List String → Result AwsError (List Group)) → String → Result AwsError AutoScalingGroupDetails
get_auto_scaling_group_by_name describe name = describe (name ∷ []) >>= first_named name

unfoldable pub by_name : Dict AutoScalingGroupDetails → List Group → Dict AutoScalingGroupDetails
unfolding insert
by_name m [] = m
by_name m (g ∷ gs) = by_name (insert g.name (details_of g) m) gs

-- the loop that looks for a name without a group
unfoldable pub all_found :
    Dict AutoScalingGroupDetails → List String → Result AwsError (Dict AutoScalingGroupDetails)
unfolding has_key
all_found m [] = ok m
all_found m (name ∷ names) =
    if has_key name m then all_found m names else err (group_not_found name)

unfoldable pub get_auto_scaling_groups_by_name :
    (List String → Result AwsError (List Group))
    → List String
    → Result AwsError (Dict AutoScalingGroupDetails)
get_auto_scaling_groups_by_name describe names =
    describe names >>= λ groups. all_found (by_name [] groups) names

-- How often a filter matches the value of the tag.
abbrev pub value_matches : List String → String → Bool
value_matches [] v = true
value_matches (x ∷ xs) v = any (λ filter_val. v == filter_val) (x ∷ xs)

-- matches counts the filters that match at least once: its keys are keys of filterTags, each once.
unfoldable pub count_matches : Dict (List String) → Dict String → Option ℕ
unfolding lookup
count_matches [] asg_tags = some 0
count_matches ((key, vals) ∷ rest) asg_tags =
    add (lookup key asg_tags) (count_matches rest asg_tags)
  where
    more : Bool → Option ℕ → Option ℕ
    more b none = none
    more b (some n) = some (if b then suc n else n)

    add : Option String → Option ℕ → Option ℕ
    add none o = none
    add (some v) o = more (value_matches vals v) o

abbrev equals : ℕ → Option ℕ → Bool
equals n none = false
equals n (some m) = eqb n m

unfoldable pub test_filter_tags : Dict (List String) → Dict String → Bool
test_filter_tags filter_tags asg_tags =
    equals (length filter_tags) (count_matches filter_tags asg_tags)

-- hasTags, and hasTagsASG, which is the same code at another type
unfoldable pub has_tags : List (String × String) → Dict String → Bool
has_tags tags expected = all (λ e. any (λ t. t.0 == e.0 && t.1 == e.1) tags) expected

-- the loop over the pages, with the targeted and the owned groups so far
unfoldable pub sort_groups :
    Dict (List String)
    → Dict String
    → Dict AutoScalingGroupDetails
    → Dict AutoScalingGroupDetails
    → List Group
    → Dict AutoScalingGroupDetails × Dict AutoScalingGroupDetails
unfolding insert
sort_groups filter_tags owned_tags targeted owned [] = (targeted, owned)
sort_groups filter_tags owned_tags targeted owned (g ∷ gs) =
    sort_groups filter_tags owned_tags
      (if test_filter_tags filter_tags (details_of g).tags
        then insert g.name (details_of g) targeted
        else targeted)
      (if has_tags g.tags owned_tags then insert g.name (details_of g) owned else owned) gs

-- the items of all pages, or the error of the first page that fails
unfoldable pub all_pages : {A : Type 0} → List (Result AwsError (List A)) → Result AwsError (List A)
all_pages [] = ok []
all_pages (ok items ∷ pages) = all_pages pages >>= λ rest. ok (items ++ rest)
all_pages (err e ∷ pages) = err (page_failed e)

unfoldable pub get_owned_and_targeted_auto_scaling_groups :
    List (Result AwsError (List Group))
    → Dict (List String)
    → Dict String
    → Result AwsError (Dict AutoScalingGroupDetails × Dict AutoScalingGroupDetails)
get_owned_and_targeted_auto_scaling_groups pages filter_tags owned_tags =
    all_pages pages >>= λ groups. ok (sort_groups filter_tags owned_tags [] [] groups)

unfoldable pub in_str_slice : String → List String → Bool
in_str_slice item slice = any (λ str. str == item) slice

-- elbv2Types.TagDescription
pub record TagDescription : Type 0 where
  pub resource_arn : String
  pub tags : List (String × String)

unfoldable pub tg_has_tags : List TagDescription → String → Dict String → Bool
tg_has_tags descs arn tags = any (λ d. d.resource_arn == arn && has_tags d.tags tags) descs

-- elbv2Types.TargetGroup
pub record TargetGroup : Type 0 where
  pub target_group_arn : String
  pub target_type : String

unfoldable pub describe_target_groups :
    List (Result AwsError (List TargetGroup)) → Result AwsError (List String)
describe_target_groups pages = all_pages pages >>= λ tgs. ok (map (λ tg. tg.target_group_arn) tgs)

unfoldable pub categorize : List String → List TargetGroup → Dict (List String) → Dict (List String)
unfolding insert lookup
categorize all_tg_arns [] m = m
categorize all_tg_arns (tg ∷ tgs) m = categorize all_tg_arns tgs (appended all_tg_arns m)
  where
    old : Option (List String) → List String
    old none = []
    old (some l) = l

    appended : List String → Dict (List String) → Dict (List String)
    appended [] d = d
    appended (v ∷ vs) d = appended vs (
        if v == tg.target_group_arn
        then insert tg.target_type (old (lookup tg.target_type d) ++ tg.target_group_arn ∷ []) d
        else d)

unfoldable pub categorize_target_type_instance :
    List (Result AwsError (List TargetGroup)) → List String → Result AwsError (Dict (List String))
categorize_target_type_instance pages all_tg_arns =
    all_pages pages >>= λ tgs. ok (categorize all_tg_arns tgs [])
