-- ===== src/Aws/Adapter/Filters.antt =====
-- aws/adapter.go: the filters of instances and of Auto Scaling groups, parsed from one text
-- (parseFilters, parseAutoscaleFilterTags).
use kube_ingress_aws_control.Prelude.{
  String, Bool, Option, none, some, List, [], ◌∷◌, ◌==◌, eqb, has_prefix, trim_prefix, split_where,
  fields, if◌then◌else◌,
}
use Prim.Native.String
use Prim.Native.Char.{Char, code}
use kube_ingress_aws_control.Prelude.Dict.{Dict, insert}
use kube_ingress_aws_control.Aws.{cluster_id_tag_prefix, resource_lifecycle_owned}
use kube_ingress_aws_control.Aws.Ec2.{Filter, kubernetes_node_role_tag}
use kube_ingress_aws_control.Aws.Adapter.{Adapter}

unfoldable pub generate_default_filters : String → List Filter
generate_default_filters cluster_id =
    record {
      name = String.◌++◌ "tag:" (String.◌++◌ cluster_id_tag_prefix cluster_id);
      values = resource_lifecycle_owned ∷ [];
    }
    ∷ record { name = "tag-key"; values = kubernetes_node_role_tag ∷ [] }
    ∷ []

unfoldable pub generate_default_autoscale_filter_tags : String → Dict (List String)
generate_default_autoscale_filter_tags cluster_id =
    (String.◌++◌ cluster_id_tag_prefix cluster_id, resource_lifecycle_owned ∷ []) ∷ []

abbrev is_equals_sign : Char → Bool
is_equals_sign c = eqb (code c) b'='

abbrev is_comma : Char → Bool
is_comma c = eqb (code c) b','

abbrev two_parts : List String → Option (String × String)
two_parts (x ∷ y ∷ []) = some (x, y)
two_parts _ = none

-- strings.Split(term, "="), if it has two parts
unfoldable pub parts_of : String → Option (String × String)
unfolding split_where
parts_of term = two_parts (split_where is_equals_sign term)

-- the loop over the terms; none where one of them is not understood
unfoldable pub all_parts : List String → Option (List (String × String))
unfolding parts_of
all_parts [] = some []
all_parts (term ∷ terms) = add (parts_of term) (all_parts terms)
  where
    add :
        Option (String × String) → Option (List (String × String)) → Option (List (String × String))
    add none rest = none
    add (some p) none = none
    add (some p) (some ps) = some (p ∷ ps)

abbrev filters_from : List (String × String) → List Filter
filters_from [] = []
filters_from ((name, values) ∷ ps) =
    record { name = name; values = split_where is_comma values } ∷ filters_from ps

abbrev or_filters : String → Option (List (String × String)) → List Filter
or_filters cluster_id none = generate_default_filters cluster_id
or_filters cluster_id (some ps) = filters_from ps

-- `custom_filter` is the adapter's field.
unfoldable pub parse_filters : String → String → List Filter
unfolding all_parts fields generate_default_filters split_where
parse_filters custom_filter cluster_id =
    if custom_filter == ""
    then generate_default_filters cluster_id
    else or_filters cluster_id (all_parts (fields custom_filter))

-- what one term adds to the filter tags
abbrev add_filter_tag : String × String → Dict (List String) → Dict (List String)
add_filter_tag (key, value) tags =
    if key == "tag-key"
    then insert value [] tags
    else if has_prefix key "tag:"
    then insert (trim_prefix key "tag:") (split_where is_comma value) tags
    else insert key (split_where is_comma value) tags

abbrev tags_from : Dict (List String) → List (String × String) → Dict (List String)
tags_from tags [] = tags
tags_from tags (p ∷ ps) = tags_from (add_filter_tag p tags) ps

abbrev or_tags : String → Option (List (String × String)) → Dict (List String)
or_tags cluster_id none = generate_default_autoscale_filter_tags cluster_id
or_tags cluster_id (some ps) = tags_from [] ps

unfoldable pub parse_autoscale_filter_tags : String → String → Dict (List String)
unfolding all_parts fields generate_default_autoscale_filter_tags split_where has_prefix trim_prefix
    insert
parse_autoscale_filter_tags custom_filter cluster_id =
    if custom_filter == ""
    then generate_default_autoscale_filter_tags cluster_id
    else or_tags cluster_id (all_parts (fields custom_filter))

-- WithCustomFilter, which builds the manifest's filters again
unfoldable pub with_custom_filter : Adapter → String → Adapter
unfolding parse_filters parse_autoscale_filter_tags
with_custom_filter a custom_filter = record a {
  custom_filter = custom_filter;
  manifest = record a.manifest {
    filters = parse_filters custom_filter a.manifest.cluster_id;
    asg_filters = parse_autoscale_filter_tags custom_filter a.manifest.cluster_id;
  };
}
