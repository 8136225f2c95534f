-- ===== src/Aws/Asg/Targets/Exact.antt =====
-- What an update of a group's target groups detaches and attaches.
use kube_ingress_aws_control.Prelude.{
  ◌≤◌, String, ◌≡◌, refl, ◌↔◌, ◌⊎◌, inl, inr, Bool, true, false, not, ◌&&◌, Option, none, some,
  List, [], ◌∷◌, ◌++◌, keep, length, Result, ok, err, arith, In, In-append, In-append_left,
  In-append_right, keep_sound, keep_complete,
}
use kube_ingress_aws_control.Prelude.Dict.{Dict}
use kube_ingress_aws_control.Aws.Asg.{
  AwsError, TagDescription, describe_target_groups, in_str_slice, tg_has_tags,
}
use kube_ingress_aws_control.Aws.Asg.Chunks.{process_chunked-Ends}
use kube_ingress_aws_control.Aws.Asg.Targets.{
  TargetGroupApi, with_descriptions, add_descriptions, describe_tags, detach_arns, attach_arns,
  unless_empty, and_then, attach_target_groups, detach_target_groups, detach_described,
  detach_obsolete, attach_existing, update_described, update_target_groups_for_auto_scaling_group,
}

-- A target group is detached if and only if it is attached and either does not exist, or has the
-- controller's tags and is not asked for.
pub detach_arns-exact :
    (all_tgs : List String) (descs : List TagDescription) (owner_tags : Dict String)
    (target_group_arns attached : List String) (arn : String)
    → In arn (detach_arns all_tgs descs owner_tags target_group_arns attached) ↔ (
        In arn attached
        × ((in_str_slice arn all_tgs ≡ false)
            ⊎ ((in_str_slice arn all_tgs ≡ true)
                × (tg_has_tags descs arn owner_tags ≡ true)
                × (in_str_slice arn target_group_arns ≡ false))))
unfolding detach_arns
detach_arns-exact all_tgs descs owner_tags target_group_arns attached arn = (to, from)
  where
    gone : String → Bool
    gone a = not (in_str_slice a all_tgs)

    here : String → Bool
    here a = in_str_slice a all_tgs

    unwanted : String → Bool
    unwanted a = tg_has_tags descs a owner_tags && not (in_str_slice a target_group_arns)

    to :
        In arn (keep gone attached ++ keep unwanted (keep here attached))
        → In arn attached
          × ((in_str_slice arn all_tgs ≡ false)
              ⊎ ((in_str_slice arn all_tgs ≡ true)
                  × (tg_has_tags descs arn owner_tags ≡ true)
                  × (in_str_slice arn target_group_arns ≡ false)))
    to i = elim (In-append arn (keep gone attached) (keep unwanted (keep here attached)) i) [
      | inl j ↦ let h = keep_sound gone arn attached j in (h.0, inl (ground (arith, h.1)))
      | inr j ↦
          let h = keep_sound unwanted arn (keep here attached) j in
          let g = keep_sound here arn attached h.0 in
          (g.0, inr (g.1, ground (arith, h.1), ground (arith, h.1)))
    ]

    from :
        In arn attached
          × ((in_str_slice arn all_tgs ≡ false)
              ⊎ ((in_str_slice arn all_tgs ≡ true)
                  × (tg_has_tags descs arn owner_tags ≡ true)
                  × (in_str_slice arn target_group_arns ≡ false)))
        → In arn (keep gone attached ++ keep unwanted (keep here attached))
    from (i, inl e) =
        In-append_left arn (keep gone attached) (keep unwanted (keep here attached))
          (keep_complete gone arn attached i (ground (arith, e)))
    from (i, inr (e, t, u)) =
        In-append_right arn (keep gone attached) (keep unwanted (keep here attached)) (
          keep_complete unwanted arn (keep here attached) (keep_complete here arn attached i e)
            (ground (arith, t, u)))

-- What DescribeTags answers for target groups, which it is asked for in their order, for at least one
-- and at most twenty at a time: all its answers one after the other, each without an error.
pub data Answered (ask : List String → Result AwsError (List TagDescription))
    : List String → List TagDescription → Type 0 where
  nothing : Answered ask [] []
  chunk_answered :
      (arns chunk : List String) (descs answer : List TagDescription)
      → Answered ask arns descs
      → 1 ≤ length chunk
      → length chunk ≤ 20
      → ask chunk ≡ ok answer
      → Answered ask (arns ++ chunk) (descs ++ answer)

add_descriptions-Answered :
    (ask : List String → Result AwsError (List TagDescription)) (arns chunk : List String)
    (descs : List TagDescription)
    → Answered ask arns descs
    → 1 ≤ length chunk
    → length chunk ≤ 20
    → (add_descriptions ask chunk descs).1 ≡ none
    → Answered ask (arns ++ chunk) (add_descriptions ask chunk descs).0
add_descriptions-Answered ask arns chunk descs p l m = answered (ask chunk) refl
  where
    answered :
        (r : Result AwsError (List TagDescription))
        → ask chunk ≡ r
        → (with_descriptions r descs).1 ≡ none
        → Answered ask (arns ++ chunk) (with_descriptions r descs).0
    answered (ok ds) q e = chunk_answered arns chunk descs ds p l m q
    answered (err x) q e = cc

module _ {W : Type 0} (api : TargetGroupApi W) (name : String)
    (Done : List String → List String → W → Type 0)
    (detach_step : (ds chunk : List String) (w : W)
      → Done ds [] w
      → length chunk ≤ 10
      → (api.detach name chunk w).1 ≡ none
      → Done (ds ++ chunk) [] (api.detach name chunk w).0)
    (attach_step : (ds as' chunk : List String) (w : W)
      → Done ds as' w
      → length chunk ≤ 10
      → (api.attach name chunk w).1 ≡ none
      → Done ds (as' ++ chunk) (api.attach name chunk w).0) where
  -- The run ends, and without an error it has made exactly these calls.
  abbrev pub EndsWith : (W → Type 0) → Option (W × Option AwsError) → Type 0
  EndsWith Q r = (w : W) × (o : Option AwsError) × (r ≡ some (w, o)) × (o ≡ none → Q w)

  detach-EndsWith :
      (ds : List String) (w : W)
      → Done [] [] w
      → EndsWith (Done ds []) (unless_empty ds (detach_target_groups api name ds w) w)
  unfolding detach_target_groups
  detach-EndsWith [] w d = (w, none, refl, λ _. d)
  detach-EndsWith (x ∷ xs) w d =
      process_chunked-Ends (λ ds. Done ds []) 9 (api.detach name)
        (λ ds chunk v p _ s e. detach_step ds chunk v p s e) (x ∷ xs) w d

  attach-EndsWith :
      (ds as' : List String) (w : W)
      → Done ds [] w
      → EndsWith (Done ds as') (unless_empty as' (attach_target_groups api name as' w) w)
  unfolding attach_target_groups
  attach-EndsWith ds [] w d = (w, none, refl, λ _. d)
  attach-EndsWith ds (x ∷ xs) w d =
      process_chunked-Ends (Done ds) 9 (api.attach name)
        (λ as' chunk v p _ s e. attach_step ds as' chunk v p s e) (x ∷ xs) w d

  describe_tags-ends :
      (w : W) (arns : List String)
      → (r : List TagDescription × Option AwsError) × (describe_tags (api.describe_tags_of w) arns
          ≡ some r)
        × (r.1 ≡ none → Answered (api.describe_tags_of w) arns r.0)
  unfolding describe_tags
  describe_tags-ends w arns =
      let (ds, o, e, f) =
        process_chunked-Ends (Answered (api.describe_tags_of w)) 19
          (add_descriptions (api.describe_tags_of w))
          (λ done chunk descs p l m q.
            add_descriptions-Answered (api.describe_tags_of w) done chunk descs p l m q)
          arns [] nothing in
      ((ds, o), e, f)

  and_then-EndsWith :
      {P Q : W → Type 0} (r : Option (W × Option AwsError))
      (next : W → Option (W × Option AwsError))
      → EndsWith P r
      → ((w : W) → P w → EndsWith Q (next w))
      → EndsWith Q (and_then r next)
  and_then-EndsWith r next (w, none, e, p) f = rw e (f w (p refl))
  and_then-EndsWith r next (w, some x, e, p) f = rw e (w, some x, refl, λ g. cc)

  module _ (target_group_arns : List String) (owner_tags : Dict String) (w : W)
      (start : Done [] [] w) where
    -- the tag descriptions that DescribeTags gives for those attached target groups that exist
    abbrev pub Described : List String → List String → List TagDescription → Type 0
    Described all_tgs attached =
        Answered (api.describe_tags_of w) (keep (λ arn. in_str_slice arn all_tgs) attached)

    -- What an update without an error has detached and attached, for the target groups `all_tgs`
    -- that exist and those that were attached before.
    abbrev pub Updated : List String → List String → W → Type 0
    Updated all_tgs attached w' =
        (descs : List TagDescription) × Described all_tgs attached descs
        × Done (detach_arns all_tgs descs owner_tags target_group_arns attached)
            (attach_arns all_tgs target_group_arns) w'

    abbrev Detached : List String → List String → W → Type 0
    Detached all_tgs attached w' =
        (descs : List TagDescription) × Described all_tgs attached descs
        × Done (detach_arns all_tgs descs owner_tags target_group_arns attached) [] w'

    described :
        (all_tgs attached : List String) (r : List TagDescription × Option AwsError)
        → (r.1 ≡ none → Described all_tgs attached r.0)
        → EndsWith
            (Detached all_tgs attached)
            (detach_described api name target_group_arns owner_tags all_tgs attached (some r) w)
    described all_tgs attached (descs, some e) h = (w, some e, refl, λ f. cc)
    described all_tgs attached (descs, none) h =
        let (v, o, e, f) =
          detach-EndsWith (detach_arns all_tgs descs owner_tags target_group_arns attached) w
            start in
        (v, o, e, λ g. (descs, h refl, f g))

    detach_obsolete-EndsWith :
        (all_tgs attached : List String)
        → EndsWith
            (Detached all_tgs attached)
            (detach_obsolete api name target_group_arns owner_tags all_tgs attached w)
    unfolding detach_obsolete detach_arns
    detach_obsolete-EndsWith all_tgs [] = (w, none, refl, λ _. ([], nothing, start))
    detach_obsolete-EndsWith all_tgs (x ∷ xs) =
        let (r, e, h) = describe_tags-ends w (keep (λ arn. in_str_slice arn all_tgs) (x ∷ xs)) in
        rw e (described all_tgs (x ∷ xs) r h)

    attach_existing-EndsWith :
        (all_tgs attached : List String) (v : W)
        → Detached all_tgs attached v
        → EndsWith
            (Updated all_tgs attached)
            (attach_existing api name target_group_arns owner_tags all_tgs v)
    unfolding attach_existing
    attach_existing-EndsWith all_tgs attached v (descs, h, d) =
        let (u, o, e, f) =
          attach-EndsWith (detach_arns all_tgs descs owner_tags target_group_arns attached)
            (attach_arns all_tgs target_group_arns) v d in
        (u, o, e, λ g. (descs, h, f g))

    -- `Updated` for the answers of the two calls that list the target groups
    abbrev pub UpdatedFrom :
        Result AwsError (List String) → Result AwsError (List String) → W → Type 0
    UpdatedFrom (ok attached) (ok all_tgs) w' = Updated all_tgs attached w'
    UpdatedFrom _ _ w' = ⊥

    update_described-EndsWith :
        (r s : Result AwsError (List String))
        → EndsWith (UpdatedFrom r s) (update_described api name target_group_arns owner_tags r s w)
    update_described-EndsWith (err e) s = (w, some e, refl, λ g. cc)
    update_described-EndsWith (ok attached) (err e) = (w, some e, refl, λ g. cc)
    update_described-EndsWith (ok attached) (ok all_tgs) =
        and_then-EndsWith (detach_obsolete api name target_group_arns owner_tags all_tgs attached w)
          (attach_existing api name target_group_arns owner_tags all_tgs)
          (detach_obsolete-EndsWith all_tgs attached) (attach_existing-EndsWith all_tgs attached)

    -- The update ends, and if it reports no error it has detached exactly the target groups that
    -- `detach_arns` names, by the tags that DescribeTags gives for all attached target groups that
    -- exist, and then attached exactly those asked for that exist, in order and in calls of at most
    -- ten.
    pub update_target_groups-exact :
        EndsWith
          (UpdatedFrom
            (api.describe_load_balancer_target_groups name w)
            (describe_target_groups (api.target_group_pages w)))
          (update_target_groups_for_auto_scaling_group api name target_group_arns owner_tags w)
    unfolding update_target_groups_for_auto_scaling_group
    update_target_groups-exact =
        update_described-EndsWith (api.describe_load_balancer_target_groups name w)
          (describe_target_groups (api.target_group_pages w))
