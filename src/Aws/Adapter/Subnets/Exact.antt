-- ===== src/Aws/Adapter/Subnets/Exact.antt =====
-- Which subnets a load balancer gets.
use kube_ingress_aws_control.Prelude.{
  String, Bool, true, false, ◌≡◌, sym, subst, ◌∙◌, inl, inr, ◌↔◌, List, [], ◌∷◌, ◌++◌, map, ◌==◌,
  arith, before, keep, In, In-map, map-In, In-append, In-append_left, In-append_right, sort_strings,
  Bool-cases,
}
use kube_ingress_aws_control.Prelude.Order.{sort_strings-In}
use kube_ingress_aws_control.Prelude.Dict.{Dict, lookup, has_key}
use kube_ingress_aws_control.Prelude.Dict.Laws.{lookup-In, In-lookup}
use kube_ingress_aws_control.Aws.{scheme_internal}
use kube_ingress_aws_control.Aws.Ec2.Subnets.{SubnetDetails}
use kube_ingress_aws_control.Aws.Adapter.{Adapter}
use kube_ingress_aws_control.Aws.Adapter.Subnets.{
  serves, role_tag_name, replaces, by_az, find_lb_subnets,
}
use kube_ingress_aws_control.Aws.Adapter.Subnets.Chosen.{
  IsBest, IsChosen, replaces_connected, same_members-IsChosen, consider-IsChosen,
}

module _ (internal : Bool) where
  -- In the end the map holds the best of each zone, of those that serve the load balancer.
  by_az-IsChosen :
      (done : List SubnetDetails) (m : Dict SubnetDetails) (subnets : List SubnetDetails)
      → IsChosen internal done m
      → IsChosen internal (keep (serves internal) subnets ++ done) (by_az internal m subnets)
  unfolding by_az
  by_az-IsChosen done m [] c = c
  by_az-IsChosen done m (s ∷ ss) c = elim (Bool-cases (serves internal s)) [
    | inl e ↦ rw e (
        same_members-IsChosen internal (rest ++ s ∷ done) (s ∷ rest ++ done) _ to from
          (by_az-IsChosen (s ∷ done) _ ss (consider-IsChosen internal s done m c)))
    | inr e ↦ rw e (by_az-IsChosen done m ss c)
  ]
    where
      rest : List SubnetDetails
      rest = keep (serves internal) ss

      to : (t : SubnetDetails) → In t (rest ++ s ∷ done) → In t (s ∷ rest ++ done)
      to t i = elim (In-append t rest (s ∷ done) i) [
        | inl j ↦ inr (In-append_left t rest done j)
        | inr (inl e) ↦ inl e
        | inr (inr j) ↦ inr (In-append_right t rest done j)
      ]

      from : (t : SubnetDetails) → In t (s ∷ rest ++ done) → In t (rest ++ s ∷ done)
      from t (inl e) = In-append_right t rest (s ∷ done) (inl e)
      from t (inr i) = elim (In-append t rest done i) [
        | inl j ↦ In-append_left t rest (s ∷ done) j
        | inr j ↦ In-append_right t rest (s ∷ done) (inr j)
      ]

  empty-IsChosen : IsChosen internal [] []
  unfolding lookup
  empty-IsChosen = record { is_dict = tt; best = λ z v l. cc; all_zones = λ t j. absurd j }

  chosen :
      (subnets : List SubnetDetails)
      → IsChosen internal (keep (serves internal) subnets) (by_az internal [] subnets)
  chosen subnets =
      same_members-IsChosen internal (keep (serves internal) subnets ++ []) _ _
        (λ t i. elim (In-append t (keep (serves internal) subnets) [] i) [
          | inl j ↦ j
          | inr j ↦ absurd j
        ])
        (λ t i. In-append_left t (keep (serves internal) subnets) [] i)
        (by_az-IsChosen [] [] subnets empty-IsChosen)

  -- Two best subnets of one zone have one identifier.
  best_unique :
      (all : List SubnetDetails) (s t : SubnetDetails)
      → IsBest (role_tag_name internal) all s
      → IsBest (role_tag_name internal) all t
      → s.availability_zone ≡ t.availability_zone
      → s.id ≡ t.id
  best_unique all s t (i, b) (j, c) e =
      replaces_connected (role_tag_name internal) s t (b t j (sym e)) (c s i e)

-- The subnet `s` has at least as good a claim as `t`: the role's tag if `t` has it, and if both or
-- neither have it an identifier that does not come behind.
abbrev pub IsAsGood : String → SubnetDetails → SubnetDetails → Type 0
IsAsGood tag s t =
    (has_key tag t.tags ≡ true → has_key tag s.tags ≡ true)
    × (has_key tag s.tags ≡ has_key tag t.tags → before t.id s.id ≡ false)

IsAsGood-iff : (tag : String) (s t : SubnetDetails) → (replaces tag s t ≡ false) ↔ IsAsGood tag s t
unfolding replaces
IsAsGood-iff tag s t =
    (λ h. (λ k. ground (arith, h, k), λ k. ground (arith, h, k)), λ h. ground (arith, h.0, h.1))

-- One of the subnets, with as good a claim as every other one of its zone.
abbrev pub IsPreferred : String → List SubnetDetails → SubnetDetails → Type 0
IsPreferred tag all s =
    In s all
    × ((t : SubnetDetails)
        → In t all
        → t.availability_zone ≡ s.availability_zone
        → IsAsGood tag s t)

IsPreferred-iff :
    (tag : String) (all : List SubnetDetails) (s : SubnetDetails)
    → IsBest tag all s ↔ IsPreferred tag all s
IsPreferred-iff tag all s = (
  λ b. (b.0, λ t i q. (IsAsGood-iff tag s t).0 (b.1 t i q)),
  λ b. (b.0, λ t i q. (IsAsGood-iff tag s t).1 (b.1 t i q)),
)

-- A load balancer gets exactly the identifiers of those subnets that have, in their availability
-- zone, as good a claim as any other subnet that serves the scheme: all subnets for an internal
-- load balancer, the public ones for any other. The claim is the tag for the role, and then the
-- identifier that comes first.
pub find_lb_subnets-exact :
    (a : Adapter) (scheme id : String)
    → In id (find_lb_subnets a scheme) ↔ (
        (s : SubnetDetails) × IsPreferred
          (role_tag_name (scheme == scheme_internal))
          (keep (serves (scheme == scheme_internal)) a.manifest.subnets)
          s
        × (s.id ≡ id))
unfolding find_lb_subnets
find_lb_subnets-exact a scheme id = (to, from)
  where
    internal : Bool
    internal = scheme == scheme_internal

    m : Dict SubnetDetails
    m = by_az internal [] a.manifest.subnets

    c : IsChosen internal (keep (serves internal) a.manifest.subnets) m
    c = chosen internal a.manifest.subnets

    to :
        In id (sort_strings (map (λ e. e.1.id) m))
        → (s : SubnetDetails) × IsPreferred
            (role_tag_name internal)
            (keep (serves internal) a.manifest.subnets)
            s
          × (s.id ≡ id)
    to i =
        let ((z, s), j, e) = In-map (λ e. e.1.id) id m ((sort_strings-In id _).0 i) in
        (s, (IsPreferred-iff _ _ s).0 (c.best z s (In-lookup z s m c.is_dict j)).1, e)

    from :
        ((s : SubnetDetails) × IsPreferred
            (role_tag_name internal)
            (keep (serves internal) a.manifest.subnets)
            s
          × (s.id ≡ id))
        → In id (sort_strings (map (λ e. e.1.id) m))
    from (s, b, e) =
        let (v, l) = c.all_zones s b.0 in
        let own = (IsPreferred-iff (role_tag_name internal) _ s).1 b in
        let (q, d) = c.best s.availability_zone v l in
        (sort_strings-In id _).1 (
          subst (λ k. In k (map (λ e. e.1.id) m)) (best_unique internal _ v s d own q ∙ e)
            (map-In (λ e. e.1.id) (s.availability_zone, v) m (lookup-In s.availability_zone v m l)))
