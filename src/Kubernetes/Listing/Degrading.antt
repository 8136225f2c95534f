-- ===== src/Kubernetes/Listing/Degrading.antt =====
-- What the calls of ListResources return one after the other, with and without route groups.
use kube_ingress_aws_control.Prelude.{
  ◌≡◌, refl, ◌⊎◌, inl, inr, Bool, true, false, List, [], ◌∷◌, ◌++◌, Any, Result, ok, err, ◌>>=◌,
  subst, sym, ap, ◌∙◌, Bool-cases, if◌then◌else◌,
}
use kube_ingress_aws_control.Kubernetes.{
  Error, Ingress, KubeIngress, RouteGroup, Adapter, invalid_ingress_update_params,
  update_not_needed, resource_not_found, no_permission_to_access_resource, not_supported_by_nlb,
  unknown_resource_type, other,
}
use kube_ingress_aws_control.Kubernetes.Listing.{
  list_ingress, list_routegroups, disables_route_groups, list_resources, without_route_groups,
  supported_ingress, supported_ingress_class,
}
use kube_ingress_aws_control.Kubernetes.NewIngress.{
  new_ingress_from_kube, new_ingress, ingress_of, load_balancer_type_of, requested_type,
  external_hosts, aws_type,
}

-- A call by the answers of the API server: to the list of ingresses, and to that of route groups.
abbrev pub Call : Type 0
Call = Result Error (List KubeIngress) × Result Error (List RouteGroup)

-- the adapter after some calls, the first one first
abbrev pub after : Adapter → List Call → Adapter
after a [] = a
after a (c ∷ calls) = after (list_resources a c.0 c.1).0 calls

-- There are no route groups in the cluster, or they may not be read.
abbrev pub NotThere : Error → Type 0
NotThere e = (e ≡ resource_not_found) ⊎ (e ≡ no_permission_to_access_resource)

-- a call that was told so after it had its ingresses
abbrev pub Missed : Call → Type 0
Missed c =
    ((items : List KubeIngress) × (c.0 ≡ ok items)) × ((e : Error) × (c.1 ≡ err e) × NotThere e)

-- What a call returns for its two answers, after the calls before it.
pub data Listed (a : Adapter) (calls : List Call)
    : Result Error (List KubeIngress)
      → Result Error (List RouteGroup)
      → Result Error (List Ingress)
      → Type 0 where
  no_ingresses :
      (e : Error) (groups : Result Error (List RouteGroup)) → Listed a calls (err e) groups (err e)
  without_support :
      (items : List KubeIngress) (groups : Result Error (List RouteGroup))
      → (a.route_group_support ≡ false) ⊎ Any Missed calls
      → Listed a calls (ok items) groups (list_ingress a (ok items))
  with_both :
      (items : List KubeIngress) (groups : List RouteGroup)
      → a.route_group_support ≡ true
      → ¬ (Any Missed calls)
      → Listed a calls (ok items) (ok groups) (
          list_ingress a (ok items) >>= λ ings.
          list_routegroups a (ok groups) >>= λ rgs. ok (ings ++ rgs))
  missed_now :
      (items : List KubeIngress) (e : Error)
      → a.route_group_support ≡ true
      → ¬ (Any Missed calls)
      → NotThere e
      → Listed a calls (ok items) (err e) (list_ingress a (ok items))
  failed :
      (items : List KubeIngress) (e : Error)
      → a.route_group_support ≡ true
      → ¬ (Any Missed calls)
      → ¬ (NotThere e)
      → Listed a calls (ok items) (err e) (err e)

NotThere-cases :
    (e : Error)
    → ((disables_route_groups e ≡ true) × NotThere e)
      ⊎ ((disables_route_groups e ≡ false) × ¬ (NotThere e))
NotThere-cases resource_not_found = inl (refl, inl refl)
NotThere-cases no_permission_to_access_resource = inl (refl, inr refl)
NotThere-cases invalid_ingress_update_params = inr (refl, λ n. elim n [ inl e ↦ cc | inr e ↦ cc ])
NotThere-cases update_not_needed = inr (refl, λ n. elim n [ inl e ↦ cc | inr e ↦ cc ])
NotThere-cases not_supported_by_nlb = inr (refl, λ n. elim n [ inl e ↦ cc | inr e ↦ cc ])
NotThere-cases (unknown_resource_type t) = inr (refl, λ n. elim n [ inl e ↦ cc | inr e ↦ cc ])
NotThere-cases (other t) = inr (refl, λ n. elim n [ inl e ↦ cc | inr e ↦ cc ])

if_eq-true : {A : Type 0} (b : Bool) (x y : A) → b ≡ true → (if b then x else y) ≡ x
if_eq-true true x y e = refl
if_eq-true false x y e = cc

if_eq-false : {A : Type 0} (b : Bool) (x y : A) → b ≡ false → (if b then x else y) ≡ y
if_eq-false true x y e = cc
if_eq-false false x y e = refl

-- One call, for each case of its answers.
call_failed :
    (a : Adapter) (e : Error) (groups : Result Error (List RouteGroup))
    → list_resources a (err e) groups ≡ (a, err e)
unfolding list_resources list_ingress
call_failed a e groups = refl

call_off :
    (a : Adapter) (items : List KubeIngress) (groups : Result Error (List RouteGroup))
    → a.route_group_support ≡ false
    → list_resources a (ok items) groups ≡ (a, list_ingress a (ok items))
unfolding list_resources list_ingress
call_off a items groups s = if_eq-false a.route_group_support _ _ s

call_both :
    (a : Adapter) (items : List KubeIngress) (groups : List RouteGroup)
    → a.route_group_support ≡ true
    → list_resources a (ok items) (ok groups) ≡ (
      a,
      list_ingress a (ok items) >>= λ ings.
          list_routegroups a (ok groups) >>= λ rgs. ok (ings ++ rgs),
    )
unfolding list_resources list_ingress list_routegroups
call_both a items groups s = if_eq-true a.route_group_support _ _ s

call_missed :
    (a : Adapter) (items : List KubeIngress) (e : Error)
    → a.route_group_support ≡ true
    → disables_route_groups e ≡ true
    → list_resources a (ok items) (err e) ≡ (without_route_groups a, list_ingress a (ok items))
unfolding list_resources list_ingress list_routegroups
call_missed a items e s d =
    if_eq-true a.route_group_support _ _ s ∙ if_eq-true (disables_route_groups e) _ _ d

call_refused :
    (a : Adapter) (items : List KubeIngress) (e : Error)
    → a.route_group_support ≡ true
    → disables_route_groups e ≡ false
    → list_resources a (ok items) (err e) ≡ (a, err e)
unfolding list_resources list_ingress list_routegroups
call_refused a items e s d =
    if_eq-true a.route_group_support _ _ s ∙ if_eq-false (disables_route_groups e) _ _ d

-- Support that is off stays off.
after_off : (a : Adapter) (calls : List Call) → a.route_group_support ≡ false → after a calls ≡ a
after_off a [] s = refl
after_off a ((err e, groups) ∷ calls) s = rw (call_failed a e groups) (after_off a calls s)
after_off a ((ok items, groups) ∷ calls) s = rw (call_off a items groups s) (after_off a calls s)

-- a call before the others that has not missed the groups
goes_on :
    {S T : Type 0} (calls : List Call) (c : Call)
    → (S × ¬ (Any Missed calls)) ⊎ (T × Any Missed calls)
    → ¬ (Missed c)
    → (S × ¬ (Any Missed (c ∷ calls))) ⊎ (T × Any Missed (c ∷ calls))
goes_on calls c (inl (q, n)) f = inl (q, λ i. elim i [ inl h ↦ f h | inr j ↦ n j ])
goes_on calls c (inr (q, i)) f = inr (q, inr i)

err_eq : {A : Type 0} {e e' : Error} → ◌≡◌ {A = Result Error A} (err e) (err e') → e ≡ e'
err_eq h = cc

-- The adapter after some calls: as it was, or without support once a call has missed the groups.
after-cases :
    (a : Adapter) (calls : List Call)
    → a.route_group_support ≡ true
    → ((after a calls ≡ a) × ¬ (Any Missed calls))
      ⊎ ((after a calls ≡ without_route_groups a) × Any Missed calls)
after-cases a [] s = inl (refl, λ i. absurd i)
after-cases a ((err e, groups) ∷ calls) s =
    rw (call_failed a e groups) (goes_on calls (err e, groups) (after-cases a calls s) first)
  where
    first : ¬ (Missed (err e, groups))
    first ((items, h), m) = cc
after-cases a ((ok items, ok groups) ∷ calls) s =
    rw (call_both a items groups s)
      (goes_on calls (ok items, ok groups) (after-cases a calls s) first)
  where
    first : ¬ (Missed (ok items, ok groups))
    first (h, (e, k, m)) = cc
after-cases a ((ok items, err e) ∷ calls) s = elim (NotThere-cases e) [
  | inl (d, t) ↦
      rw (call_missed a items e s d)
        (inr (after_off (without_route_groups a) calls refl, inl ((items, refl), (e, refl, t))))
  | inr (d, n) ↦
      rw (call_refused a items e s d)
        (goes_on calls (ok items, err e) (after-cases a calls s) (first n))
]
  where
    first : ¬ (NotThere e) → ¬ (Missed (ok items, err e))
    first n (h, (e', k, m)) = n (subst NotThere (sym (err_eq k)) m)

-- The listing of ingresses does not read the support.
list_ingress_without :
    (a : Adapter) (items : List KubeIngress)
    → list_ingress (without_route_groups a) (ok items) ≡ list_ingress a (ok items)
unfolding list_ingress supported_ingress supported_ingress_class new_ingress_from_kube new_ingress
    ingress_of load_balancer_type_of requested_type external_hosts aws_type
list_ingress_without a items = refl

-- A call's result is what its answers and those of the calls before it say: without route groups,
-- since the support was off at the start or since any earlier call was told that there are none or
-- that they may not be read, the ingresses alone, whatever the list of route groups would be; else
-- the ingresses with the route groups, the ingresses alone if this call is told so, or the error. An
-- error of the list of ingresses is always returned.
pub list_resources-Degrades :
    (a : Adapter) (calls : List Call) (ingress_answer : Result Error (List KubeIngress))
    (routegroup_answer : Result Error (List RouteGroup))
    → Listed a calls ingress_answer routegroup_answer
        (list_resources (after a calls) ingress_answer routegroup_answer).1
list_resources-Degrades a calls (err e) groups =
    rw (call_failed (after a calls) e groups) (no_ingresses e groups)
list_resources-Degrades a calls (ok items) groups = elim (Bool-cases a.route_group_support) [
  | inl s ↦ elim (after-cases a calls s) [
    | inl (q, n) ↦ rw q (on s n groups)
    | inr (q, i) ↦ rw q (
        subst (Listed a calls (ok items) groups) (sym (off (without_route_groups a) refl))
          (rw (list_ingress_without a items) (without_support items groups (inr i))))
  ]
  | inr s ↦ rw (after_off a calls s) (
      subst (Listed a calls (ok items) groups) (sym (off a s))
        (without_support items groups (inl s)))
]
  where
    off :
        (b : Adapter)
        → b.route_group_support ≡ false
        → (list_resources b (ok items) groups).1 ≡ list_ingress b (ok items)
    off b s = ap (λ r. r.1) (call_off b items groups s)

    on :
        a.route_group_support ≡ true
        → ¬ (Any Missed calls)
        → (g : Result Error (List RouteGroup))
        → Listed a calls (ok items) g (list_resources a (ok items) g).1
    on s n (ok rgs) =
        subst (Listed a calls (ok items) (ok rgs)) (sym (ap (λ r. r.1) (call_both a items rgs s)))
          (with_both items rgs s n)
    on s n (err e) = elim (NotThere-cases e) [
      | inl (d, t) ↦
          subst (Listed a calls (ok items) (err e))
            (sym (ap (λ r. r.1) (call_missed a items e s d))) (missed_now items e s n t)
      | inr (d, t) ↦
          subst (Listed a calls (ok items) (err e))
            (sym (ap (λ r. r.1) (call_refused a items e s d))) (failed items e s n t)
    ]
