-- ===== src/Aws/Adapter/Cni/Reached.antt =====
-- Which targets the target groups of the CNI mode end up with.
use kube_ingress_aws_control.Prelude.{
  String, ◌≡◌, ◌≢◌, refl, ◌∙◌, ◌↔◌, ◌⊎◌, inl, inr, Bool, true, false, Option, none, some, List, [],
  ◌∷◌, Result, ok, err, In,
}
use kube_ingress_aws_control.Aws.Asg.{AwsError}
use kube_ingress_aws_control.Aws.LoadBalancer.Targets.{
  TargetApi, and_then, for_target_groups, register_targets_on_target_groups,
  deregister_targets_on_target_groups,
}
use kube_ingress_aws_control.Aws.Adapter.Cni.Difference.{In-cases, In-difference}
use kube_ingress_aws_control.Aws.Adapter.Cni.{difference, unless_empty, set_targets}

-- What Elastic Load Balancing does, as its documentation has it. `registered` are the targets that a
-- target group has been given and that were not taken from it since; `listed` are those that it
-- describes, if it answers: the registered ones, and others, which were deregistered and are still
-- draining. A call that succeeds adds or removes the named targets of one group. It registers and
-- deregisters nothing in another group, where it makes no further target listed. Nothing is said of
-- how long a target drains, nor of what a call makes of the list of its own group.
pub record IsElasticLoadBalancing {W : Type 0} (svc : TargetApi W) (answers : String → Bool)
    (registered listed : String → W → List String) : Type 0 where
  pub described :
      (arn : String) (w : W)
      → answers arn ≡ true
      → svc.describe_target_health arn w ≡ ok (listed arn w)
  pub refused :
      (arn : String) (w : W)
      → answers arn ≡ false
      → (e : AwsError) × (svc.describe_target_health arn w ≡ err e)
  pub registered_listed :
      (arn : String) (w : W) (x : String) → In x (registered arn w) → In x (listed arn w)
  pub register_adds :
      (arn : String) (ids : List String) (w : W) (x : String)
      → (svc.register arn ids w).1 ≡ none
      → In x (registered arn (svc.register arn ids w).0) ↔ (In x (registered arn w) ⊎ In x ids)
  pub register_keeps :
      (arn other : String) (ids : List String) (w : W)
      → arn ≢ other
      → registered other (svc.register arn ids w).0 ≡ registered other w
  pub register_lists :
      (arn other : String) (ids : List String) (w : W) (x : String)
      → arn ≢ other
      → In x (listed other (svc.register arn ids w).0)
      → In x (listed other w)
  pub deregister_removes :
      (arn : String) (ids : List String) (w : W) (x : String)
      → (svc.deregister arn ids w).1 ≡ none
      → In x (registered arn (svc.deregister arn ids w).0)
        ↔ (In x (registered arn w) × ¬ (In x ids))
  pub deregister_keeps :
      (arn other : String) (ids : List String) (w : W)
      → arn ≢ other
      → registered other (svc.deregister arn ids w).0 ≡ registered other w
  pub deregister_lists :
      (arn other : String) (ids : List String) (w : W) (x : String)
      → arn ≢ other
      → In x (listed other (svc.deregister arn ids w).0)
      → In x (listed other w)

pub and_then-none :
    {W : Type 0} (r : W × Option AwsError) (next : W → W × Option AwsError)
    → (and_then r next).1 ≡ none
    → (r.1 ≡ none) × (and_then r next ≡ next r.0)
and_then-none (w, none) next e = (refl, refl)
and_then-none (w, some x) next e = cc

and_then_end : {W : Type 0} (r : W × Option AwsError) → and_then r (λ w. (w, none)) ≡ r
and_then_end (w, none) = refl
and_then_end (w, some e) = refl

for_target_groups_one :
    {W : Type 0} (call : String → List String → W → W × Option AwsError) (arn : String)
    (ids : List String) (w : W)
    → for_target_groups call (arn ∷ []) ids w ≡ call arn ids w
unfolding for_target_groups
for_target_groups_one call arn ids w = and_then_end (call arn ids w)

module _ {W : Type 0} (svc : TargetApi W) (answers : String → Bool)
    (registered listed : String → W → List String)
    (law : IsElasticLoadBalancing svc answers registered listed) (endpoints : List String) where
  -- a call for one group, left out if there is nothing to call for
  abbrev register_new : String → List String → W → W × Option AwsError
  register_new arn ids w = unless_empty ids (register_targets_on_target_groups svc (arn ∷ []) ids) w

  abbrev deregister_old : String → List String → W → W × Option AwsError
  deregister_old arn ids w =
      unless_empty ids (deregister_targets_on_target_groups svc (arn ∷ []) ids) w

  register_new-adds :
      (arn : String) (ids : List String) (w : W) (x : String)
      → (register_new arn ids w).1 ≡ none
      → In x (registered arn (register_new arn ids w).0) ↔ (In x (registered arn w) ⊎ In x ids)
  unfolding register_targets_on_target_groups for_target_groups
  register_new-adds arn [] w x e = (inl, λ i. elim i [ inl j ↦ j | inr j ↦ absurd j ])
  register_new-adds arn (y ∷ ys) w x e = rw (for_target_groups_one svc.register arn (y ∷ ys) w) (
      law.register_adds arn (y ∷ ys) w x
        (rw (for_target_groups_one svc.register arn (y ∷ ys) w) at e))

  deregister_old-removes :
      (arn : String) (ids : List String) (w : W) (x : String)
      → (deregister_old arn ids w).1 ≡ none
      → In x (registered arn (deregister_old arn ids w).0)
        ↔ (In x (registered arn w) × ¬ (In x ids))
  unfolding deregister_targets_on_target_groups for_target_groups
  deregister_old-removes arn [] w x e = (λ i. (i, λ j. absurd j), λ h. h.0)
  deregister_old-removes arn (y ∷ ys) w x e =
      rw (for_target_groups_one svc.deregister arn (y ∷ ys) w) (
        law.deregister_removes arn (y ∷ ys) w x
          (rw (for_target_groups_one svc.deregister arn (y ∷ ys) w) at e))

  register_new-keeps :
      (arn other : String) (ids : List String) (w : W)
      → arn ≢ other
      → registered other (register_new arn ids w).0 ≡ registered other w
  unfolding register_targets_on_target_groups for_target_groups
  register_new-keeps arn other [] w n = refl
  register_new-keeps arn other (y ∷ ys) w n =
      rw (for_target_groups_one svc.register arn (y ∷ ys) w)
        (law.register_keeps arn other (y ∷ ys) w n)

  deregister_old-keeps :
      (arn other : String) (ids : List String) (w : W)
      → arn ≢ other
      → registered other (deregister_old arn ids w).0 ≡ registered other w
  unfolding deregister_targets_on_target_groups for_target_groups
  deregister_old-keeps arn other [] w n = refl
  deregister_old-keeps arn other (y ∷ ys) w n =
      rw (for_target_groups_one svc.deregister arn (y ∷ ys) w)
        (law.deregister_keeps arn other (y ∷ ys) w n)

  register_new-lists :
      (arn other : String) (ids : List String) (w : W) (x : String)
      → arn ≢ other
      → In x (listed other (register_new arn ids w).0)
      → In x (listed other w)
  unfolding register_targets_on_target_groups for_target_groups
  register_new-lists arn other [] w x n i = i
  register_new-lists arn other (y ∷ ys) w x n i =
      law.register_lists arn other (y ∷ ys) w x n
        (rw (for_target_groups_one svc.register arn (y ∷ ys) w) at i)

  deregister_old-lists :
      (arn other : String) (ids : List String) (w : W) (x : String)
      → arn ≢ other
      → In x (listed other (deregister_old arn ids w).0)
      → In x (listed other w)
  unfolding deregister_targets_on_target_groups for_target_groups
  deregister_old-lists arn other [] w x n i = i
  deregister_old-lists arn other (y ∷ ys) w x n i =
      law.deregister_lists arn other (y ∷ ys) w x n
        (rw (for_target_groups_one svc.deregister arn (y ∷ ys) w) at i)

  -- The group has the target, or does not list it, so that it is seen to lack it.
  abbrev pub HasOrLacks : String → String → W → Type 0
  HasOrLacks x arn w = In x (registered arn w) ⊎ ¬ (In x (listed arn w))

  -- Registering and deregistering by a list that holds the targets R leaves those of the endpoints
  -- that were targets or not in the list.
  exchange :
      (x : String) (rs : List String) {R P Q : Type 0}
      → (R → In x rs)
      → P ↔ (R ⊎ In x (difference endpoints rs))
      → Q ↔ (P × ¬ (In x (difference rs endpoints)))
      → Q ↔ (In x endpoints × (R ⊎ ¬ (In x rs)))
  exchange x rs {R} {P} {Q} l p q = (to, from)
    where
      to : Q → In x endpoints × (R ⊎ ¬ (In x rs))
      to h = elim (p.0 (q.0 h).0) [
        | inl r ↦ elim (In-cases x endpoints) [
          | inl j ↦ (j, inl r)
          | inr n ↦ absurd ((q.0 h).1 ((In-difference x rs endpoints).1 (l r, n)))
        ]
        | inr i ↦ let (j, n) = (In-difference x endpoints rs).0 i in (j, inr n)
      ]

      now : In x endpoints → R ⊎ ¬ (In x rs) → P
      now j (inl r) = p.1 (inl r)
      now j (inr n) = p.1 (inr ((In-difference x endpoints rs).1 (j, n)))

      from : In x endpoints × (R ⊎ ¬ (In x rs)) → Q
      from (j, h) = q.1 (now j h, λ k. ((In-difference x rs endpoints).0 k).1 j)

  pub set_targets-In :
      (arn : String) (w : W) (x : String)
      → (set_targets svc endpoints arn (ok (listed arn w)) w).1 ≡ none
      → In x (registered arn (set_targets svc endpoints arn (ok (listed arn w)) w).0)
        ↔ (In x endpoints × HasOrLacks x arn w)
  unfolding set_targets
  set_targets-In arn w x e =
      let rs = listed arn w in
      let r = register_new arn (difference endpoints rs) w in
      let (e', q) = and_then-none r (deregister_old arn (difference rs endpoints)) e in
      rw q (
        exchange x rs (law.registered_listed arn w x)
          (register_new-adds arn (difference endpoints rs) w x e')
          (deregister_old-removes arn (difference rs endpoints) r.0 x (rw q at e)))

  pub set_targets-keeps :
      (arn other : String) (r : Result AwsError (List String)) (w : W)
      → arn ≢ other
      → (set_targets svc endpoints arn r w).1 ≡ none
      → registered other (set_targets svc endpoints arn r w).0 ≡ registered other w
  unfolding set_targets
  set_targets-keeps arn other (err x) w n e = refl
  set_targets-keeps arn other (ok rs) w n e =
      let r = register_new arn (difference endpoints rs) w in
      let (e', q) = and_then-none r (deregister_old arn (difference rs endpoints)) e in
      rw q (
        deregister_old-keeps arn other (difference rs endpoints) r.0 n
        ∙ register_new-keeps arn other (difference endpoints rs) w n)

  pub set_targets-lists :
      (arn other : String) (r : Result AwsError (List String)) (w : W) (x : String)
      → arn ≢ other
      → (set_targets svc endpoints arn r w).1 ≡ none
      → In x (listed other (set_targets svc endpoints arn r w).0)
      → In x (listed other w)
  unfolding set_targets
  set_targets-lists arn other (err y) w x n e i = i
  set_targets-lists arn other (ok rs) w x n e i =
      let r = register_new arn (difference endpoints rs) w in
      let (e', q) = and_then-none r (deregister_old arn (difference rs endpoints)) e in
      register_new-lists arn other (difference endpoints rs) w x n
        (deregister_old-lists arn other (difference rs endpoints) r.0 x n (rw q at i))
