-- ===== src/Aws/Adapter/Cni/Exact.antt =====
-- What the target groups of the CNI mode hold after a run over all of them.
use kube_ingress_aws_control.Prelude.{
  String, ◌≡◌, ◌≢◌, refl, sym, ap, ◌∙◌, ◌↔◌, ◌⊎◌, inl, inr, Bool, true, false, Option, none, List,
  [], ◌∷◌, ◌==◌, eq_iff, In, Bool-cases, subst,
}
use kube_ingress_aws_control.Prelude.Dict.Laws.{==_false}
use kube_ingress_aws_control.Aws.Asg.{AwsError}
use kube_ingress_aws_control.Aws.LoadBalancer.Targets.{TargetApi}
use kube_ingress_aws_control.Aws.Adapter.Cni.{set_targets, set_targets_on_cni_target_groups}
use kube_ingress_aws_control.Aws.Adapter.Cni.Reached.{
  IsElasticLoadBalancing, HasOrLacks, and_then-none, set_targets-In, set_targets-keeps,
  set_targets-lists,
}

module _ {W : Type 0} (svc : TargetApi W) (answers : String → Bool)
    (registered listed : String → W → List String)
    (law : IsElasticLoadBalancing svc answers registered listed) (endpoints : List String) where
  -- the body of the loop with the answer that the group gives
  abbrev visit : String → W → W × Option AwsError
  visit arn w = set_targets svc endpoints arn (svc.describe_target_health arn w) w

  abbrev run : List String → W → W × Option AwsError
  run = set_targets_on_cni_target_groups svc endpoints

  String-cases : (s t : String) → (s ≡ t) ⊎ (s ≢ t)
  String-cases s t = elim (Bool-cases (s == t)) [
    | inl e ↦ inl ((eq_iff s t).0 e)
    | inr f ↦ inr (==_false s t f)
  ]

  abbrev Known : String → String → W → Type 0
  Known = HasOrLacks svc answers registered listed law endpoints

  visit-In :
      (arn : String) (w : W) (x : String)
      → answers arn ≡ true
      → (visit arn w).1 ≡ none
      → In x (registered arn (visit arn w).0) ↔ (In x endpoints × Known x arn w)
  visit-In arn w x a =
      rw (law.described arn w a)
        (set_targets-In svc answers registered listed law endpoints arn w x)

  visit_silent : (arn : String) (w : W) → answers arn ≡ false → (visit arn w).0 ≡ w
  unfolding set_targets
  visit_silent arn w a = let (e, q) = law.refused arn w a in rw q refl

  visit-keeps :
      (arn other : String) (w : W)
      → arn ≢ other
      → (visit arn w).1 ≡ none
      → registered other (visit arn w).0 ≡ registered other w
  visit-keeps arn other w n e =
      set_targets-keeps svc answers registered listed law endpoints arn other
        (svc.describe_target_health arn w) w n e

  -- what is known of a target of one group is known after a visit to another
  visit-Known :
      (arn other : String) (w : W) (x : String)
      → arn ≢ other
      → (visit arn w).1 ≡ none
      → Known x other w
      → Known x other (visit arn w).0
  visit-Known arn other w x n e (inl i) = inl (rw (visit-keeps arn other w n e) i)
  visit-Known arn other w x n e (inr l) = inr (λ i. l (
      set_targets-lists svc answers registered listed law endpoints arn other
        (svc.describe_target_health arn w) w x n e i))

  -- a group that is visited, or that has no other target, has the endpoints at most
  run-within :
      (arns : List String) (arn : String) (w : W) (x : String)
      → answers arn ≡ true
      → (run arns w).1 ≡ none
      → In arn arns ⊎ (In x (registered arn w) → In x endpoints)
      → In x (registered arn (run arns w).0)
      → In x endpoints
  unfolding set_targets_on_cni_target_groups set_targets
  run-within [] arn w x a e (inl i) = absurd i
  run-within [] arn w x a e (inr r) = r
  run-within (b ∷ arns) arn w x a e d =
      let (e', q) = and_then-none (visit b w) (run arns) e in
      rw q (run-within arns arn (visit b w).0 x a (rw q at e) (next (String-cases b arn) e' d))
    where
      next :
          (b ≡ arn) ⊎ (b ≢ arn)
          → (visit b w).1 ≡ none
          → In arn (b ∷ arns) ⊎ (In x (registered arn w) → In x endpoints)
          → In arn arns ⊎ (In x (registered arn (visit b w).0) → In x endpoints)
      next (inl s) e' d = inr (
          subst (λ z. In x (registered z (visit b w).0) → In x endpoints) s
            (λ i. ((visit-In b w x (rw s a) e').0 i).0))
      next (inr n) e' (inl (inl s)) = absurd (n s)
      next (inr n) e' (inl (inr i)) = inl i
      next (inr n) e' (inr r) = inr (rw (visit-keeps b arn w n e') r)

  -- an endpoint that is a target, or that a visit sees to be none, is one after the run
  run-holds :
      (arns : List String) (arn : String) (w : W) (x : String)
      → answers arn ≡ true
      → In x endpoints
      → (run arns w).1 ≡ none
      → (In arn arns × Known x arn w) ⊎ In x (registered arn w)
      → In x (registered arn (run arns w).0)
  unfolding set_targets_on_cni_target_groups set_targets
  run-holds [] arn w x a j e (inl (i, k)) = absurd i
  run-holds [] arn w x a j e (inr r) = r
  run-holds (b ∷ arns) arn w x a j e d =
      let (e', q) = and_then-none (visit b w) (run arns) e in
      rw q (run-holds arns arn (visit b w).0 x a j (rw q at e) (next (String-cases b arn) e' d))
    where
      known : (In arn (b ∷ arns) × Known x arn w) ⊎ In x (registered arn w) → Known x arn w
      known (inl (i, k)) = k
      known (inr r) = inl r

      next :
          (b ≡ arn) ⊎ (b ≢ arn)
          → (visit b w).1 ≡ none
          → (In arn (b ∷ arns) × Known x arn w) ⊎ In x (registered arn w)
          → (In arn arns × Known x arn (visit b w).0) ⊎ In x (registered arn (visit b w).0)
      next (inl s) e' d = inr (
          subst (λ z. In x (registered z (visit b w).0)) s
            ((visit-In b w x (rw s a) e').1 (j, subst (λ z. Known x z w) (sym s) (known d))))
      next (inr n) e' (inl (inl s, k)) = absurd (n s)
      next (inr n) e' (inl (inr i, k)) = inl (i, visit-Known b arn w x n e' k)
      next (inr n) e' (inr r) = inr (rw (visit-keeps b arn w n e') r)

  run-keeps :
      (arns : List String) (arn : String) (w : W)
      → (run arns w).1 ≡ none
      → ¬ (In arn arns) ⊎ (answers arn ≡ false)
      → registered arn (run arns w).0 ≡ registered arn w
  unfolding set_targets_on_cni_target_groups set_targets
  run-keeps [] arn w e d = refl
  run-keeps (b ∷ arns) arn w e d =
      let (e', q) = and_then-none (visit b w) (run arns) e in
      rw q (run-keeps arns arn (visit b w).0 (rw q at e) (later d) ∙ here (String-cases b arn) e' d)
    where
      later :
          ¬ (In arn (b ∷ arns)) ⊎ (answers arn ≡ false) → ¬ (In arn arns) ⊎ (answers arn ≡ false)
      later (inl n) = inl (λ i. n (inr i))
      later (inr f) = inr f

      here :
          (b ≡ arn) ⊎ (b ≢ arn)
          → (visit b w).1 ≡ none
          → ¬ (In arn (b ∷ arns)) ⊎ (answers arn ≡ false)
          → registered arn (visit b w).0 ≡ registered arn w
      here (inr n) e' d = visit-keeps b arn w n e'
      here (inl s) e' (inl n) = absurd (n (inl s))
      here (inl s) e' (inr f) = ap (registered arn) (visit_silent b w (rw s f))

  -- Over an Elastic Load Balancing that does what it documents, draining included, a run that reports
  -- no error leaves each named target group that answers with no other targets than the endpoints,
  -- and with every endpoint that was a target of it or that it did not list. So only an endpoint that
  -- is still listed though it was deregistered can be left out. The targets of a group that is not
  -- named or that does not answer stay as they were.
  pub set_targets-exact :
      (arns : List String) (w : W)
      → (set_targets_on_cni_target_groups svc endpoints arns w).1 ≡ none
      → (arn : String)
      → ((In arn arns × (answers arn ≡ true))
          → (x : String)
          → (In x (registered arn (set_targets_on_cni_target_groups svc endpoints arns w).0)
              → In x endpoints)
            × (In x endpoints
                → In x (registered arn w) ⊎ ¬ (In x (listed arn w))
                → In x (registered arn (set_targets_on_cni_target_groups svc endpoints arns w).0)))
        × (¬ (In arn arns) ⊎ (answers arn ≡ false)
            → registered arn (set_targets_on_cni_target_groups svc endpoints arns w).0
              ≡ registered arn w)
  set_targets-exact arns w e arn = (
    λ h x. (
      run-within arns arn w x h.1 e (inl h.0),
      λ j k. run-holds arns arn w x h.1 j e (inl (h.0, k)),
    ),
    run-keeps arns arn w e,
  )
