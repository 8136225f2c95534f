-- ===== src/Worker/Round/Calls.antt =====
-- What every call of a round keeps, if the calls of the adapters keep it.
use kube_ingress_aws_control.Prelude.{
  ℕ, String, ◌≡◌, refl, sym, subst, true, Option, none, some, List, [], ◌∷◌, Result, ok, err,
  Bool-cases, inl, inr,
}
use kube_ingress_aws_control.Prelude.Dict.{Dict, keys}
use kube_ingress_aws_control.Kubernetes.{Ingress}
use kube_ingress_aws_control.Aws.Stack.{Stack, should_delete}
use kube_ingress_aws_control.Worker.{LoadBalancer, certificate_arns}
use kube_ingress_aws_control.Worker.Run.{
  Adapters, AwsFailure, Problem, StackRequest, create_stack, update_stack, delete_stack,
  update_each, update_entries, update_named, update_ingress, dns_name, request, found, created,
  updated, deleted, is_already_exists_error, is_no_updates_to_be_performed_error,
}
use kube_ingress_aws_control.Worker.Round.{Config, then_ingresses}

module _ {W : Type 0} (api : Adapters W) (c : Config) (I : W → Type 0) where
  -- Every call of a round but the deletion of a stack keeps I, and so does the deletion of a stack on
  -- which no certificate is valid any more.
  pub record Keeps : Type 0 where
    pub create : (r : StackRequest String) (w : W) → I w → I (api.create_stack r w).0
    pub update :
        (n : String) (r : StackRequest (String × ℕ)) (w : W) → I w → I (api.update_stack n r w).0
    pub status :
        (i : Ingress) (d : String) (w : W) → I w → I (api.update_ingress_load_balancer i d w).0
    pub list : (w : W) → I w → I (api.list_resources w).0
    pub instances : (w : W) → I w → I (api.update_auto_scaling_groups_and_instances w).0
    pub targets :
        (ss : List Stack) (w : W)
        → I w
        → I (api.update_target_groups_and_auto_scaling_groups ss w).0
    pub delete :
        (s : Stack) (w : W) → should_delete c.now (some s) ≡ true → I w → I (api.delete_stack s w).0

  module _ (k : Keeps) where
    each-keeps :
        (d : String) (is' : List Ingress) (w : W)
        → I w
        → I (update_each api c.now c.min_load_balancer_age c.to_lower d is' w).0
    unfolding update_each
    each-keeps d [] w h = h
    each-keeps d (i ∷ is') w h =
        each-keeps d is' (api.update_ingress_load_balancer i d w).0 (k.status i d w h)

    entries-keep :
        (d : String) (m : Dict (List Ingress)) (w : W)
        → I w
        → I (update_entries api c.now c.min_load_balancer_age c.to_lower d m w).0
    unfolding update_entries
    entries-keep d [] w h = h
    entries-keep d ((arn, is') ∷ m) w h =
        entries-keep d m (update_each api c.now c.min_load_balancer_age c.to_lower d is' w).0
          (each-keeps d is' w h)

    named-keeps :
        (o : Option String) (lb : LoadBalancer) (w : W)
        → I w
        → I (update_named api c.now c.min_load_balancer_age c.to_lower o lb w).0
    unfolding update_named
    named-keeps none lb w h = h
    named-keeps (some d) lb w h = entries-keep d lb.ingresses w h

    pub ingresses-keep :
        (lb : LoadBalancer) (w : W) (ps : List Problem)
        → I w
        → I (then_ingresses api c lb (w, ps)).0
    unfolding then_ingresses update_ingress
    ingresses-keep lb w ps h =
        named-keeps (dns_name api c.now c.min_load_balancer_age c.to_lower lb) lb w h

    pub create-keeps :
        (lb : LoadBalancer) (w : W)
        → I w
        → I (create_stack api c.now c.min_load_balancer_age lb w).0
    unfolding create_stack
    create-keeps lb w h =
        subst I (sym (created-world lb (api.create_stack (request (keys lb.ingresses) lb) w)))
          (k.create _ w h)
      where
        found-world :
            (lb' : LoadBalancer) (v : W) (r : Result AwsFailure Stack)
            → (found api c.now c.min_load_balancer_age lb' v r).0 ≡ v
        found-world lb' v (ok s) = refl
        found-world lb' v (err e) = refl

        created-world :
            (lb' : LoadBalancer) (r : W × (String × Option AwsFailure))
            → (created api c.now c.min_load_balancer_age lb' r).0 ≡ r.0
        created-world lb' (v, (stack_id, none)) = refl
        created-world lb' (v, (stack_id, some e)) =
            elim (Bool-cases (is_already_exists_error (some e))) [
              | inl t ↦ rw t (found-world lb' v (api.get_stack stack_id v))
              | inr t ↦ rw t refl
            ]

    pub update-keeps :
        (s : Stack) (lb : LoadBalancer) (w : W)
        → I w
        → I (update_stack api c.now c.min_load_balancer_age s lb w).0
    unfolding update_stack
    update-keeps s lb w h =
        subst I
          (sym (
            updated-world (keys (certificate_arns c.now lb))
              (api.update_stack s.name (request (certificate_arns c.now lb) lb) w)))
          (k.update s.name _ w h)
      where
        updated-world :
            (certs : List String) (r : W × Option AwsFailure)
            → (updated api c.now c.min_load_balancer_age certs r).0 ≡ r.0
        updated-world certs (v, none) = refl
        updated-world certs (v, some e) =
            elim (Bool-cases (is_no_updates_to_be_performed_error (some e))) [
              | inl t ↦ rw t refl
              | inr t ↦ rw t refl
            ]

    pub delete-keeps :
        (s : Stack) (w : W)
        → should_delete c.now (some s) ≡ true
        → I w
        → I (delete_stack api c.now c.min_load_balancer_age s w).0
    unfolding delete_stack
    delete-keeps s w e h = subst I (sym (deleted-world (api.delete_stack s w))) (k.delete s w e h)
      where
        deleted-world :
            (r : W × Option AwsFailure)
            → (deleted api c.now c.min_load_balancer_age s.name r).0 ≡ r.0
        deleted-world (v, none) = refl
        deleted-world (v, some x) = refl
