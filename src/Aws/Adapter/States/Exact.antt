-- ===== src/Aws/Adapter/States/Exact.antt =====
-- Which states of load balancers the stacks get.
use kube_ingress_aws_control.Prelude.{
  String, ◌≡◌, refl, sym, ap, ◌∙◌, subst, ◌⊎◌, inl, inr, true, false, not, Option, none, some, List,
  [], ◌∷◌, ◌++◌, ◌==◌, map, Result, ok, err, if◌then◌else◌, All, All-append, All-imp, All_at,
  All-of, In, map-In, keep_complete, Bool-cases, Option-cases, some_eq,
}
use kube_ingress_aws_control.Prelude.Dict.{Dict, insert, lookup, has_key, is_some}
use kube_ingress_aws_control.Prelude.Dict.Laws.{
  HasKey, insert-HasKey, insert-HasKey_self, insert-All, lookup-All, HasKey-has_key,
}
use kube_ingress_aws_control.Aws.Asg.{AwsError}
use kube_ingress_aws_control.Aws.Asg.Chunks.{process_chunked-Ends, process_chunked-Failed, Failed}
use kube_ingress_aws_control.Aws.Ec2.{wrapped}
use kube_ingress_aws_control.Aws.Stack.{Stack}
use kube_ingress_aws_control.Aws.LoadBalancer.{LoadBalancerState, StackLbState}
use kube_ingress_aws_control.Aws.LoadBalancer.States.{
  LbReply, add_states, with_answer, describe_chunk, get_load_balancer_states, finished,
}
use kube_ingress_aws_control.Aws.Adapter.States.{
  found_state, stack_lb_state, lb_arns, with_states, get_stack_lb_states,
}

abbrev States : Type 0
States = Dict (Option LoadBalancerState)

add_states_keeps :
    (k : String) (m : States) (lbs : List LbReply) → HasKey k m → HasKey k (add_states m lbs)
unfolding add_states
add_states_keeps k m [] h = h
add_states_keeps k m ((arn, s) ∷ lbs) h =
    add_states_keeps k (insert arn s m) lbs (insert-HasKey k arn s m h)

add_states-HasKey :
    (k : String) (s : Option LoadBalancerState) (m : States) (lbs : List LbReply)
    → In (k, s) lbs
    → HasKey k (add_states m lbs)
unfolding add_states
add_states-HasKey k s m [] i = absurd i
add_states-HasKey k s m ((arn, t) ∷ lbs) (inl e) =
    add_states_keeps k (insert arn t m) lbs
      (subst (λ z. HasKey z (insert arn t m)) (ap (λ p. p.0) e) (insert-HasKey_self arn t m))
add_states-HasKey k s m ((arn, t) ∷ lbs) (inr i) = add_states-HasKey k s (insert arn t m) lbs i

add_states-All :
    (P : String → Option LoadBalancerState → Type 0) (m : States) (lbs : List LbReply)
    → All (λ e. P e.0 e.1) m
    → All (λ e. P e.0 e.1) lbs
    → All (λ e. P e.0 e.1) (add_states m lbs)
unfolding add_states
add_states-All P m [] p q = p
add_states-All P m ((arn, s) ∷ lbs) p q =
    add_states-All P (insert arn s m) lbs (insert-All P arn s m q.0 p) q.1

lookup-HasKey : (k : String) (m : States) → lookup k m ≡ none → ¬ (HasKey k m)
unfolding has_key
lookup-HasKey k m e h = test (lookup k m) e (HasKey-has_key k m h)
  where
    test : (o : Option (Option LoadBalancerState)) → o ≡ none → is_some o ≡ true → ⊥
    test none e t = cc
    test (some s) e t = cc

describe_chunk-err :
    (describe : List String → Result AwsError (List LbReply)) (chunk : List String) (m : States)
    (e : AwsError)
    → (describe_chunk describe chunk m).1 ≡ some e
    → describe chunk ≡ err e
unfolding describe_chunk
describe_chunk-err describe chunk m e = answer (describe chunk)
  where
    answer : (r : Result AwsError (List LbReply)) → (with_answer r m).1 ≡ some e → r ≡ err e
    answer (ok lbs) h = cc
    answer (err x) h = ap err (some_eq h)

-- `state` is the state of each load balancer that exists; an answer names load balancers that exist
-- and, of those asked for, all of them.
module _ (describe : List String → Result AwsError (List LbReply))
    (state : String → Option (Option LoadBalancerState))
    (sound : (chunk : List String) (lbs : List LbReply)
      → describe chunk ≡ ok lbs
      → All (λ e. state e.0 ≡ some e.1) lbs)
    (complete : (chunk : List String) (lbs : List LbReply) (arn : String)
        (s : Option LoadBalancerState)
      → describe chunk ≡ ok lbs
      → In arn chunk
      → state arn ≡ some s
      → In (arn, s) lbs) where
  -- a load balancer that exists is in the map
  abbrev Told : States → String → Type 0
  Told m k = (s : Option LoadBalancerState) → state k ≡ some s → HasKey k m

  -- The map holds true states, and one for each of the load balancers asked for that exists.
  abbrev Known : List String → States → Type 0
  Known done m = All (λ e. state e.0 ≡ some e.1) m × All (Told m) done

  describe_chunk-Known :
      (done chunk : List String) (m : States)
      → Known done m
      → (describe_chunk describe chunk m).1 ≡ none
      → Known (done ++ chunk) (describe_chunk describe chunk m).0
  unfolding describe_chunk
  describe_chunk-Known done chunk m (p, q) = answer (describe chunk) refl
    where
      answer :
          (r : Result AwsError (List LbReply))
          → describe chunk ≡ r
          → (with_answer r m).1 ≡ none
          → Known (done ++ chunk) (with_answer r m).0
      answer (err x) d e = cc
      answer (ok lbs) d e = (
        add_states-All (λ k s. state k ≡ some s) m lbs p (sound chunk lbs d),
        All-append (Told (add_states m lbs)) done chunk
            (All-imp done (λ k f s g. add_states_keeps k m lbs (f s g)) q)
            (All-of (Told (add_states m lbs)) chunk
              (λ k i s g. add_states-HasKey k s m lbs (complete chunk lbs k s d i g))),
      )

  lookup-Known :
      (k : String) (done : List String) (m : States)
      → Known done m
      → In k done
      → lookup k m ≡ state k
  lookup-Known k done m (p, q) i = elim (Option-cases (lookup k m)) [
    | inr (v, e) ↦ e ∙ sym (lookup-All (λ j s. state j ≡ some s) k v m p e)
    | inl e ↦ elim (Option-cases (state k)) [
      | inl f ↦ e ∙ sym f
      | inr (s, f) ↦ absurd (lookup-HasKey k m e (All_at (Told m) k done q i s f))
    ]
  ]

  -- the state of a stack's load balancer, if it has one that exists and tells it
  abbrev pub true_state : Stack → StackLbState
  true_state stack = record {
    stack = stack;
    lb_state =
        if stack.load_balancer_arn == "" then none else found_state (state stack.load_balancer_arn);
  }

  stack_lb_state-Known :
      (m : States) (stacks rest : List Stack)
      → ((s : Stack) → In s rest → In s stacks)
      → Known (lb_arns stacks) m
      → map (stack_lb_state m) rest ≡ map true_state rest
  unfolding stack_lb_state
  stack_lb_state-Known m stacks [] i p = refl
  stack_lb_state-Known m stacks (s ∷ rest) i p = elim (Bool-cases (s.load_balancer_arn == "")) [
    | inl e ↦ rw (e, stack_lb_state-Known m stacks rest (λ t j. i t (inr j)) p) refl
    | inr e ↦
        rw
          (
            e,
            lookup-Known s.load_balancer_arn (lb_arns stacks) m p (asked e),
            stack_lb_state-Known m stacks rest (λ t j. i t (inr j)) p,
          )
          refl
  ]
    where
      asked : (s.load_balancer_arn == "") ≡ false → In s.load_balancer_arn (lb_arns stacks)
      asked e =
          map-In (λ t. t.load_balancer_arn) s _
            (keep_complete (λ t. not (t.load_balancer_arn == "")) s stacks (i s (inl refl))
              (ap not e))

  -- The calls for the states end, and there is one entry for each stack, in order: its load
  -- balancer's state, and none where the stack has no load balancer, it does not exist or it tells no
  -- state. An error is returned only if a call for some load balancers fails.
  pub get_stack_lb_states-exact :
      (stacks : List Stack)
      → (get_stack_lb_states describe stacks ≡ some (ok (map true_state stacks)))
        ⊎ ((e : AwsError) × (chunk : List String) × (describe chunk ≡ err e)
            × (get_stack_lb_states describe stacks
                ≡ some (err (wrapped "failed to get load balancer states" e))))
  unfolding get_stack_lb_states get_load_balancer_states
  get_stack_lb_states-exact stacks =
      let (m, o, e, f) =
        process_chunked-Ends Known 19 (describe_chunk describe)
          (λ done chunk v p _ _ q. describe_chunk-Known done chunk v p q) (lb_arns stacks) []
          (tt, tt) in
      rw e (
        ended m o f (λ x g.
          process_chunked-Failed (describe_chunk describe) x (lb_arns stacks) 20 [] (m, rw g at e)))
    where
      ended :
          (m : States) (o : Option AwsError)
          → (o ≡ none → Known (lb_arns stacks) m)
          → ((x : AwsError) → o ≡ some x → Failed (describe_chunk describe) x)
          → (with_states stacks (finished (some (m, o))) ≡ some (ok (map true_state stacks)))
            ⊎ ((e : AwsError) × (chunk : List String) × (describe chunk ≡ err e)
                × (with_states stacks (finished (some (m, o)))
                    ≡ some (err (wrapped "failed to get load balancer states" e))))
      ended m none f g =
          inl (ap (λ l. some (ok l)) (stack_lb_state-Known m stacks stacks (λ s i. i) (f refl)))
      ended m (some x) f g =
          let (chunk, w, h) = g x refl in
          inr (x, chunk, describe_chunk-err describe chunk w x h, refl)
