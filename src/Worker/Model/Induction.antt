-- ===== src/Worker/Model/Induction.antt =====
-- Induction over the rounds in which the ingresses are placed.
use kube_ingress_aws_control.Prelude.{
  ℕ, String, ◌≡◌, refl, sym, subst, inl, inr, Bool, true, false, not, ◌&&◌, some, List, [], ◌∷◌,
  ◌++◌, arith, All, Any, In, Bool-cases, Option-cases, All-append,
}
use kube_ingress_aws_control.Kubernetes.{Ingress}
use kube_ingress_aws_control.Worker.{LoadBalancer, refuses, with_ingress, with_local, add_ingress}
use kube_ingress_aws_control.Worker.Model.{
  CertificatesFinder, resolve, cluster_local_lb, max_int64, new_load_balancer, supported_lb_type,
  place, add_cluster_local, match_ingress, match_all, match_ingresses_to_load_balancers,
}

-- The three outcomes of addIngress.
module _ (lb : LoadBalancer) (arns : List String) (i : Ingress) (max_certs : ℕ) where
  pub add_ingress-local :
      i.cluster_local ≡ true → add_ingress lb arns i max_certs ≡ (with_local lb i, true)
  unfolding add_ingress
  add_ingress-local h = simp h

  pub add_ingress-refused :
      i.cluster_local ≡ false
      → refuses lb arns i max_certs ≡ true
      → add_ingress lb arns i max_certs ≡ (lb, false)
  unfolding add_ingress
  add_ingress-refused h r = simp (h, r)

  pub add_ingress-taken :
      i.cluster_local ≡ false
      → refuses lb arns i max_certs ≡ false
      → add_ingress lb arns i max_certs ≡ (with_ingress lb arns i, true)
  unfolding add_ingress
  add_ingress-taken h r = simp (h, r)

-- The load balancer may be asked and does not refuse the ingress.
abbrev pub Takes : ℕ → List String → Ingress → LoadBalancer → Type 0
Takes max_certs arns i lb = (supported_lb_type lb ≡ true) × (refuses lb arns i max_certs ≡ false)

abbrev pub taken : ℕ → List String → Ingress → LoadBalancer → Bool
taken max_certs arns i lb = supported_lb_type lb && not (refuses lb arns i max_certs)

module _ (max_certs : ℕ) (arns : List String) (i : Ingress) (outer : i.cluster_local ≡ false) where
  taken-Takes : (lb : LoadBalancer) → taken max_certs arns i lb ≡ true → Takes max_certs arns i lb
  taken-Takes lb h = ground arith

  -- `place` gives the ingress to the first load balancer that takes it.
  pub place-first :
      (lb : LoadBalancer) (lbs : List LoadBalancer)
      → taken max_certs arns i lb ≡ true
      → place max_certs arns i (lb ∷ lbs) ≡ with_ingress lb arns i ∷ lbs
  unfolding place
  place-first lb lbs h =
      let (s, r) = taken-Takes lb h in
      rw (add_ingress-taken lb arns i max_certs outer r) (ground arith)

  pub place-skip :
      (lb : LoadBalancer) (lbs : List LoadBalancer)
      → taken max_certs arns i lb ≡ false
      → place max_certs arns i (lb ∷ lbs) ≡ lb ∷ place max_certs arns i lbs
  unfolding place
  place-skip lb lbs h = elim (Bool-cases (refuses lb arns i max_certs)) [
    | inl r ↦ rw (add_ingress-refused lb arns i max_certs outer r) (ground arith)
    | inr r ↦ rw (add_ingress-taken lb arns i max_certs outer r) (ground arith)
  ]

  module _ (P : LoadBalancer → Type 0) where
    pub place-All :
        ((lb : LoadBalancer) → Takes max_certs arns i lb → P lb → P (with_ingress lb arns i))
        → P (new_load_balancer arns i)
        → (lbs : List LoadBalancer) → All P lbs
        → All P (place max_certs arns i lbs)
    unfolding place
    place-All k n [] h = (n, tt)
    place-All k n (lb ∷ lbs) h = elim (Bool-cases (taken max_certs arns i lb)) [
      | inl e ↦ rw (place-first lb lbs e) (k lb (taken-Takes lb e) h.0, h.1)
      | inr e ↦ rw (place-skip lb lbs e) (h.0, place-All k n lbs h.1)
    ]

    pub place-Any_new :
        ((lb : LoadBalancer) → Takes max_certs arns i lb → P (with_ingress lb arns i))
        → P (new_load_balancer arns i)
        → (lbs : List LoadBalancer) → Any P (place max_certs arns i lbs)
    unfolding place
    place-Any_new k n [] = inl n
    place-Any_new k n (lb ∷ lbs) = elim (Bool-cases (taken max_certs arns i lb)) [
      | inl e ↦ rw (place-first lb lbs e) (inl (k lb (taken-Takes lb e)))
      | inr e ↦ rw (place-skip lb lbs e) (inr (place-Any_new k n lbs))
    ]

    pub place-Any_old :
        ((lb : LoadBalancer) → P lb → P (with_ingress lb arns i))
        → (lbs : List LoadBalancer) → Any P lbs
        → Any P (place max_certs arns i lbs)
    place-Any_old k [] a = absurd a
    place-Any_old k (lb ∷ lbs) a = elim (Bool-cases (taken max_certs arns i lb)) [
      | inl e ↦ rw (place-first lb lbs e) (first a)
      | inr e ↦ rw (place-skip lb lbs e) (other (place-Any_old k lbs) a)
    ]
      where
        first : Any P (lb ∷ lbs) → Any P (with_ingress lb arns i ∷ lbs)
        first (inl p) = inl (k lb p)
        first (inr b) = inr b

        other :
            (Any P lbs → Any P (place max_certs arns i lbs))
            → Any P (lb ∷ lbs)
            → Any P (lb ∷ place max_certs arns i lbs)
        other ih (inl p) = inl p
        other ih (inr b) = inr (ih b)

module _ (i : Ingress) (inner : i.cluster_local ≡ true) where
  add_cluster_local-hit :
      (lb : LoadBalancer) (lbs : List LoadBalancer)
      → lb.cluster_local ≡ true
      → add_cluster_local i (lb ∷ lbs) ≡ with_local lb i ∷ lbs
  unfolding add_cluster_local
  add_cluster_local-hit lb lbs e = rw (add_ingress-local lb [] i max_int64 inner) (ground arith)

  add_cluster_local-miss :
      (lb : LoadBalancer) (lbs : List LoadBalancer)
      → lb.cluster_local ≡ false
      → add_cluster_local i (lb ∷ lbs) ≡ lb ∷ add_cluster_local i lbs
  unfolding add_cluster_local
  add_cluster_local-miss lb lbs e = ground arith

  module _ (P : LoadBalancer → Type 0) where
    pub add_cluster_local-All :
        ((lb : LoadBalancer) → lb.cluster_local ≡ true → P lb → P (with_local lb i))
        → (lbs : List LoadBalancer) → All P lbs
        → All P (add_cluster_local i lbs)
    unfolding add_cluster_local
    add_cluster_local-All k [] h = tt
    add_cluster_local-All k (lb ∷ lbs) h = elim (Bool-cases lb.cluster_local) [
      | inl e ↦ subst (All P) (sym (add_cluster_local-hit lb lbs e)) (k lb e h.0, h.1)
      | inr e ↦
          subst (All P) (sym (add_cluster_local-miss lb lbs e))
            (h.0, add_cluster_local-All k lbs h.1)
    ]

    pub add_cluster_local-Any :
        ((lb : LoadBalancer) → P lb → P (with_local lb i))
        → (lbs : List LoadBalancer) → Any P lbs
        → Any P (add_cluster_local i lbs)
    add_cluster_local-Any k [] a = absurd a
    add_cluster_local-Any k (lb ∷ lbs) (inl p) = elim (Bool-cases lb.cluster_local) [
      | inl e ↦ subst (Any P) (sym (add_cluster_local-hit lb lbs e)) (inl (k lb p))
      | inr e ↦ subst (Any P) (sym (add_cluster_local-miss lb lbs e)) (inl p)
    ]
    add_cluster_local-Any k (lb ∷ lbs) (inr a) = elim (Bool-cases lb.cluster_local) [
      | inl e ↦ subst (Any P) (sym (add_cluster_local-hit lb lbs e)) (inr a)
      | inr e ↦
          subst (Any P) (sym (add_cluster_local-miss lb lbs e))
            (inr (add_cluster_local-Any k lbs a))
    ]

module _ (certs : CertificatesFinder) (max_certs : ℕ) (P : LoadBalancer → Type 0) where
  -- What a load balancer keeps when it takes an ingress from outside the cluster, and when it takes
  -- one that is local to it.
  abbrev pub KeepsTaken : Type 0
  KeepsTaken =
      (lb : LoadBalancer) (arns : List String) (i : Ingress)
      → i.cluster_local ≡ false
      → Takes max_certs arns i lb
      → P lb
      → P (with_ingress lb arns i)

  abbrev pub KeepsLocal : Type 0
  KeepsLocal =
      (lb : LoadBalancer) (i : Ingress)
      → i.cluster_local ≡ true
      → lb.cluster_local ≡ true
      → P lb
      → P (with_local lb i)

  abbrev pub HoldsNew : List Ingress → Type 0
  HoldsNew is' =
      (arns : List String) (i : Ingress)
      → In i is'
      → i.cluster_local ≡ false
      → resolve certs i ≡ some arns
      → P (new_load_balancer arns i)

  match_ingress-All :
      KeepsTaken
      → KeepsLocal
      → (i : Ingress) (lbs : List LoadBalancer) → HoldsNew (i ∷ [])
      → All P lbs
      → All P (match_ingress certs max_certs i lbs)
  unfolding match_ingress
  match_ingress-All k l i lbs n h = elim (Bool-cases i.cluster_local) [
    | inl e ↦ simp e (add_cluster_local-All i e P (λ lb. l lb i e) lbs h)
    | inr e ↦ simp e (elim (Option-cases (resolve certs i)) [
      | inl r ↦ simp r h
      | inr (arns, r) ↦
          simp r
            (place-All max_certs arns i e P (λ lb. k lb arns i e) (n arns i (inl refl) e r) lbs h)
    ])
  ]

  -- A predicate that every round keeps holds of all load balancers at the end.
  pub match_all-All :
      KeepsTaken
      → KeepsLocal
      → (is' : List Ingress) (lbs : List LoadBalancer) → HoldsNew is'
      → All P lbs
      → All P (match_all certs max_certs is' lbs)
  unfolding match_all
  match_all-All k l [] lbs n h = h
  match_all-All k l (i ∷ is') lbs n h =
      match_all-All k l is' (match_ingress certs max_certs i lbs) (λ arns j p. n arns j (inr p))
        (match_ingress-All k l i lbs (λ arns j p. n arns j (head_of p)) h)
    where
      head_of : {j : Ingress} → In j (i ∷ []) → In j (i ∷ is')
      head_of (inl e) = inl e
      head_of (inr b) = absurd b

  pub match-All :
      KeepsTaken
      → KeepsLocal
      → P cluster_local_lb
      → (lbs : List LoadBalancer) (is' : List Ingress) → HoldsNew is'
      → All P lbs
      → All P (match_ingresses_to_load_balancers certs max_certs lbs is')
  unfolding match_ingresses_to_load_balancers
  match-All k l c lbs is' n h =
      match_all-All k l is' (lbs ++ cluster_local_lb ∷ []) n (All-append P lbs _ h (c, tt))
