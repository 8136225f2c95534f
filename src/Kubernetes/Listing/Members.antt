-- ===== src/Kubernetes/Listing/Members.antt =====
-- Which ingresses a listing returns.
use kube_ingress_aws_control.Prelude.{
  ◌≡◌, refl, sym, subst, ◌↔◌, ◌⊎◌, inl, inr, Bool, true, false, List, [], ◌∷◌, Result, ok, err,
  arith, In, Bool-cases,
}
use kube_ingress_aws_control.Kubernetes.{Error, Ingress, KubeIngress, RouteGroup, Adapter}
use kube_ingress_aws_control.Kubernetes.Listing.{
  convert_items, list_ingress, list_routegroups, supported_ingress, supported_crd,
}
use kube_ingress_aws_control.Kubernetes.NewIngress.{
  new_ingress_from_kube, new_ingress_from_route_group,
}

module _ {A : Type 0} (supported : A → Bool) (convert : A → Result Error Ingress) where
  -- an item that the listing accepts, and what it becomes
  abbrev pub Converted : Ingress → List A → Type 0
  Converted i items = (x : A) × In x items × (supported x ≡ true) × (convert x ≡ ok i)

  convert_items-hit :
      (x : A) (xs : List A) (i : Ingress)
      → supported x ≡ true
      → convert x ≡ ok i
      → convert_items supported convert (x ∷ xs) ≡ i ∷ convert_items supported convert xs
  unfolding convert_items
  convert_items-hit x xs i s c = rw (s, c) refl

  convert_items-failed :
      (x : A) (xs : List A) (e : Error)
      → convert x ≡ err e
      → convert_items supported convert (x ∷ xs) ≡ convert_items supported convert xs
  unfolding convert_items
  convert_items-failed x xs e c = rw c (ground arith)

  convert_items-unsupported :
      (x : A) (xs : List A)
      → supported x ≡ false
      → convert_items supported convert (x ∷ xs) ≡ convert_items supported convert xs
  unfolding convert_items
  convert_items-unsupported x xs s = rw s refl

  Result-cases :
      (r : Result Error Ingress) → ((i : Ingress) × (r ≡ ok i)) ⊎ ((e : Error) × (r ≡ err e))
  Result-cases (ok i) = inl (i, refl)
  Result-cases (err e) = inr (e, refl)

  later : {i : Ingress} (x : A) (xs : List A) → Converted i xs → Converted i (x ∷ xs)
  later x xs (y, p, s, c) = (y, inr p, s, c)

  Converted-sound :
      (i : Ingress) (items : List A)
      → In i (convert_items supported convert items)
      → Converted i items
  unfolding convert_items
  Converted-sound i [] p = absurd p
  Converted-sound i (x ∷ xs) p = elim (Bool-cases (supported x)) [
    | inr s ↦ later x xs (Converted-sound i xs (rw (convert_items-unsupported x xs s) at p))
    | inl s ↦ elim (Result-cases (convert x)) [
      | inr (e, c) ↦ later x xs (Converted-sound i xs (rw (convert_items-failed x xs e c) at p))
      | inl (j, c) ↦ hit (Converted-sound i xs) j s c (rw (convert_items-hit x xs j s c) at p)
    ]
  ]
    where
      hit :
          (In i (convert_items supported convert xs) → Converted i xs)
          → (j : Ingress) → supported x ≡ true
          → convert x ≡ ok j
          → In i (j ∷ convert_items supported convert xs)
          → Converted i (x ∷ xs)
      hit ih j s c (inl e) = (x, inl refl, s, subst (λ k. convert x ≡ ok k) e c)
      hit ih j s c (inr q) = later x xs (ih q)

  Converted-complete :
      (i : Ingress) (items : List A)
      → Converted i items
      → In i (convert_items supported convert items)
  Converted-complete i (y ∷ ys) (x, inl e, s, c) =
      let s' = subst (λ z. supported z ≡ true) (sym e) s in
      let c' = subst (λ z. convert z ≡ ok i) (sym e) c in
      rw (convert_items-hit y ys i s' c') (inl refl)
  Converted-complete i (y ∷ ys) (x, inr p, s, c) = elim (Bool-cases (supported y)) [
    | inr t ↦ rw (convert_items-unsupported y ys t) (Converted-complete i ys (x, p, s, c))
    | inl t ↦ elim (Result-cases (convert y)) [
      | inr (e, d) ↦ rw (convert_items-failed y ys e d) (Converted-complete i ys (x, p, s, c))
      | inl (j, d) ↦ rw (convert_items-hit y ys j t d) (inr (Converted-complete i ys (x, p, s, c)))
    ]
  ]
  Converted-complete i [] (x, p, s, c) = absurd p

-- The listing of ingresses returns an ingress if and only if it comes, without an error, from an
-- item of the answer whose class is supported: one faulty item does not keep the others away.
pub list_ingress-exact :
    (a : Adapter) (items : List KubeIngress)
    → (is' : List Ingress) × (list_ingress a (ok items) ≡ ok is')
      × ((i : Ingress)
          → In i is' ↔ Converted (supported_ingress a) (new_ingress_from_kube a) i items)
unfolding list_ingress
list_ingress-exact a items = (
  convert_items (supported_ingress a) (new_ingress_from_kube a) items,
  refl,
  λ i. (
    Converted-sound (supported_ingress a) (new_ingress_from_kube a) i items,
    Converted-complete (supported_ingress a) (new_ingress_from_kube a) i items,
  ),
)

-- The listing of route groups returns an ingress if and only if it comes, without an error, from a
-- route group of the answer whose class is supported.
pub list_routegroups-exact :
    (a : Adapter) (items : List RouteGroup)
    → (is' : List Ingress) × (list_routegroups a (ok items) ≡ ok is')
      × ((i : Ingress)
          → In i is'
            ↔ Converted
                (λ rg. supported_crd a rg.metadata)
                (new_ingress_from_route_group a)
                i
                items)
unfolding list_routegroups
list_routegroups-exact a items = (
  convert_items (λ rg. supported_crd a rg.metadata) (new_ingress_from_route_group a) items,
  refl,
  λ i. (
    Converted-sound (λ rg. supported_crd a rg.metadata) (new_ingress_from_route_group a) i items,
    Converted-complete (λ rg. supported_crd a rg.metadata) (new_ingress_from_route_group a) i items,
  ),
)
