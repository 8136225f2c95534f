-- ===== src/Kubernetes/Pods/Current.antt =====
-- Which addresses the watch has, and that it tells them.
use kube_ingress_aws_control.Prelude.{
  String, ◌≡◌, refl, sym, ◌∙◌, ap, subst, true, false, ◌⊎◌, inl, inr, ◌↔◌, Option, none, some, List,
  [], ◌∷◌, ◌==◌, eq_iff, In, In-map, map-In, sort_strings, Bool-cases, if◌then◌else◌,
}
use kube_ingress_aws_control.Prelude.Order.{sort_strings-In}
use kube_ingress_aws_control.Prelude.Dict.{Dict, has_key, is_some, lookup, lookup-insert, values}
use kube_ingress_aws_control.Prelude.Dict.Laws.{IsDict, insert-IsDict, lookup-In, In-lookup}
use kube_ingress_aws_control.Kubernetes.Pods.{
  Pod, Watch, queue_endpoints, update_func, pod_informer,
}
use kube_ingress_aws_control.Kubernetes.Pods.Addresses.{
  Phase, stopping, waiting, serving, phase, listed, address_after, address, phase-cases,
  lookup-remove, remove-IsDict, store_pods-IsDict, or_else, lookup-store_pods,
}

-- The watch holds exactly the addresses that it shall, and has told all that it holds.
abbrev Holds : (String → Option String) → Watch → Type 0
Holds wanted w =
    ((name : String) → lookup name w.pod_endpoints ≡ wanted name)
    × IsDict w.pod_endpoints
    × ((rest : List (List String)) × (w.sent ≡ sort_strings (values w.pod_endpoints) ∷ rest))

-- what is wanted when only one name's address changes
abbrev changed : String → Phase → (String → Option String) → String → Option String
changed k ph wanted name = if k == name then address_after ph (wanted name) else wanted name

at_name : (f : String → Option String) (j k : String) → (j == k) ≡ true → f j ≡ f k
at_name f j k e = ap f ((eq_iff j k).0 e)

-- A change that leaves the wanted address of the name as it is leaves all of them.
changed_same :
    (k name : String) (ph : Phase) (wanted : String → Option String)
    → address_after ph (wanted k) ≡ wanted k
    → changed k ph wanted name ≡ wanted name
changed_same k name ph wanted e = elim (Bool-cases (k == name)) [
  | inl t ↦ rw t (subst (λ z. address_after ph (wanted z) ≡ wanted z) ((eq_iff k name).0 t) e)
  | inr f ↦ rw f refl
]

-- A change that gives the name the address `o` regardless of what it had.
changed_to :
    (k name : String) (ph : Phase) (wanted : String → Option String) (o : Option String)
    → address_after ph (wanted k) ≡ o
    → (if k == name then o else wanted name) ≡ changed k ph wanted name
changed_to k name ph wanted o e = elim (Bool-cases (k == name)) [
  | inl t ↦ rw t (sym (subst (λ z. address_after ph (wanted z) ≡ o) ((eq_iff k name).0 t) e))
  | inr f ↦ rw f refl
]

-- whether the watch has the name, and what is then wanted for it
has_key-cases :
    (k : String) (m : Dict String)
    → ((lookup k m ≡ none) × (has_key k m ≡ false))
      ⊎ ((v : String) × (lookup k m ≡ some v) × (has_key k m ≡ true))
unfolding has_key
has_key-cases k m = cases (lookup k m)
  where
    cases :
        (o : Option String)
        → ((o ≡ none) × (is_some o ≡ false)) ⊎ ((v : String) × (o ≡ some v) × (is_some o ≡ true))
    cases none = inl (refl, refl)
    cases (some v) = inr (v, refl, refl)

update_func-Holds :
    (wanted : String → Option String) (p : Pod) (w : Watch)
    → Holds wanted w
    → Holds (changed p.name (phase p) wanted) (update_func p w)
unfolding update_func queue_endpoints
update_func-Holds wanted p w (h, d, s) = elim (phase-cases p) [
  | inl (q, t) ↦ elim (has_key-cases p.name w.pod_endpoints) [
    | inl (o, k) ↦ rw (q, t, k) (λ name. still name stopping (sym o ∙ h p.name), d, s)
    | inr (v, o, k) ↦
        rw (q, t, k)
          (
            λ name.
                lookup-remove name p.name w.pod_endpoints
                ∙ ap (λ l. if p.name == name then none else l) (h name)
                ∙ changed_to p.name name stopping wanted none refl,
            remove-IsDict p.name w.pod_endpoints d,
            (w.sent, refl),
          )
  ]
  | inr (inl (q, t, r)) ↦ rw (q, t, r) (λ name. still name waiting refl, d, s)
  | inr (inr (q, t, r)) ↦ elim (has_key-cases p.name w.pod_endpoints) [
    | inl (o, k) ↦
        rw (q, t, r, k)
          (
            λ name.
                lookup-insert p.name name p.pod_ip w.pod_endpoints
                ∙ ap (λ l. if p.name == name then some p.pod_ip else l) (h name)
                ∙ changed_to p.name name (serving p.pod_ip) wanted (some p.pod_ip)
                    (ap (address_after (serving p.pod_ip)) (sym (h p.name) ∙ o)),
            insert-IsDict p.name p.pod_ip w.pod_endpoints d,
            (w.sent, refl),
          )
    | inr (v, o, k) ↦
        let e = sym (h p.name) ∙ o in
        rw (q, t, r, k)
          (
            λ name. still name (serving p.pod_ip) (ap (address_after (serving p.pod_ip)) e ∙ sym e),
            d,
            s,
          )
  ]
]
  where
    still :
        (name : String) (ph : Phase)
        → address_after ph (wanted p.name) ≡ wanted p.name
        → lookup name w.pod_endpoints ≡ changed p.name ph wanted name
    still name ph e = h name ∙ sym (changed_same p.name name ph wanted e)

pod_informer-Holds :
    (pods updates : List Pod)
    → Holds (λ name. address name pods updates) (pod_informer pods updates)
unfolding pod_informer queue_endpoints
pod_informer-Holds pods [] = (
  λ name. lookup-store_pods name pods [] ∙ alone (listed name pods),
  store_pods-IsDict pods [] tt,
  ([], refl),
)
  where
    alone : (o : Option String) → or_else o none ≡ o
    alone none = refl
    alone (some ip) = refl
pod_informer-Holds pods (p ∷ updates) =
    update_func-Holds (λ name. address name pods updates) p (pod_informer pods updates)
      (pod_informer-Holds pods updates)

-- The watch has for each name the wanted address, and the last message it has sent is sorted and
-- tells exactly the wanted addresses.
abbrev pub IsCurrent : List Pod → List Pod → Watch → Type 0
IsCurrent pods updates w =
    ((name : String) → lookup name w.pod_endpoints ≡ address name pods updates)
    × ((message : List String) × (rest : List (List String)) × (w.sent ≡ message ∷ rest)
        × (message ≡ sort_strings (values w.pod_endpoints))
        × ((ip : String)
            → In ip message ↔ ((name : String) × (address name pods updates ≡ some ip))))

Holds-values :
    (wanted : String → Option String) (w : Watch) (ip : String)
    → Holds wanted w
    → In ip (sort_strings (values w.pod_endpoints)) ↔ ((name : String) × (wanted name ≡ some ip))
Holds-values wanted w ip (h, d, s) =
    let m = w.pod_endpoints in
    (
      λ i.
          let ((name, v), j, e) = In-map (λ e. e.1) ip m ((sort_strings-In ip (values m)).0 i) in
          (name, sym (h name) ∙ In-lookup name v m d j ∙ ap some e),
      λ (name, e).
          (sort_strings-In ip (values m)).1
            (map-In (λ e. e.1) (name, ip) m (lookup-In name ip m (h name ∙ e))),
    )

-- Whatever pods are listed at the start and however they are updated, the watch has for each name
-- exactly the address that the states of that name give: none if no state served since the name last
-- stopped, and otherwise the address of the first state that did, where the list at the start counts
-- as one state, which serves at the address of the last of its pods of that name that serves. So a
-- state that neither stops nor serves changes nothing, and a later address does not replace an
-- earlier one. The last message sent is the sorted list of the addresses that the watch has, and an
-- address is in it exactly if it is that of some name.
pub pod_informer-IsCurrent :
    (pods updates : List Pod) → IsCurrent pods updates (pod_informer pods updates)
pod_informer-IsCurrent pods updates =
    let (h, d, (rest, e)) = pod_informer-Holds pods updates in
    (
      h,
      (
        sort_strings (values (pod_informer pods updates).pod_endpoints),
        rest,
        e,
        refl,
        λ ip.
            Holds-values (λ name. address name pods updates) (pod_informer pods updates) ip
              (h, d, (rest, e)),
      ),
    )
