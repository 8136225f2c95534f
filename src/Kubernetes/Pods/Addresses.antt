-- ===== src/Kubernetes/Pods/Addresses.antt =====
-- The address that the watch of pods shall have for a name, by the states of the pods, and what the
-- map of the watch holds after the list at the start and after a removal.
use kube_ingress_aws_control.Prelude.{
  String, ◌≡◌, refl, sym, ◌∙◌, ap, Bool, true, false, not, ◌&&◌, ◌⊎◌, inl, inr, Option, none, some,
  List, [], ◌∷◌, ◌==◌, eq_iff, keep, arith, All, Bool-cases, if◌then◌else◌,
}
use kube_ingress_aws_control.Prelude.Dict.{Dict, insert, lookup, lookup-insert}
use kube_ingress_aws_control.Prelude.Dict.Laws.{IsDict, insert-IsDict}
use kube_ingress_aws_control.Certs.{Time}
use kube_ingress_aws_control.Kubernetes.Pods.{
  Pod, is_pod_terminating, is_pod_running, store_pods, remove, is_there, first_running,
}

-- What a state of a pod shows: that it is being deleted, that its first container runs and it has an
-- address, or neither.
pub data Phase : Type 0 where
  stopping waiting : Phase
  serving : String → Phase

abbrev pub phase_of : Option Time → List Bool → String → Phase
phase_of (some deleted) containers ip = stopping
phase_of none (true ∷ containers) ip = if ip == "" then waiting else serving ip
phase_of none (false ∷ containers) ip = waiting
phase_of none [] ip = waiting

abbrev pub phase : Pod → Phase
phase p = phase_of p.deletion_timestamp p.container_statuses p.pod_ip

-- the address by the list at the start: the last one of that name that serves
abbrev pub listed_after : Phase → Option String → Option String
listed_after (serving ip) none = some ip
listed_after (serving ip) (some later) = some later
listed_after stopping later = later
listed_after waiting later = later

abbrev pub listed : String → List Pod → Option String
listed name [] = none
listed name (p ∷ pods) =
    let later = listed name pods in if p.name == name then listed_after (phase p) later else later

-- the address after one more state: a pod that stops has none, one that starts to serve has that
-- of this state, and any other keeps what it had
abbrev pub address_after : Phase → Option String → Option String
address_after stopping before = none
address_after waiting before = before
address_after (serving ip) none = some ip
address_after (serving ip) (some old) = some old

-- The address that the watch shall have for a name, by the pods at the start and the updates, the
-- last one first.
abbrev pub address : String → List Pod → List Pod → Option String
address name pods [] = listed name pods
address name pods (p ∷ updates) =
    let before = address name pods updates in
    if p.name == name then address_after (phase p) before else before

-- The tests of the code by the phase.
abbrev PhaseCase : Phase → Bool → Bool → String → Type 0
PhaseCase ph terminating running ip =
    ((ph ≡ stopping) × (terminating ≡ true))
    ⊎ (((ph ≡ waiting) × (terminating ≡ false) × (running ≡ false))
        ⊎ ((ph ≡ serving ip) × (terminating ≡ false) × (running ≡ true)))

pub phase-cases : (p : Pod) → PhaseCase (phase p) (is_pod_terminating p) (is_pod_running p) p.pod_ip
unfolding is_pod_terminating is_pod_running
phase-cases p = cases p.deletion_timestamp p.container_statuses p.pod_ip
  where
    cases :
        (d : Option Time) (cs : List Bool) (ip : String)
        → PhaseCase (phase_of d cs ip) (is_there d) (first_running cs && not (ip == "")) ip
    cases (some t) cs ip = inl (refl, refl)
    cases none [] ip = inr (inl (refl, refl, refl))
    cases none (false ∷ cs) ip = inr (inl (refl, refl, refl))
    cases none (true ∷ cs) ip = elim (Bool-cases (ip == "")) [
      | inl e ↦ rw e (inr (inl (refl, refl, refl)))
      | inr e ↦ rw e (inr (inr (refl, refl, refl)))
    ]

pub lookup-remove :
    (j k : String) (m : Dict String) → lookup j (remove k m) ≡ (if k == j then none else lookup j m)
unfolding remove lookup
lookup-remove j k [] = ground arith
lookup-remove j k ((i, w) ∷ m) =
    ground (arith, lookup-remove j k m, eq_iff i k, eq_iff i j, eq_iff k j)

All-keep : {A : Type 0} (P : A → Type 0) (p : A → Bool) (xs : List A) → All P xs → All P (keep p xs)
All-keep P p [] h = tt
All-keep P p (x ∷ xs) h = elim (Bool-cases (p x)) [
  | inl e ↦ rw e (h.0, All-keep P p xs h.1)
  | inr e ↦ rw e (All-keep P p xs h.1)
]

pub remove-IsDict : (k : String) (m : Dict String) → IsDict m → IsDict (remove k m)
unfolding remove
remove-IsDict k [] d = tt
remove-IsDict k ((i, w) ∷ m) d = elim (Bool-cases (i == k)) [
  | inl e ↦ rw e (remove-IsDict k m d.1)
  | inr e ↦ rw e (All-keep _ _ m d.0, remove-IsDict k m d.1)
]

pub store_pods-IsDict : (pods : List Pod) (m : Dict String) → IsDict m → IsDict (store_pods pods m)
unfolding store_pods
store_pods-IsDict [] m d = d
store_pods-IsDict (p ∷ pods) m d =
    elim (Bool-cases (not (is_pod_terminating p) && is_pod_running p)) [
      | inl e ↦ rw e (store_pods-IsDict pods _ (insert-IsDict p.name p.pod_ip m d))
      | inr e ↦ rw e (store_pods-IsDict pods m d)
    ]

abbrev pub or_else : Option String → Option String → Option String
or_else none o = o
or_else (some s) o = some s

unchanged : (t : Bool) (o : Option String) → (if t then o else o) ≡ o
unchanged true o = refl
unchanged false o = refl

-- the serving pod's own address, unless a later one of its name has replaced it
or_else-listed_after :
    (t : Bool) (later before : Option String) (ip : String)
    → or_else later (if t then some ip else before)
      ≡ or_else (if t then listed_after (serving ip) later else later) before
or_else-listed_after true none before ip = refl
or_else-listed_after true (some a) before ip = refl
or_else-listed_after false later before ip = refl

pub lookup-store_pods :
    (name : String) (pods : List Pod) (m : Dict String)
    → lookup name (store_pods pods m) ≡ or_else (listed name pods) (lookup name m)
unfolding store_pods
lookup-store_pods name [] m = refl
lookup-store_pods name (p ∷ pods) m = elim (phase-cases p) [
  | inl (q, t) ↦ rw (q, t) (kept (lookup-store_pods name pods m))
  | inr (inl (q, t, r)) ↦ rw (q, t, r) (kept (lookup-store_pods name pods m))
  | inr (inr (q, t, r)) ↦
      rw (q, t, r)
        (lookup-store_pods name pods (insert p.name p.pod_ip m)
          ∙ ap (or_else (listed name pods)) (lookup-insert p.name name p.pod_ip m)
          ∙ or_else-listed_after (p.name == name) (listed name pods) (lookup name m) p.pod_ip)
]
  where
    kept :
        {o : Option String}
        → o ≡ or_else (listed name pods) (lookup name m)
        → o
          ≡ or_else (if p.name == name then listed name pods else listed name pods) (lookup name m)
    kept e =
        e
        ∙ ap (λ l. or_else l (lookup name m)) (sym (unchanged (p.name == name) (listed name pods)))
