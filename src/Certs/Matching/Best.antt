-- ===== src/Certs/Matching/Best.antt =====
-- Which certificate the search chooses.
use kube_ingress_aws_control.Prelude.{
  ℕ, String, len, ◌≡◌, refl, subst, ◌⊎◌, inl, inr, Bool, true, false, none, some, List, [], ◌∷◌,
  arith, All, Any, In, Bool-cases, some_eq,
}
use kube_ingress_aws_control.Certs.{Time, CertificateSummary}
use kube_ingress_aws_control.Certs.Matching.{
  prefix_glob, Best, consider, consider_names, scan, chosen, find_best_matching_certificate,
}

-- Of the best certificate so far, if there is one.
abbrev pub Holds : (ℕ → CertificateSummary → Type 0) → Best → Type 0
Holds P none = Unit
Holds P (some (l, c)) = P l c

-- The certificate has a name that matches the hostname.
abbrev pub Serves : String → CertificateSummary → Type 0
Serves hostname c = Any (λ n. prefix_glob n hostname ≡ true) c.domain_names

module _ (now : Time) where
  consider-cases :
      (c : CertificateSummary) (n : String) (best : Best)
      → (consider now c n best ≡ some (len n, c)) ⊎ (consider now c n best ≡ best)
  unfolding consider
  consider-cases c n none = inl refl
  consider-cases c n (some (l, d)) = ground arith

  pub consider-Holds :
      (P : ℕ → CertificateSummary → Type 0) (c : CertificateSummary) (n : String) (best : Best)
      → P (len n) c
      → Holds P best
      → Holds P (consider now c n best)
  consider-Holds P c n best p h = elim (consider-cases c n best) [ inl e ↦ rw e p | inr e ↦ rw e h ]

  -- Once there is a candidate there is always one.
  abbrev IsFound : Best → Type 0
  IsFound none = ⊥
  IsFound (some b) = Unit

  consider-IsFound :
      (c : CertificateSummary) (n : String) (best : Best) → IsFound (consider now c n best)
  unfolding consider
  consider-IsFound c n none = tt
  consider-IsFound c n (some b) = elim (consider-cases c n (some b)) [
    | inl e ↦ rw e tt
    | inr e ↦ rw e tt
  ]

  module _ (hostname : String) where
    -- A predicate of all that can be chosen holds of what is chosen.
    pub consider_names-Holds :
        (P : ℕ → CertificateSummary → Type 0) (c : CertificateSummary) (ns : List String)
        (best : Best)
        → All (λ n. prefix_glob n hostname ≡ true → P (len n) c) ns
        → Holds P best
        → Holds P (consider_names now hostname c ns best)
    unfolding consider_names
    consider_names-Holds P c [] best p h = h
    consider_names-Holds P c (n ∷ ns) best p h = elim (Bool-cases (prefix_glob n hostname)) [
      | inl e ↦ rw e (consider_names-Holds P c ns _ p.1 (consider-Holds P c n best (p.0 e) h))
      | inr e ↦ rw e (consider_names-Holds P c ns best p.1 h)
    ]

    consider_names-IsFound :
        (c : CertificateSummary) (ns : List String) (best : Best)
        → IsFound best ⊎ Any (λ n. prefix_glob n hostname ≡ true) ns
        → IsFound (consider_names now hostname c ns best)
    unfolding consider_names
    consider_names-IsFound c [] best (inl h) = h
    consider_names-IsFound c [] best (inr a) = absurd a
    consider_names-IsFound c (n ∷ ns) best h = elim (Bool-cases (prefix_glob n hostname)) [
      | inl e ↦ rw e (consider_names-IsFound c ns _ (inl (consider-IsFound c n best)))
      | inr e ↦ rw e (consider_names-IsFound c ns best (later e h))
    ]
      where
        later :
            prefix_glob n hostname ≡ false
            → IsFound best ⊎ Any (λ k. prefix_glob k hostname ≡ true) (n ∷ ns)
            → IsFound best ⊎ Any (λ k. prefix_glob k hostname ≡ true) ns
        later e (inl f) = inl f
        later e (inr (inl m)) = cc
        later e (inr (inr a)) = inr a

module _ (verifies : CertificateSummary → String → Bool) (now : Time) (hostname : String) where
  -- The certificate verifies for the hostname and has a name that matches it.
  abbrev pub Matches : CertificateSummary → Type 0
  Matches c = (verifies c hostname ≡ true) × Serves hostname c

  pub scan-Holds :
      (P : ℕ → CertificateSummary → Type 0) (cs : List CertificateSummary) (best : Best)
      → All
          (λ c.
            verifies c hostname ≡ true
            → All (λ n. prefix_glob n hostname ≡ true → P (len n) c) c.domain_names)
          cs
      → Holds P best
      → Holds P (scan verifies now hostname cs best)
  unfolding scan
  scan-Holds P [] best p h = h
  scan-Holds P (c ∷ cs) best p h = elim (Bool-cases (verifies c hostname)) [
    | inl e ↦ rw e (
        scan-Holds P cs _ p.1 (consider_names-Holds now hostname P c c.domain_names best (p.0 e) h))
    | inr e ↦ rw e (scan-Holds P cs best p.1 h)
  ]

  scan-IsFound :
      (cs : List CertificateSummary) (best : Best)
      → IsFound now best ⊎ Any Matches cs
      → IsFound now (scan verifies now hostname cs best)
  unfolding scan
  scan-IsFound [] best (inl f) = f
  scan-IsFound [] best (inr a) = absurd a
  scan-IsFound (c ∷ cs) best h = elim (Bool-cases (verifies c hostname)) [
    | inl e ↦ rw e (scan-IsFound cs _ (first h))
    | inr e ↦ rw e (scan-IsFound cs best (skip e h))
  ]
    where
      first :
          IsFound now best ⊎ Any Matches (c ∷ cs)
          → IsFound now (consider_names now hostname c c.domain_names best) ⊎ Any Matches cs
      first (inl f) = inl (consider_names-IsFound now hostname c c.domain_names best (inl f))
      first (inr (inl m)) =
          inl (consider_names-IsFound now hostname c c.domain_names best (inr m.1))
      first (inr (inr a)) = inr a

      skip :
          verifies c hostname ≡ false
          → IsFound now best ⊎ Any Matches (c ∷ cs)
          → IsFound now best ⊎ Any Matches cs
      skip e (inl f) = inl f
      skip e (inr (inl m)) = cc (e, m.0)
      skip e (inr (inr a)) = inr a

  chosen-Holds :
      (P : CertificateSummary → Type 0) (best : Best) {c : CertificateSummary}
      → Holds (λ l. P) best
      → chosen best ≡ some c
      → P c
  chosen-Holds P none h e = cc
  chosen-Holds P (some (l, d)) h e = subst P (some_eq e) h

  each_name :
      (c : CertificateSummary) (P : CertificateSummary → Type 0) (ns : List String)
      → (Any (λ n. prefix_glob n hostname ≡ true) ns → P c)
      → All (λ n. prefix_glob n hostname ≡ true → P c) ns
  each_name c P [] f = tt
  each_name c P (n ∷ ns) f = ((λ e. f (inl e)), each_name c P ns (λ a. f (inr a)))

  each_cert :
      (all cs : List CertificateSummary)
      → ((c : CertificateSummary) → In c cs → In c all)
      → All
          (λ c.
            verifies c hostname ≡ true
            → All (λ n. prefix_glob n hostname ≡ true → In c all × Matches c) c.domain_names)
          cs
  each_cert all [] sub = tt
  each_cert all (c ∷ cs) sub = (
    (λ v. each_name c (λ d. In d all × Matches d) c.domain_names (λ a. (sub c (inl refl), (v, a)))),
    each_cert all cs (λ d i. sub d (inr i)),
  )

  -- A certificate that is found is one of those given, verifies for the hostname, and has a domain
  -- name that matches it.
  pub find_best-Matches :
      (cs : List CertificateSummary) (c : CertificateSummary)
      → find_best_matching_certificate verifies now cs hostname ≡ some c
      → In c cs × Matches c
  unfolding find_best_matching_certificate
  find_best-Matches cs c e =
      chosen-Holds (λ d. In d cs × Matches d) (scan verifies now hostname cs none)
        (scan-Holds (λ l d. In d cs × Matches d) cs none (each_cert cs cs (λ d i. i)) tt) e

  -- A certificate is found if one of those given verifies and matches.
  pub find_best_total :
      (cs : List CertificateSummary)
      → Any Matches cs
      → (c : CertificateSummary) × (find_best_matching_certificate verifies now cs hostname
          ≡ some c)
  unfolding find_best_matching_certificate
  find_best_total cs a = go (scan verifies now hostname cs none) (scan-IsFound cs none (inr a))
    where
      go : (best : Best) → IsFound now best → (c : CertificateSummary) × (chosen best ≡ some c)
      go (some (l, c)) f = (c, refl)
      go none f = absurd f
