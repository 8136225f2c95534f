-- ===== src/Certs/Matching/Newest.antt =====
-- Among certificates that are all in force, and for a week more, the search takes the most specific
-- name, and of equally specific ones the certificate issued last, and then the one valid longest.
use kube_ingress_aws_control.Prelude.{
  ℕ, ◌+◌, ◌≤◌, ◌<◌, String, len, ◌≡◌, refl, subst, ◌⊎◌, inl, inr, Bool, true, none, some, List, [],
  ◌∷◌, arith, All, All-lookup, Any, In, Bool-cases, some_eq,
}
use kube_ingress_aws_control.Certs.{Time, CertificateSummary, not_before, not_after}
use kube_ingress_aws_control.Certs.Matching.{
  minimal_cert_validity_period, prefix_glob, Best, consider, consider_names, scan, chosen,
  find_best_matching_certificate,
}
use kube_ingress_aws_control.Certs.Matching.Best.{
  Holds, consider-Holds, consider_names-Holds, scan-Holds,
}

-- The second choice is at least as good as the first.
abbrev pub AtLeast : ℕ → CertificateSummary → ℕ → CertificateSummary → Type 0
AtLeast l c m d =
    (l < m)
    ⊎ ((l ≡ m)
        × ((not_before c < not_before d)
            ⊎ ((not_before c ≡ not_before d) × (not_after c ≤ not_after d))))

-- In force, and for more than the minimal period to come.
abbrev pub InForce : Time → CertificateSummary → Type 0
InForce now c = (not_before c < now) × (now + minimal_cert_validity_period < not_after c)

AtLeast-refl : (l : ℕ) (c : CertificateSummary) → AtLeast l c l c
AtLeast-refl l c = ground arith

AtLeast-trans :
    (l m n : ℕ) (c d e : CertificateSummary) → AtLeast l c m d → AtLeast m d n e → AtLeast l c n e
AtLeast-trans l m n c d e h k = ground arith

module _ (now : Time) where
  -- The best so far is at least as good as the choice (l, c).
  abbrev Beats : ℕ → CertificateSummary → Best → Type 0
  Beats l c none = ⊥
  Beats l c (some (m, d)) = AtLeast l c m d

  consider-Beats_old :
      (l : ℕ) (b c : CertificateSummary) (n : String) (best : Best)
      → InForce now c
      → Holds (λ m d. InForce now d) best
      → Beats l b best
      → Beats l b (consider now c n best)
  unfolding consider
  consider-Beats_old l b c n none v w h = absurd h
  consider-Beats_old l b c n (some (m, d)) v w h = ground arith

  consider-Beats_new :
      (c : CertificateSummary) (n : String) (best : Best)
      → InForce now c
      → Holds (λ m d. InForce now d) best
      → Beats (len n) c (consider now c n best)
  unfolding consider
  consider-Beats_new c n none v w = AtLeast-refl (len n) c
  consider-Beats_new c n (some (m, d)) v w = ground arith

  abbrev AllInForce : Best → Type 0
  AllInForce = Holds (λ m d. InForce now d)

  module _ (hostname : String) where
    names-InForce :
        (c : CertificateSummary) (ns : List String) (best : Best)
        → InForce now c
        → AllInForce best
        → AllInForce (consider_names now hostname c ns best)
    names-InForce c ns best v w =
        consider_names-Holds now hostname (λ m d. InForce now d) c ns best
          (All-lookup _ ns (λ n _. v)) w

    names-Beats_old :
        (l : ℕ) (b c : CertificateSummary) (ns : List String) (best : Best)
        → InForce now c
        → AllInForce best
        → Beats l b best
        → Beats l b (consider_names now hostname c ns best)
    unfolding consider_names
    names-Beats_old l b c [] best v w h = h
    names-Beats_old l b c (n ∷ ns) best v w h = elim (Bool-cases (prefix_glob n hostname)) [
      | inl e ↦ rw e (
          names-Beats_old l b c ns _ v (consider-Holds now (λ m d. InForce now d) c n best v w)
            (consider-Beats_old l b c n best v w h))
      | inr e ↦ rw e (names-Beats_old l b c ns best v w h)
    ]

    names-Beats_new :
        (c : CertificateSummary) (n : String) (ns : List String) (best : Best)
        → InForce now c
        → AllInForce best
        → In n ns
        → prefix_glob n hostname ≡ true
        → Beats (len n) c (consider_names now hostname c ns best)
    unfolding consider_names
    names-Beats_new c n [] best v w i m = absurd i
    names-Beats_new c n (k ∷ ns) best v w (inl e) m =
        rw (e, m)
          (names-Beats_old (len n) c c ns _ v
            (consider-Holds now (λ m d. InForce now d) c n best v w)
            (consider-Beats_new c n best v w))
    names-Beats_new c n (k ∷ ns) best v w (inr i) m = elim (Bool-cases (prefix_glob k hostname)) [
      | inl e ↦
          rw e (
            names-Beats_new c n ns _ v (consider-Holds now (λ m d. InForce now d) c k best v w) i m)
      | inr e ↦ rw e (names-Beats_new c n ns best v w i m)
    ]

module _ (verifies : CertificateSummary → String → Bool) (now : Time) (hostname : String) where
  scan-Beats_old :
      (l : ℕ) (b : CertificateSummary) (cs : List CertificateSummary) (best : Best)
      → All (InForce now) cs
      → AllInForce now best
      → Beats now l b best
      → Beats now l b (scan verifies now hostname cs best)
  unfolding scan
  scan-Beats_old l b [] best v w h = h
  scan-Beats_old l b (c ∷ cs) best v w h = elim (Bool-cases (verifies c hostname)) [
    | inl e ↦ rw e (
        scan-Beats_old l b cs _ v.1 (names-InForce now hostname c c.domain_names best v.0 w)
          (names-Beats_old now hostname l b c c.domain_names best v.0 w h))
    | inr e ↦ rw e (scan-Beats_old l b cs best v.1 w h)
  ]

  scan-Beats_new :
      (c : CertificateSummary) (n : String) (cs : List CertificateSummary) (best : Best)
      → All (InForce now) cs
      → AllInForce now best
      → In c cs
      → verifies c hostname ≡ true
      → In n c.domain_names
      → prefix_glob n hostname ≡ true
      → Beats now (len n) c (scan verifies now hostname cs best)
  unfolding scan
  scan-Beats_new c n [] best v w i t j m = absurd i
  scan-Beats_new c n (d ∷ cs) best v w (inl e) t j m =
      let f : InForce now c = subst (InForce now) e v.0 in
      rw (e, t)
        (scan-Beats_old (len n) c cs _ v.1 (names-InForce now hostname c c.domain_names best f w)
          (names-Beats_new now hostname c n c.domain_names best f w j m))
  scan-Beats_new c n (d ∷ cs) best v w (inr i) t j m = elim (Bool-cases (verifies d hostname)) [
    | inl e ↦ rw e (
        scan-Beats_new c n cs _ v.1 (names-InForce now hostname d d.domain_names best v.0 w) i t j
          m)
    | inr e ↦ rw e (scan-Beats_new c n cs best v.1 w i t j m)
  ]

  -- The choice (l, c) is backed by a name of c of that length.
  abbrev pub Backed : ℕ → CertificateSummary → Type 0
  Backed l c = Any (λ n. (prefix_glob n hostname ≡ true) × (len n ≡ l)) c.domain_names

  Backed-names :
      (c : CertificateSummary) (ns : List String)
      → ((n : String) → prefix_glob n hostname ≡ true → In n ns → Backed (len n) c)
      → All (λ n. prefix_glob n hostname ≡ true → Backed (len n) c) ns
  Backed-names c [] f = tt
  Backed-names c (n ∷ ns) f = ((λ e. f n e (inl refl)), Backed-names c ns (λ k e i. f k e (inr i)))

  backed_self :
      (n : String) (ns : List String)
      → prefix_glob n hostname ≡ true
      → In n ns
      → Any (λ k. (prefix_glob k hostname ≡ true) × (len k ≡ len n)) ns
  backed_self n [] e i = absurd i
  backed_self n (k ∷ ns) e (inl h) = inl (rw h (e, refl))
  backed_self n (k ∷ ns) e (inr i) = inr (backed_self n ns e i)

  -- Where all certificates are in force, and for more than a week to come, the one that is found
  -- has a matching name at least as long as any matching name of a certificate that verifies; at
  -- equal length it was issued no earlier, and issued at the same time it is valid no shorter.
  pub find_best-Newest :
      (cs : List CertificateSummary) (c d : CertificateSummary) (n : String)
      → All (InForce now) cs
      → find_best_matching_certificate verifies now cs hostname ≡ some c
      → In d cs
      → verifies d hostname ≡ true
      → In n d.domain_names
      → prefix_glob n hostname ≡ true
      → (l : ℕ) × Backed l c × AtLeast (len n) d l c
  unfolding find_best_matching_certificate
  find_best-Newest cs c d n v e i t j m =
      go (scan verifies now hostname cs none)
        (scan-Holds verifies now hostname Backed cs none
          (All-lookup _ cs
            (λ b _. Backed-names b b.domain_names (λ k g. backed_self k b.domain_names g)))
          tt)
        (scan-Beats_new d n cs none v tt i t j m) e
    where
      go :
          (best : Best)
          → Holds Backed best
          → Beats now (len n) d best
          → chosen best ≡ some c
          → (l : ℕ) × Backed l c × AtLeast (len n) d l c
      go none h b e = absurd b
      go (some (l, a)) h b e =
          (l, subst (Backed l) (some_eq e) h, subst (AtLeast (len n) d l) (some_eq e) b)
