-- ===== src/Worker/Certificates.antt =====
-- worker.go: the certificates that a load balancer's stack gets, with their times to live
-- (CertificateARNs).
use kube_ingress_aws_control.Prelude.{
  ◌+◌, String, ◌≡◌, refl, sym, subst, ◌∙◌, ◌≢◌, false, Option, none, some, List, [], ◌∷◌, ◌==◌, ltb,
  eqb, arith, eq_iff, eq_refl, All, Bool-cases, Option-cases, inl, inr, if◌then◌else◌,
}
use kube_ingress_aws_control.Prelude.Dict.{Dict, lookup, insert, has_key, is_some, lookup-insert}
use kube_ingress_aws_control.Prelude.Dict.Laws.{IsDict}
use kube_ingress_aws_control.Certs.{Time, Duration}
use kube_ingress_aws_control.Kubernetes.{Ingress}
use kube_ingress_aws_control.Worker.{LoadBalancer, needed, retain, certificate_arns}

lookup_missing : {V : Type 0} (k : String) (d : Dict V) → All (λ e. e.0 ≢ k) d → lookup k d ≡ none
unfolding lookup
lookup_missing k [] h = refl
lookup_missing k ((j, v) ∷ d) h = elim (Bool-cases (j == k)) [
  | inl e ↦ absurd (h.0 ((eq_iff j k).0 e))
  | inr e ↦ rw e (lookup_missing k d h.1)
]

-- the time of a certificate that some ingress needs
abbrev pub time_needed : Option (List Ingress) → Option Time
time_needed none = none
time_needed (some []) = none
time_needed (some (i ∷ is')) = some 0

-- The time of a certificate that only the stack has: the zero time becomes the end of its time to
-- live, a time in the future stays, and a certificate whose time has come goes.
abbrev pub time_kept : Time → Duration → Option Time → Option Time
time_kept now ttl none = none
time_kept now ttl (some t) =
    if eqb t 0 then some (now + ttl) else if ltb now t then some t else none

abbrev pub or_else : Option Time → Option Time → Option Time
or_else none o = o
or_else (some t) o = some t

or_else-none : (o : Option Time) → or_else o none ≡ o
or_else-none none = refl
or_else-none (some t) = refl

has_key-lookup : (arn : String) (c : Dict Time) → has_key arn c ≡ is_some (lookup arn c)
unfolding has_key
has_key-lookup arn c = refl

lookup-needed :
    (arn : String) (m : Dict (List Ingress))
    → IsDict m
    → lookup arn (needed m) ≡ time_needed (lookup arn m)
unfolding lookup needed
lookup-needed arn [] d = refl
lookup-needed arn ((a, []) ∷ m) d = elim (Bool-cases (a == arn)) [
  | inl e ↦
      rw
        (
          e,
          lookup-needed arn m d.1,
          lookup_missing arn m (subst (λ z. All (λ e. e.0 ≢ z) m) ((eq_iff a arn).0 e) d.0),
        )
        refl
  | inr e ↦ rw e (lookup-needed arn m d.1)
]
lookup-needed arn ((a, i ∷ is') ∷ m) d = elim (Bool-cases (a == arn)) [
  | inl e ↦ rw e refl
  | inr e ↦ rw e (lookup-needed arn m d.1)
]

module _ (now : Time) (ttl : Duration) where
  -- the map after one round of the loop
  abbrev next : String → Time → Dict Time → Dict Time
  next a t c =
      if has_key a c
      then c
      else if eqb t 0
      then insert a (now + ttl) c
      else if ltb now t
      then insert a t c
      else c

  lookup-next_other :
      (arn a : String) (t : Time) (c : Dict Time)
      → (a == arn) ≡ false
      → lookup arn (next a t c) ≡ lookup arn c
  lookup-next_other arn a t c e =
      ground (arith, lookup-insert a arn (now + ttl) c, lookup-insert a arn t c)

  lookup-next_self :
      (arn : String) (t : Time) (c : Dict Time)
      → lookup arn (next arn t c) ≡ or_else (lookup arn c) (time_kept now ttl (some t))
  lookup-next_self arn t c = elim (Option-cases (lookup arn c)) [
    | inr (u, e) ↦ rw (has_key-lookup arn c, e) e
    | inl e ↦
        rw (has_key-lookup arn c, e)
          (ground
            (arith, e, eq_refl arn, lookup-insert arn arn (now + ttl) c, lookup-insert arn arn t c))
  ]

  lookup-retain :
      (arn : String) (m c : Dict Time)
      → IsDict m
      → lookup arn (retain now ttl m c) ≡ or_else (lookup arn c) (time_kept now ttl (lookup arn m))
  unfolding retain lookup
  lookup-retain arn [] c d = sym (or_else-none (lookup arn c))
  lookup-retain arn ((a, t) ∷ m) c d =
      lookup-retain arn m (next a t c) d.1 ∙ elim (Bool-cases (a == arn)) [
        | inr e ↦ rw (e, lookup-next_other arn a t c e) refl
        | inl e ↦
            let p = (eq_iff a arn).0 e in
            rw (e, lookup_missing arn m (subst (λ z. All (λ x. x.0 ≢ z) m) p d.0))
              (or_else-none (lookup arn (next a t c))
                ∙ subst
                    (λ z.
                      lookup arn (next z t c) ≡ or_else (lookup arn c) (time_kept now ttl (some t)))
                    (sym p) (lookup-next_self arn t c))
      ]

-- Of two maps, of the ingresses and of the certificates that the stack has had, come the certificates
-- of a load balancer's stack: each that some ingress needs, without a time; and
-- each other one that the stack has had, which is kept for the time to live from the round in which
-- it is first seen to be unused, and goes when that has passed.
pub certificate_arns-exact :
    (now : Time) (l : LoadBalancer) (arn : String)
    → IsDict l.ingresses
    → IsDict l.existing_stack_certificate_arns
    → lookup arn (certificate_arns now l)
      ≡ or_else
          (time_needed (lookup arn l.ingresses))
          (time_kept now l.cert_ttl (lookup arn l.existing_stack_certificate_arns))
unfolding certificate_arns
certificate_arns-exact now l arn d e =
    lookup-retain now l.cert_ttl arn l.existing_stack_certificate_arns (needed l.ingresses) e
    ∙ rw (lookup-needed arn l.ingresses d) refl
