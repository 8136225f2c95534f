-- ===== src/Certs/Caching/Refresh.antt =====
-- What the cache of certificates holds after a refresh.
use kube_ingress_aws_control.Prelude.{
  String, ◌≡◌, refl, sym, ◌∙◌, subst, ◌↔◌, ◌⊎◌, inl, inr, ap, Bool, true, false, not, List, [], ◌∷◌,
  ◌++◌, Result, ok, err, ok_eq, All, All-of, Any, In, arith, In-append, In-append_left,
  In-append_right, keep_sound, keep_complete,
}
use kube_ingress_aws_control.Prelude.Dict.{Dict, has_key}
use kube_ingress_aws_control.Certs.{CertificateSummary}
use kube_ingress_aws_control.Certs.Caching.{
  Response, CachingProvider, provision_certs, gather, stored, update_cert_cache, background_refresh,
}

-- The provider answered with the certificate.
abbrev pub Answers : CertificateSummary → Response → Type 0
Answers c (ok certs) = In c certs
Answers c (err e) = ⊥

abbrev pub Fails : Response → Type 0
Fails (ok certs) = ⊥
Fails (err e) = Unit

abbrev pub Allowed : Dict Bool → CertificateSummary → Type 0
Allowed blacklist c = has_key c.id blacklist ≡ false

module _ (blacklist : Dict Bool) where
  gather-Fails :
      (acc : List CertificateSummary) (rs : List Response)
      → Any Fails rs
      → (e : String) × (gather blacklist acc rs ≡ err e)
  unfolding gather
  gather-Fails acc [] a = absurd a
  gather-Fails acc (err e ∷ rs) a = (e, refl)
  gather-Fails acc (ok cs ∷ rs) (inr a) = gather-Fails (acc ++ provision_certs blacklist cs) rs a
  gather-Fails acc (ok cs ∷ rs) (inl a) = absurd a

  gather-err :
      (acc : List CertificateSummary) (rs : List Response) (x : String)
      → gather blacklist acc rs ≡ err x
      → Any Fails rs
  unfolding gather
  gather-err acc [] x e = cc
  gather-err acc (err y ∷ rs) x e = inl tt
  gather-err acc (ok cs ∷ rs) x e = inr (gather-err (acc ++ provision_certs blacklist cs) rs x e)

  not-false : (b : Bool) → not b ≡ true → b ≡ false
  not-false b h = ground arith

  gather_sound :
      (c : CertificateSummary) (acc : List CertificateSummary) (rs : List Response)
      (l : List CertificateSummary)
      → gather blacklist acc rs ≡ ok l
      → In c l
      → In c acc ⊎ (Any (Answers c) rs × Allowed blacklist c)
  unfolding gather provision_certs
  gather_sound c acc [] l e i = inl (subst (In c) (sym (ok_eq e)) i)
  gather_sound c acc (err x ∷ rs) l e i = cc
  gather_sound c acc (ok cs ∷ rs) l e i =
      elim (gather_sound c (acc ++ provision_certs blacklist cs) rs l e i) [
        | inr (a, p) ↦ inr (inr a, p)
        | inl j ↦ elim (In-append c acc (provision_certs blacklist cs) j) [
          | inl k ↦ inl k
          | inr k ↦
              let h = keep_sound (λ d. not (has_key d.id blacklist)) c cs k in
              inr (inl h.0, not-false _ h.1)
        ]
      ]

  gather_complete :
      (c : CertificateSummary) (acc : List CertificateSummary) (rs : List Response)
      (l : List CertificateSummary)
      → gather blacklist acc rs ≡ ok l
      → In c acc ⊎ (Any (Answers c) rs × Allowed blacklist c)
      → In c l
  unfolding gather provision_certs
  gather_complete c acc [] l e (inl i) = subst (In c) (ok_eq e) i
  gather_complete c acc [] l e (inr h) = absurd h.0
  gather_complete c acc (err x ∷ rs) l e h = cc
  gather_complete c acc (ok cs ∷ rs) l e (inl i) =
      gather_complete c (acc ++ provision_certs blacklist cs) rs l e
        (inl (In-append_left c acc (provision_certs blacklist cs) i))
  gather_complete c acc (ok cs ∷ rs) l e (inr (inl i, p)) =
      gather_complete c (acc ++ provision_certs blacklist cs) rs l e (
        inl (
          In-append_right c acc (provision_certs blacklist cs)
            (keep_complete (λ d. not (has_key d.id blacklist)) c cs i (ap not p))))
  gather_complete c acc (ok cs ∷ rs) l e (inr (inr a, p)) =
      gather_complete c (acc ++ provision_certs blacklist cs) rs l e (inr (a, p))

-- A refresh in which a provider fails returns an error and leaves the cache as it was; any other
-- succeeds, and then the cache holds exactly the certificates that a provider answered with and
-- whose identifier is not on the blacklist.
pub update_cert_cache-exact :
    (p : CachingProvider) (rs : List Response)
    → (Any Fails rs × ((e : String) × (update_cert_cache p rs ≡ (p, err e))))
      ⊎ ((¬ Any Fails rs)
          × ((update_cert_cache p rs).1 ≡ ok tt)
          × ((c : CertificateSummary)
              → In c (update_cert_cache p rs).0.cert_details
                ↔ (Any (Answers c) rs × Allowed p.blacklisted_arn_map c)))
unfolding update_cert_cache
update_cert_cache-exact p rs = go (gather p.blacklisted_arn_map [] rs) refl
  where
    go :
        (r : Result String (List CertificateSummary))
        → gather p.blacklisted_arn_map [] rs ≡ r
        → (Any Fails rs × ((e : String) × (update_cert_cache p rs ≡ (p, err e))))
          ⊎ ((¬ Any Fails rs)
              × ((update_cert_cache p rs).1 ≡ ok tt)
              × ((c : CertificateSummary)
                  → In c (update_cert_cache p rs).0.cert_details
                    ↔ (Any (Answers c) rs × Allowed p.blacklisted_arn_map c)))
    go (err x) e = inl (gather-err p.blacklisted_arn_map [] rs x e, (x, rw (e, update_cert_cache)))
    go (ok l) e = inr (
      (λ a. clash (gather-Fails p.blacklisted_arn_map [] rs a)),
      rw (e, update_cert_cache),
      λ c.
          rw (e, update_cert_cache)
            (
              (λ i. elim (gather_sound p.blacklisted_arn_map c [] rs l e i) [
                | inl n ↦ absurd n
                | inr h ↦ h
              ]),
              (λ h. gather_complete p.blacklisted_arn_map c [] rs l e (inr h)),
            ),
    )
      where
        clash : (x : String) × (gather p.blacklisted_arn_map [] rs ≡ err x) → ⊥
        clash (x, f) = cc (e, f)

stored-Allowed :
    (p : CachingProvider) (rs : List Response) (r : Result String (List CertificateSummary))
    → gather p.blacklisted_arn_map [] rs ≡ r
    → All (Allowed p.blacklisted_arn_map) p.cert_details
    → All (Allowed p.blacklisted_arn_map) (stored p r).cert_details
      × ((stored p r).blacklisted_arn_map ≡ p.blacklisted_arn_map)
stored-Allowed p rs (err x) e h = (h, refl)
stored-Allowed p rs (ok l) e h = (All-of (Allowed p.blacklisted_arn_map) l (λ c i. new c i), refl)
  where
    new : (c : CertificateSummary) → In c l → Allowed p.blacklisted_arn_map c
    new c i = elim (gather_sound p.blacklisted_arn_map c [] rs l e i) [
      | inl n ↦ absurd n
      | inr k ↦ k.1
    ]

-- Background refreshes never bring a certificate with a blacklisted identifier into the cache,
-- whatever the providers answer, and never change the blacklist.
pub background_refresh-Allowed :
    (p : CachingProvider) (ticks : List (List Response))
    → All (Allowed p.blacklisted_arn_map) p.cert_details
    → All (Allowed p.blacklisted_arn_map) (background_refresh p ticks).cert_details
      × ((background_refresh p ticks).blacklisted_arn_map ≡ p.blacklisted_arn_map)
unfolding background_refresh
background_refresh-Allowed p [] h = (h, refl)
background_refresh-Allowed p (rs ∷ ticks) h =
    let q : CachingProvider = stored p (gather p.blacklisted_arn_map [] rs) in
    let (k, e) = stored-Allowed p rs (gather p.blacklisted_arn_map [] rs) refl h in
    let (k', e') =
      background_refresh-Allowed q ticks (subst (λ b. All (Allowed b) q.cert_details) (sym e) k) in
    (subst (λ b. All (Allowed b) (background_refresh q ticks).cert_details) e k', e' ∙ e)
