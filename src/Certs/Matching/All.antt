-- ===== src/Certs/Matching/All.antt =====
-- The certificates for a list of hostnames: one for each hostname that has any, and no identifier
-- twice.
use kube_ingress_aws_control.Prelude.{
  String, ◌≡◌, ◌≢◌, ◌∙◌, refl, inl, inr, sym, subst, Bool, Option, some, List, [], ◌∷◌, map, All,
  All-imp, Any, In, Option-cases,
}
use kube_ingress_aws_control.Prelude.Dict.{Dict, insert}
use kube_ingress_aws_control.Prelude.Dict.Laws.{
  HasKey, IsDict, insert-HasKey_self, insert-HasKey, insert-IsDict, insert-All,
}
use kube_ingress_aws_control.Certs.{Time, CertificateSummary}
use kube_ingress_aws_control.Certs.Matching.{
  find_best_matching_certificate, collect, find_best_matching_certificates,
}

-- No identifier stands in the list twice.
abbrev pub Distinct : List String → Type 0
Distinct [] = Unit
Distinct (k ∷ ks) = All (λ i. i ≢ k) ks × Distinct ks

module _ (verifies : CertificateSummary → String → Bool) (now : Time)
    (cs : List CertificateSummary) where
  abbrev found : String → Option CertificateSummary
  found hostname = find_best_matching_certificate verifies now cs hostname

  -- A fact of the map that every assignment keeps holds at the end.
  collect_inv :
      (P : Dict CertificateSummary → Type 0)
      → ((m : Dict CertificateSummary) (c : CertificateSummary) → P m → P (insert c.id c m))
      → (hs : List String) (m : Dict CertificateSummary) → P m
      → P (collect verifies now cs hs m)
  unfolding collect
  collect_inv P keep [] m p = p
  collect_inv P keep (h ∷ hs) m p = elim (Option-cases (found h)) [
    | inl e ↦ rw (e, collect) (collect_inv P keep hs m p)
    | inr (c, e) ↦ rw (e, collect) (collect_inv P keep hs (insert c.id c m) (keep m c p))
  ]

  -- The map that the loop fills has each certificate under its own identifier.
  abbrev IsKeyed : Dict CertificateSummary → Type 0
  IsKeyed = All (λ e. e.0 ≡ e.1.id)

  -- Each certificate of the result is the best one for one of the hostnames.
  collect-Found :
      (P : CertificateSummary → Type 0) (hs : List String) (m : Dict CertificateSummary)
      → ((h : String) (c : CertificateSummary) → In h hs → found h ≡ some c → P c)
      → All (λ e. P e.1) m
      → All (λ e. P e.1) (collect verifies now cs hs m)
  unfolding collect
  collect-Found P [] m f a = a
  collect-Found P (h ∷ hs) m f a = elim (Option-cases (found h)) [
    | inl e ↦ rw (e, collect) (collect-Found P hs m (λ k c i. f k c (inr i)) a)
    | inr (c, e) ↦
        rw (e, collect)
          (collect-Found P hs (insert c.id c m) (λ k d i. f k d (inr i))
            (insert-All (λ _ d. P d) c.id c m (f h c (inl refl) e) a))
  ]

  collect-HasKey :
      (hs : List String) (m : Dict CertificateSummary) (h : String) (c : CertificateSummary)
      → In h hs
      → found h ≡ some c
      → HasKey c.id (collect verifies now cs hs m)
  unfolding collect
  collect-HasKey [] m h c i e = absurd i
  collect-HasKey (k ∷ hs) m h c (inl p) e =
      let e' : found k ≡ some c = subst (λ x. found x ≡ some c) (sym p) e in
      rw (e', collect)
        (collect_inv (HasKey c.id) (λ n d g. insert-HasKey c.id d.id d n g) hs (insert c.id c m)
          (insert-HasKey_self c.id c m))
  collect-HasKey (k ∷ hs) m h c (inr i) e = elim (Option-cases (found k)) [
    | inl p ↦ rw (p, collect) (collect-HasKey hs m h c i e)
    | inr (d, p) ↦ rw (p, collect) (collect-HasKey hs (insert d.id d m) h c i e)
  ]

  entries_values :
      (P : CertificateSummary → Type 0) (m : Dict CertificateSummary)
      → All (λ e. P e.1) m
      → All P (map (λ e. e.1) m)
  entries_values P [] h = tt
  entries_values P (e ∷ m) h = (h.0, entries_values P m h.1)

  -- Every certificate of the result is the best match of one of the hostnames.
  pub find_best_each :
      (hs : List String)
      → All
          (λ c. (h : String) × In h hs × (found h ≡ some c))
          (find_best_matching_certificates verifies now cs hs)
  unfolding find_best_matching_certificates
  find_best_each hs = entries_values _ (collect verifies now cs hs []) (
      collect-Found (λ c. (h : String) × In h hs × (found h ≡ some c)) hs [] (λ h c i e. (h, i, e))
        tt)

  HasKey-values :
      (k : String) (m : Dict CertificateSummary)
      → IsKeyed m
      → HasKey k m
      → Any (λ d. d.id ≡ k) (map (λ e. e.1) m)
  HasKey-values k [] w h = absurd h
  HasKey-values k (e ∷ m) w (inl p) = inl (sym w.0 ∙ p)
  HasKey-values k (e ∷ m) w (inr h) = inr (HasKey-values k m w.1 h)

  collect-IsKeyed : (hs : List String) → IsKeyed (collect verifies now cs hs [])
  collect-IsKeyed hs =
      collect_inv IsKeyed (λ m c w. insert-All (λ k d. k ≡ d.id) c.id c m refl w) hs [] tt

  -- For each hostname that has a best match the result has a certificate with its identifier.
  pub find_all_covers :
      (hs : List String) (h : String) (c : CertificateSummary)
      → In h hs
      → found h ≡ some c
      → Any (λ d. d.id ≡ c.id) (find_best_matching_certificates verifies now cs hs)
  unfolding find_best_matching_certificates
  find_all_covers hs h c i e =
      HasKey-values c.id (collect verifies now cs hs []) (collect-IsKeyed hs)
        (collect-HasKey hs [] h c i e)

  avoids_values :
      (k : String) (m : Dict CertificateSummary)
      → IsKeyed m
      → All (λ e. e.0 ≢ k) m
      → All (λ i. i ≢ k) (map (λ d. d.id) (map (λ e. e.1) m))
  avoids_values k [] w a = tt
  avoids_values k (e ∷ m) w a = ((λ p. a.0 (w.0 ∙ p)), avoids_values k m w.1 a.1)

  values-Distinct :
      (m : Dict CertificateSummary)
      → IsKeyed m
      → IsDict m
      → Distinct (map (λ d. d.id) (map (λ e. e.1) m))
  values-Distinct [] w d = tt
  values-Distinct (e ∷ m) w d = (
    avoids_values e.1.id m w.1 (All-imp m (λ f n p. n (p ∙ sym w.0)) d.0),
    values-Distinct m w.1 d.1,
  )

  -- The result holds no certificate twice: its identifiers are distinct.
  pub find_all-Distinct :
      (hs : List String)
      → Distinct (map (λ d. d.id) (find_best_matching_certificates verifies now cs hs))
  unfolding find_best_matching_certificates
  find_all-Distinct hs =
      values-Distinct (collect verifies now cs hs []) (collect-IsKeyed hs)
        (collect_inv IsDict (λ m c d. insert-IsDict c.id c m d) hs [] tt)
