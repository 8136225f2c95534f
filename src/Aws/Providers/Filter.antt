-- ===== src/Aws/Providers/Filter.antt =====
-- Loops over the answers of an API, and the certificates that have a tag.
use kube_ingress_aws_control.Prelude.{
  String, ◌≡◌, refl, sym, ◌∙◌, ap, subst, ◌↔◌, inl, inr, true, Option, none, some, List, [], ◌∷◌,
  ◌++◌, any, In, In-append, In-append_left, In-append_right, Result, ok, err, ◌>>=◌, >>=-eq-ok,
  ok_eq, Bool-cases,
}
use kube_ingress_aws_control.Certs.{X509}
use kube_ingress_aws_control.Aws.Asg.{AwsError}
use kube_ingress_aws_control.Aws.Providers.{
  of_api, each, AcmApi, is_tag, times_tagged, filter_certificates_by_tag,
}

pub of_api-ok : {A : Type 0} (r : Result AwsError A) {a : A} → of_api r ≡ ok a → r ≡ ok a
of_api-ok (err e) h = cc
of_api-ok (ok b) h = ap ok (ok_eq h)

module _ {E A B : Type 0} (f : A → Result E B) where
  -- The results of a loop without an error are those of its items.
  pub In-each :
      (as' : List A) (bs : List B)
      → each f as' ≡ ok bs
      → (b : B) → In b bs ↔ ((a : A) × In a as' × (f a ≡ ok b))
  unfolding each
  In-each [] bs e b = (λ i. absurd (subst (In b) (sym (ok_eq e)) i), λ h. absurd h.1)
  In-each (a ∷ as') bs e b =
      let (c, p, e') = >>=-eq-ok (f a) (λ c. each f as' >>= λ cs. ok (c ∷ cs)) e in
      let (cs, q, e'') = >>=-eq-ok (each f as') (λ cs. ok (c ∷ cs)) e' in
      subst (λ l. In b l ↔ ((d : A) × In d (a ∷ as') × (f d ≡ ok b))) (ok_eq e'')
        (joined c cs p (In-each as' cs q b))
    where
      joined :
          (c : B) (cs : List B)
          → f a ≡ ok c
          → In b cs ↔ ((d : A) × In d as' × (f d ≡ ok b))
          → In b (c ∷ cs) ↔ ((d : A) × In d (a ∷ as') × (f d ≡ ok b))
      joined c cs p ih = (to, from)
        where
          to : In b (c ∷ cs) → (d : A) × In d (a ∷ as') × (f d ≡ ok b)
          to (inl s) = (a, inl refl, p ∙ ap ok s)
          to (inr i) = let (d, j, q) = ih.0 i in (d, inr j, q)

          from : ((d : A) × In d (a ∷ as') × (f d ≡ ok b)) → In b (c ∷ cs)
          from (d, inl s, q) = inl (ok_eq (sym p ∙ (ap f s ∙ q)))
          from (d, inr j, q) = inr (ih.1 (d, j, q))

In-times_tagged :
    (x arn : String) (wanted : String × String) (tags : List (String × String))
    → In x (times_tagged arn wanted tags) ↔ ((arn ≡ x) × (any (is_tag wanted) tags ≡ true))
unfolding times_tagged
In-times_tagged x arn wanted [] = (λ i. absurd i, λ h. cc)
In-times_tagged x arn wanted (tag ∷ tags) = elim (Bool-cases (is_tag wanted tag)) [
  | inl t ↦ rw t (to_first (In-times_tagged x arn wanted tags), λ h. inl h.0)
  | inr f ↦ rw f (In-times_tagged x arn wanted tags)
]
  where
    to_first :
        In x (times_tagged arn wanted tags) ↔ ((arn ≡ x) × (any (is_tag wanted) tags ≡ true))
        → In x (arn ∷ times_tagged arn wanted tags)
        → (arn ≡ x) × (true ≡ true)
    to_first ih (inl s) = (s, refl)
    to_first ih (inr i) = ((ih.0 i).0, refl)

-- A certificate passes the filter: there is none, or one of the certificate's tags is the wanted
-- one.
abbrev pub Passes :
    (String → Result AwsError (List (String × String))) → Option (String × String) → String → Type 0
Passes list_tags none name = Unit
Passes list_tags (some wanted) name =
    (tags : List (String × String)) × (list_tags name ≡ ok tags) × (any (is_tag wanted) tags ≡ true)

module _ (pem_blocks : String → List String) (x509_parse : String → Result String X509) where
  pub In-filter :
      (api : AcmApi) (wanted : String × String) (arns rest : List String)
      → filter_certificates_by_tag pem_blocks x509_parse api wanted arns ≡ ok rest
      → (x : String)
      → In x rest ↔ (In x arns × Passes api.list_tags_for_certificate (some wanted) x)
  unfolding filter_certificates_by_tag
  In-filter api wanted [] rest e x = (λ i. absurd (subst (In x) (sym (ok_eq e)) i), λ h. absurd h.0)
  In-filter api wanted (arn ∷ arns) rest e x =
      let (tags, p, e') = >>=-eq-ok (of_api (api.list_tags_for_certificate arn)) _ e in
      let (more, q, e'') =
        >>=-eq-ok (filter_certificates_by_tag pem_blocks x509_parse api wanted arns) _ e' in
      subst
        (λ l. In x l ↔ (In x (arn ∷ arns) × Passes api.list_tags_for_certificate (some wanted) x))
        (ok_eq e'')
        (joined tags more (of_api-ok (api.list_tags_for_certificate arn) p)
          (In-filter api wanted arns more q x))
    where
      joined :
          (tags : List (String × String)) (more : List String)
          → api.list_tags_for_certificate arn ≡ ok tags
          → In x more ↔ (In x arns × Passes api.list_tags_for_certificate (some wanted) x)
          → In x (times_tagged arn wanted tags ++ more)
            ↔ (In x (arn ∷ arns) × Passes api.list_tags_for_certificate (some wanted) x)
      joined tags more p ih = (to, from)
        where
          to :
              In x (times_tagged arn wanted tags ++ more)
              → In x (arn ∷ arns) × Passes api.list_tags_for_certificate (some wanted) x
          to i = elim (In-append x (times_tagged arn wanted tags) more i) [
            | inl j ↦
                let (s, t) = (In-times_tagged x arn wanted tags).0 j in
                (inl s, (tags, ap api.list_tags_for_certificate (sym s) ∙ p, t))
            | inr j ↦ let (k, h) = ih.0 j in (inr k, h)
          ]

          from :
              In x (arn ∷ arns) × Passes api.list_tags_for_certificate (some wanted) x
              → In x (times_tagged arn wanted tags ++ more)
          from (inl s, (tags', p', t)) = In-append_left x (times_tagged arn wanted tags) more (
              (In-times_tagged x arn wanted tags).1 (
                s,
                subst (λ l. any (is_tag wanted) l ≡ true)
                    (ok_eq (sym p' ∙ (ap api.list_tags_for_certificate (sym s) ∙ p))) t,
              ))
          from (inr k, h) = In-append_right x (times_tagged arn wanted tags) more (ih.1 (k, h))
