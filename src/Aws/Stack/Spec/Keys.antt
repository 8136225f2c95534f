-- ===== src/Aws/Stack/Spec/Keys.antt =====
-- How a map of tags is read: which keys stand for certificates, and what is found under them.
use kube_ingress_aws_control.Prelude.{
  String, ◌≡◌, refl, sym, ap, ◌∙◌, ◌≢◌, subst, Bool, true, false, Option, none, some, [], ◌∷◌, ◌==◌,
  eq_iff, eq_refl, All, All-imp, Bool-cases, has_prefix, drop_as, trim_prefix, if◌then◌else◌, inl,
  inr, map,
}
use kube_ingress_aws_control.Prelude.Dict.{Dict, lookup, insert, or_default, lookup-insert}
use kube_ingress_aws_control.Prelude.Dict.Laws.{IsDict}
use kube_ingress_aws_control.Certs.{Time}
use kube_ingress_aws_control.Aws.Stack.{to_map_from}
use kube_ingress_aws_control.Aws.Stack.Reading.{
  read_tag, read_certificates, certificate_arn_tag_prefix, certificate_arn_tag_legacy,
}
use kube_ingress_aws_control.Aws.Stack.Spec.{Formats, certificate_tag}
use kube_ingress_aws_control.Aws.Stack.Spec.Tags.{
  ◌^^◌, has_prefix-append, trim_prefix-append, append-drop_as,
}

some-none : {a : String} → some a ≡ none → ⊥
some-none e = cc

abbrev pub cert_key : String → String
cert_key arn = certificate_arn_tag_prefix ^^ arn

absurd_bool : {b : Bool} → b ≡ false → b ≡ true → ⊥
absurd_bool p q = cc

-- Two texts of which one has a prefix and the other has not.
pub apart_by : (p j k : String) → has_prefix j p ≡ false → has_prefix k p ≡ true → (j == k) ≡ false
apart_by p j k a b = elim (Bool-cases (j == k)) [
  | inl e ↦ absurd (absurd_bool (subst (λ z. has_prefix z p ≡ false) ((eq_iff j k).0 e) a) b)
  | inr e ↦ e
]

pub apart_by_other :
    (p j k : String) → has_prefix j p ≡ true → has_prefix k p ≡ false → (j == k) ≡ false
apart_by_other p j k a b = elim (Bool-cases (j == k)) [
  | inl e ↦ absurd (absurd_bool b (subst (λ z. has_prefix z p ≡ true) ((eq_iff j k).0 e) a))
  | inr e ↦ e
]

pub lookup_missing : (k : String) (d : Dict String) → All (λ e. e.0 ≢ k) d → lookup k d ≡ none
unfolding lookup
lookup_missing k [] h = refl
lookup_missing k ((j, v) ∷ d) h = elim (Bool-cases (j == k)) [
  | inl e ↦ absurd (h.0 ((eq_iff j k).0 e))
  | inr e ↦ rw e (lookup_missing k d h.1)
]

lookup-cons :
    (k j v : String) (d : Dict String)
    → lookup k ((j, v) ∷ d) ≡ (if j == k then some v else lookup k d)
unfolding lookup
lookup-cons k j v d = refl

split_missing :
    (k j v : String) (d : Dict String)
    → lookup k ((j, v) ∷ d) ≡ none
    → ((j == k) ≡ false) × (lookup k d ≡ none)
unfolding lookup
split_missing k j v d e = elim (Bool-cases (j == k)) [
  | inl t ↦ absurd (some-none (rw t at e))
  | inr t ↦ (t, rw t at e)
]

pub lookup-to_map_from-none :
    (k : String) (m d : Dict String) → lookup k d ≡ none → lookup k (to_map_from m d) ≡ lookup k m
unfolding lookup to_map_from
lookup-to_map_from-none k m [] e = refl
lookup-to_map_from-none k m ((j, w) ∷ d) e = elim (Bool-cases (j == k)) [
  | inl t ↦ absurd (some-none (rw t at e))
  | inr t ↦
      lookup-to_map_from-none k (insert j w m) d (rw t at e) ∙ (lookup-insert j k w m ∙ rw t refl)
]

abbrev pub as_tag : (Time → String) → Option Time → Option String
as_tag format none = none
as_tag format (some t) = some (format t)

pub cert_key-inj : (a b : String) → cert_key a ≡ cert_key b → a ≡ b
cert_key-inj a b e =
    sym (trim_prefix-append certificate_arn_tag_prefix a)
    ∙ (ap (λ z. trim_prefix z certificate_arn_tag_prefix) e
        ∙ trim_prefix-append certificate_arn_tag_prefix b)

pub cert_key-== : (a b : String) → (cert_key a == cert_key b) ≡ (a == b)
cert_key-== a b = elim (Bool-cases (a == b)) [
  | inl e ↦ rw (e, (eq_iff a b).0 e, eq_refl (cert_key b)) refl
  | inr e ↦ elim (Bool-cases (cert_key a == cert_key b)) [
    | inl t ↦
        absurd (
          absurd_bool e
            ((eq_iff a b).1 (cert_key-inj a b ((eq_iff (cert_key a) (cert_key b)).0 t))))
    | inr t ↦ t ∙ sym e
  ]
]

module _ (f : Formats) where
  pub lookup-certificate_tags :
      (arn : String) (certs : Dict Time)
      → lookup (cert_key arn) (map (certificate_tag f) certs)
        ≡ as_tag f.format_time (lookup arn certs)
  unfolding lookup
  lookup-certificate_tags arn [] = refl
  lookup-certificate_tags arn ((a, t) ∷ certs) = elim (Bool-cases (a == arn)) [
    | inl e ↦ rw (cert_key-== a arn, e) refl
    | inr e ↦ rw (cert_key-== a arn, e) (lookup-certificate_tags arn certs)
  ]

  pub certificate_tags-IsDict :
      (certs : Dict Time) → IsDict certs → IsDict (map (certificate_tag f) certs)
  certificate_tags-IsDict [] h = tt
  certificate_tags-IsDict ((a, t) ∷ certs) h = (avoids certs h.0, certificate_tags-IsDict certs h.1)
    where
      avoids :
          (l : Dict Time)
          → All (λ e. e.0 ≢ a) l
          → All (λ e. e.0 ≢ cert_key a) (map (certificate_tag f) l)
      avoids [] g = tt
      avoids ((b, u) ∷ l) g = ((λ e. g.0 (cert_key-inj b a e)), avoids l g.1)

same_key :
    (arn key : String)
    → has_prefix key certificate_arn_tag_prefix ≡ true
    → (drop_as key certificate_arn_tag_prefix == arn) ≡ (key == cert_key arn)
same_key arn key p =
    let x = drop_as key certificate_arn_tag_prefix in
    (sym (cert_key-== x arn)
      ∙ ap (λ z. z == cert_key arn) (sym (append-drop_as key certificate_arn_tag_prefix p)))

module _ (parse_time : String → Option Time) where
  abbrev pub read_value : Option String → Option Time → Option Time
  read_value none o = o
  read_value (some v) o = some (or_default 0 (parse_time v))

  read_tag-lookup :
      (arn key value : String) (m : Dict Time)
      → (key == certificate_arn_tag_legacy) ≡ false
      → lookup arn (read_tag parse_time key value m)
        ≡ (if key == cert_key arn then some (or_default 0 (parse_time value)) else lookup arn m)
  unfolding read_tag
  read_tag-lookup arn key value m l =
      elim (Bool-cases (has_prefix key certificate_arn_tag_prefix)) [
        | inl p ↦
            rw (l, p)
              (lookup-insert (drop_as key certificate_arn_tag_prefix) arn
                  (or_default 0 (parse_time value)) m
                ∙ rw (same_key arn key p) refl)
        | inr p ↦
            rw
              (
                l,
                p,
                apart_by certificate_arn_tag_prefix key (cert_key arn) p
                    (has_prefix-append certificate_arn_tag_prefix arn),
              )
              refl
      ]

  read_nil :
      (arn : String) (m : Dict Time)
      → lookup arn m ≡ read_value (lookup (cert_key arn) []) (lookup arn m)
  unfolding lookup
  read_nil arn m = refl

  pub read-lookup :
      (arn : String) (d : Dict String) (m : Dict Time)
      → IsDict d
      → lookup certificate_arn_tag_legacy d ≡ none
      → lookup arn (read_certificates parse_time d m)
        ≡ read_value (lookup (cert_key arn) d) (lookup arn m)
  unfolding read_certificates
  read-lookup arn [] m h l = read_nil arn m
  read-lookup arn ((key, value) ∷ d) m h l =
      let (n, l') = split_missing certificate_arn_tag_legacy key value d l in
      read-lookup arn d (read_tag parse_time key value m) h.1 l'
      ∙ rw (read_tag-lookup arn key value m n) (head (lookup-cons (cert_key arn) key value d))
    where
      head :
          lookup (cert_key arn) ((key, value) ∷ d)
            ≡ (if key == cert_key arn then some value else lookup (cert_key arn) d)
          → read_value
              (lookup (cert_key arn) d)
              (if key == cert_key arn then some (or_default 0 (parse_time value)) else lookup arn m)
            ≡ read_value (lookup (cert_key arn) ((key, value) ∷ d)) (lookup arn m)
      head e = elim (Bool-cases (key == cert_key arn)) [
        | inr t ↦ rw (e, t) refl
        | inl t ↦
            rw
              (
                e,
                t,
                lookup_missing (cert_key arn) d
                    (All-imp d (λ x n. λ q. n (q ∙ sym ((eq_iff key (cert_key arn)).0 t))) h.0),
              )
              refl
      ]
