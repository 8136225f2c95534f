-- ===== src/Certs/Matching/Glob.antt =====
-- What a domain name of a certificate matches.
use Prim.Native.String
use text.Mathlib.TextLemmas.{
  nil-append, cons-append, cons-ne-nil, tail-eq_of_cons-eq, append_cancel_right,
}
use kube_ingress_aws_control.Prelude.{
  String, ◌≡◌, refl, sym, ap, ◌≢◌, ◌↔◌, ◌⊎◌, inl, inr, true, false, not, ◌==◌, arith, eq_iff,
  eq_refl, Bool-cases, has_suffix, trim_suffix, contains_char,
}
use kube_ingress_aws_control.Certs.Matching.{prefix_glob}

infixr 65 ◌^^◌
abbrev pub ◌^^◌ : String → String → String
s ^^ t = String.◌++◌ s t

abbrev pub NoDot : String → Type 0
NoDot s = contains_char b'.' s ≡ false

-- A text that has the suffix is what TrimSuffix leaves, and then the suffix.
trim_suffix-append : (s p : String) → has_suffix s p ≡ true → s ≡ trim_suffix s p ^^ p
unfolding has_suffix trim_suffix
trim_suffix-append String.[] p h = rw nil-append ((eq_iff String.[] p).0 h)
trim_suffix-append (String.◌∷◌ c s) p h = elim (Bool-cases (String.◌∷◌ c s == p)) [
  | inl e ↦ rw e (rw nil-append ((eq_iff _ p).0 e))
  | inr e ↦ rw e (rw cons-append (ap (String.◌∷◌ c) (trim_suffix-append s p (rw e at h))))
]

-- TrimSuffix leaves any other text alone.
trim_suffix_other : (s p : String) → has_suffix s p ≡ false → trim_suffix s p ≡ s
unfolding has_suffix trim_suffix
trim_suffix_other String.[] p h = refl
trim_suffix_other (String.◌∷◌ c s) p h = elim (Bool-cases (String.◌∷◌ c s == p)) [
  | inl e ↦ ground arith
  | inr e ↦ rw e (ap (String.◌∷◌ c) (trim_suffix_other s p (rw e at h)))
]

has_suffix_self : (p : String) → has_suffix p p ≡ true
unfolding has_suffix
has_suffix_self String.[] = eq_refl String.[]
has_suffix_self (String.◌∷◌ c s) = rw (eq_refl (String.◌∷◌ c s))

has_suffix-append : (l p : String) → has_suffix (l ^^ p) p ≡ true
unfolding has_suffix
has_suffix-append String.[] p = rw nil-append (has_suffix_self p)
has_suffix-append (String.◌∷◌ c l) p = rw cons-append (ground (arith, has_suffix-append l p))

trim_suffix_of_append : (l p : String) → trim_suffix (l ^^ p) p ≡ l
trim_suffix_of_append l p =
    sym (append_cancel_right _ _ p (trim_suffix-append (l ^^ p) p (has_suffix-append l p)))

-- The name "*" followed by p.
abbrev pub star : String → String
star p = String.◌∷◌ "*" p

ne_of_false : (s t : String) → s ≢ t → (s == t) ≡ false
ne_of_false s t h = ground (arith, eq_iff s t)

prefix_glob-star :
    (p s : String) → p ≢ "" → prefix_glob (star p) s ≡ not (contains_char b'.' (trim_suffix s p))
unfolding prefix_glob
prefix_glob-star p s h =
    rw
      (
        ne_of_false (star p) "" (λ e. cons-ne-nil "*" p e),
        ne_of_false (star p) "*" (λ e. h (tail-eq_of_cons-eq e)),
      )
      refl

-- A wildcard name, a star with something behind it, matches a text that is one label, free of dots, in front of what follows the
-- star; and it matches any text without a dot that does not end so.
pub prefix_glob-wildcard :
    (p s : String)
    → p ≢ ""
    → (prefix_glob (star p) s ≡ true)
      ↔ (((l : String) × (s ≡ l ^^ p) × NoDot l) ⊎ ((has_suffix s p ≡ false) × NoDot s))
prefix_glob-wildcard p s h = rw (prefix_glob-star p s h) (elim (Bool-cases (has_suffix s p)) [
  | inl e ↦
      ((λ m. inl (trim_suffix s p, trim_suffix-append s p e, ground arith)), (λ r. labelled r))
  | inr e ↦ ((λ m. inr (e, rw (← trim_suffix_other s p e) (ground arith))), (λ r. labelled r))
])
  where
    labelled :
        (((l : String) × (s ≡ l ^^ p) × NoDot l) ⊎ ((has_suffix s p ≡ false) × NoDot s))
        → not (contains_char b'.' (trim_suffix s p)) ≡ true
    labelled (inl (l, e, d)) = rw (e, trim_suffix_of_append l p, d)
    labelled (inr (e, d)) = rw (trim_suffix_other s p e, d)
