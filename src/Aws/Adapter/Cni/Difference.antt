-- ===== src/Aws/Adapter/Cni/Difference.antt =====
-- Which elements the difference of two lists has.
use kube_ingress_aws_control.Prelude.{
  String, ◌≡◌, refl, ap, ◌↔◌, ◌⊎◌, inl, inr, Bool, true, false, not, List, [], ◌∷◌, ◌==◌, eq_iff,
  any, keep, In, keep_sound, keep_complete, Bool-cases,
}
use kube_ingress_aws_control.Aws.Adapter.Cni.{difference}

any_iff-In : (x : String) (b : List String) → (any (λ y. y == x) b ≡ true) ↔ In x b
any_iff-In x b = (to b, from b)
  where
    to : (c : List String) → any (λ z. z == x) c ≡ true → In x c
    to [] e = cc
    to (y ∷ c) e = elim (Bool-cases (y == x)) [
      | inl t ↦ inl ((eq_iff y x).0 t)
      | inr f ↦ inr (to c (rw f at e))
    ]

    from : (c : List String) → In x c → any (λ z. z == x) c ≡ true
    from [] i = absurd i
    from (y ∷ c) (inl e) = rw ((eq_iff y x).1 e) refl
    from (y ∷ c) (inr i) = elim (Bool-cases (y == x)) [
      | inl t ↦ rw t refl
      | inr f ↦ rw f (from c i)
    ]

pub In-cases : (x : String) (b : List String) → In x b ⊎ ¬ (In x b)
In-cases x b = elim (Bool-cases (any (λ y. y == x) b)) [
  | inl t ↦ inl ((any_iff-In x b).0 t)
  | inr f ↦ let from = (any_iff-In x b).1 in inr (λ i. both (from i) f)
]
  where
    both : {t : Bool} → t ≡ true → t ≡ false → ⊥
    both e f = cc

pub In-difference : (x : String) (a b : List String) → In x (difference a b) ↔ (In x a × ¬ (In x b))
unfolding difference
In-difference x a b = (to, from)
  where
    apart : String → Bool
    apart y = not (any (λ z. z == y) b)

    both : {t : Bool} → t ≡ true → not t ≡ true → ⊥
    both e f = cc

    to : In x (keep apart a) → In x a × ¬ (In x b)
    to i = let h = keep_sound apart x a i in (h.0, λ j. both ((any_iff-In x b).1 j) h.1)

    from : In x a × ¬ (In x b) → In x (keep apart a)
    from (i, n) = elim (Bool-cases (any (λ z. z == x) b)) [
      | inl t ↦ absurd (n ((any_iff-In x b).0 t))
      | inr f ↦ keep_complete apart x a i (ap not f)
    ]
