-- ===== src/Prelude/Lists.antt =====
-- Lists measured by native numbers, predicates by recursion, and tests that run.
use Prim.Native.Nat.{ℕ, suc, ◌+◌}
use mathlib.Core.Path.{◌≡◌, refl, sym, ap, subst}
use mathlib.Core.Logic.{◌⊎◌, inl, inr}
use mathlib.Core.Bool.{Bool, true, false, ◌&&◌, ◌||◌}
use mathlib.Core.List.{List, [], ◌∷◌, ◌++◌, map}
use native.Mathlib.Omega.{arith}
use kube_ingress_aws_control.Prelude.Tests.{if◌then◌else◌, Bool-cases}

module _ {ℓ} {A : Type ℓ} where
  abbrev pub length : List A → ℕ
  length [] = 0
  length (x ∷ xs) = suc (length xs)

  abbrev pub any : (A → Bool) → List A → Bool
  any p [] = false
  any p (x ∷ xs) = p x || any p xs

  abbrev pub all : (A → Bool) → List A → Bool
  all p [] = true
  all p (x ∷ xs) = p x && all p xs

  -- The loop `for … { if p(x) { out = append(out, x) } }`.
  abbrev pub keep : (A → Bool) → List A → List A
  keep p [] = []
  keep p (x ∷ xs) = let rest = keep p xs in if p x then x ∷ rest else rest

  pub length-append : (xs ys : List A) → length (xs ++ ys) ≡ length xs + length ys
  length-append [] ys = omega arith
  length-append (x ∷ xs) ys = omega (arith, length-append xs ys)

module _ {ℓ κ} {A : Type ℓ} (P : A → Type κ) where
  abbrev pub All : List A → Type κ
  All [] = Unit
  All (x ∷ xs) = P x × All xs

module _ {ℓ} {A : Type ℓ} (P : A → Type 0) where
  abbrev pub Any : List A → Type 0
  Any [] = ⊥
  Any (x ∷ xs) = P x ⊎ Any xs

module _ {ℓ κ} {A : Type ℓ} (P : A → Type κ) where
  pub All-append : (xs ys : List A) → All P xs → All P ys → All P (xs ++ ys)
  All-append [] ys _ k = k
  All-append (x ∷ xs) ys h k = (h.0, All-append xs ys h.1 k)

  pub All-lookup : (xs : List A) → ((x : A) → P x) → All P xs
  All-lookup [] h = tt
  All-lookup (x ∷ xs) h = (h x, All-lookup xs h)

module _ {ℓ κ μ} {A : Type ℓ} {P : A → Type κ} {Q : A → Type μ} where
  pub All-imp : (xs : List A) → ((x : A) → P x → Q x) → All P xs → All Q xs
  All-imp [] f h = tt
  All-imp (x ∷ xs) f h = (f x h.0, All-imp xs f h.1)

-- `x` stands in the list.
abbrev pub In : {A : Type 0} → A → List A → Type 0
In x = Any (λ y. y ≡ x)

module _ {A : Type 0} where
  pub All_at : (P : A → Type 0) (x : A) (xs : List A) → All P xs → In x xs → P x
  All_at P x (y ∷ ys) h (inl e) = subst P e h.0
  All_at P x (y ∷ ys) h (inr i) = All_at P x ys h.1 i
  All_at P x [] h i = absurd i

  pub All-of : (P : A → Type 0) (xs : List A) → ((x : A) → In x xs → P x) → All P xs
  All-of P [] f = tt
  All-of P (x ∷ xs) f = (f x (inl refl), All-of P xs (λ y i. f y (inr i)))

  pub In-append_left : (x : A) (xs ys : List A) → In x xs → In x (xs ++ ys)
  In-append_left x (y ∷ xs) ys (inl e) = inl e
  In-append_left x (y ∷ xs) ys (inr i) = inr (In-append_left x xs ys i)
  In-append_left x [] ys i = absurd i

  pub In-append_right : (x : A) (xs ys : List A) → In x ys → In x (xs ++ ys)
  In-append_right x [] ys i = i
  In-append_right x (y ∷ xs) ys i = inr (In-append_right x xs ys i)

  pub In-append : (x : A) (xs ys : List A) → In x (xs ++ ys) → In x xs ⊎ In x ys
  In-append x [] ys i = inr i
  In-append x (y ∷ xs) ys (inl e) = inl (inl e)
  In-append x (y ∷ xs) ys (inr i) = elim (In-append x xs ys i) [
    | inl j ↦ inl (inr j)
    | inr j ↦ inr j
  ]

  -- What `keep` keeps: the members that pass the test.
  pub keep_sound : (p : A → Bool) (x : A) (xs : List A) → In x (keep p xs) → In x xs × (p x ≡ true)
  keep_sound p x [] i = absurd i
  keep_sound p x (y ∷ ys) i = elim (Bool-cases (p y)) [
    | inl e ↦ kept (keep_sound p x ys) e (rw e at i)
    | inr e ↦ let h = keep_sound p x ys (rw e at i) in (inr h.0, h.1)
  ]
    where
      kept :
          (In x (keep p ys) → In x ys × (p x ≡ true))
          → p y ≡ true
          → In x (y ∷ keep p ys)
          → In x (y ∷ ys) × (p x ≡ true)
      kept ih e (inl h) = (inl h, subst (λ z. p z ≡ true) h e)
      kept ih e (inr j) = (inr (ih j).0, (ih j).1)

  pub keep_complete : (p : A → Bool) (x : A) (xs : List A) → In x xs → p x ≡ true → In x (keep p xs)
  keep_complete p x [] i h = absurd i
  keep_complete p x (y ∷ ys) (inl e) h = rw (subst (λ z. p z ≡ true) (sym e) h) (inl e)
  keep_complete p x (y ∷ ys) (inr i) h = elim (Bool-cases (p y)) [
    | inl e ↦ rw e (inr (keep_complete p x ys i h))
    | inr e ↦ rw e (keep_complete p x ys i h)
  ]

module _ {A B : Type 0} (f : A → B) where
  pub In-map : (b : B) (xs : List A) → In b (map f xs) → (a : A) × In a xs × (f a ≡ b)
  In-map b [] i = absurd i
  In-map b (x ∷ xs) (inl e) = (x, inl refl, e)
  In-map b (x ∷ xs) (inr i) = let (a, j, e) = In-map b xs i in (a, inr j, e)

  pub map-In : (a : A) (xs : List A) → In a xs → In (f a) (map f xs)
  map-In a (x ∷ xs) (inl e) = inl (ap f e)
  map-In a (x ∷ xs) (inr i) = inr (map-In a xs i)
  map-In a [] i = absurd i
