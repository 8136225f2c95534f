-- ===== src/Prelude/Dict/Laws.antt =====
-- Laws of the maps: what an assignment keeps, and which keys are there.
use Prim.Native.Nat.{suc}
use Prim.Native.String.{String}
use mathlib.Core.Path.{◌≡◌, refl, sym, ap, subst}
use mathlib.Core.Logic.{◌≢◌, ◌⊎◌, inl, inr, ◌↔◌}
use mathlib.Core.Bool.{Bool, true, false}
use mathlib.Core.Option.{some}
use mathlib.Core.List.{[], ◌∷◌}
use native.Mathlib.Omega.{arith}
use text.Mathlib.Text.{◌==◌}
use text.Mathlib.TextEquality.{eq_iff}
use kube_ingress_aws_control.Prelude.Tests.{if◌then◌else◌, Bool-cases, some_eq}
use kube_ingress_aws_control.Prelude.Lists.{length, keep, All, Any, In, All_at}
use kube_ingress_aws_control.Prelude.Dict.{Dict, keys, lookup, insert, has_key}

pub ==_false : (s t : String) → (s == t) ≡ false → s ≢ t
==_false s t h e = ground (arith, eq_iff s t)

module _ {ℓ} {V : Type ℓ} where
  -- The key stands in the map.
  abbrev pub HasKey : String → Dict V → Type 0
  HasKey k = Any (λ e. e.0 ≡ k)

  -- No key stands in the list twice: what a Go map is.
  abbrev pub IsDict : Dict V → Type 0
  IsDict [] = Unit
  IsDict ((k, v) ∷ m) = All (λ e. e.0 ≢ k) m × IsDict m

  pub insert-HasKey_self : (k : String) (v : V) (m : Dict V) → HasKey k (insert k v m)
  unfolding insert
  insert-HasKey_self k v [] = inl refl
  insert-HasKey_self k v ((j, w) ∷ m) = elim (Bool-cases (j == k)) [
    | inl e ↦ rw e (inl ((eq_iff j k).0 e))
    | inr e ↦ rw e (inr (insert-HasKey_self k v m))
  ]

  pub insert-HasKey : (j k : String) (v : V) (m : Dict V) → HasKey j m → HasKey j (insert k v m)
  unfolding insert
  insert-HasKey j k v [] h = absurd h
  insert-HasKey j k v ((i, w) ∷ m) (inl e) = elim (Bool-cases (i == k)) [
    | inl t ↦ rw t (inl e)
    | inr t ↦ rw t (inl e)
  ]
  insert-HasKey j k v ((i, w) ∷ m) (inr h) = elim (Bool-cases (i == k)) [
    | inl t ↦ rw t (inr h)
    | inr t ↦ rw t (inr (insert-HasKey j k v m h))
  ]

  -- The new map has the old keys and the new one.
  pub HasKey-insert :
      (j k : String) (v : V) (m : Dict V) → HasKey j (insert k v m) → (k ≡ j) ⊎ HasKey j m
  unfolding insert
  HasKey-insert j k v [] (inl e) = inl e
  HasKey-insert j k v [] (inr h) = absurd h
  HasKey-insert j k v ((i, w) ∷ m) h = elim (Bool-cases (i == k)) [
    | inl t ↦ inr (rw t at h)
    | inr t ↦ later (HasKey-insert j k v m) (rw t at h)
  ]
    where
      later :
          (HasKey j (insert k v m) → (k ≡ j) ⊎ HasKey j m)
          → (i ≡ j) ⊎ HasKey j (insert k v m)
          → (k ≡ j) ⊎ HasKey j ((i, w) ∷ m)
      later ih (inl e) = inr (inl e)
      later ih (inr g) = elim (ih g) [ inl e ↦ inl e | inr f ↦ inr (inr f) ]

  insert-avoids :
      (j k : String) (v : V) (m : Dict V)
      → k ≢ j
      → All (λ e. e.0 ≢ j) m
      → All (λ e. e.0 ≢ j) (insert k v m)
  unfolding insert
  insert-avoids j k v [] n h = (n, tt)
  insert-avoids j k v ((i, w) ∷ m) n h = elim (Bool-cases (i == k)) [
    | inl t ↦ rw t h
    | inr t ↦ rw t (h.0, insert-avoids j k v m n h.1)
  ]

  pub insert-IsDict : (k : String) (v : V) (m : Dict V) → IsDict m → IsDict (insert k v m)
  unfolding insert
  insert-IsDict k v [] h = (tt, tt)
  insert-IsDict k v ((i, w) ∷ m) h = elim (Bool-cases (i == k)) [
    | inl t ↦ rw t h
    | inr t ↦
        rw t (insert-avoids i k v m (λ e. ==_false i k t (sym e)) h.0, insert-IsDict k v m h.1)
  ]

  -- A predicate of the entries holds after an assignment.
  pub insert-All {κ} :
      (P : String → V → Type κ) (k : String) (v : V) (m : Dict V)
      → P k v
      → All (λ e. P e.0 e.1) m
      → All (λ e. P e.0 e.1) (insert k v m)
  unfolding insert
  insert-All P k v [] p h = (p, tt)
  insert-All P k v ((i, w) ∷ m) p h = elim (Bool-cases (i == k)) [
    | inl t ↦ rw t (rw ((eq_iff i k).0 t) p, h.1)
    | inr t ↦ rw t (h.0, insert-All P k v m p h.1)
  ]

  pub lookup-All {κ} :
      (P : String → V → Type κ) (k : String) (v : V) (m : Dict V)
      → All (λ e. P e.0 e.1) m
      → lookup k m ≡ some v
      → P k v
  unfolding lookup
  lookup-All P k v [] h e = cc
  lookup-All P k v ((i, w) ∷ m) h e = elim (Bool-cases (i == k)) [
    | inl t ↦ rw (← (eq_iff i k).0 t) (subst (P i) (some_eq (rw t at e)) h.0)
    | inr t ↦ lookup-All P k v m h.1 (rw t at e)
  ]

  -- The key stands in the map exactly if the test says so.
  pub HasKey-has_key : (k : String) (m : Dict V) → HasKey k m → has_key k m ≡ true
  unfolding has_key
  HasKey-has_key k [] h = absurd h
  HasKey-has_key k ((i, w) ∷ m) (inl e) = rw ((eq_iff i k).1 e)
  HasKey-has_key k ((i, w) ∷ m) (inr h) = elim (Bool-cases (i == k)) [
    | inl t ↦ rw t
    | inr t ↦ rw t (HasKey-has_key k m h)
  ]

  pub has_key-HasKey : (k : String) (m : Dict V) → has_key k m ≡ true → HasKey k m
  unfolding has_key
  has_key-HasKey k [] h = cc
  has_key-HasKey k ((i, w) ∷ m) h = elim (Bool-cases (i == k)) [
    | inl t ↦ inl ((eq_iff i k).0 t)
    | inr t ↦ inr (has_key-HasKey k m (rw t at h))
  ]

  -- How an assignment changes the number of entries.
  pub length-insert :
      (k : String) (v : V) (m : Dict V)
      → length (insert k v m) ≡ (if has_key k m then length m else suc (length m))
  unfolding insert has_key
  length-insert k v [] = refl
  length-insert k v ((i, w) ∷ m) = ground (arith, length-insert k v m)

module _ {V : Type 0} where
  -- What a map holds for a key is one of its entries, and the only one for that key.
  pub lookup-In : (k : String) (v : V) (m : Dict V) → lookup k m ≡ some v → In (k, v) m
  unfolding lookup
  lookup-In k v [] e = cc
  lookup-In k v ((i, w) ∷ m) e = elim (Bool-cases (i == k)) [
    | inl t ↦ inl (pair ((eq_iff i k).0 t) (some_eq (rw t at e)))
    | inr t ↦ inr (lookup-In k v m (rw t at e))
  ]
    where
      pair : i ≡ k → w ≡ v → ◌≡◌ {A = String × V} (i, w) (k, v)
      pair p q = rw (p, q) refl

  pub In-lookup : (k : String) (v : V) (m : Dict V) → IsDict m → In (k, v) m → lookup k m ≡ some v
  unfolding lookup
  In-lookup k v [] d i = absurd i
  In-lookup k v ((j, w) ∷ m) d (inl e) =
      rw ((eq_iff j k).1 (ap (λ p. p.0) e)) (ap some (ap (λ p. p.1) e))
  In-lookup k v ((j, w) ∷ m) d (inr i) = elim (Bool-cases (j == k)) [
    | inl t ↦ absurd (All_at (λ e. e.0 ≢ j) (k, v) m d.0 i (sym ((eq_iff j k).0 t)))
    | inr t ↦ rw t (In-lookup k v m d.1 i)
  ]

module _ {ℓ} {V : Type ℓ} where
  pub In-keys : (k : String) (m : Dict V) → In k (keys m) ↔ HasKey k m
  In-keys k [] = (λ i. i, λ i. i)
  In-keys k (e ∷ m) =
      let ih = In-keys k m in
      (
        λ i. elim i [ inl q ↦ inl q | inr j ↦ inr (ih.0 j) ],
        λ i. elim i [ inl q ↦ inl q | inr j ↦ inr (ih.1 j) ],
      )

  -- The keys of the entries whose keys pass a test.
  pub HasKey-keep :
      (q : String → Bool) (k : String) (m : Dict V)
      → HasKey k (keep (λ e. q e.0) m) ↔ (HasKey k m × (q k ≡ true))
  HasKey-keep q k [] = (λ i. absurd i, λ i. i.0)
  HasKey-keep q k ((i, w) ∷ m) = elim (Bool-cases (q i)) [
    | inl t ↦ rw t (passes t (HasKey-keep q k m))
    | inr t ↦ rw t (fails t (HasKey-keep q k m))
  ]
    where
      passes :
          q i ≡ true
          → HasKey k (keep (λ e. q e.0) m) ↔ (HasKey k m × (q k ≡ true))
          → ((i ≡ k) ⊎ HasKey k (keep (λ e. q e.0) m)) ↔ (((i ≡ k) ⊎ HasKey k m) × (q k ≡ true))
      passes t ih = (
        λ h. elim h [
          | inl e ↦ (inl e, subst (λ u. q u ≡ true) e t)
          | inr j ↦ (inr (ih.0 j).0, (ih.0 j).1)
        ],
        λ h. elim h.0 [ inl e ↦ inl e | inr j ↦ inr (ih.1 (j, h.1)) ],
      )

      fails :
          q i ≡ false
          → HasKey k (keep (λ e. q e.0) m) ↔ (HasKey k m × (q k ≡ true))
          → HasKey k (keep (λ e. q e.0) m) ↔ (((i ≡ k) ⊎ HasKey k m) × (q k ≡ true))
      fails t ih = (
        λ h. (inr (ih.0 h).0, (ih.0 h).1),
        λ h. elim h.0 [
          | inl e ↦ let u = subst (λ u. q u ≡ false) e t in let v = h.1 in cc
          | inr j ↦ ih.1 (j, h.1)
        ],
      )

  pub has_key_iff : (k : String) (m : Dict V) → (has_key k m ≡ true) ↔ HasKey k m
  has_key_iff k m = (has_key-HasKey k m, HasKey-has_key k m)
