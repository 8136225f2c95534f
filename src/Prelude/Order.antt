-- ===== src/Prelude/Order.antt =====
-- The order of texts, and that sort.Strings does not depend on the order of what it sorts.
use Prim.Native.Nat.{Ordering}
use Prim.Native.String.compare
use Prim.Native.String.{String, compare}
use mathlib.Core.Path.{◌≡◌, refl, sym, ◌∙◌, ap}
use mathlib.Core.Bool.{true, false}
use mathlib.Core.Logic.{◌⊎◌, inl, inr, ◌↔◌}
use kube_ingress_aws_control.Prelude.Lists.{In}
use kube_ingress_aws_control.Prelude.Tests.{Bool-cases}
use mathlib.Core.List.{List, [], ◌∷◌, Perm, foldr}
use mathlib.Core.List.Perm
use native.Mathlib.Omega.{arith}
use text.Mathlib.TextEquality.{path_by_compare, IsScalar-prop}
use text.Mathlib.TextPositions.{compare_refl}
use kube_ingress_aws_control.Prelude.Text.{before, insert_sorted, sort_strings}

lt_trans :
    (s t u : String)
    → compare s t ≡ Ordering.lt
    → compare t u ≡ Ordering.lt
    → compare s u ≡ Ordering.lt
lt_trans String.[] String.[] u h k = k
lt_trans String.[] (String.◌∷◌ d t) String.[] h k = cc (compare.cons-nil d t)
lt_trans String.[] (String.◌∷◌ d t) (String.◌∷◌ e u) h k = compare.nil-cons e u
lt_trans (String.◌∷◌ c s) String.[] u h k = cc (compare.cons-nil c s)
lt_trans (String.◌∷◌ c s) (String.◌∷◌ d t) String.[] h k = cc (compare.cons-nil d t)
lt_trans (String.◌∷◌ c s) (String.◌∷◌ d t) (String.◌∷◌ e u) h k =
    let h' = sym (compare.cons-cons c d s t) ∙ h in
    let k' = sym (compare.cons-cons d e t u) ∙ k in
    compare.cons-cons c e s u ∙ ground (arith, lt_trans s t u, h', k')

gt-lt : (s t : String) → compare s t ≡ Ordering.gt → compare t s ≡ Ordering.lt
gt-lt String.[] String.[] h = cc (compare_refl String.[])
gt-lt String.[] (String.◌∷◌ d t) h = cc (compare.nil-cons d t)
gt-lt (String.◌∷◌ c s) String.[] h = compare.nil-cons c s
gt-lt (String.◌∷◌ c s) (String.◌∷◌ d t) h =
    let h' = sym (compare.cons-cons c d s t) ∙ h in
    compare.cons-cons d c t s ∙ ground (arith, gt-lt s t, h')

-- The order is strict and total.
pub before_trans : (s t u : String) → before s t ≡ true → before t u ≡ true → before s u ≡ true
before_trans s t u h k = ground (arith, lt_trans s t u)

pub before_connected : (s t : String) → before s t ≡ false → before t s ≡ false → s ≡ t
before_connected s t h k = ground (arith, path_by_compare s t, gt-lt s t)

pub before_irrefl : (s : String) → before s s ≡ false
before_irrefl s = rw (compare_refl s, before) refl

-- Two insertions commute.
insert_sorted_comm :
    (s t : String) (l : List String)
    → insert_sorted s (insert_sorted t l) ≡ insert_sorted t (insert_sorted s l)
unfolding insert_sorted
insert_sorted_comm s t [] =
    ground (arith, before_connected s t, before_trans s t s, before_irrefl s)
insert_sorted_comm s t (u ∷ l) = ground (
  arith,
  insert_sorted_comm s t l,
  before_connected s t,
  before_trans s t s,
  before_irrefl s,
  before_trans u s t,
  before_trans u t s,
)

sort_strings-eq-foldr : (l : List String) → sort_strings l ≡ foldr insert_sorted [] l
unfolding sort_strings
sort_strings-eq-foldr [] = refl
sort_strings-eq-foldr (s ∷ l) = ap (insert_sorted s) (sort_strings-eq-foldr l)

-- Sorting forgets the order: lists with the same texts, each as often, are sorted to one list.
pub sort_strings-Perm : {l m : List String} → Perm l m → sort_strings l ≡ sort_strings m
sort_strings-Perm {l} {m} p =
    sort_strings-eq-foldr l
    ∙ Perm.foldr-eq (hlevel (IsScalar-prop)) insert_sorted insert_sorted_comm p []
    ∙ sym (sort_strings-eq-foldr m)

-- Sorting keeps the members.
insert_sorted-In : (t s : String) (l : List String) → In t (insert_sorted s l) → (s ≡ t) ⊎ In t l
unfolding insert_sorted
insert_sorted-In t s [] (inl e) = inl e
insert_sorted-In t s [] (inr i) = absurd i
insert_sorted-In t s (u ∷ l) i = elim (Bool-cases (before u s)) [
  | inl e ↦ later (insert_sorted-In t s l) (rw e at i)
  | inr e ↦ rw e at i
]
  where
    later :
        (In t (insert_sorted s l) → (s ≡ t) ⊎ In t l)
        → (u ≡ t) ⊎ In t (insert_sorted s l)
        → (s ≡ t) ⊎ ((u ≡ t) ⊎ In t l)
    later ih (inl e) = inr (inl e)
    later ih (inr j) = elim (ih j) [ inl e ↦ inl e | inr k ↦ inr (inr k) ]

In-insert_sorted : (t s : String) (l : List String) → (s ≡ t) ⊎ In t l → In t (insert_sorted s l)
unfolding insert_sorted
In-insert_sorted t s [] i = i
In-insert_sorted t s (u ∷ l) i = elim (Bool-cases (before u s)) [
  | inl e ↦ rw e (later (In-insert_sorted t s l) i)
  | inr e ↦ rw e i
]
  where
    later :
        ((s ≡ t) ⊎ In t l → In t (insert_sorted s l))
        → (s ≡ t) ⊎ ((u ≡ t) ⊎ In t l)
        → (u ≡ t) ⊎ In t (insert_sorted s l)
    later ih (inl e) = inr (ih (inl e))
    later ih (inr (inl e)) = inl e
    later ih (inr (inr j)) = inr (ih (inr j))

pub sort_strings-In : (t : String) (l : List String) → In t (sort_strings l) ↔ In t l
unfolding sort_strings
sort_strings-In t [] = (λ i. i, λ i. i)
sort_strings-In t (s ∷ l) =
    let ih = sort_strings-In t l in
    (
      λ i. elim (insert_sorted-In t s (sort_strings l) i) [ inl e ↦ inl e | inr j ↦ inr (ih.0 j) ],
      λ i. In-insert_sorted t s (sort_strings l) (elim i [ inl e ↦ inl e | inr j ↦ inr (ih.1 j) ]),
    )
