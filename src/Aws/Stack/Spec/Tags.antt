-- ===== src/Aws/Stack/Spec/Tags.antt =====
-- The tags of a stack: their keys, and the map that is read back from a list of them.
use Prim.Native.Char.{Char, code}
use Prim.Native.String
use text.Mathlib.TextLemmas.{nil-append, cons-append}
use text.Mathlib.TextEquality.{Char-path}
use kube_ingress_aws_control.Prelude.{
  String, ◌≡◌, refl, sym, ◌∙◌, ◌≢◌, true, false, some, List, [], ◌∷◌, ◌++◌, ◌==◌, arith, eq_iff,
  eqb, All, All-imp, inl, inr, Bool-cases, has_prefix, drop_as, trim_prefix,
}
use kube_ingress_aws_control.Prelude.Dict.{Dict, lookup, insert, lookup-insert}
use kube_ingress_aws_control.Prelude.Dict.Laws.{IsDict, insert-IsDict}
use kube_ingress_aws_control.Aws.Stack.{to_map_from}

infixr 65 ◌^^◌
abbrev pub ◌^^◌ : String → String → String
s ^^ t = String.◌++◌ s t

pub has_prefix-append : (p s : String) → has_prefix (p ^^ s) p ≡ true
unfolding has_prefix
has_prefix-append String.[] s = refl
has_prefix-append (String.◌∷◌ c p) s = rw cons-append (ground (arith, has_prefix-append p s))

pub drop_as-append : (p s : String) → drop_as (p ^^ s) p ≡ s
unfolding drop_as
drop_as-append String.[] s = nil-append s
drop_as-append (String.◌∷◌ c p) s = rw cons-append (drop_as-append p s)

pub trim_prefix-append : (p s : String) → trim_prefix (p ^^ s) p ≡ s
unfolding trim_prefix
trim_prefix-append p s = rw (has_prefix-append p s) (drop_as-append p s)

-- A text with the prefix is the prefix and what TrimPrefix leaves.
pub append-drop_as : (s p : String) → has_prefix s p ≡ true → s ≡ p ^^ drop_as s p
unfolding has_prefix drop_as
append-drop_as s String.[] h = sym (nil-append s)
append-drop_as String.[] (String.◌∷◌ d p) h = cc
append-drop_as (String.◌∷◌ c s) (String.◌∷◌ d p) h =
    rw (cons-append, ← Char-path c d (ground (arith, h)), ← append-drop_as s p (ground (arith, h)))
      refl

-- Texts that differ in their first character.
pub has_prefix_other :
    (c d : Char) (p s q : String)
    → eqb (code c) (code d) ≡ false
    → has_prefix (String.◌∷◌ c p ^^ s) (String.◌∷◌ d q) ≡ false
unfolding has_prefix
has_prefix_other c d p s q h = rw (cons-append, h) refl

pub has_prefix_first :
    (c : Char) (p s : String) → has_prefix (String.◌∷◌ c p ^^ s) (String.◌∷◌ c String.[]) ≡ true
unfolding has_prefix
has_prefix_first c p s = rw cons-append (ground arith)

pub to_map_from-append :
    (m : Dict String) (a b : List (String × String))
    → to_map_from m (a ++ b) ≡ to_map_from (to_map_from m a) b
unfolding to_map_from
to_map_from-append m [] b = refl
to_map_from-append m ((k, v) ∷ a) b = to_map_from-append (insert k v m) a b

pub to_map_from-IsDict :
    (m : Dict String) (l : List (String × String)) → IsDict m → IsDict (to_map_from m l)
unfolding to_map_from
to_map_from-IsDict m [] h = h
to_map_from-IsDict m ((k, v) ∷ l) h = to_map_from-IsDict (insert k v m) l (insert-IsDict k v m h)

-- Entries with other keys leave an entry alone.
pub lookup-to_map_from_absent :
    (k : String) (m : Dict String) (l : List (String × String))
    → All (λ e. (e.0 == k) ≡ false) l
    → lookup k (to_map_from m l) ≡ lookup k m
unfolding to_map_from
lookup-to_map_from_absent k m [] h = refl
lookup-to_map_from_absent k m ((j, v) ∷ l) h =
    lookup-to_map_from_absent k (insert j v m) l h.1 ∙ (lookup-insert j k v m ∙ rw h.0 refl)

-- An entry of a list without repeated keys is found.
pub lookup-to_map_from :
    (k v : String) (m d : Dict String)
    → IsDict d
    → lookup k d ≡ some v
    → lookup k (to_map_from m d) ≡ some v
unfolding to_map_from lookup
lookup-to_map_from k v m [] h e = cc
lookup-to_map_from k v m ((j, w) ∷ d) h e = elim (Bool-cases (j == k)) [
  | inr t ↦ lookup-to_map_from k v (insert j w m) d h.1 (rw t at e)
  | inl t ↦
      lookup-to_map_from_absent k (insert j w m) d
        (All-imp d (λ x n. other x.0 (λ q. n (q ∙ sym ((eq_iff j k).0 t)))) h.0)
      ∙ (lookup-insert j k w m ∙ rw t (rw t at e))
]
  where
    other : (x : String) → x ≢ k → (x == k) ≡ false
    other x n = ground (arith, eq_iff x k)
