-- ===== src/Prelude/Text.antt =====
-- Package `strings` of the standard library, as far as the controller calls it, over native texts.
use Prim.Native.Nat.{ℕ, Ordering}
use Prim.Native.Char.{Char, code}
use Prim.Native.String.{String, compare}
use mathlib.Core.Bool.{Bool, true, false, ◌&&◌, ◌||◌}
use mathlib.Core.List.{List, [], ◌∷◌}
use text.Mathlib.Text.{◌==◌}
use kube_ingress_aws_control.Prelude.Tests.{eqb, leb, if◌then◌else◌}

-- strings.HasPrefix(s, p)
unfoldable pub has_prefix : String → String → Bool
has_prefix s String.[] = true
has_prefix String.[] (String.◌∷◌ d p) = false
has_prefix (String.◌∷◌ c s) (String.◌∷◌ d p) = eqb (code c) (code d) && has_prefix s p

-- What stands behind a prefix as long as p: `s[len(p):]`.
unfoldable pub drop_as : String → String → String
drop_as s String.[] = s
drop_as String.[] (String.◌∷◌ d p) = String.[]
drop_as (String.◌∷◌ c s) (String.◌∷◌ d p) = drop_as s p

-- strings.TrimPrefix(s, p)
unfoldable pub trim_prefix : String → String → String
unfolding has_prefix drop_as
trim_prefix s p = if has_prefix s p then drop_as s p else s

-- strings.HasSuffix(s, p)
unfoldable pub has_suffix : String → String → Bool
has_suffix String.[] p = String.[] == p
has_suffix (String.◌∷◌ c s) p = (String.◌∷◌ c s == p) || has_suffix s p

-- strings.TrimSuffix(s, p)
unfoldable pub trim_suffix : String → String → String
trim_suffix String.[] p = String.[]
trim_suffix (String.◌∷◌ c s) p =
    if String.◌∷◌ c s == p then String.[] else String.◌∷◌ c (trim_suffix s p)

-- strings.Contains(s, d) for a text d of one character, by its code
unfoldable pub contains_char : ℕ → String → Bool
contains_char d String.[] = false
contains_char d (String.◌∷◌ c s) = eqb (code c) d || contains_char d s

-- s < t, the order of `sort.Strings`
abbrev pub before : String → String → Bool
before s t = elim (compare s t) [ Ordering.lt ↦ true | _ ↦ false ]

-- sort.Strings, as the insertion that keeps equal texts in their order
unfoldable pub insert_sorted : String → List String → List String
insert_sorted s [] = s ∷ []
insert_sorted s (t ∷ ts) = if before t s then t ∷ insert_sorted s ts else s ∷ t ∷ ts

unfoldable pub sort_strings : List String → List String
unfolding insert_sorted
sort_strings [] = []
sort_strings (s ∷ ss) = insert_sorted s (sort_strings ss)

-- strings.Split(s, sep) for a separator of one character, by a test of the characters
unfoldable pub split_where : (Char → Bool) → String → List String
split_where sep String.[] = String.[] ∷ []
split_where sep (String.◌∷◌ c s) = put (sep c) (split_where sep s)
  where
    put : Bool → List String → List String
    put true parts = String.[] ∷ parts
    put false [] = []
    put false (part ∷ parts) = String.◌∷◌ c part ∷ parts

-- unicode.IsSpace
abbrev pub is_space : Char → Bool
is_space c =
    leb 9 (code c) && leb (code c) 13
    || eqb (code c) 32
    || eqb (code c) 133
    || eqb (code c) 160
    || eqb (code c) 5760
    || leb 8192 (code c) && leb (code c) 8202
    || eqb (code c) 8232
    || eqb (code c) 8233
    || eqb (code c) 8239
    || eqb (code c) 8287
    || eqb (code c) 12288

abbrev pub non_empty : List String → List String
non_empty [] = []
non_empty (s ∷ ss) = let rest = non_empty ss in if s == "" then rest else s ∷ rest

-- strings.Fields
unfoldable pub fields : String → List String
unfolding split_where
fields s = non_empty (split_where is_space s)
