-- ===== src/Prelude/Dict.antt =====
-- A Go map with text keys, as an association list. The order of the list stands for the order in
-- which a `range` over the map happens to run; a theorem over all lists holds for every order.
pub mod Laws
use Prim.Native.String.{String}
use mathlib.Core.Path.{◌≡◌, refl}
use mathlib.Core.Bool.{Bool, true, false}
use mathlib.Core.Option.{Option, none, some}
use mathlib.Core.List.{List, [], ◌∷◌, map}
use native.Mathlib.Omega.{arith}
use text.Mathlib.Text.{◌==◌}
use text.Mathlib.TextEquality.{eq_iff}
use kube_ingress_aws_control.Prelude.Tests.{if◌then◌else◌}

abbrev pub Dict {ℓ} : Type ℓ → Type ℓ
Dict V = List (String × V)

module _ {ℓ} {V : Type ℓ} where
  -- m[key] = value
  unfoldable pub insert : String → V → Dict V → Dict V
  insert key value [] = (key, value) ∷ []
  insert key value ((other, old) ∷ entries) =
      if other == key then (other, value) ∷ entries else (other, old) ∷ insert key value entries

  abbrev pub keys : Dict V → List String
  keys = map (λ e. e.0)

  -- the values, in the order of a `range`
  abbrev pub values : Dict V → List V
  values = map (λ e. e.1)

  -- value, ok := m[key]
  unfoldable pub lookup : String → Dict V → Option V
  lookup key [] = none
  lookup key ((other, value) ∷ entries) = if other == key then some value else lookup key entries

  abbrev pub is_some : Option V → Bool
  is_some none = false
  is_some (some v) = true

  -- _, ok := m[k]
  unfoldable pub has_key : String → Dict V → Bool
  unfolding lookup
  has_key k m = is_some (lookup k m)

  abbrev pub or_default : V → Option V → V
  or_default d none = d
  or_default d (some v) = v

  pub lookup-insert :
      (key wanted : String) (value : V) (entries : Dict V)
      → lookup wanted (insert key value entries)
        ≡ (if key == wanted then some value else lookup wanted entries)
  unfolding insert lookup
  lookup-insert key wanted value [] = refl
  lookup-insert key wanted value ((other, old) ∷ entries) = ground (
    arith,
    lookup-insert key wanted value entries,
    eq_iff other wanted,
    eq_iff other key,
    eq_iff key wanted,
  )

  -- delete(m, k)
  unfoldable pub remove : String → Dict V → Dict V
  remove k [] = []
  remove k ((j, v) ∷ m) = let rest = remove k m in if j == k then rest else (j, v) ∷ rest
