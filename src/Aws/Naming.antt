-- ===== src/Aws/Naming.antt =====
-- aws/naming.go: the name of a stack. The two regular expressions are written out as recursions over
-- the text: a run of characters that are not letters, digits or dashes becomes one dash, and then a
-- run of dashes becomes one.
pub mod Dashes
pub mod Normal
use kube_ingress_aws_control.Prelude.{
  ℕ, ◌-◌, String, Bool, true, false, not, ◌&&◌, ◌||◌, Option, none, some, ltb, leb, eqb,
  if◌then◌else◌,
}
use Prim.Native.Nat.{zero, suc}
use Prim.Native.String
use Prim.Native.Char.{Char, code}

abbrev pub max_stack_name_len : ℕ
max_stack_name_len = 128

abbrev pub uuid_len : ℕ
uuid_len = 36

abbrev pub name_separator : String
name_separator = "-"

abbrev pub stack_name_prefix : String
stack_name_prefix = "kube-ingress-aws-controller"

-- [A-Za-z0-9-]
abbrev pub is_normal : Char → Bool
is_normal c =
    leb b'A' (code c) && leb (code c) b'Z'
    || leb b'a' (code c) && leb (code c) b'z'
    || leb b'0' (code c) && leb (code c) b'9'
    || eqb (code c) b'-'

abbrev pub is_dash : Char → Bool
is_dash c = eqb (code c) b'-'

-- normalizationRegex.ReplaceAllString(s, "-"): `inside` says that the run's dash is written
unfoldable pub normalize : Bool → String → String
normalize inside String.[] = String.[]
normalize inside (String.◌∷◌ c s) =
    let rest = normalize (not (is_normal c)) s in
    if is_normal c
    then String.◌∷◌ c rest
    else String.◌++◌ (if inside then "" else name_separator) rest

-- squeezeDashesRegex.ReplaceAllString(s, "-"): `inside` says that a dash comes before
unfoldable pub squeeze : Bool → String → String
squeeze inside String.[] = String.[]
squeeze inside (String.◌∷◌ c s) =
    let rest = squeeze (is_dash c) s in if inside && is_dash c then rest else String.◌∷◌ c rest

-- s[n:]; the text is ASCII here, so that its bytes are its characters
unfoldable pub drop_chars : ℕ → String → String
drop_chars zero s = s
drop_chars (suc n) String.[] = String.[]
drop_chars (suc n) (String.◌∷◌ c s) = drop_chars n s

-- strings.Trim(s, "-")
unfoldable pub trim_left : String → String
trim_left String.[] = String.[]
trim_left (String.◌∷◌ c s) = if is_dash c then trim_left s else String.◌∷◌ c s

abbrev pub cons_unless_dash : Char → String → String
cons_unless_dash c String.[] = if is_dash c then String.[] else String.◌∷◌ c String.[]
cons_unless_dash c (String.◌∷◌ d s) = String.◌∷◌ c (String.◌∷◌ d s)

unfoldable pub trim_right : String → String
trim_right String.[] = String.[]
trim_right (String.◌∷◌ c s) = cons_unless_dash c (trim_right s)

unfoldable pub trim_dashes : String → String
unfolding trim_left trim_right
trim_dashes s = trim_left (trim_right s)

abbrev pub max_cluster_id_len : ℕ
max_cluster_id_len = max_stack_name_len - String.count stack_name_prefix - uuid_len - 2

abbrev pub cut : String → String
cut s =
    if ltb max_cluster_id_len (String.count s)
    then drop_chars (String.count s - max_cluster_id_len) s
    else s

-- the cluster's part of the name
unfoldable pub normalized_cluster_id : String → String
unfolding normalize squeeze drop_chars trim_dashes
normalized_cluster_id cluster_id = trim_dashes (cut (squeeze false (normalize false cluster_id)))

-- `uuid` is the text of a new UUID.
unfoldable pub normalize_stack_name : String → String → String
unfolding normalized_cluster_id
normalize_stack_name uuid cluster_id = String.◌++◌ stack_name_prefix (
    String.◌++◌ name_separator
      (String.◌++◌ (normalized_cluster_id cluster_id) (String.◌++◌ name_separator uuid)))
