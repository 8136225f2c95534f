-- ===== src/Aws/Naming/Normal.antt =====
-- A stack's name fits the rules of CloudFormation.
use kube_ingress_aws_control.Prelude.{
  ℕ, ◌-◌, ◌+◌, ◌≤◌, String, ◌≡◌, refl, false, arith, Bool-cases, inl, inr, ltb,
}
use Prim.Native.String
use Prim.Native.String.append
use Prim.Native.String.count
use Prim.Native.Nat.{zero, suc}
use Prim.Native.Char.{Char}
use kube_ingress_aws_control.Aws.Naming.{
  is_normal, is_dash, normalize, squeeze, drop_chars, trim_left, trim_right, normalized_cluster_id,
  normalize_stack_name, cut, cons_unless_dash, name_separator, stack_name_prefix,
  max_cluster_id_len, uuid_len, max_stack_name_len,
}
use kube_ingress_aws_control.Aws.Naming.Dashes.{
  AllChars, NoDoubleDash, all_chars-AllChars, append-AllChars, cut-AllChars, cut-NoDoubleDash,
  normalize-AllChars, squeeze-AllChars, squeeze-NoDoubleDash, trim_left-AllChars,
  trim_left-NoDoubleDash, trim_right-AllChars, trim_right-NoDoubleDash,
}

count-append : (s t : String) → String.count (String.◌++◌ s t) ≡ String.count s + String.count t
count-append String.[] t = rw (append.nil t) (omega arith)
count-append (String.◌∷◌ c s) t =
    rw (append.cons c s t, count.cons c s, count.cons c (String.◌++◌ s t))
      (omega (arith, count-append s t))

count-drop : (n : ℕ) (s : String) → String.count (drop_chars n s) ≡ String.count s - n
unfolding drop_chars
count-drop zero s = omega arith
count-drop (suc n) String.[] = omega arith
count-drop (suc n) (String.◌∷◌ c s) = rw (count.cons c s) (omega (arith, count-drop n s))

count-trim_left : (s : String) → String.count (trim_left s) ≤ String.count s
unfolding trim_left
count-trim_left String.[] = omega arith
count-trim_left (String.◌∷◌ c s) = ground (arith, count-trim_left s, count.cons c s)

count-cons : (c : Char) (s : String) → String.count (cons_unless_dash c s) ≤ 1 + String.count s
count-cons c String.[] = elim (Bool-cases (is_dash c)) [
  | inl e ↦ rw e (omega arith)
  | inr e ↦ rw (e, count.cons c String.[]) (omega arith)
]
count-cons c (String.◌∷◌ d s) = rw (count.cons c (String.◌∷◌ d s)) (omega arith)

count-trim_right : (s : String) → String.count (trim_right s) ≤ String.count s
unfolding trim_right
count-trim_right String.[] = omega arith
count-trim_right (String.◌∷◌ c s) =
    omega (arith, count-cons c (trim_right s), count-trim_right s, count.cons c s)

count-cut : (s : String) → String.count (cut s) ≤ max_cluster_id_len
count-cut s = elim (Bool-cases (ltb max_cluster_id_len (String.count s))) [
  | inl e ↦ rw e (omega (arith, count-drop (String.count s - max_cluster_id_len) s))
  | inr e ↦ rw e (ground (arith, e))
]

-- The three properties of the cluster's part.
module _ (cluster_id : String) where
  whole : String
  unfolding normalize squeeze
  whole = squeeze false (normalize false cluster_id)

  count-part : String.count (normalized_cluster_id cluster_id) ≤ max_cluster_id_len
  unfolding normalized_cluster_id whole
  count-part = omega (
    arith,
    count-trim_left (trim_right (cut whole)),
    count-trim_right (cut whole),
    count-cut whole,
  )

  part-AllChars : AllChars is_normal (normalized_cluster_id cluster_id)
  unfolding normalized_cluster_id whole
  part-AllChars = trim_left-AllChars is_normal (trim_right (cut whole)) (
      trim_right-AllChars is_normal (cut whole) (
        cut-AllChars is_normal whole (
          squeeze-AllChars is_normal false (normalize false cluster_id)
            (normalize-AllChars false cluster_id))))

  part-NoDoubleDash : NoDoubleDash false (normalized_cluster_id cluster_id)
  unfolding normalized_cluster_id whole
  part-NoDoubleDash = trim_left-NoDoubleDash (trim_right (cut whole)) (
      trim_right-NoDoubleDash false (cut whole)
        (cut-NoDoubleDash whole (squeeze-NoDoubleDash false (normalize false cluster_id))))

-- The name of a stack has at most 128 characters, all of them letters, digits or dashes, and the
-- cluster's part of it has no two dashes side by side, whatever the cluster is called; the text of
-- the UUID is taken to have 36 such characters.
pub normalize_stack_name-IsNormal :
    (uuid cluster_id : String)
    → String.count uuid ≡ uuid_len
    → AllChars is_normal uuid
    → (String.count (normalize_stack_name uuid cluster_id) ≤ max_stack_name_len)
      × AllChars is_normal (normalize_stack_name uuid cluster_id)
      × NoDoubleDash false (normalized_cluster_id cluster_id)
unfolding normalize_stack_name
normalize_stack_name-IsNormal uuid cluster_id n a =
    let part = normalized_cluster_id cluster_id in
    let tail = String.◌++◌ name_separator uuid in
    let middle = String.◌++◌ part tail in
    let rest = String.◌++◌ name_separator middle in
    let tail_normal = append-AllChars is_normal name_separator uuid (refl, tt) a in
    let middle_normal =
      append-AllChars is_normal part tail (part-AllChars cluster_id) tail_normal in
    let rest_normal = append-AllChars is_normal name_separator middle (refl, tt) middle_normal in
    (
      omega (
        arith,
        n,
        count-part cluster_id,
        count-append stack_name_prefix rest,
        count-append name_separator middle,
        count-append part tail,
        count-append name_separator uuid,
      ),
      append-AllChars is_normal stack_name_prefix rest prefix_normal rest_normal,
      part-NoDoubleDash cluster_id,
    )
  where
    prefix_normal : AllChars is_normal stack_name_prefix
    prefix_normal = all_chars-AllChars is_normal stack_name_prefix refl
