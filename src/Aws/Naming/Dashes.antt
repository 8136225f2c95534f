-- ===== src/Aws/Naming/Dashes.antt =====
-- What the steps that normalise a name keep: its characters, and that no two dashes are side by side.
use kube_ingress_aws_control.Prelude.{
  ℕ, ◌-◌, String, ◌≡◌, refl, Bool, true, false, ◌&&◌, arith, Bool-cases, inl, inr, ltb,
  if◌then◌else◌,
}
use Prim.Native.String
use Prim.Native.String.append
use Prim.Native.String.count
use Prim.Native.Nat.{zero, suc}
use Prim.Native.Char.{Char}
use kube_ingress_aws_control.Aws.Naming.{
  is_normal, is_dash, normalize, squeeze, drop_chars, trim_left, trim_right, cut, cons_unless_dash,
  name_separator, max_cluster_id_len,
}

-- Every character of the text passes the test.
abbrev pub AllChars : (Char → Bool) → String → Type 0
AllChars p String.[] = Unit
AllChars p (String.◌∷◌ c s) = (p c ≡ true) × AllChars p s

-- The same as a test, which runs.
abbrev pub all_chars : (Char → Bool) → String → Bool
all_chars p String.[] = true
all_chars p (String.◌∷◌ c s) = p c && all_chars p s

pub all_chars-AllChars : (p : Char → Bool) (s : String) → all_chars p s ≡ true → AllChars p s
all_chars-AllChars p String.[] h = tt
all_chars-AllChars p (String.◌∷◌ c s) h =
    (ground (arith, h), all_chars-AllChars p s (ground (arith, h)))

-- No two dashes stand side by side; `after` says that a dash comes before.
abbrev pub NoDoubleDash : Bool → String → Type 0
NoDoubleDash after String.[] = Unit
NoDoubleDash true (String.◌∷◌ c s) = (is_dash c ≡ false) × NoDoubleDash (is_dash c) s
NoDoubleDash false (String.◌∷◌ c s) = NoDoubleDash (is_dash c) s

NoDoubleDash-weaken : (b : Bool) (s : String) → NoDoubleDash b s → NoDoubleDash false s
NoDoubleDash-weaken b String.[] h = tt
NoDoubleDash-weaken true (String.◌∷◌ c s) h = h.1
NoDoubleDash-weaken false (String.◌∷◌ c s) h = h

pub normalize-AllChars : (b : Bool) (s : String) → AllChars is_normal (normalize b s)
unfolding normalize
normalize-AllChars b String.[] = tt
normalize-AllChars b (String.◌∷◌ c s) = elim (Bool-cases (is_normal c)) [
  | inl e ↦ rw e (e, normalize-AllChars false s)
  | inr e ↦ rw e (dash b (normalize true s) (normalize-AllChars true s))
]
  where
    dash :
        (b : Bool) (t : String)
        → AllChars is_normal t
        → AllChars is_normal (String.◌++◌ (if b then "" else name_separator) t)
    dash true t h = rw (append.nil t) h
    dash false t h = rw (append.cons _ _ t, append.nil t) (refl, h)

module _ (p : Char → Bool) where
  pub squeeze-AllChars : (b : Bool) (s : String) → AllChars p s → AllChars p (squeeze b s)
  unfolding squeeze
  squeeze-AllChars b String.[] h = tt
  squeeze-AllChars true (String.◌∷◌ c s) h = elim (Bool-cases (is_dash c)) [
    | inl e ↦ rw e (squeeze-AllChars true s h.1)
    | inr e ↦ rw e (h.0, squeeze-AllChars false s h.1)
  ]
  squeeze-AllChars false (String.◌∷◌ c s) h = (h.0, squeeze-AllChars (is_dash c) s h.1)

  drop-AllChars : (n : ℕ) (s : String) → AllChars p s → AllChars p (drop_chars n s)
  unfolding drop_chars
  drop-AllChars zero s h = h
  drop-AllChars (suc n) String.[] h = tt
  drop-AllChars (suc n) (String.◌∷◌ c s) h = drop-AllChars n s h.1

  pub cut-AllChars : (s : String) → AllChars p s → AllChars p (cut s)
  cut-AllChars s h = elim (Bool-cases (ltb max_cluster_id_len (String.count s))) [
    | inl e ↦ rw e (drop-AllChars (String.count s - max_cluster_id_len) s h)
    | inr e ↦ rw e h
  ]

  pub trim_left-AllChars : (s : String) → AllChars p s → AllChars p (trim_left s)
  unfolding trim_left
  trim_left-AllChars String.[] h = tt
  trim_left-AllChars (String.◌∷◌ c s) h = elim (Bool-cases (is_dash c)) [
    | inl e ↦ rw e (trim_left-AllChars s h.1)
    | inr e ↦ rw e h
  ]

  cons-AllChars :
      (c : Char) (s : String) → p c ≡ true → AllChars p s → AllChars p (cons_unless_dash c s)
  cons-AllChars c String.[] e h = elim (Bool-cases (is_dash c)) [
    | inl d ↦ rw d tt
    | inr d ↦ rw d (e, tt)
  ]
  cons-AllChars c (String.◌∷◌ d s) e h = (e, h)

  pub trim_right-AllChars : (s : String) → AllChars p s → AllChars p (trim_right s)
  unfolding trim_right
  trim_right-AllChars String.[] h = tt
  trim_right-AllChars (String.◌∷◌ c s) h =
      cons-AllChars c (trim_right s) h.0 (trim_right-AllChars s h.1)

  pub append-AllChars : (s t : String) → AllChars p s → AllChars p t → AllChars p (String.◌++◌ s t)
  append-AllChars String.[] t h k = rw (append.nil t) k
  append-AllChars (String.◌∷◌ c s) t h k = rw (append.cons c s t) (h.0, append-AllChars s t h.1 k)

pub squeeze-NoDoubleDash : (b : Bool) (s : String) → NoDoubleDash b (squeeze b s)
unfolding squeeze
squeeze-NoDoubleDash b String.[] = tt
squeeze-NoDoubleDash true (String.◌∷◌ c s) = elim (Bool-cases (is_dash c)) [
  | inl e ↦ rw e (squeeze-NoDoubleDash true s)
  | inr e ↦ rw e (e, rw e (squeeze-NoDoubleDash false s))
]
squeeze-NoDoubleDash false (String.◌∷◌ c s) = squeeze-NoDoubleDash (is_dash c) s

drop-NoDoubleDash :
    (n : ℕ) (s : String) → NoDoubleDash false s → NoDoubleDash false (drop_chars n s)
unfolding drop_chars
drop-NoDoubleDash zero s h = h
drop-NoDoubleDash (suc n) String.[] h = tt
drop-NoDoubleDash (suc n) (String.◌∷◌ c s) h =
    drop-NoDoubleDash n s (NoDoubleDash-weaken (is_dash c) s h)

pub cut-NoDoubleDash : (s : String) → NoDoubleDash false s → NoDoubleDash false (cut s)
cut-NoDoubleDash s h = elim (Bool-cases (ltb max_cluster_id_len (String.count s))) [
  | inl e ↦ rw e (drop-NoDoubleDash (String.count s - max_cluster_id_len) s h)
  | inr e ↦ rw e h
]

pub trim_left-NoDoubleDash : (s : String) → NoDoubleDash false s → NoDoubleDash false (trim_left s)
unfolding trim_left
trim_left-NoDoubleDash String.[] h = tt
trim_left-NoDoubleDash (String.◌∷◌ c s) h = elim (Bool-cases (is_dash c)) [
  | inl e ↦ rw e (trim_left-NoDoubleDash s (NoDoubleDash-weaken (is_dash c) s h))
  | inr e ↦ rw e h
]

cons-NoDoubleDash :
    (b : Bool) (c : Char) (s : String)
    → NoDoubleDash (is_dash c) s
    → (b ≡ true → is_dash c ≡ false)
    → NoDoubleDash b (cons_unless_dash c s)
cons-NoDoubleDash b c String.[] h k = elim (Bool-cases (is_dash c)) [
  | inl e ↦ rw e tt
  | inr e ↦ rw e (alone b e)
]
  where
    alone : (b : Bool) → is_dash c ≡ false → NoDoubleDash b (String.◌∷◌ c String.[])
    alone true e = (e, tt)
    alone false e = tt
cons-NoDoubleDash true c (String.◌∷◌ d s) h k = (k refl, h)
cons-NoDoubleDash false c (String.◌∷◌ d s) h k = h

pub trim_right-NoDoubleDash :
    (b : Bool) (s : String) → NoDoubleDash b s → NoDoubleDash b (trim_right s)
unfolding trim_right
trim_right-NoDoubleDash b String.[] h = tt
trim_right-NoDoubleDash true (String.◌∷◌ c s) h =
    cons-NoDoubleDash true c (trim_right s) (trim_right-NoDoubleDash (is_dash c) s h.1) (λ _. h.0)
trim_right-NoDoubleDash false (String.◌∷◌ c s) h =
    cons-NoDoubleDash false c (trim_right s) (trim_right-NoDoubleDash (is_dash c) s h) (λ e. cc)
