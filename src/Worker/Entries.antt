-- ===== src/Worker/Entries.antt =====
-- What appending an ingress does to the map of certificates and ingresses.
use kube_ingress_aws_control.Prelude.{
  suc, ◌+◌, ◌≤◌, String, ◌≡◌, refl, inl, inr, true, Option, none, some, List, [], ◌∷◌, ◌++◌, ◌==◌,
  arith, eq_iff, length, All, All-append, In, In-append_left, In-append_right, Bool-cases,
  if◌then◌else◌,
}
use kube_ingress_aws_control.Prelude.Dict.{Dict, lookup, has_key, or_default, lookup-insert}
use kube_ingress_aws_control.Prelude.Dict.Laws.{insert-All, lookup-All, length-insert}
use kube_ingress_aws_control.Kubernetes.{Ingress}
use kube_ingress_aws_control.Worker.{append_to, append_all, new_certs}

-- Every ingress in the map.
abbrev pub Each : (Ingress → Type 0) → Dict (List Ingress) → Type 0
Each Q = All (λ e. All Q e.1)

module _ (Q : Ingress → Type 0) where
  pub append_to-Each :
      (k : String) (i : Ingress) (m : Dict (List Ingress))
      → Q i
      → Each Q m
      → Each Q (append_to k i m)
  unfolding append_to
  append_to-Each k i m q h =
      insert-All (λ _ l. All Q l) k (or_default [] (lookup k m) ++ i ∷ []) m
        (All-append Q (or_default [] (lookup k m)) (i ∷ []) (old (lookup k m) refl) (q, tt)) h
    where
      old : (o : Option (List Ingress)) → lookup k m ≡ o → All Q (or_default [] o)
      old none e = tt
      old (some l) e = lookup-All (λ _ l. All Q l) k l m h e

  pub append_all-Each :
      (arns : List String) (i : Ingress) (m : Dict (List Ingress))
      → Q i
      → Each Q m
      → Each Q (append_all arns i m)
  unfolding append_all
  append_all-Each [] i m q h = h
  append_all-Each (arn ∷ arns) i m q h =
      append_all-Each arns i (append_to arn i m) q (append_to-Each arn i m q h)

has_key-append_to :
    (j k : String) (i : Ingress) (m : Dict (List Ingress))
    → has_key j (append_to k i m) ≡ (if k == j then true else has_key j m)
unfolding append_to has_key
has_key-append_to j k i m =
    rw (lookup-insert k j (or_default [] (lookup k m) ++ i ∷ []) m) (ground arith)

new_certs-append_to :
    (arns : List String) (k : String) (i : Ingress) (m : Dict (List Ingress))
    → new_certs (append_to k i m) arns ≤ new_certs m arns
unfolding new_certs
new_certs-append_to [] k i m = omega arith
new_certs-append_to (arn ∷ arns) k i m =
    rw (has_key-append_to arn k i m) (ground (arith, new_certs-append_to arns k i m))

length-append_to :
    (k : String) (i : Ingress) (m : Dict (List Ingress))
    → length (append_to k i m) ≡ (if has_key k m then length m else suc (length m))
unfolding append_to
length-append_to k i m = length-insert k (or_default [] (lookup k m) ++ i ∷ []) m

-- The map grows by the new certificates at most.
pub length-append_all :
    (arns : List String) (i : Ingress) (m : Dict (List Ingress))
    → length (append_all arns i m) ≤ length m + new_certs m arns
unfolding append_all new_certs
length-append_all [] i m = omega arith
length-append_all (arn ∷ arns) i m = ground (
  arith,
  length-append_all arns i (append_to arn i m),
  new_certs-append_to arns arn i m,
  length-append_to arn i m,
)

-- And it never shrinks.
pub length-append_all_le :
    (arns : List String) (i : Ingress) (m : Dict (List Ingress))
    → length m ≤ length (append_all arns i m)
unfolding append_all
length-append_all_le [] i m = omega arith
length-append_all_le (arn ∷ arns) i m =
    ground (arith, length-append_all_le arns i (append_to arn i m), length-append_to arn i m)

-- The ingress is listed under the certificate.
abbrev pub Under : String → Ingress → Dict (List Ingress) → Type 0
Under arn i m = (l : List Ingress) × (lookup arn m ≡ some l) × In i l

pub append_to-Under_self :
    (arn : String) (i : Ingress) (m : Dict (List Ingress)) → Under arn i (append_to arn i m)
unfolding append_to
append_to-Under_self arn i m = (
  or_default [] (lookup arn m) ++ i ∷ [],
  rw (lookup-insert arn arn (or_default [] (lookup arn m) ++ i ∷ []) m)
      (ground (arith, eq_iff arn arn)),
  In-append_right i (or_default [] (lookup arn m)) (i ∷ []) (inl refl),
)

pub append_to-Under :
    (arn k : String) (i j : Ingress) (m : Dict (List Ingress))
    → Under arn i m
    → Under arn i (append_to k j m)
unfolding append_to
append_to-Under arn k i j m (l, e, p) = elim (Bool-cases (k == arn)) [
  | inl t ↦ (
    l ++ j ∷ [],
    rw (lookup-insert k arn (or_default [] (lookup k m) ++ j ∷ []) m, t, (eq_iff k arn).0 t, e)
        refl,
    In-append_left i l (j ∷ []) p,
  )
  | inr t ↦ (l, rw (lookup-insert k arn (or_default [] (lookup k m) ++ j ∷ []) m, t) e, p)
]

pub append_all-Under :
    (arn : String) (arns : List String) (i j : Ingress) (m : Dict (List Ingress))
    → Under arn i m
    → Under arn i (append_all arns j m)
unfolding append_all
append_all-Under arn [] i j m u = u
append_all-Under arn (k ∷ arns) i j m u =
    append_all-Under arn arns i j (append_to k j m) (append_to-Under arn k i j m u)

-- After the loop the ingress is listed under each of the certificates.
pub append_all-Under_self :
    (arns : List String) (i : Ingress) (m : Dict (List Ingress))
    → All (λ arn. Under arn i (append_all arns i m)) arns
unfolding append_all
append_all-Under_self [] i m = tt
append_all-Under_self (arn ∷ arns) i m = (
  append_all-Under arn arns i i (append_to arn i m) (append_to-Under_self arn i m),
  append_all-Under_self arns i (append_to arn i m),
)
