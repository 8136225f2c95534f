-- ===== src/Aws/Asg/Filters.antt =====
-- aws/asg.go: which Auto Scaling groups the filters select (testFilterTags).
use kube_ingress_aws_control.Prelude.{
  ℕ, suc, ◌≤◌, String, ◌≡◌, refl, sym, ap, ◌∙◌, ◌↔◌, true, false, Option, none, some, List, [], ◌∷◌,
  eqb, arith, length, All, inl, inr, Bool-cases, Option-cases, some_eq, if◌then◌else◌,
}
use kube_ingress_aws_control.Prelude.Dict.{Dict, lookup}
use kube_ingress_aws_control.Aws.Asg.{value_matches, count_matches, test_filter_tags}

-- The group has the tag of the filter, with a value that the filter admits.
abbrev pub Matched : Dict String → String × List String → Type 0
Matched tags e = (v : String) × (lookup e.0 tags ≡ some v) × (value_matches e.1 v ≡ true)

module _ (tags : Dict String) (key : String) (vals : List String) (rest : Dict (List String)) where
  count-hit :
      (v : String) (n : ℕ)
      → lookup key tags ≡ some v
      → count_matches rest tags ≡ some n
      → count_matches ((key, vals) ∷ rest) tags ≡ some (if value_matches vals v then suc n else n)
  unfolding count_matches
  count-hit v n l c = rw (l, c) refl

  count-miss : lookup key tags ≡ none → count_matches ((key, vals) ∷ rest) tags ≡ none
  unfolding count_matches
  count-miss l = rw l refl

  count-none : count_matches rest tags ≡ none → count_matches ((key, vals) ∷ rest) tags ≡ none
  unfolding count_matches
  count-none c = elim (Option-cases (lookup key tags)) [
    | inl l ↦ rw l refl
    | inr (v, l) ↦ rw (l, c) refl
  ]

module _ (tags : Dict String) where
  no_count : {n : ℕ} {o : Option ℕ} → o ≡ none → o ≡ some n → ⊥
  no_count e h = cc

  count_le : (f : Dict (List String)) (n : ℕ) → count_matches f tags ≡ some n → n ≤ length f
  unfolding count_matches
  count_le [] n e = rw (← some_eq e) (omega arith)
  count_le ((key, vals) ∷ rest) n e = elim (Option-cases (lookup key tags)) [
    | inl l ↦ absurd (no_count (count-miss tags key vals rest l) e)
    | inr (v, l) ↦ elim (Option-cases (count_matches rest tags)) [
      | inl c ↦ absurd (no_count (count-none tags key vals rest c) e)
      | inr (m, c) ↦
          let b = count_le rest m c in
          let q = some_eq (sym (count-hit tags key vals rest v m l c) ∙ e) in ground (arith, b, q)
    ]
  ]

  length-Matched :
      (f : Dict (List String)) → All (Matched tags) f → count_matches f tags ≡ some (length f)
  unfolding count_matches
  length-Matched [] h = refl
  length-Matched ((key, vals) ∷ rest) ((v, l, m), h) =
      count-hit tags key vals rest v (length rest) l (length-Matched rest h) ∙ rw m refl

  Matched-length :
      (f : Dict (List String)) → count_matches f tags ≡ some (length f) → All (Matched tags) f
  Matched-length [] e = tt
  Matched-length ((key, vals) ∷ rest) e = elim (Option-cases (lookup key tags)) [
    | inl l ↦ absurd (no_count (count-miss tags key vals rest l) e)
    | inr (v, l) ↦ elim (Option-cases (count_matches rest tags)) [
      | inl c ↦ absurd (no_count (count-none tags key vals rest c) e)
      | inr (m, c) ↦
          let b = count_le rest m c in
          let q = some_eq (sym (count-hit tags key vals rest v m l c) ∙ e) in
          elim (Bool-cases (value_matches vals v)) [
            | inl t ↦ ((v, l, t), Matched-length rest (c ∙ full m rest (rw t at q)))
            | inr t ↦ absurd (short m rest b (rw t at q))
          ]
    ]
  ]
    where
      full : (m : ℕ) (r : Dict (List String)) → suc m ≡ suc (length r) → some m ≡ some (length r)
      full m r q = ap some (omega (arith, q))

      short : (m : ℕ) (r : Dict (List String)) → m ≤ length r → m ≡ suc (length r) → ⊥
      short m r b q = omega (arith, b, q)

  -- A group is selected if and only if for each of the filters it has the tag, with one of the
  -- values that the filter lists, or any value if it lists none.
  pub test_filter_tags-exact :
      (f : Dict (List String)) → (test_filter_tags f tags ≡ true) ↔ All (Matched tags) f
  unfolding test_filter_tags
  test_filter_tags-exact f = (to, λ h. rw (length-Matched f h) (ground arith))
    where
      to : test_filter_tags f tags ≡ true → All (Matched tags) f
      to e = elim (Option-cases (count_matches f tags)) [
        | inl c ↦ absurd (apart (rw c at e))
        | inr (n, c) ↦ Matched-length f (c ∙ same n (rw c at e))
      ]
        where
          apart : false ≡ true → ⊥
          apart q = cc

          same : (n : ℕ) → eqb (length f) n ≡ true → some n ≡ some (length f)
          same n q = ap some (ground (arith, q))
