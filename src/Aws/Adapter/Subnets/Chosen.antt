-- ===== src/Aws/Adapter/Subnets/Chosen.antt =====
-- What holds of the map by availability zone while the subnets are looked at one by one.
use kube_ingress_aws_control.Prelude.{
  String, Bool, true, false, ◌≡◌, refl, sym, subst, ◌∙◌, ap, inl, inr, none, some, List, ◌∷◌, ◌==◌,
  eq_iff, arith, In, Bool-cases, Option-cases, some_eq,
}
use kube_ingress_aws_control.Prelude.Order.{before_trans, before_connected, before_irrefl}
use kube_ingress_aws_control.Prelude.Dict.{Dict, lookup, insert, lookup-insert}
use kube_ingress_aws_control.Prelude.Dict.Laws.{IsDict, insert-IsDict, ==_false}
use kube_ingress_aws_control.Aws.Ec2.Subnets.{SubnetDetails}
use kube_ingress_aws_control.Aws.Adapter.Subnets.{role_tag_name, replaces, consider}

module _ (tag : String) where
  pub replaces_irrefl : (s : SubnetDetails) → replaces tag s s ≡ false
  unfolding replaces
  replaces_irrefl s = ground (arith, before_irrefl s.id)

  -- What does not beat the old one does not beat what beats it.
  replaces_trans :
      (e s t : SubnetDetails)
      → replaces tag e t ≡ false
      → replaces tag e s ≡ true
      → replaces tag s t ≡ false
  unfolding replaces
  replaces_trans e s t h k = ground (arith, before_trans t.id s.id e.id)

  pub replaces_connected :
      (s t : SubnetDetails) → replaces tag s t ≡ false → replaces tag t s ≡ false → s.id ≡ t.id
  unfolding replaces
  replaces_connected s t h k = ground (arith, before_connected s.id t.id)

-- No subnet of the list in the zone takes the place of the one chosen for it.
abbrev pub IsBest : String → List SubnetDetails → SubnetDetails → Type 0
IsBest tag all v =
    In v all
    × ((t : SubnetDetails)
        → In t all
        → t.availability_zone ≡ v.availability_zone
        → replaces tag v t ≡ false)

module _ (internal : Bool) where
  abbrev pub tag : String
  tag = role_tag_name internal

  -- What the map holds once the subnets of `done` have been looked at.
  pub record IsChosen (done : List SubnetDetails) (m : Dict SubnetDetails) : Type 0 where
    pub is_dict : IsDict m
    pub best :
        (z : String) (v : SubnetDetails)
        → lookup z m ≡ some v
        → (v.availability_zone ≡ z) × IsBest tag done v
    pub all_zones :
        (t : SubnetDetails)
        → In t done
        → (v : SubnetDetails) × (lookup t.availability_zone m ≡ some v)

  -- Only the members of the list count.
  pub same_members-IsChosen :
      (done done' : List SubnetDetails) (m : Dict SubnetDetails)
      → ((t : SubnetDetails) → In t done → In t done')
      → ((t : SubnetDetails) → In t done' → In t done)
      → IsChosen done m
      → IsChosen done' m
  same_members-IsChosen done done' m f g c = record {
    is_dict = c.is_dict;
    best = λ z v l. let (e, (i, b)) = c.best z v l in (e, (f v i, λ t j q. b t (g t j) q));
    all_zones = λ t j. c.all_zones t (g t j);
  }

  module _ (s : SubnetDetails) (done : List SubnetDetails) (m : Dict SubnetDetails)
      (c : IsChosen done m) where
    -- The subnet goes into the map.
    put-IsChosen :
        ((t : SubnetDetails)
          → In t done
          → t.availability_zone ≡ s.availability_zone
          → replaces tag s t ≡ false)
        → IsChosen (s ∷ done) (insert s.availability_zone s m)
    put-IsChosen h = record {
      is_dict = insert-IsDict s.availability_zone s m c.is_dict;
      best = λ z v l. elim (Bool-cases (s.availability_zone == z)) [
        | inl e ↦ subst (Best z) (some_eq (sym (found z e) ∙ l)) (own z e)
        | inr e ↦ old z v e (sym (missed z e) ∙ l)
      ];
      all_zones = λ t j. elim (Bool-cases (s.availability_zone == t.availability_zone)) [
        | inl e ↦ (s, found t.availability_zone e)
        | inr e ↦
            let (v, l) = c.all_zones t (before_it t j e) in (v, missed t.availability_zone e ∙ l)
      ];
    }
      where
        Best : String → SubnetDetails → Type 0
        Best z v = (v.availability_zone ≡ z) × IsBest tag (s ∷ done) v

        found :
            (z : String)
            → (s.availability_zone == z) ≡ true
            → lookup z (insert s.availability_zone s m) ≡ some s
        found z e = lookup-insert s.availability_zone z s m ∙ (rw e refl)

        missed :
            (z : String)
            → (s.availability_zone == z) ≡ false
            → lookup z (insert s.availability_zone s m) ≡ lookup z m
        missed z e = lookup-insert s.availability_zone z s m ∙ (rw e refl)

        own : (z : String) → (s.availability_zone == z) ≡ true → Best z s
        own z e = ((eq_iff _ _).0 e, (inl refl, beaten))
          where
            beaten :
                (t : SubnetDetails)
                → In t (s ∷ done)
                → t.availability_zone ≡ s.availability_zone
                → replaces tag s t ≡ false
            beaten t (inl q) k = subst (λ u. replaces tag s u ≡ false) q (replaces_irrefl tag s)
            beaten t (inr i) k = h t i k

        before_it :
            (t : SubnetDetails)
            → In t (s ∷ done)
            → (s.availability_zone == t.availability_zone) ≡ false
            → In t done
        before_it t (inl q) e = absurd (==_false _ _ e (ap (λ u. u.availability_zone) q))
        before_it t (inr i) e = i

        old :
            (z : String) (v : SubnetDetails)
            → (s.availability_zone == z) ≡ false
            → lookup z m ≡ some v
            → Best z v
        old z v e l =
            let (k, (i, b)) = c.best z v l in
            (
              k,
              (
                inr i,
                λ t j q.
                    b t
                      (before_it t j
                        (subst (λ u. (s.availability_zone == u) ≡ false) (sym (q ∙ k)) e))
                      q,
              ),
            )

    -- The subnet stays out.
    skip-IsChosen :
        (e : SubnetDetails)
        → lookup s.availability_zone m ≡ some e
        → replaces tag e s ≡ false
        → IsChosen (s ∷ done) m
    skip-IsChosen e l h = record {
      is_dict = c.is_dict;
      best = λ z v k. let (q, (i, b)) = c.best z v k in (q, (inr i, beaten z v k q b));
      all_zones = zones;
    }
      where
        beaten :
            (z : String) (v : SubnetDetails)
            → lookup z m ≡ some v
            → v.availability_zone ≡ z
            → ((t : SubnetDetails)
                → In t done
                → t.availability_zone ≡ v.availability_zone
                → replaces tag v t ≡ false)
            → (t : SubnetDetails) → In t (s ∷ done)
            → t.availability_zone ≡ v.availability_zone
            → replaces tag v t ≡ false
        beaten z v k q b t (inl x) y =
            subst (λ u. replaces tag u t ≡ false) (some_eq (sym l ∙ same))
              (subst (λ u. replaces tag e u ≡ false) x h)
          where
            same : lookup s.availability_zone m ≡ some v
            same =
                subst (λ u. lookup u m ≡ some v) (sym (ap (λ u. u.availability_zone) x ∙ (y ∙ q))) k
        beaten z v k q b t (inr j) y = b t j y

        zones :
            (t : SubnetDetails)
            → In t (s ∷ done)
            → (v : SubnetDetails) × (lookup t.availability_zone m ≡ some v)
        zones t (inl x) = (e, subst (λ u. lookup u.availability_zone m ≡ some e) x l)
        zones t (inr j) = c.all_zones t j

    pub consider-IsChosen : IsChosen (s ∷ done) (consider tag s m (lookup s.availability_zone m))
    consider-IsChosen = elim (Option-cases (lookup s.availability_zone m)) [
      | inl n ↦ rw n (put-IsChosen (λ t j q. absurd (gone t j q n)))
      | inr (e, l) ↦ elim (Bool-cases (replaces tag e s)) [
        | inl r ↦
            rw (l, r)
              (put-IsChosen (λ t j q.
                let (k, (i, b)) = c.best s.availability_zone e l in
                replaces_trans tag e s t (b t j (q ∙ sym k)) r))
        | inr r ↦ rw (l, r) (skip-IsChosen e l r)
      ]
    ]
      where
        gone :
            (t : SubnetDetails)
            → In t done
            → t.availability_zone ≡ s.availability_zone
            → lookup s.availability_zone m ≡ none
            → ⊥
        gone t j q n =
            let (v, l) = c.all_zones t j in let l' = subst (λ u. lookup u m ≡ some v) q l in cc
