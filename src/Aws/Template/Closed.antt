-- ===== src/Aws/Template/Closed.antt =====
-- Every name that a template refers to stands in it: CloudFormation refuses any other template.
pub mod Alarms
pub mod Http
pub mod Https
pub mod Built
use kube_ingress_aws_control.Prelude.{
  ℕ, String, Bool, true, false, ◌&&◌, ◌||◌, not, ◌≡◌, refl, ◌⊎◌, inl, inr, Option, none, some, List,
  [], ◌∷◌, ◌++◌, map, ◌==◌, eq_iff, arith, subst, sym, all, All, All-append, All-imp, In,
  Bool-cases, if◌then◌else◌,
}
use kube_ingress_aws_control.Prelude.Dict.{Dict, insert, has_key}
use kube_ingress_aws_control.Prelude.Dict.Laws.{
  HasKey, insert-HasKey, insert-HasKey_self, insert-All, has_key-HasKey,
}
use kube_ingress_aws_control.Aws.StackSpec.{StackSpec}
use kube_ingress_aws_control.Aws.CloudWatch.{Expr, literal, number, ref, get_att, join, Alarm}
use kube_ingress_aws_control.Aws.Template.{
  Template, Resource, Output, Parameter, Action, forward, redirect, target_group, listener,
  listener_rule, listener_certificate, load_balancer, wafv2_association, waf_regional_association,
  cloud_watch_alarm, add_resource, add_parameter, add_output, default_parameters,
}

-- the names that an expression refers to
abbrev pub refs : Expr → List String
refs (literal s) = []
refs (number n) = []
refs (ref name) = name ∷ []
refs (get_att name a) = name ∷ []
refs (join sep x y) = refs x ++ refs y

abbrev pub optional_refs : Option Expr → List String
optional_refs none = []
optional_refs (some e) = refs e

abbrev pub list_refs : List Expr → List String
list_refs [] = []
list_refs (e ∷ es) = refs e ++ list_refs es

abbrev pub pair_refs : List (Expr × Expr) → List String
pair_refs [] = []
pair_refs ((x, y) ∷ es) = refs x ++ (refs y ++ pair_refs es)

abbrev pub action_refs : List Action → List String
action_refs [] = []
action_refs (forward e ∷ as') = refs e ++ action_refs as'
action_refs (redirect c ∷ as') =
    list_refs (c.protocol ∷ c.port ∷ c.host ∷ c.path ∷ c.query ∷ c.status_code ∷ [])
    ++ action_refs as'

-- the names that a resource refers to
abbrev pub resource_refs : Resource → List String
resource_refs (target_group g) =
    optional_refs g.health_check_timeout_seconds
    ++ (optional_refs g.target_type
        ++ (pair_refs g.attributes
            ++ list_refs (
                g.health_check_interval_seconds ∷ g.health_check_path ∷ g.health_check_port
                ∷ g.health_check_protocol ∷ g.healthy_threshold_count ∷ g.unhealthy_threshold_count
                ∷ g.port ∷ g.protocol ∷ g.vpc_id ∷ [])))
resource_refs (listener l) =
    optional_refs l.ssl_policy
    ++ (action_refs l.default_actions
        ++ list_refs (l.load_balancer_arn ∷ l.port ∷ l.protocol ∷ l.certificates))
resource_refs (listener_rule r) = list_refs (
    r.condition_field ∷ r.action_type ∷ r.content_type ∷ r.message_body ∷ r.status_code ∷ r.priority
    ∷ r.listener_arn ∷ r.condition_values)
resource_refs (listener_certificate certificates listener_arn) =
    refs listener_arn ++ list_refs certificates
resource_refs (load_balancer b) =
    optional_refs b.security_groups
    ++ (optional_refs b.type
        ++ (pair_refs b.tags
            ++ (list_refs (b.ip_address_type ∷ b.scheme ∷ b.subnets ∷ [])
                ++ pair_refs b.attributes)))
resource_refs (wafv2_association x y) = refs x ++ refs y
resource_refs (waf_regional_association x y) = refs x ++ refs y
resource_refs (cloud_watch_alarm a) =
    optional_refs a.alarm_name ++ (refs a.namespace ++ pair_refs a.dimensions)

-- The name is a parameter or a resource of the template, or one that CloudFormation knows.
abbrev pub Declared : Template → String → Type 0
Declared t n = (n ≡ "AWS::StackName") ⊎ (HasKey n t.parameters ⊎ HasKey n t.resources)

-- Every reference in a resource or an output is to a name of the template.
abbrev pub IsClosed : Template → Type 0
IsClosed t =
    All (λ e. All (Declared t) (resource_refs e.1)) t.resources
    × All (λ e. All (Declared t) (refs e.1.value)) t.outputs

-- A name that every template has: a default parameter, the target group, the load balancer.
unfoldable pub is_known : String → Bool
unfolding has_key
is_known n = has_key n default_parameters || n == "TG" || n == "LB" || n == "AWS::StackName"

and_left : (a b : Bool) → (a && b) ≡ true → a ≡ true
and_left a b h = ground (arith, h)

and_right : (a b : Bool) → (a && b) ≡ true → b ≡ true
and_right a b h = ground (arith, h)

All-HasKey {ℓ} :
    {V : Type ℓ} (P : String → Type 0) (n : String) (m : Dict V)
    → All (λ e. P e.0) m
    → HasKey n m
    → P n
All-HasKey P n [] h k = absurd k
All-HasKey P n ((i, w) ∷ m) h (inl e) = subst P e h.0
All-HasKey P n ((i, w) ∷ m) h (inr k) = All-HasKey P n m h.1 k

pub keys-HasKey {ℓ} : {V : Type ℓ} (m : Dict V) → All (λ e. HasKey e.0 m) m
keys-HasKey [] = tt
keys-HasKey ((i, w) ∷ m) = (inl refl, All-imp m (λ e h. inr h) (keys-HasKey m))

-- What holds of the template while it grows: the names of `promised.0` are still to come, and those
-- of `promised.1` are among its parameters.
module _ (promised : List String × List String) where
  abbrev pub DeclaredOr : Template → String → Type 0
  DeclaredOr t n = In n promised.0 ⊎ Declared t n

  -- the names that every template has
  pub record HasBase (t : Template) : Type 0 where
    pub has_parameters : All (λ e. HasKey e.0 t.parameters) default_parameters
    pub has_extra : All (λ n. HasKey n t.parameters) promised.1
    pub has_target_group : HasKey "TG" t.resources
    pub has_load_balancer : DeclaredOr t "LB"

  pub record IsGood (t : Template) : Type 0 where
    pub base : HasBase t
    pub resources_closed : All (λ e. All (DeclaredOr t) (resource_refs e.1)) t.resources
    pub outputs_closed : All (λ e. All (DeclaredOr t) (refs e.1.value)) t.outputs

  resource-DeclaredOr :
      (name : String) (r : Resource) (t : Template) (n : String)
      → DeclaredOr t n
      → DeclaredOr (add_resource name r t) n
  unfolding add_resource
  resource-DeclaredOr name r t n (inl i) = inl i
  resource-DeclaredOr name r t n (inr (inl e)) = inr (inl e)
  resource-DeclaredOr name r t n (inr (inr (inl k))) = inr (inr (inl k))
  resource-DeclaredOr name r t n (inr (inr (inr k))) =
      inr (inr (inr (insert-HasKey n name r t.resources k)))

  parameter-DeclaredOr :
      (name : String) (p : Parameter) (t : Template) (n : String)
      → DeclaredOr t n
      → DeclaredOr (add_parameter name p t) n
  unfolding add_parameter
  parameter-DeclaredOr name p t n (inl i) = inl i
  parameter-DeclaredOr name p t n (inr (inl e)) = inr (inl e)
  parameter-DeclaredOr name p t n (inr (inr (inl k))) =
      inr (inr (inl (insert-HasKey n name p t.parameters k)))
  parameter-DeclaredOr name p t n (inr (inr (inr k))) = inr (inr (inr k))

  pub add_resource-IsGood :
      (name : String) (r : Resource) (t : Template)
      → All (DeclaredOr (add_resource name r t)) (resource_refs r)
      → IsGood t
      → IsGood (add_resource name r t)
  unfolding add_resource
  add_resource-IsGood name r t h g = record {
    resources_closed =
        insert-All (λ _ r'. All (DeclaredOr (add_resource name r t)) (resource_refs r')) name r
          t.resources h
          (All-imp t.resources (λ e. All-imp (resource_refs e.1) (resource-DeclaredOr name r t))
            g.resources_closed);
    outputs_closed =
        All-imp t.outputs (λ e. All-imp (refs e.1.value) (resource-DeclaredOr name r t))
          g.outputs_closed;
    base = record {
      has_parameters = g.base.has_parameters;
      has_extra = g.base.has_extra;
      has_target_group = insert-HasKey "TG" name r t.resources g.base.has_target_group;
      has_load_balancer = resource-DeclaredOr name r t "LB" g.base.has_load_balancer;
    };
  }

  pub add_parameter-IsGood :
      (name : String) (p : Parameter) (t : Template) → IsGood t → IsGood (add_parameter name p t)
  unfolding add_parameter
  add_parameter-IsGood name p t g = record {
    resources_closed =
        All-imp t.resources (λ e. All-imp (resource_refs e.1) (parameter-DeclaredOr name p t))
          g.resources_closed;
    outputs_closed =
        All-imp t.outputs (λ e. All-imp (refs e.1.value) (parameter-DeclaredOr name p t))
          g.outputs_closed;
    base = record {
      has_parameters =
          All-imp default_parameters (λ e. insert-HasKey e.0 name p t.parameters)
            g.base.has_parameters;
      has_extra = All-imp promised.1 (λ n. insert-HasKey n name p t.parameters) g.base.has_extra;
      has_target_group = g.base.has_target_group;
      has_load_balancer = parameter-DeclaredOr name p t "LB" g.base.has_load_balancer;
    };
  }

  pub add_output-IsGood :
      (name : String) (o : Output) (t : Template)
      → All (DeclaredOr t) (refs o.value)
      → IsGood t
      → IsGood (add_output name o t)
  unfolding add_output
  add_output-IsGood name o t h g = record {
    resources_closed = g.resources_closed;
    outputs_closed =
        insert-All (λ _ o'. All (DeclaredOr t) (refs o'.value)) name o t.outputs h g.outputs_closed;
    base = record {
      has_parameters = g.base.has_parameters;
      has_extra = g.base.has_extra;
      has_target_group = g.base.has_target_group;
      has_load_balancer = g.base.has_load_balancer;
    };
  }

  pub known-DeclaredOr :
      (t : Template) → HasBase t → (n : String) → is_known n ≡ true → DeclaredOr t n
  unfolding is_known
  known-DeclaredOr t g n h = elim (Bool-cases (has_key n default_parameters)) [
    | inl e ↦ inr (
        inr (
          inl (
            All-HasKey (λ k. HasKey k t.parameters) n default_parameters g.has_parameters
              (has_key-HasKey n default_parameters e))))
    | inr e ↦ elim (Bool-cases (n == "TG")) [
      | inl f ↦
          subst (DeclaredOr t) (sym ((eq_iff n "TG").0 f)) (inr (inr (inr g.has_target_group)))
      | inr f ↦ elim (Bool-cases (n == "LB")) [
        | inl k ↦ subst (DeclaredOr t) (sym ((eq_iff n "LB").0 k)) g.has_load_balancer
        | inr k ↦ inr (inl ((eq_iff n "AWS::StackName").0 (rw (e, f, k) at h)))
      ]
    ]
  ]

  pub All-known :
      (t : Template)
      → HasBase t
      → (ns : List String) → all is_known ns ≡ true
      → All (DeclaredOr t) ns
  All-known t b [] h = tt
  All-known t b (n ∷ ns) h =
      (known-DeclaredOr t b n (and_left _ _ h), All-known t b ns (and_right _ _ h))

  -- A resource that refers to known names only may always be added.
  pub known_resource-IsGood :
      (name : String) (r : Resource) (t : Template)
      → all is_known (resource_refs r) ≡ true
      → IsGood t
      → IsGood (add_resource name r t)
  known_resource-IsGood name r t h g =
      add_resource-IsGood name r t
        (All-imp (resource_refs r) (resource-DeclaredOr name r t)
          (All-known t g.base (resource_refs r) h))
        g

-- What holds of both branches holds of the choice.
pub if-Holds {ℓ} :
    {A : Type ℓ} (P : A → Type 0) (b : Bool) (x y : A) → P x → P y → P (if b then x else y)
if-Holds P true x y h k = h
if-Holds P false x y h k = k

abbrev pub PairHolds : (String → Type 0) → Expr × Expr → Type 0
PairHolds P e = All P (refs e.0) × All P (refs e.1)

pub pairs-All :
    (P : String → Type 0) (es : List (Expr × Expr)) → All (PairHolds P) es → All P (pair_refs es)
pairs-All P [] h = tt
pairs-All P ((x, y) ∷ es) ((h, k), hs) =
    All-append P (refs x) (refs y ++ pair_refs es) h
      (All-append P (refs y) (pair_refs es) k (pairs-All P es hs))

pub literals-All : (P : String → Type 0) (es : List String) → All P (list_refs (map literal es))
literals-All P [] = tt
literals-All P (e ∷ es) = literals-All P es
