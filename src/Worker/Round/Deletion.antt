-- ===== src/Worker/Round/Deletion.antt =====
-- Which stacks a round may delete.
use kube_ingress_aws_control.Prelude.{
  ◌≡◌, refl, Bool, true, false, not, ◌&&◌, Option, none, some, List, [], ◌∷◌, Result, ok, err,
  Bool-cases, ◌⊎◌, inl, inr, if◌then◌else◌,
}
use kube_ingress_aws_control.Kubernetes.{Ingress, Error}
use kube_ingress_aws_control.Certs.{CertificateSummary}
use kube_ingress_aws_control.Aws.Stack.{Stack, should_delete, is_complete}
use kube_ingress_aws_control.Aws.LoadBalancer.{StackLbState, Alarm}
use kube_ingress_aws_control.Worker.{
  LoadBalancer, Status, ready, update, missing, delete, status, sync_status, in_sync,
}
use kube_ingress_aws_control.Worker.Run.{Adapters, AwsFailure, Problem, create_stack, update_stack}
use kube_ingress_aws_control.Worker.Round.{
  Config, Step, handle, handle_all, deleting, updating, after_create, next, reconcile,
  with_resources, with_ingresses, with_states, with_instances, with_certificates, with_alarms_read,
  do_work,
}
use kube_ingress_aws_control.Worker.Round.Calls.{
  Keeps, ingresses-keep, create-keeps, update-keeps, delete-keeps,
}

Result-cases : {E A : Type 0} (r : Result E A) → ((a : A) × (r ≡ ok a)) ⊎ ((e : E) × (r ≡ err e))
Result-cases (ok a) = inl (a, refl)
Result-cases (err e) = inr (e, refl)

not_delete :
    (l d m f : Bool) (x : Option Status)
    → d ≡ false
    → (x ≡ some delete → ⊥)
    → (if l
        then some ready
        else if d
        then some delete
        else if m
        then some missing
        else if f
        then some update
        else x)
      ≡ some delete
    → ⊥
not_delete true d m f x p n e = cc
not_delete false true m f x p n e = cc
not_delete false false true f x p n e = cc
not_delete false false false true x p n e = cc
not_delete false false false false x p n e = n e

sync-not_delete :
    (c : Config) (lb : LoadBalancer) (o : Option Stack)
    → sync_status c.sha256_hex c.now lb o ≡ some delete
    → ⊥
sync-not_delete c lb none e = cc
sync-not_delete c lb (some s) e =
    either (not (in_sync c.sha256_hex c.now lb s) && is_complete (some s)) e
  where
    either : (b : Bool) → some (if b then update else ready) ≡ some delete → ⊥
    either true p = cc
    either false p = cc

-- The status says `delete` only for a stack without a valid certificate.
pub status-delete :
    (c : Config) (lb : LoadBalancer)
    → status c.sha256_hex c.now c.first_run lb ≡ some delete
    → should_delete c.now lb.stack ≡ true
unfolding status
status-delete c lb e = elim (Bool-cases (should_delete c.now lb.stack)) [
  | inl t ↦ t
  | inr t ↦ absurd (
      not_delete lb.cluster_local (should_delete c.now lb.stack) _ c.first_run _ t
        (sync-not_delete c lb lb.stack) e)
]

module _ {W : Type 0} (api : Adapters W) (c : Config) (I : W → Type 0) (k : Keeps api c I) where
  deleting-keeps :
      (o : Option Stack) (w : W) → should_delete c.now o ≡ true → I w → I (deleting api c o w).0
  unfolding deleting
  deleting-keeps none w e h = h
  deleting-keeps (some s) w e h = delete-keeps api c I k s w e h

  updating-keeps :
      (o : Option Stack) (lb : LoadBalancer) (w : W) → I w → I (updating api c o lb w).0
  unfolding updating
  updating-keeps none lb w h = h
  updating-keeps (some s) lb w h =
      let r = update_stack api c.now c.min_load_balancer_age s lb w in
      ingresses-keep api c I k lb r.0 r.1 (update-keeps api c I k s lb w h)

  after_create-keeps : (r : W × LoadBalancer × List Problem) → I r.0 → I (after_create api c r).0
  unfolding after_create
  after_create-keeps (w, lb, ps) h = ingresses-keep api c I k lb w ps h

  handle-keeps :
      (st : Option Status) (lb : LoadBalancer) (w : W)
      → (st ≡ some delete → should_delete c.now lb.stack ≡ true)
      → I w
      → I (handle api c st lb w).0
  unfolding handle
  handle-keeps none lb w e h = h
  handle-keeps (some delete) lb w e h = deleting-keeps lb.stack w (e refl) h
  handle-keeps (some missing) lb w e h =
      after_create-keeps (create_stack api c.now c.min_load_balancer_age lb w)
        (create-keeps api c I k lb w h)
  handle-keeps (some ready) lb w e h = ingresses-keep api c I k lb w [] h
  handle-keeps (some update) lb w e h = updating-keeps lb.stack lb w h

  next-keeps :
      (rest : W → W × List Problem) (r : Step api c)
      → ((w : W) → I w → I (rest w).0)
      → I r.0
      → I (next api c rest r).0
  next-keeps rest (w, ps, false) f h = h
  next-keeps rest (w, ps, true) f h = f w h

  handle_all-keeps : (lbs : List LoadBalancer) (w : W) → I w → I (handle_all api c lbs w).0
  unfolding handle_all
  handle_all-keeps [] w h = h
  handle_all-keeps (lb ∷ lbs) w h =
      next-keeps (handle_all api c lbs)
        (handle api c (status c.sha256_hex c.now c.first_run lb) lb w) (handle_all-keeps lbs)
        (handle-keeps (status c.sha256_hex c.now c.first_run lb) lb w (status-delete c lb) h)

  reconcile-keeps :
      (ingresses : List Ingress) (sls : List StackLbState) (certs : List CertificateSummary)
      (alarms : List Alarm) (ps : List Problem) (r : W × List Problem)
      → I r.0
      → I (reconcile api c ingresses sls certs alarms ps r).0
  unfolding reconcile
  reconcile-keeps ingresses sls certs alarms ps (w, qs) h = handle_all-keeps _ w h

  alarms-keep :
      (ingresses : List Ingress) (stacks : List Stack) (sls : List StackLbState)
      (certs : List CertificateSummary) (ps : List Problem) (w : W)
      → I w
      → I (with_alarms_read api c ingresses stacks sls certs ps w).0
  unfolding with_alarms_read
  alarms-keep ingresses stacks sls certs ps w h =
      elim (Result-cases (api.get_cloud_watch_alarms w)) [
        | inr (e, q) ↦ rw (q, with_alarms_read) h
        | inl (alarms, q) ↦
            rw (q, with_alarms_read)
              (reconcile-keeps ingresses sls certs alarms ps _ (k.targets stacks w h))
      ]

  certificates-keep :
      (ingresses : List Ingress) (stacks : List Stack) (sls : List StackLbState) (ps : List Problem)
      (w : W)
      → I w
      → I (with_certificates api c ingresses stacks sls ps w).0
  unfolding with_certificates
  certificates-keep ingresses stacks sls ps w h = elim (Result-cases (api.get_certificates w)) [
    | inr (e, q) ↦ rw (q, with_certificates) h
    | inl ([], q) ↦ rw (q, with_certificates) h
    | inl (x ∷ xs, q) ↦ rw (q, with_certificates) (alarms-keep ingresses stacks sls (x ∷ xs) ps w h)
  ]

  instances-keep :
      (ingresses : List Ingress) (stacks : List Stack) (sls : List StackLbState) (ps : List Problem)
      (r : W × Option AwsFailure)
      → I r.0
      → I (with_instances api c ingresses stacks sls ps r).0
  unfolding with_instances
  instances-keep ingresses stacks sls ps (w, some e) h = h
  instances-keep ingresses stacks sls ps (w, none) h = certificates-keep ingresses stacks sls ps w h

  states-keep :
      (ingresses : List Ingress) (stacks : List Stack) (ps : List Problem) (w : W)
      → I w
      → I (with_states api c ingresses stacks ps w).0
  unfolding with_states
  states-keep ingresses stacks ps w h = elim (Result-cases (api.get_stack_lb_states stacks w)) [
    | inr (e, q) ↦ rw (q, with_states) h
    | inl (sls, q) ↦
        rw (q, with_states) (instances-keep ingresses stacks sls ps _ (k.instances w h))
  ]

  with_ingresses-keep :
      (ingresses : List Ingress) (w : W) → I w → I (with_ingresses api c ingresses w).0
  unfolding with_ingresses
  with_ingresses-keep ingresses w h = elim (Result-cases (api.find_managed_stacks w)) [
    | inr (e, q) ↦ rw (q, with_ingresses) h
    | inl (stacks, q) ↦ rw (q, with_ingresses) (states-keep ingresses stacks _ w h)
  ]

  resources-keep : (r : W × Result Error (List Ingress)) → I r.0 → I (with_resources api c r).0
  unfolding with_resources
  resources-keep (w, err e) h = h
  resources-keep (w, ok ingresses) h = with_ingresses-keep ingresses w h

  -- A round deletes a stack only when its certificates' times have all passed: what every other
  -- call and the deletion of such a stack keep holds after a round, whatever the calls answer, in
  -- which order and with which errors.
  pub do_work-keeps : (w : W) → I w → I (do_work api c w).0
  unfolding do_work
  do_work-keeps w h = resources-keep (api.list_resources w) (k.list w h)
