-- ===== src/Worker/Cni/Current.antt =====
-- What the event handler of the CNI mode has called for once no message waits.
use kube_ingress_aws_control.Prelude.{
  String, ◌≡◌, refl, sym, ap, ◌∙◌, Option, none, some, List, [], ◌∷◌, ◌++◌,
}
use kube_ingress_aws_control.Worker.Cni.{
  Message, target_groups, pod_endpoints, Handler, started, calls_after, react, Runs, start,
  send_target_groups, send_endpoints, receive_target_groups, receive_endpoints,
}

-- the last message of each kind
abbrev pub last_target_groups : List Message → Option (List String)
last_target_groups [] = none
last_target_groups (target_groups m ∷ ms) = m
last_target_groups (pod_endpoints m ∷ ms) = last_target_groups ms

abbrev pub last_endpoints : List Message → Option (List String)
last_endpoints [] = none
last_endpoints (target_groups m ∷ ms) = last_endpoints ms
last_endpoints (pod_endpoints m ∷ ms) = m

-- the last of the queue, or what was received last
abbrev last_of : Option (List String) → List (Option (List String)) → Option (List String)
last_of m [] = m
last_of m (n ∷ ns) = last_of n ns

last_of-append :
    (m n : Option (List String)) (q : List (Option (List String))) → last_of m (q ++ n ∷ []) ≡ n
last_of-append m n [] = refl
last_of-append m n (k ∷ q) = last_of-append k n q

-- No message waits, so the last call is for what was received last.
abbrev IsSettled :
    Option (List String)
    → Option (List String)
    → List (Option (List String))
    → List (Option (List String))
    → List (List String × List String)
    → Type 0
IsSettled es arns ts ss calls =
    (e t : List String)
    → es ≡ some e
    → arns ≡ some t
    → ts ≡ []
    → ss ≡ []
    → (rest : List (List String × List String)) × (calls ≡ (e, t) ∷ rest)

pub record IsCurrent (ms : List Message) (h : Handler) : Type 0 where
  pub groups_last : last_of h.cni_target_group_arns h.target_group_ch ≡ last_target_groups ms
  pub endpoints_last : last_of h.endpoints h.endpoint_ch ≡ last_endpoints ms
  pub settled :
      IsSettled h.endpoints h.cni_target_group_arns h.target_group_ch h.endpoint_ch h.calls

calls_after-IsSettled :
    (es arns : Option (List String)) (ts ss : List (Option (List String)))
    (calls : List (List String × List String))
    → IsSettled es arns ts ss (calls_after es arns ts ss calls)
calls_after-IsSettled es arns ts ss calls e t p q a b = rw (p, q, a, b) (calls, refl)

not_empty : (q : List (Option (List String))) (m : Option (List String)) → ¬ (q ++ m ∷ [] ≡ [])
not_empty [] m e = cc
not_empty (n ∷ q) m e = cc

runs-IsCurrent : (ms : List Message) (h : Handler) → Runs ms h → IsCurrent ms h
unfolding react started
runs-IsCurrent ms h start = record {
  groups_last = refl;
  endpoints_last = refl;
  settled = λ e t p q a b. cc;
}
runs-IsCurrent ms h (send_target_groups ms' h' m r room) = record {
  groups_last = last_of-append h'.cni_target_group_arns m h'.target_group_ch;
  endpoints_last = (runs-IsCurrent ms' h' r).endpoints_last;
  settled = λ e t p q a b. absurd (not_empty h'.target_group_ch m a);
}
runs-IsCurrent ms h (send_endpoints ms' h' m r room) = record {
  groups_last = (runs-IsCurrent ms' h' r).groups_last;
  endpoints_last = last_of-append h'.endpoints m h'.endpoint_ch;
  settled = λ e t p q a b. absurd (not_empty h'.endpoint_ch m b);
}
runs-IsCurrent ms h (receive_target_groups ms' h' m rest r q) = record {
  groups_last =
      ap (last_of h'.cni_target_group_arns) (sym q) ∙ (runs-IsCurrent ms' h' r).groups_last;
  endpoints_last = (runs-IsCurrent ms' h' r).endpoints_last;
  settled = calls_after-IsSettled h'.endpoints m rest h'.endpoint_ch h'.calls;
}
runs-IsCurrent ms h (receive_endpoints ms' h' m rest r q) = record {
  groups_last = (runs-IsCurrent ms' h' r).groups_last;
  endpoints_last = ap (last_of h'.endpoints) (sym q) ∙ (runs-IsCurrent ms' h' r).endpoints_last;
  settled = calls_after-IsSettled m h'.cni_target_group_arns h'.target_group_ch rest h'.calls;
}

-- Whatever is sent and in whatever order it is received: once no message waits, and the last
-- messages of both kinds were not nil, the last call of the target setter was for the endpoints and
-- the target groups of these last messages.
pub cni_event_handler-IsCurrent :
    (ms : List Message) (h : Handler) (arns endpoints : List String)
    → Runs ms h
    → h.target_group_ch ≡ []
    → h.endpoint_ch ≡ []
    → last_target_groups ms ≡ some arns
    → last_endpoints ms ≡ some endpoints
    → (rest : List (List String × List String)) × (h.calls ≡ (endpoints, arns) ∷ rest)
cni_event_handler-IsCurrent ms h arns endpoints r a b t e =
    let c = runs-IsCurrent ms h r in
    c.settled endpoints arns (ap (last_of h.endpoints) (sym b) ∙ (c.endpoints_last ∙ e))
      (ap (last_of h.cni_target_group_arns) (sym a) ∙ (c.groups_last ∙ t)) a b
