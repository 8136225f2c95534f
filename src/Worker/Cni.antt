-- ===== src/Worker/Cni.antt =====
-- worker.go: the event handler of the CNI mode (cniEventHandler) as a step relation. The channels
-- are queues, which hold ten messages; a nil slice is none.
pub mod Current
use kube_ingress_aws_control.Prelude.{
  ◌<◌, String, ◌≡◌, Option, none, some, List, [], ◌∷◌, ◌++◌, length,
}

-- what is sent to the handler
pub data Message : Type 0 where
  target_groups : Option (List String) → Message
  pod_endpoints : Option (List String) → Message

-- The state of the loop; `calls` are the calls of the target setter with endpoints and target
-- groups, the last one first.
pub record Handler : Type 0 where
  pub target_group_ch : List (Option (List String))
  pub endpoint_ch : List (Option (List String))
  pub cni_target_group_arns : Option (List String)
  pub endpoints : Option (List String)
  pub calls : List (List String × List String)

unfoldable pub started : Handler
started = record {
  target_group_ch = [];
  endpoint_ch = [];
  cni_target_group_arns = none;
  endpoints = none;
  calls = [];
}

-- the call of the target setter, unless messages are queued
abbrev pub set_unless_queued :
    List (Option (List String))
    → List (Option (List String))
    → List String × List String
    → List (List String × List String)
    → List (List String × List String)
set_unless_queued [] [] call calls = call ∷ calls
set_unless_queued (m ∷ ms) es call calls = calls
set_unless_queued [] (e ∷ es) call calls = calls

abbrev pub calls_after :
    Option (List String)
    → Option (List String)
    → List (Option (List String))
    → List (Option (List String))
    → List (List String × List String)
    → List (List String × List String)
calls_after (some endpoints) (some arns) ts es calls =
    set_unless_queued ts es (endpoints, arns) calls
calls_after (some endpoints) none ts es calls = calls
calls_after none arns ts es calls = calls

-- What follows the select statement. The values of the call are settled before the handler waits
-- for the rate limiter, so a message that comes while it waits is one that comes after the call.
unfoldable pub react : Handler → Handler
react h = record h {
  calls = calls_after h.endpoints h.cni_target_group_arns h.target_group_ch h.endpoint_ch h.calls;
}

-- The handler with the messages sent so far, the last one first. A message is sent if there is room
-- for it, and one of the two first messages is received; either may come first.
pub data Runs : List Message → Handler → Type 0 where
  start : Runs [] started
  send_target_groups :
      (ms : List Message) (h : Handler) (m : Option (List String))
      → Runs ms h
      → length h.target_group_ch < 10
      → Runs (target_groups m ∷ ms) (record h { target_group_ch = h.target_group_ch ++ m ∷ [] })
  send_endpoints :
      (ms : List Message) (h : Handler) (m : Option (List String))
      → Runs ms h
      → length h.endpoint_ch < 10
      → Runs (pod_endpoints m ∷ ms) (record h { endpoint_ch = h.endpoint_ch ++ m ∷ [] })
  receive_target_groups :
      (ms : List Message) (h : Handler) (m : Option (List String))
      (rest : List (Option (List String)))
      → Runs ms h
      → h.target_group_ch ≡ m ∷ rest
      → Runs ms (react (record h { cni_target_group_arns = m; target_group_ch = rest }))
  receive_endpoints :
      (ms : List Message) (h : Handler) (m : Option (List String))
      (rest : List (Option (List String)))
      → Runs ms h
      → h.endpoint_ch ≡ m ∷ rest
      → Runs ms (react (record h { endpoints = m; endpoint_ch = rest }))
