-- ===== src/Lib.antt =====
-- A model of the controller, which watches the ingresses and route groups of a Kubernetes cluster
-- and keeps CloudFormation stacks with AWS load balancers in line with them.
--
-- In each round the worker (worker.go) lists the resources, the stacks and the certificates, builds
-- the model of the load balancers that should be there, compares it with the stacks, and creates,
-- updates or deletes stacks and writes the load balancers' names into the resources' status.
--
-- Certs models certs/provider.go: the summary of a certificate. Certs/Matching is
-- certs/matching.go: prefixGlob, FindBestMatchingCertificate and FindBestMatchingCertificates.
-- Certs/Caching is certs/caching.go, where the answers of the concurrent providers are the list in
-- which they arrive.
-- Kubernetes models the types of kubernetes/ingress.go, kubernetes/routegroup.go and
-- kubernetes/adapter.go; Kubernetes/NewIngress is newIngress and its two callers, and
-- Kubernetes/Listing is ListResources, the class filter and UpdateIngressLoadBalancer.
-- Kubernetes/Pods is PodInformer of kubernetes/pods.go over the updates that it is handed.
-- Aws/Stack models the Stack of aws/cf.go; Aws/Stack/Reading is mapToManagedStack, isManagedStack
-- and the calls that find stacks, and Aws/Stack/Spec is createStack, updateStack and deleteStack.
-- Aws/StackSpec is its stackSpec. Aws/Template is aws/cf_template.go: Aws/Template/Listeners adds the
-- listeners and Aws/Template/Generate builds the whole of the template.
-- Aws/LoadBalancer is aws/elbv2.go: the load balancer's state, with Aws/LoadBalancer/Targets for the
-- targets and Aws/LoadBalancer/States for getLoadBalancerStates. Aws/CloudWatch is aws/cloudwatch.go,
-- Aws/Ec2 and Aws/Ec2/Subnets are aws/ec2.go, and Aws/Naming is aws/naming.go.
-- Aws/Providers is aws/acm.go, aws/iam.go and aws/certs.go, the providers of certificates.
-- Aws/Adapter is the Adapter of aws/adapter.go, with a module for each part of it: Setters, Filters,
-- Building (buildManifest), Subnets (FindLBSubnets), Instances (UpdateAutoScalingGroupsAndInstances),
-- Targets (UpdateTargetGroupsAndAutoScalingGroups), Cni (SetTargetsOnCNITargetGroups), States
-- (GetStackLBStates) and Stacks (CreateStack, UpdateStack, DeleteStack).
-- Aws/Asg is aws/asg.go: the groups by name and tags, with Aws/Asg/Filters for testFilterTags,
-- Aws/Asg/Chunks for processChunked and Aws/Asg/Targets for updateTargetGroupsForAutoScalingGroup.
-- Worker is the loadBalancer of worker.go, with addIngress, CertificateARNs, Owner, Status and
-- inSync; Worker/Model is buildManagedModel and what it calls; Worker/Run is createStack,
-- updateStack, deleteStack and updateIngress, and Worker/Round is doWork. Worker/Cni is
-- cniEventHandler as a step relation, with the channels as queues; what PodInformer and
-- UpdateTargetGroupsAndAutoScalingGroups send is what it receives. Worker/AlarmConfig is
-- getCloudWatchAlarms.
-- Tests runs the definitions on concrete inputs. Prelude holds what all parts share: lists measured
-- by native numbers, maps as association lists, the string functions and a result type.
--
-- Names are the source's in snake case. A Go map is an association list (Dict), whose order stands
-- for the order in which a range over it runs. Times are nanoseconds since Go's zero time, which is
-- 0; the clock is read once for a call. A nil pointer is none; a nil dereference is a fault, shown as
-- none (Worker.status) or as a step that does not go on (Worker.Round.handle), which the round turns
-- into a problem as the recover of doWork does. int and uint are natural numbers, since the code only
-- compares them and adds lengths of slices.
-- A call that changes something outside takes the state of the outside world and returns the new
-- one; a paginator is the list of its pages. The loop of processChunked runs on fuel, one more than
-- the length of the slice, which is enough for every positive chunk size; for size 0 the source
-- loops for ever, and the model returns none.
--
-- The template holds the properties that the code sets, as expressions (Ref, Fn::GetAtt, Fn::Join or a
-- literal); the two regular expressions of aws/naming.go are recursions over the text.
--
-- The channels of the CNI mode hold 10 messages. Worker/Cni has that limit: a send is a step that
-- waits for room. UpdateTargetGroupsAndAutoScalingGroups and PodInformer append what they send to a
-- list without a limit, so that what they do is what they do while cniEventHandler receives.
--
-- Parameters stand for code outside the repository: the verification of a certificate
-- (crypto/x509), the PEM blocks of a text, SHA-256, the JSON text of the template and of the alarms,
-- the YAML parser, the formats of numbers and times, ToLower, the text of a new UUID, and the APIs of
-- AWS and Kubernetes. What a theorem takes from an API is a named hypothesis.
-- Not modelled: the HTTP client and the informer, the set-up of the clients of AWS, the loop that
-- starts a round at each interval, command-line flags, metrics and logging, which are calls of
-- libraries; and the generated types of CloudFormation with their JSON encoding.
pub mod Prelude
pub mod Certs
pub mod Aws
pub mod Kubernetes
pub mod Worker
pub mod Tests
