-- ===== src/Lib.antt =====
-- A model of cluster-api-provider-scaleway, the Cluster API infrastructure provider for Scaleway,
-- and proofs about it.
--
-- The program runs two Kubernetes controllers and two admission webhooks. A controller reads an
-- object, makes a Scaleway client from a secret and a scope around the object, and runs services
-- that find, create, update or delete Scaleway resources; the object is patched at the end. A
-- ScalewayCluster stands for a Private Network, a Public Gateway, a Load Balancer and security
-- groups, a ScalewayMachine for a server.
--
-- Which file models which part:
--   Api/Cluster, Api/Machine, Api/Group, Api/Ports   api/v1beta1/scalewaycluster_types.go and
--                        scalewaymachine_types.go, with `ToRange`, `ToInstance` and the others
--   Webhook/Cluster, Webhook/Network, Webhook/Immutable   api/v1beta1/scalewaycluster_webhook.go
--   Webhook/Machine      api/v1beta1/scalewaymachine_webhook.go
--   Webhook/Field        field errors and admissions, as the Kubernetes libraries have them
--   Scope/Cluster        internal/scope/cluster.go
--   Scope/Machine        internal/scope/machine.go
--   Client               internal/service/scaleway/client: the searches over listings
--   Service/Vpc          internal/service/scaleway/vpc/vpc.go
--   Service/Gateway      internal/service/scaleway/vpcgw/vpcgw.go
--   Service/Balancer     internal/service/scaleway/loadbalancer/loadbalancer.go
--   Service/Group        internal/service/scaleway/securitygroup/securitygroup.go
--   Service/Instance     internal/service/scaleway/instance/instance.go
--   Controller/Secret    internal/controller/secret.go
--   Controller/Cluster   internal/controller/scalewaycluster_controller.go
--   Controller/Machine   internal/controller/scalewaymachine_controller.go
--   Lifecycle            a ScalewayCluster in the API server between the controller, the webhook and
--                        its users, as a step relation; Lifecycle/Machines: a ScalewayMachine
-- Names are those of the code in snake_case: `getOrCreatePN` is `Service.Vpc.get_or_create_pn`. Laws
-- and the files beside it hold theorems: Safe about panics, Live about reconciliations that come to
-- their end, Done about what a reconciliation that comes to its end has done, Reused about clusters
-- that reuse a network, Leak about an address that is left, Order about the order of calls, Whole about `Reconcile` as the manager calls it, Frame
-- about what is left alone. Tests has runs on small inputs; Tests/Serving is an outside that
-- answers every call.
--
-- How the code is modelled. A function that calls the Scaleway or the Kubernetes API is a program
-- of Prog: a tree of requests with a branch for every answer. Cloud lists the requests, with the
-- fields that the code sets and reads. A `Handler` answers them from a state of any type, in any
-- way, so a theorem over every handler holds whatever the outside does, errors included. `result`,
-- `final`, `requests` and `changes` are the value of a run, the state it leaves, what it asks, and
-- what it asks beyond reads; Prog/Runs says what the values of a run meet, and Prog/Bound how many
-- requests it makes. Result has Go's errors as values, the wrapping of errors and
-- `errors.Is`, and `panicked` for a nil pointer that is followed. Code that mutates an object takes
-- it and returns it. Pure functions of libraries (the SDK's regions and zones, net, netip,
-- text/template, uuid, the annotation for a pause) are the fields of the record Sdk, a parameter.
--
-- A step of Lifecycle is a whole run together with the patch of the object, so what it relates is
-- the object as it is stored. A run of which a patch failed is a step that stores the finalizer
-- alone, or with it the status alone, or all but the status, or only changes the outside. Runs of one object do not
-- overlap, as controller-runtime has it; what others do to the resources in between is a step, too.
-- A user's update changes the specification, and the API server calls the webhook for it. For a
-- machine, the patch of a run goes through the webhook as well; a step of a cluster takes its patch
-- as admitted.
--
-- What is assumed of the outside is a hypothesis of a theorem. IsCalm: no call panics. IsPlain: no
-- function of a library panics. IsWilling: every call succeeds. IsServing and IsServed say what the
-- answers are beyond that. Nothing is assumed that ties an answer to earlier calls, but for the
-- network that the VPC service looks up again.
--
-- Bounds. Numbers are natural numbers or integers; Go's `Atoi` is bounded by 2^63 and conversions to
-- 32 bits are written out as remainders. All loops are over lists, by structural recursion, so
-- the code needs no fuel. `print` of Api/Ports/Print, which is no code of the program, has as much
-- fuel as the number that it writes.
--
-- What is left out: logging, contexts, the details of error texts; the pages of a listing, which the
-- SDK joins (but for the addresses of Load Balancers, of which the code reads the first page, so the
-- listing stands for that page); the metadata that a patch writes back into the object; the order of a Go map, which is
-- that of a list (the volumes of a server, the failure domains of a status, whose values are always
-- the same). cmd/main.go, the registration with controller-runtime, the template types, generated
-- code and manifests are not modelled.
pub mod Prelude
pub mod Result
pub mod Cloud
pub mod Api
pub mod Sdk
pub mod Prog
pub mod Client
pub mod Scope
pub mod Service
pub mod Controller
pub mod Webhook
pub mod Lifecycle
pub mod Tests
