-- ===== src/Lib.antt =====
-- The Alibaba Cloud NLB pool operator. It keeps pools of network load balancers whose ports are cut into
-- slots: the pool controller sizes the pool and creates its load balancers and allocations, and the
-- allocation controller gives each slot's ports to one pod at a time. The two meet only in Kubernetes
-- objects; both call the cloud through one client.
--
--   Base        lists, 32-bit integers and text over the native numbers, and Boolean tests.
--   Types       apis/v1alpha1 and the children's types of apis/nlboperator and apis/eipoperator, with the
--               request types of pkg/provider. A text with known values is a data type with one case for
--               any other text. Fields that no handler reads are left out.
--   World       what a handler can do. World.Calls has every call to the API server and the cloud, with
--               the type of its answer, and the environment, which answers from the history of calls and
--               so stands for any server, any cloud and any other writer in between. World.Monad is the
--               handler's control flow: the trace of calls, early return, panic, and `running` for a loop
--               whose fuel ran out. World.Keeps, Only, Meets, Within, Returns, Flags and Progress have the rules for
--               invariants of the trace, for which calls are made, for values, for values in one
--               environment, for handlers that always return, for loops that clear a flag, and for what a
--               handler comes to; World.Requests has one fact for each call.
--   Provider    pkg/provider: Errors (the error predicates, with those of the allocation controller), Client
--               (NLBAPIClient), RateLimiter (RateLimitedClient), Sdk (the SDK's operations, a parameter) and
--               Cloud (AlibabaNLBClient). Proofs: Sessions (the limiters), Pages (the paging
--               lookups) and Absence.
--   Allocation  pkg/controller/portallocation_controller.go, a module for each phase: Reconcile
--               (Reconcile, podToPortAllocation), Slots (the slot arithmetic), Provision
--               (handleProvisioning: Groups, Listen and Promote are its three phases), Available
--               (handleAvailable, availableResumeBind), Binding (handleBinding), Bound (handleBound,
--               handleDisable, handleDisabled), Releasing (handleReleasing, resetToAvailable), Deletion
--               (handleDeletion) and Helpers. A Go function has its own name in snake case; a `case` or a
--               loop body that has a name of its own says in a comment which code it is. Proofs: Calls
--               (which handlers only read, ask and patch), Transitions (the state machine), Layout (slots
--               and ports), Claims (claiming a pod), Vacancy (releasing) and Erasure (deletion).
--   Pool        pkg/controller/nlbpool_controller.go: Reconcile (Reconcile: the safety gates, the phases of
--               the deletion, the provisioning path), Deletion (deleteInfrastructure,
--               deletePortAllocations, buildDeletionPlan, hasPortAllocations, hasChildResources),
--               Confirmation (hasCloudNLBs), Sizing (computeDesiredNLBs), Infrastructure
--               (ensureNLBsAndEIPs), Expansion (ensureSlotResources), Status (syncPoolStatus, updatePhase),
--               Builders (the objects that are created, paToNLBPool) and Legacy (what nothing calls).
--               Proofs: Gates (the safety gates), Teardown (the deletion: Calls, Children, Order,
--               Infrastructure, Recorded, Whole, Progress, Finalizer), Readiness, with Creation, and Health,
--               with Groups (load balancers), Counting (status and size), Faults (a zero divisor) and Labels.
--   Tests       a small cluster, and the theorems at it.
--
-- An `int32` is an integer that wraps at 32 bits; a division by zero and an index out of range are the
-- panics of Go. The loops of handleDeletion run while a list in the status is not empty and each write
-- may replace the status, so they run on fuel; a server that echoes status writes ends them within the
-- length of the list. MD5, the time formats, the finalizer functions and owner references belong to
-- other packages and are functions of the environment.
--
-- The operations of a client act on the state of the world, in which the limiters of golang.org/x/time/rate
-- keep their tokens; the lookups of AlibabaNLBClient run on fuel for the pages of a listing. The handlers
-- do not use this state: they see the client's answers as those of the environment.
--
-- Not modelled: the construction of the SDK's client, the mock client, main.go, generated code, log
-- messages and the texts of events.
mod Base
pub mod Types
pub mod World
pub mod Provider
pub mod Allocation
pub mod Pool
mod Tests
