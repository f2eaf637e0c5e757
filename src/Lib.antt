-- ===== src/Lib.antt =====
-- A verification library for omni-infra-provider-truenas, a Sidero Omni infrastructure provider that
-- runs Talos machines as TrueNAS virtual machines.
--
-- The program's parts here share Omni's resources, which they reach through the state client of
-- cosi-runtime. internal/noderotation replaces the machines of a MachineSet after its class has
-- changed: a discoverer lists candidates, `Plan` decides one step, `Execute` writes it, and the next
-- tick looks again. internal/autoscaler raises a set's machine count on request, behind a capacity
-- gate, and keeps away while a rotation holds its lock on the set. internal/singleton lets one
-- provider instance at a time hold a lease, in the annotations of the provider's status.
-- internal/provisioner checks what a class asks for before it makes a machine, whose name and
-- description carry the request's ID, and internal/cleanup removes what no request needs any more.
--
-- Base has the tests on numbers and texts, lists, integers and results that all files share; Text is
-- Go's strings, as lists of code points, with `strconv` and the parts of `strings` in use; Clock is
-- `time` on 64 bits, in nanoseconds from the Unix epoch; Omni has the resources, Omni.Store the state
-- client as an interface, with its documented effects as laws, and Omni.Memory an instance in memory.
--
-- Rotation is internal/noderotation. Annotations is annotations.go; Lock and Phase are the two
-- annotations that discovery.go reads and writes (parseRotationStateAnnotation,
-- parseSurgePhaseAnnotation and their formats); Candidate and Candidate.Sorting are the candidate,
-- its counts and sortRequestsByCreatedAt; Decision is actions.go; Plan is plan.go (Plan, planInPlace,
-- planSurge); Engine has the mutators of engine.go, and Engine.Execute the steps over the store
-- (Execute, withLock, withSurgeStep, teardownRequest). A tick is `plan` on what was observed, then
-- `execute` on a world of three stores. Cycle states what the world does between the ticks of one
-- surge cycle. `Plan` takes the clock and the lifetime of a lock as arguments. Generation has the
-- inputs of the hash in generation.go; Discovery is the scan of discovery.go (Discover,
-- listRequestStages, classifyRequests, checkRoleMismatch) on what the state client lists; Reconciler
-- is the tick of reconciler.go, which joins the scan, `plan` and `execute`.
--
-- Lease is internal/singleton/singleton.go: New and the annotations in Lease, the mutators of
-- casAcquire, refresh and Release in Lease.Claim, the retries of Acquire in Lease.Acquire with the
-- client's answers as inputs, and the loop of Run in Lease.Run on the list of its ticks.
--
-- Autoscaler is internal/autoscaler: Annotations is annotations.go, Capacity capacity.go with the
-- answers of TrueNAS as inputs, Lock isRotationLockActive, Discovery discovery.go (Discover,
-- classify), Writer IncreaseMachineCount, and Server the handlers of server.go with the adapter of
-- adapter.go; a handler takes the outcome of discovery, and answers with a value or a gRPC code.
--
-- Meta is internal/resources/meta/meta.go (BuildVMName, IsOmniVMName, ParseRequestIDFromDescription),
-- with omniVMDescription of internal/provisioner/ownership.go. Cleanup is runOnce of
-- internal/cleanup/cleanup.go with ListManagedZvols of internal/client/storage.go: the answers of
-- TrueNAS and Omni are inputs, and a cycle is the list of the changing calls that it makes.
--
-- Provisioner is internal/provisioner/data.go: the configuration with ApplyDefaults and BasePath in
-- the parent, safe names in Names, Validate in Validation, and validateExtensions of extensions.go in
-- Extensions. Deprovision is deprovision.go with the checks of ownership.go, as an outcome and the
-- list of its changing calls.
--
-- Numbers are natural, and Go's wrap-around on int64, uint32 and uint64 is written out where a value
-- can reach it. Loops recurse on lists; `digits` takes fuel, which format_uint sets to one more than
-- the number, and a numeral has no more digits than that; Acquire's three attempts are its own bound. The loop of
-- BuildVMName takes the name's length as fuel, since each round shortens the name.
--
-- Int64 is Go's int64 with its wrap-around and its division. Of internal/provisioner/steps.go,
-- Provisioner.Iso is the cache of Talos images with iso_tofu.go (its child Download has
-- downloadOrReuseISO and reverifyISOBeforeAttach, as transitions of the cached file and the user
-- properties that hold its baseline; Go's texts of a float64 are an interface),
-- Provisioner.Preflight the checks of pools and memory, Provisioner.Existing what a reconcile does
-- with a machine that is there, with the counters of provisioner.go in its child Retries (which
-- Deprovision.Forgotten clears at the end of Deprovision), and Provisioner.Create the
-- making of a machine (ensureZvol in Create, its devices and patches in Create.Machine), as an
-- outcome and the list of its calls, on what TrueNAS answers; Provisioner.Step joins the last three
-- to stepCreateVM. The call that applies a patch carries its kind only, and the paths and
-- IDs that the step leaves in the state of the request are left out. Provisioner.Mac is mac.go,
-- Provisioner.Patches what user_volume.go and config_patch.go put into patches. Monitor is
-- SelectPool of internal/monitor/monitor.go.
--
-- Left out: logging, metrics and the texts of errors and reasons, which are constructors; RFC 3339,
-- JSON, YAML and SHA-256, which are parameters or are not reached; tickers and the listener of the
-- gRPC server; the TrueNAS client and the probes, which are calls to services; the schematic and the
-- CD-ROM swap of an upgrade.
pub mod Base
pub mod Text
pub mod Clock
pub mod Int64
pub mod Omni
pub mod Meta
pub mod Cleanup
pub mod Provisioner
pub mod Monitor
pub mod Rotation
pub mod Lease
pub mod Autoscaler
