-- ===== src/Lib.antt =====
-- KangalPatch, an operator that upgrades the nodes of a Talos Linux cluster one after another.
--
-- A PatchPlan names the target versions, the nodes and the order of the rollout. The PatchPlan
-- controller divides the nodes into groups and makes a PatchJob for each node; the PatchJob
-- controller takes that node through its phases: cordon and drain, Talos upgrade, reboot, health
-- check, and the Kubernetes upgrade in place. They meet in the API server alone.
--
-- Prelude: Boolean tests, signed integers (`int`, `time.Duration`), lists, text and maps from text.
-- Api: the resources of api/v1alpha1 and the fields that the operator uses of Kubernetes objects.
-- Effect: what the operator asks of the world, as a type of requests with the type of their answers.
--   A handler of the controllers is a tree of requests; `run` and `requests` run it in any world, and
--   `Sat` and `Trace` speak of all worlds at once. A call of the clock, of the Kubernetes API or of the
--   Talos API (internal/talos/client.go) is a request; nothing is assumed of the answers.
-- Libs: what is taken from apimachinery and client-go (versions, selectors, label values, retries), a
--   parameter of the definitions that use it.
-- NodeUtil, Images, Talos, Drain: internal/nodeutil, internal/patchutil/version.go,
--   controllers/talosconfig.go and internal/drain, function by function.
-- SupportMatrix: internal/supportmatrix/supportmatrix.go.
-- Release: internal/release/release.go: the filter of List, and Select; the HTTP request is left out.
-- Job: controllers/patchjob_controller.go, a module for the handlers of each part. Job/Effects is about
--   the requests of a reconcile, with the diagram of the phases; Job/Progress is about how it ends; and
--   Job/Recovery and Job/Completion are about what must be known of a node before a job leaves
--   Rebooting or is completed after a Kubernetes upgrade.
-- Calendar, Maintenance: internal/maintenance/maintenance.go, with what it uses of package time and of
--   Sscanf; the local time zone is taken to be UTC.
-- Scheduling: internal/scheduling/scheduling.go, its checks in Checks, and the proofs below it.
-- The PatchPlan controller (controllers/patchplan_controller.go, scheduler.go, leases.go, retention.go)
--   is below Plan, a module for the operations of each part, with controllers/preflight.go in
--   Plan/Preflight and controllers/autoupdate.go in Plan/AutoUpdate. An operation returns the PatchPlan
--   that it has patched. Plan/Creation is about the jobs that a reconcile creates, Plan/Mirroring about
--   its leases, Plan/Purging about the deletion of jobs, and Plan/Totals about the counts of a status.
-- Samples, Witnesses: a small cluster, and the theorems applied to it.
--
-- An instant is a number of nanoseconds since Go's zero time, a duration a signed number of them;
-- saturation and overflow of 64-bit integers are not modelled, but for the minor version of
-- Release.permitted, which wraps. No loop needs fuel: each runs over a list, or over the attempts of a
-- retry. Numbers in messages are printed with up to forty digits, more than a 64-bit number has.
-- Logging is left out, and so are the fields of Kubernetes objects that the code does not use. The
-- lookup of an image (internal/registry), the list of releases and the calls of internal/talos are
-- requests of the world. Preflight probes the nodes one after another, where the code asks up to ten at
-- once. After a patch the client keeps the object that the server replies with; the model keeps the one
-- that was sent. Not modelled is cmd/manager, which only wires the controllers up.
pub mod Prelude
pub mod Api
pub mod Effect
pub mod Libs
pub mod Images
pub mod NodeUtil
pub mod Drain
pub mod Talos
pub mod SupportMatrix
pub mod Release
pub mod Calendar
pub mod Maintenance
pub mod Job
pub mod Scheduling
pub mod Plan
pub mod Samples
pub mod Witnesses
