-- ===== src/Lib.antt =====
-- dinghy (personal-cloud): the hosted control plane, apps/control-cloud.
--
-- A workspace is one durable object with a document store. Browsers and machines call its
-- handlers; between their awaits other handlers run. Machines poll the workspace for commands and
-- report what came of them. A registry object holds each blob upload.
--
-- Prelude: library names, Boolean tests, lists, maps as functions, results of fallible handlers
--   (apps/control-cloud/src/core.ts).
-- Store: one collection of documents (apps/control-cloud/src/store.ts); Store.Refinement compares it
--   with a map.
-- Registry: apps/control-cloud/src/registry.ts. Registry.Range is `blobRange`; Registry.Upload is
--   the class `RegistryUpload`: its storage transactions, the checks of a request
--   (Registry.Upload.Request), and the object over time (Registry.Upload.System), where each event
--   is one stretch of code between two awaits and events of several requests come in any order.
-- Fleet.Commands: the command queue, `requestNomad` of apps/control-cloud/src/workspace.ts and the
--   agent routes for commands of apps/control-cloud/src/fleet.ts; Fleet.Commands.Delivery is the
--   queue over time. Fleet.Network is `networkNode` of fleet.ts. Fleet.Enrollment is how machines
--   join and report, with System for their requests over time, Grants, Once and Limit for what
--   becomes of tokens and of the limit. Fleet.Removal is `assertMachineRemovable` and the removal,
--   with Led about the coordinator.
-- Runtime: applications, apps/control-cloud/src/runtime.ts and apps/control-cloud/src/runtime.
--   Runtime.Placement is `deploymentTargets`. Runtime.Deploy is deploy.ts: State has the documents and
--   how a handler runs (it owns a copy of its deployment; at an await the workspace may change in any
--   way), Queue `queueDeployment`, Phases and Release the phases up to the switch of the service,
--   Cleanup what is stopped, Reconcile one pass of `reconcileDeployment`. Graph, Starting, Releasing and
--   Order follow the phases, Switch the promotion, Spared and Retained what is stopped and what not.
--   Deploy.Provenance is `deploymentRegistry`, Runtime.Scheduler the job helpers of common.ts.
--   Runtime.Backups is backups.ts: Requests what users and machines ask for, Passes and Retain what
--   the alarm does, System their order; Changes, Asked, Passed and Retention say what each does to
--   the operations, and Sound and History draw the conclusion. Deploy.Deadline is about deadlines.
--   Runtime.Databases is database.ts: State, Requests what users ask for, Phases and Reconcile what
--   the alarm does; Kept, Followed, Ends and Removed say what each phase keeps, that a pass ends and
--   what a removal leaves; Attached, Asked and Served are about the attachments of services.
--   Runtime.Readiness is readiness.ts with its children Pairs and Derived on what a list of nodes gives,
--   and Preflight the placement check of preflight.ts. Runtime.Environment is the environment
--   requests of runtime.ts, with Sums and Limits about their bounds. Runtime.Projects is the creation and
--   removal of services and projects: Homes says where a service lives, Cleared what clearing leaves.
--
-- Apple: apps/control-cloud/src/apple-jobs.ts and apps/control-cloud/src/apple-nomad.ts, for one job;
--   Apple.System has its requests and the alarm over time, Asked and Order the order of its
--   statuses, Honest what its Mac reports and how it ends.
--
-- Sealing: `seal` and `open` of apps/control-cloud/src/crypto.ts and of
--   apps/control-cloud/src/auth/crypto.ts. Sealing.Base64 has the encodings; Letters, Decoded, Sealed
--   and Opened follow a value through them. Strings are their 16-bit units; Utf8 is TextEncoder and
--   TextDecoder, Characters and Restored what they give back. AES-GCM and SHA-256 are the parameter Cipher, of
--   which IsAead says what is relied on, with the number of arguments that a call may have.
--
-- Store.Loops has what the loops of handlers that delete or write each chosen document leave.
--
-- Organize: `organize` of apps/control-cloud/src/project-organization.ts; Organize.Asked, Rows and Planned are
--   what it writes.
--
-- Identities are only compared, so they are numbers; times are milliseconds. Digests, encryption
-- and random identities belong to the platform: a digest is a parameter, encrypted texts are kept
-- as they are, and a fresh identity is one that was not used before. What a deployment waits
-- for is the record Platform, of which nothing is assumed. The only fuel is that of the loop over
-- predecessors, one round more than there are deployments.
--
-- Not modelled: SQL text, HTTP parsing and rendering, GitHub, Cloudflare and R2 calls, the web
-- application and the Rust services, since they are input and output or another language. Of the
-- workspace itself: service health (reconcileServiceHealth, observeService), the settings and the
-- start of the runtime, the submission of Apple jobs, authentication, migration and the registry's manifests
-- (handleRegistry).
pub mod Prelude
pub mod Registry
pub mod Store
pub mod Apple
pub mod Fleet
pub mod Runtime
pub mod Organize
pub mod Sealing
