-- ===== src/Lib.antt =====
-- Kontext: a Kubernetes control plane for agents. An Agent is a template with one of three modes; an
-- AgentRun is one execution. This library models the control plane, from the API types to the two
-- reconcilers, and the engine of the reference runtime that runs in a Pod.
--
-- The parts and their files:
-- - Prelude: shared names, and Go's strings (lists of bytes), decimal numbers, signed integers and maps
--   (association lists).
-- - Api (api/v1alpha1): the types, one record for each struct. A time is the number of nanoseconds
--   from the start of year 1, the zero Time being 0; a duration is an int64 of nanoseconds, with its
--   wrap-around and its saturating difference written out. A message is a format with its arguments.
-- - Policy (internal/runtimepolicy/provider.go): which credentials a provider needs.
-- - RunFactory (internal/runfactory/runfactory.go): NewForAgent, ResolveInvocation and ValidateTask.
--   Goal is the template language: interpolateGoal runs on fuel, one round for each byte and one for
--   the end, and Goal.Template describes the same language as lists of tokens.
-- - Schedule (internal/scheduler/scheduler.go, internal/scheduledrun/metadata.go): Policies is Parse,
--   Slots is LatestDue, RunNames and Labels are about RunName, Metadata is the stamp of a scheduled run. LatestDue runs
--   on fuel; the reconciler gives one unit for each nanosecond up to now and two more, which is enough
--   for every schedule that moves forward.
-- - Result (pkg/result/v1alpha1): the result envelope, its validation and its parsing, over
--   encoding/json as a record of functions. Result.Compact is compact.go, and
--   Result.Stream stream.go.
-- - PodStatus (internal/status/pod.go): what a Pod says of its AgentRun.
-- - Controller (internal/controller): Kube is what the reconcilers call, a record of functions from
--   the history of calls to an answer, so that answers may be stale, may fail and may reflect other
--   clients; an action takes a history to an outcome and a longer history. Status is setAgentStatus,
--   Service is reconcileService, Task is reconcileTask, Scheduled is reconcileScheduled, and Reconcile
--   chooses between them by the mode. Kube.Writes reads the creations and deletions off a history.
-- - PodBuilder (internal/podbuilder/podbuilder.go): the Pod of a run. Names are its names, Env its
--   environment, Build the Pod; a quantity is kept as text.
-- - DeliveryContract (pkg/delivery/v1alpha1/types.go): the request that delivers a goal to a standing
--   Service, and the signature of its response.
-- - AgentRuns (internal/controller/agentrun_controller.go, agentrun_delivery.go,
--   agentrun_delivery_credential.go; internal/conditions): the AgentRun reconciler, over the same
--   Kube. Cluster are its calls, Status its status writes, PodBacked the runs with a Pod of their own,
--   Credential the delivery secret, Delivery the runs that a Service takes, Reconcile the choice
--   between them. Calls and Ensures say what an action adds to the history and what holds of
--   its outcome; Life reads the phases of a run off a history.
-- - Engine (runtimes/reference/internal/engine, runtimeapi and conversation, internal/tooloutput):
--   RuntimeApi are messages and their validation, ToolOutput is Bound, Limits is limits.go, Envelopes
--   is envelope.go, Loop has the state of a run with what surrounds it, Loop.Turn is providerTurn,
--   Loop.Batch executeToolBatch, Loop.Run is Run, Loop.EmitFailure EmitFailure. The loop runs on fuel, one unit for each turn, and
--   the limit on the turns and one more are enough; the search of Bound has one unit for each byte and
--   one more, its interval being no longer.
-- - Fixtures and the modules named Tests: concrete inputs, and the theorems applied to them.
--
-- The reconcilers meet the run factory in new_for_agent, which both minting and scheduling use, and in
-- the names of standing runs, which the factory reserves and the Service reconciler reads. The AgentRun
-- reconciler builds its Pods by PodBuilder, reads them by PodStatus and, through it, by Result; the
-- runtime's engine writes the envelope that Result reads.
--
-- Parameters, with what is assumed of them where a theorem needs it: the API server, the clock,
-- SetControllerReference, IsControlledBy, SetStatusCondition, the cron library and the time zone
-- database, RFC 3339 printing and parsing, time.ParseDuration, the printing of floats and durations,
-- encoding/json, base64, HMAC-SHA-256, the first digits of SHA-256, randomness, the HTTP client, and a
-- runtime's provider, tools and context.
--
-- Not modelled: the admission webhook and its certificates, the evaluation harness, the reporter, the
-- runtime's providers, tools, MCP client and configuration, and the commands. They are input and output,
-- or clients of other services. Log lines and the text of errors returned by the API server are left
-- out. Counters of a status are not negative.
pub mod Prelude
pub mod Api
pub mod Policy
pub mod RunFactory
pub mod Schedule
pub mod Result
pub mod PodStatus
pub mod Controller
pub mod Fixtures
pub mod AgentRuns
pub mod DeliveryContract
pub mod Engine
pub mod PodBuilder
