-- ===== src/Lib.antt =====
-- BreakPilot gives an agent control of debuggers. Sessions hold breakpoints, a runtime provider
-- talks to the debugger, an event buffer and handles carry what happens at run time to the
-- agent, and a daemon lives as long as it has clients.
--
-- Files and code, with paths from the root of the repository:
--
-- - Common: the shared helpers. A JavaScript Map is Common/Dict, a list of entries in the order
--   of insertion; a throw is the constructor throw of Result; undefined is none.
--
-- - Breakpoints: the records of src/types/sessions.ts. Breakpoints/Manager is
--   src/sessions/BreakpointManager.ts (for sessions): add, updateVerification, remove, clear,
--   list, get, listForSource, replaceSource and replaceSources are the functions of those names;
--   Breakpoints/Projects is the half of it for projects, addProject to listProject.
--   Breakpoints/Patch, Evidence and Reconciler are src/sessions/BreakpointReconciler.ts: applyPatch
--   and changedFields, the normalisation of a provider's answer, and update with updateLocked,
--   restoreOriginalSources and their helpers;
--   Breakpoints/Reconciler/Temporary is withTemporaryBreakpoint.
--
-- - Events is src/runtime/RuntimeEventBuffer.ts, with append and read.
--
-- - Capabilities is src/runtime/ProviderCapabilities.ts.
--
-- - Handles is src/runtime/AgentHandleRegistry.ts, Leases is src/http/ClientLeaseManager.ts, and
--   Sessions is src/sessions/SessionStore.ts and SessionCoordinator.ts.
--
-- - Dap/Session is src/dap/DapSession.ts: what the handlers of startClient, waitForBreakpoint,
--   waitForStopOrTerminationAfter, captureStopBoundary and disposeClient do with the session.
--
-- - Dap/Wire and Dap/Client are src/dap/DapClient.ts: the frames of #send and #onData, and
--   request, sendEvent, close, #handleMessage and the handlers of start.
--
-- - Ide is src/ide/DebuggerFeatureNegotiation.ts; Ide/Records, Ide/Registry and Ide/Upsert are
--   src/ide/IdeClientRegistry.ts: its records, its operations, and upsertSession.
--
-- - Security is src/security/SecurityPolicy.ts.
--
-- - Adapters is src/debug-adapters/AdapterRegistry.ts, with get as resolve and has as
--   is_registered.
--
-- Parameters: resolve is path.resolve; before orders the source keys; set_breakpoints is a
-- provider, which takes its own state and the store to those at the time when its promise
-- settles; text decodes UTF-8, parse is JSON.parse with the reading of the fields of a message,
-- stringify is JSON.stringify, and refusal is what the transport throws when it does not take
-- bytes; lower_case is toLowerCase; boundary is captureStopBoundary of a provider and callback
-- the action under a temporary breakpoint; acquire is the wait for the locks of the sources, in
-- which other tasks may run. Identifiers, times and texts of times are arguments. The fuel of
-- update bounds the rounds of its loop, which the code leaves open: with none left the model
-- throws still_moving, so no result of the code depends on it. The loop of #onData has one unit
-- of fuel more than there are bytes, which is never used up.
--
-- Not modelled: the requests of the debug adapter protocol, the runtime providers themselves,
-- inspection, the loading of policies, assertWorkspacePath and the suggestion in the error of a
-- blocked expression, the inference of a language, the servers, the command line and the editor
-- extensions, which are input and output or stand outside these parts. A text that is a number
-- (handle names) is the number; dates are texts that are passed on.
pub mod Common
pub mod Breakpoints
pub mod Events
pub mod Handles
pub mod Leases
pub mod Sessions
mod Tests
pub mod Capabilities
pub mod Dap
pub mod Ide
pub mod Security
pub mod Adapters
