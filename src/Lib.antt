-- ===== src/Lib.antt =====
-- The network topology map's frontend (frontend/src): the state that keeps the page, the server
-- and the user's edits in step.
--
-- The program. A React page (frontend/src/app/App.tsx) draws a snapshot of a map: nodes, groups,
-- links, monitors and statuses, with a revision. The server announces new revisions over an event
-- stream; frontend/src/app/liveSnapshotSync.ts holds that stream, asks for snapshots and recovers
-- from lost ones, and frontend/src/app/snapshotCoordinator.ts decides which fetched snapshot may
-- replace the one drawn, whatever the order of the responses. The user's edits go the other way:
-- dragged nodes through frontend/src/app/editorState.ts into the drawn records and through
-- frontend/src/app/nodePositionPersistence.ts to the server, the viewport through
-- frontend/src/app/viewportPersistence.ts, forms through the inspectors and, for monitors, through
-- frontend/src/components/MonitorPanel.tsx and frontend/src/app/monitorState.ts, which validates
-- them. frontend/src/icons.ts and frontend/src/app/iconId.ts turn saved icon identifiers into
-- addresses, and frontend/src/api/errors.ts turns failed responses into messages.
--
-- The files, with the code they model (paths from the repository's root):
--   Prelude     shared names, Boolean tests, lists over native numbers, text as UTF-16 code
--               units, trim and split, and the timers of the event loop (Prelude.Timer)
--   Types       frontend/src/types.ts, its records and enumerations
--   Numbers     the operations on JavaScript numbers that coordinates use, with their laws
--   Snapshot    frontend/src/app/snapshotCoordinator.ts (beginRequest, shouldApply) and
--               applySnapshot of App.tsx
--   Live        frontend/src/app/liveSnapshotSync.ts, every method, timer callback and promise
--               handler, and the page that the connection works for (Live.Page)
--   Viewport    frontend/src/app/viewportPersistence.ts (schedule, flush, flushForPageExit,
--               dispose), and the page's use of it in App.tsx (Viewport.Page)
--   Position    frontend/src/app/nodePositionPersistence.ts (schedule, flush), with entries on a
--               heap
--   Json        the values of JSON.parse, as the frontend tests them
--   Monitor     frontend/src/app/monitorState.ts (monitorDraftFor, draftForMonitorKind,
--               validateMonitorDraft, formatMonitorTarget and the other labels)
--   Editor      frontend/src/app/editorState.ts (applyNodePositionChanges,
--               mergeExternalPosition, draftResetKey)
--   Icon        frontend/src/app/iconId.ts, frontend/src/icons.ts and
--               frontend/src/generated/icon-manifest.ts, and the image that
--               frontend/src/components/TopologyNode.tsx shows (Icon.Glyph)
--   Generator   frontend/scripts/generate-icons.mjs, in both of its modes
--   Errors      frontend/src/api/errors.ts (apiErrorInfo)
--   Client      frontend/src/api/client.ts: the calls as requests (Endpoints), what becomes of an
--               answer (Outcome), and encodeURIComponent (Uri)
--   Forms       frontend/src/components/NodeInspector.tsx, LinkInspector.tsx and
--               GroupInspector.tsx, and MonitorEditor of MonitorPanel.tsx (Forms.Check)
--   Canvas      frontend/src/app/App.tsx, the functions above the component (toFlowNodes,
--               toFlowEdges, matchingLink, groupDropPosition and others) and the search
--   Session     frontend/src/app/App.tsx, the component: selection, saves, deletions, drops,
--               notices and loading, and a submission of the monitor editor through it
--               (Session.Submitting)
--   Panel       frontend/src/components/MonitorPanel.tsx, the component MonitorPanel: its
--               editor, its feedback, and the polling of manual runs
--   Sample      records for the tests; each component has its tests in a module Tests
--
-- How the code is modelled. An object is a record of its fields, beside the part of its
-- environment that it causes: pending timers, open streams, running requests, and what it has
-- reported or sent. A method that mutates the object is a function from records to records. A
-- callback, a promise handler and the part of an asynchronous function behind an `await` are
-- functions of their own, taken as steps; theorems about all orders of events quantify over lists
-- of steps. React's state setters are read as changes that the next step sees.
--
-- Abstractions. A timer fires at any time after it is set, not at its delay. A callback given by
-- the program does not throw. Numbers that may be fractional are a type parameter, with the
-- comparison and the arithmetic that a component needs and the laws of IEEE 754 that it relies on;
-- revisions, counters and seconds are natural numbers. toLocaleLowerCase and the base address are
-- parameters. A steps' list is finite and every function is structurally recursive, or recursive
-- on an accessibility proof, so no fuel is used.
--
-- Not modelled: rendering and styles, formatting by Intl and Date, fetch itself, React Flow, the
-- backend (another language), build and deployment.
pub mod Prelude
pub mod Types
mod Sample
pub mod Snapshot
pub mod Viewport
pub mod Position
pub mod Json
pub mod Live
pub mod Monitor
pub mod Numbers
pub mod Editor
pub mod Icon
pub mod Generator
pub mod Errors
pub mod Canvas
pub mod Session
pub mod Panel
pub mod Client
pub mod Forms
