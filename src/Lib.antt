-- ===== src/Lib.antt =====
-- Verification of the AI CCTV platform's server (server/src, TypeScript).
--
-- The platform takes detections from cameras of several organizations, turns them into
-- incidents, and shows each organization its own rows only. The server is modelled as functions
-- on an explicit state; the database's row-level policy stands below every statement.
--
-- Which file models which part:
--   * Common: operators, Boolean tests on the native numbers, lists and texts;
--   * Access.Errors: server/src/lib/errors.ts and the error handler of server/src/middleware/http.ts;
--   * Access.Rbac: server/src/lib/rbac.ts, roles and permissions;
--   * Access.Directory, Access.Sessions: server/src/services/auth.service.ts and
--     server/src/services/membership.service.ts on the tables of users, sessions and members;
--   * Access.Tokens: server/src/lib/crypto.ts, server/src/services/stream.service.ts and the signed
--     URLs of server/src/services/storage.service.ts. `Primitives` holds the libraries' part;
--   * Access.Guards: server/src/middleware/context.ts, from a cookie to a bound handle;
--   * Tenancy.World: the rows of the tables (server/src/db/migrations) and, beside them, stored objects,
--     published messages and the count of ids given out. `Runtime` holds what the runtime
--     provides (ids, decimal and JSON texts, lower case), `Clock` the times a handler reads;
--   * Tenancy.Rls: server/src/db/pool.ts, `withTenant`, `withAppRole` and `withUser`, and the
--     statements that a handle runs. A handler takes the state to an answer or an error with the state after it;
--   * Tenancy.Isolation: what an organization owns of the state, and rules that a handler leaves
--     another organization's part; Tenancy.Triples: rules that a handler returns, and with what;
--     Tenancy.Outcomes: rules for what holds where a handler returns;
--   * Services.Storage, Services.Evidence, Services.Notification: server/src/services/storage.service.ts (keys),
--     server/src/services/notification.service.ts and server/src/services/audit.service.ts;
--   * Services.Cache, Services.Resource: server/src/services/cache.service.ts and
--     server/src/services/resource.service.ts;
--   * Realtime.Hub: server/src/realtime/hub.ts;
--   * Ai.Zone, Ai.Schedule, Ai.Rules: server/src/ai/zone.ts, server/src/ai/schedule.ts and
--     server/src/ai/rule-eval.ts, from a raw detection to the events it raises. The operations of
--     JavaScript's numbers are the parameter `NumberOps`;
--   * Ai.Types, Ai.Engine: server/src/ai/types.ts and server/src/ai/engine.ts, `processDetection` with its rule
--     lookup, cooldown, correlation of fire and smoke, evidence and alerts;
--   * Ai.Tracker: server/src/ai/tracker.ts, the tracks of a camera's session;
--   * Media.Status, Media.Health: server/src/media/health.service.ts, `applyHealthUpdate`;
--   * Media.Pipeline: the class `CameraPipeline` of server/src/media/worker.ts, one camera's stream as steps
--     of the event loop: its exit, the timeout, a frame, the end of an inference and of the
--     submission of its detections, a flush, a stop;
--   * Media.Frames: server/src/media/frame-source.ts, the buffer that frames are cut from;
--   * Media.Worker: the class `MediaWorker` of server/src/media/worker.ts, with its map of pipelines;
--   * Api.Secrets: the encryption of camera credentials in server/src/lib/crypto.ts;
--   * Api.Sites, Api.Cameras, Api.Members, Api.Events: the bodies of the routes of those names in
--     server/src/routes. A body runs on a handle `db`; `Caller` is what it reads of the request;
--   * Api.Requests: twelve of those routes as one function of a request, from the cookie to the
--     message to the hub;
--   * Api.Intake, Api.Jobs: server/src/jobs/worker.ts, and the intake of events that it shares with
--     the ingest route;
--   * Api.Objects: server/src/routes/storage.routes.ts, signed objects and the playback of streams;
--   * Api.Internal: server/src/routes/internal.routes.ts, the worker's token and its reports.
-- The files below a component hold its theorems, and its Examples the tests.
--
-- Conventions. A confidence is a natural number of thousandths, a time one of milliseconds. An
-- absent optional field is `none`, as is null. A query's `rows[0]` is the first row that the
-- policy shows. The metadata of audit rows is left out. A publication is recorded with its
-- organization; which sockets get it is the hub's matter. A stored object is recorded under its
-- key; the check of the path below the storage root is not modelled. A statement fails by the policy
-- and by the uniqueness that a handler relies on only: foreign keys and failing writes of files are
-- left out. A uuid is the text that PostgreSQL prints for it: where a request spells one with upper
-- case letters, the model's handlers get its printed form.
--
-- One loop runs on fuel: the extraction of frames, with a round for every byte of the buffer, which is
-- enough since each round drops two bytes at least. Every other recursion is on a list, a text or a
-- number. A run of `reconcile` is taken as one step, without another run between its awaits.
--
-- Not modelled: deletions whose cascades the database carries out, the dashboard's lists and the
-- routes of rules, reports, billing and authentication, SQL beyond the statements used, the connection pools, FFmpeg, the
-- inference service (inference-service), the web client (web), configuration, migrations and
-- seeds.
mod Common
pub mod Access
pub mod Ai
pub mod Services
pub mod Media
pub mod Tenancy
pub mod Realtime
pub mod Api
