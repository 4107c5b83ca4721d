-- ===== src/Lib.antt =====
-- Planipus keeps a person's availability consistent across calendar accounts. Paths below are from
-- the root of the repository.
--
-- CalendarSync models packages/calendar-sync/src, the shared contract that decides, for each event
-- of a source calendar, what its copy on a destination calendar should be.
--   Json: `JsonValue` of types.ts, and canonical.ts (`canonicalizeJson`, `sha256Canonical`).
--   Types, Events: the other types of types.ts.
--   Platform: what the package takes from the Temporal polyfill, from the engine's Unicode tables
--     and from node's hashes; it is a parameter, and its laws are hypotheses of the theorems.
--   DestinationEdits: destination-edits.ts.
--   Hours: hours.ts. Intervals has `resolveLocal` to `deduplicateAndSort`, Evaluation has
--     `evaluateHours` and `materializeHours`. The loop over dates counts down from 371, which is
--     where the source throws, so no fuel runs out. Instants, dates and times are counted as
--     natural numbers from the first that Temporal can represent.
--   Evaluate: evaluate.ts. NoSync has `containsNoSync`, Validation has `excluded`, `validate`,
--     `effectiveAvailability` and `timingInterval`, Transform has `transform`, and Decision has
--     `evaluatePolicy`, one function for each stage of its body. An early `return` and an exception
--     are the two ways to leave a stage.
-- Common holds the array and set functions of JavaScript, sorting, and results that may be errors.
--
-- Jobs models server/src/jobs, the queue through which all background work runs.
--   ErrorCode: `safeErrorCode` of server/src/foundation.ts.
--   Queue: queue.ts over a table of rows (`ScheduledJobTable` of server/src/database/types.ts, with
--     the unique indexes of server/migrations/0001_initial.sql). Each statement or transaction of the
--     class `PostgresJobQueue` is one step; the rows that other transactions lock are a parameter of
--     `lease`. Calls has any sequence of calls. Table, Leasing, Updates, Calls and Ownership have its
--     theorems.
--   LeasedJob: leased-job.ts, `processLeasedJob`, over an interface of the queue's operations. What
--     happens during the dispatch is a list of steps, heartbeats and changes by others, in any order.
--
-- ConflictResponse models server/src/conflict-response/types.ts and engine.ts, which find the
-- invitations that may be declined with a private reply.
--   Records: the types. Engine: `workInvitationCandidate` to `conflictPreviewResult`. Documents: the
--     documents that are hashed. Overlap and Candidates have the theorems. A stored event is a
--     JSON document of any shape. `Date.parse`, `new Date` and `toISOString` are parameters.
--
-- Planning models server/src/planning/types.ts and engine.ts, which plan availability boundaries and
-- smart meetings.
--   Types: the types, and what `Date` and `Intl` give, as a parameter. Times are milliseconds from the
--     first instant of a `Date`.
--   Slots: `chooseMeetingSlot` and its helpers. The loop over durations has one more step of fuel than
--     the longest duration has minutes, and the loop over cursors one more than the end of its window
--     has milliseconds, which is enough since both move at each step. Texts of instants are compared
--     as texts, as the source does.
--   Boundary: `planAvailabilityBoundary`, and the helpers of both plans. Engine: `planSmartMeeting` and
--     `planScheduling`. Both plans use the hours evaluator of CalendarSync.
--   Choice, Openings, Best, Schedule and Protection have the theorems.
--
-- Sync models the part of server/src/sync that plans, carries out and checks the writes of copies.
--   Store: the rows of server/src/database/types.ts that its parts read and write, in one store.
--   Provider: the interface of server/src/providers/types.ts, which is a parameter, with any state;
--     and programs that run on the store and the providers and may throw.
--   Effects: effects.ts, the executor of the outbox. Lease has `lease`; Execute has `runBatch` to
--     `executeOneLocked`; Rows the rows that it reads and its tests, with basis.ts; Attempt the calls
--     of the provider, from the `try` on; Missing `managedEventId`, `eventBelongsToProjection` and
--     `scheduleReplacementAfterMissing`; Steps `defer`, `supersede`, `succeed`, `holdAmbiguous`,
--     `fail` and `audit`. The times that one transaction takes are one time, the effects that other
--     transactions lock are a parameter, and an error of the database is a value: it undoes the
--     store, but not what a provider has done. Order, Remote, Settling, SettledWrites, Settled and
--     Foreign have the theorems.
--   Reconcile: reconciliation.ts. Projecting has its pure functions and the input of
--     `evaluatePolicy`, Reasons the texts of the reason codes, Observe the rows that
--     `reconcileObservation` reads and sets, and Intents its last part and the whole. It uses the
--     model of `evaluatePolicy` in CalendarSync. Drafts has `compilePolicyDraft` and
--     `destinationCapabilities` of server/src/policy/service.ts, Passes the pages of `reconcile` and
--     Run the whole of it. The loop over pages has one more page of fuel than there are observations,
--     which is enough. Recording, Authority, Termination and Outcome have the theorems.
--   Verification: verification.ts. Decision has its types, `classifyDestinationVerification` and
--     `destinationRepairGeneration`, with the notices that notices.ts records; Guards what its
--     transactions read again, Repair `scheduleRepair`, `holdDestinationEdit` and
--     `holdOwnershipMismatch`, Claim `claimDue` and `loadTarget`, and Batch `verifyBatch`. Claiming,
--     Evidence, Coherence, Counts and Owned have the theorems.
--   Notices: notices.ts. Reads has `acknowledge` and the reads and tests of `resolve`, Resolve the
--     whole of it. A transaction gives a store and an answer, and
--     an answer that is an error puts the store back. Decided and Restored have the theorems, and
--     Held and Recoverable those on an edit that verification.ts holds and that is decided here.
--
-- Policy models the requests of a user on a policy that runs, of server/src/policy/service.ts, on the
-- store of Sync.
--   Requests: who asks, and `requestReconcile`. The columns that only a request reads are a parameter.
--   Evidence, Recovery: `retryBlocked`, its tests of a blocked copy and its writes. Current, Safety,
--     Retried and Blocked have the theorems.
--   Calendars, Pausing: `setPaused`, with `requireNoConflictResponseRule`,
--     `loadPolicyCalendarCapabilities`, `requirePolicyCalendars` and server/src/providers/
--     calendar-identity.ts. Deferred, Resumed and Permitted have the theorems, with what the executor of
--     Sync does while a policy is paused.
--
-- Not modelled: the preview and the activation of policies, the rules of the planner and of the
-- conflict responses, and the source sync, which move whole documents between the database and the
-- providers; the validation of request bodies, which rests on regular expressions and Intl; the
-- providers themselves, sessions and encryption, the HTTP API, the web interface and the Mac
-- application.
pub mod Common
pub mod CalendarSync
pub mod Jobs
pub mod ConflictResponse
pub mod Sync
pub mod Policy
pub mod Planning
