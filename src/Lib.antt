-- ===== src/Lib.antt =====
-- ZSJ-CRM: a model of the CRM's integration runtime, its authorization service, its organization
-- module, its business configuration, and the stores of its notifications, its event outbox and its
-- task center (packages/crm-modules/integration-runtime, authorization, organization,
-- business-configuration, notifications, eventing-outbox, task-center; the file names below are in
-- their src folders).
--
-- Parts. Calls to other systems go through the integration executor, which retries an operation
-- inside a deadline budget, behind a rate limiter, a concurrency limiter and a circuit breaker;
-- incoming webhooks pass a signature check and a replay store. Every request of a user is decided
-- by the fixed roles that the user's grants carry. Persons, employments, units, placements,
-- positions and assignments are effective-dated facts that are created, and closed once. The
-- business configuration keeps releases of dictionaries and of parameters' values, and says which
-- value is in force for a scope at a time; its service asks the authorizer, records every operation
-- in the audit before and after it, and changes the store in one command, with the event that
-- invalidates caches. Notifications are made from releases of templates for intents that producers
-- send, and are seen by their principals only. Messages wait in an outbox, where a publisher claims
-- them for a while; a consumer works on a message in one transaction with its receipt, and jobs end
-- once. A command on a task is claimed with a lease, so that one client at a time forwards it to its
-- source.
--
--   Prelude                    numbers as JavaScript has them, dictionaries, texts, signed counters
--   Integration/Errors         errors.ts: categories, thrown values, results
--   Integration/Breaker        circuit-breaker.ts: createCircuitBreaker
--   Integration/RateLimit      limits.ts: createFixedWindowRateLimiter
--   Integration/Concurrency    limits.ts: createConcurrencyLimiter
--   Integration/Retry          retry.ts: validateRetryPolicy, calculateBackoffMs, shouldRetry
--   Integration/Deadline       deadline.ts: runWithDeadline, createDeadlineBudget
--   Integration/Executor       executor.ts: createIntegrationExecutor
--   Integration/Webhook        webhook.ts: acceptVerifiedWebhook
--   Authorization/Roles        fixed-roles.ts: the decision of evaluate; Bundles: the role bundles
--   Authorization/Service      fixed-roles.ts: check, batchCheck, requireAllowed, resolveDataScope
--   Organization/Facts         types.ts, errors.ts, validation.ts
--   Organization/Store         store.ts, memory-store.ts
--   Organization/Hierarchy     service.ts: the walk to the top of the hierarchy
--   Organization/Service       service.ts: the commands
--   Organization/Context       service.ts: resolveWorkforcePersonContext
--   Configuration/Facts        types.ts: the facts of the business configuration
--   Configuration/Store        memory-store.ts: createMemoryBusinessConfigurationStore
--   Configuration/Validation   validation.ts: the checks of a command's fields
--   Configuration/Definitions  validation.ts: the checks of a parameter's definition
--   Configuration/Cache        service.ts: cachedResolution
--   Configuration/Service      service.ts: authorize, record and mutate; Service/Commands: the commands;
--                              Service/Queries: getDictionaryRelease, resolveParameter, handleInvalidation
--   Notifications/Store        memory-store.ts: InMemoryNotificationStore
--   Eventing/Facts             types.ts, store.ts, errors.ts: the records of the outbox
--   Eventing/Store             memory-store.ts: InMemoryEventingStore
--   Eventing/Consumption       service.ts: consume
--   TaskCenter/Commands        task-center/src/memory-store.ts: claimCommand, acceptCommand, releaseCommand
--   Examples                   the theorems at concrete inputs
--
-- Correspondence. A closure or a class with mutable fields is a record, and each of its functions
-- is a function from the record to the record. Asynchronous calls are steps: what runs before an
-- await and what runs after it are separate functions, and a list of events says in which order the
-- calls of all clients take their steps. In the service of the business configuration a step is a
-- function of a state that logs every call of another part, a World holds what those parts answer,
-- and before every answer the commands of other clients change the store. The calls of a store are
-- a data type, and `run` is any list of them. An exception is a value of a result type. A number
-- that a caller gives may be negative or no integer at all, and validation turns it into a natural
-- number. A clock is an argument of the call that reads it, except in the authorization service and
-- that of the business configuration, whose World answers by the number of the reading: there the
-- clock and the store of the grants are read anew by each operation. The consumption of a message
-- runs while no other client calls the store, except before its transaction begins; its handler says
-- which calls of the store it makes in the transaction, from the message and the store that it finds.
-- The limiters and the breaker around the executor's operation are functions of its World, of which a
-- hypothesis says that they run what they guard once at most. Where a store only keeps some fields of
-- a record, a type parameter stands for them.
--
-- Bounds. The executor's loop runs on a count of the attempts that are left, `maxAttempts` at the
-- start, and the walk up the hierarchy on the number of stored units and one, since it visits no
-- unit twice. All other loops go over a list. Instants and counters are unbounded natural numbers:
-- the code keeps them below the largest safe integer.
--
-- Not modelled. SHA-256 and the canonical text that it hashes, the parsing and printing of dates,
-- the order of `localeCompare`, Ajv, `JSON.stringify`, the webhook's signature verifier and replay
-- store, the grant store and the decision recorder are parameters, as are the jitter's
-- floating-point arithmetic and the timers. That an input has the keys of its type and no others is
-- taken from its type. The services of the notifications and the task center, the other operations of
-- the outbox's service, its publisher, SQL stores, HTTP, the user interface, logging and process start
-- are left out.
pub mod Prelude
pub mod Integration
pub mod Authorization
pub mod Organization
pub mod TaskCenter
pub mod Configuration
pub mod Notifications
pub mod Eventing
mod Examples
