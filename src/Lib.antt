-- ===== src/Lib.antt =====
-- A verification library for the Salesforce to TikTok CRM integration: changes of Salesforce Leads
-- are filtered, enriched, hashed, deduplicated, logged and sent to TikTok's Events API, or handed
-- to a retry queue.
--
-- The parts, the code they are about (under salesforce-tiktok-crm/src) and their files:
--   Types          types/index.ts: records for interfaces, data types for unions; `undefined` is
--                  `none`, an event name that came out of an object lookup is an EventValue
--   Filter         filters/event-filter.ts: `evaluate`, and `status_table` for STATUS_TO_EVENT
--   Normalization  normalization/normalizer.ts, and normalization/hasher.ts in Hasher
--   Enrichment     enrichment/identity-enrichment.ts
--   Config         config/env.ts: the settings that the modelled code reads, and the whole schema
--                  in Schema
--   Transformer    transformer/tiktok-event-builder.ts
--   Clients        clients/tiktok-api-client.ts: RateLimiter, the policy given to axios-retry
--                  (Retry) and `sendEvents` (Send)
--   Deduplication  deduplication/redis-dedup.ts over the interface Redis
--   EventLog       db/event-log.ts, on the table of db/migrate.ts, with `findByLeadId` in Reads
--   EventSet       event-set/crm-event-set-manager.ts: `resolve`, `store` in Storage, the calls of
--                  TikTok and provisioning in Manager, event-set/event-set-routes.ts in Routes
--   Auth           auth: TokenStore with the statements of TokenTable for token-store.ts,
--                  OAuthClient for tiktok-oauth.ts, Refresher for proactive-refresher.ts, Routes
--                  for oauth-routes.ts
--   Http           what the handlers of Express answer
--   Listener       listeners/salesforce-cdc.ts
--   Server         server.ts: the handler between the listener and the pipeline, the routes in
--                  Routing and Serving, the end of the process in Lifecycle
--   Queue          queue/retry-queue.ts: `enqueuePayload` and the worker's processor, and the
--                  queue, worker and events that are opened and closed in Handles
--   Pipeline       pipeline.ts, `process` and its steps
--   System         the parts together: what server.ts does as a step relation (Steps), and what
--                  every statement, request and job keeps
-- Base, Text, Exec and World are shared: names and lemmas, the string functions of JavaScript that
-- the code calls, functions that return, throw or hang on a state, and the state itself. Examples
-- holds sample data and applies the theorems to it.
--
-- An asynchronous function is a function on World: the connection to Redis, the Postgres tables,
-- the calls of `http.post`, the other calls of TikTok, the jobs enqueued, the rate limiters of the
-- pipeline's client and of the worker's, and the time.
-- The listener's functions are on a record that holds what their handler shares. `process` calls
-- the filter and the enrichment, resolves the event set (EventSet), builds the canonical event,
-- asks Deduplication, builds the payload (Transformer), inserts the row (EventLog), sends (Clients)
-- and, if anything there throws, marks the row failed and enqueues the payload (Queue). Server
-- gives `process` to the listener. The OAuth routes fill the token store through the OAuth client,
-- which the event set routes ask for a token before they call the event set manager.
--
-- Code that is not the repository's is a parameter: Redis is a record of commands with a record of
-- laws that a Redis in memory meets; Postgres, TikTok, BullMQ, uuid, the random bytes and
-- Salesforce are streams of answers (Outside, Salesforce), where a statement can be refused, or
-- carried out and then fail, a call takes time, axios-retry may send a request again, and BullMQ's
-- `add` may never settle; SHA-256, `toLowerCase`, the encoding of
-- URLs, the day of a time and the parsing of dates are functions, `toLowerCase` with laws that the
-- ASCII lower case meets; the JSON of a cached token is a pair of functions, under which a date
-- comes back as a text, with laws that the printer of Examples.Codec meets. The clocks of Postgres and of the process are one.
--
-- Times are natural numbers of milliseconds, and settings natural numbers. `batch_events` runs on
-- fuel of one more than the number of events, which a batch size of at least 1 never uses up;
-- `acquire_from` on fuel for its rounds, of which two are enough at a rate of at least 1. The loops
-- of the listener are recursion on the attempts that are left. One run of a function is modelled at
-- a time, so that no other call takes tokens while `acquire` waits, and the tasks of the refresher
-- one after another, in the order in which they complete; rounds of concurrent calls of `acquire`
-- interleave freely.
--
-- A step of System is a whole run of a handler, however it ends: a message of the channel, a request
-- to a route, a job of the queue, a round of the refresher or a wait. In the program the handlers
-- interleave where they wait; System takes them one after another, in any order, and only the
-- checks of Deduplication are taken one by one (Interleaving). A shutdown is a sequence of events in
-- any order: the installation of the handlers, signals, the close of the HTTP server, the settling of what its callback releases,
-- errors and the passing of time.
--
-- Not modelled: the transactions of the event log, which nothing calls; BullMQ's attempts, jsforce's
-- subscription and Express's matching of paths, which are libraries; and logging and connections,
-- which are input and output.
pub mod Base
pub mod Text
pub mod Types
pub mod Filter
pub mod Normalization
pub mod Enrichment
pub mod Config
pub mod Transformer
pub mod Clients
pub mod Exec
pub mod Redis
pub mod Deduplication
pub mod World
pub mod EventLog
pub mod Queue
pub mod EventSet
pub mod Http
pub mod Auth
pub mod Examples
pub mod Pipeline
pub mod Listener
pub mod Server
pub mod System
