-- ===== src/Lib.antt =====
-- Voice calling for leads: the server side of an application that receives leads from a CRM, calls
-- them through a voice provider, has the conversation analysed, scores and routes the result and
-- passes it on. This library models the part that decides who is called, when and how often, and
-- what a result is worth, file by file from src/lib and src/db/schema.ts.
--
-- The parts and how they interact. A lead comes in through an event (src/lib/leads/intake.ts:
-- Intake, Intake/Consents, Intake/Ingest), which is normalised (src/lib/phone.ts: Phone), matched
-- with the leads that are known, given a record of its consent, and queued or held back. HubSpot's
-- payloads are mapped to such an event (src/lib/leads/hubspot-event.ts: HubspotEvent,
-- HubspotEvent/Parsing); a private app only names a contact, which is fetched, routed to a campaign
-- (src/lib/leads/campaign-routing.ts: CampaignRouting) and ingested once for each event
-- (src/lib/leads/hubspot-app-intake.ts: HubspotIntake). The campaigns with a newly queued lead are
-- ticked at once (src/lib/calling/dispatch.ts: Dispatch). The queue (src/lib/calling/queue.ts:
-- Queue, Queue/Claiming) claims the leads that are due, within the calling window
-- (src/lib/calling/windows.ts: Windows) and the caps, and asks the gate
-- (src/lib/leads/eligibility.ts: Eligibility) for each. The worker (src/lib/calling/worker.ts:
-- Worker) records and places a call for every claim and keeps the callbacks that the lead was
-- promised (src/lib/calling/callbacks.ts: Callbacks). The provider reports back, and the result
-- (src/lib/calling/results.ts: Results, Results/Delivery) closes the call and sends the lead to
-- analysis, to the retry ladder (src/lib/calling/retry.ts: Retry) or off the queue for good. An
-- analysed result (src/lib/qualification/schema.ts: Schema/Qualification) is scored and routed
-- (src/lib/qualification/scoring.ts: Scoring) and passes or is held by the review gate
-- (src/lib/qualification/review.ts: Review); the pipeline (src/lib/qualification/pipeline.ts:
-- Pipeline, Pipeline/Qualify) does this once for each call and commits what passes, and an operator
-- confirms, corrects or rejects what was held (src/lib/qualification/resolve.ts: Resolution,
-- Resolution/Correcting). What leaves the system goes through the outbox
-- (src/lib/integrations/outbox.ts: Outbox), which the sync worker drains to the sheet, the CRM and
-- sales (src/lib/integrations/sync-worker.ts: SyncWorker, SyncWorker/Dispatch, SyncWorker/Drain).
-- What a campaign asks, scores and dials is its configuration, which is saved as a whole and
-- versioned (src/lib/campaigns/config.ts: Campaigns, Campaigns/Defaults; what is given reads back
-- as Campaigns/Stored says). Personal data is encrypted (src/lib/crypto/pii.ts: Pii), staff act
-- through roles (src/lib/auth/rbac.ts: Access), requests that come before a caller is known are
-- counted (src/lib/ratelimit.ts and db/migrations/0011_rate_limiting.sql: RateLimit, specified by
-- the ledger of RateLimit/Ledger), and every change is audited (src/lib/audit.ts: Schema/Tables).
-- Base has the tables and the statements over them, Fixtures the data of the tests; each component
-- has its theorems in child modules and its runs in Tests.
--
-- How the code is read. A function on a transaction is a function from the database to the database
-- and a result, and Outcome carries the errors that the code throws, after which the transaction is
-- rolled back. Db (Schema/Tables) holds the tables as lists of rows, the rows that row-level
-- security shows to the transaction; a table that is not ordered is read in the order of its rows.
-- An insertion takes its id from a counter in place of gen_random_uuid(). Times are milliseconds;
-- `now` is the transaction's now() and `wall` the process's clock, new Date(). `for update skip
-- locked` is a predicate `held` on ids: the rows that other transactions have locked. Names are the
-- source's in lower case with underscores. The JSON columns are records of optional fields, as the
-- schemas of src/lib/campaigns/config.ts admit them. Columns that no modelled operation reads are
-- left out, and so are the texts of log lines; a time in an audit entry is a number.
--
-- Numbers. The program's numbers here are whole: points, scores and thresholds are integers, and a
-- confidence is kept in thousandths. Subtractions stop at 0: a headroom below 0 is read as 0, which
-- the code tests for alike, and an age below 0 counts as 0 in the code as well. The backoff is
-- computed on exact fractions, with Math.random() as a multiple of 2^-53, where the code computes
-- on doubles.
--
-- Fuel. The walk over the days of a calling window has the eight rounds of the code, and the
-- correction of a wall-clock time its two passes. The digits of a number are read with its
-- successor as fuel, which is more than it has digits.
--
-- Parameters. AES-GCM and HMAC of node:crypto are the interface Cipher (Pii), whose one law is that
-- what was sealed unseals. Intl.DateTimeFormat is a function from an instant and a zone to its
-- parts. A voice provider is a function from a request to a reply: a call that was placed, or an
-- error. The language model is a function from a request to an analysis, and `new Date(text)` one
-- from a text to a time. libphonenumber-js is a function from a number and a country to what it
-- says of it; toLowerCase, toISOString and the cast of a text to a timestamp are functions. The CRM
-- is a function from a contact and the names of properties to its properties or none. The clients
-- of the sync worker are the record Outside (SyncWorker): whether a client can be built from a
-- secret, and whether it accepts a request or throws. A dispatch has the time of each of its
-- transactions. Nonces and random draws are arguments.
--
-- Not modelled: the pages, the API routes, sessions and the scope of connections, the clients of
-- providers and CRMs, which speak HTTP, the language model's call, the validation of a
-- configuration before it is saved, the queries that only fill a page, and what other transactions
-- commit between the transactions of a dispatch.
pub mod Base
pub mod Schema
pub mod Retry
pub mod Pii
pub mod Eligibility
pub mod Windows
pub mod Queue
pub mod Outbox
pub mod Callbacks
pub mod Results
pub mod Worker
pub mod Scoring
pub mod Review
pub mod Pipeline
pub mod Resolution
pub mod Phone
pub mod Intake
pub mod CampaignRouting
pub mod HubspotEvent
pub mod HubspotIntake
pub mod Dispatch
pub mod SyncWorker
pub mod Campaigns
pub mod RateLimit
pub mod Access
pub mod Fixtures
