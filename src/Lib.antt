-- ===== src/Lib.antt =====
-- MaSecure: group savings (tontines) with a governance service, an outbox that carries events to the
-- mobile money providers, and HTTP services around a financial kernel.
--
-- Parts that are modelled, and where:
--
--   Governance           social/governance
--     Types              types.go: the records, and the error values of service.go
--     Quorum             requiredVotes and computeResolutionStats of service.go
--     Config             buildProposedConfig, validateMemberOrder and buildDiffSummary of service.go
--     Store              the interface ProposalStore of types.go
--     Service            the methods of Service in service.go, over any store
--     Repository         the methods of Repository in repository.go, over tables (Repository/Sql) that
--                        have the constraints of migrations/002_groups_configs.sql
--     Requests           the routes of http.go from a decoded body to the status, one after another
--     Ballots            the votes of a proposal under those requests, and Identities who casts them
--     Race               two votes at the same time: both read before either writes
--     Outcomes           each operation of the service on the repository, on every branch
--     Postgres           the methods of PgProposalStore in repository_pg.go, over the tables that
--                        migrations/008_proposals.sql has; Proposals holds those that read a proposal
--                        or end one, Votes, Approval and Unusable what follows
--   MobileMoney          internal/mobilemoney/providers.go: NormalizeProvider, the Registry, and SendPayout
--     Operators          SendPayout of orangemoney/provider.go, moovmoney/provider.go and
--                        wavemoney/provider.go
--     Operators/Once     a payout that is sent again
--   Notification         internal/notification: requests and results, of sender.go
--     Messages           the builders of requests, of both files
--     Sender             Send, by WhatsApp or by SMS
--     Dispatcher         dispatcher.go, a dispatcher of the outbox worker
--     Lost               the worker with that dispatcher
--   Callbacks            api/handlers
--     Payload            the payloads, their checks and the calls of the kernel, of callback_handler.go and
--                        payout_callback_handler.go
--     Adapters           callback_adapters.go and payout_callback_adapters.go, on JSON values
--     Handler            the two handlers, from a request to the call of the kernel that it starts
--   Simulator            simulator/mobilemoney/main.go
--     RoundTrip          the simulator's callback goes through the API's adapters and handler
--     Delivery           a payout that is asked of the simulator, and Again one that is asked again
--   Outbox               internal/outboxworker/worker.go
--     Backoff            backoffDuration on an int16 and an int64, with their wrap-around
--     Worker             the claim, the writes and the loop, over the table outbox_events
--     Worker/Claim       which rows a tick claims
--     Worker/Ticks       what a tick makes of a row, Worker/Schedule the times of ticks, and
--                        Worker/Live what many ticks do
--     Dispatchers        the dispatchers of outbox/main.go
--   Audit                verifyLedgerIntegrity of social/audit/service.go
--     Export             ExportGroupAudit, and Valid what its reports say
--   Gateway              gateway/whatsapp/handler.go
--   Anomaly              internal/anomaly/detector.go
--     Rows               the rows that the queries answer
--     Detector           the checks and RunAllChecks
--     Meaning            what the rows behind an alert are
--     Justified          what stands behind an alert, and Run a whole run
--   Compliance           internal/compliance/service.go
--     Archive            GenerateGroupArchive, and Unstored what the table makes of its archives
--     Members            CheckMemberKYC and RunPeriodicCompliance
--
-- Base has what they share: tests on numbers, integers, texts, JSON values, tables with keys, and
-- Exec, a call that may fail and that changes a state. What a failed call wrote stays written, except
-- in a transaction, which puts the tables back.
--
-- The service takes its store as a record of operations (Governance.Store); Repository fills it. A
-- state of the repository is its tables, a list that says which of the next calls of the database
-- fail, and a clock; with the tables stands how the database reads a text as a uuid, since an identity
-- can be spelled in several ways and the service compares spellings where the database compares uuids.
-- The identifiers of groups, configurations and proposals are spelled as the database spells them.
-- The worker takes its dispatchers as records, with a state of their own.
--
-- The handlers of callbacks and the providers take HMAC-SHA256 and the parser of JSON as parameters,
-- and the audit and the compliance service SHA-256. A simulator's callback is a request to the API's
-- handler, so the two meet in Simulator.RoundTrip.
--
-- Every loop is over a list that the call already has, and the worker's loop is over the times of its
-- ticks. Only the printing of a number runs on fuel, one more than the number (Base/Decimal).
--
-- Not modelled: the WhatsApp bot of the API and the dashboard's handler, HTTP and JSON encoding,
-- logging, contexts and their deadlines, concurrent transactions and row locks, the Rust kernel, the
-- browser dashboard. Identifiers that uuid draws and times that the clock tells are arguments.
pub mod Base
pub mod Governance
pub mod Outbox
pub mod MobileMoney
pub mod Notification
pub mod Callbacks
pub mod Simulator
pub mod Audit
pub mod Gateway
pub mod Anomaly
pub mod Compliance
