-- ===== src/Lib.antt =====
-- Verification library of ykt-aisaas, a multi-tenant AI gateway in Go: what a call costs a tenant,
-- who may make it, and what happens to the messages and the money that it leaves behind.
--
-- The parts and how they interact. An API key is validated against a cache in Redis and a table of
-- keys (auth), and gives a request its tenant. The quota guard (quota) debits an estimate from the
-- tenant's monthly counter in Redis (redisx), whose limits the billing loader puts there (billing).
-- The chat handler (server/v1/chat.go) calls the upstream, records the real use (metering), which
-- counts in the same counters, and refunds what it did not use. Balances and their transactions
-- stand in MySQL (billing). Messages to the memory service go through an outbox table that several
-- workers empty (outbox). Errors carry codes that become HTTP statuses (errs, web). A tenant creates,
-- rotates and revokes its keys (apikey), in statements that a plugin of the database confines to the
-- tenant of the context (database). The registry of models (llm) finds the upstream of a tenant's
-- model, and a device is bound to a persona (persona). The MCP manager (mcp) keeps the connections to
-- tool servers, the chunker (rag) cuts documents for retrieval. Experiments on users (abtest) have a
-- life cycle and assign variants. The anomaly engine (anomaly) evaluates rules that requests change.
--
-- Which file models what:
--   Base          helpers: Boolean tests, lists, integers, text as code points, decimal form
--   Redis         the Redis server and go-redis as an interface of operations and laws;
--                 Redis/Memory is a database that meets it
--   Redisx        internal/platform/redisx/redisx.go: keys, luaQuotaDeduct, QuotaDeduct,
--                 QuotaRollback, QuotaRefund, QuotaSetLimit, QuotaRemaining; Redisx/SessionQuota has
--                 luaQuotaSnapshotDeduct, QuotaSnapshotDeduct and QuotaSnapshotRefund; Keys, Deduct,
--                 Limits, Refund and Settle have their theorems
--   Quota         internal/platform/quota/quota.go (EstimateChat, Precheck, PrecheckDim, Middleware,
--                 Refund), handleChatRefund of internal/server/v1/chat.go, and RefundQuota of
--                 internal/server/internalapi/quota_refund.go
--   Metering      internal/platform/metering/metering.go: Record, RecordWithCtx; Metering/Workers has
--                 channelWorker, streamWorker and flushBatch, Metering/Dlq the dead-letter table of
--                 internal/platform/metering/dlq.go
--   Chat          internal/server/v1/chat.go: Completions from its quota check on, recordUsage
--   Outbox        internal/platform/outbox/writer.go and worker.go: Write, Backoff, processBatch,
--                 processOne, markFailed; Outbox/Claims has several workers as a step relation,
--                 Picked and Batch have a whole batch
--   Billing       internal/billing/billing.go: LoadAll, GetBalance, Recharge, Consume
--   Errs          internal/platform/errs/errs.go, and itoa of internal/platform/web/web.go
--   Auth          internal/platform/auth/apikey.go: HasScope, IPAllowed, Validate, postCheck,
--                 InvalidateCache, Middleware, parseJSONArr in Auth/Lists, extractKey and
--                 InternalMiddleware in Auth/Internal; Auth/Logins is
--                 internal/platform/auth/ratelimit.go
--   Database      internal/platform/database/database.go: what TenantPlugin does to a statement
--   ApiKeys       internal/tenantm/apikey/apikey.go: Create, Disable, Delete, marshalArr, parseScope;
--                 ApiKeys/Rotation has RevokeByInternal and Rotate; Scopes, Rows and Life have theorems
--   AbTest        internal/platform/abtest/errors.go and service.go: CanTransition,
--                 StartExperiment, PauseExperiment, StopExperiment, transitionStatus; AbTest/Assign
--                 has AssignVariant, and HashBucket and SelectVariant of hash.go; Assigned has
--                 its theorem
--   Anomaly       internal/platform/anomaly/engine.go and errors.go; Anomaly/Requests has the requests
--                 of internal/server/apiv1/anomaly.go that write, Anomaly/Evaluation a round of
--                 evaluateAll; Agree, Writes and Served have theorems
--   Rag           internal/rag/chunker.go: Chunk and its helpers; Windows, Kept and Spaces have theorems
--   Mcp           internal/mcp/client/manager.go, and NewClient, Connect and Close of client.go;
--                 Connections and Sound have theorems
--   Llm           internal/llm/registry.go: Resolve, ResolveFor, load, ListChatModels, Price,
--                 DefaultModelID; Visible and Resolving have theorems
--   Persona       internal/tenantm/persona/bind.go and persona.go: Bind, Unbind, GetBindByDevice,
--                 GetByID, GetPersonaWithBind; Bindings, Stays, Fresh and Reading have theorems
--   Examples      the theorems at concrete inputs
--
-- How state is modelled. The database of Redis is an abstract type with a read function and the
-- documented effect of each command; each command of the Go code is a round trip with a `Link` that
-- says whether it is answered, refused, or run with its answer lost. A Lua script is one step. A
-- table of MySQL is a list of rows, an UPDATE or INSERT a function on it, and a Boolean says whether
-- the statement, or the transaction, succeeds. The month, the clock and random samples are
-- arguments. Errors are values.
--
-- Bounds. Counters and amounts are unbounded integers: the code's int64 and the numbers of Lua agree
-- with them below 2^53. There is fuel in decimal forms and in itoa, the number itself, and each turn
-- divides it by ten; and in the loop of the chunker over a long paragraph, a round for each rune and
-- one more, since a round moves on by a rune at least. Counters in Redis do not expire within a run,
-- and entries of the cache of keys and of assignments end at their time; the outbox compares times
-- exactly, as a TIMESTAMP with full precision would.
-- A text of the chunker is a list of runes, as a valid UTF-8 string has them. A float64 of a price or a
-- share is of an abstract type with the operations the code uses. The connection of an MCP client is a
-- number. Rows that an ORDER BY leaves tied stand in the order of the table. The collations of
-- model ids, rule ids, devices and experiments are arguments; what a DECIMAL column rounds off is one
-- too. The tables of experiments lack the column that the tenant plugin names, so that the plugin's
-- statements on them are statements that fail.
--
-- Not modelled: the values of floating-point arithmetic (statistics, similarity), the retries of the
-- metering fallback, streaming and tool calls of chats, sessions, tenants, memories, OAuth, SCIM, the
-- MCP gateway and its transports, embeddings, speech, cryptography, configuration, and the binding of
-- HTTP requests, but those named above; the SHA-256 of a key, the JSON of a cached key and the
-- matching of networks are arguments.
pub mod Base
pub mod Redis
pub mod Redisx
pub mod Quota
pub mod Metering
pub mod Chat
pub mod Outbox
pub mod Billing
pub mod Errs
pub mod Auth
pub mod AbTest
pub mod Rag
pub mod Database
pub mod ApiKeys
pub mod Anomaly
pub mod Mcp
pub mod Llm
pub mod Persona
pub mod Examples
