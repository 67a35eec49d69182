-- ===== src/Lib.antt =====
-- Verification library of GigiDC, a Discord agent runtime in Go.
--
-- The program receives guild messages, plans tool calls with a language model, checks capabilities,
-- runs the tools, packs context into prompts, records what it did, and keeps its state in PostgreSQL.
-- - Audit.antt: internal/audit/event.go, the redaction and validation of audit events.
-- - Capability.antt and the files below it: internal/capability. Evaluator is `Check` over a grant
--   store, Presets the registry, Grants the two tables, with Manager the writing statements and the
--   transaction of `applyRoleCapabilities`, and Store the queries that `Check` reads through.
-- - ContextBroker.antt: internal/contextbroker, with `BuildPack` in Packer and the fetcher of recent
--   messages (fetcher.go) in Fetcher.
-- - Identity.antt: internal/identity/resolver.go, who an event comes from.
-- - Plugins.antt and the files below it: internal/plugins. Validation and Normalized are manifest.go,
--   Matcher is matcher.go.
-- - Provider.antt and the files below it: internal/llm/provider. Provider.antt is registry.go, Policy
--   policy.go and Usage usage.go, the last two over their tables. Secret is secret.go, over a cipher.
-- - Config.antt: internal/config/config.go, over the environment as a function.
-- - Agent.antt and the files below it: internal/agent. Effects is the history of what a run did,
--   Trace `Trace.Record`, Tools the registry, Policy the routing policy, Executor `Executor.Execute`
--   and Runner `Runner.Run`, each return of which is a branch of one of its stages.
--   Store is the table of runs, with Canceled, Steps and Confirmations. FollowUpStore is the store of
--   followup.go, TraceStore that of trace.go. Web is web_tools.go. Context is context.go, over the
--   capability evaluator and the fetcher of recent messages.
-- - Jobs.antt and the files below it: internal/jobs. The queue's table and its statements stand in
--   Jobs.antt; Claims, Limit and Attempts are about them, Workers is the pool, whose polls, starts
--   and ends interleave, and Settled what a processed job leaves. The pool is over any answer of
--   `Claim` within the limit it asked for.
--
-- The one loop with fuel is that of `trimLocked` in followup.go, whose fuel is the number of entries:
-- each round deletes one. Every other loop of the source that stands here goes over a list.
--
-- Texts are native texts of code points, so they are valid UTF-8; `strings.TrimSpace` is written
-- out, and what the tables of `unicode` say beyond ASCII is an argument. Integers that the source
-- only compares with 0 or with each other are natural numbers, a negative one being read as 0 where
-- the source tests `<= 0`. The interfaces of the source are records or arguments; `database/sql` is
-- a session whose calls may fail one by one (Sql.antt). Errors are values; the arguments that a
-- message formats are left out. Goroutines and the clock enter as explicit steps and numbers.
-- A random identifier and the answer of an interface are arguments.
--
-- Not modelled: the Discord gateway and its commands, HTTP clients and servers, the decoding of JSON
-- and HTML, the store of the credentials of providers, the planners and most
-- tools of the agent, which are functions here, the store of memory, the catalog and the store of
-- plugins, and deployment files.
mod Prelude
mod Sql
pub mod Audit
pub mod Capability
pub mod ContextBroker
pub mod Agent
pub mod Jobs
pub mod Plugins
pub mod Provider
pub mod Identity
pub mod Config
