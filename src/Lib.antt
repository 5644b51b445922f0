-- ===== src/Lib.antt =====
-- The governed data layer of warehousd: who may reach which document under which grant, and what a
-- write leaves behind. The modules model packages/broker/src, the broker that every adapter calls.
--
-- A call carries a caller (Context: BrokerContext of types.ts). Its environment was settled when
-- the token was issued (Oauth/EnvScope: oauth/env-scope.ts). The guard (Verbs/Guard:
-- verbs/guard.ts) goes from a collection's name to the grant of the caller, its masks and its
-- access list, and refuses through the audit (Audit: audit/decision.ts). It reads the configuration
-- (Config: config/schema.ts, config/load.ts, config/collection.ts and config/kinds), the principals
-- of the caller (Acl/Principals: acl/principals.ts) and the table of grants (Grants/Table,
-- Grants/Eval: grants/eval.ts). Grants are asked for and decided in Grants/Manage, Grants/Approval
-- and Grants/Decide (grants/manage.ts); their document filters are evaluated in Grants/Filters
-- (grants/filters.ts). A write is checked and handed to its writer by Verbs/Mutate/Dispatch and
-- carried out by Verbs/Mutate/Dataset (verbs/mutate.ts), which coerces its values with
-- Import/Coerce (import/validate.ts) and appends to the revisions of Revisions (db/revisions.ts).
-- Under a grant that may only propose, Verbs/Propose/Dataset parks the write as a pending revision
-- (verbs/propose.ts); who may decide on it and what is merged stand in Verbs/Propose/Decision, what
-- one decision does to its table in Verbs/Propose/Apply, the loading of pending proposals in
-- Verbs/Propose/Tables, the loop over a batch in Verbs/Propose/Decide and the atomic driver in
-- Verbs/Propose/Batch, which Verbs/Propose/Single calls for one proposal; Verbs/Propose/Review is
-- the feed and the reading of a proposal. Verbs/History reads revisions (verbs/history.ts), and
-- Verbs/Revert hands the mutation verb the update that restores one (verbs/revert.ts).
-- Revisions/View is the abstract map of documents that the revisions stand for. The groups of a
-- user are set by Acl/Groups (acl/manage.ts), the members of a workspace by Workspaces/Members
-- (workspaces/members.ts). Documents that are stored as chunks are split and put together by
-- Indexing/Chunk (indexing/chunk.ts). Web/RateLimit is the limiter of the credential endpoints
-- (apps/web/lib/rate-limit.ts), Web/Lockout the lock of an account after failed sign-ins
-- (apps/web/lib/lockout.ts). Prelude holds the shared names and lemmas, Scenario the data of the
-- tests.
--
-- State is passed on: a table is a list of rows in the order of the table, a select a filter or a
-- find over it, an update a map where a condition holds. Rows that an ordering leaves equal keep
-- the order of the table. The audit trail is the list of rows that the sink recorded; the sink is a
-- parameter that answers an id or nothing, where it throws. A transaction gives its store back or,
-- where it throws, the store from before. Row security shows the rows of one workspace. A refusal
-- is a value; an exception of the source is a constructor of its result.
--
-- Parameters stand for what is outside the sources: the clock, the platform's Date, Number, String
-- and JSON.parse (Platform, Conversions), the uuids that it draws, the database's equality and text
-- of a key (IsKeyEquality states that the equality is symmetric and transitive, as equality in SQL
-- is on keys that are not null), what a mask's expression makes of a value, whether JSON.stringify
-- writes two values alike, and the rows of the tables that the modelled part only reads. A number
-- is kept as the text and the two tests that the source asks of it, an exponent of a decimal as an
-- exact integer. toLowerCase acts on ASCII letters. A row is read at its own columns; the declared
-- fields are read through the prototype where the source does so (field_at). The audit's query
-- intents are kept by name. All loops are structural recursion but one: the chunker's split of a
-- long paragraph runs on fuel, of which the length of the paragraph is enough where the overlap is
-- below the maximum.
--
-- Not modelled: the file writer (a dispatch ends where it or the proposal path would be called),
-- the change feed, whose hold-back of entries of running transactions is a matter of the database's
-- snapshots, the read verbs and the SQL that they build, reading and setting access lists, imports
-- from CSV, the index of embeddings, the reports on grants, the application of schemas, the
-- synthetic data, and the rest of the web application with its adapters.

pub mod Prelude
pub mod Context
pub mod Config
pub mod Acl
pub mod Value
pub mod Grants
pub mod Audit
pub mod Import
pub mod Indexing
pub mod Revisions
pub mod Verbs
pub mod Workspaces
pub mod Oauth
pub mod Web
pub mod Scenario
