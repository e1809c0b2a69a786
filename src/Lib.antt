-- ===== src/Lib.antt =====
-- City2 Core: the command service of src/city2core, its event log and its projections.
--
-- The program. A SQLite database holds an append-only log of events and one projection table for
-- each kind of aggregate: objectives, tasks and actions, with runs and revisions beside them. Every
-- write goes through `Store.command`, one transaction recorded under an idempotency key; inside it a
-- method of `Core` checks versions, states and leases, appends events and updates the projections.
-- `Store.verify_integrity` reads the log again and checks its numbers and its hash chains. The memory
-- service keeps records with evidence in the same store: they are proposed, reviewed by others,
-- indexed for search once accepted, and marked stale when they are due or a source changes. Records
-- of the program are checked against JSON schemas, and an expansion of authority against its gates.
--
-- Model (src/city2core/model.py)
--   Model.Json: the values that `json` reads, a dict as a list of fields in insertion order.
--   Model.Canonical: `canonical_json`, `sha256_json` and `digest_profile`.
--   Model.Ids: `ZERO_SHA256`, `ID_PREFIXES` and `parse_time`.
-- Store (src/city2core/store.py, src/city2core/migrations/0001_core.sql)
--   Store.States, Store.Rows, Store.Tables, Store.Table: the tables, each a list with the newest row
--     first.
--   Store.Tx: the steps of a transaction. They read an environment, may raise, and pass on the
--     database and a count of the readings of the clock and of the random source.
--   Store.Events: `WriteTransaction`. Store.Command: `Store.command` and its rollback.
--   Store.Integrity: the loop of `verify_integrity` over the events.
--   Store.Post: rules for what a block of statements leaves when it returns.
-- Core (src/city2core/core.py)
--   Core.Call: how a method runs. Core.Rows: the lookups, `task` and the inserts of revisions.
--   Core.Transition: `_transition_in_tx` and `_simple_task_transition`.
--   Core.Objective, Core.Task, Core.Revise, Core.Lease, Core.Submit, Core.Action: the methods. For a
--     method `m`, `m_in` is its closure `operation`, and `m` is the whole call.
--   Core.Lifecycle and Core.Effect: the specification, which says without the code what one call may
--     do to one aggregate. Core.Effect.* compares each method with it.
--   Core.Machine: the methods as one machine and the databases that calls reach.
--   Core.Guards: what a method that returns has found.
-- Memory (src/city2core/memory.py, src/city2core/migrations/0002_memory.sql)
--   Memory.Fields, Memory.Sort, Memory.Text: reading a dict, `sorted`, and the operations on texts.
--   Memory.Validate: `_validate`. Memory.Rows: the rows, their UPDATE and INSERT and the index.
--   Memory.Create, Memory.Review, Memory.Stale: the four commands; as in Core, `m_in` is the closure
--     `operation` of the method `m`. Memory.Sweep: `sweep_stale` and `mark_source_changed`.
--   Memory.Retrieve: `retrieve`. Memory.Pack, Memory.Manifest, Memory.Context: `assemble_context`.
--   Memory.Export: `get`, `rebuild_index`, `export_memories` and `import_export`.
--   Memory.Lifecycle: what is true of the tables between two calls. Memory.Machine: the commands and
--     the sweeps as one machine.
-- Schema (src/city2core/schema.py)
--   Schema.Equal: `json_equal`. Schema.Resolve: references. Schema.Validate: `validate_instance`.
-- Expansion: `validate_expansion_admission` of src/city2core/expansion.py.
-- Tests: a store with fixed library functions, calls on it, one task from its objective to its
--   acceptance, one action and its unknown outcome, and one memory from its proposal to its expiry.
--
-- Parameters. `Env` stands for everything outside the methods: `hashlib.sha256`, `json.dumps` of a
-- text, `datetime.fromisoformat`, the clock, the random source, the fault hook, the pragmas of the
-- connection, the patterns that memory.py and core.py search by `re`, `urlsplit`, `unicodedata`, the
-- query of a full-text index, and the validator that a service was made with, which is any predicate
-- here and need not be the one of Schema. `SchemaStore` holds the documents by name, with the search
-- for a pattern and `Path.name`; `Clock` of Expansion holds `strptime` and `Decimal`.
--
-- Choices. A column of canonical JSON text holds the value, so that its text is canonical by
-- construction. Primary keys and UNIQUE constraints are tested on every INSERT; FOREIGN KEY
-- constraints are not modelled, and of the CHECK constraints only those on the type and the
-- sensitivity of a memory. A command that raises gives the database from before it, as the
-- ROLLBACK of SQLite does. SQLite integers are unbounded here; `canonical_json` refuses an
-- integer above 2 ^ 53 - 1. `decimal` runs on fuel 17, and the integers of the profile have at
-- most 16 digits. The fuel of `validate_instance` is the depth that Python's recursion may reach,
-- and running out of it is the exception of Python; a schema that does not refer to itself needs
-- no more than its nesting, counted through its references. `canonical_value` of
-- schemas/v1/common.schema.json does refer to itself, and no fuel is shown to be enough for it.
-- Everything else is structural recursion. A SELECT without ORDER BY gives the rows in the order
-- of the table. Each command of a sweep reads an environment of its own, so that the clock and
-- the random source have other readings there.
--
-- Not modelled: floats, in canonical JSON, in the confidence of a memory, in schemas and in the
-- measurements of an expansion; opening and migrating a database file; the checks of
-- `verify_integrity` on the projections; the counters of `status`; reading the schema files; that
-- `rebuild_index`, an import or a context pack keep the index (they are defined, the theorems on
-- the index are about the four commands and the sweeps); and the rest of the package (review,
-- archive, adapters, producer, the command line), which calls these services or external tools.
pub mod Base
pub mod Model
pub mod Store
pub mod Core
pub mod Schema
pub mod Memory
pub mod Expansion
pub mod Tests
