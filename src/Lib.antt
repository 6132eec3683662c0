-- ===== src/Lib.antt =====
-- Verification library of Crabforge, a software forge that keeps everything on a log.
--
-- The forge is a set of Rust crates under crates/. Every change of state is a command of the
-- command service (crates/forge-command), which is the only writer of domain events. A command
-- validates its input (crates/forge-types), decides against an in-memory catalog and reference map,
-- and appends its events (crates/forge-events) with the records of its new state in one broker
-- transaction (crates/forge-bus). The state is rebuilt at boot by replaying two topics of the log.
-- Projectors (crates/forge-projector), one for each event topic, read the log with a tailer and write
-- the rows that pages are made from (crates/forge-store), each batch in one transaction with a cursor.
--
-- Which file models which part:
--   Prelude, Str, HashMap: shared helpers; Rust's `str` as the list of its chars, and `HashMap`.
--   Types/Names, Types/Oid, Types/Size, Types/Topics: crates/forge-types/src/names.rs, oid.rs,
--     size.rs and topics.rs. `Username::parse` is `parse_username`, `RepoName::parse` is
--     `parse_repo_name`, `Oid::from_str` is `from_str`, and so on under the source's names.
--   Types/Int: `i64` with the wrap-around of a release build.
--   Events, Events/Routing, Events/Headers: crates/forge-events/src/domain.rs, envelope.rs, ce.rs.
--   Events/Ci: the CI events of domain.rs, and the conclusion of a run.
--   Bus/Writer: crates/forge-bus/src/writer.rs. `FencedWriter::transact` is `transact`.
--   Bus/Tailer: crates/forge-bus/src/tailer.rs, under the source's names. `Bus/Tailer/Log` says what
--     a log is by its offsets.
--   Store: crates/forge-store/src/users.rs, repos.rs, issues.rs, pulls.rs and ci.rs, as far as the
--     projector uses them. A table is an association list by its primary key (`Store/Table`), and each
--     SQL statement of the source is a function on it; `UserStore::upsert` is `upsert_user`, and so on.
--   Projector: crates/forge-projector/src/apply.rs, one file for each kind of event, and the record
--     dispatch of lib.rs in `Projector/Apply`. `Projector/Drain` has the transaction of a batch and the
--     loops: `Projector::open` is `open_projector`, one pass of `drain` is `pass`, the long poll of
--     `run` is `poll`. `Projector/Twice` has redelivered events.
--   Command/Catalog, Command/Refs: crates/forge-command/src/catalog.rs and refs.rs.
--   Command/State, Command/Service, Command/Pulls: crates/forge-command/src/lib.rs and pulls.rs, one
--     function for each command. A command takes the service's state and returns the new one with
--     its reply; an `err` is the `CommandError`. `Command/Execute` has all commands as one data type
--     and the histories of a service; its children say what may be appended and count claims.
--   Git/Bytes, Git/Frame: crates/forge-git/src/frame.rs, with the byte slices of the standard
--     library. `Git/Frame/Keys` has `parse_key`.
--   Git/Cache: what `hydrate` of crates/forge-git/src/cache.rs does with the records of a replay.
--   Hooks/Target: `is_public` of crates/forge-hooks/src/target.rs, with the address tests of the
--     standard library.
--   Hooks/Delivery, Hooks/Worker: crates/forge-hooks/src/delivery.rs and worker.rs, with the tables of
--     crates/forge-store/src/hooks.rs in `Store/Hooks`. A `Receiver` is what comes back to one attempt.
--     A `Statement` that writes takes effect, fails,
--     or takes effect and loses its answer.
--   Hooks/Matcher: `fan_out` of crates/forge-hooks/src/matcher.rs, with the requests of queue.rs. What
--     serde_json reads and writes is its argument.
--   Auth/Scope: crates/forge-auth/src/scope.rs, and `Role::allows` of crates/forge-types/src/lib.rs.
--
-- How code that is not in the repository enters: a `Platform` gives the text of a UUID, the
-- formatting of a time and `serde_json`'s encoding and decoding; `IsPlatform` says that what is
-- written is read back and that a UUID's text identifies it and holds no `/`. A `Broker` gives the
-- answers to one transaction; `IsBroker` says that only after `RecoveryRequired` may records have
-- landed although the commit failed. An `Ambient` adds the identifiers and times that a command
-- mints and whether the object topic of a new repository could be provisioned.
-- A `Fetch` gives the broker's answers to a reader; `Serves` says that they are the visible records of
-- one log up to where the cursor goes, `IsLive` that the cursor moves on below an offset. A `World`
-- adds the database's answers to each transaction, which may fail at any statement or lose the answer
-- to a commit; what is not committed is not there. `Decoders` are what serde makes of a record.
-- SHA-1 is an argument of `compute_oid`. `Tests/Demo` has a platform and brokers for which these hold.
--
-- A process that ends in the handler of an indeterminate transaction is a result of its own
-- (`aborted`), after which the service boots from the log. The mutex around the decision state makes
-- each command one step; for the command service, reading the log to its end is one step.
--
-- Not modelled: the queries behind the pages, unique constraints other than primary keys, projectors
-- of different topics that share a database (they write different tables), HTTP handlers, templates,
-- CI executors, git processes and file systems.
-- The loops of the tailer and of a drain run on fuel, with theorems that more fuel than there are
-- offsets left is enough. Two helpers run on fuel that is fixed: `decimal`, whose 5, 10 and 20 rounds print any number of 16, 32 and
-- 64 bits, and `chunks_go`, which starts with the length of the content.
pub mod Prelude
pub mod Str
pub mod HashMap
pub mod Types
pub mod Events
pub mod Git
pub mod Auth
pub mod Hooks
pub mod Bus
pub mod Command
pub mod Store
pub mod Projector
mod Tests
