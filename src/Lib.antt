-- ===== src/Lib.antt =====
-- The mailing list manager carriers: its core crate (crates/carriers-core), its daemon
-- (crates/carriers) and the harness of its end-to-end tests (crates/carriers-testkit). A post
-- enters through the SMTP/LMTP listener, runs through a chain of Sieve scripts that decide about
-- it, and is held in a queue or signed, sealed and sent to the subscribers, each with a return path
-- of its own; a bounce comes back to that return path and raises the subscriber's score, until
-- delivery to the subscriber is disabled (Smtp/Bounces).
--
-- Files, and the code they model:
-- - Base: shared names. Base/Str models the methods of `str` that the code calls, on lists of
--   Unicode scalar values; Base/Utf8 `String::from_utf8_lossy`; Base/Decimal the printing and
--   parsing of numbers; Base/Effects the errors of crates/carriers-core/src/error.rs, results, and
--   actions that read and change a state.
-- - Store: crates/carriers-core/src/store.rs. The tables are lists of rows, each method is the
--   effect of its SQL statement. Scores are any type with the operations that SQL uses. Its
--   children prove the invariant of the schema and what the methods do to each other.
-- - SieveEngine: crates/carriers-core/src/sieve_engine.rs. The sieve crate is a parameter: a run of
--   a script is a tree of events that waits for answers. The crate bounds the instructions of a
--   run, so the tree is well founded and the loop over it needs no fuel.
-- - Policy: crates/carriers-core/src/policy.rs. Policy/Outcome has the decisions and how they are
--   merged, Policy the chain of tiers, Policy/Fold, Policy/Tiers and Policy/Chain the theorems.
--   Policy/Load has the built-in scripts, the custom policies and the drop-ins of directories;
--   `include_str!` is a function from names to texts. Policy/Silent says which runs change nothing.
-- - Files: what the program asks of the file system, at one time. Paths are their printed forms.
-- - MailingList, Transform: crates/carriers-core/src/list.rs, config.rs and transform.rs.
-- - Verp, Pipeline: crates/carriers-core/src/pipeline.rs. Verp has the bounce addresses and the
--   names of files in the archive. Pipeline/Steps has `intake` and `finalize` on a world of tables,
--   time and archive; Pipeline/Distribution and Pipeline/Admission say when they distribute.
-- - Bounce: crates/carriers-core/src/bounce.rs. Bounce/Decisive reads a line by its characters.
-- - Sign: crates/carriers-core/src/sign.rs. The mail_auth crate is a record of functions, which
--   stands for its checks at one time.
-- - Deliver: crates/carriers/src/deliver.rs, over a client of actions.
-- - State: crates/carriers/src/state.rs, the lookup of lists and the check of their policies.
--   State/Load is the start of the daemon: its configuration, scripts, lists and database. The
--   parser of TOML and the opening of the database are parameters.
-- - Keys: crates/carriers-core/src/keygen.rs and crypto.rs. The cryptographic crates are a record
--   of functions, and making a key reads a source of randomness.
-- - Provider: crates/carriers-core/src/member.rs, the interface to the members.
-- - Cli: crates/carriers/src/main.rs. Cli/Zone has the zone file, Cli/Setup the command that makes
--   the keys, with Cli/Setup/Loaded on what the daemon reads of them, Cli/Review the moderation,
--   Cli/Members the members and Cli/Overview the list of policies. A command reads and changes a
--   world and prints lines. Fuel occurs in `chunks` and in `digits` of Base/Decimal, each with the
--   length or the number itself, of which a step takes at least one.
-- - Smtp: crates/carriers/src/smtp.rs. A connection is the list of the lines that the client sends;
--   the parser of commands, the pipeline, the delivery and the database are a record of services.
--   The loop of a session runs on fuel, one unit for each line of the connection, which is enough
--   since each turn reads a line at least. Smtp/Daemon fills the record with the pipeline, the
--   delivery and the store.
-- - Testkit: crates/carriers-testkit. Testkit/Sender crafts and submits messages, Testkit/Sink is
--   the SMTP sink that scores what is delivered, by Testkit/Verdicts, Testkit/Harness has the
--   identities, keys and files, Testkit/Scenario the scenarios and Testkit/Main the commands. The
--   session of the sink runs on the fuel of the listener's, and the wait for a verdict polls 100
--   times, as the code does.
-- - The modules called Tests hold runs at concrete inputs.
--
-- Not modelled: the built-in scripts, which the sieve crate interprets; the parsing of arguments;
-- the mock DNS server and the tasks of the test kit; sockets that fail, and queries that fail. A
-- directory is read at one time, and a file name is a text.
pub mod Base
pub mod Files
pub mod Store
pub mod Testkit
pub mod SieveEngine
pub mod Policy
pub mod Verp
pub mod Bounce
pub mod Keys
pub mod Provider
pub mod MailingList
pub mod Transform
pub mod Pipeline
pub mod State
pub mod Sign
pub mod Deliver
pub mod Smtp
pub mod Cli
