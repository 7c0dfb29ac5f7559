-- ===== src/Lib.antt =====
-- tuskd: a model of the kernel of a memory system for agents, and the theorems about it.
--
-- The program keeps memory records as Markdown files in a vault, an index derived from them, a keyring
-- of agents with grants, and a gate that decides which candidates become records. The tools that agents
-- call pass the keyring's check before they touch the store.
--
-- Files, and the code that they model (paths from the repository's root):
--   Text, Text/*: the operations of Rust's `str` and `i64` that the code uses, over lists of code points.
--   Errors: crates/tusk-core/src/error.rs; a message is a constructor, not a formatted text.
--   Floats: `f64` as a parameter, with what the standard library documents of its texts.
--   Scope, Scope/*: crates/tusk-core/src/scope.rs (`Scope::parse`, `Display`, `dashed`, `rel_path`).
--   Keyring, Keyring/*: crates/tusk-core/src/keyring.rs. `Keyring.agents` is the state behind the mutex
--     and `Keyring.file` the content of agents.json; each method is an action on both, and takes a
--     Boolean that says whether the file system carries out its save. sha2, hex, subtle and the key
--     generator are parameters (`Crypto`, `CryptoLaws`).
--   Frontmatter, Frontmatter/*: crates/tusk-core/src/frontmatter.rs (`parse`, `serialize`).
--   Time: the crate chrono as a parameter, and `trunc_ms` of crates/tusk-core/src/vault.rs.
--   Record, Record/*: crates/tusk-core/src/record.rs. `to_fields` is the list that `to_markdown` pushes
--     and `from_fields` the record literal of `from_markdown`.
--   BTreeMap: the map of Rust's standard library over texts, and the sorting of pairs.
--   Journal, Journal/*: crates/tusk-core/src/sync.rs. `Journal.file` is the content of the journal's
--     file, `last_hash` the state behind the mutex; `faults` says what becomes of the coming writes
--     (carried out, refused, or stopped after some bytes). `reconcile` takes the files on the disk as the
--     list of their paths and hashes. sha2, serde_json, ulid and the clock are parameters (`Services`,
--     `JsonLaws`, `SeedLaws`).
--   Vault, Vault/*: crates/tusk-core/src/vault.rs. `VaultStore.files` is the list of the regular files
--     below `memory` in the order in which a walk meets them; `writes` says which coming changes of files
--     the file system carries out, and `calls` counts the questions to the clock.
--   Index, Index/*: crates/tusk-core/src/index.rs, over the rows and not the SQL around them: a statement's
--     conditions, order and limit are functions. FTS5's matches and the arithmetic on floats are the `Engine`.
--   Gate, Gate/*: crates/tusk-core/src/gate.rs over the vault, the rows and the queue. The engine of
--     the index and the Unicode tables are parameters (`Config`, `Unicode`).
--   Tools, Tools/*: crates/tusk-mcp/src/tools.rs and the context of context.rs: one action for each tool
--     on the keyring, the vault, the index and the queue. `Value` is serde_json's value; `Reply` stands for
--     the JSON of an answer.
--   Desktop: crates/tuskd/src/service.rs, `set_active` over texts for paths.
--   SyncErrors, Cloud, Cloud/*: crates/tusk-sync/src: error.rs, crypto.rs (`Ciphers` are the crates of the
--     ciphers and the random source), provider.rs, and of cloud.rs what a device asks of the service:
--     `Cloud` is the service with any answers, its state and the random source being the `World`.
--     Cloud/Wrap is wrap.rs, with ed25519 and X25519 as the `Curve`; Cloud/SecretKey is the compact form of
--     the secret key; Cloud/Spaces is spaces.rs, with `Http` for the presigned URLs and the requests.
--   Worker, Worker/*: crates/tuskd/src/sync_worker.rs, sync_state.rs, and of sync_cloud.rs and archive.rs
--     the scan. `Device` is what a cycle changes: the files of the vault by their relative paths, the
--     state, the report and the world. `writes` says which changes of files are carried out.
--   Exec/Keeps, Exec/Triples: what methods keep, and what holds after them.
--   RepoKey, RepoKey/*: the keys of a repository in crates/tuskd/src/sync_cloud.rs (`current_rmk`,
--     `approve`, `revoke`). `Machine` is what they change: the two key files, the device's key and the
--     world; `writes` says which writes are carried out. `Plane` is what they ask of the service.
--   Exec: methods with state and errors. Tests/*: runs at fixed inputs.
--
-- Recursion is structural throughout, but for printing a number, whose fuel `n + 1` is proved enough, and
-- for the pages of `latest_seq`, whose rounds are an argument: one more than the log has operations.
-- Lines of a document are found by one structural pass (`split_lines`) in place of byte positions.
--
-- Not modelled: ids with a slash in a record's path (an id is one component of it), poisoned locks, the
-- formatting of error messages, serde's JSON (files hold the data itself), the control-plane client of
-- crates/tusk-sync/src/cloud.rs, the daemon, the command line and the protocol around the tools, and the
-- parts that only do input and output.
pub mod Prelude
pub mod Text
pub mod SyncErrors
pub mod Errors
pub mod Cloud
pub mod Worker
pub mod RepoKey
pub mod Scope
pub mod Exec
pub mod BTreeMap
pub mod Keyring
pub mod Floats
pub mod Frontmatter
pub mod Time
pub mod Record
pub mod Journal
pub mod Vault
pub mod Index
pub mod Gate
pub mod Tools
pub mod Desktop
mod Tests
