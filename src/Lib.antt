-- ===== src/Lib.antt =====
-- JW Swarm: the Fleet Manager of a swarm of GPU nodes. Nodes connect by a WebSocket tunnel,
-- register, and report their state; clients send OpenAI-style requests, which the Fleet Manager
-- routes to a node that is awake and has the model ready, and whose answers it streams back. It
-- records sessions, deliveries and points in SQLite, and enrolls new nodes with one-time tokens.
--
-- Which file models which part (paths from the repository's root, all under
-- jw-swarm-fleet-manager/src/ unless said otherwise):
--   Proto        proto.rs: the types of the messages, with snake_case constructors. Proto/Parts,
--                Proto/Bodies and Proto/Codec hold the serde instances that they derive: what the
--                fields, renamed variants and tags are called in JSON, `to_json` and `from_json`.
--                Proto/Schema is proto/schema.json.
--   Serde        JSON documents as trees, with the derived readers and writers of integers, floats,
--                structs, unit variants and adjacently tagged enums as serde documents them: a
--                struct is read from an object, in which no known key stands twice, or an array.
--   Registry     registry.rs: `Inner` is the record `Registry` of two maps; each method runs under
--                the lock, and is a function from a registry to a registry or an answer.
--   Router       router.rs: `score` and `pick_node`; `max_by` is the fold `max_from`.
--   Catalog      catalog.rs: the allowlist and `resolve_for`.
--   Accounting   accounting.rs: points.
--   Db           db.rs, with the tables of jw-swarm-fleet-manager/migrations: Db/Schema holds the
--                rows, Db/Nodes, Db/Sessions, Db/Ledger and Db/Tokens the queries, each a function
--                from the tables to the tables or an error.
--   Config       `EnrollmentConfig` of state.rs.
--   State        `AppState` of state.rs; besides its fields it holds what the handlers share
--                through the runtime: the channels, and the spawned tasks with the database calls
--                that each still makes. `step_tasks` lets one task make its next call.
--   Enrollment   enrollment.rs: the five handlers; Http holds statuses and responses.
--   Tunnel       tunnel.rs: `handle_message` is split by message, `handle_socket` is the read loop
--                over the frames that the socket yields, `finish` what follows the loop. Tunnel/Writer
--                is the writer task.
--   Api          api.rs: `chat_completions` with its second half `submit`, the two kinds of answer,
--                `list_models`.
--   System       the handlers that main.rs routes to, and the spawned tasks, as steps on `AppState`
--                that may come in any order; System/Starting is `main`, and the life over restarts.
--                System/Relay, System/Joining, System/Ticking, System/Enrolling, System/Frames,
--                System/Interchange and System/Written join both programs: what one sends,
--                handled by the other.
--   Admin        admin.rs: the three reports.
--   Node         jw-swarm-nodes/linux/src, the Linux node:
--     Backend, Ready, Prompt    backend.rs: the resident models, the ready ones, the readers of a
--                               payload.
--     Llama, Counters, Generate backend.rs: the token loop, the statistics, `generate` and
--                               `worker_loop`.
--     Schedule, Probe, Downloads, Coordinator
--                               main.rs: the awake window, what a node registers with, the spawned
--                               downloads with their tracker, and `run` with `handle_msg` as a
--                               step on `State` for each event that the tasks meet.
--     Fetch                     models.rs: `download_model` on the files of a directory.
--     Artifact                  backend.rs: `model_file` and `file_size_mb` on that directory.
--     Connector                 tunnel.rs: `build_connector` and `load_root_store`.
--     Proto                     proto.rs of the node: its own declarations of the messages and what
--                               they derive. Proto/Same relates them to those of the Fleet Manager,
--                               which the other modules of the node use in their place.
--     Wire                      tunnel.rs: `run_loop`, with its main loop over the socket's events.
--     Enroll                    enroll.rs: the command line and `run`.
--     Settings, Metrics, Start  config.rs, metrics.rs, and `main` of main.rs.
--   Channel      the unbounded channels of tokio as the handlers use them.
--   Float        the floats, and what is assumed of their comparison where a theorem asks for it.
--   Common       library names, lists, texts, maps and sorting as the Rust standard library's
--                methods that the program calls. Tests holds concrete runs.
--
-- The parts interact through `AppState`. The tunnel writes the registry and spawns database
-- calls; the API reads a snapshot of the registry, registers a pending request and sends to the
-- node's channel; the node's events reach the request's channel through `dispatch_event`. On the
-- node the coordinator reads the messages of the tunnel, spawns downloads, and hands prompts to
-- the backend's worker; all of them send through the tunnel's queue.
--
-- Arguments of the model stand for what the sources only call: floating-point arithmetic, the
-- clock, random ids, SHA-256, files and openssl, HTTP, rustls, llama.cpp, the readers of JSON texts
-- and of TOML, and for every database call whether each statement runs. The read loop of a tunnel
-- recurses on the frames, the loop of a buffered answer on the events. The node's loops recurse on
-- the events, rounds or chunks that they meet, and the token loop on the tokens that are left of
-- the prompt's `max_tokens`. The one loop on fuel is the trimming of the resident models; its fuel
-- is the number of loaded models, since each turn unloads one.
--
-- A handler that is one Rust function runs here in one step, except where other tasks can matter
-- for the outcome: `chat_completions` takes what they do between its snapshot and its lookup of
-- the sender as an argument, which System fills with any steps of others, and the calls of a
-- spawned task are steps of their own. The two queries of the report on a node each have their own
-- database. Texts are compared in SQLite by their characters. The row
-- order and the iteration order of a hash map are those of the list that stands for it.
--
-- On the node a step of `Coordinator` is one branch of `select!` or one part of a download task
-- between two awaits; that the artifact is registered after the tracker is cleared is two steps.
--
-- Not modelled: the logging, the progress of a download, file permissions, the failure of llama.cpp
-- to initialise, and of the programs under jw-swarm-nodes the macOS and Windows ones. The order in which the members of a
-- JSON object come is that of the writer; a payload that stands before its tag is read alike.
pub mod Common
pub mod Float
pub mod Proto
pub mod Serde
pub mod Channel
pub mod Registry
pub mod Router
pub mod Catalog
pub mod Accounting
pub mod Db
pub mod Http
pub mod Config
pub mod Enrollment
pub mod State
pub mod Tunnel
pub mod Api
pub mod Admin
pub mod System
pub mod Node
pub mod Tests
