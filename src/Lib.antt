-- ===== src/Lib.antt =====
-- Verification library of the Wattetheria gateways.
--
-- The repository has two servers. The message gateway (crates/message-gateway) admits principals to
-- networks, keeps the projection of their memberships in PostgreSQL, and delivers signed records
-- through RabbitMQ mailboxes. The gateway (crates/gateway) projects the events of nodes for user
-- interfaces: it stores them, streams them to clients by their cursors, and announces events and
-- snapshots to its peers. The handlers of the message gateway use its database module: a publish
-- asks for the scope's members, may apply a membership mutation, takes tokens of the rate buckets,
-- and leaves a receipt; a mailbox is read by the gateway that holds its lease.
--
-- The files and the code:
--   Prelude         Boolean tests, lists, saturating words, tables, results, state with errors,
--                   texts as bytes
--   Message/Config      crates/message-gateway/src/config.rs: `Config`, `Config::validate`
--   Message/Admission   `validate_proposed_tenant_count` (service.rs) and
--                       `validate_active_tenant_admission` (db.rs)
--   Message/Bucket      db.rs: `acquire_global_token`, `acquire_non_global_delivery_tokens`
--   Message/Owner       db.rs: the leases on mailboxes
--   Message/Membership  db.rs: the tables and the queries of the membership projection
--     Mutation          service.rs: `apply_membership_mutation`, `record_membership_mutation`
--     Quorum            service.rs: `validate_membership_snapshot_authority`
--     Grants            service.rs: `admit_grant`
--     Genesis           db.rs: `seed_trusted_network_genesis`
--   Message/Gaps        crates/message-gateway/src/gaps.rs
--   Message/Sessions    crates/message-gateway/src/auth.rs
--   Message/Control     service.rs: `send_control`
--   Message/Cleanup     db.rs: `cleanup_expired_metadata`
--   Message/Token       crates/message-gateway/src/commit_token.rs
--   Message/Publish     service.rs: `publish`, in the order of its steps
--     Frame             `validate_record_frame` and the checks of each kind of frame
--     Checks            `load_confirmed_receipt` and the checks before the tokens are taken
--     Reconcile         `reconcile_scope_bindings`
--     Pipeline          the tokens, the broker, the receipt, and `publish` itself
--   Gateway/Contracts   crates/gateway/src/contracts.rs: the data-kind catalogue
--   Gateway/Json        the JSON values of payloads
--   Gateway/Stream      crates/gateway/src/streaming.rs: `handle_ws` and what it uses
--     Cache             crates/gateway/src/state.rs: `PublishedEventCache`, `UiStreamHub`
--   Gateway/UiEvents    crates/gateway/src/db.rs: `insert_ui_event` and the queries by cursor;
--                       crates/gateway/src/models.rs: `GatewayUiEvent::try_from`
--   Gateway/Outbox      db.rs: the outbox of the peer network; crates/gateway/src/gateway_sync.rs:
--                       `drain_p2p_outbox`
--   Gateway/Reannounce  gateway_sync.rs: `reannounce_local_snapshots`, with the queries of db.rs
--     Schedule          gateway_sync.rs: `run_periodic_sync_work`, `schedule_full_reconcile`
--   Gateway/Gossip      gateway_sync.rs: the waiting fetches of a peer
--   Gateway/NodeEvent   the events that nodes sign
--   Gateway/Projection  streaming.rs: `event_projection`, what its normalizers share
--     Event             the normalizers of hives and boards, `normalized_event_scope`
--     Rows              `materialize_projection_row`, and db.rs: `upsert_projection_row`
--   Gateway/Ingest      streaming.rs: the checks of `persist_signed_node_event_with_options`
--     Store             its writes, and the whole of it
--   Gateway/Space       crates/gateway/src/space.rs: the tables of presences and world events
--     Persist           space.rs: `persist_event`
--     Valid             space.rs: `validate_event`
-- A component's operations have the names of the code's functions. Its theorems stand in child
-- modules named for what they show, and Tests has runs on concrete data.
--
-- How the code is modelled: a table is an association list with the primary key of its SQL table,
-- and a statement is a function of it. A transaction that fails leaves its database as it was, so
-- such an operation returns the new database or an error; `send_control` and `publish`, which run
-- outside a transaction, return a state in both cases. Errors are constructors in place of
-- messages. The clock, random identifiers and the elapsed time are arguments. The broker is a
-- function that says whether its calls succeed, and a flag says whether the transaction of a
-- publish commits. JSON, hashes, signatures and the shared wattswarm crates are records of
-- functions (GrantCrypto, GapLibraries, AuthLibraries, ControlLibraries, TokenLibraries, and those
-- of Message/Publish) or arguments.
--
-- Numbers: times are in milliseconds, and microseconds in the buckets; a u64 is a natural number
-- with saturation written out, and a cast to a BIGINT that is read back keeps its bits. The buckets
-- count millionths of a token, exactly, where the code has floating point. No definition runs on
-- fuel but the printing of a decimal, which has one step for each unit of the number, and the runs
-- of a full reconcile, which end within one run for each row and one more.
--
-- Not modelled: columns that only record a time, the audit log but for the entries of
-- `insert_ui_event`, metrics, the order of a BTreeSet, the JSON of roles (a role is its name), the
-- advisory locks (`begin_scope_fence` too), a clock that advances within one publish or one drain,
-- the HTTP layers, the broker adapter; and of crates/gateway the fetch of snapshots, the checks of
-- signatures, the read models, the registry, the semaphores of received gossip
-- and the clients.
pub mod Prelude
pub mod Gateway
pub mod Message
