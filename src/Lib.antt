-- ===== src/Lib.antt =====
-- fineract-ai-backend: the life of a job of the chat assistant.
--
-- A user sends a request in a session; it becomes a job. A worker claims the job with a lease, asks a
-- model for a plan, admits and runs the plan's one node, and settles the job with a response; it may
-- ask the user instead, and the user answers, skips or cancels; a reaper closes or recovers what was
-- left. All of it is state in PostgreSQL, changed by transactions that are written as SQL in Rust. A
-- client follows the job's event log over a stream.
--
-- Prelude        tests on numbers and options, the statements of SQL on lists (WHERE, UPDATE, row
--                counts), the JSON values of the jsonb columns.
-- Store          the tables (migrations/20260913000004_chat_and_jobs.sql, and 5 and 6): Vocabulary has
--                the closed vocabularies, Rows a record for each table and JobRows, a job with all
--                rows that carry its id, Sessions a session with its memory; Events is append_event,
--                append_event_ref (crates/chat/src/job/repository.rs) and insert
--                (crates/chat/src/audit.rs); Lease is the fence that the workers' statements repeat.
-- Job            create_job, claim_idempotency, insert_job_chain and request_cancel
--                (crates/chat/src/job/repository.rs). Accept has create_job, Accept/Rows the rows
--                that it inserts, Idempotency the keys, Cancel the cancellation; OneActive and Replay
--                are proofs.
-- Engine         crates/chat/src/engine/repository.rs: Claim (claim_next, renew_lease), Model
--                (admit_model, finish_model, model_budget), Plan (persist_plan), Node (admit_node,
--                complete_node), Memory (promote), Settle (settle_with_response, settle_failed,
--                settle_cancelled), Settle/Skipped (skip_unadmitted_attempts), Reaper (sweep and
--                its three passes), Reaper/Abandoned (abandon_running_attempts); Passes, Sweeps,
--                Budget, Oldest and Recall are proofs.
-- Clarification  crates/chat/src/clarification/repository.rs: Open (open_form), Accept
--                (accept_answers), Skip (skip), and Answers and Resolve, which these share.
-- Stream         open, validate_cursor, next, fill and idle (crates/chat/src/events/service.rs), after
--                and earliest (crates/chat/src/events/repository.rs); Gaps and Gaps/Reads are proofs.
-- Validate       crates/chat/src/engine/validate.rs: Claims (rank, worst, per_block_completeness, aggregate),
--                Numerals (numerals, readings, canonical), Evidence (collect, grounded_numerals,
--                prose_numerals), Charts (chart_problem, with time_series_incompatibility of compose.rs),
--                Rules (chart_failures, failures), Rules/Blocks (shape_failures), Apply (apply, fallback, with block of
--                compose.rs); Worst, Honest, Contributors, Dropped, Shape, Drawn, Backed, Served, Tokens
--                and Decimals are proofs.
-- Auth           crates/core/src/auth: Repository (the transactions of repository.rs on the tables of
--                migrations/20260913000001_auth.sql), Service (login, refresh, logout, profile and
--                bootstrap_admin of service.rs); Rotation is the relation of the transactions on sessions
--                and refresh tokens; Lives, Sessions and Refines are proofs.
-- Freshness      crates/chat/src/engine/freshness.rs: Assess (assess, gather, for_rows); Lowered is
--                cap_rows, lowered_claim and combined_completeness (crates/chat/src/engine/compose.rs)
--                as run_job (crates/chat/src/engine/worker.rs) calls them; Verdict and Reported are
--                proofs.
-- WriteIntent    crates/chat/src/engine/write_intent.rs: Words (tokenize and the vocabularies), Guard
--                (is_write_request); Hidden is a proof.
-- Proposal       crates/chat/src/engine/proposal.rs: Model (the data), Graph (the checks of the nodes and the
--                loop that looks for cycles), Parse (parse, UniqueValue); Counts, Founded, Acyclic, Checked,
--                Sound and Unique are proofs.
-- Protocol       Step is the relation of all transactions that change one job; the other modules prove
--                what every run of it keeps (Frozen of ended jobs, Resolved of forms, the others of
--                the log, the lease, the columns, the attempts and the served version). Frames and
--                Fence have the lemmas that these share.
-- Tests          concrete jobs, runs, documents, logins, requests and proposals.
--
-- A transaction is a function from the rows before to the rows after. `none` is a transaction that
-- was rolled back, because a worker lost its lease, because a guard failed, or because an inserted form
-- or answer violates a constraint of its table: the keys and CHECKs of clarification_forms and
-- clarification_answers are part of the inserts. A run of a job is a sequence of whole transactions in
-- any order. Most of them lock the job's row first, by an UPDATE or a locking SELECT; an answer and a
-- skip lock the form first and then update the job's row, and complete_node locks the attempt.
-- admit_node is one statement that reads the job's row without locking it: that it takes effect as a
-- whole, between other transactions, is an assumption of the model. The value of now(), the generated
-- UUIDs and the rows that SKIP LOCKED passes over are arguments of a transaction. Timestamps, UUIDs and the
-- integer columns are natural numbers, and the office ids of a request integers; the columns of the
-- counters never hold negative values, and their overflow is not modelled. A row's text columns with closed vocabularies are data types.
--
-- A served document is a function of the composed one and of the ledger. The texts of its failures are
-- built as the code builds them; a BTreeMap or BTreeSet of texts is a sorted list. A login, a refresh
-- and a logout are functions of the three auth tables; a refresh reads the token before the
-- transaction that rotates it, and the step relation of Rotation lets other transactions run in
-- between. Two of those transactions on one session wait for each other, since both update its row, so
-- a run is a sequence of whole transactions.
--
-- Parameters: the equality of jsonb values (persist_plan), the SHA-256 digests (complete_node, fallback
-- and the refresh tokens), serde_json's printing of a value (time_series_incompatibility), Argon2 and
-- JWT (Crypto), serde_json's reader and the derived Deserialize of a proposal (parse), chrono's reading of a date and the two probe queries (gather), and the tables of
-- Unicode (tokenize). No hypothesis is made on any of them. The tables are lists in the order of
-- insertion.
--
-- Loops are structural: over the rows that a statement returned, the facts that are promoted, the
-- answers that are inserted. A stream's loop is a list of rounds, each with what the database and the
-- notifications do in it, so no fuel is needed; the attempts at a node are bounded by NODE_ATTEMPT_CAP.
-- The scanner of numerals has one round more than the text has characters, and the printing of a number
-- one more than the number: each round shortens the text or divides the number, and the scanner that
-- runs out of rounds gives `none`. The loop over a proposal's
-- nodes has one more than it has ids: each round but the last visits an id more.
--
-- Not modelled: the planner and its model client, the blocks of composed responses, the datasets, the parsing
-- of parameters and the resolver, the catalogue, the clarification service, the worker's loop, the
-- routes and the configuration. The owner's check before a stream is opened is a service call outside
-- the model. Of the texts that are only shown, explain of freshness.rs is left out.
pub mod Prelude
pub mod Store
pub mod Job
pub mod Engine
pub mod Clarification
pub mod Auth
pub mod Validate
pub mod Freshness
pub mod Proposal
pub mod WriteIntent
pub mod Stream
pub mod Protocol
pub mod Tests
