-- ===== src/Lib.antt =====
-- The core of rof-harness, an agent harness: a loop that asks a provider for a message, runs the
-- tools that it calls, and records every step in a log that survives a crash.
--
-- The parts and how they interact. The driver of crates/agent-loop (`run`) owns one `LoopState` and
-- changes it through step functions: it derives a request from the rows, fits the system message to
-- a budget (crates/context), asks the provider (crates/provider-core), passes the calls of the answer
-- through the gate and the schemas of the registry (crates/tool-core), and records each result before
-- it announces it. The state holds the rows of the durable log
-- (crates/agent-log), a budget guard (crates/agent-budget) that admits each provider call, and the
-- effect gate that stops all of them. What happens is announced by an emitter (crates/agent-event).
-- A batch of tool calls may be committed or rolled back by the gates of crates/bets.
--
-- Which file models which part:
--   * Base: shared names, Boolean tests, lists over native numbers, machine words (u32 and u64,
--     wrapping or saturating as each line of the source does), decimal printing. Printing recurs on
--     fuel n + 1, which is enough since a number has no more digits than its value plus one. Chars
--     has what the program uses of Rust's `str`.
--   * Host: what the program takes from elsewhere (serde_json's `Value`, f64, cancellation tokens,
--     the keyed hash, the Unicode lower-case table), as a parameter, with a small host for tests.
--   * Budget: crates/agent-budget/src. Config has the presets and `with_steps`, Guard the methods
--     of `BudgetGuard` by their names; Caps and History hold theorems. Instants are arguments, in
--     nanoseconds.
--   * Event: crates/agent-event/src. Emitter has `emit`, the listeners and the taps; Pairing has
--     `check_pairing`, whose counters of runs wrap as an `i32`; Delivery and Pairing/Meaning hold theorems.
--   * Log: crates/agent-log/src. Writer and Reader have the functions of writer.rs and reader.rs
--     over the bytes of a file; Validity and Recovery hold theorems. `serde_json` is a `Codec`, and
--     `CodecLaws` is what the log relies on of it; that an item reads back is asked of each item.
--   * Provider, Tools: the vocabulary of crates/provider-core/src/types.rs and
--     crates/tool-core/src/tool.rs. Provider/Errors is crates/provider-core/src/errors.rs,
--     Provider/Retry crates/provider-openai/src/retry.rs, Provider/Json crates/provider-core/src/json.rs
--     and Provider/Protocol protocol.rs and pricing.rs of crates/provider-openai/src; `serde` is `Json`
--     and `Wire`. Provider/Client is one attempt and the retries of client.rs over a `Transport`; the
--     loop runs on fuel, and the rungs of the ladder and eight more are enough (Client/Ends).
--   * Registry: registry.rs, gate.rs and text.rs of crates/tool-core/src; Registry/Prepare holds
--     theorems.
--   * Bets: crates/bets/src, the commit gate, the claims and the counters; Bets/Race the winner of a
--     race.
--   * Context: crates/context/src/collapse.rs; its children Window, Assemble and Compact are the
--     files of these names (and types.rs), Cut and Fit hold theorems. The halving of a window runs on
--     fuel: the cap plus one, which is enough since the cap falls until it is at its floor.
--   * Loop: crates/agent-loop/src. Types, Gate, State, Provider and Terminate are state.rs and
--     gate.rs; Directives is budget_nudge.rs; Verification and Claim are verify.rs; Batch is the
--     accounting of proof.rs; Report is what run.rs reads back for live events. Ops collects every
--     step function as one type of operations, so that a run is a list of them; Grows, Rows,
--     Invariant, Stopping, Admission, Retries, Draining and Open hold theorems. Request is
--     request.rs, its child Compaction the checkpoint of the same file.
--   * Loop/Run: run.rs, as actions on a context that end with an answer or with an outcome. Services
--     is the world: clocks, tokens, disk, provider, tools, snapshots and bets hook, each call of which
--     moves it on; a race against the cancel token is a service that may answer with nothing. Frames,
--     Closing, Opening, Round, Tools and Drive have the methods of `RunCtx` by their names, Proof the
--     patch and hunks of proof.rs. The loop of `drive` ends only where the world lets it, so it runs
--     on fuel, and what is proved of it holds for any fuel. A context has one field more than the
--     source, `synced_at`: how many rows were synced when each frame was emitted. Follows, Durable and Valid hold theorems.
--   * ToolsStd: crates/tools-std/src. Hunk is common.rs and Hunk/Matches a theorem on it, Glob the
--     globs of policy.rs, Condense condense.rs. Positions in a hunk are counted in characters where
--     the source counts bytes, and texts are cut at the same places.
--   * Exit: crates/rof/src/exit.rs.
--   * Examples: concrete runs.
--
-- A method that changes its object is a function that returns the new one, beside what it returns.
-- A function of the source that is long is several definitions here, one for each stage, composed
-- in its order. Both clocks are arguments. The map of tool calls is the list of its entries.
--
-- Not modelled: the tasks, channels and timeouts of the asynchronous runtime, the failures of the
-- operating system on a log file beyond a write that fails, the directory walk, the files and
-- processes of the tools, snapshots by git, the HTTP library, the evaluation and the command line:
-- these are input and output or not yet reached. Of the provider, the dates of a Retry-After header
-- are not modelled (a `Sent` holds the delay that was read), nor are its constructors.
pub mod Base
pub mod Host
pub mod Budget
pub mod Event
pub mod Exit
pub mod Log
pub mod Provider
pub mod Tools
pub mod Registry
pub mod ToolsStd
pub mod Bets
pub mod Context
pub mod Loop
pub mod Examples
