-- ===== src/Lib.antt =====
-- The copy trader watches the transactions of target wallets, buys a token for a group of wallets once
-- enough of them have bought it, and sells the position by price, by time or with the wallets.
-- Paths are from the repository's root; `src` below is copy-trader-v1.6.63/src.
--
-- Parts, and how they interact:
--   A transaction of a target wallet comes in on a stream and is parsed to a detected trade
--   (src/grpc/subscriber.rs, Stream), which the loop of main takes (src/main.rs, Dispatch). It passes
--   the signature cache (src/main.rs, Dedup/Signatures). For a group that waits for several wallets it
--   becomes a signal of the consensus engine (src/consensus/engine.rs, Consensus), which sends a
--   trigger when enough wallets have voted; for another group it starts a buy at once. A sale of the
--   wallet may also signal a sale to groups that follow it. The trigger claims the group and token
--   (src/main.rs, Dedup/Claims) and a buy is built from the bonding curve or from the target's instruction
--   (src/processor/pumpfun.rs, Pumpfun). The position (src/autosell/position.rs, Position) goes into
--   the manager (src/autosell/manager.rs, Manager), whose monitors send sell signals, on the curves and
--   balances of a second stream (src/grpc/account_subscriber.rs, Accounts) among others; the executor
--   (src/tx/sell_executor.rs, Sell) sells and tells the manager. The summaries of the groups
--   (src/group_stats.rs, Stats) count the buys and the closed trades. The group (src/groups.rs, Groups)
--   holds the limits that all of them read; the group manager keeps the groups and their file.
--
-- Files:
--   Prelude: shared names, Boolean tests on numbers, lists, association lists for the concurrent
--     maps. Float: the operations on `f64`, a parameter, and the laws of its comparisons.
--   Trade: the kinds of a trade (src/processor/mod.rs).
--   Consensus/Signals, Engine: the signals and their tally, and the methods of the engine
--     (`submit_signal` is split at the tally: `submit_entry` up to it, `conclude` from it on).
--     Wallets, Tally, Invariant, Quorum, Deciding, Runs, Once, Retract: proofs.
--   Groups/Group: the group and its defaults from the configuration (src/config.rs). Ids: the ids, and
--     the numbers in them. Saved: copy_groups.json. Manager: the state of the group manager, its
--     queries and `save`. Changes: the methods that change it. Load: `load_or_default`. Valid,
--     Histories, Start, Fresh: proofs.
--   Position/State, Prices: the struct and its methods, a method on `&mut self` returning the position
--     after it beside its result. Transitions, Highs: proofs.
--   Manager/Persistence: positions.json (src/autosell/persistence.rs). Store: the operations of the
--     manager on the map and the file. Where a method of the manager has the name of one of the
--     position, it has another one here: close_position, revert_position, restore_position, sell_part,
--     skip_zero_balance, submit_position, confirm_position, sell_position. Exit: the exit conditions.
--     Monitor: the monitors' rounds. Signals, Rounds: proofs.
--   Sell/Attempts: the loop over the attempts. Executor: `handle_sell_signal` and
--     `handle_partial_sell`. Confirm: `wait_sell_confirm`, over the polls that fit into the time. Waits,
--     Outcomes, States, Handler, Release: proofs.
--   Dedup/Claims, Signatures: the two maps of src/main.rs. Exclusion, Passes: proofs.
--   Pumpfun/Curve, Buy: the curve's account and quotes, the amounts of a buy. Quotes, Layout, Targets:
--     proofs.
--   Stream/Types: a detected trade, the messages that are read, the calls of libraries
--     (src/grpc/subscriber.rs). Wallets, Direction, Lamports, Instructions, Cpi, Parse: the methods, of
--     which `parse_transaction` is split into the keys, the wallet and the rounds. Subscribe: the loop.
--     Found, Describes, Sound, Errors, Transfers, Amounts, Order, Sorted, Canonical, Runs: proofs.
--   Accounts/Subscriber: the tracked accounts and caches (src/grpc/account_subscriber.rs). Stream: the
--     loop. Untracked, Runs, Delivery: proofs.
--   Stats/Summary: the summary of a group and its changes (src/group_stats.rs; the methods of the
--     summary that the store has too are count_buy_confirmed and so on). Store: the store and its
--     files. Histories: a log of calls, and what it counts. Counters, Reload, Snapshots, Bumps,
--     Refines, Syncs, Logs: proofs.
--   Dispatch/Tokens, Trades: the body of the loop over the trades (src/main.rs). What it sends to other
--     tasks is a list of effects. Due, Entries, Allowed: proofs.
--   Tests: runs on concrete data.
--
-- Conventions and bounds:
--   Times are nanoseconds of one clock, in Stats seconds; a call takes the time that it reads as an
--   argument. An address is a number, a text the list of its code points. A `u64` or `u32` that can
--   wrap around does (`%`), but for the counters that only go to the log and the chat. The lock of a
--   map's entry makes a call on it one step; what other tasks do between the two reads of a price
--   update is a parameter. The loop over the attempts of a sale runs over the number of attempts left,
--   3 at first, so no fuel is needed; a number is printed on a fuel above the number, which has fewer
--   digits than that; all other loops run over lists.
--   A stream's connection is a list of events, among them the calls of other tasks and their writes to
--   the caches. A saved file is the value that is handed to the JSON library.
--   Parameters: the operations on `f64`; the base58 text of an address; the derived addresses and the
--   serialization of a transaction; for a sale, what the chain, the RPC node and the caches answer.
--
-- Not modelled: the network (gRPC, RPC, Jupiter, the senders), the chat, logging (but for the slices of
--   the streams' log lines that can panic), the tasks of main other than the loop over the trades and
--   the two maps, and the building of instructions from account lists, which are calls of other services
--   and of the Solana SDK; the texts of the reports.
mod Prelude
pub mod Trade
pub mod Float
pub mod Consensus
pub mod Groups
pub mod Position
pub mod Manager
pub mod Sell
pub mod Dedup
pub mod Stream
pub mod Accounts
pub mod Stats
pub mod Dispatch
pub mod Pumpfun
mod Tests
