-- ===== src/Lib.antt =====
-- A model of the core library of the Breez SDK for Liquid (lib/core), which pays and receives
-- Lightning and Bitcoin payments by swaps with Liquid coins.
--
-- The parts and how they interact. A swap is a record of the database (lib/core/src/model.rs). Its
-- handler (lib/core/src/send_swap.rs, receive_swap.rs, chain_swap.rs) reacts to status updates of the
-- swapper, to a user's payment and to a timer: it checks each change of the payment state and writes
-- it through the persister (lib/core/src/persist). The recoverer (lib/core/src/recover) brings a
-- swap up to date from the transactions on the chain, without the handler's check, and the handler
-- of send swaps calls it where a claim was not cooperative. A payment of another asset than LBTC may
-- be a payjoin (lib/core/src/payjoin), in which a server pays the network fee: its inputs are chosen
-- by a search for coins.
--
-- Files:
--   Base         the names that the modules share: numbers with the wrap-around of 64 bits, lists,
--                results (`Result`, the `?` operator as `>>=`), integers, texts
--                Exec: actions that return a result and a new state
--   Persist      what the tables of lib/core/src/persist/ have in common: ids, triggers,
--                lookups, updates of the rows that pass a test, how a claim is recorded (Claims),
--                and the changes that wait to be pushed (Outgoing)
--   Ledger       a view of a table that shows claims only
--   Model        lib/core/src/model.rs and error.rs: states, swaps, histories, errors
--   Utils        lib/core/src/utils/mod.rs: lock times, payment hashes
--   Send         lib/core/src/send_swap.rs and persist/send.rs. Transition: the check of a state
--                change, with its graph (Graph) and the states that are reached (Reach). Store: the
--                table, each operation a function of the database. Handler: the
--                handler's functions, Handler/Status its status updates. Moves: what the handler may
--                do to a row. Safety: lockup, refund, versions
--   Receive      lib/core/src/receive_swap.rs and persist/receive.rs. Transition, Store, Handler
--                (with Lockup, Status and Blocks), Moves and Safety as for the chain swaps.
--                Refines: any sequence of events, each with its own services, in terms of the
--                ledger
--   Chain        lib/core/src/chain_swap.rs and persist/chain.rs. Transition: the check of a state
--                change. Amountless: whether a quote is accepted. Store: the table and its
--                operations. Handler: updates, lockup and claim, with Check and Verify (lockups),
--                Fees (quotes), Refund, Status (status updates) and Blocks (new blocks). Moves:
--                what the handler may do to a row. Safety: claims, quotes, lockups that are refused
--   Recover      lib/core/src/recover/model.rs and handlers/mod.rs, with a module for each of the
--                four files of handlers: Send, Receive, ChainSend, ChainReceive. Each has the
--                recovered data (Onchain), the derived state (State) and the update (Update)
--   Payjoin      lib/core/src/payjoin: Fee (network_fee.rs), Select and Range (the selections of
--                utxo_select/mod.rs), Asset (utxo_select/asset.rs), Inner (the search over the
--                numbers of inputs) and Validate (the check of its result)
--   Sync         lib/core/src/sync/model/data.rs: what the realtime sync keeps of a swap, and the merge
--                of what two devices know
--   Tests        witnesses, and runs at concrete inputs
--
-- State. `Db` of Send/Store, of Chain/Store and of Receive/Store is what the handler of these swaps
-- writes: the rows of the table and the payments, notifications, sync records,
-- broadcasts and accepted quotes, which are lists, and the claims that are in progress. An action
-- returns a result and the new database, also where it fails, since what was written stays written.
-- Functions of the source keep their names; loop bodies, match arms and tests have names of their
-- own where a proof speaks of them.
--
-- Parameters. The swapper, the wallet, the chain services, the clock, hashes, addresses and the
-- parsing of invoices are fields of records (`Services`, `InvoiceLib`, the contexts of Recover), as
-- is `f64` arithmetic (`F64`). The hash of an id, whether there is a sync, the ids of its records and
-- the time are fields of `Table`. They are functions: the same question has the same answer within
-- one call of a handler. The sequences of Receive/Refines have other services for each event. The
-- AFTER UPDATE triggers of persist/migrations.rs are part of each UPDATE (`touch_metadata`).
--
-- Bounds and fuel. Sums of `u64` wrap around (`add_u64`), subtractions that saturate are those of
-- the natural numbers. The search of `utxo_select_in_range` has the source's limit of 100000
-- iterations and returns the best selection so far when they are used up, so that no more are
-- needed; all other loops are over lists. A panic is `none` in an outer option.
--
-- Not modelled: logging, the texts of errors, errors of SQLite, the loop of the recoverer that
-- fetches histories, the sync service with the records other than swaps, and the code that only
-- calls services or libraries.
--
pub mod Base
pub mod Model
pub mod Persist
pub mod Ledger
pub mod Utils
pub mod Send
pub mod Receive
pub mod Chain
pub mod Recover
pub mod Payjoin
pub mod Sync
pub mod Tests
