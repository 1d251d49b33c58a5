-- ===== src/Lib.antt =====
-- The swap client: a daemon that swaps between Lightning, Bitcoin and Liquid with a server that it
-- does not trust. It watches its swaps, pays, claims and refunds them, checks what the server asks
-- for, and creates swaps by itself to keep balances where the user wants them.
--
-- The parts, and the files that model them:
--   Base            shared notation: native numbers, machine words, int64, lists, Boolean tests.
--   Float           Go's float64, an argument (Arith) of what computes with it: pkg/lightz/api.go.
--   Lightz          pkg/lightz: currencies, pairs and errors (Types), status events (Events), fees and
--                   CheckAmounts (Fees), invoice expiry (BlockTime), pairs (Pairs), the check of the
--                   scripts of a swap (SwapTree) against a contract of who may spend (Spending).
--   Onchain         internal/onchain: queries with retries and lockup outputs (Chain), the fee of a
--                   transaction (Fee), several providers as one (MultiChain), wallets (Wallets).
--   Database        internal/database: the setters of the three kinds of swaps. A setter changes the record
--                   in memory and runs an UPDATE on the row, which may fail. Query is the WHERE clause
--                   that SwapQuery builds, read with the precedence of SQL.
--   Nursery         internal/nursery: handlers as state passing (Handler, and Failing for those that end in
--                   an error handler), createTransaction (Transactions), RefundSwaps (Refunds),
--                   CheckAmounts (Amounts). Submarine is the submarine swap: World is the swap, its row and
--                   what was sent; Lockup, Claim and Status are the parts of handleSwapStatus. ChainSwaps
--                   and Reverse have the same parts for chain.go and reverse.go, and Blocks for what a
--                   new block does. Direct models the direct payments of reverse swaps.
--   Rpc             internal/rpcserver: requests that answer, fail or panic (Request), and createReverseSwap
--                   (Reverse): Steps is what asks wallets, keys, server and database, Creation the checks.
--   Autoswap        internal/autoswap: checks, budget, configuration, strategies, lightning and chain
--                   swaps.
--   Tests           concrete inputs.
--
-- How they interact: a status event of the server runs handle_swap_status, which asks the server
-- (Peers), the chains (Onchain) and the database (Exec), and refunds through create_transaction, whose
-- outputs carry callbacks into the handler's state. A request of the RPC server checks what the server
-- proposes with the swap tree and the amounts, and hands the swap to the nursery, which pays its
-- invoice; the autoswapper sends its requests there too.
--
-- How code becomes definitions: a function that mutates what it is given is a Handler, which gives a
-- value, returns early (done) or panics, and leaves a state. A nil dereference and a write to a nil
-- map are panics. Integers wrap around (add64, sub64, to_int64); amounts and heights are natural
-- numbers otherwise. Loops are structural recursion; retries and the rounds of the budget's interval
-- are counted, and the theorem on the interval says that the count given is enough. A Go map is a
-- function or an association list with what a missing key gives.
--
-- Arguments of the model, since they are not the client's code: the server, the Lightning node, chain
-- providers and wallet backends, SQLite, float64 arithmetic, slices.SortFunc, and the libraries for
-- transactions, invoices, hashes and signatures. Of ConstructTransaction of pkg/lightz/transaction.go,
-- which signs with them, the division of the fee is modelled (Nursery/Transactions/OutValues); the rest
-- is an argument, and the theorems on createTransaction hold for every result of it. So are, in
-- Rpc/Reverse, ValidateAddress, DeriveKey and NewChanIdFromString, which wrap such libraries, and the
-- subscription of registerSwaps.
--
-- The theorems on sequences of events read each swap from its row before every event, as the client
-- does, and follow one swap: a block that claims or refunds several swaps in one transaction is the
-- subject of the theorems on createTransaction.
--
-- Where docs/autoswap.md and internal/autoswap/strategy.go differ, the code is modelled: with a single
-- threshold the docs swap up to the full capacity of a channel, the code leaves the reserve.
--
-- Not modelled: the listeners and forwarders of updates, the other statements of the database, the
-- signing of transactions and keys, the other requests of the RPC server and its macaroons; pure
-- I/O, generated code, bindings and the command line. The words that handlers put in front of an
-- error's text and the log are left out.
pub mod Base
pub mod Float
pub mod Lightz
pub mod Onchain
pub mod Database
pub mod Nursery
pub mod Rpc
pub mod Autoswap
pub mod Tests
