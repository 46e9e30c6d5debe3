-- ===== src/Lib.antt =====
-- The clearnode (nitrolite/clearnode), the server that keeps the balances of wallets off-chain: its
-- double-entry ledger, the channels that bring funds in and out, the app sessions in which participants
-- pool and redistribute funds, the session keys that may sign for a wallet, the logins, the connections,
-- and the requests and the events of the chains that change them.
--
-- How the parts interact. A wallet logs in on a connection by signing a challenge. A request arrives
-- signed. Its handler finds the wallets that signed, by the cache of session keys, and opens a
-- transaction on the database. Inside, a session's quorum is checked, the channels of the wallets that pay
-- are checked to be empty and unchallenged, and each movement of funds is two entries in the ledger and
-- one row in the journal. If anything fails, the database comes back as it was. The events of the custody
-- contract are read by the listener of each chain, stored once, and booked in the same way; a challenge of
-- an old state puts a checkpoint in a queue, which the chain's worker drains.
--
-- Which file models which part:
--   Money              github.com/shopspring/decimal and the addresses of go-ethereum, as parameters:
--                      operations with the laws that the code relies on; Money/Exact is about the
--                      amounts that a column DECIMAL(64,18) keeps as they are
--   Error, Effect      the errors, one for each message; code that reads and writes a state and may fail;
--                      rules for what such code ensures (Effect/Rules) and leaves alone (Effect/Keeps)
--   Store              the tables, a list of rows each, newest first (ledger.go, channel.go, app_session.go,
--                      session_key.go, ledger_transaction.go, tag.go, contract_event.go,
--                      blockchain_action.go); Store/Transaction is db.Transaction, Store/Rows the queries
--                      by a key
--   Ledger             ledger.go: book and record_entry are WalletLedger.Record, balance is
--                      WalletLedger.Balance; Value, Balance, Moves, Payments, Changes, Conserved and
--                      Exact hold the theory of what rows are worth
--   Transactions       ledger_transaction.go: the journal and the names of its types
--   Channels           channel.go, checkChallengedChannels and ensureWalletHasAllAllocationsEmpty;
--                      Channels/Service is channel_service.go, with RequestResize and RequestClose
--   Custody            custody.go: one handler for each event of the contract, in Created, Resized, Closed
--                      and Custody itself; Funds holds what an event does to the balances, Once and
--                      Recorded that an event counts once
--   BlockchainActions, BlockchainWorker
--                      blockchain_action.go and blockchain_worker.go: the queue of checkpoints and the
--                      worker of a chain
--   EthListener        eth_listener.go: ReconcileBlockRange, which fetches the events of past blocks
--   Assets, Blockchains
--                      asset_config.go and blockchain_config.go: verification and look-ups
--   SessionKeys        session_key.go: the table and the cache; Caps and Rotation hold the theorems
--   AppSessions        app_session_service.go: update_deposit, update_withdraw and update_operate are the
--                      Update methods of the three updaters, create_app_session, submit_app_state and
--                      close_application the methods of AppSessionService; Quorum is verifyQuorum,
--                      Allocations is verifyAllocations (rpc_router_private.go)
--   MessageCache       message_cache.go
--   UserTags           tag.go: GenerateOrRetrieveUserTag
--   Auth               auth.go: AuthManager, its challenges and sessions
--   RouterAuth         rpc_router_auth.go: the two ways to log in, and AuthMiddleware
--   RpcNode, RpcRouter rpc_node.go and rpc_router.go: the registrations, with the groups of middleware, and
--                      the run of a request through its handlers
--   ConnectionHub      pkg/rpc/connection_hub.go, and the hub of rpc_connection.go, which is the same
--   Handlers           HandleTransfer and HandleRevokeSessionKey (rpc_router_private.go), tags (tag.go)
--   Tests              concrete libraries and states, on which the theorems are applied
--
-- Conventions. Loops over lists recurse on them. The one loop with fuel is that of ReconcileBlockRange: a
-- unit for each attempt, and as many as failures and blocks are enough. A pass of a chain's worker is an
-- element of a list, since its ticker never ends. A Go map that is ranged over is a list in the order of
-- that run, and theorems hold for any order; a map that is only looked up is a function. `now` is the
-- time of a call, in the unit that its module names. The id of a new session is the hash of its
-- definition, an argument. int64 and uint64 wrap around (Base/Word). A method of a locked object is one
-- step. A handler of an event that logs an error and returns is modelled as returning the error.
--
-- Amounts. The entries of the ledger keep the amounts that the code gives them. PostgreSQL's columns have 18
-- fractional digits and round what is finer, which is not modelled, so what is said of an amount with more
-- digits is of the amount that the code books and not of the one that is stored; the theorems that name
-- Money/Exact are about amounts that are not finer. SQLite's sums are in floating point, and are
-- parameters (float_sum, float_difference), except for Balance, which adds the rows up itself.
--
-- Not modelled: failures of the connection to the database, row ids and times of creation, JSON and YAML,
-- metrics and logs, the sockets and their goroutines, the queries that only list rows, the rest of the
-- client library (pkg/rpc), the contracts of the chain, the bindings that parse their events, and the
-- recovery of addresses from signatures, which is go-ethereum's. The circuits, contracts and the front
-- end of the prediction market are in other languages.
pub mod Base
pub mod Money
pub mod Error
pub mod Effect
pub mod Store
pub mod Ledger
pub mod SessionKeys
pub mod Assets
pub mod Auth
pub mod BlockchainActions
pub mod Blockchains
pub mod BlockchainWorker
pub mod Channels
pub mod ConnectionHub
pub mod Custody
pub mod EthListener
pub mod Transactions
pub mod AppSessions
pub mod MessageCache
pub mod UserTags
pub mod RouterAuth
pub mod RpcNode
pub mod RpcRouter
pub mod Handlers
pub mod Tests
