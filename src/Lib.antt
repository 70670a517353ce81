-- ===== src/Lib.antt =====
-- BlockRun MultiversX platform: what verifies, settles and relays x402 payments on MultiversX.
--
-- The facilitator takes a payment as a signed transaction (src/domain/schemas.ts), reads the transfers
-- off its data field (src/utils/data_parser.ts), checks them against what was asked for
-- (src/services/verifier.ts), and settles them: the record of the settlement goes to a storage
-- (src/storage/memory_storage.ts), a relayer of the sender's shard signs
-- (src/services/relayer_pool.ts), and the network is given the transaction
-- (src/services/settler.ts). Requests wait in a queue for each relayer, and are tried again
-- (src/services/settlement_queue.ts). A second relayer pool hands out nonces ahead of their
-- confirmation (src/services/pipelined_relayer_pool.ts), for a queue that sends settlements in batches
-- (src/services/pipelined_settlement_queue.ts). Payers are sent to a merchant of their own shard
-- (src/services/merchant_pool.ts), gas is computed ahead (src/services/gas_calculator.ts), and the
-- relayers are topped up from a treasury (src/services/relayer_gas_sentinel.ts).
--
-- Three servers sell by means of the facilitator. The tollbooth (src/tollbooth/tollbooth_server.ts)
-- sells pages to crawlers, at a price that depends on their reputation and on the length of the page.
-- The gateway for tools (src/gateway/mcp_gateway.ts) registers tools of others, sells calls of them, and
-- stops calling a tool that keeps failing (src/gateway/tool_circuit_breaker.ts). The router for models
-- keeps the credit that is left of what clients have paid in advance
-- (src/router/two_phase_reconciler.ts), ranks its providers (src/router/arbitrage_matrix.ts), slashes
-- those that fail (src/router/sla_slasher.ts), and goes from one provider to the next without a break in the
-- text (src/router/fallback_dispatcher.ts).
--
-- Which file models what:
--   Base                 numbers, texts, lists, `Map` (Base.Dict), calls that throw (Base.Thrown), BigInt
--   Domain               the schemas, as records
--   Parsing              parseTransactionTransfers, decodeTransactionData, extractChainID; Build has
--                        buildEsdtTransferData and buildMultiEsdtTransferData, Hex the hexadecimal
--                        numbers, RoundTrip the two together
--   Relayers.Pool        RelayerPoolManager: registration, round robin, the scan of fromMnemonic
--   Relayers.Pipelined   PipelinedRelayerPool: reserveNonce, confirmNonce, resyncNonce, and the padding
--                        loop of fromMnemonic
--   Services.Chain       transactions, simulations, and the MultiversX SDK as a record of functions
--   Services.Verifier    VerifierService.verify: Defs has the checks that need no SDK, Verify the others
--                        and the whole, Sound what one check that passes has shown, Valid the verdict,
--                        Answers when there is one
--   Storage              MemorySettlementStorage: save, getById, getBySignatureHash, updateStatus, list,
--                        count, getSummary; Refined has its abstract
--                        specification, Pages what list finds
--   Services.Settler     SettlerService.settle: Defs has its steps, Settle the whole; Kept
--                        and Once have the calls that follow
--   Services.Queue       ShardWorker and executeWithRetry (Defs), SettlementQueue (Load)
--   Services.Batches     PipelinedSettlementQueue: settle, enqueueItem and flushBatch (Defs), the pending
--                        count (Count), repeated requests (Completed, Once)
--   Services.Merchants   MerchantPoolManager
--   Services.Gas         MultiversXGasCalculator
--   Services.Sentinel    RelayerGasSentinel
--   Services.Facilitator what the servers use of the verifier and the settler, as an interface, and the
--                        modelled services as its implementation
--   Tollbooth            TollPricingEngine (Pricing, Prices), AbuseReporter (Abuse, Reports), and the
--                        handler of GET * (Server, with Paid, Cache and Receipt)
--   Gateway.Breaker      ToolCircuitBreaker
--   Gateway.Mcp          McpRegistryAdapter (Registry, Health), McpExecutor (Executor, Circuit), the
--                        registration of tools (Register, Owner, Owned, Replay), paid calls (Calls,
--                        Paid), resources and feedback (Reading) of McpGateway
--   Router.Credit        TwoPhaseReconciler, without its database
--   Router.Fallback      CascadingFallbackDispatcher
--   Router.Ranking       ArbitrageMatrix (Defs, Sorted, Ranked) and SlaSlasher (Defs, Slashed)
--
-- How code is modelled. An object is a record and a method that changes it a function from the old
-- record to the new one; a Map is an association list in insertion order. A call that may throw
-- returns `Thrown`, with the message of the error. Where the code awaits, the worker of a queue and the
-- pipelined queue are cut into steps, and every order of steps is covered by the reachability of the
-- step relation; one call of the settler, or of a handler of a server, is one step. The servers are
-- proved against the interface of the facilitator, whose law is that a valid verdict vouches for the
-- checks. Date.now, random ids, SHA-256, Buffer, the SDK (addresses, signatures, decoding) and the
-- network are parameters, functions or values that the definitions take. Texts that the code searches
-- or splits are lists of code units. Where the code rounds a floating point number, the model rounds
-- the exact fraction.
--
-- Fuel. The retries of a request run on one unit of fuel for each attempt that is allowed, and the
-- theorem on them shows that this is enough. The padding loop of the pipelined pool runs on fuel too,
-- since it need not end. The hexadecimal text of a number n runs on n + 1 units, and the theorem on
-- what is built and parsed back shows that this is enough. The scan of derivation indexes is bounded in
-- the code by its maximal index.
--
-- Not modelled: the gateways for models, SQLite, the bot classifier, the extraction of text from HTML and
-- the verification of publishers in the tollbooth, the names of models and the prices in the router,
-- the treasury, metrics, HTTP clients, the web interface, the published client
-- packages, and the Python client.
-- Of the storage, `close` and the total in dollars of a summary are left out, which is a floating
-- point number for display. Of the verifier, the answer to a gas price or limit that is no integer is
-- left out, since the schema has numbers there; the servers do not apply the schema to the payment in
-- a header. Two settlements of one signature that overlap in time are not modelled.
pub mod Base
pub mod Domain
pub mod Parsing
pub mod Relayers
pub mod Storage
pub mod Services
pub mod Gateway
pub mod Router
pub mod Tollbooth
