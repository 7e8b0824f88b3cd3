-- ===== src/Lib.antt =====
-- Synpeer: a model of the core logic of the peer-to-peer social network, and its correctness.
--
-- The parts, and the files that model them:
--
-- * The wallet, src/economy/Wallet. Wallet/Transaction is the canonical transaction of
--   TransactionModel.ts, a record whose fields the TypeScript union makes optional or not by
--   status; Wallet/Create is createCanonicalTransaction with its validation. Wallet/StateMachine
--   is TransactionStateMachine.ts: sign, mark_pending (markPending), confirm, fail and expire,
--   each with the readings of the clock in the order in which the code takes them.
--   Wallet/ReplayProtector is TransactionReplayProtector.ts: check, admit (record), clear and the
--   snapshots. Wallet/Service is addBalance, subtractBalance and transfer of WalletService.ts,
--   which create, sign, submit, confirm, check and store a transaction one after the other;
--   Wallet/State is its state and what is computed from the stored transactions, and
--   Wallet/Service/Opening is createWallet.
-- * The guards of the network, src/services/security. Security/ReplayProtection is
--   ReplayProtectionService.ts and Security/RateLimiting is RateLimitingService.ts.
-- * The consensus on contributions, src/consensus. Consensus/Votes is VoteManager.ts: the votes
--   and the two indexes of them. Consensus/Quorum is QuorumManager.ts, which decides from the
--   counts. Consensus/Witnesses is WitnessManager.ts, the choice of witnesses among the peers that
--   are known. Consensus/Round is ConsensusRound.ts, a round that casts votes in the one and asks
--   the other. Consensus/Engine is ConsensusEngine.ts: the rounds, which share those managers, and
--   the snapshots.
-- * The ledger, src/economy/Ledger/LedgerEngine.ts. Ledger is its entries, balances and snapshots;
--   Ledger/Balance is on its sums, Ledger/Integrity on verifyIntegrity, and Ledger/Export relates
--   exportToJSON and importFromJSON.
-- * The reward pools, src/economy/RewardPool.ts. Rewards is what is allocated of each category and
--   to each peer.
-- * The conflicts of the social domain, src/services/social. Social/Conflict is
--   SocialConflictResolver.ts, and receive is what SocialApplicationService.ts does with its
--   answer: a replica keeps one version.
-- * The queue of operations that wait for a connection, src/services/offline/OfflineQueue.ts.
--   Offline is the items, the rounds over those that are due, and the changes by hand.
-- * The media transfers, src/services/media/MediaTransferScheduler.ts. Media/Scheduler is the
--   queues of the peers: enqueue, the processing loop, cancelPeer, cancelMedia, stop and start.
--   Media/Payload is the binary search calculateMaxRawPayloadBytes.
-- * The streams to the peers, src/network/StreamManager.ts. Network/Streams is openStream,
--   sendData with its attempts, retryStream, closeStream, cancelStream and the timers.
--
-- Prelude passes on the names that the modules share; Dict is JavaScript's Map with string keys,
-- and a Set of strings is a Dict that carries nothing. Tests holds runs at concrete inputs.
--
-- How the code is read. An operation takes the state and returns the new one, with its result. A
-- method that throws returns the state as it stands then. The clock is an argument: a number for
-- a method that reads it once, a function from the number of the reading for one that reads it
-- more often. The sending of media frames is a sequence of events in any order: a frame that is
-- sent settles by an event of its own. Amounts of the wallet and priorities are integers, where
-- the code also takes fractions; amounts of the ledger are of any arithmetic, rounded or exact;
-- times, counts, scores of witnesses and amounts of rewards are natural numbers; the quotients in
-- the quorum are fractions, compared exactly, where the code rounds.
--
-- Parameters, for what lies outside: the hashes of transactions and payloads, signatures, nonces,
-- the repository that saves, the collation of strings, the id of a vote (a hash, which some
-- results take to be free of collisions), the bytes of a frame, the state hash of a version, the
-- texts of the ids of ledger entries and queue items, the answers of the handlers that the queue
-- calls, and of the opener of streams and of the streams themselves.
--
-- The only fuel is that of the binary search: the number of bytes. A round leaves fewer
-- candidates, so it is enough. The attempts of sendData are counted down from the configured
-- number of retries.
--
-- Not modelled: the network transports, the database adapters and the user interface, which are
-- input and output; cryptography; the scores of trust and reputation and the weights of rewards,
-- which are floating-point arithmetic; logging; the peer sessions; the evidence, the peer
-- verification and the queue of writes of the consensus engine; calls of a round that its engine
-- has removed; calls of the wallet service that overlap at an await, its import and its
-- confirmTransaction and failTransaction; calls of the stream manager that overlap while one of
-- them waits; rounds of the offline queue that overlap while a handler is awaited; the events of
-- a consensus round.
pub mod Prelude
pub mod Dict
pub mod Wallet
pub mod Security
pub mod Consensus
pub mod Media
pub mod Social
pub mod Ledger
pub mod Offline
mod Tests
pub mod Network
pub mod Rewards
