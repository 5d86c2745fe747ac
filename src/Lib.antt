-- ===== src/Lib.antt =====
-- A verification library for the node software of this repository: the HELIOS services that notarize,
-- commit and finalize blocks, the AION election of their producers, the chain, the mempool, the registry
-- of devices and the cells formed of them, the directory of nodes, and the Merkle trees.
--
-- The program. A node receives transactions into a mempool (internal/mempool), builds blocks from it
-- and keeps a chain of them (internal/blockchain). A block commits to its transactions by a Merkle
-- root (internal/merkle). The HELIOS L2 service (internal/helios/l2_checkpoint.go) votes for the
-- blocks that it sees, collects votes into quorum certificates, keeps a lock on the highest certified
-- block, and announces a block as committed when it has a child and a grandchild with certificates.
-- The HELIOS L1 service (l1_notarization.go) notarizes a block with enough attesters, and the L3 service
-- (l3_finality.go) makes a committed block final when enough cells, devices (internal/iot) and stake
-- stand behind it; L2 tells it of blocks and certificates. The AION modules (internal/aion) compute
-- slots, the entropy of the chain's data, weights and ranks, elect the producers of an epoch from the
-- outputs that the candidates reveal, and decide by a predicate whether a node with a cell
-- (internal/cell) may lead. The internal/coseutil package validates transactions and keeps their replay
-- window.
--
-- The files.
-- Base: tests on numbers, lists, byte strings and hexadecimal, Go maps as association lists, int64.
-- Merkle: internal/merkle/tree.go. ComputeRoot is compute_root, ComputeProof compute_proof, and
--   VerifyProof verify_proof. SHA-256 is a parameter. The loops run on the number of leaves as fuel,
--   which Merkle.Proofs shows to be enough.
-- Aion: weight.go, entropy.go, scheduler.go, params.go, commitment.go, vrf_ed25519.go and
--   chainentropy.go of internal/aion, one definition for each function. Machine integers keep their
--   wrap-around. Aion.Election is gossip.go: onCommit, onReveal, onVRF, onEntropy and updateLeader;
--   run calls the handlers from four goroutines, and they release the lock before updateLeader, which
--   reads the candidates without it; here a handler runs to its end before the next starts, with the
--   chain that it finds, so that the orders in which the goroutines interleave within the handlers are
--   not modelled (Go aborts when a map is written while updateLeader ranges over it).
--   Aion.Election.Publishing what a node publishes, Aion.Election.Slots AllowProduceSlot and the
--   queries. Aion.Leader is service.go and runtime.go: evalOnce is eval_once, and the loop a list of
--   evaluations. Blocks and the data of their transactions are the record ChainView, keys and hashes
--   the record Crypto. A division by zero and an index out of range are `none`.
-- Gossip: internal/gossip/directory.go, the nodes that were heard of.
-- Cell: internal/cell/cell.go, whose TryForm is try_form. The time and its text are arguments.
-- Iot: internal/iot/registry.go, with the file system as an argument. Device IDs are ASCII.
-- L1: internal/helios/l1_notarization.go. L1.Records has the recent records and their index, L1.Handlers
--   onAttest, onBlock and the reading methods. A handler runs as one step; `none` is the panic of an
--   index out of range.
-- L2: internal/helios/l2_checkpoint.go. L2.State has the messages and the fields of L2Service,
--   L2.Voting the walk to the lock and markVoteIfSafe, L2.Certificates verifyVote, verifyQC, the locked
--   section of storeQC, checkCommitFor, onCommit and pruneExpired, L2.Handlers consumeVote, onBlock,
--   onVote, onQC, publishVote, buildAndBroadcastQC and retryPendingVotes, L2.Queries the reading methods.
--   L2.Steps makes each section that runs under the lock a step, so that a sequence of steps is any
--   interleaving of the goroutines; L2.Runs shows that the handlers are such sequences. Keys,
--   signatures and CBOR are the record Net. `sent` collects what the service publishes and tells the
--   L3 service. retryPendingVotes calls itself through the handlers and runs on fuel: one more than the
--   number of pending blocks is enough, since each round takes a block from them.
-- L3: internal/helios/l3_finality.go. L3.Cells is the cell registry, L3.Sampling SamplePlan, L3.Finality
--   isReadyLocked, maybeFinalizeLocked and recheckPending, L3.Handlers the handlers and the Record
--   methods, L3.Queries what is read. L3.Steps makes each locked section a step, as for L2. float64 is
--   a type with the operations of the record Weights; hashes, signatures, the beacon and the verifier
--   are the record Outside. SamplePlan runs on fuel, one pass for each index asked for.
-- Cose: internal/coseutil/cose.go: seqKey and UpdateLastSeq; Cose.Values what is read of a decoded
--   CBOR value, and Cose.Validation the key registry, ValidateCOSETx and ExtractKid. The libraries are
--   the record CoseOutside, an error is a value, and a key of a wrong length makes Ed25519 panic.
-- Mempool: internal/mempool/mempool.go. Mempool.Queue says what a pool is for its clients, a queue of
--   entries, and Mempool.Refine that the operations do on the pool what they should do on the queue.
--   ValidateCOSETx is a parameter, with the panic on a key of a wrong length.
-- Chain: internal/blockchain/block.go. Chain has the state and acceptBlockLocked, Chain.Checks Verify,
--   Chain.Subscriber the checks of StartBlockSubscriber on a block that was decoded (a panic of
--   ValidateCOSETx is an outcome of its own), Chain.Builder how
--   StartBlockBuilderFromPool fills a block, and Chain.Producing Sign and the builder's loop with its
--   cursor (Chain.Producing.Older the older StartBlockBuilder), and Chain.Pruning how an accepted block
--   leaves the pool. Chain.Files has the reading methods and what getChain loads of the files that
--   acceptBlockLocked writes; JSON objects are lists of fields, and those of an untagged struct are found
--   by their Go names in any case. Chain.Sync has RegisterBlockSync, fetchAndInjectParent and
--   FetchAndRegisterKey; the answers of the peers are an argument, in the order in which they are asked.
--   Chain.Producing joins Mempool, Cose, Merkle and Chain: an entry goes from the pool into a block that
--   the subscriber accepts. acceptBlockLocked recurs on fuel; one more than the number of waiting blocks
--   is enough (Chain.Cascade).
--
-- Conventions. A number is a natural number or the integer of Base.Int; a text and a byte string are
-- lists of numbers. A Go map is an association list, and an iteration meets its entries in their order;
-- the theorems range over all lists, hence over all orders. A clock reading is an argument `now`.
--
-- Not modelled. The command-line programs, the HTTP interface, the libp2p hosts and topics, logging and
-- the bytes of the files only move data. The entropies for display in internal/entropy have no
-- model here.
pub mod Base
pub mod Merkle
pub mod Aion
pub mod L1
pub mod L2
pub mod L3
pub mod Iot
pub mod Cell
pub mod Gossip
pub mod Cose
pub mod Mempool
pub mod Chain
