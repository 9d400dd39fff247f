-- ===== src/Lib.antt =====
-- Verification of abcfe-node, a blockchain node in Go: the ledger in core/, the consensus in
-- consensus/, and what app/ and p2p/ do with the messages of peers, the wallet in wallet/ and
-- the HTTP handlers of api/rest/.
--
-- A node keeps a LevelDB database, a mempool of submitted transactions and the height and hash
-- of its latest block (core/blockchain.go). A proposer takes transactions from the mempool and
-- makes a block (`SetBlock`); every node checks a block (`ValidateBlock`) and then adds it
-- (`AddBlock`), which stores the block, its transactions and the outputs that it makes and
-- spends in one batch, takes its transactions off the mempool and moves the latest height. The
-- validators are the stakers with the minimum stake (consensus/); one of them is the proposer of
-- a height and round, and a block comes with commit signatures of more than two thirds of their
-- power, which `ValidateBlock` asks consensus/ to check through the interface
-- `ProposerValidator`. The engine (consensus/engine.go) runs a round each second: it proposes or
-- waits, takes in the proposals and votes of its peers, and adds the proposed block once the
-- precommits have the majority. p2p/ takes in the messages of peers, as many as its rate limiter
-- allows and each proposal and vote once; it hands proposals and votes to the engine, and blocks
-- and transactions to the handlers of app/app.go, which check them and add them to the chain or
-- to the mempool.
--
-- Files:
--   Base            names of the libraries, tests on numbers, lists, 64-bit sums, integers, dictionaries
--   Core/Types      the data of core/transaction.go, core/block.go, core/utxo.go
--   Core/Errors     one constructor for each error message, and results that carry them
--   Core/Store      the keys of common/utils/prefix_gen.go, the values under them, and LevelDB as a
--                   record of operations and one law, a parameter; Store/Text: the strings of the keys,
--                   with Text/Reader, which reads them, and Text/Distinct, which compares them
--   Core/Crypto     common/crypto/signature.go and address.go over a record of the libraries' functions
--   Core/Mempool    core/mempool.go; Mempool/Priority: which transactions a block gets
--   Core/Utxo       core/utxo.go; Utxo/Update: what a block does to each output; Utxo/Lists,
--                   Utxo/Paid and Utxo/Index: to each address's list; Utxo/Invariant: the lists as an
--                   index; Utxo/Balance: what `GetUtxoList` and `CalBalanceUtxo` answer
--   Core/Merkle     the Merkle tree of core/transaction.go; Merkle/Binding: what a root fixes
--   Core/Validate   core/validate.go; Validate/Distinct: the two duplicate checks; Validate/Sums: what
--                   an accepted transaction is; Validate/Minting: what the sums leave open;
--                   Validate/Accepted: what an accepted block is
--   Core/Chain      core/blockchain.go and the storing half of core/block.go; Chain/Added: what a
--                   block changes; Chain/Restart: reading it back;
--                   Chain/Stored: the blocks that stay stored; Chain/Progress: adding an
--                   accepted block
--   Core/Propose    `SetBlock`, `createCoinbaseTx` and `SignBlock` of core/block.go;
--                   Propose/Selected: the block they make;
--                   Propose/Repeats: the outputs that it uses
--   Core/Genesis    core/genesis.go
--   Core/Transfer   what core/transaction.go builds and reads; Transfer/Signed and
--                   Transfer/Accepted: what the checks say of it
--   Core/Received   `GetAddressTransactions`
--   Core/Account    core/account.go; Account/Balance: what `GetBalance` answers
--   Core/Tests      a small chain, on which each property is applied
--   App             the handlers of blocks and transactions in app/app.go; App/Blocks: what the first
--                   adds; App/Genesis: a block of height 0; App/Run: the node as a whole, the
--                   engine and the handlers in any order; App/Tests: a node on which they are applied
--   Consensus/Staking     consensus/staking.go; Staking/History: after any number of operations
--   Consensus/Validators  consensus/validator.go; Validators/Promoted: which stakers become
--                         validators; Validators/Retired: who withdrew everything
--   Consensus/Votes       the vote sets of consensus/type.go
--   Consensus/Commit      `ValidateCommitSignatures` of consensus/consensus.go; Commit/Quorum: what it
--                         accepts; Commit/Blocks: with `ValidateBlock`
--   Consensus/Selection   consensus/selection.go; Selection/Weighted: the stretches of the weighted
--                         pick; Selection/Present: who is found
--   Consensus/State       the `Consensus` of consensus/consensus.go, and what is stored of it
--   Consensus/Engine      consensus/engine.go: its state and parts; Engine/Handlers: its handlers;
--                         Engine/Steps: the timeout, and the step relation; Engine/Safety and
--                         Engine/History: what the steps do to the chain; Engine/Stalls: a commit
--                         that fails, and votes and proposals of other blocks;
--                         Engine/Endorsed and Engine/Commits: precommits
--                         that are enough
--   Consensus/Tests       four validators, on which each property is applied
--   P2p/RateLimit   p2p/ratelimit.go; RateLimit/Window: how much it lets through
--   P2p/Peers       the list of peers of p2p/node.go, and their exchange; Peers/Agreement: two
--                   nodes that call each other
--   P2p/Service     the messages of p2p/p2p.go; Service/Sync: the sync of blocks and the dispatch;
--                   Service/Seen: the second message of a proposal
--   Wallet/Keys     common/crypto/keys.go; Wallet/Manager: wallet/keystore.go; Wallet/Derived: what a
--                   wallet holds; Wallet/Restored: the same wallet again; Wallet/Linked: what one
--                   key tells of the others; Wallet/Saved: the file; Wallet/Tests: a wallet
--                   with two accounts
--   Api/Response    the answers of api/rest/handler.go, and the texts it reads; Api/Format: their
--                   bodies
--   Api/Queries     the handlers that read; Api/Pages: the blocks page by page, and Pages/Heights and
--                   Pages/Cover: all pages
--   Api/Submit      the handlers that take transactions; Submit/Taken: what they take in;
--                   Submit/Minted: requests with no inputs;
--                   Api/WalletCalls: the wallet; Api/Tests: requests
--   P2p/Tests       messages on which the properties of p2p/ are applied
--
-- How the model stands to the code: a method is a function by clauses that takes the state and
-- returns the new one with its result; a Go error is a constructor of `Error`. A `uint64` is a
-- number below 2^64 and every sum of the source is taken modulo 2^64. Hashes, addresses and
-- signatures, which are fixed byte arrays, are numbers; so are the IDs of peers. The rate
-- limiter counts tokens exactly, in 10^-9, where the source has a `float64`. A batch is the list
-- of its puts; a read is an answer of the database as it was before the batch, as in the code.
-- The mutexes make each method one step; the steps of the engine, with the goroutines of its
-- votes and its timers, come in any order, as a relation `Step` and its closure `Reach`. What
-- the engine gets from outside, such as the clock, the signing and whether a message could be
-- sent, is an `Env` of the step. Loops are structural recursions; the loop over the pending
-- blocks recurses on fuel, their number and one, and ends with it; the Merkle tree recurses on
-- fuel, the number of leaves, and `build_merkle_tree` is shown to return with it. `%d` of a
-- 64-bit number has 20 digits of fuel.
--
-- Parameters: LevelDB (a batch is written whole or not at all, and is read back), SHA-256 of the
-- JSON encodings, SHA-256 of two hashes, the x509, ECDSA and Keccak functions, and the numbers
-- that proposer selection takes from the SHA-256 of its seeds, the decoding of hex text and the
-- signing. The validator that `ValidateBlock` asks is an argument, absent in solo mode. gob is
-- taken to read back what it wrote. The mnemonics of go-bip39, the files of the wallet with
-- their JSON text and the arithmetic of the curve P-256 are parameters as well; a panic is an
-- error value, and `none` in the handlers of p2p/p2p.go.
--
-- Not modelled: what the engine shows on the WebSocket and in its status maps, its start and
-- stop, sockets and dialling, the routes of the API and the WebSocket, the key pair of
-- wallet/wallet.go, start-up and configuration.
pub mod Base
pub mod Api
pub mod App
pub mod Consensus
pub mod Core
pub mod P2p
pub mod Wallet
