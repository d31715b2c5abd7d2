-- ===== src/Lib.antt =====
-- goat-relayer: a model of the relayer between Bitcoin and the GOAT layer 2, and the theorems on it.
--
-- The relayer watches Bitcoin blocks, proves deposits to layer 2 (SPV proofs), and pays withdrawals: it
-- collects requests in a SQLite database, selects UTXOs, has the transaction signed by a
-- quorum of voters, broadcasts it and follows it until it is confirmed. All of this meets in the
-- wallet tables of internal/state, which the handlers of events, messages and blocks change.
--
-- Files and the code they model:
--   Bytes, Merkle (with Merkle/Level, Root, Verify, Proof, Binding, Raw): internal/types/merkle.go.
--     `compute_merkle_root` is ComputeMerkleRoot, `compute_merkle_root_and_proof`
--     ComputeMerkleRootAndProof, `verify_proof` VerifyProof, `verify_raw_proof` VerifyRawProof. The
--     hash function is a parameter.
--   Spv (with Spv/Build, Generate): GenerateSPVProof, VerifyBlockSPV and buildMerkleRoot of
--     internal/types/utils.go.
--   Votes (with Votes/Quorum): Threshold of internal/types/utils.go, for internal/bls.
--   Table (with Table/Evolve, Query, Append, Pairs): the gorm queries and updates that internal/state uses.
--   Store: the rows of internal/db/models.go and the statuses of internal/db/types.go. Store/Rows:
--     the private helpers of internal/state/withdraw.go and internal/state/wallet.go. Store/Orders and
--     Store/Progress: the operations of internal/state/withdraw.go, one function each, by the names of
--     the source in snake case. Store/Coins: those of internal/state/wallet.go that change the
--     status of a UTXO, and AddOrUpdateVin. Store/Run: all of them, and the operations on safebox
--     tasks, as one type of calls and their sequences.
--     Store/Spent, Run/Safety, Steps, Lock, Claim, Release and Request hold proofs.
--   Store/Safebox (with Moves, Tables, Steps, Rows, Live): the tasks of internal/state/deposit.go and
--     internal/state/safebox.go, and their abstract state machine.
--   Layer2 (with Layer2/Progress): internal/state/l2_info.go. Head (with Head/Rows):
--     internal/state/btc_head.go. Deposit (with Deposit/Queue, Rows, Run): the cache of deposits in
--     internal/state/deposit.go. EventBus (with EventBus/Delivery): internal/state/eventbus.go.
--   Bls: the aggregation of votes in internal/bls/handle_block.go and internal/bls/handle_wallet.go.
--     Bls/Handle: the handlers of internal/bls/handle_block.go and the vote maps of
--     internal/bls/handle.go. Bls/Orders: the votes for a send order in
--     internal/bls/handle_wallet.go. Bls/Collect, Sound, Quorum, Order and Sessions hold proofs. The signers read
--     the state of Layer2 and Head.
--   Payout (with Payout/Ready, Waiting): SelectWithdrawals of internal/wallet/withdraw_strategy.go.
--     Payout/Build (with Build/Value): createTransaction of the same file.
--   Notifier (with Notifier/Order): the loop `checkConfirmations` of internal/btc/notifier.go.
--   Int64: Go's int64 as 64 bits. Size (with Size/Laws): the size estimates and the dust limit of
--     internal/types/utxo.go. Select (with Select/Sub, Pick, Settle, Optimal, Chosen, Consolidate): the
--     selection and consolidation of UTXOs in internal/wallet/withdraw_strategy.go; `sort.Slice` is a
--     parameter, which permutes; in Payout, that by age also sorts.
--   Tests: concrete runs.
--
-- Conventions. Texts that are only compared (transaction ids, order ids, addresses) are numbers, 0 for
-- the empty one. A table is the list of its rows by ascending primary key; one counter gives
-- new keys. A function that runs in a gorm transaction returns the new database or an error,
-- and an error leaves the database as it was (`after`). A row that is read, changed and saved is an
-- update of the changed columns at its key. Rows that are handed over as new have no key yet.
-- The loops are structural recursion; the two Merkle recursions halve a level and run on fuel,
-- for which the number of hashes is enough: a root is always computed from a nonempty list. The loop over
-- the pairs of a level would panic on an odd one, which is then no result.
-- A Go map is the list of its entries in some order.
--
-- Not modelled: failures of the SQLite driver (gorm rolls them back as well), times of update, log
-- lines and the cached pointers of the state structs; the transport of messages, the Bitcoin and
-- layer 2 clients, the contract bindings and the cryptography, which are calls of libraries and remote services;
-- the expiry of signing sessions, and the signing of voters, deposits and orders.
-- AddUtxo, AddDepositResult, UpdateUtxoSubScript and AddOrUpdateVout, which write to several tables outside of one
-- transaction, are not among the calls of Store/Run. The one map `sigMap` of the source holds messages of every
-- kind and panics on one of another kind; here each kind has its own. `Publish` is modelled while no other
-- goroutine runs, with the receivers that wait when it starts.
pub mod Prelude
pub mod Bytes
pub mod Merkle
pub mod Spv
pub mod Table
pub mod Store
pub mod Votes
pub mod Layer2
pub mod EventBus
pub mod Head
pub mod Notifier
pub mod Deposit
pub mod Bls
pub mod Int64
pub mod Size
pub mod Select
pub mod Payout
pub mod Tests
