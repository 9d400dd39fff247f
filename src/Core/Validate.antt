-- ===== src/Core/Validate.antt =====
-- core/validate.go: the checks of a transaction and of a block, in the order of the source.
-- `ProposerValidator` (core/blockchain.go) is the interface that consensus/ fills.
pub mod Sums
pub mod Minting
pub mod Distinct
pub mod Accepted
use abcfe.Base.{
  ℕ, ◌+◌, ◌-◌, List, [], ◌∷◌, Option, none, some, Bool, true, false, not, ◌==◌, ◌&&◌, ◌||◌, ltb,
  leb, if◌then◌else◌, length, contains, add64, sub64,
}
use abcfe.Base.Int.{ℤ, pos, ◌+ℤ◌, ltb_ℤ}
use abcfe.Core.Types.{
  Hash, Address, Signature, Bytes, bytes_eq, TxInput, TxOutput, Transaction, BlockHeader, Block,
  CommitSignature, Utxo, Config, max_txs_per_block,
}
use abcfe.Core.Errors.{
  Error, Result, ok, err, guard, or_fail, relabel, ◌>>=◌, ◌>>◌, prev_hash_mismatch, merkle_mismatch,
  block_hash_mismatch, height_not_continuous, timestamp_before_prev, timestamp_in_future,
  too_many_txs, duplicate_tx, duplicate_utxo, empty_proposer, invalid_proposer,
  invalid_proposer_signature, commit_rejected, prev_block_missing, genesis_height,
  genesis_prev_hash, network_mismatch, memo_too_long, data_too_long, utxo_not_found,
  utxo_undecodable, utxo_spent, insufficient_input, fee_too_low, coinbase_has_inputs,
  coinbase_no_outputs, coinbase_zero, tx_hash_mismatch, empty_public_key, bad_public_key,
  not_the_owner, invalid_signature, db_failure, undecodable,
}
use abcfe.Core.Crypto.{Crypto, bytes_to_public_key, public_key_to_address, verify_signature}
use abcfe.Core.Store.{
  Ref, Key, utxo_key, block_key, height_key, Value, of_block, of_hash, AddrUtxoSet, LevelDb,
}
use abcfe.Core.Merkle.{calculate_merkle_root}
use abcfe.Core.Utxo.{require, as_utxo, has_ref, ref_of, get_utxo}

-- 2 hours, in seconds.
abbrev pub max_future_block_time : ℤ
max_future_block_time = pos 7200

-- `DeserializeData` into a block, and `copy` into a hash.
abbrev pub as_block : Value → Option Block
as_block (of_block b) = some b
as_block _ = none

abbrev pub as_hash : Value → Option Hash
as_hash (of_hash h) = some h
as_hash _ = none

-- A nil error of `ValidateCommitSignatures` is `true`.
pub record ProposerValidator : Type 0 where
  pub validate_proposer_signature : Address → Hash → Signature → Bool
  pub is_valid_proposer : Address → ℕ → Bool
  pub validate_commit_signatures : Hash → List CommitSignature → Bool

abbrev pub Check : Type 0
Check = Result (Unit {0})

-- `ValidatePrevHash`
unfoldable pub validate_prev_hash : Block → Hash → Check
validate_prev_hash blk expected = guard (blk.header.prev_hash == expected) prev_hash_mismatch

-- `ValidateHeightContinuity`
unfoldable pub validate_height_continuity : ℕ → ℕ → Check
validate_height_continuity height prev = guard (height == add64 prev 1) height_not_continuous

-- `ValidateTimestamp`; `now` is `time.Now().Unix()`.
unfoldable pub validate_timestamp : ℤ → ℤ → ℤ → Check
validate_timestamp now time prev = do
  guard (not (ltb_ℤ time prev)) timestamp_before_prev
  guard (not (ltb_ℤ (now +ℤ max_future_block_time) time)) timestamp_in_future

-- `ValidateTxCount`
unfoldable pub validate_tx_count : List Transaction → Check
validate_tx_count txs = guard (leb (length txs) max_txs_per_block) too_many_txs

-- The loop of `ValidateDuplicateTx` over the IDs seen so far.
unfoldable pub check_new_ids : List Hash → List Transaction → Check
check_new_ids seen [] = ok tt
check_new_ids seen (t ∷ ts) = do
  guard (not (contains t.id seen)) duplicate_tx
  check_new_ids (t.id ∷ seen) ts

-- `ValidateDuplicateTx`
unfoldable pub validate_duplicate_tx : List Transaction → Check
unfolding check_new_ids
validate_duplicate_tx txs = check_new_ids [] txs

-- The loops of `ValidateDuplicateUTXO`: the references seen so far, or the error.
unfoldable pub check_new_refs : AddrUtxoSet → List TxInput → Result AddrUtxoSet
check_new_refs seen [] = ok seen
check_new_refs seen (i ∷ is) = do
  guard (not (has_ref (ref_of i) seen)) duplicate_utxo
  check_new_refs (ref_of i ∷ seen) is

unfoldable pub check_txs_refs : AddrUtxoSet → List Transaction → Check
check_txs_refs seen [] = ok tt
check_txs_refs seen (t ∷ ts) = do seen' ← check_new_refs seen t.inputs; check_txs_refs seen' ts

-- `ValidateDuplicateUTXO`
unfoldable pub validate_duplicate_utxo : List Transaction → Check
unfolding check_txs_refs check_new_refs
validate_duplicate_utxo txs = check_txs_refs [] txs

-- `ValidateProposer`
unfoldable pub validate_proposer : Block → Check
validate_proposer blk = guard (not (blk.proposer == 0)) empty_proposer

-- `ValidateProposerSignature`
unfoldable pub validate_proposer_signature : Block → Option ProposerValidator → Check
validate_proposer_signature blk none = ok tt
validate_proposer_signature blk (some v) = do
  guard (v.is_valid_proposer blk.proposer blk.header.height) invalid_proposer
  guard (v.validate_proposer_signature blk.proposer blk.header.hash blk.signature)
      invalid_proposer_signature

-- The eighth check of `ValidateBlock`.
unfoldable pub validate_commit : Block → Bool → Option ProposerValidator → Check
validate_commit blk check none = ok tt
validate_commit blk check (some v) =
    if check
    then guard (v.validate_commit_signatures blk.header.hash blk.commit_signatures) commit_rejected
    else ok tt

abbrev pub erase_signature : TxInput → TxInput
erase_signature i = record i { signature = 0 }

abbrev pub erase_signatures : List TxInput → List TxInput
erase_signatures [] = []
erase_signatures (i ∷ is) = erase_signature i ∷ erase_signatures is

-- What is hashed for the ID: the transaction with neither ID nor signatures.
abbrev pub unsigned : Transaction → Transaction
unsigned tx = record tx { id = 0; inputs = erase_signatures tx.inputs }

-- The sum of the outputs, from the sum so far.
unfoldable pub sum_outputs : ℕ → List TxOutput → ℕ
sum_outputs sum [] = sum
sum_outputs sum (o ∷ os) = sum_outputs (add64 sum o.amount) os

-- `ValidateCoinbaseTx`
unfoldable pub validate_coinbase_tx : Transaction → Check
unfolding sum_outputs
validate_coinbase_tx tx = do
  guard (length tx.inputs == 0) coinbase_has_inputs
  guard (not (length tx.outputs == 0)) coinbase_no_outputs
  guard (not (sum_outputs 0 tx.outputs == 0)) coinbase_zero

module _ (c : Crypto) where
  -- `ValidateMerkleRoot`
  unfoldable pub validate_merkle_root : Block → Check
  validate_merkle_root blk =
      guard (blk.header.merkle_root == calculate_merkle_root c blk.transactions) merkle_mismatch

  -- `ValidateBlockHash`
  unfoldable pub validate_block_hash : Block → Check
  validate_block_hash blk =
      guard (blk.header.hash == c.hash_header (record (blk.header) { hash = 0 }))
        block_hash_mismatch

  -- `ValidateTxHash`
  unfoldable pub validate_tx_hash : Transaction → Check
  validate_tx_hash tx = guard (tx.id == c.hash_tx (unsigned tx)) tx_hash_mismatch

  -- `ValidateTxInputSignature`
  unfoldable pub validate_tx_input_signature : Transaction → TxInput → Utxo → Check
  validate_tx_input_signature tx i u = do
    guard (not (length i.public_key == 0)) empty_public_key
    key ← or_fail (bytes_to_public_key c i.public_key) bad_public_key
    guard (public_key_to_address c key == u.tx_out.address) not_the_owner
    guard (verify_signature c key tx.id i.signature) invalid_signature

  -- `validateGenesisBlock`
  unfoldable pub validate_genesis_block : Block → Check
  unfolding validate_merkle_root validate_block_hash
  validate_genesis_block blk = do
    guard (blk.header.height == 0) genesis_height
    guard (blk.header.prev_hash == 0) genesis_prev_hash
    validate_merkle_root blk
    validate_block_hash blk

module _ (cfg : Config) (c : Crypto) (ldb : LevelDb) where
  open ldb use {Db, get}

  -- The loop of `ValidateAllTxSignatures`, which is left at once where there is no input.
  unfoldable pub validate_all_tx_signatures : Db → Transaction → List TxInput → Check
  validate_all_tx_signatures db tx [] = ok tt
  validate_all_tx_signatures db tx (i ∷ is) = do
    v ← require (get db (utxo_key i.tx_id i.output_index)) utxo_not_found
    u ← or_fail (as_utxo v) utxo_undecodable
    validate_tx_input_signature c tx i u
    validate_all_tx_signatures db tx is

  -- The loop of `ValidateTransaction` over the inputs, from the sum so far.
  unfoldable pub sum_inputs : Db → ℕ → List TxInput → Result ℕ
  sum_inputs db sum [] = ok sum
  sum_inputs db sum (i ∷ is) = do
    v ← require (get db (utxo_key i.tx_id i.output_index)) utxo_not_found
    u ← or_fail (as_utxo v) utxo_undecodable
    guard (not u.spent) utxo_spent
    sum_inputs db (add64 sum u.tx_out.amount) is

  -- The tests of the sums.
  unfoldable pub validate_sums : ℕ → ℕ → Check
  validate_sums input_sum output_sum = do
    guard (not (ltb input_sum output_sum)) insufficient_input
    guard (not (ltb (sub64 input_sum output_sum) cfg.min_fee)) fee_too_low

  -- The part of `ValidateTransaction` for a transaction with inputs.
  unfoldable pub validate_transfer : Db → Transaction → Check
  unfolding sum_inputs sum_outputs validate_sums validate_all_tx_signatures
  validate_transfer db tx = do
    input_sum ← sum_inputs db 0 tx.inputs
    validate_sums input_sum (sum_outputs 0 tx.outputs)
    validate_all_tx_signatures db tx tx.inputs

  -- `ValidateTransaction`
  unfoldable pub validate_transaction : Db → Transaction → Check
  unfolding validate_tx_hash validate_coinbase_tx validate_transfer
  validate_transaction db tx = do
    validate_tx_hash c tx
    guard (bytes_eq tx.network_id cfg.network_id) network_mismatch
    guard (not (ltb 0 cfg.max_memo_size && ltb cfg.max_memo_size (length tx.memo))) memo_too_long
    guard (not (ltb 0 cfg.max_data_size && ltb cfg.max_data_size (length tx.payload))) data_too_long
    if length tx.inputs == 0 then validate_coinbase_tx tx else validate_transfer db tx

  -- The last loop of `ValidateBlock`.
  unfoldable pub validate_transactions : Db → List Transaction → Check
  validate_transactions db [] = ok tt
  validate_transactions db (t ∷ ts) = do validate_transaction db t; validate_transactions db ts

  -- The loop of `CalculateTxFee` over the inputs.
  unfoldable pub sum_fee_inputs : Db → ℕ → List TxInput → Result ℕ
  sum_fee_inputs db sum [] = ok sum
  sum_fee_inputs db sum (i ∷ is) = do
    u ← get_utxo ldb db i.tx_id i.output_index
    sum_fee_inputs db (add64 sum u.tx_out.amount) is

  -- `CalculateTxFee`
  unfoldable pub calculate_tx_fee : Db → Transaction → Result ℕ
  unfolding sum_fee_inputs sum_outputs
  calculate_tx_fee db tx = if length tx.inputs == 0 then ok 0 else do
    input_sum ← sum_fee_inputs db 0 tx.inputs
    guard (not (ltb input_sum (sum_outputs 0 tx.outputs))) insufficient_input
    ok (sub64 input_sum (sum_outputs 0 tx.outputs))

  -- `getBlockByHeightNoLock` (core/block.go)
  unfoldable pub get_block_by_height : Db → ℕ → Result Block
  get_block_by_height db height = do
    v ← require (get db (height_key height)) db_failure
    hash ← or_fail (as_hash v) undecodable
    w ← require (get db (block_key hash)) db_failure
    or_fail (as_block w) undecodable

  -- The checks of `ValidateBlock` once the previous block is loaded.
  unfoldable pub validate_on_top : Db → Option ProposerValidator → ℤ → Block → Bool → Block → Check
  validate_on_top db validator now blk check_commit prev = do
    validate_prev_hash blk prev.header.hash
    validate_merkle_root c blk
    validate_block_hash c blk
    validate_height_continuity blk.header.height prev.header.height
    validate_timestamp now blk.header.timestamp prev.header.timestamp
    validate_proposer blk
    validate_proposer_signature blk validator
    validate_commit blk check_commit validator
    validate_tx_count blk.transactions
    validate_duplicate_tx blk.transactions
    validate_duplicate_utxo blk.transactions
    validate_transactions db blk.transactions

  -- `ValidateBlock`
  unfoldable pub validate_block : Db → Option ProposerValidator → ℤ → Block → Bool → Check
  validate_block db validator now blk check_commit =
      if blk.header.height == 0 then validate_genesis_block c blk else do
        prev ← relabel (get_block_by_height db (blk.header.height - 1)) prev_block_missing
        validate_on_top db validator now blk check_commit prev
