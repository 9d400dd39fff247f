-- ===== src/Core/Chain.antt =====
-- core/blockchain.go and the storing half of core/block.go. A method returns the new state with its
-- result: what it wrote stays written when a later step fails. The lock makes each method one step.
pub mod Added
pub mod Restart
pub mod Stored
pub mod Progress
use abcfe.Base.{
  ℕ, zero, suc, List, [], ◌∷◌, ◌++◌, Option, none, some, Bool, true, false, ◌==◌, ◌&&◌, ◌||◌, ltb,
  if◌then◌else◌,
}
use abcfe.Core.Types.{Hash, TxInput, TxOutput, Transaction, Block}
use abcfe.Core.Errors.{
  Result, ok, err, or_fail, ◌>>=◌, write_failed, db_failure, undecodable, bad_height, no_blocks,
}
use abcfe.Core.Store.{
  Key, block_key, height_key, tx_key, tx_block_key, tx_inputs_key, tx_input_key, tx_outputs_key,
  tx_output_key, meta_height_key, meta_hash_key, meta_height_at_key, Value, of_block, of_hash,
  of_tx, of_inputs, of_input, of_outputs, of_output, of_number, Read, found, not_found, failed,
  Batch, LevelDb,
}
use abcfe.Core.Mempool.{Mempool, del_tx}
use abcfe.Core.Utxo.{update_utxo, require}
use abcfe.Core.Validate.{as_hash, as_block, Check}

-- `BlockChain`, less its configuration, its validator and its lock. `LatestBlockHash` is the empty
-- string where there is no block, and else the hash's hex text.
pub record Chain (Db : Type 0) : Type 0 where
  pub latest_height : ℕ
  pub latest_block_hash : Option Hash
  pub db : Db
  pub mempool : Mempool

-- `saveBlockData`
unfoldable pub save_block_data : Block → Batch
save_block_data blk =
    (block_key blk.header.hash, of_block blk)
    ∷ (height_key blk.header.height, of_hash blk.header.hash)
    ∷ []

-- The last two loops of `saveTxData`, from an index on.
unfoldable pub save_inputs : Hash → ℕ → List TxInput → Batch
save_inputs id index [] = []
save_inputs id index (i ∷ is) = (tx_input_key id index, of_input i) ∷ save_inputs id (suc index) is

unfoldable pub save_outputs : Hash → ℕ → List TxOutput → Batch
save_outputs id index [] = []
save_outputs id index (o ∷ os) =
    (tx_output_key id index, of_output o) ∷ save_outputs id (suc index) os

unfoldable pub save_tx : Hash → Transaction → Batch
unfolding save_inputs save_outputs
save_tx block_hash t =
    (tx_key t.id, of_tx t)
    ∷ (tx_block_key t.id, of_hash block_hash)
    ∷ (tx_inputs_key t.id, of_inputs t.inputs)
    ∷ (tx_outputs_key t.id, of_outputs t.outputs)
    ∷ (save_inputs t.id 0 t.inputs ++ save_outputs t.id 0 t.outputs)

-- `saveTxData`
unfoldable pub save_tx_data : Hash → List Transaction → Batch
unfolding save_tx
save_tx_data block_hash [] = []
save_tx_data block_hash (t ∷ ts) = save_tx block_hash t ++ save_tx_data block_hash ts

-- `mempool update` in `AddBlock`
unfoldable pub del_txs : Mempool → List Transaction → Mempool
unfolding del_tx
del_txs m [] = m
del_txs m (t ∷ ts) = del_txs (del_tx m t.id) ts

-- The batch of `UpdateChainState`.
abbrev pub state_puts : ℕ → Hash → Batch
state_puts height hash =
    (meta_height_key, of_number height)
    ∷ (meta_hash_key, of_hash hash)
    ∷ (meta_height_at_key height, of_hash hash)
    ∷ []

abbrev pub as_number : Value → Option ℕ
as_number (of_number n) = some n
as_number _ = none

module _ (ldb : LevelDb) where
  open ldb use {Db, get, write}

  -- `UpdateChainState` at a hash that is not the empty string: the fields change first, and stay
  -- changed when the write fails.
  unfoldable pub update_chain_state : Chain Db → ℕ → Hash → Chain Db × Check
  update_chain_state ch height hash =
      let ch' : Chain Db = record ch { latest_height = height; latest_block_hash = some hash } in
      elim (write ch.db (state_puts height hash)) [
        | none ↦ (ch', err write_failed)
        | some db' ↦ (record ch' { db = db' }, ok tt)
      ]

  -- The batch of `AddBlock`.
  unfoldable pub block_batch : Db → Block → Result Batch
  unfolding save_block_data save_tx_data update_utxo
  block_batch db blk = do
    utxos ← update_utxo ldb db blk
    ok (save_block_data blk ++ (save_tx_data blk.header.hash blk.transactions ++ utxos))

  -- The steps of `AddBlock` after the batch is written.
  unfoldable pub settle : Chain Db → Block → Chain Db × Check
  unfolding del_txs update_chain_state
  settle ch blk =
      let ch' : Chain Db = record ch { mempool = del_txs ch.mempool blk.transactions } in
      if ltb ch.latest_height blk.header.height || blk.header.height == 0
      then update_chain_state ch' blk.header.height blk.header.hash
      else (ch', ok tt)

  -- `AddBlock`
  unfoldable pub add_block : Chain Db → Block → Chain Db × Check
  unfolding block_batch settle
  add_block ch blk = elim (block_batch ch.db blk) [
    | err e ↦ (ch, err e)
    | ok batch ↦ elim (write ch.db batch) [
      | none ↦ (ch, err write_failed)
      | some db' ↦ settle (record ch { db = db' }) blk
    ]
  ]

  -- `LoadChainDB`
  unfoldable pub load_chain_db : Chain Db → Chain Db × Check
  load_chain_db ch = elim (get ch.db meta_height_key) [
    | failed ↦ (ch, err db_failure)
    | not_found ↦ (record ch { latest_height = 0; latest_block_hash = none }, ok tt)
    | found v ↦ elim (as_number v) [
      | none ↦ (ch, err bad_height)
      | some height ↦
          let ch' : Chain Db = record ch { latest_height = height } in
          elim (get ch.db meta_hash_key) [
            | failed ↦ (ch', err db_failure)
            | not_found ↦ (record ch' { latest_block_hash = none }, ok tt)
            | found w ↦ (record ch' { latest_block_hash = as_hash w }, ok tt)
          ]
    ]
  ]

  -- `GetLatestHeight` and `GetLatestBlockHash` of a chain that is not nil
  unfoldable pub get_latest_height : Chain Db → ℕ
  get_latest_height ch = ch.latest_height

  unfoldable pub get_latest_block_hash : Chain Db → Result Hash
  get_latest_block_hash ch = or_fail ch.latest_block_hash no_blocks

  -- `GetBlockByHash` (core/block.go)
  unfoldable pub get_block_by_hash : Db → Hash → Result Block
  get_block_by_hash db hash = do
    v ← require (get db (block_key hash)) db_failure
    or_fail (as_block v) undecodable
