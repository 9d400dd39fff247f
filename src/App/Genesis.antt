-- ===== src/App/Genesis.antt =====
-- What the block handler of app/app.go does with a block of height 0.
use abcfe.Base.{[], ◌++◌, some, ◌≡◌, refl, arith}
use abcfe.Core.Types.{Block, Config}
use abcfe.Core.Errors.{ok}
use abcfe.Core.Crypto.{Crypto}
use abcfe.Core.Store.{Batch, LevelDb}
use abcfe.Core.Utxo.{update_utxo, spend_block, list_puts}
use abcfe.Core.Utxo.Invariant.{IsIndexed}
use abcfe.Core.Validate.{validate_block, validate_genesis_block}
use abcfe.Core.Chain.{
  Chain, add_block, block_batch, settle, update_chain_state, state_puts, save_block_data,
  save_tx_data, del_txs,
}
use abcfe.Core.Chain.Progress.{add_txs-total}
use abcfe.Consensus.Engine.{Env}
use abcfe.App.{App, import_block, handle_block}

module _ (ldb : LevelDb)
    (writes : (db : ldb.Db) (b : Batch) → (db' : ldb.Db) × (ldb.write db b ≡ some db')) where
  open ldb use {Db, get}

  -- A block of height 0 can always be added, and becomes the latest one.
  add_block-zero :
      (cfg : Config) (c : Crypto) (ch : Chain Db) (blk : Block)
      → IsIndexed (get ch.db)
      → blk.header.height ≡ 0
      → (ch' : Chain Db) × (add_block ldb ch blk ≡ (ch', ok tt))
        × (ch'.latest_height ≡ 0)
        × (ch'.latest_block_hash ≡ some blk.header.hash)
  unfolding add_block block_batch update_utxo spend_block settle update_chain_state
  add_block-zero cfg c ch blk inv z =
      let (p, e) = add_txs-total cfg c ldb ch.db inv blk.header.height blk.transactions [] in
      let batch : Batch =
        save_block_data blk
        ++ (save_tx_data blk.header.hash blk.transactions ++ ([] ++ (p.0 ++ list_puts p.1))) in
      let (db', e') = writes ch.db batch in
      let (db'', e'') = writes db' (state_puts blk.header.height blk.header.hash) in
      (
        record {
          latest_height = blk.header.height;
          latest_block_hash = some blk.header.hash;
          db = db'';
          mempool = del_txs ch.mempool blk.transactions;
        },
        ground (arith, z, e, e', e''),
        z,
        refl,
      )

  -- A node whose latest height is 0, whose address lists are an index and whose database takes every
  -- write, gets a block of height 0 that has the hash and the Merkle root of its contents and
  -- follows no block: whatever block it has at height 0, that block becomes its latest one.
  pub handle_block-replaces :
      (cfg : Config) (c : Crypto) (env : Env Db) (blk : Block) (a : App Db)
      → IsIndexed (get a.chain.db)
      → a.chain.latest_height ≡ 0
      → blk.header.height ≡ 0
      → validate_genesis_block c blk ≡ ok tt
      → (b : App Db) × (handle_block cfg c ldb env blk a ≡ some b)
        × (b.chain.latest_height ≡ 0)
        × (b.chain.latest_block_hash ≡ some blk.header.hash)
  unfolding handle_block import_block validate_block
  handle_block-replaces cfg c env blk a inv low z valid =
      let (ch, e, h, hash) = add_block-zero cfg c a.chain blk inv z in
      (record a { chain = ch }, ground (arith, e, low, z, valid), h, hash)
