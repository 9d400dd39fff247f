-- ===== src/Core/Chain/Stored.antt =====
-- The blocks that are stored after `AddBlock` (core/block.go), whatever it returns.
use abcfe.Base.{some, ◌==◌, false, ◌≡◌, ◌⊎◌, inl, inr, ◌∙◌, arith, Option-cases, Bool-cases}
use abcfe.Core.Types.{Hash, Block}
use abcfe.Core.Errors.{ok, Result-cases}
use abcfe.Core.Store.{block_key, LevelDb}
use abcfe.Core.Chain.{
  Chain, save_block_data, state_puts, update_chain_state, block_batch, settle, add_block,
  get_block_by_hash,
}
use abcfe.Core.Chain.Added.{advances}
use abcfe.Core.Chain.Restart.{put_all-block_batch}

module _ (ldb : LevelDb) where
  open ldb use {Db, get, write, get-write}

  -- The block is stored under its hash, the other hashes read as before, and the chain names either
  -- the block or what it named before.
  pub record Stores (ch : Chain Db) (blk : Block) (ch' : Chain Db) : Type 0 where
    pub found_by_hash : get_block_by_hash ldb ch'.db blk.header.hash ≡ ok blk
    pub others :
        (h : Hash)
        → (blk.header.hash == h) ≡ false
        → get_block_by_hash ldb ch'.db h ≡ get_block_by_hash ldb ch.db h
    pub named :
        (ch'.latest_block_hash ≡ ch.latest_block_hash)
        ⊎ (ch'.latest_block_hash ≡ some blk.header.hash)

  -- After the steps that follow the batch, the blocks are those of the batch.
  settle-blocks :
      (ch : Chain Db) (blk : Block) (h : Hash)
      → get (settle ldb ch blk).0.db (block_key h) ≡ get ch.db (block_key h)
  unfolding settle update_chain_state
  settle-blocks ch blk h = elim (Bool-cases (advances ch.latest_height blk)) [
    | inr stays ↦ ground (arith, stays)
    | inl goes ↦ elim (Option-cases (write ch.db (state_puts blk.header.height blk.header.hash))) [
      | inl e ↦ ground (arith, goes, e)
      | inr (db', e) ↦ ground (
        arith,
        goes,
        e,
        get-write ch.db db' (state_puts blk.header.height blk.header.hash) (block_key h) e,
      )
    ]
  ]

  settle-named :
      (ch : Chain Db) (blk : Block)
      → ((settle ldb ch blk).0.latest_block_hash ≡ ch.latest_block_hash)
        ⊎ ((settle ldb ch blk).0.latest_block_hash ≡ some blk.header.hash)
  unfolding settle update_chain_state
  settle-named ch blk = ground arith

  pub add_block-Stores :
      (ch : Chain Db) (blk : Block)
      → ((add_block ldb ch blk).0 ≡ ch) ⊎ Stores ch blk (add_block ldb ch blk).0
  unfolding add_block save_block_data get_block_by_hash
  add_block-Stores ch blk = elim (Result-cases (block_batch ldb ch.db blk)) [
    | inr (x, e) ↦ inl (ground (arith, e))
    | inl (batch, e) ↦ elim (Option-cases (write ch.db batch)) [
      | inl e' ↦ inl (ground (arith, e, e'))
      | inr (db', e') ↦
          let mid : Chain Db = record ch { db = db' } in
          let reads = λ (h : Hash).
            settle-blocks mid blk h
            ∙ (get-write ch.db db' batch (block_key h) e'
                ∙ put_all-block_batch ldb ch.db blk h (get ch.db (block_key h)) e) in
          let done : (add_block ldb ch blk).0 ≡ (settle ldb mid blk).0 = ground (arith, e, e') in
          inr (
            rw done (record {
              found_by_hash = ground (arith, reads blk.header.hash);
              others = λ h n. ground (arith, n, reads h);
              named = settle-named mid blk;
            }))
    ]
  ]
