-- ===== src/Core/Chain/Added.antt =====
-- What `AddBlock` (core/block.go) writes.
use abcfe.Base.{
  ℕ, suc, List, [], ◌∷◌, ◌++◌, some, Bool, true, ◌==◌, ◌||◌, ltb, if◌then◌else◌, ◌≡◌, refl, sym,
  ◌∙◌, ap, ◌⊎◌, inl, inr, arith, Bool-cases, Option-cases,
}
use abcfe.Core.Types.{Hash, Address, TxInput, TxOutput, Transaction, Block}
use abcfe.Core.Errors.{Error, ok, err, Result-cases, write_failed}
use abcfe.Core.Store.{Key, utxo_key, utxo_list_key, Read, Batch, LevelDb, put_all, put_all-append}
use abcfe.Core.Utxo.{update_utxo}
use abcfe.Core.Utxo.Update.{table_after, update_utxo-table}
use abcfe.Core.Utxo.Invariant.{IsIndexed, IsFresh, update_utxo-IsIndexed}
use abcfe.Core.Chain.{
  Chain, save_block_data, save_inputs, save_outputs, save_tx, save_tx_data, del_txs, state_puts,
  update_chain_state, block_batch, settle, add_block,
}

-- The block becomes the last one.
abbrev pub advances : ℕ → Block → Bool
advances latest blk = ltb latest blk.header.height || blk.header.height == 0

-- The puts of `UpdateChainState`, if the block becomes the last one.
abbrev pub last_puts : ℕ → Block → Batch
last_puts latest blk =
    if advances latest blk then state_puts blk.header.height blk.header.hash else []

-- A key that neither `saveTxData` nor `UpdateChainState` writes.
data Other : Key → Type 0 where
  utxo : (id : Hash) (j : ℕ) → Other (utxo_key id j)
  utxo_list : (a : Address) → Other (utxo_list_key a)

save_inputs-Other :
    {k : Key} (o : Other k) (id : Hash) (index : ℕ) (is : List TxInput) (r : Read)
    → put_all (save_inputs id index is) k r ≡ r
unfolding save_inputs
save_inputs-Other o id index [] r = refl
save_inputs-Other (utxo h j) id index (i ∷ is) r = save_inputs-Other (utxo h j) id (suc index) is r
save_inputs-Other (utxo_list a) id index (i ∷ is) r =
    save_inputs-Other (utxo_list a) id (suc index) is r

save_outputs-Other :
    {k : Key} (o : Other k) (id : Hash) (index : ℕ) (os : List TxOutput) (r : Read)
    → put_all (save_outputs id index os) k r ≡ r
unfolding save_outputs
save_outputs-Other o id index [] r = refl
save_outputs-Other (utxo h j) id index (i ∷ is) r =
    save_outputs-Other (utxo h j) id (suc index) is r
save_outputs-Other (utxo_list a) id index (i ∷ is) r =
    save_outputs-Other (utxo_list a) id (suc index) is r

save_tx-Other :
    {k : Key} (o : Other k) (h : Hash) (t : Transaction) (r : Read) → put_all (save_tx h t) k r ≡ r
unfolding save_tx
save_tx-Other (utxo id j) h t r =
    put_all-append (save_inputs t.id 0 t.inputs) (save_outputs t.id 0 t.outputs) (utxo_key id j) r
    ∙ (save_outputs-Other (utxo id j) t.id 0 t.outputs _
        ∙ save_inputs-Other (utxo id j) t.id 0 t.inputs r)
save_tx-Other (utxo_list a) h t r =
    put_all-append (save_inputs t.id 0 t.inputs) (save_outputs t.id 0 t.outputs) (utxo_list_key a) r
    ∙ (save_outputs-Other (utxo_list a) t.id 0 t.outputs _
        ∙ save_inputs-Other (utxo_list a) t.id 0 t.inputs r)

save_tx_data-Other :
    {k : Key} (o : Other k) (h : Hash) (ts : List Transaction) (r : Read)
    → put_all (save_tx_data h ts) k r ≡ r
unfolding save_tx_data
save_tx_data-Other o h [] r = refl
save_tx_data-Other {k} o h (t ∷ ts) r =
    put_all-append (save_tx h t) (save_tx_data h ts) k r
    ∙ (save_tx_data-Other o h ts (put_all (save_tx h t) k r) ∙ save_tx-Other o h t r)

save_block_data-Other :
    {k : Key} (o : Other k) (blk : Block) (r : Read) → put_all (save_block_data blk) k r ≡ r
unfolding save_block_data
save_block_data-Other (utxo id j) blk r = refl
save_block_data-Other (utxo_list a) blk r = refl

last_puts-Other :
    {k : Key} (o : Other k) (latest : ℕ) (blk : Block) (r : Read)
    → put_all (last_puts latest blk) k r ≡ r
last_puts-Other (utxo id j) latest blk r = ground arith
last_puts-Other (utxo_list a) latest blk r = ground arith

module _ (ldb : LevelDb) where
  open ldb use {Db, get, write, get-write}

  -- What a successful `AddBlock` has done.
  pub record Adds (ch : Chain Db) (blk : Block) (ch' : Chain Db) : Type 0 where
    pub utxos : Batch
    pub updated : update_utxo ldb ch.db blk ≡ ok utxos
    pub reads :
        (k : Key)
        → get ch'.db k
          ≡ put_all (last_puts ch.latest_height blk) k (
              put_all
                (save_block_data blk ++ (save_tx_data blk.header.hash blk.transactions ++ utxos))
                k
                (get ch.db k))
    pub pool : ch'.mempool ≡ del_txs ch.mempool blk.transactions
    pub height :
        ch'.latest_height
        ≡ (if advances ch.latest_height blk then blk.header.height else ch.latest_height)
    pub hash :
        ch'.latest_block_hash
        ≡ (if advances ch.latest_height blk then some blk.header.hash else ch.latest_block_hash)

  settle-last :
      (ch : Chain Db) (blk : Block) {ch' : Chain Db}
      → settle ldb ch blk ≡ (ch', ok tt)
      → ((k : Key) → get ch'.db k ≡ put_all (last_puts ch.latest_height blk) k (get ch.db k))
        × (ch'.mempool ≡ del_txs ch.mempool blk.transactions)
        × (ch'.latest_height
            ≡ (if advances ch.latest_height blk then blk.header.height else ch.latest_height))
        × (ch'.latest_block_hash ≡ (
            if advances ch.latest_height blk then some blk.header.hash else ch.latest_block_hash))
  unfolding settle update_chain_state
  settle-last ch blk {ch'} h = elim (Bool-cases (advances ch.latest_height blk)) [
    | inr stays ↦ (
      λ k. ground (arith, h, stays),
      ground (arith, h, stays),
      ground (arith, h, stays),
      ground (arith, h, stays),
    )
    | inl goes ↦ elim (Option-cases (write ch.db (state_puts blk.header.height blk.header.hash))) [
      | inl e ↦ absurd (ground (arith, h, goes, e))
      | inr (db', e) ↦ (
        λ k. ground (
          arith,
          h,
          goes,
          e,
          get-write ch.db db' (state_puts blk.header.height blk.header.hash) k e,
        ),
        ground (arith, h, goes, e),
        ground (arith, h, goes, e),
        ground (arith, h, goes, e),
      )
    ]
  ]

  pub add_block-Adds :
      (ch : Chain Db) (blk : Block) {ch' : Chain Db}
      → add_block ldb ch blk ≡ (ch', ok tt)
      → Adds ch blk ch'
  unfolding add_block block_batch
  add_block-Adds ch blk {ch'} h = elim (Result-cases (update_utxo ldb ch.db blk)) [
    | inr (e, eq) ↦ absurd (ground (arith, h, eq))
    | inl (ub, eq) ↦
        let batch = save_block_data blk ++ (save_tx_data blk.header.hash blk.transactions ++ ub) in
        elim (Option-cases (write ch.db batch)) [
          | inl eq' ↦ absurd (ground (arith, h, eq, eq'))
          | inr (db', eq') ↦
              let mid : Chain Db = record ch { db = db' } in
              let done : settle ldb mid blk ≡ (ch', ok tt) = ground (arith, h, eq, eq') in
              let (r, p, n, x) = settle-last mid blk done in
              record {
                utxos = ub;
                updated = eq;
                reads = λ k.
                    r k
                    ∙ ap (put_all (last_puts ch.latest_height blk) k)
                        (get-write ch.db db' batch k eq');
                pool = p;
                height = n;
                hash = x;
              }
        ]
  ]

  Other-reads :
      (ch ch' : Chain Db) (blk : Block) (a : Adds ch blk ch') {k : Key}
      → Other k
      → get ch'.db k ≡ put_all a.utxos k (get ch.db k)
  Other-reads ch ch' blk a {k} o =
      let r = get ch.db k in
      let data' = save_tx_data blk.header.hash blk.transactions in
      a.reads k
      ∙ (last_puts-Other o ch.latest_height blk _
          ∙ (put_all-append (save_block_data blk) (data' ++ a.utxos) k r
              ∙ (put_all-append data' a.utxos k _
                  ∙ ap (put_all a.utxos k) (
                      save_tx_data-Other o blk.header.hash blk.transactions _
                      ∙ save_block_data-Other o blk r))))

  -- A block that is added leaves in the database, under every reference, exactly what the
  -- specification `table_after` says: its outputs new, what it uses spent, the rest as it was.
  pub add_block-table :
      (ch ch' : Chain Db) (blk : Block) (id : Hash) (j : ℕ)
      → add_block ldb ch blk ≡ (ch', ok tt)
      → get ch'.db (utxo_key id j) ≡ table_after blk id j (get ch.db (utxo_key id j))
  add_block-table ch ch' blk id j h =
      let a = add_block-Adds ch blk h in
      Other-reads ch ch' blk a (utxo id j) ∙ update_utxo-table ldb ch.db blk id j a.updated

  -- Adding a block whose outputs are new keeps the address lists an index of the unspent outputs.
  pub add_block-IsIndexed :
      (ch ch' : Chain Db) (blk : Block)
      → add_block ldb ch blk ≡ (ch', ok tt)
      → IsIndexed (get ch.db)
      → IsFresh (get ch.db) blk.transactions
      → IsIndexed (get ch'.db)
  add_block-IsIndexed ch ch' blk h inv fresh =
      let a = add_block-Adds ch blk h in
      let i = update_utxo-IsIndexed ldb ch.db blk a.updated inv fresh in
      let table = λ (id : Hash) (j : ℕ). Other-reads ch ch' blk a (utxo id j) in
      let list = λ (b : Address). Other-reads ch ch' blk a (utxo_list b) in
      record {
        typed = λ b. rw (list b) (i.typed b);
        listed =
            λ q u e n. rw (list u.tx_out.address) (i.listed q u (sym (table q.tx q.index) ∙ e) n);
        owned = λ b q e. rw (table q.tx q.index) (i.owned b q (rw (list b) at e));
      }

  -- A block that is not added because of its outputs, or because the batch is not written, changes
  -- nothing. Only when the last write fails is there a change: the block is stored, it is off the
  -- mempool, and the chain's fields name it.
  pub add_block-error :
      (ch ch' : Chain Db) (blk : Block) (e : Error)
      → add_block ldb ch blk ≡ (ch', err e)
      → (ch' ≡ ch)
        ⊎ ((e ≡ write_failed)
            × (advances ch.latest_height blk ≡ true)
            × (ch'.latest_height ≡ blk.header.height)
            × (ch'.latest_block_hash ≡ some blk.header.hash)
            × (ch'.mempool ≡ del_txs ch.mempool blk.transactions)
            × ((batch : Batch) × (block_batch ldb ch.db blk ≡ ok batch)
                × (write ch.db batch ≡ some ch'.db)))
  unfolding add_block settle update_chain_state
  add_block-error ch ch' blk e h = elim (Result-cases (block_batch ldb ch.db blk)) [
    | inr (e', eq) ↦ inl (ground (arith, h, eq))
    | inl (batch, eq) ↦ elim (Option-cases (write ch.db batch)) [
      | inl eq' ↦ inl (ground (arith, h, eq, eq'))
      | inr (db', eq') ↦ inr (ground (arith, h, eq, eq'))
    ]
  ]
