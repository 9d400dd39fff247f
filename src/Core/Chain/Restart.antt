-- ===== src/Core/Chain/Restart.antt =====
-- What is read back after `AddBlock`: the block, the fields after a restart, the mempool.
use abcfe.Base.{
  ℕ, suc, List, [], ◌∷◌, ◌++◌, Bool, true, false, ◌==◌, ◌≡◌, refl, ◌∙◌, ap, arith, Bool-cases, inl,
  inr,
}
use abcfe.Base.Assoc.{Dict}
use abcfe.Core.Types.{Hash, Transaction, TxInput, TxOutput, Block, Config}
use abcfe.Core.Errors.{ok, >>=-eq-ok}
use abcfe.Core.Crypto.{Crypto}
use abcfe.Core.Store.{
  Key, key_eq, AddrUtxoSet, of_utxo, block_key, height_key, meta_height_key, meta_hash_key, Read,
  LevelDb, put_all, put_all-append, Batch, utxo_key,
}
use abcfe.Core.Utxo.{
  update_utxo, spend_block, spend_txs, spend_inputs, add_txs, add_outputs, load_list, list_puts,
  fresh_utxo,
}
use abcfe.Core.Utxo.Update.{spend_input-eq-ok, spend_inputs-cons, spend_txs-cons}
use abcfe.Core.Validate.{get_block_by_height}
use abcfe.Core.Chain.{
  Chain, save_block_data, save_inputs, save_outputs, save_tx, save_tx_data, block_batch, add_block,
  load_chain_db, get_block_by_hash,
}
use abcfe.Core.Chain.Added.{Adds, add_block-Adds, advances, last_puts}

-- The puts of `UpdateUtxo` and of `saveTxData` touch neither blocks nor the chain's fields.
abbrev is_chain_key : Key → Bool
is_chain_key (block_key h) = true
is_chain_key (height_key n) = true
is_chain_key meta_height_key = true
is_chain_key meta_hash_key = true
is_chain_key k = false

-- A batch that has no chain key leaves them alone.
abbrev Spares : Batch → Type 0
Spares [] = Unit
Spares ((k, v) ∷ b) = (is_chain_key k ≡ false) × Spares b

key_eq-is_chain_key : (j k : Key) → key_eq j k ≡ true → is_chain_key j ≡ is_chain_key k
key_eq-is_chain_key (block_key h) (block_key h') e = refl
key_eq-is_chain_key j k e = ground arith

put_all-Spares :
    (b : Batch) (k : Key) (r : Read) → is_chain_key k ≡ true → Spares b → put_all b k r ≡ r
put_all-Spares [] k r c s = refl
put_all-Spares ((j, v) ∷ b) k r c s = elim (Bool-cases (key_eq j k)) [
  | inl same ↦ absurd (ground (arith, key_eq-is_chain_key j k same, c, s.0))
  | inr other ↦ rw other (put_all-Spares b k r c s.1)
]

Spares-append : (b d : Batch) → Spares b → Spares d → Spares (b ++ d)
Spares-append [] d s t = t
Spares-append ((j, v) ∷ b) d s t = (s.0, Spares-append b d s.1 t)

save_inputs-Spares : (id : Hash) (n : ℕ) (is : List TxInput) → Spares (save_inputs id n is)
unfolding save_inputs
save_inputs-Spares id n [] = tt
save_inputs-Spares id n (i ∷ is) = (refl, save_inputs-Spares id (suc n) is)

save_outputs-Spares : (id : Hash) (n : ℕ) (os : List TxOutput) → Spares (save_outputs id n os)
unfolding save_outputs
save_outputs-Spares id n [] = tt
save_outputs-Spares id n (o ∷ os) = (refl, save_outputs-Spares id (suc n) os)

save_tx_data-Spares : (h : Hash) (ts : List Transaction) → Spares (save_tx_data h ts)
unfolding save_tx_data save_tx
save_tx_data-Spares h [] = tt
save_tx_data-Spares h (t ∷ ts) = (
  refl,
  (
    refl,
    (
      refl,
      (
        refl,
        Spares-append (save_inputs t.id 0 t.inputs ++ save_outputs t.id 0 t.outputs) _
            (Spares-append (save_inputs t.id 0 t.inputs) _ (save_inputs-Spares t.id 0 t.inputs)
              (save_outputs-Spares t.id 0 t.outputs))
            (save_tx_data-Spares h ts),
      ),
    ),
  ),
)

list_puts-Spares : (d : Dict AddrUtxoSet) → Spares (list_puts d)
list_puts-Spares [] = tt
list_puts-Spares ((a, l) ∷ d) = (refl, list_puts-Spares d)

module _ (ldb : LevelDb) (db : ldb.Db) (height : ℕ) where
  spend_inputs-Spares :
      (is : List TxInput) {b : Batch} → spend_inputs ldb db height is ≡ ok b → Spares b
  unfolding spend_inputs
  spend_inputs-Spares [] {b} h = let e : b ≡ [] = ground arith in rw e tt
  spend_inputs-Spares (i ∷ is) h =
      let (c, d, e, f, g) = spend_inputs-cons ldb db height i is h in
      let (u, l, e1, e2, e3, e4) = spend_input-eq-ok ldb db height i e in
      rw (g, e4) (refl, (refl, spend_inputs-Spares is f))

  spend_txs-Spares :
      (ts : List Transaction) {b : Batch} → spend_txs ldb db height ts ≡ ok b → Spares b
  unfolding spend_txs
  spend_txs-Spares [] {b} h = let e : b ≡ [] = ground arith in rw e tt
  spend_txs-Spares (t ∷ ts) h =
      let (c, d, e, f, g) = spend_txs-cons ldb db height t ts h in
      rw g (Spares-append c d (spend_inputs-Spares t.inputs e) (spend_txs-Spares ts f))

  add_outputs-Spares :
      (id : Hash) (n : ℕ) (os : List TxOutput) (d : Dict AddrUtxoSet) {p : Batch × Dict AddrUtxoSet}
      → add_outputs ldb db height id n os d ≡ ok p
      → Spares p.0
  unfolding add_outputs
  add_outputs-Spares id n [] d {p} h = let e : p ≡ ([], d) = ground arith in rw e tt
  add_outputs-Spares id n (o ∷ os) d {p} h =
      let (l, e1, e2) = >>=-eq-ok (load_list ldb db d o.address) _ h in
      let (q, e3, e4) = >>=-eq-ok (add_outputs ldb db height id (suc n) os _) _ e2 in
      let e : p.0 ≡ (utxo_key id n, of_utxo (fresh_utxo id n o height)) ∷ q.0 =
        ground (arith, e4) in
      rw e (refl, add_outputs-Spares id (suc n) os _ e3)

  add_txs-Spares :
      (ts : List Transaction) (d : Dict AddrUtxoSet) {p : Batch × Dict AddrUtxoSet}
      → add_txs ldb db height ts d ≡ ok p
      → Spares p.0
  unfolding add_txs
  add_txs-Spares [] d {p} h = let e : p ≡ ([], d) = ground arith in rw e tt
  add_txs-Spares (t ∷ ts) d {p} h =
      let (x, e1, e2) = >>=-eq-ok (add_outputs ldb db height t.id 0 t.outputs d) _ h in
      let (y, e3, e4) = >>=-eq-ok (add_txs ldb db height ts x.1) _ e2 in
      let e : p.0 ≡ x.0 ++ y.0 = ground (arith, e4) in
      rw e (
        Spares-append x.0 y.0 (add_outputs-Spares t.id 0 t.outputs d e1) (add_txs-Spares ts x.1 e3))

module _ (ldb : LevelDb) where
  open ldb use {Db, get}

  update_utxo-Spares :
      (db : Db) (blk : Block) {b : Batch} → update_utxo ldb db blk ≡ ok b → Spares b
  unfolding update_utxo spend_block
  update_utxo-Spares db blk {b} h =
      let (c, e1, h1) = >>=-eq-ok (spend_block ldb db blk) _ h in
      let (p, e2, h2) = >>=-eq-ok (add_txs ldb db blk.header.height blk.transactions []) _ h1 in
      let e : b ≡ c ++ (p.0 ++ list_puts p.1) = ground (arith, h2) in
      let second =
        Spares-append p.0 (list_puts p.1)
          (add_txs-Spares ldb db blk.header.height blk.transactions [] e2) (list_puts-Spares p.1) in
      rw e (elim (Bool-cases (blk.header.height == 0)) [
        | inl genesis ↦ let n : c ≡ [] = ground (arith, genesis, e1) in rw n second
        | inr later ↦
            Spares-append c _
              (spend_txs-Spares ldb db blk.header.height blk.transactions
                (ground (arith, later, e1)))
              second
      ])

  -- What a block's batch puts under the hashes of blocks.
  pub put_all-block_batch :
      (db : Db) (blk : Block) {b : Batch} (h : Hash) (r : Read)
      → block_batch ldb db blk ≡ ok b
      → put_all b (block_key h) r ≡ put_all (save_block_data blk) (block_key h) r
  unfolding block_batch
  put_all-block_batch db blk {b} h r e =
      let txs = save_tx_data blk.header.hash blk.transactions in
      let (utxos, e1, e2) = >>=-eq-ok (update_utxo ldb db blk) _ e in
      let parts : b ≡ save_block_data blk ++ (txs ++ utxos) = ground (arith, e2) in
      ap (λ x. put_all x (block_key h) r) parts
      ∙ put_all-append (save_block_data blk) (txs ++ utxos) (block_key h) r
      ∙ put_all-Spares (txs ++ utxos) (block_key h) _ refl (
          Spares-append txs utxos (save_tx_data-Spares blk.header.hash blk.transactions)
            (update_utxo-Spares db blk e1))

  chain-reads :
      (ch ch' : Chain Db) (blk : Block) (a : Adds ldb ch blk ch') (k : Key)
      → is_chain_key k ≡ true
      → get ch'.db k
        ≡ put_all (last_puts ch.latest_height blk) k (put_all (save_block_data blk) k (get ch.db k))
  chain-reads ch ch' blk a k c =
      let r = get ch.db k in
      let txs = save_tx_data blk.header.hash blk.transactions in
      a.reads k
      ∙ ap (put_all (last_puts ch.latest_height blk) k) (
          put_all-append (save_block_data blk) (txs ++ a.utxos) k r
          ∙ put_all-Spares (txs ++ a.utxos) k _ c (
              Spares-append txs a.utxos (save_tx_data-Spares blk.header.hash blk.transactions)
                (update_utxo-Spares ch.db blk a.updated)))

  -- A block that was added is found by its height and by its hash.
  pub get_block-add_block :
      (ch ch' : Chain Db) (blk : Block) (cfg : Config) (c : Crypto)
      → add_block ldb ch blk ≡ (ch', ok tt)
      → (get_block_by_height cfg c ldb ch'.db blk.header.height ≡ ok blk)
        × (get_block_by_hash ldb ch'.db blk.header.hash ≡ ok blk)
  unfolding get_block_by_height get_block_by_hash save_block_data
  get_block-add_block ch ch' blk cfg c h =
      let a = add_block-Adds ldb ch blk h in
      let by_height = chain-reads ch ch' blk a (height_key blk.header.height) refl in
      let by_hash = chain-reads ch ch' blk a (block_key blk.header.hash) refl in
      ground (arith, by_height, by_hash)

  -- When the block became the last one, a restart from the database changes nothing: the fields
  -- that `LoadChainDB` reads are those that `AddBlock` left.
  pub load_chain_db-add_block :
      (ch ch' : Chain Db) (blk : Block)
      → add_block ldb ch blk ≡ (ch', ok tt)
      → advances ch.latest_height blk ≡ true
      → load_chain_db ldb ch' ≡ (ch', ok tt)
  unfolding load_chain_db save_block_data
  load_chain_db-add_block ch ch' blk h last =
      let a = add_block-Adds ldb ch blk h in
      let height = chain-reads ch ch' blk a meta_height_key refl in
      let hash = chain-reads ch ch' blk a meta_hash_key refl in
      ground (arith, last, height, hash, a.height, a.hash)
