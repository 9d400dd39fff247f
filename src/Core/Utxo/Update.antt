-- ===== src/Core/Utxo/Update.antt =====
-- What `UpdateUtxo` (core/utxo.go) does to the table of outputs.
use abcfe.Base.{
  ℕ, zero, suc, ◌+◌, List, [], ◌∷◌, ◌++◌, Option, none, some, Bool, false, not, ◌==◌, ◌&&◌, ◌||◌,
  if◌then◌else◌, ◌≡◌, refl, arith, subst, sym, get_elem?, ◌<◌,
}
use abcfe.Base.Assoc.{Dict}
use abcfe.Core.Types.{Hash, TxInput, TxOutput, Transaction, Block, Utxo}
use abcfe.Core.Errors.{ok, >>=-eq-ok}
use abcfe.Core.Store.{
  utxo_key, utxo_list_key, AddrUtxoSet, Value, of_utxo, of_utxo_list, Read, found, Batch, LevelDb,
  put_all, put_all-append,
}
use abcfe.Core.Mempool.{uses_output}
use abcfe.Core.Utxo.{
  update_utxo, spend_input, spend_inputs, spend_txs, spend_block, add_outputs, add_txs, load_list,
  as_utxo, as_utxo_list, mark_spent, fresh_utxo, remove_ref, ref_of, list_puts,
}

-- The stored output, marked as spent at a height.
abbrev pub spent_read : ℕ → Read → Read
spent_read height (found (of_utxo u)) = found (of_utxo (mark_spent height u))
spent_read height r = r

abbrev pub txs_use : List Transaction → Hash → ℕ → Bool
txs_use [] id index = false
txs_use (t ∷ ts) id index = uses_output t.inputs id index || txs_use ts id index

pub as_utxo-eq-some : (v : Value) {u : Utxo} → as_utxo v ≡ some u → v ≡ of_utxo u
as_utxo-eq-some (of_utxo u) h = ground arith
as_utxo-eq-some v h = ground arith

pub as_utxo_list-eq-some :
    (v : Value) {l : AddrUtxoSet} → as_utxo_list v ≡ some l → v ≡ of_utxo_list l
as_utxo_list-eq-some (of_utxo_list u) h = ground arith
as_utxo_list-eq-some v h = ground arith

abbrev pub created_by : ℕ → Hash → ℕ → Option TxOutput → Option Utxo
created_by height id index none = none
created_by height id index (some o) = some (fresh_utxo id index o height)

-- The output that a block's transactions put under a reference; of two with one ID, the later.
abbrev pub created : ℕ → List Transaction → Hash → ℕ → Option Utxo
created height [] id index = none
created height (t ∷ ts) id index = elim (created height ts id index) [
  | some u ↦ some u
  | none ↦ if t.id == id then created_by height id index (get_elem? t.outputs index) else none
]

-- The table of outputs after a block: what the block creates is new and unspent, what it uses is
-- spent at its height, and the rest is as it was. The genesis block uses nothing.
abbrev pub table_after : Block → Hash → ℕ → Read → Read
table_after blk id index old = elim (created blk.header.height blk.transactions id index) [
  | some u ↦ found (of_utxo u)
  | none ↦
      if not (blk.header.height == 0) && txs_use blk.transactions id index
      then spent_read blk.header.height old
      else old
]

unfoldable pub output_at : ℕ → List TxOutput → ℕ → Option TxOutput
output_at start [] j = none
output_at start (o ∷ os) j = if start == j then some o else output_at (suc start) os j

output_at-get_elem? :
    (start k : ℕ) (os : List TxOutput) → output_at start os (start + k) ≡ get_elem? os k
unfolding output_at
output_at-get_elem? start k [] = refl
output_at-get_elem? start zero (o ∷ os) = ground arith
output_at-get_elem? start (suc k) (o ∷ os) =
    let e : start + suc k ≡ suc start + k = omega arith in
    rw e (ground (arith, output_at-get_elem? (suc start) k os))

pub output_at-zero : (os : List TxOutput) (k : ℕ) → output_at 0 os k ≡ get_elem? os k
output_at-zero os k =
    let e : k ≡ 0 + k = omega arith in
    subst (λ (n : ℕ). output_at 0 os n ≡ get_elem? os k) (sym e) (output_at-get_elem? 0 k os)

pub output_at-before :
    (start : ℕ) (os : List TxOutput) (j : ℕ) → j < start → output_at start os j ≡ none
unfolding output_at
output_at-before start [] j h = refl
output_at-before start (o ∷ os) j h = ground (arith, output_at-before (suc start) os j)

put_all-list_puts :
    (d : Dict AddrUtxoSet) (id : Hash) (j : ℕ) (r : Read)
    → put_all (list_puts d) (utxo_key id j) r ≡ r
put_all-list_puts [] id j r = refl
put_all-list_puts ((a, l) ∷ d) id j r = put_all-list_puts d id j r

-- A put of the created output, if there is one.
abbrev put_created : Option Utxo → Read → Read
put_created none r = r
put_created (some u) r = found (of_utxo u)

module _ (ldb : LevelDb) (db : ldb.Db) (height : ℕ) where
  open ldb use {Db, get}

  -- An input is spent only if its output is stored, unspent, and its owner has a list.
  pub spend_input-eq-ok :
      (i : TxInput) {b : Batch}
      → spend_input ldb db height i ≡ ok b
      → (u : Utxo) × (l : AddrUtxoSet) × (get db (utxo_key i.tx_id i.output_index)
          ≡ found (of_utxo u))
        × (u.spent ≡ false)
        × (get db (utxo_list_key u.tx_out.address) ≡ found (of_utxo_list l))
        × (b
            ≡ (utxo_key i.tx_id i.output_index, of_utxo (mark_spent height u))
              ∷ (utxo_list_key u.tx_out.address, of_utxo_list (remove_ref (ref_of i) l))
              ∷ [])
  unfolding spend_input
  spend_input-eq-ok i h = ground arith

  spend_input-table :
      (i : TxInput) {b : Batch} (id : Hash) (j : ℕ) (r : Read)
      → spend_input ldb db height i ≡ ok b
      → put_all b (utxo_key id j) r ≡ (
          if i.output_index == j && i.tx_id == id
          then spent_read height (get db (utxo_key id j))
          else r)
  spend_input-table i id j r h = ground (arith, spend_input-eq-ok i h)

  pub spend_inputs-cons :
      (i : TxInput) (is : List TxInput) {b : Batch}
      → spend_inputs ldb db height (i ∷ is) ≡ ok b
      → (c : Batch) × (d : Batch) × (spend_input ldb db height i ≡ ok c)
        × (spend_inputs ldb db height is ≡ ok d)
        × (b ≡ c ++ d)
  unfolding spend_inputs
  spend_inputs-cons i is h = ground arith

  pub spend_txs-cons :
      (t : Transaction) (ts : List Transaction) {b : Batch}
      → spend_txs ldb db height (t ∷ ts) ≡ ok b
      → (c : Batch) × (d : Batch) × (spend_inputs ldb db height t.inputs ≡ ok c)
        × (spend_txs ldb db height ts ≡ ok d)
        × (b ≡ c ++ d)
  unfolding spend_txs
  spend_txs-cons t ts h = ground arith

  spend_inputs-table :
      (is : List TxInput) {b : Batch} (id : Hash) (j : ℕ) (r : Read)
      → spend_inputs ldb db height is ≡ ok b
      → put_all b (utxo_key id j) r
        ≡ (if uses_output is id j then spent_read height (get db (utxo_key id j)) else r)
  unfolding spend_inputs
  spend_inputs-table [] id j r h = ground arith
  spend_inputs-table (i ∷ is) id j r h =
      let (c, e, h') = >>=-eq-ok (spend_input ldb db height i) _ h in
      let (d, f, g) = >>=-eq-ok (spend_inputs ldb db height is) _ h' in
      ground (
        arith,
        g,
        put_all-append c d (utxo_key id j) r,
        spend_input-table i id j r e,
        spend_inputs-table is id j (put_all c (utxo_key id j) r) f,
      )

  spend_txs-table :
      (ts : List Transaction) {b : Batch} (id : Hash) (j : ℕ) (r : Read)
      → spend_txs ldb db height ts ≡ ok b
      → put_all b (utxo_key id j) r
        ≡ (if txs_use ts id j then spent_read height (get db (utxo_key id j)) else r)
  unfolding spend_txs
  spend_txs-table [] id j r h = ground arith
  spend_txs-table (t ∷ ts) id j r h =
      let (c, e, h') = >>=-eq-ok (spend_inputs ldb db height t.inputs) _ h in
      let (d, f, g) = >>=-eq-ok (spend_txs ldb db height ts) _ h' in
      ground (
        arith,
        g,
        put_all-append c d (utxo_key id j) r,
        spend_inputs-table t.inputs id j r e,
        spend_txs-table ts id j (put_all c (utxo_key id j) r) f,
      )

  add_outputs-table :
      (id : Hash) (start : ℕ) (os : List TxOutput) (d : Dict AddrUtxoSet)
      {p : Batch × Dict AddrUtxoSet} (h : Hash) (j : ℕ) (r : Read)
      → add_outputs ldb db height id start os d ≡ ok p
      → put_all p.0 (utxo_key h j) r
        ≡ put_created (if id == h then created_by height h j (output_at start os j) else none) r
  unfolding add_outputs output_at
  add_outputs-table id start [] d h j r e = ground arith
  add_outputs-table id start (o ∷ os) d h j r e =
      let (l, e1, e2) = >>=-eq-ok (load_list ldb db d o.address) _ e in
      let (q, e3, e4) = >>=-eq-ok (add_outputs ldb db height id (suc start) os _) _ e2 in
      let r' : Read =
        if id == h && start == j then found (of_utxo (fresh_utxo id start o height)) else r in
      let ih = add_outputs-table id (suc start) os _ h j r' e3 in
      ground (arith, e4, ih, output_at-before (suc start) os j)

  add_txs-table :
      (ts : List Transaction) (d : Dict AddrUtxoSet) {p : Batch × Dict AddrUtxoSet} (h : Hash)
      (j : ℕ) (r : Read)
      → add_txs ldb db height ts d ≡ ok p
      → put_all p.0 (utxo_key h j) r ≡ put_created (created height ts h j) r
  unfolding add_txs
  add_txs-table [] d h j r e = ground arith
  add_txs-table (t ∷ ts) d h j r e =
      let (q, e1, e2) = >>=-eq-ok (add_outputs ldb db height t.id 0 t.outputs d) _ e in
      let (s, e3, e4) = >>=-eq-ok (add_txs ldb db height ts q.1) _ e2 in
      ground (
        arith,
        e4,
        put_all-append q.0 s.0 (utxo_key h j) r,
        output_at-zero t.outputs j,
        add_outputs-table t.id 0 t.outputs d h j r e1,
        add_txs-table ts q.1 h j (put_all q.0 (utxo_key h j) r) e3,
      )

module _ (ldb : LevelDb) (db : ldb.Db) where
  open ldb use {Db, get}

  spend_block-table :
      (blk : Block) {b : Batch} (id : Hash) (j : ℕ) (r : Read)
      → spend_block ldb db blk ≡ ok b
      → put_all b (utxo_key id j) r ≡ (
          if not (blk.header.height == 0) && txs_use blk.transactions id j
          then spent_read blk.header.height (get db (utxo_key id j))
          else r)
  unfolding spend_block
  spend_block-table blk {b} id j r h =
      ground (arith, spend_txs-table ldb db blk.header.height blk.transactions {b = b} id j r)

  -- When `UpdateUtxo` succeeds, its puts leave at every reference what `table_after` says.
  pub update_utxo-table :
      (blk : Block) {b : Batch} (id : Hash) (j : ℕ)
      → update_utxo ldb db blk ≡ ok b
      → put_all b (utxo_key id j) (get db (utxo_key id j))
        ≡ table_after blk id j (get db (utxo_key id j))
  unfolding update_utxo
  update_utxo-table blk id j h =
      let height = blk.header.height in
      let k = utxo_key id j in
      let r = get db k in
      let (c, e1, h1) = >>=-eq-ok (spend_block ldb db blk) _ h in
      let (p, e2, h2) = >>=-eq-ok (add_txs ldb db height blk.transactions []) _ h1 in
      ground (
        arith,
        h2,
        put_all-append c (p.0 ++ list_puts p.1) k r,
        put_all-append p.0 (list_puts p.1) k (put_all c k r),
        put_all-list_puts p.1 id j (put_all p.0 k (put_all c k r)),
        add_txs-table ldb db height blk.transactions [] id j (put_all c k r) e2,
        spend_block-table blk id j r e1,
      )
