-- ===== src/Core/Utxo.antt =====
-- core/utxo.go. A loop over the block is a recursion that returns the puts it adds to the batch,
-- in their order; every read goes to the database as it was before the block, as in the source.
pub mod Update
pub mod Lists
pub mod Paid
pub mod Index
pub mod Invariant
pub mod Balance
use abcfe.Base.{
  ℕ, suc, ◌+◌, List, [], ◌∷◌, ◌++◌, Option, none, some, Bool, true, false, not, ◌==◌, ◌&&◌, ◌||◌,
  if◌then◌else◌, add64,
}
use abcfe.Base.Assoc.{Dict, lookup, insert}
use abcfe.Core.Types.{Hash, Address, TxInput, TxOutput, Transaction, Block, Utxo}
use abcfe.Core.Errors.{
  Result, ok, err, guard, or_fail, ◌>>=◌, ◌>>◌, Error, db_failure, undecodable, utxo_spent,
}
use abcfe.Core.Store.{
  Ref, Key, utxo_key, utxo_list_key, AddrUtxoSet, Value, of_utxo, of_utxo_list, Read, found,
  not_found, failed, Batch, LevelDb,
}
use abcfe.Core.Mempool.{Mempool, is_on_mempool}

-- `DeserializeData` into a `UTXO` and into an `AddrUTXOSet`.
abbrev pub as_utxo : Value → Option Utxo
as_utxo (of_utxo u) = some u
as_utxo _ = none

abbrev pub as_utxo_list : Value → Option AddrUtxoSet
as_utxo_list (of_utxo_list l) = some l
as_utxo_list _ = none

abbrev pub ref_eq : Ref → Ref → Bool
ref_eq r s = r.tx == s.tx && r.index == s.index

abbrev pub has_ref : Ref → AddrUtxoSet → Bool
has_ref r [] = false
has_ref r (s ∷ l) = ref_eq s r || has_ref r l

-- `delete(utxoList, key)` and `utxoList[key] = true`
abbrev pub remove_ref : Ref → AddrUtxoSet → AddrUtxoSet
remove_ref r [] = []
remove_ref r (s ∷ l) = if ref_eq s r then remove_ref r l else s ∷ remove_ref r l

abbrev pub add_ref : Ref → AddrUtxoSet → AddrUtxoSet
add_ref r l = if has_ref r l then l else r ∷ l

abbrev pub ref_of : TxInput → Ref
ref_of i = record { tx = i.tx_id; index = i.output_index }

-- `db.Get` where every error is returned under one message.
abbrev pub require : Read → Error → Result Value
require (found v) e = ok v
require not_found e = err e
require failed e = err e

-- The record that an output of a block becomes.
abbrev pub fresh_utxo : Hash → ℕ → TxOutput → ℕ → Utxo
fresh_utxo id index out height = record {
  tx_id = id;
  output_index = index;
  tx_out = out;
  height = height;
  spent = false;
  spent_height = 0;
}

abbrev pub mark_spent : ℕ → Utxo → Utxo
mark_spent height u = record u { spent = true; spent_height = height }

-- The lists of the map `addressUTXOMap`, put at the end of the batch.
abbrev pub list_puts : Dict AddrUtxoSet → Batch
list_puts [] = []
list_puts ((a, l) ∷ d) = (utxo_list_key a, of_utxo_list l) ∷ list_puts d

module _ (ldb : LevelDb) where
  open ldb use {Db, get}

  -- The body of the first loop of `UpdateUtxo`.
  unfoldable pub spend_input : Db → ℕ → TxInput → Result Batch
  spend_input db height i = do
    v ← require (get db (utxo_key i.tx_id i.output_index)) db_failure
    u ← or_fail (as_utxo v) undecodable
    guard (not u.spent) utxo_spent
    lv ← require (get db (utxo_list_key u.tx_out.address)) db_failure
    l ← or_fail (as_utxo_list lv) undecodable
    ok (
        (utxo_key i.tx_id i.output_index, of_utxo (mark_spent height u))
        ∷ (utxo_list_key u.tx_out.address, of_utxo_list (remove_ref (ref_of i) l))
        ∷ [])

  unfoldable pub spend_inputs : Db → ℕ → List TxInput → Result Batch
  spend_inputs db height [] = ok []
  spend_inputs db height (i ∷ is) = do
    b ← spend_input db height i
    c ← spend_inputs db height is
    ok (b ++ c)

  unfoldable pub spend_txs : Db → ℕ → List Transaction → Result Batch
  spend_txs db height [] = ok []
  spend_txs db height (t ∷ ts) = do
    b ← spend_inputs db height t.inputs
    c ← spend_txs db height ts
    ok (b ++ c)

  -- The list of an address: the one loaded before, else from the database.
  unfoldable pub load_list : Db → Dict AddrUtxoSet → Address → Result AddrUtxoSet
  load_list db d a = elim (lookup a d) [
    | some l ↦ ok l
    | none ↦ elim (get db (utxo_list_key a)) [
      | found v ↦ or_fail (as_utxo_list v) undecodable
      | not_found ↦ ok []
      | failed ↦ err db_failure
    ]
  ]

  -- The loop over the outputs of one transaction, from the output at `index`.
  unfoldable pub add_outputs :
      Db → ℕ → Hash → ℕ → List TxOutput → Dict AddrUtxoSet → Result (Batch × Dict AddrUtxoSet)
  add_outputs db height id index [] d = ok ([], d)
  add_outputs db height id index (o ∷ os) d = do
    l ← load_list db d o.address
    (b, d') ←
        add_outputs db height id (suc index) os
          (insert o.address (add_ref (record { tx = id; index = index }) l) d)
    ok ((utxo_key id index, of_utxo (fresh_utxo id index o height)) ∷ b, d')

  unfoldable pub add_txs :
      Db → ℕ → List Transaction → Dict AddrUtxoSet → Result (Batch × Dict AddrUtxoSet)
  add_txs db height [] d = ok ([], d)
  add_txs db height (t ∷ ts) d = do
    (b, d') ← add_outputs db height t.id 0 t.outputs d
    (c, d'') ← add_txs db height ts d'
    ok (b ++ c, d'')

  -- The first loop runs for every block but the genesis block.
  unfoldable pub spend_block : Db → Block → Result Batch
  unfolding spend_txs spend_inputs spend_input
  spend_block db blk =
      if blk.header.height == 0 then ok [] else spend_txs db blk.header.height blk.transactions

  -- `UpdateUtxo`: the puts that it adds to the batch.
  unfoldable pub update_utxo : Db → Block → Result Batch
  unfolding spend_block add_txs add_outputs load_list
  update_utxo db blk = do
    b ← spend_block db blk
    (c, d) ← add_txs db blk.header.height blk.transactions []
    ok (b ++ (c ++ list_puts d))

  -- The loop of `GetUtxoList` over an address's keys.
  unfoldable pub collect : Db → Mempool → Bool → AddrUtxoSet → Result (List Utxo)
  collect db m check [] = ok []
  collect db m check (r ∷ rs) = do
    v ← require (get db (utxo_key r.tx r.index)) db_failure
    u ← or_fail (as_utxo v) undecodable
    rest ← collect db m check rs
    ok (
        if u.spent
        then rest
        else if check && is_on_mempool m u.tx_id u.output_index
        then rest
        else u ∷ rest)

  -- `GetUtxoList`
  unfoldable pub get_utxo_list : Db → Mempool → Address → Bool → Result (List Utxo)
  unfolding collect
  get_utxo_list db m a check = do
    v ← require (get db (utxo_list_key a)) db_failure
    l ← or_fail (as_utxo_list v) undecodable
    collect db m check l

  -- `GetUtxoByTxIdAndIdx`
  unfoldable pub get_utxo : Db → Hash → ℕ → Result Utxo
  get_utxo db id index = do
    v ← require (get db (utxo_key id index)) db_failure
    or_fail (as_utxo v) undecodable

-- The loop of `CalBalanceUtxo`, from the amount so far.
unfoldable pub add_balance : ℕ → List Utxo → ℕ
add_balance amount [] = amount
add_balance amount (u ∷ us) =
    add_balance (if u.spent then amount else add64 amount u.tx_out.amount) us

-- `CalBalanceUtxo`
unfoldable pub cal_balance_utxo : List Utxo → ℕ
unfolding add_balance
cal_balance_utxo us = add_balance 0 us
