-- ===== src/Core/Mempool.antt =====
-- core/mempool.go. The map is keyed by the hex text of a transaction's hash, which is one to one
-- with the hash. The mutex makes each method one step.
pub mod Priority
use abcfe.Base.{
  ℕ, List, [], ◌∷◌, map, Option, none, some, Bool, true, false, ◌==◌, ◌&&◌, ◌||◌, ltb, leb,
  if◌then◌else◌, length, take,
}
use abcfe.Base.Assoc.{Dict, lookup, insert, erase, values}
use abcfe.Core.Types.{Hash, Transaction, TxInput, max_txs_per_block}
use abcfe.Core.Errors.{Result, ok, err, tx_exists}

pub record TxWithFee : Type 0 where
  pub tx : Transaction
  pub fee : ℕ

abbrev pub Mempool : Type 0
Mempool = Dict TxWithFee

-- `NewTransactionWithFee`
unfoldable pub new_transaction_with_fee : Mempool → Transaction → ℕ → Result Mempool
new_transaction_with_fee m tx fee = elim (lookup tx.id m) [
  | some _ ↦ err tx_exists
  | none ↦ ok (insert tx.id (record { tx = tx; fee = fee }) m)
]

-- `NewTranaction`
unfoldable pub new_transaction : Mempool → Transaction → Result Mempool
new_transaction m tx = elim (lookup tx.id m) [
  | some _ ↦ err tx_exists
  | none ↦ ok (insert tx.id (record { tx = tx; fee = 0 }) m)
]

-- `GetTx`
unfoldable pub get_tx : Mempool → Hash → Option Transaction
get_tx m id = elim (lookup id m) [ none ↦ none | some e ↦ some e.tx ]

-- `sort.Slice` by `Fee` descending.
insert_by_fee : TxWithFee → List TxWithFee → List TxWithFee
insert_by_fee e [] = e ∷ []
insert_by_fee e (f ∷ fs) = if leb f.fee e.fee then e ∷ f ∷ fs else f ∷ insert_by_fee e fs

sort_by_fee : List TxWithFee → List TxWithFee
sort_by_fee [] = []
sort_by_fee (e ∷ es) = insert_by_fee e (sort_by_fee es)

abbrev pub txs_of : List TxWithFee → List Transaction
txs_of [] = []
txs_of (e ∷ es) = e.tx ∷ txs_of es

-- `GetTxs`
unfoldable pub get_txs : Mempool → List Transaction
unfolding insert_by_fee sort_by_fee
get_txs m =
    let txs = txs_of (sort_by_fee (values m)) in
    if ltb max_txs_per_block (length txs) then take max_txs_per_block txs else txs

-- `GetTxCount`
unfoldable pub get_tx_count : Mempool → ℕ
get_tx_count m = length m

-- `DelTx`
unfoldable pub del_tx : Mempool → Hash → Mempool
del_tx m id = erase id m

-- `Clear`
unfoldable pub clear : Mempool → Mempool
clear m = []

-- `UpdateTxFee`
unfoldable pub update_tx_fee : Mempool → Hash → ℕ → Mempool
update_tx_fee m id fee = elim (lookup id m) [
  | none ↦ m
  | some e ↦ insert id (record e { fee = fee }) m
]

-- `input.OutputIndex == outputIndex && input.TxID == txId` for some input
abbrev pub uses_output : List TxInput → Hash → ℕ → Bool
uses_output [] id index = false
uses_output (i ∷ is) id index = i.output_index == index && i.tx_id == id || uses_output is id index

abbrev pub any_uses_output : List TxWithFee → Hash → ℕ → Bool
any_uses_output [] id index = false
any_uses_output (e ∷ es) id index = uses_output e.tx.inputs id index || any_uses_output es id index

-- `isOnMempool`
unfoldable pub is_on_mempool : Mempool → Hash → ℕ → Bool
is_on_mempool m id index = any_uses_output (values m) id index
