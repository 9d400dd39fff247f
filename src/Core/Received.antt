-- ===== src/Core/Received.antt =====
-- `GetAddressTransactions` of core/transaction.go: what an address has received, block by block.
use abcfe.Base.{ℕ, zero, suc, List, [], ◌∷◌, ◌++◌, Bool, true, ◌==◌, if◌then◌else◌}
use abcfe.Base.Int.{ℤ}
use abcfe.Core.Types.{Hash, Address, TxOutput, Transaction, Config}
use abcfe.Core.Errors.{ok, err}
use abcfe.Core.Crypto.{Crypto}
use abcfe.Core.Store.{LevelDb}
use abcfe.Core.Utxo.{get_utxo}
use abcfe.Core.Validate.{get_block_by_height}
use abcfe.Core.Chain.{Chain}

-- The type is always "received".
pub record AddressTxInfo : Type 0 where
  pub tx_id : Hash
  pub amount : ℕ
  pub timestamp : ℤ
  pub height : ℕ
  pub spent : Bool
  pub index : ℕ

module _ (cfg : Config) (c : Crypto) (ldb : LevelDb) where
  open ldb use {Db}

  -- An output that is not found counts as spent.
  unfoldable pub is_spent : Db → Hash → ℕ → Bool
  is_spent db id index = elim (get_utxo ldb db id index) [ err _ ↦ true | ok u ↦ u.spent ]

  -- The loop over the outputs of a transaction, from an index on.
  unfoldable pub received_outputs :
      Db → Address → ℕ → Transaction → ℕ → List TxOutput → List AddressTxInfo
  unfolding is_spent
  received_outputs db a height tx index [] = []
  received_outputs db a height tx index (o ∷ os) =
      let rest = received_outputs db a height tx (suc index) os in
      if o.address == a
      then record {
        tx_id = tx.id;
        amount = o.amount;
        timestamp = tx.timestamp;
        height = height;
        spent = is_spent db tx.id index;
        index = index;
      }
        ∷ rest
      else rest

  -- The loop over the transactions of a block.
  unfoldable pub received_txs : Db → Address → ℕ → List Transaction → List AddressTxInfo
  unfolding received_outputs
  received_txs db a height [] = []
  received_txs db a height (t ∷ ts) =
      received_outputs db a height t 0 t.outputs ++ received_txs db a height ts

  -- One height: a block that is not found is passed over.
  unfoldable pub received_at : Db → Address → ℕ → List AddressTxInfo
  unfolding received_txs
  received_at db a height = elim (get_block_by_height cfg c ldb db height) [
    | err _ ↦ []
    | ok b ↦ received_txs db a height b.transactions
  ]

  -- The heights up to this one, in order.
  unfoldable pub received_up_to : Db → Address → ℕ → List AddressTxInfo
  unfolding received_at
  received_up_to db a zero = received_at db a 0
  received_up_to db a (suc height) = received_up_to db a height ++ received_at db a (suc height)

  -- `GetAddressTransactions`
  unfoldable pub get_address_transactions : Chain Db → Address → List AddressTxInfo
  unfolding received_up_to
  get_address_transactions ch a = received_up_to ch.db a ch.latest_height
