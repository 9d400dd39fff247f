-- ===== src/Core/Validate/Minting.antt =====
-- Outputs beyond the inputs: what the checks of `ValidateTransaction` (core/validate.go) let through.
use abcfe.Base.{◌+◌, List, [], ◌∷◌, ◌++◌, ◌≡◌, refl, arith, u64_mod}
use abcfe.Core.Types.{TxInput, TxOutput, Transaction, Config}
use abcfe.Core.Crypto.{Crypto}
use abcfe.Core.Store.{LevelDb}
use abcfe.Core.Validate.{
  sum_outputs, validate_transfer, validate_all_tx_signatures, validate_tx_input_signature,
  calculate_tx_fee,
}
use abcfe.Core.Validate.Sums.{total_out-append, sum_outputs-total}

-- The transaction with two more outputs.
abbrev pub with_outputs : Transaction → TxOutput → TxOutput → Transaction
with_outputs tx a b = record tx { outputs = tx.outputs ++ (a ∷ b ∷ []) }

module _ (cfg : Config) (c : Crypto) (ldb : LevelDb) (db : ldb.Db) where
  signatures-outputs :
      (tx : Transaction) (a b : TxOutput) (is : List TxInput)
      → validate_all_tx_signatures cfg c ldb db (with_outputs tx a b) is
        ≡ validate_all_tx_signatures cfg c ldb db tx is
  unfolding validate_all_tx_signatures validate_tx_input_signature
  signatures-outputs tx a b [] = refl
  signatures-outputs tx a b (i ∷ is) = ground (arith, signatures-outputs tx a b is)

  sum_outputs-wraps :
      (tx : Transaction) (a b : TxOutput)
      → a.amount + b.amount ≡ u64_mod
      → sum_outputs 0 (tx.outputs ++ (a ∷ b ∷ [])) ≡ sum_outputs 0 tx.outputs
  sum_outputs-wraps tx a b h = omega (
    arith,
    sum_outputs-total 0 (tx.outputs ++ (a ∷ b ∷ [])),
    sum_outputs-total 0 tx.outputs,
    total_out-append tx.outputs (a ∷ b ∷ []),
  )

  -- The sums wrap at 2^64: two more outputs whose amounts add up to 2^64 change neither what the
  -- checks of the balance, the fee and the signatures say of a transaction, nor the fee that
  -- `CalculateTxFee` finds.
  pub validate_transfer-wraps :
      (tx : Transaction) (a b : TxOutput)
      → a.amount + b.amount ≡ u64_mod
      → (validate_transfer cfg c ldb db (with_outputs tx a b) ≡ validate_transfer cfg c ldb db tx)
        × (calculate_tx_fee cfg c ldb db (with_outputs tx a b) ≡ calculate_tx_fee cfg c ldb db tx)
  unfolding validate_transfer calculate_tx_fee
  validate_transfer-wraps tx a b h = (
    rw (sum_outputs-wraps tx a b h) (simp (signatures-outputs tx a b tx.inputs)),
    rw (sum_outputs-wraps tx a b h) refl,
  )
