-- ===== src/Core/Validate/Sums.antt =====
-- The balance and the signatures of a transaction that `ValidateTransaction` (core/validate.go)
-- accepts.
use abcfe.Base.{
  ℕ, ◌+◌, ◌%◌, ◌≤◌, ◌<◌, List, [], ◌∷◌, ◌++◌, some, true, false, ◌≡◌, ◌≢◌, arith, u64_mod, add64,
}
use abcfe.Core.Types.{TxInput, TxOutput, Transaction, Utxo, Config}
use abcfe.Core.Errors.{ok, >>=-eq-ok, >>-eq-ok}
use abcfe.Core.Crypto.{Crypto, bytes_to_public_key, public_key_to_address, verify_signature}
use abcfe.Core.Store.{utxo_key, of_utxo, found, LevelDb}
use abcfe.Core.Utxo.Balance.{total_amount}
use abcfe.Core.Validate.{
  sum_inputs, sum_outputs, validate_sums, validate_transfer, validate_transaction,
  validate_all_tx_signatures, validate_tx_input_signature,
}

-- The sum of the outputs, as numbers that do not wrap.
abbrev pub total_out : List TxOutput → ℕ
total_out [] = 0
total_out (o ∷ os) = o.amount + total_out os

pub sum_outputs-total :
    (sum : ℕ) (os : List TxOutput)
    → sum < u64_mod
    → sum_outputs sum os ≡ (sum + total_out os) % u64_mod
unfolding sum_outputs
sum_outputs-total sum [] h = omega arith
sum_outputs-total sum (o ∷ os) h =
    omega (arith, sum_outputs-total ((sum + o.amount) % u64_mod) os (omega arith))

pub total_out-append : (os ps : List TxOutput) → total_out (os ++ ps) ≡ total_out os + total_out ps
total_out-append [] ps = omega arith
total_out-append (o ∷ os) ps = omega (arith, total_out-append os ps)

module _ (cfg : Config) (c : Crypto) (ldb : LevelDb) (db : ldb.Db) where
  open ldb use {Db, get}

  -- The inputs refer, one by one, to these stored and unspent outputs.
  abbrev pub Spends : List TxInput → List Utxo → Type 0
  Spends [] [] = Unit
  Spends [] (u ∷ us) = ⊥
  Spends (i ∷ is) [] = ⊥
  Spends (i ∷ is) (u ∷ us) =
      (get db (utxo_key i.tx_id i.output_index) ≡ found (of_utxo u))
      × (u.spent ≡ false)
      × Spends is us

  -- The input shows a public key of the owner of the output, and a signature by it.
  abbrev pub Authorised : Transaction → List TxInput → List Utxo → Type 0
  Authorised tx [] us = Unit
  Authorised tx (i ∷ is) [] = ⊥
  Authorised tx (i ∷ is) (u ∷ us) =
      ((key : c.PublicKey) × (bytes_to_public_key c i.public_key ≡ some key)
        × (public_key_to_address c key ≡ u.tx_out.address)
        × (verify_signature c key tx.id i.signature ≡ true))
      × Authorised tx is us

  pub sum_inputs-Spends :
      (sum : ℕ) (is : List TxInput) {n : ℕ}
      → sum < u64_mod
      → sum_inputs cfg c ldb db sum is ≡ ok n
      → (us : List Utxo) × Spends is us × (n ≡ (sum + total_amount us) % u64_mod)
  unfolding sum_inputs
  sum_inputs-Spends sum [] lt h = ([], tt, ground arith)
  sum_inputs-Spends sum (i ∷ is) {n} lt h =
      let (u, e, un, h') = step in
      let (us, s, e') = sum_inputs-Spends ((sum + u.tx_out.amount) % u64_mod) is (omega arith) h' in
      (u ∷ us, (e, un, s), omega (arith, e'))
    where
      step :
          (u : Utxo) × (get db (utxo_key i.tx_id i.output_index) ≡ found (of_utxo u))
          × (u.spent ≡ false)
          × (sum_inputs cfg c ldb db (add64 sum u.tx_out.amount) is ≡ ok n)
      step = ground arith

  all_signatures-Authorised :
      (tx : Transaction) (is : List TxInput) (us : List Utxo)
      → Spends is us
      → validate_all_tx_signatures cfg c ldb db tx is ≡ ok tt
      → Authorised tx is us
  unfolding validate_all_tx_signatures validate_tx_input_signature
  all_signatures-Authorised tx [] us s h = tt
  all_signatures-Authorised tx (i ∷ is) [] s h = s
  all_signatures-Authorised tx (i ∷ is) (u ∷ us) s h =
      (ground (arith, s.0), all_signatures-Authorised tx is us s.2 (ground (arith, s.0)))

  transfer-parts :
      (tx : Transaction)
      → validate_transfer cfg c ldb db tx ≡ ok tt
      → (n : ℕ) × (sum_inputs cfg c ldb db 0 tx.inputs ≡ ok n)
        × (validate_sums cfg c ldb n (sum_outputs 0 tx.outputs) ≡ ok tt)
        × (validate_all_tx_signatures cfg c ldb db tx tx.inputs ≡ ok tt)
  unfolding validate_transfer
  transfer-parts tx h =
      let (n, e, h') = >>=-eq-ok (sum_inputs cfg c ldb db 0 tx.inputs) _ h in
      let (e', e'') = >>-eq-ok (validate_sums cfg c ldb n (sum_outputs 0 tx.outputs)) _ h' in
      (n, e, e', e'')

  pub transaction-transfer :
      (tx : Transaction)
      → tx.inputs ≢ []
      → validate_transaction cfg c ldb db tx ≡ ok tt
      → validate_transfer cfg c ldb db tx ≡ ok tt
  unfolding validate_transaction
  transaction-transfer tx n h = ground (arith, n)

  -- What an accepted transaction with inputs is: it spends stored and unspent outputs, each by its
  -- owner, and where the sums fit in 64 bits it pays out at most what it spends less the minimum
  -- fee.
  pub record Transfers (tx : Transaction) (us : List Utxo) : Type 0 where
    pub spends : Spends tx.inputs us
    pub authorised : Authorised tx tx.inputs us
    pub conserves :
        total_amount us < u64_mod
        → total_out tx.outputs < u64_mod
        → total_out tx.outputs + cfg.min_fee ≤ total_amount us

  -- `ValidateTransaction` accepts a transaction with inputs only if it spends outputs that are
  -- stored and unspent, shows for each a public key of its owner and a signature of the ID by that
  -- key, and, where neither sum reaches 2^64, pays the minimum fee from what it spends.
  pub validate_transaction-Transfers :
      (tx : Transaction)
      → tx.inputs ≢ []
      → validate_transaction cfg c ldb db tx ≡ ok tt
      → (us : List Utxo) × Transfers tx us
  unfolding validate_sums
  validate_transaction-Transfers tx ne h =
      let (n, e, e', e'') = transfer-parts tx (transaction-transfer tx ne h) in
      let (us, s, en) = sum_inputs-Spends 0 tx.inputs (omega arith) e in
      (
        us,
        record {
          spends = s;
          authorised = all_signatures-Authorised tx tx.inputs us s e'';
          conserves = λ small small'. ground (arith, e', en, sum_outputs-total 0 tx.outputs);
        },
      )
