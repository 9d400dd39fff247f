-- ===== src/Core/Transfer.antt =====
-- The transactions that core/transaction.go builds, and what it reads of stored ones.
pub mod Signed
pub mod Accepted
use abcfe.Base.{
  ℕ, zero, suc, ◌+◌, ◌-◌, List, [], ◌∷◌, ◌++◌, Option, none, some, Bool, true, false, not, ◌==◌,
  ltb, leb, if◌then◌else◌, length, add64,
}
use abcfe.Base.Int.{ℤ}
use abcfe.Core.Types.{
  Hash, Address, Signature, Bytes, TxInput, TxOutput, TxType, Transaction, Block, Utxo, Config,
}
use abcfe.Core.Errors.{
  Result, ok, err, guard, or_fail, ◌>>=◌, ◌>>◌, not_enough_balance, bad_private_key, signing_failed,
  empty_public_key, bad_public_key, invalid_signature, not_the_owner, db_failure, undecodable,
}
use abcfe.Core.Crypto.{Crypto, bytes_to_public_key, public_key_to_address, verify_signature}
use abcfe.Core.Store.{
  Key, tx_key, tx_block_key, tx_inputs_key, tx_input_key, tx_outputs_key, tx_output_key, Value,
  of_tx, of_inputs, of_input, of_outputs, of_output, LevelDb,
}
use abcfe.Core.Mempool.{Mempool, new_transaction}
use abcfe.Core.Utxo.{require, get_utxo_list, get_utxo, cal_balance_utxo}
use abcfe.Core.Validate.{Check, as_hash, get_block_by_height}

-- What is asked for: `to` gets `amount`, and `fee` is left over.
pub record Order : Type 0 where
  pub from : Address
  pub to : Address
  pub amount : ℕ  -- uint64
  pub fee : ℕ  -- uint64
  pub memo : Bytes
  pub payload : Bytes
  pub tx_type : TxType

-- `requiredAmount`
abbrev pub required : Order → ℕ
required o = add64 o.amount o.fee

-- `setTxInput`, and the input that `CreateSignedTx` makes
unfoldable pub set_tx_input : Utxo → Bytes → TxInput
set_tx_input u key = record {
  tx_id = u.tx_id;
  output_index = u.output_index;
  signature = 0;
  public_key = key;
}

-- `setTxOutput`
unfoldable pub set_tx_output : Address → ℕ → TxType → TxOutput
set_tx_output to amount type = record { address = to; amount = amount; tx_type = type }

-- The loop over the outputs of the sender, from the total so far: it stops when that is enough.
unfoldable pub gather : Bytes → ℕ → ℕ → List Utxo → List TxInput × ℕ
unfolding set_tx_input
gather key need total [] = ([], total)
gather key need total (u ∷ us) =
    let (is, sum) = gather key need (add64 total u.tx_out.amount) us in
    if leb need total then ([], total) else (set_tx_input u key ∷ is, sum)

-- The outputs: the payment, and the change if there is any.
unfoldable pub pay : Order → ℕ → List TxOutput
unfolding set_tx_output
pay o total =
    set_tx_output o.to o.amount o.tx_type
    ∷ (if ltb (required o) total
        then set_tx_output o.from (total - required o) o.tx_type ∷ []
        else [])

-- `setTxIOPair`, with the public key that goes into the inputs
unfoldable pub set_tx_io_pair : Bytes → List Utxo → Order → Result (List TxInput × List TxOutput)
unfolding gather pay
set_tx_io_pair key us o =
    let (is, total) = gather key (required o) 0 us in
    guard (not (ltb total (required o))) not_enough_balance >> ok (is, pay o total)

-- The signing of `CreateSignedTx`: whether the private key parses, and the signature of the hash for
-- each input, which is another one each time.
pub record Signer : Type 0 where
  pub parses : Bool
  pub sign : ℕ → Hash → Option Signature

-- The loop that signs the inputs, from an index on.
unfoldable pub sign_inputs : Signer → Hash → ℕ → List TxInput → Result (List TxInput)
sign_inputs k h index [] = ok []
sign_inputs k h index (i ∷ is) = do
  s ← or_fail (k.sign index h) signing_failed
  rest ← sign_inputs k h (suc index) is
  ok (record i { signature = s } ∷ rest)

abbrev pub as_tx : Value → Option Transaction
as_tx (of_tx t) = some t
as_tx _ = none

abbrev pub as_inputs : Value → Option (List TxInput)
as_inputs (of_inputs l) = some l
as_inputs _ = none

abbrev pub as_input : Value → Option TxInput
as_input (of_input i) = some i
as_input _ = none

abbrev pub as_outputs : Value → Option (List TxOutput)
as_outputs (of_outputs l) = some l
as_outputs _ = none

abbrev pub as_output : Value → Option TxOutput
as_output (of_output o) = some o
as_output _ = none

module _ (cfg : Config) (c : Crypto) (ldb : LevelDb) where
  open ldb use {Db, get}

  -- The transaction over these inputs and outputs, with its ID.
  abbrev pub unsigned_tx : ℤ → Order → List TxInput → List TxOutput → Transaction
  unsigned_tx now o is os =
      let tx : Transaction = record {
        version = cfg.transaction_version;
        network_id = cfg.network_id;
        id = 0;
        timestamp = now;
        inputs = is;
        outputs = os;
        memo = o.memo;
        payload = o.payload;
      } in
      record tx { id = c.hash_tx tx }

  -- `SetTransferTx`
  unfoldable pub set_transfer_tx : Db → Mempool → ℤ → Order → Result Transaction
  unfolding set_tx_io_pair
  set_transfer_tx db m now o = do
    us ← get_utxo_list ldb db m o.from true
    guard (not (ltb (cal_balance_utxo us) (required o))) not_enough_balance
    (is, os) ← set_tx_io_pair [] us o
    ok (unsigned_tx now o is os)

  -- `SubmitTx`
  unfoldable pub submit_tx : Db → Mempool → ℤ → Order → Result Mempool
  unfolding set_transfer_tx
  submit_tx db m now o = do
    us ← get_utxo_list ldb db m o.from true
    guard (not (ltb (cal_balance_utxo us) (required o))) not_enough_balance
    tx ← set_transfer_tx db m now o
    new_transaction m tx

  -- `CreateSignedTx`
  unfoldable pub create_signed_tx : Db → Mempool → ℤ → Order → Signer → Bytes → Result Transaction
  unfolding set_tx_io_pair sign_inputs
  create_signed_tx db m now o k key = do
    us ← get_utxo_list ldb db m o.from true
    guard (not (ltb (cal_balance_utxo us) (required o))) not_enough_balance
    (is, os) ← set_tx_io_pair key us o
    let tx = unsigned_tx now o is os
    guard k.parses bad_private_key
    signed ← sign_inputs k tx.id 0 is
    ok (record tx { inputs = signed })

  -- The loop of `ValidateTxSignatures`, which is left at once where there is no input.
  unfoldable pub validate_tx_signatures : Db → Hash → List TxInput → Check
  validate_tx_signatures db id [] = ok tt
  validate_tx_signatures db id (i ∷ is) = do
    guard (not (length i.public_key == 0)) empty_public_key
    key ← or_fail (bytes_to_public_key c i.public_key) bad_public_key
    guard (verify_signature c key id i.signature) invalid_signature
    u ← get_utxo ldb db i.tx_id i.output_index
    guard (public_key_to_address c key == u.tx_out.address) not_the_owner
    validate_tx_signatures db id is

  -- `GetTx`, `GetBlockHashByTxId`, `GetInputTx`, `GetOutputTx`, `GetInputTxByIdx`, `GetOutputTxByIdx`
  unfoldable pub get_tx : Db → Hash → Result Transaction
  get_tx db id = require (get db (tx_key id)) db_failure >>= λ v. or_fail (as_tx v) undecodable

  unfoldable pub get_block_hash_by_tx_id : Db → Hash → Result Hash
  get_block_hash_by_tx_id db id =
      require (get db (tx_block_key id)) db_failure >>= λ v. or_fail (as_hash v) undecodable

  unfoldable pub get_input_tx : Db → Hash → Result (List TxInput)
  get_input_tx db id =
      require (get db (tx_inputs_key id)) db_failure >>= λ v. or_fail (as_inputs v) undecodable

  unfoldable pub get_output_tx : Db → Hash → Result (List TxOutput)
  get_output_tx db id =
      require (get db (tx_outputs_key id)) db_failure >>= λ v. or_fail (as_outputs v) undecodable

  unfoldable pub get_input_tx_by_idx : Db → Hash → ℕ → Result TxInput
  get_input_tx_by_idx db id index =
      require (get db (tx_input_key id index)) db_failure >>= λ v. or_fail (as_input v) undecodable

  unfoldable pub get_output_tx_by_idx : Db → Hash → ℕ → Result TxOutput
  get_output_tx_by_idx db id index = require (get db (tx_output_key id index)) db_failure >>= λ v.
      or_fail (as_output v) undecodable
