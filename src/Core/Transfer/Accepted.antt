-- ===== src/Core/Transfer/Accepted.antt =====
-- `CreateSignedTx` (core/transaction.go) against the checks of core/validate.go.
use abcfe.Base.{
  ℕ, ◌+◌, ◌≤◌, ◌<◌, List, [], ◌∷◌, some, true, subst, ◌∙◌, ◌≡◌, ◌≢◌, ◌⊎◌, refl, arith, length, All,
  u64_mod, sym, ap,
}
use abcfe.Base.Int.{ℤ}
use abcfe.Core.Types.{Hash, Signature, Bytes, bytes_eq, bytes_eq_iff, Transaction, Utxo, Config}
use abcfe.Core.Errors.{ok}
use abcfe.Core.Crypto.{Crypto, bytes_to_public_key, public_key_to_address, verify_signature}
use abcfe.Core.Store.{utxo_list_key, AddrUtxoSet, of_utxo_list, found, LevelDb}
use abcfe.Core.Mempool.{Mempool}
use abcfe.Core.Utxo.{get_utxo_list}
use abcfe.Core.Utxo.Balance.{
  All-unspent, Spendable, get_utxo_list-Answers, total_amount, cal_balance_utxo-total,
}
use abcfe.Core.Utxo.Invariant.{IsIndexed}
use abcfe.Core.Validate.{
  unsigned, erase_signatures, sum_inputs, sum_outputs, validate_all_tx_signatures, validate_sums,
  validate_transfer, validate_transaction, validate_tx_hash,
}
use abcfe.Core.Transfer.{
  Order, required, gather, pay, set_tx_io_pair, Signer, unsigned_tx, create_signed_tx,
  validate_tx_signatures,
}
use abcfe.Core.Transfer.Signed.{
  gather-Gathered, sign_inputs-Signed, Signed-accepted, validate_sums-pay,
}

key_some :
    (c : Crypto) (key : Bytes) {pk : c.PublicKey}
    → bytes_to_public_key c key ≡ some pk
    → length key ≢ 0
unfolding bytes_to_public_key
key_some c [] e = λ n. cc
key_some c (b ∷ bs) e = λ n. omega (arith, n)

-- What `ValidateTransaction` asks of a transaction with inputs.
validate_transaction-from :
    (cfg : Config) (c : Crypto) (ldb : LevelDb) (db : ldb.Db) (tx : Transaction) (sum : ℕ)
    → tx.id ≡ c.hash_tx (unsigned tx)
    → tx.network_id ≡ cfg.network_id
    → (cfg.max_memo_size ≡ 0) ⊎ (length tx.memo ≤ cfg.max_memo_size)
    → (cfg.max_data_size ≡ 0) ⊎ (length tx.payload ≤ cfg.max_data_size)
    → length tx.inputs ≢ 0
    → sum_inputs cfg c ldb db 0 tx.inputs ≡ ok sum
    → validate_sums cfg c ldb sum (sum_outputs 0 tx.outputs) ≡ ok tt
    → validate_all_tx_signatures cfg c ldb db tx tx.inputs ≡ ok tt
    → validate_transaction cfg c ldb db tx ≡ ok tt
unfolding validate_transaction validate_tx_hash validate_transfer
validate_transaction-from cfg c ldb db tx sum hash network memo size some_input summed paid valid =
    let same : bytes_eq tx.network_id cfg.network_id ≡ true =
      rw network ((bytes_eq_iff cfg.network_id cfg.network_id).1 refl) in
    ground (arith, hash, same, memo, size, some_input, summed, paid, valid)

-- On a database whose lists are an index: if the spendable outputs of the sender, which do not wrap
-- around as a sum, cover a positive sum of amount and fee, the fee is at least the minimum, memo
-- and data are not too long where they are limited, the public key parses and is of the sender's
-- address, and the private key parses and makes signatures that verify under it, then
-- `CreateSignedTx` makes a transaction, and `ValidateTransaction` and `ValidateTxSignatures` accept
-- it.
pub create_signed_tx-valid :
    (cfg : Config) (c : Crypto) (ldb : LevelDb) (db : ldb.Db) (m : Mempool) (now : ℤ) (o : Order)
    (k : Signer) (key : Bytes) (pk : c.PublicKey) (l : AddrUtxoSet) (us : List Utxo)
    → IsIndexed (ldb.get db)
    → ldb.get db (utxo_list_key o.from) ≡ found (of_utxo_list l)
    → get_utxo_list ldb db m o.from true ≡ ok us
    → total_amount us < u64_mod
    → o.amount + o.fee ≤ total_amount us
    → 0 < o.amount + o.fee
    → cfg.min_fee ≤ o.fee
    → (cfg.max_memo_size ≡ 0) ⊎ (length o.memo ≤ cfg.max_memo_size)
    → (cfg.max_data_size ≡ 0) ⊎ (length o.payload ≤ cfg.max_data_size)
    → bytes_to_public_key c key ≡ some pk
    → public_key_to_address c pk ≡ o.from
    → k.parses ≡ true
    → ((n : ℕ) (h : Hash)
        → (s : Signature) × (k.sign n h ≡ some s) × (verify_signature c pk h s ≡ true))
    → (tx : Transaction) × (create_signed_tx cfg c ldb db m now o k key ≡ ok tx)
      × (validate_transaction cfg c ldb db tx ≡ ok tt)
      × (validate_tx_signatures cfg c ldb db tx.id tx.inputs ≡ ok tt)
unfolding create_signed_tx set_tx_io_pair
create_signed_tx-valid cfg c ldb db m now o k key pk l us inv e h lt le pos' fee memo size parse
      address parses signs =
    let (us', h', answers) = get_utxo_list-Answers ldb db m o.from true l inv e in
    let same : us' ≡ us = ground (arith, h, h') in
    let spendable = subst (λ v. All (Spendable ldb db m o.from true) v) same answers.all in
    let unspent = All-unspent ldb db m o.from true us spendable in
    let balance = cal_balance_utxo-total us unspent lt in
    let need = required o in
    let found' = gather key need 0 us in
    let g =
      gather-Gathered cfg c ldb db o.from key m true need 0 us spendable (omega (arith, lt)) in
    let tx = unsigned_tx cfg c ldb now o found'.0 (pay o found'.1) in
    let (js, signed, good, erased, len, sums) =
      sign_inputs-Signed cfg c ldb db o.from key pk tx.id k 0 found'.0 (λ n. signs n tx.id)
        g.mine in
    let needs : need ≡ o.amount + o.fee = omega (arith, le, lt) in
    let covered : o.amount + o.fee ≤ found'.1 =
      omega (arith, g.enough (omega (arith, needs, le)), needs) in
    let fits : found'.1 < u64_mod = omega (arith, g.most, lt) in
    let has_inputs : length js ≢ 0 =
      λ z. omega (arith, g.grows (omega (arith, z, len)), covered, pos') in
    let paid = validate_sums-pay cfg c ldb db o.from key o found'.1 covered fits fee in
    let bare : erase_signatures js ≡ found'.0 = erased ∙ g.bare in
    let summed : sum_inputs cfg c ldb db 0 js ≡ ok found'.1 = sums 0 ∙ g.summed in
    let result = record tx { inputs = js } in
    let (valid, again) =
      Signed-accepted cfg c ldb db o.from key pk tx.id result js parse address
        (key_some c key parse) refl good in
    (
      result,
      ground (arith, h, balance, needs, le, covered, parses, signed),
      validate_transaction-from cfg c ldb db result found'.1
          (ap (λ is. c.hash_tx (record tx { id = 0; inputs = is })) (sym bare)) refl memo size
          has_inputs summed paid valid,
      again,
    )
