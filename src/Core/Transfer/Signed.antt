-- ===== src/Core/Transfer/Signed.antt =====
-- What `CreateSignedTx` (core/transaction.go) collects and signs, and what the checks make of it.
use abcfe.Base.{
  ℕ, suc, ◌+◌, ◌≤◌, ◌<◌, List, [], ◌∷◌, some, Bool, true, leb, ◌≡◌, ◌≢◌, inl, inr, refl, arith,
  length, All, Bool-cases, u64_mod, add64,
}
use abcfe.Core.Types.{Hash, Address, Signature, Bytes, TxInput, Transaction, Utxo, Config}
use abcfe.Core.Errors.{ok}
use abcfe.Core.Crypto.{Crypto, bytes_to_public_key, public_key_to_address, verify_signature}
use abcfe.Core.Store.{utxo_key, of_utxo, found, LevelDb}
use abcfe.Core.Mempool.{Mempool}
use abcfe.Core.Utxo.{get_utxo}
use abcfe.Core.Utxo.Balance.{Spendable, total_amount}
use abcfe.Core.Validate.{
  erase_signatures, sum_inputs, sum_outputs, validate_all_tx_signatures,
  validate_tx_input_signature, validate_sums,
}
use abcfe.Core.Transfer.{
  Order, set_tx_input, set_tx_output, gather, pay, Signer, sign_inputs, validate_tx_signatures,
}

module _ (cfg : Config) (c : Crypto) (ldb : LevelDb) (db : ldb.Db) (a : Address) (key : Bytes) where
  open ldb use {Db, get}

  -- The input uses a stored output of the address, under the public key.
  pub record Mine (i : TxInput) : Type 0 where
    pub used : Utxo
    pub stored : get db (utxo_key i.tx_id i.output_index) ≡ found (of_utxo used)
    pub owner : used.tx_out.address ≡ a
    pub under : i.public_key ≡ key

  -- What the loop over the outputs collects, from `total` on.
  pub record Gathered (need total : ℕ) (us : List Utxo) (is : List TxInput) (sum : ℕ) : Type 0 where
    pub summed : sum_inputs cfg c ldb db total is ≡ ok sum
    pub most : sum ≤ total + total_amount us
    pub enough : need ≤ total + total_amount us → need ≤ sum
    pub grows : length is ≡ 0 → sum ≡ total
    pub bare : erase_signatures is ≡ is
    pub mine : All Mine is

  pub gather-Gathered :
      (m : Mempool) (check : Bool) (need total : ℕ) (us : List Utxo)
      → All (Spendable ldb db m a check) us
      → total + total_amount us < u64_mod
      → Gathered need total us (gather key need total us).0 (gather key need total us).1
  unfolding gather sum_inputs set_tx_input
  gather-Gathered m check need total [] s lt = record {
    summed = refl;
    most = omega arith;
    enough = λ h. omega arith;
    grows = λ h. refl;
    bare = refl;
    mine = tt;
  }
  gather-Gathered m check need total (u ∷ us) s lt =
      let rest = gather-Gathered m check need (add64 total u.tx_out.amount) us s.1 (omega arith) in
      elim (Bool-cases (leb need total)) [
        | inl done ↦ rw done (record {
          summed = refl;
          most = omega arith;
          enough = λ h. ground (arith, done);
          grows = λ h. refl;
          bare = refl;
          mine = tt;
        })
        | inr more ↦ rw more (record {
          summed = ground (arith, s.0.stored, s.0.unspent, rest.summed);
          most = ground (arith, rest.most);
          enough = λ h. ground (arith, rest.enough);
          grows = λ h. omega arith;
          bare = ground (arith, rest.bare);
          mine = (
            record { used = u; stored = s.0.stored; owner = s.0.owner; under = refl },
            rest.mine,
          );
        })
      ]

  module _ (pk : c.PublicKey) (h : Hash) where
    -- The input has a signature of the hash too.
    pub record Signed (i : TxInput) : Type 0 where
      pub used : Utxo
      pub stored : get db (utxo_key i.tx_id i.output_index) ≡ found (of_utxo used)
      pub owner : used.tx_out.address ≡ a
      pub under : i.public_key ≡ key
      pub verified : verify_signature c pk h i.signature ≡ true

    pub sign_inputs-Signed :
        (k : Signer) (index : ℕ) (is : List TxInput)
        → ((n : ℕ) → (s : Signature) × (k.sign n h ≡ some s) × (verify_signature c pk h s ≡ true))
        → All Mine is
        → (js : List TxInput) × (sign_inputs k h index is ≡ ok js)
          × All Signed js
          × (erase_signatures js ≡ erase_signatures is)
          × (length js ≡ length is)
          × ((t : ℕ) → sum_inputs cfg c ldb db t js ≡ sum_inputs cfg c ldb db t is)
    unfolding sign_inputs sum_inputs
    sign_inputs-Signed k index [] signs mine = ([], refl, tt, refl, refl, λ t. refl)
    sign_inputs-Signed k index (i ∷ is) signs (p, mine) =
        let (s, e, v) = signs index in
        let (js, e', g, same, len, sums) = sign_inputs-Signed k (suc index) is signs mine in
        (
          record i { signature = s } ∷ js,
          ground (arith, e, e'),
          (
            record {
              used = p.used;
              stored = p.stored;
              owner = p.owner;
              under = p.under;
              verified = v;
            },
            g,
          ),
          ground (arith, same),
          ground (arith, len),
          λ t. ground (arith, p.stored, sums (add64 t p.used.tx_out.amount)),
        )

    pub Signed-accepted :
        (tx : Transaction) (is : List TxInput)
        → bytes_to_public_key c key ≡ some pk
        → public_key_to_address c pk ≡ a
        → length key ≢ 0
        → tx.id ≡ h
        → All Signed is
        → (validate_all_tx_signatures cfg c ldb db tx is ≡ ok tt)
          × (validate_tx_signatures cfg c ldb db h is ≡ ok tt)
    unfolding validate_all_tx_signatures validate_tx_input_signature validate_tx_signatures get_utxo
    Signed-accepted tx [] parse address n id s = (refl, refl)
    Signed-accepted tx (i ∷ is) parse address n id (s, ss) =
        let (all, again) = Signed-accepted tx is parse address n id ss in
        let parsed : bytes_to_public_key c i.public_key ≡ some pk = rw s.under parse in
        let some_key : length i.public_key ≢ 0 = rw s.under n in
        let here : verify_signature c pk tx.id i.signature ≡ true = rw id s.verified in
        (
          ground (arith, s.stored, s.owner, parsed, address, some_key, here, all),
          ground (arith, s.stored, s.owner, parsed, address, some_key, s.verified, again),
        )

  -- The sums of what is collected and what is paid differ by the fee.
  pub validate_sums-pay :
      (o : Order) (sum : ℕ)
      → o.amount + o.fee ≤ sum
      → sum < u64_mod
      → cfg.min_fee ≤ o.fee
      → validate_sums cfg c ldb sum (sum_outputs 0 (pay o sum)) ≡ ok tt
  unfolding validate_sums sum_outputs pay set_tx_output
  validate_sums-pay o sum le lt fee = ground arith
