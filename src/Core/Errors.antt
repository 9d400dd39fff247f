-- ===== src/Core/Errors.antt =====
-- The `error` values of core/, consensus/, wallet/ and api/, one constructor for each message, and the results that carry them.
use abcfe.Base.{◌≡◌, refl, Bool, true, false, Option, none, some, ◌⊎◌, inl, inr}

pub data Error : Type 0 where
  -- validate.go
  prev_hash_mismatch merkle_mismatch block_hash_mismatch height_not_continuous : Error
  timestamp_before_prev timestamp_in_future too_many_txs duplicate_tx duplicate_utxo : Error
  empty_proposer invalid_proposer invalid_proposer_signature commit_rejected : Error
  prev_block_missing genesis_height genesis_prev_hash : Error
  network_mismatch memo_too_long data_too_long utxo_not_found utxo_undecodable utxo_spent : Error
  insufficient_input fee_too_low coinbase_has_inputs coinbase_no_outputs coinbase_zero : Error
  tx_hash_mismatch empty_public_key bad_public_key not_the_owner invalid_signature : Error
  -- utxo.go, block.go, blockchain.go, transaction.go, mempool.go, genesis.go
  db_failure undecodable list_missing tx_exists not_enough_balance write_failed : Error
  bad_height bad_private_key signing_failed no_blocks genesis_count bad_system_address : Error
  -- consensus/
  staker_missing insufficient_stake bad_commit_signature insufficient_commits : Error
  -- wallet/, and a panic of the run time
  entropy_failed mnemonic_failed invalid_mnemonic wallet_missing no_accounts : Error
  invalid_account_index key_missing bad_key key_not_marshalled : Error
  wallet_dir_failed wallet_write_failed wallet_dir_missing wallet_read_failed : Error
  panics : Error
  -- api/
  invalid_request not_initialized : Error

-- A value and a nil error, or an error.
pub data Result {ℓ} (S : Type ℓ) : Type ℓ where
  err : Error → Result S
  ok : S → Result S

-- `if !c { return e }`
abbrev pub guard : Bool → Error → Result (Unit {0})
guard false why = err why
guard true why = ok tt

-- `if err != nil { return err }` after a call, with its value or without.
infixl 5 ◌>>=◌ ◌>>◌
abbrev pub ◌>>=◌ {ℓ κ} : {S : Type ℓ} {T : Type κ} → Result S → (S → Result T) → Result T
err why >>= next = err why
ok s >>= next = next s

abbrev pub ◌>>◌ {κ} : {T : Type κ} → Result (Unit {0}) → Result T → Result T
first >> rest = first >>= λ _. rest

abbrev pub or_fail {ℓ} : {A : Type ℓ} → Option A → Error → Result A
or_fail none e = err e
or_fail (some a) e = ok a

-- `if err != nil { return fmt.Errorf(...) }`: another message in place of the callee's.
abbrev pub relabel {ℓ} : {A : Type ℓ} → Result A → Error → Result A
relabel (ok a) e = ok a
relabel (err _) e = err e

pub Result-cases {ℓ} :
    {A : Type ℓ} (r : Result A) → ((a : A) × (r ≡ ok a)) ⊎ ((e : Error) × (r ≡ err e))
Result-cases (ok a) = inl (a, refl)
Result-cases (err e) = inr (e, refl)

-- A chain that succeeds has a first step that succeeds.
pub >>-eq-ok {ℓ} :
    {T : Type ℓ} (first : Result (Unit {0})) (rest : Result T) {t : T}
    → (first >> rest) ≡ ok t
    → (first ≡ ok tt) × (rest ≡ ok t)
>>-eq-ok (err why) rest h = cc
>>-eq-ok (ok tt) rest h = (refl, h)

pub >>=-eq-ok {κ ℓ} :
    {S : Type κ} {T : Type ℓ} (call : Result S) (next : S → Result T) {t : T}
    → (call >>= next) ≡ ok t
    → (s : S) × (call ≡ ok s) × (next s ≡ ok t)
>>=-eq-ok (err why) next h = cc
>>=-eq-ok (ok s) next h = (s, refl, h)

pub guard-eq-ok : (b : Bool) (e : Error) → guard b e ≡ ok tt → b ≡ true
guard-eq-ok true e h = refl
guard-eq-ok false e h = cc
