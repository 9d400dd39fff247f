-- ===== src/Core/Types.antt =====
-- The data of core/transaction.go, core/block.go, core/utxo.go, core/type.go and protocol/type.go.
-- A `Hash`, an `Address` and a `Signature` are fixed arrays of bytes, which the code only compares
-- and copies: each is the number that its bytes write, and the zero array is 0. A Go string or
-- byte slice is its list of bytes; the nil slice and the empty one are the same list, since the
-- code makes nil into empty before it hashes (`SetTransferTx`, `CreateSignedTx`, `ValidateTxHash`).
use abcfe.Base.{ℕ, List, Bool, true, false, ◌≡◌, ◌↔◌, refl, [], ◌∷◌, ◌&&◌, ◌==◌, arith}
use abcfe.Base.Int.{ℤ}

abbrev pub Hash : Type 0
Hash = ℕ

abbrev pub Address : Type 0
Address = ℕ

abbrev pub Signature : Type 0
Signature = ℕ

abbrev pub Bytes : Type 0
Bytes = List ℕ

-- `==` on strings.
abbrev pub bytes_eq : Bytes → Bytes → Bool
bytes_eq [] [] = true
bytes_eq [] (b ∷ bs) = false
bytes_eq (a ∷ as') [] = false
bytes_eq (a ∷ as') (b ∷ bs) = a == b && bytes_eq as' bs

pub bytes_eq_iff : (as' bs : Bytes) → (bytes_eq as' bs ≡ true) ↔ (as' ≡ bs)
bytes_eq_iff [] [] = ground arith
bytes_eq_iff [] (b ∷ bs) = ground arith
bytes_eq_iff (a ∷ as') [] = ground arith
bytes_eq_iff (a ∷ as') (b ∷ bs) = ground (arith, bytes_eq_iff as' bs)

pub bytes_eq_self : (bs : Bytes) → bytes_eq bs bs ≡ true
bytes_eq_self bs = (bytes_eq_iff bs bs).1 refl

-- The transaction types, `iota` from 0.
pub data TxType : Type 0 where
  general staking unstaking coinbase etc : TxType

pub record TxInput : Type 0 where
  pub tx_id : Hash
  pub output_index : ℕ  -- uint64
  pub signature : Signature
  pub public_key : Bytes

pub record TxOutput : Type 0 where
  pub address : Address
  pub amount : ℕ  -- uint64
  pub tx_type : TxType

pub record Transaction : Type 0 where
  pub version : Bytes
  pub network_id : Bytes
  pub id : Hash
  pub timestamp : ℤ
  pub inputs : List TxInput
  pub outputs : List TxOutput
  pub memo : Bytes
  pub payload : Bytes  -- the field `Data`

pub record BlockHeader : Type 0 where
  pub hash : Hash
  pub prev_hash : Hash
  pub version : Bytes
  pub height : ℕ  -- uint64
  pub merkle_root : Hash
  pub timestamp : ℤ

pub record CommitSignature : Type 0 where
  pub validator_address : Address
  pub signature : Signature
  pub timestamp : ℤ

pub record Block : Type 0 where
  pub header : BlockHeader
  pub transactions : List Transaction
  pub proposer : Address
  pub signature : Signature
  pub commit_signatures : List CommitSignature

pub record Utxo : Type 0 where
  pub tx_id : Hash
  pub output_index : ℕ
  pub tx_out : TxOutput
  pub height : ℕ
  pub spent : Bool
  pub spent_height : ℕ

-- The parts of config/config.go that core/ reads.
pub record Config : Type 0 where
  pub network_id : Bytes
  pub transaction_version : Bytes
  pub protocol_version : Bytes
  pub min_fee : ℕ
  pub block_reward : ℕ
  pub max_memo_size : ℕ
  pub max_data_size : ℕ
  pub system_addresses : List Bytes
  pub system_balances : List ℕ
  pub genesis_timestamp : ℤ

abbrev pub max_txs_per_block : ℕ
max_txs_per_block = 100
