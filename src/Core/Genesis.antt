-- ===== src/Core/Genesis.antt =====
-- core/genesis.go. The addresses of the configuration are decoded by `hex.DecodeString`, a parameter.
use abcfe.Base.{
  ℕ, List, [], ◌∷◌, Option, none, some, Bool, ◌==◌, ◌&&◌, if◌then◌else◌, length, ◌≡◌, arith, inl,
  inr,
}
use abcfe.Base.Int.{ℤ, pos, negsuc}
use abcfe.Core.Types.{Address, Bytes, general, TxOutput, Transaction, BlockHeader, Block, Config}
use abcfe.Core.Errors.{
  Result, ok, guard, or_fail, ◌>>=◌, ◌>>◌, Result-cases, genesis_count, bad_system_address,
}
use abcfe.Core.Crypto.{Crypto}
use abcfe.Core.Merkle.{calculate_merkle_root}
use abcfe.Base.Text.{codes}
use abcfe.Core.Store.{LevelDb}
use abcfe.Core.Validate.{
  validate_block, validate_genesis_block, validate_merkle_root, validate_block_hash,
  ProposerValidator,
}

-- What `StringToAddress` (common/utils/converter.go) does without its prefix: 20 bytes are an address.
pub record Hex : Type 0 where
  pub decode : Bytes → Option Bytes
  pub to_address : Bytes → Address  -- the number that 20 bytes write

abbrev pub drop_prefix : Bytes → Bytes
drop_prefix (a ∷ b ∷ s) = if a == 48 && b == 120 then s else a ∷ b ∷ s
drop_prefix s = s

unfoldable pub string_to_address : Hex → Bytes → Option Address
string_to_address hex s = elim (hex.decode (drop_prefix s)) [
  | none ↦ none
  | some bytes ↦ if length bytes == 20 then some (hex.to_address bytes) else none
]

-- The loop over the addresses; the balances are as many.
unfoldable pub genesis_outputs : Hex → List Bytes → List ℕ → Result (List TxOutput)
unfolding string_to_address
genesis_outputs hex (a ∷ as') (b ∷ bs) = do
  address ← or_fail (string_to_address hex a) bad_system_address
  rest ← genesis_outputs hex as' bs
  ok (record { address = address; amount = b; tx_type = general } ∷ rest)
genesis_outputs hex _ _ = ok []

module _ (cfg : Config) (c : Crypto) (hex : Hex) where
  -- `setGenesisTxs`: there is one transaction, of no network.
  unfoldable pub set_genesis_txs : ℤ → Result (List Transaction)
  unfolding genesis_outputs
  set_genesis_txs time = do
    guard (length cfg.system_addresses == length cfg.system_balances) genesis_count
    outs ← genesis_outputs hex cfg.system_addresses cfg.system_balances
    let tx : Transaction = record {
      version = cfg.transaction_version;
      network_id = [];
      id = 0;
      timestamp = time;
      inputs = [];
      outputs = outs;
      memo = codes "ABCFE Chain Genesis Block";
      payload = [];
    }
    ok (record tx { id = c.hash_tx tx } ∷ [])

  -- The block over the transactions, with its hash.
  unfoldable pub genesis_block : ℤ → List Transaction → Block
  genesis_block time txs =
      let header : BlockHeader = record {
        hash = 0;
        prev_hash = 0;
        version = cfg.protocol_version;
        height = 0;
        merkle_root = calculate_merkle_root c txs;
        timestamp = time;
      } in
      record {
        header = record header { hash = c.hash_header header };
        transactions = txs;
        proposer = 0;
        signature = 0;
        commit_signatures = [];
      }

  -- The time of the configuration or, where that is 0, of the clock.
  abbrev pub genesis_time : ℤ → ℤ → ℤ
  genesis_time now (pos n) = if n == 0 then now else pos n
  genesis_time now (negsuc n) = negsuc n

  -- `SetGenesisBlock`, at a time of the clock
  unfoldable pub set_genesis_block : ℤ → Result Block
  unfolding set_genesis_txs genesis_block
  set_genesis_block now = do
    let time = genesis_time now cfg.genesis_timestamp
    txs ← set_genesis_txs time
    ok (genesis_block time txs)

  -- The block that `SetGenesisBlock` makes is at height 0, and `ValidateBlock` accepts it on whatever
  -- database, whoever validates and whatever the clock says at either time.
  pub set_genesis_block-valid :
      (ldb : LevelDb) (db : ldb.Db) (validator : Option ProposerValidator) (now made : ℤ)
      (check : Bool) (blk : Block)
      → set_genesis_block made ≡ ok blk
      → (blk.header.height ≡ 0) × (validate_block cfg c ldb db validator now blk check ≡ ok tt)
  unfolding set_genesis_block genesis_block validate_block validate_genesis_block
      validate_merkle_root validate_block_hash
  set_genesis_block-valid ldb db validator now made check blk h =
      elim (Result-cases (set_genesis_txs (genesis_time made cfg.genesis_timestamp))) [
        | inl (txs, e) ↦ ground (arith, h, e)
        | inr (x, e) ↦ ground (arith, h, e)
      ]
