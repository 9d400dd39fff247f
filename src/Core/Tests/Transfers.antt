-- ===== src/Core/Tests/Transfers.antt =====
-- The genesis block and the building of transactions, applied to the small chain.
use abcfe.Base.{ℕ, [], ◌∷◌, none, some, true, ◌≡◌, refl, inl, arith}
use abcfe.Base.Int.{pos}
use abcfe.Core.Types.{Hash, Bytes, general, Transaction, Block, Utxo, Config}
use abcfe.Core.Errors.{ok}
use abcfe.Core.Crypto.{bytes_to_public_key, public_key_to_address, verify_signature}
use abcfe.Core.Store.{utxo_list_key, AddrUtxoSet, of_utxo_list, found}
use abcfe.Core.Chain.{add_block}
use abcfe.Core.Mempool.{is_on_mempool}
use abcfe.Base.Text.{codes}
use abcfe.Core.Utxo.{get_utxo_list, fresh_utxo}
use abcfe.Core.Validate.{validate_block, validate_transaction}
use abcfe.Core.Genesis.{
  Hex, string_to_address, genesis_outputs, set_genesis_txs, genesis_block, set_genesis_block,
  set_genesis_block-valid,
}
use abcfe.Core.Transfer.{Order, Signer, create_signed_tx, validate_tx_signatures}
use abcfe.Core.Transfer.Accepted.{create_signed_tx-valid}
use abcfe.Core.Tests.{settings, toy, memory, owner_signature, pays, started}
use abcfe.Core.Tests.Blocks.{started-IsIndexed}

-- 20 bytes, of which the first is the address.
abbrev twenty : ℕ → Bytes
twenty a = a ∷ 0 ∷ 0 ∷ 0 ∷ 0 ∷ 0 ∷ 0 ∷ 0 ∷ 0 ∷ 0 ∷ 0 ∷ 0 ∷ 0 ∷ 0 ∷ 0 ∷ 0 ∷ 0 ∷ 0 ∷ 0 ∷ 0 ∷ []

abbrev first_byte : Bytes → ℕ
first_byte [] = 0
first_byte (b ∷ bs) = b

abbrev pub hex : Hex
hex = record { decode = λ s. some s; to_address = first_byte }

-- Two addresses, one of them behind 0x.
abbrev site : Config
site = record settings {
  system_addresses = (48 ∷ 120 ∷ twenty 7) ∷ twenty 8 ∷ [];
  system_balances = 100 ∷ 40 ∷ [];
}

abbrev grant : Transaction
grant = record {
  version = 2 ∷ [];
  network_id = [];
  id = 750;
  timestamp = pos 5;
  inputs = [];
  outputs = pays 7 100 ∷ pays 8 40 ∷ [];
  memo = codes "ABCFE Chain Genesis Block";
  payload = [];
}

abbrev origin : Block
origin = genesis_block site toy hex (pos 5) (grant ∷ [])

origin_lem : set_genesis_block site toy hex (pos 5) ≡ ok origin
unfolding set_genesis_block set_genesis_txs genesis_outputs string_to_address
origin_lem = refl

set_genesis_block-valid_example :
    (origin.header.height ≡ 0)
    × (validate_block site toy memory started.db none (pos 0) origin true ≡ ok tt)
set_genesis_block-valid_example =
    set_genesis_block-valid site toy hex memory started.db none (pos 0) (pos 5) true origin
      origin_lem

abbrev order : Order
order = record {
  from = 7;
  to = 8;
  amount = 60;
  fee = 1;
  memo = [];
  payload = [];
  tx_type = general;
}

abbrev signer : Signer
signer = record { parses = true; sign = λ n h. some owner_signature }

abbrev owned : Utxo
owned = fresh_utxo 500 0 (pays 7 100) 0

abbrev listed : AddrUtxoSet
listed = record { tx = 500; index = 0 } ∷ []

listed_lem : started.db (utxo_list_key 7) ≡ found (of_utxo_list listed)
unfolding started add_block
listed_lem = refl

owned_lem : get_utxo_list memory started.db [] 7 true ≡ ok (owned ∷ [])
unfolding get_utxo_list started add_block is_on_mempool
owned_lem = refl

key_lem : bytes_to_public_key toy (7 ∷ []) ≡ some 7
unfolding bytes_to_public_key
key_lem = refl

address_lem : public_key_to_address toy 7 ≡ 7
unfolding public_key_to_address
address_lem = refl

verified_lem : (h : Hash) → verify_signature toy 7 h owner_signature ≡ true
unfolding verify_signature
verified_lem h = refl

create_signed_tx-valid_example :
    (tx : Transaction) × (create_signed_tx settings toy memory started.db []
        (pos 9)
        order
        signer
        (7 ∷ [])
      ≡ ok tx)
    × (validate_transaction settings toy memory started.db tx ≡ ok tt)
    × (validate_tx_signatures settings toy memory started.db tx.id tx.inputs ≡ ok tt)
create_signed_tx-valid_example =
    create_signed_tx-valid settings toy memory started.db [] (pos 9) order signer (7 ∷ []) 7 listed
      (owned ∷ []) started-IsIndexed listed_lem owned_lem (omega arith) (omega arith) (omega arith)
      (omega arith) (inl refl) (inl refl) key_lem address_lem refl
      (λ n h. (owner_signature, refl, verified_lem h))
