-- ===== src/Core/Tests.antt =====
-- A small chain on which the properties of core/ are applied: the genesis block pays 100 to
-- address 7, whose owner sends 60 of it to address 8 in block 1.
pub mod Blocks
pub mod Parts
pub mod Proposals
pub mod Transfers
use abcfe.Base.{
  ℕ, ◌+◌, ◌*◌, ◌^◌, List, [], ◌∷◌, ◌++◌, Option, none, some, Bool, true, false, ◌≡◌, ◌↔◌, refl, ◌⊎◌,
  arith, length, NoRepeat, u64_mod, ap, sym,
}
use abcfe.Base.Assoc.{values}
use abcfe.Base.Int.{ℤ, pos}
use abcfe.Core.Types.{
  Hash, Address, Bytes, coinbase, general, TxInput, TxOutput, Transaction, BlockHeader, Block, Utxo,
  Config,
}
use abcfe.Core.Errors.{Result, ok, err, Error, write_failed, db_failure}
use abcfe.Core.Crypto.{Crypto}
use abcfe.Core.Store.{
  Ref, Key, meta_height_key, utxo_key, utxo_list_key, Value, of_utxo_list, Read, found, not_found,
  Batch, put_all, LevelDb,
}
use abcfe.Core.Chain.{Chain, add_block}
use abcfe.Core.Merkle.{calculate_merkle_root}

abbrev pub settings : Config
settings = record {
  network_id = 1 ∷ [];
  transaction_version = 2 ∷ [];
  protocol_version = 3 ∷ [];
  min_fee = 1;
  block_reward = 50;
  max_memo_size = 0;
  max_data_size = 0;
  system_addresses = [];
  system_balances = [];
  genesis_timestamp = pos 0;
}

-- Hashes that tell the test's transactions and blocks apart.
abbrev pub toy : Crypto
toy = record {
  PublicKey = ℕ;
  hash_tx = λ t. 500 + (length t.inputs + 10 * length t.memo);
  hash_header = λ h. 9000 + h.height;
  hash_pair = λ a b. 1000 * a + b;
  parse_pkix = λ bs. elim bs [ [] ↦ none | b ∷ _ ↦ some b ];
  key_address = λ key. key;
  verify_asn1 = λ key h n sig. true;
}

pub some_eq : {a b : Key → Read} → Option.some a ≡ some b → a ≡ b
some_eq e = cc

-- A database in memory.
abbrev pub memory : LevelDb
memory = record {
  Db = Key → Read;
  get = λ db k. db k;
  write = λ db b. some (λ k. put_all b k (db k));
  get-write = λ db db' b k e. ap (λ f. f k) (some_eq (sym e));
}

abbrev pub refused : Batch → Bool
refused ((meta_height_key, v) ∷ b) = true
refused b = false

abbrev pub fragile_write : (Key → Read) → Batch → Option (Key → Read)
fragile_write db b = elim (refused b) [ true ↦ none | false ↦ some (λ k. put_all b k (db k)) ]

pub fragile_write_reads :
    (db db' : Key → Read) (b : Batch) (k : Key)
    → fragile_write db b ≡ some db'
    → db' k ≡ put_all b k (db k)
fragile_write_reads db db' b k e = go (refused b) e
  where
    go :
        (t : Bool)
        → elim t [ true ↦ none | false ↦ some (λ j. put_all b j (db j)) ] ≡ some db'
        → db' k ≡ put_all b k (db k)
    go true h = cc
    go false h = ap (λ f. f k) (some_eq (sym h))

-- A database that refuses the batch of the chain's state.
abbrev pub fragile : LevelDb
fragile = record {
  Db = Key → Read;
  get = λ db k. db k;
  write = fragile_write;
  get-write = fragile_write_reads;
}

abbrev pub pays : Address → ℕ → TxOutput
pays a n = record { address = a; amount = n; tx_type = general }

abbrev pub funding : Transaction
funding = record {
  version = 2 ∷ [];
  network_id = 1 ∷ [];
  id = 500;
  timestamp = pos 0;
  inputs = [];
  outputs = pays 7 100 ∷ [];
  memo = [];
  payload = [];
}

-- 0x30 and the length 70 stand in front of the signature.
abbrev pub owner_signature : ℕ
owner_signature = 0x30 * 256 ^ 71 + 70 * 256 ^ 70

abbrev pub spends_funding : TxInput
spends_funding = record {
  tx_id = 500;
  output_index = 0;
  signature = owner_signature;
  public_key = 7 ∷ [];
}

abbrev pub payment : Transaction
payment = record {
  version = 2 ∷ [];
  network_id = 1 ∷ [];
  id = 501;
  timestamp = pos 5;
  inputs = spends_funding ∷ [];
  outputs = pays 8 60 ∷ pays 7 39 ∷ [];
  memo = [];
  payload = [];
}

abbrev pub reward : Transaction
reward = record funding { id = 510; memo = 9 ∷ []; outputs = pays 3 51 ∷ [] }

abbrev pub block_at : ℕ → Hash → List Transaction → Block
block_at height prev txs = record {
  header = record {
    hash = 9000 + height;
    prev_hash = prev;
    version = 3 ∷ [];
    height = height;
    merkle_root = calculate_merkle_root toy txs;
    timestamp = pos (10 * height);
  };
  transactions = txs;
  proposer = 3;
  signature = 0;
  commit_signatures = [];
}

abbrev pub genesis : Block
genesis = block_at 0 0 (funding ∷ [])

abbrev pub first : Block
first = block_at 1 9000 (reward ∷ payment ∷ [])

abbrev pub nowhere : Key → Read
nowhere k = not_found

abbrev pub empty_chain : Chain (Key → Read)
empty_chain = record { latest_height = 0; latest_block_hash = none; db = nowhere; mempool = [] }

unfoldable pub started : Chain (Key → Read)
unfolding add_block
started = (add_block memory empty_chain genesis).0

pub started_lem : add_block memory empty_chain genesis ≡ (started, ok tt)
unfolding started add_block
started_lem = refl
