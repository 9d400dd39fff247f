-- ===== src/Core/Store.antt =====
-- The database: the keys of common/utils/prefix_gen.go and protocol/prefix.go, the values under
-- them, and what the code relies on of LevelDB (github.com/syndtr/goleveldb), which is a parameter.
-- A value is kept as the Go value that its bytes encode: gob is the standard library's, and
-- decoding bytes of another type is its error. The index in a key is `int(idx)`, one to one on
-- 64-bit words.
pub mod Text
use abcfe.Base.{
  ℕ, List, [], ◌∷◌, ◌++◌, Option, some, Bool, true, false, ◌≡◌, refl, ◌==◌, ◌&&◌, if◌then◌else◌,
}
use abcfe.Core.Types.{Hash, Address, Bytes, TxInput, TxOutput, Transaction, Block, Utxo}

-- A reference to an output: what `GetUtxoKey` writes after its prefix.
pub record Ref : Type 0 where
  pub tx : Hash
  pub index : ℕ

pub data Key : Type 0 where
  block_key : Hash → Key
  height_key : ℕ → Key
  tx_key : Hash → Key
  tx_block_key : Hash → Key
  tx_inputs_key : Hash → Key  -- `GetTxInputKey` at `WholeTxIdx`
  tx_input_key : Hash → ℕ → Key
  tx_outputs_key : Hash → Key  -- `GetTxOutputKey` at `WholeTxIdx`
  tx_output_key : Hash → ℕ → Key
  utxo_key : Hash → ℕ → Key
  utxo_list_key : Address → Key
  meta_height_key : Key
  meta_hash_key : Key
  meta_height_at_key : ℕ → Key  -- "meta:height" and the height

-- Two keys are the same string.
abbrev pub key_eq : Key → Key → Bool
key_eq (block_key a) (block_key b) = a == b
key_eq (height_key a) (height_key b) = a == b
key_eq (tx_key a) (tx_key b) = a == b
key_eq (tx_block_key a) (tx_block_key b) = a == b
key_eq (tx_inputs_key a) (tx_inputs_key b) = a == b
key_eq (tx_input_key a i) (tx_input_key b j) = a == b && i == j
key_eq (tx_outputs_key a) (tx_outputs_key b) = a == b
key_eq (tx_output_key a i) (tx_output_key b j) = a == b && i == j
key_eq (utxo_key a i) (utxo_key b j) = a == b && i == j
key_eq (utxo_list_key a) (utxo_list_key b) = a == b
key_eq meta_height_key meta_height_key = true
key_eq meta_hash_key meta_hash_key = true
key_eq (meta_height_at_key a) (meta_height_at_key b) = a == b
key_eq _ _ = false

-- `AddrUTXOSet`: a Go map from keys to `true`, as the list of its keys.
abbrev pub AddrUtxoSet : Type 0
AddrUtxoSet = List Ref

pub data Value : Type 0 where
  of_block : Block → Value
  of_hash : Hash → Value
  of_tx : Transaction → Value
  of_inputs : List TxInput → Value
  of_input : TxInput → Value
  of_outputs : List TxOutput → Value
  of_output : TxOutput → Value
  of_utxo : Utxo → Value
  of_utxo_list : AddrUtxoSet → Value
  of_number : ℕ → Value
  of_text : Bytes → Value

-- What `db.Get` answers: a value, `leveldb.ErrNotFound`, or another error.
pub data Read : Type 0 where
  found : Value → Read
  not_found : Read
  failed : Read

-- `leveldb.Batch`: the puts in the order in which they were made.
abbrev pub Batch : Type 0
Batch = List (Key × Value)

-- The last put under a key wins; where there is none the old answer stays.
abbrev pub put_all : Batch → Key → Read → Read
put_all [] k r = r
put_all ((j, v) ∷ b) k r = put_all b k (if key_eq j k then found v else r)

-- What the code relies on of LevelDB: a batch is written whole or not at all, and a read after it
-- sees its puts and nothing else.
pub record LevelDb : Type 1 where
  pub Db : Type 0
  pub get : Db → Key → Read
  pub write : Db → Batch → Option Db
  pub get-write :
      (db db' : Db) (b : Batch) (k : Key)
      → write db b ≡ some db'
      → get db' k ≡ put_all b k (get db k)

pub put_all-append :
    (b c : Batch) (k : Key) (r : Read) → put_all (b ++ c) k r ≡ put_all c k (put_all b k r)
put_all-append [] c k r = refl
put_all-append ((j, v) ∷ b) c k r = put_all-append b c k (if key_eq j k then found v else r)
