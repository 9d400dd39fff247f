-- ===== src/Core/Store/Text.antt =====
-- The strings that the keys of the database are: common/utils/prefix_gen.go over the prefixes of
-- protocol/prefix.go, and those of the metadata that core/blockchain.go writes out. The functions
-- `HashToString` and `AddressToString` write the digits of the number that the bytes are.
pub mod Reader
pub mod Distinct
use abcfe.Base.{
  ℕ, zero, suc, ◌+◌, ◌-◌, ◌/◌, ◌%◌, ◌^◌, List, [], ◌∷◌, ◌++◌, ltb, if◌then◌else◌, u64_mod,
}
use abcfe.Base.Int.{ℤ, pos, negsuc}
use abcfe.Core.Types.{Hash, Address, Bytes}
use abcfe.Base.Text.{codes, decimal, hex_text}
use abcfe.Core.Store.{
  Key, block_key, height_key, tx_key, tx_block_key, tx_inputs_key, tx_input_key, tx_outputs_key,
  tx_output_key, utxo_key, utxo_list_key, meta_height_key, meta_hash_key, meta_height_at_key,
}

unfoldable pub hash_to_string : Hash → Bytes
hash_to_string h = hex_text 64 h

unfoldable pub address_to_string : Address → Bytes
address_to_string a = hex_text 40 a

-- `strconv.Itoa`
unfoldable pub itoa : ℤ → Bytes
itoa (pos n) = decimal n
itoa (negsuc n) = 45 ∷ decimal (suc n)

-- `int(idx)` of a `uint64`
abbrev pub int_of : ℕ → ℤ
int_of n = if ltb n 9223372036854775808 then pos n else negsuc (u64_mod - 1 - n)

unfoldable pub get_block_height_key : ℕ → Bytes
get_block_height_key height = codes "blk:h:" ++ decimal height

unfoldable pub get_block_hash_key : Hash → Bytes
get_block_hash_key h = codes "blk:" ++ hash_to_string h

unfoldable pub get_tx_hash_key : Hash → Bytes
get_tx_hash_key h = codes "tx:" ++ hash_to_string h

unfoldable pub get_tx_status_key : Hash → Bytes
get_tx_status_key h = codes "tx:status:" ++ hash_to_string h

unfoldable pub get_tx_block_hash_key : Hash → Bytes
get_tx_block_hash_key h = codes "tx:blk:" ++ hash_to_string h

unfoldable pub get_tx_input_key : Hash → ℤ → Bytes
get_tx_input_key h (pos i) = codes "tx:in:" ++ (hash_to_string h ++ (codes ":" ++ itoa (pos i)))
get_tx_input_key h (negsuc i) = codes "tx:in:" ++ hash_to_string h

unfoldable pub get_tx_output_key : Hash → ℤ → Bytes
get_tx_output_key h (pos i) = codes "tx:out:" ++ (hash_to_string h ++ (codes ":" ++ itoa (pos i)))
get_tx_output_key h (negsuc i) = codes "tx:out:" ++ hash_to_string h

unfoldable pub get_utxo_key : Hash → ℤ → Bytes
get_utxo_key h i = codes "utxo:" ++ (hash_to_string h ++ (codes ":" ++ itoa i))

unfoldable pub get_utxo_list_key : Address → Bytes
get_utxo_list_key a = codes "utxo:addr:" ++ address_to_string a

unfoldable pub get_utxo_balance_key : Address → Bytes
get_utxo_balance_key a = codes "utxo:bal:" ++ address_to_string a

-- The string of a key, as the code that reads and writes under it makes it.
unfoldable pub key_text : Key → Bytes
key_text (block_key h) = get_block_hash_key h
key_text (height_key n) = get_block_height_key n
key_text (tx_key h) = get_tx_hash_key h
key_text (tx_block_key h) = get_tx_block_hash_key h
key_text (tx_inputs_key h) = get_tx_input_key h (negsuc 0)
key_text (tx_input_key h i) = get_tx_input_key h (pos i)
key_text (tx_outputs_key h) = get_tx_output_key h (negsuc 0)
key_text (tx_output_key h i) = get_tx_output_key h (pos i)
key_text (utxo_key h i) = get_utxo_key h (int_of i)
key_text (utxo_list_key a) = get_utxo_list_key a
key_text meta_height_key = codes "meta:height"
key_text meta_hash_key = codes "meta:hash"
key_text (meta_height_at_key n) = codes "meta:height" ++ decimal n
