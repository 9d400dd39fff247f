-- ===== src/Core/Store/Text/Reader.antt =====
-- A reader of the strings of the keys.
use abcfe.Base.{ℕ, ◌-◌, List, [], ◌∷◌, Option, none, some, ◌≡◌, refl, ◌==◌, if◌then◌else◌, u64_mod}
use abcfe.Base.Text.{codes, read_decimal, read_hex}
use abcfe.Core.Types.{Bytes}
use abcfe.Core.Store.{
  Key, block_key, height_key, tx_key, tx_block_key, tx_inputs_key, tx_input_key, tx_outputs_key,
  tx_output_key, utxo_key, utxo_list_key, meta_height_key, meta_hash_key, meta_height_at_key,
}

-- What follows a prefix.
abbrev pub strip : Bytes → Bytes → Option Bytes
strip [] s = some s
strip (p ∷ ps) [] = none
strip (p ∷ ps) (c ∷ s) = if p == c then strip ps s else none

-- A hash to the end of the text, or with what stands after it and one more byte.
unfoldable pub hash_key : (ℕ → Key) → (ℕ → Bytes → Key) → Option (ℕ × Bytes) → Option Key
hash_key whole part none = none
hash_key whole part (some (h, [])) = some (whole h)
hash_key whole part (some (h, c ∷ s)) = some (part h s)

unfoldable pub read_index : Bytes → ℕ
read_index [] = 0
read_index (c ∷ s) = if c == 45 then u64_mod - read_decimal 0 s else read_decimal 0 (c ∷ s)

unfoldable pub read_meta_height : Bytes → Key
read_meta_height [] = meta_height_key
read_meta_height (c ∷ s) = meta_height_at_key (read_decimal 0 (c ∷ s))

-- The readers of what follows each prefix, a longer prefix before its own.
abbrev pub readers : List (Bytes × (Bytes → Option Key))
readers =
    (codes "blk:h:", λ s. some (height_key (read_decimal 0 s)))
    ∷ (codes "blk:", λ s. hash_key block_key (λ h r. block_key h) (read_hex 64 0 s))
    ∷ (codes "tx:blk:", λ s. hash_key tx_block_key (λ h r. tx_block_key h) (read_hex 64 0 s))
    ∷ (
      codes "tx:in:",
      λ s. hash_key tx_inputs_key (λ h r. tx_input_key h (read_decimal 0 r)) (read_hex 64 0 s),
    )
    ∷ (
      codes "tx:out:",
      λ s. hash_key tx_outputs_key (λ h r. tx_output_key h (read_decimal 0 r)) (read_hex 64 0 s),
    )
    ∷ (codes "tx:", λ s. hash_key tx_key (λ h r. tx_key h) (read_hex 64 0 s))
    ∷ (codes "utxo:addr:", λ s. hash_key utxo_list_key (λ h r. utxo_list_key h) (read_hex 40 0 s))
    ∷ (
      codes "utxo:",
      λ s. hash_key (λ h. utxo_key h 0) (λ h r. utxo_key h (read_index r)) (read_hex 64 0 s),
    )
    ∷ (codes "meta:height", λ s. some (read_meta_height s))
    ∷ (codes "meta:hash", λ s. some meta_hash_key)
    ∷ []

unfoldable pub or_else : Option Bytes → (Bytes → Option Key) → Option Key → Option Key
or_else none read other = other
or_else (some r) read other = read r

pub or_else-none :
    (o : Option Bytes) (read : Bytes → Option Key) (other : Option Key)
    → o ≡ none
    → or_else o read other ≡ other
unfolding or_else
or_else-none o read other e = rw e refl

unfoldable pub first_reader : List (Bytes × (Bytes → Option Key)) → Bytes → Option Key
unfolding or_else
first_reader [] s = none
first_reader ((p, read) ∷ rs) s = or_else (strip p s) read (first_reader rs s)

unfoldable pub read_key : Bytes → Option Key
unfolding first_reader or_else
read_key s = first_reader readers s
