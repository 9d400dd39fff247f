-- ===== src/Core/Store/Text/Distinct.antt =====
-- The strings of two keys.
use native.Mathlib.Nat.{mod-lt, one-le-pow}
use mathlib.Core.List.{append-nil}
use abcfe.Base.{
  ◌/◌, ◌%◌, ℕ, zero, suc, ◌-◌, ◌<◌, ◌≤◌, ◌^◌, [], ◌∷◌, ◌++◌, none, some, true, false, ◌≡◌, refl,
  sym, ◌∙◌, ap, subst, ◌↔◌, ◌==◌, ltb, u64_mod, arith, Bool-cases, length, inl, inr,
}
use abcfe.Base.Text.{
  codes, decimal, hex_digit, hex_text, read_decimal, read_hex, read_decimal-decimal, decimal_first,
  read_hex-hex_text, top_lt,
}
use abcfe.Core.Types.{Bytes}
use abcfe.Core.Store.{
  Key, block_key, height_key, tx_key, tx_block_key, tx_inputs_key, tx_input_key, tx_outputs_key,
  tx_output_key, utxo_key, utxo_list_key, meta_height_key, meta_hash_key, meta_height_at_key,
  key_eq,
}
use abcfe.Core.Store.Text.{
  key_text, int_of, itoa, hash_to_string, address_to_string, get_block_hash_key, get_tx_hash_key,
  get_block_height_key, get_tx_block_hash_key, get_tx_input_key, get_tx_output_key, get_utxo_key,
  get_utxo_list_key,
}
use abcfe.Core.Store.Text.Reader.{
  or_else-none, read_key, hash_key, read_index, read_meta_height, strip,
}

-- A hash is 32 bytes, an address 20, a height and the index of a used output are a `uint64`, and
-- the index in a list is an `int` that is not negative.
abbrev pub InRange : Key → Type 0
InRange (block_key h) = h < 16 ^ 64
InRange (height_key n) = n < u64_mod
InRange (tx_key h) = h < 16 ^ 64
InRange (tx_block_key h) = h < 16 ^ 64
InRange (tx_inputs_key h) = h < 16 ^ 64
InRange (tx_input_key h i) = (h < 16 ^ 64) × (i < 9223372036854775808)
InRange (tx_outputs_key h) = h < 16 ^ 64
InRange (tx_output_key h i) = (h < 16 ^ 64) × (i < 9223372036854775808)
InRange (utxo_key h i) = (h < 16 ^ 64) × (i < u64_mod)
InRange (utxo_list_key a) = a < 16 ^ 40
InRange meta_height_key = Unit
InRange meta_hash_key = Unit
InRange (meta_height_at_key n) = n < u64_mod

not_digit : (q d : ℕ) → 103 ≤ q → d < 16 → (q == hex_digit d) ≡ false
not_digit q d hq h = ground arith

-- A prefix with a byte that is no hexadecimal digit is not one of a hash's text.
strip-hex :
    (ps : Bytes) (q : ℕ) (qs : Bytes) (w n : ℕ) (s : Bytes)
    → 103 ≤ q
    → length ps < w
    → n < 16 ^ w
    → strip (ps ++ (q ∷ qs)) (hex_text w n ++ s) ≡ none
unfolding hex_text
strip-hex ps q qs zero n s hq short h = absurd (omega (arith, short))
strip-hex [] q qs (suc w) n s hq short h = rw (not_digit q (n / 16 ^ w) hq (top_lt w n h)) refl
strip-hex (p ∷ ps) q qs (suc w) n s hq short h = elim (Bool-cases (p == hex_digit (n / 16 ^ w))) [
  | inl same ↦ rw same (
      strip-hex ps q qs w (n % 16 ^ w) s hq (omega (arith, short))
        (mod-lt n (one-le-pow w 16 (omega arith))))
  | inr other ↦ rw other refl
]

strip-hex_whole :
    (ps : Bytes) (q : ℕ) (qs : Bytes) (w n : ℕ)
    → 103 ≤ q
    → length ps < w
    → n < 16 ^ w
    → strip (ps ++ (q ∷ qs)) (hex_text w n) ≡ none
strip-hex_whole ps q qs w n hq short h =
    subst (λ t. strip (ps ++ (q ∷ qs)) t ≡ none) (append-nil (hex_text w n))
      (strip-hex ps q qs w n [] hq short h)

read_hex_start : (w n : ℕ) (s : Bytes) → n < 16 ^ w → read_hex w 0 (hex_text w n ++ s) ≡ some (n, s)
read_hex_start w n s h = read_hex-hex_text w 0 n s h ∙ ap (λ m. some (m, s)) (omega arith)

read_hex_whole : (w n : ℕ) → n < 16 ^ w → read_hex w 0 (hex_text w n) ≡ some (n, [])
read_hex_whole w n h =
    subst (λ t. read_hex w 0 t ≡ some (n, [])) (append-nil (hex_text w n)) (read_hex_start w n [] h)

read_meta_height-decimal :
    (n : ℕ) → n < u64_mod → read_meta_height (decimal n) ≡ meta_height_at_key n
unfolding read_meta_height
read_meta_height-decimal n r =
    let (c, s, e, low, high) = decimal_first n (omega (arith, r)) in
    rw e (
      ap meta_height_at_key
        (ap (read_decimal 0) (sym e) ∙ read_decimal-decimal n (omega (arith, r))))

read_index-int_of : (i : ℕ) → i < u64_mod → read_index (itoa (int_of i)) ≡ i
unfolding read_index itoa
read_index-int_of i r = elim (Bool-cases (ltb i 9223372036854775808)) [
  | inl small ↦
      let (c, s, e, low, high) = decimal_first i (omega (arith, r)) in
      rw small (
        rw e (
          ground (arith, low)
          ∙ ap (read_decimal 0) (sym e)
          ∙ read_decimal-decimal i (omega (arith, r))))
  | inr large ↦ rw large (
      ap (λ m. u64_mod - m)
        (read_decimal-decimal (suc (18446744073709551615 - i)) (omega (arith, r)))
      ∙ omega (arith, r))
]

read_block :
    (t : Bytes)
    → strip (codes "h:") t ≡ none
    → read_key (codes "blk:" ++ t) ≡ hash_key block_key (λ h r. block_key h) (read_hex 64 0 t)
unfolding read_key
read_block t e = or_else-none _ _ _ e

read_tx :
    (t : Bytes)
    → strip (codes "blk:") t ≡ none
    → strip (codes "in:") t ≡ none
    → strip (codes "out:") t ≡ none
    → read_key (codes "tx:" ++ t) ≡ hash_key tx_key (λ h r. tx_key h) (read_hex 64 0 t)
unfolding read_key
read_tx t e e' e'' = or_else-none _ _ _ e ∙ or_else-none _ _ _ e' ∙ or_else-none _ _ _ e''

read_utxo :
    (t : Bytes)
    → strip (codes "addr:") t ≡ none
    → read_key (codes "utxo:" ++ t)
      ≡ hash_key (λ h. utxo_key h 0) (λ h r. utxo_key h (read_index r)) (read_hex 64 0 t)
unfolding read_key
read_utxo t e = or_else-none _ _ _ e

read_key-key_text : (k : Key) → InRange k → read_key (key_text k) ≡ some k
unfolding read_key key_text hash_key hash_to_string address_to_string get_block_hash_key
    get_block_height_key get_tx_hash_key get_tx_block_hash_key get_tx_input_key get_tx_output_key
    get_utxo_key get_utxo_list_key itoa read_meta_height
read_key-key_text (block_key h) r =
    read_block (hex_text 64 h)
      (strip-hex_whole [] 104 (codes ":") 64 h (omega arith) (omega arith) r)
    ∙ ap (hash_key block_key (λ h r. block_key h)) (read_hex_whole 64 h r)
read_key-key_text (height_key n) r =
    ap (λ m. some (height_key m)) (read_decimal-decimal n (omega (arith, r)))
read_key-key_text (tx_key h) r =
    read_tx (hex_text 64 h)
      (strip-hex_whole (codes "b") 108 (codes "k:") 64 h (omega arith) (omega arith) r)
      (strip-hex_whole [] 105 (codes "n:") 64 h (omega arith) (omega arith) r)
      (strip-hex_whole [] 111 (codes "ut:") 64 h (omega arith) (omega arith) r)
    ∙ ap (hash_key tx_key (λ h r. tx_key h)) (read_hex_whole 64 h r)
read_key-key_text (tx_block_key h) r =
    ap (hash_key tx_block_key (λ h r. tx_block_key h)) (read_hex_whole 64 h r)
read_key-key_text (tx_inputs_key h) r =
    ap (hash_key tx_inputs_key (λ h r. tx_input_key h (read_decimal 0 r))) (read_hex_whole 64 h r)
read_key-key_text (tx_input_key h i) r =
    ap (hash_key tx_inputs_key (λ h r. tx_input_key h (read_decimal 0 r)))
      (read_hex_start 64 h (codes ":" ++ decimal i) r.0)
    ∙ ap (λ m. some (tx_input_key h m)) (read_decimal-decimal i (omega (arith, r.1)))
read_key-key_text (tx_outputs_key h) r =
    ap (hash_key tx_outputs_key (λ h r. tx_output_key h (read_decimal 0 r))) (read_hex_whole 64 h r)
read_key-key_text (tx_output_key h i) r =
    ap (hash_key tx_outputs_key (λ h r. tx_output_key h (read_decimal 0 r)))
      (read_hex_start 64 h (codes ":" ++ decimal i) r.0)
    ∙ ap (λ m. some (tx_output_key h m)) (read_decimal-decimal i (omega (arith, r.1)))
read_key-key_text (utxo_key h i) r =
    let t = codes ":" ++ itoa (int_of i) in
    read_utxo (hex_text 64 h ++ t)
      (strip-hex (codes "add") 114 (codes ":") 64 h t (omega arith) (omega arith) r.0)
    ∙ ap (hash_key (λ h. utxo_key h 0) (λ h r. utxo_key h (read_index r)))
        (read_hex_start 64 h t r.0)
    ∙ ap (λ m. some (utxo_key h m)) (read_index-int_of i r.1)
read_key-key_text (utxo_list_key a) r =
    ap (hash_key utxo_list_key (λ h r. utxo_list_key h)) (read_hex_whole 40 a r)
read_key-key_text meta_height_key r = refl
read_key-key_text meta_hash_key r = refl
read_key-key_text (meta_height_at_key n) r = ap some (read_meta_height-decimal n r)

key_eq_self : (k : Key) → key_eq k k ≡ true
key_eq_self (block_key a) = ground arith
key_eq_self k = ground arith

key_eq-≡ : (j k : Key) → key_eq j k ≡ true → j ≡ k
key_eq-≡ (block_key a) (block_key b) e = ground (arith, e)
key_eq-≡ j k e = ground (arith, e)

key_text-injective : (j k : Key) → InRange j → InRange k → key_text j ≡ key_text k → j ≡ k
key_text-injective j k r s e =
    ap (λ o. elim o [ none ↦ j | some l ↦ l ])
      (sym (read_key-key_text j r) ∙ ap read_key e ∙ read_key-key_text k s)

-- Two keys of the database have the same string exactly when `key_eq` holds of them, for keys whose
-- numbers are in range.
pub key_eq-key_text :
    (j k : Key) → InRange j → InRange k → (key_eq j k ≡ true) ↔ (key_text j ≡ key_text k)
key_eq-key_text j k r s = (
  λ e. ap key_text (key_eq-≡ j k e),
  λ e. subst (λ l. key_eq j l ≡ true) (key_text-injective j k r s e) (key_eq_self j),
)
